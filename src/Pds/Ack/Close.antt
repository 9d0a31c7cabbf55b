-- ===== src/Pds/Ack/Close.antt =====
-- A control packet that an acknowledgement covers without naming it.
use uet_ref_prov.Base.{
  ℕ, ◌+◌, ◌-◌, ◌^◌, ◌<◌, ◌≡◌, ap, ◌∙◌, Bool, true, false, not, ◌&&◌, ◌||◌, Option, none, some, pos,
  ◌==◌, ◌>>=◌, arith, lt→ltb, ltb-false, ltb,
}
use uet_ref_prov.Pds.Psn.{add32, sub32, psn_after}
use uet_ref_prov.Pds.Psn.Laws.{psn_after_lem}
use uet_ref_prov.Pds.State.{World}
use uet_ref_prov.Pds.Tx.{process_cack, shift_tx_window}
use uet_ref_prov.Pds.Tx.Cack.Loop.{later, Faulty}
use uet_ref_prov.Pds.Ack.{
  Outside, Ack, End, returns, with_mpr, explicit, take_in, sack_in, is_syn, check_pkt_src,
  process_ack,
}
use uet_ref_prov.Pds.Ack.Sender.{IsSender}
use uet_ref_prov.Pds.Ack.Named.{starts}
use uet_ref_prov.Pds.Ack.Taken.{process_cack-faults}

-- An acknowledgement that is accepted, names a PSN in front of the window, and covers by its cumulative
-- PSN a packet of the window that is not yet acknowledged and has no handle of SES, is a fault: SES is
-- told of the NULL handle. The close command is such a packet.
pub covered_faults :
    (o : Outside) (a : Ack) (w : World) (anchor b c i s n p : ℕ)
    → IsSender w.pdc anchor c s n
    → b < n
    → i < 2 ^ 30
    → i < s
    → a.cack_psn ≡ add32 anchor b
    → a.psn ≡ add32 anchor i
    → check_pkt_src w.pdc a ≡ true
    → (is_syn w.pdc.state || w.pdc.dpdcid == a.spdcid) ≡ true
    → Faulty 0 (later c b + 1 - s) w p
    → process_ack o a w ≡ none
unfolding process_ack take_in explicit
covered_faults o a w anchor b c i s n p sender sent near before eb ei source pdc faulty =
    rw
      (
        source,
        accepted (is_syn w.pdc.state) (w.pdc.dpdcid == a.spdcid) pdc,
        beyond,
        ltb-false (n - 1) b (omega (arith, sent)),
        front,
      )
      (ap (λ (x : Option World). (x >>= sack_in a) >>= shift) stops)
  where
    shift : World → Option (World × End)
    shift taken = do shifted ← shift_tx_window taken; some (shifted, returns (pos 0))

    accepted : (x y : Bool) → (x || y) ≡ true → (not x && not y) ≡ false
    accepted x y e = ground arith

    beyond : psn_after a.cack_psn (sub32 w.pdc.next_psn 1) ≡ ltb (n - 1) b
    beyond =
        ap (λ (x : ℕ). psn_after x (sub32 w.pdc.next_psn 1)) eb
        ∙ ap (λ (x : ℕ). psn_after (add32 anchor b) (sub32 x 1)) sender.next
        ∙ ap (psn_after (add32 anchor b)) {x = sub32 (add32 anchor n) 1} {y = add32 anchor (n - 1)}
            (omega (arith, sender.acked))
        ∙ (psn_after_lem anchor b (n - 1) sender.small (omega (arith, sent, sender.near))
            (omega (arith, sender.near))).0

    front : psn_after w.pdc.tx_bm_base_psn a.psn ≡ true
    front =
        ap (psn_after w.pdc.tx_bm_base_psn) ei
        ∙ starts w anchor c s n i sender near
        ∙ lt→ltb i s before

    stops : process_cack a.cack_psn (record w { pdc = with_mpr a w.pdc }) ≡ none
    stops =
        ap (λ (x : ℕ). process_cack x (record w { pdc = with_mpr a w.pdc })) eb
        ∙ process_cack-faults a w anchor c b s n sender sent p faulty
