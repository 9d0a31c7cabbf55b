-- ===== src/Pds/Nack/Whole.antt =====
-- uet_pds_process_nack as a whole, for a NACK that asks for a packet again.
use uet_ref_prov.Base.{
  ℕ, ◌+◌, ◌-◌, ◌^◌, ◌≤◌, ◌<◌, ◌≡◌, refl, sym, ap, ◌∙◌, subst, inl, inr, Bool, true, false, not,
  ◌&&◌, ◌||◌, Option, none, some, ℤ, pos, ltb, if◌then◌else◌, arith, ◌==◌, if_both, lt→ltb,
  ltb-false,
}
use native.Mathlib.Decide.{dec_lt}
use uet_ref_prov.Bitmap.{bm_get}
use uet_ref_prov.Bitmap.Bits.{bit, datum}
use uet_ref_prov.Pds.Psn.{add32, sub32, psn_after}
use uet_ref_prov.Pds.Psn.Laws.{psn_after_lem}
use uet_ref_prov.Pds.State.{Pdc}
use uet_ref_prov.Pds.Rx.{found, einval}
use uet_ref_prov.Pds.Rx.Window.{IsWindow}
use uet_ref_prov.Pds.Ack.{Ack, check_pkt_src, is_syn}
use uet_ref_prov.Pds.Ack.Sender.{IsSender}
use uet_ref_prov.Pds.Ack.Named.{starts, look}
use uet_ref_prov.Pds.Close.{Env, Sending, with_pdc, tx_bm_idx}
use uet_ref_prov.Pds.Nack.{
  NackAction, NackCode, is_drop, reestablish_start_psn, act, nack_act, retx, nack_action,
  is_new_start, nack_established, nack_found, process_nack,
}
use uet_ref_prov.Pds.Nack.Outcome.{Nacked, out_of_range, not_held}
use uet_ref_prov.Pds.Nack.Packet.{packet}

module _ (env : Env) (a : Ack) (s : Sending) (anchor c b n i : ℕ)
    (sender : IsSender s.world.pdc anchor c b n) (of_rx : IsWindow s.world.pdc.rx_bm)
    (e : env.has_pds_err ≡ true) (near : i < 2 ^ 30) (psn : a.psn ≡ add32 anchor i) where
  -- The state of the PDC and the peer's PDC are all that the NACK may change before it acts.
  abbrev after : Sending
  after = with_pdc s (nack_established a s.world.pdc)

  after-IsSender : IsSender after.world.pdc anchor c b n
  after-IsSender =
      if_both (λ q. IsSender q anchor c b n) (is_syn s.world.pdc.state && not (a.spdcid == 0)) _ _
        (record {
          small = sender.small;
          near = sender.near;
          acked = sender.acked;
          begun = sender.begun;
          fits = sender.fits;
          window = sender.window;
          max_cack = sender.max_cack;
          base = sender.base;
          next = sender.next;
          sent = sender.sent;
        })
        sender

  after-IsWindow : IsWindow after.world.pdc.rx_bm
  after-IsWindow =
      if_both (λ (q : Pdc). IsWindow q.rx_bm) (is_syn s.world.pdc.state && not (a.spdcid == 0)) _ _
        of_rx of_rx

  -- The test of the range, by distances.
  ranges :
      (psn_after s.world.pdc.tx_bm_base_psn a.psn || psn_after a.psn (sub32 s.world.pdc.next_psn 1))
      ≡ (ltb i b || ltb (n - 1) i)
  ranges =
      ap
        (λ (x : ℕ).
          psn_after s.world.pdc.tx_bm_base_psn x || psn_after x (sub32 s.world.pdc.next_psn 1))
        psn
      ∙ ap (λ (x : Bool). x || psn_after (add32 anchor i) (sub32 s.world.pdc.next_psn 1))
          (starts s.world anchor c b n i sender near)
      ∙ ap (λ (x : ℕ). ltb i b || psn_after (add32 anchor i) x)
          (ap (λ (x : ℕ). sub32 x 1) sender.next ∙ omega (arith, sender.acked))
      ∙ ap (λ (x : Bool). ltb i b || x)
          (psn_after_lem anchor i (n - 1) sender.small (omega (arith, near))
            (omega (arith, sender.near))).0

  found-Nacked :
      b ≤ i
      → i < n
      → (r : Bool) → bit after.world.pdc.tx_bm (i - b) ≡ r
      → i < b + 128
      → Nacked env s after b n i
          (nack_found env after (if r then some (datum after.world.pdc.tx_bm (i - b)) else none))
  found-Nacked above high false none_there below = not_held above high none_there
  found-Nacked above high true there below =
      let (p, at) = after-IsSender.window.held (i - b) (omega (arith, above, below)) there in
      subst (λ o. Nacked env s after b n i (nack_found env after (some o))) (sym at)
        (packet env s after b n i p e after-IsSender.window after-IsWindow
          (record { above = above; below = below; arrived = there; packet = at }))

  acts : Nacked env s after b n i (nack_act env retx a s)
  acts = elim (dec_lt i b) [
    | yes low ↦
        subst (Nacked env s after b n i)
          (sym (ap ranged (ranges ∙ ap (λ (x : Bool). x || ltb (n - 1) i) (lt→ltb i b low))))
          (out_of_range (inl low))
    | no above ↦ elim (dec_lt i n) [
      | no high ↦
          subst (Nacked env s after b n i)
            (sym (
              ap ranged (
                ranges
                ∙ ap (λ (x : Bool). ltb i b || x)
                    (lt→ltb (n - 1) i (omega (arith, high, sender.acked)))
                ∙ either (ltb i b))))
            (out_of_range (inr (omega (arith, high))))
      | yes below ↦
          subst (Nacked env s after b n i)
            (sym (
              ap ranged (
                ranges
                ∙ ap (λ (x : Bool). x || ltb (n - 1) i) (ltb-false i b (omega (arith, above)))
                ∙ ltb-false (n - 1) i (omega (arith, below)))
              ∙ ap
                  (λ (x : ℕ).
                    nack_found env after
                      (found (bm_get after.world.pdc.tx_bm (tx_bm_idx after.world.pdc x))))
                  psn
              ∙ ap (nack_found env after) (
                  look after.world anchor c b n i after-IsSender near (omega (arith, above))
                    (omega (arith, below, sender.fits)))))
            (found-Nacked (omega (arith, above)) below (bit after.world.pdc.tx_bm (i - b)) refl
              (omega (arith, below, sender.fits)))
    ]
  ]
    where
      ranged : Bool → Option (ℤ × Sending)
      ranged x = if x then some (einval, s) else act env retx a.psn after

      either : (x : Bool) → (x || true) ≡ true
      either true = refl
      either false = refl

-- A NACK from the PDC's peer that asks for the packet at distance `i` past an anchor again, and is not
-- about the start PSN, is processed without a fault on sound windows and with an upcall for failures.
-- Below the window's base, at distance `b`, or from the next PSN to be sent on, at `n`, it changes nothing
-- and gives EINVAL. Else it may establish the PDC, and that is all where the window holds no such
-- packet, which gives EINVAL, or the packet is acknowledged, or is neither received by the peer nor
-- within its range. If its retries are used up, the PDC is closed in error. If not, a packet that the
-- peer has received is asked about by a control packet and any other is sent again; once that has
-- gone out the packet has one more retry and is the last of the transmit list, and where it fails
-- the code is given back, EAGAIN as 0, and the packet stays where it is with no retry counted.
pub process_nack_lem :
    (env : Env) (code : NackCode) (a : Ack) (s : Sending) (anchor c b n i : ℕ)
    → IsSender s.world.pdc anchor c b n
    → IsWindow s.world.pdc.rx_bm
    → env.has_pds_err ≡ true
    → check_pkt_src s.world.pdc a ≡ true
    → is_new_start code ≡ false
    → nack_action code ≡ retx
    → i < 2 ^ 30
    → a.psn ≡ add32 anchor i
    → Nacked env s (with_pdc s (nack_established a s.world.pdc)) b n i (process_nack env code a s)
unfolding process_nack
process_nack_lem env code a s anchor c b n i sender of_rx e src other retxs near psn =
    subst (Nacked env s (with_pdc s (nack_established a s.world.pdc)) b n i)
      (sym (
        ap
          (λ (x : Bool).
            if not x
            then some (einval, s)
            else if is_new_start code
            then some (pos 0, reestablish_start_psn env a.payload s)
            else by_action (nack_action code))
          src
        ∙ ap
            (λ (x : Bool).
              if x
              then some (pos 0, reestablish_start_psn env a.payload s)
              else by_action (nack_action code))
            other
        ∙ ap by_action retxs))
      (acts env a s anchor c b n i sender of_rx e near psn)
  where
    by_action : NackAction → Option (ℤ × Sending)
    by_action action = if is_drop action then some (einval, s) else nack_act env action a s
