-- ===== src/Pds/Close/InError.antt =====
-- uet_pds_close_pdc_in_error: it ends, and SES hears of every packet.
use uet_ref_prov.Base.{
  Bool, false, is_zero, ℕ, ◌≡◌, refl, sym, ap, ◌∙◌, subst, true, not, ◌&&◌, Option, none, some,
  List, ℤ, pos, zero, suc, ◌+◌, if_both, ◌>>=◌,
}
use uet_ref_prov.Bitmap.{Bitmap, bm_get, bm_set}
use uet_ref_prov.Bitmap.Bits.{bit, datum}
use uet_ref_prov.Pds.State.{Pdc, Event}
use uet_ref_prov.Pds.Rx.{einval}
use uet_ref_prov.Pds.Rx.Window.{IsWindow}
use uet_ref_prov.Pds.Tx.{tx_psn_allowed}
use uet_ref_prov.Pds.Free.Loop.{released, tracked, free_pdc_lem, freed_pdc}
use uet_ref_prov.Pds.Ack.{is_syn, is_established}
use uet_ref_prov.Pds.Close.{
  Env, Sending, Ctrl, close, close_req, with_world, with_pdc, need_track, cp_psn, built, tx_bm_idx,
  with_tx_bm, send_ctrl_pkt, send_built, send_allocated, send_tracked, send_held, drain_tx_pkts,
  initiate_pdc_close, close_requested_pdc, closing_from, close_asked, target_pdc_close, is_busy,
  close_pdc_in_error, eagain, free_sending,
}
use uet_ref_prov.Pds.Close.Drain.{errors, handles_onto, drain_from-Drained}

-- SES has been told of these failures.
abbrev Tells : List ℕ → Sending → Type 0
Tells l s = errors s.world.events ≡ l

abbrev Quiet : List ℕ → ℤ × Sending → Type 0
Quiet l r = Tells l r.1

-- A control packet tells SES nothing.
module _ (env : Env) (l : List ℕ) where
  held-Tells : (p : ℕ) (idx : ℤ) (s : Sending) → Tells l s → Tells l (send_held env p idx s).1
  held-Tells p idx s e = if_both (Quiet l) (is_zero (env.sent p)) _ _ e e

  tracked-Tells : (p : ℕ) (idx : ℤ) (s : Sending) → Tells l s → Tells l (send_tracked env p idx s).1
  tracked-Tells p idx s e = if_both (Quiet l) (bm_get s.world.pdc.tx_bm idx).0 _ _ e (
      if_both (Quiet l) (not (bm_set s.world.pdc.tx_bm idx (some p)).0) _ _ e
        (held-Tells p idx (with_tx_bm s (bm_set s.world.pdc.tx_bm idx (some p)).1) e))

  built-Tells : (c : Ctrl) (s : Sending) (p : ℕ) → Tells l s → Tells l (send_built env c s p).1
  built-Tells c s p e =
      if_both (Quiet l) (not (need_track c)) _ _ (if_both (Quiet l) (is_zero (env.sent p)) _ _ e e)
        (if_both (Quiet l) (not (tx_psn_allowed s.world.pdc (cp_psn s.world c))) _ _ e (
          tracked-Tells p (tx_bm_idx s.world.pdc (cp_psn s.world c))
            (with_world s (built s.world p (cp_psn s.world c))) e))

  allocated-Tells :
      (c : Ctrl) (s : Sending) (o : Option ℕ) → Tells l s → Tells l (send_allocated env c s o).1
  allocated-Tells c s none e = e
  allocated-Tells c s (some p) e = built-Tells c s p e

  send-Tells : (c : Ctrl) (s : Sending) → Tells l s → Tells l (send_ctrl_pkt env c s).1
  unfolding send_ctrl_pkt
  send-Tells c s e = allocated-Tells c s env.ctrl_pkt e

  target-Tells : (s : Sending) → Tells l s → Tells l (target_pdc_close env s).1
  unfolding target_pdc_close
  target-Tells s e = if_both (Quiet l) s.world.pdc.close_started _ _ e (
      if_both (Quiet l) (not (is_established s.world.pdc.state)) _ _ e (
        if_both (Quiet l) (is_busy s.tx_list) _ _ e
          (asked (send_ctrl_pkt env close_req s) (send-Tells close_req s e))))
    where
      asked : (r : ℤ × Sending) → Tells l r.1 → Tells l (close_asked r).1
      asked (rc, t) h = if_both (Quiet l) (is_zero rc) _ _ h h

-- The call returns, and SES has been told of these failures.
abbrev Returns : List ℕ → Option (ℤ × Sending) → Type 0
Returns l o = (r : ℤ × Sending) × (o ≡ some r) × Tells l r.1

errors-tracked :
    (bm : Bitmap ℕ) (n i : ℕ) (events : List Event) → errors (tracked bm n i events) ≡ errors events
unfolding tracked
errors-tracked bm zero i events = refl
errors-tracked bm (suc n) i events =
    errors-tracked bm n (i + 1) (released (bit bm i) (datum bm i) events)
    ∙ only_freed (bit bm i) (datum bm i) events
  where
    only_freed : (b : Bool) (o : Option ℕ) (l : List Event) → errors (released b o l) ≡ errors l
    only_freed true none l = refl
    only_freed true (some p) l = refl
    only_freed false o l = refl

module _ (env : Env) (l : List ℕ) where
  free-Returns :
      (s : Sending)
      → IsWindow s.world.pdc.tx_bm
      → IsWindow s.world.pdc.rx_bm
      → Tells l s
      → Returns l (free_sending s)
  free-Returns s of_tx of_rx e = (
    (pos 0, with_world s (freed_pdc s.world)),
    rw ((free_pdc_lem s.world of_tx of_rx).0) refl,
    errors-tracked s.world.pdc.rx_bm 128 0 (tracked s.world.pdc.tx_bm 128 0 s.world.events)
        ∙ errors-tracked s.world.pdc.tx_bm 128 0 s.world.events
        ∙ e,
  )

  requested-Returns :
      (s : Sending)
      → IsWindow s.world.pdc.tx_bm
      → IsWindow s.world.pdc.rx_bm
      → Tells l s
      → Returns l (close_requested_pdc env s)
  requested-Returns s of_tx of_rx e =
      if_both (Returns l) s.world.pdc.active_msg_id_valid _ _ ((eagain, s), refl, e)
        (if_both (Returns l) (is_busy s.tx_list) _ _ ((eagain, s), refl, e)
          (if_both (Returns l) (is_syn s.world.pdc.state) _ _ (free-Returns s of_tx of_rx e) (
            closing_from s.world.pdc.next_psn (send_ctrl_pkt env close s),
            refl,
            started s.world.pdc.next_psn (send_ctrl_pkt env close s) (send-Tells env l close s e),
          )))
    where
      started : (psn : ℕ) (r : ℤ × Sending) → Tells l r.1 → Tells l (closing_from psn r).1
      started psn (rc, t) h = if_both (Quiet l) (is_zero rc) _ _ h h

  initiate-Returns :
      (s : Sending)
      → IsWindow s.world.pdc.tx_bm
      → IsWindow s.world.pdc.rx_bm
      → Tells l s
      → Returns l (initiate_pdc_close env s)
  unfolding initiate_pdc_close
  initiate-Returns s of_tx of_rx e =
      if_both (Returns l) (s.world.pdc.close_requested && s.world.pdc.close_started) _ _
        ((pos 0, s), refl, e)
        (if_both (Returns l) (not s.world.pdc.is_initiator) _ _ ((einval, s), refl, e)
          (requested-Returns (with_pdc s (record (s.world.pdc) { close_requested = true })) of_tx
            of_rx e))

-- With sound windows and an upcall for failures, uet_pds_close_pdc_in_error ends, whatever allocation
-- and transmission answer, and SES has then been told once of each packet of the transmit list that
-- it knows, in their order, and of no other.
pub close_pdc_in_error_lem :
    (env : Env) (s : Sending)
    → env.has_pds_err ≡ true
    → IsWindow s.world.pdc.tx_bm
    → IsWindow s.world.pdc.rx_bm
    → (out : Sending) × (close_pdc_in_error env s ≡ some out)
      × (errors out.world.events ≡ handles_onto s.world.pkts s.tx_list (errors s.world.events))
unfolding close_pdc_in_error drain_tx_pkts
close_pdc_in_error_lem env s e of_tx of_rx =
    let d = drain_from-Drained env s.tx_list s.world e of_tx in
    let rx = subst IsWindow (sym (ap (λ (x : Pdc). x.rx_bm) d.pdc)) of_rx in
    if_both Ends (drain_tx_pkts env s).world.pdc.close_started _ _
      (last (free-Returns env told (drain_tx_pkts env s) d.window rx d.told))
      (if_both Ends (drain_tx_pkts env s).world.pdc.is_initiator _ _
        (last (initiate-Returns env told (drain_tx_pkts env s) d.window rx d.told))
        (
          (target_pdc_close env (drain_tx_pkts env s)).1,
          refl,
          target-Tells env told (drain_tx_pkts env s) d.told,
        ))
  where
    told : List ℕ
    told = handles_onto s.world.pkts s.tx_list (errors s.world.events)

    Ends : Option Sending → Type 0
    Ends o = (out : Sending) × (o ≡ some out) × Tells told out

    last : {o : Option (ℤ × Sending)} → Returns told o → Ends (do r ← o; some r.1)
    last (r, h, t) = (r.1, rw h refl, t)
