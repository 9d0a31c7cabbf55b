-- ===== src/Pds/Nack/Packet.antt =====
-- What uet_pds_process_nack does with the packet that is asked for.
use uet_ref_prov.Base.{
  is_zero, ℕ, ◌<◌, ◌≡◌, refl, sym, ap, ◌∙◌, subst, ◌⊎◌, inl, inr, Bool, true, false, not, ◌&&◌,
  Option, none, some, ℤ, pos, ltb, leb, if◌then◌else◌, Bool-cases, arith, lt→ltb, leb-true,
  leb-false,
}
use mathlib.Core.Bool.{false≢true}
use native.Mathlib.Decide.{dec_lt}
use uet_ref_prov.Pds.State.{ctrl_sent, freed, retransmitted}
use uet_ref_prov.Pds.Rx.Window.{IsWindow}
use uet_ref_prov.Pds.Tx.{tx_psn_allowed}
use uet_ref_prov.Pds.Ack.Named.{Holds}
use uet_ref_prov.Pds.Close.{
  eagain, Env, Sending, with_world, log, built, ack_req, send_ctrl_pkt, close_pdc_in_error,
  send_allocated, give_up,
}
use uet_ref_prov.Pds.Close.InError.{close_pdc_in_error_lem}
use uet_ref_prov.Pds.Nack.{
  is_eagain, nack_packet, rtx_pkt, requeue, tried, if_sent, to_tail, close_then_zero,
}
use uet_ref_prov.Pds.Nack.Outcome.{
  Nacked, not_sent, has_ack, waits, exhausted, sent_again, asked_about, failed, no_memory,
  not_asked,
}

module _ (env : Env) (s t : Sending) (b n i p : ℕ) (e : env.has_pds_err ≡ true)
    (of_tx : IsWindow t.world.pdc.tx_bm) (of_rx : IsWindow t.world.pdc.rx_bm)
    (held : Holds t.world b i p) where
  tail_failed : (rc : ℤ) (u : Sending) → is_zero rc ≡ false → to_tail p (rc, u) ≡ (not_sent rc, u)
  tail_failed rc u z =
      ap
        (λ (x : Bool).
          if x then (pos 0, requeue p u) else if is_eagain rc then (pos 0, u) else (rc, u))
        z
      ∙ pair (is_eagain rc)
    where
      pair :
          (x : Bool)
          → (if◌then◌else◌ {A = ℤ × Sending} x (pos 0, u) (rc, u)) ≡ ((if x then pos 0 else rc), u)
      pair true = refl
      pair false = refl

  asked_failed :
      (rc : ℤ) (u : Sending) → is_zero rc ≡ false → to_tail p (if_sent p (rc, u)) ≡ (not_sent rc, u)
  asked_failed rc u z =
      ap (λ (x : Bool). to_tail p (if x then (pos 0, tried p u) else (rc, u))) z
      ∙ tail_failed rc u z

  -- The question for an acknowledgement, in front of the end of the list.
  asks :
      (o : Option ℕ)
      → env.ctrl_pkt ≡ o
      → (t.world.pkts p).dst_recvd ≡ true
      → (t.world.pkts p).tx_pkt_acked ≡ false
      → (t.world.pkts p).tx_retry_cnt < env.max_tx_retries
      → Nacked env s t b n i (some (to_tail p (if_sent p (send_allocated env (ack_req p) t o))))
  asks none c d a l = no_memory held d a l c
  asks (some q) c d a l = elim (Bool-cases (is_zero (env.sent q))) [
    | inl z ↦ rw z (asked_about held d a l c z)
    | inr z ↦
        subst (λ r. Nacked env s t b n i (some r))
          (sym (
            ap
              (λ (x : Bool). to_tail p (
                if_sent p (
                  if x
                  then (pos 0, log (log (ready q) (ctrl_sent q)) (freed q))
                  else give_up (env.sent q) q (ready q))))
              z
            ∙ asked_failed (env.sent q) (log (ready q) (freed q)) z))
          (not_asked held d a l c z)
  ]
    where
      ready : ℕ → Sending
      ready q = with_world t (built t.world q (t.world.pkts p).psn)

  resends :
      (t.world.pkts p).tx_pkt_acked ≡ false
      → (t.world.pkts p).tx_retry_cnt < env.max_tx_retries
      → (tx_psn_allowed t.world.pdc (t.world.pkts p).psn ≡ true)
        ⊎ ((t.world.pkts p).dst_recvd ≡ true)
      → Nacked env s t b n i (some (to_tail p (rtx_pkt env t p)))
  unfolding rtx_pkt send_ctrl_pkt
  resends a l way = elim (Bool-cases (t.world.pkts p).dst_recvd) [
    | inl d ↦
        subst (λ r. Nacked env s t b n i (some (to_tail p r)))
          (sym (
            ap (λ (x : Bool). if x then asked else again)
              (ap (λ (x : Bool). x && ltb (t.world.pkts p).tx_retry_cnt env.max_tx_retries) d
                ∙ lt→ltb (t.world.pkts p).tx_retry_cnt env.max_tx_retries l)))
          (asks env.ctrl_pkt refl d a l)
    | inr d ↦
        subst (λ r. Nacked env s t b n i (some (to_tail p r)))
          (sym (
            ap
              (λ (x : Bool).
                if x && ltb (t.world.pkts p).tx_retry_cnt env.max_tx_retries then asked else again)
              d
            ∙ ap (λ (x : Bool). if not x then (eagain, t) else transmitted) (allowed way d)))
          (elim (Bool-cases (is_zero (env.sent p))) [
            | inl z ↦ rw z (sent_again held d a l (allowed way d) z)
            | inr z ↦
                subst (λ r. Nacked env s t b n i (some r))
                  (sym (
                    ap
                      (λ (x : Bool).
                        to_tail p (
                          if x
                          then (pos 0, tried p (log t (retransmitted p)))
                          else (env.sent p, t)))
                      z
                    ∙ tail_failed (env.sent p) t z))
                  (failed held d a l (allowed way d) z)
          ])
  ]
    where
      asked : ℤ × Sending
      asked = if_sent p (send_ctrl_pkt env (ack_req p) t)

      transmitted : ℤ × Sending
      transmitted =
          if is_zero (env.sent p)
          then (pos 0, tried p (log t (retransmitted p)))
          else (env.sent p, t)

      again : ℤ × Sending
      again =
          if not (tx_psn_allowed t.world.pdc (t.world.pkts p).psn) then (eagain, t) else transmitted

      allowed :
          (tx_psn_allowed t.world.pdc (t.world.pkts p).psn ≡ true)
            ⊎ ((t.world.pkts p).dst_recvd ≡ true)
          → (t.world.pkts p).dst_recvd ≡ false
          → tx_psn_allowed t.world.pdc (t.world.pkts p).psn ≡ true
      allowed (inl x) d = x
      allowed (inr x) d = absurd (false≢true (sym d ∙ x))

  -- What is done where the packet is neither acknowledged nor held back.
  abbrev tries : Option (ℤ × Sending)
  tries =
      if leb env.max_tx_retries (t.world.pkts p).tx_retry_cnt
      then close_then_zero (close_pdc_in_error env t)
      else some (to_tail p (rtx_pkt env t p))

  tries-Nacked :
      (t.world.pkts p).tx_pkt_acked ≡ false
      → (tx_psn_allowed t.world.pdc (t.world.pkts p).psn ≡ true)
        ⊎ ((t.world.pkts p).dst_recvd ≡ true)
      → Nacked env s t b n i tries
  tries-Nacked a way = elim (dec_lt (t.world.pkts p).tx_retry_cnt env.max_tx_retries) [
    | yes l ↦
        subst (Nacked env s t b n i)
          (sym (ap at (leb-false env.max_tx_retries (t.world.pkts p).tx_retry_cnt l)))
          (resends a l way)
    | no ge ↦
        let (out, ends, told) = close_pdc_in_error_lem env t e of_tx of_rx in
        subst (Nacked env s t b n i)
          (sym (
            ap at (leb-true env.max_tx_retries (t.world.pkts p).tx_retry_cnt (omega (arith, ge)))
            ∙ ap close_then_zero ends))
          (exhausted held a way (omega (arith, ge)) ends)
  ]
    where
      at : Bool → Option (ℤ × Sending)
      at x =
          if x
          then close_then_zero (close_pdc_in_error env t)
          else some (to_tail p (rtx_pkt env t p))

  pub packet : Nacked env s t b n i (nack_packet env t p)
  unfolding nack_packet
  packet = elim (Bool-cases (t.world.pkts p).tx_pkt_acked) [
    | inl a ↦ subst (Nacked env s t b n i) (sym (ap acked_or a)) (has_ack held a)
    | inr a ↦
        subst (Nacked env s t b n i) (sym (ap acked_or a))
          (elim (Bool-cases (t.world.pkts p).dst_recvd) [
            | inl d ↦
                subst (Nacked env s t b n i)
                  (sym (
                    ap
                      (λ (x : Bool).
                        held_back (not x && not (tx_psn_allowed t.world.pdc (t.world.pkts p).psn)))
                      d))
                  (tries-Nacked a (inr d))
            | inr d ↦
                subst (Nacked env s t b n i)
                  (sym (
                    ap
                      (λ (x : Bool).
                        held_back (not x && not (tx_psn_allowed t.world.pdc (t.world.pkts p).psn)))
                      d))
                  (elim (Bool-cases (tx_psn_allowed t.world.pdc (t.world.pkts p).psn)) [
                    | inl o ↦
                        subst (Nacked env s t b n i) (sym (ap (λ (x : Bool). held_back (not x)) o))
                          (tries-Nacked a (inl o))
                    | inr o ↦
                        subst (Nacked env s t b n i) (sym (ap (λ (x : Bool). held_back (not x)) o))
                          (waits held a d o)
                  ])
          ])
  ]
    where
      held_back : Bool → Option (ℤ × Sending)
      held_back x = if x then some (pos 0, t) else tries

      acked_or : Bool → Option (ℤ × Sending)
      acked_or x =
          if x
          then some (pos 0, t)
          else held_back (
              not (t.world.pkts p).dst_recvd
              && not (tx_psn_allowed t.world.pdc (t.world.pkts p).psn))
