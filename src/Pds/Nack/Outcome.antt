-- ===== src/Pds/Nack/Outcome.antt =====
-- How uet_pds_process_nack ends.
use uet_ref_prov.Base.{
  is_zero, ℕ, ◌-◌, ◌≤◌, ◌<◌, ◌≡◌, ◌⊎◌, true, false, Option, none, some, ℤ, pos, if◌then◌else◌,
}
use uet_ref_prov.Bitmap.Bits.{bit}
use uet_ref_prov.Pds.State.{ctrl_sent, freed, retransmitted}
use uet_ref_prov.Pds.Rx.{einval}
use uet_ref_prov.Pds.Tx.{tx_psn_allowed}
use uet_ref_prov.Pds.Ack.Named.{Holds}
use uet_ref_prov.Pds.Close.{Env, Sending, with_world, log, built, close_pdc_in_error}
use uet_ref_prov.Pds.Deliver.{enomem}
use uet_ref_prov.Pds.Nack.{is_eagain, requeue, tried}

-- What the code gives back where a packet could not be sent.
abbrev pub not_sent : ℤ → ℤ
not_sent rc = if is_eagain rc then pos 0 else rc

-- How a NACK that asks for the packet at distance `i` ends, where the window is based at `b` and the next
-- packet to be sent is at `n`; `t` is `s` with the PDC that the NACK may establish.
pub data Nacked (env : Env) (s t : Sending) (b n i : ℕ) : Option (ℤ × Sending) → Type 0 where
  out_of_range : (i < b) ⊎ (n ≤ i) → Nacked env s t b n i (some (einval, s))
  not_held :
      b ≤ i
      → i < n
      → bit t.world.pdc.tx_bm (i - b) ≡ false
      → Nacked env s t b n i (some (einval, t))
  has_ack :
      {p : ℕ}
      → Holds t.world b i p
      → (t.world.pkts p).tx_pkt_acked ≡ true
      → Nacked env s t b n i (some (pos 0, t))
  waits :
      {p : ℕ}
      → Holds t.world b i p
      → (t.world.pkts p).tx_pkt_acked ≡ false
      → (t.world.pkts p).dst_recvd ≡ false
      → tx_psn_allowed t.world.pdc (t.world.pkts p).psn ≡ false
      → Nacked env s t b n i (some (pos 0, t))
  exhausted :
      {p : ℕ} {out : Sending}
      → Holds t.world b i p
      → (t.world.pkts p).tx_pkt_acked ≡ false
      → (tx_psn_allowed t.world.pdc (t.world.pkts p).psn ≡ true)
        ⊎ ((t.world.pkts p).dst_recvd ≡ true)
      → env.max_tx_retries ≤ (t.world.pkts p).tx_retry_cnt
      → close_pdc_in_error env t ≡ some out
      → Nacked env s t b n i (some (pos 0, out))
  sent_again :
      {p : ℕ}
      → Holds t.world b i p
      → (t.world.pkts p).dst_recvd ≡ false
      → (t.world.pkts p).tx_pkt_acked ≡ false
      → (t.world.pkts p).tx_retry_cnt < env.max_tx_retries
      → tx_psn_allowed t.world.pdc (t.world.pkts p).psn ≡ true
      → is_zero (env.sent p) ≡ true
      → Nacked env s t b n i (some (pos 0, requeue p (tried p (log t (retransmitted p)))))
  asked_about :
      {p a : ℕ}
      → Holds t.world b i p
      → (t.world.pkts p).dst_recvd ≡ true
      → (t.world.pkts p).tx_pkt_acked ≡ false
      → (t.world.pkts p).tx_retry_cnt < env.max_tx_retries
      → env.ctrl_pkt ≡ some a
      → is_zero (env.sent a) ≡ true
      → Nacked env s t b n i (
          some (
            pos 0,
            requeue p (
                tried p (
                  log
                    (log (with_world t (built t.world a (t.world.pkts p).psn)) (ctrl_sent a))
                    (freed a))),
          ))
  failed :
      {p : ℕ}
      → Holds t.world b i p
      → (t.world.pkts p).dst_recvd ≡ false
      → (t.world.pkts p).tx_pkt_acked ≡ false
      → (t.world.pkts p).tx_retry_cnt < env.max_tx_retries
      → tx_psn_allowed t.world.pdc (t.world.pkts p).psn ≡ true
      → is_zero (env.sent p) ≡ false
      → Nacked env s t b n i (some (not_sent (env.sent p), t))
  no_memory :
      {p : ℕ}
      → Holds t.world b i p
      → (t.world.pkts p).dst_recvd ≡ true
      → (t.world.pkts p).tx_pkt_acked ≡ false
      → (t.world.pkts p).tx_retry_cnt < env.max_tx_retries
      → env.ctrl_pkt ≡ none
      → Nacked env s t b n i (some (enomem, t))
  not_asked :
      {p a : ℕ}
      → Holds t.world b i p
      → (t.world.pkts p).dst_recvd ≡ true
      → (t.world.pkts p).tx_pkt_acked ≡ false
      → (t.world.pkts p).tx_retry_cnt < env.max_tx_retries
      → env.ctrl_pkt ≡ some a
      → is_zero (env.sent a) ≡ false
      → Nacked env s t b n i (
          some (
            not_sent (env.sent a),
            log (with_world t (built t.world a (t.world.pkts p).psn)) (freed a),
          ))
