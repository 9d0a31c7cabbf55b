-- ===== src/Pds/Ack/Outcome.antt =====
-- How uet_pds_process_ack ends.
use uet_ref_prov.Base.{
  is_zero, ℕ, ◌+◌, ◌-◌, ◌≤◌, ◌<◌, ◌≡◌, true, false, some, [], ◌∷◌, pos, if◌then◌else◌, ◌==◌, arith,
  not, ◌&&◌, ◌||◌,
}
use uet_ref_prov.Pds.State.{rx_rsp_with, World}
use uet_ref_prov.Pds.Rx.{einval}
use uet_ref_prov.Pds.Tx.{shift_tx_window}
use uet_ref_prov.Pds.Tx.Shift.{Advances}
use uet_ref_prov.Pds.Tx.Shift.Loop.{shift_tx_window_lem}
use uet_ref_prov.Pds.Tx.Cack.Loop.{later}
use uet_ref_prov.Pds.Free.Loop.{freed_pdc}
use uet_ref_prov.Pds.Ack.{
  Outside, Ack, End, returns, sends, unknown, already, first_time, is_syn, acks_close,
  established_pdc, wants_clear, wants_close, start_psn_events, check_pkt_src,
}
use uet_ref_prov.Pds.Ack.Sender.{IsSender, Advances-IsSender}
use uet_ref_prov.Pds.Ack.Taken.{told, Sacked}
use uet_ref_prov.Pds.Ack.Named.{Known}
use uet_ref_prov.Pds.Ack.Processed.{Processed}

-- `out` is `mid` with its window moved on by the acknowledged packets at its base.
pub record Moved (anchor c s n : ℕ) (mid out : World) : Type 0 where
  pub m : ℕ
  pub advances : Advances mid out m
  pub sender : IsSender out.pdc anchor c (s + m) n

-- It comes from the peer and for this PDC, and acknowledges nothing that is not sent.
pub record Accepted (a : Ack) (w : World) (b n : ℕ) : Type 0 where
  pub source : check_pkt_src w.pdc a ≡ true
  pub pdc : (is_syn w.pdc.state || w.pdc.dpdcid == a.spdcid) ≡ true
  pub sent : b < n

-- How an acknowledgement of the PSN at distance `i`, with a cumulative one up to distance `b`, ends.
pub data Outcome (o : Outside) (a : Ack) (w : World) (anchor b c i s n : ℕ)
    : World → End → Type 0 where
  -- It is not taken, and changes nothing: from another source, for another PDC, acknowledging what is
  -- not sent, or naming no packet.
  bad_source : check_pkt_src w.pdc a ≡ false → Outcome o a w anchor b c i s n w (returns einval)
  bad_pdc :
      check_pkt_src w.pdc a ≡ true
      → is_syn w.pdc.state ≡ false
      → (w.pdc.dpdcid == a.spdcid) ≡ false
      → Outcome o a w anchor b c i s n w (returns einval)
  not_sent :
      check_pkt_src w.pdc a ≡ true
      → (is_syn w.pdc.state || w.pdc.dpdcid == a.spdcid) ≡ true
      → n ≤ b
      → Outcome o a w anchor b c i s n w (returns einval)
  no_packet :
      Accepted a w b n → Known w s i unknown → Outcome o a w anchor b c i s n w (returns einval)
  -- The packet that it names is acknowledged already: what else it says is taken in.
  repeated :
      {mid out : World}
      → Known w s i already
      → Accepted a w b n
      → Sacked a (told a anchor c b w.pdc) w mid
      → Processed (later c b + 1 - s) (told a anchor c b w.pdc) [] [] w mid
      → Moved anchor (later c b) s n mid out
      → Outcome o a w anchor b c i s n out (returns (pos 0))
  -- It acknowledges the close command: the PDC is freed.
  closed :
      {p : ℕ} {mid out : World}
      → Known w s i (first_time p)
      → Accepted a w b n
      → Sacked a (told a anchor c b w.pdc) w mid
      → acks_close a w.pdc ≡ true
      → Processed
          (later c b + 1 - s)
          (told a anchor c b w.pdc)
          (p ∷ [])
          (start_psn_events o a w.pdc)
          w
          mid
      → Moved anchor (later c b) s n mid out
      → Outcome o a w anchor b c i s n (freed_pdc out) (returns (pos 0))
  -- Else the PDC is established. SES is handed the response, where there is one, and the window
  -- moves on,
  answered :
      {p : ℕ} {mid out : World}
      → Known w s i (first_time p)
      → Accepted a w b n
      → Sacked a (told a anchor c b w.pdc) w mid
      → acks_close a w.pdc ≡ false
      → (a.carries && not (is_zero o.ses_code)) ≡ false
      → Processed
          (later c b + 1 - s)
          (established_pdc a (told a anchor c b w.pdc))
          (p ∷ [])
          (if a.carries then rx_rsp_with (w.pkts p).tx_pkt_handle ∷ [] else [])
          w
          mid
      → Moved anchor (later c b) s n mid out
      → Outcome o a w anchor b c i s n out (sends (wants_clear a out.pdc) (wants_close out.pdc))
  -- or stays, where SES refuses the response.
  ses_failed :
      {p : ℕ} {out : World}
      → Known w s i (first_time p)
      → Accepted a w b n
      → Sacked a (told a anchor c b w.pdc) w out
      → acks_close a w.pdc ≡ false
      → a.carries ≡ true
      → is_zero o.ses_code ≡ false
      → Processed
          (later c b + 1 - s)
          (established_pdc a (told a anchor c b w.pdc))
          (p ∷ [])
          (rx_rsp_with (w.pkts p).tx_pkt_handle ∷ [])
          w
          out
      → Outcome o a w anchor b c i s n out (returns o.ses_code)

pub shift_tx_window-Moved :
    (mid : World) (anchor c s n : ℕ)
    → IsSender mid.pdc anchor c s n
    → (out : World) × (shift_tx_window mid ≡ some out) × Moved anchor c s n mid out
shift_tx_window-Moved mid anchor c s n i =
    let (m, out, h, r, a) = shift_tx_window_lem mid i.window (omega (arith, i.base)) in
    (
      out,
      r,
      record { m = m; advances = a; sender = Advances-IsSender mid out anchor c s n m i h a },
    )
