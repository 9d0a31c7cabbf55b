-- ===== src/Pds/Ack/Tests.antt =====
-- Acknowledgements of a PDC with one packet in its window, and the theorems at it.
use uet_ref_prov.Base.{◌<◌, ◌==◌, inr, none, ℕ, ◌+◌, ◌≡◌, refl, true, false, some, pos, arith}
use uet_ref_prov.Bitmap.Bits.{bit}
use uet_ref_prov.Pds.State.{PdcState, World}
use uet_ref_prov.Pds.Tests.{
  pkts, one_packet-bit, one_packet-datum, empty-IsWindow, one_packet-IsWindow, one_packet-only,
  in_flight, in_flight-IsSender,
}
use uet_ref_prov.Pds.Tx.{process_sack_bitmap}
use uet_ref_prov.Pds.Tx.Sack.{Marks, process_sack_bitmap_lem}
use uet_ref_prov.Pds.Free.{free_pdc}
use uet_ref_prov.Pds.Free.Loop.{freed_pdc, free_pdc_lem}
use uet_ref_prov.Pds.Ack.{check_pkt_src, Ack, Outside, End, process_ack}
use uet_ref_prov.Pds.Ack.Sender.{IsSender}
use uet_ref_prov.Pds.Ack.Close.{covered_faults}
use uet_ref_prov.Pds.Ack.Outcome.{Outcome}
use uet_ref_prov.Pds.Ack.Whole.{process_ack_lem}

abbrev of_first : Ack
of_first = record {
  is_ipv6 = false;
  saddr = 9;
  spdcid = 5;
  psn = 0xfffffffe;
  cack_psn = 0xfffffffe;
  is_cc = true;
  mpr = 1;
  sack_base_psn = 0xfffffffe;
  sack_bitmap = 5;
  epsn = false;
  req_clr = true;
  carries = true;
  payload = 0;
}

abbrev accepting : Outside
accepting = record { ses_code = pos 0; is_0rtt = true; ini_start_psn = 0 }

none_zero : (q : ℕ) → (q + 100 == 0) ≡ false
none_zero q = ground arith

process_ack_example :
    (out : World) × (end : End) × (process_ack accepting of_first in_flight ≡ some (out, end))
    × Outcome accepting of_first in_flight 0xfffffffd 1 0 1 1 5 out end
process_ack_example =
    process_ack_lem accepting of_first in_flight 0xfffffffd 1 0 1 1 5 in_flight-IsSender
      empty-IsWindow (omega arith) (omega arith) refl refl
      (record { covered = λ q x e. inr (none_zero q); named = λ p h e stays carries. none_zero p })

process_sack_bitmap_example :
    (out : World) × (process_sack_bitmap 0xfffffffe 5 in_flight ≡ some out)
    × Marks 0xfffffffe 5 0 64 in_flight out
process_sack_bitmap_example = process_sack_bitmap_lem in_flight 0xfffffffe 5 one_packet-IsWindow

free_pdc_example :
    (free_pdc in_flight ≡ some (freed_pdc in_flight))
    × ((k : ℕ)
        → k < 128
        → (bit (freed_pdc in_flight).pdc.tx_bm k ≡ false)
          × (bit (freed_pdc in_flight).pdc.rx_bm k ≡ false))
free_pdc_example = free_pdc_lem in_flight one_packet-IsWindow empty-IsWindow

-- The close command has PSN 0xfffffffe, and no handle; an acknowledgement of an earlier PSN covers it.
abbrev closing_pdc : World
closing_pdc = record in_flight {
  pdc = record (in_flight.pdc) {
    state = PdcState.closing;
    close_requested = true;
    close_started = true;
    close_cmd_psn = 0xfffffffe;
  };
  pkts = λ p. record (pkts p) { tx_pkt_handle = 0 };
}

closing_pdc-IsSender : IsSender closing_pdc.pdc 0xfffffffd 0 1 5
closing_pdc-IsSender = record {
  small = omega arith;
  near = omega arith;
  acked = omega arith;
  begun = omega arith;
  fits = omega arith;
  window = one_packet-IsWindow;
  max_cack = refl;
  base = refl;
  next = refl;
  sent = λ k h b. omega (arith, one_packet-only k b);
}

abbrev covering : Ack
covering = record of_first { psn = 0xfffffffd }

covered_faults_example : process_ack accepting covering closing_pdc ≡ none
unfolding check_pkt_src
covered_faults_example =
    covered_faults accepting covering closing_pdc 0xfffffffd 1 0 0 1 5 7 closing_pdc-IsSender
      (omega arith) (omega arith) (omega arith) refl refl refl refl
      (record {
        sent = record {
          index = 0;
          above = omega arith;
          below = omega arith;
          held = one_packet-bit;
          packet = one_packet-datum;
        };
        fresh = refl;
        null = refl;
      })
