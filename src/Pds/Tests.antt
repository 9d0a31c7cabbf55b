-- ===== src/Pds/Tests.antt =====
-- A PDC with a few packets in its windows: runs of the operations, and the theorems at it.
use uet_ref_prov.Base.{
  ℕ, zero, suc, ◌+◌, ◌-◌, ◌/◌, ◌%◌, ◌^◌, ◌≤◌, ◌<◌, ◌≡◌, refl, sym, ap, ◌∙◌, Bool, true, false, ◌&&◌,
  ◌||◌, ◌⊎◌, none, some, [], ◌∷◌, if◌then◌else◌, ◌==◌, arith, ==_iff, replicate, ltb, leb, testbit,
  testbit_zero,
}
use mathlib.Core.Bool.{false≢true}
use uet_ref_prov.Bitmap.{Bitmap, word}
use uet_ref_prov.Bitmap.Bits.{bit, datum}
use uet_ref_prov.Bitmap.Update.{bit-bm_set, datum-bm_set}
use uet_ref_prov.Pds.Psn.{add32, sub32, psn_after, psn_after_eq, update_psn, rand_start_psn}
use uet_ref_prov.Pds.Psn.Laws.{psn_after_lem, rand_start_psn_bounds}
use uet_ref_prov.Pds.State.{PdcState, Pdc, Memory, World}
use uet_ref_prov.Pds.Rx.{
  new_psn, default_response, nack_invalid_syn, nack_oor_window, check_duplicate, accept,
  update_cack, shift_rx_window,
}
use uet_ref_prov.Pds.Rx.Window.{IsWindow, RunsTo, update_cack_lem}
use uet_ref_prov.Pds.Rx.Slide.{Slides, shift_rx_window_lem}
use uet_ref_prov.Pds.Rx.Duplicate.{
  answer_again, entered, entered-IsWindow, check_duplicate_lem, accept_lem,
}
use uet_ref_prov.Pds.Tx.{tx_psn_allowed, process_mpr, process_cack, shift_tx_window}
use uet_ref_prov.Pds.Ack.Sender.{IsSender}
use uet_ref_prov.Pds.Tx.Mpr.{tx_psn_allowed_lem, process_mpr_order}
use uet_ref_prov.Pds.Tx.Shift.{Advances}
use uet_ref_prov.Pds.Tx.Shift.Loop.{shift_tx_window_lem}
use uet_ref_prov.Pds.Tx.Cack.{Acks}
use uet_ref_prov.Pds.Tx.Cack.Loop.{later, Faulty, process_cack_lem}

-- An empty window.
abbrev pub empty : Bitmap ℕ
empty = record { bit_arr = 0 ∷ 0 ∷ []; bit_arr_len = 2; data_arr = replicate 128 none; size = 128 }

empty-word : (j : ℕ) → word empty.bit_arr j ≡ 0
empty-word zero = refl
empty-word (suc zero) = refl
empty-word (suc (suc j)) = refl

pub empty-bit : (k : ℕ) → bit empty k ≡ false
empty-bit k = ap (λ w. testbit w (k % 64)) (empty-word (k / 64)) ∙ testbit_zero (k % 64)

pub empty-IsWindow : IsWindow empty
empty-IsWindow = record {
  valid = record {
    words = refl;
    pointers = refl;
    whole = refl;
    int_size = omega arith;
    word_size = λ j. omega (arith, empty-word j);
  };
  full_size = refl;
  held = λ k h b. absurd (false≢true (sym (empty-bit k) ∙ b));
}

-- A PDC with the given windows; both start at 2 ^ 32 - 2, so that their PSNs wrap.
abbrev pub pdc_of : Bitmap ℕ → Bitmap ℕ → Pdc
pdc_of tx_bm rx_bm = record {
  state = PdcState.established;
  is_initiator = true;
  dpdcid = 5;
  active_msg_id_valid = false;
  close_requested = false;
  close_started = false;
  close_cmd_psn = 0;
  is_ipv6 = false;
  dst_addr = 9;
  sec_enabled = false;
  start_psn = 0xfffffffe;
  next_psn = 2;
  tx_bm = tx_bm;
  tx_bm_base_psn = 0xfffffffe;
  max_cack_psn = 0xfffffffd;
  peer_mp_range = 4;
  mpr_update_cack_psn = 0xfffffffd;
  mpr_update_valid = true;
  rx_bm = rx_bm;
  rx_bm_base_psn = 0xfffffffe;
  cack_psn = 0xfffffffd;
  max_clear_psn = 0xfffffffd;
  prev_ar_psn = 0xfffffffd;
  max_rcvd_psn = 0xfffffffd;
  accepted_bytes = 0;
  sack_base_track = 0xfffffffd;
}

-- Every packet waits for an acknowledgement, and for a clear.
abbrev pub pkts : Memory
pkts p = record {
  psn = 0xfffffffe;
  tx_pkt_handle = p + 100;
  tx_pkt_acked = false;
  dst_recvd = false;
  tx_retry_cnt = 0;
  needs_clear = p == 8;
  reordered = false;
  is_rod = true;
  has_ack = p == 7;
  pkt_payload_len = 64;
  pds_clear_psn = 0xfffffffd;
  asks_ar = false;
  is_syn_pkt = false;
}

-- Packet 7 at the first index.
abbrev pub one_packet : Bitmap ℕ
one_packet = entered pkts (pdc_of empty empty) empty-IsWindow (omega arith) 0 7 (omega arith)

pub one_packet-IsWindow : IsWindow one_packet
one_packet-IsWindow =
    entered-IsWindow pkts (pdc_of empty empty) empty-IsWindow (omega arith) 0 7 (omega arith)

pub one_packet-only : (k : ℕ) → bit one_packet k ≡ true → k ≡ 0
one_packet-only k b = sym (
    (==_iff 0 k).0 (
      sym (ap (λ (x : Bool). x || 0 == k) (empty-bit k))
      ∙ sym (bit-bm_set empty 0 empty-IsWindow.valid (omega arith) (some 7) k)
      ∙ b))

abbrev pub in_flight : World
in_flight = record { pdc = pdc_of one_packet empty; pkts = pkts; events = [] }

-- Five PSNs are sent, from 0xfffffffe on, and none is acknowledged.
pub in_flight-IsSender : IsSender in_flight.pdc 0xfffffffd 0 1 5
in_flight-IsSender = record {
  small = omega arith;
  near = omega arith;
  acked = omega arith;
  begun = omega arith;
  fits = omega arith;
  window = one_packet-IsWindow;
  max_cack = refl;
  base = refl;
  next = refl;
  sent = λ k h b. omega (arith, one_packet-only k b);
}

psn_after_example :
    (psn_after (add32 0xfffffffe 5) (add32 0xfffffffe 1) ≡ ltb 1 5)
    × (psn_after_eq (add32 0xfffffffe 5) (add32 0xfffffffe 1) ≡ leb 1 5)
psn_after_example = psn_after_lem 0xfffffffe 5 1 (omega arith) (omega arith) (omega arith)

rand_start_psn_example :
    (2 ^ 16 ≤ rand_start_psn 0x8001 0xffff) × (rand_start_psn 0x8001 0xffff < 2 ^ 31)
rand_start_psn_example = rand_start_psn_bounds 0x8001 0xffff

-- The window of the receiver holds packet 7.
abbrev receiver : Pdc
receiver = pdc_of empty one_packet

pub one_packet-bit : bit one_packet 0 ≡ true
one_packet-bit =
    bit-bm_set empty 0 empty-IsWindow.valid (omega arith) (some 7) 0
    ∙ ap (λ b. b || true) (empty-bit 0)

pub one_packet-datum : datum one_packet 0 ≡ some 7
one_packet-datum = datum-bm_set empty 0 empty-IsWindow.valid (omega arith) (some 7) 0

update_cack_example :
    (m : ℕ) × (update_cack pkts receiver 0xfffffffd
      ≡ some (record receiver {
        max_clear_psn = update_psn 0xfffffffd 0xfffffffd;
        cack_psn = sub32 (add32 0xfffffffe m) 1;
      }))
    × RunsTo one_packet pkts (update_psn 0xfffffffd 0xfffffffd) 0 128 m
update_cack_example = update_cack_lem pkts receiver 0xfffffffd one_packet-IsWindow

-- The receiver after its acknowledgement of packet 7.
abbrev acknowledged : World
acknowledged = record { pdc = record receiver { cack_psn = 0xfffffffe }; pkts = pkts; events = [] }

first_bit : (k : ℕ) → k < 1 → bit one_packet k ≡ true
first_bit k h = ap (bit one_packet) {x = k} {y = 0} (omega arith) ∙ one_packet-bit

shift_rx_window_example :
    (out : World) × (shift_rx_window acknowledged ≡ some out)
    × Slides acknowledged one_packet-IsWindow 1 (omega arith) out
shift_rx_window_example =
    shift_rx_window_lem acknowledged one_packet-IsWindow 1 (omega arith) (omega arith) refl
      first_bit

check_duplicate_example : check_duplicate pkts receiver (add32 0xfffffffe 3) false ≡ (
    if ltb 3 128
    then (if bit one_packet 3 then answer_again pkts (datum one_packet 3) else new_psn)
    else if leb (2 ^ 32 - 128) 3
    then default_response
    else if false
    then nack_invalid_syn
    else nack_oor_window)
check_duplicate_example =
    check_duplicate_lem pkts receiver one_packet-IsWindow (omega arith) 3 false (omega arith)

accept_example :
    (accept receiver (add32 0xfffffffe 3) 9 ≡ (
      true,
      record receiver {
        rx_bm = entered pkts receiver one_packet-IsWindow (omega arith) 3 9 (omega arith);
      },
    ))
    × IsWindow (entered pkts receiver one_packet-IsWindow (omega arith) 3 9 (omega arith))
    × ((j : ℕ) (is_syn : Bool)
        → j < 2 ^ 32
        → check_duplicate pkts
            (record receiver {
              rx_bm = entered pkts receiver one_packet-IsWindow (omega arith) 3 9 (omega arith);
            })
            (add32 0xfffffffe j)
            is_syn
          ≡ (if 3 == j
              then answer_again pkts (some 9)
              else check_duplicate pkts receiver (add32 0xfffffffe j) is_syn))
accept_example = accept_lem pkts receiver one_packet-IsWindow (omega arith) 3 9 (omega arith)

-- The window of the sender holds packet 7.
abbrev sender : World
sender = record { pdc = pdc_of one_packet empty; pkts = pkts; events = [] }

tx_psn_allowed_example :
    tx_psn_allowed sender.pdc (add32 0xfffffffd 5)
    ≡ (leb 1 5 && ltb 5 (1 + 128) && (4 == 0 || leb 5 4))
tx_psn_allowed_example =
    tx_psn_allowed_lem sender.pdc 1 5 (omega arith) (omega arith) (omega arith) (omega arith) refl

process_mpr_example :
    process_mpr (process_mpr sender.pdc 1 (add32 0xfffffffd 2)) 2 (add32 0xfffffffd 1)
    ≡ process_mpr (process_mpr sender.pdc 2 (add32 0xfffffffd 1)) 1 (add32 0xfffffffd 2)
process_mpr_example =
    process_mpr_order sender.pdc 0xfffffffd 0 2 1 1 2 (omega arith) (omega arith) (omega arith)
      (omega arith) (omega arith) refl

shift_tx_window_example :
    (m : ℕ) × (out : World) × (m ≤ 128)
    × (shift_tx_window sender ≡ some out)
    × Advances sender out m
shift_tx_window_example = shift_tx_window_lem sender one_packet-IsWindow (omega arith)

process_cack_example :
    ((q : ℕ) × Faulty 0 (later 0 1 + 1 - 1) sender q
      × (process_cack (add32 0xfffffffd 1) sender ≡ none))
    ⊎ ((out : World) × (process_cack (add32 0xfffffffd 1) sender ≡ some out)
        × Acks 0
            (later 0 1 + 1 - 1)
            (record sender {
              pdc = record (sender.pdc) { max_cack_psn = add32 0xfffffffd (later 0 1) };
            })
            out)
process_cack_example =
    process_cack_lem sender 0xfffffffd 0 1 1 one_packet-IsWindow (omega arith) (omega arith)
      (omega arith) (omega arith) refl refl (omega arith)
