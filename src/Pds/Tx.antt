-- ===== src/Pds/Tx.antt =====
-- uet_pds.c: the transmit window of a PDC, and what an acknowledgement does to it. `none` is a
-- read through a null packet pointer, a shift that leaves the bitmap, or no fuel left.
pub mod Mpr
pub mod Shift
pub mod Cack
pub mod Sack
use uet_ref_prov.Base.{
  ℕ, zero, suc, ◌+◌, ◌-◌, ◌%◌, ◌^◌, Bool, true, false, not, ◌&&◌, ◌||◌, Option, none, some, List,
  ◌∷◌, ℤ, pos, negsuc, ◌==◌, if◌then◌else◌, ◌>>=◌, bit_and,
}
use uet_ref_prov.Bitmap.{Bitmap, bit64, bm_get, bm_shift_right}
use uet_ref_prov.Pds.Psn.{
  add32, sub32, psn_offset, psn_after, psn_after_eq, update_psn, psn_in_mpr, decode_mpr,
}
use uet_ref_prov.Pds.State.{Pkt, Pdc, Memory, Event, freed, unlinked, rx_rsp, World, write}
use uet_ref_prov.Pds.Rx.{found}

unfoldable pub tx_psn_allowed : Pdc → ℕ → Bool
tx_psn_allowed pdc psn =
    if not (psn_in_mpr psn pdc.tx_bm_base_psn)
    then false
    else pdc.peer_mp_range == 0 || not (psn_after psn (add32 pdc.max_cack_psn pdc.peer_mp_range))

-- uet_pds_process_mpr, for the MPR and the CACK PSN of the acknowledgement
unfoldable pub process_mpr : Pdc → ℕ → ℕ → Pdc
process_mpr pdc pds_mpr pds_cack_psn =
    if pdc.mpr_update_valid && not (psn_after pds_cack_psn pdc.mpr_update_cack_psn)
    then pdc
    else record pdc {
      peer_mp_range = decode_mpr pds_mpr;
      mpr_update_cack_psn = pds_cack_psn;
      mpr_update_valid = true;
    }

-- A round of `uet_pds_process_sack_bitmap`, for what `bm_get` found.
abbrev pub mark_received : World → Option (Option ℕ) → Option World
mark_received w none = some w
mark_received w (some none) = none
mark_received w (some (some p)) =
    some (record w { pkts = write w.pkts p (record (w.pkts p) { dst_recvd = true }) })

-- `idx < 0` is skipped
abbrev pub sack_at : World → ℤ → Option World
sack_at w (negsuc n) = some w
sack_at w (pos idx) = mark_received w (found (bm_get w.pdc.tx_bm (pos idx)))

-- the round at `i`
abbrev pub sack_round : ℕ → ℕ → World → ℕ → Option World
sack_round sack_base_psn sack_bitmap w i =
    let psn = add32 sack_base_psn i in
    if psn_after_eq w.pdc.max_cack_psn psn
    then some w
    else if bit_and sack_bitmap (bit64 i) == 0
    then some w
    else sack_at w (psn_offset psn w.pdc.tx_bm_base_psn)

-- `for (; n rounds; i++)`
pub sack_from : ℕ → ℕ → ℕ → ℕ → World → Option World
sack_from sack_base_psn sack_bitmap zero i w = some w
sack_from sack_base_psn sack_bitmap (suc n) i w = do
  w' ← sack_round sack_base_psn sack_bitmap w i
  sack_from sack_base_psn sack_bitmap n (i + 1) w'

unfoldable pub process_sack_bitmap : ℕ → ℕ → World → Option World
unfolding sack_from
process_sack_bitmap sack_base_psn sack_bitmap w = sack_from sack_base_psn sack_bitmap 64 0 w

-- The packet is acknowledged and leaves the transmit list; SES gets its response.
abbrev pub acknowledge : World → ℕ → World
acknowledge w p = record w {
  pkts = write w.pkts p (record (w.pkts p) { tx_pkt_acked = true });
  events = rx_rsp (w.pkts p).tx_pkt_handle ∷ unlinked p ∷ w.events;
}

-- A round of the loop of `uet_pds_process_cack`, for what `bm_get` found. The upcall of SES reads
-- through the handle at once (uet_pds_to_ses_rx_rsp in uet_api.c), so that NULL is a fault: it is the
-- handle of a control packet.
abbrev pub cack_round : World → Option (Option ℕ) → Option World
cack_round w none = some w
cack_round w (some none) = none
cack_round w (some (some p)) =
    if not (w.pkts p).tx_pkt_acked
    then (if (w.pkts p).tx_pkt_handle == 0 then none else some (acknowledge w p))
    else some w

-- `for (; n rounds; i++)`
pub cack_from : ℕ → ℕ → World → Option World
cack_from zero i w = some w
cack_from (suc n) i w = do
  w' ← cack_round w (found (bm_get w.pdc.tx_bm (pos i)))
  cack_from n (i + 1) w'

-- `uet_pds_process_cack` once `shift_count` is known
unfoldable pub cack_by : World → ℤ → Option World
cack_by w (negsuc n) = some w
cack_by w (pos shift_count) = cack_from shift_count 0 w

unfoldable pub process_cack : ℕ → World → Option World
unfolding cack_by
process_cack pds_cack_psn w =
    let max_cack_psn = update_psn w.pdc.max_cack_psn pds_cack_psn in
    cack_by (record w { pdc = record (w.pdc) { max_cack_psn = max_cack_psn } })
      (psn_offset (add32 max_cack_psn 1) w.pdc.tx_bm_base_psn)

-- A round of `uet_pds_shift_tx_window`, for what `bm_get` found at 0; `next` are the later rounds.
abbrev pub shift_round : (World → Option World) → World → Option (Option ℕ) → Option World
shift_round next w none = some w
shift_round next w (some none) = none
shift_round next w (some (some p)) = if not (w.pkts p).tx_pkt_acked then some w else do
  tx_bm ← bm_shift_right w.pdc.tx_bm 1
  next (record w {
    pdc = record (w.pdc) { tx_bm = tx_bm; tx_bm_base_psn = add32 w.pdc.tx_bm_base_psn 1 };
    events = freed p ∷ w.events;
  })

-- `while (true)`, with fuel
pub shift_tx_from : ℕ → World → Option World
shift_tx_from zero w = none
shift_tx_from (suc fuel) w = shift_round (shift_tx_from fuel) w (found (bm_get w.pdc.tx_bm (pos 0)))

-- A bit leaves the bitmap in each round, so that its size bounds the number of rounds.
unfoldable pub shift_tx_window : World → Option World
unfolding shift_tx_from
shift_tx_window w = shift_tx_from (suc w.pdc.tx_bm.size) w
