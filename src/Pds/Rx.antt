-- ===== src/Pds/Rx.antt =====
-- uet_pds.c: the receive window of a PDC. `none` is a read through a null packet pointer, or a
-- shift that leaves the bitmap.
pub mod Window
pub mod Slide
pub mod Duplicate
use uet_ref_prov.Base.{
  ℕ, zero, suc, ◌+◌, ◌-◌, ◌%◌, ◌^◌, Bool, true, false, not, ◌&&◌, ◌||◌, Option, none, some, List,
  ◌∷◌, ℤ, pos, negsuc, signed32, ◌==◌, leb, if◌then◌else◌, ◌>>=◌,
}
use uet_ref_prov.Bitmap.{Bitmap, bm_get, bm_set, bm_max, bm_shift_right}
use uet_ref_prov.Pds.Psn.{
  add32, sub32, psn_offset, psn_after, update_psn, psn_in_mpr, psn_in_prior_mpr,
}
use uet_ref_prov.Pds.State.{Pkt, Pdc, Memory, Event, freed, World}

-- The pointer that `bm_get` stored, if it returned true.
abbrev pub found : Bool × Option (Option ℕ) → Option (Option ℕ)
found (true, some p) = some p
found (true, none) = some none
found (false, p) = none

-- The round of the loop of `uet_pds_update_cack` at index `i`, for what `bm_get` found there;
-- `next` is the result of the later rounds.
abbrev pub cack_round : Memory → ℕ → ℕ → Option ℕ → Option (Option ℕ) → Option ℕ
cack_round pkts max_clear i next none = some i
cack_round pkts max_clear i next (some none) = none
cack_round pkts max_clear i next (some (some temp)) =
    if (pkts temp).needs_clear && psn_after (pkts temp).psn max_clear then some i else next

-- The loop from index `i`, with `n` rounds left: the index at which it stops.
pub cack_from : Bitmap ℕ → Memory → ℕ → ℕ → ℕ → Option ℕ
cack_from bm pkts max_clear zero i = some i
cack_from bm pkts max_clear (suc n) i =
    cack_round pkts max_clear i (cack_from bm pkts max_clear n (i + 1)) (found (bm_get bm (pos i)))

-- the number of rounds of `for (i = 0; i <= max; i++)`
abbrev pub rounds_to : ℤ → ℕ
rounds_to (pos n) = suc n
rounds_to (negsuc n) = 0

unfoldable pub update_cack : Memory → Pdc → ℕ → Option Pdc
unfolding cack_from
update_cack pkts pdc pds_clear_psn = do
  let max_clear = update_psn pdc.max_clear_psn pds_clear_psn
  i ← cack_from pdc.rx_bm pkts max_clear (rounds_to (bm_max pdc.rx_bm)) 0
  some (record pdc { max_clear_psn = max_clear; cack_psn = sub32 (add32 pdc.rx_bm_base_psn i) 1 })

-- a round of the loop of `uet_pds_shift_rx_window`, for what `bm_get` found: free the packet
abbrev pub free_round :
    (List Event → Option (List Event)) → List Event → Option (Option ℕ) → Option (List Event)
free_round next events none = next events
free_round next events (some none) = next events
free_round next events (some (some p)) = next (freed p ∷ events)

-- the loop from index `i`, with `n` rounds left
pub free_range : Bitmap ℕ → ℕ → ℕ → List Event → Option (List Event)
free_range bm zero i events = some events
free_range bm (suc n) i events =
    free_round (free_range bm n (i + 1)) events (found (bm_get bm (pos i)))

-- `uet_pds_shift_rx_window` once `shift_count` is known
unfoldable pub shift_rx_by : World → ℤ → Option World
unfolding free_range
shift_rx_by w (negsuc n) = some w
shift_rx_by w (pos shift_count) = if shift_count == 0 then some w else do
  events ← free_range w.pdc.rx_bm shift_count 0 w.events
  rx_bm ← bm_shift_right w.pdc.rx_bm shift_count
  some (record w {
    pdc = record (w.pdc) { rx_bm = rx_bm; rx_bm_base_psn = add32 w.pdc.rx_bm_base_psn shift_count };
    events = events;
  })

unfoldable pub shift_rx_window : World → Option World
unfolding shift_rx_by
shift_rx_window w = shift_rx_by w (psn_offset (add32 w.pdc.cack_psn 1) w.pdc.rx_bm_base_psn)

-- What `uet_pds_check_duplicate_and_rtx` does with a packet: nothing for a new PSN, else the
-- response that it sends.
pub data Verdict : Type 0 where
  new_psn : Verdict
  default_response : Verdict  -- uet_pds_tx_def_rsp_ack_pkt
  resend_ack : ℕ → Verdict  -- the acknowledgement of this packet again
  nack_ses_procg : Verdict  -- UET_NACK_RCVD_SES_PROCG
  nack_invalid_syn : Verdict  -- UET_NACK_INVALID_SYN
  nack_oor_window : Verdict  -- UET_NACK_PSN_OOR_WINDOW

-- a duplicate of packet `orig_pkt`, or of one that has left the window
pub duplicate : Memory → Option ℕ → Verdict
duplicate pkts none = default_response
duplicate pkts (some p) =
    if (pkts p).has_ack
    then resend_ack p
    else if (pkts p).is_rod && not (pkts p).reordered
    then nack_ses_procg
    else default_response

-- a PSN of the window, for what `bm_get` found
abbrev pub in_window : Memory → Option (Option ℕ) → Verdict
in_window pkts none = new_psn
in_window pkts (some orig_pkt) = duplicate pkts orig_pkt

pub check_duplicate : Memory → Pdc → ℕ → Bool → Verdict
check_duplicate pkts pdc psn is_syn =
    if psn_in_prior_mpr psn pdc.rx_bm_base_psn
    then default_response
    else if psn_in_mpr psn pdc.rx_bm_base_psn
    then in_window pkts (found (bm_get pdc.rx_bm (signed32 (sub32 psn pdc.rx_bm_base_psn))))
    else if is_syn
    then nack_invalid_syn
    else nack_oor_window

-- The return code of the function (0, or `-EINVAL`, or that of the send) and its `*rtx`.
-- `send` gives the code of a send; that of a NACK for a PSN out of the window is not looked at.
abbrev pub einval : ℤ
einval = negsuc 21

pub duplicate_result : (Verdict → ℤ) → Verdict → ℤ × Bool
duplicate_result send new_psn = (pos 0, false)
duplicate_result send nack_invalid_syn = (einval, false)
duplicate_result send nack_oor_window = (einval, false)
duplicate_result send response = (send response, is_zero (send response))
  where
    is_zero : ℤ → Bool
    is_zero (pos n) = n == 0
    is_zero (negsuc n) = false

-- The packet enters the window, at the index that the code logs as `SET bit`.
unfoldable pub accept : Pdc → ℕ → ℕ → Bool × Pdc
accept pdc psn pdc_pkt =
    let r = bm_set pdc.rx_bm (signed32 (sub32 psn pdc.rx_bm_base_psn)) (some pdc_pkt) in
    (r.0, record pdc { rx_bm = r.1 })

-- uet_pds_should_sack; `asks_ack` is UET_PDS_REQ_FLAGS_AR or UET_PDS_REQ_FLAGS_SYN
pub should_sack : ℕ → Pdc → Bool → Bool → Bool
should_sack ack_gen_trigger pdc asks_ack needs_clear =
    if asks_ack || needs_clear
    then true
    else if leb ack_gen_trigger pdc.accepted_bytes
    then true
    else pdc.prev_ar_psn == pdc.max_rcvd_psn

-- uet_pds_update_sack_base
unfoldable pub update_sack_base : Pdc → ℕ → Bool → Pdc
update_sack_base pdc pds_psn is_sack_trigger =
    if is_sack_trigger
    then (if psn_after pdc.max_rcvd_psn (add32 pdc.sack_base_track 63)
        then record pdc { sack_base_track = add32 pdc.sack_base_track 64 }
        else pdc)
    else if psn_after pdc.cack_psn pdc.sack_base_track
    then record pdc { sack_base_track = pdc.cack_psn }
    else if psn_after pds_psn pdc.cack_psn && psn_after pdc.sack_base_track pds_psn
    then record pdc { sack_base_track = pds_psn }
    else pdc
