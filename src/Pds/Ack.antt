-- ===== src/Pds/Ack.antt =====
-- uet_pds.c: uet_pds_process_ack, for the PDC that uet_pdsm_get_pdc finds. `none` is a fault, as in
-- the parts. The two sends at its end, whose codes it only logs, are told by what it returns.
pub mod Sender
pub mod Taken
pub mod Named
pub mod Processed
pub mod Outcome
pub mod Whole
pub mod Close
mod Tests
use uet_ref_prov.Base.{
  is_zero, ℕ, ◌+◌, ◌-◌, ◌%◌, ◌^◌, Bool, true, false, not, ◌&&◌, ◌||◌, Option, none, some, List, [],
  ◌∷◌, ◌++◌, ℤ, pos, negsuc, signed32, ◌==◌, if◌then◌else◌, ◌>>=◌,
}
use uet_ref_prov.Bitmap.{bm_get}
use uet_ref_prov.Pds.Psn.{sub32, psn_after, psn_in_mpr}
use uet_ref_prov.Pds.State.{
  PdcState, unalloc, syn, pending, established, closing, error, Pkt, Pdc, Memory, Event, unlinked,
  rx_rsp_with, new_start_psn, World, write,
}
use uet_ref_prov.Pds.Rx.{found, einval}
use uet_ref_prov.Pds.Tx.{process_mpr, process_cack, process_sack_bitmap, shift_tx_window}
use uet_ref_prov.Pds.Free.{free_pdc}

-- `struct uet_parsed_pkt`, the fields of an acknowledgement; `is_cc` is a type of ACK_CC or ACK_CCX,
-- `carries` a next header other than UET_HDR_NONE.
pub record Ack : Type 0 where
  pub is_ipv6 : Bool
  pub saddr : ℕ
  pub spdcid : ℕ
  pub psn : ℕ
  pub cack_psn : ℕ
  pub is_cc : Bool
  pub mpr : ℕ
  pub sack_base_psn : ℕ
  pub sack_bitmap : ℕ
  pub epsn : Bool
  pub req_clr : Bool
  pub carries : Bool
  pub payload : ℕ

-- What is outside the PDC: the code that SES gives back, whether pds_psn_method is 0RTT, and the
-- start PSN of the security domain.
pub record Outside : Type 0 where
  pub ses_code : ℤ
  pub is_0rtt : Bool
  pub ini_start_psn : ℕ

-- How the function ends: with a code; or with 0 after a try to send a CLEAR packet and a try to close
-- the PDC, each where the flag says so.
pub data End : Type 0 where
  returns : ℤ → End
  sends : (clear close : Bool) → End

abbrev pub is_syn : PdcState → Bool
is_syn syn = true
is_syn s = false

abbrev pub is_closing : PdcState → Bool
is_closing closing = true
is_closing s = false

abbrev pub is_established : PdcState → Bool
is_established established = true
is_established s = false

abbrev pub both_or_neither : Bool → Bool → Bool
both_or_neither true b = b
both_or_neither false b = not b

-- uet_pds_check_pkt_src
unfoldable pub check_pkt_src : Pdc → Ack → Bool
check_pkt_src pdc a = both_or_neither a.is_ipv6 pdc.is_ipv6 && pdc.dst_addr == a.saddr

-- What is known of the packet that is acknowledged explicitly.
pub data Explicit : Type 0 where
  unknown : Explicit
  already : Explicit  -- `duplicate`
  first_time : ℕ → Explicit

abbrev pub explicit_of : Memory → Option (Option ℕ) → Option Explicit
explicit_of pkts none = some unknown
explicit_of pkts (some none) = none
explicit_of pkts (some (some p)) = some (if (pkts p).tx_pkt_acked then already else first_time p)

unfoldable pub explicit : World → ℕ → Option Explicit
explicit w psn =
    if psn_after w.pdc.tx_bm_base_psn psn
    then some already
    else if not (psn_in_mpr psn w.pdc.tx_bm_base_psn)
    then some unknown
    else explicit_of w.pkts (found (bm_get w.pdc.tx_bm (signed32 (sub32 psn w.pdc.tx_bm_base_psn))))

-- The packet is acknowledged and leaves the transmit list.
abbrev pub mark_acked : World → ℕ → World
mark_acked w p = record w {
  pkts = write w.pkts p (record (w.pkts p) { tx_pkt_acked = true });
  events = unlinked p ∷ w.events;
}

abbrev pub with_mpr : Ack → Pdc → Pdc
with_mpr a pdc = if a.is_cc then process_mpr pdc a.mpr a.cack_psn else pdc

-- The peer's range, the cumulative acknowledgement and the SACK bitmap.
abbrev pub sack_in : Ack → World → Option World
sack_in a w = if a.is_cc then process_sack_bitmap a.sack_base_psn a.sack_bitmap w else some w

unfoldable pub take_in : Ack → World → Option World
take_in a w = do
  acked ← process_cack a.cack_psn (record w { pdc = with_mpr a w.pdc })
  sack_in a acked

-- The acknowledgement of the close command: the start PSN that it carries, and the end of the PDC.
abbrev pub has_newer_start : Outside → Ack → Pdc → Bool
has_newer_start o a pdc =
    pdc.sec_enabled && o.is_0rtt && a.epsn && psn_after a.payload o.ini_start_psn

abbrev pub start_psn_events : Outside → Ack → Pdc → List Event
start_psn_events o a pdc = if has_newer_start o a pdc then new_start_psn a.payload ∷ [] else []

abbrev pub adopt_start_psn : Outside → Ack → World → World
adopt_start_psn o a w = record w { events = start_psn_events o a w.pdc ++ w.events }

unfoldable pub close_acked : Outside → Ack → World → Option (World × End)
close_acked o a w = do
  shifted ← shift_tx_window (adopt_start_psn o a w)
  gone ← free_pdc shifted
  some (gone, returns (pos 0))

abbrev pub established_pdc : Ack → Pdc → Pdc
established_pdc a pdc =
    if is_syn pdc.state then record pdc { state = established; dpdcid = a.spdcid } else pdc

abbrev pub establish : Ack → World → World
establish a w = record w { pdc = established_pdc a w.pdc }

-- Whether a CLEAR packet, or a close of the PDC, is to be tried.
abbrev pub wants_clear : Ack → Pdc → Bool
wants_clear a pdc = pdc.is_initiator && a.req_clr

abbrev pub wants_close : Pdc → Bool
wants_close pdc =
    is_established pdc.state
    && pdc.is_initiator
    && pdc.close_requested
    && not pdc.close_started
    && not pdc.active_msg_id_valid

-- The window moves on, and what is left to send.
unfoldable pub move_on : Ack → World → Option (World × End)
move_on a w = do
  shifted ← shift_tx_window w
  some (shifted, sends (wants_clear a shifted.pdc) (wants_close shifted.pdc))

abbrev pub respond : World → ℕ → World
respond w p = record w { events = rx_rsp_with (w.pkts p).tx_pkt_handle ∷ w.events }

-- SES reads through the handle, as in the cumulative acknowledgement.
unfoldable pub answer : Outside → Ack → ℕ → World → Option (World × End)
unfolding move_on
answer o a p w =
    if not a.carries
    then move_on a w
    else if (w.pkts p).tx_pkt_handle == 0
    then none
    else if not (is_zero o.ses_code)
    then some (respond w p, returns o.ses_code)
    else move_on a (respond w p)

abbrev pub acks_close : Ack → Pdc → Bool
acks_close a pdc = is_closing pdc.state && a.psn == pdc.close_cmd_psn

abbrev pub acked_by : Outside → Ack → World → Option Explicit → Option (World × End)
acked_by o a w none = none
acked_by o a w (some unknown) = some (w, returns einval)
acked_by o a w (some already) = do
  taken ← take_in a w
  shifted ← shift_tx_window taken
  some (shifted, returns (pos 0))
acked_by o a w (some (first_time p)) = do
  taken ← take_in a (mark_acked w p)
  if acks_close a taken.pdc then close_acked o a taken else answer o a p (establish a taken)

unfoldable pub process_ack : Outside → Ack → World → Option (World × End)
unfolding explicit take_in close_acked answer
process_ack o a w =
    if not (check_pkt_src w.pdc a)
    then some (w, returns einval)
    else if not (is_syn w.pdc.state) && not (w.pdc.dpdcid == a.spdcid)
    then some (w, returns einval)
    else if psn_after a.cack_psn (sub32 w.pdc.next_psn 1)
    then some (w, returns einval)
    else acked_by o a w (explicit w a.psn)
