-- ===== src/Pds/Nack.antt =====
-- uet_pds.c: what a NACK does to the sender (uet_pds_process_nack), for the PDC that uet_pdsm_get_pdc
-- finds: another start PSN, a retransmission, or a close in error.
pub mod Restart
pub mod Outcome
pub mod Packet
pub mod Whole
mod Tests
use uet_ref_prov.Base.{
  is_zero, ℕ, ◌+◌, ◌-◌, ◌%◌, ◌^◌, Bool, true, false, not, ◌&&◌, ◌||◌, Option, none, some, List, [],
  ◌∷◌, ◌++◌, ℤ, pos, negsuc, signed32, ◌==◌, ltb, leb, if◌then◌else◌, ◌>>=◌,
}
use uet_ref_prov.Bitmap.{bm_get}
use uet_ref_prov.Pds.Psn.{add32, sub32, psn_after}
use uet_ref_prov.Pds.State.{
  PdcState, established, Pkt, Pdc, Memory, Event, retransmitted, World, write,
}
use uet_ref_prov.Pds.Rx.{found, einval}
use uet_ref_prov.Pds.Tx.{tx_psn_allowed}
use uet_ref_prov.Pds.Ack.{Ack, check_pkt_src, is_syn}
use uet_ref_prov.Pds.Close.{
  Sending, Env, eagain, with_world, with_pdc, log, ack_req, send_ctrl_pkt, close_pdc_in_error,
  tx_bm_idx,
}

-- `uet_pds_nack_code_t`; `unlisted` is a value that the type does not name.
pub data NackCode : Type 0 where
  nack_none trimmed trimmed_last_hop trimmed_ack no_pdc_avail no_ccc_avail no_bitmap : NackCode
  no_pkt_buf no_gtd_del_avail no_ses_msg_avail no_resource psn_oor_window rod_ooo : NackCode
  inv_dpdcid pdc_hdr_mismatch nack_closing closing_in_err pkt_not_rcvd gtd_resp_unavail : NackCode
  ack_with_data invalid_syn pdc_mode_mismatch new_start rcvd_ses_procg unexp_event : NackCode
  rcvr_infer_less exp_nack_normal exp_nack_err exp_nack_fatal : NackCode
  unlisted : ℕ → NackCode

pub data NackAction : Type 0 where
  drop retx close_pdc : NackAction

-- uet_pds_nack_action
abbrev pub nack_action : NackCode → NackAction
nack_action trimmed = retx
nack_action trimmed_last_hop = retx
nack_action trimmed_ack = retx
nack_action no_pdc_avail = retx
nack_action no_ccc_avail = retx
nack_action no_bitmap = retx
nack_action no_pkt_buf = retx
nack_action no_gtd_del_avail = retx
nack_action no_ses_msg_avail = retx
nack_action no_resource = retx
nack_action psn_oor_window = retx
nack_action rod_ooo = retx
nack_action pkt_not_rcvd = retx
nack_action ack_with_data = retx
nack_action new_start = retx
nack_action rcvr_infer_less = retx
nack_action exp_nack_normal = retx
nack_action exp_nack_err = retx
nack_action inv_dpdcid = close_pdc
nack_action pdc_hdr_mismatch = close_pdc
nack_action nack_closing = close_pdc
nack_action closing_in_err = close_pdc
nack_action gtd_resp_unavail = close_pdc
nack_action invalid_syn = close_pdc
nack_action pdc_mode_mismatch = close_pdc
nack_action unexp_event = close_pdc
nack_action exp_nack_fatal = close_pdc
nack_action rcvd_ses_procg = drop
nack_action nack_none = drop
nack_action (unlisted n) = drop

-- One more try.
abbrev pub tried : ℕ → Sending → Sending
tried p s = with_world s (record (s.world) {
  pkts =
      write s.world.pkts p
        (record (s.world.pkts p) { tx_retry_cnt = (s.world.pkts p).tx_retry_cnt + 1 });
})

abbrev pub if_sent : ℕ → ℤ × Sending → ℤ × Sending
if_sent p (rc, s) = if is_zero rc then (pos 0, tried p s) else (rc, s)

-- uet_pds_rtx_pkt
unfoldable pub rtx_pkt : Env → Sending → ℕ → ℤ × Sending
unfolding send_ctrl_pkt
rtx_pkt env s p =
    if (s.world.pkts p).dst_recvd && ltb (s.world.pkts p).tx_retry_cnt env.max_tx_retries
    then if_sent p (send_ctrl_pkt env (ack_req p) s)
    else if not (tx_psn_allowed s.world.pdc (s.world.pkts p).psn)
    then (eagain, s)
    else if is_zero (env.sent p)
    then (pos 0, tried p (log s (retransmitted p)))
    else (env.sent p, s)

-- uet_pds_reestablish_start_psn: the PSNs of the PDC
abbrev pub shifted_pdc : ℕ → Pdc → Pdc
shifted_pdc delta pdc = record pdc {
  start_psn = add32 pdc.start_psn delta;
  next_psn = add32 pdc.next_psn delta;
  tx_bm_base_psn = add32 pdc.tx_bm_base_psn delta;
  rx_bm_base_psn = add32 pdc.rx_bm_base_psn delta;
  max_cack_psn = add32 pdc.max_cack_psn delta;
}

abbrev pub sent_again : Env → ℕ → List Event → List Event
sent_again env p events = if is_zero (env.sent p) then retransmitted p ∷ events else events

-- a packet of the list that is not acknowledged
abbrev pub redrive : Env → ℕ → World → ℕ → World
redrive env delta w p = if (w.pkts p).tx_pkt_acked then w else record w {
  pkts = write w.pkts p (record (w.pkts p) { psn = add32 (w.pkts p).psn delta; tx_retry_cnt = 0 });
  events = sent_again env p w.events;
}

pub redrive_all : Env → ℕ → World → List ℕ → World
redrive_all env delta w [] = w
redrive_all env delta w (p ∷ l) = redrive_all env delta (redrive env delta w p) l

unfoldable pub reestablish_start_psn : Env → ℕ → Sending → Sending
unfolding redrive_all
reestablish_start_psn env new_start_psn s =
    let delta = sub32 new_start_psn s.world.pdc.start_psn in
    if not (is_syn s.world.pdc.state)
    then s
    else if delta == 0
    then s
    else with_world s
        (redrive_all env delta (record (s.world) { pdc = shifted_pdc delta s.world.pdc }) s.tx_list)

-- `dlist_remove` and `dlist_insert_tail`
abbrev pub remove : ℕ → List ℕ → List ℕ
remove p [] = []
remove p (q ∷ l) = let rest = remove p l in if p == q then l else q ∷ rest

abbrev pub requeue : ℕ → Sending → Sending
requeue p s = record s { tx_list = remove p s.tx_list ++ (p ∷ []) }

abbrev pub is_eagain : ℤ → Bool
is_eagain (pos n) = false
is_eagain (negsuc n) = n == 10

abbrev pub to_tail : ℕ → ℤ × Sending → ℤ × Sending
to_tail p (rc, s) =
    if is_zero rc then (pos 0, requeue p s) else if is_eagain rc then (pos 0, s) else (rc, s)

abbrev pub close_then_zero : Option Sending → Option (ℤ × Sending)
close_then_zero none = none
close_then_zero (some s) = some (pos 0, s)

-- The packet that is to be sent again.
unfoldable pub nack_packet : Env → Sending → ℕ → Option (ℤ × Sending)
unfolding rtx_pkt close_pdc_in_error
nack_packet env s p =
    if (s.world.pkts p).tx_pkt_acked
    then some (pos 0, s)
    else if not (s.world.pkts p).dst_recvd && not (tx_psn_allowed s.world.pdc (s.world.pkts p).psn)
    then some (pos 0, s)
    else if leb env.max_tx_retries (s.world.pkts p).tx_retry_cnt
    then close_then_zero (close_pdc_in_error env s)
    else some (to_tail p (rtx_pkt env s p))

-- what `bm_get` found
abbrev pub nack_found : Env → Sending → Option (Option ℕ) → Option (ℤ × Sending)
nack_found env s none = some (einval, s)
nack_found env s (some none) = none
nack_found env s (some (some p)) = nack_packet env s p

abbrev pub nack_established : Ack → Pdc → Pdc
nack_established a pdc =
    if is_syn pdc.state && not (a.spdcid == 0)
    then record pdc { state = established; dpdcid = a.spdcid }
    else pdc

abbrev pub act : Env → NackAction → ℕ → Sending → Option (ℤ × Sending)
act env drop psn s = some (einval, s)
act env close_pdc psn s = close_then_zero (close_pdc_in_error env s)
act env retx psn s = nack_found env s (found (bm_get s.world.pdc.tx_bm (tx_bm_idx s.world.pdc psn)))

-- a NACK that is not dropped
abbrev pub nack_act : Env → NackAction → Ack → Sending → Option (ℤ × Sending)
nack_act env action a s =
    if psn_after s.world.pdc.tx_bm_base_psn a.psn || psn_after a.psn (sub32 s.world.pdc.next_psn 1)
    then some (einval, s)
    else act env action a.psn (with_pdc s (nack_established a s.world.pdc))

abbrev pub is_drop : NackAction → Bool
is_drop drop = true
is_drop retx = false
is_drop close_pdc = false

abbrev pub is_new_start : NackCode → Bool
is_new_start new_start = true
is_new_start c = false

unfoldable pub process_nack : Env → NackCode → Ack → Sending → Option (ℤ × Sending)
unfolding reestablish_start_psn close_pdc_in_error nack_packet
process_nack env code a s =
    if not (check_pkt_src s.world.pdc a)
    then some (einval, s)
    else if is_new_start code
    then some (pos 0, reestablish_start_psn env a.payload s)
    else if is_drop (nack_action code)
    then some (einval, s)
    else nack_act env (nack_action code) a s
