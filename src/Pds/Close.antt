-- ===== src/Pds/Close.antt =====
-- uet_pds.c: control packets (uet_pds_send_ctrl_pkt) and the close of a PDC. What allocation and the
-- transmission of a packet answer is an argument; the contents of a packet are not modelled.
pub mod Drain
pub mod InError
use uet_ref_prov.Base.{
  is_zero, ℕ, ◌+◌, ◌-◌, ◌%◌, ◌^◌, Bool, true, false, not, ◌&&◌, ◌||◌, Option, none, some, List, [],
  ◌∷◌, ◌++◌, ℤ, pos, negsuc, signed32, ◌==◌, if◌then◌else◌, ◌>>=◌,
}
use uet_ref_prov.Bitmap.{Bitmap, bm_get, bm_set, bm_unset}
use uet_ref_prov.Pds.Psn.{add32, sub32, psn_in_mpr}
use uet_ref_prov.Pds.State.{
  PdcState, closing, Pkt, Pdc, Memory, Event, freed, unlinked, pds_err, ctrl_sent, World, write,
}
use uet_ref_prov.Pds.Rx.{einval}
use uet_ref_prov.Pds.Tx.{tx_psn_allowed}
use uet_ref_prov.Pds.Free.{free_pdc}
use uet_ref_prov.Pds.Deliver.{enomem}
use uet_ref_prov.Pds.Ack.{is_syn, is_established}

-- A PDC with `tx_pkt_list_head`, the packets that may have to be sent again, the oldest first.
pub record Sending : Type 0 where
  pub world : World
  pub tx_list : List ℕ

-- The packet that uet_pds_alloc_pdc_pkt makes, or NULL; the code of uet_pds_sec_tx_pkt for each packet;
-- `uet->pds`: max_tx_retries and whether there is an upcall pds_err.
pub record Env : Type 0 where
  pub ctrl_pkt : Option ℕ
  pub sent : ℕ → ℤ
  pub max_tx_retries : ℕ
  pub has_pds_err : Bool

abbrev pub eagain : ℤ
eagain = negsuc 10

abbrev pub eio : ℤ
eio = negsuc 4

abbrev pub with_world : Sending → World → Sending
with_world s w = record s { world = w }

abbrev pub with_pdc : Sending → Pdc → Sending
with_pdc s pdc = with_world s (record (s.world) { pdc = pdc })

abbrev pub log : Sending → Event → Sending
log s e = with_world s (record (s.world) { events = e ∷ s.world.events })

-- `uet_pds_ctrl_type_t`, as far as there is code for it; the packet that an ACK request asks about.
pub data Ctrl : Type 0 where
  close close_req clear : Ctrl
  ack_req : ℕ → Ctrl

abbrev pub need_track : Ctrl → Bool
need_track close = true
need_track close_req = true
need_track clear = false
need_track (ack_req p) = false

abbrev pub cp_psn : World → Ctrl → ℕ
cp_psn w close = w.pdc.next_psn
cp_psn w close_req = w.pdc.next_psn
cp_psn w clear = 0
cp_psn w (ack_req p) = (w.pkts p).psn

-- The packet as `calloc` and the function leave it.
abbrev pub ctrl_of : ℕ → Pkt
ctrl_of psn = record {
  psn = psn;
  tx_pkt_handle = 0;
  tx_pkt_acked = false;
  dst_recvd = false;
  tx_retry_cnt = 0;
  needs_clear = false;
  reordered = false;
  is_rod = false;
  has_ack = false;
  pkt_payload_len = 0;
  pds_clear_psn = 0;
  asks_ar = false;
  is_syn_pkt = false;
}

abbrev pub built : World → ℕ → ℕ → World
built w p psn = record w { pkts = write w.pkts p (ctrl_of psn) }

abbrev pub give_up : ℤ → ℕ → Sending → ℤ × Sending
give_up rc p s = (rc, log s (freed p))

abbrev pub send_untracked : Env → ℕ → Sending → ℤ × Sending
send_untracked env p s =
    if is_zero (env.sent p)
    then (pos 0, log (log s (ctrl_sent p)) (freed p))
    else give_up (env.sent p) p s

abbrev pub tx_bm_idx : Pdc → ℕ → ℤ
tx_bm_idx pdc psn = signed32 (sub32 psn pdc.tx_bm_base_psn)

abbrev pub with_tx_bm : Sending → Bitmap ℕ → Sending
with_tx_bm s bm = with_pdc s (record (s.world.pdc) { tx_bm = bm })

-- A tracked packet that the bitmap holds now.
abbrev pub send_held : Env → ℕ → ℤ → Sending → ℤ × Sending
send_held env p idx s =
    if is_zero (env.sent p)
    then (
      pos 0,
      record {
        world = record (s.world) {
          pdc = record (s.world.pdc) { next_psn = add32 s.world.pdc.next_psn 1 };
          events = ctrl_sent p ∷ s.world.events;
        };
        tx_list = s.tx_list ++ (p ∷ []);
      },
    )
    else give_up (env.sent p) p (with_tx_bm s (bm_unset s.world.pdc.tx_bm idx))

abbrev pub send_tracked : Env → ℕ → ℤ → Sending → ℤ × Sending
send_tracked env p idx s =
    let held = bm_set s.world.pdc.tx_bm idx (some p) in
    if (bm_get s.world.pdc.tx_bm idx).0
    then give_up eio p s
    else if not held.0
    then give_up eio p (with_tx_bm s held.1)
    else send_held env p idx (with_tx_bm s held.1)

abbrev pub send_built : Env → Ctrl → Sending → ℕ → ℤ × Sending
send_built env ctrl s p =
    let ready = with_world s (built s.world p (cp_psn s.world ctrl)) in
    if not (need_track ctrl)
    then send_untracked env p ready
    else if not (tx_psn_allowed s.world.pdc (cp_psn s.world ctrl))
    then give_up eagain p s
    else send_tracked env p (tx_bm_idx s.world.pdc (cp_psn s.world ctrl)) ready

abbrev pub send_allocated : Env → Ctrl → Sending → Option ℕ → ℤ × Sending
send_allocated env ctrl s none = (enomem, s)
send_allocated env ctrl s (some p) = send_built env ctrl s p

unfoldable pub send_ctrl_pkt : Env → Ctrl → Sending → ℤ × Sending
send_ctrl_pkt env ctrl s = send_allocated env ctrl s env.ctrl_pkt

-- A round of uet_pdsm_drain_tx_pkts.
abbrev pub untrack : Pdc → ℕ → Pdc
untrack pdc psn =
    if psn_in_mpr psn pdc.tx_bm_base_psn
    then record pdc { tx_bm = bm_unset pdc.tx_bm (tx_bm_idx pdc psn) }
    else pdc

abbrev pub failure : Env → Pkt → List Event
failure env k =
    if env.has_pds_err && not (k.tx_pkt_handle == 0) then pds_err k.tx_pkt_handle ∷ [] else []

abbrev pub drain_pkt : Env → World → ℕ → World
drain_pkt env w p = record w {
  pdc = untrack w.pdc (w.pkts p).psn;
  events = freed p ∷ (failure env (w.pkts p) ++ (unlinked p ∷ w.events));
}

pub drain_from : Env → World → List ℕ → World
drain_from env w [] = w
drain_from env w (p ∷ l) = drain_from env (drain_pkt env w p) l

unfoldable pub drain_tx_pkts : Env → Sending → Sending
unfolding drain_from
drain_tx_pkts env s = record { world = drain_from env s.world s.tx_list; tx_list = [] }

-- `!dlist_empty`
abbrev pub is_busy : List ℕ → Bool
is_busy [] = false
is_busy (p ∷ l) = true

-- The close command has gone out with PSN `psn`, or has not.
abbrev pub closing_from : ℕ → ℤ × Sending → ℤ × Sending
closing_from psn (rc, s) =
    if is_zero rc
    then (
      rc,
      with_pdc s
          (record (s.world.pdc) { close_started = true; close_cmd_psn = psn; state = closing }),
    )
    else (rc, s)

abbrev pub free_sending : Sending → Option (ℤ × Sending)
free_sending s = do gone ← free_pdc s.world; some (pos 0, with_world s gone)

-- uet_pds_initiate_pdc_close, once the close is requested
abbrev pub close_requested_pdc : Env → Sending → Option (ℤ × Sending)
close_requested_pdc env s =
    if s.world.pdc.active_msg_id_valid
    then some (eagain, s)
    else if is_busy s.tx_list
    then some (eagain, s)
    else if is_syn s.world.pdc.state
    then free_sending s
    else some (closing_from s.world.pdc.next_psn (send_ctrl_pkt env close s))

unfoldable pub initiate_pdc_close : Env → Sending → Option (ℤ × Sending)
unfolding send_ctrl_pkt free_pdc
initiate_pdc_close env s =
    if s.world.pdc.close_requested && s.world.pdc.close_started
    then some (pos 0, s)
    else if not s.world.pdc.is_initiator
    then some (einval, s)
    else close_requested_pdc env (with_pdc s (record (s.world.pdc) { close_requested = true }))

abbrev pub close_asked : ℤ × Sending → ℤ × Sending
close_asked (rc, s) =
    if is_zero rc then (rc, with_pdc s (record (s.world.pdc) { close_started = true })) else (rc, s)

unfoldable pub target_pdc_close : Env → Sending → ℤ × Sending
unfolding send_ctrl_pkt
target_pdc_close env s =
    if s.world.pdc.close_started
    then (pos 0, s)
    else if not (is_established s.world.pdc.state)
    then (einval, s)
    else if is_busy s.tx_list
    then (eagain, s)
    else close_asked (send_ctrl_pkt env close_req s)

-- uet_pds_close_pdc_in_error; it does not look at the codes.
unfoldable pub close_pdc_in_error : Env → Sending → Option Sending
unfolding drain_tx_pkts initiate_pdc_close target_pdc_close
close_pdc_in_error env s =
    let drained = drain_tx_pkts env s in
    if drained.world.pdc.close_started
    then (do gone ← free_sending drained; some gone.1)
    else if drained.world.pdc.is_initiator
    then (do r ← initiate_pdc_close env drained; some r.1)
    else some (target_pdc_close env drained).1
