-- ===== src/Pds/State.antt =====
-- `struct uet_pdc_pkt` and `struct uet_pdc` of uet_pds.c: the fields that the window code reads or
-- writes. A `struct uet_pdc_pkt *` is a number, and `pkts` is the memory that it points into.
use uet_ref_prov.Base.{ℕ, Bool, List, ◌==◌, if◌then◌else◌}
use uet_ref_prov.Bitmap.{Bitmap}

-- `pdc_state_t`
pub data PdcState : Type 0 where
  unalloc syn pending established closing error : PdcState

-- `struct uet_pdc_pkt`; the PDS type is that of `pkt_pp`, `has_ack` is `ack != NULL`.
pub record Pkt : Type 0 where
  pub psn : ℕ
  pub tx_pkt_handle : ℕ  -- 0 is NULL
  pub tx_pkt_acked : Bool
  pub dst_recvd : Bool
  pub tx_retry_cnt : ℕ
  pub needs_clear : Bool
  pub reordered : Bool
  pub is_rod : Bool
  pub has_ack : Bool
  pub pkt_payload_len : ℕ
  pub pds_clear_psn : ℕ
  pub asks_ar : Bool  -- UET_PDS_REQ_FLAGS_AR
  pub is_syn_pkt : Bool  -- UET_PDS_REQ_FLAGS_SYN

-- `struct uet_pdc`
pub record Pdc : Type 0 where
  pub state : PdcState
  pub is_initiator : Bool
  pub dpdcid : ℕ
  pub active_msg_id_valid : Bool
  pub close_requested : Bool
  pub close_started : Bool
  pub close_cmd_psn : ℕ
  pub is_ipv6 : Bool
  pub dst_addr : ℕ  -- the member of the union that is_ipv6 tells
  pub sec_enabled : Bool
  pub start_psn : ℕ
  pub next_psn : ℕ
  pub tx_bm : Bitmap ℕ
  pub tx_bm_base_psn : ℕ
  pub max_cack_psn : ℕ
  pub peer_mp_range : ℕ
  pub mpr_update_cack_psn : ℕ
  pub mpr_update_valid : Bool
  pub rx_bm : Bitmap ℕ
  pub rx_bm_base_psn : ℕ
  pub cack_psn : ℕ
  pub max_clear_psn : ℕ
  pub prev_ar_psn : ℕ
  pub max_rcvd_psn : ℕ
  pub accepted_bytes : ℕ
  pub sack_base_track : ℕ

abbrev pub Memory : Type 0
Memory = ℕ → Pkt

-- What the code does to the world outside a PDC, in order.
pub data Event : Type 0 where
  freed : ℕ → Event  -- uet_pds_free_pdc_pkt
  unlinked : ℕ → Event  -- dlist_remove, from the transmit list
  rx_rsp : ℕ → Event  -- the SES upcall, with the packet's handle
  rx_rsp_with : ℕ → Event  -- the same, with the parsed packet
  new_start_psn : ℕ → Event  -- uet_sec_sd_set_ini_start_psn
  rx_req : ℕ → Event  -- the SES upcall with this received packet
  ack_sent : ℕ → Event  -- uet_pds_tx_ack_pkt, for this packet
  nack_sent : ℕ → Event  -- uet_pds_tx_nack, for this packet
  pds_err : ℕ → Event  -- the SES upcall of a failure, with the packet's handle
  ctrl_sent : ℕ → Event  -- a control packet has gone out
  retransmitted : ℕ → Event  -- a packet has gone out again
  pdc_freed : Event  -- the PDC leaves its hash table for the free list

-- A PDC, the packets, and the events so far, the latest first.
pub record World : Type 0 where
  pub pdc : Pdc
  pub pkts : Memory
  pub events : List Event

abbrev pub write : Memory → ℕ → Pkt → Memory
write m p v q = if p == q then v else m q
