-- ===== src/Dev/State.antt =====
-- `struct uet_dev` of uet_vfio/uet_dev_priv.h: the object tables and their counters. The fields that
-- only the data path reads (ring indices, shadow work requests, phase and arming) are left out.
use uet_ref_prov.Base.{ℕ, Bool, false, List, [], Option, none, ◌^◌}

-- UET_DEV_ADMIN_ST_OK, ...
pub data Status : Type 0 where
  st_ok st_einval st_enospc st_eopnotsupp st_etoosmall st_eexist st_enoent st_ebusy : Status

-- UET_DEV_MAX_JOB_IDS, ...
abbrev pub max_job_ids : ℕ
max_job_ids = 256

abbrev pub max_job_keys : ℕ
max_job_keys = 256

abbrev pub max_addr_entries : ℕ
max_addr_entries = 4096

abbrev pub def_addr_entries : ℕ
def_addr_entries = 16

abbrev pub max_mrs : ℕ
max_mrs = 1024

abbrev pub max_qps : ℕ
max_qps = 256

abbrev pub max_cqs : ℕ
max_cqs = 256

abbrev pub max_ahs : ℕ
max_ahs = 256

abbrev pub cq_max_entries : ℕ
cq_max_entries = 4096

abbrev pub ring_max_entries : ℕ
ring_max_entries = 1024

abbrev pub max_db_pages : ℕ
max_db_pages = 64

abbrev pub num_vectors : ℕ
num_vectors = 4

-- UET_DEV_QPN_ABSOLUTE
abbrev pub qpn_absolute : ℕ
qpn_absolute = 2 ^ 31

-- `struct uet_dev_admin_addr`
pub record Addr : Type 0 where
  pub dgid : List ℕ
  pub remote_qpn : ℕ
  pub flow_label : ℕ
  pub dmac : List ℕ
  pub sl : ℕ
  pub traffic_class : ℕ
  pub hop_limit : ℕ
  pub sgid_index : ℕ
  pub port_num : ℕ
  pub is_global : ℕ

-- `struct uet_dev_addr_entry`; a library handle that is not NULL is a number.
pub record AddrEntry : Type 0 where
  pub addr : Option Addr
  pub valid : Bool
  pub av : Option ℕ
  pub retiring : Bool

-- `struct uet_dev_job`; `addrs` is the array of `max_addr_entries` entries, `[]` if NULL.
pub record Job : Type 0 where
  pub used : Bool
  pub job_id : ℕ
  pub max_addr_entries : ℕ
  pub flags : ℕ
  pub port_num : ℕ
  pub sgid_index : ℕ
  pub addrs : List AddrEntry
  pub retiring : Bool

-- `struct uet_dev_jkey`
pub record Jkey : Type 0 where
  pub used : Bool
  pub job_handle : ℕ
  pub pdn : ℕ
  pub flags : ℕ

-- `struct uet_dev_mr`
pub record Mr : Type 0 where
  pub used : Bool
  pub mr : Option ℕ
  pub key : ℕ
  pub pd : ℕ
  pub qp : ℕ
  pub access_class : ℕ
  pub job_id : ℕ
  pub base_va : ℕ
  pub len : ℕ
  pub enabled : Bool

-- `struct uet_dev_ring_desc`
pub record RingDesc : Type 0 where
  pub pbl_root : ℕ
  pub page_size : ℕ
  pub level : ℕ
  pub page_offset : ℕ
  pub entries : ℕ

-- `struct uet_dev_ring`
pub record Ring : Type 0 where
  pub desc : RingDesc
  pub live : Bool

-- `struct uet_dev_cq`
pub record Cq : Type 0 where
  pub used : Bool
  pub entries : ℕ
  pub bound_qps : ℕ
  pub db_page : ℕ
  pub vector : ℕ
  pub ring : Ring

-- UET_DEV_QPS_RESET, UET_DEV_QPS_RTS and UET_DEV_QPS_ERR
abbrev pub qps_reset : ℕ
qps_reset = 0

abbrev pub qps_rts : ℕ
qps_rts = 1

abbrev pub qps_err : ℕ
qps_err = 2

-- `struct uet_dev_qp`
pub record Qp : Type 0 where
  pub used : Bool
  pub ep : ℕ
  pub qpn : ℕ
  pub state : ℕ
  pub path_mtu : ℕ
  pub pd : ℕ
  pub send_cq : ℕ
  pub recv_cq : ℕ
  pub src_id : ℕ
  pub jkey_handle : ℕ
  pub db_page : ℕ
  pub closing : Bool
  pub retire_traced : Bool
  pub sq : Ring
  pub rq : Ring

-- `struct uet_dev_ah`
pub record Ah : Type 0 where
  pub used : Bool
  pub pd : ℕ
  pub addr : Option Addr
  pub av : Option ℕ

-- `struct uet_dev`
pub record Dev : Type 0 where
  pub jobs : List Job
  pub jkeys : List Jkey
  pub ahs : List Ah
  pub mrs : List Mr
  pub qps : List Qp
  pub cqs : List Cq
  pub jobs_live : ℕ
  pub jkeys_live : ℕ
  pub mrs_live : ℕ
  pub flushed : ℕ
  pub qps_closing : ℕ
  pub jobs_retiring : ℕ
  pub qps_live : ℕ
  pub cqs_live : ℕ

-- What `memset(.., 0, ..)` leaves in a slot.
abbrev pub zero_entry : AddrEntry
zero_entry = record { addr = none; valid = false; av = none; retiring = false }

abbrev pub zero_job : Job
zero_job = record {
  used = false;
  job_id = 0;
  max_addr_entries = 0;
  flags = 0;
  port_num = 0;
  sgid_index = 0;
  addrs = [];
  retiring = false;
}

abbrev pub zero_jkey : Jkey
zero_jkey = record { used = false; job_handle = 0; pdn = 0; flags = 0 }

abbrev pub zero_ah : Ah
zero_ah = record { used = false; pd = 0; addr = none; av = none }

abbrev pub zero_mr : Mr
zero_mr = record {
  used = false;
  mr = none;
  key = 0;
  pd = 0;
  qp = 0;
  access_class = 0;
  job_id = 0;
  base_va = 0;
  len = 0;
  enabled = false;
}

abbrev pub zero_ring : Ring
zero_ring = record {
  desc = record { pbl_root = 0; page_size = 0; level = 0; page_offset = 0; entries = 0 };
  live = false;
}

abbrev pub zero_cq : Cq
zero_cq = record {
  used = false;
  entries = 0;
  bound_qps = 0;
  db_page = 0;
  vector = 0;
  ring = zero_ring;
}

abbrev pub zero_qp : Qp
zero_qp = record {
  used = false;
  ep = 0;
  qpn = 0;
  state = 0;
  path_mtu = 0;
  pd = 0;
  send_cq = 0;
  recv_cq = 0;
  src_id = 0;
  jkey_handle = 0;
  db_page = 0;
  closing = false;
  retire_traced = false;
  sq = zero_ring;
  rq = zero_ring;
}
