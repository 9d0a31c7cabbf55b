-- ===== src/Dev/Qps.antt =====
-- uet_vfio/uet_dev_objs.c: the life of a queue pair. The library's answers are arguments.
pub mod Invariant
pub mod Bound
pub mod Refs
pub mod Ops
pub mod Modify
pub mod Contract
use uet_ref_prov.Base.{
  ℕ, zero, suc, ◌+◌, ◌-◌, ◌*◌, ◌/◌, ◌%◌, ◌^◌, Bool, true, false, not, ◌&&◌, ◌||◌, Option, none,
  some, List, [], ◌∷◌, ◌==◌, ltb, leb, if◌then◌else◌, get_or, set, map, bit_and, length,
}
use uet_ref_prov.Dev.Slots.{inc32, dec32, first_free, any_slot, slot_get}
use uet_ref_prov.Dev.State.{
  Status, st_ok, st_einval, st_enospc, st_enoent, st_ebusy, max_job_keys, max_qps, ring_max_entries,
  max_db_pages, qpn_absolute, qps_reset, qps_rts, qps_err, RingDesc, Ring, Jkey, Cq, Mr, Qp, Dev,
  zero_qp,
}
use uet_ref_prov.Dev.Jobs.{job_at, job_get, jkey_at, jkey_used}
use uet_ref_prov.Dev.Cqs.{cq_at, cq_get, not_power_of_two}

abbrev pub qp_used : Qp → Bool
qp_used q = q.used

abbrev pub qp_at : Dev → ℕ → Qp
qp_at dev i = get_or dev.qps i zero_qp

-- uet_dev_qp_get
abbrev pub qp_get : Dev → ℕ → Option ℕ
qp_get dev handle = slot_get max_qps qp_used dev.qps zero_qp handle

-- `struct uet_dev_admin_qp_create`, the fields that are read
pub record QpArgs : Type 0 where
  pub qpn : ℕ
  pub pd : ℕ
  pub send_cq : ℕ
  pub recv_cq : ℕ
  pub src_id : ℕ
  pub jkey_handle : ℕ
  pub max_send_wr : ℕ
  pub max_recv_wr : ℕ
  pub db_page : ℕ
  pub path_mtu : ℕ
  pub sq : RingDesc
  pub rq : RingDesc

-- What `uet_dev_qp_create` passes to `uet_endpoint`, the pool sizes of `dev->info` included.
pub record EpArgs : Type 0 where
  pub tx_size : ℕ
  pub rx_size : ℕ
  pub pid_on_fep : ℕ
  pub resource_index : ℕ
  pub src_id : ℕ
  pub job_id : ℕ
  pub absolute : Bool
  pub path_mtu : ℕ

-- The answers of the library and of `calloc` to one `uet_dev_qp_create`.
pub record Bringup : Type 0 where
  pub endpoint : EpArgs → Option ℕ
  pub bind_tx : ℕ → Bool
  pub bind_rx : ℕ → Bool
  pub sq_mem : Bool
  pub rq_mem : Bool

abbrev pub is_absolute : QpArgs → Bool
is_absolute args = not (bit_and args.qpn qpn_absolute == 0)

-- No job key is named, or none in use.
abbrev pub no_jkey : Dev → ℕ → Bool
no_jkey dev h = (h == 0) || ltb max_job_keys h || not (jkey_used (jkey_at dev (h - 1)))

abbrev pub closing_qpn : ℕ → Qp → Bool
closing_qpn qpn q = q.used && q.closing && (q.qpn == qpn)

-- The JobID of `ep_job` for what `uet_dev_job_get` returned
abbrev pub job_id_of : Dev → Option ℕ → ℕ
job_id_of dev none = 0
job_id_of dev (some i) = (job_at dev i).job_id

abbrev pub ep_job_id : Dev → ℕ → ℕ
ep_job_id dev h = if h == 0 then 0 else job_id_of dev (job_get dev (jkey_at dev (h - 1)).job_handle)

-- UET_DEV_DEF_QUEUE_DEPTH
abbrev pub pool_size : ℕ → ℕ
pool_size n = if ltb 64 n then n else 64

abbrev pub ep_args : Dev → QpArgs → EpArgs
ep_args dev args = record {
  tx_size = pool_size args.max_send_wr;
  rx_size = pool_size args.max_recv_wr;
  pid_on_fep = args.qpn % 2 ^ 12;
  resource_index = args.qpn / 2 ^ 12 % 2 ^ 12;
  src_id = args.src_id;
  job_id = ep_job_id dev args.jkey_handle;
  absolute = is_absolute args;
  path_mtu = args.path_mtu;
}

-- The check of a ring that is present.
abbrev pub ring_bad : RingDesc → Bool
ring_bad r =
    not (r.entries == 0)
    && (ltb ring_max_entries r.entries || not_power_of_two r.entries || (r.page_size == 0))

abbrev pub ring_of : RingDesc → Ring
ring_of r = record { desc = r; live = not (r.entries == 0) }

abbrev pub bound_more : Cq → Cq
bound_more c = record c { bound_qps = inc32 c.bound_qps }

-- One reference for the send queue in slot `s`, one for the receive queue in slot `r` if another.
abbrev pub bind_cqs : Dev → ℕ → ℕ → List Cq
bind_cqs dev s r =
    let cqs = set dev.cqs s (bound_more (cq_at dev s)) in
    if r == s then cqs else set cqs r (bound_more (cq_at dev r))

-- The queue pair that a failed bring-up leaves, and the one whose rings are set.
abbrev pub begun_qp : ℕ → Qp
begun_qp ep = record zero_qp { ep = ep }

abbrev pub ringed_qp : ℕ → QpArgs → Qp
ringed_qp ep args = record (begun_qp ep) {
  db_page = args.db_page;
  sq = ring_of args.sq;
  rq = ring_of args.rq;
}

abbrev pub new_qp : ℕ → QpArgs → Qp
new_qp ep args = record (ringed_qp ep args) {
  used = true;
  state = qps_reset;
  path_mtu = args.path_mtu;
  qpn = args.qpn;
  pd = args.pd;
  send_cq = args.send_cq;
  recv_cq = args.recv_cq;
  src_id = args.src_id;
  jkey_handle = args.jkey_handle;
}

abbrev pub bringup_fails : Bringup → ℕ → QpArgs → Bool
bringup_fails lib ep args =
    not (lib.bind_tx ep)
    || not (lib.bind_rx ep)
    || ring_bad args.sq
    || ring_bad args.rq
    || leb max_db_pages args.db_page

abbrev pub memory_fails : Bringup → QpArgs → Bool
memory_fails lib args =
    (not (args.sq.entries == 0) && not lib.sq_mem) || (not (args.rq.entries == 0) && not lib.rq_mem)

-- `uet_dev_qp_create` from the answer of `uet_endpoint` on, for slot `i` and the slots of the queues
abbrev pub qp_bring_up : Bringup → Dev → QpArgs → ℕ → ℕ → ℕ → Option ℕ → Dev × (Status × ℕ)
qp_bring_up lib dev args i s r none = (record dev { qps = set dev.qps i zero_qp }, (st_einval, 0))
qp_bring_up lib dev args i s r (some ep) =
    if bringup_fails lib ep args
    then (record dev { qps = set dev.qps i (begun_qp ep) }, (st_einval, 0))
    else if memory_fails lib args
    then (record dev { qps = set dev.qps i (ringed_qp ep args) }, (st_einval, 0))
    else (
      (record dev {
        qps = set dev.qps i (new_qp ep args);
        cqs = bind_cqs dev s r;
        qps_live = inc32 dev.qps_live;
      }),
      (st_ok, i + 1),
    )

-- `uet_dev_qp_create` for the slots of the two completion queues; `none` is the read of the table of
-- job keys beyond its end.
abbrev pub qp_create_at : Bringup → Dev → QpArgs → Option ℕ → Option ℕ → Option (Dev × (Status × ℕ))
qp_create_at lib dev args none rcq = some (dev, (st_enoent, 0))
qp_create_at lib dev args (some s) none = some (dev, (st_enoent, 0))
qp_create_at lib dev args (some s) (some r) =
    if not (is_absolute args) && no_jkey dev args.jkey_handle
    then some (dev, (st_einval, 0))
    else if any_slot (closing_qpn args.qpn) dev.qps
    then some (dev, (st_ebusy, 0))
    else let i = first_free qp_used dev.qps in
      if i == max_qps
      then some (dev, (st_enospc, 0))
      else if ltb max_job_keys args.jkey_handle
      then none
      else some (qp_bring_up lib dev args i s r (lib.endpoint (ep_args dev args)))

-- uet_dev_qp_create: the device, the status and `*out_handle`
unfoldable pub qp_create : Bringup → Dev → QpArgs → Option (Dev × (Status × ℕ))
qp_create lib dev args =
    qp_create_at lib dev args (cq_get dev args.send_cq) (cq_get dev args.recv_cq)

-- The first loop of `uet_dev_qp_destroy`.
abbrev pub detach_mr : ℕ → Mr → Mr
detach_mr handle m = if m.used && (m.qp == handle) then record m { qp = 0; enabled = false } else m

abbrev pub bound_less : Cq → Cq
bound_less c = if c.bound_qps == 0 then c else record c { bound_qps = dec32 c.bound_qps }

abbrev pub drop_cq : List Cq → Dev → Option ℕ → List Cq
drop_cq cqs dev none = cqs
drop_cq cqs dev (some i) = set cqs i (bound_less (cq_at dev i))

abbrev pub same_slot : Option ℕ → Option ℕ → Bool
same_slot (some a) (some b) = a == b
same_slot a b = false

-- What dropping the two references leaves of the completion queues.
abbrev pub unbind_cqs : Dev → Option ℕ → Option ℕ → List Cq
unbind_cqs dev scq rcq =
    let cqs = drop_cq dev.cqs dev scq in if same_slot rcq scq then cqs else drop_cq cqs dev rcq

-- uet_dev_qp_free
unfoldable pub qp_free : Dev → ℕ → Dev
qp_free dev i = record dev { qps = set dev.qps i zero_qp; qps_live = dec32 dev.qps_live }

abbrev pub closing_qp : Qp → Qp
closing_qp q = record q {
  closing = true;
  sq = record q.sq { live = false };
  rq = record q.rq { live = false };
}

-- `uet_dev_qp_destroy` for the slot of the queue pair; `closes` is whether `uet_ep_close` succeeds.
unfoldable pub destroyed_qp : Bool → Dev → ℕ → ℕ → Dev
unfolding qp_free
destroyed_qp closes dev handle i =
    let d = record dev {
      mrs = map (detach_mr (handle % 2 ^ 32)) dev.mrs;
      cqs = unbind_cqs dev (cq_get dev (qp_at dev i).send_cq) (cq_get dev (qp_at dev i).recv_cq);
    } in
    if closes then qp_free d i else (record d {
      qps = set d.qps i (closing_qp (qp_at dev i));
      qps_closing = inc32 d.qps_closing;
    })

abbrev pub qp_destroy_at : Bool → Dev → ℕ → Option ℕ → Dev × Status
qp_destroy_at closes dev handle none = (dev, st_enoent)
qp_destroy_at closes dev handle (some i) = (destroyed_qp closes dev handle i, st_ok)

-- uet_dev_qp_destroy
unfoldable pub qp_destroy : Bool → Dev → ℕ → Dev × Status
qp_destroy closes dev handle = qp_destroy_at closes dev handle (qp_get dev handle)

-- uet_dev_qp_retire: `flushed` is what `uet_ep_flush` returned, 0 for a negative value.
unfoldable pub qp_retire : ℕ → Bool → Dev → ℕ → Dev
unfolding qp_free
qp_retire flushed closes dev i =
    if ltb 0 flushed
    then record dev { flushed = (dev.flushed + flushed) % 2 ^ 32 }
    else if not closes
    then record dev { qps = set dev.qps i (record (qp_at dev i) { retire_traced = true }) }
    else qp_free (record dev { qps_closing = dec32 dev.qps_closing }) i

-- The answers of the library to one `uet_dev_qp_modify`: the calls that may fail, and what
-- `uet_ep_flush` returned until it found nothing.
pub record Answers : Type 0 where
  pub set_path_mtu : Bool
  pub enable : Bool
  pub reset : Bool
  pub flushes : List ℕ

abbrev pub sum : List ℕ → ℕ
sum [] = 0
sum (n ∷ ns) = n + sum ns

abbrev pub mtu_differs : Qp → ℕ → Bool
mtu_differs q mtu = not (mtu == 0) && not (mtu == q.path_mtu)

-- The switch of `uet_dev_qp_modify`: the queue pair before its new state, whether that is refused,
-- and how much was flushed.
abbrev pub modify_qp : Answers → Qp → ℕ → ℕ → Qp × (Bool × ℕ)
modify_qp lib q next mtu =
    if next == qps_rts
    then if q.state == qps_rts
      then (q, (mtu_differs q mtu, 0))
      else if not (q.state == qps_reset)
      then (q, (true, 0))
      else if not (mtu == 0)
      then if not lib.set_path_mtu
        then (q, (true, 0))
        else (record q { path_mtu = mtu }, (not lib.enable, 0))
      else (q, (not lib.enable, 0))
    else if next == qps_err
    then if q.state == qps_err then (q, (false, 0)) else (q, (false, sum lib.flushes))
    else if next == qps_reset
    then if q.state == qps_reset
      then (q, (false, 0))
      else if not (q.state == qps_err)
      then (q, (true, 0))
      else (q, (not lib.reset, 0))
    else (q, (true, 0))

-- The end of `uet_dev_qp_modify`: refused, with what was changed before, or moved.
abbrev pub modify_done : Dev → ℕ → ℕ → Qp → ℕ → Bool → Dev × Status
modify_done dev i next q flushed true = (record dev { qps = set dev.qps i q }, st_einval)
modify_done dev i next q flushed false = (
  (record dev {
    qps = set dev.qps i (record q { state = next });
    flushed = (dev.flushed + flushed) % 2 ^ 32;
  }),
  st_ok,
)

-- `uet_dev_qp_modify` for what `uet_dev_qp_get` returned
abbrev pub qp_modify_at : Answers → Dev → ℕ → ℕ → Option ℕ → Dev × Status
qp_modify_at lib dev next mtu none = (dev, st_enoent)
qp_modify_at lib dev next mtu (some i) =
    if (qp_at dev i).closing
    then (dev, st_einval)
    else let m = modify_qp lib (qp_at dev i) next mtu in modify_done dev i next m.0 m.1.1 m.1.0

-- uet_dev_qp_modify
unfoldable pub qp_modify : Answers → Dev → ℕ → ℕ → ℕ → Dev × Status
qp_modify lib dev handle next mtu = qp_modify_at lib dev next mtu (qp_get dev handle)
