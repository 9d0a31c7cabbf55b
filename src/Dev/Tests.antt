-- ===== src/Dev/Tests.antt =====
-- Runs of the device model of uet_vfio, and the theorems at concrete devices.
use uet_ref_prov.Base.{
  ◌≡◌, refl, true, false, inl, none, some, [], ◌∷◌, get_or, set, arith, if◌then◌else◌, ◌==◌,
}
use uet_ref_prov.Dev.Slots.{slot_get, inc32, dec32}
use uet_ref_prov.Dev.State.{st_ok, RingDesc, Dev, qps_rts, zero_cq}
use uet_ref_prov.Dev.Jobs.{job_at, job_get, job_alloc, job_free, jkey_create, job_by_jkey}
use uet_ref_prov.Dev.Jobs.Ops.{job_alloc-JobKeysValid}
use uet_ref_prov.Dev.Jobs.Contract.{Allocated, job_alloc-Allocated, jkey_create-job_by_jkey}
use uet_ref_prov.Dev.Cqs.{CqArgs, cq_get, cq_create, cq_destroy}
use uet_ref_prov.Dev.Qps.{
  QpArgs, Bringup, Answers, new_qp, qp_create, qp_modify, qp_destroy, destroyed_qp, qp_free,
}
use uet_ref_prov.Dev.Qps.Ops.{cq_create-QueuesValid}
use uet_ref_prov.Dev.Qps.Modify.{may_move}
use uet_ref_prov.Dev.Qps.Contract.{Destroyed, Returns, cq_destroy-Destroyed, qp_create-Returns}
use uet_ref_prov.Dev.State.{Addr}
use uet_ref_prov.Dev.Addrs.{addr_insert, addr_av, addr_slot}
use uet_ref_prov.Dev.Mrs.{MrArgs, RegLib, mr_reg}
use uet_ref_prov.Dev.Retire.{retire_poll}
use uet_ref_prov.Dev.Steps.{
  new_dev, Reach, start, then_step, alloc_job, create_cq, create_qp, move_qp, reg_region, sweep,
}
use uet_ref_prov.Dev.Steps.Frames.{DevValid}
use uet_ref_prov.Dev.Steps.Reached.{Reach-DevValid, new_dev-DevValid}

abbrev ring_64 : RingDesc
ring_64 = record { pbl_root = 4096; page_size = 4096; level = 0; page_offset = 0; entries = 64 }

abbrev cq_64 : CqArgs
cq_64 = record { ring = ring_64; db_page = 1; vector = 0 }

-- An absolute queue pair of the first completion queue.
abbrev qp_64 : QpArgs
qp_64 = record {
  qpn = 2147487745;
  pd = 2;
  send_cq = 1;
  recv_cq = 1;
  src_id = 5;
  jkey_handle = 0;
  max_send_wr = 32;
  max_recv_wr = 128;
  db_page = 1;
  path_mtu = 0;
  sq = ring_64;
  rq = ring_64;
}

-- A library that answers every call.
abbrev willing : Bringup
willing = record {
  endpoint = λ a. some 9;
  bind_tx = λ ep. true;
  bind_rx = λ ep. true;
  sq_mem = true;
  rq_mem = true;
}

abbrev agreeing : Answers
agreeing = record { set_path_mtu = true; enable = true; reset = true; flushes = 3 ∷ 1 ∷ [] }

abbrev region : MrArgs
region = record {
  pd = 2;
  jkey_handle = 0;
  jkey = 0;
  access_class = 0;
  pbl_level = 0;
  base_va = 65536;
  len = 8192;
}

abbrev reg_lib : RegLib
reg_lib = record { reg = some 3; set_access = true; enable = true; key = 77 }

abbrev job_dev : Dev
job_dev = (job_alloc true new_dev 7 0 1 0 0).0

abbrev cq_dev : Dev
cq_dev = (cq_create job_dev cq_64).0

qp_dev : Returns (qp_create willing cq_dev qp_64)
qp_dev = qp_create-Returns willing cq_dev qp_64 (inl (omega arith))

reached :
    Reach
      (retire_poll (λ av. true) (mr_reg reg_lib (qp_modify agreeing qp_dev.0.0 1 1 0).0 region).0)
reached =
    then_step
      (then_step
        (then_step
          (then_step
            (then_step (then_step start (alloc_job true 7 0 1 0 0) tt) (create_cq cq_64) tt)
            (create_qp willing qp_64 qp_dev.0 qp_dev.1) tt)
          (move_qp agreeing 1 1 0) tt)
        (reg_region reg_lib region) tt)
      (sweep (λ av. true)) tt

abbrev peer : Addr
peer = record {
  dgid = [];
  remote_qpn = 3;
  flow_label = 0;
  dmac = [];
  sl = 0;
  traffic_class = 0;
  hop_limit = 1;
  sgid_index = 0;
  port_num = 1;
  is_global = 1;
}

-- A job whose one address was sent to, and which the library will not let go of, is retired.
abbrev sent_dev : Dev
sent_dev =
    addr_av (some 5) (addr_insert (job_alloc true new_dev 7 1 1 0 0).0 1 0 40 (some peer)).0 1 0

sent_retires : (job_at (job_free (λ av. false) sent_dev 1).0 0).retiring ≡ true
unfolding addr_av addr_insert addr_slot job_alloc job_free slot_get uet_ref_prov.Dev.Jobs.freed_job
sent_retires = refl

Reach-DevValid_example :
    DevValid
      (retire_poll (λ av. true) (mr_reg reg_lib (qp_modify agreeing qp_dev.0.0 1 1 0).0 region).0)
Reach-DevValid_example =
    Reach-DevValid
      (retire_poll (λ av. true) (mr_reg reg_lib (qp_modify agreeing qp_dev.0.0 1 1 0).0 region).0)
      reached

job_alloc-Allocated_example : Allocated new_dev 7 (job_alloc true new_dev 7 0 1 0 0)
job_alloc-Allocated_example = job_alloc-Allocated true new_dev 7 0 1 0 0 new_dev-DevValid.job_keys

key_made : (jkey_create job_dev 1 2 0).1.0 ≡ st_ok
unfolding jkey_create job_alloc slot_get
key_made = refl

jkey_create-job_by_jkey_example :
    job_by_jkey (jkey_create job_dev 1 2 0).0 (jkey_create job_dev 1 2 0).1.1.1 5
    ≡ (if 2 == 5 then job_get job_dev 1 else none)
jkey_create-job_by_jkey_example =
    jkey_create-job_by_jkey job_dev 1 2 0 5
      (job_alloc-JobKeysValid true new_dev 7 0 1 0 0 new_dev-DevValid.job_keys) key_made

abbrev key_dev : Dev
key_dev = (jkey_create job_dev 1 2 0).0

job_freed : (job_free (λ av. true) key_dev 1).1 ≡ st_ok
unfolding job_free jkey_create job_alloc slot_get
job_freed = refl

-- A new device with one completion queue.
abbrev one_cq : Dev
one_cq = (cq_create new_dev cq_64).0

one_cq-get : cq_get one_cq 1 ≡ some 0
unfolding cq_create slot_get
one_cq-get = refl

cq_destroy-Destroyed_example : Destroyed one_cq 1 (cq_destroy one_cq 1)
cq_destroy-Destroyed_example =
    cq_destroy-Destroyed one_cq 1 0
      (cq_create-QueuesValid new_dev cq_64 new_dev-DevValid.queues_valid) one_cq-get

-- A queue pair in slot 3, in RESET.
abbrev reset_qp : Dev
reset_qp = record new_dev { qps = set new_dev.qps 3 (new_qp 9 qp_64); qps_live = 1 }

up_is_listed : may_move (new_qp 9 qp_64).state qps_rts ≡ true
unfolding may_move
up_is_listed = refl

-- The guest destroys a queue pair that the library will not close, twice: the queue that it was bound
-- to no longer counts a second queue pair, and is destroyed under it.
abbrev two_qps : Dev
two_qps = record one_cq {
  cqs = set one_cq.cqs 0 (record (get_or one_cq.cqs 0 zero_cq) { bound_qps = 2 });
  qps = set (set new_dev.qps 0 (new_qp 9 qp_64)) 1 (new_qp 8 qp_64);
  qps_live = 2;
}

abbrev destroyed_twice : Dev
destroyed_twice = (qp_destroy false (qp_destroy false two_qps 1).0 1).0

destroyed_twice-cq : (cq_destroy destroyed_twice 1).1 ≡ st_ok
unfolding qp_destroy destroyed_qp qp_free cq_create cq_destroy slot_get inc32 dec32
destroyed_twice-cq = refl
