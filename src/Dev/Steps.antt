-- ===== src/Dev/Steps.antt =====
-- The device between the commands of a guest and the sweeps of the progress thread: the handlers of
-- uet_vfio/uet_dev_admin.c that change the tables, and the retiring half of uet_vfio/uet_dev_data.c.
pub mod Frames
mod JobFrames
mod QueueFrames
mod RegionFrames
pub mod Reached
use uet_ref_prov.Base.{ℕ, Bool, false, true, Option, none, some, ◌≡◌, replicate}
use uet_ref_prov.Dev.State.{
  Addr, Status, Dev, zero_job, zero_jkey, zero_ah, zero_mr, zero_qp, zero_cq, max_job_ids,
  max_job_keys, max_ahs, max_mrs, max_qps, max_cqs,
}
use uet_ref_prov.Dev.Jobs.{job_at, job_get, job_alloc, job_free, jkey_create, jkey_destroy}
use uet_ref_prov.Dev.Cqs.{CqArgs, cq_create, cq_destroy}
use uet_ref_prov.Dev.Qps.{
  QpArgs, Bringup, Answers, qp_at, qp_get, qp_create, qp_destroy, qp_retire, qp_modify,
}
use uet_ref_prov.Dev.Qps.Invariant.{qp_open, qp_closing}
use uet_ref_prov.Dev.Mrs.{MrArgs, RegLib, mr_reg, mr_dereg, mr_attach, mr_detach}
use uet_ref_prov.Dev.Addrs.{addr_insert, addr_remove, addr_av}
use uet_ref_prov.Dev.Retire.{retire_poll}

-- The device as `uet_dev_core.c` brings it up, with its tables zeroed.
abbrev pub new_dev : Dev
new_dev = record {
  jobs = replicate max_job_ids zero_job;
  jkeys = replicate max_job_keys zero_jkey;
  ahs = replicate max_ahs zero_ah;
  mrs = replicate max_mrs zero_mr;
  qps = replicate max_qps zero_qp;
  cqs = replicate max_cqs zero_cq;
  jobs_live = 0;
  jkeys_live = 0;
  mrs_live = 0;
  flushed = 0;
  qps_closing = 0;
  jobs_retiring = 0;
  qps_live = 0;
  cqs_live = 0;
}

-- A step of the device: whatever a guest asks, and whatever the library answers. A send to an entry of a
-- job's address table gives it its vector.
pub data Step (d : Dev) : Dev → Type 0 where
  alloc_job :
      (mem : Bool) (id max_addrs port sgid flags : ℕ)
      → Step d (job_alloc mem d id max_addrs port sgid flags).0
  free_job : (removes : ℕ → Bool) (handle : ℕ) → Step d (job_free removes d handle).0
  create_jkey : (job_handle pdn flags : ℕ) → Step d (jkey_create d job_handle pdn flags).0
  destroy_jkey : (handle : ℕ) → Step d (jkey_destroy d handle).0
  insert_addr :
      (job_handle index buf_len : ℕ) (addr : Option Addr)
      → Step d (addr_insert d job_handle index buf_len addr).0
  remove_addr :
      (removes : ℕ → Bool) (job_handle index : ℕ)
      → Step d (addr_remove removes d job_handle index).0
  send_to :
      (inserted : Option ℕ) (job_handle index : ℕ) → Step d (addr_av inserted d job_handle index)
  create_cq : (args : CqArgs) → Step d (cq_create d args).0
  destroy_cq : (handle : ℕ) → Step d (cq_destroy d handle).0
  create_qp :
      (lib : Bringup) (args : QpArgs) (u : Dev × (Status × ℕ))
      → qp_create lib d args ≡ some u
      → Step d u.0
  move_qp : (lib : Answers) (handle next mtu : ℕ) → Step d (qp_modify lib d handle next mtu).0
  destroy_qp : (closes : Bool) (handle : ℕ) → Step d (qp_destroy closes d handle).0
  retire_qp :
      (flushed : ℕ) (closes : Bool) (i : ℕ)
      → qp_closing (qp_at d i) ≡ true
      → Step d (qp_retire flushed closes d i)
  reg_region : (lib : RegLib) (args : MrArgs) → Step d (mr_reg lib d args).0
  dereg_region :
      (disables closes : Bool) (handle : ℕ) → Step d (mr_dereg disables closes d handle).0
  attach_region :
      (disables binds : Bool) (mr_handle qp_handle : ℕ)
      → Step d (mr_attach disables binds d mr_handle qp_handle).0
  detach_region : (disables : Bool) (handle : ℕ) → Step d (mr_detach disables d handle).0
  sweep : (removes : ℕ → Bool) → Step d (retire_poll removes d)

-- A guest frees a job, keys it, or destroys a queue pair, while that is not already being retired.
-- The code accepts these then as well, and breaks the invariant of its tables.
abbrev pub Orderly : {d u : Dev} → Step d u → Type 0
Orderly {d = d} (free_job removes handle) =
    (i : ℕ) → job_get d handle ≡ some i → (job_at d i).retiring ≡ false
Orderly {d = d} (create_jkey job_handle pdn flags) =
    (i : ℕ) → job_get d job_handle ≡ some i → (job_at d i).retiring ≡ false
Orderly {d = d} (destroy_qp closes handle) =
    (i : ℕ) → qp_get d handle ≡ some i → qp_open (qp_at d i) ≡ true
Orderly s = Unit

-- A device that orderly steps lead to.
pub data Reach : Dev → Type 0 where
  start : Reach new_dev
  then_step : {d u : Dev} → Reach d → (s : Step d u) → Orderly s → Reach u
