-- ===== src/Dev/Steps/RegionFrames.antt =====
-- The operations on regions leave jobs, keys and queues alone; the destruction of a queue pair
-- leaves the jobs and detaches its regions.
use uet_ref_prov.Base.{
  ℕ, ◌%◌, ◌^◌, ◌≡◌, refl, Bool, true, false, Option, none, some, ◌==◌, leb, arith, Bool-cases, inl,
  inr,
}
use uet_ref_prov.Dev.Slots.{first_free}
use uet_ref_prov.Dev.State.{Dev, max_mrs}
use uet_ref_prov.Dev.Jobs.Invariant.{JobKeysValid}
use uet_ref_prov.Dev.Qps.{qp_get, qp_free, destroyed_qp, qp_destroy_at, qp_destroy}
use uet_ref_prov.Dev.Mrs.{
  mr_used, mr_get, MrArgs, RegLib, Check, refuse, accept, mr_put, mr_reg_checked, mr_reg,
  check_class, mr_dereg_at, mr_dereg, mr_attach_at, mr_attach, mr_detach_at, mr_detach,
}
use uet_ref_prov.Dev.Mrs.Invariant.{MrsValid}
use uet_ref_prov.Dev.Mrs.Ops.{detach-MrsValid}
use uet_ref_prov.Dev.Steps.Frames.{others}

mr_put-others :
    (lib : RegLib) (d : Dev) (args : MrArgs) (i job_id : ℕ) (o : Option ℕ)
    → others (mr_put lib d args i job_id o).0 ≡ others d
unfolding others
mr_put-others lib d args i job_id none = refl
mr_put-others lib d args i job_id (some mr) = ground arith

mr_reg_checked-others :
    (lib : RegLib) (d : Dev) (args : MrArgs) (i : ℕ) (c : Check)
    → others (mr_reg_checked lib d args i c).0 ≡ others d
mr_reg_checked-others lib d args i (refuse s) = refl
mr_reg_checked-others lib d args i (accept job_id) = mr_put-others lib d args i job_id lib.reg

pub mr_reg-others :
    (lib : RegLib) (d : Dev) (args : MrArgs) → others (mr_reg lib d args).0 ≡ others d
unfolding mr_reg
mr_reg-others lib d args = elim (Bool-cases (leb 3 args.pbl_level)) [
  | inl a ↦ rw a refl
  | inr a ↦ elim (Bool-cases (first_free mr_used d.mrs == max_mrs)) [
    | inl b ↦ rw (a, b) refl
    | inr b ↦
        rw (a, b) (mr_reg_checked-others lib d args (first_free mr_used d.mrs) (check_class d args))
  ]
]

mr_dereg_at-others :
    (disables closes : Bool) (d : Dev) (o : Option ℕ)
    → others (mr_dereg_at disables closes d o).0 ≡ others d
unfolding others
mr_dereg_at-others disables closes d none = refl
mr_dereg_at-others disables true d (some i) = ground arith
mr_dereg_at-others disables false d (some i) = ground arith

pub mr_dereg-others :
    (disables closes : Bool) (d : Dev) (handle : ℕ)
    → others (mr_dereg disables closes d handle).0 ≡ others d
unfolding mr_dereg
mr_dereg-others disables closes d handle = mr_dereg_at-others disables closes d (mr_get d handle)

mr_attach_at-others :
    (disables binds : Bool) (d : Dev) (qp_handle : ℕ) (om oq : Option ℕ)
    → others (mr_attach_at disables binds d qp_handle om oq).0 ≡ others d
unfolding others
mr_attach_at-others disables binds d qp_handle none oq = refl
mr_attach_at-others disables binds d qp_handle (some i) none = refl
mr_attach_at-others disables binds d qp_handle (some i) (some q) = ground arith

pub mr_attach-others :
    (disables binds : Bool) (d : Dev) (mr_handle qp_handle : ℕ)
    → others (mr_attach disables binds d mr_handle qp_handle).0 ≡ others d
unfolding mr_attach
mr_attach-others disables binds d mr_handle qp_handle =
    mr_attach_at-others disables binds d qp_handle (mr_get d mr_handle) (qp_get d qp_handle)

mr_detach_at-others :
    (disables : Bool) (d : Dev) (o : Option ℕ) → others (mr_detach_at disables d o).0 ≡ others d
unfolding others
mr_detach_at-others disables d none = refl
mr_detach_at-others disables d (some i) = ground arith

pub mr_detach-others :
    (disables : Bool) (d : Dev) (handle : ℕ) → others (mr_detach disables d handle).0 ≡ others d
unfolding mr_detach
mr_detach-others disables d handle = mr_detach_at-others disables d (mr_get d handle)

destroyed_qp-rest :
    (closes : Bool) (d : Dev) (handle i : ℕ)
    → JobKeysValid d
    → MrsValid d.mrs d.mrs_live
    → JobKeysValid (destroyed_qp closes d handle i)
      × MrsValid (destroyed_qp closes d handle i).mrs (destroyed_qp closes d handle i).mrs_live
unfolding destroyed_qp qp_free
destroyed_qp-rest true d handle i w m = (
  (record { jobs_valid = w.jobs_valid; keys_valid = w.keys_valid }),
  detach-MrsValid (handle % 2 ^ 32) d.mrs d.mrs_live m,
)
destroyed_qp-rest false d handle i w m = (
  (record { jobs_valid = w.jobs_valid; keys_valid = w.keys_valid }),
  detach-MrsValid (handle % 2 ^ 32) d.mrs d.mrs_live m,
)

qp_destroy_at-rest :
    (closes : Bool) (d : Dev) (handle : ℕ) (o : Option ℕ)
    → JobKeysValid d
    → MrsValid d.mrs d.mrs_live
    → JobKeysValid (qp_destroy_at closes d handle o).0
      × MrsValid
          (qp_destroy_at closes d handle o).0.mrs
          (qp_destroy_at closes d handle o).0.mrs_live
qp_destroy_at-rest closes d handle none w m = (w, m)
qp_destroy_at-rest closes d handle (some i) w m = destroyed_qp-rest closes d handle i w m

pub qp_destroy-rest :
    (closes : Bool) (d : Dev) (handle : ℕ)
    → JobKeysValid d
    → MrsValid d.mrs d.mrs_live
    → JobKeysValid (qp_destroy closes d handle).0
      × MrsValid (qp_destroy closes d handle).0.mrs (qp_destroy closes d handle).0.mrs_live
unfolding qp_destroy
qp_destroy-rest closes d handle w m = qp_destroy_at-rest closes d handle (qp_get d handle) w m
