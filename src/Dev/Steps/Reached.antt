-- ===== src/Dev/Steps/Reached.antt =====
-- The tables of the device are valid after every orderly sequence of commands, sends and sweeps.
use uet_ref_prov.Base.{
  ℕ, zero, suc, ◌+◌, ◌≡◌, ◌≢◌, refl, sym, ap, ◌∙◌, Bool, true, false, get_or, replicate,
  length-replicate, arith,
}
use mathlib.Core.Bool.{false≢true}
use uet_ref_prov.Dev.Slots.{count}
use uet_ref_prov.Dev.State.{
  Dev, zero_job, zero_jkey, zero_qp, zero_cq, max_job_ids, max_job_keys, max_qps, max_cqs, zero_mr,
  max_mrs,
}
use uet_ref_prov.Dev.Jobs.{job_used, jkey_used}
use uet_ref_prov.Dev.Jobs.Invariant.{job_retiring}
use uet_ref_prov.Dev.Jobs.Ops.{
  job_alloc-JobKeysValid, job_free-JobKeysValid, jkey_create-JobKeysValid,
  jkey_destroy-JobKeysValid,
}
use uet_ref_prov.Dev.Addrs.Kept.{
  addr_av-JobKeysValid, addr_insert-JobKeysValid, addr_remove-JobKeysValid,
}
use uet_ref_prov.Dev.Retire.Kept.{retire_poll-JobKeysValid}
use uet_ref_prov.Dev.Cqs.{cq_used}
use uet_ref_prov.Dev.Qps.{qp_used}
use uet_ref_prov.Dev.Qps.Invariant.{qp_open, qp_closing, binds}
use uet_ref_prov.Dev.Qps.Ops.{
  cq_create-QueuesValid, cq_destroy-QueuesValid, qp_create-QueuesValid, qp_destroy-QueuesValid,
  qp_retire-QueuesValid,
}
use uet_ref_prov.Dev.Qps.Modify.{qp_modify-QueuesValid}
use uet_ref_prov.Dev.Mrs.{mr_used}
use uet_ref_prov.Dev.Mrs.Invariant.{mr_clean}
use uet_ref_prov.Dev.Mrs.Ops.{
  mr_reg-MrsValid, mr_dereg-MrsValid, mr_attach-MrsValid, mr_detach-MrsValid,
}
use uet_ref_prov.Dev.Steps.{
  new_dev, Step, Orderly, send_to, alloc_job, free_job, create_jkey, destroy_jkey, insert_addr,
  remove_addr, create_cq, destroy_cq, create_qp, move_qp, destroy_qp, retire_qp, sweep, reg_region,
  dereg_region, attach_region, detach_region, Reach, start, then_step,
}
use uet_ref_prov.Dev.Steps.Frames.{DevValid, DevValid-jobs, DevValid-queues, DevValid-regions}
use uet_ref_prov.Dev.Steps.JobFrames.{
  job_alloc-queues, job_free-queues, jkey_create-queues, jkey_destroy-queues, retire_poll-queues,
  addr_insert-queues, addr_av-queues, addr_remove-queues,
}
use uet_ref_prov.Dev.Steps.QueueFrames.{
  cq_create-jobs, cq_destroy-jobs, qp_create-jobs, qp_retire-jobs, qp_modify-jobs,
}
use uet_ref_prov.Dev.Steps.RegionFrames.{
  mr_reg-others, mr_dereg-others, mr_attach-others, mr_detach-others, qp_destroy-rest,
}

get_or-zeroed {ℓ} : {A : Type ℓ} (n i : ℕ) (a : A) → get_or (replicate n a) i a ≡ a
get_or-zeroed zero i a = refl
get_or-zeroed (suc n) zero a = refl
get_or-zeroed (suc n) (suc i) a = get_or-zeroed n i a

count-zeroed {ℓ} :
    {A : Type ℓ} (p : A → Bool) (n : ℕ) (a : A) → p a ≡ false → count p (replicate n a) ≡ 0
count-zeroed p zero a e = refl
count-zeroed p (suc n) a e = rw e (omega (arith, count-zeroed p n a e))

zeroed-true {ℓ} :
    {A : Type ℓ} (p : A → Bool) (n i : ℕ) (a : A)
    → p a ≡ false
    → p (get_or (replicate n a) i a) ≢ true
zeroed-true p n i a z e = false≢true (sym z ∙ ap p (sym (get_or-zeroed n i a)) ∙ e)

pub new_dev-DevValid : DevValid new_dev
new_dev-DevValid = record {
  job_keys = record {
    jobs_valid = record {
      jobs_length = length-replicate max_job_ids zero_job;
      jobs_live = sym (count-zeroed job_used max_job_ids zero_job refl);
      jobs_retiring = sym (count-zeroed job_retiring max_job_ids zero_job refl);
      unique = λ i k u v e. absurd (zeroed-true job_used max_job_ids i zero_job refl u);
    };
    keys_valid = record {
      jkeys_length = length-replicate max_job_keys zero_jkey;
      jkeys_live = sym (count-zeroed jkey_used max_job_keys zero_jkey refl);
      named = λ k u. absurd (zeroed-true jkey_used max_job_keys k zero_jkey refl u);
    };
  };
  queues_valid = record {
    valid = record {
      qps_length = length-replicate max_qps zero_qp;
      cqs_length = length-replicate max_cqs zero_cq;
      bound = λ c.
          ap (λ x. x.bound_qps) (get_or-zeroed max_cqs c zero_cq)
          ∙ sym (count-zeroed (binds (c + 1)) max_qps zero_qp refl);
      refs = λ i o. absurd (zeroed-true qp_open max_qps i zero_qp refl o);
    };
    qps_live = sym (count-zeroed qp_used max_qps zero_qp refl);
    qps_closing = sym (count-zeroed qp_closing max_qps zero_qp refl);
    cqs_live = sym (count-zeroed cq_used max_cqs zero_cq refl);
  };
  regions = record {
    mrs_length = length-replicate max_mrs zero_mr;
    mrs_live = sym (count-zeroed mr_used max_mrs zero_mr refl);
    clean = λ i. ap mr_clean (get_or-zeroed max_mrs i zero_mr);
  };
}

Step-DevValid : {d u : Dev} (s : Step d u) → Orderly s → DevValid d → DevValid u
Step-DevValid {d = d} (alloc_job mem id addrs port sgid flags) ok w =
    DevValid-jobs d _ (job_alloc-queues mem d id addrs port sgid flags) w
      (job_alloc-JobKeysValid mem d id addrs port sgid flags w.job_keys)
Step-DevValid {d = d} (free_job removes handle) fresh w =
    DevValid-jobs d _ (job_free-queues removes d handle) w
      (job_free-JobKeysValid removes d handle w.job_keys fresh)
Step-DevValid {d = d} (create_jkey job_handle pdn flags) fresh w =
    DevValid-jobs d _ (jkey_create-queues d job_handle pdn flags) w
      (jkey_create-JobKeysValid d job_handle pdn flags w.job_keys fresh)
Step-DevValid {d = d} (destroy_jkey handle) ok w =
    DevValid-jobs d _ (jkey_destroy-queues d handle) w
      (jkey_destroy-JobKeysValid d handle w.job_keys)
Step-DevValid {d = d} (insert_addr job_handle index buf_len addr) ok w =
    DevValid-jobs d _ (addr_insert-queues d job_handle index buf_len addr) w
      (addr_insert-JobKeysValid d job_handle index buf_len addr w.job_keys)
Step-DevValid {d = d} (remove_addr removes job_handle index) ok w =
    DevValid-jobs d _ (addr_remove-queues removes d job_handle index) w
      (addr_remove-JobKeysValid removes d job_handle index w.job_keys)
Step-DevValid {d = d} (create_cq args) ok w =
    DevValid-queues d _ (cq_create-jobs d args) w (cq_create-QueuesValid d args w.queues_valid)
Step-DevValid {d = d} (destroy_cq handle) ok w =
    DevValid-queues d _ (cq_destroy-jobs d handle) w
      (cq_destroy-QueuesValid d handle w.queues_valid)
Step-DevValid {d = d} (move_qp lib handle next mtu) ok w =
    DevValid-queues d _ (qp_modify-jobs lib d handle next mtu) w
      (qp_modify-QueuesValid lib d handle next mtu w.queues_valid)
Step-DevValid {d = d} (reg_region lib args) ok w =
    DevValid-regions d _ (mr_reg-others lib d args) w (mr_reg-MrsValid lib d args w.regions)
Step-DevValid {d = d} (dereg_region disables closes handle) ok w =
    DevValid-regions d _ (mr_dereg-others disables closes d handle) w
      (mr_dereg-MrsValid disables closes d handle w.regions)
Step-DevValid {d = d} (attach_region disables binds mr_handle qp_handle) ok w =
    DevValid-regions d _ (mr_attach-others disables binds d mr_handle qp_handle) w
      (mr_attach-MrsValid disables binds d mr_handle qp_handle w.regions)
Step-DevValid {d = d} (detach_region disables handle) ok w =
    DevValid-regions d _ (mr_detach-others disables d handle) w
      (mr_detach-MrsValid disables d handle w.regions)
Step-DevValid {d = d} (create_qp lib args u e) ok w =
    DevValid-queues d u.0 (qp_create-jobs lib d args u e) w
      (qp_create-QueuesValid lib d args u w.queues_valid e)
Step-DevValid {d = d} (destroy_qp closes handle) fresh w =
    let rest = qp_destroy-rest closes d handle w.job_keys w.regions in
    (record {
      job_keys = rest.0;
      queues_valid = qp_destroy-QueuesValid closes d handle w.queues_valid fresh;
      regions = rest.1;
    })
Step-DevValid {d = d} (retire_qp flushed closes i o) ok w =
    DevValid-queues d _ (qp_retire-jobs flushed closes d i) w
      (qp_retire-QueuesValid flushed closes d i w.queues_valid o)
Step-DevValid {d = d} (send_to inserted job_handle index) ok w =
    DevValid-jobs d _ (addr_av-queues inserted d job_handle index) w
      (addr_av-JobKeysValid inserted d job_handle index w.job_keys)
Step-DevValid {d = d} (sweep removes) ok w =
    DevValid-jobs d _ (retire_poll-queues removes d) w
      (retire_poll-JobKeysValid removes d w.job_keys)

-- Of the sequences of commands, sends and sweeps, those in which the guest destroys no queue pair, and
-- frees or keys no job, that is already being retired keep the tables of a device just brought up valid,
-- whatever the library answers: the live and retiring counters equal the numbers of such slots, no two
-- jobs share a JobID, every job key names a job that is not freed, every completion queue counts the queue
-- pairs that refer to it, an open queue pair refers to completion queues in use, a free region slot is
-- clear, and an attached region is enabled.
pub Reach-DevValid : (d : Dev) → Reach d → DevValid d
Reach-DevValid d start = new_dev-DevValid
Reach-DevValid d (then_step {d = c} r s ok) = Step-DevValid s ok (Reach-DevValid c r)
