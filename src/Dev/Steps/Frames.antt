-- ===== src/Dev/Steps/Frames.antt =====
-- What the operations on one kind of object leave of the others, and what that is enough for.
use uet_ref_prov.Base.{ℕ, ◌≡◌, sym, subst, List}
use uet_ref_prov.Dev.State.{Mr, Job, Jkey, Qp, Cq, Dev}
use uet_ref_prov.Dev.Jobs.Invariant.{JobsValid, KeysValid, JobKeysValid}
use uet_ref_prov.Dev.Slots.{count}
use uet_ref_prov.Dev.Cqs.{cq_used}
use uet_ref_prov.Dev.Qps.{qp_used}
use uet_ref_prov.Dev.Qps.Invariant.{qp_closing, QpsValid, QueuesValid}
use uet_ref_prov.Dev.Mrs.Invariant.{MrsValid}

-- What the operations on jobs, on queues and on regions each leave alone.
pub record Queues : Type 0 where
  qps : List Qp
  cqs : List Cq
  qps_live : ℕ
  qps_closing : ℕ
  cqs_live : ℕ
  mrs : List Mr
  mrs_live : ℕ

unfoldable pub queues : Dev → Queues
queues d = record {
  qps = d.qps;
  cqs = d.cqs;
  qps_live = d.qps_live;
  qps_closing = d.qps_closing;
  cqs_live = d.cqs_live;
  mrs = d.mrs;
  mrs_live = d.mrs_live;
}

pub record JobTables : Type 0 where
  jobs : List Job
  jkeys : List Jkey
  jobs_live : ℕ
  jobs_retiring : ℕ
  jkeys_live : ℕ
  mrs : List Mr
  mrs_live : ℕ

unfoldable pub job_tables : Dev → JobTables
job_tables d = record {
  jobs = d.jobs;
  jkeys = d.jkeys;
  jobs_live = d.jobs_live;
  jobs_retiring = d.jobs_retiring;
  jkeys_live = d.jkeys_live;
  mrs = d.mrs;
  mrs_live = d.mrs_live;
}

pub record Others : Type 0 where
  jobs : List Job
  jkeys : List Jkey
  jobs_live : ℕ
  jobs_retiring : ℕ
  jkeys_live : ℕ
  qps : List Qp
  cqs : List Cq
  qps_live : ℕ
  qps_closing : ℕ
  cqs_live : ℕ

unfoldable pub others : Dev → Others
others d = record {
  jobs = d.jobs;
  jkeys = d.jkeys;
  jobs_live = d.jobs_live;
  jobs_retiring = d.jobs_retiring;
  jkeys_live = d.jkeys_live;
  qps = d.qps;
  cqs = d.cqs;
  qps_live = d.qps_live;
  qps_closing = d.qps_closing;
  cqs_live = d.cqs_live;
}

-- The three invariants, each of the fields that it reads.
QueueFields : List Qp → List Cq → ℕ → ℕ → ℕ → Type 0
QueueFields qps cqs live closing cqs_live =
    QpsValid qps cqs
    × (live ≡ count qp_used qps)
    × (closing ≡ count qp_closing qps)
    × (cqs_live ≡ count cq_used cqs)

to_fields : {d : Dev} → QueuesValid d → QueueFields d.qps d.cqs d.qps_live d.qps_closing d.cqs_live
unfolding QueueFields
to_fields w = (w.valid, w.qps_live, w.qps_closing, w.cqs_live)

of_fields : {d : Dev} → QueueFields d.qps d.cqs d.qps_live d.qps_closing d.cqs_live → QueuesValid d
unfolding QueueFields
of_fields w = record { valid = w.0; qps_live = w.1; qps_closing = w.2; cqs_live = w.3 }

pub record DevValid (d : Dev) : Type 0 where
  pub job_keys : JobKeysValid d
  pub queues_valid : QueuesValid d
  pub regions : MrsValid d.mrs d.mrs_live

-- An operation on jobs that keeps the jobs valid keeps the device valid,
pub DevValid-jobs : (d u : Dev) → queues u ≡ queues d → DevValid d → JobKeysValid u → DevValid u
unfolding queues
DevValid-jobs d u e w k = record {
  job_keys = k;
  queues_valid = of_fields moved.0;
  regions = moved.1;
}
  where
    moved : QueueFields u.qps u.cqs u.qps_live u.qps_closing u.cqs_live × MrsValid u.mrs u.mrs_live
    moved =
        subst
          (λ (q : Queues).
            QueueFields q.qps q.cqs q.qps_live q.qps_closing q.cqs_live × MrsValid q.mrs q.mrs_live)
          (sym e) (to_fields w.queues_valid, w.regions)

-- one on queues that keeps the queues valid, also,
pub DevValid-queues :
    (d u : Dev) → job_tables u ≡ job_tables d → DevValid d → QueuesValid u → DevValid u
unfolding job_tables
DevValid-queues d u e w k = record {
  job_keys = record { jobs_valid = moved.0; keys_valid = moved.1 };
  queues_valid = k;
  regions = moved.2;
}
  where
    moved :
        JobsValid u.jobs u.jobs_live u.jobs_retiring
        × KeysValid u.jobs u.jkeys u.jkeys_live
        × MrsValid u.mrs u.mrs_live
    moved =
        subst
          (λ (j : JobTables).
            JobsValid j.jobs j.jobs_live j.jobs_retiring
            × KeysValid j.jobs j.jkeys j.jkeys_live
            × MrsValid j.mrs j.mrs_live)
          (sym e) (w.job_keys.jobs_valid, w.job_keys.keys_valid, w.regions)

-- and one on regions.
pub DevValid-regions :
    (d u : Dev) → others u ≡ others d → DevValid d → MrsValid u.mrs u.mrs_live → DevValid u
unfolding others
DevValid-regions d u e w k = record {
  job_keys = record { jobs_valid = moved.0; keys_valid = moved.1 };
  queues_valid = of_fields moved.2;
  regions = k;
}
  where
    moved :
        JobsValid u.jobs u.jobs_live u.jobs_retiring
        × KeysValid u.jobs u.jkeys u.jkeys_live
        × QueueFields u.qps u.cqs u.qps_live u.qps_closing u.cqs_live
    moved =
        subst
          (λ (j : Others).
            JobsValid j.jobs j.jobs_live j.jobs_retiring
            × KeysValid j.jobs j.jkeys j.jkeys_live
            × QueueFields j.qps j.cqs j.qps_live j.qps_closing j.cqs_live)
          (sym e) (w.job_keys.jobs_valid, w.job_keys.keys_valid, to_fields w.queues_valid)
