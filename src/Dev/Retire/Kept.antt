-- ===== src/Dev/Retire/Kept.antt =====
-- The sweep of uet_vfio/uet_dev_data.c keeps jobs and job keys valid.
use uet_ref_prov.Base.{
  ℕ, zero, suc, ◌+◌, ◌^◌, ◌<◌, ◌≡◌, refl, sym, ap, ◌∙◌, subst, Bool, true, false, List, [], ◌∷◌,
  if◌then◌else◌, get_or, length, arith, Bool-cases, inl, inr,
}
use uet_ref_prov.Dev.Slots.{bit, dec32, dec32-pos, dec32-lt, count, count_le}
use uet_ref_prov.Dev.State.{Job, Dev, zero_job}
use uet_ref_prov.Dev.Jobs.{job_used}
use uet_ref_prov.Dev.Jobs.Invariant.{
  job_retiring, job_active, names_active, JobsValid, JobKeysValid,
}
use uet_ref_prov.Dev.Retire.{retire_job, retire_jobs, retire_table, retire_addrs, retire_poll}

-- What the two loops leave of a job.
swept : (ℕ → Bool) → Job → Job
swept removes j = retire_table removes (retire_job removes j).0

-- A job is not taken from its ID, and a job that is not retiring is not taken at all.
record Keeps (j k : Job) : Type 0 where
  used_of : job_used k ≡ true → (job_used j ≡ true) × (k.job_id ≡ j.job_id)
  active_of : job_active j ≡ true → job_active k ≡ true

retire_job-Keeps : (removes : ℕ → Bool) (j : Job) → Keeps j (retire_job removes j).0
retire_job-Keeps removes j = record { used_of = λ u. ground arith; active_of = λ u. ground arith }

retire_table-Keeps : (removes : ℕ → Bool) (j : Job) → Keeps j (retire_table removes j)
retire_table-Keeps removes j = record { used_of = λ u. ground arith; active_of = λ u. ground arith }

retire_job-gone :
    (removes : ℕ → Bool) (j : Job)
    → (retire_job removes j).1 ≡ true
    → (job_retiring j ≡ true)
      × (job_used j ≡ true)
      × (job_retiring (retire_job removes j).0 ≡ false)
      × (job_used (retire_job removes j).0 ≡ false)
retire_job-gone removes j e = ground arith

retire_job-stays :
    (removes : ℕ → Bool) (j : Job)
    → (retire_job removes j).1 ≡ false
    → (job_retiring (retire_job removes j).0 ≡ job_retiring j)
      × (job_used (retire_job removes j).0 ≡ job_used j)
retire_job-stays removes j e = ground arith

-- The counters after a round of the first loop, for `m` and `n` jobs counted in the other slots.
retire_job-counts :
    (removes : ℕ → Bool) (j : Job) (retiring live m n : ℕ)
    → retiring ≡ m + bit (job_retiring j)
    → live ≡ n + bit (job_used j)
    → retiring < 2 ^ 32
    → live < 2 ^ 32
    → ((if (retire_job removes j).1 then dec32 retiring else retiring)
        ≡ m + bit (job_retiring (retire_job removes j).0))
      × ((if (retire_job removes j).1 then dec32 live else live)
          ≡ n + bit (job_used (retire_job removes j).0))
retire_job-counts removes j retiring live m n er el hr hl =
    elim (Bool-cases (retire_job removes j).1) [
      | inl e ↦
          let g = retire_job-gone removes j e in
          let r = er ∙ ap (λ b. m + bit b) g.0 in
          let l = el ∙ ap (λ b. n + bit b) g.1 in
          rw (e, g.2, g.3)
            (
              dec32-pos retiring (omega (arith, r)) hr ∙ omega (arith, r),
              dec32-pos live (omega (arith, l)) hl ∙ omega (arith, l),
            )
      | inr e ↦ let g = retire_job-stays removes j e in rw (e, g.0, g.1) (er, el)
    ]

-- The first loop keeps the counters, for `m` and `n` jobs counted in the slots before.
retire_jobs-counts :
    (removes : ℕ → Bool) (js : List Job) (retiring live m n : ℕ)
    → retiring ≡ m + count job_retiring js
    → live ≡ n + count job_used js
    → retiring < 2 ^ 32
    → live < 2 ^ 32
    → ((retire_jobs removes js retiring live).1.0
        ≡ m + count job_retiring (retire_jobs removes js retiring live).0)
      × ((retire_jobs removes js retiring live).1.1
          ≡ n + count job_used (retire_jobs removes js retiring live).0)
retire_jobs-counts removes [] retiring live m n er el hr hl = (er, el)
retire_jobs-counts removes (j ∷ js) retiring live m n er el hr hl =
    let c =
      retire_job-counts removes j retiring live (m + count job_retiring js) (n + count job_used js)
        (omega (arith, er)) (omega (arith, el)) hr hl in
    let rest =
      retire_jobs-counts removes js (if (retire_job removes j).1 then dec32 retiring else retiring)
        (if (retire_job removes j).1 then dec32 live else live)
        (m + bit (job_retiring (retire_job removes j).0))
        (n + bit (job_used (retire_job removes j).0)) (omega (arith, c.0)) (omega (arith, c.1))
        (dec32-lt (retire_job removes j).1 retiring hr)
        (dec32-lt (retire_job removes j).1 live hl) in
    (omega (arith, rest.0), omega (arith, rest.1))

get_or-retire_jobs :
    (removes : ℕ → Bool) (js : List Job) (retiring live k : ℕ)
    → get_or (retire_jobs removes js retiring live).0 k zero_job
      ≡ (retire_job removes (get_or js k zero_job)).0
get_or-retire_jobs removes [] retiring live k = refl
get_or-retire_jobs removes (j ∷ js) retiring live zero = refl
get_or-retire_jobs removes (j ∷ js) retiring live (suc k) = get_or-retire_jobs removes js _ _ k

length-retire_jobs :
    (removes : ℕ → Bool) (js : List Job) (retiring live : ℕ)
    → length (retire_jobs removes js retiring live).0 ≡ length js
length-retire_jobs removes [] retiring live = refl
length-retire_jobs removes (j ∷ js) retiring live = ap suc (length-retire_jobs removes js _ _)

get_or-retire_addrs :
    (removes : ℕ → Bool) (js : List Job) (k : ℕ)
    → get_or (retire_addrs removes js) k zero_job ≡ retire_table removes (get_or js k zero_job)
get_or-retire_addrs removes [] k = refl
get_or-retire_addrs removes (j ∷ js) zero = refl
get_or-retire_addrs removes (j ∷ js) (suc k) = get_or-retire_addrs removes js k

length-retire_addrs :
    (removes : ℕ → Bool) (js : List Job) → length (retire_addrs removes js) ≡ length js
length-retire_addrs removes [] = refl
length-retire_addrs removes (j ∷ js) = ap suc (length-retire_addrs removes js)

retire_table-flags :
    (removes : ℕ → Bool) (j : Job)
    → (job_used (retire_table removes j) ≡ job_used j)
      × (job_retiring (retire_table removes j) ≡ job_retiring j)
retire_table-flags removes j = (ground arith, ground arith)

count-retire_addrs :
    (removes : ℕ → Bool) (js : List Job)
    → (count job_used (retire_addrs removes js) ≡ count job_used js)
      × (count job_retiring (retire_addrs removes js) ≡ count job_retiring js)
count-retire_addrs removes [] = (refl, refl)
count-retire_addrs removes (j ∷ js) =
    let f = retire_table-flags removes j in
    let rest = count-retire_addrs removes js in
    (omega (arith, ap bit f.0, rest.0), omega (arith, ap bit f.1, rest.1))

swept-Keeps : (removes : ℕ → Bool) (j : Job) → Keeps j (swept removes j)
unfolding swept
swept-Keeps removes j =
    let a = retire_job-Keeps removes j in
    let b = retire_table-Keeps removes (retire_job removes j).0 in
    (record {
      used_of = λ u. let q = b.used_of u in let p = a.used_of q.0 in (p.0, q.1 ∙ p.1);
      active_of = λ u. b.active_of (a.active_of u);
    })

swept_jobs : (ℕ → Bool) → Dev → List Job
swept_jobs removes d = (retire_poll removes d).jobs

get_or-swept_jobs :
    (removes : ℕ → Bool) (d : Dev) (k : ℕ)
    → get_or (swept_jobs removes d) k zero_job ≡ swept removes (get_or d.jobs k zero_job)
unfolding swept_jobs retire_poll swept
get_or-swept_jobs removes d k =
    get_or-retire_addrs removes (retire_jobs removes d.jobs d.jobs_retiring d.jobs_live).0 k
    ∙ ap (retire_table removes) (get_or-retire_jobs removes d.jobs d.jobs_retiring d.jobs_live k)

-- A handle that names an active job names one after the sweep.
names_active-swept_jobs :
    (removes : ℕ → Bool) (d : Dev) (h : ℕ)
    → names_active d.jobs h ≡ true
    → names_active (swept_jobs removes d) h ≡ true
names_active-swept_jobs removes d zero e = e
names_active-swept_jobs removes d (suc h) e =
    subst (λ j. job_active j ≡ true) (sym (get_or-swept_jobs removes d h))
      ((swept-Keeps removes (get_or d.jobs h zero_job)).active_of e)

swept_jobs-Keeps :
    (removes : ℕ → Bool) (d : Dev) (k : ℕ)
    → Keeps (get_or d.jobs k zero_job) (get_or (swept_jobs removes d) k zero_job)
swept_jobs-Keeps removes d k =
    subst (λ j. Keeps (get_or d.jobs k zero_job) j) (sym (get_or-swept_jobs removes d k))
      (swept-Keeps removes (get_or d.jobs k zero_job))

swept_jobs-JobsValid :
    (removes : ℕ → Bool) (d : Dev)
    → JobsValid d.jobs d.jobs_live d.jobs_retiring
    → JobsValid
        (retire_poll removes d).jobs
        (retire_poll removes d).jobs_live
        (retire_poll removes d).jobs_retiring
unfolding retire_poll swept_jobs
swept_jobs-JobsValid removes d w = record {
  jobs_length =
      length-retire_addrs removes first ∙ length-retire_jobs removes d.jobs _ _ ∙ w.jobs_length;
  jobs_live = omega (arith, counts.1, (count-retire_addrs removes first).0);
  jobs_retiring = omega (arith, counts.0, (count-retire_addrs removes first).1);
  unique = λ i k u v e.
      let a = (swept_jobs-Keeps removes d i).used_of u in
      let b = (swept_jobs-Keeps removes d k).used_of v in w.unique i k a.0 b.0 (sym a.1 ∙ e ∙ b.1);
}
  where
    first : List Job
    first = (retire_jobs removes d.jobs d.jobs_retiring d.jobs_live).0

    counts :
        ((retire_jobs removes d.jobs d.jobs_retiring d.jobs_live).1.0
          ≡ 0 + count job_retiring first)
        × ((retire_jobs removes d.jobs d.jobs_retiring d.jobs_live).1.1 ≡ 0 + count job_used first)
    counts =
        retire_jobs-counts removes d.jobs d.jobs_retiring d.jobs_live 0 0
          (omega (arith, w.jobs_retiring)) (omega (arith, w.jobs_live))
          (omega (arith, w.jobs_retiring, w.jobs_length, count_le job_retiring d.jobs))
          (omega (arith, w.jobs_live, w.jobs_length, count_le job_used d.jobs))

pub retire_poll-JobKeysValid :
    (removes : ℕ → Bool) (d : Dev) → JobKeysValid d → JobKeysValid (retire_poll removes d)
unfolding retire_poll swept_jobs
retire_poll-JobKeysValid removes d w = record {
  jobs_valid = swept_jobs-JobsValid removes d w.jobs_valid;
  keys_valid = record {
    jkeys_length = w.keys_valid.jkeys_length;
    jkeys_live = w.keys_valid.jkeys_live;
    named = λ k u. names_active-swept_jobs removes d _ (w.keys_valid.named k u);
  };
}
