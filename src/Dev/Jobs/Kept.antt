-- ===== src/Dev/Jobs/Kept.antt =====
-- What a write of a slot does to the validity of the jobs; every operation of uet_vfio/uet_dev_objs.c on jobs and job keys keeps them valid.
use uet_ref_prov.Base.{
  ℕ, ◌+◌, ◌<◌, ◌≤◌, ◌≡◌, ◌≢◌, refl, sym, ◌∙◌, true, false, List, ◌==◌, get_or, set, length,
  length-set, arith, Bool-cases, ==_iff, inl, inr, ==_ne,
}
use mathlib.Core.Bool.{false≢true}
use uet_ref_prov.Dev.Slots.{
  bit, inc32, dec32, inc32-lt, dec32-pos, first_free, any_slot, count-set, count_le, count_pos,
  first_free_le, first_free-get_or, get_or-set, any_slot-false, inside_table,
}
use uet_ref_prov.Dev.State.{AddrEntry, Job, zero_job, max_job_ids}
use uet_ref_prov.Dev.Jobs.{job_used, has_job_id, new_job}
use uet_ref_prov.Dev.Jobs.Invariant.{job_retiring, JobsValid}

-- A slot may take a job that keeps the IDs unique.
put_unique :
    {js : List Job} {live retiring : ℕ} (w : JobsValid js live retiring) (i : ℕ) (v : Job)
    → i < length js
    → ((k : ℕ)
        → k ≢ i
        → job_used v ≡ true
        → job_used (get_or js k zero_job) ≡ true
        → (get_or js k zero_job).job_id ≢ v.job_id)
    → (a b : ℕ) → job_used (get_or (set js i v) a zero_job) ≡ true
    → job_used (get_or (set js i v) b zero_job) ≡ true
    → (get_or (set js i v) a zero_job).job_id ≡ (get_or (set js i v) b zero_job).job_id
    → a ≡ b
put_unique {js = js} w i v h fresh a b =
    rw (get_or-set js i a v zero_job h, get_or-set js i b v zero_job h)
      (elim (Bool-cases (a == i)) [
        | inl p ↦ elim (Bool-cases (b == i)) [
          | inl q ↦ rw (p, q) (λ ua ub e. (==_iff a i).0 p ∙ sym ((==_iff b i).0 q))
          | inr q ↦ rw (p, q) (λ ua ub e. absurd (fresh b (==_ne b i q) ua ub (sym e)))
        ]
        | inr p ↦ elim (Bool-cases (b == i)) [
          | inl q ↦ rw (p, q) (λ ua ub e. absurd (fresh a (==_ne a i p) ub ua e))
          | inr q ↦ rw (p, q) (λ ua ub e. w.unique a b ua ub e)
        ]
      ])

pub JobsValid-set :
    {js : List Job} {live retiring live1 retiring1 : ℕ} (w : JobsValid js live retiring) (i : ℕ)
    (v : Job)
    → i < max_job_ids
    → ((k : ℕ)
        → k ≢ i
        → job_used v ≡ true
        → job_used (get_or js k zero_job) ≡ true
        → (get_or js k zero_job).job_id ≢ v.job_id)
    → live1 + bit (job_used (get_or js i zero_job)) ≡ live + bit (job_used v)
    → retiring1 + bit (job_retiring (get_or js i zero_job)) ≡ retiring + bit (job_retiring v)
    → JobsValid (set js i v) live1 retiring1
JobsValid-set {js = js} w i v h fresh el er = record {
  jobs_length = length-set js i v ∙ w.jobs_length;
  jobs_live = omega (arith, el, w.jobs_live, count-set job_used js i v zero_job inside);
  jobs_retiring = omega (arith, er, w.jobs_retiring, count-set job_retiring js i v zero_job inside);
  unique = put_unique w i v inside fresh;
}
  where
    inside : i < length js
    inside = omega (arith, w.jobs_length)

-- The counters are far from the end of a word.
pub JobsValid-small :
    {js : List Job} {live retiring : ℕ} (w : JobsValid js live retiring)
    → (live ≤ max_job_ids) × (retiring ≤ max_job_ids)
JobsValid-small {js = js} w = (
  omega (arith, w.jobs_live, w.jobs_length, count_le job_used js),
  omega (arith, w.jobs_retiring, w.jobs_length, count_le job_retiring js),
)

used-retiring : (j : Job) → job_used j ≡ false → job_retiring j ≡ false
used-retiring j e = rw e refl

-- The first free slot, if there is one, is in the table and idle.
pub free_slot :
    {js : List Job} {live retiring : ℕ} (w : JobsValid js live retiring)
    → (first_free job_used js == max_job_ids) ≡ false
    → (first_free job_used js < length js)
      × (job_used (get_or js (first_free job_used js) zero_job) ≡ false)
free_slot {js = js} w room = (inside, first_free-get_or job_used js zero_job inside)
  where
    inside : first_free job_used js < length js
    inside = omega (arith, ==_ne _ _ room, w.jobs_length, first_free_le job_used js)

-- A free slot may take a job with an ID that no other job has, or be zeroed.
pub JobsValid-fill :
    {js : List Job} {live retiring : ℕ} (w : JobsValid js live retiring)
    (id addrs port sgid flags : ℕ)
    → any_slot (has_job_id id) js ≡ false
    → (first_free job_used js == max_job_ids) ≡ false
    → JobsValid
        (set js (first_free job_used js) (new_job id addrs port sgid flags))
        (inc32 live)
        retiring
JobsValid-fill {js = js} {live = live} w id addrs port sgid flags dead room =
    JobsValid-set w (first_free job_used js) (new_job id addrs port sgid flags)
      (omega (arith, (free_slot w room).0, w.jobs_length))
      (λ k ne un u e. absurd (
        false≢true (
          sym (
            any_slot-false (has_job_id id) js k zero_job dead
              (inside_table job_used js k zero_job refl u))
          ∙ rw (u, e) ((==_iff id id).1 refl))))
      (rw ((free_slot w room).1, inc32-lt live (omega (arith, (JobsValid-small w).0)))
        (omega arith))
      (rw (used-retiring (get_or js (first_free job_used js) zero_job) (free_slot w room).1) refl)

pub JobsValid-zero :
    {js : List Job} {live retiring : ℕ} (w : JobsValid js live retiring)
    → (first_free job_used js == max_job_ids) ≡ false
    → JobsValid (set js (first_free job_used js) zero_job) live retiring
JobsValid-zero {js = js} w room =
    JobsValid-set w (first_free job_used js) zero_job
      (omega (arith, (free_slot w room).0, w.jobs_length)) (λ k ne un u e. false≢true un)
      (rw (free_slot w room).1 refl)
      (rw (used-retiring (get_or js (first_free job_used js) zero_job) (free_slot w room).1) refl)

-- A job that is not retiring may be cleared,
pub JobsValid-clear :
    {js : List Job} {live retiring : ℕ} (w : JobsValid js live retiring) (i : ℕ)
    → i < length js
    → job_used (get_or js i zero_job) ≡ true
    → (get_or js i zero_job).retiring ≡ false
    → JobsValid (set js i zero_job) (dec32 live) retiring
JobsValid-clear {js = js} {live = live} w i h u r =
    JobsValid-set w i zero_job (omega (arith, h, w.jobs_length)) (λ k ne un v e. false≢true un)
      (rw (u, dec32-pos live some_live (omega (arith, (JobsValid-small w).0)))
        (omega (arith, some_live)))
      (rw (u, r) refl)
  where
    some_live : 0 < live
    some_live = omega (arith, w.jobs_live, count_pos job_used js i zero_job h u)

-- or left retiring with what remains of its addresses.
pub JobsValid-retire :
    {js : List Job} {live retiring : ℕ} (w : JobsValid js live retiring) (i : ℕ)
    (rest : List AddrEntry)
    → i < length js
    → job_used (get_or js i zero_job) ≡ true
    → (get_or js i zero_job).retiring ≡ false
    → JobsValid
        (set js i (record (get_or js i zero_job) { addrs = rest; retiring = true }))
        live
        (inc32 retiring)
JobsValid-retire {js = js} {retiring = retiring} w i rest h u r =
    JobsValid-set w i (record (get_or js i zero_job) { addrs = rest; retiring = true })
      (omega (arith, h, w.jobs_length)) (λ k ne un v e. ne (w.unique k i v u e)) refl
      (rw (u, r, inc32-lt retiring (omega (arith, (JobsValid-small w).1))) (omega arith))
