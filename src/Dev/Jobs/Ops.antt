-- ===== src/Dev/Jobs/Ops.antt =====
-- Every operation of uet_vfio/uet_dev_objs.c on jobs and job keys keeps them valid.
use uet_ref_prov.Base.{
  ℕ, suc, ◌+◌, ◌%◌, ◌^◌, ◌<◌, ◌≤◌, ◌≡◌, refl, sym, subst, Bool, true, false, Option, none, some,
  List, ◌==◌, ltb, if◌then◌else◌, get_or, set, length, arith, Bool-cases, inl, inr, ==_ne,
}
use uet_ref_prov.Dev.Slots.{first_free, slot_get-some}
use uet_ref_prov.Dev.State.{
  Job, Dev, zero_job, zero_jkey, max_job_ids, max_job_keys, max_addr_entries, def_addr_entries,
}
use uet_ref_prov.Dev.Jobs.{
  job_used, jkey_used, job_at, job_get, job_id_live, addrs_release, release_keys, freed_job,
  job_free_at, job_free, jkey_get, jkey_create_at, jkey_destroy_at, job_alloc, jkey_create,
  jkey_destroy,
}
use uet_ref_prov.Dev.Jobs.Keys.{
  KeysValid-fill, KeysValid-release, KeysValid-create, KeysValid-destroy,
}
use uet_ref_prov.Dev.Jobs.Invariant.{names_active, KeysValid, JobKeysValid}
use uet_ref_prov.Dev.Jobs.Kept.{
  free_slot, JobsValid-fill, JobsValid-zero, JobsValid-clear, JobsValid-retire,
}

pub job_alloc-JobKeysValid :
    (mem : Bool) (d : Dev) (id max_addrs port sgid flags : ℕ)
    → JobKeysValid d
    → JobKeysValid (job_alloc mem d id max_addrs port sgid flags).0
unfolding job_alloc
job_alloc-JobKeysValid mem d id max_addrs port sgid flags w =
    elim (Bool-cases (ltb max_addr_entries max_addrs)) [
      | inl a ↦ rw a w
      | inr a ↦ elim (Bool-cases (job_id_live d id)) [
        | inl b ↦ rw (a, b) w
        | inr b ↦ elim (Bool-cases (first_free job_used d.jobs == max_job_ids)) [
          | inl c ↦ rw (a, b, c) w
          | inr c ↦ elim (Bool-cases mem) [
            | inl m ↦
                rw (a, b, c, m)
                  (record {
                    jobs_valid =
                        JobsValid-fill w.jobs_valid id
                          (if max_addrs == 0 then def_addr_entries else max_addrs) port sgid flags b
                          c;
                    keys_valid =
                        KeysValid-fill w.keys_valid (first_free job_used d.jobs) _
                          (free_slot w.jobs_valid c).0 (free_slot w.jobs_valid c).1;
                  })
            | inr m ↦
                rw (a, b, c, m)
                  (record {
                    jobs_valid = JobsValid-zero w.jobs_valid c;
                    keys_valid =
                        KeysValid-fill w.keys_valid (first_free job_used d.jobs) _
                          (free_slot w.jobs_valid c).0 (free_slot w.jobs_valid c).1;
                  })
          ]
        ]
      ]
    ]

-- The handle that names the slot of a valid table, back from its index.
job_get-some :
    (d : Dev) (handle i : ℕ)
    → JobKeysValid d
    → job_get d handle ≡ some i
    → (i < length d.jobs) × (handle ≡ i + 1) × (job_used (job_at d i) ≡ true)
job_get-some d handle i w e =
    let g = slot_get-some max_job_ids job_used d.jobs zero_job handle i e in
    (omega (arith, g.0, w.jobs_valid.jobs_length), g.1, g.2)

freed_job-JobKeysValid :
    (removes : ℕ → Bool) (d : Dev) (i : ℕ)
    → JobKeysValid d
    → i < length d.jobs
    → job_used (job_at d i) ≡ true
    → (job_at d i).retiring ≡ false
    → JobKeysValid (freed_job removes d (i + 1) i)
unfolding freed_job
freed_job-JobKeysValid removes d i w h u r =
    elim (Bool-cases (addrs_release removes (job_at d i).addrs).1) [
      | inl e ↦ rw e (record {
        jobs_valid = JobsValid-clear w.jobs_valid i h u r;
        keys_valid = released zero_job;
      })
      | inr e ↦
          rw e (record {
            jobs_valid = JobsValid-retire w.jobs_valid i _ h u r;
            keys_valid = released _;
          })
    ]
  where
    released :
        (v : Job)
        → KeysValid
            (set d.jobs i v)
            (release_keys ((i + 1) % 2 ^ 32) d.jkeys d.jkeys_live).0
            (release_keys ((i + 1) % 2 ^ 32) d.jkeys d.jkeys_live).1
    released v =
        subst
          (λ k.
            KeysValid (set d.jobs i v) (release_keys k d.jkeys d.jkeys_live).0
              (release_keys k d.jkeys d.jkeys_live).1)
          {x = i + 1} {y = (i + 1) % 2 ^ 32} (omega (arith, h, w.jobs_valid.jobs_length))
          (KeysValid-release w.keys_valid i v h)

job_free_at-JobKeysValid :
    (removes : ℕ → Bool) (d : Dev) (handle : ℕ) (o : Option ℕ)
    → JobKeysValid d
    → job_get d handle ≡ o
    → ((i : ℕ) → o ≡ some i → (job_at d i).retiring ≡ false)
    → JobKeysValid (job_free_at removes d handle o).0
job_free_at-JobKeysValid removes d handle none w e fresh = w
job_free_at-JobKeysValid removes d handle (some i) w e fresh =
    let g = job_get-some d handle i w e in
    subst (λ h. JobKeysValid (freed_job removes d h i)) (sym g.1)
      (freed_job-JobKeysValid removes d i w g.0 g.2 (fresh i refl))

pub job_free-JobKeysValid :
    (removes : ℕ → Bool) (d : Dev) (handle : ℕ)
    → JobKeysValid d
    → ((i : ℕ) → job_get d handle ≡ some i → (job_at d i).retiring ≡ false)
    → JobKeysValid (job_free removes d handle).0
unfolding job_free
job_free-JobKeysValid removes d handle w fresh =
    job_free_at-JobKeysValid removes d handle (job_get d handle) w refl fresh

active_named :
    (js : List Job) (handle i : ℕ)
    → (i < length js) × (handle ≡ i + 1) × (job_used (get_or js i zero_job) ≡ true)
    → (get_or js i zero_job).retiring ≡ false
    → length js ≤ max_job_ids
    → names_active js (handle % 2 ^ 32) ≡ true
active_named js handle i g r h =
    subst (λ k. names_active js k ≡ true) {x = suc i} {y = handle % 2 ^ 32}
      (omega (arith, g.0, g.1)) (rw (g.2, r) refl)

jkey_create_at-JobKeysValid :
    (d : Dev) (job_handle pdn flags : ℕ) (o : Option ℕ)
    → JobKeysValid d
    → job_get d job_handle ≡ o
    → ((i : ℕ) → o ≡ some i → (job_at d i).retiring ≡ false)
    → JobKeysValid (jkey_create_at d job_handle pdn flags o).0
jkey_create_at-JobKeysValid d job_handle pdn flags none w e fresh = w
jkey_create_at-JobKeysValid d job_handle pdn flags (some i) w e fresh =
    elim (Bool-cases (first_free jkey_used d.jkeys == max_job_keys)) [
      | inl c ↦ rw c w
      | inr c ↦ rw c (record {
        jobs_valid = w.jobs_valid;
        keys_valid = KeysValid-create w.keys_valid _ (==_ne _ _ c) refl (
            active_named d.jobs job_handle i (job_get-some d job_handle i w e) (fresh i refl)
              (omega (arith, w.jobs_valid.jobs_length)));
      })
    ]

pub jkey_create-JobKeysValid :
    (d : Dev) (job_handle pdn flags : ℕ)
    → JobKeysValid d
    → ((i : ℕ) → job_get d job_handle ≡ some i → (job_at d i).retiring ≡ false)
    → JobKeysValid (jkey_create d job_handle pdn flags).0
unfolding jkey_create
jkey_create-JobKeysValid d job_handle pdn flags w fresh =
    jkey_create_at-JobKeysValid d job_handle pdn flags (job_get d job_handle) w refl fresh

jkey_destroy_at-JobKeysValid :
    (d : Dev) (handle : ℕ) (o : Option ℕ)
    → JobKeysValid d
    → jkey_get d handle ≡ o
    → JobKeysValid (jkey_destroy_at d o).0
jkey_destroy_at-JobKeysValid d handle none w e = w
jkey_destroy_at-JobKeysValid d handle (some i) w e =
    let g = slot_get-some max_job_keys jkey_used d.jkeys zero_jkey handle i e in
    (record { jobs_valid = w.jobs_valid; keys_valid = KeysValid-destroy w.keys_valid i g.0 g.2 })

pub jkey_destroy-JobKeysValid :
    (d : Dev) (handle : ℕ) → JobKeysValid d → JobKeysValid (jkey_destroy d handle).0
unfolding jkey_destroy
jkey_destroy-JobKeysValid d handle w =
    jkey_destroy_at-JobKeysValid d handle (jkey_get d handle) w refl
