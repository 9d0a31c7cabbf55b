-- ===== src/Dev/Jobs/Invariant.antt =====
-- What the device keeps true of its jobs and job keys (uet_vfio/uet_dev_objs.c).
use uet_ref_prov.Base.{ℕ, zero, suc, ◌≡◌, Bool, true, false, not, ◌&&◌, List, get_or, length}
use uet_ref_prov.Dev.Slots.{count}
use uet_ref_prov.Dev.State.{max_job_ids, max_job_keys, Job, Jkey, Dev, zero_job, zero_jkey}
use uet_ref_prov.Dev.Jobs.{job_used, jkey_used}

abbrev pub job_retiring : Job → Bool
job_retiring j = j.used && j.retiring

abbrev pub job_active : Job → Bool
job_active j = j.used && not j.retiring

-- The handle names a job that the guest has not freed.
abbrev pub names_active : List Job → ℕ → Bool
names_active js zero = false
names_active js (suc h) = job_active (get_or js h zero_job)

pub record JobsValid (js : List Job) (live retiring : ℕ) : Type 0 where
  pub jobs_length : length js ≡ max_job_ids
  pub jobs_live : live ≡ count job_used js
  pub jobs_retiring : retiring ≡ count job_retiring js
  pub unique :
      (i k : ℕ)
      → job_used (get_or js i zero_job) ≡ true
      → job_used (get_or js k zero_job) ≡ true
      → (get_or js i zero_job).job_id ≡ (get_or js k zero_job).job_id
      → i ≡ k

pub record KeysValid (js : List Job) (ks : List Jkey) (live : ℕ) : Type 0 where
  pub jkeys_length : length ks ≡ max_job_keys
  pub jkeys_live : live ≡ count jkey_used ks
  pub named :
      (k : ℕ)
      → jkey_used (get_or ks k zero_jkey) ≡ true
      → names_active js (get_or ks k zero_jkey).job_handle ≡ true

pub record JobKeysValid (d : Dev) : Type 0 where
  pub jobs_valid : JobsValid d.jobs d.jobs_live d.jobs_retiring
  pub keys_valid : KeysValid d.jobs d.jkeys d.jkeys_live
