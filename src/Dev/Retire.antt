-- ===== src/Dev/Retire.antt =====
-- The sweep of uet_vfio/uet_dev_data.c that finishes the jobs and addresses whose release the
-- library refused.
pub mod Kept
use uet_ref_prov.Base.{
  ℕ, Bool, true, false, not, ◌&&◌, ◌||◌, Option, none, some, List, [], ◌∷◌, if◌then◌else◌,
}
use uet_ref_prov.Dev.Slots.{dec32}
use uet_ref_prov.Dev.State.{AddrEntry, Job, Dev, zero_entry, zero_job}
use uet_ref_prov.Dev.Jobs.{addrs_release}

-- What a job is after its round of the first loop, and whether it is gone.
abbrev pub retire_job : (ℕ → Bool) → Job → Job × Bool
retire_job removes j =
    if not (j.used && j.retiring)
    then (j, false)
    else let addrs = addrs_release removes j.addrs in
      if addrs.1 then (zero_job, true) else (record j { addrs = addrs.0 }, false)

-- The first loop of `uet_dev_retire_poll`, with `jobs_retiring` and `jobs_live`.
abbrev pub retire_jobs : (ℕ → Bool) → List Job → ℕ → ℕ → List Job × (ℕ × ℕ)
retire_jobs removes [] retiring live = ([], (retiring, live))
retire_jobs removes (j ∷ js) retiring live =
    let this = retire_job removes j in
    let rest =
      retire_jobs removes js (if this.1 then dec32 retiring else retiring)
        (if this.1 then dec32 live else live) in
    (this.0 ∷ rest.0, rest.1)

abbrev pub retire_entry : (ℕ → Bool) → AddrEntry → AddrEntry
retire_entry removes e = elim e.av [
  | none ↦ e
  | some av ↦ if e.retiring && removes av then zero_entry else e
]

abbrev pub retire_entries : (ℕ → Bool) → List AddrEntry → List AddrEntry
retire_entries removes [] = []
retire_entries removes (e ∷ es) = retire_entry removes e ∷ retire_entries removes es

-- What a job is after its round of the second loop.
abbrev pub retire_table : (ℕ → Bool) → Job → Job
retire_table removes j =
    if not j.used || j.retiring then j else record j { addrs = retire_entries removes j.addrs }

-- The second loop.
abbrev pub retire_addrs : (ℕ → Bool) → List Job → List Job
retire_addrs removes [] = []
retire_addrs removes (j ∷ js) = retire_table removes j ∷ retire_addrs removes js

-- uet_dev_retire_poll
unfoldable pub retire_poll : (ℕ → Bool) → Dev → Dev
retire_poll removes dev =
    let swept = retire_jobs removes dev.jobs dev.jobs_retiring dev.jobs_live in
    (record dev {
      jobs = retire_addrs removes swept.0;
      jobs_retiring = swept.1.0;
      jobs_live = swept.1.1;
    })
