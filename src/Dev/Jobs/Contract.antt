-- ===== src/Dev/Jobs/Contract.antt =====
-- What the operations of uet_vfio/uet_dev_objs.c on jobs and job keys promise to a guest.
use uet_ref_prov.Base.{
  ℕ, ◌+◌, ◌-◌, ◌%◌, ◌^◌, ◌<◌, ◌≤◌, ◌≡◌, ◌≢◌, refl, sym, ap, ◌∙◌, subst, Bool, true, false, ◌&&◌,
  Option, none, some, ◌==◌, ltb, if◌then◌else◌, get_or, get_or-set_self, set, length-set, arith,
  Bool-cases, ==_iff, ==_ne, inl, inr, ◌⊎◌,
}
use uet_ref_prov.Dev.Slots.{
  inc32, first_free, first_free_le, slot_get-some, slot_get-at, slot_get-same, get_or-set,
}
use uet_ref_prov.Dev.State.{
  Status, st_ok, st_einval, st_enospc, st_eexist, st_enoent, Job, Jkey, Dev, zero_job, zero_jkey,
  max_job_ids, max_job_keys, max_addr_entries, def_addr_entries,
}
use uet_ref_prov.Dev.Jobs.{
  job_used, jkey_used, job_at, job_get, job_id_live, new_job, names_job, drop_key, release_keys,
  freed_job, job_free_at, job_free, job_alloc, jkey_value, job_for, job_by_jkey, jkey_put,
  jkey_create_at, jkey_create, jkey_at,
}
use uet_ref_prov.Dev.Jobs.Invariant.{JobKeysValid}
use uet_ref_prov.Dev.Jobs.Kept.{free_slot}
use uet_ref_prov.Dev.Jobs.Keys.{get_or-release_keys}
use uet_ref_prov.Dev.Jobs.Lookup.{jkey_find-slot}

-- The outcome of `uet_dev_job_alloc`: a fresh handle for a job with this ID in an idle slot, or an
-- error and no handle, and the same handles name jobs.
pub Allocated : Dev → ℕ → Dev × (Status × ℕ) → Type 0
Allocated d id u =
    ((i : ℕ) × (u.1.0 ≡ st_ok)
      × (u.1.1 ≡ i + 1)
      × (job_get d (i + 1) ≡ none)
      × (job_get u.0 (i + 1) ≡ some i)
      × ((job_at u.0 i).job_id ≡ id)
      × (job_id_live d id ≡ false))
    ⊎ ((u.1.0 ≢ st_ok)
        × (u.1.1 ≡ 0)
        × (u.0.jobs_live ≡ d.jobs_live)
        × ((h : ℕ) → job_get u.0 h ≡ job_get d h))

status_code : Status → ℕ
status_code st_ok = 0
status_code s = 1

pub einval≢ok : st_einval ≢ st_ok
unfolding status_code
einval≢ok e = absurd (omega (arith, ap status_code e))

pub enospc≢ok : st_enospc ≢ st_ok
unfolding status_code
enospc≢ok e = absurd (omega (arith, ap status_code e))

eexist≢ok : st_eexist ≢ st_ok
unfolding status_code
eexist≢ok e = absurd (omega (arith, ap status_code e))

placed-Allocated :
    (d : Dev) (id addrs port sgid flags : ℕ)
    → JobKeysValid d
    → job_id_live d id ≡ false
    → (first_free job_used d.jobs == max_job_ids) ≡ false
    → Allocated d id (
      (record d {
        jobs = set d.jobs (first_free job_used d.jobs) (new_job id addrs port sgid flags);
        jobs_live = inc32 d.jobs_live;
      }),
      (st_ok, first_free job_used d.jobs + 1),
    )
unfolding Allocated
placed-Allocated d id addrs port sgid flags w dead room =
    let i = first_free job_used d.jobs in
    let f = free_slot w.jobs_valid room in
    let inside : i < max_job_ids = omega (arith, f.0, w.jobs_valid.jobs_length) in
    let put = get_or-set_self d.jobs i (new_job id addrs port sgid flags) zero_job f.0 in
    inl (
      i,
      refl,
      refl,
      slot_get-at max_job_ids job_used d.jobs zero_job i inside ∙ rw f.1 refl,
      slot_get-at max_job_ids job_used (set d.jobs i (new_job id addrs port sgid flags)) zero_job i
            inside
          ∙ rw put refl,
      ap (λ (j : Job). j.job_id) put,
      dead,
    )

refused-Allocated : (d : Dev) (id : ℕ) (s : Status) → s ≢ st_ok → Allocated d id (d, (s, 0))
unfolding Allocated
refused-Allocated d id s ne = inr (ne, refl, refl, λ h. refl)

-- Without memory the idle slot is zeroed.
zeroed-Allocated :
    (d : Dev) (id : ℕ)
    → JobKeysValid d
    → (first_free job_used d.jobs == max_job_ids) ≡ false
    → Allocated d id
        (record d { jobs = set d.jobs (first_free job_used d.jobs) zero_job }, (st_enospc, 0))
unfolding Allocated
zeroed-Allocated d id w room =
    let i = first_free job_used d.jobs in
    let f = free_slot w.jobs_valid room in
    inr (
      enospc≢ok,
      refl,
      refl,
      λ h. slot_get-same max_job_ids job_used d.jobs (set d.jobs i zero_job) zero_job h (
          ap job_used (get_or-set d.jobs i (h - 1) zero_job zero_job f.0)
          ∙ elim (Bool-cases (h - 1 == i)) [
            | inl q ↦ rw q (
                sym (
                  subst (λ k. job_used (get_or d.jobs k zero_job) ≡ false)
                    (sym ((==_iff (h - 1) i).0 q)) f.1))
            | inr q ↦ rw q refl
          ]),
    )

-- `uet_dev_job_alloc` on valid tables either answers OK with a handle that named nothing before and now
-- names a job with the JobID asked for, which no other job had; or it answers an error with no handle,
-- and the live count and what every handle names stay.
pub job_alloc-Allocated :
    (mem : Bool) (d : Dev) (id max_addrs port sgid flags : ℕ)
    → JobKeysValid d
    → Allocated d id (job_alloc mem d id max_addrs port sgid flags)
unfolding job_alloc
job_alloc-Allocated mem d id max_addrs port sgid flags w =
    elim (Bool-cases (ltb max_addr_entries max_addrs)) [
      | inl a ↦ rw a (refused-Allocated d id st_einval einval≢ok)
      | inr a ↦ elim (Bool-cases (job_id_live d id)) [
        | inl b ↦ rw (a, b) (refused-Allocated d id st_eexist eexist≢ok)
        | inr b ↦ elim (Bool-cases (first_free job_used d.jobs == max_job_ids)) [
          | inl c ↦ rw (a, b, c) (refused-Allocated d id st_enospc enospc≢ok)
          | inr c ↦ elim (Bool-cases mem) [
            | inl m ↦
                rw (a, b, c, m)
                  (placed-Allocated d id (if max_addrs == 0 then def_addr_entries else max_addrs)
                    port sgid flags w b c)
            | inr m ↦ rw (a, b, c, m) (zeroed-Allocated d id w c)
          ]
        ]
      ]
    ]

enoent≢ok : st_enoent ≢ st_ok
unfolding status_code
enoent≢ok e = absurd (omega (arith, ap status_code e))

-- The lookup of the key that was put into the free slot `i`.
put-job_by_jkey :
    (d : Dev) (i job_handle pdn flags p : ℕ)
    → JobKeysValid d
    → i < max_job_keys
    → job_handle ≤ max_job_ids
    → job_by_jkey (jkey_put d i job_handle pdn flags) (jkey_value (i + 1)) p
      ≡ (if pdn == p then job_get d job_handle else none)
unfolding job_by_jkey
put-job_by_jkey d i job_handle pdn flags p w h small =
    ap (job_for (jkey_put d i job_handle pdn flags)) (
      jkey_find-slot p 0 i i (set d.jkeys i new) (omega arith)
        (omega (arith, h, length-set d.jkeys i new, w.keys_valid.jkeys_length))
        (omega (arith, length-set d.jkeys i new, w.keys_valid.jkeys_length))
      ∙ ap (λ (k : Jkey). if k.used && (k.pdn == p) then some k.job_handle else none)
          (get_or-set_self d.jkeys i new zero_jkey (omega (arith, h, w.keys_valid.jkeys_length))))
    ∙ elim (Bool-cases (pdn == p)) [
      | inl e ↦
          rw e (ap (job_get d) {x = job_handle % 2 ^ 32} {y = job_handle} (omega (arith, small)))
      | inr e ↦ rw e refl
    ]
  where
    new : Jkey
    new = record { used = true; job_handle = job_handle % 2 ^ 32; pdn = pdn; flags = flags }

jkey_create_at-job_by_jkey :
    (d : Dev) (job_handle pdn flags p : ℕ) (o : Option ℕ)
    → JobKeysValid d
    → job_get d job_handle ≡ o
    → (jkey_create_at d job_handle pdn flags o).1.0 ≡ st_ok
    → job_by_jkey
        (jkey_create_at d job_handle pdn flags o).0
        (jkey_create_at d job_handle pdn flags o).1.1.1
        p
      ≡ (if pdn == p then job_get d job_handle else none)
jkey_create_at-job_by_jkey d job_handle pdn flags p none w e = λ ok. absurd (enoent≢ok ok)
jkey_create_at-job_by_jkey d job_handle pdn flags p (some j) w e =
    let g = slot_get-some max_job_ids job_used d.jobs zero_job job_handle j e in
    elim (Bool-cases (first_free jkey_used d.jkeys == max_job_keys)) [
      | inl c ↦ rw c (λ ok. absurd (enospc≢ok ok))
      | inr c ↦ rw c (λ ok.
          put-job_by_jkey d (first_free jkey_used d.jkeys) job_handle pdn flags p w
            (omega (arith, ==_ne _ _ c, w.keys_valid.jkeys_length, first_free_le jkey_used d.jkeys))
            (omega (arith, g.0, g.1)))
    ]

-- The key value that `uet_dev_jkey_create` returns leads `uet_dev_job_by_jkey` to the job that the
-- key was created for under the key's protection domain, and to none under another.
pub jkey_create-job_by_jkey :
    (d : Dev) (job_handle pdn flags p : ℕ)
    → JobKeysValid d
    → (jkey_create d job_handle pdn flags).1.0 ≡ st_ok
    → job_by_jkey
        (jkey_create d job_handle pdn flags).0
        (jkey_create d job_handle pdn flags).1.1.1
        p
      ≡ (if pdn == p then job_get d job_handle else none)
unfolding jkey_create
jkey_create-job_by_jkey d job_handle pdn flags p w =
    jkey_create_at-job_by_jkey d job_handle pdn flags p (job_get d job_handle) w refl

freed_job-keys :
    (removes : ℕ → Bool) (d : Dev) (handle i : ℕ)
    → (freed_job removes d handle i).jkeys ≡ (release_keys (handle % 2 ^ 32) d.jkeys d.jkeys_live).0
unfolding freed_job
freed_job-keys removes d handle i = ground arith

dropped : (h : ℕ) (k : Jkey) → names_job h (if names_job h k then drop_key k else k) ≡ false
dropped h k = elim (Bool-cases (names_job h k)) [ inl e ↦ rw e refl | inr e ↦ rw e e ]

job_free_at-keys :
    (removes : ℕ → Bool) (d : Dev) (handle k : ℕ) (o : Option ℕ)
    → job_get d handle ≡ o
    → (job_free_at removes d handle o).1 ≡ st_ok
    → names_job handle (jkey_at (job_free_at removes d handle o).0 k) ≡ false
job_free_at-keys removes d handle k none e ok = absurd (enoent≢ok ok)
job_free_at-keys removes d handle k (some i) e ok =
    let g = slot_get-some max_job_ids job_used d.jobs zero_job handle i e in
    ap (λ ks. names_job handle (get_or ks k zero_jkey)) (freed_job-keys removes d handle i)
    ∙ ap (names_job handle) (get_or-release_keys (handle % 2 ^ 32) d.jkeys d.jkeys_live k)
    ∙ subst
        (λ h.
          names_job handle
            (if names_job h (jkey_at d k) then drop_key (jkey_at d k) else jkey_at d k)
          ≡ false)
        {x = handle} {y = handle % 2 ^ 32} (omega (arith, g.0, g.1)) (dropped handle (jkey_at d k))

-- When `uet_dev_job_free` succeeds, no key in use names the handle of the job, also when the library
-- still holds some of its addresses.
pub job_free-keys :
    (removes : ℕ → Bool) (d : Dev) (handle k : ℕ)
    → (job_free removes d handle).1 ≡ st_ok
    → names_job handle (jkey_at (job_free removes d handle).0 k) ≡ false
unfolding job_free
job_free-keys removes d handle k ok = job_free_at-keys removes d handle k (job_get d handle) refl ok
