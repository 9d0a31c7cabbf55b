-- ===== src/Dev/Jobs.antt =====
-- uet_vfio/uet_dev_objs.c and uet_dev_admin.c: jobs, their address tables and the job keys. A
-- pointer to a slot is its index. What the library answers to a call is an argument:
-- `removes av` is whether `uet_av_remove` succeeds on `av`.
pub mod Invariant
pub mod Kept
pub mod Keys
pub mod Ops
pub mod Contract
pub mod Lookup
use uet_ref_prov.Base.{
  ℕ, zero, suc, ◌+◌, ◌-◌, ◌%◌, ◌^◌, Bool, true, false, not, ◌&&◌, ◌||◌, Option, none, some, List,
  [], ◌∷◌, ◌==◌, ltb, leb, if◌then◌else◌, get_or, set, length, replicate, bit_or,
}
use uet_ref_prov.Dev.Slots.{inc32, dec32, first_free, any_slot, slot_get}
use uet_ref_prov.Dev.State.{
  Status, st_ok, st_einval, st_enospc, st_eexist, st_enoent, max_job_ids, max_job_keys,
  max_addr_entries, def_addr_entries, Addr, AddrEntry, Job, Jkey, Dev, zero_entry, zero_job,
  zero_jkey,
}

abbrev pub job_used : Job → Bool
job_used j = j.used

abbrev pub jkey_used : Jkey → Bool
jkey_used k = k.used

abbrev pub job_at : Dev → ℕ → Job
job_at dev i = get_or dev.jobs i zero_job

abbrev pub jkey_at : Dev → ℕ → Jkey
jkey_at dev i = get_or dev.jkeys i zero_jkey

-- uet_dev_job_get
abbrev pub job_get : Dev → ℕ → Option ℕ
job_get dev handle = slot_get max_job_ids job_used dev.jobs zero_job handle

abbrev pub has_job_id : ℕ → Job → Bool
has_job_id id j = j.used && (j.job_id == id)

-- uet_dev_job_id_live
abbrev pub job_id_live : Dev → ℕ → Bool
job_id_live dev id = any_slot (has_job_id id) dev.jobs

-- The job that `uet_dev_job_alloc` writes into its slot.
abbrev pub new_job : ℕ → ℕ → ℕ → ℕ → ℕ → Job
new_job id addrs port sgid flags = record {
  used = true;
  job_id = id;
  max_addr_entries = addrs;
  flags = flags;
  port_num = port;
  sgid_index = sgid;
  addrs = replicate addrs zero_entry;
  retiring = false;
}

-- uet_dev_job_alloc: the device, `*status` and the handle. `mem` is whether `calloc` answers; if it
-- does not, the slot has been zeroed.
unfoldable pub job_alloc : Bool → Dev → ℕ → ℕ → ℕ → ℕ → ℕ → Dev × (Status × ℕ)
job_alloc mem dev id max_addrs port sgid flags =
    if ltb max_addr_entries max_addrs
    then (dev, (st_einval, 0))
    else if job_id_live dev id
    then (dev, (st_eexist, 0))
    else let i = first_free job_used dev.jobs in
      if i == max_job_ids
      then (dev, (st_enospc, 0))
      else let addrs = if max_addrs == 0 then def_addr_entries else max_addrs in
        if mem
        then (
          (record dev {
            jobs = set dev.jobs i (new_job id addrs port sgid flags);
            jobs_live = inc32 dev.jobs_live;
          }),
          (st_ok, i + 1),
        )
        else (record dev { jobs = set dev.jobs i zero_job }, (st_enospc, 0))

-- A round of the loop of `uet_dev_job_addrs_release`, and whether the slot is clear after it.
abbrev pub release_entry : (ℕ → Bool) → AddrEntry → AddrEntry × Bool
release_entry removes e = elim e.av [
  | none ↦ (e, true)
  | some av ↦
      if removes av
      then (record e { av = none; valid = false; retiring = false }, true)
      else (record e { valid = false; retiring = true }, false)
]

-- uet_dev_job_addrs_release, on the address table of the job
abbrev pub addrs_release : (ℕ → Bool) → List AddrEntry → List AddrEntry × Bool
addrs_release removes [] = ([], true)
addrs_release removes (e ∷ es) =
    let this = release_entry removes e in
    let rest = addrs_release removes es in (this.0 ∷ rest.0, this.1 && rest.1)

abbrev pub names_job : ℕ → Jkey → Bool
names_job handle k = k.used && (k.job_handle == handle)

abbrev pub drop_key : Jkey → Jkey
drop_key k = record k { used = false }

-- The loop of `uet_dev_job_free` over the job keys, with the count of live ones.
abbrev pub release_keys : ℕ → List Jkey → ℕ → List Jkey × ℕ
release_keys handle [] live = ([], live)
release_keys handle (k ∷ ks) live =
    let hit = names_job handle k in
    let rest = release_keys handle ks (if hit then dec32 live else live) in
    ((if hit then drop_key k else k) ∷ rest.0, rest.1)

-- The rest of `uet_dev_job_free` for the job in slot `i`.
unfoldable pub freed_job : (ℕ → Bool) → Dev → ℕ → ℕ → Dev
freed_job removes dev handle i =
    let keys = release_keys (handle % 2 ^ 32) dev.jkeys dev.jkeys_live in
    let addrs = addrs_release removes (job_at dev i).addrs in
    let d = record dev { jkeys = keys.0; jkeys_live = keys.1 } in
    if addrs.1
    then (record d { jobs = set d.jobs i zero_job; jobs_live = dec32 d.jobs_live })
    else (record d {
      jobs = set d.jobs i (record (job_at dev i) { addrs = addrs.0; retiring = true });
      jobs_retiring = inc32 d.jobs_retiring;
    })

-- `uet_dev_job_free` for what `uet_dev_job_get` returned
abbrev pub job_free_at : (ℕ → Bool) → Dev → ℕ → Option ℕ → Dev × Status
job_free_at removes dev handle none = (dev, st_enoent)
job_free_at removes dev handle (some i) = (freed_job removes dev handle i, st_ok)

unfoldable pub job_free : (ℕ → Bool) → Dev → ℕ → Dev × Status
job_free removes dev handle = job_free_at removes dev handle (job_get dev handle)

-- uet_dev_jkey_value
unfoldable pub jkey_value : ℕ → ℕ
jkey_value handle = bit_or 0x4a000000 handle

abbrev pub answers_key : ℕ → ℕ → ℕ → Jkey → Bool
answers_key jkey pdn i k = k.used && (jkey_value (i + 1) == jkey) && (k.pdn == pdn)

-- The loop of `uet_dev_job_by_jkey` from slot `i` on: the job handle of the first match.
abbrev pub jkey_find : ℕ → ℕ → ℕ → List Jkey → Option ℕ
jkey_find jkey pdn i [] = none
jkey_find jkey pdn i (k ∷ ks) =
    let rest = jkey_find jkey pdn (i + 1) ks in
    if answers_key jkey pdn i k then some k.job_handle else rest

-- What `uet_dev_job_by_jkey` returns for the key that the loop found.
abbrev pub job_for : Dev → Option ℕ → Option ℕ
job_for dev none = none
job_for dev (some h) = job_get dev h

unfoldable pub job_by_jkey : Dev → ℕ → ℕ → Option ℕ
job_by_jkey dev jkey pdn = job_for dev (jkey_find jkey pdn 0 dev.jkeys)

-- The rest of `uet_dev_jkey_create` once the free slot `i` is found.
abbrev pub jkey_put : Dev → ℕ → ℕ → ℕ → ℕ → Dev
jkey_put dev i job_handle pdn flags = record dev {
  jkeys =
      set dev.jkeys i
        (record { used = true; job_handle = job_handle % 2 ^ 32; pdn = pdn; flags = flags });
  jkeys_live = inc32 dev.jkeys_live;
}

-- `uet_dev_jkey_create` for what `uet_dev_job_get` returned: the device, the status,
-- `*out_handle` and `*out_jkey`, 0 if not written
abbrev pub jkey_create_at : Dev → ℕ → ℕ → ℕ → Option ℕ → Dev × (Status × (ℕ × ℕ))
jkey_create_at dev job_handle pdn flags none = (dev, (st_enoent, (0, 0)))
jkey_create_at dev job_handle pdn flags (some j) =
    let i = first_free jkey_used dev.jkeys in
    if i == max_job_keys
    then (dev, (st_enospc, (0, 0)))
    else (jkey_put dev i job_handle pdn flags, (st_ok, (i + 1, jkey_value (i + 1))))

unfoldable pub jkey_create : Dev → ℕ → ℕ → ℕ → Dev × (Status × (ℕ × ℕ))
jkey_create dev job_handle pdn flags =
    jkey_create_at dev job_handle pdn flags (job_get dev job_handle)

-- `uet_dev_jkey_destroy` for the slot that its guards leave
abbrev pub jkey_destroy_at : Dev → Option ℕ → Dev × Status
jkey_destroy_at dev none = (dev, st_enoent)
jkey_destroy_at dev (some i) = (
  (record dev {
    jkeys = set dev.jkeys i (drop_key (jkey_at dev i));
    jkeys_live = dec32 dev.jkeys_live;
  }),
  st_ok,
)

abbrev pub jkey_get : Dev → ℕ → Option ℕ
jkey_get dev handle = slot_get max_job_keys jkey_used dev.jkeys zero_jkey handle

unfoldable pub jkey_destroy : Dev → ℕ → Dev × Status
jkey_destroy dev handle = jkey_destroy_at dev (jkey_get dev handle)
