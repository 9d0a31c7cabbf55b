-- ===== src/Dev/Addrs.antt =====
-- uet_vfio/uet_dev_objs.c and uet_vfio/uet_dev_admin.c: the entries of a job's address table.
pub mod Kept
use uet_ref_prov.Base.{
  ℕ, ◌-◌, Bool, true, false, not, ◌&&◌, ◌||◌, Option, none, some, List, ◌==◌, ltb, leb,
  if◌then◌else◌, get_or, set,
}
use uet_ref_prov.Dev.State.{
  Status, st_ok, st_einval, st_enoent, st_etoosmall, Addr, AddrEntry, Job, Dev, zero_entry,
}
use uet_ref_prov.Dev.Jobs.{job_at, job_get}

-- `sizeof(struct uet_dev_admin_addr)`: 16, 4 and 4, 6 and 6, and 4 bytes
abbrev pub addr_size : ℕ
addr_size = 40

abbrev pub entry_at : Job → ℕ → AddrEntry
entry_at j index = get_or j.addrs index zero_entry

-- `uet_dev_addr_slot` for what `uet_dev_job_get` returned: the job and the index of the entry
abbrev pub addr_slot_at : Dev → ℕ → Option ℕ → Option (ℕ × ℕ)
addr_slot_at dev index none = none
addr_slot_at dev index (some i) =
    if leb (job_at dev i).max_addr_entries index then none else some (i, index)

unfoldable pub addr_slot : Dev → ℕ → ℕ → Option (ℕ × ℕ)
addr_slot dev job_handle index = addr_slot_at dev index (job_get dev job_handle)

abbrev pub with_entry : Dev → ℕ → ℕ → AddrEntry → Dev
with_entry dev i index e = record dev {
  jobs = set dev.jobs i (record (job_at dev i) { addrs = set (job_at dev i).addrs index e });
}

-- UET_DEV_ADMIN_ADDR_INSERT for what `uet_dev_addr_slot` returned; the address is what `dma_read`
-- brought in, none if it failed.
abbrev pub addr_insert_at : Dev → ℕ → Option Addr → Option (ℕ × ℕ) → Dev × Status
addr_insert_at dev buf_len addr none = (dev, st_enoent)
addr_insert_at dev buf_len none (some s) =
    if ltb buf_len addr_size then (dev, st_etoosmall) else (dev, st_einval)
addr_insert_at dev buf_len (some a) (some s) =
    if ltb buf_len addr_size then (dev, st_etoosmall) else (
      with_entry dev s.0 s.1
          (record (entry_at (job_at dev s.0) s.1) { addr = some a; valid = true; av = none }),
      st_ok,
    )

unfoldable pub addr_insert : Dev → ℕ → ℕ → ℕ → Option Addr → Dev × Status
addr_insert dev job_handle index buf_len addr =
    addr_insert_at dev buf_len addr (addr_slot dev job_handle index)

-- uet_dev_addr_av for a valid entry, as a send calls it: the entry keeps its vector, or takes the one that
-- `uet_av_insert` gives, none if that fails.
abbrev pub with_av : Option ℕ → AddrEntry → AddrEntry
with_av inserted e = elim e.av [ none ↦ record e { av = inserted } | some av ↦ e ]

abbrev pub addr_av_at : Option ℕ → Dev → Option (ℕ × ℕ) → Dev
addr_av_at inserted dev none = dev
addr_av_at inserted dev (some s) =
    if not (entry_at (job_at dev s.0) s.1).valid
    then dev
    else with_entry dev s.0 s.1 (with_av inserted (entry_at (job_at dev s.0) s.1))

unfoldable pub addr_av : Option ℕ → Dev → ℕ → ℕ → Dev
addr_av inserted dev job_handle index = addr_av_at inserted dev (addr_slot dev job_handle index)

-- The entry that a removal leaves: `uet_av_remove` is called for an entry that has a vector.
abbrev pub removed_entry : (ℕ → Bool) → AddrEntry → AddrEntry
removed_entry removes e = elim e.av [
  | none ↦ zero_entry
  | some av ↦ if not (removes av) then record e { valid = false; retiring = true } else zero_entry
]

-- UET_DEV_ADMIN_ADDR_REMOVE for what `uet_dev_addr_slot` returned
abbrev pub addr_remove_at : (ℕ → Bool) → Dev → Option (ℕ × ℕ) → Dev × Status
addr_remove_at removes dev none = (dev, st_enoent)
addr_remove_at removes dev (some s) =
    if not (entry_at (job_at dev s.0) s.1).valid
    then (dev, st_enoent)
    else (with_entry dev s.0 s.1 (removed_entry removes (entry_at (job_at dev s.0) s.1)), st_ok)

unfoldable pub addr_remove : (ℕ → Bool) → Dev → ℕ → ℕ → Dev × Status
addr_remove removes dev job_handle index =
    addr_remove_at removes dev (addr_slot dev job_handle index)
