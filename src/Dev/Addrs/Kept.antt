-- ===== src/Dev/Addrs/Kept.antt =====
-- The commands on address tables keep jobs and job keys valid.
use uet_ref_prov.Base.{
  if_both, ℕ, zero, suc, ◌<◌, ◌≡◌, refl, sym, ap, ◌∙◌, Bool, true, not, Option, none, some, List,
  ◌==◌, ltb, leb, get_or, set, length, arith, Bool-cases, ==_iff, inl, inr,
}
use uet_ref_prov.Dev.Slots.{slot_get-some, get_or-set}
use uet_ref_prov.Dev.State.{Status, Addr, AddrEntry, Job, Dev, zero_job, max_job_ids}
use uet_ref_prov.Dev.Jobs.{job_used, job_at, job_get}
use uet_ref_prov.Dev.Jobs.Invariant.{job_active, names_active, JobKeysValid}
use uet_ref_prov.Dev.Jobs.Kept.{JobsValid-set}
use uet_ref_prov.Dev.Addrs.{
  addr_size, entry_at, addr_slot_at, addr_slot, with_entry, addr_insert_at, addr_insert,
  addr_remove_at, addr_av_at, addr_av, addr_remove,
}

-- The same job, but for its address table.
names_active-addrs :
    (js : List Job) (i h : ℕ) (es : List AddrEntry)
    → i < length js
    → names_active js h ≡ true
    → names_active (set js i (record (get_or js i zero_job) { addrs = es })) h ≡ true
names_active-addrs js i zero es b e = e
names_active-addrs js i (suc h) es b e =
    rw (get_or-set js i h (record (get_or js i zero_job) { addrs = es }) zero_job b)
      (elim (Bool-cases (h == i)) [
        | inl q ↦ rw q (ap (λ k. job_active (get_or js k zero_job)) (sym ((==_iff h i).0 q)) ∙ e)
        | inr q ↦ rw q e
      ])

with_entry-JobKeysValid :
    (d : Dev) (i index : ℕ) (e : AddrEntry)
    → JobKeysValid d
    → i < length d.jobs
    → job_used (job_at d i) ≡ true
    → JobKeysValid (with_entry d i index e)
with_entry-JobKeysValid d i index e w h u = record {
  jobs_valid =
      JobsValid-set w.jobs_valid i _ (omega (arith, h, w.jobs_valid.jobs_length))
        (λ k ne v x q. ne (w.jobs_valid.unique k i x u q)) refl refl;
  keys_valid = record {
    jkeys_length = w.keys_valid.jkeys_length;
    jkeys_live = w.keys_valid.jkeys_live;
    named = λ k x. names_active-addrs d.jobs i _ _ h (w.keys_valid.named k x);
  };
}

-- An entry stands in a job in use.
IsInUse : Dev → Option (ℕ × ℕ) → Type 0
IsInUse d none = Unit
IsInUse d (some s) = (s.0 < length d.jobs) × (job_used (job_at d s.0) ≡ true)

addr_slot_at-IsInUse :
    (d : Dev) (job_handle index : ℕ) (o : Option ℕ)
    → JobKeysValid d
    → job_get d job_handle ≡ o
    → IsInUse d (addr_slot_at d index o)
unfolding IsInUse
addr_slot_at-IsInUse d job_handle index none w e = tt
addr_slot_at-IsInUse d job_handle index (some i) w e =
    let g = slot_get-some max_job_ids job_used d.jobs zero_job job_handle i e in
    elim (Bool-cases (leb (job_at d i).max_addr_entries index)) [
      | inl a ↦ rw a tt
      | inr a ↦ rw a (omega (arith, g.0, w.jobs_valid.jobs_length), g.2)
    ]

addr_slot-IsInUse :
    (d : Dev) (job_handle index : ℕ) → JobKeysValid d → IsInUse d (addr_slot d job_handle index)
unfolding addr_slot
addr_slot-IsInUse d job_handle index w =
    addr_slot_at-IsInUse d job_handle index (job_get d job_handle) w refl

addr_insert_at-JobKeysValid :
    (d : Dev) (buf_len : ℕ) (addr : Option Addr) (o : Option (ℕ × ℕ))
    → JobKeysValid d
    → IsInUse d o
    → JobKeysValid (addr_insert_at d buf_len addr o).0
unfolding IsInUse
addr_insert_at-JobKeysValid d buf_len addr none w u = w
addr_insert_at-JobKeysValid d buf_len none (some s) w u =
    if_both (λ (u : Dev × Status). JobKeysValid u.0) (ltb buf_len addr_size) _ _ w w
addr_insert_at-JobKeysValid d buf_len (some a) (some s) w u =
    if_both (λ (u : Dev × Status). JobKeysValid u.0) (ltb buf_len addr_size) _ _ w
      (with_entry-JobKeysValid d s.0 s.1 _ w u.0 u.1)

pub addr_insert-JobKeysValid :
    (d : Dev) (job_handle index buf_len : ℕ) (addr : Option Addr)
    → JobKeysValid d
    → JobKeysValid (addr_insert d job_handle index buf_len addr).0
unfolding addr_insert
addr_insert-JobKeysValid d job_handle index buf_len addr w =
    addr_insert_at-JobKeysValid d buf_len addr (addr_slot d job_handle index) w
      (addr_slot-IsInUse d job_handle index w)

addr_av_at-JobKeysValid :
    (inserted : Option ℕ) (d : Dev) (o : Option (ℕ × ℕ))
    → JobKeysValid d
    → IsInUse d o
    → JobKeysValid (addr_av_at inserted d o)
unfolding IsInUse
addr_av_at-JobKeysValid inserted d none w u = w
addr_av_at-JobKeysValid inserted d (some s) w u =
    if_both JobKeysValid (not (entry_at (job_at d s.0) s.1).valid) _ _ w
      (with_entry-JobKeysValid d s.0 s.1 _ w u.0 u.1)

pub addr_av-JobKeysValid :
    (inserted : Option ℕ) (d : Dev) (job_handle index : ℕ)
    → JobKeysValid d
    → JobKeysValid (addr_av inserted d job_handle index)
unfolding addr_av
addr_av-JobKeysValid inserted d job_handle index w =
    addr_av_at-JobKeysValid inserted d (addr_slot d job_handle index) w
      (addr_slot-IsInUse d job_handle index w)

addr_remove_at-JobKeysValid :
    (removes : ℕ → Bool) (d : Dev) (o : Option (ℕ × ℕ))
    → JobKeysValid d
    → IsInUse d o
    → JobKeysValid (addr_remove_at removes d o).0
unfolding IsInUse
addr_remove_at-JobKeysValid removes d none w u = w
addr_remove_at-JobKeysValid removes d (some s) w u =
    if_both (λ (u : Dev × Status). JobKeysValid u.0) (not (entry_at (job_at d s.0) s.1).valid) _ _ w
      (with_entry-JobKeysValid d s.0 s.1 _ w u.0 u.1)

pub addr_remove-JobKeysValid :
    (removes : ℕ → Bool) (d : Dev) (job_handle index : ℕ)
    → JobKeysValid d
    → JobKeysValid (addr_remove removes d job_handle index).0
unfolding addr_remove
addr_remove-JobKeysValid removes d job_handle index w =
    addr_remove_at-JobKeysValid removes d (addr_slot d job_handle index) w
      (addr_slot-IsInUse d job_handle index w)
