-- ===== src/Dev/Steps/JobFrames.antt =====
-- The operations on jobs and job keys leave queues and regions alone.
use uet_ref_prov.Base.{if_both, not, ℕ, ◌≡◌, refl, Bool, Option, none, some, arith}
use uet_ref_prov.Dev.State.{Status, Addr, Dev}
use uet_ref_prov.Dev.Addrs.{
  entry_at, addr_slot, addr_insert_at, addr_insert, addr_remove_at, addr_av_at, addr_av,
  addr_remove,
}
use uet_ref_prov.Dev.Jobs.{
  job_at, job_get, job_alloc, freed_job, job_free_at, job_free, jkey_create_at, jkey_create,
  jkey_get, jkey_destroy_at, jkey_destroy,
}
use uet_ref_prov.Dev.Retire.{retire_poll}
use uet_ref_prov.Dev.Steps.Frames.{queues}

pub job_alloc-queues :
    (mem : Bool) (d : Dev) (id max_addrs port sgid flags : ℕ)
    → queues (job_alloc mem d id max_addrs port sgid flags).0 ≡ queues d
unfolding job_alloc queues
job_alloc-queues mem d id max_addrs port sgid flags = ground arith

freed_job-queues :
    (removes : ℕ → Bool) (d : Dev) (handle i : ℕ) → queues (freed_job removes d handle i) ≡ queues d
unfolding freed_job queues
freed_job-queues removes d handle i = ground arith

job_free_at-queues :
    (removes : ℕ → Bool) (d : Dev) (handle : ℕ) (o : Option ℕ)
    → queues (job_free_at removes d handle o).0 ≡ queues d
job_free_at-queues removes d handle none = refl
job_free_at-queues removes d handle (some i) = freed_job-queues removes d handle i

pub job_free-queues :
    (removes : ℕ → Bool) (d : Dev) (handle : ℕ) → queues (job_free removes d handle).0 ≡ queues d
unfolding job_free
job_free-queues removes d handle = job_free_at-queues removes d handle (job_get d handle)

jkey_create_at-queues :
    (d : Dev) (job_handle pdn flags : ℕ) (o : Option ℕ)
    → queues (jkey_create_at d job_handle pdn flags o).0 ≡ queues d
unfolding queues
jkey_create_at-queues d job_handle pdn flags none = refl
jkey_create_at-queues d job_handle pdn flags (some i) = ground arith

pub jkey_create-queues :
    (d : Dev) (job_handle pdn flags : ℕ) → queues (jkey_create d job_handle pdn flags).0 ≡ queues d
unfolding jkey_create
jkey_create-queues d job_handle pdn flags =
    jkey_create_at-queues d job_handle pdn flags (job_get d job_handle)

jkey_destroy_at-queues : (d : Dev) (o : Option ℕ) → queues (jkey_destroy_at d o).0 ≡ queues d
unfolding queues
jkey_destroy_at-queues d none = refl
jkey_destroy_at-queues d (some i) = refl

pub jkey_destroy-queues : (d : Dev) (handle : ℕ) → queues (jkey_destroy d handle).0 ≡ queues d
unfolding jkey_destroy
jkey_destroy-queues d handle = jkey_destroy_at-queues d (jkey_get d handle)

pub retire_poll-queues : (removes : ℕ → Bool) (d : Dev) → queues (retire_poll removes d) ≡ queues d
unfolding retire_poll queues
retire_poll-queues removes d = refl

addr_insert_at-queues :
    (d : Dev) (buf_len : ℕ) (addr : Option Addr) (o : Option (ℕ × ℕ))
    → queues (addr_insert_at d buf_len addr o).0 ≡ queues d
unfolding queues
addr_insert_at-queues d buf_len addr none = refl
addr_insert_at-queues d buf_len none (some s) = ground arith
addr_insert_at-queues d buf_len (some a) (some s) = ground arith

pub addr_insert-queues :
    (d : Dev) (job_handle index buf_len : ℕ) (addr : Option Addr)
    → queues (addr_insert d job_handle index buf_len addr).0 ≡ queues d
unfolding addr_insert
addr_insert-queues d job_handle index buf_len addr =
    addr_insert_at-queues d buf_len addr (addr_slot d job_handle index)

addr_av_at-queues :
    (inserted : Option ℕ) (d : Dev) (o : Option (ℕ × ℕ))
    → queues (addr_av_at inserted d o) ≡ queues d
unfolding queues
addr_av_at-queues inserted d none = refl
addr_av_at-queues inserted d (some s) =
    if_both (λ (u : Dev). queues u ≡ queues d) (not (entry_at (job_at d s.0) s.1).valid) _ _ refl
      refl

pub addr_av-queues :
    (inserted : Option ℕ) (d : Dev) (job_handle index : ℕ)
    → queues (addr_av inserted d job_handle index) ≡ queues d
unfolding addr_av
addr_av-queues inserted d job_handle index =
    addr_av_at-queues inserted d (addr_slot d job_handle index)

addr_remove_at-queues :
    (removes : ℕ → Bool) (d : Dev) (o : Option (ℕ × ℕ))
    → queues (addr_remove_at removes d o).0 ≡ queues d
unfolding queues
addr_remove_at-queues removes d none = refl
addr_remove_at-queues removes d (some s) =
    if_both (λ (u : Dev × Status). queues u.0 ≡ queues d) (not (entry_at (job_at d s.0) s.1).valid)
      _ _ refl refl

pub addr_remove-queues :
    (removes : ℕ → Bool) (d : Dev) (job_handle index : ℕ)
    → queues (addr_remove removes d job_handle index).0 ≡ queues d
unfolding addr_remove
addr_remove-queues removes d job_handle index =
    addr_remove_at-queues removes d (addr_slot d job_handle index)
