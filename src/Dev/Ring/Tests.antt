-- ===== src/Dev/Ring/Tests.antt =====
-- The theorems on the ring of a completion queue at a concrete ring.
use uet_ref_prov.Base.{ℕ, ◌⊎◌, ◌^◌, ◌≡◌, ◌<◌, refl, sym, true, false, none, some, arith}
use uet_ref_prov.Dev.Slots.{inc32}
use uet_ref_prov.Dev.Ring.{cqe_for, Cqe, CqRing, store, cq_post, cq_peek, cq_advance, cq_doorbell}
use uet_ref_prov.Dev.Ring.{poll_loop}
use uet_ref_prov.Dev.Ring.Poll.{Polled, poll_loop-Polled}
use uet_ref_prov.Dev.Ring.Laps.{lap, lap_first}
use uet_ref_prov.Dev.Ring.Fifo.{
  IsRing, cq_peek-IsRing, cq_post-IsRing, cq_advance-IsRing, cq_doorbell-IsRing,
}

abbrev no_cqe : Cqe
no_cqe = record {
  wr_id = 0;
  imm = 0;
  status = 0;
  opcode = 0;
  byte_len = 0;
  flags = 0;
  qpn = 0;
  src_id = 0;
  job_id = 0;
  ring_cons = 0;
  valid = 0;
}

-- The completion of a work request that sends 64 bytes.
abbrev done : ℕ → Cqe
done n =
    cqe_for (record { wr_id = n; opcode = 1; qpn = 1; job_id = 7; ring_cons = 0; cqe_flags = 0 }) 0
      64 0 0

-- A ring of one entry, without a completion.
abbrev one_entry : CqRing
one_entry = record {
  mem = λ n. no_cqe;
  live = true;
  entries = 1;
  prod = 0;
  cons = 0;
  phase = 1;
  overruns = 0;
  errors = 0;
  posted = 0;
  armed = true;
  interrupts = 0;
  guest_cons = 0;
  guest_phase = 1;
}

abbrev no_log : ℕ → Cqe
no_log n = no_cqe

one_entry-IsRing : IsRing one_entry (2 ^ 32) 0 0 0 no_log
one_entry-IsRing = record {
  live = refl;
  whole = refl;
  some_entries = omega arith;
  few_entries = omega arith;
  prod = refl;
  cons = refl;
  guest_cons = refl;
  told = omega arith;
  taken = omega arith;
  room = omega arith;
  phase = sym (lap_first 1 0 (omega arith));
  guest_phase = sym (lap_first 1 0 (omega arith));
  stored = λ n h k. absurd (omega (arith, h));
  fresh = λ n h k. refl;
}

-- One completion is posted, and the guest takes it: then the next one is in the second lap.
abbrev one_posted : CqRing
one_posted = cq_post true one_entry (done 5)

abbrev one_log : ℕ → Cqe
one_log = store no_log 0 (done 5)

one_posted-IsRing : IsRing one_posted (2 ^ 32) 1 0 0 one_log
one_posted-IsRing =
    cq_post-IsRing one_entry (2 ^ 32) 0 0 0 no_log (done 5) one_entry-IsRing (omega arith)

abbrev one_taken : CqRing
one_taken = cq_doorbell false (cq_advance one_posted)

one_taken-IsRing : IsRing one_taken (2 ^ 32) 1 1 1 one_log
one_taken-IsRing =
    cq_doorbell-IsRing false (cq_advance one_posted) (2 ^ 32) 1 1 0 one_log
      (cq_advance-IsRing one_posted (2 ^ 32) 1 0 0 one_log one_posted-IsRing (omega arith))

cq_post-IsRing_example :
    IsRing (cq_post true one_taken (done 6)) (2 ^ 32) 2 1 1 (store one_log 1 (done 6))
unfolding cq_doorbell cq_advance cq_post
cq_post-IsRing_example =
    cq_post-IsRing one_taken (2 ^ 32) 1 1 1 one_log (done 6) one_taken-IsRing (omega arith)

cq_peek-IsRing_example :
    ((0 < 1) × (cq_peek one_posted ≡ some (record (one_log 0) { valid = lap 1 0 })))
    ⊎ ((◌≡◌ {A = ℕ} 0 1) × (cq_peek one_posted ≡ none))
unfolding cq_post
cq_peek-IsRing_example = cq_peek-IsRing one_posted (2 ^ 32) 1 0 0 one_log one_posted-IsRing

-- A completion with an interrupt, read by the guest.
first_read : cq_peek one_posted ≡ some (record (done 5) { valid = 1 })
unfolding cq_post cq_peek inc32
first_read = refl

-- After it, the guest finds nothing.
then_nothing : cq_peek one_taken ≡ none
unfolding cq_post cq_peek cq_advance cq_doorbell inc32
then_nothing = refl

-- A poll for three completions finds the one that there is.
poll_loop-Polled_example :
    Polled (2 ^ 32) 1 0 0 3 one_posted.entries one_log (poll_loop 3 one_posted)
poll_loop-Polled_example = poll_loop-Polled 3 one_posted (2 ^ 32) 1 0 0 one_log one_posted-IsRing
