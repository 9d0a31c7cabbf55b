-- ===== src/Dev/Ring.antt =====
-- A completion queue between the device (uet_dev_cq_post of uet_vfio/uet_dev_data.c) and the guest
-- (uet_ref_cq_peek, uet_ref_cq_advance and uet_ref_poll_cq of uet_vfio/provider/uet_ref.c), with the
-- ring in memory that both reach. An entry is written whole or not at all. Left out: the calls for a
-- queue that is NULL, the guest's check that it has a buffer, the work request that the guest
-- releases, and the filling of work completions.
pub mod Laps
pub mod Fifo
mod Poll
mod Tests
use uet_ref_prov.Base.{
  zero, suc, List, [], ◌∷◌, ℕ, ◌+◌, ◌-◌, ◌%◌, ◌^◌, Bool, true, false, Option, none, some, ◌==◌, leb,
  if◌then◌else◌, not,
}
use uet_ref_prov.Dev.Slots.{inc32}

-- `struct uet_dev_cqe`
pub record Cqe : Type 0 where
  pub wr_id : ℕ
  pub imm : ℕ
  pub status : ℕ
  pub opcode : ℕ
  pub byte_len : ℕ
  pub flags : ℕ
  pub qpn : ℕ
  pub src_id : ℕ
  pub job_id : ℕ
  pub ring_cons : ℕ
  pub valid : ℕ

-- The entries of the ring, what the device keeps of the queue, and what the guest keeps.
pub record CqRing : Type 0 where
  pub mem : ℕ → Cqe
  pub live : Bool
  pub entries : ℕ
  pub prod : ℕ
  pub cons : ℕ
  pub phase : ℕ
  pub overruns : ℕ
  pub errors : ℕ
  pub posted : ℕ
  pub armed : Bool
  pub interrupts : ℕ
  pub guest_cons : ℕ
  pub guest_phase : ℕ

abbrev pub store : (ℕ → Cqe) → ℕ → Cqe → ℕ → Cqe
store mem slot c j = if j == slot then c else mem j

-- `x ^= 1` where the index that was moved on is at the start of the ring
abbrev pub toggle : ℕ → ℕ → ℕ → ℕ
toggle index entries phase = if index % entries == 0 then 1 - phase else phase

-- `struct uet_dev_work`, the fields that a completion repeats
pub record Work : Type 0 where
  pub wr_id : ℕ
  pub opcode : ℕ
  pub qpn : ℕ
  pub job_id : ℕ
  pub ring_cons : ℕ
  pub cqe_flags : ℕ

-- The entry that uet_dev_cq_post builds; it sets the valid flag at the write.
abbrev pub cqe_for : Work → (status byte_len imm src_id : ℕ) → Cqe
cqe_for work status byte_len imm src_id = record {
  wr_id = work.wr_id;
  imm = imm;
  status = status;
  opcode = work.opcode;
  byte_len = byte_len;
  flags = work.cqe_flags;
  qpn = work.qpn;
  src_id = src_id;
  job_id = work.job_id;
  ring_cons = work.ring_cons;
  valid = 0;
}

-- uet_dev_cq_post from the check of the ring on, with the entry that it builds; `wrote` is the answer of the write of guest memory.
unfoldable pub cq_post : Bool → CqRing → Cqe → CqRing
cq_post wrote q e =
    if not q.live
    then q
    else if leb q.entries ((q.prod + 2 ^ 32 - q.cons) % 2 ^ 32)
    then record q { overruns = inc32 q.overruns }
    else if not wrote
    then record q { errors = inc32 q.errors }
    else record q {
      mem = store q.mem (q.prod % q.entries) (record e { valid = q.phase });
      prod = inc32 q.prod;
      phase = toggle (inc32 q.prod) q.entries q.phase;
      posted = inc32 q.posted;
      armed = false;
      interrupts = if q.armed then q.interrupts + 1 else q.interrupts;
    }

-- uet_ref_cq_peek: the entry that the cursor is on, none if it is not fresh
unfoldable pub cq_peek : CqRing → Option Cqe
cq_peek q =
    let c = q.mem (q.guest_cons % q.entries) in if c.valid == q.guest_phase then some c else none

-- uet_ref_cq_advance
unfoldable pub cq_advance : CqRing → CqRing
cq_advance q = record q {
  guest_cons = inc32 q.guest_cons;
  guest_phase = toggle (inc32 q.guest_cons) q.entries q.guest_phase;
}

-- UET_DEV_DB_CQ, with the index that the guest rings it with, for a handle that is checked
unfoldable pub cq_doorbell : Bool → CqRing → CqRing
cq_doorbell arm q = record q { cons = q.guest_cons; armed = if arm then true else q.armed }

abbrev pub poll_next : Option Cqe → CqRing → List Cqe × CqRing → List Cqe × CqRing
poll_next none q rest = ([], q)
poll_next (some c) q rest = (c ∷ rest.0, rest.1)

-- The loop of uet_ref_poll_cq, with the entries from which it fills the work completions, at most `num`
unfoldable pub poll_loop : ℕ → CqRing → List Cqe × CqRing
poll_loop zero q = ([], q)
poll_loop (suc num) q = poll_next (cq_peek q) q (poll_loop num (cq_advance q))
