-- ===== src/Dev/Qps/Invariant.antt =====
-- What the device keeps true of its queue pairs and completion queues (uet_vfio/uet_dev_objs.c).
use uet_ref_prov.Base.{
  ℕ, zero, suc, ◌+◌, ◌≡◌, Bool, true, false, not, ◌&&◌, ◌||◌, List, ◌==◌, get_or, length,
}
use uet_ref_prov.Dev.Slots.{count}
use uet_ref_prov.Dev.State.{max_qps, max_cqs, Cq, Qp, Dev, zero_cq, zero_qp}
use uet_ref_prov.Dev.Cqs.{cq_used}
use uet_ref_prov.Dev.Qps.{qp_used}

abbrev pub qp_open : Qp → Bool
qp_open q = q.used && not q.closing

abbrev pub qp_closing : Qp → Bool
qp_closing q = q.used && q.closing

-- The queue pair holds a reference to the completion queue with this handle.
abbrev pub binds : ℕ → Qp → Bool
binds h q = qp_open q && ((q.send_cq == h) || (q.recv_cq == h))

-- The handle names a completion queue in use.
abbrev pub names_cq : List Cq → ℕ → Bool
names_cq cqs zero = false
names_cq cqs (suc h) = cq_used (get_or cqs h zero_cq)

pub record QpsValid (qps : List Qp) (cqs : List Cq) : Type 0 where
  pub qps_length : length qps ≡ max_qps
  pub cqs_length : length cqs ≡ max_cqs
  pub bound : (c : ℕ) → (get_or cqs c zero_cq).bound_qps ≡ count (binds (c + 1)) qps
  pub refs :
      (i : ℕ)
      → qp_open (get_or qps i zero_qp) ≡ true
      → (names_cq cqs (get_or qps i zero_qp).send_cq ≡ true)
        × (names_cq cqs (get_or qps i zero_qp).recv_cq ≡ true)

pub record QueuesValid (d : Dev) : Type 0 where
  pub valid : QpsValid d.qps d.cqs
  pub qps_live : d.qps_live ≡ count qp_used d.qps
  pub qps_closing : d.qps_closing ≡ count qp_closing d.qps
  pub cqs_live : d.cqs_live ≡ count cq_used d.cqs
