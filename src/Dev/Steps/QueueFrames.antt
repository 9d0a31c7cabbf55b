-- ===== src/Dev/Steps/QueueFrames.antt =====
-- The operations on queues leave jobs, keys and regions alone.
use uet_ref_prov.Base.{
  if_both, ℕ, ◌≡◌, refl, subst, Bool, true, false, not, ◌&&◌, ◌==◌, ltb, Option, none, some,
  Bool-cases, inl, inr, arith,
}
use uet_ref_prov.Dev.State.{Status, max_qps, max_job_keys, Qp, Dev}
use uet_ref_prov.Dev.Cqs.{CqArgs, cq_get, cq_create, cq_destroy_at, cq_destroy}
use uet_ref_prov.Dev.Qps.{
  QpArgs, Bringup, Answers, qp_get, qp_bring_up, qp_create_at, qp_create, qp_free, qp_retire,
  modify_done, qp_modify_at, qp_modify, qp_at,
}
use uet_ref_prov.Dev.Slots.{any_slot, first_free}
use uet_ref_prov.Dev.Qps.{qp_used, is_absolute, no_jkey, closing_qpn, ep_args}
use uet_ref_prov.Dev.Steps.Frames.{job_tables}

pub cq_create-jobs : (d : Dev) (args : CqArgs) → job_tables (cq_create d args).0 ≡ job_tables d
unfolding cq_create job_tables
cq_create-jobs d args = ground arith

cq_destroy_at-jobs : (d : Dev) (o : Option ℕ) → job_tables (cq_destroy_at d o).0 ≡ job_tables d
unfolding job_tables
cq_destroy_at-jobs d none = refl
cq_destroy_at-jobs d (some i) = ground arith

pub cq_destroy-jobs : (d : Dev) (handle : ℕ) → job_tables (cq_destroy d handle).0 ≡ job_tables d
unfolding cq_destroy
cq_destroy-jobs d handle = cq_destroy_at-jobs d (cq_get d handle)

qp_bring_up-jobs :
    (lib : Bringup) (d : Dev) (args : QpArgs) (i s r : ℕ) (o : Option ℕ)
    → job_tables (qp_bring_up lib d args i s r o).0 ≡ job_tables d
unfolding job_tables
qp_bring_up-jobs lib d args i s r none = refl
qp_bring_up-jobs lib d args i s r (some ep) = ground arith

pub qp_retire-jobs :
    (flushed : ℕ) (closes : Bool) (d : Dev) (i : ℕ)
    → job_tables (qp_retire flushed closes d i) ≡ job_tables d
unfolding qp_retire qp_free job_tables
qp_retire-jobs flushed closes d i = ground arith

modify_done-jobs :
    (d : Dev) (i next : ℕ) (q : Qp) (flushed : ℕ) (refused : Bool)
    → job_tables (modify_done d i next q flushed refused).0 ≡ job_tables d
unfolding job_tables
modify_done-jobs d i next q flushed true = refl
modify_done-jobs d i next q flushed false = refl

qp_modify_at-jobs :
    (lib : Answers) (d : Dev) (next mtu : ℕ) (o : Option ℕ)
    → job_tables (qp_modify_at lib d next mtu o).0 ≡ job_tables d
qp_modify_at-jobs lib d next mtu none = refl
qp_modify_at-jobs lib d next mtu (some i) =
    if_both (λ (u : Dev × Status). job_tables u.0 ≡ job_tables d) (qp_at d i).closing _ _ refl
      (modify_done-jobs d i next _ _ _)

pub qp_modify-jobs :
    (lib : Answers) (d : Dev) (handle next mtu : ℕ)
    → job_tables (qp_modify lib d handle next mtu).0 ≡ job_tables d
unfolding qp_modify
qp_modify-jobs lib d handle next mtu = qp_modify_at-jobs lib d next mtu (qp_get d handle)

-- The jobs are as before if the operation returns.
JobsIfReturned : Dev → Option (Dev × (Status × ℕ)) → Type 0
JobsIfReturned d none = Unit
JobsIfReturned d (some u) = job_tables u.0 ≡ job_tables d

qp_create_at-jobs :
    (lib : Bringup) (d : Dev) (args : QpArgs) (scq rcq : Option ℕ)
    → JobsIfReturned d (qp_create_at lib d args scq rcq)
unfolding JobsIfReturned
qp_create_at-jobs lib d args none rcq = refl
qp_create_at-jobs lib d args (some s) none = refl
qp_create_at-jobs lib d args (some s) (some r) =
    elim (Bool-cases (not (is_absolute args) && no_jkey d args.jkey_handle)) [
      | inl a ↦ rw a refl
      | inr a ↦ elim (Bool-cases (any_slot (closing_qpn args.qpn) d.qps)) [
        | inl b ↦ rw (a, b) refl
        | inr b ↦ elim (Bool-cases (first_free qp_used d.qps == max_qps)) [
          | inl c ↦ rw (a, b, c) refl
          | inr c ↦ elim (Bool-cases (ltb max_job_keys args.jkey_handle)) [
            | inl f ↦ rw (a, b, c, f) tt
            | inr f ↦
                rw (a, b, c, f)
                  (qp_bring_up-jobs lib d args (first_free qp_used d.qps) s r
                    (lib.endpoint (ep_args d args)))
          ]
        ]
      ]
    ]

pub qp_create-jobs :
    (lib : Bringup) (d : Dev) (args : QpArgs) (u : Dev × (Status × ℕ))
    → qp_create lib d args ≡ some u
    → job_tables u.0 ≡ job_tables d
unfolding qp_create JobsIfReturned
qp_create-jobs lib d args u e =
    subst (JobsIfReturned d) e
      (qp_create_at-jobs lib d args (cq_get d args.send_cq) (cq_get d args.recv_cq))
