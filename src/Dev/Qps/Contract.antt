-- ===== src/Dev/Qps/Contract.antt =====
-- What the operations of uet_vfio/uet_dev_objs.c on queues promise to a guest.
use uet_ref_prov.Base.{
  ℕ, ◌<◌, ◌≤◌, ◌≡◌, refl, sym, ap, ◌∙◌, subst, false, not, ◌&&◌, Option, none, some, ◌==◌, ltb,
  ltb-false, if◌then◌else◌, get_or-set_self, set, arith, Bool-cases, ==_iff, ==_ne, inl, inr, ◌⊎◌,
}
use uet_ref_prov.Dev.Slots.{any_slot, first_free, count, slot_get, slot_get-some, slot_get-at}
use uet_ref_prov.Dev.State.{
  Status, st_ok, st_einval, Cq, Dev, zero_cq, max_cqs, max_qps, max_job_keys,
}
use uet_ref_prov.Dev.Cqs.{cq_used, cq_at, cq_get, cq_destroy_at, cq_destroy}
use uet_ref_prov.Dev.Qps.{
  QpArgs, Bringup, qp_used, qp_create_at, qp_create, is_absolute, no_jkey, closing_qpn,
}
use uet_ref_prov.Dev.Qps.Invariant.{binds, QueuesValid}

-- Destroyed, with no queue pair referring to it; or refused, with some, and nothing changed.
pub Destroyed : Dev → ℕ → Dev × Status → Type 0
Destroyed d handle u =
    ((u.1 ≡ st_ok) × (count (binds handle) d.qps ≡ 0) × (cq_get u.0 handle ≡ none))
    ⊎ ((u.1 ≡ st_einval) × (0 < count (binds handle) d.qps) × (u.0 ≡ d))

cq_destroy_at-Destroyed :
    (d : Dev) (handle c : ℕ)
    → QueuesValid d
    → cq_get d handle ≡ some c
    → Destroyed d handle (cq_destroy_at d (some c))
unfolding Destroyed
cq_destroy_at-Destroyed d handle c w e =
    let g = slot_get-some max_cqs cq_used d.cqs zero_cq handle c e in
    let bound = w.valid.bound c ∙ ap (λ h. count (binds h) d.qps) (sym g.1) in
    elim (Bool-cases ((cq_at d c).bound_qps == 0)) [
      | inl b ↦ rw b (
          inl (
            refl,
            sym bound ∙ (==_iff (cq_at d c).bound_qps 0).0 b,
            ap (slot_get max_cqs cq_used (set d.cqs c zero_cq) zero_cq) g.1
                ∙ slot_get-at max_cqs cq_used (set d.cqs c zero_cq) zero_cq c g.0
                ∙ ap (λ (q : Cq). if q.used then some c else none)
                    (get_or-set_self d.cqs c zero_cq zero_cq
                      (omega (arith, g.0, w.valid.cqs_length))),
          ))
      | inr b ↦ rw b (inr (refl, omega (arith, bound, ==_ne (cq_at d c).bound_qps 0 b), refl))
    ]

-- While the tables of queue pairs and completion queues are valid (`QueuesValid`: each completion queue
-- counts the open queue pairs that refer to it, and these refer to queues in use), `uet_dev_cq_destroy`
-- of a completion queue in use answers OK when no open queue pair refers to it, and its handle then names
-- nothing; with such a queue pair it answers EINVAL and changes nothing.
pub cq_destroy-Destroyed :
    (d : Dev) (handle c : ℕ)
    → QueuesValid d
    → cq_get d handle ≡ some c
    → Destroyed d handle (cq_destroy d handle)
unfolding cq_destroy
cq_destroy-Destroyed d handle c w e =
    subst (λ o. Destroyed d handle (cq_destroy_at d o)) (sym e)
      (cq_destroy_at-Destroyed d handle c w e)

-- The call comes back.
abbrev pub Returns : Option (Dev × (Status × ℕ)) → Type 0
Returns o = (u : Dev × (Status × ℕ)) × (o ≡ some u)

in_range : (d : Dev) (h : ℕ) → no_jkey d h ≡ false → ltb max_job_keys h ≡ false
in_range d h e = ground arith

qp_create_at-Returns :
    (lib : Bringup) (d : Dev) (args : QpArgs) (scq rcq : Option ℕ)
    → (args.jkey_handle ≤ max_job_keys) ⊎ (is_absolute args ≡ false)
    → Returns (qp_create_at lib d args scq rcq)
qp_create_at-Returns lib d args none rcq ok = (_, refl)
qp_create_at-Returns lib d args (some s) none ok = (_, refl)
qp_create_at-Returns lib d args (some s) (some r) ok =
    elim (Bool-cases (not (is_absolute args) && no_jkey d args.jkey_handle)) [
      | inl a ↦ rw a (_, refl)
      | inr a ↦ elim (Bool-cases (any_slot (closing_qpn args.qpn) d.qps)) [
        | inl b ↦ rw (a, b) (_, refl)
        | inr b ↦ elim (Bool-cases (first_free qp_used d.qps == max_qps)) [
          | inl c ↦ rw (a, b, c) (_, refl)
          | inr c ↦ rw (a, b, c, in_table a) (_, refl)
        ]
      ]
    ]
  where
    in_table :
        (not (is_absolute args) && no_jkey d args.jkey_handle) ≡ false
        → ltb max_job_keys args.jkey_handle ≡ false
    in_table a = elim ok [
      | inl h ↦ ltb-false max_job_keys args.jkey_handle h
      | inr rel ↦
          in_range d args.jkey_handle (ap (λ b. not b && no_jkey d args.jkey_handle) (sym rel) ∙ a)
    ]

-- `uet_dev_qp_create` returns, reading no job key beyond the table, if the guest names a key in range
-- or addresses its peers relatively.
pub qp_create-Returns :
    (lib : Bringup) (d : Dev) (args : QpArgs)
    → (args.jkey_handle ≤ max_job_keys) ⊎ (is_absolute args ≡ false)
    → Returns (qp_create lib d args)
unfolding qp_create
qp_create-Returns lib d args ok =
    qp_create_at-Returns lib d args (cq_get d args.send_cq) (cq_get d args.recv_cq) ok
