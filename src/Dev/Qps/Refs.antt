-- ===== src/Dev/Qps/Refs.antt =====
-- How the counts of references follow `uet_dev_qp_create` and `uet_dev_qp_destroy`.
use uet_ref_prov.Base.{
  ℕ, zero, suc, ◌+◌, ◌-◌, ◌<◌, ◌≤◌, ◌≡◌, refl, sym, ap, ◌∙◌, subst, true, false, List, ◌==◌, get_or,
  set, length, length-set, arith, Bool-cases, ==_iff, ==_ne, get_or-set_ne, inl, inr, some,
}
use mathlib.Core.Bool.{false≢true}
use uet_ref_prov.Dev.Slots.{
  bit, inc32-lt, dec32-pos, count, count-set, count_le, slot_get-some, slot_get-used, inside_table,
}
use uet_ref_prov.Dev.State.{Cq, Qp, Dev, zero_cq, zero_qp, max_cqs, max_qps}
use uet_ref_prov.Dev.Cqs.{cq_used, cq_get}
use uet_ref_prov.Dev.Qps.{bound_more, bound_less}
use uet_ref_prov.Dev.Qps.Invariant.{qp_open, binds, names_cq, QpsValid}
use uet_ref_prov.Dev.Qps.Bound.{
  touch, touched, get_or-touch, length-touch, touched-binds, names_cq-touch, bound-pos,
  QpsValid-move,
}

pub bound_small :
    {qps : List Qp} {cqs : List Cq} (w : QpsValid qps cqs) (c : ℕ)
    → (get_or cqs c zero_cq).bound_qps ≤ max_qps
bound_small {qps = qps} w c = omega (arith, w.bound c, w.qps_length, count_le (binds (c + 1)) qps)

pub bound-more :
    (cqs : List Cq) (s r c : ℕ)
    → s < length cqs
    → r < length cqs
    → (get_or cqs c zero_cq).bound_qps ≤ max_qps
    → (get_or (touch bound_more cqs s r) c zero_cq).bound_qps
      ≡ (get_or cqs c zero_cq).bound_qps + bit (touched s r c)
bound-more cqs s r c hs hr small =
    rw (get_or-touch bound_more cqs s r c hs hr) (elim (Bool-cases (touched s r c)) [
      | inl t ↦ rw t (inc32-lt (get_or cqs c zero_cq).bound_qps (omega (arith, small)))
      | inr t ↦ rw t (omega arith)
    ])

bound_less-pos :
    (c : Cq) → 0 < c.bound_qps → c.bound_qps ≤ max_qps → (bound_less c).bound_qps ≡ c.bound_qps - 1
bound_less-pos c h k = elim (Bool-cases (c.bound_qps == 0)) [
  | inl e ↦ absurd (omega (arith, (==_iff c.bound_qps 0).0 e))
  | inr e ↦ rw e (dec32-pos c.bound_qps h (omega (arith, k)))
]

pub bound-less :
    (cqs : List Cq) (s r c : ℕ)
    → s < length cqs
    → r < length cqs
    → (get_or cqs c zero_cq).bound_qps ≤ max_qps
    → (touched s r c ≡ true → 0 < (get_or cqs c zero_cq).bound_qps)
    → (get_or (touch bound_less cqs s r) c zero_cq).bound_qps + bit (touched s r c)
      ≡ (get_or cqs c zero_cq).bound_qps
bound-less cqs s r c hs hr small pos =
    rw (get_or-touch bound_less cqs s r c hs hr) (elim (Bool-cases (touched s r c)) [
      | inl t ↦ rw t (omega (arith, bound_less-pos (get_or cqs c zero_cq) (pos t) small, pos t))
      | inr t ↦ rw t (omega arith)
    ])

pub bound_less-used : (c : Cq) → (bound_less c).used ≡ c.used
bound_less-used c = ground arith

count-update :
    (f : Cq → Cq) (cqs : List Cq) (s : ℕ)
    → ((c : Cq) → (f c).used ≡ c.used)
    → s < length cqs
    → count cq_used (set cqs s (f (get_or cqs s zero_cq))) ≡ count cq_used cqs
count-update f cqs s keeps h = omega (
  arith,
  count-set cq_used cqs s (f (get_or cqs s zero_cq)) zero_cq h,
  ap bit (keeps (get_or cqs s zero_cq)),
)

-- The two writes keep the number of queues in use.
pub count-touch :
    (f : Cq → Cq) (cqs : List Cq) (s r : ℕ)
    → ((c : Cq) → (f c).used ≡ c.used)
    → s < length cqs
    → r < length cqs
    → count cq_used (touch f cqs s r) ≡ count cq_used cqs
count-touch f cqs s r keeps hs hr = elim (Bool-cases (r == s)) [
  | inl e ↦ rw e (count-update f cqs s keeps hs)
  | inr e ↦ rw e (
      omega (
        arith,
        count-set cq_used (set cqs s (f (get_or cqs s zero_cq))) r (f (get_or cqs r zero_cq))
            zero_cq (omega (arith, hr, length-set cqs s (f (get_or cqs s zero_cq)))),
        count-update f cqs s keeps hs,
        ap bit (
            keeps (get_or cqs r zero_cq)
            ∙ ap cq_used (
                sym (
                  get_or-set_ne cqs s r (f (get_or cqs s zero_cq)) zero_cq
                    (λ q. ==_ne r s e (sym q))))),
      ))
]

-- A handle that names a queue in use is found.
pub cq_get-named :
    (d : Dev) (h : ℕ)
    → length d.cqs ≡ max_cqs
    → names_cq d.cqs h ≡ true
    → (s : ℕ) × (cq_get d h ≡ some s)
cq_get-named d zero len n = absurd (false≢true n)
cq_get-named d (suc k) len n = (
  k,
  slot_get-used max_cqs cq_used d.cqs zero_cq k
      (omega (arith, len, inside_table cq_used d.cqs k zero_cq refl n)) n,
)

pub cq_get-slot :
    (d : Dev) (h s : ℕ)
    → length d.cqs ≡ max_cqs
    → cq_get d h ≡ some s
    → (s < length d.cqs) × (h ≡ s + 1) × (cq_used (get_or d.cqs s zero_cq) ≡ true)
cq_get-slot d h s len e =
    let g = slot_get-some max_cqs cq_used d.cqs zero_cq h s e in (omega (arith, g.0, len), g.1, g.2)

names_cq-slot :
    (cqs : List Cq) (h s : ℕ)
    → h ≡ s + 1
    → cq_used (get_or cqs s zero_cq) ≡ true
    → names_cq cqs h ≡ true
names_cq-slot cqs zero s e u = absurd (omega arith)
names_cq-slot cqs (suc h) s e u =
    subst (λ k. cq_used (get_or cqs k zero_cq) ≡ true) {x = s} {y = h} (omega arith) u

closed-binds : (h : ℕ) (q : Qp) → qp_open q ≡ false → binds h q ≡ false
closed-binds h q e = rw e refl

-- A queue pair of two queues in use takes the place of one that is not open,
pub QpsValid-bind :
    (d : Dev) (w : QpsValid d.qps d.cqs) (i s r : ℕ) (v : Qp)
    → i < length d.qps
    → qp_open (get_or d.qps i zero_qp) ≡ false
    → qp_open v ≡ true
    → cq_get d v.send_cq ≡ some s
    → cq_get d v.recv_cq ≡ some r
    → QpsValid (set d.qps i v) (touch bound_more d.cqs s r)
QpsValid-bind d w i s r v h old new es er =
    let gs = cq_get-slot d v.send_cq s w.cqs_length es in
    let gr = cq_get-slot d v.recv_cq r w.cqs_length er in
    QpsValid-move w i v h (length-touch bound_more d.cqs s r)
      (λ c. omega (
        arith,
        bound-more d.cqs s r c gs.0 gr.0 (bound_small w c),
        ap bit (closed-binds (c + 1) (get_or d.qps i zero_qp) old),
        ap bit (touched-binds s r c v new gs.1 gr.1),
      ))
      (λ k. names_cq-touch bound_more d.cqs s r k (λ c. refl) gs.0 gr.0)
      (λ o. (names_cq-slot d.cqs v.send_cq s gs.1 gs.2, names_cq-slot d.cqs v.recv_cq r gr.1 gr.2))

-- and one that is not open takes the place of one that is.
pub QpsValid-unbind :
    (d : Dev) (w : QpsValid d.qps d.cqs) (i s r : ℕ) (v : Qp)
    → qp_open (get_or d.qps i zero_qp) ≡ true
    → qp_open v ≡ false
    → cq_get d (get_or d.qps i zero_qp).send_cq ≡ some s
    → cq_get d (get_or d.qps i zero_qp).recv_cq ≡ some r
    → QpsValid (set d.qps i v) (touch bound_less d.cqs s r)
QpsValid-unbind d w i s r v old new es er =
    let q = get_or d.qps i zero_qp in
    let gs = cq_get-slot d q.send_cq s w.cqs_length es in
    let gr = cq_get-slot d q.recv_cq r w.cqs_length er in
    let t = λ (c : ℕ). touched-binds s r c q old gs.1 gr.1 in
    QpsValid-move w i v (inside_table qp_open d.qps i zero_qp refl old)
      (length-touch bound_less d.cqs s r)
      (λ c. omega (
        arith,
        bound-less d.cqs s r c gs.0 gr.0 (bound_small w c) (λ e. bound-pos w c i (t c ∙ e)),
        ap bit (t c),
        ap bit (closed-binds (c + 1) v new),
      ))
      (λ k. names_cq-touch bound_less d.cqs s r k bound_less-used gs.0 gr.0)
      (λ o. absurd (false≢true (sym new ∙ o)))
