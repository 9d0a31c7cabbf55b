-- ===== src/Dev/Qps/Bound.antt =====
-- What a write of a queue pair or of a completion queue does to the references between them.
use uet_ref_prov.Base.{
  ℕ, zero, suc, ◌+◌, ◌<◌, ◌≡◌, refl, sym, ap, ◌∙◌, subst, Bool, true, false, ◌||◌, List, [], ◌∷◌,
  ◌==◌, if◌then◌else◌, get_or, set, length, length-set, arith, ◌⊎◌, Bool-cases, ==_iff, inl, inr,
}
use mathlib.Core.Bool.{false≢true}
use uet_ref_prov.Dev.Slots.{bit, count, count-set, count_pos, get_or-set, inside_table}
use uet_ref_prov.Dev.State.{Cq, Qp, zero_cq, zero_qp, max_cqs}
use uet_ref_prov.Dev.Cqs.{cq_used}
use uet_ref_prov.Dev.Qps.Invariant.{qp_open, binds, names_cq, QpsValid}

-- A completion queue that no queue pair can name is bound to none.
pub count_zero {ℓ} :
    {A : Type ℓ} (p : A → Bool) (xs : List A) (d : A)
    → ((i : ℕ) → p (get_or xs i d) ≡ false)
    → count p xs ≡ 0
count_zero p [] d h = refl
count_zero p (x ∷ xs) d h = omega (arith, ap bit (h 0), count_zero p xs d (λ i. h (suc i)))

binds-cases :
    (h : ℕ) (q : Qp) → binds h q ≡ true → (qp_open q ≡ true) × ((q.send_cq ≡ h) ⊎ (q.recv_cq ≡ h))
binds-cases h q e = ground arith

pub binds-send : (h : ℕ) (q : Qp) → qp_open q ≡ true → q.send_cq ≡ h → binds h q ≡ true
binds-send h q o e = ground arith

pub binds-recv : (h : ℕ) (q : Qp) → qp_open q ≡ true → q.recv_cq ≡ h → binds h q ≡ true
binds-recv h q o e = ground arith

names_cq-used :
    (cqs : List Cq) (h c : ℕ)
    → names_cq cqs h ≡ true
    → h ≡ c + 1
    → cq_used (get_or cqs c zero_cq) ≡ true
names_cq-used cqs zero c n e = absurd (false≢true n)
names_cq-used cqs (suc h) c n e =
    subst (λ k. cq_used (get_or cqs k zero_cq) ≡ true) {x = h} {y = c} (omega arith) n

binds-names :
    {qps : List Qp} {cqs : List Cq} (w : QpsValid qps cqs) (c i : ℕ)
    → binds (c + 1) (get_or qps i zero_qp) ≡ true
    → cq_used (get_or cqs c zero_cq) ≡ true
binds-names {qps = qps} {cqs = cqs} w c i e =
    let b = binds-cases (c + 1) (get_or qps i zero_qp) e in
    let r = w.refs i b.0 in
    elim b.1 [ inl s ↦ names_cq-used cqs _ c r.0 s | inr s ↦ names_cq-used cqs _ c r.1 s ]

-- A queue pair in use that binds a completion queue is counted there.
pub bound-pos :
    {qps : List Qp} {cqs : List Cq} (w : QpsValid qps cqs) (c i : ℕ)
    → binds (c + 1) (get_or qps i zero_qp) ≡ true
    → 0 < (get_or cqs c zero_cq).bound_qps
bound-pos {qps = qps} w c i e = omega (
  arith,
  w.bound c,
  count_pos (binds (c + 1)) qps i zero_qp (inside_table (binds (c + 1)) qps i zero_qp refl e) e,
)

-- So a queue that is bound to none, or stays in use, may be written.
stays_used :
    {qps : List Qp} {cqs : List Cq} (w : QpsValid qps cqs) (c i : ℕ) (v : Cq)
    → (v.used ≡ true) ⊎ ((get_or cqs c zero_cq).bound_qps ≡ 0)
    → binds (c + 1) (get_or qps i zero_qp) ≡ true
    → v.used ≡ true
stays_used w c i v (inl u) e = u
stays_used w c i v (inr z) e = absurd (omega (arith, z, bound-pos w c i e))

pub unused-bound :
    {qps : List Qp} {cqs : List Cq} (w : QpsValid qps cqs) (c : ℕ)
    → cq_used (get_or cqs c zero_cq) ≡ false
    → (get_or cqs c zero_cq).bound_qps ≡ 0
unused-bound {qps = qps} w c e =
    w.bound c
    ∙ count_zero (binds (c + 1)) qps zero_qp (λ i.
      elim (Bool-cases (binds (c + 1) (get_or qps i zero_qp))) [
        | inl b ↦ absurd (false≢true (sym e ∙ binds-names w c i b))
        | inr b ↦ b
      ])

-- A write to slot `c` keeps the names of the others, and of `c` if it is in use after.
pub names_cq-set :
    (cqs : List Cq) (c h : ℕ) (v : Cq)
    → c < length cqs
    → (h ≡ c + 1 → v.used ≡ true)
    → names_cq cqs h ≡ true
    → names_cq (set cqs c v) h ≡ true
names_cq-set cqs c zero v b keeps e = e
names_cq-set cqs c (suc h) v b keeps e =
    rw (get_or-set cqs c h v zero_cq b) (elim (Bool-cases (h == c)) [
      | inl q ↦ rw q (keeps (ap suc ((==_iff h c).0 q) ∙ omega arith))
      | inr q ↦ rw q e
    ])

-- A completion queue whose count of references is right may be written.
pub QpsValid-cq :
    {qps : List Qp} {cqs : List Cq} (w : QpsValid qps cqs) (c : ℕ) (v : Cq)
    → c < max_cqs
    → v.bound_qps ≡ (get_or cqs c zero_cq).bound_qps
    → (v.used ≡ true) ⊎ ((get_or cqs c zero_cq).bound_qps ≡ 0)
    → QpsValid qps (set cqs c v)
QpsValid-cq {qps = qps} {cqs = cqs} w c v b same keeps = record {
  qps_length = w.qps_length;
  cqs_length = length-set cqs c v ∙ w.cqs_length;
  bound = λ k. rw (get_or-set cqs c k v zero_cq inside) (elim (Bool-cases (k == c)) [
    | inl q ↦ rw q (
        same
        ∙ subst (λ j. (get_or cqs j zero_cq).bound_qps ≡ count (binds (k + 1)) qps)
            ((==_iff k c).0 q) (w.bound k))
    | inr q ↦ rw q (w.bound k)
  ]);
  refs = λ i o. (
    names_cq-set cqs c _ v inside
        (λ e. stays_used w c i v keeps (binds-send (c + 1) (get_or qps i zero_qp) o e))
        (w.refs i o).0,
    names_cq-set cqs c _ v inside
        (λ e. stays_used w c i v keeps (binds-recv (c + 1) (get_or qps i zero_qp) o e))
        (w.refs i o).1,
  );
}
  where
    inside : c < length cqs
    inside = omega (arith, b, w.cqs_length)

binds-same :
    (h : ℕ) (v q : Qp)
    → qp_open v ≡ qp_open q
    → (qp_open v ≡ true → (v.send_cq ≡ q.send_cq) × (v.recv_cq ≡ q.recv_cq))
    → binds h v ≡ binds h q
binds-same h v q same e = elim (Bool-cases (qp_open v)) [
  | inl o ↦ let p = e o in rw (o, sym same ∙ o, p.0, p.1) refl
  | inr o ↦ rw (o, sym same ∙ o) refl
]

-- A queue pair may be written when the counts of references follow, and it refers to queues in use.
pub QpsValid-move :
    {qps : List Qp} {cqs cqs1 : List Cq} (w : QpsValid qps cqs) (i : ℕ) (v : Qp)
    → i < length qps
    → length cqs1 ≡ length cqs
    → ((c : ℕ)
        → (get_or cqs1 c zero_cq).bound_qps + bit (binds (c + 1) (get_or qps i zero_qp))
          ≡ (get_or cqs c zero_cq).bound_qps + bit (binds (c + 1) v))
    → ((h : ℕ) → names_cq cqs h ≡ true → names_cq cqs1 h ≡ true)
    → (qp_open v ≡ true → (names_cq cqs v.send_cq ≡ true) × (names_cq cqs v.recv_cq ≡ true))
    → QpsValid (set qps i v) cqs1
QpsValid-move {qps = qps} w i v h len follows names named = record {
  qps_length = length-set qps i v ∙ w.qps_length;
  cqs_length = len ∙ w.cqs_length;
  bound = λ c. omega (arith, follows c, w.bound c, count-set (binds (c + 1)) qps i v zero_qp h);
  refs = λ k. rw (get_or-set qps i k v zero_qp h) (elim (Bool-cases (k == i)) [
    | inl q ↦ rw q (λ o. let r = named o in (names _ r.0, names _ r.1))
    | inr q ↦ rw q (λ o. let r = w.refs k o in (names _ r.0, names _ r.1))
  ]);
}

-- The same references as before need no change of the completion queues.
pub QpsValid-same :
    {qps : List Qp} {cqs : List Cq} (w : QpsValid qps cqs) (i : ℕ) (v : Qp)
    → i < length qps
    → qp_open v ≡ qp_open (get_or qps i zero_qp)
    → (qp_open v ≡ true
        → (v.send_cq ≡ (get_or qps i zero_qp).send_cq)
          × (v.recv_cq ≡ (get_or qps i zero_qp).recv_cq))
    → QpsValid (set qps i v) cqs
QpsValid-same {qps = qps} {cqs = cqs} w i v h same cqs_same =
    QpsValid-move w i v h refl
      (λ c. omega (arith, ap bit (binds-same (c + 1) v (get_or qps i zero_qp) same cqs_same)))
      (λ k n. n)
      (λ o.
        let r = w.refs i (sym same ∙ o) in
        let e = cqs_same o in (ap (names_cq cqs) e.0 ∙ r.0, ap (names_cq cqs) e.1 ∙ r.1))

-- One write to each of two slots, or one if they are the same.
abbrev pub touch : (Cq → Cq) → List Cq → ℕ → ℕ → List Cq
touch f cqs s r =
    let once = set cqs s (f (get_or cqs s zero_cq)) in
    if r == s then once else set once r (f (get_or cqs r zero_cq))

abbrev pub touched : ℕ → ℕ → ℕ → Bool
touched s r c = (c == s) || (c == r)

pub length-touch : (f : Cq → Cq) (cqs : List Cq) (s r : ℕ) → length (touch f cqs s r) ≡ length cqs
length-touch f cqs s r = elim (Bool-cases (r == s)) [
  | inl e ↦ rw e (length-set cqs s _)
  | inr e ↦ rw e (length-set (set cqs s _) r _ ∙ length-set cqs s _)
]

get_or-update :
    (f : Cq → Cq) (cqs : List Cq) (s c : ℕ)
    → s < length cqs
    → get_or (set cqs s (f (get_or cqs s zero_cq))) c zero_cq
      ≡ (if c == s then f (get_or cqs c zero_cq) else get_or cqs c zero_cq)
get_or-update f cqs s c h =
    get_or-set cqs s c (f (get_or cqs s zero_cq)) zero_cq h ∙ elim (Bool-cases (c == s)) [
      | inl q ↦ rw q (ap (λ k. f (get_or cqs k zero_cq)) (sym ((==_iff c s).0 q)))
      | inr q ↦ rw q refl
    ]

or-right : (b : Bool) → (b || true) ≡ true
or-right true = refl
or-right false = refl

or-left : (b : Bool) → (b || false) ≡ b
or-left true = refl
or-left false = refl

or-same : (s r c : ℕ) → r ≡ s → (c == s) ≡ touched s r c
or-same s r c e = ground arith

pub get_or-touch :
    (f : Cq → Cq) (cqs : List Cq) (s r c : ℕ)
    → s < length cqs
    → r < length cqs
    → get_or (touch f cqs s r) c zero_cq
      ≡ (if touched s r c then f (get_or cqs c zero_cq) else get_or cqs c zero_cq)
get_or-touch f cqs s r c hs hr = elim (Bool-cases (r == s)) [
  | inl e ↦ rw e (
      get_or-update f cqs s c hs
      ∙ ap (λ b. if b then f (get_or cqs c zero_cq) else get_or cqs c zero_cq)
          (or-same s r c ((==_iff r s).0 e)))
  | inr e ↦ rw e (
      get_or-set (set cqs s (f (get_or cqs s zero_cq))) r c (f (get_or cqs r zero_cq)) zero_cq
        (omega (arith, hr, length-set cqs s (f (get_or cqs s zero_cq))))
      ∙ elim (Bool-cases (c == r)) [
        | inl q ↦
            rw (q, or-right (c == s)) (ap (λ k. f (get_or cqs k zero_cq)) (sym ((==_iff c r).0 q)))
        | inr q ↦ rw (q, or-left (c == s)) (get_or-update f cqs s c hs)
      ])
]

-- What is touched is what a queue pair of these two queues binds.
pub touched-binds :
    (s r c : ℕ) (q : Qp)
    → qp_open q ≡ true
    → q.send_cq ≡ s + 1
    → q.recv_cq ≡ r + 1
    → binds (c + 1) q ≡ touched s r c
touched-binds s r c q o es er = ground arith

pub names_cq-touch :
    (f : Cq → Cq) (cqs : List Cq) (s r h : ℕ)
    → ((c : Cq) → (f c).used ≡ c.used)
    → s < length cqs
    → r < length cqs
    → names_cq cqs h ≡ true
    → names_cq (touch f cqs s r) h ≡ true
names_cq-touch f cqs s r zero keeps hs hr e = e
names_cq-touch f cqs s r (suc h) keeps hs hr e =
    rw (get_or-touch f cqs s r h hs hr) (elim (Bool-cases (touched s r h)) [
      | inl t ↦ rw t (keeps (get_or cqs h zero_cq) ∙ e)
      | inr t ↦ rw t e
    ])
