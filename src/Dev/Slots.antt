-- ===== src/Dev/Slots.antt =====
-- The object tables of the device model (uet_vfio/uet_dev_objs.c): arrays of slots with a used flag.
use uet_ref_prov.Base.{
  ℕ, zero, suc, ◌+◌, ◌-◌, ◌^◌, ◌%◌, ◌≤◌, ◌<◌, ◌≡◌, refl, sym, ap, ◌∙◌, Bool, true, false, List, [],
  ◌∷◌, length, get_or, set, if◌then◌else◌, Bool-cases, inl, inr, arith, Option, none, some, ltb,
  ◌||◌, ◌==◌, ==_false, ltb-false, ==_iff, ==_ne, subst, get_or-set_self, get_or-set_ne,
}
use mathlib.Core.Bool.{false≢true}

-- What a flag adds to a count.
abbrev pub bit : Bool → ℕ
bit true = 1
bit false = 0

-- The counters of the device are 32-bit words.
unfoldable pub inc32 : ℕ → ℕ
inc32 n = (n + 1) % 2 ^ 32

unfoldable pub dec32 : ℕ → ℕ
dec32 n = (n + (2 ^ 32 - 1)) % 2 ^ 32

pub inc32-lt : (n : ℕ) → n < 2 ^ 32 - 1 → inc32 n ≡ n + 1
unfolding inc32
inc32-lt n h = omega arith

-- A counter that is lowered or not is still a word.
pub dec32-lt : (b : Bool) (n : ℕ) → n < 2 ^ 32 → (if b then dec32 n else n) < 2 ^ 32
unfolding dec32
dec32-lt true n h = omega arith
dec32-lt false n h = h

pub dec32-pos : (n : ℕ) → 0 < n → n < 2 ^ 32 → dec32 n ≡ n - 1
unfolding dec32
dec32-pos n h k = omega arith

module _ {ℓ} {A : Type ℓ} where
  -- `for (i = 0; i < MAX; i++) if (!p(slot[i])) break;`
  abbrev pub first_free : (A → Bool) → List A → ℕ
  first_free p [] = 0
  first_free p (x ∷ xs) = let rest = first_free p xs in if p x then suc rest else 0

  -- Whether a slot answers to `p`.
  abbrev pub any_slot : (A → Bool) → List A → Bool
  any_slot p [] = false
  any_slot p (x ∷ xs) = let rest = any_slot p xs in if p x then true else rest

  abbrev pub count : (A → Bool) → List A → ℕ
  count p [] = 0
  count p (x ∷ xs) = bit (p x) + count p xs

module _ {ℓ} {A : Type ℓ} (p : A → Bool) where
  pub first_free_le : (xs : List A) → first_free p xs ≤ length xs
  first_free_le [] = omega arith
  first_free_le (x ∷ xs) = grind (arith, first_free_le xs)

  pub first_free-get_or :
      (xs : List A) (d : A)
      → first_free p xs < length xs
      → p (get_or xs (first_free p xs) d) ≡ false
  first_free-get_or [] d = λ h. absurd (omega arith)
  first_free-get_or (x ∷ xs) d = elim (Bool-cases (p x)) [
    | inl e ↦ rw e (λ h. first_free-get_or xs d (omega arith))
    | inr e ↦ rw e (λ h. e)
  ]

  pub count_le : (xs : List A) → count p xs ≤ length xs
  count_le [] = omega arith
  count_le (x ∷ xs) = grind (arith, count_le xs)

  pub count-set :
      (xs : List A) (i : ℕ) (v d : A)
      → i < length xs
      → count p (set xs i v) + bit (p (get_or xs i d)) ≡ count p xs + bit (p v)
  count-set [] i v d h = absurd (omega arith)
  count-set (x ∷ xs) zero v d h = omega arith
  count-set (x ∷ xs) (suc i) v d h = omega (arith, count-set xs i v d (omega arith))

  -- A slot that answers to `p` is counted.
  pub count_pos :
      (xs : List A) (i : ℕ) (d : A) → i < length xs → p (get_or xs i d) ≡ true → 0 < count p xs
  count_pos [] i d h e = absurd (omega arith)
  count_pos (x ∷ xs) zero d h e = rw e (omega arith)
  count_pos (x ∷ xs) (suc i) d h e = omega (arith, count_pos xs i d (omega arith) e)

  -- A slot that answers to `p`, when a zeroed one does not, is in the table.
  pub inside_table :
      (xs : List A) (i : ℕ) (d : A) → p d ≡ false → p (get_or xs i d) ≡ true → i < length xs
  inside_table [] i d z e = absurd (false≢true (sym z ∙ e))
  inside_table (x ∷ xs) zero d z e = omega arith
  inside_table (x ∷ xs) (suc i) d z e = omega (arith, inside_table xs i d z e)

  pub any_slot-false :
      (xs : List A) (i : ℕ) (d : A)
      → any_slot p xs ≡ false
      → i < length xs
      → p (get_or xs i d) ≡ false
  any_slot-false [] i d = λ e h. absurd (omega arith)
  any_slot-false (x ∷ xs) zero d = elim (Bool-cases (p x)) [
    | inl q ↦ rw q (λ e h. e)
    | inr q ↦ rw q (λ e h. refl)
  ]
  any_slot-false (x ∷ xs) (suc i) d = elim (Bool-cases (p x)) [
    | inl q ↦ rw q (λ e h. absurd (false≢true (sym e)))
    | inr q ↦ rw q (λ e h. any_slot-false xs i d e (omega arith))
  ]

-- The pointer to a slot that a one-based handle names, as the index of the slot: none is NULL. A
-- table that is itself NULL is the empty list.
unfoldable pub slot_get {ℓ} : {A : Type ℓ} → ℕ → (A → Bool) → List A → A → ℕ → Option ℕ
slot_get max_slots used xs zeroed handle =
    if (handle == 0) || ltb max_slots handle
    then none
    else if used (get_or xs (handle - 1) zeroed)
    then some (handle - 1)
    else none

pub slot_get-some {ℓ} :
    {A : Type ℓ} (m : ℕ) (used : A → Bool) (xs : List A) (z : A) (handle i : ℕ)
    → slot_get m used xs z handle ≡ some i
    → (i < m) × (handle ≡ i + 1) × (used (get_or xs i z) ≡ true)
unfolding slot_get
slot_get-some m used xs z handle i h = ground arith

pub get_or-set {ℓ} :
    {A : Type ℓ} (xs : List A) (i j : ℕ) (v d : A)
    → i < length xs
    → get_or (set xs i v) j d ≡ (if j == i then v else get_or xs j d)
get_or-set xs i j v d h = elim (Bool-cases (j == i)) [
  | inl e ↦ rw e (
      subst (λ k. get_or (set xs i v) k d ≡ v) (sym ((==_iff j i).0 e))
        (get_or-set_self xs i v d h))
  | inr e ↦ rw e (get_or-set_ne xs i j v d (λ q. ==_ne j i e (sym q)))
]

-- A counter of the slots that answer to `p` follows a slot that comes to do so, or stops.
module _ {ℓ} {A : Type ℓ} (p : A → Bool) (xs : List A) (live i : ℕ) (v d : A) where
  pub inc32-count :
      live ≡ count p xs
      → length xs < 2 ^ 32 - 1
      → i < length xs
      → p (get_or xs i d) ≡ false
      → p v ≡ true
      → inc32 live ≡ count p (set xs i v)
  inc32-count e s h old new = omega (
    arith,
    inc32-lt live (omega (arith, e, count_le p xs)),
    e,
    count-set p xs i v d h,
    ap bit old,
    ap bit new,
  )

  pub dec32-count :
      live ≡ count p xs
      → length xs < 2 ^ 32 - 1
      → i < length xs
      → p (get_or xs i d) ≡ true
      → p v ≡ false
      → dec32 live ≡ count p (set xs i v)
  dec32-count e s h old new = omega (
    arith,
    dec32-pos live (omega (arith, e, count_pos p xs i d h old)) (omega (arith, e, count_le p xs)),
    e,
    count-set p xs i v d h,
    ap bit old,
    ap bit new,
    count_pos p xs i d h old,
  )

pub slot_get-used {ℓ} :
    {A : Type ℓ} (m : ℕ) (used : A → Bool) (xs : List A) (z : A) (i : ℕ)
    → i < m
    → used (get_or xs i z) ≡ true
    → slot_get m used xs z (suc i) ≡ some i
unfolding slot_get
slot_get-used m used xs z i h u =
    rw (==_false (suc i) 0 (λ e. omega arith), ltb-false m (suc i) (omega arith), back) (rw u refl)
  where
    back : suc i - 1 ≡ i
    back = omega arith

-- The handle of slot `i`.
pub slot_get-at {ℓ} :
    {A : Type ℓ} (m : ℕ) (used : A → Bool) (xs : List A) (z : A) (i : ℕ)
    → i < m
    → slot_get m used xs z (i + 1) ≡ (if used (get_or xs i z) then some i else none)
unfolding slot_get
slot_get-at m used xs z i h =
    rw (==_false (i + 1) 0 (λ e. omega arith), ltb-false m (i + 1) (omega arith), back) refl
  where
    back : i + 1 - 1 ≡ i
    back = omega arith

-- A handle is resolved by the used flag of its slot alone.
pub slot_get-same {ℓ} :
    {A : Type ℓ} (m : ℕ) (used : A → Bool) (xs ys : List A) (z : A) (h : ℕ)
    → used (get_or ys (h - 1) z) ≡ used (get_or xs (h - 1) z)
    → slot_get m used ys z h ≡ slot_get m used xs z h
unfolding slot_get
slot_get-same m used xs ys z h e = rw e refl
