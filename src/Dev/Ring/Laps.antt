-- ===== src/Dev/Ring/Laps.antt =====
-- Slots and laps of a ring whose size divides 2 ^ 32.
use native.Mathlib.Nat.{
  mod-add-div, add-mul-mod_self_left, add-mul-div_left, mul-le-mul_left, mod-lt, mul-add,
  div-eq_of_lt,
}
use uet_ref_prov.Base.{
  ℕ, ◌+◌, ◌*◌, ◌/◌, ◌%◌, ◌^◌, ◌<◌, ◌≤◌, ◌≡◌, ◌≢◌, sym, ap, ◌∙◌, ◌==◌, arith, Bool-cases, ==_iff,
  ==_ne, inl, inr, ◌⊎◌,
}
use uet_ref_prov.Dev.Ring.{toggle}

-- The index of a word falls on the slot of the number that it counts.
pub mod_word : (e c n : ℕ) → e * c ≡ 2 ^ 32 → n % 2 ^ 32 % e ≡ n % e
mod_word e c n whole = sym (
    ap (λ (x : ℕ). x % e)
      (sym (mod-add-div n (2 ^ 32))
        ∙ ap (λ (x : ℕ). n % 2 ^ 32 + x * (n / 2 ^ 32)) (sym whole)
        ∙ ap (λ (x : ℕ). n % 2 ^ 32 + x) (grind arith))
    ∙ add-mul-mod_self_left (n % 2 ^ 32) e (c * (n / 2 ^ 32)))

order : (a b : ℕ) → (a ≤ b) ⊎ (b + 1 ≤ a)
order a b = ground arith

-- Two numbers less than a ring apart fall on different slots.
pub other_slot : (e n p : ℕ) → n < p → p < n + e → n % e ≢ p % e
other_slot e n p h k same = elim (order (p / e) (n / e)) [
  | inl le ↦ omega (arith, same, mod-add-div n e, mod-add-div p e, mul-le-mul_left e le)
  | inr lt ↦
      omega
        (arith, same, mod-add-div n e, mod-add-div p e, mul-le-mul_left e lt, mul-add e (n / e) 1)
]

-- The phase of the lap that a number is in: 1 on the first.
unfoldable pub lap : ℕ → ℕ → ℕ
lap e n = (n / e + 1) % 2

-- The first lap has phase 1.
pub lap_first : (e n : ℕ) → n < e → lap e n ≡ 1
unfolding lap
lap_first e n h = omega (arith, div-eq_of_lt h)

-- It differs from that of the lap before.
pub lap_next : (e n : ℕ) → 0 < e → lap e (n + e) ≢ lap e n
unfolding lap
lap_next e n h same = omega (arith, same, step)
  where
    step : (n + e) / e ≡ n / e + 1
    step = ap (λ (x : ℕ). (n + x) / e) (grind arith) ∙ add-mul-div_left n 1 h

-- Where the remainder of the next number is 0, the quotient moves on,
next_quotient : (e n : ℕ) → 0 < e → (n + 1) % e ≡ 0 → (n + 1) / e ≡ n / e + 1
next_quotient e n h z = elim (order ((n + 1) / e) (n / e)) [
  | inl le ↦ absurd (omega (arith, z, mod-add-div n e, mod-add-div (n + 1) e, mul-le-mul_left e le))
  | inr lt ↦ elim (order ((n + 1) / e) (n / e + 1)) [
    | inl le ↦ omega (arith, le, lt)
    | inr far ↦ absurd (
        omega (
          arith,
          z,
          mod-add-div n e,
          mod-add-div (n + 1) e,
          mul-le-mul_left e far,
          mod-lt n h,
          mul-add e (n / e + 1) 1,
          mul-add e (n / e) 1,
        ))
  ]
]

-- and otherwise it stays.
same_quotient : (e n : ℕ) → 0 < e → (n + 1) % e ≢ 0 → (n + 1) / e ≡ n / e
same_quotient e n h nz = elim (order ((n + 1) / e) (n / e)) [
  | inl le ↦ elim (order (n / e) ((n + 1) / e)) [
    | inl ge ↦ omega (arith, le, ge)
    | inr far ↦ absurd (
        omega (
          arith,
          mod-add-div n e,
          mod-add-div (n + 1) e,
          mul-le-mul_left e far,
          mod-lt (n + 1) h,
          mul-add e ((n + 1) / e) 1,
        ))
  ]
  | inr lt ↦ absurd (
      omega (
        arith,
        nz,
        mod-add-div n e,
        mod-add-div (n + 1) e,
        mul-le-mul_left e lt,
        mod-lt n h,
        mul-add e (n / e) 1,
      ))
]

-- It toggles with the index.
pub toggle-lap : (e n : ℕ) → 0 < e → toggle (n + 1) e (lap e n) ≡ lap e (n + 1)
unfolding lap
toggle-lap e n h = elim (Bool-cases ((n + 1) % e == 0)) [
  | inl z ↦ rw z (omega (arith, next_quotient e n h ((==_iff ((n + 1) % e) 0).0 z)))
  | inr z ↦ rw z (omega (arith, same_quotient e n h (==_ne ((n + 1) % e) 0 z)))
]
