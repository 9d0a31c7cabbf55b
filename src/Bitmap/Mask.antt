-- ===== src/Bitmap/Mask.antt =====
-- The masks `(uint64_t)1 << k` that test, set and clear one bit of a word.
use native.Mathlib.Nat.{mod-eq_of_lt}
use uet_ref_prov.Base.{
  ℕ, zero, suc, ◌%◌, ◌^◌, ◌<◌, ◌≡◌, ap, ◌∙◌, ◌≢◌, true, false, not, ◌&&◌, ◌||◌, ◌==◌, arith,
  complement, bit_and, bit_or, testbit, testbit_zero, testbit-bit_or, testbit-bit_and, testbit-pow,
  testbit-complement, eq-zero_of_testbit, bit_and-le, pow2_pos, pow2-suc,
}
use uet_ref_prov.Bitmap.{bit64}

pub pow2-lt : (k n : ℕ) → k < n → 2 ^ k < 2 ^ n
pow2-lt k zero h = absurd (omega arith)
pow2-lt zero (suc n) h = omega (arith, pow2-suc n, pow2_pos n)
pow2-lt (suc k) (suc n) h = omega (arith, pow2-suc n, pow2-suc k, pow2-lt k n (omega arith))

pub bit64_lem : (k : ℕ) → k < 64 → bit64 k ≡ 2 ^ k
bit64_lem k h = ap (λ t. t % 2 ^ 64) {y = 2 ^ k} (omega arith) ∙ mod-eq_of_lt (pow2-lt k 64 h)

pub bit64-lt : (k : ℕ) → k < 64 → bit64 k < 2 ^ 64
bit64-lt k h = omega (arith, bit64_lem k h, pow2-lt k 64 h)

masked : (w k i : ℕ) → testbit (bit_and w (2 ^ k)) i ≡ (testbit w i && k == i)
masked w k i = testbit-bit_and w (2 ^ k) i ∙ ap (λ b. testbit w i && b) (testbit-pow k i)

mask_hit : (w k : ℕ) → testbit w k ≡ true → bit_and w (2 ^ k) ≢ 0
mask_hit w k e z = ground (arith, masked w k k, testbit_zero k)

mask_miss : (w k : ℕ) → w < 2 ^ 64 → testbit w k ≡ false → bit_and w (2 ^ k) ≡ 0
mask_miss w k h e =
    eq-zero_of_testbit 64 (bit_and w (2 ^ k)) (omega (arith, bit_and-le 64 w (2 ^ k) h))
      (λ i hi. ground (arith, masked w k i))

-- `(w & ((uint64_t)1 << k)) != 0` tests bit `k`.
pub mask_test : (w k : ℕ) → w < 2 ^ 64 → k < 64 → not (bit_and w (bit64 k) == 0) ≡ testbit w k
mask_test w k h hk = rw (bit64_lem k hk) (ground (arith, mask_hit w k, mask_miss w k h))

pub testbit-set_mask :
    (w k j : ℕ) → k < 64 → testbit (bit_or w (bit64 k)) j ≡ (testbit w j || k == j)
testbit-set_mask w k j h =
    testbit-bit_or w (bit64 k) j
    ∙ ap (λ b. testbit w j || b) (ap (λ m. testbit m j) (bit64_lem k h) ∙ testbit-pow k j)

pub testbit-clear_mask :
    (w k j : ℕ)
    → k < 64
    → j < 64
    → testbit (bit_and w (complement 64 (bit64 k))) j ≡ (testbit w j && not (k == j))
testbit-clear_mask w k j h hj =
    testbit-bit_and w (complement 64 (bit64 k)) j
    ∙ ap (λ b. testbit w j && b)
        (ap (λ m. testbit (complement 64 m) j) (bit64_lem k h)
          ∙ testbit-complement 64 (2 ^ k) j (pow2-lt k 64 h) hj
          ∙ ap not (testbit-pow k j))
