-- ===== src/Base/Scan.antt =====
-- The compiler's builtins that scan a word for its bits.
use Prim.Native.Nat.{ℕ, zero, suc, ◌+◌, ◌-◌, ◌/◌, ◌%◌, ◌^◌, ◌<◌}
use mathlib.Core.Path.{◌≡◌, ap, ◌∙◌}
use mathlib.Core.Logic.{◌≢◌, inl, inr}
use mathlib.Core.Bool.{true, false}
use native.Mathlib.Omega.{arith}
use uet_ref_prov.Base.Tests.{◌==◌, if◌then◌else◌, Bool-cases}
use uet_ref_prov.Base.Arith.{pow2-suc}
use uet_ref_prov.Base.Word.{testbit}

-- What GCC documents of them on a word of `n` bits: the number of bits that are set, the index of
-- the lowest one, and the number of zeros above the highest one.
unfoldable pub popcount : ℕ → ℕ → ℕ
popcount zero w = 0
popcount (suc n) w = w % 2 + popcount n (w / 2)

unfoldable pub ctz : ℕ → ℕ → ℕ
ctz zero w = 0
ctz (suc n) w = if w % 2 == 1 then 0 else suc (ctz n (w / 2))

unfoldable pub clz : ℕ → ℕ → ℕ
clz zero w = 0
clz (suc n) w = if testbit w n then 0 else suc (clz n w)

pub ctz-lt : (n w : ℕ) → w < 2 ^ n → w ≢ 0 → ctz n w < n
unfolding ctz
ctz-lt zero w h ne = absurd (ne (omega arith))
ctz-lt (suc n) w h ne = ground (arith, pow2-suc n, ctz-lt n (w / 2))

pub testbit-ctz : (n w : ℕ) → w < 2 ^ n → w ≢ 0 → testbit w (ctz n w) ≡ true
unfolding ctz
testbit-ctz zero w h ne = absurd (ne (omega arith))
testbit-ctz (suc n) w h ne = elim (Bool-cases (w % 2 == 1)) [
  | inl e ↦ rw e e
  | inr e ↦ rw e (testbit-ctz n (w / 2) (omega (arith, pow2-suc n)) (ground arith))
]

pub testbit-below_ctz : (n w i : ℕ) → i < ctz n w → testbit w i ≡ false
unfolding ctz
testbit-below_ctz zero w i h = absurd (omega arith)
testbit-below_ctz (suc n) w zero h = ground arith
testbit-below_ctz (suc n) w (suc i) h = testbit-below_ctz n (w / 2) i (ground arith)

lt_of_top_clear : (n w : ℕ) → w < 2 ^ suc n → testbit w n ≡ false → w < 2 ^ n
lt_of_top_clear zero w h e = ground arith
lt_of_top_clear (suc n) w h e = omega (
  arith,
  pow2-suc n,
  pow2-suc (suc n),
  lt_of_top_clear n (w / 2) (omega (arith, pow2-suc (suc n))) e,
)

pub clz-lt : (n w : ℕ) → w < 2 ^ n → w ≢ 0 → clz n w < n
unfolding clz
clz-lt zero w h ne = absurd (ne (omega arith))
clz-lt (suc n) w h ne = ground (arith, lt_of_top_clear n w, clz-lt n w)

pub testbit-clz : (n w : ℕ) → w < 2 ^ n → w ≢ 0 → testbit w (n - 1 - clz n w) ≡ true
unfolding clz
testbit-clz zero w h ne = absurd (ne (omega arith))
testbit-clz (suc n) w h ne = elim (Bool-cases (testbit w n)) [
  | inl e ↦ rw e (ap (testbit w) {x = suc n - 1 - 0} {y = n} (omega arith) ∙ e)
  | inr e ↦ rw e (
      ap (testbit w) {x = suc n - 1 - suc (clz n w)} {y = n - 1 - clz n w} (omega arith)
      ∙ testbit-clz n w (lt_of_top_clear n w h e) ne)
]

pub testbit-above_clz : (n w i : ℕ) → n - 1 - clz n w < i → i < n → testbit w i ≡ false
unfolding clz
testbit-above_clz zero w i h k = absurd (omega arith)
testbit-above_clz (suc n) w i h k = elim (Bool-cases (testbit w n)) [
  | inl e ↦ absurd (ground arith)
  | inr e ↦ ground (arith, testbit-above_clz n w i)
]
