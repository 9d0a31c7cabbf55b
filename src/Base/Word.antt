-- ===== src/Base/Word.antt =====
-- The bits of a machine word, and the C operators on words by their bits.
mod Step
use Prim.Native.Nat.{
  ℕ, zero, suc, ◌+◌, ◌-◌, ◌*◌, ◌/◌, ◌%◌, ◌^◌, ◌≤◌, ◌<◌, bit_and, bit_or, min, max, bit_and-bitwise,
}
use mathlib.Core.Path.{◌≡◌, refl, ap, ap₂, ◌∙◌, sym}
use mathlib.Core.Bool.{Bool, true, false, not, ◌&&◌, ◌||◌}
use native.Mathlib.Omega.{arith}
use uet_ref_prov.Base.Tests.{◌==◌}
use uet_ref_prov.Base.Arith.{pow2_pos, pow2-suc, half_first, mod-pow-suc}
use Step.{bit_or_step, bit_and_step}

-- Bit `i` of `w`.
abbrev pub testbit : ℕ → ℕ → Bool
testbit w zero = w % 2 == 1
testbit w (suc i) = testbit (w / 2) i

-- `w << s` and `w >> s` on a word of `n` bits, and `~w`.
abbrev pub shl : ℕ → ℕ → ℕ → ℕ
shl n w s = w * 2 ^ s % 2 ^ n

abbrev pub shr : ℕ → ℕ → ℕ
shr w s = w / 2 ^ s

abbrev pub complement : ℕ → ℕ → ℕ
complement n w = 2 ^ n - 1 - w

pub testbit_zero : (i : ℕ) → testbit 0 i ≡ false
testbit_zero zero = refl
testbit_zero (suc i) = testbit_zero i

digit_or : (a b : ℕ) → ((max (a % 2) (b % 2)) == 1) ≡ (a % 2 == 1 || b % 2 == 1)
digit_or a b = ground arith

digit_and : (a b : ℕ) → ((min (a % 2) (b % 2)) == 1) ≡ (a % 2 == 1 && b % 2 == 1)
digit_and a b = ground arith

pub testbit-bit_or : (a b i : ℕ) → testbit (bit_or a b) i ≡ (testbit a i || testbit b i)
testbit-bit_or a b zero = ground (arith, bit_or_step a b)
testbit-bit_or a b (suc i) =
    ap (λ w. testbit w i) (omega (arith, bit_or_step a b)) ∙ testbit-bit_or (a / 2) (b / 2) i

pub testbit-bit_and : (a b i : ℕ) → testbit (bit_and a b) i ≡ (testbit a i && testbit b i)
testbit-bit_and a b zero = ground (arith, bit_and_step a b)
testbit-bit_and a b (suc i) =
    ap (λ w. testbit w i) (omega (arith, bit_and_step a b)) ∙ testbit-bit_and (a / 2) (b / 2) i

pub testbit-shr : (w s i : ℕ) → testbit (shr w s) i ≡ testbit w (s + i)
testbit-shr w zero i =
    ap₂ testbit {x = w / 1} {y = w} {u = i} {v = 0 + i} (omega arith) (omega arith)
testbit-shr w (suc s) i =
    ap (λ k. testbit k i) (half_first w s)
    ∙ testbit-shr (w / 2) s i
    ∙ ap (testbit w) {x = suc (s + i)} {y = suc s + i} (omega arith)

pub testbit-beyond : (n w i : ℕ) → w < 2 ^ n → n ≤ i → testbit w i ≡ false
testbit-beyond zero w i h k = ap (λ t. testbit t i) {y = 0} (omega arith) ∙ testbit_zero i
testbit-beyond (suc n) w zero h k = absurd (omega arith)
testbit-beyond (suc n) w (suc i) h k =
    testbit-beyond n (w / 2) i (omega (arith, pow2-suc n)) (omega arith)

pub testbit-mod : (w n i : ℕ) → i < n → testbit (w % 2 ^ n) i ≡ testbit w i
testbit-mod w zero i h = absurd (omega arith)
testbit-mod w (suc n) zero h = ground (arith, mod-pow-suc w n)
testbit-mod w (suc n) (suc i) h =
    ap (λ k. testbit k i) (omega (arith, mod-pow-suc w n)) ∙ testbit-mod (w / 2) n i (omega arith)

double_first : (w s : ℕ) → w * 2 ^ suc s ≡ 2 * (w * 2 ^ s)
double_first w s = omega (arith, ap (λ (t : ℕ). w * t) (pow2-suc s))

pub testbit-mul-pow : (w s i : ℕ) → testbit (w * 2 ^ s) (s + i) ≡ testbit w i
testbit-mul-pow w zero i =
    ap₂ testbit {x = w * 1} {y = w} {u = 0 + i} {v = i} (omega arith) (omega arith)
testbit-mul-pow w (suc s) i =
    ap (testbit (w * 2 ^ suc s)) {x = suc s + i} {y = suc (s + i)} (omega arith)
    ∙ ap (λ k. testbit k (s + i)) (omega (arith, double_first w s))
    ∙ testbit-mul-pow w s i

pub testbit-mul-pow_below : (w s i : ℕ) → i < s → testbit (w * 2 ^ s) i ≡ false
testbit-mul-pow_below w zero i h = absurd (omega arith)
testbit-mul-pow_below w (suc s) zero h = ground (arith, double_first w s)
testbit-mul-pow_below w (suc s) (suc i) h =
    ap (λ k. testbit k i) (omega (arith, double_first w s))
    ∙ testbit-mul-pow_below w s i (omega arith)

pub testbit-complement :
    (n w i : ℕ) → w < 2 ^ n → i < n → testbit (complement n w) i ≡ not (testbit w i)
testbit-complement zero w i h k = absurd (omega arith)
testbit-complement (suc n) w zero h k = ground (arith, pow2-suc n, pow2_pos n)
testbit-complement (suc n) w (suc i) h k =
    ap (λ k. testbit k i) (omega (arith, pow2-suc n))
    ∙ testbit-complement n (w / 2) i (omega (arith, pow2-suc n)) (omega arith)

pub testbit-pow : (s i : ℕ) → testbit (2 ^ s) i ≡ (s == i)
testbit-pow zero zero = refl
testbit-pow zero (suc i) = testbit_zero i ∙ ground arith
testbit-pow (suc s) zero = ground (arith, pow2-suc s)
testbit-pow (suc s) (suc i) =
    ap (λ k. testbit k i) (omega (arith, pow2-suc s)) ∙ testbit-pow s i ∙ ground arith

-- Words below `2 ^ n` with the same bits are equal.
pub testbit_ext :
    (n a b : ℕ) → a < 2 ^ n → b < 2 ^ n → ((i : ℕ) → i < n → testbit a i ≡ testbit b i) → a ≡ b
testbit_ext zero a b ha hb e = omega arith
testbit_ext (suc n) a b ha hb e = ground (
  arith,
  pow2-suc n,
  e 0,
  testbit_ext n (a / 2) (b / 2) (omega (arith, pow2-suc n)) (omega (arith, pow2-suc n))
      (λ i h. e (suc i) (omega arith)),
)

-- A word that has no bit is 0.
pub eq-zero_of_testbit : (n w : ℕ) → w < 2 ^ n → ((i : ℕ) → i < n → testbit w i ≡ false) → w ≡ 0
eq-zero_of_testbit n w h e = testbit_ext n w 0 h (pow2_pos n) (λ i k. e i k ∙ sym (testbit_zero i))

-- `&` and `|` of words are words.
pub bit_or-lt : (n a b : ℕ) → a < 2 ^ n → b < 2 ^ n → bit_or a b < 2 ^ n
bit_or-lt zero a b ha hb =
    let e : a ≡ 0 = omega arith in let f : b ≡ 0 = omega arith in rw (e, f) (omega arith)
bit_or-lt (suc n) a b ha hb = omega (
  arith,
  pow2-suc n,
  bit_or_step a b,
  bit_or-lt n (a / 2) (b / 2) (omega (arith, pow2-suc n)) (omega (arith, pow2-suc n)),
)

pub bit_and-le : (n a b : ℕ) → a < 2 ^ n → bit_and a b ≤ a
bit_and-le zero a b ha = let e : a ≡ 0 = omega arith in rw e (omega (arith, bit_and-bitwise 0 b))
bit_and-le (suc n) a b ha =
    omega (arith, bit_and_step a b, bit_and-le n (a / 2) (b / 2) (omega (arith, pow2-suc n)))

-- `&` with 0, for a first operand up to `n`.
bit_and-zero : (n a : ℕ) → a ≤ n → bit_and a 0 ≡ 0
bit_and-zero n zero h = bit_and-bitwise 0 0
bit_and-zero zero (suc a) h = absurd (omega arith)
bit_and-zero (suc n) (suc a) h =
    omega (arith, bit_and_step (suc a) 0, bit_and-zero n (suc a / 2) (omega arith))

pub bit_and-le_right : (n a b : ℕ) → b < 2 ^ n → bit_and a b ≤ b
bit_and-le_right zero a b hb =
    let e : b ≡ 0 = omega arith in rw e (omega (arith, bit_and-zero a a (omega arith)))
bit_and-le_right (suc n) a b hb =
    omega (arith, bit_and_step a b, bit_and-le_right n (a / 2) (b / 2) (omega (arith, pow2-suc n)))
