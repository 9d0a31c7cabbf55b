-- ===== src/Bitmap/ShiftBits.antt =====
-- `bm_shift_left` and `bm_shift_right` on the bits and pointers of a bitmap.
use native.Mathlib.Decide.{dec_lt, ℕ_discrete}
use uet_ref_prov.Base.{
  ℕ, ◌+◌, ◌-◌, ◌*◌, ◌/◌, ◌%◌, ◌^◌, ◌≤◌, ◌<◌, ◌≡◌, ◌≢◌, ap, ◌∙◌, Bool, false, Option, some, List,
  ltb, if◌then◌else◌, arith, length, shl, shr, testbit, testbit-bit_or, testbit_zero, bit_or-lt,
  get_or-beyond, testbit-shr, testbit-mod, testbit-mul-pow, testbit-mul-pow_below, testbit-beyond,
  Made, from_index,
}
use uet_ref_prov.Bitmap.{word, right_words, left_words}
use uet_ref_prov.Bitmap.Words.{right_value, left_value}
use uet_ref_prov.Bitmap.Shift.{
  shr-lt, right_words_whole, right_words_split, left_words_whole, left_words_split, left_edge,
}

pub testbit-shl : (w s b : ℕ) → s ≤ b → b < 64 → testbit (shl 64 w s) b ≡ testbit w (b - s)
testbit-shl w s b h hb =
    testbit-mod (w * 2 ^ s) 64 b hb
    ∙ ap (testbit (w * 2 ^ s)) {x = b} {y = s + (b - s)} (omega arith)
    ∙ testbit-mul-pow w s (b - s)

shl-lt : (w k : ℕ) → shl 64 w k < 2 ^ 64
shl-lt w k = omega arith

pub testbit-shl_below : (w s b : ℕ) → b < s → b < 64 → testbit (shl 64 w s) b ≡ false
testbit-shl_below w s b h hb = testbit-mod (w * 2 ^ s) 64 b hb ∙ testbit-mul-pow_below w s b h

-- Bit `i` of an array of words.
abbrev pub array_bit : List ℕ → ℕ → Bool
array_bit arr i = testbit (word arr (i / 64)) (i % 64)

pub array_bit-split :
    (arr : List ℕ) (i j b : ℕ) → i / 64 ≡ j → i % 64 ≡ b → testbit (word arr j) b ≡ array_bit arr i
array_bit-split arr i j b e f = rw (← e, ← f)

module _ (arr : List ℕ) (small : (j : ℕ) → word arr j < 2 ^ 64) where
  right_value-bit :
      (chop shift j b : ℕ)
      → shift ≢ 0
      → shift < 64
      → b < 64
      → testbit (right_value chop shift arr j) b ≡ array_bit arr (64 * (j + chop) + b + shift)
  right_value-bit chop shift j b ne h hb = elim (dec_lt (b + shift) 64) [
    | yes p ↦ ground (
      arith,
      testbit-bit_or (shr (word arr (j + chop)) shift)
          (shl 64 (word arr (j + 1 + chop)) (64 - shift)) b,
      testbit-shr (word arr (j + chop)) shift b,
      testbit-shl_below (word arr (j + 1 + chop)) (64 - shift) b (omega arith) hb,
      array_bit-split arr (64 * (j + chop) + b + shift) (j + chop) (shift + b) (omega arith)
          (omega arith),
    )
    | no p ↦ ground (
      arith,
      testbit-bit_or (shr (word arr (j + chop)) shift)
          (shl 64 (word arr (j + 1 + chop)) (64 - shift)) b,
      testbit-shr (word arr (j + chop)) shift b,
      testbit-beyond 64 (word arr (j + chop)) (shift + b) (small (j + chop)) (omega arith),
      testbit-shl (word arr (j + 1 + chop)) (64 - shift) b (omega arith) hb,
      array_bit-split arr (64 * (j + chop) + b + shift) (j + 1 + chop) (b - (64 - shift))
          (omega arith) (omega arith),
    )
  ]

  left_value-bit :
      (chop shift j b : ℕ)
      → shift ≢ 0
      → shift < 64
      → b < 64
      → chop < j
      → testbit (left_value chop shift arr j) b ≡ array_bit arr (64 * (j - chop) + b - shift)
  left_value-bit chop shift j b ne h hb hj = elim (dec_lt b shift) [
    | yes p ↦ ground (
      arith,
      testbit-bit_or (shl 64 (word arr (j - chop)) shift)
          (shr (word arr (j - 1 - chop)) (64 - shift)) b,
      testbit-shl_below (word arr (j - chop)) shift b p hb,
      testbit-shr (word arr (j - 1 - chop)) (64 - shift) b,
      array_bit-split arr (64 * (j - chop) + b - shift) (j - 1 - chop) (64 - shift + b)
          (omega arith) (omega arith),
    )
    | no p ↦ ground (
      arith,
      testbit-bit_or (shl 64 (word arr (j - chop)) shift)
          (shr (word arr (j - 1 - chop)) (64 - shift)) b,
      testbit-shl (word arr (j - chop)) shift b (omega arith) hb,
      testbit-shr (word arr (j - 1 - chop)) (64 - shift) b,
      testbit-beyond 64 (word arr (j - 1 - chop)) (64 - shift + b) (small (j - 1 - chop))
          (omega arith),
      array_bit-split arr (64 * (j - chop) + b - shift) (j - chop) (b - shift) (omega arith)
          (omega arith),
    )
  ]

-- `result` is an array of words as long as `arr`, and bit `i` of it is `b i`.
pub record Bits (b : ℕ → Bool) (arr : List ℕ) (result : Option (List ℕ)) : Type 0 where
  pub out : List ℕ
  pub returns : result ≡ some out
  pub same_length : length out ≡ length arr
  pub word_size : (j : ℕ) → word out j < 2 ^ 64
  pub each : (i : ℕ) → i < 64 * length arr → array_bit out i ≡ b i

-- An array that is made word by word has the bits of those words.
Made-Bits :
    (v : ℕ → ℕ) (b : ℕ → Bool) (arr : List ℕ) {result : Option (List ℕ)}
    → ((j : ℕ) → j < length arr → v j < 2 ^ 64)
    → ((i : ℕ) → i < 64 * length arr → testbit (v (i / 64)) (i % 64) ≡ b i)
    → Made 0 v arr result
    → Bits b arr result
Made-Bits v b arr small bits m = record {
  out = m.out;
  returns = m.returns;
  same_length = m.same_length;
  word_size = λ j. elim (dec_lt j (length arr)) [
    | yes p ↦ rw (m.each j p) (small j p)
    | no p ↦ rw (get_or-beyond m.out j 0 (omega (arith, m.same_length))) (omega arith)
  ];
  each = λ i h. ap (λ w. testbit w (i % 64)) (m.each (i / 64) (omega arith)) ∙ bits i h;
}

module _ (arr : List ℕ) (small : (j : ℕ) → word arr j < 2 ^ 64) (s : ℕ)
    (fits : s ≤ 64 * length arr) where
  pub right_words-Bits :
      length arr < 2 ^ 31
      → Bits (λ i. array_bit arr (i + s)) arr (right_words (length arr) (s / 64) (s % 64) arr)
  right_words-Bits int_size = elim (ℕ_discrete (s % 64) 0) [
    | yes e ↦
        Made-Bits (λ j. word arr (j + s / 64)) (λ i. array_bit arr (i + s)) arr
          (λ j p. small (j + s / 64))
          (λ i h.
            array_bit-split arr (i + s) (i / 64 + s / 64) (i % 64) (omega arith) (omega arith))
          (right_words_whole arr (s / 64) (s % 64) e int_size (omega arith))
    | no ne ↦
        Made-Bits (right_value (s / 64) (s % 64) arr) (λ i. array_bit arr (i + s)) arr
          (λ j p.
            bit_or-lt 64 (shr (word arr (j + s / 64)) (s % 64))
              (shl 64 (word arr (j + 1 + s / 64)) (64 - s % 64))
              (shr-lt (word arr (j + s / 64)) (s % 64) (small (j + s / 64)))
              (shl-lt (word arr (j + 1 + s / 64)) (64 - s % 64)))
          (λ i h.
            right_value-bit arr small (s / 64) (s % 64) (i / 64) (i % 64) ne (omega arith)
              (omega arith)
            ∙ ap (array_bit arr) {x = 64 * (i / 64 + s / 64) + i % 64 + s % 64} {y = i + s}
                (omega arith))
          (right_words_split arr (s / 64) (s % 64) ne int_size (omega arith) small)
  ]

  -- The bits that a left shift leaves.
  abbrev pub moved_left : ℕ → Bool
  moved_left i = if ltb i s then false else array_bit arr (i - s)

  pub left_words-Bits : Bits moved_left arr (left_words (length arr) (s / 64) (s % 64) arr)
  left_words-Bits = elim (ℕ_discrete (s % 64) 0) [
    | yes e ↦
        Made-Bits (from_index 0 (s / 64) (λ j. word arr (j - s / 64))) moved_left arr
          (λ j p. ground (arith, small (j - s / 64)))
          (λ i h.
            ground (
              arith,
              testbit_zero (i % 64),
              array_bit-split arr (i - s) (i / 64 - s / 64) (i % 64),
            ))
          (left_words_whole arr (s / 64) (s % 64) e (omega arith))
    | no ne ↦
        Made-Bits (from_index 0 (s / 64) (left_edge arr (s / 64) (s % 64))) moved_left arr
          (λ j p. ground (
            arith,
            bit_or-lt 64 (shl 64 (word arr (j - s / 64)) (s % 64))
                (shr (word arr (j - 1 - s / 64)) (64 - s % 64)),
            shr-lt (word arr (j - 1 - s / 64)) (64 - s % 64) (small (j - 1 - s / 64)),
            shl-lt (word arr (j - s / 64)) (s % 64),
            shl-lt (word arr 0) (s % 64),
          ))
          (λ i h. ground (
            arith,
            testbit_zero (i % 64),
            testbit-shl (word arr 0) (s % 64) (i % 64),
            testbit-shl_below (word arr 0) (s % 64) (i % 64),
            array_bit-split arr (i - s) 0 (i % 64 - s % 64),
            left_value-bit arr small (s / 64) (s % 64) (i / 64) (i % 64),
          ))
          (left_words_split arr (s / 64) (s % 64) ne (omega arith))
  ]
