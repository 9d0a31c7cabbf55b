-- ===== src/Bitmap/Extract.antt =====
-- `bm_extract64`, the source of the bits of a SACK, against the bits of the bitmap.
use uet_ref_prov.Base.{
  ℕ, ◌+◌, ◌-◌, ◌/◌, ◌%◌, ◌^◌, ◌≤◌, ◌<◌, ◌≡◌, ap, ◌∙◌, true, false, not, ℤ, pos, negsuc, ltb, leb,
  if◌then◌else◌, arith, get_or-beyond, testbit, testbit_zero, shl, shr, testbit-shr, testbit-beyond,
  testbit-bit_or, testbit-complement, pow2_pos,
}
use uet_ref_prov.Bitmap.{Bitmap, bit64, word, extract_from, bm_extract64}
use uet_ref_prov.Bitmap.Mask.{bit64_lem, pow2-lt}
use uet_ref_prov.Bitmap.Bits.{bit, IsValid}
use uet_ref_prov.Bitmap.ShiftBits.{array_bit-split, testbit-shl, testbit-shl_below}

-- `(1 << m) - 1` has the bits below `m`.
ones_low : (m k : ℕ) → m < 64 → k < m → testbit ((bit64 m + 2 ^ 64 - 1) % 2 ^ 64) k ≡ true
ones_low m k h hk =
    ap (λ w. testbit w k) (omega (arith, bit64_lem m h, pow2-lt m 64 h, pow2_pos m))
    ∙ testbit-complement m 0 k (pow2_pos m) hk
    ∙ ap not (testbit_zero k)

ones_high : (m k : ℕ) → m < 64 → m ≤ k → testbit ((bit64 m + 2 ^ 64 - 1) % 2 ^ 64) k ≡ false
ones_high m k h hk =
    testbit-beyond m ((bit64 m + 2 ^ 64 - 1) % 2 ^ 64) k
      (omega (arith, bit64_lem m h, pow2-lt m 64 h, pow2_pos m)) hk

module _ {ℓ} {D : Type ℓ} where
  module _ (bm : Bitmap D) (v : IsValid bm) where
    clear_beyond : (i : ℕ) → bm.size ≤ i → bit bm i ≡ false
    clear_beyond i h =
        ap (λ w. testbit w (i % 64))
          (get_or-beyond bm.bit_arr (i / 64) 0 (omega (arith, v.whole, v.words)))
        ∙ testbit_zero (i % 64)

    extract_from_lem : (i k : ℕ) → k < 64 → testbit (extract_from bm i) k ≡ bit bm (i + k)
    unfolding extract_from
    extract_from_lem i k h = ground (
      arith,
      v.whole,
      testbit_zero k,
      clear_beyond (i + k),
      testbit-bit_or (shr (word bm.bit_arr (i / 64)) (i % 64))
          (shl 64 (word bm.bit_arr (i / 64 + 1)) (64 - i % 64)) k,
      testbit-shr (word bm.bit_arr (i / 64)) (i % 64) k,
      testbit-beyond 64 (word bm.bit_arr (i / 64)) (i % 64 + k) (v.word_size (i / 64)),
      testbit-shl (word bm.bit_arr (i / 64 + 1)) (64 - i % 64) k,
      testbit-shl_below (word bm.bit_arr (i / 64 + 1)) (64 - i % 64) k,
      array_bit-split bm.bit_arr (i + k) (i / 64) (i % 64 + k),
      array_bit-split bm.bit_arr (i + k) (i / 64 + 1) (k - (64 - i % 64)),
    )

    -- Bit `k` of `bm_extract64(bm, i)` is bit `i + k` of the bitmap; positions before the bitmap
    -- read as 1 and positions behind it as 0.
    pub bm_extract64_lem :
        (i : ℤ) (k : ℕ)
        → k < 64
        → testbit (bm_extract64 bm i) k ≡ elim i [
          | pos a ↦ if ltb (a + k) bm.size then bit bm (a + k) else false
          | negsuc n ↦
              if leb k n
              then true
              else if ltb (k - (n + 1)) bm.size
              then bit bm (k - (n + 1))
              else false
        ]
    unfolding bm_extract64
    bm_extract64_lem (pos a) k h = ground (arith, extract_from_lem a k, clear_beyond (a + k))
    bm_extract64_lem (negsuc n) k h = ground (
      arith,
      testbit-complement 64 0 k (pow2_pos 64),
      testbit_zero k,
      testbit-bit_or (shl 64 (extract_from bm 0) (n + 1)) ((bit64 (n + 1) + 2 ^ 64 - 1) % 2 ^ 64) k,
      ones_low (n + 1) k,
      ones_high (n + 1) k,
      testbit-shl (extract_from bm 0) (n + 1) k,
      testbit-shl_below (extract_from bm 0) (n + 1) k,
      extract_from_lem 0 (k - (n + 1)),
      clear_beyond (k - (n + 1)),
    )
