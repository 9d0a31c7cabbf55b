-- ===== src/Bitmap/Bits.antt =====
-- A bitmap as the bits and data that it holds, and what keeps its representation sound.
use uet_ref_prov.Base.{
  ℕ, ◌*◌, ◌/◌, ◌%◌, ◌^◌, ◌≤◌, ◌<◌, ◌≡◌, Bool, false, Option, none, some, pos, arith, length, get_or,
  testbit, ap, ◌∙◌, get_or-replicate, testbit_zero,
}
use uet_ref_prov.Bitmap.{Bitmap, word, bm_get, bm_clear}
use uet_ref_prov.Bitmap.Mask.{mask_test}

module _ {ℓ} {D : Type ℓ} where
  -- Bit `i`, and the pointer beside it.
  abbrev pub bit : Bitmap D → ℕ → Bool
  bit bm i = testbit (word bm.bit_arr (i / 64)) (i % 64)

  abbrev pub datum : Bitmap D → ℕ → Option D
  datum bm i = get_or bm.data_arr i none

  pub record IsValid (bm : Bitmap D) : Type 0 where
    pub words : length bm.bit_arr ≡ bm.bit_arr_len
    pub pointers : length bm.data_arr ≡ bm.size
    pub whole : bm.size ≡ 64 * bm.bit_arr_len
    pub int_size : bm.size < 2 ^ 31
    pub word_size : (j : ℕ) → word bm.bit_arr j < 2 ^ 64

  pub word_in_range : {bm : Bitmap D} → IsValid bm → (i : ℕ) → i < bm.size → i / 64 < bm.bit_arr_len
  word_in_range v i h = omega arith

  pub bm_get_lem :
      (bm : Bitmap D) (i : ℕ)
      → IsValid bm
      → i < bm.size
      → bm_get bm (pos i) ≡ (bit bm i, some (datum bm i))
  unfolding bm_get
  bm_get_lem bm i v h =
      ground (arith, v.word_size (i / 64), mask_test (word bm.bit_arr (i / 64)) (i % 64), v.words)

  pub bm_get_beyond : (bm : Bitmap D) (i : ℕ) → bm.size ≤ i → bm_get bm (pos i) ≡ (false, none)
  unfolding bm_get
  bm_get_beyond bm i h = ground arith

  -- `bm_clear` leaves no bit and no pointer.
  pub bit-bm_clear :
      (bm : Bitmap D) (i : ℕ) → IsValid bm → i < bm.size → bit (bm_clear bm) i ≡ false
  unfolding bm_clear
  bit-bm_clear bm i v h =
      ap (λ (x : ℕ). testbit x (i % 64))
        (get_or-replicate bm.bit_arr_len (i / 64) 0 0 (omega (arith, h, v.whole)))
      ∙ testbit_zero (i % 64)

  pub datum-bm_clear : (bm : Bitmap D) (i : ℕ) → i < bm.size → datum (bm_clear bm) i ≡ none
  unfolding bm_clear
  datum-bm_clear bm i h = get_or-replicate bm.size i none none h
