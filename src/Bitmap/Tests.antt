-- ===== src/Bitmap/Tests.antt =====
-- A bitmap of two words: runs of the operations, and the theorems at it.
use uet_ref_prov.Base.{
  ℕ, zero, suc, ◌+◌, ◌^◌, ◌<◌, ◌≡◌, refl, true, false, Option, none, some, [], ◌∷◌, pos, negsuc,
  if◌then◌else◌, ◌==◌, arith, replicate, ctz, clz, popcount, testbit, ltb,
}
use uet_ref_prov.Bitmap.{
  Bitmap, word, bm_create, bm_count, bm_set, bm_get, bm_min, bm_max, bm_shift_left, bm_shift_right,
  bm_extract64, bm_next_set_bit_iter, min_from, max_from, count_words, next_from, extract_from,
}
use uet_ref_prov.Bitmap.Bits.{bit, IsValid}
use uet_ref_prov.Bitmap.Update.{bm_get-bm_set}
use uet_ref_prov.Bitmap.ShiftLaws.{
  Shifted, right_bit, right_datum, left_bit, left_datum, bm_shift_right_lem, bm_shift_left_lem,
}
use uet_ref_prov.Bitmap.Search.{
  IsFirst, IsLast, index_or_minus_one, bm_min_lem, bm_max_lem, bm_next_set_bit_iter_lem,
}
use uet_ref_prov.Bitmap.Extract.{bm_extract64_lem}

-- Bits 2 and 68, with the pointers 7 and 8.
abbrev two_bits : Bitmap ℕ
two_bits = record {
  bit_arr = 4 ∷ 16 ∷ [];
  bit_arr_len = 2;
  data_arr = none ∷ none ∷ some 7 ∷ replicate 125 none;
  size = 128;
}

two_bits-word : (j : ℕ) → word two_bits.bit_arr j < 2 ^ 64
two_bits-word zero = omega arith
two_bits-word (suc zero) = omega arith
two_bits-word (suc (suc j)) = omega arith

two_bits-IsValid : IsValid two_bits
two_bits-IsValid = record {
  words = refl;
  pointers = refl;
  whole = refl;
  int_size = omega arith;
  word_size = two_bits-word;
}

min_run : bm_min two_bits ≡ pos 2
unfolding bm_min min_from ctz
min_run = refl

max_run : bm_max two_bits ≡ pos 68
unfolding bm_max max_from clz
max_run = refl

count_run : bm_count two_bits ≡ 2
unfolding bm_count count_words popcount
count_run = refl

next_run : bm_next_set_bit_iter two_bits 3 ≡ some 68
unfolding bm_next_set_bit_iter next_from ctz
next_run = refl

extract_run : bm_extract64 two_bits (pos 2) ≡ 1
unfolding bm_extract64 extract_from
extract_run = refl

extract_before_run : bm_extract64 two_bits (negsuc 1) ≡ 19
unfolding bm_extract64 extract_from
extract_before_run = refl

create_run : bm_create {D = ℕ} true true true 65 ≡ none
unfolding bm_create
create_run = refl

bm_get-bm_set_example :
    bm_get (bm_set two_bits (pos 70) (some 9)).1 (pos 70)
    ≡ (if 70 == 70 then (true, some (some 9)) else bm_get two_bits (pos 70))
bm_get-bm_set_example =
    bm_get-bm_set two_bits 70 two_bits-IsValid (omega arith) (some 9) 70 (omega arith)

bm_shift_right_example :
    Shifted two_bits (right_bit two_bits 66) (right_datum two_bits 66) (bm_shift_right two_bits 66)
bm_shift_right_example = bm_shift_right_lem two_bits two_bits-IsValid 66 (omega arith)

bm_shift_left_example :
    Shifted two_bits (left_bit two_bits 59) (left_datum two_bits 59) (bm_shift_left two_bits 59)
bm_shift_left_example = bm_shift_left_lem two_bits two_bits-IsValid 59 (omega arith)

bm_min_example :
    (r : Option ℕ) × (bm_min two_bits ≡ index_or_minus_one r) × IsFirst (bit two_bits) 0 128 r
bm_min_example = bm_min_lem two_bits two_bits-IsValid

bm_max_example :
    (r : Option ℕ) × (bm_max two_bits ≡ index_or_minus_one r) × IsLast (bit two_bits) 0 128 r
bm_max_example = bm_max_lem two_bits two_bits-IsValid

bm_next_set_bit_iter_example : IsFirst (bit two_bits) 3 128 (bm_next_set_bit_iter two_bits 3)
bm_next_set_bit_iter_example = bm_next_set_bit_iter_lem two_bits two_bits-IsValid 3 (omega arith)

bm_extract64_example :
    testbit (bm_extract64 two_bits (pos 60)) 8
    ≡ (if ltb (60 + 8) 128 then bit two_bits (60 + 8) else false)
bm_extract64_example = bm_extract64_lem two_bits two_bits-IsValid (pos 60) 8 (omega arith)
