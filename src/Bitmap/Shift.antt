-- ===== src/Bitmap/Shift.antt =====
-- The shifted arrays, bit by bit and pointer by pointer.
use native.Mathlib.Nat.{div-le_self, zero-div}
use uet_ref_prov.Base.{
  ℕ, ◌+◌, ◌-◌, ◌^◌, ◌≤◌, ◌<◌, ◌≡◌, ◌≢◌, refl, ap, ◌∙◌, subst, inl, inr, some, List, ◌==◌,
  if◌then◌else◌, arith, length, get_elem?, get_or-beyond, get_elem?-eq-get_or, store, fill_up,
  fill_down, Filled, fill_up-Filled, fill_down-Filled, Made, clear_last_down, clear_first, shl, shr,
  bit_or, testbit_ext, testbit-bit_or, testbit_zero, bit_or-lt, ==_false, ==_iff, from_index,
}
use uet_ref_prov.Bitmap.{word, sub32, left_word, right_word, left_words, right_words}
use uet_ref_prov.Bitmap.Words.{
  right_value, left_value, right_word_lem, left_word_lem, moved_down, moved_up, stored_last,
  stored_first,
}

pub bit_or-zero : (w : ℕ) → w < 2 ^ 64 → bit_or w 0 ≡ w
bit_or-zero w h =
    testbit_ext 64 (bit_or w 0) w (bit_or-lt 64 w 0 h (omega arith)) h
      (λ i k. ground (arith, testbit-bit_or w 0 i, testbit_zero i))

pub shr-lt : (w s : ℕ) → w < 2 ^ 64 → shr w s < 2 ^ 64
shr-lt w s h = omega (arith, div-le_self w (2 ^ s))

-- Past the last word there is nothing to bring in from.
right_value_end :
    (arr : List ℕ) (chop shift j : ℕ)
    → length arr ≤ j + 1 + chop
    → word arr (j + chop) < 2 ^ 64
    → right_value chop shift arr j ≡ shr (word arr (j + chop)) shift
right_value_end arr chop shift j h small = rw (get_or-beyond arr (j + 1 + chop) 0 h) (
    ap (bit_or (shr (word arr (j + chop)) shift)) {y = 0} (omega arith)
    ∙ bit_or-zero (shr (word arr (j + chop)) shift) (shr-lt (word arr (j + chop)) shift small))

module _ (arr : List ℕ) (chop shift : ℕ) where
  pub right_words_whole :
      shift ≡ 0
      → length arr < 2 ^ 31
      → chop ≤ length arr
      → Made 0 (λ j. word arr (j + chop)) arr (right_words (length arr) chop shift arr)
  unfolding right_words
  right_words_whole e small h = rw e (
      clear_last_down 0 (λ j. word arr (j + chop)) arr chop
        (fill_up (λ xs i. get_elem? xs (i + chop)) (sub32 (length arr) chop) 0 arr) h
        (moved_down 0 arr chop (sub32 (length arr) chop) (omega arith))
        (λ j p. get_or-beyond arr (j + chop) 0 (omega arith)))

  -- The first words of the other case, once they are copied.
  abbrev RightCopied : Type 0
  RightCopied =
      Filled 0 0 (length arr - 1 - chop) (right_value chop shift arr) arr
        (fill_up (right_word chop shift) (sub32 (sub32 (length arr) 1) chop) 0 arr)

  right_words_finish :
      shift ≢ 0
      → length arr < 2 ^ 31
      → chop < length arr
      → ((j : ℕ) → word arr j < 2 ^ 64)
      → RightCopied
      → Made 0 (right_value chop shift arr) arr (right_words (length arr) chop shift arr)
  unfolding right_words
  right_words_finish ne small h words copied =
      rw
        (
          ==_false shift 0 ne,
          copied.returns,
          get_elem?-eq-get_or copied.out (length arr - 1) 0 (omega (arith, copied.same_length)),
          copied.outside (length arr - 1) (inr (omega arith)),
          same_index,
          ← last_value,
        )
        (clear_last_down 0 (right_value chop shift arr) arr chop
          (store copied.out (length arr - 1 - chop)
            (right_value chop shift arr (length arr - 1 - chop)))
          (omega arith)
          (subst
            (λ n. Filled 0 0 n (right_value chop shift arr) arr (
              store copied.out (length arr - 1 - chop)
                (right_value chop shift arr (length arr - 1 - chop))))
            (omega arith)
            (stored_last 0 (right_value chop shift arr) arr (length arr - 1 - chop) _ (omega arith)
              copied))
          cleared_value)
    where
      same_index : sub32 (sub32 (length arr) 1) chop ≡ length arr - 1 - chop
      same_index = omega arith

      last_value :
          right_value chop shift arr (length arr - 1 - chop) ≡ shr (word arr (length arr - 1)) shift
      last_value =
          right_value_end arr chop shift (length arr - 1 - chop) (omega arith) (words _)
          ∙ ap (λ k. shr (word arr k) shift) (omega arith)

      cleared_value : (j : ℕ) → length arr - chop ≤ j → right_value chop shift arr j ≡ 0
      cleared_value j p =
          right_value_end arr chop shift j (omega arith) (words _)
          ∙ ap (λ w. shr w shift) (get_or-beyond arr (j + chop) 0 (omega arith))
          ∙ zero-div (2 ^ shift)

  pub right_words_split :
      shift ≢ 0
      → length arr < 2 ^ 31
      → chop < length arr
      → ((j : ℕ) → word arr j < 2 ^ 64)
      → Made 0 (right_value chop shift arr) arr (right_words (length arr) chop shift arr)
  right_words_split ne small h words = right_words_finish ne small h words (
      fill_up-Filled 0 (right_word chop shift) (right_value chop shift arr)
        (sub32 (sub32 (length arr) 1) chop) 0 (length arr - 1 - chop) arr (omega arith)
        (omega arith) (λ k p q ys e f. right_word_lem arr chop shift ys k e (omega arith) f))

  pub left_words_whole :
      shift ≡ 0
      → chop ≤ length arr
      → Made 0
          (from_index 0 chop (λ j. word arr (j - chop)))
          arr
          (left_words (length arr) chop shift arr)
  unfolding left_words
  left_words_whole e h = rw e (
      clear_first 0 (λ j. word arr (j - chop)) arr chop
        (fill_down (λ xs i. get_elem? xs (i - chop)) (length arr - chop) (length arr - 1) arr) h
        (moved_up 0 arr chop h))

  -- The word that receives the lowest bits: there is nothing below the first word.
  abbrev pub left_edge : ℕ → ℕ
  left_edge j = if j == chop then shl 64 (word arr 0) shift else left_value chop shift arr j

  abbrev LeftCopied : Type 0
  LeftCopied =
      Filled 0 (chop + 1) (length arr) left_edge arr
        (fill_down (left_word chop shift) (length arr - (chop + 1)) (length arr - 1) arr)

  left_words_finish :
      shift ≢ 0
      → chop < length arr
      → LeftCopied
      → Made 0 (from_index 0 chop left_edge) arr (left_words (length arr) chop shift arr)
  unfolding left_words
  left_words_finish ne h copied =
      rw
        (
          ==_false shift 0 ne,
          copied.returns,
          get_elem?-eq-get_or copied.out 0 0 (omega (arith, copied.same_length)),
          copied.outside 0 (inl (omega arith)),
          ← first_value,
        )
        (clear_first 0 left_edge arr chop (store copied.out chop (left_edge chop)) (omega arith)
          (stored_first 0 left_edge arr chop (length arr) _ h h copied))
    where
      first_value : left_edge chop ≡ shl 64 (word arr 0) shift
      first_value = rw ((==_iff chop chop).1 refl)

  pub left_words_split :
      shift ≢ 0
      → chop < length arr
      → Made 0 (from_index 0 chop left_edge) arr (left_words (length arr) chop shift arr)
  left_words_split ne h = left_words_finish ne h (
      fill_down-Filled 0 (left_word chop shift) left_edge (length arr - (chop + 1)) (chop + 1)
        (length arr) (length arr - 1) arr (omega arith) refl (omega arith)
        (λ k p q ys e f.
          left_word_lem arr chop shift ys k e q f ∙ ap some (rw (==_false k chop (omega arith)))))
