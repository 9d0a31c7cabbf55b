-- ===== src/Bitmap/Search.antt =====
-- `bm_min`, `bm_max` and `bm_next_set_bit_iter` against the bits of the bitmap.
use native.Mathlib.Decide.{dec_lt, ℕ_discrete}
use mathlib.Core.Bool.{false≢true}
use uet_ref_prov.Base.{
  leb-true, ℕ, zero, suc, ◌+◌, ◌-◌, ◌*◌, ◌/◌, ◌%◌, ◌^◌, ◌≤◌, ◌<◌, ◌≡◌, ◌≢◌, refl, sym, ap, ◌∙◌,
  subst, Bool, true, false, Option, none, some, List, ℤ, pos, negsuc, leb, arith, testbit,
  testbit_zero, shr, testbit-shr, testbit-beyond, ctz, clz, ctz-lt, testbit-ctz, testbit-below_ctz,
  clz-lt, testbit-clz, testbit-above_clz, ==_false, ==_iff,
}
use uet_ref_prov.Bitmap.{
  Bitmap, word, min_from, bm_min, max_from, bm_max, next_from, bm_next_set_bit_iter,
}
use uet_ref_prov.Bitmap.Bits.{bit, IsValid}
use uet_ref_prov.Bitmap.Shift.{shr-lt}
use uet_ref_prov.Bitmap.ShiftBits.{array_bit, array_bit-split}

-- `r` is the first, or the last, index from `lo` to `hi - 1` at which `b` holds; `none` if there is
-- none.
abbrev pub IsFirst : (ℕ → Bool) → ℕ → ℕ → Option ℕ → Type 0
IsFirst b lo hi none = (k : ℕ) → lo ≤ k → k < hi → b k ≡ false
IsFirst b lo hi (some m) =
    (lo ≤ m) × (m < hi) × (b m ≡ true) × ((k : ℕ) → lo ≤ k → k < m → b k ≡ false)

abbrev pub IsLast : (ℕ → Bool) → ℕ → ℕ → Option ℕ → Type 0
IsLast b lo hi none = (k : ℕ) → lo ≤ k → k < hi → b k ≡ false
IsLast b lo hi (some m) =
    (lo ≤ m) × (m < hi) × (b m ≡ true) × ((k : ℕ) → m < k → k < hi → b k ≡ false)

-- An index, or -1.
abbrev pub index_or_minus_one : Option ℕ → ℤ
index_or_minus_one none = negsuc 0
index_or_minus_one (some m) = pos m

module _ (arr : List ℕ) (small : (j : ℕ) → word arr j < 2 ^ 64) where
  -- The bits of a word, at their places in the array.
  word_clear : (j k : ℕ) → word arr j ≡ 0 → k / 64 ≡ j → array_bit arr k ≡ false
  word_clear j k e f = ap (λ w. testbit w (k % 64)) (ap (word arr) f ∙ e) ∙ testbit_zero (k % 64)

  lowest :
      (j : ℕ)
      → word arr j ≢ 0
      → IsFirst (array_bit arr) (64 * j) (64 * j + 64) (some (j * 64 + ctz 64 (word arr j)))
  lowest j ne = (
    omega arith,
    omega (arith, ctz-lt 64 (word arr j) (small j) ne),
    sym (
          array_bit-split arr (j * 64 + ctz 64 (word arr j)) j (ctz 64 (word arr j))
            (omega (arith, ctz-lt 64 (word arr j) (small j) ne))
            (omega (arith, ctz-lt 64 (word arr j) (small j) ne)))
        ∙ testbit-ctz 64 (word arr j) (small j) ne,
    λ k p q.
        sym (
          array_bit-split arr k j (k % 64) (omega (arith, ctz-lt 64 (word arr j) (small j) ne))
            refl)
        ∙ testbit-below_ctz 64 (word arr j) (k % 64)
            (omega (arith, ctz-lt 64 (word arr j) (small j) ne)),
  )

  -- A search that goes on from the next word.
  IsFirst-skip :
      (j hi : ℕ) (r : Option ℕ)
      → word arr j ≡ 0
      → IsFirst (array_bit arr) (64 * (j + 1)) hi r
      → IsFirst (array_bit arr) (64 * j) hi r
  IsFirst-skip j hi none e f = λ k p q. elim (dec_lt k (64 * (j + 1))) [
    | yes h ↦ word_clear j k e (omega arith)
    | no h ↦ f k (omega arith) q
  ]
  IsFirst-skip j hi (some m) e f = (
    omega arith,
    f.1,
    f.2,
    λ k p q. elim (dec_lt k (64 * (j + 1))) [
      | yes h ↦ word_clear j k e (omega arith)
      | no h ↦ f.3 k (omega arith) q
    ],
  )

  IsFirst-widen :
      (lo hi hi' m : ℕ)
      → hi ≤ hi'
      → IsFirst (array_bit arr) lo hi (some m)
      → IsFirst (array_bit arr) lo hi' (some m)
  IsFirst-widen lo hi hi' m h f = (f.0, omega (arith, f.1), f.2, f.3)

  next_from-IsFirst :
      (n j hi : ℕ) → hi ≡ 64 * (j + n) → IsFirst (array_bit arr) (64 * j) hi (next_from n j arr)
  unfolding next_from
  next_from-IsFirst zero j hi e = λ k p q. absurd (omega arith)
  next_from-IsFirst (suc n) j hi e = elim (ℕ_discrete (word arr j) 0) [
    | yes z ↦ rw ((==_iff (word arr j) 0).1 z) (
        IsFirst-skip j hi (next_from n (j + 1) arr) z
          (next_from-IsFirst n (j + 1) hi (omega arith)))
    | no nz ↦ rw (==_false (word arr j) 0 nz) (
        IsFirst-widen (64 * j) (64 * j + 64) hi (j * 64 + ctz 64 (word arr j)) (omega arith)
          (lowest j nz))
  ]

  -- `bm_min` and the iterator run the same search.
  min_from-next_from : (n j : ℕ) → min_from n j arr ≡ index_or_minus_one (next_from n j arr)
  unfolding min_from next_from
  min_from-next_from zero j = refl
  min_from-next_from (suc n) j = ground (arith, min_from-next_from n (j + 1))

  highest :
      (j : ℕ)
      → word arr j ≢ 0
      → IsLast (array_bit arr) (64 * j) (64 * j + 64) (some (63 - clz 64 (word arr j) + j * 64))
  highest j ne =
      let top = clz-lt 64 (word arr j) (small j) ne in
      (
        omega arith,
        omega arith,
        sym (
              array_bit-split arr (63 - clz 64 (word arr j) + j * 64) j (63 - clz 64 (word arr j))
                (omega arith) (omega arith))
            ∙ testbit-clz 64 (word arr j) (small j) ne,
        λ k p q.
            sym (array_bit-split arr k j (k % 64) (omega arith) refl)
            ∙ testbit-above_clz 64 (word arr j) (k % 64) (omega arith) (omega arith),
      )

  -- A search that goes on from the word below.
  IsLast-skip :
      (j : ℕ) (r : Option ℕ)
      → word arr j ≡ 0
      → IsLast (array_bit arr) 0 (64 * j) r
      → IsLast (array_bit arr) 0 (64 * suc j) r
  IsLast-skip j none e f =
      λ k p q. elim (dec_lt k (64 * j)) [ yes h ↦ f k p h | no h ↦ word_clear j k e (omega arith) ]
  IsLast-skip j (some m) e f = (
    f.0,
    omega (arith, f.1),
    f.2,
    λ k p q. elim (dec_lt k (64 * j)) [ yes h ↦ f.3 k p h | no h ↦ word_clear j k e (omega arith) ],
  )

  max_from-IsLast :
      (j : ℕ)
      → (r : Option ℕ) × (max_from j arr ≡ index_or_minus_one r)
        × IsLast (array_bit arr) 0 (64 * j) r
  unfolding max_from
  max_from-IsLast zero = (none, refl, λ k p q. absurd (omega arith))
  max_from-IsLast (suc j) = elim (ℕ_discrete (word arr j) 0) [
    | yes z ↦
        let ih = max_from-IsLast j in
        (ih.0, rw ((==_iff (word arr j) 0).1 z) ih.1, IsLast-skip j ih.0 z ih.2)
    | no nz ↦
        let top = highest j nz in
        (
          some (63 - clz 64 (word arr j) + j * 64),
          rw (==_false (word arr j) 0 nz),
          (omega arith, omega (arith, top.1), top.2, λ k p q. top.3 k p (omega arith)),
        )
  ]

  -- The bits from `i` to the end of its word are those of the shifted word.
  tail_bit :
      (i k : ℕ)
      → i ≤ k
      → k < 64 * (i / 64) + 64
      → array_bit arr k ≡ testbit (shr (word arr (i / 64)) (i % 64)) (k - i)
  tail_bit i k p q =
      sym (array_bit-split arr k (i / 64) (i % 64 + (k - i)) (omega arith) (omega arith))
      ∙ sym (testbit-shr (word arr (i / 64)) (i % 64) (k - i))

  shifted-lt : (i : ℕ) → shr (word arr (i / 64)) (i % 64) < 2 ^ 64
  shifted-lt i = shr-lt (word arr (i / 64)) (i % 64) (small (i / 64))

  -- The lowest bit of the shifted word comes from within the word.
  stays_in_word :
      (i : ℕ)
      → shr (word arr (i / 64)) (i % 64) ≢ 0
      → i % 64 + ctz 64 (shr (word arr (i / 64)) (i % 64)) < 64
  stays_in_word i ne = elim (dec_lt (i % 64 + ctz 64 (shr (word arr (i / 64)) (i % 64))) 64) [
    | yes h ↦ h
    | no h ↦ absurd (
        false≢true (
          sym (
            testbit-beyond 64 (word arr (i / 64))
              (i % 64 + ctz 64 (shr (word arr (i / 64)) (i % 64))) (small (i / 64)) (omega arith))
          ∙ sym
              (testbit-shr (word arr (i / 64)) (i % 64) (ctz 64 (shr (word arr (i / 64)) (i % 64))))
          ∙ testbit-ctz 64 (shr (word arr (i / 64)) (i % 64)) (shifted-lt i) ne))
  ]

  -- The iterator's first step: the rest of the word that holds bit `i`.
  IsFirst-here :
      (i : ℕ)
      → shr (word arr (i / 64)) (i % 64) ≢ 0
      → IsFirst
          (array_bit arr)
          i
          (64 * (i / 64) + 64)
          (some (i + ctz 64 (shr (word arr (i / 64)) (i % 64))))
  IsFirst-here i ne =
      let w = shr (word arr (i / 64)) (i % 64) in
      let room = stays_in_word i ne in
      (
        omega arith,
        omega arith,
        tail_bit i (i + ctz 64 w) (omega arith) (omega arith)
            ∙ ap (testbit w) {x = i + ctz 64 w - i} {y = ctz 64 w} (omega arith)
            ∙ testbit-ctz 64 w (shifted-lt i) ne,
        λ k p q. tail_bit i k p (omega arith) ∙ testbit-below_ctz 64 w (k - i) (omega arith),
      )

  IsFirst-later :
      (i hi : ℕ) (r : Option ℕ)
      → shr (word arr (i / 64)) (i % 64) ≡ 0
      → IsFirst (array_bit arr) (64 * (i / 64 + 1)) hi r
      → IsFirst (array_bit arr) i hi r
  IsFirst-later i hi none e f = λ k p q. elim (dec_lt k (64 * (i / 64 + 1))) [
    | yes h ↦ tail_bit i k p (omega arith) ∙ ap (λ w. testbit w (k - i)) e ∙ testbit_zero (k - i)
    | no h ↦ f k (omega arith) q
  ]
  IsFirst-later i hi (some m) e f = (
    omega (arith, f.0),
    f.1,
    f.2,
    λ k p q. elim (dec_lt k (64 * (i / 64 + 1))) [
      | yes h ↦ tail_bit i k p (omega arith) ∙ ap (λ w. testbit w (k - i)) e ∙ testbit_zero (k - i)
      | no h ↦ f.3 k (omega arith) q
    ],
  )

module _ {ℓ} {D : Type ℓ} (bm : Bitmap D) (v : IsValid bm) where
  -- `bm_min` returns the lowest index whose bit is set, and -1 exactly if no bit is.
  pub bm_min_lem :
      (r : Option ℕ) × (bm_min bm ≡ index_or_minus_one r) × IsFirst (bit bm) 0 bm.size r
  unfolding bm_min
  bm_min_lem = (
    next_from bm.bit_arr_len 0 bm.bit_arr,
    min_from-next_from bm.bit_arr v.word_size bm.bit_arr_len 0,
    next_from-IsFirst bm.bit_arr v.word_size bm.bit_arr_len 0 bm.size (omega (arith, v.whole)),
  )

  -- `bm_max` returns the highest index whose bit is set, and -1 exactly if no bit is.
  pub bm_max_lem : (r : Option ℕ) × (bm_max bm ≡ index_or_minus_one r) × IsLast (bit bm) 0 bm.size r
  unfolding bm_max
  bm_max_lem =
      let found = max_from-IsLast bm.bit_arr v.word_size bm.bit_arr_len in
      (found.0, found.1, subst (λ n. IsLast (bit bm) 0 n found.0) (sym v.whole) found.2)

  -- From any index of the bitmap on, `bm_next_set_bit_iter` finds the next bit that is set, and
  -- reports the end exactly if there is none.
  pub bm_next_set_bit_iter_lem :
      (i : ℕ) → i < bm.size → IsFirst (bit bm) i bm.size (bm_next_set_bit_iter bm i)
  unfolding bm_next_set_bit_iter
  bm_next_set_bit_iter_lem i h =
      let in_range : leb bm.bit_arr_len (i / 64) ≡ false = ground (arith, v.whole) in
      elim (ℕ_discrete (shr (word bm.bit_arr (i / 64)) (i % 64)) 0) [
        | yes z ↦
            rw (in_range, (==_iff (shr (word bm.bit_arr (i / 64)) (i % 64)) 0).1 z)
              (IsFirst-later bm.bit_arr v.word_size i bm.size _ z (
                next_from-IsFirst bm.bit_arr v.word_size (bm.bit_arr_len - (i / 64 + 1))
                  (i / 64 + 1) bm.size (omega (arith, v.whole))))
        | no nz ↦
            rw (in_range, ==_false (shr (word bm.bit_arr (i / 64)) (i % 64)) 0 nz)
              (IsFirst-widen bm.bit_arr v.word_size i (64 * (i / 64) + 64) bm.size _
                (omega (arith, v.whole)) (IsFirst-here bm.bit_arr v.word_size i nz))
      ]

  -- Behind the last index there is none.
  pub bm_next_set_bit_iter_end : bm_next_set_bit_iter bm bm.size ≡ none
  unfolding bm_next_set_bit_iter
  bm_next_set_bit_iter_end = rw (leb-true bm.bit_arr_len (bm.size / 64) (omega (arith, v.whole)))
