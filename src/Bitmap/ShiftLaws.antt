-- ===== src/Bitmap/ShiftLaws.antt =====
-- What the two shifts promise, for every count up to the size of the bitmap.
use native.Mathlib.Decide.{dec_lt, ℕ_discrete}
use uet_ref_prov.Base.{
  ℕ, ◌+◌, ◌-◌, ◌/◌, ◌%◌, ◌≤◌, ◌<◌, ◌≡◌, refl, ap, ◌∙◌, Bool, false, subst, Option, none, some, List,
  ltb, if◌then◌else◌, arith, length, get_or, get_elem?, fill_up, fill_down, ◌>>=◌, get_or-beyond,
  testbit, testbit_zero, ==_false, ==_iff, ltb-false, lt→ltb, Made, clear_last_up, clear_first,
  from_index,
}
use uet_ref_prov.Bitmap.{
  Bitmap, right_words, left_words, right_pointers, left_pointers, bm_shift_right, bm_shift_left,
}
use uet_ref_prov.Bitmap.Bits.{bit, datum, IsValid}
use uet_ref_prov.Bitmap.Words.{moved_down, moved_up}
use uet_ref_prov.Bitmap.ShiftBits.{Bits, right_words-Bits, left_words-Bits}

module _ {ℓ} {D : Type ℓ} where
  -- `result` is a valid bitmap of the size of `bm` with the given bits and pointers.
  pub record Shifted (bm : Bitmap D) (b : ℕ → Bool) (p : ℕ → Option D) (result : Option (Bitmap D))
      : Type ℓ where
    pub out : Bitmap D
    pub returns : result ≡ some out
    pub valid : IsValid out
    pub same_size : out.size ≡ bm.size
    pub bits : (i : ℕ) → i < bm.size → bit out i ≡ b i
    pub pointers : (i : ℕ) → i < bm.size → datum out i ≡ p i

  module _ (bm : Bitmap D) (v : IsValid bm) where
    joined :
        (b : ℕ → Bool) (p : ℕ → Option D) (rb : Option (List ℕ)) (rp : Option (List (Option D)))
        → Bits b bm.bit_arr rb
        → Made none p bm.data_arr rp
        → Shifted bm b p (do
          words ← rb
          pointers ← rp
          some (record bm { bit_arr = words; data_arr = pointers }))
    joined b p rb rp w m = record {
      out = record bm { bit_arr = w.out; data_arr = m.out };
      returns = rw (w.returns, m.returns);
      valid = record {
        words = w.same_length ∙ v.words;
        pointers = m.same_length ∙ v.pointers;
        whole = v.whole;
        int_size = v.int_size;
        word_size = w.word_size;
      };
      same_size = refl;
      bits = λ i h. w.each i (omega (arith, v.whole, v.words));
      pointers = λ i h. m.each i (omega (arith, v.pointers));
    }

    bit_beyond : (i : ℕ) → bm.size ≤ i → bit bm i ≡ false
    bit_beyond i h =
        ap (λ w. testbit w (i % 64))
          (get_or-beyond bm.bit_arr (i / 64) 0 (omega (arith, v.whole, v.words)))
        ∙ testbit_zero (i % 64)

    datum_beyond : (i : ℕ) → bm.size ≤ i → datum bm i ≡ none
    datum_beyond i h = get_or-beyond bm.data_arr i none (omega (arith, v.pointers))

  right_pointers-Made :
      (xs : List (Option D)) (s : ℕ)
      → s ≤ length xs
      → Made none (λ i. get_or xs (i + s) none) xs (right_pointers (length xs) s xs)
  unfolding right_pointers
  right_pointers-Made xs s h =
      clear_last_up none (λ i. get_or xs (i + s) none) xs s
        (fill_up (λ ys i. get_elem? ys (i + s)) (length xs - s) 0 xs) h
        (moved_down none xs s (length xs - s) refl)
        (λ j p. get_or-beyond xs (j + s) none (omega arith))

  left_pointers-Made :
      (xs : List (Option D)) (s : ℕ)
      → s ≤ length xs
      → Made none
          (from_index none s (λ i. get_or xs (i - s) none))
          xs
          (left_pointers (length xs) s xs)
  unfolding left_pointers
  left_pointers-Made xs s h =
      clear_first none (λ i. get_or xs (i - s) none) xs s
        (fill_down (λ ys i. get_elem? ys (i - s)) (length xs - s) (length xs - 1) xs) h
        (moved_up none xs s h)

  -- The bits and pointers after a shift by `s`, as positions in the old bitmap.
  abbrev pub right_bit : Bitmap D → ℕ → ℕ → Bool
  right_bit bm s i = if ltb (i + s) bm.size then bit bm (i + s) else false

  abbrev pub right_datum : Bitmap D → ℕ → ℕ → Option D
  right_datum bm s i = if ltb (i + s) bm.size then datum bm (i + s) else none

  abbrev pub left_bit : Bitmap D → ℕ → ℕ → Bool
  left_bit bm s i = if ltb i s then false else bit bm (i - s)

  abbrev pub left_datum : Bitmap D → ℕ → ℕ → Option D
  left_datum bm s i = if ltb i s then none else datum bm (i - s)

  Shifted-ext :
      (bm : Bitmap D) {b b' : ℕ → Bool} {p p' : ℕ → Option D} {r : Option (Bitmap D)}
      → ((i : ℕ) → b i ≡ b' i)
      → ((i : ℕ) → p i ≡ p' i)
      → Shifted bm b p r
      → Shifted bm b' p' r
  Shifted-ext bm e f s = record {
    out = s.out;
    returns = s.returns;
    valid = s.valid;
    same_size = s.same_size;
    bits = λ i h. s.bits i h ∙ e i;
    pointers = λ i h. s.pointers i h ∙ f i;
  }

  module _ (bm : Bitmap D) (v : IsValid bm) (s : ℕ) (fits : s ≤ bm.size) where
    right-Shifted :
        Shifted bm
          (λ i. bit bm (i + s))
          (λ i. datum bm (i + s))
          (do
            words ← right_words bm.bit_arr_len (s / 64) (s % 64) bm.bit_arr
            pointers ← right_pointers bm.size s bm.data_arr
            some (record bm { bit_arr = words; data_arr = pointers }))
    right-Shifted =
        joined bm v (λ i. bit bm (i + s)) (λ i. datum bm (i + s)) _ _
          (subst
            (λ n.
              Bits (λ i. bit bm (i + s)) bm.bit_arr (right_words n (s / 64) (s % 64) bm.bit_arr))
            v.words
            (right_words-Bits bm.bit_arr v.word_size s (omega (arith, v.whole, v.words))
              (omega (arith, v.whole, v.words, v.int_size))))
          (subst
            (λ n. Made none (λ i. datum bm (i + s)) bm.data_arr (right_pointers n s bm.data_arr))
            v.pointers (right_pointers-Made bm.data_arr s (omega (arith, v.pointers))))

    left-Shifted : Shifted bm (left_bit bm s) (left_datum bm s) (do
      words ← left_words bm.bit_arr_len (s / 64) (s % 64) bm.bit_arr
      pointers ← left_pointers bm.size s bm.data_arr
      some (record bm { bit_arr = words; data_arr = pointers }))
    left-Shifted =
        joined bm v (left_bit bm s) (left_datum bm s) _ _
          (subst (λ n. Bits (left_bit bm s) bm.bit_arr (left_words n (s / 64) (s % 64) bm.bit_arr))
            v.words (left_words-Bits bm.bit_arr v.word_size s (omega (arith, v.whole, v.words))))
          (subst (λ n. Made none (left_datum bm s) bm.data_arr (left_pointers n s bm.data_arr))
            v.pointers (left_pointers-Made bm.data_arr s (omega (arith, v.pointers))))

    right_bit_lem : (i : ℕ) → bit bm (i + s) ≡ right_bit bm s i
    right_bit_lem i = elim (dec_lt (i + s) bm.size) [
      | yes p ↦ rw (lt→ltb (i + s) bm.size p)
      | no p ↦ rw (ltb-false (i + s) bm.size (omega arith)) (bit_beyond bm v (i + s) (omega arith))
    ]

    right_datum_lem : (i : ℕ) → datum bm (i + s) ≡ right_datum bm s i
    right_datum_lem i = elim (dec_lt (i + s) bm.size) [
      | yes p ↦ rw (lt→ltb (i + s) bm.size p)
      | no p ↦
          rw (ltb-false (i + s) bm.size (omega arith)) (datum_beyond bm v (i + s) (omega arith))
    ]

    -- A shift by 0 returns at once.
    unshifted :
        (b : ℕ → Bool) (p : ℕ → Option D)
        → ((i : ℕ) → bit bm i ≡ b i)
        → ((i : ℕ) → datum bm i ≡ p i)
        → Shifted bm b p (some bm)
    unshifted b p e f = record {
      out = bm;
      returns = refl;
      valid = v;
      same_size = refl;
      bits = λ i h. e i;
      pointers = λ i h. f i;
    }

    -- A right shift by at most `size` does not leave the arrays, keeps the bitmap valid and its
    -- size, and moves bit and pointer `i + s` to `i`; from `size - s` on the bits are clear and the
    -- pointers null.
    pub bm_shift_right_lem : Shifted bm (right_bit bm s) (right_datum bm s) (bm_shift_right bm s)
    unfolding bm_shift_right
    bm_shift_right_lem = elim (ℕ_discrete s 0) [
      | yes e ↦ rw ((==_iff s 0).1 e) (
          unshifted (right_bit bm s) (right_datum bm s)
            (λ i. ap (bit bm) {x = i} {y = i + s} (omega arith) ∙ right_bit_lem i)
            (λ i. ap (datum bm) {x = i} {y = i + s} (omega arith) ∙ right_datum_lem i))
      | no ne ↦ rw (==_false s 0 ne) (Shifted-ext bm right_bit_lem right_datum_lem right-Shifted)
    ]

    -- A left shift by at most `size` does not leave the arrays, keeps the bitmap valid and its
    -- size, and moves bit and pointer `i - s` to `i`; below `s` the bits are clear and the pointers
    -- null.
    pub bm_shift_left_lem : Shifted bm (left_bit bm s) (left_datum bm s) (bm_shift_left bm s)
    unfolding bm_shift_left
    bm_shift_left_lem = elim (ℕ_discrete s 0) [
      | yes e ↦ rw ((==_iff s 0).1 e) (
          unshifted (left_bit bm s) (left_datum bm s)
            (λ i. rw (ltb-false i s (omega arith)) (ap (bit bm) {x = i} {y = i - s} (omega arith)))
            (λ i.
              rw (ltb-false i s (omega arith)) (ap (datum bm) {x = i} {y = i - s} (omega arith))))
      | no ne ↦ rw (==_false s 0 ne) left-Shifted
    ]
