-- ===== src/Bitmap/Update.antt =====
-- `bm_set` and `bm_unset` against `bm_get`.
use uet_ref_prov.Base.{
  ℕ, ◌/◌, ◌%◌, ◌^◌, ◌<◌, ◌≡◌, refl, ◌∙◌, Bool, true, false, not, ◌&&◌, ◌||◌, Option, none, some,
  pos, ◌==◌, if◌then◌else◌, Bool-cases, ==_iff, ==_ne, inl, inr, arith, set, length-set,
  get_or-set_self, get_or-set_ne, complement, bit_and, bit_or, bit_or-lt, bit_and-le,
}
use uet_ref_prov.Bitmap.{Bitmap, bit64, word, bm_get, bm_set, bm_unset}
use uet_ref_prov.Bitmap.Mask.{bit64-lt, testbit-set_mask, testbit-clear_mask}
use uet_ref_prov.Bitmap.Bits.{bit, datum, IsValid, bm_get_lem}

-- A read at `j` after a write at `i`, by whether `i == j`.
module _ {ℓ} {D : Type ℓ} where
  read_set :
      (b c : Bool) (p q : Option D)
      → ◌≡◌ {A = Bool × Option (Option D)}
          (b || c, some (if c then p else q))
          (if c then (true, some p) else (b, some q))
  read_set true true p q = refl
  read_set true false p q = refl
  read_set false true p q = refl
  read_set false false p q = refl

  read_unset :
      (b c : Bool) (q : Option D)
      → ◌≡◌ {A = Bool × Option (Option D)}
          (b && not c, some (if c then none else q))
          (if c then (false, some none) else (b, some q))
  read_unset true true q = refl
  read_unset true false q = refl
  read_unset false true q = refl
  read_unset false false q = refl

module _ {ℓ} {D : Type ℓ} (bm : Bitmap D) (i : ℕ) where
  -- The bitmap with the word of bit `i` and its pointer written.
  abbrev written : ℕ → Option D → Bitmap D
  written w p = record bm { bit_arr = set bm.bit_arr (i / 64) w; data_arr = set bm.data_arr i p }

  -- The words that `bm_set` and `bm_unset` write.
  abbrev with_bit : ℕ
  with_bit = bit_or (word bm.bit_arr (i / 64)) (bit64 (i % 64))

  abbrev without_bit : ℕ
  without_bit = bit_and (word bm.bit_arr (i / 64)) (complement 64 (bit64 (i % 64)))

  module _ (v : IsValid bm) (h : i < bm.size) where
    bm_set_lem : (p : Option D) → bm_set bm (pos i) p ≡ (true, written with_bit p)
    unfolding bm_set
    bm_set_lem p = ground (arith, v.whole)

    bm_unset_lem : bm_unset bm (pos i) ≡ written without_bit none
    unfolding bm_unset
    bm_unset_lem = ground (arith, v.whole)

    word-written :
        (w j : ℕ) (p : Option D)
        → word (written w p).bit_arr j ≡ (if i / 64 == j then w else word bm.bit_arr j)
    word-written w j p = ground (
      arith,
      v.words,
      v.whole,
      get_or-set_self bm.bit_arr (i / 64) w 0,
      get_or-set_ne bm.bit_arr (i / 64) j w 0,
    )

    datum-written :
        (w j : ℕ) (p : Option D) → datum (written w p) j ≡ (if i == j then p else datum bm j)
    datum-written w j p = elim (Bool-cases (i == j)) [
      | inl e ↦
          rw (e, ← (==_iff i j).0 e)
            (get_or-set_self bm.data_arr i p none (omega (arith, v.pointers)))
      | inr e ↦ rw e (get_or-set_ne bm.data_arr i j p none (==_ne i j e))
    ]

    written-IsValid : (w : ℕ) (p : Option D) → w < 2 ^ 64 → IsValid (written w p)
    written-IsValid w p small = record {
      words = length-set bm.bit_arr (i / 64) w ∙ v.words;
      pointers = length-set bm.data_arr i p ∙ v.pointers;
      whole = v.whole;
      int_size = v.int_size;
      word_size = λ j. ground (arith, word-written w j p, v.word_size j);
    }

    bit-with : (j : ℕ) (p : Option D) → bit (written with_bit p) j ≡ (bit bm j || i == j)
    bit-with j p = ground (
      arith,
      word-written with_bit (j / 64) p,
      testbit-set_mask (word bm.bit_arr (i / 64)) (i % 64) (j % 64),
    )

    bit-without : (j : ℕ) → bit (written without_bit none) j ≡ (bit bm j && not (i == j))
    bit-without j = ground (
      arith,
      word-written without_bit (j / 64) none,
      testbit-clear_mask (word bm.bit_arr (i / 64)) (i % 64) (j % 64),
    )

    with_bit-lt : with_bit < 2 ^ 64
    with_bit-lt =
        bit_or-lt 64 (word bm.bit_arr (i / 64)) (bit64 (i % 64)) (v.word_size (i / 64))
          (bit64-lt (i % 64) (omega arith))

    without_bit-lt : without_bit < 2 ^ 64
    without_bit-lt = omega (
      arith,
      v.word_size (i / 64),
      bit_and-le 64 (word bm.bit_arr (i / 64)) (complement 64 (bit64 (i % 64)))
          (v.word_size (i / 64)),
    )

    -- `bm_set` and `bm_unset` in range keep a bitmap valid.
    pub bm_set-IsValid : (p : Option D) → IsValid (bm_set bm (pos i) p).1
    bm_set-IsValid p = rw (bm_set_lem p) (written-IsValid with_bit p with_bit-lt)

    pub bm_unset-IsValid : IsValid (bm_unset bm (pos i))
    bm_unset-IsValid = rw bm_unset_lem (written-IsValid without_bit none without_bit-lt)

    -- What they leave of the size, the bits and the pointers.
    pub bm_set-returns : (p : Option D) → (bm_set bm (pos i) p).0 ≡ true
    bm_set-returns p = rw (bm_set_lem p)

    pub size-bm_set : (p : Option D) → (bm_set bm (pos i) p).1.size ≡ bm.size
    size-bm_set p = rw (bm_set_lem p)

    pub bit-bm_set : (p : Option D) (j : ℕ) → bit (bm_set bm (pos i) p).1 j ≡ (bit bm j || i == j)
    bit-bm_set p j = rw (bm_set_lem p) (bit-with j p)

    pub datum-bm_set :
        (p : Option D) (j : ℕ)
        → datum (bm_set bm (pos i) p).1 j ≡ (if i == j then p else datum bm j)
    datum-bm_set p j = rw (bm_set_lem p) (datum-written with_bit j p)

    pub size-bm_unset : (bm_unset bm (pos i)).size ≡ bm.size
    size-bm_unset = rw bm_unset_lem

    pub bit-bm_unset : (j : ℕ) → bit (bm_unset bm (pos i)) j ≡ (bit bm j && not (i == j))
    bit-bm_unset j = rw bm_unset_lem (bit-without j)

    pub datum-bm_unset :
        (j : ℕ) → datum (bm_unset bm (pos i)) j ≡ (if i == j then none else datum bm j)
    datum-bm_unset j = rw bm_unset_lem (datum-written without_bit j none)

    -- After `bm_set` at `i`, `bm_get` finds bit `i` set with the new pointer, and every other index
    -- of the bitmap as before.
    pub bm_get-bm_set :
        (p : Option D) (j : ℕ)
        → j < bm.size
        → bm_get (bm_set bm (pos i) p).1 (pos j)
          ≡ (if i == j then (true, some p) else bm_get bm (pos j))
    bm_get-bm_set p j hj =
        rw
          (
            bm_set_lem p,
            bm_get_lem (written with_bit p) j (written-IsValid with_bit p with_bit-lt) hj,
            bm_get_lem bm j v hj,
            bit-with j p,
            datum-written with_bit j p,
          )
          (read_set (bit bm j) (i == j) p (datum bm j))

    -- After `bm_unset` at `i`, `bm_get` finds bit `i` clear with a null pointer, and every other
    -- index of the bitmap as before.
    pub bm_get-bm_unset :
        (j : ℕ)
        → j < bm.size
        → bm_get (bm_unset bm (pos i)) (pos j)
          ≡ (if i == j then (false, some none) else bm_get bm (pos j))
    bm_get-bm_unset j hj =
        rw
          (
            bm_unset_lem,
            bm_get_lem (written without_bit none) j
                (written-IsValid without_bit none without_bit-lt) hj,
            bm_get_lem bm j v hj,
            bit-without j,
            datum-written without_bit j none,
          )
          (read_unset (bit bm j) (i == j) (datum bm j))
