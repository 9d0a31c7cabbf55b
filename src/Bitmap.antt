-- ===== src/Bitmap.antt =====
-- util/bitmap.h and util/bitmap.c: a bitmap of 64-bit words with a data pointer for each bit.
-- A `void *` is an `Option D`, NULL being `none`; an `int` argument that the code tests against 0
-- is an integer. A shift returns `none` where the C code would leave one of the arrays.
mod Mask
pub mod Bits
pub mod Update
mod Words
mod Shift
mod ShiftBits
pub mod ShiftLaws
pub mod Search
pub mod Extract
mod Tests
use uet_ref_prov.Base.{
  ℕ, zero, suc, ◌+◌, ◌-◌, ◌*◌, ◌/◌, ◌%◌, ◌^◌, Bool, true, false, not, ◌&&◌, Option, none, some,
  List, ℤ, pos, negsuc, ltb, leb, ◌==◌, if◌then◌else◌, get_or, set, replicate, get_elem?, store,
  fill_up, fill_down, ◌>>=◌, shl, shr, complement, bit_and, bit_or, popcount, ctz, clz,
}

pub record Bitmap {ℓ} (D : Type ℓ) : Type ℓ where
  pub bit_arr : List ℕ  -- uint64_t
  pub bit_arr_len : ℕ
  pub data_arr : List (Option D)
  pub size : ℕ

-- `(uint64_t)1 << k`
abbrev pub bit64 : ℕ → ℕ
bit64 k = shl 64 1 k

-- `a - b` on `uint32_t`, for operands below 2 ^ 32
abbrev pub sub32 : ℕ → ℕ → ℕ
sub32 a b = (a + 2 ^ 32 - b) % 2 ^ 32

-- the word that holds bit `i` (a guarded read; 0 outside the array)
abbrev pub word : List ℕ → ℕ → ℕ
word arr idx = get_or arr idx 0

-- `for (; n rounds; i++) total += popcount(bit_arr[i])`
pub count_words : ℕ → ℕ → ℕ → List ℕ → ℕ
count_words zero i total arr = total
count_words (suc n) i total arr = count_words n (i + 1) (total + popcount 64 (word arr i)) arr

-- the loop of `bm_min` from word `i`, with `n` words left
pub min_from : ℕ → ℕ → List ℕ → ℤ
min_from zero i arr = negsuc 0
min_from (suc n) i arr =
    let rest = min_from n (i + 1) arr in
    if not (word arr i == 0) then pos (ctz 64 (word arr i) + i * 64) else rest

-- the loop of `bm_max` at `i`, down to 1
pub max_from : ℕ → List ℕ → ℤ
max_from zero arr = negsuc 0
max_from (suc i) arr =
    let rest = max_from i arr in
    if not (word arr i == 0) then pos (63 - clz 64 (word arr i) + i * 64) else rest

-- what the two loops of a shift store at index `i`
pub left_word : ℕ → ℕ → List ℕ → ℕ → Option ℕ
left_word chop shift arr i = do
  high ← get_elem? arr (i - chop)
  low ← get_elem? arr (i - 1 - chop)
  some (bit_or (shl 64 high shift) (shr low (64 - shift)))

pub right_word : ℕ → ℕ → List ℕ → ℕ → Option ℕ
right_word chop shift arr i = do
  low ← get_elem? arr (i + chop)
  high ← get_elem? arr (i + 1 + chop)
  some (bit_or (shr low shift) (shl 64 high (64 - shift)))

-- The words of `bm_shift_left`: the copying loop, `bit_arr[chop_words]`, and the cleared words.
pub left_words : ℕ → ℕ → ℕ → List ℕ → Option (List ℕ)
left_words len chop shift arr = do
  moved ←
      if shift == 0
      then fill_down (λ xs i. get_elem? xs (i - chop)) (len - chop) (len - 1) arr
      else do
        copied ← fill_down (left_word chop shift) (len - (chop + 1)) (len - 1) arr
        first ← get_elem? copied 0
        store copied chop (shl 64 first shift)
  fill_up (λ xs i. some 0) chop 0 moved

-- `len - chop` and `len - 1 - chop` are unsigned. The words cleared at the end are those from
-- `len - chop` to `len - 1`, which the code visits downwards.
pub right_words : ℕ → ℕ → ℕ → List ℕ → Option (List ℕ)
right_words len chop shift arr = do
  moved ←
      if shift == 0 then fill_up (λ xs i. get_elem? xs (i + chop)) (sub32 len chop) 0 arr else do
        copied ← fill_up (right_word chop shift) (sub32 (sub32 len 1) chop) 0 arr
        last ← get_elem? copied (len - 1)
        store copied (sub32 (sub32 len 1) chop) (shr last shift)
  fill_down (λ xs i. some 0) chop (len - 1) moved

-- the loop of `bm_next_set_bit_iter` from word `idx`, with `n` words left
pub next_from : ℕ → ℕ → List ℕ → Option ℕ
next_from zero idx arr = none
next_from (suc n) idx arr =
    let rest = next_from n (idx + 1) arr in
    if word arr idx == 0 then rest else some (idx * 64 + ctz 64 (word arr idx))

module _ {ℓ} {D : Type ℓ} where
  -- `made`, `bits_made` and `data_made` say whether the three allocations succeed.
  pub bm_create : Bool → Bool → Bool → ℕ → Option (Bitmap D)
  bm_create made bits_made data_made size =
      if not (size % 64 == 0)
      then none
      else if not (made && bits_made && data_made)
      then none
      else some (record {
        bit_arr = replicate (size / 64) 0;
        bit_arr_len = size / 64;
        data_arr = replicate size none;
        size = size;
      })

  pub bm_clear : Bitmap D → Bitmap D
  bm_clear bm = record bm {
    bit_arr = replicate bm.bit_arr_len 0;
    data_arr = replicate bm.size none;
  }

  pub bm_count : Bitmap D → ℕ
  bm_count bm = count_words bm.bit_arr_len 0 0 bm.bit_arr

  pub bm_set : Bitmap D → ℤ → Option D → Bool × Bitmap D
  bm_set bm (negsuc n) datum = (false, bm)
  bm_set bm (pos i) datum =
      if leb bm.size i then (false, bm) else if leb bm.bit_arr_len (i / 64) then (false, bm) else (
        true,
        record bm {
          bit_arr = set bm.bit_arr (i / 64) (bit_or (word bm.bit_arr (i / 64)) (bit64 (i % 64)));
          data_arr = set bm.data_arr i datum;
        },
      )

  pub bm_unset : Bitmap D → ℤ → Bitmap D
  bm_unset bm (negsuc n) = bm
  bm_unset bm (pos i) =
      if leb bm.bit_arr_len (i / 64) then bm else if leb bm.size i then bm else record bm {
        bit_arr =
            set bm.bit_arr (i / 64)
              (bit_and (word bm.bit_arr (i / 64)) (complement 64 (bit64 (i % 64))));
        data_arr = set bm.data_arr i none;
      }

  -- What is returned, and what is stored through `data` (nothing where the code returns early).
  pub bm_get : Bitmap D → ℤ → Bool × Option (Option D)
  bm_get bm (negsuc n) = (false, none)
  bm_get bm (pos i) =
      if leb bm.bit_arr_len (i / 64)
      then (false, none)
      else if leb bm.size i
      then (false, none)
      else (
        not (bit_and (word bm.bit_arr (i / 64)) (bit64 (i % 64)) == 0),
        some (get_or bm.data_arr i none),
      )

  pub bm_min : Bitmap D → ℤ
  bm_min bm = min_from bm.bit_arr_len 0 bm.bit_arr

  pub bm_max : Bitmap D → ℤ
  bm_max bm = max_from bm.bit_arr_len bm.bit_arr

  -- the data pointers of the two shifts
  pub left_pointers : ℕ → ℕ → List (Option D) → Option (List (Option D))
  left_pointers size s arr = do
    moved ← fill_down (λ xs i. get_elem? xs (i - s)) (size - s) (size - 1) arr
    fill_up (λ xs i. some none) s 0 moved

  pub right_pointers : ℕ → ℕ → List (Option D) → Option (List (Option D))
  right_pointers size s arr = do
    moved ← fill_up (λ xs i. get_elem? xs (i + s)) (size - s) 0 arr
    fill_up (λ xs i. some none) s (size - s) moved

  pub bm_shift_left : Bitmap D → ℕ → Option (Bitmap D)
  bm_shift_left bm s = if s == 0 then some bm else do
    words ← left_words bm.bit_arr_len (s / 64) (s % 64) bm.bit_arr
    pointers ← left_pointers bm.size s bm.data_arr
    some (record bm { bit_arr = words; data_arr = pointers })

  pub bm_shift_right : Bitmap D → ℕ → Option (Bitmap D)
  bm_shift_right bm s = if s == 0 then some bm else do
    words ← right_words bm.bit_arr_len (s / 64) (s % 64) bm.bit_arr
    pointers ← right_pointers bm.size s bm.data_arr
    some (record bm { bit_arr = words; data_arr = pointers })

  -- `bm_extract64` at an index that is not negative
  pub extract_from : Bitmap D → ℕ → ℕ
  extract_from bm i =
      let lo = shr (word bm.bit_arr (i / 64)) (i % 64) in
      if leb bm.size i
      then 0
      else if not (i % 64 == 0) && ltb (i / 64 + 1) bm.bit_arr_len
      then bit_or lo (shl 64 (word bm.bit_arr (i / 64 + 1)) (64 - i % 64))
      else lo

  -- `negsuc n` is -(n + 1): `i + 64 <= 0` is `63 ≤ n`, and `-i` is `n + 1`.
  pub bm_extract64 : Bitmap D → ℤ → ℕ
  bm_extract64 bm (pos i) = extract_from bm i
  bm_extract64 bm (negsuc n) =
      if leb 63 n
      then complement 64 0
      else bit_or (shl 64 (extract_from bm 0) (n + 1)) ((bit64 (n + 1) + 2 ^ 64 - 1) % 2 ^ 64)

  -- What is stored in `*i` where the result is true. `*i & 63` is the remainder by 64.
  pub bm_next_set_bit_iter : Bitmap D → ℕ → Option ℕ
  bm_next_set_bit_iter bm i =
      if leb bm.bit_arr_len (i / 64)
      then none
      else if not (shr (word bm.bit_arr (i / 64)) (i % 64) == 0)
      then some (i + ctz 64 (shr (word bm.bit_arr (i / 64)) (i % 64)))
      else next_from (bm.bit_arr_len - (i / 64 + 1)) (i / 64 + 1) bm.bit_arr
