-- ===== src/Bitmap/Words.antt =====
-- The word loops of the shifts, word by word.
use native.Mathlib.Decide.{ℕ_discrete}
use uet_ref_prov.Base.{
  ℕ, suc, ◌+◌, ◌-◌, ◌≤◌, ◌<◌, ◌≡◌, refl, ap, ◌∙◌, inl, inr, Option, some, List, arith, length,
  get_or, get_elem?, set, length-set, get_or-set_self, get_or-set_ne, get_elem?-eq-get_or, store,
  store_lem, fill_up, fill_down, Filled, fill_up-Filled, fill_down-Filled, shl, shr, bit_or,
}
use uet_ref_prov.Bitmap.{word, left_word, right_word}

-- The words that a shift by `64 * chop + shift` puts at index `j`, where `shift` is not 0.
abbrev pub right_value : ℕ → ℕ → List ℕ → ℕ → ℕ
right_value chop shift arr j =
    bit_or (shr (word arr (j + chop)) shift) (shl 64 (word arr (j + 1 + chop)) (64 - shift))

abbrev pub left_value : ℕ → ℕ → List ℕ → ℕ → ℕ
left_value chop shift arr j =
    bit_or (shl 64 (word arr (j - chop)) shift) (shr (word arr (j - 1 - chop)) (64 - shift))

module _ (arr : List ℕ) (chop shift : ℕ) where
  pub right_word_lem :
      (ys : List ℕ) (k : ℕ)
      → length ys ≡ length arr
      → k + 1 + chop < length arr
      → ((j : ℕ) → k ≤ j → word ys j ≡ word arr j)
      → right_word chop shift ys k ≡ some (right_value chop shift arr k)
  unfolding right_word
  right_word_lem ys k e h f = rw (
    get_elem?-eq-get_or ys (k + chop) 0 (omega arith),
    get_elem?-eq-get_or ys (k + 1 + chop) 0 (omega arith),
    f (k + chop) (omega arith),
    f (k + 1 + chop) (omega arith),
  )

  pub left_word_lem :
      (ys : List ℕ) (k : ℕ)
      → length ys ≡ length arr
      → k < length arr
      → ((j : ℕ) → j ≤ k → word ys j ≡ word arr j)
      → left_word chop shift ys k ≡ some (left_value chop shift arr k)
  unfolding left_word
  left_word_lem ys k e h f = rw (
    get_elem?-eq-get_or ys (k - chop) 0 (omega arith),
    get_elem?-eq-get_or ys (k - 1 - chop) 0 (omega arith),
    f (k - chop) (omega arith),
    f (k - 1 - chop) (omega arith),
  )

module _ {ℓ} {A : Type ℓ} (d : A) where
  -- A loop that moves items of `xs` by `n` places.
  pub moved_down :
      (xs : List A) (n rounds : ℕ)
      → rounds ≡ length xs - n
      → Filled d 0
          (length xs - n)
          (λ j. get_or xs (j + n) d)
          xs
          (fill_up (λ ys i. get_elem? ys (i + n)) rounds 0 xs)
  moved_down xs n rounds e =
      fill_up-Filled d (λ ys i. get_elem? ys (i + n)) (λ j. get_or xs (j + n) d) rounds 0
        (length xs - n) xs (omega arith) (omega arith)
        (λ k p q ys e' f.
          get_elem?-eq-get_or ys (k + n) d (omega arith) ∙ ap some (f (k + n) (omega arith)))

  pub moved_up :
      (xs : List A) (n : ℕ)
      → n ≤ length xs
      → Filled d n
          (length xs)
          (λ j. get_or xs (j - n) d)
          xs
          (fill_down (λ ys i. get_elem? ys (i - n)) (length xs - n) (length xs - 1) xs)
  moved_up xs n h =
      fill_down-Filled d (λ ys i. get_elem? ys (i - n)) (λ j. get_or xs (j - n) d) (length xs - n) n
        (length xs) (length xs - 1) xs (omega arith) refl (omega arith)
        (λ k p q ys e' f.
          get_elem?-eq-get_or ys (k - n) d (omega arith) ∙ ap some (f (k - n) (omega arith)))

  -- One more item stored behind, or before, those that a loop moved.
  pub stored_last :
      (v : ℕ → A) (xs : List A) (n : ℕ) (r : Option (List A))
      → n < length xs
      → (m : Filled d 0 n v xs r) → Filled d 0 (suc n) v xs (store m.out n (v n))
  stored_last v xs n r h m = record {
    out = set m.out n (v n);
    returns = store_lem m.out n (v n) (omega (arith, m.same_length));
    same_length = length-set m.out n (v n) ∙ m.same_length;
    inside = λ j p q. elim (ℕ_discrete n j) [
      | yes e ↦ rw (← e) (get_or-set_self m.out n (v n) d (omega (arith, m.same_length)))
      | no ne ↦ get_or-set_ne m.out n j (v n) d ne ∙ m.inside j p (omega arith)
    ];
    outside = λ j p. elim p [
      | inl l ↦ absurd (omega arith)
      | inr g ↦ get_or-set_ne m.out n j (v n) d (omega arith) ∙ m.outside j (inr (omega arith))
    ];
  }

  pub stored_first :
      (v : ℕ → A) (xs : List A) (n hi : ℕ) (r : Option (List A))
      → n < length xs
      → n < hi
      → (m : Filled d (n + 1) hi v xs r) → Filled d n hi v xs (store m.out n (v n))
  stored_first v xs n hi r h below m = record {
    out = set m.out n (v n);
    returns = store_lem m.out n (v n) (omega (arith, m.same_length));
    same_length = length-set m.out n (v n) ∙ m.same_length;
    inside = λ j p q. elim (ℕ_discrete n j) [
      | yes e ↦ rw (← e) (get_or-set_self m.out n (v n) d (omega (arith, m.same_length)))
      | no ne ↦ get_or-set_ne m.out n j (v n) d ne ∙ m.inside j (omega arith) q
    ];
    outside = λ j p. elim p [
      | inl l ↦ get_or-set_ne m.out n j (v n) d (omega arith) ∙ m.outside j (inl (omega arith))
      | inr g ↦ get_or-set_ne m.out n j (v n) d (omega arith) ∙ m.outside j (inr g)
    ];
  }
