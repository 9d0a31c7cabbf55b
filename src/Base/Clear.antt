-- ===== src/Base/Clear.antt =====
-- A loop that moves the items of an array, followed by one that clears those left behind.
use Prim.Native.Nat.{ℕ, ◌-◌, ◌≤◌, ◌<◌}
use mathlib.Core.Path.{◌≡◌, refl, sym, ◌∙◌}
use mathlib.Core.Logic.{inl, inr}
use mathlib.Core.Option.{Option, some}
use mathlib.Core.List.{List}
use native.Mathlib.Decide.{dec_lt}
use native.Mathlib.Omega.{arith}
use uet_ref_prov.Base.Tests.{ltb, if◌then◌else◌, lt→ltb, ltb-false}
use uet_ref_prov.Base.Partial.{◌>>=◌}
use uet_ref_prov.Base.Lists.{length, get_or}
use uet_ref_prov.Base.Loops.{fill_up, fill_down, Filled, fill_up-Filled, fill_down-Filled}

module _ {ℓ} {A : Type ℓ} (d : A) where
  -- `result` is an array as long as `xs` that holds `v`.
  pub record Made (v : ℕ → A) (xs : List A) (result : Option (List A)) : Type ℓ where
    pub out : List A
    pub returns : result ≡ some out
    pub same_length : length out ≡ length xs
    pub each : (j : ℕ) → j < length xs → get_or out j d ≡ v j

  -- `v` from index `n` on, and `d` before it.
  abbrev pub from_index : ℕ → (ℕ → A) → ℕ → A
  from_index n v j = if ltb j n then d else v j

  -- The items from `lo` to `hi - 1` of an array moved and the others cleared.
  join :
      (v : ℕ → A) (xs : List A) (lo hi a b : ℕ) (r : Option (List A)) (f : List A → Option (List A))
      → (m : Filled d lo hi v xs r) → Filled d a b (λ j. d) m.out (f m.out)
      → ((j : ℕ) → a ≤ j → j < b → v j ≡ d)
      → ((j : ℕ)
          → j < length xs
          → (j < a → lo ≤ j) × (j < a → j < hi) × (b ≤ j → lo ≤ j) × (b ≤ j → j < hi))
      → Made v xs (r >>= f)
  join v xs lo hi a b r f m c z cover = record {
    out = c.out;
    returns = rw m.returns c.returns;
    same_length = c.same_length ∙ m.same_length;
    each = λ j h. elim (dec_lt j a) [
      | yes p ↦ c.outside j (inl p) ∙ m.inside j ((cover j h).0 p) ((cover j h).1 p)
      | no p ↦ elim (dec_lt j b) [
        | yes q ↦ c.inside j (omega arith) q ∙ sym (z j (omega arith) q)
        | no q ↦
            c.outside j (inr (omega arith))
            ∙ m.inside j ((cover j h).2 (omega arith)) ((cover j h).3 (omega arith))
      ]
    ];
  }

  module _ (v : ℕ → A) (xs : List A) (n : ℕ) (r : Option (List A)) (fits : n ≤ length xs) where
    -- The last `n` items cleared downwards, and upwards.
    pub clear_last_down :
        Filled d 0 (length xs - n) v xs r
        → ((j : ℕ) → length xs - n ≤ j → v j ≡ d)
        → Made v xs (r >>= fill_down (λ ys i. some d) n (length xs - 1))
    clear_last_down m z =
        join v xs 0 (length xs - n) (length xs - n) (length xs) r
          (fill_down (λ ys i. some d) n (length xs - 1)) m
          (fill_down-Filled d (λ ys i. some d) (λ j. d) n (length xs - n) (length xs)
            (length xs - 1) m.out (omega arith) refl (omega (arith, m.same_length))
            (λ k p q ys e f. refl))
          (λ j p q. z j p) (λ j h. omega arith)

    pub clear_last_up :
        Filled d 0 (length xs - n) v xs r
        → ((j : ℕ) → length xs - n ≤ j → v j ≡ d)
        → Made v xs (r >>= fill_up (λ ys i. some d) n (length xs - n))
    clear_last_up m z =
        join v xs 0 (length xs - n) (length xs - n) (length xs) r
          (fill_up (λ ys i. some d) n (length xs - n)) m
          (fill_up-Filled d (λ ys i. some d) (λ j. d) n (length xs - n) (length xs) m.out
            (omega arith) (omega (arith, m.same_length)) (λ k p q ys e f. refl))
          (λ j p q. z j p) (λ j h. omega arith)

    -- The first `n` items cleared.
    pub clear_first :
        Filled d n (length xs) v xs r
        → Made (from_index n v) xs (r >>= fill_up (λ ys i. some d) n 0)
    clear_first m =
        join (from_index n v) xs n (length xs) 0 n r (fill_up (λ ys i. some d) n 0) moved
          (fill_up-Filled d (λ ys i. some d) (λ j. d) n 0 n m.out (omega arith)
            (omega (arith, m.same_length)) (λ k p q ys e f. refl))
          (λ j p q. rw (lt→ltb j n q)) (λ j h. omega arith)
      where
        moved : Filled d n (length xs) (from_index n v) xs r
        moved = record {
          out = m.out;
          returns = m.returns;
          same_length = m.same_length;
          inside = λ j p q. m.inside j p q ∙ rw (ltb-false j n p) refl;
          outside = m.outside;
        }
