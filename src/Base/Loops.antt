-- ===== src/Base/Loops.antt =====
-- C loops that fill an array in place, upwards and downwards. `read` gives the value that is
-- stored at an index, from the array as it then is; `none` is an access out of range.
use Prim.Native.Nat.{ℕ, zero, suc, ◌+◌, ◌-◌, ◌≤◌, ◌<◌}
use mathlib.Core.Path.{◌≡◌, refl, ◌∙◌, subst}
use mathlib.Core.Logic.{◌⊎◌, inl, inr}
use mathlib.Core.Option.{Option, none, some}
use mathlib.Core.List.{List}
use native.Mathlib.Decide.{ℕ_discrete}
use native.Mathlib.Omega.{arith}
use uet_ref_prov.Base.Tests.{ltb, if◌then◌else◌}
use uet_ref_prov.Base.Partial.{◌>>=◌}
use uet_ref_prov.Base.Lists.{length, get_or, set, length-set, get_or-set_self, get_or-set_ne}

module _ {ℓ} {A : Type ℓ} where
  -- `xs[i] = v`
  abbrev pub store : List A → ℕ → A → Option (List A)
  store xs i v = if ltb i (length xs) then some (set xs i v) else none

  -- `for (; n rounds; i++) xs[i] = read(xs, i)`
  pub fill_up : (List A → ℕ → Option A) → ℕ → ℕ → List A → Option (List A)
  fill_up read zero i xs = some xs
  fill_up read (suc n) i xs = do x ← read xs i; ys ← store xs i x; fill_up read n (i + 1) ys

  -- `for (; n rounds; i--) xs[i] = read(xs, i)`
  pub fill_down : (List A → ℕ → Option A) → ℕ → ℕ → List A → Option (List A)
  fill_down read zero i xs = some xs
  fill_down read (suc n) i xs = do x ← read xs i; ys ← store xs i x; fill_down read n (i - 1) ys

  pub store_lem : (xs : List A) (i : ℕ) (v : A) → i < length xs → store xs i v ≡ some (set xs i v)
  store_lem xs i v h = ground arith

module _ {ℓ} {A : Type ℓ} (d : A) where
  -- The loop returned an array that holds `v` at the indices from `lo` to `hi - 1`, and that is
  -- `xs` elsewhere.
  pub record Filled (lo hi : ℕ) (v : ℕ → A) (xs : List A) (result : Option (List A)) : Type ℓ where
    pub out : List A
    pub returns : result ≡ some out
    pub same_length : length out ≡ length xs
    pub inside : (j : ℕ) → lo ≤ j → j < hi → get_or out j d ≡ v j
    pub outside : (j : ℕ) → (j < lo) ⊎ (hi ≤ j) → get_or out j d ≡ get_or xs j d

  -- One more index at the lower or the upper end.
  Filled-store_first :
      (i hi : ℕ) (v : ℕ → A) (xs : List A) {result : Option (List A)}
      → i < hi
      → i < length xs
      → Filled (i + 1) hi v (set xs i (v i)) result
      → Filled i hi v xs result
  Filled-store_first i hi v xs below in_range rest = record {
    out = rest.out;
    returns = rest.returns;
    same_length = rest.same_length ∙ length-set xs i (v i);
    inside = λ j p q. elim (ℕ_discrete i j) [
      | yes e ↦
          rw (← e) (rest.outside i (inl (omega arith)) ∙ get_or-set_self xs i (v i) d in_range)
      | no ne ↦ rest.inside j (omega arith) q
    ];
    outside = λ j p. elim p [
      | inl l ↦ rest.outside j (inl (omega arith)) ∙ get_or-set_ne xs i j (v i) d (omega arith)
      | inr g ↦ rest.outside j (inr g) ∙ get_or-set_ne xs i j (v i) d (omega arith)
    ];
  }

  Filled-store_last :
      (lo i : ℕ) (v : ℕ → A) (xs : List A) {result : Option (List A)}
      → lo ≤ i
      → i < length xs
      → Filled lo i v (set xs i (v i)) result
      → Filled lo (suc i) v xs result
  Filled-store_last lo i v xs below in_range rest = record {
    out = rest.out;
    returns = rest.returns;
    same_length = rest.same_length ∙ length-set xs i (v i);
    inside = λ j p q. elim (ℕ_discrete i j) [
      | yes e ↦
          rw (← e) (rest.outside i (inr (omega arith)) ∙ get_or-set_self xs i (v i) d in_range)
      | no ne ↦ rest.inside j p (omega arith)
    ];
    outside = λ j p. elim p [
      | inl l ↦ rest.outside j (inl l) ∙ get_or-set_ne xs i j (v i) d (omega arith)
      | inr g ↦ rest.outside j (inr (omega arith)) ∙ get_or-set_ne xs i j (v i) d (omega arith)
    ];
  }

  -- `read` at `k` gives `v k` on every array that agrees with `xs` from `k` on (or up to `k`).
  abbrev pub ReadsUp : (List A → ℕ → Option A) → (ℕ → A) → List A → ℕ → Type ℓ
  ReadsUp read v xs k =
      (ys : List A)
      → length ys ≡ length xs
      → ((j : ℕ) → k ≤ j → get_or ys j d ≡ get_or xs j d)
      → read ys k ≡ some (v k)

  abbrev pub ReadsDown : (List A → ℕ → Option A) → (ℕ → A) → List A → ℕ → Type ℓ
  ReadsDown read v xs k =
      (ys : List A)
      → length ys ≡ length xs
      → ((j : ℕ) → j ≤ k → get_or ys j d ≡ get_or xs j d)
      → read ys k ≡ some (v k)

  -- The upward loop over the indices from `i` to `hi - 1`.
  pub fill_up-Filled :
      (read : List A → ℕ → Option A) (v : ℕ → A) (n i hi : ℕ) (xs : List A)
      → i + n ≡ hi
      → hi ≤ length xs
      → ((k : ℕ) → i ≤ k → k < hi → ReadsUp read v xs k)
      → Filled i hi v xs (fill_up read n i xs)
  unfolding fill_up
  fill_up-Filled read v zero i hi xs e h r = record {
    out = xs;
    returns = refl;
    same_length = refl;
    inside = λ j p q. absurd (omega arith);
    outside = λ j p. refl;
  }
  fill_up-Filled read v (suc n) i hi xs e h r =
      let rest =
        fill_up-Filled read v n (i + 1) hi (set xs i (v i)) (omega arith)
          (omega (arith, length-set xs i (v i)))
          (λ k p q ys e' f.
            r k (omega arith) q ys (e' ∙ length-set xs i (v i))
              (λ j m. f j m ∙ get_or-set_ne xs i j (v i) d (omega arith))) in
      rw (r i (omega arith) (omega arith) xs refl (λ j p. refl), store_lem xs i (v i) (omega arith))
        (Filled-store_first i hi v xs (omega arith) (omega arith) rest)

  -- The downward loop over the indices from `hi - 1` to `lo`.
  pub fill_down-Filled :
      (read : List A → ℕ → Option A) (v : ℕ → A) (n lo hi i : ℕ) (xs : List A)
      → lo + n ≡ hi
      → i ≡ hi - 1
      → hi ≤ length xs
      → ((k : ℕ) → lo ≤ k → k < hi → ReadsDown read v xs k)
      → Filled lo hi v xs (fill_down read n i xs)
  unfolding fill_down
  fill_down-Filled read v zero lo hi i xs e ei h r = record {
    out = xs;
    returns = refl;
    same_length = refl;
    inside = λ j p q. absurd (omega arith);
    outside = λ j p. refl;
  }
  fill_down-Filled read v (suc n) lo hi i xs e ei h r =
      let rest =
        fill_down-Filled read v n lo i (i - 1) (set xs i (v i)) (omega arith) refl
          (omega (arith, length-set xs i (v i)))
          (λ k p q ys e' f.
            r k p (omega arith) ys (e' ∙ length-set xs i (v i))
              (λ j m. f j m ∙ get_or-set_ne xs i j (v i) d (omega arith))) in
      rw (r i (omega arith) (omega arith) xs refl (λ j p. refl), store_lem xs i (v i) (omega arith))
        (subst (λ k. Filled lo k v xs (fill_down read n (i - 1) (set xs i (v i)))) (omega arith)
          (Filled-store_last lo i v xs (omega arith) (omega arith) rest))
