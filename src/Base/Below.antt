-- ===== src/Base/Below.antt =====
-- A finite test, which is true of every number below its bound when it computes to true.
use Prim.Native.Nat.{ℕ, zero, suc, ◌<◌}
use mathlib.Core.Path.{◌≡◌, refl}
use mathlib.Core.Bool.{Bool, true, false, ◌&&◌}
use native.Mathlib.Omega.{arith}
use native.Mathlib.Decide.{ℕ_discrete}

-- Every number below `n` passes a test.
unfoldable pub all_below : ℕ → (ℕ → Bool) → Bool
all_below zero test = true
all_below (suc n) test = test n && all_below n test

pub all_below_lem :
    (n : ℕ) (test : ℕ → Bool) → all_below n test ≡ true → (k : ℕ) → k < n → test k ≡ true
unfolding all_below
all_below_lem zero test e k h = absurd (omega arith)
all_below_lem (suc n) test e k h = elim (ℕ_discrete k n) [
  | yes same ↦ rw same (and_first (test n) (all_below n test) e)
  | no ne ↦ all_below_lem n test (and_second (test n) (all_below n test) e) k (omega arith)
]
  where
    and_first : (a b : Bool) → (a && b) ≡ true → a ≡ true
    and_first true b e = refl
    and_first false b e = e

    and_second : (a b : Bool) → (a && b) ≡ true → b ≡ true
    and_second true b e = e
    and_second false b e = ground arith
