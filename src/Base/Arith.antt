-- ===== src/Base/Arith.antt =====
-- Division and remainder by powers of two.
use Prim.Native.Nat.{ℕ, suc, ◌+◌, ◌*◌, ◌/◌, ◌%◌, ◌^◌, ◌<◌}
use mathlib.Core.Path.{◌≡◌, ap, ◌∙◌, sym}
use native.Mathlib.Nat.{pow-suc, one-le-pow, div-div-eq-div-mul, mod-add-div}
use native.Mathlib.Omega.{arith}

pub pow2_pos : (n : ℕ) → 0 < 2 ^ n
pow2_pos n = one-le-pow n 2 (omega arith)

pub pow2-suc : (n : ℕ) → 2 ^ suc n ≡ 2 * 2 ^ n
pow2-suc n = omega (arith, pow-suc 2 n)

-- Dividing by `2 ^ (n + 1)` is halving first.
pub half_first : (w n : ℕ) → w / 2 ^ suc n ≡ w / 2 / 2 ^ n
half_first w n = ap (λ (k : ℕ). w / k) (pow2-suc n) ∙ sym (div-div-eq-div-mul w 2 (2 ^ n))

-- The remainder by `2 ^ (n + 1)`, by its lowest digit and the rest.
pub mod-pow-suc : (w n : ℕ) → w % 2 ^ suc n ≡ 2 * (w / 2 % 2 ^ n) + w % 2
mod-pow-suc w n = omega (
  arith,
  mod-add-div w (2 ^ suc n),
  mod-add-div (w / 2) (2 ^ n),
  ap (λ (t : ℕ). 2 ^ suc n * t) (half_first w n),
  ap (λ (t : ℕ). t * (w / 2 / 2 ^ n)) (pow2-suc n),
)
