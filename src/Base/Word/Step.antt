-- ===== src/Base/Word/Step.antt =====
-- The lowest digit of `&` and `|`: the native operations mean `bitwise`, a recursion on binary
-- digits with fuel, and here the fuel is dropped.
use Prim.Native.Nat.{
  ℕ, zero, suc, ◌+◌, ◌*◌, ◌/◌, ◌%◌, ◌≤◌, min, max, digits, bitwise, bit_and, bit_or,
  bit_and-bitwise, bit_or-bitwise,
}
use mathlib.Core.Path.{◌≡◌, refl}
use native.Mathlib.Omega.{arith}

-- `rest` gives the digits of the second number once the first is 0, `digit` joins two digits.
module _ (rest : ℕ → ℕ) (digit : ℕ → ℕ → ℕ) where
  -- Fuel beyond the first number is not used.
  spare_fuel :
      (x y fuel fuel' : ℕ)
      → x ≤ fuel
      → x ≤ fuel'
      → digits rest digit fuel x y ≡ digits rest digit fuel' x y
  spare_fuel zero y (suc k) (suc k') h h' = refl
  spare_fuel zero y (suc k) zero h h' = refl
  spare_fuel zero y zero (suc k') h h' = refl
  spare_fuel zero y zero zero h h' = refl
  spare_fuel (suc x) y zero fuel' h h' = absurd (omega arith)
  spare_fuel (suc x) y (suc k) zero h h' = absurd (omega arith)
  spare_fuel (suc x) y (suc k) (suc k') h h' =
      let halves = spare_fuel (suc x / 2) (y / 2) k k' (omega arith) (omega arith) in rw halves

  lowest_digit :
      (x y : ℕ)
      → bitwise rest digit (suc x) y
        ≡ digit (suc x % 2) (y % 2) + 2 * bitwise rest digit (suc x / 2) (y / 2)
  lowest_digit x y =
      let halves = spare_fuel (suc x / 2) (y / 2) x (suc x / 2) (omega arith) (omega arith) in
      omega (arith, halves)

pub bit_or_step : (x y : ℕ) → bit_or x y ≡ bit_or (x / 2) (y / 2) * 2 + max (x % 2) (y % 2)
bit_or_step zero y = simp bit_or-bitwise (omega arith)
bit_or_step (suc x) y = simp bit_or-bitwise (omega (arith, lowest_digit (λ r. r) max x y))

pub bit_and_step : (x y : ℕ) → bit_and x y ≡ bit_and (x / 2) (y / 2) * 2 + min (x % 2) (y % 2)
bit_and_step zero y = simp bit_and-bitwise (omega arith)
bit_and_step (suc x) y = simp bit_and-bitwise (omega (arith, lowest_digit (λ r. 0) min x y))
