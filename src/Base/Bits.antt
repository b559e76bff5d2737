-- ===== src/Base/Bits.antt =====
-- Bounds on the bitwise operations.
use Prim.Native.Nat.{ℕ, zero, suc, ◌/◌, ◌≤◌, min, bit_and, digits, bit_and-bitwise}
use native.Mathlib.Omega.{arith}

mask-le_digits : (fuel a m : ℕ) → digits (λ _. zero) min fuel a m ≤ m
mask-le_digits zero zero m = omega arith
mask-le_digits zero (suc a) m = omega arith
mask-le_digits (suc fuel) zero m = omega arith
mask-le_digits (suc fuel) (suc a) m = omega (arith, mask-le_digits fuel (suc a / 2) (m / 2))

-- A number masked by `m` is at most `m`.
pub bit_and-le : (a m : ℕ) → bit_and a m ≤ m
bit_and-le a m = omega (arith, bit_and-bitwise a m, mask-le_digits a a m)
