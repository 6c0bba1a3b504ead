-- ===== src/Common/Bits.antt =====
-- The bitwise "and" of two numbers is at most the second one.
use Prim.Native.Nat.{ℕ, zero, suc, ◌/◌, ◌≤◌, min, bit_and, digits, bit_and-bitwise}
use native.Mathlib.Omega.{arith}

-- what `bit_and` computes to, digit by digit, on enough fuel
abbrev masked : ℕ → ℕ → ℕ → ℕ
masked fuel word mask = digits (λ rest. zero) min fuel word mask

masked-le : (fuel word mask : ℕ) → masked fuel word mask ≤ mask
masked-le zero zero mask = omega arith
masked-le zero (suc word) mask = omega arith
masked-le (suc fuel) zero mask = omega arith
masked-le (suc fuel) (suc word) mask = omega (arith, masked-le fuel (suc word / 2) (mask / 2))

pub bit_and-le : (word mask : ℕ) → bit_and word mask ≤ mask
bit_and-le word mask = omega (arith, bit_and-bitwise word mask, masked-le word word mask)
