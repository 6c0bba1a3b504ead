-- ===== src/Atomic.antt =====
-- include/ckit/atomic.h: an `int` of 32 bits, which wraps round.
use libckit.Common.{ℕ, zero, suc, ◌-◌, ◌%◌, ◌^◌, ◌<◌, ◌≡◌, Bool, arith, ◌==◌, if◌then◌else◌}
use libckit.Common.Int.{ℤ, pos, negsuc, eqb_ℤ}

abbrev pub int_max : ℕ
int_max = 2 ^ 31 - 1

-- the values of an `int`
abbrev pub IsInt : ℤ → Type 0
IsInt a = elim a [ pos n ↦ n < 2 ^ 31 | negsuc n ↦ n < 2 ^ 31 ]

-- The old value is lost.
abbrev pub set : ℤ → ℤ → ℤ
set a i = i

abbrev pub read : ℤ → ℤ
read a = a

unfoldable pub inc : ℤ → ℤ
inc (pos n) = if n == int_max then negsuc int_max else pos (suc n)
inc (negsuc zero) = pos 0
inc (negsuc (suc n)) = negsuc n

unfoldable pub dec : ℤ → ℤ
dec (pos zero) = negsuc 0
dec (pos (suc n)) = pos n
dec (negsuc n) = if n == int_max then pos int_max else negsuc (suc n)

-- atomic_dec_and_test: the new value, and whether it is 0
unfoldable pub dec_and_test : ℤ → Bool × ℤ
unfolding dec
dec_and_test a = (eqb_ℤ (dec a) (pos 0), dec a)

-- an `int` read as an `unsigned int`
unfoldable pub to_unsigned : ℤ → ℕ
to_unsigned (pos n) = n % 2 ^ 32
to_unsigned (negsuc n) = 2 ^ 32 - 1 - n % 2 ^ 32

pub dec-inc : (a : ℤ) → IsInt a → dec (inc a) ≡ a
unfolding inc dec
dec-inc (pos n) h = ground arith
dec-inc (negsuc zero) h = ground arith
dec-inc (negsuc (suc n)) h = ground arith

pub inc-dec : (a : ℤ) → IsInt a → inc (dec a) ≡ a
unfolding inc dec
inc-dec (pos zero) h = ground arith
inc-dec (pos (suc n)) h = ground arith
inc-dec (negsuc n) h = ground arith
