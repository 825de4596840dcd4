-- ===== src/Time/Ints.antt =====
-- i64 in two's complement, and u64.
use dot15d.Base.{ℕ, ◌+◌, ◌-◌, ◌*◌, ◌/◌, ◌%◌, ◌^◌, ◌<◌, ◌≡◌, arith, ltb, ◌==◌, if◌then◌else◌}
use dot15d.Base.Int.{ℤ, pos, negsuc}

-- `as u64` of an i64, and `as i64` of a u64.
abbrev pub as_u64 : ℤ → ℕ
as_u64 (pos n) = n % 2 ^ 64
as_u64 (negsuc n) = 2 ^ 64 - 1 - n % 2 ^ 64

abbrev pub as_i64 : ℕ → ℤ
as_i64 n = if ltb (n % 2 ^ 64) (2 ^ 63) then pos (n % 2 ^ 64) else negsuc (2 ^ 64 - 1 - n % 2 ^ 64)

abbrev pub add_u64 : ℕ → ℕ → ℕ
add_u64 a b = (a + b) % 2 ^ 64

abbrev pub sub_u64 : ℕ → ℕ → ℕ
sub_u64 a b = (a + 2 ^ 64 - b) % 2 ^ 64

abbrev pub add_i64 : ℤ → ℤ → ℤ
add_i64 a b = as_i64 (as_u64 a + as_u64 b)

abbrev pub neg_i64 : ℤ → ℤ
neg_i64 a = as_i64 (2 ^ 64 - as_u64 a)

abbrev pub mul_i64 : ℤ → ℤ → ℤ
mul_i64 a b = as_i64 (as_u64 a * as_u64 b)

abbrev pub signum : ℤ → ℤ
signum (pos n) = if n == 0 then pos 0 else pos 1
signum (negsuc n) = negsuc 0

-- The opposite of a natural number.
abbrev pub minus : ℕ → ℤ
minus n = if n == 0 then pos 0 else negsuc (n - 1)

-- Division of i64, which rounds towards zero and wraps where the quotient is 2 ^ 63; the divisor
-- is not zero.
abbrev pub div_trunc : ℤ → ℤ → ℤ
div_trunc (pos a) (pos b) = pos (a / b)
div_trunc (pos a) (negsuc b) = minus (a / (b + 1))
div_trunc (negsuc a) (pos b) = minus ((a + 1) / b)
div_trunc (negsuc a) (negsuc b) = as_i64 ((a + 1) / (b + 1))

-- A number that an i64 holds.
abbrev pub IsI64 : ℤ → Type 0
IsI64 (pos n) = n < 2 ^ 63
IsI64 (negsuc n) = n < 2 ^ 63

pub as_i64-as_u64 : (a : ℤ) → IsI64 a → as_i64 (as_u64 a) ≡ a
as_i64-as_u64 (pos n) h = ground arith
as_i64-as_u64 (negsuc n) h = ground arith

pub as_u64-as_i64 : (n : ℕ) → n < 2 ^ 64 → as_u64 (as_i64 n) ≡ n
as_u64-as_i64 n h = ground arith
