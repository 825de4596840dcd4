-- ===== src/Tsch/Asn/Conversions.antt =====
-- Conversions between slot numbers and integers.
use dot15d.Base.{◌≡◌, ◌↔◌, arith, some, none, true, if◌then◌else◌, ◌==◌}
use dot15d.Base.Int.{ℤ, pos, negsuc}
use dot15d.Tsch.Asn.{
  AbsoluteSlotNumber, IsWord, value, eq, eq_i64, try_from_i64, try_into_i64, try_into_u32,
}

-- The integers that `try_from` accepts are exactly the numbers of up to 40 bits, and each gives
-- the slot number in range that stands for it.
pub try_from_i64-value :
    (v : ℤ) (a : AbsoluteSlotNumber) → (try_from_i64 v ≡ some a) ↔ (IsWord a × (v ≡ pos (value a)))
unfolding try_from_i64
try_from_i64-value (pos n) a = ground arith
try_from_i64-value (negsuc n) a = ground arith

-- A slot number in range converts to the i64 of its 40-bit value and back to itself, converts to
-- a u32 exactly where its high byte is 0, and `==` with an integer says whether the integer is
-- its 40-bit value.
pub try_from-try_into :
    (a : AbsoluteSlotNumber) (v : ℤ)
    → IsWord a
    → (try_into_i64 a ≡ some (pos (value a)))
      × (try_from_i64 (pos (value a)) ≡ some a)
      × (try_into_u32 a ≡ (if a.ms1b == 0 then some (value a) else none))
      × ((eq_i64 a v ≡ true) ↔ (v ≡ pos (value a)))
unfolding try_from_i64 try_into_i64 try_into_u32 eq_i64 eq
try_from-try_into a (pos n) w = ground arith
try_from-try_into a (negsuc n) w = ground arith
