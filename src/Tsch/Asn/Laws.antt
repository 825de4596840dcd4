-- ===== src/Tsch/Asn/Laws.antt =====
-- The arithmetic of slot numbers against 40-bit arithmetic.
use dot15d.Base.{ℕ, ◌+◌, ◌-◌, ◌%◌, ◌^◌, ◌≤◌, ◌<◌, ◌≡◌, arith}
use dot15d.Base.Int.{pos, negsuc}
use dot15d.Tsch.Asn.{
  AbsoluteSlotNumber, IsWord, value, increment, decrement, add_u32, add_i32, sub_u32, sub,
}

-- Incrementing adds one to the 40-bit slot number, wrapping to 0 at its end, and keeps the fields
-- in range.
pub value-increment :
    (a : AbsoluteSlotNumber)
    → IsWord a
    → IsWord (increment a) × (value (increment a) ≡ (value a + 1) % 2 ^ 40)
unfolding increment
value-increment a w = ground arith

-- Decrementing takes one off the 40-bit slot number, wrapping at 0 to its last value, and keeps
-- the fields in range.
pub value-decrement :
    (a : AbsoluteSlotNumber)
    → IsWord a
    → IsWord (decrement a) × (value (decrement a) ≡ (value a + 2 ^ 40 - 1) % 2 ^ 40)
unfolding decrement
value-decrement a w = ground arith

-- Decrementing undoes incrementing, and the other way round, also where they wrap.
pub decrement-increment :
    (a : AbsoluteSlotNumber)
    → IsWord a
    → (decrement (increment a) ≡ a) × (increment (decrement a) ≡ a)
unfolding increment decrement
decrement-increment a w = ground arith

-- Adding a u32 is addition of 40-bit numbers, and subtracting it again gives the slot number back.
pub value-add_u32 :
    (a : AbsoluteSlotNumber) (rhs : ℕ)
    → IsWord a
    → rhs < 2 ^ 32
    → IsWord (add_u32 a rhs)
      × (value (add_u32 a rhs) ≡ (value a + rhs) % 2 ^ 40)
      × (sub_u32 (add_u32 a rhs) rhs ≡ a)
unfolding add_u32 sub_u32
value-add_u32 a rhs w h = ground arith

-- Where one slot number is at most 2 ^ 32 - 1 slots after another, their difference is that number
-- of slots.
pub sub-value :
    (a b : AbsoluteSlotNumber)
    → IsWord a
    → IsWord b
    → value b ≤ value a
    → value a < value b + 2 ^ 32
    → value b + sub a b ≡ value a
unfolding sub
sub-value a b v w lo hi = ground arith

-- Adding an i32 is right for the numbers that are not negative; for a negative one the result is
-- 2 ^ 32 slots later than it should be.
pub value-add_i32 :
    (a : AbsoluteSlotNumber) (n : ℕ)
    → IsWord a
    → n < 2 ^ 31
    → (value (add_i32 a (pos n)) ≡ (value a + n) % 2 ^ 40)
      × (value (add_i32 a (negsuc n)) ≡ (value a + 2 ^ 40 - (n + 1) + 2 ^ 32) % 2 ^ 40)
unfolding add_i32
value-add_i32 a n w h = ground arith
