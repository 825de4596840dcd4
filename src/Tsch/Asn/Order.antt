-- ===== src/Tsch/Asn/Order.antt =====
-- How `partial_cmp` orders slot numbers.
use dot15d.Base.{◌<◌, ◌≡◌, ◌↔◌, arith, some, false}
use dot15d.Tsch.Asn.{AbsoluteSlotNumber, value, partial_cmp, less, equal, greater, eq}

-- Slot numbers in the same 2 ^ 32 slots are ordered by their 40-bit values: each of the three
-- answers is given exactly when the values compare so.
pub partial_cmp-value :
    (a b : AbsoluteSlotNumber)
    → a.ms1b ≡ b.ms1b
    → ((partial_cmp a b ≡ some less) ↔ (value a < value b))
      × ((partial_cmp a b ≡ some equal) ↔ (value a ≡ value b))
      × ((partial_cmp a b ≡ some greater) ↔ (value b < value a))
unfolding partial_cmp
partial_cmp-value a b e = ground arith

-- A slot number compares as equal to an earlier one with the same low word, although `==` tells
-- the two apart.
pub partial_cmp_equal_later :
    (a b : AbsoluteSlotNumber)
    → b.ms1b < a.ms1b
    → a.ls4b ≡ b.ls4b
    → (partial_cmp a b ≡ some equal) × (eq a b ≡ false) × (value b < value a)
unfolding partial_cmp eq
partial_cmp_equal_later a b h k = ground arith
