-- ===== src/Tsch/Asn.antt =====
-- The absolute slot number: dot15d4/src/mac/tsch/asn.rs. A u32 and a u8 are numbers; additions
-- and subtractions wrap, which is what the carry tests of the code rely on.
pub mod Laws
pub mod Order
pub mod Conversions
pub mod Remainder
mod Examples
use dot15d.Base.{
  ℕ, ◌+◌, ◌-◌, ◌*◌, ◌/◌, ◌%◌, ◌^◌, ◌<◌, Bool, Option, none, some, ltb, leb, ◌==◌, ◌&&◌, ◌||◌,
  if◌then◌else◌,
}
use dot15d.Base.{Outcome, returns, panics}
use dot15d.Base.Int.{ℤ, pos, negsuc, ltb_ℤ}

pub record AbsoluteSlotNumber : Type 0 where
  pub ls4b : ℕ
  pub ms1b : ℕ

-- The fields hold a u32 and a u8.
pub record IsWord (a : AbsoluteSlotNumber) : Type 0 where
  pub ls4b_bound : a.ls4b < 2 ^ 32
  pub ms1b_bound : a.ms1b < 256

-- The 40-bit number that the two fields stand for.
abbrev pub value : AbsoluteSlotNumber → ℕ
value a = a.ms1b * 2 ^ 32 + a.ls4b

unfoldable pub increment : AbsoluteSlotNumber → AbsoluteSlotNumber
increment a =
    let next = (a.ls4b + 1) % 2 ^ 32 in
    record a { ls4b = next; ms1b = if ltb next a.ls4b then (a.ms1b + 1) % 256 else a.ms1b }

unfoldable pub decrement : AbsoluteSlotNumber → AbsoluteSlotNumber
decrement a =
    let next = (a.ls4b + 2 ^ 32 - 1) % 2 ^ 32 in
    record a { ls4b = next; ms1b = if ltb a.ls4b next then (a.ms1b + 256 - 1) % 256 else a.ms1b }

-- `==` on two slot numbers.
unfoldable pub eq : AbsoluteSlotNumber → AbsoluteSlotNumber → Bool
eq a b = (a.ls4b == b.ls4b) && (a.ms1b == b.ms1b)

pub data Comparison : Type 0 where
  less equal greater : Comparison

unfoldable pub partial_cmp : AbsoluteSlotNumber → AbsoluteSlotNumber → Option Comparison
partial_cmp a b =
    if ltb a.ms1b b.ms1b || ltb a.ls4b b.ls4b
    then some less
    else if ltb b.ls4b a.ls4b
    then some greater
    else some equal

-- `+` with a u32; a u16 and an i32 are first widened to a u32.
unfoldable pub add_u32 : AbsoluteSlotNumber → ℕ → AbsoluteSlotNumber
add_u32 a rhs =
    let next = (a.ls4b + rhs) % 2 ^ 32 in
    record { ls4b = next; ms1b = if ltb next a.ls4b then (a.ms1b + 1) % 256 else a.ms1b }

unfoldable pub add_u16 : AbsoluteSlotNumber → ℕ → AbsoluteSlotNumber
add_u16 a rhs =
    let next = (a.ls4b + rhs) % 2 ^ 32 in
    record { ls4b = next; ms1b = if ltb next a.ls4b then (a.ms1b + 1) % 256 else a.ms1b }

-- `rhs as u32` of an i32.
abbrev pub i32_as_u32 : ℤ → ℕ
i32_as_u32 (pos n) = n % 2 ^ 32
i32_as_u32 (negsuc n) = (2 ^ 32 - 1 - n % 2 ^ 32) % 2 ^ 32

unfoldable pub add_i32 : AbsoluteSlotNumber → ℤ → AbsoluteSlotNumber
add_i32 a rhs =
    let next = (a.ls4b + i32_as_u32 rhs) % 2 ^ 32 in
    record { ls4b = next; ms1b = if ltb next a.ls4b then (a.ms1b + 1) % 256 else a.ms1b }

unfoldable pub sub_u32 : AbsoluteSlotNumber → ℕ → AbsoluteSlotNumber
sub_u32 a rhs =
    let next = (a.ls4b + 2 ^ 32 - rhs) % 2 ^ 32 in
    record { ls4b = next; ms1b = if ltb a.ls4b next then (a.ms1b + 256 - 1) % 256 else a.ms1b }

unfoldable pub sub : AbsoluteSlotNumber → AbsoluteSlotNumber → ℕ
sub a rhs = (a.ls4b + 2 ^ 32 - rhs.ls4b) % 2 ^ 32

-- `%` by a u16. A remainder by zero panics. No intermediate value passes a u32.
unfoldable pub rem : AbsoluteSlotNumber → ℕ → Outcome ℕ
rem a rhs =
    let remainder = (0xffff_ffff % rhs + 1) % rhs in
    let result = a.ls4b % rhs + a.ms1b * remainder % rhs in
    if rhs == 0 then panics else returns (result % 2 ^ 16)

unfoldable pub try_from_i64 : ℤ → Option AbsoluteSlotNumber
try_from_i64 v = elim v [
  | pos n ↦
      if leb n 0xff_ffff_ffff
      then some (record { ls4b = n % 2 ^ 32; ms1b = n / 2 ^ 32 % 256 })
      else none
  | negsuc n ↦ none
]

pub try_from_i32 : ℤ → Option AbsoluteSlotNumber
try_from_i32 v = if ltb_ℤ v (pos 0) then none else some (record { ls4b = i32_as_u32 v; ms1b = 0 })

pub try_from_u32 : ℕ → Option AbsoluteSlotNumber
try_from_u32 v = some (record { ls4b = v; ms1b = 0 })

pub try_into_i64 : AbsoluteSlotNumber → Option ℤ
try_into_i64 a = some (pos (a.ls4b + a.ms1b * 2 ^ 32))

pub try_into_u32 : AbsoluteSlotNumber → Option ℕ
try_into_u32 a = if a.ms1b == 0 then some a.ls4b else none

-- `==` with an i64.
pub eq_i64 : AbsoluteSlotNumber → ℤ → Bool
eq_i64 a other = elim (try_from_i64 other) [ some asn ↦ eq asn a | none ↦ Bool.false ]
