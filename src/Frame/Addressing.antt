-- ===== src/Frame/Addressing.antt =====
-- Addresses: dot15d4-driver/src/frame/addressing.rs, `ShortAddress` to `Address`. A byte buffer is
-- a list; the fixed arrays `[u8; 2]` and `[u8; 8]` are buffers of that length.
pub mod Repr
pub mod Fields
pub mod Addresses
pub mod PanIds
use dot15d.Base.{
  ℕ, ◌+◌, ◌*◌, ◌/◌, ◌%◌, Bool, true, false, not, ◌&&◌, List, [], ◌∷◌, ◌++◌, ◌==◌, if◌then◌else◌,
  length, Option, some, none, Outcome, returns, panics, ◌>>=◌, Result, ok, err, bytes_eq, reverse,
}
use dot15d.Frame.Modes.{AddressingMode}
use dot15d.Frame.Modes

-- `<[u8; n]>::try_from(slice).unwrap()`, and `expect`.
abbrev pub array_of : ℕ → List ℕ → Outcome (List ℕ)
array_of n bytes = if length bytes == n then returns bytes else panics

-- `dst.clone_from_slice(src)` and `copy_from_slice`: the new contents of `dst`.
abbrev pub copy_slice : List ℕ → List ℕ → Outcome (List ℕ)
copy_slice dst src = if length dst == length src then returns src else panics

-- `ShortAddress::into_be_bytes`, of its little-endian bytes; `PanId` has the same.
pub into_be_bytes_2 : List ℕ → Outcome (List ℕ)
into_be_bytes_2 le_bytes = do bytes ← array_of 2 le_bytes; returns (reverse bytes)

pub from_be_bytes_2 : List ℕ → List ℕ
from_be_bytes_2 be_bytes = reverse be_bytes

pub into_u16 : List ℕ → Outcome ℕ
into_u16 (b0 ∷ b1 ∷ []) = returns (b0 + b1 * 256)
into_u16 _ = panics

pub from_u16 : ℕ → List ℕ
from_u16 n = n % 256 ∷ n / 256 ∷ []

pub set_be_bytes_2 : List ℕ → List ℕ → Outcome (List ℕ)
set_be_bytes_2 this be_bytes = do bytes ← array_of 2 be_bytes; copy_slice this (reverse bytes)

-- `ExtendedAddress`.
unfoldable pub into_be_bytes_8 : List ℕ → Outcome (List ℕ)
into_be_bytes_8 le_bytes = do bytes ← array_of 8 le_bytes; returns (reverse bytes)

pub from_be_bytes_8 : List ℕ → List ℕ
from_be_bytes_8 be_bytes = reverse be_bytes

-- As it is written, with an array of two bytes.
pub extended_set_be_bytes : List ℕ → List ℕ → Outcome (List ℕ)
extended_set_be_bytes this be_bytes = do
  bytes ← array_of 2 be_bytes
  copy_slice this (reverse bytes)

pub data Address : Type 0 where
  absent : Address
  short : List ℕ → Address
  extended : List ℕ → Address

pub address_length : Address → ℕ
address_length absent = 0
address_length (short _) = 2
address_length (extended _) = 8

pub is_absent : Address → Bool
is_absent absent = true
is_absent _ = false

pub is_short : Address → Bool
is_short (short _) = true
is_short _ = false

pub is_extended : Address → Bool
is_extended (extended _) = true
is_extended _ = false

abbrev pub broadcast_addr_data : List ℕ
broadcast_addr_data = 0xff ∷ 0xff ∷ []

unfoldable pub is_broadcast : Address → Bool
is_broadcast absent = false
is_broadcast (short bytes) = bytes_eq bytes broadcast_addr_data
is_broadcast (extended _) = false

pub is_unicast : Address → Bool
unfolding is_broadcast
is_unicast a = not (is_broadcast a)

abbrev pub first_two : List ℕ → Outcome (List ℕ)
first_two (a ∷ b ∷ _) = returns (a ∷ b ∷ [])
first_two _ = panics

pub to_short : Address → Outcome (Option Address)
to_short (short le_bytes) = returns (some (short le_bytes))
to_short (extended le_bytes) = do bytes ← first_two le_bytes; returns (some (short bytes))
to_short absent = returns none

abbrev pub as_le_bytes : Address → List ℕ
as_le_bytes absent = []
as_le_bytes (short le_bytes) = le_bytes
as_le_bytes (extended le_bytes) = le_bytes

-- The address with the bytes that `as_le_bytes_mut` gives access to overwritten.
abbrev with_le_bytes : Address → List ℕ → Address
with_le_bytes absent bytes = absent
with_le_bytes (short _) bytes = short bytes
with_le_bytes (extended _) bytes = extended bytes

-- `Address::set`: the address after the call, and its result.
pub set_address : Address → Address → Address × Result (Unit {0}) (Unit {0})
set_address this src =
    if length (as_le_bytes src) == length (as_le_bytes this)
    then (with_le_bytes this (as_le_bytes src), ok tt)
    else (this, err tt)

pub from_le_bytes : List ℕ → Outcome Address
from_le_bytes le_bytes =
    if length le_bytes == 0
    then returns absent
    else if length le_bytes == 2
    then returns (short le_bytes)
    else if length le_bytes == 8
    then returns (extended le_bytes)
    else panics

abbrev pub mode_of : Address → AddressingMode
mode_of absent = Modes.absent
mode_of (short _) = Modes.short
mode_of (extended _) = Modes.extended
