-- ===== src/Frame/Addressing/Addresses.antt =====
-- Byte orders, conversions and assignments of addresses.
use dot15d.Base.{
  ℕ, ◌+◌, ◌*◌, ◌/◌, ◌%◌, ◌<◌, ◌≡◌, ◌≢◌, refl, sym, ap, ◌⊎◌, inl, inr, true, List, [], ◌∷◌, ◌==◌,
  length, returns, panics, ◌>>=◌, ok, err, arith, reverse, reverse-reverse, length-reverse,
  Bool-cases,
}
use dot15d.Frame.Modes.{mode_length}
use dot15d.Frame.Addressing.{
  Address, absent, short, extended, as_le_bytes, mode_of, into_be_bytes_2, from_be_bytes_2,
  set_be_bytes_2, into_be_bytes_8, from_be_bytes_8, extended_set_be_bytes, into_u16, from_u16,
  from_le_bytes, set_address,
}

-- An address whose buffer has the length of its kind.
abbrev pub IsSized : Address → Type 0
IsSized a = length (as_le_bytes a) ≡ mode_length (mode_of a)

-- Of two bytes, and of eight, reading the big-endian bytes and making an address of them gives
-- the same bytes again; and writing big-endian bytes into two gives a buffer that reads as them.
pub be_bytes-round_trip :
    (xs : List ℕ) (ys : List ℕ) (zs : List ℕ)
    → length xs ≡ 2
    → length ys ≡ 8
    → length zs ≡ 2
    → ((into_be_bytes_2 xs >>= λ b. returns (from_be_bytes_2 b)) ≡ returns xs)
      × ((into_be_bytes_8 ys >>= λ b. returns (from_be_bytes_8 b)) ≡ returns ys)
      × ((set_be_bytes_2 xs zs >>= into_be_bytes_2) ≡ returns zs)
unfolding into_be_bytes_2 from_be_bytes_2 into_be_bytes_8 from_be_bytes_8 set_be_bytes_2
be_bytes-round_trip xs ys zs h k l =
    let stored : set_be_bytes_2 xs zs ≡ returns (reverse zs) =
      rw (l, length-reverse zs, h, l) refl in
    (
      rw (h, reverse-reverse xs) refl,
      rw (k, reverse-reverse ys) refl,
      rw (stored, length-reverse zs, l, reverse-reverse zs) refl,
    )

-- A u16 survives being written as two bytes and read back, and two bytes survive being read as a
-- u16 and written back.
pub u16-round_trip :
    (n b0 b1 : ℕ)
    → n < 65536
    → b0 < 256
    → (into_u16 (from_u16 n) ≡ returns n)
      × ((into_u16 (b0 ∷ b1 ∷ []) >>= λ v. returns (from_u16 v)) ≡ returns (b0 ∷ b1 ∷ []))
unfolding into_u16 from_u16
u16-round_trip n b0 b1 h k =
    let low : (b0 + b1 * 256) % 256 ≡ b0 = omega arith in
    let high : (b0 + b1 * 256) / 256 ≡ b1 = omega arith in
    (ap returns (omega arith), rw (low, high) refl)

-- An address of the right length is what its bytes parse as.
pub from_le_bytes-as_le_bytes :
    (a : Address) → IsSized a → from_le_bytes (as_le_bytes a) ≡ returns a
unfolding from_le_bytes mode_length
from_le_bytes-as_le_bytes absent h = refl
from_le_bytes-as_le_bytes (short xs) h = rw h refl
from_le_bytes-as_le_bytes (extended xs) h = rw h refl

-- What parsing bytes does.
pub data Parses (bytes : List ℕ) : Type 0 where
  parsed :
      (a : Address)
      → from_le_bytes bytes ≡ returns a
      → as_le_bytes a ≡ bytes
      → IsSized a
      → Parses bytes
  refused :
      length bytes ≢ 0
      → length bytes ≢ 2
      → length bytes ≢ 8
      → from_le_bytes bytes ≡ panics
      → Parses bytes

empty : (bytes : List ℕ) → (length bytes == 0) ≡ true → bytes ≡ []
empty [] e = refl
empty (x ∷ xs) e = ground arith

-- Bytes parse, as themselves and as a sized address, or their length is none of 0, 2 and 8 and
-- parsing panics.
pub from_le_bytes_cases : (bytes : List ℕ) → Parses bytes
unfolding from_le_bytes mode_length
from_le_bytes_cases bytes = elim (Bool-cases (length bytes == 0)) [
  | inl e ↦ parsed absent (rw e refl) (sym (empty bytes e)) refl
  | inr n0 ↦ elim (Bool-cases (length bytes == 2)) [
    | inl e ↦ parsed (short bytes) (rw (n0, e) refl) refl (ground arith)
    | inr n2 ↦ elim (Bool-cases (length bytes == 8)) [
      | inl e ↦ parsed (extended bytes) (rw (n0, n2, e) refl) refl (ground arith)
      | inr n8 ↦ refused (ground arith) (ground arith) (ground arith) (rw (n0, n2, n8) refl)
    ]
  ]
]

-- Setting an address from a sized one: where the kinds are the same the address becomes the source
-- and the call succeeds; otherwise the call fails and the address is as it was.
pub set_address_cases :
    (this src : Address)
    → IsSized this
    → IsSized src
    → ((mode_of this ≡ mode_of src) × (set_address this src ≡ (src, ok tt)))
      ⊎ ((mode_of this ≢ mode_of src) × (set_address this src ≡ (this, err tt)))
unfolding set_address mode_length
set_address_cases absent absent h k = inl (refl, refl)
set_address_cases absent (short ys) h k = inr (λ e. cc, rw k refl)
set_address_cases absent (extended ys) h k = inr (λ e. cc, rw k refl)
set_address_cases (short xs) absent h k = inr (λ e. cc, rw h refl)
set_address_cases (short xs) (short ys) h k = inl (refl, rw (h, k) refl)
set_address_cases (short xs) (extended ys) h k = inr (λ e. cc, rw (h, k) refl)
set_address_cases (extended xs) absent h k = inr (λ e. cc, rw h refl)
set_address_cases (extended xs) (short ys) h k = inr (λ e. cc, rw (h, k) refl)
set_address_cases (extended xs) (extended ys) h k = inl (refl, rw (h, k) refl)

-- Setting an extended address of eight bytes from big-endian bytes panics, whatever the bytes.
pub extended_set_be_bytes_panics :
    (this be_bytes : List ℕ) → length this ≡ 8 → extended_set_be_bytes this be_bytes ≡ panics
unfolding extended_set_be_bytes
extended_set_be_bytes_panics this be_bytes h = elim (Bool-cases (length be_bytes == 2)) [
  | inl two ↦
      let len : length be_bytes ≡ 2 = ground arith in rw (two, h, length-reverse be_bytes, len) refl
  | inr other ↦ rw other refl
]
