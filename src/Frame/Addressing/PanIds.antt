-- ===== src/Frame/Addressing/PanIds.antt =====
-- PAN IDs: `PanId` of dot15d4-driver/src/frame/addressing.rs, which is its two little-endian bytes,
-- and the other setters of `ShortAddress` and `ExtendedAddress`.
use dot15d.Base.{
  ℕ, ◌+◌, ◌*◌, ◌/◌, ◌%◌, ◌<◌, ◌≡◌, refl, ap, List, [], ◌∷◌, length, Outcome, returns, panics, ◌>>=◌,
  arith, reverse, reverse-reverse, length-reverse,
}
use dot15d.Frame.Addressing.{array_of, copy_slice, into_u16}

pub record PanId : Type 0 where
  pub le_bytes : List ℕ

pub into_be_bytes : PanId → Outcome (List ℕ)
into_be_bytes p = do bytes ← array_of 2 p.le_bytes; returns (reverse bytes)

pub from_be_bytes : List ℕ → PanId
from_be_bytes be_bytes = record { le_bytes = reverse be_bytes }

abbrev u16_of_bytes : List ℕ → Outcome ℕ
u16_of_bytes (b0 ∷ b1 ∷ []) = returns (b0 + b1 * 256)
u16_of_bytes _ = panics

pub pan_id_into_u16 : PanId → Outcome ℕ
pan_id_into_u16 p = u16_of_bytes p.le_bytes

pub pan_id_from_u16 : ℕ → PanId
pan_id_from_u16 n = record { le_bytes = n % 256 ∷ n / 256 ∷ [] }

abbrev overwritten : PanId → List ℕ → Outcome PanId
overwritten p bytes = do bytes ← copy_slice p.le_bytes bytes; returns (record { le_bytes = bytes })

pub set_le_bytes : PanId → List ℕ → Outcome PanId
set_le_bytes p le_bytes = overwritten p le_bytes

pub set_be_bytes : PanId → List ℕ → Outcome PanId
set_be_bytes p be_bytes = do bytes ← array_of 2 be_bytes; overwritten p (reverse bytes)

pub set_u16 : PanId → ℕ → Outcome PanId
set_u16 p n = overwritten p (n % 256 ∷ n / 256 ∷ [])

-- `ShortAddress::set_le_bytes` and `ExtendedAddress::set_le_bytes`, which do the same, and
-- `ShortAddress::set_u16`.
pub address_set_le_bytes : List ℕ → List ℕ → Outcome (List ℕ)
address_set_le_bytes this le_bytes = copy_slice this le_bytes

pub address_set_u16 : List ℕ → ℕ → Outcome (List ℕ)
address_set_u16 this n = copy_slice this (n % 256 ∷ n / 256 ∷ [])

-- A u16, or two big-endian bytes, that are written into a PAN ID of two bytes are read back, and
-- so is a u16 that is written into a short address of two bytes; a PAN ID made of a u16 is read
-- back as it, and one made of the big-endian bytes of another is the other.
pub set-into :
    (p : PanId) (bytes : List ℕ) (n : ℕ)
    → length p.le_bytes ≡ 2
    → length bytes ≡ 2
    → n < 65536
    → ((set_u16 p n >>= pan_id_into_u16) ≡ returns n)
      × ((set_be_bytes p bytes >>= into_be_bytes) ≡ returns bytes)
      × ((address_set_u16 p.le_bytes n >>= into_u16) ≡ returns n)
      × (pan_id_into_u16 (pan_id_from_u16 n) ≡ returns n)
      × ((into_be_bytes p >>= λ be_bytes. returns (from_be_bytes be_bytes)) ≡ returns p)
unfolding into_be_bytes from_be_bytes pan_id_into_u16 pan_id_from_u16 set_be_bytes set_u16
    address_set_u16 into_u16
set-into p bytes n h k l =
    let same : n % 256 + n / 256 * 256 ≡ n = omega arith in
    let stored : set_be_bytes p bytes ≡ returns (record { le_bytes = reverse bytes }) =
      rw (k, length-reverse bytes, h, k) refl in
    (
      rw (h, same) refl,
      rw (stored, length-reverse bytes, k, reverse-reverse bytes) refl,
      rw (h, same) refl,
      ap returns same,
      rw (h, reverse-reverse p.le_bytes) refl,
    )
