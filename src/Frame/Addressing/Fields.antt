-- ===== src/Frame/Addressing/Fields.antt =====
-- `AddressingFields` of dot15d4-driver/src/frame/addressing.rs: the addressing fields in a buffer.
pub mod Partition
pub mod Mutable
pub mod Unchecked
use dot15d.Base.{
  ℕ, ◌+◌, ◌-◌, Bool, true, false, ◌&&◌, List, [], ◌∷◌, ◌==◌, leb, if◌then◌else◌, length, take, drop,
  Option, some, none, Outcome, returns, panics, ◌>>=◌, Result, ok, err,
}
use dot15d.Frame.Addressing.{Address, absent, short, extended}
use dot15d.Frame.Addressing.Repr.{
  AddressingRepr, FieldLengths, addressing_fields_length, addressing_fields_lengths,
}

pub record AddressingFields : Type 0 where
  pub dst_addr_offset : ℕ
  pub src_pan_id_offset : ℕ
  pub src_addr_offset : ℕ
  pub last_byte : ℕ
  pub le_bytes : List ℕ

abbrev pub with_lengths : List ℕ → FieldLengths → AddressingFields
with_lengths le_bytes l =
    let dst_addr_offset = l.dst_pan_id in
    let src_pan_id_offset = dst_addr_offset + l.dst_address in
    let src_addr_offset = src_pan_id_offset + l.src_pan_id in
    let last_byte = src_addr_offset + l.src_address in
    record {
      dst_addr_offset = dst_addr_offset;
      src_pan_id_offset = src_pan_id_offset;
      src_addr_offset = src_addr_offset;
      last_byte = last_byte;
      le_bytes = le_bytes;
    }

pub new_unchecked : List ℕ → AddressingRepr → Result AddressingFields (Unit {0})
new_unchecked le_bytes repr = elim (addressing_fields_lengths repr) [
  | ok l ↦ ok (with_lengths le_bytes l)
  | err e ↦ err tt
]

pub new : List ℕ → AddressingRepr → Result AddressingFields (Unit {0})
unfolding new_unchecked
new le_bytes repr = elim (addressing_fields_length repr) [
  | ok expected_len ↦
      if length le_bytes == expected_len then new_unchecked le_bytes repr else err tt
  | err e ↦ err tt
]

-- `&bytes[start..end]`
abbrev pub slice : List ℕ → ℕ → ℕ → Outcome (List ℕ)
slice bytes start end =
    if leb start end && leb end (length bytes)
    then returns (take (end - start) (drop start bytes))
    else panics

abbrev pub addr_of_slice : List ℕ → Outcome (Option Address)
addr_of_slice addr =
    if length addr == 0
    then returns (some absent)
    else if length addr == 2
    then returns (some (short addr))
    else if length addr == 8
    then returns (some (extended addr))
    else panics

-- As it is written, with a length of 4 for an extended address.
abbrev pub addr_of_slice_mut : List ℕ → Outcome (Option Address)
addr_of_slice_mut addr =
    if length addr == 0
    then returns (some absent)
    else if length addr == 2
    then returns (some (short addr))
    else if length addr == 4
    then returns (some (extended addr))
    else panics

-- A PAN ID is its two little-endian bytes.
abbrev pub pan_id_of_slice : List ℕ → Outcome (Option (List ℕ))
pan_id_of_slice pan_id =
    if length pan_id == 0
    then returns none
    else if length pan_id == 2
    then returns (some pan_id)
    else panics

abbrev pub addr_from_range : AddressingFields → ℕ → ℕ → Outcome (Option Address)
addr_from_range f start end = slice f.le_bytes start end >>= addr_of_slice

abbrev pub addr_from_range_mut : AddressingFields → ℕ → ℕ → Outcome (Option Address)
addr_from_range_mut f start end = slice f.le_bytes start end >>= addr_of_slice_mut

abbrev pub pan_id_from_range : AddressingFields → ℕ → ℕ → Outcome (Option (List ℕ))
pan_id_from_range f start end = slice f.le_bytes start end >>= pan_id_of_slice

pub dst_pan_id : AddressingFields → Outcome (Option (List ℕ))
dst_pan_id f = pan_id_from_range f 0 f.dst_addr_offset

pub dst_address : AddressingFields → Outcome (Option Address)
dst_address f = addr_from_range f f.dst_addr_offset f.src_pan_id_offset

pub src_pan_id : AddressingFields → Outcome (Option (List ℕ))
src_pan_id f = pan_id_from_range f f.src_pan_id_offset f.src_addr_offset

pub src_address : AddressingFields → Outcome (Option Address)
src_address f = addr_from_range f f.src_addr_offset f.last_byte

-- What the accessors that borrow mutably see.
pub dst_address_mut : AddressingFields → Outcome (Option Address)
dst_address_mut f = addr_from_range_mut f f.dst_addr_offset f.src_pan_id_offset

pub src_address_mut : AddressingFields → Outcome (Option Address)
src_address_mut f = addr_from_range_mut f f.src_addr_offset f.last_byte

abbrev pub pan_id_of_slice_mut : List ℕ → Outcome (Option (List ℕ))
pan_id_of_slice_mut pan_id =
    if length pan_id == 0
    then returns none
    else if length pan_id == 2
    then returns (some pan_id)
    else panics

pub dst_pan_id_mut : AddressingFields → Outcome (Option (List ℕ))
dst_pan_id_mut f = slice f.le_bytes 0 f.dst_addr_offset >>= pan_id_of_slice_mut

pub src_pan_id_mut : AddressingFields → Outcome (Option (List ℕ))
src_pan_id_mut f = slice f.le_bytes f.src_pan_id_offset f.src_addr_offset >>= pan_id_of_slice_mut

pub fields_length : AddressingFields → ℕ
fields_length f = length f.le_bytes
