-- ===== src/Frame/Addressing/Repr/Presence.antt =====
-- Which PAN IDs and addresses a frame has, against the rules of the standard (7.2.2.6).
use dot15d.Base.{
  ℕ, ◌≤◌, ◌≡◌, ◌≢◌, sym, ◌∙◌, Bool, true, false, not, ◌&&◌, ◌||◌, if◌then◌else◌, Option, some, none,
  Result, ok, err, arith, inl, inr, Result-cases,
}
use dot15d.Frame.Modes.{mode_length, AddressingMode, absent, extended}
use dot15d.Frame.Addressing.Repr.{
  AddressingRepr, PresentFlags, PanIdCompressionRepr, compression_yes, compression_no, legacy,
  present_legacy, present_2015, address_present_flags, addressing_fields_length,
  addressing_fields_lengths,
}

-- An address is in the frame.
abbrev pub present : AddressingMode → Bool
present absent = false
present _ = true

abbrev pub is_extended_mode : AddressingMode → Bool
is_extended_mode extended = true
is_extended_mode _ = false

-- The presence of the two PAN IDs from frame version 2015 on, by the compression bit: with two
-- extended addresses there is at most the destination's; with two addresses one of which is short
-- the destination's is there and the bit elides the source's; with one address the bit elides its
-- PAN ID; with none the bit asks for the destination's.
abbrev pub pans_2015 : AddressingMode → AddressingMode → Bool → Bool × Bool
pans_2015 dst src bit =
    if present dst && present src
    then (if is_extended_mode dst && is_extended_mode src
        then (not bit, false)
        else (true, not bit))
    else (if present dst
        then (not bit, false)
        else if present src
        then (false, not bit)
        else (bit, false))

-- Up to version 2006: two addresses have the destination's PAN ID, and the source's unless it is
-- equal; one address has its own; and there is no frame without any.
abbrev pub pans_legacy : AddressingMode → AddressingMode → Bool → Option (Bool × Bool)
pans_legacy dst src equal =
    if present dst && present src
    then some (true, not equal)
    else if (present dst || present src) && not equal
    then some (present dst, present src)
    else none

abbrev pub pans : AddressingRepr → Option (Bool × Bool)
pans r = elim r.pan_id_compression [
  | legacy ↦ pans_legacy r.dst r.src r.pan_ids_equal
  | compression_yes ↦ some (pans_2015 r.dst r.src true)
  | compression_no ↦ some (pans_2015 r.dst r.src false)
]

abbrev pub flags_of :
    AddressingMode → AddressingMode → Option (Bool × Bool) → Result PresentFlags (Unit {0})
flags_of dst src none = err tt
flags_of dst src (some (dst_pan_id, src_pan_id)) = ok (record {
  dst_pan_id = dst_pan_id;
  dst_address = dst;
  src_pan_id = src_pan_id;
  src_address = src;
})

legacy_rules :
    (dst src : AddressingMode) (equal : Bool)
    → dst ≢ AddressingMode.unknown
    → src ≢ AddressingMode.unknown
    → present_legacy dst src equal ≡ flags_of dst src (pans_legacy dst src equal)
unfolding present_legacy
legacy_rules dst src equal k l = ground arith

rules_2015 :
    (dst src : AddressingMode) (bit : Bool)
    → dst ≢ AddressingMode.unknown
    → src ≢ AddressingMode.unknown
    → present_2015 dst src bit ≡ flags_of dst src (some (pans_2015 dst src bit))
unfolding present_2015
rules_2015 dst src bit k l = ground arith

by_compression :
    (compression : PanIdCompressionRepr) (dst src : AddressingMode) (equal : Bool)
    → dst ≢ AddressingMode.unknown
    → src ≢ AddressingMode.unknown
    → (let r : AddressingRepr = record {
      dst = dst;
      src = src;
      pan_ids_equal = equal;
      pan_id_compression = compression;
    } in
        address_present_flags r ≡ flags_of dst src (pans r))
unfolding address_present_flags
by_compression legacy dst src equal k l = legacy_rules dst src equal k l
by_compression compression_yes dst src equal k l = rules_2015 dst src true k l
by_compression compression_no dst src equal k l = rules_2015 dst src false k l

-- The flags of a representation with known modes are the addresses as the modes say and the PAN
-- IDs as the rules of its frame version say; it is refused exactly where those rules have no case.
pub address_present_flags-pans :
    (r : AddressingRepr)
    → r.dst ≢ AddressingMode.unknown
    → r.src ≢ AddressingMode.unknown
    → address_present_flags r ≡ flags_of r.dst r.src (pans r)
address_present_flags-pans r k l =
    by_compression r.pan_id_compression r.dst r.src r.pan_ids_equal k l

pub mode_length-le : (m : AddressingMode) → mode_length m ≤ 8
unfolding mode_length
mode_length-le m = ground arith

-- The addressing fields take at most 20 octets, so the sums of their lengths do not leave a u8.
pub addressing_fields_length-le :
    (r : AddressingRepr) (n : ℕ) → addressing_fields_length r ≡ ok n → n ≤ 20
unfolding addressing_fields_length addressing_fields_lengths
addressing_fields_length-le r n e = elim (Result-cases (address_present_flags r)) [
  | inl (f, known) ↦
      let a = mode_length-le f.dst_address in
      let b = mode_length-le f.src_address in
      let e' = rw (known, addressing_fields_lengths, addressing_fields_length) at e in ground arith
  | inr (x, unknown) ↦
      let e' = rw (unknown, addressing_fields_lengths, addressing_fields_length) at e in
      ground arith
]

flags_of-modes :
    (dst src : AddressingMode) (o : Option (Bool × Bool)) (p : PresentFlags)
    → flags_of dst src o ≡ ok p
    → (p.dst_address ≡ dst) × (p.src_address ≡ src)
flags_of-modes dst src none p e = cc
flags_of-modes dst src (some (a, b)) p e = (cc, cc)

-- The modes in the flags of a representation with known modes are its own.
pub address_present_flags-modes :
    (r : AddressingRepr) (p : PresentFlags)
    → r.dst ≢ AddressingMode.unknown
    → r.src ≢ AddressingMode.unknown
    → address_present_flags r ≡ ok p
    → (p.dst_address ≡ r.dst) × (p.src_address ≡ r.src)
address_present_flags-modes r p k l e =
    flags_of-modes r.dst r.src (pans r) p (sym (address_present_flags-pans r k l) ∙ e)
