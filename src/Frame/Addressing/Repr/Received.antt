-- ===== src/Frame/Addressing/Repr/Received.antt =====
-- The representation that is read from a frame control field, on every branch.
use dot15d.Base.{
  ◌≡◌, ◌≢◌, refl, ◌∙◌, Bool, true, false, not, ◌&&◌, ◌||◌, if◌then◌else◌, returns, panics, ok, err,
  arith, ◌⊎◌, inl, inr,
}
use dot15d.Frame.Modes.{AddressingMode, FrameVersion, ieee802154_2003, ieee802154_2006, ieee802154}
use dot15d.Frame.Control.{
  FrameControl, dst_addressing_mode, src_addressing_mode, frame_version, pan_id_compression,
}
use dot15d.Frame.Addressing.Repr.{
  AddressingRepr, PanIdCompressionRepr, compression_yes, legacy, compression_of, from_compression,
  new_repr, non_empty, is_unknown_mode, is_absent_mode, is_short_mode, both_present,
  from_frame_control, has_pan_id_compression, PresentFlags, address_present_flags, present_legacy,
}

-- The four fields that `from_frame_control` reads.
pub record HeaderReads (fc : FrameControl) : Type 0 where
  pub dst : AddressingMode
  pub src : AddressingMode
  pub version : FrameVersion
  pub bit : Bool
  pub dst_read : dst_addressing_mode fc ≡ returns dst
  pub src_read : src_addressing_mode fc ≡ returns src
  pub version_read : frame_version fc ≡ returns version
  pub bit_read : pan_id_compression fc ≡ returns bit

-- What the call does with them.
pub data Received (fc : FrameControl) (h : HeaderReads fc) : Type 0 where
  reserved_version :
      h.version ≡ FrameVersion.unknown → from_frame_control fc ≡ returns (err tt) → Received fc h
  reserved_mode :
      h.version ≢ FrameVersion.unknown
      → ((h.dst ≡ AddressingMode.unknown) ⊎ (h.src ≡ AddressingMode.unknown))
      → from_frame_control fc ≡ panics
      → Received fc h
  known :
      (r : AddressingRepr)
      → h.version ≢ FrameVersion.unknown
      → r.dst ≡ h.dst
      → r.src ≡ h.src
      → h.dst ≢ AddressingMode.unknown
      → h.src ≢ AddressingMode.unknown
      → from_frame_control fc ≡ returns (non_empty r)
      → Received fc h

known_version :
    (version : FrameVersion) (dst src : AddressingMode) (bit : Bool)
    → (version ≡ FrameVersion.unknown)
      ⊎ ((version ≢ FrameVersion.unknown)
          × ((p : PanIdCompressionRepr × Bool) × (compression_of version dst src bit ≡ ok p)))
known_version ieee802154_2003 dst src bit = inr (λ e. cc, (_, refl))
known_version ieee802154_2006 dst src bit = inr (λ e. cc, (_, refl))
known_version ieee802154 dst src bit = inr (λ e. cc, (_, refl))
known_version FrameVersion.unknown dst src bit = inl refl

known_modes :
    (dst src : AddressingMode)
    → ((is_unknown_mode dst || is_unknown_mode src ≡ true)
        × ((dst ≡ AddressingMode.unknown) ⊎ (src ≡ AddressingMode.unknown)))
      ⊎ ((is_unknown_mode dst || is_unknown_mode src ≡ false)
          × (dst ≢ AddressingMode.unknown)
          × (src ≢ AddressingMode.unknown))
known_modes dst src = ground arith

-- A frame control field whose bytes are there: a reserved version is an error, a reserved
-- addressing mode under a known version is a panic, and otherwise the call returns: the
-- representation with the modes of the header, nothing where it has no fields, or an error where
-- its combination of fields is invalid.
pub from_frame_control_cases : (fc : FrameControl) (h : HeaderReads fc) → Received fc h
unfolding from_frame_control new_repr
from_frame_control_cases fc h = elim (known_version h.version h.dst h.src h.bit) [
  | inl e ↦ reserved_version e (rw (h.dst_read, h.src_read, h.version_read, h.bit_read, e) refl)
  | inr (v, ((kind, equal), c)) ↦ elim (known_modes h.dst h.src) [
    | inl (u, m) ↦
        reserved_mode v m
          (rw (h.dst_read, h.src_read, h.version_read, h.bit_read, c, from_compression, u) refl)
    | inr (u, d, s) ↦
        known
          (record { dst = h.dst; src = h.src; pan_ids_equal = equal; pan_id_compression = kind }) v
          refl refl d s
          (rw (h.dst_read, h.src_read, h.version_read, h.bit_read, c, from_compression, u) refl)
  ]
]

if_short :
    (b : Bool) (dst src : AddressingMode)
    → returns (
        non_empty (record {
          dst = dst;
          src = src;
          pan_ids_equal = if b then true else false;
          pan_id_compression = compression_yes;
        }))
      ≡ returns (
          non_empty (record {
            dst = dst;
            src = src;
            pan_ids_equal = b;
            pan_id_compression = compression_yes;
          }))
if_short true dst src = refl
if_short false dst src = refl

compressed_kind :
    (r : AddressingRepr) → r.pan_id_compression ≢ legacy → has_pan_id_compression r ≡ true
unfolding has_pan_id_compression
compressed_kind r k = ground arith

legacy_bit :
    (dst src : AddressingMode) (equal : Bool) (p : PresentFlags)
    → present_legacy dst src equal ≡ ok p
    → (if not (is_absent_mode dst) && not (is_absent_mode src)
        then both_present dst src && equal
        else false)
      ≡ equal
unfolding present_legacy
legacy_bit dst src equal p e = ground arith

-- The bit that `pan_id_compression` gives for a valid representation up to version 2006, read back
-- under such a version: the kind is legacy and the equality of the PAN IDs is the same.
pub legacy_compression-round_trip :
    (r : AddressingRepr) (p : PresentFlags)
    → r.pan_id_compression ≡ legacy
    → address_present_flags r ≡ ok p
    → compression_of ieee802154_2006 r.dst r.src (has_pan_id_compression r)
      ≡ ok (legacy, r.pan_ids_equal)
unfolding has_pan_id_compression address_present_flags present_legacy
legacy_compression-round_trip r p k e =
    let valid = rw (k, address_present_flags) at e in
    let same = legacy_bit r.dst r.src r.pan_ids_equal p valid in
    rw (k, has_pan_id_compression, same) refl

-- The bit that `pan_id_compression` gives for a representation of version 2015, read back under
-- that version: the kind is Yes, also where the representation's is No.
pub compression_no-read_as_yes :
    (r : AddressingRepr)
    → r.pan_id_compression ≢ legacy
    → (equal : Bool) × (compression_of ieee802154 r.dst r.src (has_pan_id_compression r)
        ≡ ok (compression_yes, equal))
compression_no-read_as_yes r k = rw (compressed_kind r k) (_, refl)

-- A header of version 2015 whose bit for PAN ID compression is the one that `pan_id_compression` gives
-- for a representation that is not legacy, with the known modes of that: `from_frame_control` reads
-- it as a representation of kind Yes, whose PAN IDs count as equal where an address is short, also
-- where the kind is No. It is nothing where that has no fields, or an error where it is invalid.
pub compression-read_back :
    (r : AddressingRepr) (fc : FrameControl) (h : HeaderReads fc)
    → r.pan_id_compression ≢ legacy
    → h.version ≡ ieee802154
    → h.dst ≡ r.dst
    → h.src ≡ r.src
    → h.bit ≡ has_pan_id_compression r
    → is_unknown_mode r.dst || is_unknown_mode r.src ≡ false
    → from_frame_control fc
      ≡ returns (
          non_empty (record {
            dst = r.dst;
            src = r.src;
            pan_ids_equal = is_short_mode r.dst || is_short_mode r.src;
            pan_id_compression = compression_yes;
          }))
unfolding from_frame_control new_repr
compression-read_back r fc h kind version dst src bit modes =
    let set = bit ∙ compressed_kind r kind in
    rw (h.dst_read, h.src_read, h.version_read, h.bit_read, version, dst, src, set, modes)
      (if_short (is_short_mode r.dst || is_short_mode r.src) r.dst r.src)
