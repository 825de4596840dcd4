-- ===== src/Frame/Control/Fields.antt =====
-- Reading and writing the fields of the frame control field.
use Prim.Native.Nat.{bit_or}
use dot15d.Base.{
  ℕ, ◌+◌, ◌*◌, ◌/◌, ◌%◌, ◌^◌, ◌<◌, ◌≡◌, refl, ap, Bool, true, false, not, ◌&&◌, List, [], ◌∷◌, ◌==◌,
  Outcome, returns, arith,
}
use dot15d.Base.Bits.{bit_or-zero}
use dot15d.Frame.Modes.{
  FrameType, frame_type_from, frame_type_code, FrameVersion, frame_version_from, frame_version_code,
  AddressingMode, addressing_mode_from, addressing_mode_code,
}
use dot15d.Frame.Control.{FrameControl, load, store}
use dot15d.Frame.Control
use dot15d.Frame.Control.Header.{
  Header, header, mask_one, mask_three, mask_seven, replace_type, replace_dst, replace_version,
  replace_src, raise_security_enabled, raise_frame_pending, raise_ack_request,
  raise_pan_id_compression, raise_sequence_number_suppression, raise_information_elements_present,
}

unknown_type : (t : ℕ) → t < 8 → Control.is_unknown_type (frame_type_from t) ≡ (t == 4)
unfolding frame_type_from
unknown_type t h = ground arith

unknown_version : (v : ℕ) → v < 4 → Control.is_unknown_version (frame_version_from v) ≡ (v == 3)
unfolding frame_version_from
unknown_version v h = ground arith

module _ (b0 b1 : ℕ) (rest : List ℕ) where
  -- A buffer of at least two bytes, and its first two as a little-endian u16.
  abbrev pub buffer : FrameControl
  buffer = record { bytes = b0 ∷ b1 ∷ rest }

  abbrev pub raw : ℕ
  raw = b0 + b1 * 256

  abbrev pub ReadsHeader : Type 0
  ReadsHeader =
      (Control.frame_type buffer ≡ returns (frame_type_from (header raw).frame_type))
      × (Control.security_enabled buffer ≡ returns ((header raw).security_enabled == 1))
      × (Control.frame_pending buffer ≡ returns ((header raw).frame_pending == 1))
      × (Control.ack_request buffer ≡ returns ((header raw).ack_request == 1))
      × (Control.pan_id_compression buffer ≡ returns ((header raw).pan_id_compression == 1))
      × (Control.sequence_number_suppression buffer
          ≡ returns ((header raw).sequence_number_suppression == 1))
      × (Control.information_elements_present buffer
          ≡ returns ((header raw).information_elements_present == 1))
      × (Control.dst_addressing_mode buffer
          ≡ returns (addressing_mode_from (header raw).dst_addressing_mode))
      × (Control.frame_version buffer ≡ returns (frame_version_from (header raw).frame_version))
      × (Control.src_addressing_mode buffer
          ≡ returns (addressing_mode_from (header raw).src_addressing_mode))

  -- What the ten readers of a buffer of at least two bytes answer, by the fields of its header; the
  -- flags are bits that are 1.
  pub readers : ReadsHeader
  unfolding Control.frame_type Control.security_enabled Control.frame_pending Control.ack_request
      Control.pan_id_compression Control.sequence_number_suppression
      Control.information_elements_present Control.dst_addressing_mode Control.frame_version
      Control.src_addressing_mode
  readers = (
    ap (λ (t : ℕ). returns (frame_type_from t)) (mask_seven raw),
    ap (λ (t : ℕ). returns (t == 1)) (mask_one (raw / 2 ^ 3)),
    ap (λ (t : ℕ). returns (t == 1)) (mask_one (raw / 2 ^ 4)),
    ap (λ (t : ℕ). returns (t == 1)) (mask_one (raw / 2 ^ 5)),
    ap (λ (t : ℕ). returns (t == 1)) (mask_one (raw / 2 ^ 6)),
    ap (λ (t : ℕ). returns (t == 1)) (mask_one (raw / 2 ^ 8)),
    ap (λ (t : ℕ). returns (t == 1)) (mask_one (raw / 2 ^ 9)),
    ap (λ (t : ℕ). returns (addressing_mode_from t)) (mask_three (raw / 2 ^ 10)),
    ap (λ (t : ℕ). returns (frame_version_from t)) (mask_three (raw / 2 ^ 12)),
    ap (λ (t : ℕ). returns (addressing_mode_from t)) (mask_three (raw / 2 ^ 14)),
  )

  -- A buffer of two bytes is a valid header where neither the frame type is the reserved 4 nor the
  -- frame version the reserved 3.
  pub is_valid-header :
      Control.is_valid buffer
      ≡ returns (not ((header raw).frame_type == 4) && not ((header raw).frame_version == 3))
  unfolding Control.is_valid Control.frame_type Control.frame_version
  is_valid-header =
      rw
        (
          mask_seven raw,
          mask_three (raw / 2 ^ 12),
          unknown_type (header raw).frame_type (omega arith),
          unknown_version (header raw).frame_version (omega arith),
        )
        (ground arith)

  -- A write that succeeds: the two bytes become those of a u16 with the given header, and what
  -- follows them stays.
  pub record Writes (o : Outcome FrameControl) (h : Header) : Type 0 where
    pub new_raw : ℕ
    pub fits : new_raw < 65536
    pub reads : header new_raw ≡ h
    pub stored : o ≡ returns (record { bytes = new_raw % 256 ∷ new_raw / 256 ∷ rest })

  written : (r : ℕ) {h : Header} → (r < 65536) × (header r ≡ h) → Writes (store buffer r) h
  written r (a, b) = record { new_raw = r; fits = a; reads = b; stored = refl }

  module _ (h0 : b0 < 256) (h1 : b1 < 256) where
    in_range : raw < 65536
    in_range = omega arith

    abbrev pub SetsFields : FrameType → AddressingMode → AddressingMode → FrameVersion → Type 0
    SetsFields ty dst src version =
        Writes (Control.set_frame_type buffer ty)
          (record (header raw) { frame_type = frame_type_code ty % 8 })
        × Writes (Control.set_dst_addressing_mode buffer dst)
            (record (header raw) { dst_addressing_mode = addressing_mode_code dst % 4 })
        × Writes (Control.set_src_addressing_mode buffer src)
            (record (header raw) { src_addressing_mode = addressing_mode_code src % 4 })
        × Writes (Control.set_frame_version buffer version)
            (record (header raw) { frame_version = frame_version_code version % 4 })

    -- Setting the frame type, an addressing mode or the version writes the low bits of its code
    -- into its field and leaves every other bit of the header, and every later byte, as it was.
    pub set_field_writes :
        (ty : FrameType) (dst src : AddressingMode) (version : FrameVersion)
        → SetsFields ty dst src version
    unfolding Control.set_frame_type Control.set_dst_addressing_mode Control.set_src_addressing_mode
        Control.set_frame_version
    set_field_writes ty dst src version = (
      rw (mask_seven (frame_type_code ty))
          (written _ (replace_type raw (frame_type_code ty % 8) in_range (omega arith))),
      rw (mask_three (addressing_mode_code dst))
          (written _ (replace_dst raw (addressing_mode_code dst % 4) in_range (omega arith))),
      rw (mask_three (addressing_mode_code src))
          (written _ (replace_src raw (addressing_mode_code src % 4) in_range (omega arith))),
      rw (mask_three (frame_version_code version))
          (written _ (replace_version raw (frame_version_code version % 4) in_range (omega arith))),
    )

    abbrev pub RaisesFlags : Type 0
    RaisesFlags =
        Writes (Control.set_security_enabled buffer true)
          (record (header raw) { security_enabled = 1 })
        × Writes (Control.set_frame_pending buffer true) (record (header raw) { frame_pending = 1 })
        × Writes (Control.set_ack_request buffer true) (record (header raw) { ack_request = 1 })
        × Writes (Control.set_pan_id_compression buffer true)
            (record (header raw) { pan_id_compression = 1 })
        × Writes (Control.set_sequence_number_suppression buffer true)
            (record (header raw) { sequence_number_suppression = 1 })
        × Writes (Control.set_information_elements_present buffer true)
            (record (header raw) { information_elements_present = 1 })

    -- Setting a flag to true makes its bit 1 and leaves every other bit of the header, and every
    -- later byte, as it was.
    pub set_flag_writes : RaisesFlags
    unfolding Control.set_security_enabled Control.set_frame_pending Control.set_ack_request
        Control.set_pan_id_compression Control.set_sequence_number_suppression
        Control.set_information_elements_present
    set_flag_writes = (
      written _ (raise_security_enabled raw in_range),
      written _ (raise_frame_pending raw in_range),
      written _ (raise_ack_request raw in_range),
      written _ (raise_pan_id_compression raw in_range),
      written _ (raise_sequence_number_suppression raw in_range),
      written _ (raise_information_elements_present raw in_range),
    )

    abbrev pub KeepsFlags : Type 0
    KeepsFlags =
        (Control.set_security_enabled buffer false ≡ returns buffer)
        × (Control.set_frame_pending buffer false ≡ returns buffer)
        × (Control.set_ack_request buffer false ≡ returns buffer)
        × (Control.set_pan_id_compression buffer false ≡ returns buffer)
        × (Control.set_sequence_number_suppression buffer false ≡ returns buffer)
        × (Control.set_information_elements_present buffer false ≡ returns buffer)

    -- Setting a flag to false changes nothing at all: a flag that is set stays set.
    pub set_flag_keeps : KeepsFlags
    unfolding Control.set_security_enabled Control.set_frame_pending Control.set_ack_request
        Control.set_pan_id_compression Control.set_sequence_number_suppression
        Control.set_information_elements_present
    set_flag_keeps = (kept, kept, kept, kept, kept, kept)
      where
        kept : store buffer (bit_or raw 0) ≡ returns buffer
        kept = rw (bit_or-zero raw) (ground arith)

readable_bytes :
    (bytes : List ℕ) (v : Bool)
    → Control.is_valid (record { bytes = bytes }) ≡ returns v
    → (b : Bool) × (Control.ack_request (record { bytes = bytes }) ≡ returns b)
unfolding Control.is_valid Control.ack_request
readable_bytes [] v h = absurd (grind arith)
readable_bytes (x ∷ []) v h = absurd (grind arith)
readable_bytes (x ∷ y ∷ rest) v h = (_, refl)

-- A field whose validity can be decided can be read.
pub ack_request-is_valid :
    (fc : FrameControl) (v : Bool)
    → Control.is_valid fc ≡ returns v
    → (b : Bool) × (Control.ack_request fc ≡ returns b)
ack_request-is_valid fc v h = readable_bytes fc.bytes v h
