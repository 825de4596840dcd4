-- ===== src/Frame/Examples.antt =====
-- The theorems on frame headers at concrete inputs.
use dot15d.Base.{
  ℕ, ◌≡◌, refl, arith, inl, inr, Bool, true, false, not, ◌&&◌, List, [], ◌∷◌, ◌++◌, ◌==◌, take,
  some, returns, panics, ◌>>=◌, ok,
}
use dot15d.Frame.Modes.{
  beacon, addressing_mode_from, frame_version_from, mode_length, absent, short, extended,
  ieee802154,
}
use dot15d.Frame.Control
use dot15d.Frame.Control.Header.{header}
use dot15d.Frame.Control.Fields.{buffer, raw, is_valid-header}
use dot15d.Frame.Control.RoundTrip.{set_field-read_back}
use dot15d.Frame.Addressing.{
  Address, into_be_bytes_2, from_be_bytes_2, into_be_bytes_8, from_be_bytes_8, set_be_bytes_2,
  into_u16, from_u16, from_le_bytes, as_le_bytes, set_address, mode_of, extended_set_be_bytes,
}
use dot15d.Frame.Addressing
use dot15d.Frame.Addressing.Repr.{
  AddressingRepr, PresentFlags, compression_no, compression_yes, from_frame_control, non_empty,
  has_pan_id_compression, legacy, address_present_flags, addressing_fields_length, present_legacy,
  addressing_fields_lengths,
}
use dot15d.Frame.Addressing.Repr.Received.{compression-read_back}
use dot15d.Frame.Addressing.Repr.Presence.{flags_of, pans, address_present_flags-pans}
use dot15d.Frame.Addressing.Fields.{AddressingFields, with_lengths, new}
use dot15d.Frame.Addressing.Fields.Partition.{Reads, reads, lengths_of, total, new-Reads, new_cases}
use dot15d.Frame.Addressing.PanIds.{PanId}
use dot15d.Frame.Addressing.{into_u16}
use dot15d.Frame.Filter.{
  PreliminaryFrameInfo, bcmatch, end, preliminary_frame_info, is_frame_valid_and_for_us,
  unwrap_or_broadcast,
}
use dot15d.Frame.Filter.Accepts.{address_for_us, pan_for_us, filter_cases}
use dot15d.Frame.Filter.Robust.{
  HasNoReservedMode, header_reads, filter_answers, reserved_mode_panics,
}

abbrev fc_bytes : Control.FrameControl
fc_bytes = buffer 0x41 0x98 (7 ∷ [])

set_field-read_back_example :
    ((Control.set_frame_type fc_bytes beacon >>= Control.frame_type) ≡ returns beacon)
    × ((Control.set_dst_addressing_mode fc_bytes short >>= Control.dst_addressing_mode)
        ≡ returns short)
    × ((Control.set_src_addressing_mode fc_bytes extended >>= Control.src_addressing_mode)
        ≡ returns extended)
    × ((Control.set_frame_version fc_bytes ieee802154 >>= Control.frame_version)
        ≡ returns ieee802154)
set_field-read_back_example =
    set_field-read_back 0x41 0x98 (7 ∷ []) (omega arith) (omega arith) beacon short extended
      ieee802154 (λ e. cc) (λ e. cc) (λ e. cc) (λ e. cc)

abbrev hardware : List ℕ
hardware = 1 ∷ 2 ∷ 3 ∷ 4 ∷ 5 ∷ 6 ∷ 7 ∷ 8 ∷ []

abbrev some_short : Address
some_short = Addressing.short (1 ∷ 2 ∷ [])

abbrev other_short : Address
other_short = Addressing.short (3 ∷ 4 ∷ [])

abbrev repr : AddressingRepr
repr = record { dst = short; src = extended; pan_ids_equal = true; pan_id_compression = legacy }

abbrev flags : PresentFlags
flags = record {
  dst_pan_id = true;
  dst_address = short;
  src_pan_id = false;
  src_address = extended;
}

abbrev addressing_bytes : List ℕ
addressing_bytes = 0xcd ∷ 0xab ∷ 0x34 ∷ 0x12 ∷ hardware

abbrev fields : AddressingFields
fields = with_lengths addressing_bytes (lengths_of flags)

legacy_fields : address_present_flags repr ≡ ok flags
unfolding address_present_flags present_legacy
legacy_fields = refl

new_fields : new addressing_bytes repr ≡ ok fields
unfolding mode_length
new_fields = new_cases addressing_bytes repr flags legacy_fields

address_present_flags-pans_example :
    address_present_flags repr ≡ flags_of short extended (pans repr)
address_present_flags-pans_example = address_present_flags-pans repr (λ e. cc) (λ e. cc)

twelve : addressing_fields_length repr ≡ ok 12
unfolding addressing_fields_length addressing_fields_lengths address_present_flags present_legacy
twelve = refl

abbrev repr_no : AddressingRepr
repr_no = record {
  dst = short;
  src = extended;
  pan_ids_equal = false;
  pan_id_compression = compression_no;
}

new-Reads_example :
    Reads fields flags
    × (addressing_bytes ≡ addressing_bytes)
    × (take (total (lengths_of flags)) addressing_bytes ≡ addressing_bytes)
new-Reads_example =
    new-Reads addressing_bytes repr flags fields legacy_fields (λ e. cc) (λ e. cc) new_fields

-- A destination only, which is extended.
abbrev repr_extended : AddressingRepr
repr_extended = record {
  dst = extended;
  src = absent;
  pan_ids_equal = false;
  pan_id_compression = legacy;
}

abbrev flags_extended : PresentFlags
flags_extended = record {
  dst_pan_id = true;
  dst_address = extended;
  src_pan_id = false;
  src_address = absent;
}

abbrev extended_bytes : List ℕ
extended_bytes = 0xcd ∷ 0xab ∷ hardware

abbrev fields_extended : AddressingFields
fields_extended = with_lengths extended_bytes (lengths_of flags_extended)

flags_extended_read : address_present_flags repr_extended ≡ ok flags_extended
unfolding address_present_flags present_legacy
flags_extended_read = refl

new_extended : new extended_bytes repr_extended ≡ ok fields_extended
unfolding mode_length
new_extended = new_cases extended_bytes repr_extended flags_extended flags_extended_read

-- A data frame.
abbrev info : PreliminaryFrameInfo
info = record {
  mpdu_length = 20;
  frame_control = some (buffer 0x41 0x98 []);
  seq_nr = some 1;
  addressing_fields = some fields;
}

fields_read : Reads fields flags
unfolding mode_length
fields_read = reads addressing_bytes flags (λ e. cc) (λ e. cc) (omega arith)

filter_cases_example :
    is_frame_valid_and_for_us (0xcd ∷ 0xab ∷ []) false hardware info
    ≡ returns (
        (not ((header (raw 0x41 0x98 [])).frame_type == 4)
          && not ((header (raw 0x41 0x98 [])).frame_version == 3))
        && (pan_for_us (0xcd ∷ 0xab ∷ []) (unwrap_or_broadcast fields_read.dst_pan)
            && address_for_us false hardware fields_read.dst))
filter_cases_example =
    filter_cases (0xcd ∷ 0xab ∷ []) false hardware refl info (buffer 0x41 0x98 []) _ fields flags
      refl refl (is_valid-header 0x41 0x98 []) fields_read

-- A full receive buffer.
abbrev received : List ℕ
received = 20 ∷ 0x41 ∷ 0x98 ∷ 1 ∷ 0xcd ∷ 0xab ∷ 0x34 ∷ 0x12 ∷ hardware ++ hardware

-- The header of version 2015 that a representation of kind No is written to.
compression-read_back_example :
    from_frame_control (buffer 0x41 0xE8 [])
    ≡ returns (
        non_empty (record {
          dst = short;
          src = extended;
          pan_ids_equal = true;
          pan_id_compression = compression_yes;
        }))
unfolding has_pan_id_compression addressing_mode_from frame_version_from
compression-read_back_example =
    compression-read_back repr_no (buffer 0x41 0xE8 []) (header_reads 0x41 0xE8) (λ e. cc) refl refl
      refl refl refl

no_reserved_mode : HasNoReservedMode (header_reads 0x41 0x98)
unfolding addressing_mode_from
no_reserved_mode = inr ((λ e. cc), (λ e. cc))

filter_answers_example :
    (b : Bool) × ((preliminary_frame_info bcmatch bcmatch (20 ∷ 0x41 ∷ 0x98 ∷ []) received
        >>= is_frame_valid_and_for_us (0xcd ∷ 0xab ∷ []) false hardware)
      ≡ returns b)
filter_answers_example =
    filter_answers (0xcd ∷ 0xab ∷ []) false hardware refl bcmatch bcmatch 20 0x41 0x98 [] received
      (omega arith) no_reserved_mode

reserved_mode_panics_example :
    preliminary_frame_info bcmatch end (20 ∷ 0x41 ∷ 0x14 ∷ []) received ≡ panics
reserved_mode_panics_example =
    reserved_mode_panics end 20 0x41 0x14 [] received (omega arith) (inl refl)

abbrev pan_id : PanId
pan_id = record { le_bytes = 0xcd ∷ 0xab ∷ [] }
