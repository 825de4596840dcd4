-- ===== src/Mpdu/Examples.antt =====
-- The theorems on MAC frames at concrete inputs.
use dot15d.Base.{
  ℕ, ◌+◌, ◌≡◌, refl, true, false, List, [], ◌∷◌, ◌++◌, map, none, some, arith, returns, ok, err,
  set, ◌⊎◌,
}
use dot15d.Mpdu.Frame.{MpduFrame, set_sequence_number, sequence_number}
use dot15d.Mpdu.Frame.Numbering.{set_sequence_number-sequence_number}
use dot15d.Mpdu.Security.{
  seq_nr_yes, seq_nr_length, mic_32, source_none, aux_sec_header_length, key_id_length,
}
use dot15d.Mpdu.Elements.{
  IeRepr, time_correction_header_ie, reduced_tsch_timeslot_nested_ie, non_termination_ie, Scan,
  empty, ies_length, ie_length, content_lengths, list_length, ies_length_and_payload_presence,
}
use dot15d.Mpdu.Elements.Termination.{terminators, ies_length_and_payload_presence-terminators}
use dot15d.Mpdu.Repr.{MpduRepr, mpdu_with_ies, mpdu_with_all_fields, mpdu_length_wo_fcs}
use dot15d.Mpdu.Ranges.{MpduFieldRanges}
use dot15d.Mpdu.Ranges.Steps.{build_ranges, parse_ranges}
use dot15d.Mpdu.Ranges.Built.{build_ranges-mpdu_length_wo_fcs}
use dot15d.Mpdu.Ranges.Accessed.{Accessed, build_ranges-Accessed}
use dot15d.Mpdu.Ranges.Parsed.{parsed_fields, parse_ranges_cases}

-- A header IE and a nested IE: 4 and 3 octets.
abbrev elements : List IeRepr
elements = time_correction_header_ie ∷ reduced_tsch_timeslot_nested_ie ∷ []

abbrev elements_scanned : Scan
elements_scanned = record { len = 7; has_header_ie = true; has_nested_ie = true }

abbrev secured : MpduRepr mpdu_with_ies
secured = record {
  seq_nr = seq_nr_yes;
  addressing = none;
  security = some (record { tsch_mode = false; security_level = mic_32; key_id = source_none });
  ies = empty;
}

no_ies : ies_length empty true ≡ returns (ok 0)
unfolding ies_length
no_ies = refl

ies_length_and_payload_presence-terminators_example :
    (list_length elements true ≡ returns 13)
    × (ies_length_and_payload_presence
          (map non_termination_ie elements ++ terminators true true true)
        ≡ returns (ok (13, false)))
unfolding ie_length content_lengths
ies_length_and_payload_presence-terminators_example =
    ies_length_and_payload_presence-terminators elements elements_scanned true refl refl

build_ranges-mpdu_length_wo_fcs_example :
    (ranges : MpduFieldRanges mpdu_with_all_fields) × (total : ℕ) × (build_ranges 2 1 secured 20
      ≡ returns (ok ranges))
    × (mpdu_length_wo_fcs secured 20 ≡ returns (ok total))
    × (ranges.offset_frame_payload ≡ some 10)
    × (ranges.offset_fcs ≡ some (1 + total))
    × (ranges.offset_remainder ≡ some (1 + total + 2))
unfolding seq_nr_length aux_sec_header_length key_id_length
build_ranges-mpdu_length_wo_fcs_example =
    build_ranges-mpdu_length_wo_fcs 2 1 secured 20 0 0 refl no_ies (omega arith) (omega arith)

build_ranges-Accessed_example :
    (ranges : MpduFieldRanges mpdu_with_all_fields) × (build_ranges 2 1 secured 20
      ≡ returns (ok ranges))
    × Accessed ranges secured.security 4 10 10 30 2
unfolding seq_nr_length aux_sec_header_length key_id_length
build_ranges-Accessed_example =
    build_ranges-Accessed 2 1 secured 20 0 0 refl no_ies (omega arith) (omega arith)

parse_ranges_cases_example :
    parse_ranges 2 1 seq_nr_yes none 23 ≡ returns (ok (parsed_fields 2 1 seq_nr_yes 0 23))
unfolding seq_nr_length
parse_ranges_cases_example =
    parse_ranges_cases 2 1 seq_nr_yes none 0 20 refl (omega arith) (omega arith)

-- A data frame behind one octet of headroom.
abbrev numbered : MpduFrame
numbered = record {
  pointer = 3;
  buffer = 0 ∷ 0x21 ∷ 0x98 ∷ 7 ∷ 1 ∷ [];
  offset = 1;
  length_wo_fcs = 4;
}

set_sequence_number-sequence_number_example :
    ((set_sequence_number numbered 9 ≡ returns (numbered, err tt))
      × (sequence_number numbered ≡ returns none))
    ⊎ ((m' : MpduFrame) × (set_sequence_number numbered 9 ≡ returns (m', ok tt))
        × (sequence_number m' ≡ returns (some 9))
        × (m' ≡ record numbered { buffer = set numbered.buffer 3 9 }))
set_sequence_number-sequence_number_example =
    set_sequence_number-sequence_number numbered 9 (omega arith, omega arith)
