-- ===== src/Mpdu/Ranges/Access.antt =====
-- The ranges of the fields: the accessors of dot15d4-frame/src/fields/field_ranges.rs. A range is
-- its start and its end; a usize has 32 bits.
use dot15d.Base.{
  ℕ, ◌+◌, ◌-◌, ◌%◌, ◌^◌, Option, none, some, ◌==◌, if◌then◌else◌, Outcome, returns, ◌>>=◌,
}
use dot15d.Mpdu.Repr.{MpduState, mpdu_with_all_fields}
use dot15d.Mpdu.Ranges.{MpduFieldRanges, unwrap}

-- No range where the next offset is the same.
abbrev pub span : ℕ → ℕ → Option (ℕ × ℕ)
span start next = if next == start then none else some (start, next)

module _ {state : MpduState} where
  unfoldable pub offset_seq_nr : MpduFieldRanges state → ℕ
  offset_seq_nr s = s.offset_frame_control + 2

  unfoldable pub range_frame_control : MpduFieldRanges state → ℕ × ℕ
  range_frame_control s = (s.offset_frame_control, offset_seq_nr s)

  unfoldable pub range_addressing : MpduFieldRanges state → Outcome (Option (ℕ × ℕ))
  range_addressing s = do
    next ← unwrap s.offset_aux_sec_hdr
    returns (span s.offset_addressing next)

  unfoldable pub range_aux_sec_header : MpduFieldRanges state → Outcome (Option (ℕ × ℕ))
  range_aux_sec_header s = do
    start ← unwrap s.offset_aux_sec_hdr
    next ← unwrap s.offset_ies
    returns (span start next)

unfoldable pub range_ies : MpduFieldRanges mpdu_with_all_fields → Outcome (Option (ℕ × ℕ))
range_ies s = do
  start ← unwrap s.offset_ies
  next ← unwrap s.offset_frame_payload
  returns (span start next)

unfoldable pub offset_frame_payload : MpduFieldRanges mpdu_with_all_fields → Outcome ℕ
offset_frame_payload s = unwrap s.offset_frame_payload

unfoldable pub offset_frame_payload_end : MpduFieldRanges mpdu_with_all_fields → Outcome ℕ
offset_frame_payload_end s = do
  offset_fcs ← unwrap s.offset_fcs
  length_mic ← unwrap s.length_mic
  returns ((offset_fcs + 2 ^ 16 - length_mic) % 2 ^ 16)

unfoldable pub range_frame_payload : MpduFieldRanges mpdu_with_all_fields → Outcome (Option (ℕ × ℕ))
range_frame_payload s = do
  start ← offset_frame_payload s
  end ← offset_frame_payload_end s
  returns (if start == end then none else some (start, end))

unfoldable pub range_mic : MpduFieldRanges mpdu_with_all_fields → Outcome (Option (ℕ × ℕ))
range_mic s = do
  next ← unwrap s.offset_fcs
  length_mic ← unwrap s.length_mic
  let start = (next + 2 ^ 32 - length_mic) % 2 ^ 32
  returns (if start == next then none else some (start, next))

unfoldable pub range_fcs : MpduFieldRanges mpdu_with_all_fields → Outcome (Option (ℕ × ℕ))
range_fcs s = do
  start ← unwrap s.offset_fcs
  next ← unwrap s.offset_remainder
  returns (span start next)

unfoldable pub offset_tailroom : MpduFieldRanges mpdu_with_all_fields → Outcome ℕ
offset_tailroom s = unwrap s.offset_remainder
