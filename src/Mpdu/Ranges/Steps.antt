-- ===== src/Mpdu/Ranges/Steps.antt =====
-- The stages of the ranges put together: dot15d4-frame/src/fields/mpdu.rs, `into_parsed_mpdu` for a
-- frame that is built, and `parse_addressing`, `parse_security` and `parse_ies` for one that was
-- received.
use dot15d.Base.{ℕ, Option, none, some, Outcome, returns, ◌>>=◌, Result, ok, err}
use dot15d.Frame.Addressing.Repr.{AddressingRepr}
use dot15d.Mpdu.Security.{SeqNrRepr, SecurityRepr}
use dot15d.Mpdu.Elements.{IeListRepr, empty, with_termination_ies, without_termination_ies}
use dot15d.Mpdu.Repr.{
  mpdu_with_frame_control, mpdu_with_addressing, mpdu_with_security, mpdu_with_ies,
  mpdu_with_all_fields, MpduRepr,
}
use dot15d.Mpdu.Ranges.{
  MpduFieldRanges, new, with_addressing, without_addressing, with_security, without_security,
  with_ies_and_payload_length, without_ies_with_payload_length, without_ies_with_mpdu_length,
}

abbrev pub addressing_stage :
    MpduFieldRanges mpdu_with_frame_control
    → Option AddressingRepr
    → Result (MpduFieldRanges mpdu_with_addressing) (Unit {0})
addressing_stage s (some addressing) = with_addressing s addressing
addressing_stage s none = ok (without_addressing s)

abbrev pub security_stage :
    MpduFieldRanges mpdu_with_addressing
    → Option SecurityRepr
    → Outcome (MpduFieldRanges mpdu_with_security)
security_stage s (some security) = with_security s security
security_stage s none = without_security s

module _ (fcs : ℕ) where
  abbrev pub ies_stage :
      MpduFieldRanges mpdu_with_security
      → IeListRepr
      → ℕ
      → Outcome (Result (MpduFieldRanges mpdu_with_all_fields) (Unit {0}))
  ies_stage s empty payload =
      without_ies_with_payload_length fcs s payload >>= λ done. returns (ok done)
  ies_stage s (with_termination_ies ies) payload =
      with_ies_and_payload_length fcs s (with_termination_ies ies) payload
  ies_stage s (without_termination_ies ies) payload =
      with_ies_and_payload_length fcs s (without_termination_ies ies) payload

  abbrev pub after_addressing_stage :
      Option SecurityRepr
      → IeListRepr
      → ℕ
      → Result (MpduFieldRanges mpdu_with_addressing) (Unit {0})
      → Outcome (Result (MpduFieldRanges mpdu_with_all_fields) (Unit {0}))
  after_addressing_stage security ies payload (err e) = returns (err e)
  after_addressing_stage security ies payload (ok s) =
      security_stage s security >>= λ t. ies_stage t ies payload

  unfoldable pub build_ranges :
      ℕ
      → MpduRepr mpdu_with_ies
      → ℕ
      → Outcome (Result (MpduFieldRanges mpdu_with_all_fields) (Unit {0}))
  build_ranges offset_mpdu r payload = do
    s ← new offset_mpdu r.seq_nr
    after_addressing_stage r.security r.ies payload (addressing_stage s r.addressing)

  abbrev pub parse_rest :
      ℕ
      → Result (MpduFieldRanges mpdu_with_addressing) (Unit {0})
      → Outcome (Result (MpduFieldRanges mpdu_with_all_fields) (Unit {0}))
  parse_rest mpdu_length_wo_fcs (err e) = returns (err tt)
  parse_rest mpdu_length_wo_fcs (ok s) = do
    t ← without_security s
    without_ies_with_mpdu_length fcs t mpdu_length_wo_fcs

  unfoldable pub parse_ranges :
      ℕ
      → SeqNrRepr
      → Option AddressingRepr
      → ℕ
      → Outcome (Result (MpduFieldRanges mpdu_with_all_fields) (Unit {0}))
  parse_ranges offset_mpdu seq_nr addressing mpdu_length_wo_fcs = do
    s ← new offset_mpdu seq_nr
    parse_rest mpdu_length_wo_fcs (addressing_stage s addressing)
