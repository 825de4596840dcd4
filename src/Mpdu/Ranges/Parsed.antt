-- ===== src/Mpdu/Ranges/Parsed.antt =====
-- The ranges of a frame that was received: dot15d4-frame/src/fields/mpdu.rs, `parse_addressing`,
-- `parse_security` and `parse_ies`, and dot15d4-frame/src/fields/field_ranges.rs.
use dot15d.Base.{
  ℕ, ◌+◌, ◌-◌, ◌<◌, ◌^◌, ◌≡◌, refl, true, false, Bool-cases, inl, inr, Option, none, some, ltb,
  if◌then◌else◌, arith, returns, ok, err,
}
use dot15d.Frame.Addressing.Repr.{AddressingRepr}
use dot15d.Mpdu.Security.{SeqNrRepr, seq_nr_length}
use dot15d.Mpdu.Elements.{add_u16}
use dot15d.Mpdu.Repr.{mpdu_with_all_fields, addressing_length}
use dot15d.Mpdu.Ranges.{
  MpduFieldRanges, without_security, last_offset, without_ies_with_mpdu_length,
}
use dot15d.Mpdu.Ranges.Steps.{parse_ranges}
use dot15d.Mpdu.Ranges.Built.{
  stage_fields, new-fields, addressing_stage-fields, as_nz-some, seq_nr_length-bound,
}

-- The ranges of a parsed frame, from the length that the radio gives for it.
abbrev pub parsed_fields : ℕ → ℕ → SeqNrRepr → ℕ → ℕ → MpduFieldRanges mpdu_with_all_fields
parsed_fields fcs offset seq_nr a total =
    let b = offset + 2 + seq_nr_length seq_nr in
    stage_fields offset b (some (b + a)) none (some (b + a)) (some (b + a)) (some total)
      (some (total + fcs))

-- A frame without security and information elements, whose addressing fields have the length a:
-- parsing takes the length of the frame for an offset in the buffer. It fails unless the frame is
-- longer than its header by the offset of the frame, and puts the end of the payload, which starts
-- where it should, too early by that offset.
pub parse_ranges_cases :
    (fcs offset : ℕ) (seq_nr : SeqNrRepr) (addressing : Option AddressingRepr) (a payload : ℕ)
    → addressing_length addressing ≡ ok a
    → offset + a + 17 < 256
    → 3 + a + payload + fcs < 2 ^ 16
    → parse_ranges fcs offset seq_nr addressing (2 + seq_nr_length seq_nr + a + payload) ≡ (
        if ltb payload offset
        then returns (err tt)
        else returns
            (ok (parsed_fields fcs offset seq_nr a (2 + seq_nr_length seq_nr + a + payload))))
unfolding parse_ranges without_security without_ies_with_mpdu_length last_offset
parse_ranges_cases fcs offset seq_nr addressing a payload ea fits₁ fits₂ =
    let seq = seq_nr_length-bound seq_nr in
    let b = offset + 2 + seq_nr_length seq_nr in
    let total = 2 + seq_nr_length seq_nr + a + payload in
    elim (Bool-cases (ltb payload offset)) [
      | inl e ↦
          let short : ltb total (b + a) ≡ true = ground arith in
          rw
            (
              new-fields offset seq_nr (omega arith),
              addressing_stage-fields offset b a addressing ea (omega arith) (omega (arith, seq)),
              e,
              as_nz-some (b + a) (omega arith),
              short,
            )
            refl
      | inr e ↦
          let long : ltb total (b + a) ≡ false = ground arith in
          let starts : add_u16 (b + a) 0 ≡ b + a = omega (arith, seq) in
          let ends : add_u16 (add_u16 (b + a) (total - (b + a))) 0 ≡ total = ground (arith, seq) in
          let tail : add_u16 total fcs ≡ total + fcs = omega (arith, seq) in
          rw
            (
              new-fields offset seq_nr (omega arith),
              addressing_stage-fields offset b a addressing ea (omega arith) (omega (arith, seq)),
              e,
              as_nz-some (b + a) (omega arith),
              long,
              starts,
              as_nz-some (b + a) (omega arith),
              ends,
              tail,
              as_nz-some total (omega arith),
              as_nz-some (total + fcs) (omega arith),
            )
            refl
    ]
