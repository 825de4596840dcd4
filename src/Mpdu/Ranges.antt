-- ===== src/Mpdu/Ranges.antt =====
-- Where the fields of a frame are in its buffer: dot15d4-frame/src/fields/field_ranges.rs, and the
-- part of `into_parsed_mpdu` in dot15d4-frame/src/fields/mpdu.rs that computes it. An option of a
-- non-zero number has no value for 0: `as_nz` reads 0 as none. Sums of u8 and u16 wrap.
pub mod Access
pub mod Steps
pub mod Built
pub mod Accessed
pub mod Parsed
use dot15d.Base.{
  ℕ, ◌+◌, ◌-◌, ◌%◌, ◌^◌, Bool, Option, none, some, ltb, ◌==◌, if◌then◌else◌, Outcome, returns,
  panics, ◌>>=◌, Result, ok, err,
}
use dot15d.Frame.Addressing.Repr.{AddressingRepr, addressing_fields_length}
use dot15d.Mpdu.Security.{
  SeqNrRepr, seq_nr_no, seq_nr_yes, SecurityRepr, aux_sec_header_length, mic_length,
}
use dot15d.Mpdu.Elements.{
  IeListRepr, empty, with_termination_ies, without_termination_ies, ies_length,
  ies_and_frame_payload_length, add_u16,
}
use dot15d.Mpdu.Repr.{
  MpduState, mpdu_with_frame_control, mpdu_with_addressing, mpdu_with_security, mpdu_with_ies,
  mpdu_with_all_fields, MpduRepr,
}

abbrev pub add_u8 : ℕ → ℕ → ℕ
add_u8 a b = (a + b) % 2 ^ 8

abbrev pub as_nz : ℕ → Option ℕ
as_nz n = if n == 0 then none else some n

abbrev pub unwrap : {A : Type 0} → Option A → Outcome A
unwrap none = panics
unwrap (some n) = returns n

pub record MpduFieldRanges (state : MpduState) : Type 0 where
  pub offset_frame_control : ℕ
  pub offset_addressing : ℕ
  pub offset_aux_sec_hdr : Option ℕ
  pub length_mic : Option ℕ
  pub offset_ies : Option ℕ
  pub offset_frame_payload : Option ℕ
  pub offset_fcs : Option ℕ
  pub offset_remainder : Option ℕ

abbrev pub seq_nr_len : SeqNrRepr → ℕ
seq_nr_len seq_nr_yes = 1
seq_nr_len seq_nr_no = 0

unfoldable pub new : ℕ → SeqNrRepr → Outcome (MpduFieldRanges mpdu_with_frame_control)
new offset_mpdu seq_nr = do
  offset_addressing ← unwrap (as_nz (add_u8 (add_u8 offset_mpdu 2) (seq_nr_len seq_nr)))
  returns (record {
    offset_frame_control = offset_mpdu;
    offset_addressing = offset_addressing;
    offset_aux_sec_hdr = none;
    length_mic = none;
    offset_ies = none;
    offset_frame_payload = none;
    offset_fcs = none;
    offset_remainder = none;
  })

-- `next_state` of the three stages
abbrev pub addressing_done :
    MpduFieldRanges mpdu_with_frame_control → ℕ → MpduFieldRanges mpdu_with_addressing
addressing_done s next_offset = record {
  offset_frame_control = s.offset_frame_control;
  offset_addressing = s.offset_addressing;
  offset_aux_sec_hdr = as_nz next_offset;
  length_mic = none;
  offset_ies = none;
  offset_frame_payload = none;
  offset_fcs = none;
  offset_remainder = none;
}

abbrev pub after_addressing :
    MpduFieldRanges mpdu_with_frame_control
    → Result ℕ (Unit {0})
    → Result (MpduFieldRanges mpdu_with_addressing) (Unit {0})
after_addressing s (err e) = err e
after_addressing s (ok len) = ok (addressing_done s (add_u8 s.offset_addressing (len % 2 ^ 8)))

unfoldable pub with_addressing :
    MpduFieldRanges mpdu_with_frame_control
    → AddressingRepr
    → Result (MpduFieldRanges mpdu_with_addressing) (Unit {0})
with_addressing s addressing = after_addressing s (addressing_fields_length addressing)

unfoldable pub without_addressing :
    MpduFieldRanges mpdu_with_frame_control → MpduFieldRanges mpdu_with_addressing
without_addressing s = addressing_done s s.offset_addressing

abbrev pub security_done :
    MpduFieldRanges mpdu_with_addressing → ℕ → Option ℕ → MpduFieldRanges mpdu_with_security
security_done s next_offset length_mic = record {
  offset_frame_control = s.offset_frame_control;
  offset_addressing = s.offset_addressing;
  offset_aux_sec_hdr = as_nz next_offset;
  length_mic = length_mic;
  offset_ies = as_nz next_offset;
  offset_frame_payload = none;
  offset_fcs = none;
  offset_remainder = none;
}

unfoldable pub with_security :
    MpduFieldRanges mpdu_with_addressing
    → SecurityRepr
    → Outcome (MpduFieldRanges mpdu_with_security)
with_security s security = do
  offset_aux_sec_hdr ← unwrap s.offset_aux_sec_hdr
  returns (
      security_done s (add_u8 offset_aux_sec_hdr (aux_sec_header_length security % 2 ^ 8))
        (as_nz (mic_length security % 2 ^ 8)))

unfoldable pub without_security :
    MpduFieldRanges mpdu_with_addressing → Outcome (MpduFieldRanges mpdu_with_security)
without_security s = do
  offset_aux_sec_hdr ← unwrap s.offset_aux_sec_hdr
  returns (security_done s offset_aux_sec_hdr none)

abbrev pub length_or_zero : Option ℕ → ℕ
length_or_zero none = 0
length_or_zero (some n) = n

unfoldable pub last_offset : MpduFieldRanges mpdu_with_security → Outcome ℕ
last_offset s = unwrap s.offset_ies

abbrev pub all_done :
    ℕ → MpduFieldRanges mpdu_with_security → ℕ → ℕ → Outcome (MpduFieldRanges mpdu_with_all_fields)
all_done fcs s ies payload = do
  last ← last_offset s
  let offset_frame_payload = add_u16 last ies
  let offset_fcs = add_u16 (add_u16 offset_frame_payload payload) (length_or_zero s.length_mic)
  returns (record {
    offset_frame_control = s.offset_frame_control;
    offset_addressing = s.offset_addressing;
    offset_aux_sec_hdr = s.offset_aux_sec_hdr;
    length_mic = s.length_mic;
    offset_ies = s.offset_ies;
    offset_frame_payload = as_nz offset_frame_payload;
    offset_fcs = as_nz offset_fcs;
    offset_remainder = as_nz (add_u16 offset_fcs fcs);
  })

-- `fcs` is the size of the frame check sequence of the driver.
module _ (fcs : ℕ) where
  abbrev pub done_with :
      MpduFieldRanges mpdu_with_security
      → ℕ
      → Result ℕ (Unit {0})
      → Outcome (Result (MpduFieldRanges mpdu_with_all_fields) (Unit {0}))
  done_with s payload (err e) = returns (err e)
  done_with s payload (ok ies) = all_done fcs s ies payload >>= λ done. returns (ok done)

  unfoldable pub with_ies_and_payload_length :
      MpduFieldRanges mpdu_with_security
      → IeListRepr
      → ℕ
      → Outcome (Result (MpduFieldRanges mpdu_with_all_fields) (Unit {0}))
  with_ies_and_payload_length s ies payload = ies_length ies (ltb 0 payload) >>= done_with s payload

  abbrev pub done_with_both :
      MpduFieldRanges mpdu_with_security
      → Result (ℕ × ℕ) (Unit {0})
      → Outcome (Result (MpduFieldRanges mpdu_with_all_fields) (Unit {0}))
  done_with_both s (err e) = returns (err e)
  done_with_both s (ok (ies, payload)) = all_done fcs s ies payload >>= λ done. returns (ok done)

  unfoldable pub with_ies_and_mpdu_length :
      MpduFieldRanges mpdu_with_security
      → IeListRepr
      → ℕ
      → Outcome (Result (MpduFieldRanges mpdu_with_all_fields) (Unit {0}))
  with_ies_and_mpdu_length s ies total = do
    last ← last_offset s
    let rest = ies_and_frame_payload_length ies (total - last) >>= done_with_both s
    if ltb total last then returns (err tt) else rest

  unfoldable pub without_ies_with_payload_length :
      MpduFieldRanges mpdu_with_security → ℕ → Outcome (MpduFieldRanges mpdu_with_all_fields)
  without_ies_with_payload_length s payload = all_done fcs s 0 payload

  unfoldable pub without_ies_with_mpdu_length :
      MpduFieldRanges mpdu_with_security
      → ℕ
      → Outcome (Result (MpduFieldRanges mpdu_with_all_fields) (Unit {0}))
  without_ies_with_mpdu_length s total = do
    last ← last_offset s
    let rest = all_done fcs s 0 (total - last) >>= λ done. returns (ok done)
    if ltb total last then returns (err tt) else rest
