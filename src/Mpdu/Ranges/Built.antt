-- ===== src/Mpdu/Ranges/Built.antt =====
-- The ranges of a frame that is built, and its length by its structure:
-- dot15d4-frame/src/fields/field_ranges.rs and dot15d4-frame/src/repr/mpdu.rs.
use dot15d.Base.{
  ℕ, ◌+◌, ◌<◌, ◌≤◌, ◌%◌, ◌^◌, ◌≡◌, refl, ap, false, Option, none, some, ltb, ◌==◌, arith, returns,
  ok,
}
use dot15d.Frame.Addressing.Repr.{AddressingRepr}
use dot15d.Mpdu.Security.{
  SeqNrRepr, seq_nr_no, seq_nr_yes, seq_nr_length, SecurityRepr, aux_sec_header_length, mic_length,
  key_id_length, level_mic_length, KeyIdRepr, implicit, source_none, source_4_byte, source_8_byte,
  SecurityLevelRepr, mic_32, mic_64, mic_128, enc_mic_32, enc_mic_64, enc_mic_128,
}
use dot15d.Mpdu.Elements.{
  IeListRepr, empty, with_termination_ies, without_termination_ies, ies_length, add_u16,
}
use dot15d.Mpdu.Repr.{
  MpduState, mpdu_with_ies, mpdu_with_all_fields, MpduRepr, addressing_length, security_length,
  mpdu_less_ies_and_payload_length, mpdu_length_wo_fcs,
}
use dot15d.Mpdu.Ranges.{
  MpduFieldRanges, as_nz, add_u8, new, with_addressing, without_addressing, with_security,
  without_security, length_or_zero, last_offset, all_done, with_ies_and_payload_length,
  without_ies_with_payload_length,
}
use dot15d.Mpdu.Ranges.Steps.{addressing_stage, security_stage, ies_stage, build_ranges}

abbrev pub stage_fields :
    {state : MpduState}
    → ℕ
    → ℕ
    → Option ℕ
    → Option ℕ
    → Option ℕ
    → Option ℕ
    → Option ℕ
    → Option ℕ
    → MpduFieldRanges state
stage_fields offset addressing aux mic ies payload fcs remainder = record {
  offset_frame_control = offset;
  offset_addressing = addressing;
  offset_aux_sec_hdr = aux;
  length_mic = mic;
  offset_ies = ies;
  offset_frame_payload = payload;
  offset_fcs = fcs;
  offset_remainder = remainder;
}

pub as_nz-some : (n : ℕ) → 0 < n → as_nz n ≡ some n
as_nz-some n h = let e : (n == 0) ≡ false = ground arith in rw (e) refl

pub new-fields :
    (offset : ℕ) (seq_nr : SeqNrRepr)
    → offset + 3 < 256
    → new offset seq_nr
      ≡ returns
          (stage_fields offset (offset + 2 + seq_nr_length seq_nr) none none none none none none)
unfolding new seq_nr_length
new-fields offset seq_nr_no h =
    let sum : add_u8 (add_u8 offset 2) 0 ≡ offset + 2 + 0 = omega arith in
    rw (sum, as_nz-some (offset + 2 + 0) (omega arith)) refl
new-fields offset seq_nr_yes h =
    let sum : add_u8 (add_u8 offset 2) 1 ≡ offset + 2 + 1 = omega arith in
    rw (sum, as_nz-some (offset + 2 + 1) (omega arith)) refl

pub addressing_stage-fields :
    (offset b a : ℕ) (addressing : Option AddressingRepr)
    → addressing_length addressing ≡ ok a
    → 0 < b
    → b + a < 256
    → addressing_stage (stage_fields offset b none none none none none none) addressing
      ≡ ok (stage_fields offset b (some (b + a)) none none none none none)
unfolding with_addressing without_addressing
addressing_stage-fields offset b a none e pos h =
    let same : b + a ≡ b = grind arith in rw (as_nz-some b pos, same) refl
addressing_stage-fields offset b a (some addressing) e pos h =
    let sum : add_u8 b (a % 2 ^ 8) ≡ b + a = omega arith in
    rw (e, sum, as_nz-some (b + a) (omega arith)) refl

abbrev pub aux_of : Option SecurityRepr → ℕ
aux_of none = 0
aux_of (some security) = aux_sec_header_length security

abbrev pub mic_of : Option SecurityRepr → Option ℕ
mic_of none = none
mic_of (some security) = some (mic_length security)

key_id_length-bound : (k : KeyIdRepr) → key_id_length k ≤ 9
unfolding key_id_length
key_id_length-bound implicit = omega arith
key_id_length-bound source_none = omega arith
key_id_length-bound source_4_byte = omega arith
key_id_length-bound source_8_byte = omega arith

level_mic_length-bound :
    (l : SecurityLevelRepr) → (0 < level_mic_length l) × (level_mic_length l < 17)
unfolding level_mic_length
level_mic_length-bound mic_32 = (omega arith, omega arith)
level_mic_length-bound mic_64 = (omega arith, omega arith)
level_mic_length-bound mic_128 = (omega arith, omega arith)
level_mic_length-bound enc_mic_32 = (omega arith, omega arith)
level_mic_length-bound enc_mic_64 = (omega arith, omega arith)
level_mic_length-bound enc_mic_128 = (omega arith, omega arith)

pub aux_sec_header_length-bound :
    (s : SecurityRepr) → (0 < aux_sec_header_length s) × (aux_sec_header_length s < 15)
unfolding aux_sec_header_length
aux_sec_header_length-bound s = (ground arith, ground (arith, key_id_length-bound s.key_id))

pub mic_length-bound : (s : SecurityRepr) → (0 < mic_length s) × (mic_length s < 17)
unfolding mic_length
mic_length-bound s = level_mic_length-bound s.security_level

pub security_stage-fields :
    (offset b n : ℕ) (security : Option SecurityRepr)
    → 0 < n
    → n + 14 < 256
    → security_stage (stage_fields offset b (some n) none none none none none) security
      ≡ returns (
          stage_fields offset b
            (some (n + aux_of security))
            (mic_of security)
            (some (n + aux_of security))
            none
            none
            none)
unfolding with_security without_security
security_stage-fields offset b n none pos h =
    let same : n + 0 ≡ n = omega arith in rw (as_nz-some n pos, same) refl
security_stage-fields offset b n (some s) pos h =
    let sum : add_u8 n (aux_sec_header_length s % 2 ^ 8) ≡ n + aux_sec_header_length s =
      omega (arith, (aux_sec_header_length-bound s).1) in
    let mic : mic_length s % 2 ^ 8 ≡ mic_length s = omega (arith, (mic_length-bound s).1) in
    rw
      (
        sum,
        mic,
        as_nz-some (n + aux_sec_header_length s) (omega arith),
        as_nz-some (mic_length s) (mic_length-bound s).0,
      )
      refl

pub all_done-fields :
    (fcs offset b n ies payload : ℕ) (mic : Option ℕ)
    → 0 < n
    → n + ies + payload + length_or_zero mic + fcs < 2 ^ 16
    → all_done fcs (stage_fields offset b (some n) mic (some n) none none none) ies payload
      ≡ returns (
          stage_fields offset b
            (some n)
            mic
            (some n)
            (some (n + ies))
            (some (n + ies + payload + length_or_zero mic))
            (some (n + ies + payload + length_or_zero mic + fcs)))
unfolding last_offset
all_done-fields fcs offset b n ies payload mic pos h =
    let p : add_u16 n ies ≡ n + ies = omega arith in
    let f : add_u16 (add_u16 (n + ies) payload) (length_or_zero mic)
        ≡ n + ies + payload + length_or_zero mic =
      omega arith in
    let t : add_u16 (n + ies + payload + length_or_zero mic) fcs
        ≡ n + ies + payload + length_or_zero mic + fcs =
      omega arith in
    rw
      (
        p,
        f,
        t,
        as_nz-some (n + ies) (omega arith),
        as_nz-some (n + ies + payload + length_or_zero mic) (omega arith),
        as_nz-some (n + ies + payload + length_or_zero mic + fcs) (omega arith),
      )
      refl

ies_stage-fields :
    (fcs offset b n i payload : ℕ) (mic : Option ℕ) (ies : IeListRepr)
    → ies_length ies (ltb 0 payload) ≡ returns (ok i)
    → 0 < n
    → n + i + payload + length_or_zero mic + fcs < 2 ^ 16
    → ies_stage fcs (stage_fields offset b (some n) mic (some n) none none none) ies payload
      ≡ returns (
          ok (
            stage_fields offset b
              (some n)
              mic
              (some n)
              (some (n + i))
              (some (n + i + payload + length_or_zero mic))
              (some (n + i + payload + length_or_zero mic + fcs))))
unfolding with_ies_and_payload_length without_ies_with_payload_length ies_length
ies_stage-fields fcs offset b n i payload mic empty e pos h =
    let none_there : 0 ≡ i = grind arith in
    rw (all_done-fields fcs offset b n 0 payload mic pos (omega arith)) (
      ap
        (λ (k : ℕ). returns (
          ok (
            stage_fields offset b (some n) mic (some n) (some (n + k))
              (some (n + k + payload + length_or_zero mic))
              (some (n + k + payload + length_or_zero mic + fcs)))))
        none_there)
ies_stage-fields fcs offset b n i payload mic (with_termination_ies ies) e pos h =
    rw (e, all_done-fields fcs offset b n i payload mic pos h) refl
ies_stage-fields fcs offset b n i payload mic (without_termination_ies ies) e pos h =
    rw (e, all_done-fields fcs offset b n i payload mic pos h) refl

-- The length of everything before the information elements.
abbrev pub header_length : MpduRepr mpdu_with_ies → ℕ → ℕ
header_length r a = 2 + seq_nr_length r.seq_nr + a + aux_of r.security

pub seq_nr_length-bound : (seq_nr : SeqNrRepr) → seq_nr_length seq_nr ≤ 1
unfolding seq_nr_length
seq_nr_length-bound seq_nr_no = omega arith
seq_nr_length-bound seq_nr_yes = omega arith

pub security-bounds :
    (security : Option SecurityRepr)
    → (aux_of security ≤ 14)
      × (length_or_zero (mic_of security) ≤ 16)
      × (security_length security ≡ aux_of security + length_or_zero (mic_of security))
security-bounds none = (omega arith, omega arith, omega arith)
security-bounds (some s) =
    let aux = aux_sec_header_length-bound s in
    let mic = mic_length-bound s in
    (omega (arith, aux.1), omega (arith, mic.1), omega (arith, aux.1, mic.1))

-- The ranges of a built frame, and its length without the FCS.
abbrev pub built_fields :
    ℕ → ℕ → MpduRepr mpdu_with_ies → ℕ → ℕ → ℕ → MpduFieldRanges mpdu_with_all_fields
built_fields fcs offset r payload a i =
    let b = offset + 2 + seq_nr_length r.seq_nr in
    let n = b + a + aux_of r.security in
    let m = length_or_zero (mic_of r.security) in
    stage_fields offset b (some n) (mic_of r.security) (some n) (some (n + i))
      (some (n + i + payload + m)) (some (n + i + payload + m + fcs))

pub build_ranges-fields :
    (fcs offset : ℕ) (r : MpduRepr mpdu_with_ies) (payload a i : ℕ)
    → addressing_length r.addressing ≡ ok a
    → ies_length r.ies (ltb 0 payload) ≡ returns (ok i)
    → offset + a + 17 < 256
    → offset + a + 33 + i + payload + fcs < 2 ^ 16
    → build_ranges fcs offset r payload ≡ returns (ok (built_fields fcs offset r payload a i))
unfolding build_ranges
build_ranges-fields fcs offset r payload a i ea ei fits₁ fits₂ =
    let b = offset + 2 + seq_nr_length r.seq_nr in
    let n = b + a + aux_of r.security in
    let seq = seq_nr_length-bound r.seq_nr in
    let sec = security-bounds r.security in
    rw
      (
        new-fields offset r.seq_nr (omega arith),
        addressing_stage-fields offset b a r.addressing ea (omega arith) (omega (arith, seq)),
        security_stage-fields offset b (b + a) r.security (omega arith) (omega (arith, seq)),
        ies_stage-fields fcs offset b n i payload (mic_of r.security) r.ies ei (omega arith)
            (omega (arith, seq, sec.0, sec.1)),
      )
      refl

-- A frame whose addressing and information elements have the lengths a and i, and which fits the
-- u8 and u16 offsets: the ranges that are computed when it is built put the payload, the FCS and
-- the tailroom where the length of the frame by its structure says, counted from its offset in
-- the buffer.
pub build_ranges-mpdu_length_wo_fcs :
    (fcs offset : ℕ) (r : MpduRepr mpdu_with_ies) (payload a i : ℕ)
    → addressing_length r.addressing ≡ ok a
    → ies_length r.ies (ltb 0 payload) ≡ returns (ok i)
    → offset + a + 17 < 256
    → offset + a + 33 + i + payload + fcs < 2 ^ 16
    → (ranges : MpduFieldRanges mpdu_with_all_fields) × (total : ℕ) × (build_ranges fcs offset r
          payload
        ≡ returns (ok ranges))
      × (mpdu_length_wo_fcs r payload ≡ returns (ok total))
      × (ranges.offset_frame_payload ≡ some (offset + header_length r a + i))
      × (ranges.offset_fcs ≡ some (offset + total))
      × (ranges.offset_remainder ≡ some (offset + total + fcs))
unfolding mpdu_length_wo_fcs mpdu_less_ies_and_payload_length
build_ranges-mpdu_length_wo_fcs fcs offset r payload a i ea ei fits₁ fits₂ =
    let seq = seq_nr_length-bound r.seq_nr in
    let sec = security-bounds r.security in
    (
      built_fields fcs offset r payload a i,
      header_length r a + i + payload + length_or_zero (mic_of r.security),
      build_ranges-fields fcs offset r payload a i ea ei fits₁ fits₂,
      rw (ea, ei) (ap returns (ap ok (omega (arith, seq, sec.0, sec.1, sec.2)))),
      ap some (omega arith),
      ap some (omega arith),
      ap some (omega arith),
    )
