-- ===== src/Mpdu/Ranges/Accessed.antt =====
-- What the accessors answer for a frame that was built: dot15d4-frame/src/fields/field_ranges.rs.
use dot15d.Base.{
  ℕ, ◌+◌, ◌-◌, ◌<◌, ◌≤◌, ◌%◌, ◌^◌, ◌≡◌, refl, ap, true, false, Option, none, some, ltb, ◌==◌,
  if◌then◌else◌, arith, returns, panics, ok,
}
use dot15d.Mpdu.Security.{seq_nr_length, SecurityRepr, mic_length}
use dot15d.Mpdu.Elements.{ies_length}
use dot15d.Mpdu.Repr.{mpdu_with_ies, mpdu_with_all_fields, MpduRepr, addressing_length}
use dot15d.Mpdu.Ranges.{MpduFieldRanges, length_or_zero}
use dot15d.Mpdu.Ranges.Steps.{build_ranges}
use dot15d.Mpdu.Ranges.Built.{
  stage_fields, built_fields, build_ranges-fields, aux_of, mic_of, seq_nr_length-bound,
  security-bounds, mic_length-bound, aux_sec_header_length-bound,
}
use dot15d.Mpdu.Ranges.Access.{
  span, range_addressing, range_aux_sec_header, range_ies, offset_frame_payload,
  offset_frame_payload_end, range_frame_payload, range_mic, range_fcs,
}

-- What the accessors answer. The addressing fields start at b, the information elements at n, the
-- payload at p, and it ends at e.
abbrev pub Accessed :
    MpduFieldRanges mpdu_with_all_fields → Option SecurityRepr → ℕ → ℕ → ℕ → ℕ → ℕ → Type 0
Accessed ranges none b n p e fcs =
    (range_addressing ranges ≡ returns (span b n))
    × (range_aux_sec_header ranges ≡ returns none)
    × (range_ies ranges ≡ returns (span n p))
    × (range_frame_payload ranges ≡ panics)
    × (range_mic ranges ≡ panics)
    × (range_fcs ranges ≡ returns (span e (e + fcs)))
Accessed ranges (some security) b n p e fcs =
    (range_addressing ranges ≡ returns (some (b, n)))
    × (range_aux_sec_header ranges ≡ returns none)
    × (range_ies ranges ≡ returns (span n p))
    × (range_frame_payload ranges ≡ returns (if p == e then none else some (p, e)))
    × (range_mic ranges ≡ returns (some (e, e + mic_length security)))
    × (range_fcs ranges ≡ returns (span (e + mic_length security) (e + mic_length security + fcs)))

span-none : (n : ℕ) → span n n ≡ none
span-none n = let e : (n == n) ≡ true = ground arith in rw (e) refl

fields-Accessed :
    (fcs offset b n i payload : ℕ) (security : Option SecurityRepr)
    → b + aux_of security ≤ n
    → n + i + payload < 2 ^ 15
    → Accessed
        (stage_fields offset b
          (some n)
          (mic_of security)
          (some n)
          (some (n + i))
          (some (n + i + payload + length_or_zero (mic_of security)))
          (some (n + i + payload + length_or_zero (mic_of security) + fcs)))
        security
        b
        n
        (n + i)
        (n + i + payload)
        fcs
unfolding range_addressing range_aux_sec_header range_ies offset_frame_payload
    offset_frame_payload_end range_frame_payload range_mic range_fcs
fields-Accessed fcs offset b n i payload none above h = (
  refl,
  ap returns (span-none n),
  refl,
  refl,
  refl,
  ap (λ (k : ℕ). returns (span k (k + fcs))) (omega arith),
)
fields-Accessed fcs offset b n i payload (some s) above h =
    let aux = aux_sec_header_length-bound s in
    let mic = mic_length-bound s in
    let e = n + i + payload in
    let m = mic_length s in
    let later : (n == b) ≡ false = ground (arith, aux.0) in
    let ends : (e + m + 2 ^ 16 - m) % 2 ^ 16 ≡ e = omega (arith, mic.1) in
    let starts : (e + m + 2 ^ 32 - m) % 2 ^ 32 ≡ e = omega (arith, mic.1) in
    let apart : (e == e + m) ≡ false = ground (arith, mic.0) in
    (rw (later) refl, ap returns (span-none n), refl, rw (ends) refl, rw (starts, apart) refl, refl)

-- A frame that is built, of limited length, with the addressing fields and information elements of
-- lengths a and i. Without security the accessors of the payload and of the MIC panic. With
-- security the range of the addressing fields contains the auxiliary security header, which has no
-- range of its own, and the payload, the MIC and the FCS follow one another.
pub build_ranges-Accessed :
    (fcs offset : ℕ) (r : MpduRepr mpdu_with_ies) (payload a i : ℕ)
    → addressing_length r.addressing ≡ ok a
    → ies_length r.ies (ltb 0 payload) ≡ returns (ok i)
    → offset + a + 17 < 256
    → offset + a + 33 + i + payload + fcs < 2 ^ 15
    → (ranges : MpduFieldRanges mpdu_with_all_fields) × (build_ranges fcs offset r payload
        ≡ returns (ok ranges))
      × Accessed ranges r.security
          (offset + 2 + seq_nr_length r.seq_nr)
          (offset + 2 + seq_nr_length r.seq_nr + a + aux_of r.security)
          (offset + 2 + seq_nr_length r.seq_nr + a + aux_of r.security + i)
          (offset + 2 + seq_nr_length r.seq_nr + a + aux_of r.security + i + payload)
          fcs
build_ranges-Accessed fcs offset r payload a i ea ei fits₁ fits₂ =
    let seq = seq_nr_length-bound r.seq_nr in
    let sec = security-bounds r.security in
    let b = offset + 2 + seq_nr_length r.seq_nr in
    (
      built_fields fcs offset r payload a i,
      build_ranges-fields fcs offset r payload a i ea ei fits₁ (omega arith),
      fields-Accessed fcs offset b (b + a + aux_of r.security) i payload r.security (omega arith)
          (omega (arith, seq, sec.0)),
    )
