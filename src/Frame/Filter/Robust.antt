-- ===== src/Frame/Filter/Robust.antt =====
-- The receiver's filter on every frame: the frames that make it panic, and that it answers on all
-- others.
use dot15d.Base.{
  ℕ, ◌≤◌, ◌<◌, ◌≡◌, ◌≢◌, refl, sym, ap, ◌∙◌, ◌⊎◌, inl, inr, Bool, false, List, [], ◌∷◌, ◌==◌,
  length, Option, returns, panics, ◌>>=◌, Result, err, arith, Result-cases, Bool-cases,
}
use dot15d.Frame.Modes.{AddressingMode, addressing_mode_from, FrameVersion, frame_version_from}
use dot15d.Frame.Control.{FrameControl}
use dot15d.Frame.Control.Header.{header}
use dot15d.Frame.Control.Fields.{buffer, raw, readers, is_valid-header}
use dot15d.Frame.Addressing.Repr.{
  AddressingRepr, from_frame_control, non_empty, addressing_fields_length,
}
use dot15d.Frame.Addressing.Repr.Received.{
  HeaderReads, reserved_version, reserved_mode, known, from_frame_control_cases,
}
use dot15d.Frame.Filter.{
  PreliminaryFrameInfo, Wait, bcmatch, end, preliminary_frame_info, is_frame_valid_and_for_us,
  fc_and_addressing_repr, layout, second_wait, after_second, no_info, unwrap_or_default,
}
use dot15d.Frame.Filter.Accepts.{filter_cases}
use dot15d.Frame.Filter.Total.{Learnt, no_addressing, both, HasKnownModes, read_info-total}

abbrev pub header_reads : (b0 b1 : ℕ) → HeaderReads (buffer b0 b1 [])
header_reads b0 b1 =
    let (_, _, _, _, bit, _, _, dst, version, src) = readers b0 b1 [] in
    record {
      dst = addressing_mode_from (header (raw b0 b1 [])).dst_addressing_mode;
      src = addressing_mode_from (header (raw b0 b1 [])).src_addressing_mode;
      version = frame_version_from (header (raw b0 b1 [])).frame_version;
      bit = (header (raw b0 b1 [])).pan_id_compression == 1;
      dst_read = dst;
      src_read = src;
      version_read = version;
      bit_read = bit;
    }

mode_reserved : (n : ℕ) → n < 4 → (addressing_mode_from n ≡ AddressingMode.unknown) → n ≡ 1
unfolding addressing_mode_from
mode_reserved n h e = ground arith

reserved_mode_unknown : addressing_mode_from 1 ≡ AddressingMode.unknown
unfolding addressing_mode_from
reserved_mode_unknown = refl

version_reserved : (n : ℕ) → n < 4 → frame_version_from n ≡ FrameVersion.unknown → n ≡ 3
unfolding frame_version_from
version_reserved n h e = ground arith

reserved_version_unknown : frame_version_from 3 ≡ FrameVersion.unknown
unfolding frame_version_from
reserved_version_unknown = refl

non_empty-HasKnownModes :
    (r : AddressingRepr)
    → r.dst ≢ AddressingMode.unknown
    → r.src ≢ AddressingMode.unknown
    → HasKnownModes (unwrap_or_default (non_empty r))
non_empty-HasKnownModes r k l = elim (Result-cases (addressing_fields_length r)) [
  | inl (n, e) ↦ elim (Bool-cases (n == 0)) [
    | inl z ↦ rw (e, z, non_empty) tt
    | inr z ↦ rw (e, z, non_empty) (k, l)
  ]
  | inr (tt, e) ↦ rw (e, non_empty) tt
]

-- No mode of a header is reserved, or its version is.
abbrev pub HasNoReservedMode : {fc : FrameControl} → HeaderReads fc → Type 0
HasNoReservedMode h =
    (h.version ≡ FrameVersion.unknown)
    ⊎ ((h.dst ≢ AddressingMode.unknown) × (h.src ≢ AddressingMode.unknown))

from_frame_control-total :
    (fc : FrameControl) (h : HeaderReads fc)
    → HasNoReservedMode h
    → (o : Result (Option AddressingRepr) (Unit {0})) × (from_frame_control fc ≡ returns o)
      × HasKnownModes (unwrap_or_default o)
from_frame_control-total fc h k = elim (from_frame_control_cases fc h) [
  | reserved_version e c ↦ (err tt, c, tt)
  | reserved_mode v m c ↦
      absurd (elim k [ inl e ↦ v e | inr (a, b) ↦ elim m [ inl x ↦ a x | inr y ↦ b y ] ])
  | known r v d s kd ks c ↦
      (non_empty r, c, non_empty-HasKnownModes r (λ e. kd (sym d ∙ e)) (λ e. ks (sym s ∙ e)))
]

after_second-total :
    (fc : FrameControl) (repr : Option AddressingRepr) (suppressed : Bool) (wait : Wait)
    (late : List ℕ)
    → HasKnownModes repr
    → 24 ≤ length late
    → (info : PreliminaryFrameInfo) × (after_second wait (layout fc repr suppressed) late
        ≡ returns info)
      × Learnt info fc
after_second-total fc repr suppressed end late k len = (no_info, refl, no_addressing refl)
after_second-total fc repr suppressed bcmatch late k len =
    read_info-total fc repr suppressed late k len

-- What a run of `preliminary_frame_info` on a full buffer gives.
info-total :
    (first second : Wait) (size b0 b1 : ℕ) (rest late : List ℕ)
    → 24 ≤ length late
    → HasNoReservedMode (header_reads b0 b1)
    → (info : PreliminaryFrameInfo) × (preliminary_frame_info first second
          (size ∷ b0 ∷ b1 ∷ rest)
          late
        ≡ returns info)
      × Learnt info (buffer b0 b1 [])
unfolding preliminary_frame_info fc_and_addressing_repr
info-total end second size b0 b1 rest late len k = (no_info, refl, no_addressing refl)
info-total bcmatch second size b0 b1 rest late len k =
    let fc = buffer b0 b1 [] in
    let (o, e, m) = from_frame_control-total fc (header_reads b0 b1) k in
    let repr = unwrap_or_default o in
    let (_, _, _, _, _, suppressed_read, _, _, _, _) = readers b0 b1 [] in
    let suppressed = (header (raw b0 b1 [])).sequence_number_suppression == 1 in
    let wait = second_wait (layout fc repr suppressed).bcc_bytes second in
    let (info, run, learnt) = after_second-total fc repr suppressed wait late m len in
    (info, rw (e, suppressed_read, run) refl, learnt)

module _ (mac_pan_id : List ℕ) (implicit : Bool) (hardware : List ℕ)
    (eight : length hardware ≡ 8) where
  info_answers :
      (info : PreliminaryFrameInfo) (b0 b1 : ℕ)
      → Learnt info (buffer b0 b1 [])
      → (b : Bool) × (is_frame_valid_and_for_us mac_pan_id implicit hardware info ≡ returns b)
  unfolding is_frame_valid_and_for_us
  info_answers info b0 b1 (no_addressing e) = (false, rw e (ground arith))
  info_answers info b0 b1 (both f p e1 e2 r) = (
    _,
    filter_cases mac_pan_id implicit hardware eight info (buffer b0 b1 []) _ f p e1 e2
        (is_valid-header b0 b1 []) r,
  )

  -- A frame whose header has no reserved addressing mode, or a reserved version, is decided: for any
  -- outcome of the two waits and a buffer of at least 24 bytes, `preliminary_frame_info` and then
  -- `is_frame_valid_and_for_us` return an answer.
  pub filter_answers :
      (first second : Wait) (size b0 b1 : ℕ) (rest late : List ℕ)
      → 24 ≤ length late
      → HasNoReservedMode (header_reads b0 b1)
      → (b : Bool) × ((preliminary_frame_info first second (size ∷ b0 ∷ b1 ∷ rest) late
            >>= is_frame_valid_and_for_us mac_pan_id implicit hardware)
          ≡ returns b)
  filter_answers first second size b0 b1 rest late len k =
      let (info, run, learnt) = info-total first second size b0 b1 rest late len k in
      let (b, answer) = info_answers info b0 b1 learnt in (b, rw (run, answer) refl)

-- A received header of a known version one of whose addressing modes is the reserved 1 makes
-- `preliminary_frame_info` panic, whatever else the frame holds.
pub reserved_mode_panics :
    (second : Wait) (size b0 b1 : ℕ) (rest late : List ℕ)
    → (header (raw b0 b1 [])).frame_version ≢ 3
    → (((header (raw b0 b1 [])).dst_addressing_mode ≡ 1)
        ⊎ ((header (raw b0 b1 [])).src_addressing_mode ≡ 1))
    → preliminary_frame_info bcmatch second (size ∷ b0 ∷ b1 ∷ rest) late ≡ panics
unfolding preliminary_frame_info fc_and_addressing_repr
reserved_mode_panics second size b0 b1 rest late v m =
    elim (from_frame_control_cases (buffer b0 b1 []) (header_reads b0 b1)) [
      | reserved_version e _ ↦ absurd (v (version_reserved _ (omega arith) e))
      | reserved_mode _ _ c ↦ rw c refl
      | known _ _ _ _ kd ks _ ↦ absurd (elim m [
        | inl x ↦ kd (ap addressing_mode_from x ∙ reserved_mode_unknown)
        | inr x ↦ ks (ap addressing_mode_from x ∙ reserved_mode_unknown)
      ])
    ]
