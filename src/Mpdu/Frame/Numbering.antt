-- ===== src/Mpdu/Frame/Numbering.antt =====
-- The sequence number of a frame: dot15d4-frame/src/fields/mpdu.rs.
use dot15d.Base.{
  ℕ, zero, suc, ◌+◌, ◌≤◌, ◌<◌, ◌%◌, ◌^◌, ◌≡◌, refl, ◌⊎◌, inl, inr, Bool, ◌==◌, length, set, take,
  drop, List, [], ◌∷◌, length-set, none, some, returns, index, ok, err, arith, Bool-cases,
}
use dot15d.Frame.Control.{sequence_number_suppression}
use dot15d.Mpdu.Security.{seq_nr_yes}
use native.Mathlib.Numerals.{unary_clauses}
use dot15d.Mpdu.Repr.{mpdu_with_frame_control}
use dot15d.Mpdu.Ranges
use dot15d.Mpdu.Ranges.Access.{range_frame_control, offset_seq_nr}
use dot15d.Mpdu.Frame.{MpduFrame, frame_control, sequence_number, set_sequence_number}

-- The buffer reaches past the sequence number.
abbrev pub HoldsSeqNr : MpduFrame → Type 0
HoldsSeqNr m = (m.offset + 3 < 2 ^ 8) × (m.offset + 3 ≤ length m.buffer)

two_at : (xs : List ℕ) (i : ℕ) → i + 2 ≤ length xs → (a b : ℕ) × (take 2 (drop i xs) ≡ a ∷ b ∷ [])
two_at [] i h = absurd (omega arith)
two_at (x ∷ []) zero h = absurd (omega arith)
two_at (x ∷ y ∷ xs) zero h = (x, y, refl)
two_at (x ∷ xs) (suc i) h = two_at xs i (omega arith)

two-set : (xs : List ℕ) (i v : ℕ) → take 2 (drop i (set xs (i + 2) v)) ≡ take 2 (drop i xs)
two-set [] i v = refl
two-set (x ∷ []) zero v = refl
two-set (x ∷ y ∷ []) zero v = refl
two-set (x ∷ y ∷ z ∷ xs) zero v = refl
two-set (x ∷ xs) (suc i) v = simp unary_clauses (simp unary_clauses at (two-set xs i v))

pub index-set : (xs : List ℕ) (i v : ℕ) → i < length xs → index (set xs i v) i ≡ returns v
index-set [] i v h = absurd (omega arith)
index-set (x ∷ xs) zero v h = refl
index-set (x ∷ xs) (suc i) v h = index-set xs i v (omega arith)

abbrev fc_bytes : MpduFrame → List ℕ
fc_bytes m = take 2 (drop m.offset m.buffer)

frame_control_lem :
    (m : MpduFrame) → HoldsSeqNr m → frame_control m ≡ returns (record { bytes = fc_bytes m })
unfolding frame_control Ranges.new range_frame_control offset_seq_nr
frame_control_lem m (h, k) = ground arith

two-set-at :
    (m : MpduFrame) (v : ℕ)
    → fc_bytes (record m { buffer = set m.buffer (m.offset + 2) v }) ≡ fc_bytes m
two-set-at m v = two-set m.buffer m.offset v

ranges_lem :
    (m : MpduFrame)
    → HoldsSeqNr m
    → (r : Ranges.MpduFieldRanges mpdu_with_frame_control) × (Ranges.new m.offset seq_nr_yes
        ≡ returns r)
      × (r.offset_frame_control ≡ m.offset)
unfolding Ranges.new
ranges_lem m (h, k) = elim (Bool-cases (((m.offset + 2) % 256 + 1) % 256 == 0)) [
  | inl e ↦ absurd (grind arith)
  | inr e ↦ rw (e) (_, refl, refl)
]

-- Whether the frame control field suppresses the sequence number is the same after a sequence number
-- was written.
suppressed_lem :
    (m : MpduFrame)
    → HoldsSeqNr m
    → (b : Bool) × (sequence_number_suppression (record { bytes = fc_bytes m }) ≡ returns b)
unfolding sequence_number_suppression
suppressed_lem m (h, k) = let (a, b, e) = two_at m.buffer m.offset (omega arith) in rw (e) (_, refl)

-- Where the buffer holds it, setting the sequence number of a frame does not panic. It fails if the
-- frame suppresses the number, and changes nothing; otherwise the number is read back.
pub set_sequence_number-sequence_number :
    (m : MpduFrame) (seq_nr : ℕ)
    → HoldsSeqNr m
    → ((set_sequence_number m seq_nr ≡ returns (m, err tt)) × (sequence_number m ≡ returns none))
      ⊎ ((m' : MpduFrame) × (set_sequence_number m seq_nr ≡ returns (m', ok tt))
          × (sequence_number m' ≡ returns (some seq_nr))
          × (m' ≡ record m { buffer = set m.buffer (m.offset + 2) seq_nr }))
unfolding set_sequence_number sequence_number offset_seq_nr
set_sequence_number-sequence_number m seq_nr v =
    let (b, e) = suppressed_lem m v in
    let m' : MpduFrame = record m { buffer = set m.buffer (m.offset + 2) seq_nr } in
    let (r, made, at) = ranges_lem m v in
    let v' : HoldsSeqNr m' = (v.0, omega (arith, v.1, length-set m.buffer (m.offset + 2) seq_nr)) in
    let (r', made', at') = ranges_lem m' v' in
    let same : fc_bytes m' ≡ fc_bytes m = two-set-at m seq_nr in
    elim (Bool-cases b) [
      | inl t ↦ inl (rw (frame_control_lem m v, e, t) (refl, refl))
      | inr t ↦ inr (
        m',
        rw (frame_control_lem m v, e, t, made, at) (ground arith),
        rw (frame_control_lem m' v', same, e, t, made', at')
            (rw (index-set m.buffer (m.offset + 2) seq_nr (omega arith)) refl),
        refl,
      )
    ]
