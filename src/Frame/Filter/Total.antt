-- ===== src/Frame/Filter/Total.antt =====
-- The receiver's filter on every frame: which frames it cannot survive, and that it answers on all
-- others.
use dot15d.Base.{
  ℕ, zero, suc, ◌+◌, ◌≤◌, ◌<◌, ◌≡◌, ◌≢◌, refl, inl, inr, Bool, true, false, List, [], ◌∷◌, leb,
  if◌then◌else◌, length, drop, Option, some, none, returns, ok, err, arith, index, length-drop,
  Result-cases,
}
use dot15d.Frame.Modes.{AddressingMode}
use dot15d.Frame.Control.{FrameControl}
use dot15d.Frame.Addressing.Repr.{AddressingRepr, PresentFlags, address_present_flags}
use dot15d.Frame.Addressing.Fields.{AddressingFields, with_lengths}
use dot15d.Frame.Addressing.Fields.Partition.{Reads, lengths_of}
use dot15d.Frame.Addressing.Fields.Unchecked.{
  readable, new_unchecked-ok, addressing_fields_lengths-ok, addressing_fields_lengths-err,
}
use dot15d.Frame.Filter.{
  PreliminaryFrameInfo, read_info, layout, with_addressing, without_addressing, seq_nr_len,
  read_seq_nr,
}

index-total {ℓ} :
    {A : Type ℓ} (xs : List A) (i : ℕ) → i < length xs → (x : A) × (index xs i ≡ returns x)
index-total [] i h = absurd (omega arith)
index-total (x ∷ xs) zero h = (x, refl)
index-total (x ∷ xs) (suc i) h = index-total xs i (omega arith)

-- What is known of the result: no addressing fields, or the header and addressing fields with readable fields.
pub data Learnt (info : PreliminaryFrameInfo) (fc : FrameControl) : Type 0 where
  no_addressing : info.addressing_fields ≡ none → Learnt info fc
  both :
      (f : AddressingFields) (p : PresentFlags)
      → info.frame_control ≡ some fc
      → info.addressing_fields ≡ some f
      → Reads f p
      → Learnt info fc

-- A representation, if there is one, with known modes.
abbrev pub HasKnownModes : Option AddressingRepr → Type 0
HasKnownModes none = Unit
HasKnownModes (some r) = (r.dst ≢ AddressingMode.unknown) × (r.src ≢ AddressingMode.unknown)

read_seq_nr-total :
    (suppressed : Bool) (pdu : List ℕ)
    → 24 ≤ length pdu
    → (n : Option ℕ) × (read_seq_nr (if suppressed then none else some 2) pdu ≡ returns n)
read_seq_nr-total true pdu h = (none, refl)
read_seq_nr-total false pdu h = let (x, e) = index-total pdu 3 (omega arith) in (some x, rw e refl)

abbrev info_of : ℕ → Option FrameControl → Option ℕ → Option AddressingFields → PreliminaryFrameInfo
info_of mpdu_length fc seq_nr fields = record {
  mpdu_length = mpdu_length;
  frame_control = fc;
  seq_nr = seq_nr;
  addressing_fields = fields;
}

layout-ok :
    (fc : FrameControl) (r : AddressingRepr) (suppressed : Bool) (p : PresentFlags)
    → address_present_flags r ≡ ok p
    → layout fc (some r) suppressed ≡ with_addressing fc r suppressed (lengths_of p)
unfolding layout
layout-ok fc r suppressed p e = rw (addressing_fields_lengths-ok r p e, layout) refl

layout-err :
    (fc : FrameControl) (r : AddressingRepr) (suppressed : Bool)
    → address_present_flags r ≡ err tt
    → layout fc (some r) suppressed ≡ without_addressing (some fc) suppressed
unfolding layout
layout-err fc r suppressed e = rw (addressing_fields_lengths-err r e, layout) refl

with_addressing-total :
    (fc : FrameControl) (r : AddressingRepr) (suppressed : Bool) (p : PresentFlags) (pdu : List ℕ)
    → r.dst ≢ AddressingMode.unknown
    → r.src ≢ AddressingMode.unknown
    → address_present_flags r ≡ ok p
    → 24 ≤ length pdu
    → (info : PreliminaryFrameInfo) × (read_info
          (with_addressing fc r suppressed (lengths_of p))
          pdu
        ≡ returns info)
      × Learnt info fc
unfolding read_info
with_addressing-total fc r suppressed p pdu k l flags h =
    let (len, e) = index-total pdu 0 (omega arith) in
    let (seq, s) = read_seq_nr-total suppressed pdu h in
    let offset = 1 + (2 + seq_nr_len suppressed) in
    let rest = drop offset pdu in
    let short : offset ≤ 4 = ground arith in
    let fits : leb offset (length pdu) ≡ true = ground arith in
    (
      info_of len (some fc) seq (some (with_lengths rest (lengths_of p))),
      rw (e, s, fits, new_unchecked-ok rest r p flags) refl,
      both _ p refl refl (readable rest r p k l flags (omega (arith, length-drop offset pdu))),
    )

without_addressing-total :
    (fc : FrameControl) (o : Option FrameControl) (suppressed : Bool) (pdu : List ℕ)
    → 24 ≤ length pdu
    → (info : PreliminaryFrameInfo) × (read_info (without_addressing o suppressed) pdu
        ≡ returns info)
      × Learnt info fc
unfolding read_info
without_addressing-total fc o suppressed pdu h =
    let (len, e) = index-total pdu 0 (omega arith) in
    let (seq, s) = read_seq_nr-total suppressed pdu h in
    (info_of len o seq none, rw (e, s) refl, no_addressing refl)

pub read_info-total :
    (fc : FrameControl) (repr : Option AddressingRepr) (suppressed : Bool) (pdu : List ℕ)
    → HasKnownModes repr
    → 24 ≤ length pdu
    → (info : PreliminaryFrameInfo) × (read_info (layout fc repr suppressed) pdu ≡ returns info)
      × Learnt info fc
unfolding layout
read_info-total fc none suppressed pdu m h = without_addressing-total fc none suppressed pdu h
read_info-total fc (some r) suppressed pdu (k, l) h =
    elim (Result-cases (address_present_flags r)) [
      | inl (p, flags) ↦
          rw (layout-ok fc r suppressed p flags)
            (with_addressing-total fc r suppressed p pdu k l flags h)
      | inr (tt, invalid) ↦
          rw (layout-err fc r suppressed invalid)
            (without_addressing-total fc (some fc) suppressed pdu h)
    ]
