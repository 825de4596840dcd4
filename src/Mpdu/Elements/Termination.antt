-- ===== src/Mpdu/Elements/Termination.antt =====
-- The two ways to the length of information elements: dot15d4-frame/src/repr/ies.rs.
use dot15d.Base.{
  ℕ, ◌^◌, ◌<◌, subst, ◌≡◌, refl, ap, Bool, true, false, not, ◌&&◌, ◌||◌, List, [], ◌∷◌, ◌++◌, map,
  ltb, arith, Bool-cases, inl, inr, Outcome, returns, panics, ◌>>=◌, Outcome-cases, Result, ok,
}
use dot15d.Mpdu.Elements.{
  IeRepr, IeReprWithTermination, non_termination_ie, header_termination_ie_1,
  header_termination_ie_2, payload_termination_ie, Scan, Terminated, ie_length, scan_lengths,
  scan_ies, nothing_scanned, mlme_header, complete, list_length, scan_all, presence, with_length,
  ies_length_and_payload_presence,
}

scan_all-map :
    (t : Terminated) (ies : List IeRepr) (rest : List IeReprWithTermination)
    → scan_all t (map non_termination_ie ies ++ rest)
      ≡ (scan_ies t.scanned ies >>= λ s. scan_all (record t { scanned = s }) rest)
scan_all-map t [] rest = refl
scan_all-map t (ie ∷ ies) rest = elim (Outcome-cases (ie_length ie)) [
  | inr e ↦ rw (e) refl
  | inl (lengths, e) ↦ elim (Outcome-cases (scan_lengths t.scanned lengths)) [
    | inr e' ↦ rw (e, e') refl
    | inl (s, e') ↦ rw (e, e') (scan_all-map (record t { scanned = s }) ies rest)
  ]
]

-- The termination IEs that section 7.4.1 of the standard wants after a list, by whether it has
-- header IEs and nested IEs, and whether a payload follows.
abbrev pub terminators : Bool → Bool → Bool → List IeReprWithTermination
terminators true false true = header_termination_ie_2 ∷ []
terminators _ true false = header_termination_ie_1 ∷ []
terminators _ true true = header_termination_ie_1 ∷ payload_termination_ie ∷ []
terminators _ _ _ = []

abbrev scanned_to : Scan → Terminated
scanned_to s = record {
  scanned = s;
  has_header_termination_ie_1 = false;
  has_header_termination_ie_2 = false;
  has_payload_termination_ie = false;
}

abbrev finish : Terminated → Outcome (Result (ℕ × Bool) (Unit {0}))
finish t = presence t >>= λ present.
    returns (with_length (mlme_header t.scanned.has_nested_ie t.scanned.len) present)

abbrev Fits : Outcome Scan → Type 0
Fits panics = Unit
Fits (returns s) = s.len < 2 ^ 16

scan_lengths-Fits : (s : Scan) (header nested : ℕ) → Fits (scan_lengths s (header, nested))
scan_lengths-Fits s header nested = elim (Bool-cases (ltb 0 header)) [
  | inl e ↦ rw (e) (omega arith)
  | inr e ↦ elim (Bool-cases (ltb 0 nested)) [
    | inl e' ↦ rw (e, e') (omega arith)
    | inr e' ↦ rw (e, e') tt
  ]
]

scan_ies-Fits : (s : Scan) (ies : List IeRepr) → s.len < 2 ^ 16 → Fits (scan_ies s ies)
scan_ies-Fits s [] h = h
scan_ies-Fits s (ie ∷ ies) h = elim (Outcome-cases (ie_length ie)) [
  | inr e ↦ rw (e) tt
  | inl (lengths, e) ↦ elim (Outcome-cases (scan_lengths s lengths)) [
    | inr e' ↦ rw (e, e') tt
    | inl (t, e') ↦
        rw (e, e') (scan_ies-Fits t ies (subst Fits e' (scan_lengths-Fits s lengths.0 lengths.1)))
  ]
]

finish-terminators :
    (len : ℕ) (header nested payload : Bool)
    → len < 2 ^ 16
    → header || nested ≡ true
    → (scan_all
          (scanned_to (record { len = len; has_header_ie = header; has_nested_ie = nested }))
          (terminators header nested payload)
        >>= finish)
      ≡ returns (
          ok (
            complete payload (record { len = len; has_header_ie = header; has_nested_ie = nested }),
            payload && not nested,
          ))
finish-terminators len false false payload b h = absurd (grind arith)
finish-terminators len true false false b h =
    ap returns (ap ok (ap (λ (l : ℕ). (l, false)) (omega arith)))
finish-terminators len true false true b h =
    ap returns (ap ok (ap (λ (l : ℕ). (l, true)) (omega arith)))
finish-terminators len true true false b h =
    ap returns (ap ok (ap (λ (l : ℕ). (l, false)) (omega arith)))
finish-terminators len true true true b h =
    ap returns (ap ok (ap (λ (l : ℕ). (l, false)) (omega arith)))
finish-terminators len false true false b h =
    ap returns (ap ok (ap (λ (l : ℕ). (l, false)) (omega arith)))
finish-terminators len false true true b h =
    ap returns (ap ok (ap (λ (l : ℕ). (l, false)) (omega arith)))

-- For a list of information elements that is not empty, with the termination IEs that it needs: the
-- length that is computed for the list when a frame is built is the one that is found for it with
-- its termination IEs, and the payload that follows is told, except behind nested IEs, where the
-- answer is always that there is none.
pub ies_length_and_payload_presence-terminators :
    (ies : List IeRepr) (s : Scan) (payload : Bool)
    → scan_ies nothing_scanned ies ≡ returns s
    → s.has_header_ie || s.has_nested_ie ≡ true
    → (list_length ies payload ≡ returns (complete payload s))
      × (ies_length_and_payload_presence
            (map non_termination_ie ies ++ terminators s.has_header_ie s.has_nested_ie payload)
          ≡ returns (ok (complete payload s, payload && not s.has_nested_ie)))
unfolding list_length ies_length_and_payload_presence
ies_length_and_payload_presence-terminators ies s payload e h = (
  rw (e) refl,
  rw
      (
        scan_all-map (scanned_to nothing_scanned) ies
            (terminators s.has_header_ie s.has_nested_ie payload),
        e,
      )
      (finish-terminators s.len s.has_header_ie s.has_nested_ie payload
        (subst Fits e (scan_ies-Fits nothing_scanned ies (omega arith))) h),
)
