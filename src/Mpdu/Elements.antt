-- ===== src/Mpdu/Elements.antt =====
-- Lists of information elements and their lengths: dot15d4-frame/src/repr/ies.rs. Lengths are u16
-- and wrap.
pub mod Termination
use dot15d.Base.{
  ℕ, ◌+◌, ◌*◌, ◌/◌, ◌%◌, ◌-◌, ◌^◌, Bool, true, false, not, ◌&&◌, ◌||◌, List, [], ◌∷◌, length, ltb,
  ◌==◌, if◌then◌else◌, Outcome, returns, panics, ◌>>=◌, Result, ok, err,
}

pub data IeRepr : Type 0 where
  time_correction_header_ie reduced_channel_hopping_nested_ie tsch_synchronization_nested_ie
        reduced_tsch_timeslot_nested_ie full_tsch_timeslot_nested_ie :
      IeRepr
  -- The number of channels, and whether it is a SUN PHY.
  full_channel_hopping_nested_ie : ℕ → Bool → IeRepr
  -- The number of links of each slotframe.
  tsch_slotframe_and_link_nested_ie : List ℕ → IeRepr

-- A sum of u16
abbrev pub add_u16 : ℕ → ℕ → ℕ
add_u16 a b = (a + b) % 2 ^ 16

abbrev pub links_length : ℕ → List ℕ → ℕ
links_length len [] = len
links_length len (links ∷ rest) = links_length (add_u16 len (links * 5)) rest

-- The lengths of the contents, of a header IE and of a nested IE.
unfoldable pub content_lengths : IeRepr → ℕ × ℕ
content_lengths time_correction_header_ie = (2, 0)
content_lengths reduced_channel_hopping_nested_ie = (0, 1)
content_lengths (full_channel_hopping_nested_ie channels sun_phy) =
    (0, 12 + channels + (if sun_phy then (channels + 7) / 8 else 0))
content_lengths tsch_synchronization_nested_ie = (0, 6)
content_lengths (tsch_slotframe_and_link_nested_ie slotframes) =
    (0, links_length (add_u16 1 (length slotframes % 2 ^ 16 * 4 % 2 ^ 16)) slotframes)
content_lengths reduced_tsch_timeslot_nested_ie = (0, 1)
content_lengths full_tsch_timeslot_nested_ie = (0, 25)

abbrev pub with_header : ℕ × ℕ → Outcome (ℕ × ℕ)
with_header (header_ie, nested_ie) =
    if ltb 0 header_ie
    then returns (add_u16 2 header_ie, 0)
    else if ltb 0 nested_ie
    then returns (0, add_u16 2 nested_ie)
    else panics

unfoldable pub ie_length : IeRepr → Outcome (ℕ × ℕ)
ie_length ie = with_header (content_lengths ie)

-- What the loops over a list gather.
pub record Scan : Type 0 where
  pub len : ℕ
  pub has_header_ie : Bool
  pub has_nested_ie : Bool

abbrev pub scan_lengths : Scan → ℕ × ℕ → Outcome Scan
scan_lengths s (header_ie, nested_ie) =
    if ltb 0 header_ie
    then returns record s { len = add_u16 s.len header_ie; has_header_ie = true }
    else if ltb 0 nested_ie
    then returns record s { len = add_u16 s.len nested_ie; has_nested_ie = true }
    else panics

abbrev pub scan_ies : Scan → List IeRepr → Outcome Scan
scan_ies s [] = returns s
scan_ies s (ie ∷ rest) = do
  lengths ← ie_length ie
  next ← scan_lengths s lengths
  scan_ies next rest

abbrev pub nothing_scanned : Scan
nothing_scanned = record { len = 0; has_header_ie = false; has_nested_ie = false }

abbrev pub mlme_header : Bool → ℕ → ℕ
mlme_header has_nested_ie len = if has_nested_ie then add_u16 len 2 else len

-- The length of the termination IEs, by whether there are header IEs, nested IEs and a payload.
abbrev pub termination_length : Bool → Bool → Bool → ℕ
termination_length false false false = 0
termination_length true false false = 0
termination_length false false true = 0
termination_length false true false = 2
termination_length true true false = 2
termination_length true false true = 2
termination_length false true true = 4
termination_length true true true = 4

abbrev pub complete : Bool → Scan → ℕ
complete has_frame_payload s =
    add_u16 (mlme_header s.has_nested_ie s.len)
      (termination_length s.has_header_ie s.has_nested_ie has_frame_payload)

-- `ies_length` of a list without termination IEs
unfoldable pub list_length : List IeRepr → Bool → Outcome ℕ
list_length ies has_frame_payload = do
  scanned ← scan_ies nothing_scanned ies
  returns (complete has_frame_payload scanned)

pub data IeReprWithTermination : Type 0 where
  non_termination_ie : IeRepr → IeReprWithTermination
  header_termination_ie_1 header_termination_ie_2 payload_termination_ie : IeReprWithTermination

pub record Terminated : Type 0 where
  pub scanned : Scan
  pub has_header_termination_ie_1 : Bool
  pub has_header_termination_ie_2 : Bool
  pub has_payload_termination_ie : Bool

abbrev pub longer : Scan → Scan
longer s = record s { len = add_u16 s.len 2 }

abbrev pub scan_one : Terminated → IeReprWithTermination → Outcome Terminated
scan_one t (non_termination_ie ie) = do
  lengths ← ie_length ie
  next ← scan_lengths t.scanned lengths
  returns (record t { scanned = next })
scan_one t header_termination_ie_1 =
    returns (record t { scanned = longer t.scanned; has_header_termination_ie_1 = true })
scan_one t header_termination_ie_2 =
    returns (record t { scanned = longer t.scanned; has_header_termination_ie_2 = true })
scan_one t payload_termination_ie =
    returns (record t { scanned = longer t.scanned; has_payload_termination_ie = true })

abbrev pub scan_all : Terminated → List IeReprWithTermination → Outcome Terminated
scan_all t [] = returns t
scan_all t (ie ∷ rest) = scan_one t ie >>= λ next. scan_all next rest

-- The rows of the table are tried in order; `ht` is either header termination.
abbrev pub presence_rows :
    Bool → Bool → Bool → Bool → Bool → Bool → Outcome (Result Bool (Unit {0}))
presence_rows header nested ht ht1 ht2 pt =
    if header && not nested && not ht && not pt
    then returns (ok false)
    else if nested && ht && ht1
    then returns (ok false)
    else if header && not nested && ht && not pt && ht2
    then returns (ok true)
    else if nested && ht && pt && ht1
    then returns (ok true)
    else if nested || ht || pt
    then returns (err tt)
    else panics

abbrev pub presence : Terminated → Outcome (Result Bool (Unit {0}))
presence t =
    presence_rows t.scanned.has_header_ie t.scanned.has_nested_ie
      (t.has_header_termination_ie_1 || t.has_header_termination_ie_2) t.has_header_termination_ie_1
      t.has_header_termination_ie_2 t.has_payload_termination_ie

abbrev pub with_length : ℕ → Result Bool (Unit {0}) → Result (ℕ × Bool) (Unit {0})
with_length len (ok present) = ok (len, present)
with_length len (err e) = err e

unfoldable pub ies_length_and_payload_presence :
    List IeReprWithTermination → Outcome (Result (ℕ × Bool) (Unit {0}))
ies_length_and_payload_presence ies = do
  t ←
      scan_all
        (record {
          scanned = nothing_scanned;
          has_header_termination_ie_1 = false;
          has_header_termination_ie_2 = false;
          has_payload_termination_ie = false;
        })
        ies
  present ← presence t
  returns (with_length (mlme_header t.scanned.has_nested_ie t.scanned.len) present)

pub data IeListRepr : Type 0 where
  empty : IeListRepr
  with_termination_ies : List IeReprWithTermination → IeListRepr
  without_termination_ies : List IeRepr → IeListRepr

-- Rust's equality of Booleans
abbrev pub same : Bool → Bool → Bool
same true b = b
same false b = not b

abbrev pub consistent : Bool → Result (ℕ × Bool) (Unit {0}) → Result ℕ (Unit {0})
consistent has_frame_payload (err e) = err e
consistent has_frame_payload (ok (len, present)) =
    if same has_frame_payload present then ok len else err tt

unfoldable pub ies_length : IeListRepr → Bool → Outcome (Result ℕ (Unit {0}))
ies_length empty has_frame_payload = returns (ok 0)
ies_length (with_termination_ies ies) has_frame_payload = do
  found ← ies_length_and_payload_presence ies
  returns (consistent has_frame_payload found)
ies_length (without_termination_ies ies) has_frame_payload = do
  len ← list_length ies has_frame_payload
  returns (ok len)

abbrev pub payload_left : ℕ → Result (ℕ × Bool) (Unit {0}) → Result (ℕ × ℕ) (Unit {0})
payload_left total (err e) = err e
payload_left total (ok (len, present)) =
    if ltb total len
    then err tt
    else if same (ltb 0 (total - len)) present
    then ok (len, total - len)
    else err tt

unfoldable pub ies_and_frame_payload_length : IeListRepr → ℕ → Outcome (Result (ℕ × ℕ) (Unit {0}))
ies_and_frame_payload_length empty total = returns (ok (0, total))
ies_and_frame_payload_length (with_termination_ies ies) total = do
  found ← ies_length_and_payload_presence ies
  returns (payload_left total found)
ies_and_frame_payload_length (without_termination_ies ies) total = returns (err tt)
