-- ===== src/Frame/Addressing/Repr.antt =====
-- Which addressing fields a frame has: `AddressingRepr` of
-- dot15d4-driver/src/frame/addressing.rs. The lengths are small enough for the u8 sums.
pub mod Presence
pub mod Received
use dot15d.Base.{
  ℕ, ◌+◌, Bool, true, false, not, ◌&&◌, ◌||◌, ◌==◌, if◌then◌else◌, Option, some, none, Outcome,
  returns, panics, ◌>>=◌, Result, ok, err,
}
use dot15d.Frame.Modes.{
  mode_length, AddressingMode, absent, short, extended, FrameVersion, ieee802154_2003,
  ieee802154_2006, ieee802154,
}
use dot15d.Frame.Control.{
  FrameControl, dst_addressing_mode, src_addressing_mode, frame_version, pan_id_compression,
}

-- `Yes`, `No` and `Legacy`.
pub data PanIdCompressionRepr : Type 0 where
  compression_yes compression_no legacy : PanIdCompressionRepr

pub record AddressingRepr : Type 0 where
  pub dst : AddressingMode
  pub src : AddressingMode
  pub pan_ids_equal : Bool
  pub pan_id_compression : PanIdCompressionRepr

-- `matches!(mode, …)`
abbrev pub is_unknown_mode : AddressingMode → Bool
is_unknown_mode AddressingMode.unknown = true
is_unknown_mode _ = false

abbrev pub is_absent_mode : AddressingMode → Bool
is_absent_mode absent = true
is_absent_mode _ = false

abbrev pub is_short_mode : AddressingMode → Bool
is_short_mode short = true
is_short_mode _ = false

unfoldable pub new_repr :
    AddressingMode → AddressingMode → Bool → PanIdCompressionRepr → Outcome AddressingRepr
new_repr dst src pan_ids_equal compression =
    if is_unknown_mode dst || is_unknown_mode src
    then panics
    else returns (record {
      dst = dst;
      src = src;
      pan_ids_equal = pan_ids_equal;
      pan_id_compression = compression;
    })

pub new_legacy_addressing : AddressingMode → AddressingMode → Bool → Outcome AddressingRepr
unfolding new_repr
new_legacy_addressing dst src pan_ids_equal = new_repr dst src pan_ids_equal legacy

-- The tuple that `address_present_flags` returns.
pub record PresentFlags : Type 0 where
  pub dst_pan_id : Bool
  pub dst_address : AddressingMode
  pub src_pan_id : Bool
  pub src_address : AddressingMode

abbrev flags : Bool → AddressingMode → Bool → AddressingMode → Result PresentFlags (Unit {0})
flags dst_pan_id dst src_pan_id src = ok (record {
  dst_pan_id = dst_pan_id;
  dst_address = dst;
  src_pan_id = src_pan_id;
  src_address = src;
})

unfoldable pub present_legacy :
    AddressingMode → AddressingMode → Bool → Result PresentFlags (Unit {0})
present_legacy short short false = flags true short true short
present_legacy short extended false = flags true short true extended
present_legacy extended short false = flags true extended true short
present_legacy extended extended false = flags true extended true extended
present_legacy short short true = flags true short false short
present_legacy short extended true = flags true short false extended
present_legacy extended short true = flags true extended false short
present_legacy extended extended true = flags true extended false extended
present_legacy absent short false = flags false absent true short
present_legacy absent extended false = flags false absent true extended
present_legacy short absent false = flags true short false absent
present_legacy extended absent false = flags true extended false absent
present_legacy _ _ _ = err tt

unfoldable pub present_2015 :
    AddressingMode → AddressingMode → Bool → Result PresentFlags (Unit {0})
present_2015 absent absent false = flags false absent false absent
present_2015 absent absent true = flags true absent false absent
present_2015 dst absent false = flags true dst false absent
present_2015 dst absent true = flags false dst false absent
present_2015 absent src false = flags false absent true src
present_2015 absent src true = flags false absent false src
present_2015 extended extended false = flags true extended false extended
present_2015 extended extended true = flags false extended false extended
present_2015 short short false = flags true short true short
present_2015 short extended false = flags true short true extended
present_2015 extended short false = flags true extended true short
present_2015 short extended true = flags true short false extended
present_2015 extended short true = flags true extended false short
present_2015 short short true = flags true short false short
present_2015 _ _ _ = err tt

unfoldable pub address_present_flags : AddressingRepr → Result PresentFlags (Unit {0})
unfolding present_legacy present_2015
address_present_flags r = elim r.pan_id_compression [
  | legacy ↦ present_legacy r.dst r.src r.pan_ids_equal
  | compression_yes ↦ present_2015 r.dst r.src true
  | compression_no ↦ present_2015 r.dst r.src false
]

-- The array of four lengths.
pub record FieldLengths : Type 0 where
  pub dst_pan_id : ℕ
  pub dst_address : ℕ
  pub src_pan_id : ℕ
  pub src_address : ℕ

abbrev pub pan_id_length : Bool → ℕ
pan_id_length present = if present then 2 else 0

unfoldable pub addressing_fields_lengths : AddressingRepr → Result FieldLengths (Unit {0})
unfolding address_present_flags mode_length
addressing_fields_lengths r = elim (address_present_flags r) [
  | ok f ↦ ok (record {
    dst_pan_id = pan_id_length f.dst_pan_id;
    dst_address = mode_length f.dst_address;
    src_pan_id = pan_id_length f.src_pan_id;
    src_address = mode_length f.src_address;
  })
  | err e ↦ err tt
]

unfoldable pub addressing_fields_length : AddressingRepr → Result ℕ (Unit {0})
unfolding addressing_fields_lengths
addressing_fields_length r = elim (addressing_fields_lengths r) [
  | ok l ↦ ok (l.dst_pan_id + l.dst_address + l.src_pan_id + l.src_address)
  | err e ↦ err tt
]

abbrev pub both_present : AddressingMode → AddressingMode → Bool
both_present short short = true
both_present short extended = true
both_present extended short = true
both_present extended extended = true
both_present _ _ = false

unfoldable pub has_pan_id_compression : AddressingRepr → Bool
has_pan_id_compression r = elim r.pan_id_compression [
  | compression_yes ↦ true
  | compression_no ↦ true
  | legacy ↦ both_present r.dst r.src && r.pan_ids_equal
]

-- The frame version decides how the PAN ID compression bit is read.
abbrev pub compression_of :
    FrameVersion
    → AddressingMode
    → AddressingMode
    → Bool
    → Result (PanIdCompressionRepr × Bool) (Unit {0})
compression_of ieee802154_2003 dst src bit =
    ok (legacy, if not (is_absent_mode dst) && not (is_absent_mode src) then bit else false)
compression_of ieee802154_2006 dst src bit =
    ok (legacy, if not (is_absent_mode dst) && not (is_absent_mode src) then bit else false)
compression_of ieee802154 dst src bit = ok (
  if bit then compression_yes else compression_no,
  if is_short_mode dst || is_short_mode src then bit else false,
)
compression_of FrameVersion.unknown dst src bit = err tt

-- An error, or the representation unless it has no fields at all.
abbrev pub non_empty : AddressingRepr → Result (Option AddressingRepr) (Unit {0})
non_empty r = elim (addressing_fields_length r) [
  | ok n ↦ ok (if n == 0 then none else some r)
  | err e ↦ err tt
]

abbrev pub from_compression :
    AddressingMode
    → AddressingMode
    → Result (PanIdCompressionRepr × Bool) (Unit {0})
    → Outcome (Result (Option AddressingRepr) (Unit {0}))
from_compression dst src (err e) = returns (err tt)
from_compression dst src (ok (kind, pan_ids_equal)) =
    new_repr dst src pan_ids_equal kind >>= λ r. returns (non_empty r)

unfoldable pub from_frame_control :
    FrameControl → Outcome (Result (Option AddressingRepr) (Unit {0}))
unfolding new_repr addressing_fields_length
from_frame_control fc = do
  dst ← dst_addressing_mode fc
  src ← src_addressing_mode fc
  version ← frame_version fc
  bit ← pan_id_compression fc
  from_compression dst src (compression_of version dst src bit)
