-- ===== src/Frame/Control.antt =====
-- The frame control field: `FrameControl` of dot15d4-driver/src/frame/frame_control.rs, over a
-- buffer that is a list of bytes. The slice `[..2]` of a shorter buffer panics.
pub mod Header
pub mod Fields
pub mod RoundTrip
use Prim.Native.Nat.{bit_and, bit_or}
use dot15d.Base.{
  ℕ, ◌+◌, ◌-◌, ◌*◌, ◌/◌, ◌%◌, ◌^◌, ◌≤◌, Bool, true, false, not, ◌&&◌, List, [], ◌∷◌, leb, ◌==◌,
  if◌then◌else◌, length, Outcome, returns, panics, ◌>>=◌, Result, ok, err,
}
use dot15d.Frame.Modes.{
  FrameType, frame_type_from, frame_type_code, FrameVersion, frame_version_from, frame_version_code,
  AddressingMode, addressing_mode_from, addressing_mode_code,
}

pub record FrameControl : Type 0 where
  pub bytes : List ℕ

pub new_unchecked : List ℕ → FrameControl
new_unchecked bytes = record { bytes = bytes }

pub check_len : FrameControl → Bool
check_len fc = leb 2 (length fc.bytes)

-- The crate's `Error` has one value.
pub new : List ℕ → Result FrameControl (Unit {0})
unfolding new_unchecked check_len
new bytes = let fc = new_unchecked bytes in if check_len fc then ok fc else err tt

pub into_inner : FrameControl → List ℕ
into_inner fc = fc.bytes

-- `u16::from_le_bytes([b[0], b[1]])`
abbrev load_bytes : List ℕ → Outcome ℕ
load_bytes [] = panics
load_bytes (b ∷ []) = panics
load_bytes (b0 ∷ b1 ∷ rest) = returns (b0 + b1 * 256)

abbrev pub load : FrameControl → Outcome ℕ
load fc = load_bytes fc.bytes

-- `b.copy_from_slice(&raw.to_le_bytes())`
abbrev store_bytes : List ℕ → ℕ → Outcome FrameControl
store_bytes [] raw = panics
store_bytes (b ∷ []) raw = panics
store_bytes (b0 ∷ b1 ∷ rest) raw = returns (record { bytes = raw % 256 ∷ raw / 256 ∷ rest })

abbrev pub store : FrameControl → ℕ → Outcome FrameControl
store fc raw = store_bytes fc.bytes raw

-- `((raw >> shift) & 0b1) == 1`
abbrev flag : ℕ → ℕ → Bool
flag shift raw = bit_and (raw / 2 ^ shift) 0b1 == 1

pub frame_type : FrameControl → Outcome FrameType
frame_type fc = do raw ← load fc; returns (frame_type_from (bit_and raw 0b111))

pub security_enabled : FrameControl → Outcome Bool
security_enabled fc = do raw ← load fc; returns (flag 3 raw)

pub frame_pending : FrameControl → Outcome Bool
frame_pending fc = do raw ← load fc; returns (flag 4 raw)

unfoldable pub ack_request : FrameControl → Outcome Bool
ack_request fc = do raw ← load fc; returns (flag 5 raw)

pub pan_id_compression : FrameControl → Outcome Bool
pan_id_compression fc = do raw ← load fc; returns (flag 6 raw)

unfoldable pub sequence_number_suppression : FrameControl → Outcome Bool
sequence_number_suppression fc = do raw ← load fc; returns (flag 8 raw)

pub information_elements_present : FrameControl → Outcome Bool
information_elements_present fc = do raw ← load fc; returns (flag 9 raw)

pub dst_addressing_mode : FrameControl → Outcome AddressingMode
dst_addressing_mode fc = do
  raw ← load fc
  returns (addressing_mode_from (bit_and (raw / 2 ^ 10) 0b11))

pub src_addressing_mode : FrameControl → Outcome AddressingMode
src_addressing_mode fc = do
  raw ← load fc
  returns (addressing_mode_from (bit_and (raw / 2 ^ 14) 0b11))

pub frame_version : FrameControl → Outcome FrameVersion
frame_version fc = do raw ← load fc; returns (frame_version_from (bit_and (raw / 2 ^ 12) 0b11))

abbrev pub is_unknown_type : FrameType → Bool
is_unknown_type FrameType.unknown = true
is_unknown_type _ = false

abbrev pub is_unknown_version : FrameVersion → Bool
is_unknown_version FrameVersion.unknown = true
is_unknown_version _ = false

pub is_valid : FrameControl → Outcome Bool
unfolding frame_type frame_version
is_valid fc = do
  ty ← frame_type fc
  version ← frame_version fc
  returns (if is_unknown_type ty then false else if is_unknown_version version then false else true)

-- `!mask` of a u16.
abbrev not_u16 : ℕ → ℕ
not_u16 mask = 0xffff - mask

abbrev as_u16 : Bool → ℕ
as_u16 true = 1
as_u16 false = 0

-- `raw |= (value as u16) << shift`
abbrev set_flag : ℕ → FrameControl → Bool → Outcome FrameControl
set_flag shift fc value = do raw ← load fc; store fc (bit_or raw (as_u16 value * 2 ^ shift))

-- `raw = (raw & !(mask << shift)) | ((code & mask) << shift)`
abbrev set_field : ℕ → ℕ → FrameControl → ℕ → Outcome FrameControl
set_field mask shift fc code = do
  raw ← load fc
  store fc (bit_or (bit_and raw (not_u16 (mask * 2 ^ shift))) (bit_and code mask * 2 ^ shift))

pub set_frame_type : FrameControl → FrameType → Outcome FrameControl
set_frame_type fc ty = do
  raw ← load fc
  store fc (bit_or (bit_and raw (not_u16 0b111)) (bit_and (frame_type_code ty) 0b111))

pub set_security_enabled : FrameControl → Bool → Outcome FrameControl
set_security_enabled = set_flag 3

pub set_frame_pending : FrameControl → Bool → Outcome FrameControl
set_frame_pending = set_flag 4

pub set_ack_request : FrameControl → Bool → Outcome FrameControl
set_ack_request = set_flag 5

pub set_pan_id_compression : FrameControl → Bool → Outcome FrameControl
set_pan_id_compression = set_flag 6

pub set_sequence_number_suppression : FrameControl → Bool → Outcome FrameControl
set_sequence_number_suppression = set_flag 8

pub set_information_elements_present : FrameControl → Bool → Outcome FrameControl
set_information_elements_present = set_flag 9

pub set_dst_addressing_mode : FrameControl → AddressingMode → Outcome FrameControl
set_dst_addressing_mode fc mode = set_field 0b11 10 fc (addressing_mode_code mode)

pub set_src_addressing_mode : FrameControl → AddressingMode → Outcome FrameControl
set_src_addressing_mode fc mode = set_field 0b11 14 fc (addressing_mode_code mode)

pub set_frame_version : FrameControl → FrameVersion → Outcome FrameControl
set_frame_version fc version = set_field 0b11 12 fc (frame_version_code version)
