-- ===== src/Frame/Modes.antt =====
-- The enumerations of the frame control field: dot15d4-driver/src/frame/frame_control.rs and
-- addressing.rs. `code` is the discriminant that `as u8` gives.
use dot15d.Base.{ℕ, if◌then◌else◌, ◌==◌}

pub data FrameType : Type 0 where
  beacon data_frame ack mac_command multipurpose fragment_or_frak extended_frame unknown : FrameType

unfoldable pub frame_type_from : ℕ → FrameType
frame_type_from value =
    if value == 0b000
    then beacon
    else if value == 0b001
    then data_frame
    else if value == 0b010
    then ack
    else if value == 0b011
    then mac_command
    else if value == 0b101
    then multipurpose
    else if value == 0b110
    then fragment_or_frak
    else if value == 0b111
    then extended_frame
    else FrameType.unknown

abbrev pub frame_type_code : FrameType → ℕ
frame_type_code beacon = 0b000
frame_type_code data_frame = 0b001
frame_type_code ack = 0b010
frame_type_code mac_command = 0b011
frame_type_code multipurpose = 0b101
frame_type_code fragment_or_frak = 0b110
frame_type_code extended_frame = 0b111
frame_type_code FrameType.unknown = 0b1000

pub data FrameVersion : Type 0 where
  ieee802154_2003 ieee802154_2006 ieee802154 unknown : FrameVersion

unfoldable pub frame_version_from : ℕ → FrameVersion
frame_version_from value =
    if value == 0b00
    then ieee802154_2003
    else if value == 0b01
    then ieee802154_2006
    else if value == 0b10
    then ieee802154
    else FrameVersion.unknown

abbrev pub frame_version_code : FrameVersion → ℕ
frame_version_code ieee802154_2003 = 0b00
frame_version_code ieee802154_2006 = 0b01
frame_version_code ieee802154 = 0b10
frame_version_code FrameVersion.unknown = 0b11

pub data AddressingMode : Type 0 where
  absent short extended unknown : AddressingMode

unfoldable pub addressing_mode_from : ℕ → AddressingMode
addressing_mode_from value =
    if value == 0b00
    then absent
    else if value == 0b10
    then short
    else if value == 0b11
    then extended
    else AddressingMode.unknown

abbrev pub addressing_mode_code : AddressingMode → ℕ
addressing_mode_code absent = 0b00
addressing_mode_code short = 0b10
addressing_mode_code extended = 0b11
addressing_mode_code AddressingMode.unknown = 0b100

-- `AddressingMode::length`
unfoldable pub mode_length : AddressingMode → ℕ
mode_length absent = 0
mode_length short = 2
mode_length extended = 8
mode_length AddressingMode.unknown = 0
