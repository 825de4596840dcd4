-- ===== src/Frame/Filter.antt =====
-- What the receiver learns of a frame while it is still being received, and whether it is for this
-- device: dot15d4-driver/src/frame/radio_frame.rs (`fc`, `fc_and_addressing_repr`),
-- dot15d4-driver/src/socs/nrf/radio.rs (`preliminary_frame_info`) and
-- dot15d4-driver/src/frame/utils.rs. The hardware is a parameter: what each of the two waits sees,
-- and the buffer as it is when the frame control field is read and when the rest is. The volatile
-- reads of `fc` outside the buffer are counted as panics, and the headroom is the one byte of nRF.
-- The MAC's PAN ID and whether an absent destination is an implicit broadcast are build-time
-- configuration.
pub mod Accepts
pub mod Total
pub mod Robust
use dot15d.Base.{
  ℕ, ◌+◌, ◌*◌, Bool, true, false, not, ◌&&◌, List, [], ◌∷◌, leb, ◌==◌, if◌then◌else◌, length, drop,
  Option, some, none, Outcome, returns, panics, ◌>>=◌, Result, ok, err, index, bytes_eq, reverse,
}
use dot15d.Frame.Control.{FrameControl, is_valid, sequence_number_suppression}
use dot15d.Frame.Addressing.{
  Address, absent, short, extended, first_two, broadcast_addr_data, is_broadcast, into_be_bytes_8,
}
use dot15d.Frame.Addressing.Repr.{
  AddressingRepr, FieldLengths, addressing_fields_lengths, from_frame_control,
}
use dot15d.Frame.Addressing.Fields.{AddressingFields, new_unchecked, dst_pan_id, dst_address}

pub record PreliminaryFrameInfo : Type 0 where
  pub mpdu_length : ℕ
  pub frame_control : Option FrameControl
  pub seq_nr : Option ℕ
  pub addressing_fields : Option AddressingFields

-- `RadioFrame::fc`
abbrev pub fc_of : ℕ → List ℕ → Outcome FrameControl
fc_of headroom buffer = do
  bytes ← first_two (drop headroom buffer)
  returns (record { bytes = bytes })

abbrev pub unwrap_or_default : Result (Option AddressingRepr) (Unit {0}) → Option AddressingRepr
unwrap_or_default (ok r) = r
unwrap_or_default (err e) = none

unfoldable pub fc_and_addressing_repr : ℕ → List ℕ → Outcome (FrameControl × Option AddressingRepr)
fc_and_addressing_repr headroom buffer = do
  fc ← fc_of headroom buffer
  repr ← from_frame_control fc
  returns (fc, unwrap_or_default repr)

-- A wait ends with a bit counter match, or with the end of the frame.
pub data Wait : Type 0 where
  bcmatch end : Wait

-- The result of the first wait: the frame control field, the offset of the sequence number, the
-- addressing with its offset, and the bytes after which the bit counter is set to match.
pub record Layout : Type 0 where
  pub frame_control : Option FrameControl
  pub seq_nr_offset : Option ℕ
  pub addressing_info : Option (AddressingRepr × ℕ)
  pub bcc_bytes : Option ℕ

abbrev pub plus_one : Option ℕ → Option ℕ
plus_one none = none
plus_one (some offset) = some (offset + 1)

abbrev pub seq_nr_len : Bool → ℕ
seq_nr_len suppressed = if suppressed then 0 else 1

abbrev pub seq_nr_offset_of : Bool → Option ℕ
seq_nr_offset_of suppressed = if suppressed then none else some 2

abbrev pub with_addressing : FrameControl → AddressingRepr → Bool → FieldLengths → Layout
with_addressing fc repr suppressed l = record {
  frame_control = some fc;
  seq_nr_offset = seq_nr_offset_of suppressed;
  addressing_info = some (repr, 2 + seq_nr_len suppressed);
  bcc_bytes = some (2 + seq_nr_len suppressed + l.dst_pan_id + l.dst_address);
}

abbrev pub without_addressing : Option FrameControl → Bool → Layout
without_addressing fc suppressed = record {
  frame_control = fc;
  seq_nr_offset = seq_nr_offset_of suppressed;
  addressing_info = none;
  bcc_bytes = plus_one (seq_nr_offset_of suppressed);
}

unfoldable pub layout : FrameControl → Option AddressingRepr → Bool → Layout
layout fc none suppressed = without_addressing none suppressed
layout fc (some repr) suppressed = elim (addressing_fields_lengths repr) [
  | ok l ↦ with_addressing fc repr suppressed l
  | err e ↦ without_addressing (some fc) suppressed
]

abbrev pub no_info : PreliminaryFrameInfo
no_info = record { mpdu_length = 0; frame_control = none; seq_nr = none; addressing_fields = none }

abbrev pub read_seq_nr : Option ℕ → List ℕ → Outcome (Option ℕ)
read_seq_nr none pdu = returns none
read_seq_nr (some offset) pdu = index pdu (1 + offset) >>= λ n. returns (some n)

abbrev pub to_option : Result AddressingFields (Unit {0}) → Option AddressingFields
to_option (ok f) = some f
to_option (err e) = none

abbrev pub read_addressing :
    Option (AddressingRepr × ℕ) → List ℕ → Outcome (Option AddressingFields)
read_addressing none pdu = returns none
read_addressing (some (repr, offset)) pdu =
    if leb (1 + offset) (length pdu)
    then returns (to_option (new_unchecked (drop (1 + offset) pdu) repr))
    else panics

-- What follows the waits.
unfoldable pub read_info : Layout → List ℕ → Outcome PreliminaryFrameInfo
read_info l pdu = do
  mpdu_length ← index pdu 0
  seq_nr ← read_seq_nr l.seq_nr_offset pdu
  addressing_fields ← read_addressing l.addressing_info pdu
  returns (record {
    mpdu_length = mpdu_length;
    frame_control = l.frame_control;
    seq_nr = seq_nr;
    addressing_fields = addressing_fields;
  })

abbrev pub second_wait : Option ℕ → Wait → Wait
second_wait none wait = bcmatch
second_wait (some _) wait = wait

abbrev pub after_second : Wait → Layout → List ℕ → Outcome PreliminaryFrameInfo
after_second end l pdu = returns no_info
after_second bcmatch l pdu = read_info l pdu

unfoldable pub preliminary_frame_info : Wait → Wait → List ℕ → List ℕ → Outcome PreliminaryFrameInfo
unfolding layout fc_and_addressing_repr
preliminary_frame_info end second early late = returns no_info
preliminary_frame_info bcmatch second early late = do
  (fc, repr) ← fc_and_addressing_repr 1 early
  suppressed ← sequence_number_suppression fc
  after_second (second_wait (layout fc repr suppressed).bcc_bytes second)
      (layout fc repr suppressed) late

abbrev pub unwrap_or_broadcast : Option (List ℕ) → List ℕ
unwrap_or_broadcast none = broadcast_addr_data
unwrap_or_broadcast (some pan_id) = pan_id

module _ (mac_pan_id : List ℕ) (implicit_broadcast : Bool) (hardware_addr : List ℕ) where
  -- The last `match` on the destination address.
  abbrev pub is_for_us : Address → Outcome Bool
  is_for_us absent = returns implicit_broadcast
  is_for_us (short addr) =
      if length (drop 6 hardware_addr) == 2
      then returns (bytes_eq (reverse (drop 6 hardware_addr)) addr)
      else panics
  is_for_us (extended addr) = do
    be_bytes ← into_be_bytes_8 addr
    returns (bytes_eq hardware_addr be_bytes)

  abbrev pub check_address : Option Address → Outcome Bool
  check_address none = returns false
  check_address (some addr) = if is_broadcast addr then returns true else is_for_us addr

  abbrev pub wrong_pan : List ℕ → Bool
  wrong_pan pan_id = not (bytes_eq pan_id mac_pan_id) && not (bytes_eq pan_id broadcast_addr_data)

  -- The destination checks, once frame control and addressing fields are there and valid.
  abbrev pub check_destination : AddressingFields → Outcome Bool
  check_destination fields = do
    pan_id ← dst_pan_id fields
    if wrong_pan (unwrap_or_broadcast pan_id)
        then returns false
        else (dst_address fields >>= check_address)

  unfoldable pub is_frame_valid_and_for_us : PreliminaryFrameInfo → Outcome Bool
  is_frame_valid_and_for_us info = elim info.frame_control [
    | none ↦ returns false
    | some fc ↦ elim info.addressing_fields [
      | none ↦ returns false
      | some fields ↦
          is_valid fc >>= λ valid. if not valid then returns false else check_destination fields
    ]
  ]
