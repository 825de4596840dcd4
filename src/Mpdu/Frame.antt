-- ===== src/Mpdu/Frame.antt =====
-- `MpduFrame` of dot15d4-frame/src/mpdu/frame.rs and its accessors in
-- dot15d4-frame/src/fields/mpdu.rs. A buffer token is the pointer of its buffer and the bytes.
pub mod Numbering
use dot15d.Base.{
  ℕ, ◌+◌, ◌%◌, ◌^◌, ltb, if◌then◌else◌, length, set, List, Option, none, some, Outcome, returns,
  panics, ◌>>=◌, index, Result, ok, err,
}
use dot15d.Frame.Control.{FrameControl, sequence_number_suppression}
use dot15d.Frame.Addressing.Fields.{slice}
use dot15d.Frame.Radio.{Config}
use dot15d.Frame.Radio.Buffered
use dot15d.Radio.{SizedFrame}
use dot15d.Mpdu.Security.{seq_nr_no, seq_nr_yes}
use dot15d.Mpdu.Ranges
use dot15d.Mpdu.Ranges.Access.{range_frame_control, offset_seq_nr}

pub record MpduFrame : Type 0 where
  pub pointer : ℕ
  pub buffer : List ℕ
  pub offset : ℕ
  pub length_wo_fcs : ℕ

unfoldable pub pdu_length : Config → MpduFrame → ℕ
pdu_length c m = (m.length_wo_fcs + c.fcs) % 2 ^ 16

abbrev pub pdu_range_wo_fcs : MpduFrame → ℕ × ℕ
pdu_range_wo_fcs m = (m.offset, m.offset + m.length_wo_fcs)

unfoldable pub pdu_ref_wo_fcs : MpduFrame → Outcome (List ℕ)
pdu_ref_wo_fcs m = slice m.buffer (pdu_range_wo_fcs m).0 (pdu_range_wo_fcs m).1

unfoldable pub from_radio_frame : SizedFrame → MpduFrame
from_radio_frame f = record {
  pointer = f.pointer;
  buffer = f.frame.buffer;
  offset = f.frame.headroom;
  length_wo_fcs = Buffered.sdu_wo_fcs_length f.frame;
}

unfoldable pub into_radio_frame : Config → MpduFrame → SizedFrame
into_radio_frame c m = record {
  pointer = m.pointer;
  frame = Buffered.with_size (Buffered.new c m.buffer) m.length_wo_fcs;
}

unfoldable pub frame_control : MpduFrame → Outcome FrameControl
unfolding range_frame_control offset_seq_nr
frame_control m = do
  ranges ← Ranges.new m.offset seq_nr_no
  bytes ← slice m.buffer (range_frame_control ranges).0 (range_frame_control ranges).1
  returns (record { bytes = bytes })

unfoldable pub sequence_number : MpduFrame → Outcome (Option ℕ)
unfolding offset_seq_nr
sequence_number m = do
  fc ← frame_control m
  suppressed ← sequence_number_suppression fc
  if suppressed
      then returns none
      else (Ranges.new m.offset seq_nr_yes >>= λ ranges.
          index m.buffer (offset_seq_nr ranges) >>= λ n. returns (some n))

-- `self.buffer[i] = seq_nr`
abbrev pub store_seq_nr : MpduFrame → ℕ → ℕ → Outcome (MpduFrame × Result (Unit {0}) (Unit {0}))
store_seq_nr m i seq_nr =
    if ltb i (length m.buffer)
    then returns (record m { buffer = set m.buffer i seq_nr }, ok tt)
    else panics

unfoldable pub set_sequence_number :
    MpduFrame → ℕ → Outcome (MpduFrame × Result (Unit {0}) (Unit {0}))
unfolding offset_seq_nr
set_sequence_number m seq_nr = do
  fc ← frame_control m
  suppressed ← sequence_number_suppression fc
  if suppressed
      then returns (m, err tt)
      else (Ranges.new m.offset seq_nr_yes >>= λ ranges.
          store_seq_nr m (offset_seq_nr ranges) seq_nr)
