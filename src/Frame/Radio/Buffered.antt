-- ===== src/Frame/Radio/Buffered.antt =====
-- `RadioFrame` of dot15d4-driver/src/frame/radio_frame.rs. A buffer token is its bytes; the sized
-- and the unsized state are the same record, and a range is its start and end.
use dot15d.Base.{
  ℕ, ◌+◌, ◌%◌, ◌^◌, not, ◌||◌, List, leb, ◌==◌, if◌then◌else◌, length, Option, some, none, Outcome,
  returns, ◌>>=◌, index,
}
use dot15d.Frame.Control.{ack_request, sequence_number_suppression}
use dot15d.Frame.Addressing.Fields.{slice}
use dot15d.Frame.Filter.{fc_of}
use dot15d.Frame.Radio.{Config, sub_u16, saturating_add, max_sdu_length_wo_fcs}

pub record RadioFrame : Type 0 where
  pub headroom : ℕ
  pub offset_fcs : ℕ
  pub length_fcs : ℕ
  pub buffer : List ℕ

unfoldable pub new : Config → List ℕ → RadioFrame
unfolding max_sdu_length_wo_fcs
new c buffer = record {
  headroom = c.headroom;
  offset_fcs = (c.headroom + max_sdu_length_wo_fcs c) % 2 ^ 16;
  length_fcs = c.fcs;
  buffer = buffer;
}

unfoldable pub max_frame_length_wo_fcs : RadioFrame → ℕ
max_frame_length_wo_fcs f = sub_u16 f.offset_fcs f.headroom

unfoldable pub with_size : RadioFrame → ℕ → RadioFrame
with_size f sdu_length_wo_fcs = record f {
  offset_fcs = saturating_add sdu_length_wo_fcs f.headroom;
}

unfoldable pub offset_tailroom : RadioFrame → ℕ
offset_tailroom f = (f.offset_fcs + f.length_fcs) % 2 ^ 16

unfoldable pub sdu_length : RadioFrame → ℕ
sdu_length f = sub_u16 (f.offset_fcs + f.length_fcs) f.headroom

unfoldable pub sdu_wo_fcs_length : RadioFrame → ℕ
sdu_wo_fcs_length f = sub_u16 f.offset_fcs f.headroom

unfoldable pub forget_size : Config → RadioFrame → RadioFrame
unfolding new
forget_size c f = new c f.buffer

unfoldable pub ack_seq_num : RadioFrame → Outcome (Option ℕ)
ack_seq_num f = do
  fc ← fc_of f.headroom f.buffer
  requested ← ack_request fc
  suppressed ← sequence_number_suppression fc
  if not requested || suppressed
      then returns none
      else (index f.buffer (f.headroom + 2) >>= λ n. returns (some n))

unfoldable pub headroom_range : RadioFrame → Option (ℕ × ℕ)
headroom_range f = if f.headroom == 0 then none else some (0, f.headroom)

unfoldable pub sdu_range : RadioFrame → ℕ × ℕ
unfolding offset_tailroom
sdu_range f = (f.headroom, offset_tailroom f)

unfoldable pub sdu_range_wo_fcs : RadioFrame → ℕ × ℕ
sdu_range_wo_fcs f = (f.headroom, f.offset_fcs)

unfoldable pub fcs_range : RadioFrame → Option (ℕ × ℕ)
unfolding offset_tailroom
fcs_range f = if f.length_fcs == 0 then none else some (f.offset_fcs, offset_tailroom f)

unfoldable pub tailroom_range : RadioFrame → Option (ℕ × ℕ)
unfolding offset_tailroom
tailroom_range f =
    if leb (length f.buffer) (offset_tailroom f)
    then none
    else some (offset_tailroom f, length f.buffer)

-- `sdu_ref`, and the part of the buffer that `sdu_mut` gives access to.
unfoldable pub sdu_ref : RadioFrame → Outcome (List ℕ)
sdu_ref f = slice f.buffer f.headroom f.offset_fcs
