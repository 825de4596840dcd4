-- ===== src/Frame/Radio/Described.antt =====
-- `RadioFrameRepr` of dot15d4-driver/src/frame/repr.rs. Its SDU length is there in the sized state;
-- a range is its start and end.
use dot15d.Base.{
  ℕ, ◌+◌, ◌%◌, ◌^◌, ◌==◌, if◌then◌else◌, Option, some, none, Outcome, returns, panics, ◌>>=◌,
}
use dot15d.Frame.Radio.{Config, sub_u16, saturating_add}

pub record RadioFrameRepr : Type 0 where
  pub sdu_length : Option ℕ

pub new : RadioFrameRepr
new = record { sdu_length = none }

-- `Option::unwrap`
abbrev pub unwrap : Option ℕ → Outcome ℕ
unwrap none = panics
unwrap (some n) = returns n

module _ (c : Config) where
  unfoldable pub new_sized : ℕ → RadioFrameRepr
  new_sized sdu_length_wo_fcs = record {
    sdu_length = some (saturating_add sdu_length_wo_fcs c.fcs);
  }

  unfoldable pub offset_tailroom : RadioFrameRepr → Outcome ℕ
  offset_tailroom r = do
    sdu_length ← unwrap r.sdu_length
    returns (saturating_add sdu_length c.headroom)

  unfoldable pub pdu_length : RadioFrameRepr → Outcome ℕ
  unfolding offset_tailroom
  pdu_length r = do offset ← offset_tailroom r; returns ((offset + c.tailroom) % 2 ^ 16)

  unfoldable pub headroom_range : RadioFrameRepr → ℕ × ℕ
  headroom_range r = (0, c.headroom)

  unfoldable pub tailroom_range : RadioFrameRepr → Outcome (ℕ × ℕ)
  unfolding offset_tailroom pdu_length
  tailroom_range r = do start ← offset_tailroom r; end ← pdu_length r; returns (start, end)

  unfoldable pub offset_fcs : RadioFrameRepr → Outcome ℕ
  unfolding offset_tailroom
  offset_fcs r = do offset ← offset_tailroom r; returns (sub_u16 offset c.fcs)

  unfoldable pub sdu_range_wo_fcs : RadioFrameRepr → Outcome (ℕ × ℕ)
  unfolding offset_fcs
  sdu_range_wo_fcs r = do end ← offset_fcs r; returns (c.headroom, end)

  unfoldable pub fcs_range : RadioFrameRepr → Outcome (Option (ℕ × ℕ))
  unfolding offset_fcs offset_tailroom
  fcs_range r = do
    fcs ← offset_fcs r
    tailroom ← offset_tailroom r
    returns (if fcs == tailroom then none else some (fcs, tailroom))

  unfoldable pub pdu_range : RadioFrameRepr → Outcome (ℕ × ℕ)
  unfolding pdu_length
  pdu_range r = do end ← pdu_length r; returns (0, end)

  unfoldable pub sdu_length_wo_fcs : RadioFrameRepr → Outcome ℕ
  sdu_length_wo_fcs r = do sdu_length ← unwrap r.sdu_length; returns (sub_u16 sdu_length c.fcs)
