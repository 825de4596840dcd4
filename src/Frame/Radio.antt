-- ===== src/Frame/Radio.antt =====
-- The layout of a radio frame in its buffer: what dot15d4-driver/src/frame/repr.rs
-- (`RadioFrameRepr`) and dot15d4-driver/src/frame/radio_frame.rs (`RadioFrame`) share. The driver's
-- configuration is a parameter.
pub mod Described
pub mod Buffered
pub mod Layouts
mod Examples
use dot15d.Base.{
  ℕ, ◌+◌, ◌-◌, ◌%◌, ◌^◌, Bool, true, false, not, ◌||◌, List, leb, ◌==◌, if◌then◌else◌, length,
  Option, some, none, Outcome, returns, panics, ◌>>=◌, index, min,
}
use dot15d.Frame.Control.{FrameControl, ack_request, sequence_number_suppression}
use dot15d.Frame.Addressing.Fields.{slice}
use dot15d.Frame.Filter.{fc_of}

-- `Config::Headroom`, `Tailroom`, `MaxSduLength` and the size of `Config::Fcs`.
pub record Config : Type 0 where
  pub headroom : ℕ
  pub tailroom : ℕ
  pub max_sdu : ℕ
  pub fcs : ℕ

-- Subtraction of u16, which wraps.
abbrev pub sub_u16 : ℕ → ℕ → ℕ
sub_u16 a b = (a + 2 ^ 16 - b) % 2 ^ 16

-- `NonZero<u16>::saturating_add`
abbrev pub saturating_add : ℕ → ℕ → ℕ
saturating_add a b = min (a + b) 0xffff

module _ (c : Config) where
  pub driver_overhead : ℕ
  driver_overhead = (c.headroom + c.tailroom) % 2 ^ 8

  pub max_sdu_length_wo_fcs : ℕ
  max_sdu_length_wo_fcs = sub_u16 c.max_sdu c.fcs

  unfoldable pub max_buffer_length : ℕ
  unfolding driver_overhead
  max_buffer_length = (c.max_sdu + driver_overhead) % 2 ^ 16
