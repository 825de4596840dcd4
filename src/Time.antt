-- ===== src/Time.antt =====
-- Instants and durations: dot15d4-driver/src/time.rs. The frequency that the source carries in a
-- phantom type is a parameter of the types here. u64 and i64 arithmetic wraps, with i64 in two's
-- complement; `usize` has 64 bits or fewer.
pub mod Ints
pub mod Instants
pub mod Rounding
mod Examples
use dot15d.Base.{
  ℕ, zero, suc, ◌+◌, ◌-◌, ◌*◌, ◌/◌, ◌%◌, ◌^◌, leb, ltb, ◌==◌, if◌then◌else◌, Bool, true, false,
  Outcome, returns, panics,
}
use dot15d.Base.Int.{ℤ, pos, negsuc, ltb_ℤ}
use dot15d.Time.Ints.{
  as_u64, as_i64, add_i64, neg_i64, mul_i64, signum, div_trunc, add_u64, sub_u64,
}

-- `convert_rounding_down` and `convert_rounding_up`; a `Frequency` is not zero.
unfoldable pub convert_rounding_down : ℕ → ℕ → ℕ → ℕ
convert_rounding_down ticks from_frequency to_frequency =
    ticks * to_frequency % 2 ^ 64 / from_frequency

-- `div_ceil`
abbrev pub div_ceil : ℕ → ℕ → ℕ
div_ceil n d = if n % d == 0 then n / d else n / d + 1

unfoldable pub convert_rounding_up : ℕ → ℕ → ℕ → ℕ
convert_rounding_up ticks from_frequency to_frequency =
    div_ceil (ticks * to_frequency % 2 ^ 64) from_frequency

pub record Instant (frequency : ℕ) : Type 0 where
  pub tick : ℕ

pub record Duration (frequency : ℕ) : Type 0 where
  pub ticks : ℤ

module _ {frequency : ℕ} where
  unfoldable pub instant_into_rounding_down :
      (to_frequency : ℕ) → Instant frequency → Instant to_frequency
  unfolding convert_rounding_down
  instant_into_rounding_down to_frequency i = record {
    tick = convert_rounding_down i.tick frequency to_frequency;
  }

  unfoldable pub instant_into_rounding_up :
      (to_frequency : ℕ) → Instant frequency → Instant to_frequency
  unfolding convert_rounding_up
  instant_into_rounding_up to_frequency i = record {
    tick = convert_rounding_up i.tick frequency to_frequency;
  }

  unfoldable pub duration_into_rounding_down :
      (to_frequency : ℕ) → Duration frequency → Duration to_frequency
  unfolding convert_rounding_down
  duration_into_rounding_down to_frequency d =
      let sign = signum d.ticks in
      record {
        ticks =
            mul_i64 sign (
              as_i64
                (convert_rounding_down (as_u64 (mul_i64 sign d.ticks)) frequency to_frequency));
      }

  unfoldable pub duration_into_rounding_up :
      (to_frequency : ℕ) → Duration frequency → Duration to_frequency
  unfolding convert_rounding_up
  duration_into_rounding_up to_frequency d =
      let sign = signum d.ticks in
      record {
        ticks =
            mul_i64 sign
              (as_i64 (convert_rounding_up (as_u64 (mul_i64 sign d.ticks)) frequency to_frequency));
      }

  -- `Instant - Instant`
  unfoldable pub instant_sub : Instant frequency → Instant frequency → Duration frequency
  instant_sub this rhs = record {
    ticks =
        if leb rhs.tick this.tick
        then as_i64 (sub_u64 this.tick rhs.tick)
        else neg_i64 (as_i64 (sub_u64 rhs.tick this.tick));
  }

  -- `Instant + Duration`
  unfoldable pub instant_add : Instant frequency → Duration frequency → Instant frequency
  instant_add this rhs = record {
    tick =
        if ltb_ℤ (pos 0) rhs.ticks
        then add_u64 this.tick (as_u64 rhs.ticks)
        else sub_u64 this.tick (as_u64 (neg_i64 rhs.ticks));
  }

  unfoldable pub duration_neg : Duration frequency → Duration frequency
  duration_neg d = record { ticks = neg_i64 d.ticks }

  -- `Instant - Duration`
  unfoldable pub instant_sub_duration : Instant frequency → Duration frequency → Instant frequency
  unfolding instant_add duration_neg
  instant_sub_duration this rhs = instant_add this (duration_neg rhs)

  unfoldable pub duration_add : Duration frequency → Duration frequency → Duration frequency
  duration_add this rhs = record { ticks = add_i64 this.ticks rhs.ticks }

  unfoldable pub duration_sub : Duration frequency → Duration frequency → Duration frequency
  unfolding duration_add duration_neg
  duration_sub this rhs = duration_add this (duration_neg rhs)

  -- `Duration * usize`, and `usize * Duration`
  unfoldable pub duration_mul : Duration frequency → ℕ → Duration frequency
  duration_mul this rhs = record { ticks = mul_i64 this.ticks (as_i64 rhs) }

  unfoldable pub duration_div : Duration frequency → ℕ → Outcome (Duration frequency)
  duration_div this rhs =
      if rhs == 0 then panics else returns (record { ticks = div_trunc this.ticks (as_i64 rhs) })
