-- ===== src/Time/Instants.antt =====
-- Instants and durations as a clock: differences, and instants reached by a duration.
use dot15d.Base.{ℕ, ◌+◌, ◌^◌, ◌<◌, ◌≤◌, ◌≡◌, arith}
use dot15d.Base.Int.{ℤ, pos, negsuc}
use dot15d.Time.Ints.{IsI64}
use dot15d.Time.{Instant, Duration, instant_sub, instant_add, duration_neg, instant_sub_duration}

-- A duration that leads from a tick to another one within u64.
abbrev pub Reaches : ℕ → ℤ → Type 0
Reaches tick (pos n) = tick + n < 2 ^ 64
Reaches tick (negsuc n) = n + 1 ≤ tick

module _ {frequency : ℕ} where
  -- Adding to an instant the difference of another from it gives the other, even where the
  -- difference does not fit an i64.
  pub instant_add-instant_sub :
      (a b : Instant frequency)
      → a.tick < 2 ^ 64
      → b.tick < 2 ^ 64
      → instant_add a (instant_sub b a) ≡ b
  unfolding instant_add instant_sub
  instant_add-instant_sub a b h k = ground arith

  there_and_back :
      (tick : ℕ) (ticks : ℤ)
      → tick < 2 ^ 64
      → IsI64 ticks
      → Reaches tick ticks
      → (let a : Instant frequency = record { tick = tick } in
          let d : Duration frequency = record { ticks = ticks } in
          (instant_sub (instant_add a d) a ≡ d) × (instant_sub_duration (instant_add a d) d ≡ a))
  unfolding instant_sub instant_add instant_sub_duration duration_neg
  there_and_back tick (pos n) h k r = ground arith
  there_and_back tick (negsuc n) h k r = ground arith

  -- Where the instant that a duration leads to is within u64, the difference of it from the start
  -- is the duration, and going back by the duration leads to the start.
  pub instant_sub-instant_add :
      (a : Instant frequency) (d : Duration frequency)
      → a.tick < 2 ^ 64
      → IsI64 d.ticks
      → Reaches a.tick d.ticks
      → (instant_sub (instant_add a d) a ≡ d) × (instant_sub_duration (instant_add a d) d ≡ a)
  instant_sub-instant_add a d h k r = there_and_back a.tick d.ticks h k r
