-- ===== src/Time/Rounding.antt =====
-- Conversion between frequencies: what rounding down and up mean.
use dot15d.Base.{ℕ, ◌+◌, ◌*◌, ◌/◌, ◌%◌, ◌^◌, ◌<◌, ◌≤◌, ◌≡◌, refl, arith, ◌==◌, Bool-cases, inl, inr}
use native.Mathlib.Nat.{div-add-mod', mod-lt, le-mul_of_pos_right}
use dot15d.Base.Int.{pos}
use dot15d.Time.Ints.{as_u64, as_i64, mul_i64, signum, minus}
use dot15d.Time.{
  convert_rounding_down, convert_rounding_up, div_ceil, duration_into_rounding_down,
  duration_into_rounding_up,
}

add-one-mul : (q d : ℕ) → (q + 1) * d ≡ q * d + d
add-one-mul q d = omega arith

division :
    (n d : ℕ)
    → 0 < d
    → (n / d * d ≤ n)
      × (n < (n / d + 1) * d)
      × (n ≤ div_ceil n d * d)
      × (div_ceil n d * d < n + d)
      × (div_ceil n d ≤ n / d + 1)
division n d h =
    let whole = div-add-mod' n d in
    let low = mod-lt n {m = d} h in
    let next = add-one-mul (n / d) d in
    elim (Bool-cases (n % d == 0)) [
      | inl e ↦
          let z : n % d ≡ 0 = ground arith in
          rw e (omega arith, omega arith, omega arith, omega arith, omega arith)
      | inr e ↦
          let p : 0 < n % d = ground arith in
          rw e (omega arith, omega arith, omega arith, omega arith, omega arith)
    ]

-- A conversion whose product does not overflow, from a frequency that is not zero: the ticks that
-- rounding down gives are the most that take no longer than the given ones, the ticks of rounding
-- up are the fewest that take at least as long, and they differ by at most one.
pub convert_rounding-bounds :
    (ticks from to : ℕ)
    → 0 < from
    → ticks * to < 2 ^ 64
    → (convert_rounding_down ticks from to * from ≤ ticks * to)
      × (ticks * to < (convert_rounding_down ticks from to + 1) * from)
      × (ticks * to ≤ convert_rounding_up ticks from to * from)
      × (convert_rounding_up ticks from to * from < ticks * to + from)
      × (convert_rounding_up ticks from to ≤ convert_rounding_down ticks from to + 1)
unfolding convert_rounding_down convert_rounding_up
convert_rounding-bounds ticks from to h k =
    let same : ticks * to % 2 ^ 64 ≡ ticks * to = omega arith in
    rw same (division (ticks * to) from h)

div_ceil-le : (n d : ℕ) → 0 < d → (n / d ≤ n) × (div_ceil n d ≤ n)
div_ceil-le n d h =
    let whole = div-add-mod' n d in
    let more = le-mul_of_pos_right (n / d) h in (omega arith, ground arith)

small :
    (n from to : ℕ)
    → 0 < from
    → n * to < 2 ^ 63
    → (convert_rounding_down n from to < 2 ^ 63) × (convert_rounding_up n from to < 2 ^ 63)
unfolding convert_rounding_down convert_rounding_up
small n from to h k =
    let same : n * to % 2 ^ 64 ≡ n * to = omega arith in
    let (a, b) = div_ceil-le (n * to) from h in rw same (omega arith, omega arith)

zero_ticks :
    (n from to : ℕ)
    → 0 < from
    → n * to < 2 ^ 63
    → (n ≡ 0 → convert_rounding_down n from to ≡ 0) × (n ≡ 0 → convert_rounding_up n from to ≡ 0)
unfolding convert_rounding_down convert_rounding_up
zero_ticks n from to h k =
    let (a, b) = div_ceil-le 0 from h in (λ e. rw e (omega arith), λ e. rw e (grind arith))

absolute :
    (n : ℕ)
    → n < 2 ^ 63
    → (as_u64 (mul_i64 (signum (pos n)) (pos n)) ≡ n)
      × (as_u64 (mul_i64 (signum (minus n)) (minus n)) ≡ n)
absolute n h = elim (Bool-cases (n == 0)) [
  | inl e ↦ rw e (ground arith, ground arith)
  | inr e ↦ rw e (ground arith, ground arith)
]

signed :
    (n c : ℕ)
    → c < 2 ^ 63
    → (n ≡ 0 → c ≡ 0)
    → (mul_i64 (signum (pos n)) (as_i64 c) ≡ pos c)
      × (mul_i64 (signum (minus n)) (as_i64 c) ≡ minus c)
signed n c h z = elim (Bool-cases (n == 0)) [
  | inl e ↦ let c0 : c ≡ 0 = z (ground arith) in rw (e, c0) (refl, refl)
  | inr e ↦ rw e (ground arith, ground arith)
]

-- A duration that an i64 holds and whose product with the frequency does not overflow an i64 is
-- converted by its absolute value, and keeps its sign: rounding down is rounding towards zero, and
-- rounding up away from it.
pub duration_into_rounding-sign :
    (from to n : ℕ)
    → 0 < from
    → n < 2 ^ 63
    → n * to < 2 ^ 63
    → ((duration_into_rounding_down {frequency = from} to (record { ticks = pos n })).ticks
        ≡ pos (convert_rounding_down n from to))
      × ((duration_into_rounding_down {frequency = from} to (record { ticks = minus n })).ticks
          ≡ minus (convert_rounding_down n from to))
      × ((duration_into_rounding_up {frequency = from} to (record { ticks = pos n })).ticks
          ≡ pos (convert_rounding_up n from to))
      × ((duration_into_rounding_up {frequency = from} to (record { ticks = minus n })).ticks
          ≡ minus (convert_rounding_up n from to))
unfolding duration_into_rounding_down duration_into_rounding_up
duration_into_rounding-sign from to n h b k =
    let (down, up) = small n from to h k in
    let (zero_down, zero_up) = zero_ticks n from to h k in
    let (p1, p2) = absolute n b in
    let (d1, d2) = signed n (convert_rounding_down n from to) (omega arith) zero_down in
    let (u1, u2) = signed n (convert_rounding_up n from to) (omega arith) zero_up in
    (rw p1 d1, rw p2 d2, rw p1 u1, rw p2 u2)
