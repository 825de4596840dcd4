-- ===== src/Tsch/Asn/Remainder.antt =====
-- The remainder of a slot number, which places it in a slotframe. The code adds the remainders of
-- the two fields and does not reduce the sum.
use dot15d.Base.{ℕ, ◌+◌, ◌-◌, ◌*◌, ◌/◌, ◌%◌, ◌^◌, ◌≤◌, ◌<◌, ◌≡◌, sym, ap, ◌∙◌, arith, ◌⊎◌, inl, inr}
use dot15d.Base.{returns}
use native.Mathlib.Nat.{
  add-mod, mod-add-mod, mul-add-mod_self_right, div-add-mod', mod-lt, mod-eq_of_lt, mod-eq-sub-mod,
  zero-mul, zero-mod,
}
use native.Mathlib.Decide.{dec_lt}
use dot15d.Tsch.Asn.{AbsoluteSlotNumber, value, rem}

mul-mod : (m c r : ℕ) → m * c % r ≡ m * (c % r) % r
mul-mod m c r =
    ap (λ (t : ℕ). t % r) (omega (arith, ap (λ (t : ℕ). m * t) (sym (div-add-mod' c r))))
    ∙ mul-add-mod_self_right (m * (c / r)) r (m * (c % r))

-- What the code computes before it cuts the result to a u16.
abbrev pub sum_of_remainders : AbsoluteSlotNumber → ℕ → ℕ
sum_of_remainders a rhs = a.ls4b % rhs + a.ms1b * (2 ^ 32 % rhs) % rhs

sum_of_remainders-mod :
    (a : AbsoluteSlotNumber) (rhs : ℕ) → sum_of_remainders a rhs % rhs ≡ value a % rhs
sum_of_remainders-mod a rhs = sym (
    add-mod (a.ms1b * 2 ^ 32) a.ls4b rhs
    ∙ ap (λ (t : ℕ). (t + a.ls4b % rhs) % rhs) (mul-mod a.ms1b (2 ^ 32) rhs)
    ∙ ap (λ (t : ℕ). t % rhs) (omega arith))

carry : (rhs : ℕ) → (0xffff_ffff % rhs + 1) % rhs ≡ 2 ^ 32 % rhs
carry rhs = mod-add-mod 0xffff_ffff rhs 1

pub rem-sum :
    (a : AbsoluteSlotNumber) (rhs : ℕ)
    → 0 < rhs
    → rem a rhs ≡ returns (sum_of_remainders a rhs % 2 ^ 16)
unfolding rem
rem-sum a rhs h = rw (carry rhs) (ground arith)

-- A number below twice the divisor leaves itself, or itself less the divisor.
mod_cases : (s r : ℕ) → s < r + r → ((s < r) × (s % r ≡ s)) ⊎ ((r ≤ s) × (s % r + r ≡ s))
mod_cases s r h = elim (dec_lt s r) [
  | yes p ↦ inl (p, mod-eq_of_lt p)
  | no p ↦ inr (
    omega arith,
    omega (
      arith,
      mod-eq-sub-mod {n = s} {m = r} (omega arith),
      mod-eq_of_lt {n = s - r} {m = r} (omega arith),
    ),
  )
]

sum_of_remainders-lt :
    (a : AbsoluteSlotNumber) (rhs : ℕ) → 0 < rhs → sum_of_remainders a rhs < rhs + rhs
sum_of_remainders-lt a rhs h =
    omega (arith, mod-lt a.ls4b {m = rhs} h, mod-lt (a.ms1b * (2 ^ 32 % rhs)) {m = rhs} h)

-- For a non-zero divisor up to 2 ^ 15 the result is the remainder of the 40-bit slot number
-- exactly when the remainders of the two fields add up to less than the divisor; otherwise it is
-- too large by the divisor, and no remainder at all.
pub rem-value :
    (a : AbsoluteSlotNumber) (rhs : ℕ)
    → 0 < rhs
    → rhs ≤ 2 ^ 15
    → ((sum_of_remainders a rhs < rhs) × (rem a rhs ≡ returns (value a % rhs)))
      ⊎ ((rhs ≤ sum_of_remainders a rhs) × (rem a rhs ≡ returns (value a % rhs + rhs)))
rem-value a rhs h k =
    elim (mod_cases (sum_of_remainders a rhs) rhs (sum_of_remainders-lt a rhs h)) [
      | inl (lo, e) ↦
          inl (lo, rem-sum a rhs h ∙ ap returns (fits ∙ sym e ∙ sum_of_remainders-mod a rhs))
      | inr (hi, e) ↦ inr (
        hi,
        rem-sum a rhs h
            ∙ ap returns (fits ∙ sym e ∙ ap (λ (t : ℕ). t + rhs) (sum_of_remainders-mod a rhs)),
      )
    ]
  where
    fits : sum_of_remainders a rhs % 2 ^ 16 ≡ sum_of_remainders a rhs
    fits = mod-eq_of_lt (omega (arith, sum_of_remainders-lt a rhs h))

-- During the first 2 ^ 32 slots the remainder is exact for every u16 divisor but 0.
pub rem-low :
    (a : AbsoluteSlotNumber) (rhs : ℕ)
    → a.ms1b ≡ 0
    → 0 < rhs
    → rhs < 2 ^ 16
    → rem a rhs ≡ returns (a.ls4b % rhs)
rem-low a rhs e h k =
    rem-sum a rhs h
    ∙ ap returns (mod-eq_of_lt (omega (arith, whole, mod-lt a.ls4b {m = rhs} h)) ∙ whole)
  where
    whole : sum_of_remainders a rhs ≡ a.ls4b % rhs
    whole = rw (e, zero-mul (2 ^ 32 % rhs), zero-mod rhs) (omega arith)
