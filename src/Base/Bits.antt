-- ===== src/Base/Bits.antt =====
-- The bit operations as arithmetic. A number splits at any bit into two fields, on which `&` and
-- `|` act apart; what they do to a field of a few bits is a small table, checked by evaluation.
use Prim.Native.Nat.{
  ℕ, zero, suc, ◌+◌, ◌-◌, ◌*◌, ◌/◌, ◌%◌, ◌^◌, ◌≤◌, ◌<◌, min, max, bit_and, bit_or, digits,
  bit_and-bitwise, bit_or-bitwise,
}
use mathlib.Core.Path.{◌≡◌, refl, ◌∙◌, ap}
use native.Mathlib.Nat.{pow-suc}
use native.Mathlib.Omega.{arith}

-- An operation on binary digits is given by `f` on two digits, and by `z` on the second number
-- where the first has no digits left.
module _ (z : ℕ → ℕ) (f : ℕ → ℕ → ℕ) (z_step : (b : ℕ) → z b ≡ z (b / 2) * 2 + f 0 (b % 2)) where
  digits_fuel : (n m a b : ℕ) → a ≤ n → a ≤ m → digits z f n a b ≡ digits z f m a b
  digits_fuel zero zero a b h k = refl
  digits_fuel zero (suc m) zero b h k = refl
  digits_fuel zero (suc m) (suc a) b h k = absurd (omega arith)
  digits_fuel (suc n) zero zero b h k = refl
  digits_fuel (suc n) zero (suc a) b h k = absurd (omega arith)
  digits_fuel (suc n) (suc m) zero b h k = refl
  digits_fuel (suc n) (suc m) (suc a) b h k =
      ap (λ (t : ℕ). t * 2 + f (suc a % 2) (b % 2))
        (digits_fuel n m (suc a / 2) (b / 2) (omega arith) (omega arith))

  digits_step :
      (a b : ℕ) → digits z f a a b ≡ digits z f (a / 2) (a / 2) (b / 2) * 2 + f (a % 2) (b % 2)
  digits_step zero b = z_step b
  digits_step (suc a) b =
      ap (λ (t : ℕ). t * 2 + f (suc a % 2) (b % 2))
        (digits_fuel a (suc a / 2) (suc a / 2) (b / 2) (omega arith) (omega arith))

half_sum : (p a b : ℕ) → ((a + b * (p * 2)) / 2 ≡ a / 2 + b * p) × ((a + b * (p * 2)) % 2 ≡ a % 2)
half_sum p a b = (omega arith, omega arith)

below_one : (a : ℕ) → a < 2 ^ 0 → a ≡ 0
below_one a h = omega arith

module _ (op : ℕ → ℕ → ℕ) (f : ℕ → ℕ → ℕ) (f_zero : f 0 0 ≡ 0)
    (op_step : (a b : ℕ) → op a b ≡ op (a / 2) (b / 2) * 2 + f (a % 2) (b % 2)) where
  split_step :
      (p a b c d : ℕ)
      → op (a / 2 + b * p) (c / 2 + d * p) ≡ op (a / 2) (c / 2) + op b d * p
      → op (a + b * (p * 2)) (c + d * (p * 2)) ≡ op a c + op b d * (p * 2)
  split_step p a b c d ih =
      op_step (a + b * (p * 2)) (c + d * (p * 2)) ∙ half_terms ∙ omega (arith, ih, op_step a c)
    where
      half_terms :
          op ((a + b * (p * 2)) / 2) ((c + d * (p * 2)) / 2) * 2
            + f ((a + b * (p * 2)) % 2) ((c + d * (p * 2)) % 2)
          ≡ op (a / 2 + b * p) (c / 2 + d * p) * 2 + f (a % 2) (c % 2)
      half_terms =
          rw ((half_sum p a b).0, (half_sum p c d).0, (half_sum p a b).1, (half_sum p c d).1)

  split :
      (k a b c d : ℕ)
      → a < 2 ^ k
      → c < 2 ^ k
      → op (a + b * 2 ^ k) (c + d * 2 ^ k) ≡ op a c + op b d * 2 ^ k
  split zero a b c d h g = ground (arith, op_step 0 0, f_zero, below_one a h, below_one c g)
  split (suc k) a b c d h g = rw (pow-suc 2 k) (
      split_step (2 ^ k) a b c d
        (split k (a / 2) b (c / 2) d (omega (arith, pow-suc 2 k)) (omega (arith, pow-suc 2 k))))

bit_and_step : (a b : ℕ) → bit_and a b ≡ bit_and (a / 2) (b / 2) * 2 + min (a % 2) (b % 2)
bit_and_step a b = omega (
  arith,
  bit_and-bitwise a b,
  bit_and-bitwise (a / 2) (b / 2),
  digits_step (λ b. zero) min (λ b. omega arith) a b,
)

bit_or_step : (a b : ℕ) → bit_or a b ≡ bit_or (a / 2) (b / 2) * 2 + max (a % 2) (b % 2)
bit_or_step a b = omega (
  arith,
  bit_or-bitwise a b,
  bit_or-bitwise (a / 2) (b / 2),
  digits_step (λ b. b) max (λ b. omega arith) a b,
)

-- Below bit `k` and from it on, `&` acts apart.
pub bit_and_split :
    (k a b c d : ℕ)
    → a < 2 ^ k
    → c < 2 ^ k
    → bit_and (a + b * 2 ^ k) (c + d * 2 ^ k) ≡ bit_and a c + bit_and b d * 2 ^ k
bit_and_split = split bit_and min refl bit_and_step

pub bit_or_split :
    (k a b c d : ℕ)
    → a < 2 ^ k
    → c < 2 ^ k
    → bit_or (a + b * 2 ^ k) (c + d * 2 ^ k) ≡ bit_or a c + bit_or b d * 2 ^ k
bit_or_split = split bit_or max refl bit_or_step

bit_and-zero_fuel : (n a : ℕ) → a ≤ n → bit_and a 0 ≡ 0
bit_and-zero_fuel zero zero h = refl
bit_and-zero_fuel zero (suc a) h = absurd (omega arith)
bit_and-zero_fuel (suc n) a h =
    omega (arith, bit_and_step a 0, bit_and-zero_fuel n (a / 2) (omega arith))

bit_or-zero_fuel : (n a : ℕ) → a ≤ n → bit_or a 0 ≡ a
bit_or-zero_fuel zero zero h = refl
bit_or-zero_fuel zero (suc a) h = absurd (omega arith)
bit_or-zero_fuel (suc n) a h =
    omega (arith, bit_or_step a 0, bit_or-zero_fuel n (a / 2) (omega arith))

pub bit_or-zero : (a : ℕ) → bit_or a 0 ≡ a
bit_or-zero a = bit_or-zero_fuel a a (omega arith)

pub bit_and-zero : (a : ℕ) → bit_and a 0 ≡ 0
bit_and-zero a = bit_and-zero_fuel a a (omega arith)

pow_pos : (k : ℕ) → 0 < 2 ^ k
pow_pos zero = omega arith
pow_pos (suc k) = omega (arith, pow-suc 2 k, pow_pos k)

half_mask : (q : ℕ) → 0 < q → ((q * 2 - 1) / 2 ≡ q - 1) × ((q * 2 - 1) % 2 ≡ 1)
half_mask q h = (omega arith, omega arith)

-- A mask of `k` ones keeps a number below 2 ^ k.
pub bit_and_ones : (k a : ℕ) → a < 2 ^ k → bit_and a (2 ^ k - 1) ≡ a
bit_and_ones zero a h = omega (arith, bit_and-zero a)
bit_and_ones (suc k) a h = rw (pow-suc 2 k) (
    bit_and_step a (2 ^ k * 2 - 1)
    ∙ rw
        (
          (half_mask (2 ^ k) (pow_pos k)).0,
          (half_mask (2 ^ k) (pow_pos k)).1,
          bit_and_ones k (a / 2) (omega (arith, pow-suc 2 k)),
        )
        (omega arith))

-- `(x & !mask) | (v << k)` replaces the field of `w` bits at bit `k`, of a number whose field is
-- `mid`, with `n` more bits above it.
pub replace_field :
    (k w n lo mid hi v : ℕ)
    → lo < 2 ^ k
    → mid < 2 ^ w
    → v < 2 ^ w
    → hi < 2 ^ n
    → bit_or
        (bit_and
          (lo + (mid + hi * 2 ^ w) * 2 ^ k)
          ((2 ^ k - 1) + (0 + (2 ^ n - 1) * 2 ^ w) * 2 ^ k))
        (0 + (v + 0 * 2 ^ w) * 2 ^ k)
      ≡ lo + (v + hi * 2 ^ w) * 2 ^ k
replace_field k w n lo mid hi v a b c d =
    ap (λ (t : ℕ). bit_or t (0 + (v + 0 * 2 ^ w) * 2 ^ k)) cleared
    ∙ bit_or_split k lo (0 + hi * 2 ^ w) 0 (v + 0 * 2 ^ w) a (pow_pos k)
    ∙ rw (bit_or-zero lo, bit_or_split w 0 hi v 0 (pow_pos w) c, bit_or-bitwise 0 v, bit_or-zero hi)
        refl
  where
    cleared :
        bit_and (lo + (mid + hi * 2 ^ w) * 2 ^ k) ((2 ^ k - 1) + (0 + (2 ^ n - 1) * 2 ^ w) * 2 ^ k)
        ≡ lo + (0 + hi * 2 ^ w) * 2 ^ k
    cleared =
        bit_and_split k lo (mid + hi * 2 ^ w) (2 ^ k - 1) (0 + (2 ^ n - 1) * 2 ^ w) a
          (omega (arith, pow_pos k))
        ∙ rw
            (
              bit_and_ones k lo a,
              bit_and_split w mid hi 0 (2 ^ n - 1) b (pow_pos w),
              bit_and-zero mid,
              bit_and_ones n hi d,
            )
            refl

-- `x | 1 << k` sets the bit `k`.
pub set_bit :
    (k lo bit hi : ℕ)
    → lo < 2 ^ k
    → bit < 2
    → bit_or (lo + (bit + hi * 2 ^ 1) * 2 ^ k) (0 + (1 + 0 * 2 ^ 1) * 2 ^ k)
      ≡ lo + (1 + hi * 2 ^ 1) * 2 ^ k
set_bit k lo bit hi a b =
    bit_or_split k lo (bit + hi * 2 ^ 1) 0 (1 + 0 * 2 ^ 1) a (pow_pos k)
    ∙ rw (bit_or-zero lo, bit_or_split 1 bit hi 1 0 b (omega arith), bit_or-zero hi, top bit b) refl
  where
    top : (m : ℕ) → m < 2 → bit_or m 1 ≡ 1
    top zero h = refl
    top (suc zero) h = refl
    top (suc (suc m)) h = absurd (omega arith)

-- A mask of 1, 2 or 3 ones reads a field.
pub low_field : (k a b : ℕ) → a < 2 ^ k → bit_and (a + b * 2 ^ k) (2 ^ k - 1 + 0 * 2 ^ k) ≡ a
low_field k a b h =
    bit_and_split k a b (2 ^ k - 1) 0 h (omega (arith, pow_pos k))
    ∙ rw (bit_and_ones k a h, bit_and-zero b) (omega arith)

-- The same, for a number, a mask and a field that are written otherwise.
pub replace_field_at :
    (k w n lo mid hi v : ℕ) {raw keep field : ℕ}
    → raw ≡ lo + (mid + hi * 2 ^ w) * 2 ^ k
    → keep ≡ (2 ^ k - 1) + (0 + (2 ^ n - 1) * 2 ^ w) * 2 ^ k
    → field ≡ 0 + (v + 0 * 2 ^ w) * 2 ^ k
    → lo < 2 ^ k
    → mid < 2 ^ w
    → v < 2 ^ w
    → hi < 2 ^ n
    → bit_or (bit_and raw keep) field ≡ lo + (v + hi * 2 ^ w) * 2 ^ k
replace_field_at k w n lo mid hi v e f g a b c d =
    rw (e, f, g) (replace_field k w n lo mid hi v a b c d)

pub set_bit_at :
    (k lo bit hi : ℕ) {raw field : ℕ}
    → raw ≡ lo + (bit + hi * 2 ^ 1) * 2 ^ k
    → field ≡ 0 + (1 + 0 * 2 ^ 1) * 2 ^ k
    → lo < 2 ^ k
    → bit < 2
    → bit_or raw field ≡ lo + (1 + hi * 2 ^ 1) * 2 ^ k
set_bit_at k lo bit hi e f a b = rw (e, f) (set_bit k lo bit hi a b)
