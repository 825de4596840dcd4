-- ===== src/Base/Numbers.antt =====
-- Lists of numbers without repetition.
use Prim.Native.Nat.{ℕ, zero, suc, ◌<◌, ◌≤◌}
use mathlib.Core.Path.{◌≡◌, refl, subst}
use mathlib.Core.Logic.{inl, inr}
use mathlib.Core.Bool.{Bool, true, false, ◌||◌}
use mathlib.Core.List.{List, [], ◌∷◌, ◌++◌}
use mathlib.Core.Option.{some}
use native.Mathlib.Omega.{arith}
use dot15d.Base.Tests.{if◌then◌else◌, ◌==◌, Bool-cases}
use dot15d.Base.Lists.{length, get_elem?, erase_at}

-- Membership of numbers, as a test.
abbrev pub contains : List ℕ → ℕ → Bool
contains [] n = false
contains (x ∷ xs) n = x == n || contains xs n

-- No number stands in the list twice.
abbrev pub Distinct : List ℕ → Type 0
Distinct [] = Unit
Distinct (x ∷ xs) = (contains xs x ≡ false) × Distinct xs

pub contains-append :
    (xs ys : List ℕ) (n : ℕ) → contains (xs ++ ys) n ≡ contains xs n || contains ys n
contains-append [] ys n = refl
contains-append (x ∷ xs) ys n = ground (arith, contains-append xs ys n)

pub Distinct-append_one :
    (xs : List ℕ) (n : ℕ) → Distinct xs → contains xs n ≡ false → Distinct (xs ++ (n ∷ []))
Distinct-append_one [] n d h = (refl, tt)
Distinct-append_one (x ∷ xs) n (e, d) h =
    (ground (arith, contains-append xs (n ∷ []) x), Distinct-append_one xs n d (ground arith))

pub contains-get_elem? : (xs : List ℕ) (i k : ℕ) → get_elem? xs i ≡ some k → contains xs k ≡ true
contains-get_elem? [] i k h = absurd (grind arith)
contains-get_elem? (x ∷ xs) zero k h = grind arith
contains-get_elem? (x ∷ xs) (suc i) k h = ground (arith, contains-get_elem? xs i k h)

pub contains-erase_at :
    (xs : List ℕ) (i k j : ℕ)
    → Distinct xs
    → get_elem? xs i ≡ some k
    → contains (erase_at i xs) j ≡ (if j == k then false else contains xs j)
contains-erase_at [] i k j d h = absurd (grind arith)
contains-erase_at (x ∷ xs) zero k j d h = grind arith
contains-erase_at (x ∷ xs) (suc i) k j d h =
    ground (arith, contains-erase_at xs i k j d.1 h, contains-get_elem? xs i k h, d.0)

contains-erase_at-false :
    (xs : List ℕ) (i j : ℕ) → contains xs j ≡ false → contains (erase_at i xs) j ≡ false
contains-erase_at-false [] i j h = refl
contains-erase_at-false (x ∷ xs) zero j h = ground arith
contains-erase_at-false (x ∷ xs) (suc i) j h = ground (arith, contains-erase_at-false xs i j)

pub Distinct-erase_at : (xs : List ℕ) (i : ℕ) → Distinct xs → Distinct (erase_at i xs)
Distinct-erase_at [] i d = tt
Distinct-erase_at (x ∷ xs) zero d = d.1
Distinct-erase_at (x ∷ xs) (suc i) d =
    (contains-erase_at-false xs i x d.0, Distinct-erase_at xs i d.1)

abbrev without : ℕ → List ℕ → List ℕ
without n [] = []
without n (x ∷ xs) = let rest = without n xs in if x == n then rest else x ∷ rest

contains-without :
    (n : ℕ) (xs : List ℕ) (j : ℕ)
    → contains (without n xs) j ≡ (if j == n then false else contains xs j)
contains-without n [] j = ground arith
contains-without n (x ∷ xs) j = ground (arith, contains-without n xs j)

Distinct-without : (n : ℕ) (xs : List ℕ) → Distinct xs → Distinct (without n xs)
Distinct-without n [] d = tt
Distinct-without n (x ∷ xs) d = elim (Bool-cases (x == n)) [
  | inl e ↦ rw (e) (Distinct-without n xs d.1)
  | inr e ↦ rw (e) (ground (arith, contains-without n xs x, d.0), Distinct-without n xs d.1)
]

without-absent : (n : ℕ) (xs : List ℕ) → contains xs n ≡ false → without n xs ≡ xs
without-absent n [] h = refl
without-absent n (x ∷ xs) h = elim (Bool-cases (x == n)) [
  | inl e ↦ absurd (ground arith)
  | inr e ↦ rw (e, without-absent n xs (ground arith)) refl
]

length-without : (n : ℕ) (xs : List ℕ) → Distinct xs → length xs ≤ suc (length (without n xs))
length-without n [] d = omega arith
length-without n (x ∷ xs) d = elim (Bool-cases (x == n)) [
  | inl e ↦ rw (e) (
      rw (without-absent n xs (subst (λ (k : ℕ). contains xs k ≡ false) (ground arith) d.0))
        (omega arith))
  | inr e ↦ rw (e) (omega (arith, length-without n xs d.1))
]

-- Distinct numbers below n are at most n.
pub length-Distinct :
    (n : ℕ) (xs : List ℕ) → Distinct xs → ((j : ℕ) → contains xs j ≡ true → j < n) → length xs ≤ n
length-Distinct zero [] d h = omega arith
length-Distinct zero (x ∷ xs) d h = let impossible = h x (ground arith) in absurd (omega arith)
length-Distinct (suc n) xs d h = omega (
  arith,
  length-without n xs d,
  length-Distinct n (without n xs) (Distinct-without n xs d)
      (λ j c. let below = h j in ground (arith, contains-without n xs j)),
)
