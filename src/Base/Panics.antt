-- ===== src/Base/Panics.antt =====
-- Code that may panic: an index out of range, `unwrap` of nothing, `unreachable!`, a division by
-- zero. Overflow checks and `debug_assert!` are those of a release build: arithmetic wraps.
use mathlib.Core.Path.{◌≡◌, refl}
use Prim.Native.Nat.{ℕ, zero, suc}
use mathlib.Core.Logic.{◌⊎◌, inl, inr}
use mathlib.Core.List.{List, [], ◌∷◌}

pub data Outcome {ℓ} (A : Type ℓ) : Type ℓ where
  returns : A → Outcome A
  panics : Outcome A

infixl 5 ◌>>=◌ ◌>>◌
abbrev pub ◌>>=◌ {ℓ κ} : {A : Type ℓ} {B : Type κ} → Outcome A → (A → Outcome B) → Outcome B
returns a >>= f = f a
panics >>= f = panics

abbrev pub ◌>>◌ {ℓ κ} : {A : Type ℓ} {B : Type κ} → Outcome A → Outcome B → Outcome B
m >> k = m >>= λ _. k

-- Rust's `Result`.
pub data Result {ℓ κ} (A : Type ℓ) (E : Type κ) : Type (ℓ ⊔ κ) where
  ok : A → Result A E
  err : E → Result A E

pub Outcome-cases {ℓ} : {A : Type ℓ} (o : Outcome A) → ((x : A) × (o ≡ returns x)) ⊎ (o ≡ panics)
Outcome-cases (returns x) = inl (x, refl)
Outcome-cases panics = inr refl

pub Result-cases {ℓ κ} :
    {A : Type ℓ} {E : Type κ} (o : Result A E) → ((x : A) × (o ≡ ok x)) ⊎ ((e : E) × (o ≡ err e))
Result-cases (ok x) = inl (x, refl)
Result-cases (err e) = inr (e, refl)

-- `slice[i]`
abbrev pub index {ℓ} : {A : Type ℓ} → List A → ℕ → Outcome A
index [] i = panics
index (x ∷ xs) zero = returns x
index (x ∷ xs) (suc i) = index xs i
