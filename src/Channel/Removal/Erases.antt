-- ===== src/Channel/Removal/Erases.antt =====
-- `remove` on the deque of slots erases one entry: dot15d4-util/src/sync/channel/util.rs.
use dot15d.Base.{
  ℕ, zero, suc, ◌+◌, ◌-◌, ◌<◌, ◌≡◌, refl, sym, ap, ◌∙◌, Bool-cases, inl, inr, true, List, [], ◌∷◌,
  ◌++◌, Option, some, length, set, ltb, Outcome, returns, index, arith, get_elem?, erase_at, uncons,
  length-set, length-append, get_elem?-append_left, get_elem?-append_right, get_elem?-total,
  set-append_left, set-append_right,
}
use dot15d.Containers.{BoundedDeque}
use dot15d.Channel.Removal.{get_slot, set_slot, shift, remove}

index-get_elem? : (xs : List ℕ) (i x : ℕ) → get_elem? xs i ≡ some x → index xs i ≡ returns x
index-get_elem? [] i x h = absurd (grind arith)
index-get_elem? (y ∷ ys) zero x h = grind arith
index-get_elem? (y ∷ ys) (suc i) x h = index-get_elem? ys i x h

get_slot-append :
    (first second : List ℕ) (i x : ℕ)
    → get_elem? (first ++ second) i ≡ some x
    → get_slot first second i ≡ returns x
unfolding get_slot
get_slot-append first second i x h = elim (Bool-cases (ltb i (length first))) [
  | inl e ↦
      rw (e)
        (index-get_elem? first i x (sym (get_elem?-append_left first second i (ground arith)) ∙ h))
  | inr e ↦ rw (e) (
      index-get_elem? second (i - length first) x
        (sym (get_elem?-append_right first second i (ground arith)) ∙ h))
]

-- A result on the two slices that is one on the list they make, each as long as before.
abbrev Sliced : List ℕ → List ℕ → Outcome (List ℕ × List ℕ) → (List ℕ → Type 0) → Type 0
Sliced first second o P =
    (xs : List ℕ) × (ys : List ℕ) × (o ≡ returns (xs, ys))
    × (length xs ≡ length first)
    × (length ys ≡ length second)
    × P (xs ++ ys)

set_slot-append :
    (first second : List ℕ) (i v : ℕ)
    → i < length first + length second
    → Sliced first second (set_slot first second i v) (λ zs. zs ≡ set (first ++ second) i v)
unfolding set_slot
set_slot-append first second i v h = elim (Bool-cases (ltb i (length first))) [
  | inl e ↦ rw (e) (
    set first i v,
    second,
    refl,
    length-set first i v,
    refl,
    sym (set-append_left first second i v (ground arith)),
  )
  | inr e ↦
      let e' : ltb (i - length first) (length second) ≡ true = ground arith in
      rw (e, e')
        (
          first,
          set second (i - length first) v,
          refl,
          refl,
          length-set second (i - length first) v,
          sym (set-append_right first second i v (ground arith)),
        )
]

erase_at-set :
    (xs : List ℕ) (i x : ℕ)
    → get_elem? xs i ≡ some x
    → suc i < length xs
    → erase_at i (set xs (suc i) x) ≡ erase_at (suc i) xs
erase_at-set [] i x h k = absurd (omega arith)
erase_at-set (y ∷ []) i x h k = absurd (omega arith)
erase_at-set (y ∷ z ∷ zs) zero x h k = grind arith
erase_at-set (y ∷ z ∷ zs) (suc i) x h k = ap (y ∷◌) (erase_at-set (z ∷ zs) i x h (omega arith))

uncons-erase_at : (xs : List ℕ) → (uncons xs).0 ≡ erase_at zero xs
uncons-erase_at [] = refl
uncons-erase_at (x ∷ xs) = refl

shift-erase_at :
    (i : ℕ) (first second : List ℕ)
    → i < length first + length second
    → Sliced first second
        (shift i first second)
        (λ zs. (uncons zs).0 ≡ erase_at i (first ++ second))
unfolding shift
shift-erase_at zero first second h =
    (first, second, refl, refl, refl, uncons-erase_at (first ++ second))
shift-erase_at (suc i) first second h =
    let got = get_elem?-total (first ++ second) i (omega (arith, length-append first second)) in
    let put = set_slot-append first second (suc i) got.0 h in
    let rest = shift-erase_at i put.0 put.1 (omega (arith, put.3, put.4)) in
    rw (get_slot-append first second i got.0 got.1, put.2, rest.2)
      (
        rest.0,
        rest.1,
        refl,
        rest.3 ∙ put.3,
        rest.4 ∙ put.4,
        rest.5
            ∙ ap (erase_at i) put.5
            ∙ erase_at-set (first ++ second) i got.0 got.1
                (omega (arith, length-append first second)),
      )

module _ {capacity : ℕ} (api : BoundedDeque ℕ capacity) where
  -- For an index within the deque, `remove` returns, and the deque has lost that entry alone: the
  -- others keep their order, whatever the two slices of the ring buffer are.
  pub remove-erase_at :
      (deque : api.Deque) (i : ℕ)
      → i < length (api.to_list deque)
      → (left : api.Deque) × (remove api deque i ≡ returns left)
        × (api.to_list left ≡ erase_at i (api.to_list deque))
  unfolding remove
  remove-erase_at deque i h =
      let slices = api.as_slices deque in
      let all = api.to_list-as_slices deque in
      let moved =
        shift-erase_at i slices.0 slices.1
          (omega (arith, h, ap length all, length-append slices.0 slices.1)) in
      let written = api.with_slices deque (moved.0, moved.1) in
      rw (moved.2) (
        (api.pop_front written).0,
        refl,
        sym (ap (λ (r : List ℕ × Option ℕ). r.0) (api.to_list-pop_front written))
            ∙ ap (λ (xs : List ℕ). (uncons xs).0)
                (api.to_list-with_slices deque moved.0 moved.1 moved.3 moved.4)
            ∙ moved.5
            ∙ ap (erase_at i) all,
      )
