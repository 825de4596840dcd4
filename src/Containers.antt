-- ===== src/Containers.antt =====
-- Containers of other packages that the code uses, as interfaces: the operations that are called
-- and what their documentation promises of them. `Containers/Listed.antt` meets each by lists.
pub mod Listed
use dot15d.Base.{
  ℕ, zero, ◌≤◌, ◌<◌, ◌≡◌, Bool, true, false, List, [], ◌∷◌, ◌++◌, Option, none, some, length, ◌⊎◌,
  inl, inr, refl, ltb, ◌==◌, if◌then◌else◌, uncons, unsnoc, get_elem?, suc,
}

-- What `push` promises: it fails on a full vector only, and otherwise appends.
abbrev pub Pushes : {A V : Type 0} → ℕ → (V → List A) → V → A → Option V → Type 0
Pushes capacity to_list v a none = capacity ≤ length (to_list v)
Pushes capacity to_list v a (some w) =
    (length (to_list v) < capacity) × (to_list w ≡ to_list v ++ (a ∷ []))

-- The same at the other end.
abbrev pub PushesFront : {A V : Type 0} → ℕ → (V → List A) → V → A → Option V → Type 0
PushesFront capacity to_list v a none = capacity ≤ length (to_list v)
PushesFront capacity to_list v a (some w) =
    (length (to_list v) < capacity) × (to_list w ≡ a ∷ to_list v)

-- `heapless::Vec<A, capacity>`. `to_list` is what `iter` runs through; `push` answers `none` for
-- its error.
pub record BoundedVec (A : Type 0) : Type 1 where
  pub Vec : Type 0
  pub capacity : ℕ
  pub new : Vec
  pub push : Vec → A → Option Vec
  pub to_list : Vec → List A
  pub to_list-new : to_list new ≡ []
  pub push-Pushes : (v : Vec) (a : A) → Pushes capacity to_list v a (push v a)

module _ {A : Type 0} (api : BoundedVec A) (v : api.Vec) (a : A) where
  pub push_cases :
      ((api.push v a ≡ none) × (api.capacity ≤ length (api.to_list v)))
      ⊎ ((w : api.Vec) × (api.push v a ≡ some w)
          × (length (api.to_list v) < api.capacity)
          × (api.to_list w ≡ api.to_list v ++ (a ∷ [])))
  push_cases = go (api.push v a) refl (api.push-Pushes v a)
    where
      go :
          (o : Option api.Vec)
          → api.push v a ≡ o
          → Pushes api.capacity api.to_list v a o
          → ((api.push v a ≡ none) × (api.capacity ≤ length (api.to_list v)))
            ⊎ ((w : api.Vec) × (api.push v a ≡ some w)
                × (length (api.to_list v) < api.capacity)
                × (api.to_list w ≡ api.to_list v ++ (a ∷ [])))
      go none e h = inl (e, h)
      go (some w) e h = inr (w, e, h.0, h.1)

-- `heapless::Deque<A, capacity>`. `to_list` is what `iter` runs through, front to back. The two
-- slices of `as_mut_slices` are read by `as_slices` and written back by `with_slices`.
pub record BoundedDeque (A : Type 0) (capacity : ℕ) : Type 1 where
  pub Deque : Type 0
  pub new : Deque
  pub push_back : Deque → A → Option Deque
  pub push_front : Deque → A → Option Deque
  pub pop_front : Deque → Deque × Option A
  pub pop_back : Deque → Deque × Option A
  pub to_list : Deque → List A
  pub as_slices : Deque → List A × List A
  pub with_slices : Deque → List A × List A → Deque
  pub to_list-new : to_list new ≡ []
  pub push_back-Pushes : (d : Deque) (a : A) → Pushes capacity to_list d a (push_back d a)
  pub push_front-PushesFront :
      (d : Deque) (a : A) → PushesFront capacity to_list d a (push_front d a)
  pub to_list-pop_front :
      (d : Deque) → uncons (to_list d) ≡ (to_list (pop_front d).0, (pop_front d).1)
  pub to_list-pop_back : (d : Deque) → unsnoc (to_list d) ≡ (to_list (pop_back d).0, (pop_back d).1)
  pub to_list-as_slices : (d : Deque) → (as_slices d).0 ++ (as_slices d).1 ≡ to_list d
  pub to_list-with_slices :
      (d : Deque) (first second : List A)
      → length first ≡ length (as_slices d).0
      → length second ≡ length (as_slices d).1
      → to_list (with_slices d (first, second)) ≡ first ++ second

-- What `first_index` promises: the index of the first bit that is set.
abbrev pub FirstIndex : (ℕ → Bool) → ℕ → Option ℕ → Type 0
FirstIndex get size none = (i : ℕ) → i < size → get i ≡ false
FirstIndex get size (some i) = (i < size) × (get i ≡ true) × ((j : ℕ) → j < i → get j ≡ false)

-- `bitmaps::Bitmap<size>`. Nothing is said of indices out of range.
pub record Bitmap (size : ℕ) : Type 1 where
  pub Bits : Type 0
  pub mask : ℕ → Bits
  pub first_index : Bits → Option ℕ
  pub set : Bits → ℕ → Bool → Bits
  pub get : Bits → ℕ → Bool
  pub get-mask : (n i : ℕ) → n ≤ size → i < size → get (mask n) i ≡ ltb i n
  pub get-set :
      (b : Bits) (i j : ℕ) (v : Bool)
      → i < size
      → j < size
      → get (set b i v) j ≡ (if j == i then v else get b j)
  pub first_index-FirstIndex : (b : Bits) → FirstIndex (get b) size (first_index b)

-- `heapless::Vec` as the list of tokens of a sender, with the removal that fills the gap with the
-- last token: it answers the token at the index and leaves one fewer.
pub record TokenVec : Type 1 where
  pub Vec : Type 0
  pub to_list : Vec → List ℕ
  pub swap_remove_unchecked : Vec → ℕ → Vec × ℕ
  pub swap_remove_unchecked-get_elem? :
      (v : Vec) (i x : ℕ) → get_elem? (to_list v) i ≡ some x → (swap_remove_unchecked v i).1 ≡ x
  pub length-swap_remove_unchecked :
      (v : Vec) (i : ℕ)
      → i < length (to_list v)
      → suc (length (to_list (swap_remove_unchecked v i).0)) ≡ length (to_list v)
