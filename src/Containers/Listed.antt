-- ===== src/Containers/Listed.antt =====
-- The interfaces met by plain lists.
use dot15d.Base.{
  ℕ, zero, suc, ◌+◌, ◌/◌, ◌<◌, ◌≤◌, ◌≡◌, refl, Bool, true, false, List, [], ◌∷◌, ◌++◌, Option, none,
  some, length, ltb, ◌==◌, if◌then◌else◌, arith, Bool-cases, inl, inr, subst, uncons, unsnoc, take,
  drop, take-append-drop, get_elem?, set, length-set,
}
use dot15d.Containers.{Pushes, PushesFront, FirstIndex, BoundedVec, BoundedDeque, Bitmap, TokenVec}

abbrev pub vec_push : {A : Type 0} → ℕ → List A → A → Option (List A)
vec_push capacity v a = if ltb (length v) capacity then some (v ++ (a ∷ [])) else none

pub vec_push-Pushes :
    {A : Type 0} (capacity : ℕ) (v : List A) (a : A)
    → Pushes {A = A} {V = List A} capacity (λ w. w) v a (vec_push capacity v a)
vec_push-Pushes capacity v a = ground arith

abbrev pub listed_vec : (A : Type 0) → ℕ → BoundedVec A
listed_vec A capacity = record {
  Vec = List A;
  capacity = capacity;
  new = [];
  push = vec_push capacity;
  to_list = λ v. v;
  to_list-new = refl;
  push-Pushes = vec_push-Pushes capacity;
}

abbrev deque_push_front : {A : Type 0} → ℕ → List A → A → Option (List A)
deque_push_front capacity v a = if ltb (length v) capacity then some (a ∷ v) else none

pub deque_push_front-PushesFront :
    {A : Type 0} (capacity : ℕ) (v : List A) (a : A)
    → PushesFront {A = A} {V = List A} capacity (λ w. w) v a (deque_push_front capacity v a)
deque_push_front-PushesFront capacity v a = ground arith

-- Split in the middle, as a ring buffer may be.
abbrev halves : {A : Type 0} → List A → List A × List A
halves xs = (take (length xs / 2) xs, drop (length xs / 2) xs)

abbrev pub listed_deque : (A : Type 0) (capacity : ℕ) → BoundedDeque A capacity
listed_deque A capacity = record {
  Deque = List A;
  new = [];
  push_back = vec_push capacity;
  push_front = deque_push_front capacity;
  pop_front = uncons;
  pop_back = unsnoc;
  to_list = λ d. d;
  as_slices = halves;
  with_slices = λ d slices. slices.0 ++ slices.1;
  to_list-new = refl;
  push_back-Pushes = vec_push-Pushes capacity;
  push_front-PushesFront = deque_push_front-PushesFront capacity;
  to_list-pop_front = λ d. refl;
  to_list-pop_back = λ d. refl;
  to_list-as_slices = λ d. take-append-drop (length d / 2) d;
  to_list-with_slices = λ d first second h k. refl;
}

-- A bit map as the function to its bits, searched from a number on for `n` places.
abbrev first_set : (ℕ → Bool) → ℕ → ℕ → Option ℕ
first_set get i zero = none
first_set get i (suc n) = let rest = first_set get (suc i) n in if get i then some i else rest

abbrev FirstFrom : (ℕ → Bool) → ℕ → ℕ → Option ℕ → Type 0
FirstFrom get from n none = (i : ℕ) → from ≤ i → i < from + n → get i ≡ false
FirstFrom get from n (some i) =
    (i < from + n) × (get i ≡ true) × ((j : ℕ) → from ≤ j → j < i → get j ≡ false)

FirstFrom-suc :
    (get : ℕ → Bool) (from n : ℕ) (o : Option ℕ)
    → get from ≡ false
    → FirstFrom get (suc from) n o
    → FirstFrom get from (suc n) o
FirstFrom-suc get from n none e h = λ i lo hi. elim (Bool-cases (from == i)) [
  | inl q ↦ subst (λ (k : ℕ). get k ≡ false) (ground arith) e
  | inr q ↦ h i (ground arith) (omega arith)
]
FirstFrom-suc get from n (some i) e h = (
  omega (arith, h.0),
  h.1,
  λ j lo hi. elim (Bool-cases (from == j)) [
    | inl q ↦ subst (λ (k : ℕ). get k ≡ false) (ground arith) e
    | inr q ↦ h.2 j (ground arith) hi
  ],
)

first_set-FirstFrom : (get : ℕ → Bool) (from n : ℕ) → FirstFrom get from n (first_set get from n)
first_set-FirstFrom get from zero = λ i lo hi. absurd (omega arith)
first_set-FirstFrom get from (suc n) = elim (Bool-cases (get from)) [
  | inl e ↦ rw (e) (omega arith, e, λ j lo hi. absurd (omega arith))
  | inr e ↦ rw (e) (
      FirstFrom-suc get from n (first_set get (suc from) n) e
        (first_set-FirstFrom get (suc from) n))
]

pub first_set-FirstIndex : (get : ℕ → Bool) (size : ℕ) → FirstIndex get size (first_set get 0 size)
first_set-FirstIndex get size = go (first_set get 0 size) (first_set-FirstFrom get 0 size)
  where
    go : (o : Option ℕ) → FirstFrom get 0 size o → FirstIndex get size o
    go none h = λ i hi. h i (omega arith) (omega arith)
    go (some i) h = (omega (arith, h.0), h.1, λ j hj. h.2 j (omega arith) hj)

abbrev pub function_bitmap : (size : ℕ) → Bitmap size
function_bitmap size = record {
  Bits = ℕ → Bool;
  mask = λ n i. ltb i n;
  first_index = λ get. first_set get 0 size;
  set = λ get i v j. if j == i then v else get j;
  get = λ get i. get i;
  get-mask = λ n i h k. refl;
  get-set = λ get i j v h k. refl;
  first_index-FirstIndex = λ get. first_set-FirstIndex get size;
}

-- The element at an index taken out, with the last one in its place.
abbrev swap_removed : List ℕ → Option ℕ → ℕ → List ℕ
swap_removed xs none i = xs
swap_removed xs (some last) i = if i == length xs then xs else set xs i last

abbrev element : Option ℕ → ℕ
element none = 0
element (some x) = x

pub unsnoc-length :
    (x : ℕ) (xs : List ℕ)
    → (last : ℕ) × ((unsnoc (x ∷ xs)).1 ≡ some last) × (length (unsnoc (x ∷ xs)).0 ≡ length xs)
unsnoc-length x [] = (x, refl, refl)
unsnoc-length x (y ∷ ys) = let r = unsnoc-length y ys in (r.0, r.1, omega (arith, r.2))

pub length-swap_removed :
    (xs : List ℕ) (o : Option ℕ) (i : ℕ) → length (swap_removed xs o i) ≡ length xs
length-swap_removed xs none i = refl
length-swap_removed xs (some last) i = ground (arith, length-set xs i last)

pub swap_removed-shorter :
    (v : List ℕ) (i : ℕ)
    → i < length v
    → suc (length (swap_removed (unsnoc v).0 (unsnoc v).1 i)) ≡ length v
swap_removed-shorter [] i h = absurd (omega arith)
swap_removed-shorter (x ∷ xs) i h =
    let r = unsnoc-length x xs in
    rw (r.1) (omega (arith, r.2, length-swap_removed (unsnoc (x ∷ xs)).0 (some r.0) i))

abbrev pub listed_tokens : TokenVec
listed_tokens = record {
  Vec = List ℕ;
  to_list = λ v. v;
  swap_remove_unchecked =
      λ v i. (swap_removed (unsnoc v).0 (unsnoc v).1 i, element (get_elem? v i));
  swap_remove_unchecked-get_elem? = λ v i x h. rw (h) refl;
  length-swap_remove_unchecked = swap_removed-shorter;
}
