-- ===== src/Allocator/Ownership.antt =====
-- Who owns the buffers of a pool: dot15d4-util/src/allocator.rs.
use dot15d.Base.{
  ℕ, zero, suc, ◌+◌, ◌<◌, ◌≡◌, refl, ◌∙◌, subst, true, false, Bool-cases, inl, inr, List, [], ◌∷◌,
  Option, none, some, length, ◌==◌, arith, contains, Distinct, get_elem?, erase_at,
  contains-erase_at, Distinct-erase_at, contains-get_elem?, returns,
}
use dot15d.Containers.{PushesFront}
use dot15d.Allocator.{PoolParams, AsyncBufferAllocator, free_of, unwrap_deque, pin_loop, pin}

-- The free buffers and those that are held are all buffers of the pool, each once.
pub record Owned (capacity : ℕ) (free held : List ℕ) : Type 0 where
  pub distinct_free : Distinct free
  pub distinct_held : Distinct held
  pub apart : (j : ℕ) → contains free j ≡ true → contains held j ≡ false
  pub free_below : (j : ℕ) → contains free j ≡ true → j < capacity
  pub held_below : (j : ℕ) → contains held j ≡ true → j < capacity
  pub all : length free + length held ≡ capacity

pub Owned-take :
    (capacity x : ℕ) (free held : List ℕ)
    → Owned capacity (x ∷ free) held
    → Owned capacity free (x ∷ held)
Owned-take capacity x free held o = record {
  distinct_free = o.distinct_free.1;
  distinct_held = (o.apart x (ground arith), o.distinct_held);
  apart = λ j c. elim (Bool-cases (x == j)) [
    | inl e ↦
        let same : x ≡ j = ground arith in
        let absent : contains free j ≡ false =
          subst (λ (k : ℕ). contains free k ≡ false) same o.distinct_free.0 in
        absurd (ground (arith, absent))
    | inr e ↦ let a = o.apart j in ground arith
  ];
  free_below = λ j c. o.free_below j (ground arith);
  held_below = λ j c. elim (Bool-cases (x == j)) [
    | inl e ↦ o.free_below j (ground arith)
    | inr e ↦ o.held_below j (ground arith)
  ];
  all = omega (arith, o.all);
}

length-erase_at :
    (xs : List ℕ) (i k : ℕ) → get_elem? xs i ≡ some k → suc (length (erase_at i xs)) ≡ length xs
length-erase_at [] i k h = absurd (grind arith)
length-erase_at (x ∷ xs) zero k h = refl
length-erase_at (x ∷ xs) (suc i) k h = omega (arith, length-erase_at xs i k h)

pub Owned-give :
    (capacity i k : ℕ) (free held : List ℕ)
    → Owned capacity free held
    → get_elem? held i ≡ some k
    → Owned capacity (k ∷ free) (erase_at i held)
Owned-give capacity i k free held o h =
    let here = contains-get_elem? held i k h in
    let left = λ (j : ℕ). contains-erase_at held i k j o.distinct_held h in
    record {
      distinct_free = (
        elim (Bool-cases (contains free k)) [
          | inl e ↦ absurd (ground (arith, o.apart k e))
          | inr e ↦ e
        ],
        o.distinct_free,
      );
      distinct_held = Distinct-erase_at held i o.distinct_held;
      apart = λ j c. elim (Bool-cases (j == k)) [
        | inl e ↦ left j ∙ rw (e) refl
        | inr e ↦ left j ∙ rw (e) (o.apart j (ground arith))
      ];
      free_below = λ j c. elim (Bool-cases (j == k)) [
        | inl e ↦
            let same : k ≡ j = ground arith in
            o.held_below j (subst (λ (n : ℕ). contains held n ≡ true) same here)
        | inr e ↦ o.free_below j (ground arith)
      ];
      held_below = λ j c. o.held_below j (ground (arith, left j));
      all = omega (arith, o.all, length-erase_at held i k h);
    }

pinned-Owned : (i : ℕ) (free : List ℕ) → Owned i free [] → Owned (suc i) (i ∷ free) []
pinned-Owned i free o = record {
  distinct_free = (
    elim (Bool-cases (contains free i)) [
      | inl e ↦ absurd (omega (arith, o.free_below i e))
      | inr e ↦ e
    ],
    o.distinct_free,
  );
  distinct_held = tt;
  apart = λ j c. refl;
  free_below = λ j c. elim (Bool-cases (i == j)) [
    | inl e ↦ ground arith
    | inr e ↦ let below = o.free_below j (ground arith) in omega arith
  ];
  held_below = λ j c. absurd (grind arith);
  all = omega (arith, o.all);
}

module _ (p : PoolParams) where
  unwrap_deque-pushed :
      (deque : p.free_deque.Deque) (i : ℕ)
      → length (p.free_deque.to_list deque) < p.capacity
      → (o : Option p.free_deque.Deque) → PushesFront p.capacity p.free_deque.to_list deque i o
      → (next : p.free_deque.Deque) × (unwrap_deque o ≡ returns next)
        × (p.free_deque.to_list next ≡ i ∷ p.free_deque.to_list deque)
  unwrap_deque-pushed deque i room none h = absurd (omega arith)
  unwrap_deque-pushed deque i room (some next) h = (next, refl, h.1)

  pin_loop-Owned :
      (deque : p.free_deque.Deque) (i left : ℕ)
      → i + left ≡ p.capacity
      → Owned i (p.free_deque.to_list deque) []
      → (full : p.free_deque.Deque) × (pin_loop p deque i left ≡ returns full)
        × Owned p.capacity (p.free_deque.to_list full) []
  pin_loop-Owned deque i zero h o =
      let same : i ≡ p.capacity = omega arith in
      (deque, refl, subst (λ (n : ℕ). Owned n (p.free_deque.to_list deque) []) same o)
  pin_loop-Owned deque i (suc left) h o =
      let room : length (p.free_deque.to_list deque) < p.capacity = omega (arith, o.all) in
      let push =
        unwrap_deque-pushed deque i room (p.free_deque.push_front deque i)
          (p.free_deque.push_front-PushesFront deque i) in
      rw (push.1) (
        pin_loop-Owned push.0 (suc i) left (omega arith)
          (rw (push.2) (pinned-Owned i (p.free_deque.to_list deque) o)))

  -- A pool that is pinned has all its buffers free, each once, and pinning does not panic.
  pub pin-Owned :
      (s : AsyncBufferAllocator p) × (pin p ≡ returns s) × Owned p.capacity (free_of s) []
  unfolding pin
  pin-Owned =
      let nothing_free : Owned 0 (p.free_deque.to_list p.free_deque.new) [] =
        rw (p.free_deque.to_list-new) (record {
          distinct_free = tt;
          distinct_held = tt;
          apart = λ j c. refl;
          free_below = λ j c. absurd (grind arith);
          held_below = λ j c. absurd (grind arith);
          all = refl;
        }) in
      let full = pin_loop-Owned p.free_deque.new 0 p.capacity (omega arith) nothing_free in
      rw (full.1)
        (record { free_list = full.0; wakers = p.waker_deque.new; woken = [] }, refl, full.2)
