-- ===== src/Allocator/Allotment.antt =====
-- What the calls of an allocator do to the ownership of its buffers: `AsyncBufferAllocator` in
-- dot15d4-util/src/allocator.rs.
use dot15d.Base.{
  ℕ, ◌<◌, ◌≤◌, ◌≡◌, refl, sym, ap, ◌∙◌, subst, false, Bool-cases, inl, inr, ◌⊎◌, List, [], ◌∷◌,
  ◌++◌, Option, none, some, length, ltb, arith, contains, get_elem?, erase_at, length-get_elem?,
  uncons, unsnoc, Outcome, returns, panics, ◌>>=◌, Result, ok, err,
}
use dot15d.Containers.{PushesFront}
use dot15d.Allocator.{
  PoolParams, BufferToken, AsyncBufferAllocator, free_of, waiting_of, popped, allocate, pushed,
  deallocate, as_token, allocate_token, wakers_queued, push_waker, allocated_or_queued,
  try_allocate_buffer, woken_one, deallocate_buffer,
}
use dot15d.Allocator.Ownership.{Owned, Owned-take, Owned-give}

module _ {p : PoolParams} where
  -- What is answered to an attempt to allocate.
  abbrev pub Allots :
      AsyncBufferAllocator p
      → List ℕ
      → ℕ
      → Option ℕ
      → Outcome (AsyncBufferAllocator p × Result BufferToken (Unit {0}))
      → Type 0
  Allots s held size waker (returns (s', ok token)) =
      (size ≤ p.buffer_size)
      × (token.len ≡ size)
      × (contains held token.pointer ≡ false)
      × Owned p.capacity (free_of s') (token.pointer ∷ held)
      × (waiting_of s' ≡ waiting_of s)
  Allots s held size none (returns (s', err e)) =
      ((p.buffer_size < size) ⊎ (length held ≡ p.capacity))
      × Owned p.capacity (free_of s') held
      × (waiting_of s' ≡ waiting_of s)
  Allots s held size (some waker) (returns (s', err e)) =
      ((p.buffer_size < size) ⊎ (length held ≡ p.capacity))
      × Owned p.capacity (free_of s') held
      × (waiting_of s' ≡ waker ∷ waiting_of s)
  Allots s held size none panics = ⊥
  Allots s held size (some waker) panics =
      ((p.buffer_size < size) ⊎ (length held ≡ p.capacity)) × (p.backlog ≤ length (waiting_of s))

  wakers_queued-Allots :
      (s t : AsyncBufferAllocator p) (held : List ℕ) (size waker : ℕ)
      (o : Option p.waker_deque.Deque)
      → ((p.buffer_size < size) ⊎ (length held ≡ p.capacity))
      → Owned p.capacity (free_of t) held
      → waiting_of t ≡ waiting_of s
      → PushesFront p.backlog p.waker_deque.to_list t.wakers waker o
      → Allots s held size (some waker) (wakers_queued t o >>= λ u. returns (u, err tt))
  wakers_queued-Allots s t held size waker none why o same h = (why, rw (sym same) h)
  wakers_queued-Allots s t held size waker (some wakers) why o same h =
      (why, o, h.1 ∙ ap (waker ∷◌) same)

  refused-Allots :
      (s t : AsyncBufferAllocator p) (held : List ℕ) (size : ℕ) (waker : Option ℕ)
      → ((p.buffer_size < size) ⊎ (length held ≡ p.capacity))
      → Owned p.capacity (free_of t) held
      → waiting_of t ≡ waiting_of s
      → Allots s held size waker (allocated_or_queued waker (t, err tt))
  unfolding push_waker
  refused-Allots s t held size none why o same = (why, o, same)
  refused-Allots s t held size (some waker) why o same =
      wakers_queued-Allots s t held size waker (p.waker_deque.push_front t.wakers waker) why o same
        (p.waker_deque.push_front-PushesFront t.wakers waker)

  popped-Allots :
      (s : AsyncBufferAllocator p) (held free : List ℕ) (size : ℕ) (waker : Option ℕ)
      (r : p.free_deque.Deque × Option ℕ)
      → Owned p.capacity free held
      → size ≤ p.buffer_size
      → uncons free ≡ (p.free_deque.to_list r.0, r.1)
      → Allots s held size waker (allocated_or_queued waker (as_token size (popped s r)))
  popped-Allots s held [] size waker (deque, some x) o fits e = absurd (grind arith)
  popped-Allots s held (y ∷ free) size waker (deque, none) o fits e = absurd (grind arith)
  popped-Allots s held [] size waker (deque, none) o fits e =
      let free : [] ≡ p.free_deque.to_list deque = ap (λ (q : List ℕ × Option ℕ). q.0) e in
      refused-Allots s (record s { free_list = deque }) held size waker (inr (omega (arith, o.all)))
        (subst (λ (xs : List ℕ). Owned p.capacity xs held) free o) refl
  popped-Allots s held (y ∷ free) size waker (deque, some x) o fits e =
      let rest : free ≡ p.free_deque.to_list deque = ap (λ (q : List ℕ × Option ℕ). q.0) e in
      let same : y ≡ x = grind arith in
      (
        fits,
        refl,
        subst (λ (k : ℕ). contains held k ≡ false) same (o.apart y (ground arith)),
        subst (λ (k : ℕ). Owned p.capacity (p.free_deque.to_list deque) (k ∷ held)) same
            (subst (λ (xs : List ℕ). Owned p.capacity xs (y ∷ held)) rest
              (Owned-take p.capacity y free held o)),
        refl,
      )

  -- Where the buffers are free or held, each once: an allocation gives a buffer that was not held,
  -- with the length that was asked for. It fails only if that is too long or all buffers are held,
  -- and a waker, if one is passed, then joins the front of the backlog, or the call panics where
  -- the backlog is full.
  pub try_allocate_buffer-Allots :
      (s : AsyncBufferAllocator p) (held : List ℕ) (size : ℕ) (waker : Option ℕ)
      → Owned p.capacity (free_of s) held
      → Allots s held size waker (try_allocate_buffer s size waker)
  unfolding try_allocate_buffer allocate_token allocate
  try_allocate_buffer-Allots s held size waker o = elim (Bool-cases (ltb p.buffer_size size)) [
    | inl e ↦ rw (e) (refused-Allots s s held size waker (inl (ground arith)) o refl)
    | inr e ↦ rw (e) (
        popped-Allots s held (free_of s) size waker (p.free_deque.pop_front s.free_list) o
          (ground arith) (p.free_deque.to_list-pop_front s.free_list))
  ]

  -- The task that waits longest is woken, if there is one.
  abbrev pub WakesOldest : AsyncBufferAllocator p → AsyncBufferAllocator p → Type 0
  WakesOldest s s' =
      ((unsnoc (waiting_of s) ≡ (waiting_of s', none)) × (s'.woken ≡ s.woken))
      ⊎ ((waker : ℕ) × (unsnoc (waiting_of s) ≡ (waiting_of s', some waker))
          × (s'.woken ≡ s.woken ++ (waker ∷ [])))

  woken_one-WakesOldest :
      (s : AsyncBufferAllocator p) (r : p.waker_deque.Deque × Option ℕ)
      → unsnoc (waiting_of s) ≡ (p.waker_deque.to_list r.0, r.1)
      → WakesOldest s (woken_one s r) × (free_of (woken_one s r) ≡ free_of s)
  woken_one-WakesOldest s (wakers, none) e = (inl (e, refl), refl)
  woken_one-WakesOldest s (wakers, some waker) e = (inr (waker, e, refl), refl)

  pushed-room :
      (s : AsyncBufferAllocator p) (k : ℕ) (o : Option p.free_deque.Deque)
      → length (free_of s) < p.capacity
      → PushesFront p.capacity p.free_deque.to_list s.free_list k o
      → (t : AsyncBufferAllocator p) × (pushed s o ≡ returns t)
        × (free_of t ≡ k ∷ free_of s)
        × (t.wakers ≡ s.wakers)
        × (t.woken ≡ s.woken)
  pushed-room s k none room h = absurd (omega arith)
  pushed-room s k (some free_list) room h =
      (record s { free_list = free_list }, refl, h.1, refl, refl)

  WakesOldest-same :
      (s t s' : AsyncBufferAllocator p)
      → t.wakers ≡ s.wakers
      → t.woken ≡ s.woken
      → WakesOldest t s'
      → WakesOldest s s'
  WakesOldest-same s t s' h k (inl (e, f)) =
      inl (ap (λ (w : p.waker_deque.Deque). unsnoc (p.waker_deque.to_list w)) (sym h) ∙ e, f ∙ k)
  WakesOldest-same s t s' h k (inr (waker, e, f)) = inr (
    waker,
    ap (λ (w : p.waker_deque.Deque). unsnoc (p.waker_deque.to_list w)) (sym h) ∙ e,
    f ∙ ap (λ (l : List ℕ). l ++ (waker ∷ [])) k,
  )

  -- Giving back the token of a buffer that is held does not panic: the buffer is free again, and the
  -- task that waits longest is woken, if there is one.
  pub deallocate_buffer-Owned :
      (s : AsyncBufferAllocator p) (held : List ℕ) (i : ℕ) (token : BufferToken)
      → Owned p.capacity (free_of s) held
      → get_elem? held i ≡ some token.pointer
      → (s' : AsyncBufferAllocator p) × (deallocate_buffer s token ≡ returns s')
        × (free_of s' ≡ token.pointer ∷ free_of s)
        × Owned p.capacity (free_of s') (erase_at i held)
        × WakesOldest s s'
  unfolding deallocate_buffer deallocate
  deallocate_buffer-Owned s held i token o h =
      let room : length (free_of s) < p.capacity =
        omega (arith, o.all, length-get_elem? held i token.pointer h) in
      let push =
        pushed-room s token.pointer (p.free_deque.push_front s.free_list token.pointer) room
          (p.free_deque.push_front-PushesFront s.free_list token.pointer) in
      let t = push.0 in
      let woke =
        woken_one-WakesOldest t (p.waker_deque.pop_back t.wakers)
          (p.waker_deque.to_list-pop_back t.wakers) in
      rw (push.1) (
        woken_one t (p.waker_deque.pop_back t.wakers),
        refl,
        woke.1 ∙ push.2,
        subst (λ (xs : List ℕ). Owned p.capacity xs (erase_at i held)) (sym (woke.1 ∙ push.2))
            (Owned-give p.capacity i token.pointer (free_of s) held o h),
        WakesOldest-same s t (woken_one t (p.waker_deque.pop_back t.wakers)) push.3 push.4 woke.0,
      )
