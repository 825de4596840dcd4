-- ===== src/Channel/Phases/Allocation.antt =====
-- Allocation and release of message slots move their phases.
use dot15d.Base.{
  ℕ, ◌%◌, ◌<◌, ◌≤◌, ◌≡◌, true, false, List, [], ◌∷◌, ◌++◌, Option, none, some, length, contains,
  ◌==◌, ltb, Bool-cases, inl, inr, ◌⊎◌, unsnoc, arith, refl, ◌∙◌, if◌then◌else◌, Outcome, returns,
  panics,
}
use dot15d.Containers.{FirstIndex, PushesFront}
use dot15d.Channel.{Params, State, requests_of, responses_of, waiting_of, new}
use dot15d.Channel.Slots.{queued, allocate_found, allocate_msg_slot, wake_popped, release_msg_slot}
use dot15d.Channel.Phases.{
  available, allocated, contents, stage, nothing, idle, is_available, InPhase, IsQueue, WellFormed,
  Moved,
}
use dot15d.Channel.Phases.Moving.{InPhase-available}

-- A fresh state, for as many slots as a slot number can tell apart.
abbrev pub IsFresh : (p : Params) → Outcome (State p) → Type 0
IsFresh p panics = 255 < p.messages
IsFresh p (returns s) = WellFormed s × ((k : ℕ) → k < p.messages → InPhase s k available)

module _ (p : Params) where
  empty-contains : (k : ℕ) → contains (p.slot_deque.to_list p.slot_deque.new) k ≡ false
  empty-contains k = rw (p.slot_deque.to_list-new) refl

  empty-IsQueue : IsQueue p.messages (p.slot_deque.to_list p.slot_deque.new)
  empty-IsQueue = rw (p.slot_deque.to_list-new) (tt, λ j c. absurd (grind arith))

  pub new-IsFresh : IsFresh p (new p)
  unfolding new
  new-IsFresh = elim (Bool-cases (ltb 255 p.messages)) [
    | inl e ↦ rw (e) (ground arith)
    | inr e ↦
        let mask : (k : ℕ)
            → k < p.messages
            → p.msg_bitmap.get (p.msg_bitmap.mask p.messages) k ≡ true =
          λ k h. p.msg_bitmap.get-mask p.messages k (omega arith) h ∙ ground arith in
        rw (e) (
          record {
            few = ground arith;
            phase = λ k h. (available, (mask k h, refl, refl, empty-contains k, empty-contains k));
            requests = empty-IsQueue;
            responses = empty-IsQueue;
          },
          λ k h. (mask k h, refl, refl, empty-contains k, empty-contains k),
        )
  ]

-- The last of the waiting tasks is woken, if there is one.
abbrev pub WakesLast : List ℕ → List ℕ → List ℕ → List ℕ → Type 0
WakesLast waiting woken waiting' woken' =
    ((unsnoc waiting ≡ (waiting', none)) × (woken' ≡ woken))
    ⊎ ((waker : ℕ) × (unsnoc waiting ≡ (waiting', some waker)) × (woken' ≡ woken ++ (waker ∷ [])))

module _ {p : Params} where
  -- What an allocation answers. It panics only when a waker is to queue up in a full backlog.
  abbrev pub Allocates : State p → Option ℕ → Outcome (State p × Option ℕ) → Type 0
  Allocates s waker (returns (s', some k)) =
      (k < p.messages) × InPhase s k available × Moved s s' k allocated
  Allocates s none (returns (s', none)) =
      ((k : ℕ) → k < p.messages → is_available s k ≡ false) × (s' ≡ s)
  Allocates s (some waker) (returns (s', none)) =
      ((k : ℕ) → k < p.messages → is_available s k ≡ false)
      × (waiting_of s' ≡ waker ∷ waiting_of s)
      × (s' ≡ record s { backlog = s'.backlog })
  Allocates s none panics = ⊥
  Allocates s (some waker) panics =
      ((k : ℕ) → k < p.messages → is_available s k ≡ false) × (p.backlog ≤ length (waiting_of s))

  queued-Allocates :
      (s : State p) (waker : ℕ) (o : Option p.waker_deque.Deque)
      → ((k : ℕ) → k < p.messages → is_available s k ≡ false)
      → PushesFront p.backlog p.waker_deque.to_list s.backlog waker o
      → Allocates s (some waker) (queued s o)
  queued-Allocates s waker none full h = (full, h)
  queued-Allocates s waker (some backlog) full h = (full, h.1, refl)

  abbrev taken : State p → ℕ → State p
  taken s i = record s { msg_available = p.msg_bitmap.set s.msg_available i false }

  taken-Moved :
      (s : State p) (i : ℕ)
      → WellFormed s
      → i < p.messages
      → is_available s i ≡ true
      → InPhase s i available × Moved s (taken s i) i allocated
  taken-Moved s i w h e =
      let ph = w.phase i h in
      let at_i = InPhase-available s i ph.0 ph.1 e in
      (
        at_i,
        record {
          moved = (
            p.msg_bitmap.get-set s.msg_available i i false h h ∙ ground arith,
            at_i.1,
            at_i.2,
            at_i.3,
            at_i.4,
          );
          others = λ j hj other. (
            p.msg_bitmap.get-set s.msg_available i j false h hj ∙ rw (other) refl,
            refl,
            refl,
            refl,
            refl,
          );
          requests = w.requests;
          responses = w.responses;
        },
      )

  allocate_found-Allocates :
      (s : State p) (waker o : Option ℕ)
      → WellFormed s
      → FirstIndex (p.msg_bitmap.get s.msg_available) p.messages o
      → Allocates s waker (allocate_found s waker o)
  allocate_found-Allocates s none none w f = (f, refl)
  allocate_found-Allocates s (some waker) none w f =
      queued-Allocates s waker (p.waker_deque.push_front s.backlog waker) f
        (p.waker_deque.push_front-PushesFront s.backlog waker)
  allocate_found-Allocates s waker (some i) w f =
      let number : i % 256 ≡ i = omega (arith, w.few, f.0) in
      let m = taken-Moved s i w f.0 f.1 in rw (number) (f.0, m.0, m.1)

  -- In a well-formed state an allocation gives out a slot that was available, and moves that
  -- slot alone, to allocated. When no slot is available it answers none: without a waker
  -- nothing changes, and a waker joins the front of the backlog, or the call panics where the
  -- backlog is full.
  pub allocate_msg_slot-Allocates :
      (s : State p) (waker : Option ℕ)
      → WellFormed s
      → Allocates s waker (allocate_msg_slot s waker)
  unfolding allocate_msg_slot
  allocate_msg_slot-Allocates s waker w =
      allocate_found-Allocates s waker (p.msg_bitmap.first_index s.msg_available) w
        (p.msg_bitmap.first_index-FirstIndex s.msg_available)

  -- What a release does: it sets the bit of the slot, and wakes the task that waits longest.
  pub record Released (s s' : State p) (k : ℕ) : Type 0 where
    pub bit :
        (j : ℕ) → j < p.messages → is_available s' j ≡ (if j == k then true else is_available s j)
    pub messages : s'.messages ≡ s.messages
    pub slot_state : s'.slot_state ≡ s.slot_state
    pub pending_requests : s'.pending_requests ≡ s.pending_requests
    pub pending_responses : s'.pending_responses ≡ s.pending_responses
    pub oldest : WakesLast (waiting_of s) s.woken (waiting_of s') s'.woken

  wake_popped-Released :
      (s : State p) (k : ℕ) (popped : p.waker_deque.Deque × Option ℕ)
      → k < p.messages
      → unsnoc (waiting_of s) ≡ (p.waker_deque.to_list popped.0, popped.1)
      → Released s
          (wake_popped
            (record s { msg_available = p.msg_bitmap.set s.msg_available k true })
            popped)
          k
  wake_popped-Released s k (backlog, none) h e = record {
    bit = λ j hj. p.msg_bitmap.get-set s.msg_available k j true h hj;
    messages = refl;
    slot_state = refl;
    pending_requests = refl;
    pending_responses = refl;
    oldest = inl (e, refl);
  }
  wake_popped-Released s k (backlog, some waker) h e = record {
    bit = λ j hj. p.msg_bitmap.get-set s.msg_available k j true h hj;
    messages = refl;
    slot_state = refl;
    pending_requests = refl;
    pending_responses = refl;
    oldest = inr (waker, e, refl);
  }

  -- Releasing a slot of the channel makes it available, leaves the messages, the slot states
  -- and both queues, and wakes the task at the back of the backlog, which it leaves, if there
  -- is one.
  pub release_msg_slot-Released :
      (s : State p) (k : ℕ) → k < p.messages → Released s (release_msg_slot s k) k
  unfolding release_msg_slot
  release_msg_slot-Released s k h =
      wake_popped-Released s k (p.waker_deque.pop_back s.backlog) h
        (p.waker_deque.to_list-pop_back s.backlog)

  -- A slot whose fields are those of an available slot but for its bit becomes available.
  pub Released-Moved :
      (s s' : State p) (k : ℕ)
      → WellFormed s
      → k < p.messages
      → contents (s.messages k) ≡ nothing
      → stage (s.slot_state k) ≡ idle
      → contains (requests_of s) k ≡ false
      → contains (responses_of s) k ≡ false
      → Released s s' k
      → Moved s s' k available
  Released-Moved s s' k w h e f g i r = record {
    moved = (
      r.bit k h ∙ ground arith,
      rw (r.messages) e,
      rw (r.slot_state) f,
      rw (r.pending_requests) g,
      rw (r.pending_responses) i,
    );
    others = λ j hj other. (
      r.bit j hj ∙ rw (other) refl,
      rw (r.messages) refl,
      rw (r.slot_state) refl,
      rw (r.pending_requests) refl,
      rw (r.pending_responses) refl,
    );
    requests = rw (r.pending_requests) w.requests;
    responses = rw (r.pending_responses) w.responses;
  }

  pub release_msg_slot-Moved :
      (s : State p) (k : ℕ)
      → WellFormed s
      → k < p.messages
      → InPhase s k allocated
      → Moved s (release_msg_slot s k) k available
  release_msg_slot-Moved s k w h ph =
      Released-Moved s (release_msg_slot s k) k w h ph.1 ph.2 ph.3 ph.4
        (release_msg_slot-Released s k h)
