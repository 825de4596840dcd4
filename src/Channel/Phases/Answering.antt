-- ===== src/Channel/Phases/Answering.antt =====
-- The receiver's answer: `Receiver::received` in dot15d4-util/src/sync/channel/receiver.rs.
use dot15d.Base.{
  ℕ, ◌<◌, ◌≡◌, true, List, [], ◌∷◌, ◌++◌, Option, none, some, append_nil, ltb, arith, refl, sym, ap,
  returns,
}
use dot15d.Containers.{Pushes}
use dot15d.Channel.{
  Params, response, SlotState, unused, request_awaiting_response, request_polling_response,
  request_no_response, response_available, State, responses_of, waiting_of, update,
}
use dot15d.Channel.Slots.{release_msg_slot}
use dot15d.Channel.Receiver.{deliver, pushed_response, received}
use dot15d.Channel.Phases.{
  Mode, dropping, polling, awaiting, Phase, available, allocated, receiving, answered_polling,
  answered_awaiting, stage, with_mode, InPhase, WellFormed, Moved,
}
use dot15d.Channel.Phases.Moving.{
  update-same, update-other, contains-append_same, contains-append_other, IsQueue-append,
  length-IsQueue, Moved-WellFormed, Moved-trans,
}
use dot15d.Channel.Phases.Allocation.{WakesLast, release_msg_slot-Released, release_msg_slot-Moved}

abbrev wakers_in : Option ℕ → List ℕ
wakers_in none = []
wakers_in (some waker) = waker ∷ []

-- The waker that a slot's state holds.
abbrev pub wakers_of : SlotState → List ℕ
wakers_of (request_awaiting_response waker) = waker ∷ []
wakers_of (request_polling_response waker) = wakers_in waker
wakers_of unused = []
wakers_of request_no_response = []
wakers_of response_available = []

abbrev pub answered : Mode → Phase
answered dropping = available
answered polling = answered_polling
answered awaiting = answered_awaiting

-- What is left by an answer, for each mode of the request: a response that nobody wants frees the
-- slot, another is in the slot, and who waits for it is woken.
abbrev pub Answered : {p : Params} → Mode → State p → State p → ℕ → p.Response → Type 0
Answered dropping s s' k resp = WakesLast (waiting_of s) s.woken (waiting_of s') s'.woken
Answered polling s s' k resp =
    (s'.messages k ≡ some (response resp))
    × (responses_of s' ≡ responses_of s ++ (k ∷ []))
    × (s'.woken ≡ s.woken ++ wakers_of (s.slot_state k))
Answered awaiting s s' k resp =
    (s'.messages k ≡ some (response resp))
    × (s'.pending_responses ≡ s.pending_responses)
    × (s'.woken ≡ s.woken ++ wakers_of (s.slot_state k))

-- A slot state by its stage.
stage-dropping : (st : SlotState) → stage st ≡ with_mode dropping → st ≡ request_no_response
stage-dropping request_no_response h = refl
stage-dropping unused h = absurd (grind arith)
stage-dropping (request_awaiting_response w) h = absurd (grind arith)
stage-dropping (request_polling_response w) h = absurd (grind arith)
stage-dropping response_available h = absurd (grind arith)

pub stage-polling :
    (st : SlotState)
    → stage st ≡ with_mode polling
    → (w : Option ℕ) × (st ≡ request_polling_response w)
stage-polling (request_polling_response w) h = (w, refl)
stage-polling unused h = absurd (grind arith)
stage-polling (request_awaiting_response w) h = absurd (grind arith)
stage-polling request_no_response h = absurd (grind arith)
stage-polling response_available h = absurd (grind arith)

pub stage-awaiting :
    (st : SlotState) → stage st ≡ with_mode awaiting → (w : ℕ) × (st ≡ request_awaiting_response w)
stage-awaiting (request_awaiting_response w) h = (w, refl)
stage-awaiting unused h = absurd (grind arith)
stage-awaiting (request_polling_response w) h = absurd (grind arith)
stage-awaiting request_no_response h = absurd (grind arith)
stage-awaiting response_available h = absurd (grind arith)

module _ {p : Params} where
  -- The answer to a request whose response is dropped.
  abbrev unused_at : State p → ℕ → State p
  unused_at s k = record s { slot_state = update s.slot_state k unused }

  unused_at-Moved :
      (s : State p) (k : ℕ)
      → WellFormed s
      → InPhase s k (receiving dropping)
      → Moved s (unused_at s k) k allocated
  unused_at-Moved s k w ph = record {
    moved = (ph.0, ph.1, ap stage (update-same s.slot_state k unused), ph.3, ph.4);
    others = λ j hj other. (refl, refl, update-other s.slot_state k j unused other, refl, refl);
    requests = w.requests;
    responses = w.responses;
  }

  received-dropping :
      (s : State p) (k : ℕ) (resp : p.Response)
      → WellFormed s
      → k < p.messages
      → InPhase s k (receiving dropping)
      → Moved s (release_msg_slot (unused_at s k) k) k available
  received-dropping s k resp w h ph =
      let m = unused_at-Moved s k w ph in
      Moved-trans s (unused_at s k) (release_msg_slot (unused_at s k) k) k allocated available m (
        release_msg_slot-Moved (unused_at s k) k
          (Moved-WellFormed s (unused_at s k) k allocated w m) h m.moved)

  -- What a delivery leaves: it changes the slot and wakes.
  record Delivery (s s' : State p) (k : ℕ) (resp : p.Response) (waker : Option ℕ) : Type 0 where
    messages : s'.messages ≡ update s.messages k (some (response resp))
    slot_state : s'.slot_state ≡ update s.slot_state k response_available
    msg_available : s'.msg_available ≡ s.msg_available
    pending_requests : s'.pending_requests ≡ s.pending_requests
    pending_responses : s'.pending_responses ≡ s.pending_responses
    woken : s'.woken ≡ s.woken ++ wakers_in waker

  deliver-Delivery :
      (s : State p) (k : ℕ) (resp : p.Response) (waker : Option ℕ)
      → Delivery s (deliver s k resp waker) k resp waker
  deliver-Delivery s k resp none = record {
    messages = refl;
    slot_state = refl;
    msg_available = refl;
    pending_requests = refl;
    pending_responses = refl;
    woken = sym (append_nil s.woken);
  }
  deliver-Delivery s k resp (some waker) = record {
    messages = refl;
    slot_state = refl;
    msg_available = refl;
    pending_requests = refl;
    pending_responses = refl;
    woken = refl;
  }

  received-awaiting :
      (s s' : State p) (k : ℕ) (resp : p.Response) (waker : Option ℕ)
      → WellFormed s
      → InPhase s k (receiving awaiting)
      → Delivery s s' k resp waker
      → Moved s s' k answered_awaiting
  received-awaiting s s' k resp waker w ph d = record {
    moved = (
      rw (d.msg_available) ph.0,
      rw (d.messages, update-same s.messages k (some (response resp))) refl,
      rw (d.slot_state, update-same s.slot_state k response_available) refl,
      rw (d.pending_requests) ph.3,
      rw (d.pending_responses) ph.4,
    );
    others = λ j hj other. (
      rw (d.msg_available) refl,
      rw (d.messages) (update-other s.messages k j (some (response resp)) other),
      rw (d.slot_state) (update-other s.slot_state k j response_available other),
      rw (d.pending_requests) refl,
      rw (d.pending_responses) refl,
    );
    requests = rw (d.pending_requests) w.requests;
    responses = rw (d.pending_responses) w.responses;
  }

  -- The same for a sender that polls: the slot joins the list of responses as well.
  received-polling :
      (s s' : State p) (k : ℕ) (resp : p.Response) (waker : Option ℕ)
      (o : Option p.slot_deque.Deque)
      → WellFormed s
      → k < p.messages
      → InPhase s k (receiving polling)
      → Delivery s s' k resp waker
      → Pushes p.messages p.slot_deque.to_list s.pending_responses k o
      → (t : State p) × (pushed_response s' o ≡ returns t)
        × Moved s t k answered_polling
        × (t.messages k ≡ some (response resp))
        × (responses_of t ≡ responses_of s ++ (k ∷ []))
        × (t.woken ≡ s.woken ++ wakers_in waker)
  received-polling s s' k resp waker none w h ph d full =
      let room = length-IsQueue p.messages (responses_of s) k w.responses ph.4 h in
      absurd (omega arith)
  received-polling s s' k resp waker (some responses) w h ph d pushed = (
    record s' { pending_responses = responses },
    refl,
    record {
      moved = (
        rw (d.msg_available) ph.0,
        rw (d.messages, update-same s.messages k (some (response resp))) refl,
        rw (d.slot_state, update-same s.slot_state k response_available) refl,
        rw (d.pending_requests) ph.3,
        rw (pushed.1) (contains-append_same (responses_of s) k),
      );
      others = λ j hj other. (
        rw (d.msg_available) refl,
        rw (d.messages) (update-other s.messages k j (some (response resp)) other),
        rw (d.slot_state) (update-other s.slot_state k j response_available other),
        rw (d.pending_requests) refl,
        rw (pushed.1) (contains-append_other (responses_of s) k j other),
      );
      requests = rw (d.pending_requests) w.requests;
      responses = rw (pushed.1) (IsQueue-append p.messages (responses_of s) k w.responses ph.4 h);
    },
    rw (d.messages) (update-same s.messages k (some (response resp))),
    pushed.1,
    d.woken,
  )

  -- Answering a request that is being received does not panic. A response nobody wants frees
  -- the slot and wakes the oldest task of the backlog. A response that is polled for, or
  -- awaited, is in the slot, the waker of the slot is woken, and only the one that is polled
  -- for is last in the queue of responses. No other slot changes.
  pub received-Answered :
      (m : Mode) (s : State p) (k : ℕ) (resp : p.Response)
      → WellFormed s
      → k < p.messages
      → InPhase s k (receiving m)
      → (s' : State p) × (received s k resp ≡ returns s')
        × Moved s s' k (answered m)
        × Answered m s s' k resp
  unfolding received
  received-Answered dropping s k resp w h ph =
      let in_range : ltb k p.messages ≡ true = ground arith in
      let state = stage-dropping (s.slot_state k) ph.2 in
      let s' = release_msg_slot (unused_at s k) k in
      rw (in_range, state)
        (
          s',
          refl,
          received-dropping s k resp w h ph,
          (release_msg_slot-Released (unused_at s k) k h).oldest,
        )
  received-Answered polling s k resp w h ph =
      let in_range : ltb k p.messages ≡ true = ground arith in
      let state = stage-polling (s.slot_state k) ph.2 in
      let r =
        received-polling s (deliver s k resp state.0) k resp state.0
          (p.slot_deque.push_back s.pending_responses k) w h ph (deliver-Delivery s k resp state.0)
          (p.slot_deque.push_back-Pushes s.pending_responses k) in
      rw (in_range, state.1, r.1) (r.0, refl, r.2, (r.3, r.4, r.5))
  received-Answered awaiting s k resp w h ph =
      let in_range : ltb k p.messages ≡ true = ground arith in
      let state = stage-awaiting (s.slot_state k) ph.2 in
      let s' = deliver s k resp (some state.0) in
      rw (in_range, state.1)
        (
          s',
          refl,
          received-awaiting s s' k resp (some state.0) w ph
              (deliver-Delivery s k resp (some state.0)),
          (update-same s.messages k (some (response resp)), refl, refl),
        )
