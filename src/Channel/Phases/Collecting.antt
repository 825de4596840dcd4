-- ===== src/Channel/Phases/Collecting.antt =====
-- A sender that awaits its response: `try_get_response` in dot15d4-util/src/sync/channel/state.rs
-- and the poll function of `send_request_awaiting_response` in sender.rs.
use dot15d.Base.{
  ℕ, ◌<◌, ◌≡◌, Bool, true, false, Option, none, some, ◌==◌, ltb, arith, refl, sym, ap, ◌∙◌,
  if◌then◌else◌, returns,
}
use dot15d.Channel.{
  Params, Message, request, response, SlotState, unused, request_awaiting_response,
  request_polling_response, request_no_response, response_available, State, waiting_of, update,
}
use dot15d.Channel.Slots.{release_msg_slot, free_slot, try_get_response}
use dot15d.Channel.Sender.{poll_awaited_response}
use dot15d.Channel.Phases.{
  dropping, polling, stage_in, allocated, awaiting, Phase, available, pending, receiving,
  answered_polling, answered_awaiting, contents, a_response, stage, at_response, with_mode,
  is_available, InPhase, WellFormed, Moved,
}
use dot15d.Channel.Phases.Moving.{update-same, update-other}
use dot15d.Channel.Phases.Answering.{stage-awaiting}
use dot15d.Channel.Phases.Allocation.{WakesLast, release_msg_slot-Released}

pub contents-a_response :
    {p : Params} (message : Option (Message p))
    → contents message ≡ a_response
    → (resp : p.Response) × (message ≡ some (response resp))
contents-a_response none h = absurd (grind arith)
contents-a_response (some (response resp)) h = (resp, refl)
contents-a_response (some (request req)) h = absurd (grind arith)

pub stage-at_response : (st : SlotState) → stage st ≡ at_response → st ≡ response_available
stage-at_response response_available h = refl
stage-at_response unused h = absurd (grind arith)
stage-at_response (request_awaiting_response w) h = absurd (grind arith)
stage-at_response (request_polling_response w) h = absurd (grind arith)
stage-at_response request_no_response h = absurd (grind arith)

-- The phases of a slot whose response is awaited.
abbrev pub is_awaited : Phase → Bool
is_awaited (pending awaiting) = true
is_awaited (receiving awaiting) = true
is_awaited answered_awaiting = true
is_awaited _ = false

module _ {p : Params} where
  -- What taking a response out of its slot leaves.
  pub record Freed (s s' : State p) (k : ℕ) : Type 0 where
    pub messages : s'.messages ≡ update s.messages k none
    pub slot_state : s'.slot_state ≡ update s.slot_state k unused
    pub bit :
        (j : ℕ) → j < p.messages → is_available s' j ≡ (if j == k then true else is_available s j)
    pub pending_requests : s'.pending_requests ≡ s.pending_requests
    pub pending_responses : s'.pending_responses ≡ s.pending_responses
    pub oldest : WakesLast (waiting_of s) s.woken (waiting_of s') s'.woken

  pub free_slot-Freed :
      (s : State p) (k : ℕ) (resp : p.Response)
      → k < p.messages
      → s.messages k ≡ some (response resp)
      → (s' : State p) × (free_slot s k ≡ returns (s', resp)) × Freed s s' k
  free_slot-Freed s k resp h e =
      let s₁ = record s { slot_state = update s.slot_state k unused } in
      let s₂ = release_msg_slot s₁ k in
      let r = release_msg_slot-Released s₁ k h in
      let in_range : ltb k p.messages ≡ true = ground arith in
      let held : s₂.messages k ≡ some (response resp) =
        ap (λ (f : ℕ → Option (Message p)). f k) r.messages ∙ e in
      rw (in_range, held)
        (
          record s₂ { messages = update s₂.messages k none },
          refl,
          record {
            messages = ap (λ (f : ℕ → Option (Message p)). update f k none) r.messages;
            slot_state = r.slot_state;
            bit = r.bit;
            pending_requests = r.pending_requests;
            pending_responses = r.pending_responses;
            oldest = r.oldest;
          },
        )

  Freed-Moved :
      (s s' : State p) (k : ℕ)
      → WellFormed s
      → k < p.messages
      → InPhase s k answered_awaiting
      → Freed s s' k
      → Moved s s' k available
  Freed-Moved s s' k w h ph f = record {
    moved = (
      f.bit k h ∙ ground arith,
      rw (f.messages, update-same s.messages k none) refl,
      rw (f.slot_state, update-same s.slot_state k unused) refl,
      rw (f.pending_requests) ph.3,
      rw (f.pending_responses) ph.4,
    );
    others = λ j hj other. (
      f.bit j hj ∙ rw (other) refl,
      rw (f.messages) (update-other s.messages k j none other),
      rw (f.slot_state) (update-other s.slot_state k j unused other),
      rw (f.pending_requests) refl,
      rw (f.pending_responses) refl,
    );
    requests = rw (f.pending_requests) w.requests;
    responses = rw (f.pending_responses) w.responses;
  }

  -- What a poll for an awaited response answers in each phase: the response, once it is there, and
  -- until then the waker of the polling task is kept in the slot.
  abbrev pub Awaits : Phase → State p → ℕ → ℕ → Type 0
  Awaits answered_awaiting s k waker =
      (s' : State p) × (resp : p.Response) × (poll_awaited_response s k waker
        ≡ returns (s', some resp))
      × (s.messages k ≡ some (response resp))
      × Moved s s' k available
      × WakesLast (waiting_of s) s.woken (waiting_of s') s'.woken
  Awaits ph s k waker =
      (s' : State p) × (poll_awaited_response s k waker ≡ returns (s', none))
      × (s'.slot_state k ≡ request_awaiting_response waker)
      × Moved s s' k ph

  abbrev stored : State p → ℕ → ℕ → State p
  stored s k waker = record s {
    slot_state = update s.slot_state k (request_awaiting_response waker);
  }

  stored-Moved :
      (s : State p) (k waker : ℕ) (ph : Phase)
      → WellFormed s
      → InPhase s k ph
      → stage_in ph ≡ with_mode awaiting
      → Moved s (stored s k waker) k ph
  stored-Moved s k waker ph w h e = record {
    moved = (
      h.0,
      h.1,
      ap stage (update-same s.slot_state k (request_awaiting_response waker)) ∙ sym e,
      h.3,
      h.4,
    );
    others = λ j hj other. (
      refl,
      refl,
      update-other s.slot_state k j (request_awaiting_response waker) other,
      refl,
      refl,
    );
    requests = w.requests;
    responses = w.responses;
  }

  poll_awaited_response-stored :
      (s : State p) (k waker : ℕ)
      → k < p.messages
      → stage (s.slot_state k) ≡ with_mode awaiting
      → poll_awaited_response s k waker ≡ returns (stored s k waker, none)
  unfolding poll_awaited_response try_get_response
  poll_awaited_response-stored s k waker h e =
      let in_range : ltb k p.messages ≡ true = ground arith in
      rw (in_range, (stage-awaiting (s.slot_state k) e).1, in_range) refl

  -- A poll for an awaited response does not panic in any phase from pending on: once the
  -- response is there it is answered, the slot becomes available and the oldest task of the
  -- backlog is woken; before, the slot keeps the waker of this poll and its phase.
  pub poll_awaited_response-Awaits :
      (ph : Phase) (s : State p) (k waker : ℕ)
      → WellFormed s
      → k < p.messages
      → InPhase s k ph
      → is_awaited ph ≡ true
      → Awaits ph s k waker
  unfolding poll_awaited_response try_get_response
  poll_awaited_response-Awaits answered_awaiting s k waker w h ph a =
      let in_range : ltb k p.messages ≡ true = ground arith in
      let held = contents-a_response (s.messages k) ph.1 in
      let freed = free_slot-Freed s k held.0 h held.1 in
      rw (in_range, stage-at_response (s.slot_state k) ph.2, freed.1)
        (freed.0, held.0, refl, held.1, Freed-Moved s freed.0 k w h ph freed.2, freed.2.oldest)
  poll_awaited_response-Awaits (pending awaiting) s k waker w h ph a = (
    stored s k waker,
    poll_awaited_response-stored s k waker h ph.2,
    update-same s.slot_state k (request_awaiting_response waker),
    stored-Moved s k waker (pending awaiting) w ph refl,
  )
  poll_awaited_response-Awaits (receiving awaiting) s k waker w h ph a = (
    stored s k waker,
    poll_awaited_response-stored s k waker h ph.2,
    update-same s.slot_state k (request_awaiting_response waker),
    stored-Moved s k waker (receiving awaiting) w ph refl,
  )
  poll_awaited_response-Awaits available s k waker w h ph a = absurd (grind arith)
  poll_awaited_response-Awaits allocated s k waker w h ph a = absurd (grind arith)
  poll_awaited_response-Awaits (pending dropping) s k waker w h ph a = absurd (grind arith)
  poll_awaited_response-Awaits (pending polling) s k waker w h ph a = absurd (grind arith)
  poll_awaited_response-Awaits (receiving dropping) s k waker w h ph a = absurd (grind arith)
  poll_awaited_response-Awaits (receiving polling) s k waker w h ph a = absurd (grind arith)
  poll_awaited_response-Awaits answered_polling s k waker w h ph a = absurd (grind arith)
