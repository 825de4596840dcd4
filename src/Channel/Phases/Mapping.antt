-- ===== src/Channel/Phases/Mapping.antt =====
-- Loops that change the wakers of slots: `deregister_wakers`, and the registration of wakers in
-- `wait_for_response` (dot15d4-util/src/sync/channel/sender.rs).
use dot15d.Base.{
  ℕ, ◌<◌, ◌≡◌, true, false, List, [], ◌∷◌, none, some, contains, ◌==◌, ltb, Bool-cases, inl, inr,
  arith, refl, ap, ◌∙◌, if◌then◌else◌, returns, All,
}
use dot15d.Channel.{
  Params, SlotState, unused, request_awaiting_response, request_polling_response,
  request_no_response, response_available, State, update,
}
use dot15d.Channel.Sender.{without_waker, with_waker, map_slot_states}
use dot15d.Channel.Phases.{Phase, stage, InPhase, WellFormed}

module _ {p : Params} where
  -- The states of the given slots have been mapped, and nothing else has changed.
  pub record Mapped (f : SlotState → SlotState) (slots : List ℕ) (s s' : State p) : Type 0 where
    pub slot_state :
        (j : ℕ)
        → s'.slot_state j ≡ (if contains slots j then f (s.slot_state j) else s.slot_state j)
    pub messages : s'.messages ≡ s.messages
    pub msg_available : s'.msg_available ≡ s.msg_available
    pub pending_requests : s'.pending_requests ≡ s.pending_requests
    pub pending_responses : s'.pending_responses ≡ s.pending_responses
    pub backlog : s'.backlog ≡ s.backlog
    pub woken : s'.woken ≡ s.woken

  Mapped-cons :
      (f : SlotState → SlotState) (k : ℕ) (slots : List ℕ) (s s' : State p)
      → ((st : SlotState) → f (f st) ≡ f st)
      → Mapped f slots (record s { slot_state = update s.slot_state k (f (s.slot_state k)) }) s'
      → Mapped f (k ∷ slots) s s'
  Mapped-cons f k slots s s' idem m = record {
    slot_state = λ j. m.slot_state j ∙ later j;
    messages = m.messages;
    msg_available = m.msg_available;
    pending_requests = m.pending_requests;
    pending_responses = m.pending_responses;
    backlog = m.backlog;
    woken = m.woken;
  }
    where
      later :
          (j : ℕ)
          → (if contains slots j
              then f (update s.slot_state k (f (s.slot_state k)) j)
              else update s.slot_state k (f (s.slot_state k)) j)
            ≡ (if contains (k ∷ slots) j then f (s.slot_state j) else s.slot_state j)
      later j = elim (Bool-cases (j == k)) [
        | inl e ↦
            let flipped : (k == j) ≡ true = ground arith in
            let same : k ≡ j = ground arith in
            let moved = ap (λ (i : ℕ). f (s.slot_state i)) same in
            elim (Bool-cases (contains slots j)) [
              | inl c ↦ rw (c, e, flipped) (idem (s.slot_state k) ∙ moved)
              | inr c ↦ rw (c, e, flipped) moved
            ]
        | inr e ↦ let flipped : (k == j) ≡ false = ground arith in rw (e, flipped) refl
      ]

  pub map_slot_states-Mapped :
      (f : SlotState → SlotState) (s : State p) (slots : List ℕ)
      → ((st : SlotState) → f (f st) ≡ f st)
      → All (λ k. k < p.messages) slots
      → (s' : State p) × (map_slot_states f s slots ≡ returns s') × Mapped f slots s s'
  map_slot_states-Mapped f s [] idem h = (
    s,
    refl,
    record {
      slot_state = λ j. refl;
      messages = refl;
      msg_available = refl;
      pending_requests = refl;
      pending_responses = refl;
      backlog = refl;
      woken = refl;
    },
  )
  map_slot_states-Mapped f s (k ∷ slots) idem h =
      let in_range : ltb k p.messages ≡ true = ground (arith, h.0) in
      let s₁ = record s { slot_state = update s.slot_state k (f (s.slot_state k)) } in
      let rest = map_slot_states-Mapped f s₁ slots idem h.1 in
      rw (in_range) (rest.0, rest.1, Mapped-cons f k slots s rest.0 idem rest.2)

  -- A mapping that keeps the stage keeps the phases.
  pub Mapped-InPhase :
      (f : SlotState → SlotState) (slots : List ℕ) (s s' : State p) (k : ℕ) (ph : Phase)
      → ((st : SlotState) → stage (f st) ≡ stage st)
      → Mapped f slots s s'
      → InPhase s k ph
      → InPhase s' k ph
  Mapped-InPhase f slots s s' k ph keeps m h = (
    rw (m.msg_available) h.0,
    rw (m.messages) h.1,
    ap stage (m.slot_state k) ∙ kept ∙ h.2,
    rw (m.pending_requests) h.3,
    rw (m.pending_responses) h.4,
  )
    where
      kept :
          stage (if contains slots k then f (s.slot_state k) else s.slot_state k)
          ≡ stage (s.slot_state k)
      kept = elim (Bool-cases (contains slots k)) [
        | inl c ↦ rw (c) (keeps (s.slot_state k))
        | inr c ↦ rw (c) refl
      ]

  pub Mapped-WellFormed :
      (f : SlotState → SlotState) (slots : List ℕ) (s s' : State p)
      → ((st : SlotState) → stage (f st) ≡ stage st)
      → Mapped f slots s s'
      → WellFormed s
      → WellFormed s'
  Mapped-WellFormed f slots s s' keeps m w = record {
    few = w.few;
    phase = λ k h. let ph = w.phase k h in (ph.0, Mapped-InPhase f slots s s' k ph.0 keeps m ph.1);
    requests = rw (m.pending_requests) w.requests;
    responses = rw (m.pending_responses) w.responses;
  }

pub without_waker-idempotent :
    (st : SlotState) → without_waker (without_waker st) ≡ without_waker st
without_waker-idempotent unused = refl
without_waker-idempotent (request_awaiting_response w) = refl
without_waker-idempotent (request_polling_response w) = refl
without_waker-idempotent request_no_response = refl
without_waker-idempotent response_available = refl

pub stage-without_waker : (st : SlotState) → stage (without_waker st) ≡ stage st
stage-without_waker unused = refl
stage-without_waker (request_awaiting_response w) = refl
stage-without_waker (request_polling_response w) = refl
stage-without_waker request_no_response = refl
stage-without_waker response_available = refl

pub with_waker-idempotent :
    (waker : ℕ) (st : SlotState) → with_waker waker (with_waker waker st) ≡ with_waker waker st
with_waker-idempotent waker unused = refl
with_waker-idempotent waker (request_awaiting_response w) = refl
with_waker-idempotent waker (request_polling_response none) = refl
with_waker-idempotent waker (request_polling_response (some w)) = refl
with_waker-idempotent waker request_no_response = refl
with_waker-idempotent waker response_available = refl

pub stage-with_waker : (waker : ℕ) (st : SlotState) → stage (with_waker waker st) ≡ stage st
stage-with_waker waker unused = refl
stage-with_waker waker (request_awaiting_response w) = refl
stage-with_waker waker (request_polling_response none) = refl
stage-with_waker waker (request_polling_response (some w)) = refl
stage-with_waker waker request_no_response = refl
stage-with_waker waker response_available = refl
