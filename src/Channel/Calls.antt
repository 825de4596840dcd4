-- ===== src/Channel/Calls.antt =====
-- The calls on a channel, each allowed to who holds the token it takes: the methods of `Sender` and
-- `Receiver` (dot15d4-util/src/sync/channel/sender.rs and receiver.rs).
pub mod Outcomes
pub mod Survival
use dot15d.Base.{
  ℕ, ◌<◌, ◌≤◌, ◌≡◌, ◌⊎◌, inl, inr, Bool, true, false, List, [], ◌∷◌, Option, none, some, length,
  ltb, subst, arith, refl, sym, ap, ◌∙◌, if◌then◌else◌, Outcome, returns, panics, ◌>>=◌, All,
}
use dot15d.Containers.{TokenVec}
use dot15d.Channel.{Params, State, requests_of, responses_of, waiting_of, new, at, put, update}
use dot15d.Channel.Slots.{
  allocate_msg_slot, release_msg_slot, try_receive, allocate_cons_slot, allocate_cons_found,
  release_cons_slot,
}
use dot15d.Channel.Sender.{
  MatchingResponse, poll_allocate_request_token, try_allocate_request_token, release_request_token,
  send_request_no_response, send_request_polling_response, send_request_awaiting_response,
  poll_awaited_response, wait_for_response, try_receive_response, deregister_wakers, without_waker,
  map_slot_states,
}
use dot15d.Channel.Receiver.{
  try_allocate_consumer_token, release_consumer_token, fill_entry, receive_or_wait,
  poll_wait_for_request, cancel_wait_for_request, try_receive_request, received,
}
use dot15d.Channel.Phases.{
  Mode, dropping, polling, awaiting, Phase, available, allocated, pending, receiving,
  answered_polling, answered_awaiting, is_available, InPhase, WellFormed, Moved,
}
use dot15d.Channel.Phases.Moving.{Moved-WellFormed}
use dot15d.Channel.Phases.Allocation.{
  IsFresh, new-IsFresh, Allocates, allocate_msg_slot-Allocates, release_msg_slot-Moved,
}
use dot15d.Channel.Phases.Sending.{SendsInto, SendsInto-Moved}
use dot15d.Channel.Phases.Receiving.{Receives, try_receive-Receives}
use dot15d.Channel.Phases.Answering.{answered, received-Answered}
use dot15d.Channel.Phases.Collecting.{is_awaited, Awaits, poll_awaited_response-Awaits}
use dot15d.Channel.Phases.Mapping.{
  Mapped, map_slot_states-Mapped, Mapped-WellFormed, without_waker-idempotent, stage-without_waker,
}
use dot15d.Channel.Phases.Waiting.{
  Waits, wait_for_response-Waits, Collects, MatchesToken, try_receive_response-Collects,
}

pub data Call (p : Params) (api : TokenVec) : Type 0 where
  allocate_request : Call p api
  allocate_waiting : ℕ → Call p api
  release_request : ℕ → Call p api
  send_request : Mode → ℕ → p.Request → ℕ → Call p api
  await_response : ℕ → ℕ → Call p api
  collect_response : api.Vec → Call p api
  wait_response : api.Vec → ℕ → Call p api
  cancel_wait_response : api.Vec → Call p api
  allocate_consumer : Call p api
  release_consumer : ℕ → Call p api
  receive_request : p.Address → Call p api
  wait_request : ℕ → ℕ → p.Address → Call p api
  cancel_wait_request : ℕ → Call p api
  answer_request : ℕ → p.Response → Call p api

abbrev pub state_of : {A B : Type 0} → Outcome (A × B) → Outcome A
state_of o = o >>= λ pair. returns pair.0

abbrev pub state_of_wait : {A B C : Type 0} → Outcome (A × B × C) → Outcome A
state_of_wait o = o >>= λ triple. returns triple.0

-- The call returns, and what it leaves is well-formed.
abbrev pub Survives : {p : Params} → Outcome (State p) → Type 0
Survives {p} o = (s' : State p) × (o ≡ returns s') × WellFormed s'

module _ {p : Params} {api : TokenVec} where
  -- The state that a call leaves.
  abbrev pub run : State p → Call p api → Outcome (State p)
  run s allocate_request = state_of (try_allocate_request_token s)
  run s (allocate_waiting waker) = state_of (poll_allocate_request_token s waker)
  run s (release_request k) = returns (release_request_token s k)
  run s (send_request dropping k req waker) = send_request_no_response s k req
  run s (send_request polling k req waker) = state_of (send_request_polling_response s k req)
  run s (send_request awaiting k req waker) =
      state_of (send_request_awaiting_response s k req waker)
  run s (await_response k waker) = state_of (poll_awaited_response s k waker)
  run s (collect_response tokens) = state_of_wait (try_receive_response api s tokens)
  run s (wait_response tokens waker) = state_of_wait (wait_for_response api s tokens waker)
  run s (cancel_wait_response tokens) = deregister_wakers s (api.to_list tokens)
  run s allocate_consumer = returns (try_allocate_consumer_token s).0
  run s (release_consumer c) = returns (release_consumer_token s c)
  run s (receive_request address) = state_of (try_receive_request s address)
  run s (wait_request waker c address) = state_of (poll_wait_for_request s waker c address)
  run s (cancel_wait_request c) = cancel_wait_for_request s c
  run s (answer_request k resp) = received s k resp

  -- What the tokens and the size of the backlog grant.
  abbrev pub Permits : State p → Call p api → Type 0
  Permits s (allocate_waiting waker) = length (waiting_of s) < p.backlog
  Permits s (release_request k) = (k < p.messages) × InPhase s k allocated
  Permits s (send_request m k req waker) = (k < p.messages) × InPhase s k allocated
  Permits s (await_response k waker) =
      (k < p.messages) × ((ph : Phase) × InPhase s k ph × (is_awaited ph ≡ true))
  Permits s (wait_response tokens waker) = All (λ k. k < p.messages) (api.to_list tokens)
  Permits s (cancel_wait_response tokens) = All (λ k. k < p.messages) (api.to_list tokens)
  Permits s (wait_request waker c address) = c < p.consumers
  Permits s (cancel_wait_request c) = c < p.consumers
  Permits s (answer_request k resp) = (k < p.messages) × ((m : Mode) × InPhase s k (receiving m))
  Permits s _ = Unit
