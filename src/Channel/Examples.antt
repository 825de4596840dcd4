-- ===== src/Channel/Examples.antt =====
-- The theorems on the channel at concrete inputs: two slots for messages, one place in the backlog,
-- two consumers; a request is for the address that equals it.
use dot15d.Base.{
  ℕ, zero, suc, ◌<◌, ◌≡◌, false, List, [], ◌∷◌, none, some, ◌==◌, if◌then◌else◌, arith, refl,
  returns,
}
use dot15d.Containers.Listed.{listed_deque, function_bitmap, listed_tokens}
use dot15d.Channel.{
  Params, request, response, unused, request_awaiting_response, request_polling_response,
  request_no_response, response_available, State, requests_of, responses_of, new,
}
use dot15d.Channel.Removal.{remove, shift, get_slot, set_slot}
use dot15d.Channel.Slots.{allocate_msg_slot, send, try_receive}
use dot15d.Channel.Sender.{
  send_request_polling_response, wait_for_response, try_allocate_request_token,
}
use dot15d.Channel.Receiver.{received, try_receive_request}
use dot15d.Channel.Phases.{
  dropping, polling, awaiting, Phase, available, allocated, pending, receiving, answered_polling,
  answered_awaiting, InPhase, WellFormed, Moved, IsQueue,
}
use dot15d.Channel.Phases.Allocation.{Allocates, allocate_msg_slot-Allocates}
use dot15d.Channel.Phases.Notification.{Notifies}
use dot15d.Channel.Phases.Sending.{SendsInto, SendsInto-Moved}
use dot15d.Channel.Phases.Receiving.{Receives, try_receive-Receives}
use dot15d.Channel.Phases.Answering.{Answered, received-Answered}
use dot15d.Channel.Phases.Collecting.{Awaits, poll_awaited_response-Awaits}
use dot15d.Channel.Phases.Waiting.{Waits, wait_for_response-Waits}
use dot15d.Channel.Phases.Others.{LeavesOthers, wait_for_response-LeavesOthers}
use dot15d.Channel.Calls.{
  Call, allocate_request, send_request, receive_request, answer_request, collect_response, Survives,
}
use dot15d.Channel.Calls.Survival.{run_all, History, run_all-new-Survives}

abbrev two_slots : Params
two_slots = record {
  Address = ℕ;
  Request = ℕ;
  Response = ℕ;
  matches = λ r a. r == a;
  messages = 2;
  backlog = 1;
  consumers = 2;
  slot_deque = listed_deque ℕ 2;
  waker_deque = listed_deque ℕ 1;
  msg_bitmap = function_bitmap 2;
  cons_bitmap = function_bitmap 2;
}

-- Slot 0 is allocated; a consumer listens for 5 and its task is 3; the task 8 waits for a slot.
abbrev slot_allocated : State two_slots
slot_allocated = record {
  messages = λ i. none;
  pending_requests = [];
  pending_responses = [];
  msg_available = λ i. i == 1;
  cons_available = λ i. i == 1;
  slot_state = λ i. unused;
  consumers = λ i. if i == 0 then some (5, 3) else none;
  backlog = 8 ∷ [];
  woken = [];
}

-- Both slots have a pending request: 5 is dropped, 7 polled for.
abbrev both_pending : State two_slots
both_pending = record slot_allocated {
  messages = λ i. if i == 0 then some (request 5) else some (request 7);
  pending_requests = 0 ∷ 1 ∷ [];
  msg_available = λ i. false;
  slot_state = λ i. if i == 0 then request_no_response else request_polling_response none;
}

-- The request of slot 0 is being received, and task 9 awaits the response.
abbrev being_received : State two_slots
being_received = record slot_allocated {
  slot_state = λ i. if i == 0 then request_awaiting_response 9 else unused;
}

-- The response to task 9 is there.
abbrev awaited_answered : State two_slots
awaited_answered = record slot_allocated {
  messages = λ i. if i == 0 then some (response 6) else none;
  slot_state = λ i. if i == 0 then response_available else unused;
}

-- Slot 0 has its response; the request of slot 1 is being received, with the waker of task 4.
abbrev one_answered : State two_slots
one_answered = record slot_allocated {
  messages = λ i. if i == 0 then some (response 6) else none;
  pending_responses = 0 ∷ [];
  msg_available = λ i. false;
  slot_state = λ i. if i == 0 then response_available else request_polling_response (some 4);
}

-- A state with two slots, from the phase of each.
from_phases :
    (s : State two_slots) (ph₀ ph₁ : Phase)
    → InPhase s 0 ph₀
    → InPhase s 1 ph₁
    → IsQueue 2 (requests_of s)
    → IsQueue 2 (responses_of s)
    → WellFormed s
from_phases s ph₀ ph₁ h₀ h₁ q r = record {
  few = omega arith;
  phase = phase_of;
  requests = q;
  responses = r;
}
  where
    phase_of : (k : ℕ) → k < 2 → (ph : Phase) × InPhase s k ph
    phase_of zero h = (ph₀, h₀)
    phase_of (suc zero) h = (ph₁, h₁)
    phase_of (suc (suc k)) h = absurd (omega arith)

empty : IsQueue 2 []
empty = (tt, λ j c. absurd (grind arith))

only_first : IsQueue 2 (0 ∷ [])
only_first = ((refl, tt), λ j c. ground arith)

slot_allocated-WellFormed : WellFormed slot_allocated
slot_allocated-WellFormed =
    from_phases slot_allocated allocated available (refl, refl, refl, refl, refl)
      (refl, refl, refl, refl, refl) empty empty

both_pending-WellFormed : WellFormed both_pending
both_pending-WellFormed =
    from_phases both_pending (pending dropping) (pending polling) (refl, refl, refl, refl, refl)
      (refl, refl, refl, refl, refl) ((refl, (refl, tt)), λ j c. ground arith) empty

being_received-WellFormed : WellFormed being_received
being_received-WellFormed =
    from_phases being_received (receiving awaiting) available (refl, refl, refl, refl, refl)
      (refl, refl, refl, refl, refl) empty empty

awaited_answered-WellFormed : WellFormed awaited_answered
awaited_answered-WellFormed =
    from_phases awaited_answered answered_awaiting available (refl, refl, refl, refl, refl)
      (refl, refl, refl, refl, refl) empty empty

one_answered-WellFormed : WellFormed one_answered
one_answered-WellFormed =
    from_phases one_answered answered_polling (receiving polling) (refl, refl, refl, refl, refl)
      (refl, refl, refl, refl, refl) empty only_first

allocate_msg_slot-Allocates_example :
    Allocates slot_allocated none (allocate_msg_slot slot_allocated none)
allocate_msg_slot-Allocates_example =
    allocate_msg_slot-Allocates slot_allocated none slot_allocated-WellFormed

SendsInto-Moved_example :
    (s' : State two_slots) × SendsInto awaiting slot_allocated 0 5 9 s'
    × Moved slot_allocated s' 0 (pending awaiting)
    × (requests_of s' ≡ 0 ∷ [])
    × (s'.messages 0 ≡ some (request 5))
    × ((s₁ : State two_slots) × Notifies two_slots 5 0 2 slot_allocated s₁
        × (s'.consumers ≡ s₁.consumers)
        × (s'.woken ≡ s₁.woken))
SendsInto-Moved_example =
    SendsInto-Moved awaiting slot_allocated 0 5 9 slot_allocated-WellFormed (omega arith)
      (refl, refl, refl, refl, refl)

try_receive-Receives_example : Receives both_pending 7 (try_receive both_pending 7)
try_receive-Receives_example = try_receive-Receives both_pending 7 both_pending-WellFormed

received-Answered_example :
    (s' : State two_slots) × (received being_received 0 6 ≡ returns s')
    × Moved being_received s' 0 answered_awaiting
    × Answered awaiting being_received s' 0 6
received-Answered_example =
    received-Answered awaiting being_received 0 6 being_received-WellFormed (omega arith)
      (refl, refl, refl, refl, refl)

poll_awaited_response-Awaits_example : Awaits answered_awaiting awaited_answered 0 9
poll_awaited_response-Awaits_example =
    poll_awaited_response-Awaits answered_awaiting awaited_answered 0 9 awaited_answered-WellFormed
      (omega arith) (refl, refl, refl, refl, refl) refl

wait_for_response-Waits_example :
    Waits listed_tokens one_answered
      (1 ∷ [])
      4
      (wait_for_response listed_tokens one_answered (1 ∷ []) 4)
wait_for_response-Waits_example =
    wait_for_response-Waits listed_tokens one_answered (1 ∷ []) 4 one_answered-WellFormed
      (omega arith, tt)

wait_for_response-LeavesOthers_example :
    LeavesOthers listed_tokens one_answered 0
      (wait_for_response listed_tokens one_answered (0 ∷ 1 ∷ []) 4)
wait_for_response-LeavesOthers_example =
    wait_for_response-LeavesOthers listed_tokens one_answered (0 ∷ 1 ∷ []) 4 0 (1 ∷ []) []
      one_answered-WellFormed refl refl

-- A request that is sent, received, answered and collected.
abbrev exchange : List (Call two_slots listed_tokens)
exchange =
    allocate_request
    ∷ send_request polling 0 5 0
    ∷ receive_request 5
    ∷ answer_request 0 6
    ∷ collect_response (0 ∷ [])
    ∷ []

exchange-History : History (new two_slots) exchange
unfolding new try_allocate_request_token allocate_msg_slot send_request_polling_response send
    try_receive_request try_receive remove shift get_slot set_slot received
exchange-History = (
  tt,
  (
    (omega arith, (refl, refl, refl, refl, refl)),
    (tt, ((omega arith, (polling, (refl, refl, refl, refl, refl))), (tt, tt))),
  ),
)

run_all-new-Survives_example : Survives (run_all (new two_slots) exchange)
run_all-new-Survives_example = run_all-new-Survives exchange (omega arith) exchange-History
