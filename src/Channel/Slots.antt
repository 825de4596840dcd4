-- ===== src/Channel/Slots.antt =====
-- The slots of the channel: the methods of `State` in dot15d4-util/src/sync/channel/state.rs. A
-- waker that is cloned out of a context is passed as the number of its task.
use dot15d.Base.{
  ℕ, zero, suc, ◌%◌, Bool, true, false, List, [], ◌∷◌, Option, none, some, ◌==◌, if◌then◌else◌,
  Outcome, returns, panics, ◌>>=◌,
}
use dot15d.Channel.{
  Params, Message, request, response, SlotState, unused, response_available, State, at, put, update,
  wake, requests_of, responses_of,
}
use dot15d.Channel.Removal.{remove}

-- The first of the given slots that equals the slot of the response, with its index.
abbrev pub find_slot : ℕ → List ℕ → ℕ → Option (ℕ × ℕ)
find_slot i [] msg_slot = none
find_slot i (x ∷ xs) msg_slot =
    let rest = find_slot (suc i) xs msg_slot in if msg_slot == x then some (i, x) else rest

abbrev pub listens : (p : Params) → p.Request → Option (p.Address × ℕ) → Bool
listens p req none = false
listens p req (some (address, _)) = p.matches req address

module _ {p : Params} where
  abbrev pub queued : State p → Option p.waker_deque.Deque → Outcome (State p × Option ℕ)
  queued s none = panics
  queued s (some backlog) = returns (record s { backlog = backlog }, none)

  -- What follows the search of the bit map: a waker queues up when no slot is available.
  abbrev pub allocate_found : State p → Option ℕ → Option ℕ → Outcome (State p × Option ℕ)
  allocate_found s waker (some msg_slot) = returns (
    record s { msg_available = p.msg_bitmap.set s.msg_available msg_slot false },
    some (msg_slot % 256),
  )
  allocate_found s none none = returns (s, none)
  allocate_found s (some waker) none = queued s (p.waker_deque.push_front s.backlog waker)

  unfoldable pub allocate_msg_slot : State p → Option ℕ → Outcome (State p × Option ℕ)
  allocate_msg_slot s waker = allocate_found s waker (p.msg_bitmap.first_index s.msg_available)

  abbrev pub wake_popped : State p → p.waker_deque.Deque × Option ℕ → State p
  wake_popped s (backlog, none) = record s { backlog = backlog }
  wake_popped s (backlog, some waker) = wake (record s { backlog = backlog }) waker

  unfoldable pub release_msg_slot : State p → ℕ → State p
  release_msg_slot s msg_slot =
      wake_popped (record s { msg_available = p.msg_bitmap.set s.msg_available msg_slot true })
        (p.waker_deque.pop_back s.backlog)

  abbrev pub allocate_cons_found : State p → Option ℕ → State p × Option ℕ
  allocate_cons_found s none = (s, none)
  allocate_cons_found s (some cons_slot) = (
    record s { cons_available = p.cons_bitmap.set s.cons_available cons_slot false },
    some (cons_slot % 256),
  )

  unfoldable pub allocate_cons_slot : State p → State p × Option ℕ
  allocate_cons_slot s = allocate_cons_found s (p.cons_bitmap.first_index s.cons_available)

  unfoldable pub release_cons_slot : State p → ℕ → State p
  release_cons_slot s cons_slot = record s {
    cons_available = p.cons_bitmap.set s.cons_available cons_slot true;
  }

  -- The loop of `send` over the consumers from a number on: the first that matches is woken and
  -- its entry cleared.
  abbrev pub wake_entry : State p → ℕ → Option (p.Address × ℕ) → State p
  wake_entry s i none = s
  wake_entry s i (some (_, waker)) = wake (record s { consumers = update s.consumers i none }) waker

  abbrev pub wake_consumer : State p → p.Request → ℕ → ℕ → State p
  wake_consumer s req i zero = s
  wake_consumer s req i (suc left) =
      let rest = wake_consumer s req (suc i) left in
      if listens p req (s.consumers i) then wake_entry s i (s.consumers i) else rest

  abbrev pub pushed_request : State p → Option p.slot_deque.Deque → Outcome (State p)
  pushed_request s none = panics
  pushed_request s (some requests) = returns (record s { pending_requests = requests })

  unfoldable pub send : State p → ℕ → p.Request → Outcome (State p)
  send s msg_slot req = do
    let woken = wake_consumer s req 0 p.consumers
    messages ← put p.messages woken.messages msg_slot (some (request req))
    pushed_request (record woken { messages = messages })
        (p.slot_deque.push_back woken.pending_requests msg_slot)

  -- The message taken out of the slot, and its request removed from the list.
  abbrev pub take_request : State p → ℕ → ℕ → p.Request → Outcome (State p × Option (ℕ × p.Request))
  take_request s i msg_slot req = do
    requests ← remove p.slot_deque s.pending_requests i
    returns (
      record s { messages = update s.messages msg_slot none; pending_requests = requests },
      some (msg_slot, req),
    )

  -- One round of the loop of `try_receive`; `next` is what the later rounds answer.
  abbrev pub receive_round :
      State p
      → p.Address
      → ℕ
      → ℕ
      → Outcome (State p × Option (ℕ × p.Request))
      → Option (Message p)
      → Outcome (State p × Option (ℕ × p.Request))
  receive_round s address i msg_slot next none = panics
  receive_round s address i msg_slot next (some (response resp)) = panics
  receive_round s address i msg_slot next (some (request req)) =
      if p.matches req address then take_request s i msg_slot req else next

  abbrev pub receive_loop :
      State p → p.Address → ℕ → List ℕ → Outcome (State p × Option (ℕ × p.Request))
  receive_loop s address i [] = returns (s, none)
  receive_loop s address i (msg_slot ∷ rest) =
      let next = receive_loop s address (suc i) rest in
      at p.messages s.messages msg_slot >>= receive_round s address i msg_slot next

  unfoldable pub try_receive : State p → p.Address → Outcome (State p × Option (ℕ × p.Request))
  try_receive s address = receive_loop s address 0 (requests_of s)

  -- The response in a slot, taken out of it.
  abbrev pub take_response : State p → ℕ → Option (Message p) → Outcome (State p × p.Response)
  take_response s msg_slot none = panics
  take_response s msg_slot (some (request req)) = panics
  take_response s msg_slot (some (response resp)) =
      returns (record s { messages = update s.messages msg_slot none }, resp)

  -- A slot whose response is available becomes unused, is released and emptied.
  abbrev pub free_slot : State p → ℕ → Outcome (State p × p.Response)
  free_slot s msg_slot = do
    let freed =
        release_msg_slot (record s { slot_state = update s.slot_state msg_slot unused }) msg_slot
    message ← at p.messages freed.messages msg_slot
    take_response freed msg_slot message

  abbrev pub poll_available :
      State p → ℕ → ℕ × ℕ → SlotState → Outcome (State p × Option (ℕ × p.Response))
  poll_available s i (idx, msg_slot) response_available = do
    taken ← free_slot s msg_slot
    responses ← remove p.slot_deque taken.0.pending_responses i
    returns (record taken.0 { pending_responses = responses }, some (idx, taken.1))
  poll_available s i found _ = panics

  abbrev pub poll_round :
      State p
      → ℕ
      → Outcome (State p × Option (ℕ × p.Response))
      → Option (ℕ × ℕ)
      → Outcome (State p × Option (ℕ × p.Response))
  poll_round s i next none = next
  poll_round s i next (some found) = at p.messages s.slot_state found.1 >>= poll_available s i found

  abbrev pub poll_loop : State p → List ℕ → ℕ → List ℕ → Outcome (State p × Option (ℕ × p.Response))
  poll_loop s msg_slots i [] = returns (s, none)
  poll_loop s msg_slots i (msg_slot ∷ rest) =
      let next = poll_loop s msg_slots (suc i) rest in
      poll_round s i next (find_slot 0 msg_slots msg_slot)

  unfoldable pub try_poll_response : State p → List ℕ → Outcome (State p × Option (ℕ × p.Response))
  try_poll_response s msg_slots = poll_loop s msg_slots 0 (responses_of s)

  abbrev pub get_available : State p → ℕ → SlotState → Outcome (State p × Option p.Response)
  get_available s msg_slot response_available = do
    taken ← free_slot s msg_slot
    returns (taken.0, some taken.1)
  get_available s msg_slot _ = returns (s, none)

  unfoldable pub try_get_response : State p → ℕ → Outcome (State p × Option p.Response)
  try_get_response s msg_slot = at p.messages s.slot_state msg_slot >>= get_available s msg_slot
