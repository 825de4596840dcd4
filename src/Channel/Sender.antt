-- ===== src/Channel/Sender.antt =====
-- The sender's operations: dot15d4-util/src/sync/channel/sender.rs. A token is the number of its
-- slot, a poll answers `none` while it is pending, and a context is the number of its task.
use dot15d.Base.{ℕ, List, [], ◌∷◌, Option, none, some, Outcome, returns, ◌>>=◌}
use dot15d.Containers.{TokenVec}
use dot15d.Channel.{
  Params, SlotState, unused, request_awaiting_response, request_polling_response,
  request_no_response, response_available, State, at, put, update,
}
use dot15d.Channel.Slots.{
  allocate_msg_slot, release_msg_slot, send, try_poll_response, try_get_response,
}

pub record MatchingResponse (Response : Type 0) : Type 0 where
  pub msg_slot : ℕ
  pub response : Response

abbrev pub without_waker : SlotState → SlotState
without_waker (request_polling_response _) = request_polling_response none
without_waker unused = unused
without_waker (request_awaiting_response waker) = request_awaiting_response waker
without_waker request_no_response = request_no_response
without_waker response_available = response_available

-- `get_or_insert` on the waker of every slot that is being polled.
abbrev pub with_waker : ℕ → SlotState → SlotState
with_waker waker (request_polling_response none) = request_polling_response (some waker)
with_waker waker (request_polling_response (some w)) = request_polling_response (some w)
with_waker waker unused = unused
with_waker waker (request_awaiting_response w) = request_awaiting_response w
with_waker waker request_no_response = request_no_response
with_waker waker response_available = response_available

abbrev pub registered : SlotState → Option ℕ
registered (request_polling_response waker) = waker
registered unused = none
registered (request_awaiting_response _) = none
registered request_no_response = none
registered response_available = none

module _ {p : Params} where
  unfoldable pub poll_allocate_request_token : State p → ℕ → Outcome (State p × Option ℕ)
  poll_allocate_request_token s waker = allocate_msg_slot s (some waker)

  unfoldable pub try_allocate_request_token : State p → Outcome (State p × Option ℕ)
  try_allocate_request_token s = allocate_msg_slot s none

  unfoldable pub release_request_token : State p → ℕ → State p
  release_request_token s msg_slot = release_msg_slot s msg_slot

  abbrev pub put_slot_state : State p → ℕ → SlotState → Outcome (State p)
  put_slot_state s msg_slot state = do
    slot_state ← put p.messages s.slot_state msg_slot state
    returns (record s { slot_state = slot_state })

  unfoldable pub send_request_no_response : State p → ℕ → p.Request → Outcome (State p)
  send_request_no_response s msg_slot req = do
    sent ← send s msg_slot req
    put_slot_state sent msg_slot request_no_response

  unfoldable pub send_request_polling_response : State p → ℕ → p.Request → Outcome (State p × ℕ)
  send_request_polling_response s msg_slot req = do
    sent ← send s msg_slot req
    marked ← put_slot_state sent msg_slot (request_polling_response none)
    returns (marked, msg_slot)

  -- The poll function of `send_request_awaiting_response`.
  abbrev pub await_or_store :
      ℕ → ℕ → State p × Option p.Response → Outcome (State p × Option p.Response)
  await_or_store msg_slot waker (s, some resp) = returns (s, some resp)
  await_or_store msg_slot waker (s, none) = do
    marked ← put_slot_state s msg_slot (request_awaiting_response waker)
    returns (marked, none)

  unfoldable pub poll_awaited_response : State p → ℕ → ℕ → Outcome (State p × Option p.Response)
  poll_awaited_response s msg_slot waker =
      try_get_response s msg_slot >>= await_or_store msg_slot waker

  -- The first poll of the future: it sends the request and polls for the response at once.
  unfoldable pub send_request_awaiting_response :
      State p → ℕ → p.Request → ℕ → Outcome (State p × Option p.Response)
  send_request_awaiting_response s msg_slot req waker = do
    sent ← send s msg_slot req
    poll_awaited_response sent msg_slot waker

  -- A loop over slots that changes the state of each.
  abbrev pub map_slot_states : (SlotState → SlotState) → State p → List ℕ → Outcome (State p)
  map_slot_states f s [] = returns s
  map_slot_states f s (msg_slot ∷ rest) = do
    state ← at p.messages s.slot_state msg_slot
    map_slot_states f (record s { slot_state = update s.slot_state msg_slot (f state) }) rest

  -- What also runs when the wait is cancelled.
  unfoldable pub deregister_wakers : State p → List ℕ → Outcome (State p)
  deregister_wakers s slots = map_slot_states without_waker s slots

  unfoldable pub register_wakers : State p → List ℕ → ℕ → Outcome (State p)
  register_wakers s slots waker = map_slot_states (with_waker waker) s slots

  module _ (api : TokenVec) where
    abbrev pub matched :
        State p
        → api.Vec
        → ℕ × p.Response
        → State p × api.Vec × Option (MatchingResponse p.Response)
    matched s tokens (idx, resp) =
        let removed = api.swap_remove_unchecked tokens idx in
        (s, removed.0, some (record { msg_slot = removed.1; response = resp }))

    -- What a poll does with the waker found in the first slot.
    abbrev pub finish_wait :
        api.Vec
        → ℕ
        → State p × Option (ℕ × p.Response)
        → Option ℕ
        → Outcome (State p × api.Vec × Option (MatchingResponse p.Response))
    finish_wait tokens waker (s, some found) (some _) = do
      deregistered ← deregister_wakers s (api.to_list tokens)
      returns (matched deregistered tokens found)
    finish_wait tokens waker (s, some found) none = returns (matched s tokens found)
    finish_wait tokens waker (s, none) (some _) = returns (s, tokens, none)
    finish_wait tokens waker (s, none) none = do
      with_wakers ← register_wakers s (api.to_list tokens) waker
      returns (with_wakers, tokens, none)

    -- The poll function of `wait_for_response`. Without tokens the future is pending forever.
    abbrev pub poll_tokens :
        State p
        → api.Vec
        → ℕ
        → List ℕ
        → Outcome (State p × api.Vec × Option (MatchingResponse p.Response))
    poll_tokens s tokens waker [] = returns (s, tokens, none)
    poll_tokens s tokens waker (first ∷ rest) = do
      polled ← try_poll_response s (first ∷ rest)
      state ← at p.messages polled.0.slot_state first
      finish_wait tokens waker polled (registered state)

    unfoldable pub wait_for_response :
        State p → api.Vec → ℕ → Outcome (State p × api.Vec × Option (MatchingResponse p.Response))
    wait_for_response s tokens waker = poll_tokens s tokens waker (api.to_list tokens)

    abbrev pub matched_or_none :
        api.Vec
        → State p × Option (ℕ × p.Response)
        → State p × api.Vec × Option (MatchingResponse p.Response)
    matched_or_none tokens (s, none) = (s, tokens, none)
    matched_or_none tokens (s, some found) = matched s tokens found

    unfoldable pub try_receive_response :
        State p → api.Vec → Outcome (State p × api.Vec × Option (MatchingResponse p.Response))
    try_receive_response s tokens = do
      polled ← try_poll_response s (api.to_list tokens)
      returns (matched_or_none tokens polled)
