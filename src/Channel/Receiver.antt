-- ===== src/Channel/Receiver.antt =====
-- The receiver's operations: dot15d4-util/src/sync/channel/receiver.rs. Tokens are the numbers of
-- their slots, a poll answers `none` while it is pending.
use dot15d.Base.{ℕ, Option, none, some, Outcome, returns, panics, ◌>>=◌}
use dot15d.Channel.{
  Params, response, SlotState, unused, request_awaiting_response, request_polling_response,
  request_no_response, response_available, State, at, put, update, wake,
}
use dot15d.Channel.Slots.{allocate_cons_slot, release_cons_slot, try_receive, release_msg_slot}

module _ {p : Params} where
  unfoldable pub try_allocate_consumer_token : State p → State p × Option ℕ
  try_allocate_consumer_token s = allocate_cons_slot s

  unfoldable pub release_consumer_token : State p → ℕ → State p
  release_consumer_token s cons_slot = release_cons_slot s cons_slot

  -- The waiting consumer's entry is filled if it is empty.
  abbrev pub fill_entry : State p → ℕ → p.Address → ℕ → Option (p.Address × ℕ) → State p
  fill_entry s cons_slot address waker (some _) = s
  fill_entry s cons_slot address waker none = record s {
    consumers = update s.consumers cons_slot (some (address, waker));
  }

  abbrev pub receive_or_wait :
      ℕ
      → p.Address
      → ℕ
      → State p × Option (ℕ × p.Request)
      → Outcome (State p × Option (ℕ × p.Request))
  receive_or_wait cons_slot address waker (s, some found) = returns (s, some found)
  receive_or_wait cons_slot address waker (s, none) = do
    entry ← at p.consumers s.consumers cons_slot
    returns (fill_entry s cons_slot address waker entry, none)

  unfoldable pub poll_wait_for_request :
      State p → ℕ → ℕ → p.Address → Outcome (State p × Option (ℕ × p.Request))
  poll_wait_for_request s waker cons_slot address =
      try_receive s address >>= receive_or_wait cons_slot address waker

  -- The cleanup of `wait_for_request` when it is cancelled.
  unfoldable pub cancel_wait_for_request : State p → ℕ → Outcome (State p)
  cancel_wait_for_request s cons_slot = do
    consumers ← put p.consumers s.consumers cons_slot none
    returns (record s { consumers = consumers })

  unfoldable pub try_receive_request :
      State p → p.Address → Outcome (State p × Option (ℕ × p.Request))
  try_receive_request s address = try_receive s address

  abbrev pub wake_maybe : State p → Option ℕ → State p
  wake_maybe s none = s
  wake_maybe s (some waker) = wake s waker

  abbrev pub pushed_response : State p → Option p.slot_deque.Deque → Outcome (State p)
  pushed_response s none = panics
  pushed_response s (some responses) = returns (record s { pending_responses = responses })

  -- The slot has the response, and the sender is woken.
  abbrev pub deliver : State p → ℕ → p.Response → Option ℕ → State p
  deliver s msg_slot resp waker =
      let woken = wake_maybe s waker in
      record woken {
        slot_state = update woken.slot_state msg_slot response_available;
        messages = update woken.messages msg_slot (some (response resp));
      }

  -- `received` for the state that the slot is in.
  abbrev pub received_from : State p → ℕ → p.Response → SlotState → Outcome (State p)
  received_from s msg_slot resp (request_awaiting_response waker) =
      returns (deliver s msg_slot resp (some waker))
  received_from s msg_slot resp (request_polling_response waker) =
      pushed_response (deliver s msg_slot resp waker)
        (p.slot_deque.push_back s.pending_responses msg_slot)
  received_from s msg_slot resp request_no_response =
      returns
        (release_msg_slot (record s { slot_state = update s.slot_state msg_slot unused }) msg_slot)
  received_from s msg_slot resp unused = panics
  received_from s msg_slot resp response_available = panics

  unfoldable pub received : State p → ℕ → p.Response → Outcome (State p)
  received s msg_slot resp = at p.messages s.slot_state msg_slot >>= received_from s msg_slot resp
