-- ===== src/Channel.antt =====
-- The data of the channel: dot15d4-util/src/sync/channel/state.rs and mod.rs. Addresses, requests
-- and responses, the numbers of slots, the deques (heapless) and the bit maps (bitmaps) are
-- parameters. A waker is the number of its task; `woken` lists the wakers that were woken.
pub mod Removal
pub mod Phases
pub mod Slots
pub mod Sender
pub mod Receiver
pub mod Calls
mod Examples
use dot15d.Base.{
  ℕ, Bool, true, false, List, [], ◌∷◌, ◌++◌, Option, none, some, ltb, ◌==◌, if◌then◌else◌, Outcome,
  returns, panics,
}
use dot15d.Containers.{BoundedDeque, Bitmap}

-- `matches` is the trait `HasAddress`; the numbers are MESSAGES, BACKLOG and CONSUMERS.
pub record Params : Type 1 where
  pub Address : Type 0
  pub Request : Type 0
  pub Response : Type 0
  pub matches : Request → Address → Bool
  pub messages : ℕ
  pub backlog : ℕ
  pub consumers : ℕ
  pub slot_deque : BoundedDeque ℕ messages
  pub waker_deque : BoundedDeque ℕ backlog
  pub msg_bitmap : Bitmap messages
  pub cons_bitmap : Bitmap consumers

pub data Message (p : Params) : Type 0 where
  request : p.Request → Message p
  response : p.Response → Message p

pub data SlotState : Type 0 where
  unused : SlotState
  request_awaiting_response : ℕ → SlotState
  request_polling_response : Option ℕ → SlotState
  request_no_response : SlotState
  response_available : SlotState

-- An array is a function of the index; `at` and `put` check the index.
pub record State (p : Params) : Type 0 where
  pub messages : ℕ → Option (Message p)
  pub pending_requests : p.slot_deque.Deque
  pub pending_responses : p.slot_deque.Deque
  pub msg_available : p.msg_bitmap.Bits
  pub cons_available : p.cons_bitmap.Bits
  pub slot_state : ℕ → SlotState
  pub consumers : ℕ → Option (p.Address × ℕ)
  pub backlog : p.waker_deque.Deque
  pub woken : List ℕ

-- `array[i]` of an array with `size` elements
abbrev pub at : {A : Type 0} → ℕ → (ℕ → A) → ℕ → Outcome A
at size array i = if ltb i size then returns (array i) else panics

-- `array[i] = v`
abbrev pub update : {A : Type 0} → (ℕ → A) → ℕ → A → ℕ → A
update array i v j = if j == i then v else array j

abbrev pub put : {A : Type 0} → ℕ → (ℕ → A) → ℕ → A → Outcome (ℕ → A)
put size array i v = if ltb i size then returns (update array i v) else panics

unfoldable pub new : (p : Params) → Outcome (State p)
new p =
    if ltb 255 p.messages
    then panics
    else returns record {
      messages = λ i. none;
      pending_requests = p.slot_deque.new;
      pending_responses = p.slot_deque.new;
      msg_available = p.msg_bitmap.mask p.messages;
      cons_available = p.cons_bitmap.mask p.consumers;
      slot_state = λ i. unused;
      consumers = λ i. none;
      backlog = p.waker_deque.new;
      woken = [];
    }

module _ {p : Params} where
  -- The slots with pending requests and with pending responses, in order.
  abbrev pub requests_of : State p → List ℕ
  requests_of s = p.slot_deque.to_list s.pending_requests

  abbrev pub responses_of : State p → List ℕ
  responses_of s = p.slot_deque.to_list s.pending_responses

  abbrev pub waiting_of : State p → List ℕ
  waiting_of s = p.waker_deque.to_list s.backlog

  abbrev pub wake : State p → ℕ → State p
  wake s waker = record s { woken = s.woken ++ (waker ∷ []) }
