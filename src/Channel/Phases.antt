-- ===== src/Channel/Phases.antt =====
-- The lifecycle of a message slot, as the comment on `State` in
-- dot15d4-util/src/sync/channel/state.rs lists it: the phase of a slot is read off the fields of
-- the state.
pub mod Moving
pub mod Allocation
pub mod Notification
pub mod Sending
pub mod Receiving
pub mod Answering
pub mod Collecting
pub mod Polling
pub mod Mapping
pub mod Waiting
pub mod Others
use dot15d.Base.{
  ℕ, ◌+◌, ◌<◌, ◌≤◌, ◌≡◌, Bool, true, false, ◌||◌, List, [], ◌∷◌, ◌++◌, Option, none, some, length,
  contains, Distinct, ◌==◌, Bool-cases, inl, inr, subst, arith, refl, sym, ap, ◌∙◌, length-Distinct,
  Distinct-append_one, contains-append, erase_at, get_elem?, contains-erase_at, Distinct-erase_at,
  if◌then◌else◌,
}
use dot15d.Channel.{
  Params, Message, request, response, SlotState, unused, request_awaiting_response,
  request_polling_response, request_no_response, response_available, State, requests_of,
  responses_of,
}

-- What the sender does about the response: it drops it, polls for it, or awaits it.
pub data Mode : Type 0 where
  dropping polling awaiting : Mode

-- A slot whose response has arrived is `answered`.
pub data Phase : Type 0 where
  available allocated : Phase
  pending receiving : Mode → Phase
  answered_polling answered_awaiting : Phase

pub data Contents : Type 0 where
  nothing a_request a_response : Contents

pub data Stage : Type 0 where
  idle at_response : Stage
  with_mode : Mode → Stage

abbrev pub contents : {p : Params} → Option (Message p) → Contents
contents none = nothing
contents (some (request _)) = a_request
contents (some (response _)) = a_response

abbrev pub stage : SlotState → Stage
stage unused = idle
stage (request_awaiting_response _) = with_mode awaiting
stage (request_polling_response _) = with_mode polling
stage request_no_response = with_mode dropping
stage response_available = at_response

-- What the fields hold for a slot in each phase.
abbrev pub available_in : Phase → Bool
available_in available = true
available_in _ = false

abbrev pub contents_in : Phase → Contents
contents_in (pending _) = a_request
contents_in answered_polling = a_response
contents_in answered_awaiting = a_response
contents_in _ = nothing

abbrev pub stage_in : Phase → Stage
stage_in available = idle
stage_in allocated = idle
stage_in (pending m) = with_mode m
stage_in (receiving m) = with_mode m
stage_in answered_polling = at_response
stage_in answered_awaiting = at_response

abbrev pub requested_in : Phase → Bool
requested_in (pending _) = true
requested_in _ = false

abbrev pub responded_in : Phase → Bool
responded_in answered_polling = true
responded_in _ = false

-- Slots below n, none of them twice: they fit a deque with room for n.
abbrev pub IsQueue : ℕ → List ℕ → Type 0
IsQueue n xs = Distinct xs × ((j : ℕ) → contains xs j ≡ true → j < n)

module _ {p : Params} where
  abbrev pub is_available : State p → ℕ → Bool
  is_available s k = p.msg_bitmap.get s.msg_available k

  -- Slot k of s is in the given phase.
  abbrev pub InPhase : State p → ℕ → Phase → Type 0
  InPhase s k phase =
      (is_available s k ≡ available_in phase)
      × (contents (s.messages k) ≡ contents_in phase)
      × (stage (s.slot_state k) ≡ stage_in phase)
      × (contains (requests_of s) k ≡ requested_in phase)
      × (contains (responses_of s) k ≡ responded_in phase)

  -- Nothing that concerns slot k has changed.
  abbrev pub Unaffected : State p → State p → ℕ → Type 0
  Unaffected s s' k =
      (is_available s' k ≡ is_available s k)
      × (s'.messages k ≡ s.messages k)
      × (s'.slot_state k ≡ s.slot_state k)
      × (contains (requests_of s') k ≡ contains (requests_of s) k)
      × (contains (responses_of s') k ≡ contains (responses_of s) k)

  pub record WellFormed (s : State p) : Type 0 where
    pub few : p.messages ≤ 255
    pub phase : (k : ℕ) → k < p.messages → (ph : Phase) × InPhase s k ph
    pub requests : IsQueue p.messages (requests_of s)
    pub responses : IsQueue p.messages (responses_of s)

  -- Slot k has moved to a phase, the others are as they were, and the queues are sound.
  pub record Moved (s s' : State p) (k : ℕ) (ph : Phase) : Type 0 where
    pub moved : InPhase s' k ph
    pub others : (j : ℕ) → j < p.messages → (j == k) ≡ false → Unaffected s s' j
    pub requests : IsQueue p.messages (requests_of s')
    pub responses : IsQueue p.messages (responses_of s')
