-- ===== src/Channel/Phases/Sending.antt =====
-- Sending a request: `State::send` and the sender's three ways to use it
-- (dot15d4-util/src/sync/channel/state.rs and sender.rs).
use dot15d.Base.{
  ℕ, ◌<◌, ◌≡◌, true, [], ◌∷◌, ◌++◌, Option, none, some, length, ltb, arith, refl, ap, ◌∙◌, returns,
}
use dot15d.Containers.{Pushes}
use dot15d.Channel.{
  Params, Message, request, SlotState, unused, request_awaiting_response, request_polling_response,
  request_no_response, response_available, State, requests_of, update,
}
use dot15d.Channel.Slots.{wake_consumer, pushed_request, send, try_get_response}
use dot15d.Channel.Sender.{
  send_request_no_response, send_request_polling_response, send_request_awaiting_response,
  poll_awaited_response,
}
use dot15d.Channel.Phases.{
  Mode, dropping, polling, awaiting, allocated, pending, stage, with_mode, idle, InPhase,
  WellFormed, Moved,
}
use dot15d.Channel.Phases.Notification.{Notifies, wake_consumer-Notifies, Notifies-SameSlots}
use dot15d.Channel.Phases.Moving.{
  update-same, update-other, contains-append_same, contains-append_other, IsQueue-append,
  length-IsQueue,
}

abbrev state_for : Mode → ℕ → SlotState
state_for dropping waker = request_no_response
state_for polling waker = request_polling_response none
state_for awaiting waker = request_awaiting_response waker

pub stage-idle : (state : SlotState) → stage state ≡ idle → state ≡ unused
stage-idle unused h = refl
stage-idle (request_awaiting_response w) h = absurd (grind arith)
stage-idle (request_polling_response w) h = absurd (grind arith)
stage-idle request_no_response h = absurd (grind arith)
stage-idle response_available h = absurd (grind arith)

stage-state_for : (m : Mode) (waker : ℕ) → stage (state_for m waker) ≡ with_mode m
stage-state_for dropping waker = refl
stage-state_for polling waker = refl
stage-state_for awaiting waker = refl

module _ {p : Params} where
  -- What `send` does: the request is in the slot and last in the list of pending requests, and the
  -- first consumer that listens for it is woken.
  pub record Sent (s s' : State p) (k : ℕ) (req : p.Request) : Type 0 where
    pub messages : s'.messages ≡ update s.messages k (some (request req))
    pub slot_state : s'.slot_state ≡ s.slot_state
    pub msg_available : s'.msg_available ≡ s.msg_available
    pub requests : requests_of s' ≡ requests_of s ++ (k ∷ [])
    pub pending_responses : s'.pending_responses ≡ s.pending_responses
    pub backlog : s'.backlog ≡ s.backlog
    pub notified :
        (s₁ : State p) × Notifies p req 0 p.consumers s s₁
        × (s'.consumers ≡ s₁.consumers)
        × (s'.woken ≡ s₁.woken)

  pushed_request-Sent :
      (s s₁ : State p) (k : ℕ) (req : p.Request) (o : Option p.slot_deque.Deque)
      → Notifies p req 0 p.consumers s s₁
      → length (requests_of s) < p.messages
      → Pushes p.messages p.slot_deque.to_list s.pending_requests k o
      → (s' : State p) × (pushed_request
            (record s₁ { messages = update s₁.messages k (some (request req)) })
            o
          ≡ returns s')
        × Sent s s' k req
  pushed_request-Sent s s₁ k req none n room h = absurd (omega arith)
  pushed_request-Sent s s₁ k req (some requests) n room h =
      let same = Notifies-SameSlots s s₁ req 0 p.consumers n in
      (
        record s₁ {
          messages = update s₁.messages k (some (request req));
          pending_requests = requests;
        },
        refl,
        record {
          messages =
              ap (λ (f : ℕ → Option (Message p)). update f k (some (request req))) same.messages;
          slot_state = same.slot_state;
          msg_available = same.msg_available;
          requests = h.1;
          pending_responses = same.pending_responses;
          backlog = same.backlog;
          notified = (s₁, n, refl, refl);
        },
      )

  pub send-Sent :
      (s : State p) (k : ℕ) (req : p.Request)
      → WellFormed s
      → k < p.messages
      → InPhase s k allocated
      → (s' : State p) × (send s k req ≡ returns s') × Sent s s' k req
  unfolding send
  send-Sent s k req w h ph =
      let s₁ = wake_consumer s req 0 p.consumers in
      let n = wake_consumer-Notifies s req 0 p.consumers in
      let same = Notifies-SameSlots s s₁ req 0 p.consumers n in
      let in_range : ltb k p.messages ≡ true = ground arith in
      rw (in_range, same.pending_requests)
        (pushed_request-Sent s s₁ k req (p.slot_deque.push_back s.pending_requests k) n
          (length-IsQueue p.messages (requests_of s) k w.requests ph.3 h)
          (p.slot_deque.push_back-Pushes s.pending_requests k))

  -- Once the mode of the response is noted, the slot is pending.
  pub Sent-Moved :
      (s s' : State p) (k : ℕ) (req : p.Request) (m : Mode) (state : SlotState)
      → WellFormed s
      → k < p.messages
      → InPhase s k allocated
      → Sent s s' k req
      → stage state ≡ with_mode m
      → Moved s (record s' { slot_state = update s'.slot_state k state }) k (pending m)
  Sent-Moved s s' k req m state w h ph sent e = record {
    moved = (
      rw (sent.msg_available) ph.0,
      rw (sent.messages, update-same s.messages k (some (request req))) refl,
      rw (update-same s'.slot_state k state) e,
      rw (sent.requests) (contains-append_same (requests_of s) k),
      rw (sent.pending_responses) ph.4,
    );
    others = λ j hj other. (
      rw (sent.msg_available) refl,
      rw (sent.messages) (update-other s.messages k j (some (request req)) other),
      update-other s'.slot_state k j state other ∙ rw (sent.slot_state) refl,
      rw (sent.requests) (contains-append_other (requests_of s) k j other),
      rw (sent.pending_responses) refl,
    );
    requests = rw (sent.requests) (IsQueue-append p.messages (requests_of s) k w.requests ph.3 h);
    responses = rw (sent.pending_responses) w.responses;
  }

  -- The call that sends in a mode answers, and leaves s' behind: the future that awaits a response
  -- is polled once, and pending.
  abbrev pub SendsInto : Mode → State p → ℕ → p.Request → ℕ → State p → Type 0
  SendsInto dropping s k req waker s' = send_request_no_response s k req ≡ returns s'
  SendsInto polling s k req waker s' = send_request_polling_response s k req ≡ returns (s', k)
  SendsInto awaiting s k req waker s' =
      send_request_awaiting_response s k req waker ≡ returns (s', none)

  abbrev marked : State p → ℕ → Mode → ℕ → State p
  marked s k m waker = record s { slot_state = update s.slot_state k (state_for m waker) }

  marked-SendsInto :
      (m : Mode) (s s₁ : State p) (k : ℕ) (req : p.Request) (waker : ℕ)
      → k < p.messages
      → InPhase s k allocated
      → send s k req ≡ returns s₁
      → Sent s s₁ k req
      → SendsInto m s k req waker (marked s₁ k m waker)
  unfolding send_request_no_response send_request_polling_response send_request_awaiting_response
      poll_awaited_response try_get_response
  marked-SendsInto dropping s s₁ k req waker h ph e sent =
      let in_range : ltb k p.messages ≡ true = ground arith in rw (e, in_range) refl
  marked-SendsInto polling s s₁ k req waker h ph e sent =
      let in_range : ltb k p.messages ≡ true = ground arith in rw (e, in_range) refl
  marked-SendsInto awaiting s s₁ k req waker h ph e sent =
      let in_range : ltb k p.messages ≡ true = ground arith in
      let unused_k : s₁.slot_state k ≡ unused =
        ap (λ (f : ℕ → SlotState). f k) sent.slot_state ∙ stage-idle (s.slot_state k) ph.2 in
      rw (e, in_range, unused_k, in_range) refl

  -- Sending with an allocated slot, in each of the three ways, does not panic: the slot alone
  -- moves, to pending, it is last in the queue of requests and holds the request, and the first
  -- consumer that listens for the request is woken and its entry cleared, if there is one. A
  -- send that awaits the response is polled once and pending.
  pub SendsInto-Moved :
      (m : Mode) (s : State p) (k : ℕ) (req : p.Request) (waker : ℕ)
      → WellFormed s
      → k < p.messages
      → InPhase s k allocated
      → (s' : State p) × SendsInto m s k req waker s'
        × Moved s s' k (pending m)
        × (requests_of s' ≡ requests_of s ++ (k ∷ []))
        × (s'.messages k ≡ some (request req))
        × ((s₁ : State p) × Notifies p req 0 p.consumers s s₁
            × (s'.consumers ≡ s₁.consumers)
            × (s'.woken ≡ s₁.woken))
  SendsInto-Moved m s k req waker w h ph =
      let sent = send-Sent s k req w h ph in
      (
        marked sent.0 k m waker,
        marked-SendsInto m s sent.0 k req waker h ph sent.1 sent.2,
        Sent-Moved s sent.0 k req m (state_for m waker) w h ph sent.2 (stage-state_for m waker),
        sent.2.requests,
        ap (λ (f : ℕ → Option (Message p)). f k) sent.2.messages
            ∙ update-same s.messages k (some (request req)),
        sent.2.notified,
      )
