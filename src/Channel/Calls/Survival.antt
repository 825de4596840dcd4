-- ===== src/Channel/Calls/Survival.antt =====
-- No call panics that is permitted, and each keeps the slots well-formed.
use dot15d.Base.{
  ℕ, ◌<◌, ◌≤◌, ◌≡◌, true, false, List, [], ◌∷◌, Option, none, some, ltb, subst, arith, refl,
  Outcome, returns, panics, ◌>>=◌,
}
use dot15d.Containers.{TokenVec}
use dot15d.Channel.{Params, State, new, update}
use dot15d.Channel.Slots.{
  allocate_msg_slot, release_msg_slot, try_receive, allocate_cons_slot, allocate_cons_found,
  release_cons_slot,
}
use dot15d.Channel.Sender.{
  poll_allocate_request_token, try_allocate_request_token, release_request_token, wait_for_response,
  try_receive_response, deregister_wakers, without_waker,
}
use dot15d.Channel.Receiver.{
  try_allocate_consumer_token, release_consumer_token, poll_wait_for_request,
  cancel_wait_for_request, try_receive_request,
}
use dot15d.Channel.Phases.{
  Mode, dropping, polling, awaiting, available, allocated, pending, InPhase, WellFormed,
}
use dot15d.Channel.Phases.Moving.{Moved-WellFormed}
use dot15d.Channel.Phases.Allocation.{
  IsFresh, new-IsFresh, allocate_msg_slot-Allocates, release_msg_slot-Moved,
}
use dot15d.Channel.Phases.Sending.{SendsInto-Moved}
use dot15d.Channel.Phases.Receiving.{try_receive-Receives}
use dot15d.Channel.Phases.Answering.{answered, received-Answered}
use dot15d.Channel.Phases.Collecting.{poll_awaited_response-Awaits}
use dot15d.Channel.Phases.Mapping.{
  map_slot_states-Mapped, Mapped-WellFormed, without_waker-idempotent, stage-without_waker,
}
use dot15d.Channel.Phases.Waiting.{wait_for_response-Waits, try_receive_response-Collects}
use dot15d.Channel.Calls.{
  Call, allocate_request, allocate_waiting, release_request, send_request, await_response,
  collect_response, wait_response, cancel_wait_response, allocate_consumer, release_consumer,
  receive_request, wait_request, cancel_wait_request, answer_request, Survives, run, Permits,
}
use dot15d.Channel.Calls.Outcomes.{
  Allocates-Survives, Allocates-waiting-Survives, Receives-Survives, waiting-Survives,
  Awaits-Survives, Collects-Survives, Waits-Survives, consumers-WellFormed,
}

module _ {p : Params} where
  send_request-Survives :
      (s : State p) (m : Mode) (k : ℕ) (req : p.Request) (waker : ℕ)
      → WellFormed s
      → k < p.messages
      → InPhase s k allocated
      → (api : TokenVec) → Survives (run {api = api} s (send_request m k req waker))
  send_request-Survives s dropping k req waker w h ph api =
      let a = SendsInto-Moved dropping s k req waker w h ph in
      rw (a.1) (a.0, refl, Moved-WellFormed s a.0 k (pending dropping) w a.2)
  send_request-Survives s polling k req waker w h ph api =
      let a = SendsInto-Moved polling s k req waker w h ph in
      rw (a.1) (a.0, refl, Moved-WellFormed s a.0 k (pending polling) w a.2)
  send_request-Survives s awaiting k req waker w h ph api =
      let a = SendsInto-Moved awaiting s k req waker w h ph in
      rw (a.1) (a.0, refl, Moved-WellFormed s a.0 k (pending awaiting) w a.2)

  -- The consumer's slots.
  allocate_cons_slot-WellFormed : (s : State p) → WellFormed s → WellFormed (allocate_cons_slot s).0
  unfolding allocate_cons_slot
  allocate_cons_slot-WellFormed s w = go (p.cons_bitmap.first_index s.cons_available)
    where
      go : (o : Option ℕ) → WellFormed (allocate_cons_found s o).0
      go none = w
      go (some c) =
          consumers-WellFormed s s.consumers (p.cons_bitmap.set s.cons_available c false) s.backlog
            w

module _ {p : Params} {api : TokenVec} where
  pub run-Survives :
      (s : State p) (call : Call p api) → WellFormed s → Permits s call → Survives (run s call)
  unfolding release_request_token try_allocate_request_token poll_allocate_request_token
      try_receive_request poll_wait_for_request cancel_wait_for_request deregister_wakers
      try_allocate_consumer_token release_consumer_token release_cons_slot
  run-Survives s allocate_request w h =
      Allocates-Survives s (allocate_msg_slot s none) w (allocate_msg_slot-Allocates s none w)
  run-Survives s (allocate_waiting waker) w h =
      Allocates-waiting-Survives s waker (allocate_msg_slot s (some waker)) w h
        (allocate_msg_slot-Allocates s (some waker) w)
  run-Survives s (release_request k) w h = (
    release_msg_slot s k,
    refl,
    Moved-WellFormed s (release_msg_slot s k) k available w (release_msg_slot-Moved s k w h.0 h.1),
  )
  run-Survives s (send_request m k req waker) w h =
      send_request-Survives s m k req waker w h.0 h.1 api
  run-Survives s (await_response k waker) w h =
      Awaits-Survives s k waker h.1.0 w h.1.2
        (poll_awaited_response-Awaits h.1.0 s k waker w h.0 h.1.1 h.1.2)
  run-Survives s (collect_response tokens) w h =
      Collects-Survives api s tokens (try_receive_response api s tokens) w
        (try_receive_response-Collects api s tokens w)
  run-Survives s (wait_response tokens waker) w h =
      Waits-Survives api s tokens waker (wait_for_response api s tokens waker)
        (wait_for_response-Waits api s tokens waker w h)
  run-Survives s (cancel_wait_response tokens) w h =
      let m =
        map_slot_states-Mapped without_waker s (api.to_list tokens) without_waker-idempotent h in
      (
        m.0,
        m.1,
        Mapped-WellFormed without_waker (api.to_list tokens) s m.0 stage-without_waker m.2 w,
      )
  run-Survives s allocate_consumer w h =
      ((allocate_cons_slot s).0, refl, allocate_cons_slot-WellFormed s w)
  run-Survives s (release_consumer c) w h = (
    release_consumer_token s c,
    refl,
    consumers-WellFormed s s.consumers (p.cons_bitmap.set s.cons_available c true) s.backlog w,
  )
  run-Survives s (receive_request address) w h =
      Receives-Survives s address (try_receive s address) w (try_receive-Receives s address w)
  run-Survives s (wait_request waker c address) w h =
      waiting-Survives s waker c address (try_receive s address) w h
        (try_receive-Receives s address w)
  run-Survives s (cancel_wait_request c) w h =
      let in_range : ltb c p.consumers ≡ true = ground arith in
      rw (in_range) (
        record s { consumers = update s.consumers c none },
        refl,
        consumers-WellFormed s (update s.consumers c none) s.cons_available s.backlog w,
      )
  run-Survives s (answer_request k resp) w h =
      let a = received-Answered h.1.0 s k resp w h.0 h.1.1 in
      (a.0, a.1, Moved-WellFormed s a.0 k (answered h.1.0) w a.2)

  abbrev pub Granted : Outcome (State p) → Call p api → Type 0
  Granted panics call = ⊥
  Granted (returns s) call = Permits s call

  -- A history of calls, each permitted in the state in which it is made.
  abbrev pub History : Outcome (State p) → List (Call p api) → Type 0
  History o [] = Unit
  History o (call ∷ calls) = Granted o call × History (o >>= λ s. run s call) calls

  unfoldable pub run_all : Outcome (State p) → List (Call p api) → Outcome (State p)
  run_all o [] = o
  run_all o (call ∷ calls) = run_all (o >>= λ s. run s call) calls

  run_all-Survives :
      (s : State p) (calls : List (Call p api))
      → WellFormed s
      → History (returns s) calls
      → Survives (run_all (returns s) calls)
  unfolding run_all
  run_all-Survives s [] w h = (s, refl, w)
  run_all-Survives s (call ∷ calls) w h =
      let r = run-Survives s call w h.0 in
      rw (r.1) (
        run_all-Survives r.0 calls r.2 (subst (λ (o : Outcome (State p)). History o calls) r.1 h.1))

  -- A channel with at most 255 message slots: any history of permitted calls on the new channel
  -- returns, without a panic, and leaves every message slot in one of the phases.
  pub run_all-new-Survives :
      (calls : List (Call p api))
      → p.messages ≤ 255
      → History (new p) calls
      → Survives (run_all (new p) calls)
  run_all-new-Survives calls few h = go (new p) (new-IsFresh p) h
    where
      go : (o : Outcome (State p)) → IsFresh p o → History o calls → Survives (run_all o calls)
      go panics f h = absurd (omega arith)
      go (returns s) f h = run_all-Survives s calls f.0 h
