-- ===== src/Channel/Calls/Outcomes.antt =====
-- What a call answers tells that its state is well-formed.
use dot15d.Base.{
  ℕ, ◌<◌, ◌≡◌, true, Option, none, some, length, ltb, subst, arith, refl, sym, Outcome, returns,
  panics, ◌>>=◌,
}
use dot15d.Containers.{TokenVec}
use dot15d.Channel.{Params, State, waiting_of, update}
use dot15d.Channel.Sender.{MatchingResponse, poll_awaited_response}
use dot15d.Channel.Receiver.{fill_entry, receive_or_wait}
use dot15d.Channel.Phases.{
  dropping, polling, awaiting, Phase, available, allocated, pending, receiving, answered_polling,
  answered_awaiting, WellFormed,
}
use dot15d.Channel.Phases.Moving.{Moved-WellFormed}
use dot15d.Channel.Phases.Allocation.{Allocates}
use dot15d.Channel.Phases.Receiving.{Receives}
use dot15d.Channel.Phases.Collecting.{is_awaited, Awaits}
use dot15d.Channel.Phases.Waiting.{Waits, Collects, MatchesToken}
use dot15d.Channel.Calls.{state_of, state_of_wait, Survives}

module _ {p : Params} where
  same-WellFormed : (s s' : State p) → s' ≡ s → WellFormed s → WellFormed s'
  same-WellFormed s s' e w = subst WellFormed (sym e) w

  -- Changes of the consumers and of the backlog leave the slots alone.
  pub consumers-WellFormed :
      (s : State p) (consumers : ℕ → Option (p.Address × ℕ)) (cons_available : p.cons_bitmap.Bits)
      (backlog : p.waker_deque.Deque)
      → WellFormed s
      → WellFormed
          (record s { consumers = consumers; cons_available = cons_available; backlog = backlog })
  consumers-WellFormed s consumers cons_available backlog w = record {
    few = w.few;
    phase = w.phase;
    requests = w.requests;
    responses = w.responses;
  }

  pub Allocates-Survives :
      (s : State p) (o : Outcome (State p × Option ℕ))
      → WellFormed s
      → Allocates s none o
      → Survives (state_of o)
  Allocates-Survives s panics w h = absurd h
  Allocates-Survives s (returns (s', none)) w h = (s', refl, same-WellFormed s s' h.1 w)
  Allocates-Survives s (returns (s', some k)) w h =
      (s', refl, Moved-WellFormed s s' k allocated w h.2)

  pub Allocates-waiting-Survives :
      (s : State p) (waker : ℕ) (o : Outcome (State p × Option ℕ))
      → WellFormed s
      → length (waiting_of s) < p.backlog
      → Allocates s (some waker) o
      → Survives (state_of o)
  Allocates-waiting-Survives s waker panics w room h = absurd (omega (arith, h.1))
  Allocates-waiting-Survives s waker (returns (s', none)) w room h = (
    s',
    refl,
    same-WellFormed (record s { backlog = s'.backlog }) s' h.2
        (consumers-WellFormed s s.consumers s.cons_available s'.backlog w),
  )
  Allocates-waiting-Survives s waker (returns (s', some k)) w room h =
      (s', refl, Moved-WellFormed s s' k allocated w h.2)

  pub Receives-Survives :
      (s : State p) (address : p.Address) (o : Outcome (State p × Option (ℕ × p.Request)))
      → WellFormed s
      → Receives s address o
      → Survives (state_of o)
  Receives-Survives s address panics w h = absurd h
  Receives-Survives s address (returns (s', none)) w h = (s', refl, same-WellFormed s s' h.0 w)
  Receives-Survives s address (returns (s', some (k, req))) w
        (before, after, m, e, e', f, at_k, g, h, ph, moved) =
      (s', refl, Moved-WellFormed s s' k (receiving m) w moved)

  fill_entry-WellFormed :
      (s : State p) (c : ℕ) (address : p.Address) (waker : ℕ) (entry : Option (p.Address × ℕ))
      → WellFormed s
      → WellFormed (fill_entry s c address waker entry)
  fill_entry-WellFormed s c address waker (some e) w = w
  fill_entry-WellFormed s c address waker none w =
      consumers-WellFormed s (update s.consumers c (some (address, waker))) s.cons_available
        s.backlog w

  pub waiting-Survives :
      (s : State p) (waker c : ℕ) (address : p.Address)
      (o : Outcome (State p × Option (ℕ × p.Request)))
      → WellFormed s
      → c < p.consumers
      → Receives s address o
      → Survives (state_of (o >>= receive_or_wait c address waker))
  waiting-Survives s waker c address panics w h r = absurd r
  waiting-Survives s waker c address (returns (s', some (k, req))) w h r =
      Receives-Survives s address (returns (s', some (k, req))) w r
  waiting-Survives s waker c address (returns (s', none)) w h r =
      let in_range : ltb c p.consumers ≡ true = ground arith in
      rw (in_range) (
        fill_entry s' c address waker (s'.consumers c),
        refl,
        fill_entry-WellFormed s' c address waker (s'.consumers c) (same-WellFormed s s' r.0 w),
      )

  pub Awaits-Survives :
      (s : State p) (k waker : ℕ) (ph : Phase)
      → WellFormed s
      → is_awaited ph ≡ true
      → Awaits ph s k waker
      → Survives (state_of (poll_awaited_response s k waker))
  Awaits-Survives s k waker answered_awaiting w e a =
      rw (a.2) (a.0, refl, Moved-WellFormed s a.0 k available w a.4)
  Awaits-Survives s k waker (pending awaiting) w e a =
      rw (a.1) (a.0, refl, Moved-WellFormed s a.0 k (pending awaiting) w a.3)
  Awaits-Survives s k waker (receiving awaiting) w e a =
      rw (a.1) (a.0, refl, Moved-WellFormed s a.0 k (receiving awaiting) w a.3)
  Awaits-Survives s k waker available w e a = absurd (grind arith)
  Awaits-Survives s k waker allocated w e a = absurd (grind arith)
  Awaits-Survives s k waker (pending dropping) w e a = absurd (grind arith)
  Awaits-Survives s k waker (pending polling) w e a = absurd (grind arith)
  Awaits-Survives s k waker (receiving dropping) w e a = absurd (grind arith)
  Awaits-Survives s k waker (receiving polling) w e a = absurd (grind arith)
  Awaits-Survives s k waker answered_polling w e a = absurd (grind arith)

  module _ (api : TokenVec) where
    MatchesToken-WellFormed :
        (s s' : State p) (tokens tokens' : api.Vec) (found : MatchingResponse p.Response)
        → MatchesToken api s tokens s' tokens' found
        → WellFormed s'
    MatchesToken-WellFormed s s' tokens tokens' found
          (before, after, e, f, listed, held, ph, ph', e', n, w) =
        w

    pub Collects-Survives :
        (s : State p) (tokens : api.Vec)
        (o : Outcome (State p × api.Vec × Option (MatchingResponse p.Response)))
        → WellFormed s
        → Collects api s tokens o
        → Survives (state_of_wait o)
    Collects-Survives s tokens panics w h = absurd h
    Collects-Survives s tokens (returns (s', tokens', none)) w h =
        (s', refl, same-WellFormed s s' h.0 w)
    Collects-Survives s tokens (returns (s', tokens', some found)) w h =
        (s', refl, MatchesToken-WellFormed s s' tokens tokens' found h)

    pub Waits-Survives :
        (s : State p) (tokens : api.Vec) (waker : ℕ)
        (o : Outcome (State p × api.Vec × Option (MatchingResponse p.Response)))
        → Waits api s tokens waker o
        → Survives (state_of_wait o)
    Waits-Survives s tokens waker panics h = absurd h
    Waits-Survives s tokens waker (returns (s', tokens', none)) h = (s', refl, h.0)
    Waits-Survives s tokens waker (returns (s', tokens', some found)) h =
        (s', refl, MatchesToken-WellFormed s s' tokens tokens' found h)
