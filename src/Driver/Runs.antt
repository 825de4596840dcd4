-- ===== src/Driver/Runs.antt =====
-- Any number of turns of the event loop of dot15d4/src/driver.rs, and the turn that does not end well.
use dot15d.Base.{
  ◌≤◌, ◌+◌, List, [], length, ℕ, zero, suc, ◌<◌, ◌≡◌, refl, ◌⊎◌, inl, inr, Bool, true, false,
  Option, none, some, Outcome, returns, panics, ◌>>=◌, arith,
}
use dot15d.Driver.Books.{Books, Replies, at_pointer, tally, in_responses, in_requests}
use dot15d.Radio.{
  UnsizedFrame, SizedFrame, sent, nack, Ifs, RadioDriver, CompletedRadioTransition, entered,
  rollback, fallback, off_task, rx_task, tx_task, execute_external,
}
use dot15d.Driver.{any, Incoming, Api, transmitting, receiving, switched_off, Service}
use dot15d.Driver.Calls.{off_at_once, Next, noted, receive_any}
use dot15d.Driver.Sending.{awaited, wait_to_rx, send_frame, wait_for_ack}
use dot15d.Driver.Receiving.{receive_frame, receive_then, receive_to_off}
use dot15d.Driver.Loop.{turn, run}
use dot15d.Driver.Turns.{LosesAck, turn-Inv}
use dot15d.Driver.Laws.{Lawful}
use dot15d.Driver.Invariant.{Inv, Continues}
use dot15d.Driver.Receptions.{IsRolledBack, Resumes}
use dot15d.Driver.Acknowledgements.{AckRollsBack}

module _ {api : Api} {Started : api.Hardware → Type 0} {F : Type 0} (l : Lawful api Started F)
    (start : ℕ → ℕ) where
  -- What is known after some turns.
  abbrev pub Runs : ℕ → Next api → Type 0
  Runs n next =
      ((later : Next api) × (run n next ≡ returns later) × Inv start later)
      ⊎ ((m : ℕ) × (last : Next api) × (m < n)
          × (run m next ≡ returns last)
          × Inv start last
          × (LosesAck last ⊎ F)
          × (run n next ≡ panics))

  run-one-more :
      (n : ℕ) (next : Next api) (o : Outcome (Next api))
      → turn next ≡ o
      → Inv start next
      → Continues F start o ⊎ ((o ≡ panics) × LosesAck next)
      → ((later : Next api) → Inv start later → Runs n later)
      → Runs (suc n) next
  unfolding run
  run-one-more n next panics e inv (inl fault) runs =
      inr (zero, next, omega arith, refl, inv, inr fault, rw (e) refl)
  run-one-more n next panics e inv (inr stop) runs =
      inr (zero, next, omega arith, refl, inv, inl stop.1, rw (e) refl)
  run-one-more n next (returns later) e inv (inr stop) runs = absurd (grind (arith, stop.0))
  run-one-more n next (returns later) e inv (inl go) runs = elim (runs later go) [
    | inl done ↦ inl (done.0, rw (e) done.1, done.2)
    | inr stop ↦
        inr
          (suc stop.0, stop.1, omega (arith, stop.2), rw (e) stop.3, stop.4, stop.5, rw (e) stop.6)
  ]

  -- For any `F` that holds where the radio fails, and laws that ask no more of the radio than to keep
  -- the promises of its tasks or to give `F`; the invariant says that both frames of the service
  -- are in their cells, that the responses answer the requests in order and that no buffer is lost.
  -- From a state in which it holds, the event loop runs any number of turns and the invariant
  -- holds after them; or an earlier turn, up to which it holds, panics, and then `F` holds or that
  -- turn loses an ACK.
  pub run-Inv : (n : ℕ) (next : Next api) → Inv start next → Runs n next
  unfolding run
  run-Inv zero next inv = inl (next, refl, inv)
  run-Inv (suc n) next inv =
      run-one-more n next (turn next) refl inv (turn-Inv l start next inv)
        (λ later. run-Inv n later)

-- The service before the first turn: the radio is off, both frames are in their cells, and nothing is
-- requested.
abbrev pub fresh :
    {api : Api}
    → RadioDriver api.Hardware off_task
    → api.Clients
    → SizedFrame
    → UnsizedFrame
    → Next api
fresh driver clients ack temporary = (
  switched_off driver,
  none,
  record {
    clients = clients;
    tx_ack_frame = some ack;
    temporary_rx_frame = some temporary;
    received = [];
    answered = [];
  },
)

-- What the clients see: the responses answer the requests in their order, each with its token and of
-- its kind; at most one request is open; and every buffer that was given to the service, at its start
-- or with a request, was given back in a response or is inside, once for each time, where two
-- buffers are inside and one more for an open request.
abbrev pub Served : {api : Api} → SizedFrame → UnsizedFrame → Next api → Type 0
Served ack temporary (state, token, s) =
    (left : List Incoming) × Replies s.received s.answered left
    × (length left ≤ 1)
    × ((inside : List ℕ) × (length inside ≡ 2 + length left)
        × ((k : ℕ)
            → tally k inside + in_responses k s.answered
              ≡ at_pointer k ack.pointer
                + at_pointer k temporary.pointer
                + in_requests k s.received))

module _ {api : Api} {Started : api.Hardware → Type 0} {F : Type 0} (l : Lawful api Started F)
    (ack : SizedFrame) (temporary : UnsizedFrame) where
  abbrev starts : ℕ → ℕ
  starts k = at_pointer k ack.pointer + at_pointer k temporary.pointer

  -- What the clients see after some turns.
  abbrev pub Serves : ℕ → Next api → Type 0
  Serves n next =
      ((later : Next api) × (run n next ≡ returns later) × Served ack temporary later)
      ⊎ ((m : ℕ) × (last : Next api) × (m < n)
          × (run m next ≡ returns last)
          × Served ack temporary last
          × (LosesAck last ⊎ F)
          × (run n next ≡ panics))

module _ {api : Api} where
  rolled_back_panics :
      (g : SizedFrame) (seq_nr token : ℕ) (s : Service api)
      (o : Outcome (CompletedRadioTransition api.Hardware rx_task off_task))
      → IsRolledBack o
      → (o >>= receive_to_off (some (g, seq_nr)) token s) ≡ panics
  rolled_back_panics g seq_nr token s panics h = refl
  rolled_back_panics g seq_nr token s (returns (rollback d e none n)) h = refl
  rolled_back_panics g seq_nr token s (returns (rollback d e (some r) n)) h = refl
  rolled_back_panics g seq_nr token s (returns (entered r d)) h = elim h [ ]
  rolled_back_panics g seq_nr token s (returns (fallback r d x)) h = elim h [ ]

  resumed_panics :
      (g : SizedFrame) (seq_nr token : ℕ) (ifs : Ifs) (s : Service api)
      (driver : RadioDriver api.Hardware rx_task) (x : api.Clients × Option Incoming)
      → x.1 ≡ none
      → IsRolledBack (
          execute_external api.rx_state api.off_state api.switch_off
            (api.rx_to_off driver off_at_once true))
      → receive_then driver (some (g, seq_nr)) token ifs (noted s x) ≡ panics
  resumed_panics g seq_nr token ifs s driver (c, some x) e h = absurd (grind arith)
  resumed_panics g seq_nr token ifs s driver (c, none) e h =
      rolled_back_panics g seq_nr token (noted s (c, none)).0 _ h

  awaited_panics :
      (p : RadioDriver api.Hardware rx_task × Bool) (g : SizedFrame) (token seq_nr : ℕ)
      (s : Service api)
      → p.1 ≡ true
      → Resumes p.0 s
      → awaited p g token seq_nr s ≡ panics
  unfolding receive_frame receive_any
  awaited_panics (driver, true) g token seq_nr s e h =
      resumed_panics g seq_nr token _ s driver (api.try_receive_request s.clients any) h.0 h.1
  awaited_panics (driver, false) g token seq_nr s e h = absurd (grind arith)

  lost_panics :
      (token seq_nr : ℕ) (s : Service api)
      (o : Outcome (CompletedRadioTransition api.Hardware tx_task rx_task))
      → AckRollsBack s o
      → (o >>= wait_to_rx token seq_nr s) ≡ panics
  lost_panics token seq_nr s panics h = refl
  lost_panics token seq_nr s (returns (rollback d e r n)) h = refl
  lost_panics token seq_nr s (returns (fallback r d x)) h = refl
  lost_panics token seq_nr s (returns (entered (nack g) d)) h = refl
  lost_panics token seq_nr s (returns (entered (sent g) d)) h =
      awaited_panics (api.frame_started_or_timeout d) g token seq_nr s h.0 h.1

-- Of a frame that asks for an ACK: the frame in the window of its ACK has a CRC error, and no request
-- is waiting. The turn then panics, as the frame that was sent is dropped and cannot be given back.
pub turn_panics-LosesAck : {api : Api} (next : Next api) → LosesAck next → turn next ≡ panics
unfolding turn send_frame wait_for_ack
turn_panics-LosesAck (receiving driver, token, s) h = elim h [ ]
turn_panics-LosesAck (switched_off driver, token, s) h = elim h [ ]
turn_panics-LosesAck (transmitting driver none ifs, token, s) h = elim h [ ]
turn_panics-LosesAck (transmitting driver (some seq_nr) ifs, none, s) h = refl
turn_panics-LosesAck (transmitting driver (some seq_nr) ifs, some token, s) (f, full, rolled) =
    rw (full) (lost_panics token seq_nr (record s { temporary_rx_frame = none }) _ rolled)
