-- ===== src/Driver/Receptions.antt =====
-- The handlers that end a reception keep the invariant: `receive_frame`, `drop_invalid_frame` and
-- `end_rx_window` of dot15d4/src/driver.rs.
use dot15d.Base.{
  ℕ, ◌≡◌, refl, ◌∙◌, ◌⊎◌, inl, inr, true, false, [], ◌∷◌, Option, none, some, Outcome, returns,
  panics, ◌>>=◌, arith,
}
use dot15d.Radio.{
  SizedFrame, TaskRx, RxResult, TaskTx, Ifs, RadioTaskError, scheduling, task, RadioDriver,
  CompletedRadioTransition, entered, rollback, fallback, off_task, rx_task, tx_task,
  execute_external, execute_self,
}
use dot15d.Radio.Completion.{Completes, execute_external-Completes, execute_self-Completes}
use dot15d.Radio.Contracts.{off_contract, rx_contract, tx_contract, RolledBack, IsFinal}
use dot15d.Driver.{tx, rx, any, Incoming, Api, Service}
use dot15d.Driver.Calls.{off_at_once, noted, receive_any}
use dot15d.Driver.Receiving.{
  receive_to_tx, receive_to_rx, receive_to_off, resumed, receive_then, receive_frame,
}
use dot15d.Driver.Laws.{Sensible, Lawful}
use dot15d.Driver.Invariant.{
  HasAck, Continues, Busy-fallback, only_failing, Inv-transmitting, Inv-receiving, Books-refused,
}
use dot15d.Driver.Windows.{frame_of, Wanted, Due, Due-noted, Due-idle, received_result-Settled}

pub RolledBack-false : (e : RadioTaskError rx_task) → RolledBack false e → ⊥
RolledBack-false (scheduling e) h = elim h [ ]
RolledBack-false (task e) h = absurd (grind arith)

pub HasAck-kept :
    {api : Api} (s u : Service api) → HasAck s → u.tx_ack_frame ≡ s.tx_ack_frame → HasAck u
HasAck-kept s u (f, e, a) same = (f, same ∙ e, a)

-- A reception that is rolled back, when it should be the last.
abbrev pub IsRolledBack :
    {W : Type 0} → Outcome (CompletedRadioTransition W rx_task off_task) → Type 0
IsRolledBack (returns (rollback d e r n)) = Unit {0}
IsRolledBack _ = ⊥

abbrev pub Acks : Option (SizedFrame × ℕ) → Type 0
Acks none = ⊥
Acks (some info) = Unit {0}

module _ {W : Type 0} (Started : W → Type 0) where
  -- In the window of an ACK, the reception has started.
  abbrev pub Ready : Option (SizedFrame × ℕ) → RadioDriver W rx_task → Type 0
  Ready none driver = Unit {0}
  Ready (some info) driver = Started driver.inner

  wanted :
      (info : Option (SizedFrame × ℕ)) (driver : RadioDriver W rx_task) (r : RxResult)
      → Ready info driver
      → (Started driver.inner → IsFinal r)
      → Wanted info r
  wanted none driver r ready final = tt
  wanted (some info) driver r ready final = final ready

-- The reception goes on, but the frame whose ACK is awaited is dropped.
rolled_back-Continues :
    {api : Api} (F : Type 0) (start : ℕ → ℕ) (info : Option (SizedFrame × ℕ)) (token : ℕ)
    (t : TaskRx) (s : Service api) (driver : RadioDriver api.Hardware rx_task)
    → HasAck s
    → driver.task ≡ some t
    → Due start (frame_of info) token t s [] []
    → Continues F start (resumed info driver token s)
      ⊎ ((resumed info driver token s ≡ panics) × Acks info)
rolled_back-Continues F start none token t s driver ack held (temporary, (t₀, books)) =
    inl (ack, temporary, (token, t, t₀, refl, held, books))
rolled_back-Continues F start (some info) token t s driver ack held due = inr (refl, tt)

module _ {api : Api} (F : Type 0) (Started : api.Hardware → Type 0) (start : ℕ → ℕ) where
  module _ (info : Option (SizedFrame × ℕ)) (token : ℕ) (t : TaskRx) (s : Service api)
      (driver : RadioDriver api.Hardware rx_task) (ready : Ready Started info driver)
      (ack : HasAck s) where
    receive_to_tx-Continues :
        (k : ℕ) (t' : TaskTx) (seq_nr : Option ℕ) (ifs : Ifs)
        (o : Outcome (CompletedRadioTransition api.Hardware rx_task tx_task))
        → Completes
            (rx_contract api.Hardware Started F)
            (tx_contract api.Hardware F)
            driver
            t
            t'
            false
            o
        → Due start (frame_of info) token t s ((k, tx t') ∷ []) (t'.radio_frame.pointer ∷ [])
        → Continues F start (o >>= receive_to_tx info token s k (seq_nr, ifs))
    receive_to_tx-Continues k t' seq_nr ifs panics c due = c
    receive_to_tx-Continues k t' seq_nr ifs (returns (entered r d')) c due =
        let u =
          received_result-Settled start token t r s _ _ info due c.0
            (wanted Started info driver r ready c.1) in
        rw (u.1) (Inv-transmitting u.0 k t' d' seq_nr ifs (HasAck-kept s u.0 ack u.4) u.3 u.2 c.2)
    receive_to_tx-Continues k t' seq_nr ifs (returns (fallback r d' x)) c due =
        let u =
          received_result-Settled start token t r s _ _ info due c.0
            (wanted Started info driver r ready c.1) in
        rw (u.1) (
          HasAck-kept s u.0 ack u.4,
          u.3,
          (
            c.3.0,
            refl,
            c.3.1,
            Books-refused u.0 k t' c.2.0 x c.2.1 (Busy-fallback api.Hardware F c.2.0 x c.2.2) u.2,
          ),
        )
    receive_to_tx-Continues k t' seq_nr ifs (returns (rollback d' e none n)) c due = elim c.1 [
      | inl undone ↦ absurd (RolledBack-false e undone)
      | inr fault ↦ fault
    ]
    receive_to_tx-Continues k t' seq_nr ifs (returns (rollback d' e (some r) n)) c due = c.0

    receive_to_rx-Continues :
        (k : ℕ) (t' : TaskRx) (o : Outcome (CompletedRadioTransition api.Hardware rx_task rx_task))
        → Completes
            (rx_contract api.Hardware Started F)
            (rx_contract api.Hardware Started F)
            driver
            t
            t'
            false
            o
        → Due start (frame_of info) token t s ((k, rx t') ∷ []) (t'.radio_frame.pointer ∷ [])
        → Continues F start (o >>= receive_to_rx info token s k)
    receive_to_rx-Continues k t' panics c due = c
    receive_to_rx-Continues k t' (returns (entered r d')) c due =
        let u =
          received_result-Settled start token t r s _ _ info due c.0
            (wanted Started info driver r ready c.1) in
        rw (u.1) (Inv-receiving u.0 k t' d' (HasAck-kept s u.0 ack u.4) u.3 u.2 c.2)
    receive_to_rx-Continues k t' (returns (fallback r d' x)) c due = only_failing c.2.2
    receive_to_rx-Continues k t' (returns (rollback d' e none n)) c due = elim c.1 [
      | inl undone ↦ absurd (RolledBack-false e undone)
      | inr fault ↦ fault
    ]
    receive_to_rx-Continues k t' (returns (rollback d' e (some r) n)) c due = c.0

    -- Only the window of an ACK is lost where the reception is rolled back.
    receive_to_off-Continues :
        (o : Outcome (CompletedRadioTransition api.Hardware rx_task off_task))
        → driver.task ≡ some t
        → Completes
            (rx_contract api.Hardware Started F)
            (off_contract api.Hardware F)
            driver
            t
            off_at_once
            true
            o
        → Due start (frame_of info) token t s [] []
        → Continues F start (o >>= receive_to_off info token s)
          ⊎ ((o >>= receive_to_off info token s ≡ panics) × Acks info × IsRolledBack o)
    receive_to_off-Continues panics held c due = inl c
    receive_to_off-Continues (returns (entered r d')) held c due =
        let u =
          received_result-Settled start token t r s _ _ info due c.0
            (wanted Started info driver r ready c.1) in
        inl (rw (u.1) (HasAck-kept s u.0 ack u.4, u.3, (c.2.0, refl, c.2.1, u.2)))
    receive_to_off-Continues (returns (fallback r d' x)) held c due = inl (only_failing c.2.2)
    receive_to_off-Continues (returns (rollback d' e (some r) n)) held c due = inl c.0
    receive_to_off-Continues (returns (rollback d' e none n)) held c due =
        elim (rolled_back-Continues F start info token t s d' ack c.0 due) [
          | inl go ↦ inl go
          | inr stop ↦ inr (stop.0, stop.1, tt)
        ]

-- No request is there when a reception is to be the last, and it is rolled back.
abbrev pub Resumes : {api : Api} → RadioDriver api.Hardware rx_task → Service api → Type 0
Resumes {api} driver s =
    ((api.try_receive_request s.clients any).1 ≡ none)
    × IsRolledBack (
        execute_external api.rx_state api.off_state api.switch_off
          (api.rx_to_off driver off_at_once true))

module _ {api : Api} {Started : api.Hardware → Type 0} {F : Type 0} (l : Lawful api Started F)
    (start : ℕ → ℕ) where
  receive_then-Continues :
      (info : Option (SizedFrame × ℕ)) (token : ℕ) (t : TaskRx) (s : Service api)
      (driver : RadioDriver api.Hardware rx_task) (ifs : Ifs) (x : api.Clients × Option Incoming)
      → Ready Started info driver
      → HasAck s
      → driver.task ≡ some t
      → Sensible any x.1
      → Due start (frame_of info) token t s [] []
      → Continues F start (receive_then driver info token ifs (noted s x))
        ⊎ ((receive_then driver info token ifs (noted s x) ≡ panics)
            × Acks info
            × ((x.1 ≡ none)
                × IsRolledBack (
                    execute_external api.rx_state api.off_state api.switch_off
                      (api.rx_to_off driver off_at_once true))))
  receive_then-Continues info token t s driver ifs (c, none) ready ack held sensible due =
      let s' = (noted s (c, none)).0 in
      elim (receive_to_off-Continues F Started start info token t s' driver ready ack
        (execute_external api.rx_state api.off_state api.switch_off
          (api.rx_to_off driver off_at_once true))
        held
        (execute_external-Completes api.rx_state api.off_state api.switch_off l.switched_lem
          l.rx_lawful l.off_lawful driver t off_at_once true (api.rx_to_off driver off_at_once true)
          (l.rx_to_off_lem driver off_at_once true) held)
        (Due-idle start (frame_of info) token t s c due)) [
          | inl go ↦ inl go
          | inr stop ↦ inr (stop.0, stop.1, (refl, stop.2))
        ]
  receive_then-Continues info token t s driver ifs (c, some (k, tx t')) ready ack held sensible
        due =
      let s' = (noted s (c, some (k, tx t'))).0 in
      inl (
        rw (sensible.1.1) (
          receive_to_tx-Continues F Started start info token t s' driver ready ack k t' sensible.1.0
            _
            (execute_external api.rx_state api.tx_state api.switch_off
              (api.rx_to_tx driver t' ifs false))
            (execute_external-Completes api.rx_state api.tx_state api.switch_off l.switched_lem
              l.rx_lawful l.tx_lawful driver t t' false (api.rx_to_tx driver t' ifs false)
              (l.rx_to_tx_lem driver t' ifs false) held)
            (Due-noted start (frame_of info) token t s c (k, tx t') due)))
  receive_then-Continues info token t s driver ifs (c, some (k, rx t')) ready ack held sensible
        due =
      let s' = (noted s (c, some (k, rx t'))).0 in
      inl (
        receive_to_rx-Continues F Started start info token t s' driver ready ack k t'
          (execute_self api.rx_state api.switch_off (api.rx_to_rx driver t' false))
          (execute_self-Completes api.rx_state api.switch_off l.switched_lem l.rx_lawful driver t t'
            false (api.rx_to_rx driver t' false) (l.rx_to_rx_lem driver t' false) held)
          (Due-noted start (frame_of info) token t s c (k, rx t') due))

  -- `receive_frame` keeps the invariant, but panics if the frame in the window of an ACK is rolled back.
  pub receive_frame-Continues :
      (info : Option (SizedFrame × ℕ)) (token : ℕ) (t : TaskRx) (s : Service api)
      (driver : RadioDriver api.Hardware rx_task) (ifs : Ifs)
      → Ready Started info driver
      → HasAck s
      → driver.task ≡ some t
      → Due start (frame_of info) token t s [] []
      → Continues F start (receive_frame driver info token ifs s)
        ⊎ ((receive_frame driver info token ifs s ≡ panics) × Acks info × Resumes driver s)
  unfolding receive_frame receive_any
  receive_frame-Continues info token t s driver ifs ready ack held due =
      receive_then-Continues info token t s driver ifs (api.try_receive_request s.clients any) ready
        ack held (l.received_sensible s.clients) due
