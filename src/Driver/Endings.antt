-- ===== src/Driver/Endings.antt =====
-- A reception that gives the client no frame keeps the invariant: `drop_invalid_frame` and
-- `end_rx_window` of dot15d4/src/driver.rs.
use dot15d.Base.{
  ℕ, ◌≡◌, refl, sym, subst, inl, inr, false, [], ◌∷◌, Option, none, some, Outcome, returns, panics,
  ◌>>=◌, arith,
}
use dot15d.Radio.{
  SizedFrame, TaskRx, TaskTx, nack, Ifs, no_ifs, RadioDriver, CompletedRadioTransition, entered,
  rollback, fallback, off_task, rx_task, tx_task, execute_external, execute_self,
}
use dot15d.Radio.Completion.{Completes, execute_external-Completes, execute_self-Completes}
use dot15d.Radio.Contracts.{off_contract, rx_contract, tx_contract}
use dot15d.Driver.{tx, rx, tx_done, any, outbound, Incoming, Api, Service}
use dot15d.Driver.Calls.{off_at_once, rx_at_once, noted, recovered}
use dot15d.Driver.Receiving.{
  dropped_to_rx, drop_invalid_frame, ended_to_tx, ended_to_off, end_rx_window,
}
use dot15d.Driver.Laws.{Sensible, Lawful}
use dot15d.Driver.Books.{
  Books, Books-set_temporary, Books-without_temporary, Books-answer, Books-swap, Books-rotate,
}
use dot15d.Driver.Invariant.{
  HasAck, Continues, Busy-fallback, only_failing, Inv-transmitting, Books-refused,
}
use dot15d.Driver.Windows.{Due, Due-noted, Due-idle, ended_result-Settled, recovered-pointer}
use dot15d.Driver.Receptions.{RolledBack-false, HasAck-kept}

module _ {api : Api} (F : Type 0) (Started : api.Hardware → Type 0) (start : ℕ → ℕ) where
  dropped_to_rx-Continues :
      (token : ℕ) (t t₀ t' : TaskRx) (s : Service api) (driver : RadioDriver api.Hardware rx_task)
      (o : Outcome (CompletedRadioTransition api.Hardware rx_task rx_task))
      → HasAck s
      → s.temporary_rx_frame ≡ none
      → Completes
          (rx_contract api.Hardware Started F)
          (rx_contract api.Hardware Started F)
          driver
          t
          t'
          false
          o
      → Books start s ((token, rx t₀) ∷ []) (t'.radio_frame.pointer ∷ t.radio_frame.pointer ∷ [])
      → Continues F start (o >>= dropped_to_rx token s)
  dropped_to_rx-Continues token t t₀ t' s driver panics ack empty c books = c
  dropped_to_rx-Continues token t t₀ t' s driver (returns (entered r d')) ack empty c books =
      let g = recovered api.config r in
      let filled =
        Books-set_temporary s g ((token, rx t₀) ∷ []) (t'.radio_frame.pointer ∷ []) empty (
          subst (λ (p : ℕ). Books start s ((token, rx t₀) ∷ []) (p ∷ t'.radio_frame.pointer ∷ []))
            (sym (recovered-pointer api.config t r c.0)) (Books-swap s _ _ _ _ books)) in
      rw (filled.1) (
        HasAck-kept s filled.0 ack filled.4,
        (g, filled.3),
        (
          token,
          c.2.0,
          t₀,
          refl,
          c.2.1,
          subst (λ (p : ℕ). Books start filled.0 ((token, rx t₀) ∷ []) (p ∷ [])) c.2.2 filled.2,
        ),
      )
  dropped_to_rx-Continues token t t₀ t' s driver (returns (fallback r d' x)) ack empty c books =
      only_failing c.2.2
  dropped_to_rx-Continues token t t₀ t' s driver (returns (rollback d' e none n)) ack empty c
        books =
      elim c.1 [ inl undone ↦ absurd (RolledBack-false e undone) | inr fault ↦ fault ]
  dropped_to_rx-Continues token t t₀ t' s driver (returns (rollback d' e (some r) n)) ack empty c
        books =
      c.0

  module _ (info : Option SizedFrame) (token : ℕ) (t : TaskRx) (s : Service api)
      (driver : RadioDriver api.Hardware rx_task) (ack : HasAck s) where
    ended_to_tx-Continues :
        (k : ℕ) (t' : TaskTx) (seq_nr : Option ℕ) (ifs : Ifs)
        (o : Outcome (CompletedRadioTransition api.Hardware rx_task tx_task))
        → Completes
            (rx_contract api.Hardware Started F)
            (tx_contract api.Hardware F)
            driver
            t
            t'
            false
            o
        → Due start info token t s ((k, tx t') ∷ []) (t'.radio_frame.pointer ∷ [])
        → Continues F start (o >>= ended_to_tx info token s k (seq_nr, ifs))
    ended_to_tx-Continues k t' seq_nr ifs panics c due = c
    ended_to_tx-Continues k t' seq_nr ifs (returns (entered r d')) c due =
        let u = ended_result-Settled start token t r s _ _ info due c.0 in
        rw (u.1) (Inv-transmitting u.0 k t' d' seq_nr ifs (HasAck-kept s u.0 ack u.4) u.3 u.2 c.2)
    ended_to_tx-Continues k t' seq_nr ifs (returns (fallback r d' x)) c due =
        let u = ended_result-Settled start token t r s _ _ info due c.0 in
        rw (u.1) (
          HasAck-kept s u.0 ack u.4,
          u.3,
          (
            c.3.0,
            refl,
            c.3.1,
            Books-refused u.0 k t' c.2.0 x c.2.1 (Busy-fallback api.Hardware F c.2.0 x c.2.2) u.2,
          ),
        )
    ended_to_tx-Continues k t' seq_nr ifs (returns (rollback d' e none n)) c due = elim c.1 [
      | inl undone ↦ absurd (RolledBack-false e undone)
      | inr fault ↦ fault
    ]
    ended_to_tx-Continues k t' seq_nr ifs (returns (rollback d' e (some r) n)) c due = c.0

    ended_to_off-Continues :
        (o : Outcome (CompletedRadioTransition api.Hardware rx_task off_task))
        → Completes
            (rx_contract api.Hardware Started F)
            (off_contract api.Hardware F)
            driver
            t
            off_at_once
            false
            o
        → Due start info token t s [] []
        → Continues F start (o >>= ended_to_off info token s)
    ended_to_off-Continues panics c due = c
    ended_to_off-Continues (returns (entered r d')) c due =
        let u = ended_result-Settled start token t r s _ _ info due c.0 in
        rw (u.1) (HasAck-kept s u.0 ack u.4, u.3, (c.2.0, refl, c.2.1, u.2))
    ended_to_off-Continues (returns (fallback r d' x)) c due = only_failing c.2.2
    ended_to_off-Continues (returns (rollback d' e none n)) c due = elim c.1 [
      | inl undone ↦ absurd (RolledBack-false e undone)
      | inr fault ↦ fault
    ]
    ended_to_off-Continues (returns (rollback d' e (some r) n)) c due = c.0

module _ {api : Api} {Started : api.Hardware → Type 0} {F : Type 0} (l : Lawful api Started F)
    (start : ℕ → ℕ) where
  -- An invalid frame is dropped; the reception goes on, in the other buffer.
  pub drop_invalid_frame-Continues :
      (driver : RadioDriver api.Hardware rx_task) (token : ℕ) (t : TaskRx) (s : Service api)
      → HasAck s
      → driver.task ≡ some t
      → Due start none token t s [] []
      → Continues F start (drop_invalid_frame driver token s)
  unfolding drop_invalid_frame
  drop_invalid_frame-Continues driver token t s ack held ((f, full), (t₀, books)) =
      let s' : Service api = record s { temporary_rx_frame = none } in
      rw (full) (
        dropped_to_rx-Continues F Started start token t t₀ (rx_at_once f) s' driver
          (execute_self api.rx_state api.switch_off (api.rx_to_rx driver (rx_at_once f) false)) ack
          refl
          (execute_self-Completes api.rx_state api.switch_off l.switched_lem l.rx_lawful driver t
            (rx_at_once f) false (api.rx_to_rx driver (rx_at_once f) false)
            (l.rx_to_rx_lem driver (rx_at_once f) false) held)
          (Books-without_temporary s f ((token, rx t₀) ∷ []) (t.radio_frame.pointer ∷ []) full
            books))

  -- Only after the window of an ACK may the next request be one to receive.
  abbrev Follows : Option SizedFrame → Option Incoming → Type 0
  Follows none x = Sensible outbound x
  Follows (some f) x = Sensible any x

  pub end_rx_window-Continues :
      (driver : RadioDriver api.Hardware rx_task) (token : ℕ) (t : TaskRx)
      (info : Option SizedFrame) (s : Service api) (x : api.Clients × Option Incoming)
      → HasAck s
      → driver.task ≡ some t
      → Follows info x.1
      → Due start info token t s [] []
      → Continues F start (end_rx_window driver token info (noted s x))
  unfolding end_rx_window
  end_rx_window-Continues driver token t none s (c, some (k, tx t')) ack held follows due =
      rw (follows.1.1) (
        ended_to_tx-Continues F Started start none token t (noted s (c, some (k, tx t'))).0 driver
          ack k t' follows.1.0 _
          (execute_external api.rx_state api.tx_state api.switch_off
            (api.rx_to_tx driver t' no_ifs false))
          (execute_external-Completes api.rx_state api.tx_state api.switch_off l.switched_lem
            l.rx_lawful l.tx_lawful driver t t' false (api.rx_to_tx driver t' no_ifs false)
            (l.rx_to_tx_lem driver t' no_ifs false) held)
          (Due-noted start none token t s c (k, tx t') due))
  end_rx_window-Continues driver token t (some f) s (c, some (k, tx t')) ack held follows due =
      rw (follows.1.1) (
        ended_to_tx-Continues F Started start (some f) token t (noted s (c, some (k, tx t'))).0
          driver ack k t' follows.1.0 _
          (execute_external api.rx_state api.tx_state api.switch_off
            (api.rx_to_tx driver t' no_ifs false))
          (execute_external-Completes api.rx_state api.tx_state api.switch_off l.switched_lem
            l.rx_lawful l.tx_lawful driver t t' false (api.rx_to_tx driver t' no_ifs false)
            (l.rx_to_tx_lem driver t' no_ifs false) held)
          (Due-noted start (some f) token t s c (k, tx t') due))
  end_rx_window-Continues driver token t none s (c, some (k, rx t')) ack held follows due =
      absurd (grind (arith, follows.0))
  end_rx_window-Continues driver token t (some f) s (c, some (k, rx t')) ack held follows due =
      let s' = (noted s (c, some (k, rx t'))).0 in
      let (empty, (t₀, own, books)) = Due-noted start (some f) token t s c (k, rx t') due in
      let filled =
        Books-set_temporary s' t'.radio_frame ((token, tx t₀) ∷ (k, rx t') ∷ [])
          (f.pointer ∷ t.radio_frame.pointer ∷ []) empty (Books-rotate s' _ _ _ _ books) in
      rw (filled.1) (
        HasAck-kept s filled.0 ack filled.4,
        (t'.radio_frame, filled.3),
        (
          k,
          t,
          t',
          refl,
          held,
          Books-answer filled.0 token (tx t₀) (tx_done (nack f)) ((k, rx t') ∷ []) f.pointer
              (t.radio_frame.pointer ∷ []) filled.2 own (λ j. refl),
        ),
      )
  end_rx_window-Continues driver token t info s (c, none) ack held follows due =
      ended_to_off-Continues F Started start info token t (noted s (c, none)).0 driver ack
        (execute_external api.rx_state api.off_state api.switch_off
          (api.rx_to_off driver off_at_once false))
        (execute_external-Completes api.rx_state api.off_state api.switch_off l.switched_lem
          l.rx_lawful l.off_lawful driver t off_at_once false
          (api.rx_to_off driver off_at_once false) (l.rx_to_off_lem driver off_at_once false) held)
        (Due-idle start info token t s c due)
