-- ===== src/Driver/Transmissions.antt =====
-- The handlers that end a transmission keep the invariant: `send_frame` and `wait_for_ack` of
-- dot15d4/src/driver.rs.
use dot15d.Base.{
  ℕ, ◌≡◌, refl, sym, ap, ◌∙◌, subst, false, List, [], ◌∷◌, Option, none, some, Outcome, returns,
  panics, ◌>>=◌, arith,
}
use dot15d.Frame.Radio.{Config}
use dot15d.Radio.{
  SizedFrame, TaskRx, TaskTx, TxResult, sent, nack, Ifs, RadioDriver, CompletedRadioTransition,
  entered, rollback, fallback, off_task, rx_task, tx_task, execute_external, execute_self,
}
use dot15d.Radio.Completion.{Completes, execute_external-Completes, execute_self-Completes}
use dot15d.Radio.Contracts.{off_contract, rx_contract, tx_contract, Sent, SameFrame}
use dot15d.Driver.{tx, rx, tx_done, any, Incoming, Api, Service}
use dot15d.Driver.Calls.{off_at_once, noted, answer}
use dot15d.Driver.Sending.{sent_result, send_to_tx, send_to_rx, send_to_off, send_then}
use dot15d.Driver.Laws.{Sensible, Lawful}
use dot15d.Driver.Books.{
  Books, Books-noted, Books-idle, Books-answer, Books-set_ack, at_pointer, request_pointer,
}
use dot15d.Driver.Invariant.{
  Ackable, HasAck, HasTemporary, Continues, Busy-fallback, only_fault, only_failing,
  Inv-transmitting, Inv-receiving, Books-refused,
}

pub Ackable-same : (c : Config) (f g : SizedFrame) → Ackable c f → SameFrame f g → Ackable c g
Ackable-same c f g a same = (sym same.1 ∙ a.0, omega (arith, a.1, same.2))

module _ {api : Api} (start : ℕ → ℕ) where
  -- What is owed when a transmission ends: an answer to the open request, or, for an ACK, the frame to
  -- its cell.
  abbrev pub Owed : Option ℕ → TaskTx → Service api → List Incoming → List ℕ → Type 0
  Owed (some token) t s left held =
      HasAck s
      × ((t₀ : TaskTx) × (t.radio_frame.pointer ≡ t₀.radio_frame.pointer)
          × Books start s ((token, tx t₀) ∷ left) (t.radio_frame.pointer ∷ held))
  Owed none t s left held =
      (s.tx_ack_frame ≡ none)
      × Ackable api.config t.radio_frame
      × Books start s left (t.radio_frame.pointer ∷ held)

  Owed-noted :
      (token : Option ℕ) (t : TaskTx) (s : Service api) (clients : api.Clients) (x : Incoming)
      → Owed token t s [] []
      → Owed token t (noted s (clients, some x)).0 (x ∷ []) (request_pointer x.1 ∷ [])
  Owed-noted (some token) t s clients x (ack, (t₀, own, books)) =
      (ack, (t₀, own, Books-noted s clients x _ _ books))
  Owed-noted none t s clients x (empty, ack, books) =
      (empty, ack, Books-noted s clients x _ _ books)

  Owed-idle :
      (token : Option ℕ) (t : TaskTx) (s : Service api) (clients : api.Clients)
      → Owed token t s [] []
      → Owed token t (noted s (clients, none)).0 [] []
  Owed-idle (some token) t s clients (ack, (t₀, own, books)) =
      (ack, (t₀, own, Books-idle s clients _ _ books))
  Owed-idle none t s clients (empty, ack, books) = (empty, ack, Books-idle s clients _ _ books)

  sent_result-Paid :
      (token : Option ℕ) (t : TaskTx) (r : TxResult) (s : Service api) (left : List Incoming)
      (held : List ℕ)
      → HasTemporary s
      → Owed token t s left held
      → Sent t r
      → (u : Service api) × (sent_result s token r ≡ returns u)
        × Books start u left held
        × HasAck u
        × HasTemporary u
  unfolding sent_result
  sent_result-Paid token t (nack f) s left held temporary owed sent_lem = elim sent_lem [ ]
  sent_result-Paid (some token) t (sent f) s left held temporary (ack, (t₀, own, books)) same = (
    answer s token (tx_done (sent f)),
    refl,
    Books-answer s token (tx t₀) (tx_done (sent f)) left t.radio_frame.pointer held books
        (sym same.0 ∙ own) (λ k. ap (at_pointer k) (sym same.0)),
    ack,
    temporary,
  )
  sent_result-Paid none t (sent f) s left held temporary (empty, ack, books) same =
      let filled =
        Books-set_ack s f left held empty
          (subst (λ (p : ℕ). Books start s left (p ∷ held)) same.0 books) in
      (
        filled.0,
        filled.1,
        filled.2,
        (f, filled.3, Ackable-same api.config t.radio_frame f ack same),
        (temporary.0, filled.4 ∙ temporary.1),
      )

  module _ (F : Type 0) (token : Option ℕ) (t : TaskTx) (s : Service api)
      (driver : RadioDriver api.Hardware tx_task) (temporary : HasTemporary s) where
    send_to_tx-Continues :
        (k : ℕ) (t' : TaskTx) (seq_nr : Option ℕ) (ifs : Ifs)
        (o : Outcome (CompletedRadioTransition api.Hardware tx_task tx_task))
        → Completes (tx_contract api.Hardware F) (tx_contract api.Hardware F) driver t t' false o
        → Owed token t s ((k, tx t') ∷ []) (t'.radio_frame.pointer ∷ [])
        → Continues F start (o >>= send_to_tx token s k (seq_nr, ifs))
    send_to_tx-Continues k t' seq_nr ifs panics c owed = c
    send_to_tx-Continues k t' seq_nr ifs (returns (entered r d')) c owed =
        let u = sent_result-Paid token t r s _ _ temporary owed c.0 in
        rw (u.1) (Inv-transmitting u.0 k t' d' seq_nr ifs u.3 u.4 u.2 c.2)
    send_to_tx-Continues k t' seq_nr ifs (returns (fallback r d' x)) c owed =
        let u = sent_result-Paid token t r s _ _ temporary owed c.0 in
        rw (u.1) (
          u.3,
          u.4,
          (
            c.3.0,
            refl,
            c.3.1,
            Books-refused u.0 k t' c.2.0 x c.2.1 (Busy-fallback api.Hardware F c.2.0 x c.2.2) u.2,
          ),
        )
    send_to_tx-Continues k t' seq_nr ifs (returns (rollback d' e none n)) c owed = only_fault c.1
    send_to_tx-Continues k t' seq_nr ifs (returns (rollback d' e (some r) n)) c owed = c.0

    send_to_off-Continues :
        (o : Outcome (CompletedRadioTransition api.Hardware tx_task off_task))
        → Completes
            (tx_contract api.Hardware F)
            (off_contract api.Hardware F)
            driver
            t
            off_at_once
            false
            o
        → Owed token t s [] []
        → Continues F start (o >>= send_to_off token s)
    send_to_off-Continues panics c owed = c
    send_to_off-Continues (returns (entered r d')) c owed =
        let u = sent_result-Paid token t r s _ _ temporary owed c.0 in
        rw (u.1) (u.3, u.4, (c.2.0, refl, c.2.1, u.2))
    send_to_off-Continues (returns (fallback r d' x)) c owed = only_failing c.2.2
    send_to_off-Continues (returns (rollback d' e none n)) c owed = only_fault c.1
    send_to_off-Continues (returns (rollback d' e (some r) n)) c owed = c.0

    module _ (Started : api.Hardware → Type 0) where
      send_to_rx-Continues :
          (k : ℕ) (t' : TaskRx)
          (o : Outcome (CompletedRadioTransition api.Hardware tx_task rx_task))
          → Completes
              (tx_contract api.Hardware F)
              (rx_contract api.Hardware Started F)
              driver
              t
              t'
              false
              o
          → Owed token t s ((k, rx t') ∷ []) (t'.radio_frame.pointer ∷ [])
          → Continues F start (o >>= send_to_rx token s k)
      send_to_rx-Continues k t' panics c owed = c
      send_to_rx-Continues k t' (returns (entered r d')) c owed =
          let u = sent_result-Paid token t r s _ _ temporary owed c.0 in
          rw (u.1) (Inv-receiving u.0 k t' d' u.3 u.4 u.2 c.2)
      send_to_rx-Continues k t' (returns (fallback r d' x)) c owed = only_failing c.2.2
      send_to_rx-Continues k t' (returns (rollback d' e none n)) c owed = only_fault c.1
      send_to_rx-Continues k t' (returns (rollback d' e (some r) n)) c owed = c.0

module _ {api : Api} {Started : api.Hardware → Type 0} {F : Type 0} (l : Lawful api Started F)
    (start : ℕ → ℕ) where
  pub send_then-Continues :
      (token : Option ℕ) (t : TaskTx) (s : Service api) (driver : RadioDriver api.Hardware tx_task)
      (ifs : Ifs) (x : api.Clients × Option Incoming)
      → HasTemporary s
      → driver.task ≡ some t
      → Sensible any x.1
      → Owed start token t s [] []
      → Continues F start (send_then driver token ifs (noted s x))
  send_then-Continues token t s driver ifs (c, none) temporary held sensible owed =
      send_to_off-Continues start F token t (noted s (c, none)).0 driver temporary
        (execute_external api.tx_state api.off_state api.switch_off
          (api.tx_to_off driver off_at_once))
        (execute_external-Completes api.tx_state api.off_state api.switch_off l.switched_lem
          l.tx_lawful l.off_lawful driver t off_at_once false (api.tx_to_off driver off_at_once)
          (l.tx_to_off_lem driver off_at_once) held)
        (Owed-idle start token t s c owed)
  send_then-Continues token t s driver ifs (c, some (k, tx t')) temporary held sensible owed =
      rw (sensible.1.1) (
        send_to_tx-Continues start F token t (noted s (c, some (k, tx t'))).0 driver temporary k t'
          sensible.1.0 _ (execute_self api.tx_state api.switch_off (api.tx_to_tx driver t' ifs))
          (execute_self-Completes api.tx_state api.switch_off l.switched_lem l.tx_lawful driver t t'
            false (api.tx_to_tx driver t' ifs) (l.tx_to_tx_lem driver t' ifs) held)
          (Owed-noted start token t s c (k, tx t') owed))
  send_then-Continues token t s driver ifs (c, some (k, rx t')) temporary held sensible owed =
      send_to_rx-Continues start F token t (noted s (c, some (k, rx t'))).0 driver temporary Started
        k t'
        (execute_external api.tx_state api.rx_state api.switch_off (api.tx_to_rx driver t' ifs))
        (execute_external-Completes api.tx_state api.rx_state api.switch_off l.switched_lem
          l.tx_lawful l.rx_lawful driver t t' false (api.tx_to_rx driver t' ifs)
          (l.tx_to_rx_lem driver t' ifs) held)
        (Owed-noted start token t s c (k, rx t') owed)
