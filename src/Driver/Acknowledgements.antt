-- ===== src/Driver/Acknowledgements.antt =====
-- Acknowledgements: `wait_for_ack` and `send_ack` of dot15d4/src/driver.rs.
use dot15d.Base.{
  ℕ, ◌+◌, ◌≡◌, refl, sym, ap, ◌∙◌, subst, ◌⊎◌, inl, inr, Bool, true, false, length, length-set, [],
  ◌∷◌, none, some, Outcome, returns, panics, ◌>>=◌, arith, Result, ok, err,
}
use dot15d.Frame.Radio.Buffered
use dot15d.Mpdu.Frame.{MpduFrame, from_radio_frame, into_radio_frame, set_sequence_number}
use dot15d.Mpdu.Frame.Numbering.{set_sequence_number-sequence_number}
use dot15d.Radio.{
  SizedFrame, UnsizedFrame, best_effort, TaskRx, TaskTx, sent, nack, cca_busy, scheduling, task,
  RadioTaskError, Ifs, aifs, from_mpdu_length, RadioDriver, CompletedRadioTransition, entered,
  rollback, fallback, rx_task, tx_task, execute_external,
}
use dot15d.Radio.Completion.{Completes, execute_external-Completes}
use dot15d.Radio.Contracts.{rx_contract, tx_contract, SameTx, Busy}
use dot15d.Driver.{tx, rx, rx_done, any, Api, Service}
use dot15d.Driver.Calls.{rx_at_once, answer, receive_any}
use dot15d.Driver.Sending.{awaited, wait_to_rx, wait_for_ack, send_frame, acked_to_tx, send_ack}
use dot15d.Driver.Laws.{Lawful}
use dot15d.Driver.Books.{
  at_pointer, Books, Books-answer, Books-swap, Books-set_ack, Books-without_temporary,
  Books-without_ack,
}
use dot15d.Driver.Invariant.{Ackable, HasAck, HasTemporary, Continues, only_fault, only_failing}
use dot15d.Driver.Windows.{Due, Received-pointer}
use dot15d.Driver.Receptions.{Resumes, receive_frame-Continues}
use dot15d.Driver.Endings.{end_rx_window-Continues}
use dot15d.Driver.Transmissions.{Ackable-same, send_then-Continues}

module _ {api : Api} where
  -- The frame in the window of the ACK of a transmission has started, and its reception is rolled back.
  abbrev pub AckRollsBack :
      Service api → Outcome (CompletedRadioTransition api.Hardware tx_task rx_task) → Type 0
  AckRollsBack s (returns (entered r driver)) =
      ((api.frame_started_or_timeout driver).1 ≡ true)
      × Resumes (api.frame_started_or_timeout driver).0 s
  AckRollsBack s _ = ⊥

  -- The same, from the state in which a frame is sent that asks for an ACK.
  abbrev pub AckLost : RadioDriver api.Hardware tx_task → Service api → Type 0
  AckLost driver s =
      (f : UnsizedFrame) × (s.temporary_rx_frame ≡ some f)
      × AckRollsBack (record s { temporary_rx_frame = none })
          (execute_external api.tx_state api.rx_state api.switch_off
            (api.tx_to_rx driver (rx_at_once f) aifs))

Busy-SameTx :
    (a n : TaskTx) (x : RadioTaskError tx_task) → a.cca ≡ false → SameTx a n → Busy n x → ⊥
Busy-SameTx a n (scheduling e) cca same busy = elim busy [ ]
Busy-SameTx a n (task (cca_busy f)) cca same busy = grind (arith, same.1, busy.0)

module _ {api : Api} {Started : api.Hardware → Type 0} {F : Type 0} (l : Lawful api Started F)
    (start : ℕ → ℕ) where
  awaited-Continues :
      (p : RadioDriver api.Hardware rx_task × Bool) (g : SizedFrame) (k seq_nr : ℕ) (t : TaskRx)
      (s : Service api)
      → HasAck s
      → p.0.task ≡ some t
      → (p.1 ≡ true → Started p.0.inner)
      → Due start (some g) k t s [] []
      → Continues F start (awaited p g k seq_nr s)
        ⊎ ((awaited p g k seq_nr s ≡ panics) × ((p.1 ≡ true) × Resumes p.0 s))
  unfolding receive_any
  awaited-Continues (driver, true) g k seq_nr t s ack held started due =
      elim (receive_frame-Continues l start (some (g, seq_nr)) k t s driver
        (from_mpdu_length (Buffered.sdu_length g.frame)) (started refl) ack held due) [
          | inl go ↦ inl go
          | inr stop ↦ inr (stop.0, (refl, stop.2))
        ]
  awaited-Continues (driver, false) g k seq_nr t s ack held started due = inl (
      end_rx_window-Continues l start driver k t (some g) s (api.try_receive_request s.clients any)
        ack held (l.received_sensible s.clients) due)

  wait_to_rx-Continues :
      (token seq_nr : ℕ) (t t₀ : TaskTx) (t' : TaskRx) (s : Service api)
      (driver : RadioDriver api.Hardware tx_task)
      (o : Outcome (CompletedRadioTransition api.Hardware tx_task rx_task))
      → HasAck s
      → s.temporary_rx_frame ≡ none
      → Completes
          (tx_contract api.Hardware F)
          (rx_contract api.Hardware Started F)
          driver
          t
          t'
          false
          o
      → t.radio_frame.pointer ≡ t₀.radio_frame.pointer
      → Books start s ((token, tx t₀) ∷ []) (t'.radio_frame.pointer ∷ t.radio_frame.pointer ∷ [])
      → Continues F start (o >>= wait_to_rx token seq_nr s)
        ⊎ ((o >>= wait_to_rx token seq_nr s ≡ panics) × AckRollsBack s o)
  wait_to_rx-Continues token seq_nr t t₀ t' s driver panics ack empty c own books = inl c
  wait_to_rx-Continues token seq_nr t t₀ t' s driver (returns (fallback r d x)) ack empty c own
        books =
      inl (only_failing c.2.2)
  wait_to_rx-Continues token seq_nr t t₀ t' s driver (returns (rollback d e none n)) ack empty c own
        books =
      inl (only_fault c.1)
  wait_to_rx-Continues token seq_nr t t₀ t' s driver (returns (rollback d e (some r) n)) ack empty c
        own books =
      inl c.0
  wait_to_rx-Continues token seq_nr t t₀ t' s driver (returns (entered (nack g) d)) ack empty c own
        books =
      elim c.0 [ ]
  wait_to_rx-Continues token seq_nr t t₀ t' s driver (returns (entered (sent g) d)) ack empty c own
        books =
      awaited-Continues (api.frame_started_or_timeout d) g token seq_nr c.2.0 s ack
        (l.timeout_task d ∙ c.2.1) (l.timeout_started d)
        (
          empty,
          (
            t₀,
            sym c.0.0 ∙ own,
            subst (λ (p : ℕ). Books start s ((token, tx t₀) ∷ []) (p ∷ g.pointer ∷ [])) c.2.2
                (subst
                  (λ (p : ℕ). Books start s ((token, tx t₀) ∷ []) (t'.radio_frame.pointer ∷ p ∷ []))
                  c.0.0 books),
          ),
        )

  pub wait_for_ack-Continues :
      (driver : RadioDriver api.Hardware tx_task) (token seq_nr : ℕ) (t t₀ : TaskTx)
      (s : Service api)
      → HasAck s
      → HasTemporary s
      → driver.task ≡ some t
      → t.radio_frame.pointer ≡ t₀.radio_frame.pointer
      → Books start s ((token, tx t₀) ∷ []) (t.radio_frame.pointer ∷ [])
      → Continues F start (wait_for_ack driver token seq_nr s)
        ⊎ ((wait_for_ack driver token seq_nr s ≡ panics) × AckLost driver s)
  unfolding wait_for_ack
  wait_for_ack-Continues driver token seq_nr t t₀ s ack (f, full) held own books =
      let taken =
        Books-without_temporary s f ((token, tx t₀) ∷ []) (t.radio_frame.pointer ∷ []) full books in
      let s' : Service api = record s { temporary_rx_frame = none } in
      rw (full)
        (elim (wait_to_rx-Continues token seq_nr t t₀ (rx_at_once f) s' driver
          (execute_external api.tx_state api.rx_state api.switch_off
            (api.tx_to_rx driver (rx_at_once f) aifs))
          ack refl
          (execute_external-Completes api.tx_state api.rx_state api.switch_off l.switched_lem
            l.tx_lawful l.rx_lawful driver t (rx_at_once f) false
            (api.tx_to_rx driver (rx_at_once f) aifs) (l.tx_to_rx_lem driver (rx_at_once f) aifs)
            held)
          own taken) [ inl go ↦ inl go | inr stop ↦ inr (stop.0, (f, refl, stop.1)) ])

  -- The number of an ACK is set in the frame that is kept for it.
  numbered_lem :
      (f : SizedFrame) (seq_nr : ℕ)
      → Ackable api.config f
      → (m : MpduFrame) × (r : Result (Unit {0}) (Unit {0})) × (set_sequence_number
            (from_radio_frame f)
            seq_nr
          ≡ returns (m, r))
        × ((into_radio_frame api.config m).pointer ≡ f.pointer)
        × Ackable api.config (into_radio_frame api.config m)
  unfolding from_radio_frame into_radio_frame Buffered.with_size Buffered.new
  numbered_lem f seq_nr a =
      elim (set_sequence_number-sequence_number (from_radio_frame f) seq_nr
        (omega (arith, a.0, l.short_headroom), omega (arith, a.0, a.1))) [
          | inl same ↦ (from_radio_frame f, err tt, same.0, refl, (refl, a.1))
          | inr changed ↦ (
            changed.0,
            ok tt,
            changed.1,
            ap (λ (m : MpduFrame). m.pointer) changed.3,
            (
              refl,
              omega (
                arith,
                a.1,
                length-set f.frame.buffer (f.frame.headroom + 2) seq_nr,
                ap (λ (m : MpduFrame). length m.buffer) changed.3,
              ),
            ),
          )
        ]

  acked_to_tx-Continues :
      (token : ℕ) (t t₀ : TaskRx) (a : TaskTx) (ifs : Ifs) (s : Service api)
      (driver : RadioDriver api.Hardware rx_task)
      (o : Outcome (CompletedRadioTransition api.Hardware rx_task tx_task))
      → s.tx_ack_frame ≡ none
      → HasTemporary s
      → Ackable api.config a.radio_frame
      → a.cca ≡ false
      → Completes
          (rx_contract api.Hardware Started F)
          (tx_contract api.Hardware F)
          driver
          t
          a
          true
          o
      → Books start s ((token, rx t₀) ∷ []) (a.radio_frame.pointer ∷ t.radio_frame.pointer ∷ [])
      → Continues F start (o >>= acked_to_tx token ifs s)
  unfolding send_frame receive_any
  acked_to_tx-Continues token t t₀ a ifs s driver panics empty temporary ackable cca c books = c
  acked_to_tx-Continues token t t₀ a ifs s driver (returns (entered r d)) empty temporary ackable
        cca c books =
      let s' = answer s token (rx_done r) in
      send_then-Continues l start none c.2.0 s' d ifs (api.try_receive_request s.clients any)
        temporary c.2.1 (l.received_sensible s.clients)
        (
          empty,
          Ackable-same api.config a.radio_frame c.2.0.radio_frame ackable c.2.2.0,
          subst (λ (p : ℕ). Books start s' [] (p ∷ [])) c.2.2.0.0
              (Books-answer s token (rx t₀) (rx_done r) [] t.radio_frame.pointer
                (a.radio_frame.pointer ∷ []) (Books-swap s _ _ _ _ books) tt
                (λ k. ap (at_pointer k) (Received-pointer t r c.0))),
        )
  acked_to_tx-Continues token t t₀ a ifs s driver (returns (rollback d e (some r) n)) empty
        temporary ackable cca c books =
      c.0
  acked_to_tx-Continues token t t₀ a ifs s driver (returns (rollback d e none n)) empty temporary
        ackable cca c books =
      let filled =
        Books-set_ack s n.radio_frame ((token, rx t₀) ∷ []) (t.radio_frame.pointer ∷ []) empty (
          subst (λ (p : ℕ). Books start s ((token, rx t₀) ∷ []) (p ∷ t.radio_frame.pointer ∷ []))
            c.2.0.0 books) in
      rw (filled.1) (
        (
          n.radio_frame,
          filled.3,
          Ackable-same api.config a.radio_frame n.radio_frame ackable c.2.0,
        ),
        (temporary.0, filled.4 ∙ temporary.1),
        (token, t, t₀, refl, c.0, filled.2),
      )
  acked_to_tx-Continues token t t₀ a ifs s driver (returns (fallback r d x)) empty temporary ackable
        cca c books =
      elim c.2.2 [
        | inl busy ↦ absurd (Busy-SameTx a c.2.0 x cca c.2.1 busy)
        | inr failing ↦ failing.0
      ]

  pub send_ack-Continues :
      (driver : RadioDriver api.Hardware rx_task) (token ack_seq_nr : ℕ) (ifs : Ifs) (t t₀ : TaskRx)
      (s : Service api)
      → HasAck s
      → HasTemporary s
      → driver.task ≡ some t
      → Books start s ((token, rx t₀) ∷ []) (t.radio_frame.pointer ∷ [])
      → Continues F start (send_ack driver token ack_seq_nr ifs s)
  unfolding send_ack
  send_ack-Continues driver token ack_seq_nr ifs t t₀ s (f, full, ackable) temporary held books =
      let s' : Service api = record s { tx_ack_frame = none } in
      let m = numbered_lem f ack_seq_nr ackable in
      let a : TaskTx = record {
        at = best_effort;
        radio_frame = into_radio_frame api.config m.0;
        cca = false;
      } in
      rw (full, m.2)
        (acked_to_tx-Continues token t t₀ a ifs s' driver
          (execute_external api.rx_state api.tx_state api.switch_off
            (api.rx_to_tx driver a aifs true))
          refl temporary m.4 refl
          (execute_external-Completes api.rx_state api.tx_state api.switch_off l.switched_lem
            l.rx_lawful l.tx_lawful driver t a true (api.rx_to_tx driver a aifs true)
            (l.rx_to_tx_lem driver a aifs true) held)
          (subst (λ (p : ℕ). Books start s' ((token, rx t₀) ∷ []) (p ∷ t.radio_frame.pointer ∷ []))
            (sym m.3)
            (Books-without_ack s f ((token, rx t₀) ∷ []) (t.radio_frame.pointer ∷ []) full books)))
