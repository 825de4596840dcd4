-- ===== src/Driver/Turns.antt =====
-- The event loop keeps the invariant: `try_receive_frame`, `schedule_next_request` and `run` of
-- dot15d4/src/driver.rs.
use dot15d.Base.{
  ℕ, ◌≡◌, refl, ◌∙◌, subst, ◌⊎◌, inl, inr, Bool, true, false, List, [], ◌∷◌, Option, none, some,
  Outcome, returns, panics, ◌>>=◌, Outcome-cases, arith,
}
use dot15d.Frame.Control.{FrameControl, ack_request, is_valid}
use dot15d.Frame.Control.Fields.{ack_request-is_valid}
use dot15d.Frame.Addressing.Fields.{AddressingFields}
use dot15d.Frame.Filter.{PreliminaryFrameInfo, is_frame_valid_and_for_us}
use dot15d.Radio.{
  TaskRx, TaskTx, TaskOff, Ifs, from_mpdu_length, RadioDriver, CompletedRadioTransition, entered,
  rollback, fallback, off_task, rx_task, tx_task, execute_external,
}
use dot15d.Radio.Completion.{Completes, execute_external-Completes}
use dot15d.Radio.Contracts.{off_contract, rx_contract, tx_contract}
use dot15d.Driver.{
  tx, rx, any, outbound, Incoming, Api, transmitting, receiving, switched_off, Service,
}
use dot15d.Driver.Calls.{Next, noted, receive_any}
use dot15d.Driver.Sending.{send_frame}
use dot15d.Driver.Receiving.{receive_frame}
use dot15d.Driver.Loop.{
  valid_frame, decided, frame_started, received_first, try_receive_frame, scheduled_tx,
  scheduled_rx, schedule_then, schedule_request, turn,
}
use dot15d.Driver.Laws.{Sensible, Informs, Lawful}
use dot15d.Driver.Books.{Books, Books-noted, Books-idle}
use dot15d.Driver.Invariant.{
  HasAck, HasTemporary, Inv, Continues, Busy-fallback, only_fault, only_failing, Inv-transmitting,
  Inv-receiving, Books-refused,
}
use dot15d.Driver.Windows.{Due}
use dot15d.Driver.Receptions.{receive_frame-Continues}
use dot15d.Driver.Endings.{drop_invalid_frame-Continues, end_rx_window-Continues}
use dot15d.Driver.Transmissions.{send_then-Continues}
use dot15d.Driver.Acknowledgements.{AckLost, wait_for_ack-Continues, send_ack-Continues}

-- A frame is only found valid if it has a frame control field that can be read.
valid-reads :
    (pan address : List ℕ) (implicit : Bool) (mpdu_length : ℕ) (fc : Option FrameControl)
    (seq_nr : Option ℕ) (fields : Option AddressingFields)
    → is_frame_valid_and_for_us pan implicit address (record {
      mpdu_length = mpdu_length;
      frame_control = fc;
      seq_nr = seq_nr;
      addressing_fields = fields;
    })
      ≡ returns true
    → (control : FrameControl) × (b : Bool) × (fc ≡ some control)
      × (ack_request control ≡ returns b)
unfolding is_frame_valid_and_for_us
valid-reads pan address implicit n none seq_nr fields h = absurd (grind arith)
valid-reads pan address implicit n (some fc) seq_nr none h = absurd (grind arith)
valid-reads pan address implicit n (some fc) seq_nr (some fields) h =
    elim (Outcome-cases (is_valid fc)) [
      | inl valid ↦ let read = ack_request-is_valid fc valid.0 valid.1 in (fc, read.0, refl, read.1)
      | inr stuck ↦ absurd (grind (arith, rw stuck at h))
    ]

module _ {api : Api} {start : ℕ → ℕ} (F : Type 0) (s : Service api)
    (driver : RadioDriver api.Hardware off_task) (o : TaskOff) where
  scheduled_tx-Continues :
      (t : TaskTx) (k : ℕ) (seq_nr : Option ℕ) (ifs : Ifs)
      (c : Outcome (CompletedRadioTransition api.Hardware off_task tx_task))
      → HasAck s
      → HasTemporary s
      → Completes (off_contract api.Hardware F) (tx_contract api.Hardware F) driver o t false c
      → Books start s ((k, tx t) ∷ []) (t.radio_frame.pointer ∷ [])
      → Continues F start (c >>= scheduled_tx s k (seq_nr, ifs))
  scheduled_tx-Continues t k seq_nr ifs panics ack temporary c books = c
  scheduled_tx-Continues t k seq_nr ifs (returns (entered r d)) ack temporary c books =
      Inv-transmitting s k t d seq_nr ifs ack temporary books c.2
  scheduled_tx-Continues t k seq_nr ifs (returns (fallback r d x)) ack temporary c books = (
    ack,
    temporary,
    (
      c.3.0,
      refl,
      c.3.1,
      Books-refused s k t c.2.0 x c.2.1 (Busy-fallback api.Hardware F c.2.0 x c.2.2) books,
    ),
  )
  scheduled_tx-Continues t k seq_nr ifs (returns (rollback d e none n)) ack temporary c books =
      only_fault c.1
  scheduled_tx-Continues t k seq_nr ifs (returns (rollback d e (some r) n)) ack temporary c books =
      c.0

  scheduled_rx-Continues :
      (Started : api.Hardware → Type 0) (t : TaskRx) (k : ℕ)
      (c : Outcome (CompletedRadioTransition api.Hardware off_task rx_task))
      → HasAck s
      → HasTemporary s
      → Completes
          (off_contract api.Hardware F)
          (rx_contract api.Hardware Started F)
          driver
          o
          t
          false
          c
      → Books start s ((k, rx t) ∷ []) (t.radio_frame.pointer ∷ [])
      → Continues F start (c >>= scheduled_rx s k)
  scheduled_rx-Continues Started t k panics ack temporary c books = c
  scheduled_rx-Continues Started t k (returns (entered r d)) ack temporary c books =
      Inv-receiving s k t d ack temporary books c.2
  scheduled_rx-Continues Started t k (returns (fallback r d x)) ack temporary c books =
      only_failing c.2.2
  scheduled_rx-Continues Started t k (returns (rollback d e none n)) ack temporary c books =
      only_fault c.1
  scheduled_rx-Continues Started t k (returns (rollback d e (some r) n)) ack temporary c books = c.0

-- The state that the exception to the invariant starts from.
abbrev pub LosesAck : {api : Api} → Next api → Type 0
LosesAck (transmitting driver (some seq_nr) ifs, token, s) = AckLost driver s
LosesAck _ = ⊥

module _ {api : Api} {Started : api.Hardware → Type 0} {F : Type 0} (l : Lawful api Started F)
    (start : ℕ → ℕ) where
  -- Outside the window of an ACK nothing is lost.
  receive_frame-Inv :
      (token : ℕ) (t : TaskRx) (s : Service api) (driver : RadioDriver api.Hardware rx_task)
      (ifs : Ifs)
      → HasAck s
      → driver.task ≡ some t
      → Due start none token t s [] []
      → Continues F start (receive_frame driver none token ifs s)
  receive_frame-Inv token t s driver ifs ack held due =
      elim (receive_frame-Continues l start none token t s driver ifs tt ack held due) [
        | inl go ↦ go
        | inr stop ↦ elim stop.1 [ ]
      ]

  valid_frame-Continues :
      (driver : RadioDriver api.Hardware rx_task) (token : ℕ) (ifs : Ifs) (t t₀ : TaskRx)
      (s : Service api) (requested : Bool) (seq_nr : Option ℕ)
      → HasAck s
      → HasTemporary s
      → driver.task ≡ some t
      → Books start s ((token, rx t₀) ∷ []) (t.radio_frame.pointer ∷ [])
      → Continues F start (valid_frame driver token ifs s requested seq_nr)
  valid_frame-Continues driver token ifs t t₀ s true (some seq_nr) ack temporary held books =
      send_ack-Continues l start driver token seq_nr ifs t t₀ s ack temporary held books
  valid_frame-Continues driver token ifs t t₀ s true none ack temporary held books =
      receive_frame-Inv token t s driver ifs ack held (temporary, (t₀, books))
  valid_frame-Continues driver token ifs t t₀ s false seq_nr ack temporary held books =
      receive_frame-Inv token t s driver ifs ack held (temporary, (t₀, books))

  decided-Continues :
      (driver : RadioDriver api.Hardware rx_task) (info : PreliminaryFrameInfo) (address : List ℕ)
      (token : ℕ) (t t₀ : TaskRx) (s : Service api) (valid : Bool)
      → is_frame_valid_and_for_us api.mac_pan_id api.implicit_broadcast address info ≡ returns valid
      → HasAck s
      → HasTemporary s
      → driver.task ≡ some t
      → Books start s ((token, rx t₀) ∷ []) (t.radio_frame.pointer ∷ [])
      → Continues F start (decided driver info token s valid)
  decided-Continues driver info address token t t₀ s true v ack temporary held books =
      let (control, b, found, read) =
        valid-reads api.mac_pan_id address api.implicit_broadcast info.mpdu_length
          info.frame_control info.seq_nr info.addressing_fields v in
      rw (found, read)
        (valid_frame-Continues driver token (from_mpdu_length info.mpdu_length) t t₀ s b info.seq_nr
          ack temporary held books)
  decided-Continues driver info address token t t₀ s false v ack temporary held books =
      drop_invalid_frame-Continues l start driver token t s ack held (temporary, (t₀, books))

  informed-Continues :
      (token : ℕ) (t t₀ : TaskRx) (s : Service api) (driver : RadioDriver api.Hardware rx_task)
      (address : List ℕ) (o : Outcome (RadioDriver api.Hardware rx_task × PreliminaryFrameInfo))
      → HasAck s
      → HasTemporary s
      → driver.task ≡ some t
      → Informs api F driver o
      → Books start s ((token, rx t₀) ∷ []) (t.radio_frame.pointer ∷ [])
      → Continues F start (o >>= λ known. frame_started address known token s)
  informed-Continues token t t₀ s driver address panics ack temporary held fault books = fault
  informed-Continues token t t₀ s driver address (returns (d, info)) ack temporary held known
        books =
      let (valid, v) = known.1 address in
      rw (v)
        (decided-Continues d info address token t t₀ s valid v ack temporary (known.0 ∙ held) books)

  received_first-Continues :
      (token : ℕ) (t t₀ : TaskRx) (s : Service api)
      (x : RadioDriver api.Hardware rx_task × api.Clients × Option Incoming)
      → HasAck s
      → HasTemporary s
      → x.0.task ≡ some t
      → Sensible outbound x.2
      → Books start s ((token, rx t₀) ∷ []) (t.radio_frame.pointer ∷ [])
      → Continues F start (received_first token s x)
  received_first-Continues token t t₀ s (driver, clients, none) ack temporary held sensible books =
      informed-Continues token t t₀ (noted s (clients, none)).0 driver
        (api.ieee802154_address driver) (api.preliminary_frame_info driver) ack temporary held
        (l.info_lem driver) (Books-idle s clients _ _ books)
  received_first-Continues token t t₀ s (driver, clients, some x) ack temporary held sensible
        books =
      end_rx_window-Continues l start driver token t none s (clients, some x) ack held sensible
        (temporary, (t₀, books))

  try_receive_frame-Continues :
      (driver : RadioDriver api.Hardware rx_task) (token : ℕ) (t t₀ : TaskRx) (s : Service api)
      → HasAck s
      → HasTemporary s
      → driver.task ≡ some t
      → Books start s ((token, rx t₀) ∷ []) (t.radio_frame.pointer ∷ [])
      → Continues F start (try_receive_frame driver token s)
  unfolding try_receive_frame
  try_receive_frame-Continues driver token t t₀ s ack temporary held books =
      received_first-Continues token t t₀ s (api.frame_started_or_request driver s.clients) ack
        temporary (l.request_task driver s.clients ∙ held) (l.request_sensible driver s.clients)
        books

  schedule_then-Continues :
      (driver : RadioDriver api.Hardware off_task) (o : TaskOff) (s : Service api) (c : api.Clients)
      (x : Incoming)
      → HasAck s
      → HasTemporary s
      → driver.task ≡ some o
      → Sensible any (some x)
      → Books start s [] []
      → Continues F start (schedule_then driver (noted s (c, some x)))
  schedule_then-Continues driver o s c (k, tx t) ack temporary held sensible books =
      rw (sensible.1.1) (
        scheduled_tx-Continues F (noted s (c, some (k, tx t))).0 driver o t k sensible.1.0 _
          (execute_external api.off_state api.tx_state api.switch_off (api.off_to_tx driver t)) ack
          temporary
          (execute_external-Completes api.off_state api.tx_state api.switch_off l.switched_lem
            l.off_lawful l.tx_lawful driver o t false (api.off_to_tx driver t)
            (l.off_to_tx_lem driver t) held)
          (Books-noted s c (k, tx t) [] [] books))
  schedule_then-Continues driver o s c (k, rx t) ack temporary held sensible books =
      scheduled_rx-Continues F (noted s (c, some (k, rx t))).0 driver o Started t k
        (execute_external api.off_state api.rx_state api.switch_off (api.off_to_rx driver t)) ack
        temporary
        (execute_external-Completes api.off_state api.rx_state api.switch_off l.switched_lem
          l.off_lawful l.rx_lawful driver o t false (api.off_to_rx driver t)
          (l.off_to_rx_lem driver t) held)
        (Books-noted s c (k, rx t) [] [] books)

  pub turn-Inv :
      (next : Next api)
      → Inv start next
      → Continues F start (turn next) ⊎ ((turn next ≡ panics) × LosesAck next)
  unfolding turn send_frame receive_any schedule_request
  turn-Inv (receiving driver, some token, s) (ack, temporary, (k, t, t₀, same, held, books)) = inl (
      try_receive_frame-Continues driver token t t₀ s ack temporary held (
        subst (λ (j : ℕ). Books start s ((j, rx t₀) ∷ []) (t.radio_frame.pointer ∷ []))
          (grind arith) books))
  turn-Inv (receiving driver, none, s) (ack, temporary, (k, t, t₀, same, held, books)) =
      absurd (grind arith)
  turn-Inv (transmitting driver seq_nr ifs, none, s)
        (ack, temporary, (k, t, t₀, same, held, own, books)) =
      absurd (grind arith)
  turn-Inv (transmitting driver none ifs, some token, s)
        (ack, temporary, (k, t, t₀, same, held, own, books)) =
      inl (
        send_then-Continues l start (some token) t s driver ifs
          (api.try_receive_request s.clients any) temporary held (l.received_sensible s.clients)
          (
            ack,
            (
              t₀,
              own,
              subst (λ (j : ℕ). Books start s ((j, tx t₀) ∷ []) (t.radio_frame.pointer ∷ []))
                  (grind arith) books,
            ),
          ))
  turn-Inv (transmitting driver (some seq_nr) ifs, some token, s)
        (ack, temporary, (k, t, t₀, same, held, own, books)) =
      wait_for_ack-Continues l start driver token seq_nr t t₀ s ack temporary held own (
        subst (λ (j : ℕ). Books start s ((j, tx t₀) ∷ []) (t.radio_frame.pointer ∷ []))
          (grind arith) books)
  turn-Inv (switched_off driver, token, s) (ack, temporary, (o, same, held, books)) =
      let waited = api.wait_for_request s.clients any in
      inl (
        schedule_then-Continues driver o s waited.0 waited.1 ack temporary held
          (l.waited_sensible s.clients) books)
