-- ===== src/Driver/Windows.antt =====
-- How a reception ends: `receive_frame`, `drop_invalid_frame` and `end_rx_window` of
-- dot15d4/src/driver.rs.
use dot15d.Base.{
  ℕ, ◌≡◌, refl, sym, ap, ◌∙◌, subst, inl, inr, Bool, Bool-cases, length, List, [], ◌∷◌, Option,
  none, some, ◌==◌, Outcome, returns, arith,
}
use dot15d.Frame.Radio.{Config}
use dot15d.Frame.Radio.Buffered.{sdu_wo_fcs_length}
use dot15d.Radio.{
  SizedFrame, UnsizedFrame, TaskRx, RxResult, frame, rx_window_ended, crc_failed, filtered_frame,
  TaskTx, TxResult, sent, nack,
}
use dot15d.Radio.Contracts.{Readable, Received, IsFinal}
use dot15d.Driver.{tx, rx, tx_done, rx_done, Incoming, Api, Service}
use dot15d.Driver.Calls.{
  forget_frame_size, is_ack, ack_outcome, answer, recovered, noted, set_temporary,
}
use dot15d.Driver.Receiving.{received_result, ended_result}
use dot15d.Driver.Books.{
  rx_pointer, tx_pointer, at_pointer, request_pointer, Books, Books-noted, Books-idle, Books-answer,
  Books-swap, Books-set_temporary,
}
use dot15d.Driver.Invariant.{HasTemporary}

pub Received-pointer :
    (t : TaskRx) (r : RxResult) → Received t r → rx_pointer r ≡ t.radio_frame.pointer
Received-pointer t (frame f) h = h.0
Received-pointer t (rx_window_ended f) h = h
Received-pointer t (crc_failed f) h = h
Received-pointer t (filtered_frame f) h = h

pub recovered-pointer :
    (c : Config) (t : TaskRx) (r : RxResult)
    → Received t r
    → (recovered c r).pointer ≡ t.radio_frame.pointer
recovered-pointer c t (frame f) h = h.0
recovered-pointer c t (rx_window_ended f) h = h
recovered-pointer c t (crc_failed f) h = h
recovered-pointer c t (filtered_frame f) h = h

three : (xs : List ℕ) → length xs ≡ 3 → (a b c : ℕ) × (xs ≡ a ∷ b ∷ c ∷ [])
three [] h = absurd (omega arith)
three (a ∷ []) h = absurd (omega arith)
three (a ∷ b ∷ []) h = absurd (omega arith)
three (a ∷ b ∷ c ∷ []) h = (a, b, c, refl)
three (a ∷ b ∷ c ∷ d ∷ xs) h = absurd (omega arith)

is_ack-total :
    (f : SizedFrame) (seq_nr : ℕ) → Readable f → (b : Bool) × (is_ack f seq_nr ≡ returns b)
unfolding is_ack
is_ack-total f seq_nr (sdu, read, len) = elim (Bool-cases (sdu_wo_fcs_length f.frame == 3)) [
  | inl e ↦ let (a, b, c, same) = three sdu (ground arith) in rw (e, read, same) (_, refl)
  | inr e ↦ rw (e) (_, refl)
]

-- The window of an ACK ends with the transmission's own buffer, and with that of the reception.
ack_outcome-total :
    (c : Config) (own : SizedFrame) (seq_nr : ℕ) (t : TaskRx) (r : RxResult)
    → Received t r
    → IsFinal r
    → (x : TxResult) × (g : UnsizedFrame) × (ack_outcome c own seq_nr r ≡ returns (x, g))
      × (tx_pointer x ≡ own.pointer)
      × (g.pointer ≡ t.radio_frame.pointer)
unfolding ack_outcome
ack_outcome-total c own seq_nr t (frame f) h final =
    let (b, read) = is_ack-total f seq_nr h.1 in
    elim (Bool-cases b) [
      | inl e ↦ (sent own, forget_frame_size c f, rw (read, e) refl, refl, h.0)
      | inr e ↦ (nack own, forget_frame_size c f, rw (read, e) refl, refl, h.0)
    ]
ack_outcome-total c own seq_nr t (rx_window_ended f) h final = elim final [ ]
ack_outcome-total c own seq_nr t (crc_failed f) h final = (nack own, f, refl, refl, h)
ack_outcome-total c own seq_nr t (filtered_frame f) h final =
    (nack own, forget_frame_size c f, refl, refl, h)

abbrev pub frame_of : Option (SizedFrame × ℕ) → Option SizedFrame
frame_of none = none
frame_of (some (f, seq_nr)) = some f

-- A result is only wanted to be final in the window of an ACK.
abbrev pub Wanted : Option (SizedFrame × ℕ) → RxResult → Type 0
Wanted none r = Unit {0}
Wanted (some info) r = IsFinal r

module _ {api : Api} (start : ℕ → ℕ) where
  -- What is due when a reception ends: the request is one to receive, or, in the window of an ACK, one
  -- to send, and the buffer of the reception is then the temporary one.
  abbrev pub Due : Option SizedFrame → ℕ → TaskRx → Service api → List Incoming → List ℕ → Type 0
  Due none token t s left held =
      HasTemporary s
      × ((t₀ : TaskRx) × Books start s ((token, rx t₀) ∷ left) (t.radio_frame.pointer ∷ held))
  Due (some f) token t s left held =
      (s.temporary_rx_frame ≡ none)
      × ((t₀ : TaskTx) × (f.pointer ≡ t₀.radio_frame.pointer)
          × Books start s ((token, tx t₀) ∷ left) (t.radio_frame.pointer ∷ f.pointer ∷ held))

  abbrev pub Settled : Service api → List Incoming → List ℕ → Outcome (Service api) → Type 0
  Settled s left held o =
      (u : Service api) × (o ≡ returns u)
      × Books start u left held
      × HasTemporary u
      × (u.tx_ack_frame ≡ s.tx_ack_frame)

  pub Due-noted :
      (info : Option SizedFrame) (token : ℕ) (t : TaskRx) (s : Service api) (clients : api.Clients)
      (x : Incoming)
      → Due info token t s [] []
      → Due info token t (noted s (clients, some x)).0 (x ∷ []) (request_pointer x.1 ∷ [])
  Due-noted none token t s clients x (temporary, (t₀, books)) = (
    temporary,
    (t₀, Books-noted s clients x ((token, rx t₀) ∷ []) (t.radio_frame.pointer ∷ []) books),
  )
  Due-noted (some f) token t s clients x (temporary, (t₀, own, books)) = (
    temporary,
    (
      t₀,
      own,
      Books-noted s clients x ((token, tx t₀) ∷ []) (t.radio_frame.pointer ∷ f.pointer ∷ []) books,
    ),
  )

  pub Due-idle :
      (info : Option SizedFrame) (token : ℕ) (t : TaskRx) (s : Service api) (clients : api.Clients)
      → Due info token t s [] []
      → Due info token t (noted s (clients, none)).0 [] []
  Due-idle none token t s clients (temporary, (t₀, books)) =
      (temporary, (t₀, Books-idle s clients _ _ books))
  Due-idle (some f) token t s clients (temporary, (t₀, own, books)) =
      (temporary, (t₀, own, Books-idle s clients _ _ books))

  module _ (token : ℕ) (t : TaskRx) (r : RxResult) (s : Service api) (left : List Incoming)
      (held : List ℕ) where
    -- A transmission is answered, and the buffer of the window of its ACK is temporary again.
    window-Settled :
        (f : SizedFrame) (x : TxResult) (g : UnsizedFrame)
        → tx_pointer x ≡ f.pointer
        → g.pointer ≡ t.radio_frame.pointer
        → Due (some f) token t s left held
        → Settled s left held (set_temporary (answer s token (tx_done x)) g)
    window-Settled f x g own temp (empty, (t₀, mine, books)) =
        let answered =
          Books-answer s token (tx t₀) (tx_done x) left f.pointer (t.radio_frame.pointer ∷ held)
            (Books-swap s _ _ _ _ books) (own ∙ mine) (λ k. ap (at_pointer k) own) in
        let filled = Books-set_temporary (answer s token (tx_done x)) g left held empty (
          subst (λ (p : ℕ). Books start (answer s token (tx_done x)) left (p ∷ held)) (sym temp)
            answered) in
        (filled.0, filled.1, filled.2, (g, filled.3), filled.4)

    pub received_result-Settled :
        (info : Option (SizedFrame × ℕ))
        → Due (frame_of info) token t s left held
        → Received t r
        → Wanted info r
        → Settled s left held (received_result s token r info)
    unfolding received_result
    received_result-Settled none (temporary, (t₀, books)) received final = (
      answer s token (rx_done r),
      refl,
      Books-answer s token (rx t₀) (rx_done r) left t.radio_frame.pointer held books tt
          (λ k. ap (at_pointer k) (Received-pointer t r received)),
      temporary,
      refl,
    )
    received_result-Settled (some (f, seq_nr)) due received final =
        let (x, g, run, own, temp) = ack_outcome-total api.config f seq_nr t r received final in
        rw (run) (window-Settled f x g own temp due)

    pub ended_result-Settled :
        (info : Option SizedFrame)
        → Due info token t s left held
        → Received t r
        → Settled s left held (ended_result s token r info)
    unfolding ended_result
    ended_result-Settled none (temporary, (t₀, books)) received = (
      answer s token (rx_done (rx_window_ended (recovered api.config r))),
      refl,
      Books-answer s token (rx t₀) (rx_done (rx_window_ended (recovered api.config r))) left
          t.radio_frame.pointer held books tt
          (λ k. ap (at_pointer k) (recovered-pointer api.config t r received)),
      temporary,
      refl,
    )
    ended_result-Settled (some f) (empty, (t₀, mine, books)) received =
        let g = recovered api.config r in
        let filled = Books-set_temporary s g ((token, tx t₀) ∷ left) (f.pointer ∷ held) empty (
          subst (λ (p : ℕ). Books start s ((token, tx t₀) ∷ left) (p ∷ f.pointer ∷ held))
            (sym (recovered-pointer api.config t r received)) books) in
        (
          answer filled.0 token (tx_done (nack f)),
          rw (filled.1) refl,
          Books-answer filled.0 token (tx t₀) (tx_done (nack f)) left f.pointer held filled.2 mine
              (λ k. refl),
          (g, filled.3),
          filled.4,
        )
