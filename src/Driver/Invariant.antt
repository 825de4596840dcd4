-- ===== src/Driver/Invariant.antt =====
-- What holds between two turns of the driver service: dot15d4/src/driver.rs.
use dot15d.Base.{
  ℕ, ◌+◌, ◌≤◌, ◌≡◌, refl, sym, ap, ◌∙◌, ◌⊎◌, inl, inr, arith, subst, length, [], ◌∷◌, Option, none,
  some, Outcome, returns, panics,
}
use dot15d.Frame.Radio.{Config}
use dot15d.Radio.{
  SizedFrame, UnsizedFrame, TaskOff, TaskRx, TaskTx, Ifs, cca_busy, scheduling, task,
  RadioTaskError, RadioDriver, off_task, rx_task, tx_task,
}
use dot15d.Radio.Completion.{Disposed}
use dot15d.Radio.Contracts.{SameTx, SameRx, Busy, tx_contract}
use dot15d.Driver.{tx, rx, from_tx_error, Api, transmitting, receiving, switched_off, Service}
use dot15d.Driver.Calls.{Next, answer}
use dot15d.Driver.Books.{Books, Books-answer, at_pointer}

-- An ACK frame, with the headroom of the driver and room for a sequence number.
abbrev pub Ackable : Config → SizedFrame → Type 0
Ackable c f = (f.frame.headroom ≡ c.headroom) × (c.headroom + 3 ≤ length f.frame.buffer)

-- A frame that cannot be sent is only given back by a busy channel.
pub Busy-fallback :
    (W F : Type 0) (t : TaskTx) (x : RadioTaskError tx_task)
    → Busy t x ⊎ (F × Disposed (tx_contract W F) t)
    → Busy t x
Busy-fallback W F t x (inl busy) = busy
Busy-fallback W F t x (inr (fault, inl dropped)) = absurd (grind arith)
Busy-fallback W F t x (inr (fault, inr (scheduling e, refused, dropped))) = elim refused [ ]
Busy-fallback W F t x (inr (fault, inr (task e, refused, dropped))) = absurd (grind arith)

-- What is left where the next state never refuses its task, or the old one never gives up.
pub only_fault : {F : Type 0} → ⊥ ⊎ F → F
only_fault (inl h) = elim h [ ]
only_fault (inr fault) = fault

pub only_failing : {F D : Type 0} → ⊥ ⊎ (F × D) → F
only_failing (inl h) = elim h [ ]
only_failing (inr (fault, d)) = fault

module _ {api : Api} where
  abbrev pub HasAck : Service api → Type 0
  HasAck s = (f : SizedFrame) × (s.tx_ack_frame ≡ some f) × Ackable api.config f

  abbrev pub HasTemporary : Service api → Type 0
  HasTemporary s = (f : UnsizedFrame) × (s.temporary_rx_frame ≡ some f)

  abbrev pub Receives : (ℕ → ℕ) → RadioDriver api.Hardware rx_task → Option ℕ → Service api → Type 0
  Receives start driver token s =
      (k : ℕ) × (t t₀ : TaskRx) × (token ≡ some k)
      × (driver.task ≡ some t)
      × Books start s ((k, rx t₀) ∷ []) (t.radio_frame.pointer ∷ [])

  abbrev pub Transmits :
      (ℕ → ℕ) → RadioDriver api.Hardware tx_task → Option ℕ → Service api → Type 0
  Transmits start driver token s =
      (k : ℕ) × (t t₀ : TaskTx) × (token ≡ some k)
      × (driver.task ≡ some t)
      × (t.radio_frame.pointer ≡ t₀.radio_frame.pointer)
      × Books start s ((k, tx t₀) ∷ []) (t.radio_frame.pointer ∷ [])

  abbrev pub Rests : (ℕ → ℕ) → RadioDriver api.Hardware off_task → Option ℕ → Service api → Type 0
  Rests start driver token s =
      (o : TaskOff) × (token ≡ none) × (driver.task ≡ some o) × Books start s [] []

  -- Both frames are in their cells, and the request whose token is kept is the one that is open; its
  -- kind is that of the driver's state, which holds a buffer, for a transmission the request's own.
  abbrev pub Inv : (ℕ → ℕ) → Next api → Type 0
  Inv start (receiving driver, token, s) = HasAck s × HasTemporary s × Receives start driver token s
  Inv start (transmitting driver seq_nr ifs, token, s) =
      HasAck s × HasTemporary s × Transmits start driver token s
  Inv start (switched_off driver, token, s) = HasAck s × HasTemporary s × Rests start driver token s

  -- A step may only panic where the radio fails.
  abbrev pub Continues : Type 0 → (ℕ → ℕ) → Outcome (Next api) → Type 0
  Continues F start panics = F
  Continues F start (returns next) = Inv start next

  module _ {start : ℕ → ℕ} where
    pub Inv-transmitting :
        (s : Service api) (k : ℕ) (t : TaskTx) (driver : RadioDriver api.Hardware tx_task)
        (seq_nr : Option ℕ) (ifs : Ifs)
        → HasAck s
        → HasTemporary s
        → Books start s ((k, tx t) ∷ []) (t.radio_frame.pointer ∷ [])
        → (t' : TaskTx) × (driver.task ≡ some t') × SameTx t t'
        → Inv start (transmitting driver seq_nr ifs, some k, s)
    Inv-transmitting s k t driver seq_nr ifs ack temporary books (t', held, (same, cca)) = (
      ack,
      temporary,
      (
        k,
        t',
        t,
        refl,
        held,
        sym same.0,
        subst (λ (p : ℕ). Books start s ((k, tx t) ∷ []) (p ∷ [])) same.0 books,
      ),
    )

    pub Inv-receiving :
        (s : Service api) (k : ℕ) (t : TaskRx) (driver : RadioDriver api.Hardware rx_task)
        → HasAck s
        → HasTemporary s
        → Books start s ((k, rx t) ∷ []) (t.radio_frame.pointer ∷ [])
        → (t' : TaskRx) × (driver.task ≡ some t') × SameRx t t'
        → Inv start (receiving driver, some k, s)
    Inv-receiving s k t driver ack temporary books (t', held, same) = (
      ack,
      temporary,
      (k, t', t, refl, held, subst (λ (p : ℕ). Books start s ((k, rx t) ∷ []) (p ∷ [])) same books),
    )

    -- A task that is refused for a busy channel is answered.
    pub Books-refused :
        (s : Service api) (k : ℕ) (t t' : TaskTx) (error : RadioTaskError tx_task)
        → SameTx t t'
        → Busy t' error
        → Books start s ((k, tx t) ∷ []) (t.radio_frame.pointer ∷ [])
        → Books start (answer s k (from_tx_error error)) [] []
    Books-refused s k t t' (scheduling e) same busy books = elim busy [ ]
    Books-refused s k t t' (task (cca_busy f)) same busy books =
        let own : f.pointer ≡ t.radio_frame.pointer = busy.1 ∙ sym same.0.0 in
        Books-answer s k (tx t) (from_tx_error (task (cca_busy f))) [] t.radio_frame.pointer []
          books own λ j. ap (at_pointer j) own
