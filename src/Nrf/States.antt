-- ===== src/Nrf/States.antt =====
-- The states of the nRF radio keep the promises that the driver service relies on:
-- dot15d4-driver/src/socs/nrf/radio.rs.
use dot15d.Base.{
  ok, err, none, ap, ◌⊎◌, ℕ, ◌+◌, ◌-◌, ◌≤◌, ◌<◌, ◌≡◌, refl, sym, ◌∙◌, subst, inl, inr, Bool, true,
  false, Bool-cases, ◌||◌, ◌&&◌, ◌^◌, ◌%◌, List, ◌∷◌, length, some, Outcome, returns, panics, arith,
}
use dot15d.Frame.Radio.{saturating_add}
use dot15d.Frame.Radio.Buffered
use dot15d.Frame.Addressing.Fields.Partition.{part, part_of_slice}
use dot15d.Radio.{
  sent, cca_busy, task, SizedFrame, TaskRx, frame, TaskTx, RadioDriver, rx_task, tx_task,
}
use dot15d.Radio.Completion.{LawfulState, Runs, Enters}
use dot15d.Radio.Contracts.{off_contract, rx_contract, tx_contract, Received, Readable}
use dot15d.Nrf.{
  RadioRegisters, in_memory, received_frame, Ran, reception_failed, reception_succeeded,
  window_ended, rx_run, transition_with, transition_cca, tx_transition, tx_run, nrf_off, nrf_tx,
}

pub nrf_off-LawfulState : LawfulState (off_contract RadioRegisters ⊥) nrf_off
nrf_off-LawfulState = record {
  run_lem = λ d t b held. (tt, λ l. tt);
  transition_lem = λ d t held. held;
  exit_lem = λ d. inl refl;
}

tx_run-Runs :
    (d : RadioDriver RadioRegisters tx_task) (t : TaskTx) (b : Bool)
    → d.task ≡ some t
    → Runs (tx_contract RadioRegisters ⊥) d.inner t b (tx_run d b)
unfolding tx_run
tx_run-Runs d t b held = rw (held) ((refl, refl, refl), λ l. tt)

transition_cca-Enters :
    (d : RadioDriver RadioRegisters tx_task) (t : TaskTx) (busy : Bool)
    → d.task ≡ some t
    → (busy ≡ true → t.cca ≡ true)
    → Enters (tx_contract RadioRegisters ⊥) t (returns (transition_cca d t busy))
transition_cca-Enters d t true held asked = inl (refl, (asked refl, refl))
transition_cca-Enters d t false held asked = held

and_false : (b : Bool) → b && false ≡ false
and_false true = refl
and_false false = refl

tx_transition-Enters :
    (d : RadioDriver RadioRegisters tx_task) (t : TaskTx)
    → d.task ≡ some t
    → Enters (tx_contract RadioRegisters ⊥) t (tx_transition d)
unfolding tx_transition
tx_transition-Enters d t held =
    subst (λ o. Enters (tx_contract RadioRegisters ⊥) t (returns (transition_with d o))) (sym held)
      (transition_cca-Enters d t (t.cca && d.inner.ccabusy) held (ground arith))

-- The TX state keeps its promises, as the driver service relies on them.
pub nrf_tx-LawfulState : LawfulState (tx_contract RadioRegisters ⊥) nrf_tx
nrf_tx-LawfulState = record {
  run_lem = tx_run-Runs;
  transition_lem = tx_transition-Enters;
  exit_lem = λ d. inl refl;
}

-- An attempt to send with a radio in the TX state.
abbrev pub Transmits : RadioDriver RadioRegisters tx_task → TaskTx → Type 0
Transmits d t =
    (tx_transition d ≡ returns (d, ok tt))
    × ((b : Bool)
        → (d' : RadioDriver RadioRegisters tx_task) × (tx_run d b
            ≡ returns (d', ok (sent t.radio_frame)))
          × (d'.task ≡ none)
          × (d'.inner.framestart ≡ false))

abbrev pub RefusesOnce : RadioDriver RadioRegisters tx_task → TaskTx → Type 0
RefusesOnce d t =
    (d' : RadioDriver RadioRegisters tx_task) × (tx_transition d
      ≡ returns (d', err (task (cca_busy t.radio_frame))))
    × (d'.task ≡ none)
    × ((t' : TaskTx) → Transmits (record d' { task = some t' }) t')

abbrev pub Attempts : RadioDriver RadioRegisters tx_task → TaskTx → Type 0
Attempts d t =
    ((t.cca && d.inner.ccabusy ≡ true) × RefusesOnce d t)
    ⊎ ((t.cca && d.inner.ccabusy ≡ false) × Transmits d t)

transmits :
    (d : RadioDriver RadioRegisters tx_task) (t : TaskTx)
    → d.task ≡ some t
    → t.cca && d.inner.ccabusy ≡ false
    → Transmits d t
unfolding tx_transition tx_run
transmits d t held idle = (
  subst (λ o. returns (transition_with d o) ≡ returns (d, ok tt)) (sym held)
      (ap (λ b. returns (transition_cca d t b)) idle),
  λ b. rw (held) (_, refl, refl, refl),
)

-- A task in the TX state is refused exactly when it asks for CCA and the channel is found busy: its
-- frame is given back, no task is left, and whatever task is tried next is sent, as the busy event is
-- reset. Otherwise the state is entered and then sends the frame of the task, which is taken.
pub tx_transition-Attempts :
    (d : RadioDriver RadioRegisters tx_task) (t : TaskTx) → d.task ≡ some t → Attempts d t
unfolding tx_transition
tx_transition-Attempts d t held = elim (Bool-cases (t.cca && d.inner.ccabusy)) [
  | inl busy ↦
      let d' = (transition_cca d t true).0 in
      inl (
        busy,
        (
          d',
          subst
              (λ o.
                returns (transition_with d o) ≡ returns (d', err (task (cca_busy t.radio_frame))))
              (sym held) (ap (λ b. returns (transition_cca d t b)) busy),
          refl,
          λ t'. transmits (record d' { task = some t' }) t' refl (and_false t'.cca),
        ),
      )
  | inr idle ↦ inr (idle, transmits d t held idle)
]

-- A packet whose length byte counts at least one byte and the FCS, and whose bytes are in the buffer.
pub record IsPacket (packet : List ℕ) : Type 0 where
  pub size : ℕ
  pub rest : List ℕ
  pub size_first : packet ≡ size ∷ rest
  pub not_empty : 3 ≤ size
  pub is_byte : size < 256
  pub in_buffer : size ≤ 2 + length rest

sized-Readable :
    (f : Buffered.RadioFrame) (n : ℕ) (pointer : ℕ)
    → f.headroom ≡ 1
    → 0 < n
    → n < 254
    → 1 + n ≤ length f.buffer
    → Readable (record { pointer = pointer; frame = Buffered.with_size f n })
unfolding Buffered.with_size Buffered.sdu_ref Buffered.sdu_wo_fcs_length
sized-Readable f n pointer headroom positive small fits =
    let (read, len) = part_of_slice f.buffer 1 n fits in
    let end : saturating_add n f.headroom ≡ 1 + n = omega arith in
    (part f.buffer 1 n, rw (end, headroom) read, rw (end, headroom) (len ∙ omega arith))

received_frame-Received :
    (t : TaskRx) (packet : List ℕ)
    → t.radio_frame.frame.headroom ≡ 1
    → IsPacket packet
    → (f : SizedFrame) × (received_frame (in_memory t.radio_frame packet) ≡ returns f)
      × Received t (frame f)
received_frame-Received t packet headroom p =
    let n : (p.size + 2 ^ 16 - 2) % 2 ^ 16 ≡ p.size - 2 = omega arith in
    (
      record {
        pointer = t.radio_frame.pointer;
        frame = Buffered.with_size (in_memory t.radio_frame packet).frame (p.size - 2);
      },
      rw (p.size_first) (ground arith),
      (
        refl,
        sized-Readable (in_memory t.radio_frame packet).frame (p.size - 2) t.radio_frame.pointer
            headroom (omega arith) (omega arith) (rw (p.size_first) (omega arith)),
      ),
    )

abbrev RxContracted : RadioDriver RadioRegisters rx_task → TaskRx → Bool → Outcome Ran → Type 0
RxContracted d t b = Runs (rx_contract RadioRegisters (λ w. w.framestart ≡ true) ⊥) d.inner t b

reception_failed-Runs :
    (d : RadioDriver RadioRegisters rx_task) (t : TaskRx) (b : Bool)
    → d.task ≡ some t
    → RxContracted d t b (reception_failed d b)
reception_failed-Runs d t true held = (held, inl refl)
reception_failed-Runs d t false held = rw (held) (refl, λ live. tt)

reception_succeeded-Runs :
    (d : RadioDriver RadioRegisters rx_task) (t : TaskRx) (b : Bool)
    → d.task ≡ some t
    → t.radio_frame.frame.headroom ≡ 1
    → IsPacket d.inner.packet
    → RxContracted d t b (reception_succeeded d)
reception_succeeded-Runs d t b held headroom p =
    let (f, read, received) = received_frame-Received t d.inner.packet headroom p in
    rw (held, read) (received, λ live. tt)

window_ended-Runs :
    (d : RadioDriver RadioRegisters rx_task) (t : TaskRx) (b : Bool)
    → d.task ≡ some t
    → d.inner.framestart ≡ false
    → RxContracted d t b (window_ended d)
window_ended-Runs d t b held idle = rw (held) (refl, λ live. absurd (ground arith))

-- With a packet in memory, the RX state keeps the promises of its task: it ends with a frame that can
-- be read, without one or with a CRC error, gives the buffer back or keeps the task, and does not end
-- the window once a frame has started.
pub rx_run-Runs :
    (d : RadioDriver RadioRegisters rx_task) (t : TaskRx) (b : Bool)
    → d.task ≡ some t
    → t.radio_frame.frame.headroom ≡ 1
    → IsPacket d.inner.packet
    → Runs (rx_contract RadioRegisters (λ w. w.framestart ≡ true) ⊥) d.inner t b (rx_run d b)
unfolding rx_run
rx_run-Runs d t b held headroom p = elim (Bool-cases (d.inner.framestart || d.inner.end_start)) [
  | inl on ↦ elim (Bool-cases d.inner.crcerror) [
    | inl wrong ↦ subst (RxContracted d t b) (ground arith) (reception_failed-Runs d t b held)
    | inr right ↦
        subst (RxContracted d t b) (ground arith) (reception_succeeded-Runs d t b held headroom p)
  ]
  | inr off ↦
      subst (RxContracted d t b) (ground arith) (window_ended-Runs d t b held (ground arith))
]

-- A frame with only an FCS, whose CRC is right, panics.
pub rx_run_panics :
    (d : RadioDriver RadioRegisters rx_task) (t : TaskRx) (b : Bool) (rest : List ℕ)
    → d.task ≡ some t
    → d.inner.framestart ≡ true
    → d.inner.crcerror ≡ false
    → d.inner.packet ≡ 2 ∷ rest
    → rx_run d b ≡ panics
unfolding rx_run
rx_run_panics d t b rest held started right empty = rw (held, started, right, empty) refl
