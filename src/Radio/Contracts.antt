-- ===== src/Radio/Contracts.antt =====
-- What the documentation of the traits in dot15d4-driver/src/tasks.rs says of the tasks to switch
-- off, to receive and to send.
use dot15d.Base.{ℕ, ◌≡◌, Bool, true, List, length, returns}
use dot15d.Frame.Radio.Buffered.{sdu_ref, sdu_wo_fcs_length}
use dot15d.Radio.{
  SizedFrame, TaskRx, RxResult, frame, rx_window_ended, crc_failed, filtered_frame, TaskTx,
  TxResult, sent, nack, cca_busy, RadioTaskError, task, scheduling, off_task, rx_task, tx_task,
}
use dot15d.Radio.Completion.{Contract}

abbrev pub off_contract : (W Fault : Type 0) → Contract W off_task
off_contract W Fault = record {
  Done = λ t r. Unit {0};
  Undone = λ b t e. ⊥;
  Refused = λ t e. ⊥;
  Same = λ t t'. Unit {0};
  Live = λ w. Unit {0};
  Final = λ r. Unit {0};
  Fault = Fault;
}

-- The bytes of the SDU of a frame can be read, and are as many as the frame says.
abbrev pub Readable : SizedFrame → Type 0
Readable f =
    (sdu : List ℕ) × (sdu_ref f.frame ≡ returns sdu) × (length sdu ≡ sdu_wo_fcs_length f.frame)

-- A reception gives the buffer of its task back, in a frame that can be read if one was received.
abbrev pub Received : TaskRx → RxResult → Type 0
Received t (frame f) = (f.pointer ≡ t.radio_frame.pointer) × Readable f
Received t (rx_window_ended f) = f.pointer ≡ t.radio_frame.pointer
Received t (crc_failed f) = f.pointer ≡ t.radio_frame.pointer
Received t (filtered_frame f) = f.pointer ≡ t.radio_frame.pointer

-- It ends with a CRC error only where that is asked for.
abbrev pub RolledBack : Bool → RadioTaskError rx_task → Type 0
RolledBack b (scheduling e) = ⊥
RolledBack b (task e) = b ≡ true

abbrev pub SameRx : TaskRx → TaskRx → Type 0
SameRx t t' = t.radio_frame.pointer ≡ t'.radio_frame.pointer

abbrev pub IsFinal : RxResult → Type 0
IsFinal (rx_window_ended f) = ⊥
IsFinal _ = Unit {0}

-- `Started` are the states of the driver in which the reception of a frame has started.
abbrev pub rx_contract : (W : Type 0) → (W → Type 0) → Type 0 → Contract W rx_task
rx_contract W Started Fault = record {
  Done = Received;
  Undone = λ b t e. RolledBack b e;
  Refused = λ t e. ⊥;
  Same = SameRx;
  Live = Started;
  Final = IsFinal;
  Fault = Fault;
}

-- The same buffer, of the same size, with the same headroom.
abbrev pub SameFrame : SizedFrame → SizedFrame → Type 0
SameFrame f g =
    (f.pointer ≡ g.pointer)
    × (f.frame.headroom ≡ g.frame.headroom)
    × (length f.frame.buffer ≡ length g.frame.buffer)

-- A frame is sent; it is never nacked by the radio.
abbrev pub Sent : TaskTx → TxResult → Type 0
Sent t (sent f) = SameFrame t.radio_frame f
Sent t (nack f) = ⊥

-- A task is refused only for a busy channel, which only a task with CCA finds.
abbrev pub Busy : TaskTx → RadioTaskError tx_task → Type 0
Busy t (scheduling e) = ⊥
Busy t (task (cca_busy f)) = (t.cca ≡ true) × (f.pointer ≡ t.radio_frame.pointer)

abbrev pub SameTx : TaskTx → TaskTx → Type 0
SameTx t t' = SameFrame t.radio_frame t'.radio_frame × (t.cca ≡ t'.cca)

abbrev pub tx_contract : (W Fault : Type 0) → Contract W tx_task
tx_contract W Fault = record {
  Done = Sent;
  Undone = λ b t e. ⊥;
  Refused = Busy;
  Same = SameTx;
  Live = λ w. Unit {0};
  Final = λ r. Unit {0};
  Fault = Fault;
}
