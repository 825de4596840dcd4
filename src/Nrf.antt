-- ===== src/Nrf.antt =====
-- The states of the nRF radio as the driver service sees them: `run` and `transition` of the off, RX
-- and TX states in dot15d4-driver/src/socs/nrf/radio.rs. The registers that are read are a parameter:
-- their values when the wait of the function has ended, with the bytes at the packet pointer. Writes
-- to registers that are not read here and the tracing of tasks are left out.
pub mod Examples
pub mod States
use dot15d.Base.{
  ℕ, ◌+◌, ◌-◌, ◌%◌, ◌^◌, Bool, true, false, ◌&&◌, ◌||◌, List, Option, none, some, ◌==◌,
  if◌then◌else◌, Outcome, returns, panics, ◌>>=◌, index, Result, ok, err,
}
use dot15d.Frame.Radio.Buffered
use dot15d.Radio.{
  RadioTask, SizedFrame, UnsizedFrame, off, TaskRx, frame, rx_window_ended, crc_failed, crc_error,
  TaskTx, sent, cca_busy, RadioTaskError, task, SchedulingError, RadioDriver, RadioState, off_task,
  rx_task, tx_task,
}

-- `end_start` is a short, the others are events; `packet` is what the radio wrote to memory.
pub record RadioRegisters : Type 0 where
  pub end_start : Bool
  pub framestart : Bool
  pub crcerror : Bool
  pub ccabusy : Bool
  pub packet : List ℕ

abbrev pub taken : {T : Type 0} → Option T → Outcome T
taken none = panics
taken (some t) = returns t

-- The frame that was received into a buffer.
abbrev pub in_memory : UnsizedFrame → List ℕ → UnsizedFrame
in_memory f packet = record f { frame = record f.frame { buffer = packet } }

-- `FCS_LEN` is 2, and the subtraction wraps as in a release build; the first byte is the length of the frame with its FCS.
abbrev pub received_frame : UnsizedFrame → Outcome SizedFrame
received_frame f = do
  size ← index f.frame.buffer 0
  let sdu_length_wo_fcs = (size + 2 ^ 16 - 2) % 2 ^ 16
  if sdu_length_wo_fcs == 0
      then panics
      else returns
          (record { pointer = f.pointer; frame = Buffered.with_size f.frame sdu_length_wo_fcs })

-- The end of `run`: the task is gone if it was taken, and the frame start event is reset.
abbrev pub without_task : RadioDriver RadioRegisters rx_task → RadioDriver RadioRegisters rx_task
without_task d = record { inner = record d.inner { framestart = false }; task = none }

abbrev pub with_task : RadioDriver RadioRegisters rx_task → RadioDriver RadioRegisters rx_task
with_task d = record d { inner = record d.inner { framestart = false; crcerror = false } }

abbrev pub Ran : Type 0
Ran = RadioDriver RadioRegisters rx_task × Result rx_task.TaskResult (RadioTaskError rx_task)

abbrev pub reception_failed : RadioDriver RadioRegisters rx_task → Bool → Outcome Ran
reception_failed d true = returns (with_task d, err (task crc_error))
reception_failed d false = do
  t ← taken d.task
  returns (without_task (with_task d), ok (crc_failed t.radio_frame))

abbrev pub reception_succeeded : RadioDriver RadioRegisters rx_task → Outcome Ran
reception_succeeded d = do
  t ← taken d.task
  f ← received_frame (in_memory t.radio_frame d.inner.packet)
  returns (without_task d, ok (frame f))

abbrev pub window_ended : RadioDriver RadioRegisters rx_task → Outcome Ran
window_ended d = do t ← taken d.task; returns (without_task d, ok (rx_window_ended t.radio_frame))

unfoldable pub rx_run : RadioDriver RadioRegisters rx_task → Bool → Outcome Ran
rx_run d rollback_on_crcerror =
    if d.inner.framestart || d.inner.end_start
    then if d.inner.crcerror then reception_failed d rollback_on_crcerror else reception_succeeded d
    else window_ended d

abbrev pub Entered : Type 0
Entered = RadioDriver RadioRegisters tx_task × Result (Unit {0}) (RadioTaskError tx_task)

-- For a task with CCA, and with its outcome.
abbrev pub transition_cca : RadioDriver RadioRegisters tx_task → TaskTx → Bool → Entered
transition_cca d t false = (d, ok tt)
transition_cca d t true = (
  record { inner = record d.inner { ccabusy = false }; task = none },
  err (task (cca_busy t.radio_frame)),
)

abbrev pub transition_with : RadioDriver RadioRegisters tx_task → Option TaskTx → Entered
transition_with d none = (d, ok tt)
transition_with d (some t) = transition_cca d t (t.cca && d.inner.ccabusy)

unfoldable pub tx_transition : RadioDriver RadioRegisters tx_task → Outcome Entered
tx_transition d = returns (transition_with d d.task)

unfoldable pub tx_run :
    RadioDriver RadioRegisters tx_task
    → Bool
    → Outcome
        (RadioDriver RadioRegisters tx_task × Result tx_task.TaskResult (RadioTaskError tx_task))
tx_run d b = do
  t ← taken d.task
  returns (
    record { inner = record d.inner { framestart = false }; task = none },
    ok (sent t.radio_frame),
  )

abbrev pub exits :
    {W : Type 0} {k : RadioTask}
    → RadioDriver W k
    → RadioDriver W k × Result (Unit {0}) SchedulingError
exits d = (d, ok tt)

abbrev pub nrf_off : RadioState RadioRegisters off_task
nrf_off = record {
  transition = λ d. returns (d, ok tt);
  run = λ d b. returns (d, ok off);
  exit = exits;
}

abbrev pub nrf_rx : RadioState RadioRegisters rx_task
nrf_rx = record { transition = λ d. returns (d, ok tt); run = rx_run; exit = exits }

abbrev pub nrf_tx : RadioState RadioRegisters tx_task
nrf_tx = record { transition = tx_transition; run = tx_run; exit = exits }
