-- ===== src/Radio.antt =====
-- The tasks of a radio driver and the transitions between its states:
-- dot15d4-driver/src/tasks.rs. The driver implementation with its hardware is a parameter: a state,
-- which is passed on, and the functions of the traits. A wait is the call that ends it. Hooks may
-- fail or panic. A buffer that is dropped panics; a run that gives a result has taken its task.
pub mod Completion
pub mod Contracts
use dot15d.Base.{
  ℕ, Bool, Option, none, some, leb, if◌then◌else◌, Outcome, returns, panics, ◌>>=◌, Result, ok, err,
}
use dot15d.Frame.Radio.Buffered.{RadioFrame}

-- `RadioFrame<RadioFrameSized>` and `RadioFrame<RadioFrameUnsized>`: the pointer of the buffer, and
-- the frame with the bytes of the buffer.
pub record SizedFrame : Type 0 where
  pub pointer : ℕ
  pub frame : RadioFrame

pub record UnsizedFrame : Type 0 where
  pub pointer : ℕ
  pub frame : RadioFrame

pub data Timestamp : Type 0 where
  best_effort : Timestamp
  scheduled : ℕ → Timestamp

-- The trait `RadioTask`: a task, its result and its error; and what dropping a task or an error does,
-- which panics where that holds a buffer.
pub record RadioTask : Type 1 where
  pub Task : Type 0
  pub TaskResult : Type 0
  pub TaskError : Type 0
  pub drop_task : Task → Outcome (Unit {0})
  pub drop_error : TaskError → Outcome (Unit {0})

pub record TaskOff : Type 0 where
  pub at : Timestamp

pub data OffResult : Type 0 where
  off : OffResult

-- `Infallible`
pub data Infallible : Type 0 where

pub record TaskRx : Type 0 where
  pub start : Timestamp
  pub radio_frame : UnsizedFrame

pub data RxResult : Type 0 where
  frame : SizedFrame → RxResult
  rx_window_ended : UnsizedFrame → RxResult
  crc_failed : UnsizedFrame → RxResult
  filtered_frame : SizedFrame → RxResult

pub data RxError : Type 0 where
  crc_error : RxError

pub record TaskTx : Type 0 where
  pub at : Timestamp
  pub radio_frame : SizedFrame
  pub cca : Bool

pub data TxResult : Type 0 where
  sent nack : SizedFrame → TxResult

pub data TxError : Type 0 where
  cca_busy : SizedFrame → TxError

abbrev pub off_task : RadioTask
off_task = record {
  Task = TaskOff;
  TaskResult = OffResult;
  TaskError = Infallible;
  drop_task = λ t. returns tt;
  drop_error = λ e. returns tt;
}

abbrev pub rx_task : RadioTask
rx_task = record {
  Task = TaskRx;
  TaskResult = RxResult;
  TaskError = RxError;
  drop_task = λ t. panics;
  drop_error = λ e. returns tt;
}

abbrev pub tx_task : RadioTask
tx_task = record {
  Task = TaskTx;
  TaskResult = TxResult;
  TaskError = TxError;
  drop_task = λ t. panics;
  drop_error = λ e. panics;
}

pub data SchedulingError : Type 0 where
  scheduling_error : SchedulingError

pub data RadioTaskError (k : RadioTask) : Type 0 where
  scheduling : SchedulingError → RadioTaskError k
  task : k.TaskError → RadioTaskError k

pub record RadioDriver (W : Type 0) (k : RadioTask) : Type 0 where
  pub inner : W
  pub task : Option k.Task

-- The trait `RadioState`.
pub record RadioState (W : Type 0) (k : RadioTask) : Type 0 where
  pub transition :
      RadioDriver W k → Outcome (RadioDriver W k × Result (Unit {0}) (RadioTaskError k))
  pub run :
      RadioDriver W k → Bool → Outcome (RadioDriver W k × Result k.TaskResult (RadioTaskError k))
  pub exit : RadioDriver W k → RadioDriver W k × Result (Unit {0}) SchedulingError

pub data Ifs : Type 0 where
  aifs sifs lifs no_ifs : Ifs

-- A_MAX_SIFS_FRAME_SIZE is 18.
unfoldable pub from_mpdu_length : ℕ → Ifs
from_mpdu_length mpdu_length = if leb mpdu_length 18 then sifs else lifs

pub record RadioTransition (W : Type 0) (k n : RadioTask) : Type 0 where
  pub from_radio : RadioDriver W k
  pub next_task : n.Task
  pub on_scheduled : W → Outcome (W × Result (Unit {0}) SchedulingError)
  pub on_task_complete : W → Outcome (W × Result (Unit {0}) SchedulingError)
  pub cleanup : W → Outcome (W × Result (Unit {0}) (RadioTaskError n))
  pub alt_outcome_is_error : Bool

-- `Entered` and `Fallback` hold the fields of a `RadioTransitionResult`.
pub data CompletedRadioTransition (W : Type 0) (k n : RadioTask) : Type 0 where
  entered : k.TaskResult → RadioDriver W n → CompletedRadioTransition W k n
  rollback :
      RadioDriver W k
      → RadioTaskError k
      → Option k.TaskResult
      → n.Task
      → CompletedRadioTransition W k n
  fallback :
      k.TaskResult → RadioDriver W off_task → RadioTaskError n → CompletedRadioTransition W k n

abbrev pub with_inner : {W : Type 0} {k : RadioTask} → RadioDriver W k → W → RadioDriver W k
with_inner d w = record d { inner = w }

-- What is dropped at the end of a transition.
abbrev pub drop_held : (k : RadioTask) → Option k.Task → Outcome (Unit {0})
drop_held k none = returns tt
drop_held k (some t) = k.drop_task t

module _ {k : RadioTask} where
  abbrev pub drop_failure : RadioTaskError k → Outcome (Unit {0})
  drop_failure (scheduling e) = returns tt
  drop_failure (task e) = k.drop_error e

  abbrev pub drop_entry : Result (Unit {0}) (RadioTaskError k) → Outcome (Unit {0})
  drop_entry (ok u) = returns tt
  drop_entry (err e) = drop_failure e

-- `switch_off` of the off state is a parameter of the transitions.
module _ {W : Type 0} {k n : RadioTask} (this : RadioState W k) (next : RadioState W n)
    (switch_off : W → RadioDriver W off_task) (t : RadioTransition W k n) where
  -- What the cleanup leaves of the entry into the next state. A state that is not entered is dropped,
  -- with its task if it still has it.
  abbrev pub after_cleanup :
      k.TaskResult
      → RadioDriver W n
      → Result (Unit {0}) (RadioTaskError n)
      → W × Result (Unit {0}) (RadioTaskError n)
      → Outcome (CompletedRadioTransition W k n)
  after_cleanup done next_state entry (w, err e) = do
    _ ← drop_entry entry
    _ ← drop_held n next_state.task
    returns (fallback done (switch_off w) e)
  after_cleanup done next_state (ok u) (w, ok v) = returns (entered done (with_inner next_state w))
  after_cleanup done next_state (err e) (w, ok v) = do
    _ ← drop_held n next_state.task
    returns (fallback done (switch_off w) e)

  abbrev pub after_entry :
      k.TaskResult
      → RadioDriver W n × Result (Unit {0}) (RadioTaskError n)
      → Outcome (CompletedRadioTransition W k n)
  after_entry done (next_state, entry) =
      t.cleanup next_state.inner >>= after_cleanup done next_state entry

  -- A rollback after a cleanup whose result is ignored.
  abbrev pub after_rollback :
      RadioDriver W k
      → RadioTaskError k
      → Option k.TaskResult
      → W × Result (Unit {0}) (RadioTaskError n)
      → Outcome (CompletedRadioTransition W k n)
  after_rollback d e done (w, ignored) = do
    _ ← drop_entry ignored
    returns (rollback (with_inner d w) e done t.next_task)

  abbrev pub after_exit :
      k.TaskResult
      → RadioDriver W k × Result (Unit {0}) SchedulingError
      → Outcome (CompletedRadioTransition W k n)
  after_exit done (d, err e) = t.cleanup d.inner >>= after_rollback d (scheduling e) (some done)
  after_exit done (d, ok u) =
      next.transition (record { inner = d.inner; task = some t.next_task }) >>= after_entry done

  abbrev pub after_complete :
      RadioDriver W k
      → k.TaskResult
      → W × Result (Unit {0}) SchedulingError
      → Outcome (CompletedRadioTransition W k n)
  after_complete d done (w, err e) =
      returns (rollback (with_inner d w) (scheduling e) (some done) t.next_task)
  after_complete d done (w, ok u) = after_exit done (this.exit (with_inner d w))

  abbrev pub after_run :
      RadioDriver W k × Result k.TaskResult (RadioTaskError k)
      → Outcome (CompletedRadioTransition W k n)
  after_run (d, err e) = t.cleanup d.inner >>= after_rollback d e none
  after_run (d, ok done) = t.on_task_complete d.inner >>= after_complete d done

  abbrev pub after_scheduled :
      W × Result (Unit {0}) SchedulingError → Outcome (CompletedRadioTransition W k n)
  after_scheduled (w, err e) =
      returns (rollback (with_inner t.from_radio w) (scheduling e) none t.next_task)
  after_scheduled (w, ok u) =
      this.run (with_inner t.from_radio w) t.alt_outcome_is_error >>= after_run

  -- `ExternalRadioTransition::execute_transition`
  unfoldable pub execute_external : Outcome (CompletedRadioTransition W k n)
  execute_external = t.on_scheduled t.from_radio.inner >>= after_scheduled

-- `SelfRadioTransition::execute_transition`, which neither exits nor enters a state.
module _ {W : Type 0} {k : RadioTask} (this : RadioState W k)
    (switch_off : W → RadioDriver W off_task) (t : RadioTransition W k k) where
  abbrev pub self_after_cleanup :
      RadioDriver W k
      → k.TaskResult
      → W × Result (Unit {0}) (RadioTaskError k)
      → Outcome (CompletedRadioTransition W k k)
  self_after_cleanup d done (w, err e) = do
    _ ← k.drop_task t.next_task
    returns (fallback done (switch_off w) e)
  self_after_cleanup d done (w, ok u) =
      returns (entered done (record { inner = w; task = some t.next_task }))

  abbrev pub self_after_complete :
      RadioDriver W k
      → k.TaskResult
      → W × Result (Unit {0}) SchedulingError
      → Outcome (CompletedRadioTransition W k k)
  self_after_complete d done (w, err e) =
      returns (rollback (with_inner d w) (scheduling e) (some done) t.next_task)
  self_after_complete d done (w, ok u) = t.cleanup w >>= self_after_cleanup d done

  abbrev pub self_after_rollback :
      RadioDriver W k
      → RadioTaskError k
      → W × Result (Unit {0}) (RadioTaskError k)
      → Outcome (CompletedRadioTransition W k k)
  self_after_rollback d e (w, ignored) = do
    _ ← drop_entry ignored
    returns (rollback (with_inner d w) e none t.next_task)

  abbrev pub self_after_run :
      RadioDriver W k × Result k.TaskResult (RadioTaskError k)
      → Outcome (CompletedRadioTransition W k k)
  self_after_run (d, err e) = t.cleanup d.inner >>= self_after_rollback d e
  self_after_run (d, ok done) = t.on_task_complete d.inner >>= self_after_complete d done

  abbrev pub self_after_scheduled :
      W × Result (Unit {0}) SchedulingError → Outcome (CompletedRadioTransition W k k)
  self_after_scheduled (w, err e) =
      returns (rollback (with_inner t.from_radio w) (scheduling e) none t.next_task)
  self_after_scheduled (w, ok u) =
      this.run (with_inner t.from_radio w) t.alt_outcome_is_error >>= self_after_run

  unfoldable pub execute_self : Outcome (CompletedRadioTransition W k k)
  execute_self = t.on_scheduled t.from_radio.inner >>= self_after_scheduled
