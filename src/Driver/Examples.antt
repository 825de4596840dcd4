-- ===== src/Driver/Examples.antt =====
-- The theorems on the driver service at concrete inputs.
use dot15d.Base.{
  ℕ, suc, ◌+◌, ◌≡◌, refl, subst, inl, Bool, true, false, [], ◌∷◌, Option, none, some, ◌==◌,
  if◌then◌else◌, Outcome, returns, panics, Result, ok, err, arith,
}
use dot15d.Frame.Control.{ack_request, sequence_number_suppression}
use dot15d.Frame.Radio.{Config}
use dot15d.Frame.Radio.Buffered
use dot15d.Frame.Filter.{no_info, is_frame_valid_and_for_us}
use dot15d.Radio.{
  SizedFrame, UnsizedFrame, best_effort, RadioTask, off, TaskRx, TaskTx, sent, crc_failed,
  crc_error, task, sifs, RadioTaskError, SchedulingError, RadioDriver, RadioTransition, off_task,
  rx_task, tx_task, execute_external,
}
use dot15d.Radio.Completion
use dot15d.Radio.Completion.{Contract, LawfulState, Prepared, Completes, execute_external-Completes}
use dot15d.Radio.Contracts.{SameFrame, off_contract, rx_contract, tx_contract}
use dot15d.Driver.{tx, Api, transmitting, switched_off}
use dot15d.Driver.Calls.{Next, off_at_once, rx_at_once}
use dot15d.Driver.Loop.{turn}
use dot15d.Driver.Laws.{Lawful}
use dot15d.Driver.Turns.{LosesAck}
use dot15d.Driver.Runs.{turn_panics-LosesAck}

abbrev radio_config : Config
radio_config = record { headroom = 1; tailroom = 0; max_sdu = 127; fcs = 2 }

-- A data frame that asks for an ACK, with sequence number 7, in the buffer of a number.
abbrev data_frame : ℕ → SizedFrame
data_frame pointer = record {
  pointer = pointer;
  frame = record {
    headroom = 1;
    offset_fcs = 6;
    length_fcs = 2;
    buffer = 0 ∷ 0x21 ∷ 0x98 ∷ 7 ∷ 1 ∷ 2 ∷ 0 ∷ 0 ∷ [];
  };
}

abbrev ack_frame : SizedFrame
ack_frame = record {
  pointer = 0;
  frame = record {
    headroom = 1;
    offset_fcs = 4;
    length_fcs = 2;
    buffer = 0 ∷ 2 ∷ 0 ∷ 0 ∷ 0 ∷ 0 ∷ [];
  };
}

abbrev rx_buffer : ℕ → UnsizedFrame
rx_buffer pointer = record {
  pointer = pointer;
  frame = record { headroom = 1; offset_fcs = 126; length_fcs = 2; buffer = [] };
}

-- A radio that always finds the channel idle and receives every frame with a CRC error. Its state
-- counts the transitions, and the clients send one frame after the other.
abbrev start_off : ℕ → RadioDriver ℕ off_task
start_off w = record { inner = w; task = some (record { at = best_effort }) }

abbrev enter :
    {k : RadioTask}
    → RadioDriver ℕ k
    → Outcome (RadioDriver ℕ k × Result (Unit {0}) (RadioTaskError k))
enter d = returns (d, ok tt)

abbrev leave :
    {k : RadioTask} → RadioDriver ℕ k → RadioDriver ℕ k × Result (Unit {0}) SchedulingError
leave d = (d, ok tt)

abbrev counted : ℕ → Outcome (ℕ × Result (Unit {0}) SchedulingError)
counted w = returns (suc w, ok tt)

abbrev hooked : ℕ → Outcome (ℕ × Result (Unit {0}) SchedulingError)
hooked w = returns (w, ok tt)

abbrev between : {k n : RadioTask} → RadioDriver ℕ k → n.Task → Bool → RadioTransition ℕ k n
between d next alt = record {
  from_radio = d;
  next_task = next;
  on_scheduled = counted;
  on_task_complete = hooked;
  cleanup = λ w. returns (w, ok tt);
  alt_outcome_is_error = alt;
}

abbrev corrupted :
    Option TaskRx
    → RadioDriver ℕ rx_task
    → Bool
    → Outcome (RadioDriver ℕ rx_task × Result rx_task.TaskResult (RadioTaskError rx_task))
corrupted none d alt = panics
corrupted (some t) d true = returns (d, err (task crc_error))
corrupted (some t) d false = returns (record d { task = none }, ok (crc_failed t.radio_frame))

abbrev sending :
    Option TaskTx
    → RadioDriver ℕ tx_task
    → Outcome (RadioDriver ℕ tx_task × Result tx_task.TaskResult (RadioTaskError tx_task))
sending none d = panics
sending (some t) d = returns (record d { task = none }, ok (sent t.radio_frame))

abbrev noisy : Api
noisy = record {
  config = radio_config;
  mac_pan_id = 0xcd ∷ 0xab ∷ [];
  implicit_broadcast = false;
  Hardware = ℕ;
  Clients = ℕ;
  off_state = record { transition = enter; run = λ d alt. returns (d, ok off); exit = leave };
  rx_state = record { transition = enter; run = λ d alt. corrupted d.task d alt; exit = leave };
  tx_state = record { transition = enter; run = λ d alt. sending d.task d; exit = leave };
  switch_off = start_off;
  off_to_rx = λ d t. between d t false;
  off_to_tx = λ d t. between d t false;
  rx_to_rx = λ d t alt. between d t alt;
  rx_to_tx = λ d t ifs alt. between d t alt;
  rx_to_off = λ d t alt. between d t alt;
  tx_to_rx = λ d t ifs. between d t false;
  tx_to_tx = λ d t ifs. between d t false;
  tx_to_off = λ d t. between d t false;
  ieee802154_address = λ d. [];
  preliminary_frame_info = λ d. returns (d, no_info);
  frame_started_or_request = λ d c. (d, c, none);
  frame_started_or_timeout = λ d. (d, true);
  try_receive_request = λ c direction. (c, none);
  wait_for_request = λ c direction.
      (suc c, (c, tx (record { at = best_effort; radio_frame = data_frame (c + 2); cca = true })));
}

abbrev Always : ℕ → Type 0
Always w = Unit {0}

between-Prepared :
    {k n : RadioTask} (c : Contract ℕ k) (e : Contract ℕ n) (d : RadioDriver ℕ k) (next : n.Task)
    (alt : Bool)
    → e.Same next next
    → ((w : ℕ) → c.Live w → c.Live (suc w))
    → (e.Fault → c.Fault)
    → Prepared c e d next alt (between d next alt)
between-Prepared c e d next alt same live fault = record {
  from = refl;
  same = same;
  alt_lem = refl;
  scheduled_lem = live;
  completed_lem = λ w. tt;
  cleanup_lem = λ w. tt;
  fault_lem = fault;
}

corrupted-Runs :
    (w : ℕ) (o : Option TaskRx) (t : TaskRx) (alt : Bool) (d : RadioDriver ℕ rx_task)
    → o ≡ some t
    → d.task ≡ some t
    → Completion.Runs (rx_contract ℕ Always ⊥) w t alt (corrupted o d alt)
corrupted-Runs w none t alt d e held = absurd (grind arith)
corrupted-Runs w (some u) t true d e held = (held, inl refl)
corrupted-Runs w (some u) t false d e held = (grind arith, λ l. tt)

abbrev HoldsSame : TaskTx → Option TaskTx → Type 0
HoldsSame u none = Unit {0}
HoldsSame u (some t) = SameFrame t.radio_frame u.radio_frame

sending-Runs :
    (w : ℕ) (o : Option TaskTx) (t : TaskTx) (alt : Bool) (d : RadioDriver ℕ tx_task)
    → o ≡ some t
    → Completion.Runs (tx_contract ℕ ⊥) w t alt (sending o d)
sending-Runs w none t alt d e = absurd (grind arith)
sending-Runs w (some u) t alt d e = (subst (HoldsSame u) e (refl, refl, refl), λ l. tt)

noisy-Lawful : Lawful noisy Always ⊥
unfolding is_frame_valid_and_for_us Buffered.ack_seq_num ack_request sequence_number_suppression
noisy-Lawful = record {
  short_headroom = omega arith;
  off_lawful = record {
    run_lem = λ d t b held. (tt, λ l. tt);
    transition_lem = λ d t held. held;
    exit_lem = λ d. inl refl;
  };
  rx_lawful = record {
    run_lem = λ d t b held. corrupted-Runs d.inner d.task t b d held held;
    transition_lem = λ d t held. held;
    exit_lem = λ d. inl refl;
  };
  tx_lawful = record {
    run_lem = λ d t b held. sending-Runs d.inner d.task t b d held;
    transition_lem = λ d t held. held;
    exit_lem = λ d. inl refl;
  };
  switched_lem = λ w. (record { at = best_effort }, refl);
  off_to_rx_lem = λ d t.
      between-Prepared (off_contract ℕ ⊥) (rx_contract ℕ Always ⊥) d t false refl (λ w l. tt)
        (λ f. f);
  off_to_tx_lem = λ d t.
      between-Prepared (off_contract ℕ ⊥) (tx_contract ℕ ⊥) d t false ((refl, refl, refl), refl)
        (λ w l. tt) (λ f. f);
  rx_to_rx_lem = λ d t b.
      between-Prepared (rx_contract ℕ Always ⊥) (rx_contract ℕ Always ⊥) d t b refl (λ w l. tt)
        (λ f. f);
  rx_to_tx_lem = λ d t ifs b.
      between-Prepared (rx_contract ℕ Always ⊥) (tx_contract ℕ ⊥) d t b ((refl, refl, refl), refl)
        (λ w l. tt) (λ f. f);
  rx_to_off_lem = λ d t b.
      between-Prepared (rx_contract ℕ Always ⊥) (off_contract ℕ ⊥) d t b tt (λ w l. tt) (λ f. f);
  tx_to_rx_lem = λ d t ifs.
      between-Prepared (tx_contract ℕ ⊥) (rx_contract ℕ Always ⊥) d t false refl (λ w l. tt)
        (λ f. f);
  tx_to_tx_lem = λ d t ifs.
      between-Prepared (tx_contract ℕ ⊥) (tx_contract ℕ ⊥) d t false ((refl, refl, refl), refl)
        (λ w l. tt) (λ f. f);
  tx_to_off_lem = λ d t.
      between-Prepared (tx_contract ℕ ⊥) (off_contract ℕ ⊥) d t false tt (λ w l. tt) (λ f. f);
  info_lem = λ d. (refl, λ address. (false, refl));
  request_task = λ d c. refl;
  request_sensible = λ d c. tt;
  timeout_task = λ d. refl;
  timeout_started = λ d e. tt;
  received_sensible = λ c. tt;
  waited_sensible = λ c. (refl, (some 7, refl));
}

abbrev at_start : Next noisy
at_start = (
  switched_off (start_off 0),
  none,
  record {
    clients = 0;
    tx_ack_frame = some ack_frame;
    temporary_rx_frame = some (rx_buffer 1);
    received = [];
    answered = [];
  },
)

-- Buffers 0 and 1 are the service's.
abbrev own : ℕ → ℕ
own k = (if 0 == k then 1 else 0) + (if 1 == k then 1 else 0)

-- The data frame is being sent.
abbrev sending_data : Next noisy
sending_data = (
  transmitting
      (record {
        inner = 1;
        task = some (record { at = best_effort; radio_frame = data_frame 2; cca = true });
      })
      (some 7) sifs,
  some 0,
  record {
    clients = 1;
    tx_ack_frame = some ack_frame;
    temporary_rx_frame = some (rx_buffer 1);
    received = [];
    answered = [];
  },
)

sending_data-LosesAck : LosesAck sending_data
unfolding execute_external
sending_data-LosesAck = (rx_buffer 1, refl, (refl, (refl, tt)))

turn_panics-LosesAck_example : turn sending_data ≡ panics
turn_panics-LosesAck_example = turn_panics-LosesAck sending_data sending_data-LosesAck

abbrev receiving_data : RadioDriver ℕ rx_task
receiving_data = record { inner = 1; task = some (rx_at_once (rx_buffer 1)) }

-- The transition that ends a reception, with a CRC error, to switch off.
execute_external-Completes_example :
    Completes
      (rx_contract ℕ Always ⊥)
      (off_contract ℕ ⊥)
      receiving_data
      (rx_at_once (rx_buffer 1))
      off_at_once
      true
      (execute_external noisy.rx_state noisy.off_state noisy.switch_off
        (noisy.rx_to_off receiving_data off_at_once true))
execute_external-Completes_example =
    execute_external-Completes noisy.rx_state noisy.off_state noisy.switch_off
      noisy-Lawful.switched_lem noisy-Lawful.rx_lawful noisy-Lawful.off_lawful receiving_data
      (rx_at_once (rx_buffer 1)) off_at_once true (noisy.rx_to_off receiving_data off_at_once true)
      (noisy-Lawful.rx_to_off_lem receiving_data off_at_once true) refl
