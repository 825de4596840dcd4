-- ===== src/Nrf/Examples.antt =====
-- The theorems on the states of the nRF radio at concrete inputs.
use dot15d.Base.{ℕ, ◌≡◌, refl, true, false, List, [], ◌∷◌, some, arith}
use dot15d.Radio.{best_effort, TaskRx, TaskTx, RadioDriver, rx_task, tx_task}
use dot15d.Radio.Completion.{Runs}
use dot15d.Radio.Contracts.{rx_contract}
use dot15d.Nrf.{RadioRegisters, rx_run}
use dot15d.Nrf.States.{Attempts, rx_run-Runs, tx_transition-Attempts}

-- An immediate ACK: three bytes and the FCS.
abbrev ack_packet : List ℕ
ack_packet = 5 ∷ 2 ∷ 0 ∷ 7 ∷ 0 ∷ 0 ∷ []

abbrev reception : TaskRx
reception = record {
  start = best_effort;
  radio_frame = record {
    pointer = 4;
    frame = record { headroom = 1; offset_fcs = 126; length_fcs = 2; buffer = [] };
  };
}

abbrev receiving : RadioDriver RadioRegisters rx_task
receiving = record {
  inner = record {
    end_start = false;
    framestart = true;
    crcerror = false;
    ccabusy = false;
    packet = ack_packet;
  };
  task = some reception;
}

rx_run-Runs_example :
    Runs
      (rx_contract RadioRegisters (λ w. w.framestart ≡ true) ⊥)
      receiving.inner
      reception
      true
      (rx_run receiving true)
rx_run-Runs_example = rx_run-Runs receiving reception true refl refl (record {
  size = 5;
  rest = 2 ∷ 0 ∷ 7 ∷ 0 ∷ 0 ∷ [];
  size_first = refl;
  not_empty = omega arith;
  is_byte = omega arith;
  in_buffer = omega arith;
})

-- The channel is busy for the ACK.
abbrev transmission : TaskTx
transmission = record {
  at = best_effort;
  radio_frame = record {
    pointer = 4;
    frame = record { headroom = 1; offset_fcs = 4; length_fcs = 2; buffer = ack_packet };
  };
  cca = true;
}

abbrev busy_channel : RadioDriver RadioRegisters tx_task
busy_channel = record {
  inner = record {
    end_start = false;
    framestart = false;
    crcerror = false;
    ccabusy = true;
    packet = [];
  };
  task = some transmission;
}

tx_transition-Attempts_example : Attempts busy_channel transmission
tx_transition-Attempts_example = tx_transition-Attempts busy_channel transmission refl
