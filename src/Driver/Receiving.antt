-- ===== src/Driver/Receiving.antt =====
-- The end of a reception: `receive_frame`, `drop_invalid_frame` and `end_rx_window` of
-- dot15d4/src/driver.rs. A helper with the name of a handler and `_to_…` is what the handler does
-- once the transition to that state has completed.
use dot15d.Base.{ℕ, true, false, Option, none, some, Outcome, returns, panics, ◌>>=◌}
use dot15d.Radio.{
  SizedFrame, RxResult, rx_window_ended, nack, Ifs, no_ifs, RadioDriver, CompletedRadioTransition,
  entered, rollback, fallback, off_task, rx_task, tx_task, execute_external, execute_self,
}
use dot15d.Driver.{
  tx, rx, tx_done, rx_done, from_tx_error, Incoming, Api, transmitting, receiving, switched_off,
  Service,
}
use dot15d.Driver.Calls.{
  off_at_once, rx_at_once, ack_and_ifs, recovered, ack_outcome, Next, receive_any, answer,
  set_temporary, take_temporary, drop_ack_info,
}

module _ {api : Api} where
  -- `handle_rx_task_result` of `receive_frame`
  unfoldable pub received_result :
      Service api → ℕ → RxResult → Option (SizedFrame × ℕ) → Outcome (Service api)
  received_result s token result none = returns (answer s token (rx_done result))
  received_result s token result (some (sent_frame, seq_nr)) = do
    outcome ← ack_outcome api.config sent_frame seq_nr result
    set_temporary (answer s token (tx_done outcome.0)) outcome.1

  -- The reception goes on; what was known of an awaited ACK is dropped, and so is a result.
  abbrev pub resumed :
      Option (SizedFrame × ℕ)
      → RadioDriver api.Hardware rx_task
      → ℕ
      → Service api
      → Outcome (Next api)
  resumed info driver token s = do _ ← drop_ack_info info; returns (receiving driver, some token, s)

  module _ (info : Option (SizedFrame × ℕ)) (token : ℕ) (s : Service api) where
    abbrev pub receive_to_tx :
        ℕ
        → Option ℕ × Ifs
        → CompletedRadioTransition api.Hardware rx_task tx_task
        → Outcome (Next api)
    receive_to_tx next_token (seq_nr, ifs) (entered result driver) = do
      t ← received_result s token result info
      returns (transmitting driver seq_nr ifs, some next_token, t)
    receive_to_tx next_token (seq_nr, ifs) (fallback result driver error) = do
      t ← received_result s token result info
      returns (switched_off driver, none, answer t next_token (from_tx_error error))
    receive_to_tx next_token (seq_nr, ifs) (rollback driver error result next) = panics

    abbrev pub receive_to_rx :
        ℕ → CompletedRadioTransition api.Hardware rx_task rx_task → Outcome (Next api)
    receive_to_rx next_token (entered result driver) = do
      t ← received_result s token result info
      returns (receiving driver, some next_token, t)
    receive_to_rx next_token (rollback driver error result next) = panics
    receive_to_rx next_token (fallback result driver error) = panics

    abbrev pub receive_to_off :
        CompletedRadioTransition api.Hardware rx_task off_task → Outcome (Next api)
    receive_to_off (entered result driver) = do
      t ← received_result s token result info
      returns (switched_off driver, none, t)
    receive_to_off (rollback driver error none next) = resumed info driver token s
    receive_to_off (rollback driver error (some result) next) = panics
    receive_to_off (fallback result driver error) = panics

  abbrev pub receive_then :
      RadioDriver api.Hardware rx_task
      → Option (SizedFrame × ℕ)
      → ℕ
      → Ifs
      → Service api × Option Incoming
      → Outcome (Next api)
  receive_then driver info token ifs (s, none) = do
    completed ←
        execute_external api.rx_state api.off_state api.switch_off
          (api.rx_to_off driver off_at_once true)
    receive_to_off info token s completed
  receive_then driver info token ifs (s, some (next_token, tx t)) = do
    next ← ack_and_ifs t
    completed ←
        execute_external api.rx_state api.tx_state api.switch_off (api.rx_to_tx driver t ifs false)
    receive_to_tx info token s next_token next completed
  receive_then driver info token ifs (s, some (next_token, rx t)) = do
    completed ← execute_self api.rx_state api.switch_off (api.rx_to_rx driver t false)
    receive_to_rx info token s next_token completed

  unfoldable pub receive_frame :
      RadioDriver api.Hardware rx_task
      → Option (SizedFrame × ℕ)
      → ℕ
      → Ifs
      → Service api
      → Outcome (Next api)
  receive_frame driver info token ifs s = receive_then driver info token ifs (receive_any s)

  abbrev pub dropped_to_rx :
      ℕ → Service api → CompletedRadioTransition api.Hardware rx_task rx_task → Outcome (Next api)
  dropped_to_rx token s (entered result driver) = do
    t ← set_temporary s (recovered api.config result)
    returns (receiving driver, some token, t)
  dropped_to_rx token s (rollback driver error result next) = panics
  dropped_to_rx token s (fallback result driver error) = panics

  unfoldable pub drop_invalid_frame :
      RadioDriver api.Hardware rx_task → ℕ → Service api → Outcome (Next api)
  drop_invalid_frame driver token s = do
    taken ← take_temporary s
    completed ←
        execute_self api.rx_state api.switch_off (api.rx_to_rx driver (rx_at_once taken.0) false)
    dropped_to_rx token taken.1 completed

  -- `handle_rx_task_result` of `end_rx_window`
  unfoldable pub ended_result :
      Service api → ℕ → RxResult → Option SizedFrame → Outcome (Service api)
  ended_result s token result none =
      returns (answer s token (rx_done (rx_window_ended (recovered api.config result))))
  ended_result s token result (some sent_frame) = do
    t ← set_temporary s (recovered api.config result)
    returns (answer t token (tx_done (nack sent_frame)))

  module _ (info : Option SizedFrame) (token : ℕ) (s : Service api) where
    abbrev pub ended_to_tx :
        ℕ
        → Option ℕ × Ifs
        → CompletedRadioTransition api.Hardware rx_task tx_task
        → Outcome (Next api)
    ended_to_tx next_token (seq_nr, ifs) (entered result driver) = do
      t ← ended_result s token result info
      returns (transmitting driver seq_nr ifs, some next_token, t)
    ended_to_tx next_token (seq_nr, ifs) (fallback result driver error) = do
      t ← ended_result s token result info
      returns (switched_off driver, none, answer t next_token (from_tx_error error))
    ended_to_tx next_token (seq_nr, ifs) (rollback driver error result next) = panics

    abbrev pub ended_to_off :
        CompletedRadioTransition api.Hardware rx_task off_task → Outcome (Next api)
    ended_to_off (entered result driver) = do
      t ← ended_result s token result info
      returns (switched_off driver, none, t)
    ended_to_off (rollback driver error result next) = panics
    ended_to_off (fallback result driver error) = panics

  unfoldable pub end_rx_window :
      RadioDriver api.Hardware rx_task
      → ℕ
      → Option SizedFrame
      → Service api × Option Incoming
      → Outcome (Next api)
  end_rx_window driver token info (s, some (next_token, tx t)) = do
    next ← ack_and_ifs t
    completed ←
        execute_external api.rx_state api.tx_state api.switch_off
          (api.rx_to_tx driver t no_ifs false)
    ended_to_tx info token s next_token next completed
  end_rx_window driver token none (s, some (next_token, rx t)) = panics
  end_rx_window driver token (some sent_frame) (s, some (next_token, rx t)) = do
    u ← set_temporary s t.radio_frame
    returns (receiving driver, some next_token, answer u token (tx_done (nack sent_frame)))
  end_rx_window driver token info (s, none) = do
    completed ←
        execute_external api.rx_state api.off_state api.switch_off
          (api.rx_to_off driver off_at_once false)
    ended_to_off info token s completed
