-- ===== src/Driver/Sending.antt =====
-- Sending, and the answer to a received frame: `send_frame`, `wait_for_ack` and `send_ack` of
-- dot15d4/src/driver.rs.
use dot15d.Base.{ℕ, true, false, Bool, Option, none, some, Outcome, returns, panics, ◌>>=◌}
use dot15d.Frame.Radio.Buffered
use dot15d.Mpdu.Frame.{from_radio_frame, into_radio_frame, set_sequence_number}
use dot15d.Radio.{
  SizedFrame, best_effort, TaskTx, TxResult, sent, nack, Ifs, aifs, from_mpdu_length, RadioDriver,
  CompletedRadioTransition, entered, rollback, fallback, off_task, rx_task, tx_task,
  execute_external, execute_self,
}
use dot15d.Driver.{
  tx, rx, tx_done, rx_done, from_tx_error, Incoming, Api, transmitting, receiving, switched_off,
  Service,
}
use dot15d.Driver.Calls.{
  off_at_once, rx_at_once, ack_and_ifs, Next, receive_any, answer, set_ack, take_temporary,
  take_ack,
}
use dot15d.Driver.Receiving.{receive_frame, end_rx_window}

-- A frame is only nacked in answer to a request.
abbrev pub sent_frame_of : TxResult → Outcome SizedFrame
sent_frame_of (sent f) = returns f
sent_frame_of (nack f) = panics

module _ {api : Api} where
  abbrev pub awaited :
      RadioDriver api.Hardware rx_task × Bool
      → SizedFrame
      → ℕ
      → ℕ
      → Service api
      → Outcome (Next api)
  awaited (driver, true) sent_frame token seq_nr s =
      receive_frame driver (some (sent_frame, seq_nr)) token
        (from_mpdu_length (Buffered.sdu_length sent_frame.frame)) s
  awaited (driver, false) sent_frame token seq_nr s =
      end_rx_window driver token (some sent_frame) (receive_any s)

  abbrev pub wait_to_rx :
      ℕ
      → ℕ
      → Service api
      → CompletedRadioTransition api.Hardware tx_task rx_task
      → Outcome (Next api)
  wait_to_rx token seq_nr s (entered result driver) = do
    sent_frame ← sent_frame_of result
    awaited (api.frame_started_or_timeout driver) sent_frame token seq_nr s
  wait_to_rx token seq_nr s (rollback driver error result next) = panics
  wait_to_rx token seq_nr s (fallback result driver error) = panics

  unfoldable pub wait_for_ack :
      RadioDriver api.Hardware tx_task → ℕ → ℕ → Service api → Outcome (Next api)
  wait_for_ack driver token seq_nr s = do
    taken ← take_temporary s
    completed ←
        execute_external api.tx_state api.rx_state api.switch_off
          (api.tx_to_rx driver (rx_at_once taken.0) aifs)
    wait_to_rx token seq_nr taken.1 completed

  -- `handle_tx_task_result`; without a token, the frame is the ACK frame.
  unfoldable pub sent_result : Service api → Option ℕ → TxResult → Outcome (Service api)
  sent_result s (some token) result = returns (answer s token (tx_done result))
  sent_result s none result = sent_frame_of result >>= set_ack s

  module _ (token : Option ℕ) (s : Service api) where
    abbrev pub send_to_tx :
        ℕ
        → Option ℕ × Ifs
        → CompletedRadioTransition api.Hardware tx_task tx_task
        → Outcome (Next api)
    send_to_tx next_token (seq_nr, ifs) (entered result driver) = do
      t ← sent_result s token result
      returns (transmitting driver seq_nr ifs, some next_token, t)
    send_to_tx next_token (seq_nr, ifs) (fallback result driver error) = do
      t ← sent_result s token result
      returns (switched_off driver, none, answer t next_token (from_tx_error error))
    send_to_tx next_token (seq_nr, ifs) (rollback driver error result next) = panics

    abbrev pub send_to_rx :
        ℕ → CompletedRadioTransition api.Hardware tx_task rx_task → Outcome (Next api)
    send_to_rx next_token (entered result driver) = do
      t ← sent_result s token result
      returns (receiving driver, some next_token, t)
    send_to_rx next_token (rollback driver error result next) = panics
    send_to_rx next_token (fallback result driver error) = panics

    abbrev pub send_to_off :
        CompletedRadioTransition api.Hardware tx_task off_task → Outcome (Next api)
    send_to_off (entered result driver) = do
      t ← sent_result s token result
      returns (switched_off driver, none, t)
    send_to_off (rollback driver error result next) = panics
    send_to_off (fallback result driver error) = panics

  abbrev pub send_then :
      RadioDriver api.Hardware tx_task
      → Option ℕ
      → Ifs
      → Service api × Option Incoming
      → Outcome (Next api)
  send_then driver token ifs (s, none) = do
    completed ←
        execute_external api.tx_state api.off_state api.switch_off
          (api.tx_to_off driver off_at_once)
    send_to_off token s completed
  send_then driver token ifs (s, some (next_token, tx t)) = do
    next ← ack_and_ifs t
    completed ← execute_self api.tx_state api.switch_off (api.tx_to_tx driver t ifs)
    send_to_tx token s next_token next completed
  send_then driver token ifs (s, some (next_token, rx t)) = do
    completed ←
        execute_external api.tx_state api.rx_state api.switch_off (api.tx_to_rx driver t ifs)
    send_to_rx token s next_token completed

  unfoldable pub send_frame :
      RadioDriver api.Hardware tx_task
      → Option ℕ
      → Option ℕ
      → Ifs
      → Service api
      → Outcome (Next api)
  send_frame driver (some token) (some seq_nr) ifs s = wait_for_ack driver token seq_nr s
  send_frame driver none (some seq_nr) ifs s = panics
  send_frame driver token none ifs s = send_then driver token ifs (receive_any s)

  abbrev pub acked_to_tx :
      ℕ
      → Ifs
      → Service api
      → CompletedRadioTransition api.Hardware rx_task tx_task
      → Outcome (Next api)
  acked_to_tx token ifs s (entered result driver) =
      send_frame driver none none ifs (answer s token (rx_done result))
  acked_to_tx token ifs s (rollback driver error (some result) next) = panics
  acked_to_tx token ifs s (rollback driver error none next) = do
    t ← set_ack s next.radio_frame
    returns (receiving driver, some token, t)
  acked_to_tx token ifs s (fallback result driver error) = panics

  unfoldable pub send_ack :
      RadioDriver api.Hardware rx_task → ℕ → ℕ → Ifs → Service api → Outcome (Next api)
  send_ack driver token ack_seq_nr ifs s = do
    taken ← take_ack s
    numbered ← set_sequence_number (from_radio_frame taken.0) ack_seq_nr
    let ack : TaskTx = record {
      at = best_effort;
      radio_frame = into_radio_frame api.config numbered.0;
      cca = false;
    }
    completed ←
        execute_external api.rx_state api.tx_state api.switch_off
          (api.rx_to_tx driver ack aifs true)
    acked_to_tx token ifs taken.1 completed
