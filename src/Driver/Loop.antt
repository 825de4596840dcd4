-- ===== src/Driver/Loop.antt =====
-- The event loop: `try_receive_frame`, `schedule_next_request` and `run` of dot15d4/src/driver.rs.
-- The loops do not end; a number bounds the turns that are looked at.
use dot15d.Base.{
  ℕ, zero, suc, Bool, true, false, List, Option, none, some, Outcome, returns, panics, ◌>>=◌,
}
use dot15d.Frame.Control.{ack_request}
use dot15d.Frame.Filter.{PreliminaryFrameInfo, is_frame_valid_and_for_us}
use dot15d.Radio.{
  Ifs, from_mpdu_length, RadioDriver, CompletedRadioTransition, entered, rollback, fallback,
  off_task, rx_task, tx_task, execute_external,
}
use dot15d.Driver.{
  tx, rx, from_tx_error, any, Incoming, Api, transmitting, receiving, switched_off, Service,
}
use dot15d.Driver.Calls.{ack_and_ifs, Next, noted, answer}
use dot15d.Driver.Receiving.{receive_frame, drop_invalid_frame, end_rx_window}
use dot15d.Driver.Sending.{send_frame, send_ack}

abbrev pub unwrap : {A : Type 0} → Option A → Outcome A
unwrap none = panics
unwrap (some x) = returns x

module _ {api : Api} where
  abbrev pub valid_frame :
      RadioDriver api.Hardware rx_task
      → ℕ
      → Ifs
      → Service api
      → Bool
      → Option ℕ
      → Outcome (Next api)
  valid_frame driver token ifs s true (some seq_nr) = send_ack driver token seq_nr ifs s
  valid_frame driver token ifs s true none = receive_frame driver none token ifs s
  valid_frame driver token ifs s false seq_nr = receive_frame driver none token ifs s

  abbrev pub decided :
      RadioDriver api.Hardware rx_task
      → PreliminaryFrameInfo
      → ℕ
      → Service api
      → Bool
      → Outcome (Next api)
  decided driver info token s true = do
    fc ← unwrap info.frame_control
    requested ← ack_request fc
    valid_frame driver token (from_mpdu_length info.mpdu_length) s requested info.seq_nr
  decided driver info token s false = drop_invalid_frame driver token s

  abbrev pub frame_started :
      List ℕ
      → RadioDriver api.Hardware rx_task × PreliminaryFrameInfo
      → ℕ
      → Service api
      → Outcome (Next api)
  frame_started hardware_address (driver, info) token s = do
    valid ← is_frame_valid_and_for_us api.mac_pan_id api.implicit_broadcast hardware_address info
    decided driver info token s valid

  abbrev pub received_first :
      ℕ
      → Service api
      → RadioDriver api.Hardware rx_task × api.Clients × Option Incoming
      → Outcome (Next api)
  received_first token s (driver, clients, none) = api.preliminary_frame_info driver >>= λ known.
      frame_started (api.ieee802154_address driver) known token (noted s (clients, none)).0
  received_first token s (driver, clients, some request) =
      end_rx_window driver token none (noted s (clients, some request))

  unfoldable pub try_receive_frame :
      RadioDriver api.Hardware rx_task → ℕ → Service api → Outcome (Next api)
  try_receive_frame driver token s =
      received_first token s (api.frame_started_or_request driver s.clients)

  -- One turn of the loop of `schedule_next_request`. It ends unless the radio stays off.
  abbrev pub scheduled_tx :
      Service api
      → ℕ
      → Option ℕ × Ifs
      → CompletedRadioTransition api.Hardware off_task tx_task
      → Outcome (Next api)
  scheduled_tx s token (seq_nr, ifs) (entered result driver) =
      returns (transmitting driver seq_nr ifs, some token, s)
  scheduled_tx s token (seq_nr, ifs) (fallback result driver error) =
      returns (switched_off driver, none, answer s token (from_tx_error error))
  scheduled_tx s token (seq_nr, ifs) (rollback driver error result next) = panics

  abbrev pub scheduled_rx :
      Service api → ℕ → CompletedRadioTransition api.Hardware off_task rx_task → Outcome (Next api)
  scheduled_rx s token (entered result driver) = returns (receiving driver, some token, s)
  scheduled_rx s token (rollback driver error result next) = panics
  scheduled_rx s token (fallback result driver error) = panics

  abbrev pub schedule_then :
      RadioDriver api.Hardware off_task → Service api × Option Incoming → Outcome (Next api)
  schedule_then driver (s, some (token, tx t)) = do
    next ← ack_and_ifs t
    completed ← execute_external api.off_state api.tx_state api.switch_off (api.off_to_tx driver t)
    scheduled_tx s token next completed
  schedule_then driver (s, some (token, rx t)) = do
    completed ← execute_external api.off_state api.rx_state api.switch_off (api.off_to_rx driver t)
    scheduled_rx s token completed
  schedule_then driver (s, none) = panics

  unfoldable pub schedule_request :
      RadioDriver api.Hardware off_task → Service api → Outcome (Next api)
  schedule_request driver s =
      let waited = api.wait_for_request s.clients any in
      schedule_then driver (noted s (waited.0, some waited.1))

  -- One turn of the loop of `run`; where the radio is off, one of `schedule_next_request`.
  unfoldable pub turn : Next api → Outcome (Next api)
  turn (receiving driver, token, s) = do k ← unwrap token; try_receive_frame driver k s
  turn (transmitting driver seq_nr ifs, token, s) = send_frame driver token seq_nr ifs s
  turn (switched_off driver, token, s) = schedule_request driver s

  unfoldable pub run : ℕ → Next api → Outcome (Next api)
  run zero state = returns state
  run (suc n) state = turn state >>= run n
