-- ===== src/Mac/Data.antt =====
-- The two tasks of the MAC's data service: dot15d4/src/mac/mcps/data.rs. The first sends one frame;
-- the second receives frames without end, each into a buffer that it allocates. The allocator is a
-- state that is passed on, and the bytes of a new buffer are a parameter. `unreachable!` and
-- `expect` panic; the assertions on the first event are left out.
pub mod Requests
pub mod Indications
mod Examples
use dot15d.Base.{
  ℕ, false, List, Option, none, some, Outcome, returns, panics, ◌>>=◌, Result, ok, err,
}
use dot15d.Allocator.{PoolParams, BufferToken, AsyncBufferAllocator, allocate_token}
use dot15d.Frame.Radio.{Config, max_buffer_length}
use dot15d.Frame.Radio.Buffered
use dot15d.Mpdu.Frame.{MpduFrame, from_radio_frame, into_radio_frame}
use dot15d.Radio.{
  SizedFrame, UnsizedFrame, best_effort, TaskTx, TaskRx, TxResult, TxError, RxResult, frame,
  rx_window_ended, crc_failed, filtered_frame,
}
use dot15d.Driver.{DrvSvcRequest, tx, rx, DrvSvcResponse, tx_done, tx_failed, rx_done, task_error}
use dot15d.Driver.Calls.{forget_frame_size}
use dot15d.Mac.{
  MacTaskEvent, entry, drv_svc_response, MacTaskTransition, drv_svc_request, terminated,
}

pub data DataRequestState : Type 0 where
  initial : MpduFrame → DataRequestState
  sending_frame : DataRequestState

pub data DataRequestResult : Type 0 where
  sent : UnsizedFrame → DataRequestResult
  cca_busy : SizedFrame → DataRequestResult
  nack : SizedFrame → DataRequestResult

pub record DataIndication : Type 0 where
  pub mpdu : MpduFrame
  pub timestamp : Option ℕ

pub data DataIndicationState : Type 0 where
  initial : DataIndicationState
  waiting_for_frame : DataIndicationState

-- What a step of the second task gives, with the allocator.
abbrev pub Indicates : PoolParams → Type 0
Indicates p = AsyncBufferAllocator p × MacTaskTransition DataIndicationState DataIndication

module _ (c : Config) where
  unfoldable pub handle_tx_driver_response : DrvSvcResponse → Outcome DataRequestResult
  handle_tx_driver_response (tx_done (TxResult.sent f)) = returns (sent (forget_frame_size c f))
  handle_tx_driver_response (tx_done (TxResult.nack f)) = returns (nack f)
  handle_tx_driver_response (tx_failed (task_error (TxError.cca_busy f))) = returns (cca_busy f)
  handle_tx_driver_response _ = panics

  abbrev pub tx_task : MpduFrame → TaskTx
  tx_task mpdu = record { at = best_effort; radio_frame = into_radio_frame c mpdu; cca = false }

  unfoldable pub step_request :
      DataRequestState
      → MacTaskEvent
      → Outcome (MacTaskTransition DataRequestState DataRequestResult)
  step_request (DataRequestState.initial mpdu) event =
      returns (drv_svc_request sending_frame (tx (tx_task mpdu)) none)
  step_request sending_frame (drv_svc_response response) = do
    result ← handle_tx_driver_response response
    returns (terminated result)
  step_request sending_frame entry = panics

  abbrev pub rx_task : UnsizedFrame → TaskRx
  rx_task f = record { start = best_effort; radio_frame = f }

  -- The frame received, or the buffer for the next reception.
  unfoldable pub handle_rx_driver_response :
      DrvSvcResponse → Outcome (Result MpduFrame UnsizedFrame)
  handle_rx_driver_response (rx_done (frame f)) = returns (ok (from_radio_frame f))
  handle_rx_driver_response (rx_done (filtered_frame f)) = returns (err (forget_frame_size c f))
  handle_rx_driver_response (rx_done (rx_window_ended f)) = returns (err f)
  handle_rx_driver_response (rx_done (crc_failed f)) = returns (err f)
  handle_rx_driver_response _ = panics

  module _ {p : PoolParams} (bytes : BufferToken → List ℕ) where
    abbrev pub framed :
        AsyncBufferAllocator p × Result BufferToken (Unit {0})
        → AsyncBufferAllocator p × Option UnsizedFrame
    framed (s, ok token) =
        (s, some (record { pointer = token.pointer; frame = Buffered.new c (bytes token) }))
    framed (s, err e) = (s, none)

    unfoldable pub allocate_rx_radio_frame :
        AsyncBufferAllocator p → AsyncBufferAllocator p × Option UnsizedFrame
    allocate_rx_radio_frame s = framed (allocate_token s (max_buffer_length c))

    abbrev pub received_into :
        Option DataIndication → AsyncBufferAllocator p × Option UnsizedFrame → Outcome (Indicates p)
    received_into result (s, none) = panics
    received_into result (s, some f) =
        returns (s, drv_svc_request waiting_for_frame (rx (rx_task f)) result)

    unfoldable pub produce_indication_and_restart_rx :
        AsyncBufferAllocator p → MpduFrame → Outcome (Indicates p)
    produce_indication_and_restart_rx s mpdu =
        received_into (some (record { mpdu = mpdu; timestamp = none })) (allocate_rx_radio_frame s)

    abbrev pub handled :
        AsyncBufferAllocator p → Result MpduFrame UnsizedFrame → Outcome (Indicates p)
    handled s (ok mpdu) = produce_indication_and_restart_rx s mpdu
    handled s (err f) = returns (s, drv_svc_request waiting_for_frame (rx (rx_task f)) none)

    unfoldable pub step_indication :
        AsyncBufferAllocator p → DataIndicationState → MacTaskEvent → Outcome (Indicates p)
    step_indication s DataIndicationState.initial event =
        received_into none (allocate_rx_radio_frame s)
    step_indication s waiting_for_frame (drv_svc_response response) =
        handle_rx_driver_response response >>= handled s
    step_indication s waiting_for_frame entry = panics
