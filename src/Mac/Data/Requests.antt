-- ===== src/Mac/Data/Requests.antt =====
-- The data request task with the driver service: dot15d4/src/mac/mcps/data.rs.
use dot15d.Base.{ℕ, ◌≡◌, refl, none, returns}
use dot15d.Frame.Radio.{Config}
use dot15d.Mpdu.Frame.{MpduFrame, into_radio_frame}
use dot15d.Radio.{TxResult, TxError}
use dot15d.Driver.{
  tx, DrvSvcResponse, off_done, off_failed, tx_done, tx_failed, rx_done, rx_failed, radio_error,
  task_error,
}
use dot15d.Driver.Books.{Answers}
use dot15d.Mac.{entry, drv_svc_response, drv_svc_request, terminated}
use dot15d.Mac.Data.{
  DataRequestState, sending_frame, DataRequestResult, sent, cca_busy, nack,
  handle_tx_driver_response, tx_task, step_request,
}

-- The result tells how the transmission ended, with the buffer of a number.
abbrev pub Reports : DrvSvcResponse → ℕ → DataRequestResult → Type 0
Reports (tx_done (TxResult.sent _)) pointer (sent f) = f.pointer ≡ pointer
Reports (tx_done (TxResult.nack _)) pointer (nack f) = f.pointer ≡ pointer
Reports (tx_failed _) pointer (cca_busy f) = f.pointer ≡ pointer
Reports _ _ _ = ⊥

-- A data request for any frame asks the driver service for one transmission, of that frame. To every
-- answer that the service may give to it, it ends: it does not panic, and its result says whether the
-- frame was sent, was not acknowledged or found the channel busy, and has the buffer of the frame.
pub step_request-Reports :
    (c : Config) (mpdu : MpduFrame) (response : DrvSvcResponse)
    → Answers (tx (tx_task c mpdu)) response
    → (step_request c (DataRequestState.initial mpdu) entry
        ≡ returns (drv_svc_request sending_frame (tx (tx_task c mpdu)) none))
      × ((result : DataRequestResult) × (step_request c sending_frame (drv_svc_response response)
            ≡ returns (terminated result))
          × Reports response mpdu.pointer result)
unfolding step_request handle_tx_driver_response into_radio_frame
step_request-Reports c mpdu (tx_done (TxResult.sent f)) h = (refl, (_, refl, h))
step_request-Reports c mpdu (tx_done (TxResult.nack f)) h = (refl, (_, refl, h))
step_request-Reports c mpdu (tx_failed (task_error (TxError.cca_busy f))) h = (refl, (_, refl, h))
step_request-Reports c mpdu (off_done _) h = elim h [ ]
step_request-Reports c mpdu (off_failed _) h = elim h [ ]
step_request-Reports c mpdu (tx_failed radio_error) h = elim h [ ]
step_request-Reports c mpdu (rx_done _) h = elim h [ ]
step_request-Reports c mpdu (rx_failed _) h = elim h [ ]
