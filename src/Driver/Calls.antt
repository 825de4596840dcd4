-- ===== src/Driver/Calls.antt =====
-- What the handlers of the driver service share: the calls of the request receiver, the cells of the
-- two frames, and what is done with the result of a task. dot15d4/src/driver.rs.
use dot15d.Base.{
  ℕ, ◌+◌, ◌*◌, Bool, false, ◌&&◌, [], ◌∷◌, ◌++◌, Option, none, some, ◌==◌, if◌then◌else◌, Outcome,
  returns, panics, ◌>>=◌, index,
}
use Prim.Native.Nat.{bit_and}
use dot15d.Frame.Radio.{Config}
use dot15d.Frame.Radio.Buffered
use dot15d.Radio.{
  SizedFrame, UnsizedFrame, best_effort, TaskOff, TaskRx, RxResult, frame, rx_window_ended,
  crc_failed, filtered_frame, TaskTx, TxResult, sent, nack, Ifs, from_mpdu_length,
}
use dot15d.Driver.{DrvSvcResponse, any, Incoming, Api, DriverState, Service}

-- `RadioFrame::forget_size`
abbrev pub forget_frame_size : Config → SizedFrame → UnsizedFrame
forget_frame_size c f = record { pointer = f.pointer; frame = Buffered.forget_size c f.frame }

abbrev pub off_at_once : TaskOff
off_at_once = record { at = best_effort }

abbrev pub rx_at_once : UnsizedFrame → TaskRx
rx_at_once f = record { start = best_effort; radio_frame = f }

-- The sequence number of an ACK that a frame asks for, and the spacing after the frame.
abbrev pub ack_and_ifs : TaskTx → Outcome (Option ℕ × Ifs)
ack_and_ifs t = do
  seq_nr ← Buffered.ack_seq_num t.radio_frame.frame
  returns (seq_nr, from_mpdu_length (Buffered.sdu_length t.radio_frame.frame))

-- Whether a frame is the immediate ACK of a sequence number: `ACK_FC_MASK` and `ACK_FC`.
unfoldable pub is_ack : SizedFrame → ℕ → Outcome Bool
is_ack f seq_nr =
    if Buffered.sdu_wo_fcs_length f.frame == 3
    then (Buffered.sdu_ref f.frame >>= λ sdu. index sdu 0 >>= λ low. index sdu 1 >>= λ high.
        index sdu 2 >>= λ n. returns (bit_and (low + high * 256) 0xefff == 2 && n == seq_nr))
    else returns false

-- The buffer of a reception whose frame is dropped.
abbrev pub recovered : Config → RxResult → UnsizedFrame
recovered c (frame f) = forget_frame_size c f
recovered c (filtered_frame f) = forget_frame_size c f
recovered c (rx_window_ended f) = f
recovered c (crc_failed f) = f

-- The result of a transmission after the window of its ACK, and the buffer of the window.
unfoldable pub ack_outcome : Config → SizedFrame → ℕ → RxResult → Outcome (TxResult × UnsizedFrame)
ack_outcome c sent_frame seq_nr (frame f) = do
  ack ← is_ack f seq_nr
  returns (if ack then sent sent_frame else nack sent_frame, forget_frame_size c f)
ack_outcome c sent_frame seq_nr (filtered_frame f) =
    returns (nack sent_frame, forget_frame_size c f)
ack_outcome c sent_frame seq_nr (crc_failed f) = returns (nack sent_frame, f)
ack_outcome c sent_frame seq_nr (rx_window_ended f) = panics

-- What a handler gives: the driver state, the response token, and the service.
abbrev pub Next : Api → Type 0
Next api = DriverState api × Option ℕ × Service api

-- A frame whose ACK is awaited, with the sequence number, is dropped.
abbrev pub drop_ack_info : {A : Type 0} → Option A → Outcome (Unit {0})
drop_ack_info none = returns tt
drop_ack_info (some x) = panics

module _ {api : Api} where
  -- A request is received.
  abbrev pub noted : Service api → api.Clients × Option Incoming → Service api × Option Incoming
  noted s (clients, none) = (record s { clients = clients }, none)
  noted s (clients, some x) =
      (record s { clients = clients; received = s.received ++ (x ∷ []) }, some x)

  -- `try_receive_request(&TaskDirection::Any)`
  unfoldable pub receive_any : Service api → Service api × Option Incoming
  receive_any s = noted s (api.try_receive_request s.clients any)

  -- `request_receiver.received`
  abbrev pub answer : Service api → ℕ → DrvSvcResponse → Service api
  answer s token response = record s { answered = s.answered ++ ((token, response) ∷ []) }

  -- `Cell::set` drops what the cell held.
  abbrev pub set_temporary : Service api → UnsizedFrame → Outcome (Service api)
  set_temporary s f = elim s.temporary_rx_frame [
    | none ↦ returns (record s { temporary_rx_frame = some f })
    | some g ↦ panics
  ]

  abbrev pub set_ack : Service api → SizedFrame → Outcome (Service api)
  set_ack s f = elim s.tx_ack_frame [
    | none ↦ returns (record s { tx_ack_frame = some f })
    | some g ↦ panics
  ]

  abbrev pub take_temporary : Service api → Outcome (UnsizedFrame × Service api)
  take_temporary s = elim s.temporary_rx_frame [
    | none ↦ panics
    | some f ↦ returns (f, record s { temporary_rx_frame = none })
  ]

  abbrev pub take_ack : Service api → Outcome (SizedFrame × Service api)
  take_ack s = elim s.tx_ack_frame [
    | none ↦ panics
    | some f ↦ returns (f, record s { tx_ack_frame = none })
  ]
