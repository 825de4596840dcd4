-- ===== src/Driver/Laws.antt =====
-- What the driver service relies on: the documented behaviour of the radio's states and transitions
-- (dot15d4-driver/src/tasks.rs), of the frames that clients send, and of the channel's receiver.
use dot15d.Base.{
  ℕ, ◌+◌, ◌<◌, ◌^◌, ◌≡◌, Bool, true, false, List, Option, none, some, Outcome, returns, panics,
}
use dot15d.Frame.Radio.Buffered
use dot15d.Frame.Filter.{PreliminaryFrameInfo, is_frame_valid_and_for_us}
use dot15d.Radio.{TaskOff, TaskRx, TaskTx, Ifs, RadioDriver, off_task, rx_task, tx_task}
use dot15d.Radio.Completion.{LawfulState, Prepared}
use dot15d.Radio.Contracts.{off_contract, rx_contract, tx_contract}
use dot15d.Driver.{DrvSvcRequest, tx, rx, matches, TaskDirection, outbound, any, Incoming, Api}

-- A frame to send has a frame control field, and a sequence number if that asks for an ACK.
abbrev pub Sendable : DrvSvcRequest → Type 0
Sendable (tx t) = (seq_nr : Option ℕ) × (Buffered.ack_seq_num t.radio_frame.frame ≡ returns seq_nr)
Sendable (rx t) = Unit {0}

abbrev pub Sensible : TaskDirection → Option Incoming → Type 0
Sensible direction none = Unit {0}
Sensible direction (some (token, request)) = (matches request direction ≡ true) × Sendable request

-- What is known of a frame is for the device or not, and the reception keeps its task; or it panics.
abbrev pub Informs :
    (api : Api) (F : Type 0) (d : RadioDriver api.Hardware rx_task)
    → Outcome (RadioDriver api.Hardware rx_task × PreliminaryFrameInfo)
    → Type 0
Informs api F d panics = F
Informs api F d (returns (d', info)) =
    (d'.task ≡ d.task)
    × ((hardware_address : List ℕ)
        → (b : Bool) × (is_frame_valid_and_for_us api.mac_pan_id api.implicit_broadcast
              hardware_address info
            ≡ returns b))

-- `Started` are the states of the radio in which the reception of a frame has started. `F` is what
-- may be said where the radio fails: a hook, `exit`, or entering or running a state panics or gives a
-- scheduling error, or a frame that is being received makes `preliminary_frame_info` panic.
pub record Lawful (api : Api) (Started : api.Hardware → Type 0) (F : Type 0) : Type 0 where
  pub short_headroom : api.config.headroom + 3 < 2 ^ 8
  pub off_lawful : LawfulState (off_contract api.Hardware F) api.off_state
  pub rx_lawful : LawfulState (rx_contract api.Hardware Started F) api.rx_state
  pub tx_lawful : LawfulState (tx_contract api.Hardware F) api.tx_state
  pub switched_lem : (w : api.Hardware) → (o : TaskOff) × ((api.switch_off w).task ≡ some o)
  pub off_to_rx_lem :
      (d : RadioDriver api.Hardware off_task) (t : TaskRx)
      → Prepared
          (off_contract api.Hardware F)
          (rx_contract api.Hardware Started F)
          d
          t
          false
          (api.off_to_rx d t)
  pub off_to_tx_lem :
      (d : RadioDriver api.Hardware off_task) (t : TaskTx)
      → Prepared
          (off_contract api.Hardware F)
          (tx_contract api.Hardware F)
          d
          t
          false
          (api.off_to_tx d t)
  pub rx_to_rx_lem :
      (d : RadioDriver api.Hardware rx_task) (t : TaskRx) (b : Bool)
      → Prepared
          (rx_contract api.Hardware Started F)
          (rx_contract api.Hardware Started F)
          d
          t
          b
          (api.rx_to_rx d t b)
  pub rx_to_tx_lem :
      (d : RadioDriver api.Hardware rx_task) (t : TaskTx) (ifs : Ifs) (b : Bool)
      → Prepared
          (rx_contract api.Hardware Started F)
          (tx_contract api.Hardware F)
          d
          t
          b
          (api.rx_to_tx d t ifs b)
  pub rx_to_off_lem :
      (d : RadioDriver api.Hardware rx_task) (t : TaskOff) (b : Bool)
      → Prepared
          (rx_contract api.Hardware Started F)
          (off_contract api.Hardware F)
          d
          t
          b
          (api.rx_to_off d t b)
  pub tx_to_rx_lem :
      (d : RadioDriver api.Hardware tx_task) (t : TaskRx) (ifs : Ifs)
      → Prepared
          (tx_contract api.Hardware F)
          (rx_contract api.Hardware Started F)
          d
          t
          false
          (api.tx_to_rx d t ifs)
  pub tx_to_tx_lem :
      (d : RadioDriver api.Hardware tx_task) (t : TaskTx) (ifs : Ifs)
      → Prepared
          (tx_contract api.Hardware F)
          (tx_contract api.Hardware F)
          d
          t
          false
          (api.tx_to_tx d t ifs)
  pub tx_to_off_lem :
      (d : RadioDriver api.Hardware tx_task) (t : TaskOff)
      → Prepared
          (tx_contract api.Hardware F)
          (off_contract api.Hardware F)
          d
          t
          false
          (api.tx_to_off d t)
  -- The waits of a reception leave its task in place.
  pub info_lem :
      (d : RadioDriver api.Hardware rx_task) → Informs api F d (api.preliminary_frame_info d)
  pub request_task :
      (d : RadioDriver api.Hardware rx_task) (c : api.Clients)
      → (api.frame_started_or_request d c).0.task ≡ d.task
  pub request_sensible :
      (d : RadioDriver api.Hardware rx_task) (c : api.Clients)
      → Sensible outbound (api.frame_started_or_request d c).2
  pub timeout_task :
      (d : RadioDriver api.Hardware rx_task) → (api.frame_started_or_timeout d).0.task ≡ d.task
  pub timeout_started :
      (d : RadioDriver api.Hardware rx_task)
      → (api.frame_started_or_timeout d).1 ≡ true
      → Started (api.frame_started_or_timeout d).0.inner
  pub received_sensible : (c : api.Clients) → Sensible any (api.try_receive_request c any).1
  pub waited_sensible : (c : api.Clients) → Sensible any (some (api.wait_for_request c any).1)
