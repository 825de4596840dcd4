-- ===== src/Driver.antt =====
-- The driver service: dot15d4/src/driver.rs, which turns the requests of the MAC into tasks of the
-- radio, one after the other, and answers them.
--
-- What the service waits for is a parameter, `Api`: the radio (see Radio) and the clients of the
-- channel of requests, each a state that is passed on; a wait is the call that ends it. A response
-- token is its number. The service's state has the two frames that are allocated once and, as logs,
-- the requests that were received and the responses given, each with its token. `unwrap` of nothing,
-- `unreachable!` and a buffer that is dropped panic; debug assertions are left out.
pub mod Calls
pub mod Receiving
pub mod Sending
pub mod Loop
pub mod Laws
pub mod Books
pub mod Invariant
pub mod Windows
pub mod Receptions
pub mod Endings
pub mod Transmissions
pub mod Acknowledgements
pub mod Turns
pub mod Runs
mod Examples
use dot15d.Base.{ℕ, Bool, true, false, List, Option, Outcome}
use dot15d.Frame.Radio.{Config}
use dot15d.Frame.Filter.{PreliminaryFrameInfo}
use dot15d.Radio.{
  SizedFrame, UnsizedFrame, TaskOff, OffResult, TaskRx, RxResult, RxError, TaskTx, TxResult,
  TxError, RadioTask, RadioTaskError, scheduling, task, off_task, rx_task, tx_task, RadioDriver,
  RadioState, RadioTransition, Ifs,
}

pub data DrvSvcRequest : Type 0 where
  tx : TaskTx → DrvSvcRequest
  rx : TaskRx → DrvSvcRequest

pub data DrvSvcTaskError (k : RadioTask) : Type 0 where
  radio_error : DrvSvcTaskError k
  task_error : k.TaskError → DrvSvcTaskError k

-- The result `Off` has no constructor here: the service never gives it.
pub data DrvSvcResponse : Type 0 where
  off_done : OffResult → DrvSvcResponse
  off_failed : DrvSvcTaskError off_task → DrvSvcResponse
  tx_done : TxResult → DrvSvcResponse
  tx_failed : DrvSvcTaskError tx_task → DrvSvcResponse
  rx_done : RxResult → DrvSvcResponse
  rx_failed : DrvSvcTaskError rx_task → DrvSvcResponse

-- `From<RadioTaskError<RadioTaskTx>> for DrvSvcResponse`
abbrev pub from_tx_error : RadioTaskError tx_task → DrvSvcResponse
from_tx_error (scheduling e) = tx_failed radio_error
from_tx_error (task e) = tx_failed (task_error e)

abbrev pub from_rx_error : RadioTaskError rx_task → DrvSvcResponse
from_rx_error (scheduling e) = rx_failed radio_error
from_rx_error (task e) = rx_failed (task_error e)

abbrev pub from_off_error : RadioTaskError off_task → DrvSvcResponse
from_off_error (scheduling e) = off_failed radio_error
from_off_error (task e) = off_failed (task_error e)

pub data TaskDirection : Type 0 where
  outbound inbound any : TaskDirection

-- `HasAddress::matches`
abbrev pub matches : DrvSvcRequest → TaskDirection → Bool
matches _ any = true
matches (tx t) outbound = true
matches (tx t) inbound = false
matches (rx t) outbound = false
matches (rx t) inbound = true

-- A request with its response token.
abbrev pub Incoming : Type 0
Incoming = ℕ × DrvSvcRequest

-- The radio and the clients.
pub record Api : Type 1 where
  pub config : Config
  pub mac_pan_id : List ℕ
  pub implicit_broadcast : Bool
  pub Hardware : Type 0
  pub Clients : Type 0
  -- The states of the radio, and the transitions that their `schedule_…` methods build.
  pub off_state : RadioState Hardware off_task
  pub rx_state : RadioState Hardware rx_task
  pub tx_state : RadioState Hardware tx_task
  pub switch_off : Hardware → RadioDriver Hardware off_task
  pub off_to_rx : RadioDriver Hardware off_task → TaskRx → RadioTransition Hardware off_task rx_task
  pub off_to_tx : RadioDriver Hardware off_task → TaskTx → RadioTransition Hardware off_task tx_task
  pub rx_to_rx :
      RadioDriver Hardware rx_task → TaskRx → Bool → RadioTransition Hardware rx_task rx_task
  pub rx_to_tx :
      RadioDriver Hardware rx_task → TaskTx → Ifs → Bool → RadioTransition Hardware rx_task tx_task
  pub rx_to_off :
      RadioDriver Hardware rx_task → TaskOff → Bool → RadioTransition Hardware rx_task off_task
  pub tx_to_rx :
      RadioDriver Hardware tx_task → TaskRx → Ifs → RadioTransition Hardware tx_task rx_task
  pub tx_to_tx :
      RadioDriver Hardware tx_task → TaskTx → Ifs → RadioTransition Hardware tx_task tx_task
  pub tx_to_off : RadioDriver Hardware tx_task → TaskOff → RadioTransition Hardware tx_task off_task
  -- What is known of a frame that is being received.
  pub ieee802154_address : RadioDriver Hardware rx_task → List ℕ
  pub preliminary_frame_info :
      RadioDriver Hardware rx_task → Outcome (RadioDriver Hardware rx_task × PreliminaryFrameInfo)
  -- `select` between the start of a frame and an outbound request; none: the frame has started.
  pub frame_started_or_request :
      RadioDriver Hardware rx_task
      → Clients
      → RadioDriver Hardware rx_task × Clients × Option Incoming
  -- `select` between the start of a frame and the timeout of an ACK; true: the frame has started.
  pub frame_started_or_timeout : RadioDriver Hardware rx_task → RadioDriver Hardware rx_task × Bool
  pub try_receive_request : Clients → TaskDirection → Clients × Option Incoming
  pub wait_for_request : Clients → TaskDirection → Clients × Incoming

-- `DriverState`
pub data DriverState (api : Api) : Type 0 where
  transmitting : RadioDriver api.Hardware tx_task → Option ℕ → Ifs → DriverState api
  receiving : RadioDriver api.Hardware rx_task → DriverState api
  switched_off : RadioDriver api.Hardware off_task → DriverState api

pub record Service (api : Api) : Type 0 where
  pub clients : api.Clients
  pub tx_ack_frame : Option SizedFrame
  pub temporary_rx_frame : Option UnsizedFrame
  pub received : List Incoming
  pub answered : List (ℕ × DrvSvcResponse)
