-- ===== src/Mac.antt =====
-- What a task of the MAC service is stepped with and what a step gives: dot15d4/src/mac/task.rs. A
-- task is its state, and its `step` a function of the state and the event.
pub mod Data
use dot15d.Base.{Option}
use dot15d.Driver.{DrvSvcRequest, DrvSvcResponse}

pub data MacTaskEvent : Type 0 where
  entry : MacTaskEvent
  drv_svc_response : DrvSvcResponse → MacTaskEvent

-- The next state with the request to the driver service and perhaps a result, or the final result.
pub data MacTaskTransition (Task TaskResult : Type 0) : Type 0 where
  drv_svc_request : Task → DrvSvcRequest → Option TaskResult → MacTaskTransition Task TaskResult
  terminated : TaskResult → MacTaskTransition Task TaskResult
