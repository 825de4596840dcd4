-- ===== src/Mutex.antt =====
-- The mutex between the parts of a task: dot15d4-util/src/sync/mutex.rs. A waker is the number of
-- what it wakes; an operation that may wake one answers which.
pub mod Sharing
mod Examples
use dot15d.Base.{ℕ, Bool, true, false, not, Option, none, some, ◌==◌, if◌then◌else◌}

pub record MutexState : Type 0 where
  pub locked : Bool
  pub waker : Option ℕ

unfoldable pub new : MutexState
new = record { locked = false; waker = none }

-- Whether the caller has got the guard.
unfoldable pub try_lock : MutexState → MutexState × Bool
try_lock s = if not s.locked then (record s { locked = true }, true) else (s, false)

-- The waker of a task that has to wait is kept; a different one that was kept is woken.
abbrev pub keep_waker : MutexState → ℕ → Option ℕ → MutexState × Option ℕ
keep_waker s new_waker none = (record s { waker = some new_waker }, none)
keep_waker s new_waker (some waker) =
    if waker == new_waker
    then (record s { waker = some new_waker }, none)
    else (record s { waker = some new_waker }, some waker)

-- The poll of a `LockFuture`: whether it is ready, and who is woken.
unfoldable pub poll : MutexState → ℕ → MutexState × Bool × Option ℕ
poll s new_waker =
    let kept = keep_waker s new_waker s.waker in
    if s.locked then (kept.0, false, kept.1) else (record s { locked = true }, true, none)

-- The drop of a guard, and who is woken.
unfoldable pub drop_guard : MutexState → MutexState × Option ℕ
drop_guard s = (record { locked = false; waker = none }, s.waker)
