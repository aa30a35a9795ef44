-- ===== src/Routine.antt =====
-- A worker, `go_control` of GoRoutine012Native.h with the calls of GoRoutine012.xs on it: one
-- function for each section that runs under its mutex.
pub mod Cancel
pub mod Timer
pub mod World
pub mod Counted
use developer_dashboard.Common.{
  ℕ, ◌+◌, ◌%◌, ◌^◌, ◌==◌, ltb, Bool, true, false, ◌&&◌, not, if◌then◌else◌, Option, none, some,
  Bytes, codes,
}
use developer_dashboard.Control.{
  Seconds, GoState, running, done, killed, timed_out, exited, failed, CancelReason, no_cancel, kill,
  timeout, is_running, is_timeout, Wake, no_wake,
}

pub record Routine (T : Type 0) : Type 0 where
  pub thread_valid : Bool
  pub state : GoState
  pub cancel_reason : CancelReason
  pub cancel_requested : Bool
  pub exit_requested : Bool
  pub started_at : T
  pub finished_at : T
  pub timeout_generation : ℕ
  pub timeout_seconds : T

-- What `go_runops` does before an operation of the callback: it goes on, or raises one of its two
-- exceptions.
pub data Poll : Type 0 where
  goes_on raises_cancel raises_exit : Poll

-- How the callback of a worker ended.
pub data Ending : Type 0 where
  returned raised_cancel raised_exit died : Ending

-- How the timer's loop goes on: a wait of some milliseconds, or out of it with or without a cancel.
pub data Turn : Type 0 where
  waits : ℕ → Turn
  cancels : Turn
  ends : Turn

abbrev pub status : GoState → Bytes
status running = codes "running"
status done = codes "done"
status killed = codes "killed"
status timed_out = codes "timed_out"
status exited = codes "exited"
status failed = codes "failed"

-- Milliseconds of a wait, at least 1 and at most 100.
abbrev pub wait_ms : ℕ → ℕ
wait_ms ms = if ms == 0 then 1 else if ltb 100 ms then 100 else ms

module _ {T : Type 0} where
  -- `go_control_request_cancel` under the mutex, and whether the worker is to be woken.
  unfoldable pub request_cancel : CancelReason → Routine T → Wake × Routine T
  request_cancel reason r =
      if is_running r.state && not r.cancel_requested
      then (
        record { requested = true; valid = r.thread_valid },
        record r { cancel_requested = true; cancel_reason = reason },
      )
      else (no_wake, r)

  abbrev pub request_exit : Routine T → Routine T
  request_exit r = record r { exit_requested = true }

  -- One turn of `go_runops`; the operation may be Perl's `exit`.
  unfoldable pub poll : Bool → Routine T → Poll × Routine T
  poll is_exit r =
      if r.cancel_requested
      then (raises_cancel, r)
      else if r.exit_requested
      then (raises_exit, r)
      else if is_exit
      then (raises_exit, request_exit r)
      else (goes_on, r)

  -- `final_state` of `go_worker`.
  abbrev pub final_state : Routine T → Ending → GoState
  final_state r returned = done
  final_state r raised_cancel = if is_timeout r.cancel_reason then timed_out else killed
  final_state r raised_exit = exited
  final_state r died = failed

  unfoldable pub finish : GoState → T → Routine T → Routine T
  finish result now r = record r { state = result; finished_at = now; thread_valid = false }

  -- What `go` does behind the start of the thread.
  abbrev pub publish : Routine T → Routine T
  publish r = record r { thread_valid = true }

module _ {T : Type 0} (s : Seconds T) where
  abbrev pub new_routine : T → Routine T
  new_routine now = record {
    thread_valid = false;
    state = running;
    cancel_reason = no_cancel;
    cancel_requested = false;
    exit_requested = false;
    started_at = now;
    finished_at = s.zero_seconds;
    timeout_generation = 0;
    timeout_seconds = s.zero_seconds;
  }

  -- `_routine_age`
  unfoldable pub age : T → Routine T → T
  age now r = s.minus (if is_running r.state then now else r.finished_at) r.started_at

  -- `_routine_timeout` under the mutex: the generation of the new timer, none where there is to be none.
  unfoldable pub set_timeout : T → Routine T → Option ℕ × Routine T
  set_timeout seconds r =
      let generation = (r.timeout_generation + 1) % 2 ^ 64 in
      (
        (if not (is_running r.state)
            then none
            else if s.at_most_zero seconds
            then none
            else some generation),
        record r {
          timeout_generation = generation;
          timeout_seconds = if s.positive seconds then seconds else s.zero_seconds;
        },
      )

  -- The head of the loop of `go_timeout_worker`, with the time that remains.
  unfoldable pub timer_head : ℕ → T → Routine T → Turn
  timer_head generation remaining r =
      if is_running r.state && r.timeout_generation == generation && s.positive r.timeout_seconds
      then (if s.at_most_zero remaining
          then cancels
          else waits (wait_ms (s.milliseconds remaining)))
      else ends
