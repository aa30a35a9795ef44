-- ===== src/Control.antt =====
-- The control block of a worker, `go_control` of GoRoutineNative.h: one function for each section that
-- runs under the control's mutex, and the functions that they make up.
pub mod World
pub mod Flags
pub mod Timers
pub mod Invariant
pub mod Stability
pub mod Stale
use developer_dashboard.Common.{
  ℕ, ◌+◌, ◌-◌, ◌%◌, ◌^◌, Bool, true, false, ◌&&◌, ◌||◌, not, Option, none, some, ◌==◌, ltb,
  if◌then◌else◌,
}

-- `double` as the control uses it.
pub record Seconds (T : Type 0) : Type 0 where
  pub zero_seconds : T
  pub positive : T → Bool  -- `> 0.0`
  pub at_most_zero : T → Bool  -- `<= 0.0`, which NaN is not
  pub is_zero : T → Bool
  pub minus : T → T → T
  -- `remaining >= (double)ULONG_MAX / 1000.0`, and `remaining * 1000.0 + 0.999` rounded down
  pub endless : T → Bool
  pub milliseconds : T → ℕ

pub data GoState : Type 0 where
  running done killed timed_out exited failed : GoState

pub data CancelReason : Type 0 where
  no_cancel kill timeout : CancelReason

abbrev pub is_running : GoState → Bool
is_running running = true
is_running _ = false

abbrev pub is_timeout : CancelReason → Bool
is_timeout timeout = true
is_timeout _ = false

pub record Control (T : Type 0) : Type 0 where
  pub thread : ℕ
  pub thread_id : ℕ
  pub owner : ℕ
  pub refs : ℕ
  pub timeout_generation : ℕ
  pub started_at : T
  pub finished_at : T
  pub timeout_seconds : T
  pub state : GoState
  pub cancel_reason : CancelReason
  pub thread_valid : Bool
  pub worker_ready : Bool
  pub cancel_requested : Bool
  pub exit_requested : Bool
  pub wake_error : ℕ

-- `ETIMEDOUT`, what `pthread_cond_timedwait` answers, and `ESRCH` of Linux.
abbrev pub timeout_result : ℕ
timeout_result = 110

abbrev pub esrch : ℕ
esrch = 3

abbrev pub ulong_max : ℕ
ulong_max = 2 ^ 64 - 1

-- What a caller is to do once the section has ended: whom to wake, if anybody.
pub record Wake : Type 0 where
  pub requested : Bool
  pub valid : Bool

abbrev pub no_wake : Wake
no_wake = record { requested = false; valid = false }

-- The code of the wake-up: `pthread_kill` is called where the SIGURG handler could be installed, and a
-- thread that has gone is no error.
unfoldable pub wake_code : ℕ → Bool → ℕ → ℕ
wake_code signal_error signal_enabled rc =
    if signal_error == 0
    then (if signal_enabled then (if rc == esrch then 0 else rc) else 0)
    else signal_error

-- How the timer's loop goes on: a wait of some milliseconds, or out of it, then to
-- `go_control_timeout` or to the end.
pub data Turn : Type 0 where
  wait : ℕ → Turn
  expire : Turn
  end : Turn

module _ {T : Type 0} where
  -- `control->wake_error = rc`
  abbrev pub set_wake_error : ℕ → Control T → Control T
  set_wake_error rc c = record c { wake_error = rc }

  -- The rest of a caller, the wake-up behind it: an error of it is kept.
  abbrev pub woken : ℕ → Control T → Control T
  woken rc c = if rc == 0 then c else set_wake_error rc c

  abbrev pub retain : Control T → Control T
  retain c = record c { refs = (c.refs + 1) % 2 ^ 64 }

  -- Whether the control is freed, and the control.
  abbrev pub release : Control T → Bool × Control T
  release c = if ltb 0 c.refs then (c.refs - 1 == 0, record c { refs = c.refs - 1 }) else (false, c)

  abbrev pub request_exit : Control T → Control T
  request_exit c = record c { exit_requested = true }

  -- The first section of `go_control_request_cancel`.
  unfoldable pub mark_cancel : CancelReason → Control T → Wake × Control T
  mark_cancel reason c =
      if is_running c.state && not c.cancel_requested
      then (
        record { requested = true; valid = c.thread_valid },
        record c { cancel_requested = true; cancel_reason = reason },
      )
      else (no_wake, c)

  -- All of it, undisturbed: the code that it croaks with, or whether the cancel was requested.
  unfoldable pub request_cancel : CancelReason → ℕ → Control T → (Option ℕ × Bool) × Control T
  request_cancel reason code c =
      let (wake, marked) = mark_cancel reason c in
      let rc = (if wake.requested && wake.valid then code else 0) in
      ((if rc == 0 then none else some rc, wake.requested), woken rc marked)

  unfoldable pub finish : GoState → T → Control T → Control T
  finish result now c = record c {
    state =
        if c.wake_error == 0
        then (if c.cancel_requested
            then (if is_timeout c.cancel_reason then timed_out else killed)
            else result)
        else failed;
    finished_at = now;
    thread_valid = false;
  }

module _ {T : Type 0} (s : Seconds T) where
  unfoldable pub new_control : ℕ → T → Control T
  new_control owner now = record {
    thread = 0;
    thread_id = 0;
    owner = owner;
    refs = 1;
    timeout_generation = 0;
    started_at = now;
    finished_at = s.zero_seconds;
    timeout_seconds = s.zero_seconds;
    state = running;
    cancel_reason = no_cancel;
    thread_valid = false;
    worker_ready = false;
    cancel_requested = false;
    exit_requested = false;
    wake_error = 0;
  }

  unfoldable pub age : T → Control T → T
  age now c =
      let lived = s.minus (if is_running c.state then now else c.finished_at) c.started_at in
      if s.positive lived then lived else s.zero_seconds

  -- The first section of `go_control_timeout`.
  unfoldable pub mark_timeout : ℕ → Control T → Wake × Control T
  mark_timeout generation c =
      if is_running c.state
        && c.timeout_generation == generation
        && s.positive c.timeout_seconds
        && not c.cancel_requested
      then (
        record { requested = true; valid = c.thread_valid },
        record c { cancel_requested = true; cancel_reason = timeout },
      )
      else (no_wake, c)

  -- The first section of `go_control_set_timeout`: the new generation, none where the worker has
  -- finished.
  unfoldable pub begin_timeout : T → Control T → Option ℕ × Control T
  begin_timeout seconds c =
      let generation = (c.timeout_generation + 1) % 2 ^ 64 in
      if is_running c.state
      then (
        some generation,
        record c { timeout_generation = generation; timeout_seconds = seconds },
      )
      else (none, c)

  -- What it does when there is no memory or no thread for the timer.
  unfoldable pub undo_timeout : ℕ → Control T → Control T
  undo_timeout generation c =
      if c.timeout_generation == generation
      then record c {
        timeout_seconds = s.zero_seconds;
        timeout_generation = (c.timeout_generation + 1) % 2 ^ 64;
      }
      else c

  unfoldable pub wait_time : T → ℕ
  wait_time remaining =
      if s.endless remaining
      then ulong_max
      else if s.milliseconds remaining == 0
      then 1
      else s.milliseconds remaining

  -- Behind the loop: `expired || failed`.
  unfoldable pub leave_loop : ℕ → ℕ → Control T → Turn × Control T
  leave_loop generation rc c =
      let expired =
        rc == timeout_result && is_running c.state && c.timeout_generation == generation in
      if rc == 0 || rc == timeout_result
      then (if expired then expire else end, c)
      else (expire, set_wake_error rc c)

  -- From the head of the loop with the `rc` so far.
  unfoldable pub loop_head : ℕ → T → T → ℕ → Control T → Turn × Control T
  loop_head generation deadline now rc c =
      let remaining = s.minus deadline now in
      if is_running c.state && c.timeout_generation == generation && s.positive c.timeout_seconds
      then (if s.at_most_zero remaining
          then leave_loop generation timeout_result c
          else (wait (wait_time remaining), c))
      else leave_loop generation rc c

  -- From the return of `dd_cond_timedwait_ms`.
  unfoldable pub after_wait : ℕ → T → T → ℕ → Control T → Turn × Control T
  after_wait generation deadline now rc c =
      if rc == timeout_result || rc == 0
      then loop_head generation deadline now rc c
      else leave_loop generation rc (set_wake_error rc c)
