-- ===== src/Tests/Control.antt =====
-- A worker that is cancelled, one that has finished, and a timer that is replaced.
use developer_dashboard.Common.{
  ℕ, ◌+◌, ◌-◌, ◌≡◌, refl, arith, true, false, [], ◌∷◌, ltb, ◌==◌, some,
}
use developer_dashboard.Control.{
  Seconds, Control, kill, timeout, new_control, finish, done, no_wake, mark_timeout, mark_cancel,
  begin_timeout, failed, end, loop_head, request_cancel, wake_code, age,
}
use developer_dashboard.Control.World.{
  World, Worker, Steps, here, next, ready, publish, begin, callback_ends, returned,
  looks_at_wake_error, worker_finishes, cancel, awaiting, working, ending, checked, finished,
  set_timeout,
}
use developer_dashboard.Control.Flags.{Alike}
use developer_dashboard.Control.Invariant.{IsValid, Steps-IsValid, fresh_world, fresh_world-IsValid}
use developer_dashboard.Control.Stability.{first_cancel_stands, end_stands}
use developer_dashboard.Control.Stale.{set_timeouts, stale_timer}

-- Whole seconds.
abbrev seconds : Seconds ℕ
seconds = record {
  zero_seconds = 0;
  positive = ltb 0;
  at_most_zero = λ n. n == 0;
  is_zero = λ n. n == 0;
  minus = ◌-◌;
  endless = ltb 1000000;
  milliseconds = λ n. n + 1;
}

abbrev start_world : World ℕ
start_world = fresh_world seconds 7 100

-- The state after the first request to cancel.
abbrev cancelled_control : Control ℕ
cancelled_control = record start_world.control {
  worker_ready = true;
  cancel_requested = true;
  cancel_reason = kill;
}

abbrev cancelled_world : World ℕ
cancelled_world = record start_world { control = cancelled_control; worker = awaiting; wakers = 1 }

cancels : Steps seconds start_world cancelled_world
unfolding mark_cancel new_control
cancels = next (next here (ready refl)) (cancel kill)

cancels_again : Steps seconds cancelled_world cancelled_world
unfolding mark_cancel new_control
cancels_again = next here (cancel timeout)

first_cancel_stands_example : (true ≡ true) × (kill ≡ kill)
first_cancel_stands_example = first_cancel_stands seconds cancels_again refl

-- The worker says that it is ready, its thread is published, its callback returns, and it finishes.
abbrev published_control : Control ℕ
published_control = record start_world.control {
  worker_ready = true;
  thread = 5;
  thread_valid = true;
}

abbrev at_worker : Worker → World ℕ
at_worker k = record start_world { control = published_control; worker = k }

abbrev finished_world : World ℕ
finished_world = record start_world {
  control = record published_control { state = done; finished_at = 130; thread_valid = false };
  worker = finished;
}

finishes : Steps seconds start_world finished_world
unfolding finish new_control
finishes =
    next {u = at_worker (checked done)}
      (next {u = at_worker (ending done)}
        (next {u = at_worker working}
          (next {u = at_worker awaiting} (next (next here (ready refl)) (publish 5 refl))
            (begin refl refl))
          (callback_ends returned refl))
        (looks_at_wake_error done refl))
      (worker_finishes done 130 refl)

finished_world-IsValid : IsValid finished_world
finished_world-IsValid = Steps-IsValid seconds finishes (fresh_world-IsValid seconds 7 100)

too_late : Steps seconds finished_world finished_world
unfolding mark_cancel begin_timeout new_control
too_late = next (next here (cancel kill)) (set_timeout 20)

end_stands_example :
    Alike finished_world.control finished_world.control
    × ((now later : ℕ)
        → age seconds later finished_world.control ≡ age seconds now finished_world.control)
end_stands_example = end_stands seconds too_late finished_world-IsValid refl

stale_timer_example :
    (mark_timeout seconds 0 (set_timeouts seconds (20 ∷ 0 ∷ []) start_world.control)
      ≡ (no_wake, set_timeouts seconds (20 ∷ 0 ∷ []) start_world.control))
    × (loop_head seconds 0 120 121 0 (set_timeouts seconds (20 ∷ 0 ∷ []) start_world.control)
        ≡ (end, set_timeouts seconds (20 ∷ 0 ∷ []) start_world.control))
unfolding new_control
stale_timer_example =
    stale_timer seconds start_world.control (20 ∷ 0 ∷ []) 120 121 (omega arith) (omega arith)
      (omega arith)

-- A cancel whose wake-up fails: the code is croaked with, and the worker is to end as failed.
wake_fails :
    ((request_cancel kill 5 (record start_world.control { thread_valid = true })).0
      ≡ (some 5, true))
    × ((finish done 9
          (request_cancel kill 5 (record start_world.control { thread_valid = true })).1).state
        ≡ failed)
unfolding request_cancel mark_cancel finish new_control
wake_fails = (refl, refl)

wake_codes : (wake_code 0 true 3 ≡ 0) × (wake_code 0 false 9 ≡ 0) × (wake_code 0 true 9 ≡ 9)
unfolding wake_code
wake_codes = (refl, refl, refl)
