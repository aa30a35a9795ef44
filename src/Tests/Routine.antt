-- ===== src/Tests/Routine.antt =====
-- A worker that is cancelled, one whose timer is replaced, and one that ends.
use developer_dashboard.Common.{ℕ, ◌-◌, ◌*◌, ◌==◌, ltb, ◌≡◌, refl, arith, true, List, [], ◌∷◌}
use developer_dashboard.Control.{Seconds, killed, kill, timeout, done}
use developer_dashboard.Routine.{
  Routine, raises_cancel, raised_cancel, returned, new_routine, request_cancel, poll, final_state,
  finish,
}
use developer_dashboard.Routine.Cancel.{Call, cancel, exit, time_limit, performs, cancel-Ends}
use developer_dashboard.Routine.Timer
use developer_dashboard.Routine.Timer.{Timed, looping}
use developer_dashboard.Routine.World.{
  World, Worker, decremented, counted, working, ending, finished, gone, created, returns, finishes,
  leaves, goes, moves, drops, Steps, here, followed_by, no_workers,
}
use developer_dashboard.Routine.Counted.{AllEnded, wait_all-AllEnded}

-- Whole seconds.
abbrev seconds : Seconds ℕ
seconds = record {
  zero_seconds = 0;
  positive = ltb 0;
  at_most_zero = λ n. n == 0;
  is_zero = λ n. n == 0;
  minus = ◌-◌;
  endless = ltb 1000000;
  milliseconds = λ n. n * 1000;
}

abbrev fresh : Routine ℕ
fresh = new_routine seconds 100

abbrev later_calls : List (Call ℕ)
later_calls = cancel timeout ∷ exit ∷ time_limit 5 ∷ []

cancel-Ends_example :
    ((poll true (performs seconds later_calls (request_cancel kill fresh).1)).0 ≡ raises_cancel)
    × (final_state
          (poll true (performs seconds later_calls (request_cancel kill fresh).1)).1
          raised_cancel
        ≡ killed)
cancel-Ends_example = cancel-Ends seconds kill later_calls fresh true refl refl

abbrev limited : Routine ℕ
limited = record fresh { timeout_generation = 1; timeout_seconds = 5 }

abbrev beside : Timed ℕ
beside = record { routine = limited; generation = 1; phase = looping }

abbrev at_stage : Worker ℕ
at_stage = record { routine = fresh; stage = counted }

abbrev in_callback : Worker ℕ
in_callback = record { routine = fresh; stage = working }

abbrev behind_callback : Worker ℕ
behind_callback = record { routine = fresh; stage = ending done }

abbrev behind_finish : Worker ℕ
behind_finish = record { routine = finish done 107 fresh; stage = finished }

abbrev dropped : Worker ℕ
dropped = record { routine = finish done 107 fresh; stage = gone }

abbrev holding : ℕ → Worker ℕ → World ℕ
holding n k = record { active = n; workers = k ∷ [] }

one_worker : Steps seconds (no_workers seconds) (holding 0 dropped)
unfolding decremented
one_worker =
    followed_by {v = holding 1 behind_finish}
      (followed_by {v = holding 1 behind_callback}
        (followed_by {v = holding 1 in_callback}
          (followed_by {v = holding 1 at_stage}
            (followed_by {v = no_workers seconds} here (goes 100 (omega arith)))
            (moves 0 at_stage in_callback refl (created refl)))
          (moves 0 in_callback behind_callback refl (returns returned refl)))
        (moves 0 behind_callback behind_finish refl (finishes 107 done refl)))
      (drops 0 behind_finish dropped refl (leaves refl))

wait_all-AllEnded_example : AllEnded seconds (dropped ∷ [])
wait_all-AllEnded_example = wait_all-AllEnded seconds (holding 0 dropped) one_worker refl
