-- ===== src/Routine/Timer.antt =====
-- `go_timeout_worker`: a timer beside the others that call at its worker. A step is one section under the
-- mutex of the worker: the lock is not held from one step to the next.
use developer_dashboard.Common.{ℕ, ◌≡◌}
use developer_dashboard.Control.{Seconds, GoState, timeout}
use developer_dashboard.Routine.{
  Routine, Turn, waits, cancels, ends, request_cancel, set_timeout, timer_head, finish,
}
use developer_dashboard.Routine.Cancel.{Call, perform}

-- In its loop, behind it with `should_cancel` set, or at its end.
pub data Phase : Type 0 where
  looping decided over : Phase

abbrev pub phase_after : Turn → Phase
phase_after (waits ms) = looping
phase_after cancels = decided
phase_after ends = over

pub record Timed (T : Type 0) : Type 0 where
  pub routine : Routine T
  pub generation : ℕ
  pub phase : Phase

module _ {T : Type 0} (s : Seconds T) where
  pub data Step (w : Timed T) : Timed T → Type 0 where
    calls : (c : Call T) → Step w (record w { routine = perform s c w.routine })
    finishes :
        (result : GoState) (now : T) → Step w (record w { routine = finish result now w.routine })
    -- the head of the loop, with the time that remains then
    looks :
        (remaining : T)
        → w.phase ≡ looping
        → Step w (record w { phase = phase_after (timer_head s w.generation remaining w.routine) })
    requests :
        w.phase ≡ decided
        → Step w (record w { routine = (request_cancel timeout w.routine).1; phase = over })

  pub data Steps (w : Timed T) : Timed T → Type 0 where
    here : Steps w w
    followed_by : {v u : Timed T} → Steps w v → Step v u → Steps w u

  abbrev decided_at : Timed T → Timed T
  decided_at w = record w { phase = decided }

  abbrev replaced : T → Timed T → Timed T
  replaced seconds w = record w { routine = (set_timeout s seconds w.routine).1; phase = decided }

  abbrev cancelled : T → Timed T → Timed T
  cancelled seconds w = record w {
    routine = (request_cancel timeout (set_timeout s seconds w.routine).1).1;
    phase = over;
  }
