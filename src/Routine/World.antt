-- ===== src/Routine/World.antt =====
-- All workers at once: the count of them, `go_active`, that `wait_all` waits for, and where
-- `go` and each `go_worker` are. A step is a section under the count's mutex or under the one of a worker.
use developer_dashboard.Common.{
  ℕ, ◌+◌, ◌-◌, ◌<◌, ◌^◌, ◌≡◌, ltb, if◌then◌else◌, List, [], ◌∷◌, ◌++◌, some, get_elem?, set,
}
use developer_dashboard.Control.{Seconds, GoState}
use developer_dashboard.Routine.{Routine, Ending, new_routine, final_state, finish}
use developer_dashboard.Routine.Cancel.{Call, perform}

-- Where a worker is: counted, its thread not created; refused, before `go_active_dec`; in its callback;
-- behind it with the state to finish in; behind `go_control_finish`; or no longer counted.
pub data Stage : Type 0 where
  counted refused working : Stage
  ending : GoState → Stage
  finished gone never : Stage

pub record Worker (T : Type 0) : Type 0 where
  pub routine : Routine T
  pub stage : Stage

pub record World (T : Type 0) : Type 0 where
  pub active : ℕ
  pub workers : List (Worker T)

-- `go_active_dec`
unfoldable pub decremented : ℕ → ℕ
decremented n = if ltb 0 n then n - 1 else n

abbrev pub is_counted : Stage → ℕ
is_counted gone = 0
is_counted never = 0
is_counted _ = 1

abbrev pub in_stage : {T : Type 0} → Worker T → Stage → Worker T
in_stage k stage = record k { stage = stage }

abbrev pub with_routine : {T : Type 0} → Worker T → Routine T → Worker T
with_routine k r = record k { routine = r }

module _ {T : Type 0} (s : Seconds T) where
  -- What happens to one worker: the calls at its control, the outcome of `go_thread_create`, the end of
  -- its callback, `go_control_finish` and `go_active_dec`.
  pub data Move (k : Worker T) : Worker T → Type 0 where
    called : (c : Call T) → Move k (with_routine k (perform s c k.routine))
    created : k.stage ≡ counted → Move k (in_stage k working)
    not_created : k.stage ≡ counted → Move k (in_stage k refused)
    returns :
        (e : Ending) → k.stage ≡ working → Move k (in_stage k (ending (final_state k.routine e)))
    finishes :
        (now : T) (result : GoState)
        → k.stage ≡ ending result
        → Move k (record { routine = finish result now k.routine; stage = finished })

  pub data Leaves (k : Worker T) : Worker T → Type 0 where
    leaves : k.stage ≡ finished → Leaves k (in_stage k gone)
    gives_up : k.stage ≡ refused → Leaves k (in_stage k never)

  pub data Step (w : World T) : World T → Type 0 where
    -- `go` up to `go_active_inc`. Memory ends long before the count does.
    goes :
        (now : T)
        → w.active + 1 < 2 ^ 64
        → Step w (record {
          active = w.active + 1;
          workers = w.workers ++ (record { routine = new_routine s now; stage = counted } ∷ []);
        })
    moves :
        (i : ℕ) (k after : Worker T)
        → get_elem? w.workers i ≡ some k
        → Move k after
        → Step w (record w { workers = set w.workers i after })
    drops :
        (i : ℕ) (k after : Worker T)
        → get_elem? w.workers i ≡ some k
        → Leaves k after
        → Step w (record { active = decremented w.active; workers = set w.workers i after })

  pub data Steps (w : World T) : World T → Type 0 where
    here : Steps w w
    followed_by : {v u : World T} → Steps w v → Step v u → Steps w u

  abbrev pub no_workers : World T
  no_workers = record { active = 0; workers = [] }
