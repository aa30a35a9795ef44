-- ===== src/Control/World.antt =====
-- The threads at one control block: the worker, the callers that are between their sections, and the
-- timers. One step is one section under the mutex, or what a thread does between two of them. A
-- reference is taken only while there are fewer than `ULONG_MAX`: memory ends long before. The deadline
-- of a new timer and the clock are left open.
use developer_dashboard.Common.{
  ℕ, zero, suc, ◌+◌, ◌-◌, ◌≤◌, ◌<◌, ◌≡◌, ◌||◌, not, ◌==◌, if◌then◌else◌, Bool, true, false, List,
  [], ◌∷◌, ◌++◌, Option, none, some, get_elem?, set,
}
use developer_dashboard.Control.{
  ulong_max, Seconds, Control, GoState, done, exited, failed, timed_out, killed, is_timeout,
  is_running, CancelReason, Wake, Turn, wait, expire, end, mark_cancel, mark_timeout, begin_timeout,
  undo_timeout, woken, retain, release, request_exit, finish, loop_head, after_wait,
}

-- How the callback of a worker ended: `go_worker` tells it from the exception's text, or from the
-- thread-local slot that could not be set.
pub data Ending : Type 0 where
  returned raised_cancel raised_exit died no_slot : Ending

-- `final_state` of `go_worker`.
abbrev pub final_state : {T : Type 0} → Control T → Ending → GoState
final_state c returned = done
final_state c raised_cancel = if is_timeout c.cancel_reason then timed_out else killed
final_state c raised_exit = exited
final_state c died = failed
final_state c no_slot = failed

-- Where the worker is: before it says that it is ready, waiting for its thread to be published, in the
-- callback, behind it with the state to finish in, first before and then behind the look at
-- `wake_error`, behind `go_control_finish`, or gone.
pub data Worker : Type 0 where
  starting awaiting working : Worker
  ending : GoState → Worker
  checked : GoState → Worker
  finished gone : Worker

pub data Phase : Type 0 where
  entering waiting calling waking leaving : Phase

pub record Timer (T : Type 0) : Type 0 where
  pub generation : ℕ
  pub deadline : T
  pub phase : Phase

pub record World (T : Type 0) : Type 0 where
  pub control : Control T
  pub worker : Worker
  -- callers of `go_control_request_cancel` that are to wake the worker
  pub wakers : ℕ
  -- handles that hold a reference
  pub handles : ℕ
  -- callers of `go_control_set_timeout` that have a generation and no timer yet
  pub setters : List ℕ
  pub timers : List (Timer T)

module _ {ℓ} {A : Type ℓ} where
  abbrev pub remove : List A → ℕ → List A
  remove [] i = []
  remove (x ∷ xs) zero = xs
  remove (x ∷ xs) (suc i) = x ∷ remove xs i

-- What a timer does behind a turn of its loop.
abbrev pub phase_after : Turn → Phase
phase_after (wait n) = waiting
phase_after expire = calling
phase_after end = leaving

abbrev pub phase_after_mark : Wake → Phase
phase_after_mark w = if w.requested then waking else leaving

abbrev pub wakers_after : Wake → ℕ → ℕ
wakers_after w n = if w.requested then n + 1 else n

abbrev pub setters_after : Option ℕ → List ℕ → List ℕ
setters_after none l = l
setters_after (some g) l = l ++ (g ∷ [])

module _ {T : Type 0} where
  abbrev pub in_phase : Timer T → Phase → Timer T
  in_phase t p = record t { phase = p }

-- The worker has not yet seen that its thread is published.
abbrev pub is_unpublished : Worker → Bool
is_unpublished starting = true
is_unpublished awaiting = true
is_unpublished _ = false

-- `publish` is the section of the call that has started the thread, as `go` of GoRoutine012.xs has it: no
-- file of the repository starts the worker of GoRoutineNative.h, which waits for it in its first section.
module _ {T : Type 0} (s : Seconds T) where
  pub data Step (w : World T) : World T → Type 0 where
    ready :
        w.worker ≡ starting
        → Step w
            (record w { worker = awaiting; control = record w.control { worker_ready = true } })
    publish :
        (thread : ℕ)
        → is_unpublished w.worker ≡ true
        → Step w (record w { control = record w.control { thread = thread; thread_valid = true } })
    begin :
        w.worker ≡ awaiting
        → (w.control.thread_valid || not (is_running w.control.state)) ≡ true
        → Step w (record w { worker = working })
    ask_exit : w.worker ≡ working → Step w (record w { control = request_exit w.control })
    callback_ends :
        (e : Ending)
        → w.worker ≡ working
        → Step w (record w { worker = ending (final_state w.control e) })
    looks_at_wake_error :
        (result : GoState)
        → w.worker ≡ ending result
        → Step w
            (record w { worker = checked (if w.control.wake_error == 0 then result else failed) })
    worker_finishes :
        (result : GoState) (now : T)
        → w.worker ≡ checked result
        → Step w (record w { worker = finished; control = finish result now w.control })
    worker_leaves :
        w.worker ≡ finished → Step w (record w { worker = gone; control = (release w.control).1 })
    cancel :
        (reason : CancelReason)
        → Step w (record w {
          control = (mark_cancel reason w.control).1;
          wakers = wakers_after (mark_cancel reason w.control).0 w.wakers;
        })
    cancel_wakes :
        (rc : ℕ)
        → 1 ≤ w.wakers
        → Step w (record w { control = woken rc w.control; wakers = w.wakers - 1 })
    new_handle :
        1 ≤ w.control.refs
        → w.control.refs < ulong_max
        → Step w (record w { control = retain w.control; handles = w.handles + 1 })
    drop_handle :
        1 ≤ w.handles
        → Step w (record w { control = (release w.control).1; handles = w.handles - 1 })
    set_timeout :
        (seconds : T)
        → Step w (record w {
          control = (begin_timeout s seconds w.control).1;
          setters =
              if s.is_zero seconds
              then w.setters
              else setters_after (begin_timeout s seconds w.control).0 w.setters;
        })
    no_timer :
        (i g : ℕ)
        → get_elem? w.setters i ≡ some g
        → Step w (record w { control = undo_timeout s g w.control; setters = remove w.setters i })
    new_timer :
        (i g : ℕ) (deadline : T)
        → get_elem? w.setters i ≡ some g
        → w.control.refs < ulong_max
        → Step w (record w {
          control = retain w.control;
          setters = remove w.setters i;
          timers = record { generation = g; deadline = deadline; phase = entering } ∷ w.timers;
        })
    timer_enters :
        (i : ℕ) (now : T) (t : Timer T)
        → get_elem? w.timers i ≡ some t
        → t.phase ≡ entering
        → Step w (record w {
          control = (loop_head s t.generation t.deadline now 0 w.control).1;
          timers =
              set w.timers i
                (in_phase t (phase_after (loop_head s t.generation t.deadline now 0 w.control).0));
        })
    timer_turns :
        (i rc : ℕ) (now : T) (t : Timer T)
        → get_elem? w.timers i ≡ some t
        → t.phase ≡ waiting
        → Step w (record w {
          control = (after_wait s t.generation t.deadline now rc w.control).1;
          timers =
              set w.timers i (
                in_phase t (phase_after (after_wait s t.generation t.deadline now rc w.control).0));
        })
    timer_expires :
        (i : ℕ) (t : Timer T)
        → get_elem? w.timers i ≡ some t
        → t.phase ≡ calling
        → Step w (record w {
          control = (mark_timeout s t.generation w.control).1;
          timers =
              set w.timers i
                (in_phase t (phase_after_mark (mark_timeout s t.generation w.control).0));
        })
    timer_wakes :
        (i rc : ℕ) (t : Timer T)
        → get_elem? w.timers i ≡ some t
        → t.phase ≡ waking
        → Step w (record w {
          control = woken rc w.control;
          timers = set w.timers i (in_phase t leaving);
        })
    timer_leaves :
        (i : ℕ) (t : Timer T)
        → get_elem? w.timers i ≡ some t
        → t.phase ≡ leaving
        → Step w (record w { control = (release w.control).1; timers = remove w.timers i })

  pub data Steps (w : World T) : World T → Type 0 where
    here : Steps w w
    next : {u v : World T} → Steps w u → Step u v → Steps w v
