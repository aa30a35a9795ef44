-- ===== src/Supervision/World.antt =====
-- The helper, the threads that wait for one to end, and all that has been done, step by step: a step is
-- what one thread does under the lock, or the wait of `_stop` behind it.
pub mod Lines
pub mod Invariant
use developer_dashboard.Common.{
  ℕ, zero, suc, ◌+◌, ◌≡◌, ◌≢◌, Bool, true, false, if◌then◌else◌, List, [], ◌∷◌, ◌++◌, Option, none,
  some, Bytes, length, get_elem?,
}
use developer_dashboard.Menu.Write.{Wrote}
use developer_dashboard.Supervision.{
  Helper, Effect, reaps, Waited, wait_error, helper_is_running, Answers, start, Sending, command,
  ReadAnswer, read_events, stop,
}
use developer_dashboard.Supervision.Write.{IsCalm, send_line}
use developer_dashboard.Supervision.Balance.{lost_in}

pub record World : Type 0 where
  pub helper : Helper
  pub log : List Effect
  -- children that a `_stop` is to wait for, and those that nobody will
  pub waiting : List ℕ
  pub lost : List ℕ
  -- what the helper that is there has been sent, and the commands that were answered with success
  pub sent : Bytes
  pub accepted : List Bytes

abbrev pub add : Option ℕ → List ℕ → List ℕ
add none l = l
add (some p) l = p ∷ l

abbrev pub remove : List ℕ → ℕ → List ℕ
remove [] i = []
remove (x ∷ xs) zero = xs
remove (x ∷ xs) (suc i) = x ∷ remove xs i

-- `waitpid` with WNOHANG, on a child of this process, has no other error than ECHILD.
pub data Step (w : World) : World → Type 0 where
  starts :
      (a : Waited) (answers : Answers)
      → a ≢ wait_error
      → Step w (record w {
        helper = (start w.helper a answers).1;
        log = w.log ++ (start w.helper a answers).2;
        sent = if (helper_is_running w.helper a).0 then w.sent else [];
        accepted = if (helper_is_running w.helper a).0 then w.accepted else [];
      })
  looks :
      (a : Waited)
      → a ≢ wait_error
      → Step w (record w {
        helper = (helper_is_running w.helper a).1;
        log = w.log ++ (helper_is_running w.helper a).2;
      })
  commands :
      (a : Waited) (value : Bytes) (answer answer' : ℕ → Wrote) (calm calm' : ℕ) (s : Sending)
      → a ≢ wait_error
      → IsCalm answer calm
      → IsCalm answer' calm'
      → send_line answer (calm + length value + 1) answer' (calm' + 2) value ≡ some s
      → Step w (record w {
        helper = (command w.helper a s).2;
        log = w.log ++ (command w.helper a s).3;
        lost = add (lost_in w.helper a s) w.lost;
        sent = w.sent ++ (command w.helper a s).1;
        accepted = if (command w.helper a s).0 then w.accepted ++ (value ∷ []) else w.accepted;
      })
  reads :
      (answers : List ReadAnswer)
      → Step w (record w {
        helper = (read_events answers w.helper).1;
        log = w.log ++ (read_events answers w.helper).2;
      })
  stops :
      (a : Waited)
      → a ≢ wait_error
      → Step w (record w {
        helper = (stop w.helper a).1;
        log = w.log ++ (stop w.helper a).2;
        waiting = add (stop w.helper a).0 w.waiting;
      })
  waits :
      (i pid : ℕ)
      → get_elem? w.waiting i ≡ some pid
      → Step w (record w { log = w.log ++ (reaps pid ∷ []); waiting = remove w.waiting i })

pub data Steps (w : World) : World → Type 0 where
  here : Steps w w
  next : {u v : World} → Steps w u → Step u v → Steps w v
