-- ===== src/Supervision.antt =====
-- The process that shows the tray menu, as SystemMenuNative.h and SystemMenu.xs start, feed, drain and
-- stop it, on POSIX. Each operation runs under one lock; what the calls of the system answer is an
-- argument of the operation.
pub mod Write
pub mod Ledger
pub mod Balance
pub mod World
use developer_dashboard.Common.{
  ℕ, ◌+◌, ◌==◌, ltb, Bool, true, false, ◌&&◌, if◌then◌else◌, List, [], ◌∷◌, ◌++◌, Option, none,
  some, length, Bytes, codes,
}

-- `helper_fd`, `event_fd` and `helper_pid`; `none` is -1.
pub record Helper : Type 0 where
  pub commands : Option ℕ
  pub events : Option ℕ
  pub pid : Option ℕ

abbrev pub no_helper : Helper
no_helper = record { commands = none; events = none; pid = none }

-- What a call of the system does to the descriptors and the children of this process.
pub data Effect : Type 0 where
  opens : ℕ → Effect
  closes : ℕ → Effect
  starts : ℕ → Effect
  reaps : ℕ → Effect

-- `waitpid` without waiting.
pub data Waited : Type 0 where
  still_running has_ended no_child wait_error : Waited

abbrev pub close_if_open : Option ℕ → List Effect
close_if_open none = []
close_if_open (some fd) = closes fd ∷ []

unfoldable pub close_helper_state : Helper → List Effect
close_helper_state h = close_if_open h.commands ++ close_if_open h.events

-- A child that `waitpid` does not know has been reaped by another.
abbrev pub after_wait : Helper → ℕ → Waited → Bool × Helper × List Effect
after_wait h pid still_running = (true, h, [])
after_wait h pid has_ended = (false, no_helper, reaps pid ∷ close_helper_state h)
after_wait h pid no_child = (false, no_helper, reaps pid ∷ close_helper_state h)
after_wait h pid wait_error = (false, h, [])

abbrev pub running_with : Helper → Option ℕ → Waited → Bool × Helper × List Effect
running_with h none w = (false, h, [])
running_with h (some pid) w = after_wait h pid w

unfoldable pub helper_is_running : Helper → Waited → Bool × Helper × List Effect
helper_is_running h w = running_with h h.pid w

abbrev pub path_max : ℕ
path_max = 4096

abbrev pub leaf : Bytes
leaf = codes "/system_menu_helper"

-- `dladdr` gives the path of this library, `dirname` its directory, and `access` says what may run.
unfoldable pub find_helper_path : Option Bytes → (Bytes → Bytes) → (Bytes → Bool) → ℕ → Option Bytes
find_helper_path none dirname runs out_size = none
find_helper_path (some path) dirname runs out_size =
    if ltb (length path) path_max
    then (if ltb (length (dirname path ++ leaf)) out_size
        then (if runs (dirname path ++ leaf) then some (dirname path ++ leaf) else none)
        else none)
    else none

pub data StartError : Type 0 where
  not_found no_command_pipe no_event_pipe no_actions not_spawned : StartError

pub data Started : Type 0 where
  started : Started
  start_error : StartError → Started

-- What the calls of `_start` answer, in their order: the helper's path, the read and the write end of
-- each pipe, whether the actions were made, and the child.
pub record Answers : Type 0 where
  pub path : Option Bytes
  pub command_pipe : Option (ℕ × ℕ)
  pub event_pipe : Option (ℕ × ℕ)
  pub actions : Bool
  pub child : Option ℕ

abbrev pub opens_pipe : ℕ × ℕ → List Effect
opens_pipe p = opens p.0 ∷ opens p.1 ∷ []

abbrev pub closes_pipe : ℕ × ℕ → List Effect
closes_pipe p = closes p.0 ∷ closes p.1 ∷ []

-- Behind `posix_spawn`: the child's ends are closed, then the others where there is no child.
abbrev pub with_child : Helper → ℕ × ℕ → ℕ × ℕ → Option ℕ → Started × Helper × List Effect
with_child h c e none =
    (start_error not_spawned, h, closes c.0 ∷ closes e.1 ∷ closes c.1 ∷ closes e.0 ∷ [])
with_child h c e (some pid) = (
  started,
  record { commands = some c.1; events = some e.0; pid = some pid },
  starts pid ∷ closes c.0 ∷ closes e.1 ∷ [],
)

abbrev pub behind : List Effect → Started × Helper × List Effect → Started × Helper × List Effect
behind fx r = (r.0, r.1, fx ++ r.2)

abbrev pub with_events : Helper → Answers → ℕ × ℕ → Option (ℕ × ℕ) → Started × Helper × List Effect
with_events h a c none = (start_error no_event_pipe, h, closes_pipe c)
with_events h a c (some e) = behind (opens_pipe e) (
    if a.actions
    then with_child h c e a.child
    else (start_error no_actions, h, closes_pipe c ++ closes_pipe e))

abbrev pub with_commands : Helper → Answers → Option (ℕ × ℕ) → Started × Helper × List Effect
with_commands h a none = (start_error no_command_pipe, h, [])
with_commands h a (some c) = behind (opens_pipe c) (with_events h a c a.event_pipe)

abbrev pub with_path : Helper → Answers → Option Bytes → Started × Helper × List Effect
with_path h a none = (start_error not_found, h, [])
with_path h a (some path) = with_commands h a a.command_pipe

unfoldable pub start : Helper → Waited → Answers → Started × Helper × List Effect
start h w a =
    let (running, g, fx) = helper_is_running h w in
    if running then (started, g, fx) else behind fx (with_path g a a.path)

-- What two writes came to, of a command and of the newline behind it; the second one is made only
-- where the first is complete.
pub record Sending : Type 0 where
  pub sent : Bytes
  pub complete : Bool

-- `_command_json`: whether the command was sent, the bytes that reached the pipe, and the rest.
unfoldable pub command : Helper → Waited → Sending → Bool × Bytes × Helper × List Effect
command h w s =
    let (running, g, fx) = helper_is_running h w in
    if running
    then (if s.complete
        then (true, s.sent, g, fx)
        else (false, s.sent, no_helper, fx ++ close_helper_state g))
    else (false, [], g, fx)

-- What a call of `read` answers.
pub data ReadAnswer : Type 0 where
  got : Bytes → ReadAnswer
  interrupted would_block at_end read_error : ReadAnswer

abbrev pub before : Bytes → Bytes × Helper × List Effect → Bytes × Helper × List Effect
before s r = (s ++ r.0, r.1, r.2)

-- The loop of `_read_events` over what the calls answer.
unfoldable pub read_loop : List ReadAnswer → Helper → ℕ → Bytes × Helper × List Effect
read_loop (got s ∷ rest) h fd = before s (read_loop rest h fd)
read_loop (interrupted ∷ rest) h fd = read_loop rest h fd
read_loop (at_end ∷ rest) h fd = ([], record h { events = none }, closes fd ∷ [])
read_loop (would_block ∷ rest) h fd = ([], h, [])
read_loop (read_error ∷ rest) h fd = ([], h, [])
read_loop [] h fd = ([], h, [])

abbrev pub read_from : List ReadAnswer → Helper → Option ℕ → Bytes × Helper × List Effect
read_from answers h none = ([], h, [])
read_from answers h (some fd) = read_loop answers h fd

unfoldable pub read_events : List ReadAnswer → Helper → Bytes × Helper × List Effect
read_events answers h = read_from answers h h.events

-- `_stop` up to the unlock: the child that is then waited for. What its last command came to is
-- ignored.
unfoldable pub stop : Helper → Waited → Option ℕ × Helper × List Effect
stop h w =
    let (running, g, fx) = helper_is_running h w in
    if running
    then (g.pid, no_helper, fx ++ close_helper_state g)
    else (none, no_helper, fx ++ close_helper_state g)
