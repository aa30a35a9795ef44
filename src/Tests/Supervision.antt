-- ===== src/Tests/Supervision.antt =====
-- The life of a helper.
use developer_dashboard.Common.{ℕ, ◌≡◌, ◌+◌, refl, true, [], ◌∷◌, some, codes, length}
use developer_dashboard.Menu.Write.{Wrote, written}
use developer_dashboard.Supervision.{
  Effect, opens, closes, reaps, no_helper, Answers, still_running, start, command, read_events,
  read_loop, stop, helper_is_running, close_helper_state, Sending, at_end, got,
}
use developer_dashboard.Supervision.Write.{
  IsCalm, write_all, after_write, send_line, IsLine, send_line-IsLine,
}
use developer_dashboard.Supervision.World.{
  World, Steps, here, next, starts, commands, reads, stops, waits,
}
use developer_dashboard.Supervision.World.Lines.{IsAccounted}
use developer_dashboard.Supervision.World.Invariant.{Steps-IsAccounted, loaded, loaded-IsAccounted}

-- Every call writes two bytes.
abbrev two : ℕ → Wrote
two k = written 2

two-IsCalm : IsCalm two 0
two-IsCalm k h = (λ e. cc, λ e. cc)

send_line-IsLine_example :
    (s : Sending) × (send_line two 4 two 2 (codes "abc") ≡ some s) × IsLine (codes "abc") s
send_line-IsLine_example = send_line-IsLine two two 0 0 (codes "abc") two-IsCalm two-IsCalm

abbrev pipes : Answers
pipes = record {
  path = some (codes "/x/system_menu_helper");
  command_pipe = some (3, 4);
  event_pipe = some (5, 6);
  actions = true;
  child = some 77;
}

abbrev line_abc : Sending
line_abc = record { sent = codes "abc\n"; complete = true }

writes_line : send_line two (0 + length (codes "abc") + 1) two (0 + 2) (codes "abc") ≡ some line_abc
unfolding send_line write_all after_write
writes_line = refl

-- It is started, sent a command, drained to the end, stopped and waited for.
abbrev ended : World
ended = record {
  helper = no_helper;
  log =
      opens 3
      ∷ opens 4
      ∷ opens 5
      ∷ opens 6
      ∷ Effect.starts 77
      ∷ closes 3
      ∷ closes 6
      ∷ closes 5
      ∷ closes 4
      ∷ reaps 77
      ∷ [];
  waiting = [];
  lost = [];
  sent = codes "abc\n";
  accepted = codes "abc" ∷ [];
}

life : Steps loaded ended
unfolding start helper_is_running command read_events read_loop stop close_helper_state
life =
    next
      (next
        (next
          (next (next here (starts still_running pipes (λ e. cc))) (
            commands still_running (codes "abc") two two 0 0 line_abc (λ e. cc) two-IsCalm
              two-IsCalm writes_line))
          (reads (got (codes "x") ∷ at_end ∷ [])))
        (stops still_running (λ e. cc)))
      (waits 0 77 refl)

Steps-IsAccounted_example : IsAccounted ended
Steps-IsAccounted_example = Steps-IsAccounted life loaded-IsAccounted
