-- ===== src/Tests/Helper.antt =====
-- Reading and writing in rounds, and the sweep of icons.
use mathlib.Core.List.{Perm}
use developer_dashboard.Common.{
  ℕ, zero, suc, ◌≤◌, ◌≡◌, ◌≢◌, refl, arith, Bool, true, false, List, [], ◌∷◌, some, Bytes, codes,
}
use developer_dashboard.Menu.Write.{
  Wrote, written, interrupted, Output, after_write, write_all, IsSent, write_all-IsSent,
}
use developer_dashboard.Menu.Command.{Publish, shows, left, handle_commands}
use developer_dashboard.Menu.Input.{Read, line, eof, trim, stopped, on_stdin_ready}
use developer_dashboard.Menu.Input.Laws.{
  answered, Trimmed, on_stdin_ready-handle_commands, trim-Trimmed,
}
use developer_dashboard.Menu.Icons.{
  IconFile, Icons, sweep, update_status_icon, update_status_icon-Perm,
}

-- The first call is interrupted, the others write two bytes.
abbrev answers : ℕ → Wrote
answers zero = interrupted
answers (suc n) = written 2

calm_after : (k : ℕ) → 1 ≤ k → answers k ≢ interrupted
calm_after zero h e = omega (arith, h)
calm_after (suc k) h e = cc

writes : write_all answers 9 0 (codes "abc") ≡ some (record { sent = codes "abc"; complete = true })
unfolding write_all after_write
writes = refl

write_all-IsSent_example :
    (o : Output) × (write_all answers 5 0 (codes "abc") ≡ some o) × IsSent (codes "abc") o
write_all-IsSent_example = write_all-IsSent answers 1 (codes "abc") calm_after

abbrev file : ℕ → ℕ → IconFile
file n t = record { number = n; written = t }

abbrev icons : Icons
icons = record {
  made = true;
  files = file 1 10 ∷ file 2 80 ∷ file 3 90 ∷ [];
  sequence = 3;
  global_sequence = 3;
  published = some 3;
}

sweeps : sweep 100 3 [] icons.files ≡ file 3 90 ∷ file 2 80 ∷ []
unfolding sweep
sweeps = refl

update_status_icon-Perm_example :
    (after : Icons) × (update_status_icon true true true 100 icons ≡ some after)
    × Perm after.files (file 2 80 ∷ file 3 90 ∷ file 4 100 ∷ [])
update_status_icon-Perm_example = update_status_icon-Perm true 100 icons

abbrev shown : Publish
shown n icon = shows

abbrev accepts : Bytes → Bool
accepts s = true

-- A line that is no command, an empty one, a command that ends the helper, and the end of the input.
abbrev reads : List Read
reads =
    line shown (codes "?\n")
    ∷ line shown (codes "\r\n")
    ∷ line shown (codes "{\"op\":\"stop\"}\r\n")
    ∷ eof
    ∷ []

trims : trim (codes "a\nb\r\n\n") ≡ codes "a\nb"
unfolding trim
trims = refl

on_stdin_ready-handle_commands_example :
    on_stdin_ready accepts false true reads stopped
    ≡ answered true (
        handle_commands accepts
          ((shown, codes "?") ∷ (shown, codes "{\"op\":\"stop\"}") ∷ [])
          (left stopped))
unfolding trim
on_stdin_ready-handle_commands_example =
    on_stdin_ready-handle_commands accepts false true reads stopped

trim-Trimmed_example : Trimmed (codes "a\r\n") (codes "a")
unfolding trim
trim-Trimmed_example = trim-Trimmed (codes "a\r\n")
