-- ===== src/Menu/Input.antt =====
-- `on_stdin_ready`: the lines that are at hand are handled, one after the other.
pub mod Laws
use developer_dashboard.Common.{
  ℕ, ◌||◌, ◌==◌, Bool, true, false, List, [], ◌∷◌, Bytes, if◌then◌else◌,
}
use developer_dashboard.Menu.{leaf}
use developer_dashboard.Menu.Command.{Menu, Publish, Handled, left, exited, unread, handle_command}

-- What a call of `g_io_channel_read_line` answers; with a line, how the icons of its command come out.
pub data Read : Type 0 where
  line : Publish → Bytes → Read
  again : Read
  eof : Read
  read_error : Read

abbrev pub is_newline : ℕ → Bool
is_newline c = c == 10 || c == 13

abbrev pub trim_before : ℕ → Bytes → Bytes
trim_before c [] = if is_newline c then [] else c ∷ []
trim_before c (d ∷ s) = c ∷ d ∷ s

-- The line without the newlines and carriage returns at its end.
unfoldable pub trim : Bytes → Bytes
trim [] = []
trim (c ∷ s) = trim_before c (trim s)

-- After `clear_roots` and `gtk_main_quit`.
abbrev pub stopped : Menu
stopped = record { roots = leaf; running = false }

module _ (indicator_made : Bytes → Bool) where
  -- An empty line is no command.
  unfoldable pub handle_line : Publish → Bytes → Menu → Handled Menu
  handle_line publish [] m = left m
  handle_line publish (c ∷ s) m = handle_command publish indicator_made (c ∷ s) m

  abbrev pub then_read : Handled Menu → (Menu → Handled (Bool × Menu)) → Handled (Bool × Menu)
  then_read (left m) next = next m
  then_read exited next = exited
  then_read unread next = unread

  -- The loop, at what the calls answer; behind the last of them there is no more for now. The Boolean
  -- says whether the channel is watched further.
  unfoldable pub read_lines : List Read → Menu → Handled (Bool × Menu)
  read_lines (line publish s ∷ rest) m =
      then_read (handle_line publish (trim s) m) (read_lines rest)
  read_lines (eof ∷ rest) m = left (false, stopped)
  read_lines (again ∷ rest) m = left (true, m)
  read_lines (read_error ∷ rest) m = left (true, m)
  read_lines [] m = left (true, m)

  unfoldable pub on_stdin_ready : Bool → Bool → List Read → Menu → Handled (Bool × Menu)
  on_stdin_ready hung_up input reads m =
      if hung_up
      then left (false, stopped)
      else if input
      then read_lines reads m
      else left (true, m)
