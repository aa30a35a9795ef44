-- ===== src/Menu/Input/Laws.antt =====
-- What comes of the lines that `on_stdin_ready` reads.
use developer_dashboard.Common.{
  ℕ, ◌≡◌, ◌&&◌, ◌||◌, not, refl, sym, ap, Bool, true, false, List, [], ◌∷◌, ◌++◌, Bytes,
  if◌then◌else◌, Bool-cases, inl, inr,
}
use developer_dashboard.Menu.Command.{
  Menu, Publish, Handled, left, exited, unread, handle_command, handle_commands,
}
use developer_dashboard.Menu.Input.{
  Read, line, again, eof, read_error, is_newline, trim, trim_before, stopped, handle_line,
  then_read, read_lines, on_stdin_ready,
}

abbrev pub command : Publish → Bytes → List (Publish × Bytes) → List (Publish × Bytes)
command publish [] rest = rest
command publish (c ∷ s) rest = (publish, c ∷ s) ∷ rest

-- The lines that are at hand, trimmed and without the empty ones.
abbrev pub commands : List Read → List (Publish × Bytes)
commands (line publish s ∷ rest) = command publish (trim s) (commands rest)
commands _ = []

abbrev pub at_eof : List Read → Bool
at_eof (line publish s ∷ rest) = at_eof rest
at_eof (eof ∷ rest) = true
at_eof _ = false

-- What is answered where the commands have left `r`.
abbrev pub answered : Bool → Handled Menu → Handled (Bool × Menu)
answered ends (left m) = left (if ends then (false, stopped) else (true, m))
answered ends exited = exited
answered ends unread = unread

module _ (made : Bytes → Bool) where
  exits_at_once : (lines : List (Publish × Bytes)) → handle_commands made lines exited ≡ exited
  unfolding handle_commands
  exits_at_once [] = refl
  exits_at_once ((publish, text) ∷ lines) = exits_at_once lines

  ends_unread : (lines : List (Publish × Bytes)) → handle_commands made lines unread ≡ unread
  unfolding handle_commands
  ends_unread [] = refl
  ends_unread ((publish, text) ∷ lines) = ends_unread lines

  then_read_lem :
      (lines : List (Publish × Bytes)) (ends : Bool) (next : Menu → Handled (Bool × Menu))
      (r : Handled Menu)
      → ((m : Menu) → next m ≡ answered ends (handle_commands made lines (left m)))
      → then_read made r next ≡ answered ends (handle_commands made lines r)
  then_read_lem lines ends next (left m) h = h m
  then_read_lem lines ends next exited h = sym (ap (answered ends) (exits_at_once lines))
  then_read_lem lines ends next unread h = sym (ap (answered ends) (ends_unread lines))

  line_lem :
      (publish : Publish) (t : Bytes) (lines : List (Publish × Bytes)) (ends : Bool)
      (next : Menu → Handled (Bool × Menu)) (m : Menu)
      → ((n : Menu) → next n ≡ answered ends (handle_commands made lines (left n)))
      → then_read made (handle_line made publish t m) next
        ≡ answered ends (handle_commands made (command publish t lines) (left m))
  unfolding handle_line handle_commands
  line_lem publish [] lines ends next m h = h m
  line_lem publish (c ∷ t) lines ends next m h =
      then_read_lem lines ends next (handle_command publish made (c ∷ t) m) h

  read_lines_lem :
      (reads : List Read) (m : Menu)
      → read_lines made reads m
        ≡ answered (at_eof reads) (handle_commands made (commands reads) (left m))
  unfolding read_lines handle_commands
  read_lines_lem [] m = refl
  read_lines_lem (again ∷ rest) m = refl
  read_lines_lem (read_error ∷ rest) m = refl
  read_lines_lem (eof ∷ rest) m = refl
  read_lines_lem (line publish s ∷ rest) m =
      line_lem publish (trim s) (commands rest) (at_eof rest) (read_lines made rest) m
        (read_lines_lem rest)

  -- Where there is input and the other end has not hung up, the lines that are at hand are handled as
  -- commands in their order, trimmed and without the empty ones; the helper goes on with the menu that
  -- they leave, or has ended in one of them. At the end of the input, and where the other end has hung
  -- up, it stops with no menu.
  pub on_stdin_ready-handle_commands :
      (hung_up input : Bool) (reads : List Read) (m : Menu)
      → on_stdin_ready made hung_up input reads m
        ≡ answered
            (hung_up || (input && at_eof reads))
            (handle_commands made (if input && not hung_up then commands reads else []) (left m))
  unfolding on_stdin_ready handle_commands
  on_stdin_ready-handle_commands false false reads m = refl
  on_stdin_ready-handle_commands false true reads m = read_lines_lem reads m
  on_stdin_ready-handle_commands true false reads m = refl
  on_stdin_ready-handle_commands true true reads m = refl

-- A text in which every byte is a newline or a carriage return.
abbrev pub AllNewlines : Bytes → Type 0
AllNewlines [] = Unit
AllNewlines (c ∷ s) = (is_newline c ≡ true) × AllNewlines s

abbrev pub ends_line : Bytes → Bool
ends_line [] = false
ends_line (c ∷ []) = is_newline c
ends_line (c ∷ (d ∷ s)) = ends_line (d ∷ s)

abbrev pub Trimmed : Bytes → Bytes → Type 0
Trimmed s t = (ends_line t ≡ false) × (e : Bytes) × (s ≡ t ++ e) × AllNewlines e

trim_before_lem : (c : ℕ) (s t : Bytes) → Trimmed s t → Trimmed (c ∷ s) (trim_before c t)
trim_before_lem c s [] (f, e, q, a) = elim (Bool-cases (is_newline c)) [
  | inl newline ↦ rw newline (refl, c ∷ s, refl, (newline, rw q a))
  | inr other ↦ rw other (other, e, ap (λ l. c ∷ l) q, a)
]
trim_before_lem c s (d ∷ t) (f, e, q, a) = (f, e, ap (λ l. c ∷ l) q, a)

-- A line is trimmed to the text before the newlines and carriage returns at its end, all of them.
pub trim-Trimmed : (s : Bytes) → Trimmed s (trim s)
unfolding trim
trim-Trimmed [] = (refl, [], refl, tt)
trim-Trimmed (c ∷ s) = trim_before_lem c s (trim s) (trim-Trimmed s)
