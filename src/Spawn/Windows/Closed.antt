-- ===== src/Spawn/Windows/Closed.antt =====
-- What `dd_spawn_process` has released at its end on Windows, and what it has not.
use developer_dashboard.Common.{
  ℕ, ◌+◌, ◌≡◌, ◌==◌, refl, arith, if◌then◌else◌, List, [], ◌∷◌, Option, none, some, Bytes,
}
use developer_dashboard.Spawn.Arguments.{
  ArgvError, empty_argv, argv_too_large, no_memory_for_argv, wide_argument, not_a_scalar, nul_byte,
  Argv, argv, OptionText, no_option, option, option_not_scalar, option_wide, option_has_nul,
}
use developer_dashboard.Spawn.CommandLine.{Line, line, windows_command_line}
use developer_dashboard.Spawn.Windows.{
  Held, arguments, line_text, input, output, errors, thread, process, Use, acquires, releases,
  CreateError, bad_arguments, vector_of, bad_line, bad_option, no_input, no_output, no_errors,
  no_seek_output, no_seek_errors, Child, created, croaks, Run, Windows, opening, checked, after,
  read_option, Options, with_line, build_line, spawn_windows,
}

abbrev same : Held → Held → ℕ
same arguments arguments = 1
same line_text line_text = 1
same input input = 1
same output output = 1
same errors errors = 1
same thread thread = 1
same process process = 1
same _ _ = 0

abbrev pub acquired : Held → List Use → ℕ
acquired r [] = 0
acquired r (acquires q ∷ l) = same q r + acquired r l
acquired r (releases q ∷ l) = acquired r l

abbrev pub released : Held → List Use → ℕ
released r [] = 0
released r (acquires q ∷ l) = released r l
released r (releases q ∷ l) = same q r + released r l

-- The errors behind which nothing is released, not even the arguments and the line.
abbrev pub drops_all : CreateError → ℕ
drops_all no_seek_output = 1
drops_all no_seek_errors = 1
drops_all bad_option = 1
drops_all _ = 0

-- The errors that leave the files open that have been opened.
abbrev pub drops_files : CreateError → ℕ
drops_files no_input = 1
drops_files no_output = 1
drops_files no_errors = 1
drops_files no_seek_output = 1
drops_files no_seek_errors = 1
drops_files _ = 0

abbrev pub drops_arguments : CreateError → ℕ
drops_arguments (bad_arguments wide_argument) = 1
drops_arguments (bad_line e) = 1
drops_arguments e = drops_all e

abbrev pub left_by : CreateError → List Use → Held → ℕ
left_by e l arguments = drops_arguments e
left_by e l line_text = drops_all e
left_by e l input = if drops_files e == 1 then acquired input l else 0
left_by e l output = if drops_files e == 1 then acquired output l else 0
left_by e l errors = if drops_files e == 1 then acquired errors l else 0
left_by e l thread = 0
left_by e l process = 0

abbrev pub left : Run → Held → ℕ
left (created pid c, l) r = 0
left (croaks e, l) r = left_by e l r

abbrev Settles : (Held → ℕ) → Run → Held → Type 0
Settles before run r = before r + acquired r run.1 ≡ released r run.1 + left run r

abbrev one_arguments : Held → ℕ
one_arguments arguments = 1
one_arguments _ = 0

abbrev both : Held → ℕ
both arguments = 1
both line_text = 1
both _ = 0

checked_lem :
    (w : Windows) (c : Child) (r : Held) → Settles both (after (opening w c) (checked w c)) r
unfolding checked
checked_lem w c arguments = ground arith
checked_lem w c line_text = ground arith
checked_lem w c input = ground arith
checked_lem w c output = ground arith
checked_lem w c errors = ground arith
checked_lem w c thread = ground arith
checked_lem w c process = ground arith

refused_lem : (r : Held) → Settles both (croaks bad_option, []) r
refused_lem arguments = refl
refused_lem line_text = refl
refused_lem input = refl
refused_lem output = refl
refused_lem errors = refl
refused_lem thread = refl
refused_lem process = refl

read_option_lem :
    (t : OptionText) (next : Option Bytes → Run) (r : Held)
    → ((v : Option Bytes) → Settles both (next v) r)
    → Settles both (read_option t next) r
read_option_lem no_option next r h = h none
read_option_lem (option text) next r h = h (some text)
read_option_lem option_not_scalar next r h = refused_lem r
read_option_lem option_wide next r h = refused_lem r
read_option_lem option_has_nul next r h = refused_lem r

with_line_lem :
    (w : Windows) (o : Options) (text : Bytes) (r : Held) → Settles both (with_line w o text) r
with_line_lem w o text r = read_option_lem o.cwd _ r (λ cwd.
    read_option_lem o.stdout_path _ r (λ out. read_option_lem o.stderr_path _ r (λ err.
      read_option_lem o.stdin_path _ r (λ inp.
        checked_lem w
          (record {
            command_line = text;
            cwd = cwd;
            stdin_path = inp;
            stdout_path = out;
            stderr_path = err;
          })
          r))))

-- What is no file is not left by its list.
left-after :
    (q r : Held) (run : Run)
    → same q input + same q output + same q errors ≡ 0
    → left (after (acquires q ∷ []) run) r ≡ left run r
left-after q r (created pid c, l) h = refl
left-after q arguments (croaks e, l) h = refl
left-after q line_text (croaks e, l) h = refl
left-after q input (croaks e, l) h = ground (arith, h)
left-after q output (croaks e, l) h = ground (arith, h)
left-after q errors (croaks e, l) h = ground (arith, h)
left-after q thread (croaks e, l) h = refl
left-after q process (croaks e, l) h = refl

build_line_lem :
    (w : Windows) (o : Options) (l : Line) (r : Held) → Settles one_arguments (build_line w o l) r
build_line_lem w o (line text) r = taken r (with_line_lem w o text r)
  where
    taken :
        (k : Held)
        → Settles both (with_line w o text) k
        → Settles one_arguments (build_line w o (line text)) k
    taken arguments h = omega (arith, h, left-after line_text arguments (with_line w o text) refl)
    taken line_text h = omega (arith, h, left-after line_text line_text (with_line w o text) refl)
    taken input h = omega (arith, h, left-after line_text input (with_line w o text) refl)
    taken output h = omega (arith, h, left-after line_text output (with_line w o text) refl)
    taken errors h = omega (arith, h, left-after line_text errors (with_line w o text) refl)
    taken thread h = omega (arith, h, left-after line_text thread (with_line w o text) refl)
    taken process h = omega (arith, h, left-after line_text process (with_line w o text) refl)
build_line_lem w o (Line.croaked e) arguments = refl
build_line_lem w o (Line.croaked e) line_text = refl
build_line_lem w o (Line.croaked e) input = refl
build_line_lem w o (Line.croaked e) output = refl
build_line_lem w o (Line.croaked e) errors = refl
build_line_lem w o (Line.croaked e) thread = refl
build_line_lem w o (Line.croaked e) process = refl

acquired_lem :
    (run : Run) (r : Held)
    → Settles one_arguments run r
    → acquired r (after (acquires arguments ∷ []) run).1
      ≡ released r (after (acquires arguments ∷ []) run).1
        + left (after (acquires arguments ∷ []) run) r
acquired_lem run arguments h = omega (arith, h, left-after arguments arguments run refl)
acquired_lem run line_text h = omega (arith, h, left-after arguments line_text run refl)
acquired_lem run input h = omega (arith, h, left-after arguments input run refl)
acquired_lem run output h = omega (arith, h, left-after arguments output run refl)
acquired_lem run errors h = omega (arith, h, left-after arguments errors run refl)
acquired_lem run thread h = omega (arith, h, left-after arguments thread run refl)
acquired_lem run process h = omega (arith, h, left-after arguments process run refl)

refused_vector_lem :
    (e : ArgvError) (r : Held)
    → acquired r (vector_of e)
      ≡ released r (vector_of e) + left (croaks (bad_arguments e), vector_of e) r
refused_vector_lem empty_argv arguments = refl
refused_vector_lem empty_argv line_text = refl
refused_vector_lem empty_argv input = refl
refused_vector_lem empty_argv output = refl
refused_vector_lem empty_argv errors = refl
refused_vector_lem empty_argv thread = refl
refused_vector_lem empty_argv process = refl
refused_vector_lem argv_too_large arguments = refl
refused_vector_lem argv_too_large line_text = refl
refused_vector_lem argv_too_large input = refl
refused_vector_lem argv_too_large output = refl
refused_vector_lem argv_too_large errors = refl
refused_vector_lem argv_too_large thread = refl
refused_vector_lem argv_too_large process = refl
refused_vector_lem no_memory_for_argv arguments = refl
refused_vector_lem no_memory_for_argv line_text = refl
refused_vector_lem no_memory_for_argv input = refl
refused_vector_lem no_memory_for_argv output = refl
refused_vector_lem no_memory_for_argv errors = refl
refused_vector_lem no_memory_for_argv thread = refl
refused_vector_lem no_memory_for_argv process = refl
refused_vector_lem wide_argument arguments = refl
refused_vector_lem wide_argument line_text = refl
refused_vector_lem wide_argument input = refl
refused_vector_lem wide_argument output = refl
refused_vector_lem wide_argument errors = refl
refused_vector_lem wide_argument thread = refl
refused_vector_lem wide_argument process = refl
refused_vector_lem (not_a_scalar i) arguments = refl
refused_vector_lem (not_a_scalar i) line_text = refl
refused_vector_lem (not_a_scalar i) input = refl
refused_vector_lem (not_a_scalar i) output = refl
refused_vector_lem (not_a_scalar i) errors = refl
refused_vector_lem (not_a_scalar i) thread = refl
refused_vector_lem (not_a_scalar i) process = refl
refused_vector_lem (nul_byte i) arguments = refl
refused_vector_lem (nul_byte i) line_text = refl
refused_vector_lem (nul_byte i) input = refl
refused_vector_lem (nul_byte i) output = refl
refused_vector_lem (nul_byte i) errors = refl
refused_vector_lem (nul_byte i) thread = refl
refused_vector_lem (nul_byte i) process = refl

-- On Windows, whatever the arguments, the options and the answers of the system: the arguments, the command
-- line, the files of the child and the handles of its thread and process are each released once,
-- whether the child is created or not, but for what some errors leave: the arguments where one of
-- them is a wide text or the line cannot be built, these two where an option cannot be read, the files that have been opened where another cannot
-- be, and all of it where the end of a file cannot be found.
pub spawn_windows-Settled :
    (w : Windows) (a : Argv) (o : Options) (r : Held)
    → acquired r (spawn_windows w a o).1
      ≡ released r (spawn_windows w a o).1 + left (spawn_windows w a o) r
unfolding spawn_windows
spawn_windows-Settled w (argv args) o r =
    acquired_lem (build_line w o (windows_command_line w.line_granted args)) r
      (build_line_lem w o (windows_command_line w.line_granted args) r)
spawn_windows-Settled w (Argv.croaked e) o r = refused_vector_lem e r
