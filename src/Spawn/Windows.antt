-- ===== src/Spawn/Windows.antt =====
-- `dd_spawn_process` on Windows: what is allocated and opened around `CreateProcess`, and released. What the
-- calls of the system answer is an argument.
pub mod Closed
use developer_dashboard.Common.{
  ℕ, ◌==◌, ◌&&◌, not, Bool, true, false, if◌then◌else◌, List, [], ◌∷◌, ◌++◌, Option, none, some,
  Bytes,
}
use developer_dashboard.Spawn.Arguments.{
  ArgvError, wide_argument, not_a_scalar, nul_byte, Argv, argv, OptionText, no_option, option,
  option_not_scalar, option_wide, option_has_nul,
}
use developer_dashboard.Spawn.CommandLine.{LineError, Line, line, windows_command_line}

-- What is held: the arguments, the line, the files of the child, and the handles of its thread and process.
pub data Held : Type 0 where
  arguments line_text input output errors thread process : Held

pub data Use : Type 0 where
  acquires : Held → Use
  releases : Held → Use

pub data CreateError : Type 0 where
  bad_arguments : ArgvError → CreateError
  bad_line : LineError → CreateError
  bad_option : CreateError
  no_input no_output no_errors : CreateError
  no_seek_output no_seek_errors not_created : CreateError

-- The line and the directory of the child, and its files, none being those of this process.
pub record Child : Type 0 where
  pub command_line : Bytes
  pub cwd : Option Bytes
  pub stdin_path : Option Bytes
  pub stdout_path : Option Bytes
  pub stderr_path : Option Bytes

pub data Created : Type 0 where
  created : ℕ → Child → Created
  croaks : CreateError → Created

abbrev pub Run : Type 0
Run = Created × List Use

-- What the calls answer: `malloc` for the line, the three of `CreateFile`, both of `SetFilePointer`, and
-- the process id that `CreateProcess` gives.
pub record Windows : Type 0 where
  pub line_granted : ℕ → Bool
  pub opens_input : Bool
  pub opens_output : Bool
  pub opens_errors : Bool
  pub seeks_output : Bool
  pub seeks_errors : Bool
  pub process_id : Option ℕ

abbrev pub given : Option Bytes → Bool
given none = false
given (some path) = true

abbrev pub uses_if : Bool → Use → List Use
uses_if b u = if b then u ∷ [] else []

abbrev pub opening : Windows → Child → List Use
opening w c =
    uses_if (given c.stdin_path && w.opens_input) (acquires input)
    ++ (uses_if (given c.stdout_path && w.opens_output) (acquires output)
        ++ uses_if (given c.stderr_path && w.opens_errors) (acquires errors))

abbrev pub closing : Child → List Use
closing c =
    uses_if (given c.stdin_path) (releases input)
    ++ (uses_if (given c.stdout_path) (releases output)
        ++ (uses_if (given c.stderr_path) (releases errors)
            ++ (releases line_text ∷ releases arguments ∷ [])))

abbrev pub create : Child → Option ℕ → Run
create c none = (croaks not_created, closing c)
create c (some pid) = (
  created pid c,
  acquires thread ∷ acquires process ∷ releases thread ∷ releases process ∷ closing c,
)

-- The checks behind the three calls of `CreateFile`.
unfoldable pub checked : Windows → Child → Run
checked w c =
    if given c.stdin_path && not w.opens_input
    then (croaks no_input, releases line_text ∷ releases arguments ∷ [])
    else if given c.stdout_path && not w.opens_output
    then (croaks no_output, releases line_text ∷ releases arguments ∷ [])
    else if given c.stderr_path && not w.opens_errors
    then (croaks no_errors, releases line_text ∷ releases arguments ∷ [])
    else if given c.stdout_path && not w.seeks_output
    then (croaks no_seek_output, [])
    else if given c.stderr_path && not w.seeks_errors
    then (croaks no_seek_errors, [])
    else create c w.process_id

abbrev pub after : List Use → Run → Run
after l r = (r.0, l ++ r.1)

-- An option that cannot be read is an exception.
abbrev pub read_option : OptionText → (Option Bytes → Run) → Run
read_option no_option next = next none
read_option (option text) next = next (some text)
read_option option_not_scalar next = (croaks bad_option, [])
read_option option_wide next = (croaks bad_option, [])
read_option option_has_nul next = (croaks bad_option, [])

-- The options as the hash gives them.
pub record Options : Type 0 where
  pub cwd : OptionText
  pub stdout_path : OptionText
  pub stderr_path : OptionText
  pub stdin_path : OptionText

abbrev pub with_line : Windows → Options → Bytes → Run
with_line w o text = read_option o.cwd (λ cwd. read_option o.stdout_path (λ out.
    read_option o.stderr_path (λ err. read_option o.stdin_path (λ inp.
      let c : Child = record {
        command_line = text;
        cwd = cwd;
        stdin_path = inp;
        stdout_path = out;
        stderr_path = err;
      } in
      after (opening w c) (checked w c)))))

abbrev pub build_line : Windows → Options → Line → Run
build_line w o (line text) = after (acquires line_text ∷ []) (with_line w o text)
build_line w o (Line.croaked e) = (croaks (bad_line e), [])

-- `dd_argv_from_av` frees the vector where it refuses an element itself, and croaks with it where
-- `SvPVbyte` refuses a wide text.
abbrev pub vector_of : ArgvError → List Use
vector_of wide_argument = acquires arguments ∷ []
vector_of (not_a_scalar index) = acquires arguments ∷ releases arguments ∷ []
vector_of (nul_byte index) = acquires arguments ∷ releases arguments ∷ []
vector_of _ = []

unfoldable pub spawn_windows : Windows → Argv → Options → Run
spawn_windows w (argv args) o =
    after (acquires arguments ∷ []) (build_line w o (windows_command_line w.line_granted args))
spawn_windows w (Argv.croaked e) o = (croaks (bad_arguments e), vector_of e)
