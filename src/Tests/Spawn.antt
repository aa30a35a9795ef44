-- ===== src/Tests/Spawn.antt =====
-- Command lines and environments.
use developer_dashboard.Common.{
  ℕ, ◌+◌, ◌≤◌, ◌≡◌, refl, arith, Bool, true, false, List, [], ◌∷◌, some, codes, Bytes, length,
}
use developer_dashboard.Spawn.CommandLine.{
  escape, encode, encode_rest, encode_all, has_special, needs_quotes, line_capacity,
}
use developer_dashboard.Spawn.CommandLine.Bounds.{encode_all-line_capacity}
use developer_dashboard.Spawn.CommandLine.Microsoft.{split_command_line}
use developer_dashboard.Spawn.CommandLine.RoundTrip.{split_command_line-encode_all}
use developer_dashboard.Spawn.Arguments.{
  argv, no_option, option, argv_from_av, collect, croaked, nul_byte, front, wide_argument,
}
use developer_dashboard.Spawn.Environment.{
  Scalar, text, wide, entries, overrides, child_environment, environment_capacity, has_byte,
  put_entry, assigns, override, checked_key, checked_value, all_granted,
}
use developer_dashboard.Spawn.Environment.Laws.{getenv, latest, child_environment_lem}
use developer_dashboard.Spawn.Process.{
  System, Options, spawn_process, environment, with_group, with_actions, launch, croaks,
  bad_directory, takes, frees, argument_vector, actions, attributes,
}
use developer_dashboard.Spawn.Process.Settled.{taken, freed, left, spawn_process-Settled}
use developer_dashboard.Spawn.Windows.{Windows, spawn_windows, input, output, checked}
use developer_dashboard.Spawn.Windows.Closed.{acquired, released, spawn_windows-Settled}

abbrev args : List Bytes
args = codes "a b" ∷ [] ∷ codes "c\\" ∷ codes "d \"e\\\"\\" ∷ []

writes_line : encode_all args ≡ codes "\"a b\" \"\" c\\ \"d \\\"e\\\\\\\"\\\\\""
unfolding encode_all encode_rest encode escape needs_quotes has_special
writes_line = refl

encode_all-line_capacity_example :
    (capacity : ℕ) × (line_capacity 1 args ≡ some capacity)
    × (length (encode_all args) + 1 ≤ capacity)
encode_all-line_capacity_example = encode_all-line_capacity args (omega arith)

split_command_line-encode_all_example : split_command_line (encode_all args) ≡ args
split_command_line-encode_all_example = split_command_line-encode_all args

refuses_nul : argv_from_av true (text (codes "a") ∷ text (98 ∷ 0 ∷ []) ∷ []) ≡ croaked (nul_byte 1)
unfolding argv_from_av front collect has_byte
refuses_nul = refl

refuses_wide : argv_from_av true (text (codes "a") ∷ wide ∷ []) ≡ croaked wide_argument
unfolding argv_from_av front collect has_byte
refuses_wide = refl

abbrev mixed : List Scalar
mixed = text (codes "a") ∷ wide ∷ text [] ∷ []

abbrev always : ℕ → Bool
always n = true

abbrev own : List Bytes
own = codes "HOME=/root" ∷ codes "A=1" ∷ []

abbrev changes : List (Scalar × Scalar)
changes = (text (codes "A"), text (codes "2")) ∷ (text (codes "B"), text []) ∷ []

overrides_one :
    child_environment always (overrides changes) own
    ≡ entries (codes "HOME=/root" ∷ codes "A=2" ∷ codes "B=" ∷ [])
unfolding child_environment override checked_key checked_value has_byte put_entry assigns
    all_granted
overrides_one = refl

child_environment_lem_example :
    (result : List Bytes) × (child_environment always (overrides changes) own ≡ entries result)
    × ((name : Bytes)
        → has_byte b'=' name ≡ false
        → getenv name result ≡ latest name changes (getenv name own))
    × (length result + 1 ≤ environment_capacity own changes)
unfolding has_byte
child_environment_lem_example =
    child_environment_lem always changes own (λ k. refl)
      (((refl, refl), refl), (((refl, refl), refl), tt))

-- All calls succeed but the one that sets the working directory.
abbrev no_such_directory : System
no_such_directory = record {
  init_actions = 0;
  open_in = 0;
  open_out = 0;
  open_err = 0;
  init_attributes = 0;
  set_flags = 0;
  set_group = 0;
  change_directory = 2;
  spawn = 0;
  pid = 7;
}

abbrev in_directory : Options
in_directory = record {
  cwd = option (codes "/missing");
  stdout_path = option (codes "log");
  stderr_path = no_option;
  stdin_path = no_option;
  env = entries own;
  process_group = true;
}

leaves_environment : spawn_process no_such_directory (argv args) in_directory ≡ (
  croaks bad_directory,
  takes argument_vector
      ∷ takes environment
      ∷ takes actions
      ∷ takes attributes
      ∷ frees actions
      ∷ frees argument_vector
      ∷ [],
)
unfolding spawn_process with_actions with_group launch
leaves_environment = refl

spawn_process-Settled_example :
    taken environment (spawn_process no_such_directory (argv args) in_directory).1
    ≡ freed environment (spawn_process no_such_directory (argv args) in_directory).1
      + left (spawn_process no_such_directory (argv args) in_directory).0 1 true environment
spawn_process-Settled_example =
    spawn_process-Settled no_such_directory (argv args) in_directory environment

-- The output cannot be positioned at its end.
abbrev no_seek : Windows
no_seek = record {
  line_granted = always;
  opens_input = true;
  opens_output = true;
  opens_errors = true;
  seeks_output = false;
  seeks_errors = true;
  process_id = some 7;
}

abbrev both_files : developer_dashboard.Spawn.Windows.Options
both_files = record {
  cwd = no_option;
  stdout_path = option (codes "log");
  stderr_path = no_option;
  stdin_path = option (codes "in");
}

spawn_windows-Settled_example :
    acquired output (spawn_windows no_seek (argv args) both_files).1
    ≡ released output (spawn_windows no_seek (argv args) both_files).1
      + developer_dashboard.Spawn.Windows.Closed.left
          (spawn_windows no_seek (argv args) both_files)
          output
spawn_windows-Settled_example = spawn_windows-Settled no_seek (argv args) both_files output
