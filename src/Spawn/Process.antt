-- ===== src/Spawn/Process.antt =====
-- `dd_spawn_process` on POSIX with glibc: what is allocated, prepared and released around
-- `posix_spawnp`. What the calls of the system answer is an argument, 0 being success. A copy of the
-- environment counts once it is finished: one that fails on the way is an exception of its own.
pub mod Settled
use developer_dashboard.Common.{
  ℕ, ◌==◌, ◌&&◌, not, Bool, true, false, if◌then◌else◌, List, [], ◌∷◌, ◌++◌, Option, none, some,
  Bytes,
}
use developer_dashboard.Spawn.Arguments.{
  ArgvError, wide_argument, not_a_scalar, nul_byte, Argv, argv, OptionText, no_option, option,
  option_not_scalar, option_wide, option_has_nul,
}
use developer_dashboard.Spawn.Environment.{EnvError, Environment, inherited, entries}

pub data Resource : Type 0 where
  argument_vector environment actions attributes : Resource

pub data Event : Type 0 where
  takes : Resource → Event
  frees : Resource → Event

-- What is done in the child before the program runs, in this order.
pub data Action : Type 0 where
  reads_from : Bytes → Action
  appends_output_to : Bytes → Action
  appends_errors_to : Bytes → Action
  changes_directory_to : Bytes → Action

pub record Launch : Type 0 where
  pub arguments : List Bytes
  pub file_actions : List Action
  pub own_group : Bool
  -- none is the environment of this process
  pub variables : Option (List Bytes)

pub data SpawnError : Type 0 where
  bad_argument : ArgvError → SpawnError
  bad_option : SpawnError
  bad_environment : EnvError → SpawnError
  no_actions bad_file bad_group bad_directory not_spawned : SpawnError

pub data Spawned : Type 0 where
  launched : ℕ → Launch → Spawned
  croaks : SpawnError → Spawned

abbrev pub Run : Type 0
Run = Spawned × List Event

-- What the calls answer, in their order.
pub record System : Type 0 where
  pub init_actions : ℕ
  pub open_in : ℕ
  pub open_out : ℕ
  pub open_err : ℕ
  pub init_attributes : ℕ
  pub set_flags : ℕ
  pub set_group : ℕ
  pub change_directory : ℕ
  pub spawn : ℕ
  pub pid : ℕ

-- The options once they have been read.
pub record Request : Type 0 where
  pub arguments : List Bytes
  pub cwd : Option Bytes
  pub stdout_path : Option Bytes
  pub stderr_path : Option Bytes
  pub stdin_path : Option Bytes
  pub variables : Option (List Bytes)
  pub own_group : Bool

abbrev pub behind : Event → Run → Run
behind e r = (r.0, e ∷ r.1)

-- `if (rc == 0 && path) rc = ...`
abbrev pub then_open : ℕ → Option Bytes → ℕ → ℕ
then_open rc none answer = rc
then_open rc (some path) answer = if rc == 0 then answer else rc

abbrev pub file_code : System → Request → ℕ
file_code s q =
    then_open (then_open (then_open 0 q.stdin_path s.open_in) q.stdout_path s.open_out)
      q.stderr_path s.open_err

abbrev pub group_code : System → ℕ
group_code s =
    if s.init_attributes == 0
    then (if s.set_flags == 0 then s.set_group else s.set_flags)
    else s.init_attributes

-- `dd_child_environment_free`, which leaves the own environment alone.
abbrev pub free_environment : Option (List Bytes) → List Event
free_environment none = []
free_environment (some variables) = frees environment ∷ []

abbrev pub free_inputs : Request → List Event
free_inputs q = free_environment q.variables ++ (frees argument_vector ∷ [])

abbrev pub action_for : (Bytes → Action) → Option Bytes → List Action
action_for make none = []
action_for make (some path) = make path ∷ []

-- `cwd && *cwd`
abbrev pub directory : Option Bytes → Option Bytes
directory none = none
directory (some []) = none
directory (some (c ∷ path)) = some (c ∷ path)

abbrev pub launch_of : Request → Launch
launch_of q = record {
  arguments = q.arguments;
  file_actions =
      action_for reads_from q.stdin_path
      ++ (action_for appends_output_to q.stdout_path
          ++ (action_for appends_errors_to q.stderr_path
              ++ action_for changes_directory_to (directory q.cwd)));
  own_group = q.own_group;
  variables = q.variables;
}

unfoldable pub launch : System → Request → Run
launch s q = (
  (if s.spawn == 0 then launched s.pid (launch_of q) else croaks not_spawned),
  (if q.own_group then frees attributes ∷ [] else [])
      ++ (frees actions ∷ frees argument_vector ∷ free_environment q.variables),
)

abbrev pub with_directory : System → Request → Option Bytes → Run
with_directory s q none = launch s q
with_directory s q (some path) =
    if s.change_directory == 0
    then launch s q
    else (croaks bad_directory, frees actions ∷ frees argument_vector ∷ [])

unfoldable pub with_group : System → Request → Run
with_group s q =
    if not q.own_group
    then with_directory s q (directory q.cwd)
    else if group_code s == 0
    then behind (takes attributes) (with_directory s q (directory q.cwd))
    else (
      croaks bad_group,
      (if s.init_attributes == 0 then takes attributes ∷ frees attributes ∷ [] else [])
          ++ (frees actions ∷ free_inputs q),
    )

unfoldable pub with_actions : System → Request → Run
with_actions s q =
    if s.init_actions == 0
    then behind (takes actions) (
        if file_code s q == 0
        then with_group s q
        else (croaks bad_file, frees actions ∷ free_inputs q))
    else (croaks no_actions, free_inputs q)

-- An option that cannot be read is an exception.
abbrev pub with_option : OptionText → (Option Bytes → Run) → Run
with_option no_option next = next none
with_option (option text) next = next (some text)
with_option option_not_scalar next = (croaks bad_option, [])
with_option option_wide next = (croaks bad_option, [])
with_option option_has_nul next = (croaks bad_option, [])

abbrev pub with_environment : Environment → (Option (List Bytes) → Run) → Run
with_environment inherited next = next none
with_environment (entries variables) next = behind (takes environment) (next (some variables))
with_environment (Environment.croaked e) next = (croaks (bad_environment e), [])

-- The options as the hash gives them, in the order in which they are read.
pub record Options : Type 0 where
  pub cwd : OptionText
  pub stdout_path : OptionText
  pub stderr_path : OptionText
  pub stdin_path : OptionText
  pub env : Environment
  pub process_group : Bool

abbrev pub with_options : System → List Bytes → Options → Run
with_options s args o = with_option o.cwd (λ cwd. with_option o.stdout_path (λ out.
    with_option o.stderr_path (λ err. with_option o.stdin_path (λ inp.
      with_environment o.env (λ variables. with_actions s (record {
        arguments = args;
        cwd = cwd;
        stdout_path = out;
        stderr_path = err;
        stdin_path = inp;
        variables = variables;
        own_group = o.process_group;
      }))))))

-- `dd_argv_from_av` frees the vector where it refuses an element itself, and croaks with it where
-- `SvPVbyte` refuses a wide text.
abbrev pub vector_of : ArgvError → List Event
vector_of wide_argument = takes argument_vector ∷ []
vector_of (not_a_scalar index) = takes argument_vector ∷ frees argument_vector ∷ []
vector_of (nul_byte index) = takes argument_vector ∷ frees argument_vector ∷ []
vector_of _ = []

unfoldable pub spawn_process : System → Argv → Options → Run
spawn_process s (argv args) o = behind (takes argument_vector) (with_options s args o)
spawn_process s (Argv.croaked e) o = (croaks (bad_argument e), vector_of e)
