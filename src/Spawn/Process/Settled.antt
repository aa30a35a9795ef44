-- ===== src/Spawn/Process/Settled.antt =====
-- What `dd_spawn_process` has released at its end, and what it has not.
use developer_dashboard.Common.{
  ℕ, ◌+◌, ◌≡◌, refl, arith, Bool, true, false, List, [], ◌∷◌, Option, none, some, Bytes,
}
use developer_dashboard.Spawn.Arguments.{
  ArgvError, empty_argv, argv_too_large, no_memory_for_argv, wide_argument, not_a_scalar, nul_byte,
  Argv, argv, OptionText, no_option, option, option_not_scalar, option_wide, option_has_nul,
}
use developer_dashboard.Spawn.Environment.{Environment, inherited, entries}
use developer_dashboard.Spawn.Process.{
  SpawnError, Resource, argument_vector, environment, actions, attributes, Event, takes, frees,
  Spawned, launched, croaks, bad_argument, vector_of, bad_option, bad_environment, bad_directory,
  Run, System, Request, launch, with_directory, with_group, with_actions, with_option,
  with_environment, with_options, Options, spawn_process, directory,
}

abbrev same : Resource → Resource → ℕ
same argument_vector argument_vector = 1
same environment environment = 1
same actions actions = 1
same attributes attributes = 1
same _ _ = 0

abbrev pub taken : Resource → List Event → ℕ
taken r [] = 0
taken r (takes q ∷ l) = same q r + taken r l
taken r (frees q ∷ l) = taken r l

abbrev pub freed : Resource → List Event → ℕ
freed r [] = 0
freed r (takes q ∷ l) = freed r l
freed r (frees q ∷ l) = same q r + freed r l

abbrev owned : Option (List Bytes) → ℕ
owned none = 0
owned (some variables) = 1

abbrev when : Bool → ℕ
when true = 1
when false = 0

-- What is left behind: the arguments where one of them is wide or the options cannot be read, the environment and the
-- attributes where the working directory cannot be set, and nothing otherwise.
abbrev pub left_in : SpawnError → ℕ → Bool → Resource → ℕ
left_in (bad_argument wide_argument) env group argument_vector = 1
left_in bad_option env group argument_vector = 1
left_in (bad_environment e) env group argument_vector = 1
left_in bad_directory env group environment = env
left_in bad_directory env group attributes = when group
left_in _ env group r = 0

abbrev pub left : Spawned → ℕ → Bool → Resource → ℕ
left (launched pid l) env group r = 0
left (croaks e) env group r = left_in e env group r

-- What is held where a part begins, against what the part takes, frees and leaves.
abbrev Settles : (Resource → ℕ) → ℕ → Bool → Run → Resource → Type 0
Settles before env group run r = before r + taken r run.1 ≡ freed r run.1 + left run.0 env group r

abbrev inputs : ℕ → Resource → ℕ
inputs env argument_vector = 1
inputs env environment = env
inputs env _ = 0

abbrev with_acts : ℕ → Resource → ℕ
with_acts env actions = 1
with_acts env r = inputs env r

abbrev with_attributes : ℕ → Bool → Resource → ℕ
with_attributes env group attributes = when group
with_attributes env group r = with_acts env r

launch_lem :
    (s : System) (q : Request) (r : Resource)
    → Settles
        (with_attributes (owned q.variables) q.own_group)
        (owned q.variables)
        q.own_group
        (launch s q)
        r
unfolding launch
launch_lem s q argument_vector = ground arith
launch_lem s q environment = ground arith
launch_lem s q actions = ground arith
launch_lem s q attributes = ground arith

with_directory_lem :
    (s : System) (q : Request) (d : Option Bytes) (r : Resource)
    → Settles
        (with_attributes (owned q.variables) q.own_group)
        (owned q.variables)
        q.own_group
        (with_directory s q d)
        r
with_directory_lem s q none r = launch_lem s q r
with_directory_lem s q (some path) argument_vector = ground (arith, launch_lem s q argument_vector)
with_directory_lem s q (some path) environment = ground (arith, launch_lem s q environment)
with_directory_lem s q (some path) actions = ground (arith, launch_lem s q actions)
with_directory_lem s q (some path) attributes = ground (arith, launch_lem s q attributes)

with_group_lem :
    (s : System) (q : Request) (r : Resource)
    → Settles (with_acts (owned q.variables)) (owned q.variables) q.own_group (with_group s q) r
unfolding with_group
with_group_lem s q argument_vector =
    ground (arith, with_directory_lem s q (directory q.cwd) argument_vector)
with_group_lem s q environment =
    ground (arith, with_directory_lem s q (directory q.cwd) environment)
with_group_lem s q actions = ground (arith, with_directory_lem s q (directory q.cwd) actions)
with_group_lem s q attributes = ground (arith, with_directory_lem s q (directory q.cwd) attributes)

with_actions_lem :
    (s : System) (q : Request) (r : Resource)
    → Settles (inputs (owned q.variables)) (owned q.variables) q.own_group (with_actions s q) r
unfolding with_actions
with_actions_lem s q argument_vector = ground (arith, with_group_lem s q argument_vector)
with_actions_lem s q environment = ground (arith, with_group_lem s q environment)
with_actions_lem s q actions = ground (arith, with_group_lem s q actions)
with_actions_lem s q attributes = ground (arith, with_group_lem s q attributes)

abbrev arguments_only : Resource → ℕ
arguments_only r = inputs 0 r

bad_option_lem :
    (env : ℕ) (group : Bool) (r : Resource)
    → Settles arguments_only env group (croaks bad_option, []) r
bad_option_lem env group argument_vector = refl
bad_option_lem env group environment = refl
bad_option_lem env group actions = refl
bad_option_lem env group attributes = refl

with_option_lem :
    (env : ℕ) (group : Bool) (t : OptionText) (next : Option Bytes → Run) (r : Resource)
    → ((v : Option Bytes) → Settles arguments_only env group (next v) r)
    → Settles arguments_only env group (with_option t next) r
with_option_lem env group no_option next r h = h none
with_option_lem env group (option text) next r h = h (some text)
with_option_lem env group option_not_scalar next r h = bad_option_lem env group r
with_option_lem env group option_wide next r h = bad_option_lem env group r
with_option_lem env group option_has_nul next r h = bad_option_lem env group r

-- Whether the environment of the child is a copy.
abbrev pub copied : Environment → ℕ
copied (entries variables) = 1
copied _ = 0

with_environment_lem :
    (group : Bool) (v : Environment) (next : Option (List Bytes) → Run) (r : Resource)
    → ((w : Option (List Bytes)) → Settles (inputs (owned w)) (owned w) group (next w) r)
    → Settles arguments_only (copied v) group (with_environment v next) r
with_environment_lem group inherited next r h = h none
with_environment_lem group (entries variables) next argument_vector h =
    omega (arith, h (some variables))
with_environment_lem group (entries variables) next environment h =
    omega (arith, h (some variables))
with_environment_lem group (entries variables) next actions h = omega (arith, h (some variables))
with_environment_lem group (entries variables) next attributes h = omega (arith, h (some variables))
with_environment_lem group (Environment.croaked e) next argument_vector h = refl
with_environment_lem group (Environment.croaked e) next environment h = refl
with_environment_lem group (Environment.croaked e) next actions h = refl
with_environment_lem group (Environment.croaked e) next attributes h = refl

with_options_lem :
    (s : System) (args : List Bytes) (o : Options) (r : Resource)
    → Settles arguments_only (copied o.env) o.process_group (with_options s args o) r
with_options_lem s args o r = with_option_lem _ _ o.cwd _ r (λ cwd.
    with_option_lem _ _ o.stdout_path _ r (λ out. with_option_lem _ _ o.stderr_path _ r (λ err.
      with_option_lem _ _ o.stdin_path _ r (λ inp.
        with_environment_lem o.process_group o.env _ r (λ w.
          with_actions_lem s
            (record {
              arguments = args;
              cwd = cwd;
              stdout_path = out;
              stderr_path = err;
              stdin_path = inp;
              variables = w;
              own_group = o.process_group;
            })
            r)))))

refused_lem :
    (e : ArgvError) (env : ℕ) (group : Bool) (r : Resource)
    → taken r (vector_of e) ≡ freed r (vector_of e) + left (croaks (bad_argument e)) env group r
refused_lem empty_argv env group argument_vector = refl
refused_lem empty_argv env group environment = refl
refused_lem empty_argv env group actions = refl
refused_lem empty_argv env group attributes = refl
refused_lem argv_too_large env group argument_vector = refl
refused_lem argv_too_large env group environment = refl
refused_lem argv_too_large env group actions = refl
refused_lem argv_too_large env group attributes = refl
refused_lem no_memory_for_argv env group argument_vector = refl
refused_lem no_memory_for_argv env group environment = refl
refused_lem no_memory_for_argv env group actions = refl
refused_lem no_memory_for_argv env group attributes = refl
refused_lem wide_argument env group argument_vector = refl
refused_lem wide_argument env group environment = refl
refused_lem wide_argument env group actions = refl
refused_lem wide_argument env group attributes = refl
refused_lem (not_a_scalar i) env group argument_vector = refl
refused_lem (not_a_scalar i) env group environment = refl
refused_lem (not_a_scalar i) env group actions = refl
refused_lem (not_a_scalar i) env group attributes = refl
refused_lem (nul_byte i) env group argument_vector = refl
refused_lem (nul_byte i) env group environment = refl
refused_lem (nul_byte i) env group actions = refl
refused_lem (nul_byte i) env group attributes = refl

-- Whatever the arguments, the options and the answers of the system: of the argument vector, the finished
-- copy of the environment, the file actions and the attributes, each that was taken is freed once, whether
-- the child is launched or not, but for what four errors leave behind: the argument vector where an
-- argument is a wide text, or an option or the environment cannot be read, and the environment and the attributes where the working
-- directory cannot be set.
pub spawn_process-Settled :
    (s : System) (a : Argv) (o : Options) (r : Resource)
    → taken r (spawn_process s a o).1
      ≡ freed r (spawn_process s a o).1
        + left (spawn_process s a o).0 (copied o.env) o.process_group r
unfolding spawn_process
spawn_process-Settled s (argv args) o argument_vector =
    omega (arith, with_options_lem s args o argument_vector)
spawn_process-Settled s (argv args) o environment =
    omega (arith, with_options_lem s args o environment)
spawn_process-Settled s (argv args) o actions = omega (arith, with_options_lem s args o actions)
spawn_process-Settled s (argv args) o attributes =
    omega (arith, with_options_lem s args o attributes)
spawn_process-Settled s (Argv.croaked e) o r = refused_lem e (copied o.env) o.process_group r
