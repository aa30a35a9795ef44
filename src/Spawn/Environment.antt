-- ===== src/Spawn/Environment.antt =====
-- `dd_child_environment` of GoRoutineProcessNative.h: the environment of a child is a copy of the own
-- one in which the options may replace entries. An entry is a C string, its bytes without the NUL.
pub mod Laws
use developer_dashboard.Common.{
  ℕ, zero, suc, ◌+◌, Bool, true, false, ◌&&◌, ◌||◌, not, List, [], ◌∷◌, ◌++◌, Option, none, some,
  ◌==◌, if◌then◌else◌, Bytes, length,
}

-- A Perl scalar as this function tells it: its bytes where `SvPVbyte` gives them.
pub data Scalar : Type 0 where
  undefined reference wide : Scalar
  text : Bytes → Scalar

-- The `env` option: none, something that is no hash reference, or the hash in the order in which it is
-- iterated.
pub data EnvOption : Type 0 where
  absent : EnvOption
  no_hash : EnvOption
  overrides : List (Scalar × Scalar) → EnvOption

pub data EnvError : Type 0 where
  env_not_a_hash wide_character bad_key bad_value value_has_nul no_memory : EnvError

pub data Environment : Type 0 where
  inherited : Environment
  entries : List Bytes → Environment
  croaked : EnvError → Environment

unfoldable pub has_byte : ℕ → Bytes → Bool
has_byte b [] = false
has_byte b (c ∷ s) = c == b || has_byte b s

-- `strncmp(entry, key, key_len) == 0 && entry[key_len] == '='`
unfoldable pub assigns : Bytes → Bytes → Bool
assigns [] [] = false
assigns [] (c ∷ entry) = c == b'='
assigns (k ∷ key) [] = false
assigns (k ∷ key) (c ∷ entry) = c == k && assigns key entry

abbrev pub assignment : Bytes → Bytes → Bytes
assignment key value = key ++ (b'=' ∷ value)

-- The first entry of the key is replaced, or one is appended.
unfoldable pub put_entry : Bytes → Bytes → List Bytes → List Bytes
put_entry key value [] = assignment key value ∷ []
put_entry key value (entry ∷ rest) =
    if assigns key entry then assignment key value ∷ rest else entry ∷ put_entry key value rest

-- The value's checks, and the allocation of the assignment.
unfoldable pub checked_value :
    Bool → Bytes → Scalar → (List Bytes → Environment) → List Bytes → Environment
checked_value granted key undefined next env = croaked bad_value
checked_value granted key reference next env = croaked bad_value
checked_value granted key wide next env = croaked wide_character
checked_value granted key (text value) next env =
    if has_byte 0 value
    then croaked value_has_nul
    else if granted
    then next (put_entry key value env)
    else croaked no_memory

-- The key of a hash is never undefined and never a reference.
unfoldable pub checked_key : Scalar → (Bytes → Environment) → Environment
checked_key (text []) next = croaked bad_key
checked_key (text (c ∷ key)) next =
    if has_byte b'=' (c ∷ key) || has_byte 0 (c ∷ key) then croaked bad_key else next (c ∷ key)
checked_key wide next = croaked wide_character
checked_key _ next = croaked bad_key

module _ (grant : ℕ → Bool) where
  unfoldable pub override : ℕ → List (Scalar × Scalar) → List Bytes → Environment
  override n [] env = entries env
  override n ((key, value) ∷ rest) env =
      checked_key key (λ k. checked_value (grant n) k value (override (n + 1) rest) env)

  -- `strdup` of every entry.
  unfoldable pub all_granted : ℕ → List Bytes → Bool
  all_granted n [] = true
  all_granted n (entry ∷ env) = grant n && all_granted (n + 1) env

  unfoldable pub child_environment : EnvOption → List Bytes → Environment
  child_environment absent env = inherited
  child_environment no_hash env = croaked env_not_a_hash
  child_environment (overrides list) env =
      if grant 0 && all_granted 1 env then override (1 + length env) list env else croaked no_memory

-- `count + HvTOTALKEYS(...) + 1`, the pointers that are allocated.
abbrev pub environment_capacity : List Bytes → List (Scalar × Scalar) → ℕ
environment_capacity env list = length env + length list + 1
