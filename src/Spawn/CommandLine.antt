-- ===== src/Spawn/CommandLine.antt =====
-- `dd_windows_command_line`: one line for all arguments. An argument is a C string, its bytes without
-- the NUL.
pub mod Argument
pub mod Bounds
pub mod Microsoft
pub mod RoundTrip
use developer_dashboard.Common.{
  ℕ, zero, suc, ◌+◌, ◌-◌, ◌*◌, ◌/◌, ◌%◌, ◌^◌, Bool, true, false, ◌||◌, List, [], ◌∷◌, ◌++◌, Option,
  none, some, ltb, ◌==◌, if◌then◌else◌, Bytes, length, replicate,
}

abbrev pub size_max : ℕ
size_max = 2 ^ 64 - 1

abbrev pub backslashes : ℕ → Bytes
backslashes n = replicate n b'\\'

-- `strpbrk(arg, " \t\n\v\"")`
abbrev pub is_special : ℕ → Bool
is_special c = c == b' ' || c == b'\t' || c == b'\n' || c == 0x0b || c == b'"'

unfoldable pub has_special : Bytes → Bool
has_special [] = false
has_special (c ∷ arg) = is_special c || has_special arg

unfoldable pub needs_quotes : Bytes → Bool
needs_quotes [] = true
needs_quotes (c ∷ arg) = has_special (c ∷ arg)

-- The loop over an argument, with the backslashes that are read and not yet written, and what is
-- written behind it.
unfoldable pub escape : Bool → ℕ → Bytes → Bytes
escape quote slashes [] =
    if quote then backslashes (slashes * 2) ++ (b'"' ∷ []) else backslashes slashes
escape quote slashes (c ∷ arg) =
    if c == b'\\'
    then escape quote (slashes + 1) arg
    else if c == b'"'
    then backslashes (slashes * 2) ++ (b'\\' ∷ b'"' ∷ escape quote 0 arg)
    else backslashes slashes ++ (c ∷ escape quote 0 arg)

unfoldable pub encode : Bytes → Bytes
encode arg = if needs_quotes arg then b'"' ∷ escape true 0 arg else escape false 0 arg

unfoldable pub encode_rest : List Bytes → Bytes
encode_rest [] = []
encode_rest (arg ∷ args) = b' ' ∷ (encode arg ++ encode_rest args)

-- The line, without its NUL.
unfoldable pub encode_all : List Bytes → Bytes
encode_all [] = []
encode_all (arg ∷ args) = encode arg ++ encode_rest args

-- `SIZE_MAX - capacity - 4` and `capacity += (len * 2) + 4` wrap around.
unfoldable pub line_capacity : ℕ → List Bytes → Option ℕ
line_capacity capacity [] = some capacity
line_capacity capacity (arg ∷ args) =
    let rest = line_capacity ((capacity + length arg * 2 + 4) % 2 ^ 64) args in
    if ltb ((size_max + 2 ^ 64 - capacity - 4) % 2 ^ 64 / 2) (length arg) then none else rest

pub data LineError : Type 0 where
  line_too_large no_memory_for_line : LineError

pub data Line : Type 0 where
  line : Bytes → Line
  croaked : LineError → Line

-- `granted` says whether `malloc` gives memory for so many bytes.
unfoldable pub windows_command_line : (ℕ → Bool) → List Bytes → Line
windows_command_line granted args = elim (line_capacity 1 args) [
  | none ↦ croaked line_too_large
  | some capacity ↦ if granted capacity then line (encode_all args) else croaked no_memory_for_line
]
