-- ===== src/Spawn/Arguments.antt =====
-- `dd_argv_from_av` and `dd_option_text`: Perl scalars as C strings.
pub mod Laws
use developer_dashboard.Common.{
  ℕ, zero, suc, ◌+◌, ◌/◌, ◌%◌, ◌-◌, ◌^◌, Bool, List, [], ◌∷◌, Option, none, some, leb, ltb,
  if◌then◌else◌, Bytes, length,
}
use developer_dashboard.Spawn.CommandLine.{size_max}
use developer_dashboard.Spawn.Environment.{Scalar, undefined, reference, wide, text, has_byte}

pub data ArgvError : Type 0 where
  empty_argv argv_too_large no_memory_for_argv wide_argument : ArgvError
  not_a_scalar nul_byte : ℕ → ArgvError

pub data Argv : Type 0 where
  argv : List Bytes → Argv
  croaked : ArgvError → Argv

abbrev consed : Bytes → Argv → Argv
consed s (argv rest) = argv (s ∷ rest)
consed s (croaked e) = croaked e

-- The loop from an index on; an element that the array does not have is undefined.
unfoldable pub collect : ℕ → List Scalar → Argv
collect index [] = argv []
collect index (undefined ∷ rest) = croaked (not_a_scalar index)
collect index (reference ∷ rest) = croaked (not_a_scalar index)
collect index (wide ∷ rest) = croaked wide_argument
collect index (text s ∷ rest) =
    if has_byte 0 s then croaked (nul_byte index) else consed s (collect (index + 1) rest)

-- `I32 last = av_len(array)` for an array with `n` elements behind the first: 32 bits of a 64-bit
-- number, as what is not negative is below 2 ^ 31.
abbrev pub last_index : ℕ → ℕ
last_index n = n % 2 ^ 32

unfoldable pub front : ℕ → List Scalar → List Scalar
front zero l = []
front (suc n) [] = []
front (suc n) (s ∷ l) = s ∷ front n l

-- Where `last` is negative, the array counts as empty; what is behind `last` is not read.
unfoldable pub argv_from_av : Bool → List Scalar → Argv
argv_from_av granted [] = croaked empty_argv
argv_from_av granted (s ∷ rest) =
    let last = last_index (length rest) in
    if leb (2 ^ 31) last
    then croaked empty_argv
    else if ltb (size_max / 8 - 1) last
    then croaked argv_too_large
    else if granted
    then collect 0 (front (last + 1) (s ∷ rest))
    else croaked no_memory_for_argv

-- The value of an option: none where it is absent or undefined.
pub data OptionText : Type 0 where
  no_option : OptionText
  option : Bytes → OptionText
  option_not_scalar option_wide option_has_nul : OptionText

unfoldable pub option_text : Option Scalar → OptionText
option_text none = no_option
option_text (some undefined) = no_option
option_text (some reference) = option_not_scalar
option_text (some wide) = option_wide
option_text (some (text s)) = if has_byte 0 s then option_has_nul else option s
