-- ===== src/Spawn/Arguments/Laws.antt =====
-- What `dd_argv_from_av` makes of an array that its 32-bit index can count.
use developer_dashboard.Common.{
  ℕ, ◌+◌, ◌≡◌, Bool, true, false, List, ◌∷◌, ◌++◌, Option, none, some, if◌then◌else◌, Bytes, length,
  All, map,
}
use developer_dashboard.Spawn.Environment.{Scalar, undefined, reference, wide, text, has_byte}
use developer_dashboard.Spawn.Arguments.{
  ArgvError, wide_argument, not_a_scalar, nul_byte, no_memory_for_argv, Argv, argv, croaked,
}

abbrev pub HasNoNul : Bytes → Type 0
HasNoNul s = has_byte 0 s ≡ false

-- What an element at an index is refused with, none for a text without NUL.
abbrev pub refusal : ℕ → Scalar → Option ArgvError
refusal index undefined = some (not_a_scalar index)
refusal index reference = some (not_a_scalar index)
refusal index wide = some wide_argument
refusal index (text s) = if has_byte 0 s then some (nul_byte index) else none

-- All elements are texts without NUL, and these are the arguments; or so are those before some element,
-- which is refused with the error.
abbrev pub Reads : ℕ → List Scalar → Argv → Type 0
Reads index l (argv args) = (l ≡ map text args) × All HasNoNul args
Reads index l (croaked e) =
    (good : List Bytes) × (bad : Scalar) × (rest : List Scalar) × (l
      ≡ map text good ++ (bad ∷ rest))
    × All HasNoNul good
    × (refusal (index + length good) bad ≡ some e)

-- What an array is answered with, where its vector is granted and where it is not.
abbrev pub Answers : Bool → List Scalar → Argv → Type 0
Answers true l r = Reads 0 l r
Answers false l r = r ≡ croaked no_memory_for_argv
