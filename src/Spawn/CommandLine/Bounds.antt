-- ===== src/Spawn/CommandLine/Bounds.antt =====
-- The line and its NUL fit the buffer that is allocated for it.
use developer_dashboard.Common.{
  ℕ, ◌+◌, ◌*◌, ◌^◌, ◌≤◌, ◌<◌, ◌≡◌, Bool, true, false, arith, List, [], ◌∷◌, some, Bytes, length,
  length-append, length-replicate,
}
use developer_dashboard.Spawn.CommandLine.{
  backslashes, escape, encode, encode_rest, encode_all, line_capacity,
}

-- All bytes of the arguments, and four more for each.
abbrev pub total : List Bytes → ℕ
total [] = 0
total (arg ∷ args) = length arg * 2 + 4 + total args

module _ (quote : Bool) where
  length-escape :
      (arg : Bytes) (slashes : ℕ)
      → length (escape quote slashes arg) ≤ slashes * 2 + length arg * 2 + 1
  unfolding escape
  length-escape [] n = ground (
    arith,
    length-append (backslashes (n * 2)) (b'"' ∷ []),
    length-replicate {A = ℕ} (n * 2) b'\\',
    length-replicate {A = ℕ} n b'\\',
  )
  length-escape (c ∷ arg) n = ground (
    arith,
    length-escape arg (n + 1),
    length-escape arg 0,
    length-append (backslashes (n * 2)) (b'\\' ∷ b'"' ∷ escape quote 0 arg),
    length-append (backslashes n) (c ∷ escape quote 0 arg),
    length-replicate {A = ℕ} (n * 2) b'\\',
    length-replicate {A = ℕ} n b'\\',
  )

length-encode : (arg : Bytes) → length (encode arg) ≤ length arg * 2 + 2
unfolding encode
length-encode arg = ground (arith, length-escape true arg 0, length-escape false arg 0)

length-encode_rest : (args : List Bytes) → length (encode_rest args) ≤ total args
unfolding encode_rest
length-encode_rest [] = omega arith
length-encode_rest (arg ∷ args) = omega (
  arith,
  length-encode arg,
  length-encode_rest args,
  length-append (encode arg) (encode_rest args),
)

length-encode_all : (args : List Bytes) → length (encode_all args) ≤ total args
unfolding encode_all
length-encode_all [] = omega arith
length-encode_all (arg ∷ args) = omega (
  arith,
  length-encode arg,
  length-encode_rest args,
  length-append (encode arg) (encode_rest args),
)

line_capacity_lem :
    (args : List Bytes) (capacity : ℕ)
    → capacity + total args < 2 ^ 63
    → line_capacity capacity args ≡ some (capacity + total args)
unfolding line_capacity
line_capacity_lem [] capacity h = ground arith
line_capacity_lem (arg ∷ args) capacity h =
    ground (arith, line_capacity_lem args (capacity + length arg * 2 + 4))

-- For arguments that a machine can hold, the capacity is computed without a wrap-around and is not
-- refused, and the line that is written, with its NUL, is no longer than the buffer.
pub encode_all-line_capacity :
    (args : List Bytes)
    → total args < 2 ^ 62
    → (capacity : ℕ) × (line_capacity 1 args ≡ some capacity)
      × (length (encode_all args) + 1 ≤ capacity)
encode_all-line_capacity args h =
    (1 + total args, line_capacity_lem args 1 (omega arith), omega (arith, length-encode_all args))
