-- ===== src/Spawn/CommandLine/Microsoft.antt =====
-- How a Windows program takes its command line apart: the rules that Microsoft documents for the
-- arguments behind the program's name. Blanks separate arguments, but not between quotes. Before a
-- quote, two backslashes stand for one, and a backslash that is left over makes the quote a character;
-- elsewhere a backslash is itself. Within quotes two quotes are a character.
use developer_dashboard.Common.{
  ℕ, zero, suc, ◌+◌, ◌/◌, ◌%◌, Bool, ◌||◌, List, [], ◌∷◌, ◌++◌, ◌==◌, if◌then◌else◌, Bytes, length,
}
use developer_dashboard.Spawn.CommandLine.{backslashes}

-- Outside quotes, between them, or behind a quote that may turn out to be the first of two.
pub data Quoting : Type 0 where
  plain quoted closing : Quoting

abbrev pub is_blank : ℕ → Bool
is_blank c = c == b' ' || c == b'\t'

abbrev pub put_front : Bytes → Bytes × Bytes → Bytes × Bytes
put_front s (arg, rest) = (s ++ arg, rest)

-- The argument that starts here, behind the backslashes that are counted, and the line behind it.
unfoldable pub argument : Quoting → ℕ → Bytes → Bytes × Bytes
argument quoting n [] = (backslashes n, [])
argument quoted n (c ∷ rest) =
    if c == b'\\'
    then argument quoted (n + 1) rest
    else if c == b'"'
    then put_front (backslashes (n / 2)) (
        if n % 2 == 0
        then argument closing 0 rest
        else put_front (b'"' ∷ []) (argument quoted 0 rest))
    else put_front (backslashes n) (put_front (c ∷ []) (argument quoted 0 rest))
argument plain n (c ∷ rest) =
    if c == b'\\'
    then argument plain (n + 1) rest
    else if c == b'"'
    then put_front (backslashes (n / 2)) (
        if n % 2 == 0
        then argument quoted 0 rest
        else put_front (b'"' ∷ []) (argument plain 0 rest))
    else if is_blank c
    then (backslashes n, rest)
    else put_front (backslashes n) (put_front (c ∷ []) (argument plain 0 rest))
argument closing n (c ∷ rest) =
    if c == b'"'
    then put_front (b'"' ∷ []) (argument quoted 0 rest)
    else if c == b'\\'
    then argument plain 1 rest
    else if is_blank c
    then ([], rest)
    else put_front (c ∷ []) (argument plain 0 rest)

unfoldable pub skip_blanks : Bytes → Bytes
skip_blanks [] = []
skip_blanks (c ∷ rest) = if is_blank c then skip_blanks rest else c ∷ rest

-- Each argument takes at least one byte.
unfoldable pub arguments : ℕ → Bytes → List Bytes
arguments zero text = []
arguments (suc fuel) [] = []
arguments (suc fuel) (c ∷ text) =
    (argument plain 0 (c ∷ text)).0 ∷ arguments fuel (skip_blanks (argument plain 0 (c ∷ text)).1)

unfoldable pub split_command_line : Bytes → List Bytes
split_command_line text = arguments (length text) (skip_blanks text)
