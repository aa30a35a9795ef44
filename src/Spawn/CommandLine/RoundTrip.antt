-- ===== src/Spawn/CommandLine/RoundTrip.antt =====
-- What `dd_windows_command_line` writes, a Windows program takes apart into the arguments.
use developer_dashboard.Common.{
  ℕ, zero, suc, ◌≤◌, ◌≡◌, ◌∙◌, ap, refl, arith, List, [], ◌∷◌, ◌++◌, Bytes, length, length-append,
}
use developer_dashboard.Spawn.CommandLine.{encode, encode_rest, encode_all}
use developer_dashboard.Spawn.CommandLine.Argument.{Tail, argument-encode, encode-starts}
use developer_dashboard.Spawn.CommandLine.Microsoft.{skip_blanks, arguments, split_command_line}

abbrev behind : Bytes → Bytes
behind [] = []
behind (c ∷ tail) = tail

encode_rest-Tail : (args : List Bytes) → Tail (encode_rest args) (behind (encode_rest args))
unfolding encode_rest
encode_rest-Tail [] = refl
encode_rest-Tail (arg ∷ args) = (refl, refl)

-- One argument is taken off.
round :
    (arg tail rest : Bytes) (fuel : ℕ)
    → Tail tail rest
    → arguments (suc fuel) (skip_blanks (encode arg ++ tail))
      ≡ arg ∷ arguments fuel (skip_blanks rest)
unfolding arguments skip_blanks
round arg tail rest fuel t =
    let (c, s, e, b) = encode-starts arg in
    let r = argument-encode arg tail rest t in rw e (rw b (rw ((rw e at r)) refl))

line_lem :
    (args : List Bytes) (arg : Bytes) (fuel : ℕ)
    → length (encode arg ++ encode_rest args) ≤ fuel
    → arguments fuel (skip_blanks (encode arg ++ encode_rest args)) ≡ arg ∷ args
unfolding arguments skip_blanks encode_rest
line_lem args arg zero h =
    let (c, s, e, b) = encode-starts arg in
    absurd (omega (arith, h, length-append (encode arg) (encode_rest args), ap length e))
line_lem [] arg (suc fuel) h = round arg [] [] fuel refl ∙ ap (λ l. arg ∷ l) (no_more fuel)
  where
    no_more : (fuel : ℕ) → arguments fuel (skip_blanks []) ≡ []
    no_more zero = refl
    no_more (suc fuel) = refl
line_lem (next ∷ args) arg (suc fuel) h =
    round arg (b' ' ∷ (encode next ++ encode_rest args)) (encode next ++ encode_rest args) fuel
      (refl, refl)
    ∙ ap (λ l. arg ∷ l)
        (line_lem args next fuel
          (omega (arith, h, length-append (encode arg) (b' ' ∷ (encode next ++ encode_rest args)))))

-- Whatever the arguments are, empty ones, blanks, quotes and backslashes included, the line written for
-- them is taken apart into the same arguments.
pub split_command_line-encode_all :
    (args : List Bytes) → split_command_line (encode_all args) ≡ args
unfolding split_command_line encode_all arguments skip_blanks
split_command_line-encode_all [] = refl
split_command_line-encode_all (arg ∷ args) = line_lem args arg _ (omega arith)
