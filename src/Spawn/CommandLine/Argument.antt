-- ===== src/Spawn/CommandLine/Argument.antt =====
-- What `dd_windows_command_line` writes for one argument, a Windows program reads as that argument.
use developer_dashboard.Common.{
  ℕ, zero, suc, ◌+◌, ◌*◌, ◌/◌, ◌%◌, ◌≡◌, ◌∙◌, sym, ap, refl, true, false, Bool-cases, inl, inr,
  arith, [], ◌∷◌, ◌++◌, append-nil, append_assoc, ◌==◌, Bytes,
}
use developer_dashboard.Spawn.CommandLine.{
  backslashes, is_special, has_special, escape, encode, needs_quotes,
}
use developer_dashboard.Spawn.CommandLine.Microsoft.{
  plain, quoted, closing, put_front, argument, is_blank,
}

-- What may stand behind an argument, and what is left of it for the next one.
abbrev pub Tail : Bytes → Bytes → Type 0
Tail [] rest = rest ≡ []
Tail (c ∷ tail) rest = (c ≡ b' ') × (rest ≡ tail)

counts_quoted :
    (m n : ℕ) (s : Bytes) → argument quoted n (backslashes m ++ s) ≡ argument quoted (n + m) s
unfolding argument
counts_quoted zero n s = ap (λ k. argument quoted k s) (omega arith)
counts_quoted (suc m) n s = counts_quoted m (n + 1) s ∙ ap (λ k. argument quoted k s) (omega arith)

counts_plain :
    (m n : ℕ) (s : Bytes) → argument plain n (backslashes m ++ s) ≡ argument plain (n + m) s
unfolding argument
counts_plain zero n s = ap (λ k. argument plain k s) (omega arith)
counts_plain (suc m) n s = counts_plain m (n + 1) s ∙ ap (λ k. argument plain k s) (omega arith)

starts_quoted : (m : ℕ) (s : Bytes) → argument quoted 0 (backslashes m ++ s) ≡ argument quoted m s
starts_quoted m s =
    let e : 0 + m ≡ m = omega arith in counts_quoted m 0 s ∙ ap (λ k. argument quoted k s) e

starts_plain : (m : ℕ) (s : Bytes) → argument plain 0 (backslashes m ++ s) ≡ argument plain m s
starts_plain m s =
    let e : 0 + m ≡ m = omega arith in counts_plain m 0 s ∙ ap (λ k. argument plain k s) e

half_even : (n : ℕ) → n * 2 / 2 ≡ n
half_even n = omega arith

rest_even : (n : ℕ) → n * 2 % 2 ≡ 0
rest_even n = omega arith

half_odd : (n : ℕ) → (n * 2 + 1) / 2 ≡ n
half_odd n = omega arith

rest_odd : (n : ℕ) → (n * 2 + 1) % 2 ≡ 1
rest_odd n = omega arith

even_quote :
    (n : ℕ) (s : Bytes)
    → argument quoted (n * 2) (b'"' ∷ s) ≡ put_front (backslashes n) (argument closing 0 s)
unfolding argument
even_quote n s = rw (half_even n, rest_even n) refl

odd_quote :
    (n : ℕ) (s : Bytes)
    → argument quoted (n * 2) (b'\\' ∷ b'"' ∷ s)
      ≡ put_front (backslashes n) (put_front (b'"' ∷ []) (argument quoted 0 s))
unfolding argument
odd_quote n s = rw (half_odd n, rest_odd n) refl

other_quoted :
    (n c : ℕ) (s : Bytes)
    → (c == b'\\') ≡ false
    → (c == b'"') ≡ false
    → argument quoted n (c ∷ s)
      ≡ put_front (backslashes n) (put_front (c ∷ []) (argument quoted 0 s))
unfolding argument
other_quoted n c s e f = rw (e, f) refl

other_plain :
    (n c : ℕ) (s : Bytes)
    → (c == b'\\') ≡ false
    → is_special c ≡ false
    → argument plain n (c ∷ s) ≡ put_front (backslashes n) (put_front (c ∷ []) (argument plain 0 s))
unfolding argument
other_plain n c s e f = ground (arith, e, f)

closing-Tail : (tail rest : Bytes) → Tail tail rest → argument closing 0 tail ≡ ([], rest)
unfolding argument
closing-Tail [] rest t = ground (arith, t)
closing-Tail (c ∷ tail) rest t = rw (t.0, t.1) refl

plain-Tail :
    (n : ℕ) (tail rest : Bytes) → Tail tail rest → argument plain n tail ≡ (backslashes n, rest)
unfolding argument
plain-Tail n [] rest t = ground (arith, t)
plain-Tail n (c ∷ tail) rest t = rw (t.0, t.1) refl

one_more : (n : ℕ) (s : Bytes) → backslashes (n + 1) ++ s ≡ backslashes n ++ (b'\\' ∷ s)
one_more zero s = refl
one_more (suc n) s =
    let e : suc n + 1 ≡ suc (n + 1) = omega arith in
    ap (λ k. backslashes k ++ s) e ∙ ap (λ l. b'\\' ∷ l) (one_more n s)

quoted_lem :
    (arg : Bytes) (n : ℕ) (tail rest : Bytes)
    → Tail tail rest
    → argument quoted 0 (escape true n arg ++ tail) ≡ (backslashes n ++ arg, rest)
unfolding escape
quoted_lem [] n tail rest t = rw (append_assoc (backslashes (n * 2)) (b'"' ∷ []) tail) (
    starts_quoted (n * 2) (b'"' ∷ tail)
    ∙ even_quote n tail
    ∙ ap (put_front (backslashes n)) (closing-Tail tail rest t))
quoted_lem (c ∷ arg) n tail rest t = elim (Bool-cases (c == b'\\')) [
  | inl e ↦ rw e (
      quoted_lem arg (n + 1) tail rest t
      ∙ ap (λ s. (s, rest))
          (one_more n arg ∙ ap (λ d. backslashes n ++ (d ∷ arg)) (ground (arith, e))))
  | inr e ↦ rw e (elim (Bool-cases (c == b'"')) [
    | inl f ↦ rw f (
        rw (append_assoc (backslashes (n * 2)) (b'\\' ∷ b'"' ∷ escape true 0 arg) tail) (
          starts_quoted (n * 2) (b'\\' ∷ b'"' ∷ (escape true 0 arg ++ tail))
          ∙ odd_quote n (escape true 0 arg ++ tail)
          ∙ ap (λ r. put_front (backslashes n) (put_front (b'"' ∷ []) r))
              (quoted_lem arg 0 tail rest t)
          ∙ ap (λ d. (backslashes n ++ (d ∷ arg), rest)) (ground (arith, f))))
    | inr f ↦ rw f (
        rw (append_assoc (backslashes n) (c ∷ escape true 0 arg) tail) (
          starts_quoted n (c ∷ (escape true 0 arg ++ tail))
          ∙ other_quoted n c (escape true 0 arg ++ tail) e f
          ∙ ap (λ r. put_front (backslashes n) (put_front (c ∷ []) r))
              (quoted_lem arg 0 tail rest t)))
  ])
]

no_quote : (c : ℕ) (arg : Bytes) → has_special (c ∷ arg) ≡ false → (c == b'"') ≡ false
unfolding has_special
no_quote c arg h = ground (arith, h)

plain_lem :
    (arg : Bytes) (n : ℕ) (tail rest : Bytes)
    → has_special arg ≡ false
    → Tail tail rest
    → argument plain 0 (escape false n arg ++ tail) ≡ (backslashes n ++ arg, rest)
unfolding escape has_special
plain_lem [] n tail rest h t =
    starts_plain n tail
    ∙ plain-Tail n tail rest t
    ∙ ap (λ s. (s, rest)) (sym (append-nil (backslashes n)))
plain_lem (c ∷ arg) n tail rest h t = elim (Bool-cases (c == b'\\')) [
  | inl e ↦ rw e (
      plain_lem arg (n + 1) tail rest (ground (arith, h)) t
      ∙ ap (λ s. (s, rest))
          (one_more n arg ∙ ap (λ d. backslashes n ++ (d ∷ arg)) (ground (arith, e))))
  | inr e ↦ rw e (
      rw (no_quote c arg h) (
        rw (append_assoc (backslashes n) (c ∷ escape false 0 arg) tail) (
          starts_plain n (c ∷ (escape false 0 arg ++ tail))
          ∙ other_plain n c (escape false 0 arg ++ tail) e (ground (arith, h))
          ∙ ap (λ r. put_front (backslashes n) (put_front (c ∷ []) r))
              (plain_lem arg 0 tail rest (ground (arith, h)) t))))
]

pub argument-encode :
    (arg tail rest : Bytes) → Tail tail rest → argument plain 0 (encode arg ++ tail) ≡ (arg, rest)
unfolding encode argument needs_quotes
argument-encode [] tail rest t = quoted_lem [] 0 tail rest t
argument-encode (c ∷ arg) tail rest t = elim (Bool-cases (has_special (c ∷ arg))) [
  | inl h ↦ rw h (ap (put_front []) (quoted_lem (c ∷ arg) 0 tail rest t))
  | inr h ↦ rw h (plain_lem (c ∷ arg) 0 tail rest h t)
]

escape-plain :
    (arg : Bytes) (n : ℕ) → has_special arg ≡ false → escape false n arg ≡ backslashes n ++ arg
unfolding escape has_special
escape-plain [] n h = sym (append-nil (backslashes n))
escape-plain (c ∷ arg) n h = elim (Bool-cases (c == b'\\')) [
  | inl e ↦ rw e (
      escape-plain arg (n + 1) (ground (arith, h))
      ∙ one_more n arg
      ∙ ap (λ d. backslashes n ++ (d ∷ arg)) (ground (arith, e)))
  | inr e ↦ rw e (
      rw (no_quote c arg h)
        (ap (λ l. backslashes n ++ (c ∷ l)) (escape-plain arg 0 (ground (arith, h)))))
]

no_blank : (c : ℕ) (arg : Bytes) → has_special (c ∷ arg) ≡ false → is_blank c ≡ false
unfolding has_special
no_blank c arg h = ground (arith, h)

-- The first byte for an argument is no blank.
pub encode-starts :
    (arg : Bytes) → (c : ℕ) × (s : Bytes) × (encode arg ≡ c ∷ s) × (is_blank c ≡ false)
unfolding encode needs_quotes
encode-starts [] = (b'"', escape true 0 [], refl, refl)
encode-starts (c ∷ arg) = elim (Bool-cases (has_special (c ∷ arg))) [
  | inl h ↦ (b'"', escape true 0 (c ∷ arg), rw h refl, refl)
  | inr h ↦ (c, arg, rw h (escape-plain (c ∷ arg) 0 h), no_blank c arg h)
]
