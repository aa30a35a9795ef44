-- ===== src/Json/Text/Bounds.antt =====
-- The buffer of `j_string`: no write leaves it, and its loop ends within its fuel.
use developer_dashboard.Common.{
  ℕ, zero, suc, ◌+◌, ◌*◌, ◌≤◌, ◌<◌, ◌≡◌, refl, arith, [], ◌∷◌, Option, none, some, length,
  length-append, Bytes, Option-cases, Bool-cases, ◌==◌, inl, inr,
}
use developer_dashboard.Json.{JError, JParser}
use developer_dashboard.Json.Text.{
  StringBuffer, grow, append_utf8, push_byte, utf8, StringStep, closing, byte, code_point, broken,
  surrogate_pair, unicode_escape, escape, string_step, StringEnd, closed, invalid, string_loop,
  fresh_buffer, hex4, j_string, opening, string_result,
}

-- The used bytes and the NUL behind them lie in the allocation.
pub record Fits (b : StringBuffer) : Type 0 where
  pub room : length b.bytes + 1 ≤ b.cap
  pub initial : 64 ≤ b.cap

grow_bounds :
    (fuel need cap : ℕ)
    → 0 < cap
    → need ≤ cap + fuel
    → (need ≤ grow fuel need cap) × (cap ≤ grow fuel need cap)
unfolding grow
grow_bounds zero need cap pos h = omega arith
grow_bounds (suc fuel) need cap pos h =
    ground (arith, grow_bounds fuel need (cap * 2) (omega arith) (omega arith))

append_utf8-Fits : (b : StringBuffer) (cp : ℕ) → Fits b → Fits (append_utf8 b cp)
unfolding append_utf8
append_utf8-Fits b cp f =
    let need = length b.bytes + length (utf8 cp) + 1 in
    let big = grow_bounds need need b.cap (omega arith) (omega arith) in
    record {
      room = omega (arith, big, length-append b.bytes (utf8 cp));
      initial = omega (arith, big);
    }

push_byte-Fits : (b : StringBuffer) (c : ℕ) → Fits b → Fits (push_byte b c)
unfolding push_byte
push_byte-Fits b c f = record {
  room = ground (arith, length-append b.bytes (c ∷ []));
  initial = ground arith;
}

-- The text that a round leaves is no longer than the text behind its first byte.
abbrev pub Leaves : ℕ → StringStep → Type 0
Leaves n (closing rest) = length rest ≤ n
Leaves n (byte c rest) = length rest ≤ n
Leaves n (code_point cp rest) = length rest ≤ n
Leaves n (broken rest) = length rest ≤ n

surrogate_pair-Leaves : (cp : ℕ) (rest : Bytes) → Leaves (length rest) (surrogate_pair cp rest)
unfolding surrogate_pair
surrogate_pair-Leaves cp (s ∷ u ∷ a ∷ b ∷ c ∷ d ∷ rest) = ground arith
surrogate_pair-Leaves cp _ = omega arith

Leaves-mono : {m n : ℕ} (s : StringStep) → m ≤ n → Leaves m s → Leaves n s
Leaves-mono (closing rest) h l = omega arith
Leaves-mono (byte c rest) h l = omega arith
Leaves-mono (code_point cp rest) h l = omega arith
Leaves-mono (broken rest) h l = omega arith

unicode_escape-Leaves : (rest : Bytes) → Leaves (length rest) (unicode_escape rest)
unfolding unicode_escape
unicode_escape-Leaves (a ∷ b ∷ c ∷ d ∷ rest) = elim (Option-cases (hex4 a b c d)) [
  | inl e ↦ rw (e, unicode_escape) (omega arith)
  | inr (cp, e) ↦
      rw (e, unicode_escape)
        (let pair =
            Leaves-mono {m = length rest} {n = suc (suc (suc (suc (length rest))))}
              (surrogate_pair cp rest) (omega arith) (surrogate_pair-Leaves cp rest) in
          ground arith)
]
unicode_escape-Leaves _ = omega arith

string_step-Leaves : (c : ℕ) (more : Bytes) → Leaves (length more) (string_step c more)
unfolding string_step escape
string_step-Leaves c [] = ground arith
string_step-Leaves c (e ∷ rest) =
    let code =
      Leaves-mono {m = length rest} {n = suc (length rest)} (unicode_escape rest) (omega arith)
        (unicode_escape-Leaves rest) in
    ground arith

-- A returned buffer holds its text and NUL, and what is left is shorter than what was read.
abbrev pub Ended : ℕ → StringEnd → Type 0
Ended n (closed b rest) = Fits b × (length rest < n)
Ended n (invalid rest) = length rest ≤ n

Ended-mono : {m n : ℕ} (r : StringEnd) → m ≤ n → Ended m r → Ended n r
Ended-mono (closed b rest) h (f, l) = (f, omega arith)
Ended-mono (invalid rest) h l = omega arith

-- The loop ends, within what it may read.
abbrev Reads : ℕ → ℕ → StringBuffer → Bytes → Type 0
Reads fuel n b rest = (r : StringEnd) × (string_loop fuel b rest ≡ some r) × Ended n r

Reads-suc :
    (fuel n m : ℕ) (b : StringBuffer) (rest : Bytes)
    → n ≤ m
    → Reads fuel n b rest
    → Reads fuel m b rest
Reads-suc fuel n m b rest h (r, e, d) = (r, e, Ended-mono r h d)

module _ (fuel : ℕ) (b : StringBuffer) (c : ℕ) (more : Bytes)
    (ih : (b' : StringBuffer) (rest : Bytes)
      → length rest < fuel
      → Fits b'
      → Reads fuel (length rest) b' rest)
    (f : Fits b) (h : length more < fuel) where
  later :
      (b' : StringBuffer) (rest : Bytes)
      → Fits b'
      → length rest ≤ length more
      → Reads fuel (suc (length more)) b' rest
  later b' rest f' l =
      Reads-suc fuel (length rest) (suc (length more)) b' rest (omega arith)
        (ih b' rest (omega arith) f')

  round :
      (s : StringStep)
      → Leaves (length more) s
      → string_step c more ≡ s
      → Reads (suc fuel) (suc (length more)) b (c ∷ more)
  unfolding string_loop
  round (closing rest) l e = (closed b rest, rw (e, string_loop), (f, omega arith))
  round (byte v rest) l e =
      rw (e, string_loop) (later (push_byte b v) rest (push_byte-Fits b v f) l)
  round (code_point cp rest) l e =
      rw (e, string_loop) (later (append_utf8 b cp) rest (append_utf8-Fits b cp f) l)
  round (broken rest) l e = (invalid rest, rw (e, string_loop), omega arith)

string_loop_lem :
    (fuel : ℕ) (b : StringBuffer) (rest : Bytes)
    → length rest < fuel
    → Fits b
    → Reads fuel (length rest) b rest
unfolding string_loop
string_loop_lem zero b rest h f = absurd (omega arith)
string_loop_lem (suc fuel) b [] h f = (invalid [], refl, omega arith)
string_loop_lem (suc fuel) b (c ∷ more) h f =
    round fuel b c more (string_loop_lem fuel) f (omega arith) (string_step c more)
      (string_step-Leaves c more) refl

-- From the opening quote on, `j_string` ends: with a buffer that its text and the NUL behind it
-- fit in and the text behind the closing quote, or with no string and no more text than before.
pub string_loop-Fits : (rest : Bytes) → Reads (suc (length rest)) (length rest) fresh_buffer rest
string_loop-Fits rest =
    string_loop_lem (suc (length rest)) fresh_buffer rest (omega arith)
      (record { room = omega arith; initial = omega arith })

-- `j_string` gives an answer on every text: a string behind which less is left by its two quotes at
-- least, or none.
abbrev pub Strung : ℕ → Option Bytes × JParser → Type 0
Strung n (none, ps) = length ps.rest ≤ n
Strung n (some s, ps) = length ps.rest + 2 ≤ n

string_result-Strung :
    (e : Option JError) (n : ℕ) (r : StringEnd) → Ended n r → Strung (suc n) (string_result e r)
string_result-Strung e n (closed b rest) d = omega arith
string_result-Strung e n (invalid rest) d = omega arith

opening_total :
    (ps : JParser) (rest : Bytes)
    → ps.rest ≡ rest
    → (r : Option Bytes × JParser) × (opening ps rest ≡ some r) × Strung (length rest) r
unfolding opening
opening_total ps [] h = ((none, ps), refl, ground arith)
opening_total ps (c ∷ rest) h =
    let (r, e, d) = string_loop-Fits rest in
    elim (Bool-cases (c == b'"')) [
      | inl quote ↦
          (string_result ps.error r, rw (quote, e), string_result-Strung ps.error (length rest) r d)
      | inr other ↦ ((none, ps), rw other, ground arith)
    ]

pub j_string_total :
    (ps : JParser)
    → (r : Option Bytes × JParser) × (j_string ps ≡ some r) × Strung (length ps.rest) r
unfolding j_string
j_string_total ps = opening_total ps ps.rest refl
