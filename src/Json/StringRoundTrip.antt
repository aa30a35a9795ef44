-- ===== src/Json/StringRoundTrip.antt =====
-- What `emit_json_string` writes, `j_string` reads back.
use developer_dashboard.Common.{
  ℕ, zero, suc, ◌/◌, ◌%◌, ◌<◌, ◌≡◌, ◌∙◌, refl, sym, ap, arith, Bool, true, false, Bool-cases, ◌⊎◌,
  inl, inr, [], ◌∷◌, ◌++◌, none, some, length, length-append, append-nil, append_assoc, Bytes,
  c_string, ◌==◌, ltb, ltb→lt, holds_under, holds_under_lem,
}
use developer_dashboard.Json.{JParser}
use developer_dashboard.Json.Text.{
  hex4, hexval, utf8, StringBuffer, append_utf8, push_byte, byte, code_point, unicode_escape,
  escape, string_step, closed, string_loop, fresh_buffer, opening, j_string,
}
use developer_dashboard.Json.Emit.{emit_byte, emit_body, emit_json_string, unicode_form, hex_digit}

abbrev reads_digits : ℕ → Bool
reads_digits c =
    elim (hex4 (hex_digit (c / 4096 % 16)) (hex_digit (c / 256 % 16)) (hex_digit (c / 16 % 16))
      (hex_digit (c % 16))) [ none ↦ false | some v ↦ v == c ]

digits_table : holds_under reads_digits 0x20 ≡ true
unfolding holds_under hex4 hexval
digits_table = refl

hex4-hex_digit :
    (c : ℕ)
    → c < 0x20
    → hex4
        (hex_digit (c / 4096 % 16))
        (hex_digit (c / 256 % 16))
        (hex_digit (c / 16 % 16))
        (hex_digit (c % 16))
      ≡ some c
hex4-hex_digit c h = ground (arith, holds_under_lem reads_digits 0x20 c h digits_table)

-- One round of the reader takes back one byte.
abbrev TakesBack : ℕ → Bytes → Bytes → Type 0
TakesBack c more [] = ⊥
TakesBack c more (h ∷ t) =
    (string_step h t ≡ byte c more) ⊎ ((string_step h t ≡ code_point c more) × (c < 0x20))

control_TakesBack : (c : ℕ) (more : Bytes) → c < 0x20 → TakesBack c more (unicode_form c ++ more)
unfolding string_step escape unicode_escape
control_TakesBack c more h = inr (rw (hex4-hex_digit c h, unicode_escape) (ground arith), h)

emit_byte-TakesBack : (c : ℕ) (more : Bytes) → TakesBack c more (emit_byte c ++ more)
unfolding emit_byte string_step escape
emit_byte-TakesBack c more = elim (Bool-cases (c == b'"')) [
  | inl e0 ↦ rw e0 (inl (ground arith))
  | inr e0 ↦ rw e0 (elim (Bool-cases (c == b'\\')) [
    | inl e1 ↦ rw e1 (inl (ground arith))
    | inr e1 ↦ rw e1 (elim (Bool-cases (c == b'\n')) [
      | inl e2 ↦ rw e2 (inl (ground arith))
      | inr e2 ↦ rw e2 (elim (Bool-cases (c == b'\r')) [
        | inl e3 ↦ rw e3 (inl (ground arith))
        | inr e3 ↦ rw e3 (elim (Bool-cases (c == b'\t')) [
          | inl e4 ↦ rw e4 (inl (ground arith))
          | inr e4 ↦ rw e4 (elim (Bool-cases (ltb c 0x20)) [
            | inl e ↦ rw e (control_TakesBack c more (ltb→lt _ _ e))
            | inr e ↦ rw e (inl (ground arith))
          ])
        ])
      ])
    ])
  ])
]

Reads : ℕ → StringBuffer → Bytes → Bytes → Bytes → Type 0
Reads fuel b text s rest =
    (b' : StringBuffer) × (string_loop fuel b text ≡ some (closed b' rest))
    × (b'.bytes ≡ b.bytes ++ s)

append_utf8_ascii :
    (b : StringBuffer) (c : ℕ) → c < 0x20 → (append_utf8 b c).bytes ≡ b.bytes ++ c ∷ []
unfolding append_utf8 utf8
append_utf8_ascii b c h = ground arith

-- One round, then the rest of the loop.
round :
    (fuel : ℕ) (b : StringBuffer) (c : ℕ) (more s rest text : Bytes)
    → TakesBack c more text
    → ((b' : StringBuffer) → Reads fuel b' more s rest)
    → Reads (suc fuel) b text (c ∷ s) rest
unfolding Reads string_loop push_byte
round fuel b c more s rest [] h ih = absurd h
round fuel b c more s rest (x ∷ t) (inl e) ih =
    let (b', q, d) = ih (push_byte b c) in
    (b', rw (e, string_loop) q, d ∙ append_assoc b.bytes (c ∷ []) s)
round fuel b c more s rest (x ∷ t) (inr (e, l)) ih =
    let (b', q, d) = ih (append_utf8 b c) in
    (
      b',
      rw (e, string_loop) q,
      d ∙ ap (λ p. p ++ s) (append_utf8_ascii b c l) ∙ append_assoc b.bytes (c ∷ []) s,
    )

emit_byte_pos : (c : ℕ) → 0 < length (emit_byte c)
unfolding emit_byte
emit_byte_pos c = ground arith

emit_body-Reads :
    (s rest : Bytes) (fuel : ℕ) (b : StringBuffer)
    → length (emit_body s) < fuel
    → Reads fuel b (emit_body s ++ (b'"' ∷ rest)) s rest
unfolding emit_body Reads string_loop string_step
emit_body-Reads s rest zero b h = absurd (omega arith)
emit_body-Reads [] rest (suc fuel) b h = (b, refl, sym (append-nil b.bytes))
emit_body-Reads (c ∷ cs) rest (suc fuel) b h =
    rw (append_assoc (emit_byte c) (emit_body cs) (b'"' ∷ rest)) (
      round fuel b c (emit_body cs ++ (b'"' ∷ rest)) cs rest _
        (emit_byte-TakesBack c (emit_body cs ++ (b'"' ∷ rest)))
        (λ b'.
          emit_body-Reads cs rest fuel b'
            (omega (arith, emit_byte_pos c, length-append (emit_byte c) (emit_body cs)))))

opening-emit_body :
    (s rest : Bytes) (ps : JParser)
    → opening ps (b'"' ∷ (emit_body s ++ (b'"' ∷ rest))) ≡ some (some s, record ps { rest = rest })
unfolding opening Reads
opening-emit_body s rest ps =
    let text = emit_body s ++ (b'"' ∷ rest) in
    let (b', q, d) =
      emit_body-Reads s rest (suc (length text)) fresh_buffer
        (omega (arith, length-append (emit_body s) (b'"' ∷ rest))) in
    rw q (ap (λ x. some (some x, record ps { rest = rest })) d)

-- What `emit_json_string` writes of a C string, `j_string` reads back up to the closing quote, with
-- the text behind it left, no error set, and nothing else changed.
pub j_string-emit_json_string :
    (s rest : Bytes) (ps : JParser)
    → ps.rest ≡ emit_json_string s ++ rest
    → j_string ps ≡ some (some (c_string s), record ps { rest = rest })
unfolding j_string emit_json_string
j_string-emit_json_string s rest ps h =
    ap (opening ps) (h ∙ ap (◌∷◌ b'"') (append_assoc (emit_body (c_string s)) (b'"' ∷ []) rest))
    ∙ opening-emit_body (c_string s) rest ps
