-- ===== src/Json/Emit.antt =====
-- `emit_json_string` of native/system_menu_helper_linux.c: the bytes that its writes put on standard
-- output, one write after another. What a failed write leaves out is not modelled.
use developer_dashboard.Common.{
  ℕ, ◌+◌, ◌-◌, ◌/◌, ◌%◌, [], ◌∷◌, ◌++◌, ltb, ◌==◌, if◌then◌else◌, Bytes, c_string,
}

abbrev pub hex_digit : ℕ → ℕ
hex_digit d = if ltb d 10 then b'0' + d else b'a' + d - 10

-- `\u%04x`
abbrev pub unicode_form : ℕ → Bytes
unicode_form c =
    b'\\'
    ∷ b'u'
    ∷ hex_digit (c / 4096 % 16)
    ∷ hex_digit (c / 256 % 16)
    ∷ hex_digit (c / 16 % 16)
    ∷ hex_digit (c % 16)
    ∷ []

unfoldable pub emit_byte : ℕ → Bytes
emit_byte c =
    if c == b'"'
    then b'\\' ∷ b'"' ∷ []
    else if c == b'\\'
    then b'\\' ∷ b'\\' ∷ []
    else if c == b'\n'
    then b'\\' ∷ b'n' ∷ []
    else if c == b'\r'
    then b'\\' ∷ b'r' ∷ []
    else if c == b'\t'
    then b'\\' ∷ b't' ∷ []
    else if ltb c 0x20
    then unicode_form c
    else c ∷ []

unfoldable pub emit_body : Bytes → Bytes
emit_body [] = []
emit_body (c ∷ cs) = emit_byte c ++ emit_body cs

unfoldable pub emit_json_string : Bytes → Bytes
emit_json_string s = b'"' ∷ (emit_body (c_string s) ++ (b'"' ∷ []))
