-- ===== src/Json/Text.antt =====
-- `hexval`, `append_utf8` and `j_string` of native/system_menu_helper_linux.c. A shift is a
-- multiplication or division by a power of two, and `& 0x3F` is `% 64`; the four hexadecimal digits
-- of an escape do not overlap, so their `|` is a sum.
pub mod Bounds
pub mod Utf8
use Prim.Native.Nat.{bit_or}
use developer_dashboard.Common.{
  ℕ, zero, suc, ◌+◌, ◌-◌, ◌*◌, ◌/◌, ◌%◌, Bool, ◌&&◌, ◌||◌, [], ◌∷◌, ◌++◌, Option, none, some, ltb,
  leb, ◌==◌, if◌then◌else◌, length, Bytes,
}
use developer_dashboard.Json.{JParser, JError, invalid_string}

abbrev pub within : ℕ → ℕ → ℕ → Bool
within lo hi c = leb lo c && leb c hi

-- `none` stands for -1.
unfoldable pub hexval : ℕ → Option ℕ
hexval c =
    if within b'0' b'9' c
    then some (c - b'0')
    else if within b'a' b'f' c
    then some (10 + c - b'a')
    else if within b'A' b'F' c
    then some (10 + c - b'A')
    else none

-- The digits of `\uXXXX`: no value when one of them is no hexadecimal digit.
unfoldable pub hex4 : ℕ → ℕ → ℕ → ℕ → Option ℕ
hex4 a b c d = elim (hexval a) [
  | none ↦ none
  | some h0 ↦ elim (hexval b) [
    | none ↦ none
    | some h1 ↦ elim (hexval c) [
      | none ↦ none
      | some h2 ↦ elim (hexval d) [
        | none ↦ none
        | some h3 ↦ some (h0 * 4096 + h1 * 256 + h2 * 16 + h3)
      ]
    ]
  ]
]

-- The bytes that `append_utf8` puts into `out`.
unfoldable pub utf8 : ℕ → Bytes
utf8 cp =
    if leb cp 0x7f
    then cp ∷ []
    else if leb cp 0x7ff
    then bit_or 0xc0 (cp / 64) ∷ bit_or 0x80 (cp % 64) ∷ []
    else if leb cp 0xffff
    then bit_or 0xe0 (cp / 4096) ∷ bit_or 0x80 (cp / 64 % 64) ∷ bit_or 0x80 (cp % 64) ∷ []
    else bit_or 0xf0 (cp / 262144)
      ∷ bit_or 0x80 (cp / 4096 % 64)
      ∷ bit_or 0x80 (cp / 64 % 64)
      ∷ bit_or 0x80 (cp % 64)
      ∷ []

-- `buf`, its used length being that of `bytes`, and `cap`. A failed `xrealloc` ends the process.
pub record StringBuffer : Type 0 where
  pub bytes : Bytes
  pub cap : ℕ

-- `while (*len + n + 1 > *cap) *cap *= 2;`, on fuel.
unfoldable pub grow : ℕ → ℕ → ℕ → ℕ
grow zero need cap = cap
grow (suc fuel) need cap = let more = grow fuel need (cap * 2) in if ltb cap need then more else cap

unfoldable pub append_utf8 : StringBuffer → ℕ → StringBuffer
append_utf8 b cp =
    let out = utf8 cp in
    let need = length b.bytes + length out + 1 in
    record { bytes = b.bytes ++ out; cap = grow need need b.cap }

-- `if (len + 2 > cap) …; buf[len++] = c; buf[len] = 0;`
unfoldable pub push_byte : StringBuffer → ℕ → StringBuffer
push_byte b c = record {
  bytes = b.bytes ++ c ∷ [];
  cap = if ltb b.cap (length b.bytes + 2) then b.cap * 2 else b.cap;
}

-- What one round of the loop in `j_string` does, with the text left behind it: the closing quote,
-- a byte for `buf[len++]`, a code point for `append_utf8`, or a `break`.
pub data StringStep : Type 0 where
  closing : Bytes → StringStep
  byte : ℕ → Bytes → StringStep
  code_point : ℕ → Bytes → StringStep
  broken : Bytes → StringStep

-- A high surrogate takes the low one that follows it, if one does.
unfoldable pub surrogate_pair : ℕ → Bytes → StringStep
surrogate_pair cp (s ∷ u ∷ a ∷ b ∷ c ∷ d ∷ rest) =
    let alone = code_point cp (s ∷ u ∷ a ∷ b ∷ c ∷ d ∷ rest) in
    if s == b'\\' && u == b'u'
    then (elim (hex4 a b c d) [
      | none ↦ alone
      | some low ↦
          if within 0xdc00 0xdfff low
          then code_point (0x10000 + (cp - 0xd800) * 1024 + (low - 0xdc00)) rest
          else alone
    ])
    else alone
surrogate_pair cp rest = code_point cp rest

unfoldable pub unicode_escape : Bytes → StringStep
unicode_escape (a ∷ b ∷ c ∷ d ∷ rest) = elim (hex4 a b c d) [
  | none ↦ broken (a ∷ b ∷ c ∷ d ∷ rest)
  | some cp ↦ if within 0xd800 0xdbff cp then surrogate_pair cp rest else code_point cp rest
]
unicode_escape rest = broken rest

unfoldable pub escape : Bytes → StringStep
escape [] = broken []
escape (e ∷ rest) =
    if e == b'"' || e == b'\\' || e == b'/'
    then byte e rest
    else if e == b'b'
    then byte 8 rest
    else if e == b'f'
    then byte 12 rest
    else if e == b'n'
    then byte b'\n' rest
    else if e == b'r'
    then byte b'\r' rest
    else if e == b't'
    then byte b'\t' rest
    else if e == b'u'
    then unicode_escape rest
    else broken rest

unfoldable pub string_step : ℕ → Bytes → StringStep
string_step c rest =
    if c == b'"' then closing rest else if c == b'\\' then escape rest else byte c rest

-- How the loop ends: with the buffer returned, or behind it with the text left.
pub data StringEnd : Type 0 where
  closed : StringBuffer → Bytes → StringEnd
  invalid : Bytes → StringEnd

-- The loop on fuel; `none` means that the fuel ran out.
unfoldable pub string_loop : ℕ → StringBuffer → Bytes → Option StringEnd
string_loop zero b rest = none
string_loop (suc fuel) b [] = some (invalid [])
string_loop (suc fuel) b (c ∷ more) = elim (string_step c more) [
  | closing rest ↦ some (closed b rest)
  | byte v rest ↦ string_loop fuel (push_byte b v) rest
  | code_point cp rest ↦ string_loop fuel (append_utf8 b cp) rest
  | broken rest ↦ some (invalid rest)
]

abbrev pub fresh_buffer : StringBuffer
fresh_buffer = record { bytes = []; cap = 64 }

abbrev pub string_result : Option JError → StringEnd → Option Bytes × JParser
string_result e (closed b rest) = (some b.bytes, record { rest = rest; error = e })
string_result e (invalid rest) = (none, record { rest = rest; error = some invalid_string })

abbrev pub ended : Option JError → Option StringEnd → Option (Option Bytes × JParser)
ended e none = none
ended e (some r) = some (string_result e r)

-- NULL, with no error set, where no quote stands.
unfoldable pub opening : JParser → Bytes → Option (Option Bytes × JParser)
opening ps [] = some (none, ps)
opening ps (c ∷ rest) =
    if c == b'"'
    then ended ps.error (string_loop (suc (length rest)) fresh_buffer rest)
    else some (none, ps)

unfoldable pub j_string : JParser → Option (Option Bytes × JParser)
j_string ps = opening ps ps.rest
