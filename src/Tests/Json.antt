-- ===== src/Tests/Json.antt =====
-- The JSON reader and writer of native/system_menu_helper_linux.c on concrete texts.
use developer_dashboard.Common.{
  ◌≡◌, refl, arith, true, inl, [], ◌∷◌, ◌++◌, Option, none, some, Bytes, codes, c_string,
}
use developer_dashboard.Json.{
  JValue, null, bool, string, array, object, nil, cons, end, pair, skip_spaces,
}
use developer_dashboard.Json.Emit.{emit_json_string, emit_body, emit_byte}
use developer_dashboard.Json.Parse.{
  j_parse, j_value, keyword, strip, separator, array_item, item_separator, pair_value,
  pair_separator, pair_colon, expect, advance, start, accept,
}
use developer_dashboard.Json.Parse.Total.{j_parse_total}
use developer_dashboard.Json.Print.{print, AllText}
use developer_dashboard.Json.StringRoundTrip.{j_string-emit_json_string}
use developer_dashboard.Json.Text.{
  utf8, j_string, string_loop, fresh_buffer, StringEnd, opening, string_step, escape,
  unicode_escape, surrogate_pair, hex4, hexval, append_utf8, push_byte, grow,
}
use developer_dashboard.Json.Text.Bounds.{Ended, string_loop-Fits}
use developer_dashboard.Json.Text.Utf8.{read_scalar, read_scalar-utf8}
use developer_dashboard.Json.Whole.{j_parse-print}

abbrev command : JValue
command = object (
    pair (codes "op") (string (codes "run"))
      (pair (codes "items") (array (cons (bool true) (cons null (cons (array nil) nil)))) end))

abbrev command_text : Bytes
command_text = codes "{\"op\":\"run\",\"items\":[true,null,[]]}"

-- `j_parse` with all that it calls open.
parsed : Bytes → Option (Option JValue)
unfolding j_parse j_value keyword strip separator array_item item_separator pair_value
    pair_separator pair_colon expect advance start accept j_string opening string_loop string_step
    escape unicode_escape surrogate_pair hex4 hexval append_utf8 push_byte grow utf8 skip_spaces
    c_string
parsed s = j_parse s

print-command : print command ≡ command_text
unfolding print emit_json_string emit_body emit_byte c_string
print-command = refl

reads_command :
    j_parse (codes " { \"op\" : \"run\" , \"items\":[ true,null, []]} \n") ≡ some (some command)
unfolding parsed
reads_command = refl

refuses :
    (parsed (codes "[true,]") ≡ some none)
    × (parsed (codes "{\"a\":1}") ≡ some none)
    × (parsed (codes "[true") ≡ some none)
    × (parsed (codes "true false") ≡ some none)
    × (parsed [] ≡ some none)
unfolding parsed
refuses = (refl, refl, refl, refl, refl)

-- U+1F600 as a surrogate pair, and a lone surrogate.
reads_pair :
    parsed (codes "\"\\uD83D\\uDE00\"") ≡ some (some (string (0xf0 ∷ 0x9f ∷ 0x98 ∷ 0x80 ∷ [])))
unfolding parsed
reads_pair = refl

j_parse-print_example : j_parse (b' ' ∷ (print command ++ (b'\n' ∷ []))) ≡ some (some command)
unfolding AllText
j_parse-print_example =
    j_parse-print command (b' ' ∷ []) (b'\n' ∷ []) (omega arith) (refl, tt) (refl, tt)

j_parse_total_example : (r : Option JValue) × (j_parse (codes "[[[[") ≡ some r)
j_parse_total_example = j_parse_total (codes "[[[[")

string_loop-Fits_example :
    (r : StringEnd) × (string_loop 5 fresh_buffer (codes "ab\"c") ≡ some r) × Ended 4 r
string_loop-Fits_example = string_loop-Fits (codes "ab\"c")

j_string-emit_json_string_example :
    j_string (record { rest = emit_json_string (codes "a\"\n") ++ codes ":"; error = none })
    ≡ some (some (codes "a\"\n"), record { rest = codes ":"; error = none })
unfolding c_string
j_string-emit_json_string_example = j_string-emit_json_string (codes "a\"\n") (codes ":") _ refl

read_scalar-utf8_example : read_scalar (utf8 0x20ac ++ codes "x") ≡ some (0x20ac, codes "x")
read_scalar-utf8_example = read_scalar-utf8 0x20ac (codes "x") (omega arith) (inl (omega arith))
