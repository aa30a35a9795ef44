-- ===== src/Json/Print/NoNul.antt =====
-- A printed text is a C string: it holds no NUL.
use developer_dashboard.Common.{
  ℕ, ◌<◌, arith, true, false, [], ◌∷◌, Bytes, IsText, IsText-append, c_string, c_string_text,
}
use developer_dashboard.Json.{
  JValue, null, bool, string, array, object, Items, nil, cons, Pairs, end, pair,
}
use developer_dashboard.Json.Emit.{emit_byte, emit_body, emit_json_string}
use developer_dashboard.Json.Print.{print, print_items, print_pairs, AllText, ItemsText, PairsText}

emit_byte-IsText : (c : ℕ) → 0 < c → c < 256 → IsText (emit_byte c)
unfolding emit_byte
emit_byte-IsText c pos h = ground arith

emit_body-IsText : (s : Bytes) → IsText s → IsText (emit_body s)
unfolding emit_body
emit_body-IsText [] t = tt
emit_body-IsText (c ∷ cs) t =
    IsText-append (emit_byte c) (emit_body cs) (emit_byte-IsText c t.0 t.1)
      (emit_body-IsText cs t.2)

pub emit_json_string-IsText : (s : Bytes) → IsText s → IsText (emit_json_string s)
unfolding emit_json_string
emit_json_string-IsText s t = (
  omega arith,
  omega arith,
  IsText-append (emit_body (c_string s)) (b'"' ∷ []) (rw (c_string_text s t) (emit_body-IsText s t))
      (omega arith),
)

mutual
  unfolding print print_items print_pairs AllText

  pub print-IsText : (v : JValue) → AllText v → IsText (print v)
  print-IsText null t = omega arith
  print-IsText (bool true) t = omega arith
  print-IsText (bool false) t = omega arith
  print-IsText (string s) t = emit_json_string-IsText s t
  print-IsText (array nil) t = omega arith
  print-IsText (array (cons v more)) t = (
    omega arith,
    omega arith,
    IsText-append (print v) _ (print-IsText v t.0) (print_items-IsText more t.1),
  )
  print-IsText (object end) t = omega arith
  print-IsText (object (pair key v more)) t = (
    omega arith,
    omega arith,
    IsText-append (emit_json_string key) _ (emit_json_string-IsText key t.0) (
      omega arith,
      omega arith,
      IsText-append (print v) _ (print-IsText v t.1) (print_pairs-IsText more t.2),
    ),
  )

  print_items-IsText : (more : Items) → ItemsText more → IsText (print_items more)
  print_items-IsText nil t = omega arith
  print_items-IsText (cons v more) t = (
    omega arith,
    omega arith,
    IsText-append (print v) _ (print-IsText v t.0) (print_items-IsText more t.1),
  )

  print_pairs-IsText : (more : Pairs) → PairsText more → IsText (print_pairs more)
  print_pairs-IsText end t = omega arith
  print_pairs-IsText (pair key v more) t = (
    omega arith,
    omega arith,
    IsText-append (emit_json_string key) _ (emit_json_string-IsText key t.0) (
      omega arith,
      omega arith,
      IsText-append (print v) _ (print-IsText v t.1) (print_pairs-IsText more t.2),
    ),
  )
