-- ===== src/Json/RoundTrip.antt =====
-- The parser reads back every value from its text.
use developer_dashboard.Common.{
  ℕ, zero, suc, ◌+◌, ◌*◌, ◌≤◌, ◌∙◌, refl, arith, true, false, ◌∷◌, ◌++◌, length, length-append,
  append_assoc, Bytes, IsText,
}
use developer_dashboard.Json.{
  JValue, null, bool, string, array, object, Items, nil, cons, Pairs, end, pair,
}
use developer_dashboard.Json.Emit.{emit_json_string}
use developer_dashboard.Json.Parse.{array_loop, object_loop, as_object, as_array}
use developer_dashboard.Json.Parse.Steps.{bind_some}
use developer_dashboard.Json.Print.{print, print_items, print_pairs, AllText, ItemsText, PairsText}
use developer_dashboard.Json.Parse.Printed.{
  skip-print, skip_string, Back, j_value_array, j_value_object, j_array-none, j_object-none,
  array_comma, array-Back, pair_comma, pair-Back, string-Back, word-Back, empty-Back,
  expect_bracket, expect_brace, close_array, close_object, ItemsBack, PairsBack,
}

array_whole :
    (g : ℕ) (v : JValue) (more : Items)
    → Back g v
    → ItemsBack g v more
    → Back (suc (suc (suc g))) (array (cons v more))
unfolding print
array_whole g v more one others rest e =
    let inner = print v ++ (print_items more ++ rest) in
    rw (append_assoc (print v) (print_items more) rest) (
      j_value_array (suc (suc g)) inner e
      ∙ bind_some as_array
          (j_array-none (suc g) inner e (skip-print v _) (expect_bracket v _)
            ∙ array-Back g v more one others rest e)
          refl)

object_whole :
    (g : ℕ) (key : Bytes) (v : JValue) (more : Pairs)
    → IsText key
    → Back g v
    → PairsBack g key v more
    → Back (suc (suc (suc g))) (object (pair key v more))
unfolding print
object_whole g key v more text one others rest e =
    let inner = emit_json_string key ++ (b':' ∷ (print v ++ (print_pairs more ++ rest))) in
    rw
      (
        append_assoc (emit_json_string key) (b':' ∷ (print v ++ print_pairs more)) rest,
        append_assoc (print v) (print_pairs more) rest,
      )
      (j_value_object (suc (suc g)) inner e
        ∙ bind_some as_object
            (j_object-none (suc g) inner e (skip_string key _) (expect_brace key _)
              ∙ pair-Back g key v more text one others rest e)
            refl)

items_more :
    (g : ℕ) (v w : JValue) (more : Items)
    → Back g w
    → ItemsBack g w more
    → ItemsBack (suc g) v (cons w more)
unfolding print_items
items_more g v w more one others rest e = rw (append_assoc (print w) (print_items more) rest) (
    array_comma (array_loop (suc g)) v _ e (skip-print w _)
    ∙ bind_some _ (array-Back g w more one others rest e) refl)

pairs_more :
    (g : ℕ) (key' : Bytes) (v : JValue) (key : Bytes) (w : JValue) (more : Pairs)
    → IsText key
    → Back g w
    → PairsBack g key w more
    → PairsBack (suc g) key' v (pair key w more)
unfolding print_pairs
pairs_more g key' v key w more text one others rest e =
    rw
      (
        append_assoc (emit_json_string key) (b':' ∷ (print w ++ print_pairs more)) rest,
        append_assoc (print w) (print_pairs more) rest,
      )
      (pair_comma (object_loop (suc g)) key' v _ e
        ∙ bind_some _ (pair-Back g key w more text one others rest e) refl)

mutual
  unfolding print print_items print_pairs AllText

  pub value-Back : (v : JValue) (f : ℕ) → AllText v → 4 * length (print v) + 2 ≤ f → Back f v
  value-Back null (suc f) t h = (word-Back f).0
  value-Back (bool true) (suc f) t h = (word-Back f).1
  value-Back (bool false) (suc f) t h = (word-Back f).2
  value-Back (string s) (suc f) t h = string-Back s f t
  value-Back (array nil) (suc (suc f)) t h = (empty-Back f).0
  value-Back (array (cons v more)) (suc (suc (suc f))) t h =
      array_whole f v more
        (value-Back v f t.0 (omega (arith, length-append (print v) (print_items more))))
        (items_back more v f t.1 (omega (arith, length-append (print v) (print_items more))))
  value-Back (object end) (suc (suc f)) t h = (empty-Back f).1
  value-Back (object (pair key v more)) (suc (suc (suc f))) t h =
      let whole = length-append (emit_json_string key) (b':' ∷ (print v ++ print_pairs more)) in
      let parts = length-append (print v) (print_pairs more) in
      object_whole f key v more t.0 (value-Back v f t.1 (omega arith))
        (pairs_back more key v f t.2 (omega arith))
  value-Back _ _ t h = absurd (omega arith)

  items_back :
      (more : Items) (v : JValue) (f : ℕ)
      → ItemsText more
      → 4 * length (print_items more) ≤ f
      → ItemsBack f v more
  items_back nil v f t h = close_array (array_loop f) v
  items_back (cons w more) v (suc f) t h =
      let parts = length-append (print w) (print_items more) in
      items_more f v w more (value-Back w f t.0 (omega arith))
        (items_back more w f t.1 (omega arith))
  items_back (cons w more) v zero t h = absurd (omega arith)

  pairs_back :
      (more : Pairs) (key : Bytes) (v : JValue) (f : ℕ)
      → PairsText more
      → 4 * length (print_pairs more) ≤ f
      → PairsBack f key v more
  pairs_back end key v f t h = close_object (object_loop f) key v
  pairs_back (pair key w more) key' v (suc f) t h =
      let whole = length-append (emit_json_string key) (b':' ∷ (print w ++ print_pairs more)) in
      let parts = length-append (print w) (print_pairs more) in
      pairs_more f key' v key w more t.0 (value-Back w f t.1 (omega arith))
        (pairs_back more key w f t.2 (omega arith))
  pairs_back (pair key w more) key' v zero t h = absurd (omega arith)
