-- ===== src/Json/Print.antt =====
-- JSON texts of the values that the parser knows, with no space between the tokens: the form in which
-- the values are compared with what is read. A string is written as `emit_json_string` writes it.
pub mod NoNul
use developer_dashboard.Common.{true, false, [], ◌∷◌, ◌++◌, Bytes, IsText}
use developer_dashboard.Json.{
  JValue, null, bool, string, array, object, Items, nil, cons, Pairs, end, pair,
}
use developer_dashboard.Json.Emit.{emit_json_string}
use developer_dashboard.Json.Parse.{true_word, false_word, null_word}

unfoldable mutual
  pub print : JValue → Bytes
  print null = null_word
  print (bool true) = true_word
  print (bool false) = false_word
  print (string s) = emit_json_string s
  print (array nil) = b'[' ∷ b']' ∷ []
  print (array (cons v more)) = b'[' ∷ (print v ++ print_items more)
  print (object end) = b'{' ∷ b'}' ∷ []
  print (object (pair key v more)) =
      b'{' ∷ (emit_json_string key ++ (b':' ∷ (print v ++ print_pairs more)))

  -- The items behind the first, and the bracket.
  pub print_items : Items → Bytes
  print_items nil = b']' ∷ []
  print_items (cons v more) = b',' ∷ (print v ++ print_items more)

  pub print_pairs : Pairs → Bytes
  print_pairs end = b'}' ∷ []
  print_pairs (pair key v more) =
      b',' ∷ (emit_json_string key ++ (b':' ∷ (print v ++ print_pairs more)))

unfoldable mutual
  pub AllText : JValue → Type 0
  AllText (string s) = IsText s
  AllText (array items) = ItemsText items
  AllText (object pairs) = PairsText pairs
  AllText _ = Unit

  pub ItemsText : Items → Type 0
  ItemsText nil = Unit
  ItemsText (cons v more) = AllText v × ItemsText more

  pub PairsText : Pairs → Type 0
  PairsText end = Unit
  PairsText (pair key v more) = IsText key × AllText v × PairsText more
