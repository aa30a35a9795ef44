-- ===== src/Json/Parse/Printed.antt =====
-- Each step of the parser, at the text of one value.
use developer_dashboard.Common.{
  ℕ, suc, ◌≡◌, ◌∙◌, refl, ap, true, false, ◌∷◌, ◌++◌, Option, none, some, Bytes, IsText,
  c_string_text,
}
use developer_dashboard.Json.{
  JError, JParser, JValue, null, bool, string, array, object, Items, nil, cons, Pairs, end, pair,
  j_skip, skip_spaces, is_space,
}
use developer_dashboard.Json.Text.{j_string}
use developer_dashboard.Json.Emit.{emit_json_string}
use developer_dashboard.Json.StringRoundTrip.{j_string-emit_json_string}
use developer_dashboard.Json.Parse.{
  ◌>>=◌, separator, strip, keyword, start, expect, advance, j_value, j_array, array_loop, j_object,
  object_loop, item_separator, array_item, pair_separator, pair_value, pair_colon, as_object,
  as_array,
}
use developer_dashboard.Json.Parse.Steps.{bind_some, array_loop_cons, object_loop_cons}
use developer_dashboard.Json.Print.{print, print_items, print_pairs}

abbrev pub at : Bytes → Option JError → JParser
at s e = record { rest = s; error = e }

-- A text begins with a byte that is no space.
print_head : (v : JValue) → (c : ℕ) × (t : Bytes) × (print v ≡ c ∷ t) × (is_space c ≡ false)
unfolding print emit_json_string
print_head null = (_, _, refl, refl)
print_head (bool true) = (_, _, refl, refl)
print_head (bool false) = (_, _, refl, refl)
print_head (string s) = (_, _, refl, refl)
print_head (array nil) = (_, _, refl, refl)
print_head (array (cons v more)) = (_, _, refl, refl)
print_head (object end) = (_, _, refl, refl)
print_head (object (pair key v more)) = (_, _, refl, refl)

pub skip-print : (v : JValue) (rest : Bytes) → skip_spaces (print v ++ rest) ≡ print v ++ rest
unfolding skip_spaces
skip-print v rest = let (c, t, e, h) = print_head v in rw e (rw h)

pub skip_string :
    (s rest : Bytes) → skip_spaces (emit_json_string s ++ rest) ≡ emit_json_string s ++ rest
unfolding skip_spaces emit_json_string
skip_string s rest = refl

-- What the lemmas below say of one value, at enough fuel.
abbrev pub Back : ℕ → JValue → Type 0
Back f v =
    (rest : Bytes) (e : Option JError)
    → j_value f (at (print v ++ rest) e) ≡ some (some v, at rest e)

at_skip : (ps : JParser) → skip_spaces ps.rest ≡ ps.rest → j_skip ps ≡ ps
at_skip ps h = λ i. record { rest = h i; error = ps.error }

-- One step of each function, at the bytes that it looks at.
pub j_value_array :
    (g : ℕ) (t : Bytes) (e : Option JError)
    → j_value (suc g) (at (b'[' ∷ t) e) ≡ (j_array g (at (b'[' ∷ t) e) >>= as_array)
unfolding j_value start skip_spaces
j_value_array g t e = refl

pub j_value_object :
    (g : ℕ) (t : Bytes) (e : Option JError)
    → j_value (suc g) (at (b'{' ∷ t) e) ≡ (j_object g (at (b'{' ∷ t) e) >>= as_object)
unfolding j_value start skip_spaces
j_value_object g t e = refl

pub j_array-none :
    (g : ℕ) (s : Bytes) (e : Option JError)
    → skip_spaces s ≡ s
    → expect b']' s ≡ none
    → j_array (suc g) (at (b'[' ∷ s) e) ≡ array_loop g (at s e)
unfolding j_array advance expect skip_spaces
j_array-none g s e h x = rw h (rw x (rw h))

pub j_object-none :
    (g : ℕ) (s : Bytes) (e : Option JError)
    → skip_spaces s ≡ s
    → expect b'}' s ≡ none
    → j_object (suc g) (at (b'{' ∷ s) e) ≡ object_loop g (at s e)
unfolding j_object advance expect skip_spaces
j_object-none g s e h x = rw h (rw x (rw h))

pub array_comma :
    (loop : JParser → Option (Items × JParser)) (v : JValue) (s : Bytes) (e : Option JError)
    → skip_spaces s ≡ s
    → array_item loop (some v, at (b',' ∷ s) e) ≡ (loop (at s e) >>= λ r. some (cons v r.0, r.1))
unfolding array_item item_separator separator skip_spaces
array_comma loop v s e h = rw h

pub array-Back :
    (g : ℕ) (v : JValue) (more : Items)
    → Back g v
    → ((rest : Bytes) (e : Option JError)
        → array_item (array_loop g) (some v, at (print_items more ++ rest) e)
          ≡ some (cons v more, at rest e))
    → (rest : Bytes) (e : Option JError)
    → array_loop (suc g) (at (print v ++ (print_items more ++ rest)) e)
      ≡ some (cons v more, at rest e)
array-Back g v more one others rest e =
    let (c, t, head, _) = print_head v in
    array_loop_cons g (at (print v ++ (print_items more ++ rest)) e) {c = c}
      {more = t ++ (print_items more ++ rest)} (rw head)
    ∙ bind_some _ (one (print_items more ++ rest) e) (others rest e)

pub pair_comma :
    (loop : JParser → Option (Pairs × JParser)) (key : Bytes) (v : JValue) (s : Bytes)
    (e : Option JError)
    → pair_value loop key (some v, at (b',' ∷ s) e)
      ≡ (loop (at s e) >>= λ r. some (pair key v r.0, r.1))
unfolding pair_value pair_separator separator skip_spaces
pair_comma loop key v s e = refl

colon_value :
    (value : JParser → Option (Option JValue × JParser)) (loop : JParser → Option (Pairs × JParser))
    (key : Bytes) (s : Bytes) (e : Option JError)
    → skip_spaces s ≡ s
    → pair_colon value loop (some key, at (b':' ∷ s) e) ≡ (value (at s e) >>= pair_value loop key)
unfolding pair_colon expect skip_spaces
colon_value value loop key s e h = rw h

pub pair-Back :
    (g : ℕ) (key : Bytes) (v : JValue) (more : Pairs)
    → IsText key
    → Back g v
    → ((rest : Bytes) (e : Option JError)
        → pair_value (object_loop g) key (some v, at (print_pairs more ++ rest) e)
          ≡ some (pair key v more, at rest e))
    → (rest : Bytes) (e : Option JError)
    → object_loop
        (suc g)
        (at (emit_json_string key ++ (b':' ∷ (print v ++ (print_pairs more ++ rest)))) e)
      ≡ some (pair key v more, at rest e)
unfolding emit_json_string
pair-Back g key v more text one others rest e =
    let behind = b':' ∷ (print v ++ (print_pairs more ++ rest)) in
    let ps = at (emit_json_string key ++ behind) e in
    object_loop_cons g ps refl
    ∙ bind_some (pair_colon (j_value g) (object_loop g))
        (ap j_string (at_skip ps (skip_string key behind))
          ∙ j_string-emit_json_string key behind ps refl)
        (ap (λ k. pair_colon (j_value g) (object_loop g) (some k, at behind e))
            (c_string_text key text)
          ∙ colon_value (j_value g) (object_loop g) key _ e
              (skip-print v (print_pairs more ++ rest))
          ∙ bind_some _ (one (print_pairs more ++ rest) e) (others rest e))

pub string-Back : (s : Bytes) (f : ℕ) → IsText s → Back (suc f) (string s)
unfolding print j_value start emit_json_string skip_spaces
string-Back s f t rest e =
    bind_some _ (j_string-emit_json_string s rest (at (emit_json_string s ++ rest) e) refl)
      (ap (λ k. some (some (string k), at rest e)) (c_string_text s t))

pub word-Back : (f : ℕ) → Back (suc f) null × Back (suc f) (bool true) × Back (suc f) (bool false)
unfolding print j_value start keyword strip skip_spaces
word-Back f = (λ rest e. refl, λ rest e. refl, λ rest e. refl)

pub empty-Back : (f : ℕ) → Back (suc (suc f)) (array nil) × Back (suc (suc f)) (object end)
unfolding print j_value j_array j_object start advance expect skip_spaces
empty-Back f = (λ rest e. refl, λ rest e. refl)

pub expect_bracket : (v : JValue) (rest : Bytes) → expect b']' (print v ++ rest) ≡ none
unfolding expect print emit_json_string
expect_bracket null rest = refl
expect_bracket (bool true) rest = refl
expect_bracket (bool false) rest = refl
expect_bracket (string s) rest = refl
expect_bracket (array nil) rest = refl
expect_bracket (array (cons v more)) rest = refl
expect_bracket (object end) rest = refl
expect_bracket (object (pair key v more)) rest = refl

pub expect_brace : (s rest : Bytes) → expect b'}' (emit_json_string s ++ rest) ≡ none
unfolding expect emit_json_string
expect_brace s rest = refl

pub close_array :
    (loop : JParser → Option (Items × JParser)) (v : JValue) (rest : Bytes) (e : Option JError)
    → array_item loop (some v, at (b']' ∷ rest) e) ≡ some (cons v nil, at rest e)
unfolding array_item item_separator separator skip_spaces
close_array loop v rest e = refl

pub close_object :
    (loop : JParser → Option (Pairs × JParser)) (key : Bytes) (v : JValue) (rest : Bytes)
    (e : Option JError)
    → pair_value loop key (some v, at (b'}' ∷ rest) e) ≡ some (pair key v end, at rest e)
unfolding pair_value pair_separator separator skip_spaces
close_object loop key v rest e = refl

abbrev pub ItemsBack : ℕ → JValue → Items → Type 0
ItemsBack g v more =
    (rest : Bytes) (e : Option JError)
    → array_item (array_loop g) (some v, at (print_items more ++ rest) e)
      ≡ some (cons v more, at rest e)

abbrev pub PairsBack : ℕ → Bytes → JValue → Pairs → Type 0
PairsBack g key v more =
    (rest : Bytes) (e : Option JError)
    → pair_value (object_loop g) key (some v, at (print_pairs more ++ rest) e)
      ≡ some (pair key v more, at rest e)
