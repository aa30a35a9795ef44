-- ===== src/Json/Parse.antt =====
-- `j_array`, `j_object`, `j_value` and `j_parse` of native/system_menu_helper_linux.c, recursive on
-- fuel. A loop returns what it appends from its first round on.
pub mod Steps
pub mod Printed
pub mod Measure
pub mod Total
use developer_dashboard.Common.{
  ℕ, zero, suc, ◌+◌, ◌*◌, true, false, [], ◌∷◌, Option, none, some, ◌==◌, if◌then◌else◌, length,
  Bytes, c_string,
}
use developer_dashboard.Json.{
  invalid_array, invalid_object, unsupported_value, JParser, JValue, null, bool, string, array,
  object, Items, nil, cons, Pairs, end, pair, j_skip, fail,
}
use developer_dashboard.Json.Text.{j_string}

-- `none` means that the fuel ran out.
infixl 5 ◌>>=◌
abbrev pub ◌>>=◌ {ℓ κ} : {A : Type ℓ} {B : Type κ} → Option A → (A → Option B) → Option B
none >>= f = none
some a >>= f = f a

-- What stands behind a member, with the position behind it: a comma, the closing bracket, or
-- anything else.
pub data Separator : Type 0 where
  comma : JParser → Separator
  close : JParser → Separator
  neither : JParser → Separator

unfoldable pub separator : ℕ → JParser → Bytes → Separator
separator bracket ps [] = neither ps
separator bracket ps (c ∷ rest) =
    if c == b','
    then comma (record ps { rest = rest })
    else if c == bracket
    then close (record ps { rest = rest })
    else neither ps

-- `memcmp` of the text with a keyword; the text behind it.
unfoldable pub strip : Bytes → Bytes → Option Bytes
strip [] rest = some rest
strip (k ∷ ks) [] = none
strip (k ∷ ks) (c ∷ rest) = if k == c then strip ks rest else none

abbrev pub true_word : Bytes
true_word = b't' ∷ b'r' ∷ b'u' ∷ b'e' ∷ []

abbrev pub false_word : Bytes
false_word = b'f' ∷ b'a' ∷ b'l' ∷ b's' ∷ b'e' ∷ []

abbrev pub null_word : Bytes
null_word = b'n' ∷ b'u' ∷ b'l' ∷ b'l' ∷ []

-- `true`, `false`, `null`, or an error.
unfoldable pub keyword : JParser → Option JValue × JParser
keyword ps = elim (strip true_word ps.rest) [
  | some rest ↦ (some (bool true), record ps { rest = rest })
  | none ↦ elim (strip false_word ps.rest) [
    | some rest ↦ (some (bool false), record ps { rest = rest })
    | none ↦ elim (strip null_word ps.rest) [
      | some rest ↦ (some null, record ps { rest = rest })
      | none ↦ (none, fail unsupported_value ps)
    ]
  ]
]

-- What `j_value` sees behind the spaces.
pub data Start : Type 0 where
  at_end at_object at_array at_string at_keyword : Start

unfoldable pub start : Bytes → Start
start [] = at_end
start (c ∷ rest) =
    if c == b'{'
    then at_object
    else if c == b'['
    then at_array
    else if c == b'"'
    then at_string
    else at_keyword

-- `ps->p < ps->end && *ps->p == c`, with the text behind that byte.
unfoldable pub expect : ℕ → Bytes → Option Bytes
expect c [] = none
expect c (d ∷ rest) = if d == c then some rest else none

-- `ps->p++`
unfoldable pub advance : JParser → JParser
advance ps = elim ps.rest [ [] ↦ ps | c ∷ rest ↦ record ps { rest = rest } ]

abbrev pub value_string : Option Bytes × JParser → Option (Option JValue × JParser)
value_string (none, ps) = some (none, ps)
value_string (some s, ps) = some (some (string s), ps)

-- Behind a member of an array, given the rest of the loop.
unfoldable pub item_separator :
    (JParser → Option (Items × JParser)) → JValue → Separator → Option (Items × JParser)
item_separator loop v (comma next) = do
  (items, last) ← loop (j_skip next)
  some (cons v items, last)
item_separator loop v (close last) = some (cons v nil, last)
item_separator loop v (neither last) = some (cons v nil, fail invalid_array last)

unfoldable pub array_item :
    (JParser → Option (Items × JParser)) → Option JValue × JParser → Option (Items × JParser)
array_item loop (none, after) = some (nil, fail invalid_array after)
array_item loop (some v, after) =
    item_separator loop v (separator b']' (j_skip after) (j_skip after).rest)

-- The same behind the value of a pair: the loop itself skips the spaces behind a comma.
unfoldable pub pair_separator :
    (JParser → Option (Pairs × JParser)) → Bytes → JValue → Separator → Option (Pairs × JParser)
pair_separator loop key v (comma next) = do (pairs, last) ← loop next; some (pair key v pairs, last)
pair_separator loop key v (close last) = some (pair key v end, last)
pair_separator loop key v (neither last) = some (pair key v end, fail invalid_object last)

unfoldable pub pair_value :
    (JParser → Option (Pairs × JParser))
    → Bytes
    → Option JValue × JParser
    → Option (Pairs × JParser)
pair_value loop key (none, after) = some (end, fail invalid_object after)
pair_value loop key (some v, after) =
    pair_separator loop key v (separator b'}' (j_skip after) (j_skip after).rest)

-- Behind a key: a colon and a value, given the value's reader and the rest of the loop.
unfoldable pub pair_colon :
    (JParser → Option (Option JValue × JParser))
    → (JParser → Option (Pairs × JParser))
    → Option Bytes × JParser
    → Option (Pairs × JParser)
pair_colon value loop (none, after) = some (end, fail invalid_object after)
pair_colon value loop (some key, after) = elim (expect b':' (j_skip after).rest) [
  | none ↦ some (end, fail invalid_object (j_skip after))
  | some rest ↦ value (j_skip (record after { rest = rest })) >>= pair_value loop key
]

abbrev pub as_object : Pairs × JParser → Option (Option JValue × JParser)
as_object (pairs, after) = some (some (object pairs), after)

abbrev pub as_array : Items × JParser → Option (Option JValue × JParser)
as_array (items, after) = some (some (array items), after)

unfoldable mutual
  pub j_value : ℕ → JParser → Option (Option JValue × JParser)
  j_value zero ps = none
  j_value (suc fuel) ps = elim (start (j_skip ps).rest) [
    | at_end ↦ some (none, j_skip ps)
    | at_object ↦ j_object fuel (j_skip ps) >>= as_object
    | at_array ↦ j_array fuel (j_skip ps) >>= as_array
    | at_string ↦ j_string (j_skip ps) >>= value_string
    | at_keyword ↦ some (keyword (j_skip ps))
  ]

  pub j_array : ℕ → JParser → Option (Items × JParser)
  j_array zero ps = none
  j_array (suc fuel) ps =
      let inside = j_skip (advance ps) in
      elim (expect b']' inside.rest) [
        | some rest ↦ some (nil, record inside { rest = rest })
        | none ↦ array_loop fuel inside
      ]

  pub array_loop : ℕ → JParser → Option (Items × JParser)
  array_loop zero ps = none
  array_loop (suc fuel) ps = elim ps.rest [
    | [] ↦ some (nil, fail invalid_array ps)
    | _ ∷ _ ↦ j_value fuel ps >>= array_item (array_loop fuel)
  ]

  pub j_object : ℕ → JParser → Option (Pairs × JParser)
  j_object zero ps = none
  j_object (suc fuel) ps =
      let inside = j_skip (advance ps) in
      elim (expect b'}' inside.rest) [
        | some rest ↦ some (end, record inside { rest = rest })
        | none ↦ object_loop fuel inside
      ]

  pub object_loop : ℕ → JParser → Option (Pairs × JParser)
  object_loop zero ps = none
  object_loop (suc fuel) ps = elim ps.rest [
    | [] ↦ some (end, fail invalid_object ps)
    | _ ∷ _ ↦ j_string (j_skip ps) >>= pair_colon (j_value fuel) (object_loop fuel)
  ]

-- Rejected unless there is a value, no text behind it but spaces, and no error on the way.
unfoldable pub accept : Option JValue → JParser → Option JValue
accept none ps = none
accept (some v) ps = elim ps.rest [
  | [] ↦ elim ps.error [ none ↦ some v | some _ ↦ none ]
  | _ ∷ _ ↦ none
]

-- Four calls at most for each byte of the text.
abbrev pub fuel_for : Bytes → ℕ
fuel_for s = suc (4 * length s + 3)

unfoldable pub j_parse : Bytes → Option (Option JValue)
j_parse s = do
  let text = c_string s
  (v, after) ← j_value (fuel_for text) (record { rest = text; error = none })
  some (accept v (j_skip after))
