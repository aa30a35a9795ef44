-- ===== src/Json.antt =====
-- The JSON reader and writer of native/system_menu_helper_linux.c: the parse position, the values,
-- and, in the children, the strings, the parser, the emitter and what is proved of them.
pub mod Text
pub mod Parse
pub mod Emit
pub mod StringRoundTrip
pub mod Print
pub mod RoundTrip
pub mod Whole
use developer_dashboard.Common.{
  ℕ, Bool, true, false, ◌||◌, List, [], ◌∷◌, ◌++◌, Option, none, some, ◌==◌, if◌then◌else◌, Bytes,
  equal, c_string,
}

-- The four texts that `ps->error` can point at.
pub data JError : Type 0 where
  invalid_string invalid_array invalid_object unsupported_value : JError

-- `rest` is the text from `p` up to `end`.
pub record JParser : Type 0 where
  pub rest : Bytes
  pub error : Option JError

mutual
  pub data JValue : Type 0 where
    null : JValue
    bool : Bool → JValue
    string : Bytes → JValue
    array : Items → JValue
    object : Pairs → JValue

  pub data Items : Type 0 where
    nil : Items
    cons : JValue → Items → Items

  pub data Pairs : Type 0 where
    end : Pairs
    pair : Bytes → JValue → Pairs → Pairs

abbrev pub is_space : ℕ → Bool
is_space c = c == b' ' || c == b'\t' || c == b'\r' || c == b'\n'

unfoldable pub skip_spaces : Bytes → Bytes
skip_spaces [] = []
skip_spaces (c ∷ rest) = if is_space c then skip_spaces rest else c ∷ rest

abbrev pub j_skip : JParser → JParser
j_skip ps = record ps { rest = skip_spaces ps.rest }

abbrev pub fail : JError → JParser → JParser
fail e ps = record ps { error = some e }

-- `j_get` on the pairs of an object: the first pair with that key, compared by `strcmp`.
unfoldable pub find_pair : Pairs → Bytes → Option JValue
find_pair end key = none
find_pair (pair k v rest) key = if equal (c_string k) key then some v else find_pair rest key

unfoldable pub j_get : JValue → Bytes → Option JValue
unfolding find_pair
j_get (object pairs) key = find_pair pairs key
j_get _ key = none

abbrev pub as_string : Option JValue → Option Bytes
as_string (some (string s)) = some (c_string s)
as_string _ = none

abbrev pub as_bool : Bool → Option JValue → Bool
as_bool def (some (bool b)) = b
as_bool def _ = def

unfoldable pub j_get_string : JValue → Bytes → Option Bytes
unfolding j_get
j_get_string obj key = as_string (j_get obj key)

unfoldable pub j_get_bool : JValue → Bytes → Bool → Bool
unfolding j_get
j_get_bool obj key def = as_bool def (j_get obj key)
