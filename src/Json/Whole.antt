-- ===== src/Json/Whole.antt =====
-- `j_parse` on the text of a value, with blanks around it.
use developer_dashboard.Common.{
  ℕ, suc, ◌+◌, ◌*◌, ◌≡◌, ◌∙◌, refl, arith, true, [], ◌∷◌, ◌++◌, Option, none, some, length,
  length-append, Bytes, All, IsText, IsText-append, c_string_text,
}
use developer_dashboard.Json.{JError, JParser, JValue, is_space, skip_spaces}
use developer_dashboard.Json.Text.{j_string}
use developer_dashboard.Json.Parse.{
  j_object, j_array, as_object, as_array, value_string, ◌>>=◌, at_end, at_object, at_array,
  at_string, at_keyword, start, keyword, j_value, accept, j_parse,
}
use developer_dashboard.Json.Parse.Steps.{bind_some}
use developer_dashboard.Json.Print.{print, AllText}
use developer_dashboard.Json.Print.NoNul.{print-IsText}
use developer_dashboard.Json.Parse.Printed.{at}
use developer_dashboard.Json.RoundTrip.{value-Back}

abbrev pub IsBlank : Bytes → Type 0
IsBlank = All λ c. is_space c ≡ true

skip-append : (b s : Bytes) → IsBlank b → skip_spaces (b ++ s) ≡ skip_spaces s
unfolding skip_spaces
skip-append [] s h = refl
skip-append (c ∷ b) s h = rw (h.0) (skip-append b s h.1)

skip-blank : (b : Bytes) → IsBlank b → skip_spaces b ≡ []
unfolding skip_spaces
skip-blank [] h = refl
skip-blank (c ∷ b) h = rw (h.0) (skip-blank b h.1)

blank-IsText : (b : Bytes) → IsBlank b → IsText b
blank-IsText [] h = tt
blank-IsText (c ∷ b) h = (ground (arith, h.0), ground (arith, h.0), blank-IsText b h.1)

-- `j_value` sees nothing of the blanks in front.
j_value-blank :
    (f : ℕ) (b s : Bytes) (e : Option JError)
    → skip_spaces b ≡ skip_spaces s
    → j_value (suc f) (at b e) ≡ j_value (suc f) (at s e)
unfolding j_value
j_value-blank f b s e h = λ i. elim (start (h i)) as (λ x. Option (Option JValue × JParser)) [
  | at_end ↦ some (none, at (h i) e)
  | at_object ↦ j_object f (at (h i) e) >>= as_object
  | at_array ↦ j_array f (at (h i) e) >>= as_array
  | at_string ↦ j_string (at (h i) e) >>= value_string
  | at_keyword ↦ some (keyword (at (h i) e))
]

-- `j_parse` gives back every value whose strings are C strings from its text, whatever blanks stand
-- in front of the text and behind it.
pub j_parse-print :
    (v : JValue) (before after : Bytes)
    → AllText v
    → IsBlank before
    → IsBlank after
    → j_parse (before ++ (print v ++ after)) ≡ some (some v)
unfolding j_parse accept
j_parse-print v before after t b a =
    let whole = before ++ (print v ++ after) in
    let text : IsText whole =
      IsText-append before _ (blank-IsText before b)
        (IsText-append (print v) after (print-IsText v t) (blank-IsText after a)) in
    let longer = length-append before (print v ++ after) in
    let long = length-append (print v) after in
    let read =
      j_value-blank (4 * length whole + 3) whole (print v ++ after) none
        (skip-append before (print v ++ after) b)
      ∙ value-Back v (suc (4 * length whole + 3)) t (omega arith) after none in
    rw (c_string_text whole text) (bind_some _ read (rw (skip-blank after a)))
