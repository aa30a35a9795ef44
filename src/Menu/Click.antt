-- ===== src/Menu/Click.antt =====
-- `emit_click` and the two callbacks that call it: a click is one line of JSON.
use developer_dashboard.Common.{
  ℕ, Bool, true, false, ◌≡◌, ◌∙◌, refl, ap, arith, [], ◌∷◌, ◌++◌, Option, none, some, Bytes, codes,
  IsText, ◌==◌, if◌then◌else◌, append_assoc, sym, c_string, ltb, ◌&&◌,
}
use developer_dashboard.Json.{JValue, string, object, end, pair}
use developer_dashboard.Json.Emit.{emit_json_string, emit_body, emit_byte}
use developer_dashboard.Json.Parse.{j_parse}
use developer_dashboard.Json.Print.{print, AllText}
use developer_dashboard.Json.Whole.{j_parse-print}
use developer_dashboard.Menu.{ItemState, Item, item, Forest}

unfoldable pub emit_click : Item → Bytes
emit_click (item s children) =
    if s.removed
    then []
    else codes "{\"event\":\"click\",\"name\":" ++ (emit_json_string s.name ++ codes "}\n")

unfoldable pub on_menu_activate : Item → Bytes
on_menu_activate i = emit_click i

-- Whether the press is handled, so that the menu stays.
unfoldable pub on_stay_button_press : Option ℕ → Item → Bool × Bytes
on_stay_button_press none i = (false, [])
on_stay_button_press (some button) i = if button == 1 then (true, emit_click i) else (false, [])

abbrev pub click_event : Bytes → JValue
click_event name =
    object (pair (codes "event") (string (codes "click")) (pair (codes "name") (string name) end))

abbrev all_text : Bytes → Bool
all_text [] = true
all_text (c ∷ s) = ltb 0 c && ltb c 256 && all_text s

-- A constant text holds no NUL.
text_lem : (s : Bytes) → all_text s ≡ true → IsText s
text_lem [] h = tt
text_lem (c ∷ s) h = (ground (arith, h), ground (arith, h), text_lem s (ground (arith, h)))

emit_click-print :
    (s : ItemState) (children : Forest)
    → s.removed ≡ false
    → emit_click (item s children) ≡ print (click_event s.name) ++ (b'\n' ∷ [])
unfolding emit_click print emit_body emit_byte c_string emit_json_string
emit_click-print s children h = rw h (
    ap (λ t. codes "{\"event\":\"click\",\"name\":" ++ t)
      (sym (append_assoc (emit_json_string s.name) (b'}' ∷ []) (b'\n' ∷ []))))

-- The line that a click on an item emits is read back, by the JSON reader, as an object that says that
-- it is a click and names the item, for an item that is not removed and a name that is a C string.
pub j_parse-emit_click :
    (s : ItemState) (children : Forest)
    → s.removed ≡ false
    → IsText s.name
    → j_parse (emit_click (item s children)) ≡ some (some (click_event s.name))
unfolding AllText
j_parse-emit_click s children h t =
    ap j_parse (emit_click-print s children h)
    ∙ j_parse-print (click_event s.name) [] (b'\n' ∷ [])
        (
          text_lem (codes "event") refl,
          text_lem (codes "click") refl,
          (text_lem (codes "name") refl, t, tt),
        )
        tt (refl, tt)
