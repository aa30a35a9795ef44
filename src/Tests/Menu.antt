-- ===== src/Tests/Menu.antt =====
-- A menu that is installed, changed and clicked.
use developer_dashboard.Common.{
  ◌≡◌, refl, arith, Bool, true, false, List, [], ◌∷◌, some, codes, Bytes, equal, c_string,
}
use developer_dashboard.Json.{
  JValue, find_pair, j_get, j_get_string, j_get_bool, Items, nil, cons, pair, end, string, object,
  array, bool,
}
use developer_dashboard.Json.Parse.{j_parse}
use developer_dashboard.Menu.{insensitive, on_activate, ItemState, item, Forest, leaf, child}
use developer_dashboard.Menu.Find.{
  find_item, at_pointer, forest_at, find_item_rec, change_item, change_at,
}
use developer_dashboard.Menu.Find.Laws.{first_named, all_items, at_pointer-find_item}
use developer_dashboard.Menu.Build.{item_from_json, build_menu, build_root_menu}
use developer_dashboard.Menu.Click.{emit_click, click_event, j_parse-emit_click}
use developer_dashboard.Menu.Command.{
  Menu, Publish, shows, exits, Handled, left, exited, unread, install_exits, handle_value,
  handle_op, install_roots, install_items, set_item_icon, remove_item, item_mark_removed,
  destroy_item,
}

abbrev shown : Publish
shown n icon = shows

-- No icon can be saved.
abbrev unsaved : Publish
unsaved n icon = exits

-- What a command leaves; a menu without roots, where it leaves none.
abbrev menu_after : Handled Menu → Menu
menu_after (left m) = m
menu_after exited = record { roots = leaf; running = false }
menu_after unread = record { roots = leaf; running = false }

abbrev always : Bytes → Bool
always s = true

abbrev entry : Bytes → Bool → Items → JValue
entry name click menu = object (
    pair (codes "name") (string name) (
      pair (codes "icon") (string (codes "*"))
        (pair (codes "click") (bool click) (pair (codes "menu") (array menu) end))))

abbrev run_command : JValue
run_command = object (
    pair (codes "op") (string (codes "run")) (
      pair (codes "items")
        (array (cons (entry (codes "top") false (cons (entry (codes "sub") true nil) nil)) nil))
        end))

abbrev named_command : Bytes → Bytes → JValue
named_command op name = object (
    pair (codes "op") (string op)
      (pair (codes "name") (string name) (pair (codes "icon") (string (codes "!")) end)))

abbrev empty_menu : Menu
empty_menu = record { roots = leaf; running = true }

installed_menu : Menu
unfolding handle_value handle_op equal j_get j_get_string j_get_bool find_pair install_roots
    install_items install_exits item_from_json build_menu build_root_menu c_string
installed_menu = menu_after (handle_value shown always (some run_command) empty_menu)

changed_menu : Bytes → Bytes → Menu
unfolding handle_value handle_op equal j_get j_get_string find_pair c_string find_item_rec find_item
    at_pointer forest_at change_at change_item set_item_icon remove_item item_mark_removed
    destroy_item installed_menu
changed_menu op name =
    menu_after (handle_value shown always (some (named_command op name)) installed_menu)

abbrev sub_state : ItemState
sub_state = record {
  name = codes "sub";
  icon = codes "*";
  clickable = true;
  click_stay = false;
  removed = false;
  indicator = false;
  active = false;
  widget = true;
  destroyed = false;
  signal = on_activate;
  label = codes "*";
}

abbrev top_state : ItemState
top_state = record sub_state {
  name = codes "top";
  indicator = true;
  active = true;
  widget = false;
  signal = insensitive;
}

abbrev tree : ItemState → ItemState → Forest
tree top sub = child (item top (child (item sub leaf) leaf)) leaf

installs : installed_menu.roots ≡ tree top_state sub_state
unfolding installed_menu
installs = refl

sets_icon :
    (changed_menu (codes "icon") (codes "sub")).roots
    ≡ tree top_state (record sub_state { icon = codes "!"; label = codes "!" })
unfolding changed_menu
sets_icon = refl

removes :
    (changed_menu (codes "remove") (codes "sub")).roots
    ≡ tree top_state (record sub_state { removed = true; widget = false; destroyed = true })
unfolding changed_menu
removes = refl

-- The process ends at the first root.
exits_at_root : handle_value unsaved always (some run_command) empty_menu ≡ exited
unfolding handle_value handle_op equal j_get j_get_string j_get_bool find_pair install_roots
    install_items install_exits item_from_json build_menu build_root_menu c_string
exits_at_root = refl

abbrev lines : List (Publish × Bytes)
lines = (unsaved, codes "{\"op\":\"run\",\"items\":[]}") ∷ (shown, codes "{\"op\":\"stop\"}") ∷ []

at_pointer-find_item_example :
    at_pointer (find_item (codes "sub") (tree top_state sub_state)) (tree top_state sub_state)
    ≡ first_named (codes "sub") (all_items (tree top_state sub_state))
at_pointer-find_item_example = at_pointer-find_item (codes "sub") (tree top_state sub_state)

j_parse-emit_click_example :
    j_parse (emit_click (item sub_state leaf)) ≡ some (some (click_event (codes "sub")))
j_parse-emit_click_example =
    j_parse-emit_click sub_state leaf refl
      (omega arith, omega arith, (omega arith, omega arith, (omega arith, omega arith, tt)))
