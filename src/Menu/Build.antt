-- ===== src/Menu/Build.antt =====
-- `item_from_json`, and what `build_root_menu` and `build_menu` set in the items.
use developer_dashboard.Common.{
  Bool, true, false, [], Option, none, some, Bytes, codes, equal, if◌then◌else◌,
}
use developer_dashboard.Json.{
  JValue, Items, Pairs, null, bool, string, array, object, nil, cons, end, pair, j_get,
  j_get_string, j_get_bool,
}
use developer_dashboard.Menu.{
  Signal, insensitive, on_activate, on_press, ItemState, Item, item, Forest, leaf, child,
}

abbrev is_some {ℓ} : {A : Type ℓ} → Option A → Bool
is_some none = false
is_some (some a) = true

-- What `xcalloc` and the four assignments give.
abbrev pub new_state : Bytes → Bytes → JValue → ItemState
new_state name icon obj = record {
  name = name;
  icon = icon;
  clickable = is_some (j_get obj (codes "click"));
  click_stay = j_get_bool obj (codes "click_stay") false;
  removed = false;
  indicator = false;
  active = false;
  widget = false;
  destroyed = false;
  signal = insensitive;
  label = [];
}

-- An item without a name or an icon is left out.
abbrev pub with_children : JValue → Forest → Option Item
with_children obj children = elim (j_get_string obj (codes "name")) [
  | none ↦ none
  | some name ↦ elim (j_get_string obj (codes "icon")) [
    | none ↦ none
    | some icon ↦ some (item (new_state name icon obj) children)
  ]
]

abbrev pub kept : Option Item → Forest → Forest
kept none rest = rest
kept (some i) rest = child i rest

-- `j_get(obj, "menu")` is the first member of that name; its items are built where it is an array.
unfoldable mutual
  pub item_from_json : JValue → Option Item
  item_from_json (object pairs) = with_children (object pairs) (menu_of pairs)
  item_from_json null = none
  item_from_json (bool b) = none
  item_from_json (string s) = none
  item_from_json (array items) = none

  pub menu_of : Pairs → Forest
  menu_of end = leaf
  menu_of (pair key value rest) =
      let here = items_of value in
      let later = menu_of rest in if equal key (codes "menu") then here else later

  pub items_of : JValue → Forest
  items_of (array items) = forest_from_json items
  items_of null = leaf
  items_of (bool b) = leaf
  items_of (string s) = leaf
  items_of (object pairs) = leaf

  pub forest_from_json : Items → Forest
  forest_from_json nil = leaf
  forest_from_json (cons value rest) = kept (item_from_json value) (forest_from_json rest)

abbrev is_leaf : Forest → Bool
is_leaf leaf = true
is_leaf (child i rest) = false

abbrev pub leaf_signal : ItemState → Signal
leaf_signal s =
    if s.clickable then (if s.click_stay then on_press else on_activate) else insensitive

abbrev pub entry_of : ItemState → Signal → ItemState
entry_of s signal = record s { widget = true; signal = signal; label = s.icon }

unfoldable mutual
  -- `build_menu` on the children of an owner.
  pub build_menu : Forest → Forest
  build_menu leaf = leaf
  build_menu (child i rest) = child (build_entry i) (build_menu rest)

  pub build_entry : Item → Item
  build_entry (item s leaf) = item (entry_of s (leaf_signal s)) leaf
  build_entry (item s (child i rest)) = item (entry_of s insensitive) (build_menu (child i rest))

unfoldable pub build_root_menu : Item → Item
build_root_menu (item s leaf) =
    item (entry_of s (if s.clickable then on_activate else insensitive)) leaf
build_root_menu (item s (child i rest)) = item s (build_menu (child i rest))
