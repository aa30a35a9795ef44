-- ===== src/Menu/Command.antt =====
-- `install_roots`, `set_item_icon`, `remove_item` and `handle_command`.
pub mod Sound
use developer_dashboard.Common.{
  ℕ, ◌+◌, ◌&&◌, ◌||◌, not, Bool, true, false, List, [], ◌∷◌, Option, none, some, Bytes, codes,
  equal, if◌then◌else◌,
}
use developer_dashboard.Json.{
  JValue, Items, null, bool, string, array, object, nil, cons, j_get, j_get_string,
}
use developer_dashboard.Json.Parse.{j_parse}
use developer_dashboard.Menu.{ItemState, Item, item, Forest, leaf, child}
use developer_dashboard.Menu.Find.{Pointer, at_pointer, find_item, change_at}
use developer_dashboard.Menu.Build.{item_from_json, build_root_menu}

-- `running` ends with `gtk_main_quit`.
pub record Menu : Type 0 where
  pub roots : Forest
  pub running : Bool

-- Every item of the subtree is marked.
unfoldable mutual
  pub item_mark_removed : Item → Item
  item_mark_removed (item s children) =
      item (record s { removed = true }) (forest_mark_removed children)

  pub forest_mark_removed : Forest → Forest
  forest_mark_removed leaf = leaf
  forest_mark_removed (child i rest) = child (item_mark_removed i) (forest_mark_removed rest)

-- `gtk_widget_destroy` of an entry destroys its submenu with it.
unfoldable mutual
  pub destroy_item : Item → Item
  destroy_item (item s children) = item (record s { destroyed = true }) (destroy_forest children)

  pub destroy_forest : Forest → Forest
  destroy_forest leaf = leaf
  destroy_forest (child i rest) = child (destroy_item i) (destroy_forest rest)

abbrev pub forget_widget : Item → Item
forget_widget (item s children) = item (record s { widget = false }) children

abbrev pub passive : Item → Item
passive (item s children) = item (record s { active = false }) children

unfoldable pub remove_item : Item → Item
remove_item (item s children) =
    if s.removed
    then item s children
    else if s.indicator
    then passive (item_mark_removed (item s children))
    else if s.widget
    then forget_widget (destroy_item (item_mark_removed (item s children)))
    else item_mark_removed (item s children)

-- How `update_status_icon` ends for a text: its image is shown, there is no image and the indicator
-- stays as it is, or the process ends with `exit(2)`, as it does where there is no directory for the
-- image or it cannot be saved.
pub data Published : Type 0 where
  shows keeps exits : Published

-- How the calls of it that one command makes end: by the place in its items, and the text.
abbrev pub Publish : Type 0
Publish = ℕ → Bytes → Published

abbrev pub is_exits : Published → Bool
is_exits exits = true
is_exits _ = false

abbrev pub label_after : Published → Bytes → Bytes → Bytes
label_after shows icon label = icon
label_after _ icon label = label

-- What a command leaves, the end of the process, or a reader that runs out of fuel.
pub data Handled (A : Type 0) : Type 0 where
  left : A → Handled A
  exited unread : Handled A

abbrev pub name_of : Item → Bytes
name_of (item s children) = s.name

abbrev pub icon_of : Item → Bytes
icon_of (item s children) = s.icon

module _ (publish : Publish) where
  unfoldable pub set_item_icon : Bytes → Item → Item
  set_item_icon icon (item s children) =
      if s.removed
      then item s children
      else item
          (record s {
            icon = icon;
            label =
                if s.indicator
                then label_after (publish 0 icon) icon s.label
                else if s.widget
                then icon
                else s.label;
          })
          children

  -- Whether the process ends in it.
  abbrev pub icon_exits : Bytes → Option Item → Bool
  icon_exits icon none = false
  icon_exits icon (some (item s children)) =
      not s.removed && s.indicator && is_exits (publish 0 icon)

  abbrev pub with_indicator : ℕ → Item → Item
  with_indicator n (item s children) =
      item
        (record s {
          indicator = true;
          active = true;
          label = label_after (publish n s.icon) s.icon s.label;
        })
        children

-- `indicator_made` says whether an indicator can be made for a root of that name.
module _ (publish : Publish) (indicator_made : Bytes → Bool) where
  -- A root whose indicator cannot be made is freed.
  abbrev pub installed : ℕ → Option Item → Forest → Forest
  installed n none rest = rest
  installed n (some root) rest =
      if indicator_made (name_of root)
      then child (with_indicator publish n (build_root_menu root)) rest
      else rest

  unfoldable pub install_items : ℕ → Items → Forest
  install_items n nil = leaf
  install_items n (cons value rest) =
      installed n (item_from_json value) (install_items (n + 1) rest)

  abbrev pub root_exits : ℕ → Option Item → Bool
  root_exits n none = false
  root_exits n (some root) = indicator_made (name_of root) && is_exits (publish n (icon_of root))

  -- Whether the process ends at one of the roots.
  unfoldable pub install_exits : ℕ → Items → Bool
  install_exits n nil = false
  install_exits n (cons value rest) =
      root_exits n (item_from_json value) || install_exits (n + 1) rest

  -- `clear_roots` first; what is no array leaves no roots.
  unfoldable pub install_roots : Option JValue → Handled Forest
  install_roots (some (array items)) =
      if install_exits 0 items then exited else left (install_items 0 items)
  install_roots _ = left leaf

  abbrev pub with_roots : Menu → Handled Forest → Handled Menu
  with_roots m (left roots) = left (record m { roots = roots })
  with_roots m exited = exited
  with_roots m unread = unread

  -- `set_item_icon` at what `find_item` gives.
  abbrev pub set_icon_at : Bytes → Option Pointer → Menu → Handled Menu
  set_icon_at icon p m =
      if icon_exits publish icon (at_pointer p m.roots)
      then exited
      else left (record m { roots = change_at (set_item_icon publish icon) p m.roots })

  -- A command that is an object with an `op`.
  unfoldable pub handle_op : Bytes → JValue → Menu → Handled Menu
  handle_op op cmd m =
      if equal op (codes "run")
      then with_roots m (install_roots (j_get cmd (codes "items")))
      else if equal op (codes "icon")
      then (elim (j_get_string cmd (codes "name")) [
        | none ↦ left m
        | some name ↦ elim (j_get_string cmd (codes "icon")) [
          | none ↦ left m
          | some icon ↦ set_icon_at icon (find_item name m.roots) m
        ]
      ])
      else if equal op (codes "remove")
      then (elim (j_get_string cmd (codes "name")) [
        | none ↦ left m
        | some name ↦
            left (record m { roots = change_at remove_item (find_item name m.roots) m.roots })
      ])
      else if equal op (codes "stop")
      then left (record { roots = leaf; running = false })
      else left m

  unfoldable pub handle_value : Option JValue → Menu → Handled Menu
  handle_value (some (object pairs)) m = elim (j_get_string (object pairs) (codes "op")) [
    | none ↦ left m
    | some op ↦ handle_op op (object pairs) m
  ]
  handle_value _ m = left m

  abbrev pub handled : Option (Option JValue) → Menu → Handled Menu
  handled none m = unread
  handled (some cmd) m = handle_value cmd m

  unfoldable pub handle_command : Bytes → Menu → Handled Menu
  handle_command line m = handled (j_parse line) m

module _ (indicator_made : Bytes → Bool) where
  abbrev pub handle_next : Publish → Bytes → Handled Menu → Handled Menu
  handle_next publish line (left m) = handle_command publish indicator_made line m
  handle_next publish line exited = exited
  handle_next publish line unread = unread

  -- The lines that `on_stdin_ready` hands on, one after the other.
  unfoldable pub handle_commands : List (Publish × Bytes) → Handled Menu → Handled Menu
  handle_commands [] r = r
  handle_commands ((publish, line) ∷ lines) r = handle_commands lines (handle_next publish line r)
