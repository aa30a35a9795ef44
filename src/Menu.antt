-- ===== src/Menu.antt =====
-- The item model of native/system_menu_helper_linux.c: a tree of items for each root, changed by
-- commands that are lines of JSON. A pointer to an item is the path to it: the number of the root, then
-- the number of a child at each level.
pub mod Find
pub mod Icons
pub mod Input
pub mod Write
pub mod Build
pub mod Click
pub mod Command
use developer_dashboard.Common.{
  ℕ, zero, suc, ◌+◌, Bool, true, false, List, [], ◌∷◌, Option, none, some, Bytes,
}

-- What a click on an item's entry of the menu calls, if anything.
pub data Signal : Type 0 where
  insensitive on_activate on_press : Signal

-- The fields of `DDItem` but for its parent and its children. `indicator` says whether it is a root
-- with an indicator and `active` whether that is shown; `widget` says whether `menu_item` is not NULL and
-- `destroyed` whether GTK has destroyed what it points to; `label` is what the indicator or the menu
-- shows.
pub record ItemState : Type 0 where
  pub name : Bytes
  pub icon : Bytes
  pub clickable : Bool
  pub click_stay : Bool
  pub removed : Bool
  pub indicator : Bool
  pub active : Bool
  pub widget : Bool
  pub destroyed : Bool
  pub signal : Signal
  pub label : Bytes

mutual
  pub data Item : Type 0 where
    item : ItemState → Forest → Item

  pub data Forest : Type 0 where
    leaf : Forest
    child : Item → Forest → Forest
