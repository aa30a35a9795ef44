-- ===== src/Menu/Find.antt =====
-- `find_item`, and the access through the pointer that it gives.
pub mod Laws
use developer_dashboard.Common.{
  ℕ, zero, suc, Bool, true, false, List, [], ◌∷◌, Option, none, some, Bytes, equal, if◌then◌else◌,
}
use developer_dashboard.Menu.{ItemState, Item, item, Forest, leaf, child}

abbrev pub Pointer : Type 0
Pointer = List ℕ

-- The pointer from one place further to the left.
abbrev pub next_sibling : Option Pointer → Option Pointer
next_sibling none = none
next_sibling (some []) = none
next_sibling (some (i ∷ path)) = some (suc i ∷ path)

abbrev pub or_else : Option Pointer → Option Pointer → Option Pointer
or_else none other = other
or_else (some path) other = some path

abbrev pub first_child : Option Pointer → Option Pointer
first_child none = none
first_child (some path) = some (zero ∷ path)

unfoldable mutual
  -- From the item itself: the empty path is the item.
  pub find_item_rec : Bytes → Item → Option Pointer
  find_item_rec name (item s children) =
      let below = find_in_children name children in if equal s.name name then some [] else below

  -- The loops over the children and over the roots.
  pub find_in_children : Bytes → Forest → Option Pointer
  find_in_children name leaf = none
  find_in_children name (child i rest) =
      or_else (first_child (find_item_rec name i)) (next_sibling (find_in_children name rest))

unfoldable pub find_item : Bytes → Forest → Option Pointer
find_item name roots = find_in_children name roots

unfoldable mutual
  -- What stands at a pointer, and a change there.
  pub item_at : Pointer → Item → Option Item
  item_at [] i = some i
  item_at (n ∷ path) (item s children) = forest_at n path children

  pub forest_at : ℕ → Pointer → Forest → Option Item
  forest_at n path leaf = none
  forest_at zero path (child i rest) = item_at path i
  forest_at (suc n) path (child i rest) = forest_at n path rest

unfoldable mutual
  pub change_item : (Item → Item) → Pointer → Item → Item
  change_item f [] i = f i
  change_item f (n ∷ path) (item s children) = item s (change_forest f n path children)

  pub change_forest : (Item → Item) → ℕ → Pointer → Forest → Forest
  change_forest f n path leaf = leaf
  change_forest f zero path (child i rest) = child (change_item f path i) rest
  change_forest f (suc n) path (child i rest) = child i (change_forest f n path rest)

-- `NULL` is no pointer: the change is not made.
unfoldable pub change_at : (Item → Item) → Option Pointer → Forest → Forest
change_at f none roots = roots
change_at f (some []) roots = roots
change_at f (some (n ∷ path)) roots = change_forest f n path roots

unfoldable pub at_pointer : Option Pointer → Forest → Option Item
at_pointer none roots = none
at_pointer (some []) roots = none
at_pointer (some (n ∷ path)) roots = forest_at n path roots
