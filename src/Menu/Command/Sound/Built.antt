-- ===== src/Menu/Command/Sound/Built.antt =====
-- Items that are built from JSON are fresh, and so they are sound.
use developer_dashboard.Common.{
  ℕ, ◌+◌, refl, arith, Bool, Option, none, some, Bytes, codes, equal, if_both, option_both,
}
use developer_dashboard.Json.{
  JValue, Items, Pairs, null, bool, string, array, object, nil, cons, end, pair, j_get_string,
}
use developer_dashboard.Menu.{Item, item, Forest, leaf, child}
use developer_dashboard.Menu.Build.{
  item_from_json, menu_of, items_of, forest_from_json, build_menu, build_entry, build_root_menu,
  with_children, kept,
}
use developer_dashboard.Menu.Command.{Publish, install_items, with_indicator, installed, name_of}
use developer_dashboard.Menu.Command.Sound.{IsSound, AreSound, IsFresh, AreFresh}

mutual
  unfolding IsFresh IsSound

  fresh-IsSound : (i : Item) → IsFresh i → IsSound i
  fresh-IsSound (item s children) f = (
    λ e. absurd (ground (arith, e, f.1)),
    λ e. absurd (ground (arith, e, f.0)),
    fresh-AreSound children f.2,
  )

  fresh-AreSound : (f : Forest) → AreFresh f → AreSound f
  fresh-AreSound leaf f = tt
  fresh-AreSound (child i rest) f = (fresh-IsSound i f.0, fresh-AreSound rest f.1)

abbrev MayBeFresh : Option Item → Type 0
MayBeFresh none = Unit
MayBeFresh (some i) = IsFresh i

kept-AreFresh :
    (o : Option Item) (rest : Forest) → MayBeFresh o → AreFresh rest → AreFresh (kept o rest)
unfolding IsFresh
kept-AreFresh none rest h g = g
kept-AreFresh (some i) rest h g = (h, g)

with_children-MayBeFresh :
    (obj : JValue) (children : Forest) → AreFresh children → MayBeFresh (with_children obj children)
unfolding IsFresh
with_children-MayBeFresh obj children f =
    option_both MayBeFresh (j_get_string obj (codes "name")) _ _ tt (λ name.
      option_both MayBeFresh (j_get_string obj (codes "icon")) _ _ tt (λ icon. (refl, refl, f)))

mutual
  unfolding item_from_json IsFresh

  json-MayBeFresh : (v : JValue) → MayBeFresh (item_from_json v)
  json-MayBeFresh (object pairs) =
      with_children-MayBeFresh (object pairs) (menu_of pairs) (menu-AreFresh pairs)
  json-MayBeFresh null = tt
  json-MayBeFresh (bool b) = tt
  json-MayBeFresh (string t) = tt
  json-MayBeFresh (array items) = tt

  menu-AreFresh : (pairs : Pairs) → AreFresh (menu_of pairs)
  menu-AreFresh end = tt
  menu-AreFresh (pair key value rest) =
      if_both AreFresh (equal key (codes "menu")) _ _ (items-AreFresh value) (menu-AreFresh rest)

  items-AreFresh : (v : JValue) → AreFresh (items_of v)
  items-AreFresh (array items) = forest-AreFresh items
  items-AreFresh null = tt
  items-AreFresh (bool b) = tt
  items-AreFresh (string t) = tt
  items-AreFresh (object pairs) = tt

  forest-AreFresh : (items : Items) → AreFresh (forest_from_json items)
  forest-AreFresh nil = tt
  forest-AreFresh (cons v rest) =
      kept-AreFresh (item_from_json v) (forest_from_json rest) (json-MayBeFresh v)
        (forest-AreFresh rest)

mutual
  unfolding build_menu IsFresh

  menu_built-AreFresh : (l : Forest) → AreFresh l → AreFresh (build_menu l)
  menu_built-AreFresh leaf h = tt
  menu_built-AreFresh (child i rest) h = (entry_built-IsFresh i h.0, menu_built-AreFresh rest h.1)

  entry_built-IsFresh : (i : Item) → IsFresh i → IsFresh (build_entry i)
  entry_built-IsFresh (item s leaf) h = h
  entry_built-IsFresh (item s (child i rest)) h = (h.0, h.1, menu_built-AreFresh (child i rest) h.2)

root_built-IsFresh : (i : Item) → IsFresh i → IsFresh (build_root_menu i)
unfolding build_root_menu IsFresh
root_built-IsFresh (item s leaf) h = h
root_built-IsFresh (item s (child i rest)) h = (h.0, h.1, menu_built-AreFresh (child i rest) h.2)

with_indicator-IsFresh :
    (publish : Publish) (n : ℕ) (i : Item) → IsFresh i → IsFresh (with_indicator publish n i)
unfolding IsFresh
with_indicator-IsFresh publish n (item s children) h = h

module _ (publish : Publish) (made : Bytes → Bool) where
  installed-AreFresh :
      (n : ℕ) (o : Option Item) (rest : Forest)
      → MayBeFresh o
      → AreFresh rest
      → AreFresh (installed publish made n o rest)
  unfolding IsFresh
  installed-AreFresh n none rest h g = g
  installed-AreFresh n (some i) rest h g =
      if_both AreFresh (made (name_of i)) _ _
        (with_indicator-IsFresh publish n _ (root_built-IsFresh i h), g) g

  install_items-AreFresh : (n : ℕ) (items : Items) → AreFresh (install_items publish made n items)
  unfolding install_items IsFresh
  install_items-AreFresh n nil = tt
  install_items-AreFresh n (cons v rest) =
      installed-AreFresh n (item_from_json v) (install_items publish made (n + 1) rest)
        (json-MayBeFresh v) (install_items-AreFresh (n + 1) rest)

  pub install_items-AreSound :
      (n : ℕ) (items : Items) → AreSound (install_items publish made n items)
  install_items-AreSound n items = fresh-AreSound _ (install_items-AreFresh n items)
