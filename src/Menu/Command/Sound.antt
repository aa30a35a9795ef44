-- ===== src/Menu/Command/Sound.antt =====
-- What the marks of an item say of its widget and of the items below it.
pub mod Built
pub mod Changes
pub mod Exits
pub mod Preserved
use developer_dashboard.Common.{◌≡◌, true, false, Bool}
use developer_dashboard.Menu.{ItemState, Item, item, Forest, leaf, child}

unfoldable mutual
  pub IsRemoved : Item → Type 0
  IsRemoved (item s children) = (s.removed ≡ true) × AreRemoved children

  pub AreRemoved : Forest → Type 0
  AreRemoved leaf = Unit
  AreRemoved (child i rest) = IsRemoved i × AreRemoved rest

unfoldable mutual
  pub IsSound : Item → Type 0
  IsSound (item s children) =
      (s.destroyed ≡ true → s.removed ≡ true)
      × (s.removed ≡ true → AreRemoved children)
      × AreSound children

  pub AreSound : Forest → Type 0
  AreSound leaf = Unit
  AreSound (child i rest) = IsSound i × AreSound rest

-- Nothing has happened to it yet.
unfoldable mutual
  pub IsFresh : Item → Type 0
  IsFresh (item s children) = (s.removed ≡ false) × (s.destroyed ≡ false) × AreFresh children

  pub AreFresh : Forest → Type 0
  AreFresh leaf = Unit
  AreFresh (child i rest) = IsFresh i × AreFresh rest
