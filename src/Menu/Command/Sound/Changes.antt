-- ===== src/Menu/Command/Sound/Changes.antt =====
-- Marking, destroying and changing an item keep the items sound.
use developer_dashboard.Common.{
  ◌≡◌, ◌⊎◌, refl, Bool, inl, inr, ℕ, zero, suc, [], ◌∷◌, Option, none, some, Bytes, if◌then◌else◌,
  if_both,
}
use developer_dashboard.Menu.{Item, item, Forest, leaf, child}
use developer_dashboard.Menu.Find.{Pointer, change_at, change_item, change_forest}
use developer_dashboard.Menu.Command.{
  item_mark_removed, forest_mark_removed, destroy_item, destroy_forest, remove_item, set_item_icon,
  forget_widget, passive, Publish,
}
use developer_dashboard.Menu.Command.Sound.{IsRemoved, AreRemoved, IsSound, AreSound}

mutual
  unfolding item_mark_removed IsRemoved

  marked-IsRemoved : (i : Item) → IsRemoved (item_mark_removed i)
  marked-IsRemoved (item s children) = (refl, marked-AreRemoved children)

  marked-AreRemoved : (f : Forest) → AreRemoved (forest_mark_removed f)
  marked-AreRemoved leaf = tt
  marked-AreRemoved (child i rest) = (marked-IsRemoved i, marked-AreRemoved rest)

mutual
  unfolding IsRemoved IsSound

  -- What is removed as a whole is sound.
  removed-IsSound : (i : Item) → IsRemoved i → IsSound i
  removed-IsSound (item s children) r = (λ _. r.0, λ _. r.1, removed-AreSound children r.1)

  removed-AreSound : (f : Forest) → AreRemoved f → AreSound f
  removed-AreSound leaf r = tt
  removed-AreSound (child i rest) r = (removed-IsSound i r.0, removed-AreSound rest r.1)

mutual
  unfolding IsRemoved destroy_item

  destroyed-IsRemoved : (i : Item) → IsRemoved i → IsRemoved (destroy_item i)
  destroyed-IsRemoved (item s children) r = (r.0, destroyed-AreRemoved children r.1)

  destroyed-AreRemoved : (f : Forest) → AreRemoved f → AreRemoved (destroy_forest f)
  destroyed-AreRemoved leaf r = tt
  destroyed-AreRemoved (child i rest) r = (destroyed-IsRemoved i r.0, destroyed-AreRemoved rest r.1)

-- A change that keeps an item sound and does not take a removal back.
abbrev pub Keeps : (Item → Item) → Type 0
Keeps f = ((i : Item) → IsSound i → IsSound (f i)) × ((i : Item) → IsRemoved i → IsRemoved (f i))

forget-IsRemoved : (i : Item) → IsRemoved i → IsRemoved (forget_widget i)
unfolding IsRemoved
forget-IsRemoved (item s children) r = r

passive-IsRemoved : (i : Item) → IsRemoved i → IsRemoved (passive i)
unfolding IsRemoved
passive-IsRemoved (item s children) r = r

-- What `remove_item` makes of an item that is not removed yet is removed as a whole.
remove_item-cases : (i : Item) → IsRemoved (remove_item i) ⊎ (remove_item i ≡ i)
unfolding remove_item
remove_item-cases (item s children) = both s.removed _ _ (inr refl) (
    both s.indicator _ _ (inl (passive-IsRemoved _ (marked-IsRemoved (item s children)))) (
      both s.widget _ _
        (inl (forget-IsRemoved _ (destroyed-IsRemoved _ (marked-IsRemoved (item s children)))))
        (inl (marked-IsRemoved (item s children)))))
  where
    both :
        (b : Bool) (x y : Item)
        → IsRemoved x ⊎ (x ≡ item s children)
        → IsRemoved y ⊎ (y ≡ item s children)
        → IsRemoved (if b then x else y) ⊎ ((if b then x else y) ≡ item s children)
    both b x y = if_both (λ r. IsRemoved r ⊎ (r ≡ item s children)) b x y

pub remove_item-Keeps : Keeps remove_item
remove_item-Keeps = (
  λ i h. elim (remove_item-cases i) [ inl r ↦ removed-IsSound _ r | inr e ↦ rw e h ],
  λ i h. elim (remove_item-cases i) [ inl r ↦ r | inr e ↦ rw e h ],
)

pub set_item_icon-Keeps : (publish : Publish) (icon : Bytes) → Keeps (set_item_icon publish icon)
unfolding set_item_icon IsSound IsRemoved
set_item_icon-Keeps publish icon = (keeps_sound, keeps_removed)
  where
    keeps_sound : (i : Item) → IsSound i → IsSound (set_item_icon publish icon i)
    keeps_sound (item s children) h = if_both IsSound s.removed _ _ h h

    keeps_removed : (i : Item) → IsRemoved i → IsRemoved (set_item_icon publish icon i)
    keeps_removed (item s children) h = if_both IsRemoved s.removed _ _ h h

module _ (f : Item → Item) (k : Keeps f) where
  mutual
    unfolding change_item IsRemoved

    change-IsRemoved : (path : Pointer) (i : Item) → IsRemoved i → IsRemoved (change_item f path i)
    change-IsRemoved [] i r = k.1 i r
    change-IsRemoved (n ∷ path) (item s children) r = (r.0, change-AreRemoved n path children r.1)

    change-AreRemoved :
        (n : ℕ) (path : Pointer) (l : Forest) → AreRemoved l → AreRemoved (change_forest f n path l)
    change-AreRemoved n path leaf r = tt
    change-AreRemoved zero path (child i rest) r = (change-IsRemoved path i r.0, r.1)
    change-AreRemoved (suc n) path (child i rest) r = (r.0, change-AreRemoved n path rest r.1)

  mutual
    unfolding change_item IsSound

    change-IsSound : (path : Pointer) (i : Item) → IsSound i → IsSound (change_item f path i)
    change-IsSound [] i h = k.0 i h
    change-IsSound (n ∷ path) (item s children) h =
        (h.0, λ e. change-AreRemoved n path children (h.1 e), change-AreSound n path children h.2)

    change-AreSound :
        (n : ℕ) (path : Pointer) (l : Forest) → AreSound l → AreSound (change_forest f n path l)
    change-AreSound n path leaf h = tt
    change-AreSound zero path (child i rest) h = (change-IsSound path i h.0, h.1)
    change-AreSound (suc n) path (child i rest) h = (h.0, change-AreSound n path rest h.1)

  pub change_at-AreSound :
      (p : Option Pointer) (roots : Forest) → AreSound roots → AreSound (change_at f p roots)
  unfolding change_at
  change_at-AreSound none roots h = h
  change_at-AreSound (some []) roots h = h
  change_at-AreSound (some (n ∷ path)) roots h = change-AreSound n path roots h
