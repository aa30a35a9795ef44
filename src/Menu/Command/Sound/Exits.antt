-- ===== src/Menu/Command/Sound/Exits.antt =====
-- Where a command ends the process, a call of `update_status_icon` has.
use developer_dashboard.Common.{
  ℕ, ◌+◌, ◌≡◌, ◌&&◌, not, refl, arith, Bool, true, Bool-cases, inl, inr, Option, none, some, Bytes,
}
use developer_dashboard.Json.{Items, nil, cons}
use developer_dashboard.Menu.{Item, item}
use developer_dashboard.Menu.Build.{item_from_json}
use developer_dashboard.Menu.Command.{
  Published, shows, keeps, exits, Publish, is_exits, name_of, icon_of, icon_exits, root_exits,
  install_exits,
}

and_right : (a b : Bool) → a && b ≡ true → b ≡ true
and_right a b e = ground (arith, e)

module _ (publish : Publish) where
  -- Some call of `update_status_icon` ends the process.
  abbrev pub Exits : Type 0
  Exits = (n : ℕ) × (icon : Bytes) × (publish n icon ≡ exits)

  exit_of : (n : ℕ) (icon : Bytes) (r : Published) → publish n icon ≡ r → is_exits r ≡ true → Exits
  exit_of n icon shows d q = absurd (ground (arith, q))
  exit_of n icon keeps d q = absurd (ground (arith, q))
  exit_of n icon exits d q = (n, icon, d)

  pub icon_exits-Exits : (icon : Bytes) (i : Option Item) → icon_exits publish icon i ≡ true → Exits
  icon_exits-Exits icon none e = absurd (ground (arith, e))
  icon_exits-Exits icon (some (item s children)) e =
      exit_of 0 icon (publish 0 icon) refl
        (and_right (not s.removed && s.indicator) (is_exits (publish 0 icon)) e)

  root_exits-Exits :
      (made : Bytes → Bool) (n : ℕ) (o : Option Item) → root_exits publish made n o ≡ true → Exits
  root_exits-Exits made n none e = absurd (ground (arith, e))
  root_exits-Exits made n (some root) e =
      exit_of n (icon_of root) (publish n (icon_of root)) refl
        (and_right (made (name_of root)) (is_exits (publish n (icon_of root))) e)

  pub install_exits-Exits :
      (made : Bytes → Bool) (n : ℕ) (items : Items)
      → install_exits publish made n items ≡ true
      → Exits
  unfolding install_exits
  install_exits-Exits made n nil e = absurd (ground (arith, e))
  install_exits-Exits made n (cons v rest) e =
      elim (Bool-cases (root_exits publish made n (item_from_json v))) [
        | inl here ↦ root_exits-Exits made n (item_from_json v) here
        | inr not_here ↦ install_exits-Exits made (n + 1) rest (rw not_here at e)
      ]
