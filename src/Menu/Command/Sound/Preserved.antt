-- ===== src/Menu/Command/Sound/Preserved.antt =====
-- Every command keeps the items sound, or ends the process.
use developer_dashboard.Common.{
  ◌⊎◌, Bool, Bool-cases, inl, inr, [], ◌∷◌, Option, none, some, Bytes, codes, equal, if_both,
  option_both, List,
}
use developer_dashboard.Json.{JValue, null, bool, string, array, object, j_get, j_get_string}
use developer_dashboard.Json.Parse.Total.{j_parse_total}
use developer_dashboard.Menu.Find.{Pointer, at_pointer, find_item, change_at}
use developer_dashboard.Menu.Command.{
  Menu, Publish, Handled, left, exited, unread, icon_exits, install_exits, remove_item,
  set_item_icon, install_roots, with_roots, set_icon_at, handle_op, handle_value, handle_command,
}
use developer_dashboard.Menu.Command.Sound.{IsSound, AreSound}
use developer_dashboard.Menu.Command.Sound.Changes.{
  remove_item-Keeps, set_item_icon-Keeps, change_at-AreSound,
}
use developer_dashboard.Menu.Command.Sound.Built.{install_items-AreSound}
use developer_dashboard.Menu.Command.Sound.Exits.{Exits, icon_exits-Exits, install_exits-Exits}

-- A menu with sound items, or an end of the process that `Ends` says; never a reader without fuel.
abbrev pub Goes : Type 0 → Handled Menu → Type 0
Goes Ends (left m) = AreSound m.roots
Goes Ends exited = Ends
Goes Ends unread = ⊥

-- Some call of `update_status_icon` ends the process, in some line.
abbrev pub SomeExits : List (Publish × Bytes) → Type 0
SomeExits [] = ⊥
SomeExits ((publish, line) ∷ lines) = Exits publish ⊎ SomeExits lines

module _ (publish : Publish) (made : Bytes → Bool) where
  abbrev Sound : Handled Menu → Type 0
  Sound r = Goes (Exits publish) r

  run_lem :
      (m : Menu) (o : Option JValue)
      → Sound (with_roots publish made m (install_roots publish made o))
  unfolding install_roots IsSound
  run_lem m (some (array items)) = elim (Bool-cases (install_exits publish made 0 items)) [
    | inl out ↦ rw out (install_exits-Exits publish made 0 items out)
    | inr on ↦ rw on (install_items-AreSound publish made 0 items)
  ]
  run_lem m (some null) = tt
  run_lem m (some (bool b)) = tt
  run_lem m (some (string t)) = tt
  run_lem m (some (object pairs)) = tt
  run_lem m none = tt

  set_icon_lem :
      (icon : Bytes) (p : Option Pointer) (m : Menu)
      → AreSound m.roots
      → Sound (set_icon_at publish made icon p m)
  set_icon_lem icon p m h = elim (Bool-cases (icon_exits publish icon (at_pointer p m.roots))) [
    | inl out ↦ rw out (icon_exits-Exits publish icon (at_pointer p m.roots) out)
    | inr on ↦ rw on (
        change_at-AreSound (set_item_icon publish icon) (set_item_icon-Keeps publish icon) p m.roots
          h)
  ]

  icon_lem :
      (cmd : JValue) (m : Menu)
      → AreSound m.roots
      → Sound (elim (j_get_string cmd (codes "name")) [
        | none ↦ left m
        | some name ↦ elim (j_get_string cmd (codes "icon")) [
          | none ↦ left m
          | some icon ↦ set_icon_at publish made icon (find_item name m.roots) m
        ]
      ])
  icon_lem cmd m h = option_both Sound (j_get_string cmd (codes "name")) _ _ h (λ name.
      option_both Sound (j_get_string cmd (codes "icon")) _ _ h
        (λ icon. set_icon_lem icon (find_item name m.roots) m h))

  remove_lem :
      (cmd : JValue) (m : Menu)
      → AreSound m.roots
      → Sound (elim (j_get_string cmd (codes "name")) [
        | none ↦ left m
        | some name ↦
            left (record m { roots = change_at remove_item (find_item name m.roots) m.roots })
      ])
  remove_lem cmd m h =
      option_both Sound (j_get_string cmd (codes "name")) _ _ h (λ name.
        change_at-AreSound remove_item remove_item-Keeps (find_item name m.roots) m.roots h)

  handle_op-Sound :
      (op : Bytes) (cmd : JValue) (m : Menu)
      → AreSound m.roots
      → Sound (handle_op publish made op cmd m)
  unfolding handle_op IsSound
  handle_op-Sound op cmd m h =
      if_both Sound (equal op (codes "run")) _ _ (run_lem m (j_get cmd (codes "items"))) (
        if_both Sound (equal op (codes "icon")) _ _ (icon_lem cmd m h) (
          if_both Sound (equal op (codes "remove")) _ _ (remove_lem cmd m h)
            (if_both Sound (equal op (codes "stop")) _ _ tt h)))

  handle_value-Sound :
      (cmd : Option JValue) (m : Menu) → AreSound m.roots → Sound (handle_value publish made cmd m)
  unfolding handle_value
  handle_value-Sound none m h = h
  handle_value-Sound (some null) m h = h
  handle_value-Sound (some (bool b)) m h = h
  handle_value-Sound (some (string t)) m h = h
  handle_value-Sound (some (array items)) m h = h
  handle_value-Sound (some (object pairs)) m h =
      option_both Sound (j_get_string (object pairs) (codes "op")) _ _ h
        (λ op. handle_op-Sound op (object pairs) m h)

  pub handle_command-Goes :
      (line : Bytes) (m : Menu) → AreSound m.roots → Sound (handle_command publish made line m)
  unfolding handle_command
  handle_command-Goes line m h =
      let (cmd, e) = j_parse_total line in rw e (handle_value-Sound cmd m h)
