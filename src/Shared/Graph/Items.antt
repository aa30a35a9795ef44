-- ===== src/Shared/Graph/Items.antt =====
-- The loop of `dd_shared_import_value` over an array.
use developer_dashboard.Common.{
  ℕ, suc, ◌+◌, ◌≤◌, ◌<◌, ◌≡◌, ◌∙◌, refl, sym, ap, subst, arith, Bool, List, [], ◌∷◌, Option, none,
  some, length, length-set,
}
use developer_dashboard.Shared.Perl.{Perl, Graph, Imported, change}
use developer_dashboard.Shared.Graph.{import_items}
use developer_dashboard.Shared.Graph.Missing.{missing, missing_mono}
use developer_dashboard.Shared.Graph.Stands.{WellFormed, Stands}
use developer_dashboard.Shared.Graph.Steps.{
  Gives, Gives-map, and_then-Gives, Touches-WellFormed, Touches-change,
}
use developer_dashboard.Shared.Array.{slot, with_item, array_capacity}
use developer_dashboard.Shared.Array.Growth.{slot-set, slot-set-other}
use developer_dashboard.Shared.Graph.Stands.{ItemsStand}
use developer_dashboard.Shared.Graph.Loops.{
  Imports, Imports-Extends, Fills, Fills-refl, child_lem, Recurses,
}

module _ {NV : Type 0} (perl : Perl NV) where
  abbrev pub AllItems : (ℕ → Type 0) → List (Option ℕ) → Type 0
  AllItems R [] = Unit
  AllItems R (none ∷ items) = AllItems R items
  AllItems R (some v ∷ items) = R v × AllItems R items

  -- The slots from `i` on hold the items.
  pub record FilledArray (p lo i : ℕ) (g after : Graph NV) (items : List (Option ℕ)) : Type 0 where
    pub type_eq : (after.heap.node p).type ≡ (g.heap.node p).type
    pub class_eq : (after.heap.node p).class_name ≡ (g.heap.node p).class_name
    pub size_eq : (after.heap.node p).array_size ≡ (g.heap.node p).array_size
    pub before :
        (j : ℕ)
        → j < i
        → slot (after.heap.node p).array_items j ≡ slot (g.heap.node p).array_items j
    pub stand : ItemsStand perl lo after items i (after.heap.node p).array_items

  abbrev pub ArrayDone : ℕ → ℕ → ℕ → Graph NV → List (Option ℕ) → ℕ → Graph NV → Type 0
  ArrayDone p lo i g items c after =
      (c ≡ p) × Fills perl p lo g after × FilledArray p lo i g after items

  -- Room for the items, in slots that are NULL.
  pub record HasSlots (p i count : ℕ) (g : Graph NV) : Type 0 where
    pub room : i + count ≤ array_capacity (g.heap.node p)
    pub holes : (j : ℕ) → i ≤ j → slot (g.heap.node p).array_items j ≡ 0

  with_item-node :
      (p c i : ℕ) (g g2 : Graph NV)
      → g2.heap.node p ≡ g.heap.node p
      → (change p (λ n. with_item n i c) g2).heap.node p ≡ with_item (g.heap.node p) i c
  with_item-node p c i g g2 e =
      (Touches-change p (λ n. with_item n i c) g2).node_eq ∙ ap (λ n. with_item n i c) e

  HasSlots-next :
      (p c i count : ℕ) (g g2 : Graph NV)
      → g2.heap.node p ≡ g.heap.node p
      → HasSlots p i (suc count) g
      → HasSlots p (i + 1) count (change p (λ n. with_item n i c) g2)
  HasSlots-next p c i count g g2 e h =
      let node_eq = with_item-node p c i g g2 e in
      record {
        room = omega (
          arith,
          ap (λ n. length n.array_items) node_eq,
          length-set (g.heap.node p).array_items i c,
          h.room,
        );
        holes = λ j l.
            ap (λ n. slot n.array_items j) node_eq
            ∙ slot-set-other (g.heap.node p).array_items i j c (omega (arith, l))
            ∙ h.holes j (omega (arith, l));
      }

  item_lem :
      (p lo c i v : ℕ) (items : List (Option ℕ)) (g g2 after : Graph NV)
      → p < lo
      → lo ≤ g.heap.next
      → HasSlots p i (suc (length items)) g
      → Imports perl v g c g2
      → g2.heap.node p ≡ g.heap.node p
      → Fills perl p lo (change p (λ n. with_item n i c) g2) after
      → FilledArray p lo (i + 1) (change p (λ n. with_item n i c) g2) after items
      → Fills perl p lo g after × FilledArray p lo i g after (some v ∷ items)
  item_lem p lo c i v items g g2 after b le s u q f h =
      let (fills, stands) =
        child_lem perl p lo v c _ _ g g g2 _ after b le
          (record { next_eq = refl; map_eq = refl; node_eq = refl; others = λ k d. refl }) u
          (Touches-change p (λ n. with_item n i c) g2) f in
      let node_eq = with_item-node p c i g g2 q in
      (
        fills,
        record {
          type_eq = h.type_eq ∙ ap (λ n. n.type) node_eq;
          class_eq = h.class_eq ∙ ap (λ n. n.class_name) node_eq;
          size_eq = h.size_eq ∙ ap (λ n. n.array_size) node_eq;
          before = λ j l.
              h.before j (omega (arith, l))
              ∙ ap (λ n. slot n.array_items j) node_eq
              ∙ slot-set-other (g.heap.node p).array_items i j c (omega (arith, l));
          stand = (
            subst (λ k. Stands perl lo after v k)
                (sym (
                  h.before i (omega arith)
                  ∙ ap (λ n. slot n.array_items i) node_eq
                  ∙ slot-set (g.heap.node p).array_items i c (omega (arith, s.room))))
                stands,
            h.stand,
          );
        },
      )

  hole_lem :
      (p lo i : ℕ) (items : List (Option ℕ)) (g after : Graph NV)
      → HasSlots p i (suc (length items)) g
      → FilledArray p lo (i + 1) g after items
      → FilledArray p lo i g after (none ∷ items)
  hole_lem p lo i items g after s h = record {
    type_eq = h.type_eq;
    class_eq = h.class_eq;
    size_eq = h.size_eq;
    before = λ j l. h.before j (omega (arith, l));
    stand = (h.before i (omega arith) ∙ s.holes i (omega arith), h.stand);
  }

  module _ (grant : ℕ → Bool) (R : ℕ → Type 0) (U : List ℕ) (n : ℕ)
      (rec : ℕ → Graph NV → Imported ℕ × Graph NV) (spec : Recurses perl R U n rec) where
    pub import_items-Gives :
        (items : List (Option ℕ)) (p lo i : ℕ) (g : Graph NV)
        → HasSlots p i (length items) g
        → p < lo
        → lo ≤ g.heap.next
        → WellFormed g
        → missing U g.map < n
        → AllItems R items
        → Gives (ArrayDone p lo i g items) (import_items perl grant rec p i items g)
    unfolding import_items
    import_items-Gives [] p lo i g s b le w m a = (
      refl,
      Fills-refl perl p lo g w,
      record { type_eq = refl; class_eq = refl; size_eq = refl; before = λ j l. refl; stand = tt },
    )
    import_items-Gives (none ∷ items) p lo i g s b le w m a =
        Gives-map (ArrayDone p lo (i + 1) g items) (ArrayDone p lo i g (none ∷ items)) _
          (import_items-Gives items p lo (i + 1) g
            (record { room = omega (arith, s.room); holes = λ j l. s.holes j (omega (arith, l)) }) b
            le w m a)
          (λ d after h. (h.0, h.1, hole_lem p lo i items g after s h.2))
    import_items-Gives (some v ∷ items) p lo i g s b le w m a =
        and_then-Gives _ _ (rec v g) _ (spec v g a.0 w m) (λ c g2 u.
          let q : g2.heap.node p ≡ g.heap.node p =
            u.grows.others p (omega (arith, b, le)) (omega (arith, b, le)) in
          Gives-map (ArrayDone p lo (i + 1) (change p (λ n. with_item n i c) g2) items)
            (ArrayDone p lo i g (some v ∷ items)) _
            (import_items-Gives items p lo (i + 1) (change p (λ n. with_item n i c) g2)
              (HasSlots-next p c i (length items) g g2 q s) b (omega (arith, le, u.grows.next_le))
              (Touches-WellFormed p _ g2 _ (Touches-change p (λ n. with_item n i c) g2)
                u.well_formed)
              (omega (arith, m, missing_mono U g.map g2.map (Imports-Extends perl v g c g2 u))) a.1)
            (λ d after h.
              let f = item_lem p lo c i v items g g2 after b le s u q h.1 h.2 in (h.0, f.0, f.1)))
