-- ===== src/Shared/Graph/Filled.antt =====
-- What `dd_shared_import_value` makes of an array that had no node.
use developer_dashboard.Common.{
  ℕ, suc, ◌/◌, ◌≤◌, ◌<◌, ◌≡◌, ◌∙◌, refl, sym, ap, subst, arith, Bool, true, false, List, [], ◌∷◌,
  Option, length, leb,
}
use developer_dashboard.Shared.{array, SharedNode}
use developer_dashboard.Shared.Heap.{Heap, ok}
use developer_dashboard.Shared.Array.{item_size, with_size}
use developer_dashboard.Shared.Array.Growth.{IsArray, Reserved, array_reserve_lem}
use developer_dashboard.Shared.Reserve.{size_max}
use developer_dashboard.Shared.Import.{import_find}
use developer_dashboard.Shared.Perl.{Perl, Graph, Imported, array_of, change}
use developer_dashboard.Shared.Graph.{opened, items_reserved, fill_array}
use developer_dashboard.Shared.Graph.Missing.{missing, Listed}
use developer_dashboard.Shared.Graph.Stands.{Grows-trans, WellFormed, ItemsStand, Holds}
use developer_dashboard.Shared.Graph.Steps.{
  Gives, Gives-map, if-Gives, Touches, Touches-Grows, Touches-WellFormed, Touches-change,
}
use developer_dashboard.Shared.Graph.Loops.{Fills, Fills-refl, Recurses}
use developer_dashboard.Shared.Graph.Items.{AllItems, ArrayDone, import_items-Gives}
use developer_dashboard.Shared.Array.{slot}
use developer_dashboard.Shared.Graph.Opened.{
  Ready, Referred, closing_lem, Mapped-WellFormed, Mapped-missing, opened-Gives,
}

module _ {NV : Type 0} (perl : Perl NV) where
  -- A change of the node before the rest.
  Fills-before :
      (p lo : ℕ) (m : SharedNode NV) (g g1 after : Graph NV)
      → Touches p m g g1
      → Fills perl p lo g1 after
      → Fills perl p lo g after
  Fills-before p lo m g g1 after t f = record {
    grows = Grows-trans p g g1 after (Touches-Grows p m g g1 t) f.grows;
    well_formed = f.well_formed;
    finished = λ s z d. f.finished s (ap (λ k. import_find k s) t.map_eq ∙ z) d;
  }

  -- The node is an array of the size of the items, which its slots hold.
  pub record ArrayFilled (p lo : ℕ) (g : Graph NV) (items : List (Option ℕ)) (c : ℕ)
      (after : Graph NV) : Type 0 where
    pub result : c ≡ p
    pub fills : Fills perl p lo g after
    pub typed : (after.heap.node p).type ≡ array
    pub class_eq : (after.heap.node p).class_name ≡ (g.heap.node p).class_name
    pub size_eq : (after.heap.node p).array_size ≡ length items
    pub stand : ItemsStand perl lo after items 0 (after.heap.node p).array_items

  module _ (grant : ℕ → Bool) (R : ℕ → Type 0) (U : List ℕ) (n : ℕ)
      (rec : ℕ → Graph NV → Imported ℕ × Graph NV) (spec : Recurses perl R U n rec) where
    items_reserved_lem :
        (items : List (Option ℕ)) (p lo : ℕ) (g : Graph NV) (b : Bool) (h : Heap NV)
        → IsArray g.heap p
        → (g.heap.node p).array_size ≡ 0
        → Reserved g.heap h p (length items) b
        → p < lo
        → lo ≤ g.heap.next
        → WellFormed g
        → missing U g.map < n
        → AllItems perl R items
        → Gives (ArrayFilled p lo g items) (items_reserved perl grant rec p items g (ok b, h))
    items_reserved_lem items p lo g false h i z r b le w m a = tt
    items_reserved_lem items p lo g true h i z r b le w m a =
        let grown : Graph NV = record g { heap = h } in
        let t : Touches p (h.node p) g grown = record {
          next_eq = r.next_eq;
          map_eq = refl;
          node_eq = refl;
          others = r.others;
        } in
        let sized : Graph NV = change p (λ k. with_size k (length items)) grown in
        let u : Touches p (with_size (h.node p) (length items)) grown sized =
          Touches-change p (λ k. with_size k (length items)) grown in
        Gives-map (ArrayDone perl p lo 0 sized items) (ArrayFilled p lo g items) _
          (import_items-Gives perl grant R U n rec spec items p lo 0 sized
            (record {
              room = omega (arith, ap (λ k. length k.array_items) u.node_eq, r.room refl);
              holes = λ j l.
                  ap (λ k. slot k.array_items j) u.node_eq
                  ∙ r.slots j
                  ∙ i.holes j (omega (arith, z));
            })
            b (omega (arith, le, r.next_eq))
            (Touches-WellFormed p _ grown sized u (Touches-WellFormed p _ g grown t w)) m a)
          (λ c after d. record {
            result = d.0;
            fills =
                Fills-before p lo _ g grown after t (Fills-before p lo _ grown sized after u d.1);
            typed = d.2.type_eq ∙ ap (λ k. k.type) u.node_eq ∙ r.inv.typed;
            class_eq = d.2.class_eq ∙ ap (λ k. k.class_name) u.node_eq ∙ r.class_eq;
            size_eq = d.2.size_eq ∙ ap (λ k. k.array_size) u.node_eq;
            stand = d.2.stand;
          })

    fill_array-Gives :
        (items : List (Option ℕ)) (p lo : ℕ) (g : Graph NV)
        → IsArray g.heap p
        → (g.heap.node p).array_size ≡ 0
        → p < lo
        → lo ≤ g.heap.next
        → WellFormed g
        → missing U g.map < n
        → AllItems perl R items
        → Gives (ArrayFilled p lo g items) (fill_array perl grant rec p items g)
    unfolding fill_array
    fill_array-Gives [] p lo g i z b le w m a = record {
      result = refl;
      fills = Fills-refl perl p lo g w;
      typed = i.typed;
      class_eq = refl;
      size_eq = z;
      stand = tt;
    }
    fill_array-Gives (item ∷ items) p lo g i z b le w m a =
        if-Gives (ArrayFilled p lo g (item ∷ items)) (leb (size_max / item_size) (length items)) _ _
          (λ x. tt)
          (λ x.
            let (k, h, q, r) =
              array_reserve_lem grant perl.api.zero_nv g.heap p (length (item ∷ items)) i in
            subst
              (λ y.
                Gives (ArrayFilled p lo g (item ∷ items))
                  (items_reserved perl grant rec p (item ∷ items) g y))
              (sym q) (items_reserved_lem (item ∷ items) p lo g k h i z r b le w m a))

    pub array_lem :
        (s p : ℕ) (g : Graph NV) (items : List (Option ℕ))
        → perl.contents s ≡ array_of items
        → Ready perl.api.zero_nv s p g
        → Listed s U
        → missing U g.map < suc n
        → AllItems perl R items
        → Gives
            (Referred perl s p g)
            (opened perl grant array s p g (λ q g1. fill_array perl grant rec p items g1))
    array_lem s p g items e y i l a =
        opened-Gives perl grant perl.api.zero_nv (Referred perl s p g) array s p g _ y.well_formed
          y.nonzero y.absent y.cleared
          (λ g1 g2 k q t.
            let w : WellFormed g2 =
              Touches-WellFormed p _ g1 g2 t (Mapped-WellFormed perl _ s p g g1 y q) in
            Gives-map (ArrayFilled p g.heap.next g2 items) (Referred perl s p g) _
              (fill_array-Gives items p g.heap.next g2
                (record {
                  typed = ap (λ m. m.type) t.node_eq;
                  nonnull = w.nonnull;
                  allocated = omega (arith, y.allocated, q.next_eq, t.next_eq);
                  within = omega (arith, ap (λ m. m.array_size) t.node_eq);
                  fits = omega (arith, ap (λ m. length m.array_items) t.node_eq);
                  holes = λ j d. ap (λ m. slot m.array_items j) t.node_eq;
                })
                (ap (λ m. m.array_size) t.node_eq) y.allocated (omega (arith, q.next_eq, t.next_eq))
                w (Mapped-missing perl U n s p _ g g1 g2 y.nonzero i y.absent q t l) a)
              (λ c after h.
                closing_lem perl s p c _ g g1 g2 after y.nonzero y.absent q t h.result h.fills (
                  subst (λ r. Holds perl g.heap.next after s (after.heap.node p) r) (sym e)
                    (h.typed, h.class_eq ∙ ap (λ m. m.class_name) t.node_eq, h.size_eq, h.stand))))
