-- ===== src/Shared/Graph/Values.antt =====
-- What `dd_shared_import_value` makes of a value, with fuel for all that has no node yet.
use developer_dashboard.Common.{
  ℕ, zero, suc, ◌+◌, ◌≤◌, ◌<◌, ◌≡◌, ◌∙◌, refl, sym, ap, subst, arith, Bool, Bool-cases, true, inl,
  inr, List, Option, none, some, ◌==◌,
}
use developer_dashboard.Shared.{empty_node}
use developer_dashboard.Shared.Import.{import_find}
use developer_dashboard.Shared.Perl.{
  Perl, Graph, Imported, Referent, hash_of, regexp_of, format_of, array_of, scalar_of, other_of,
  change,
}
use developer_dashboard.Shared.Graph.{import_referent}
use developer_dashboard.Shared.Graph.Missing.{missing, Listed}
use developer_dashboard.Shared.Graph.Stands.{Grows, Grows-refl, Grows-trans, WellFormed, Content}
use developer_dashboard.Shared.Graph.Steps.{
  Gives, Gives-map, if-Gives, Touches, Touches-Grows, Touches-change,
}
use developer_dashboard.Shared.Graph.Loops.{same_or, Imports, Recurses}
use developer_dashboard.Shared.Graph.Opened.{Ready, Reaches, Referred}
use developer_dashboard.Shared.Heap.{new_node}
use developer_dashboard.Shared.Scalar.{import_scalar}
use developer_dashboard.Shared.Graph.{import_behind, import_value}
use developer_dashboard.Shared.Graph.Stands.{WellFormed-keep, StandsFor, Holds-Grows}
use developer_dashboard.Shared.Graph.Steps.{update-other, store_scalar-Gives}
use developer_dashboard.Shared.Graph.Kinds.{Changed, regexp_lem, format_lem, hash_lem, scalar_lem}
use developer_dashboard.Shared.Graph.Filled.{array_lem}

module _ {NV : Type 0} (perl : Perl NV) where
  -- Less is asked of the children.
  pub Content-weaken :
      (low lo : ℕ) (g : Graph NV) (s c : ℕ)
      → low ≤ lo
      → 0 < lo
      → Content perl lo g s c
      → Content perl low g s c
  Content-weaken low lo g s c l z h =
      Holds-Grows perl low lo 0 g g (Grows-refl 0 g) z l s (g.heap.node c) (perl.contents s) h

module _ {NV : Type 0} (perl : Perl NV) (grant : ℕ → Bool) (R : ℕ → Type 0) (U : List ℕ) where
  -- The values of R refer to finitely many things, which U lists, and what is read there is in R again.
  pub record IsFinite : Type 0 where
    pub behind :
        (v s : ℕ) → R v → perl.rv v ≡ some s → Listed s U × Reaches perl R s (perl.contents s)

  pub import_referent-Gives :
      (n : ℕ) (rec : ℕ → Graph NV → Imported ℕ × Graph NV)
      → Recurses perl R U n rec
      → (s p : ℕ) (g : Graph NV) (r : Referent) → perl.contents s ≡ r
      → Ready perl.api.zero_nv s p g
      → Listed s U
      → missing U g.map < suc n
      → Reaches perl R s r
      → Gives (Referred perl s p g) (import_referent perl grant rec s p r g)
  import_referent-Gives n rec spec s p g (hash_of entries) e y i l a =
      hash_lem perl grant R U n rec spec s p g entries e y i l a
  import_referent-Gives n rec spec s p g regexp_of e y i l a = regexp_lem perl grant R U n s p g e y
  import_referent-Gives n rec spec s p g (format_of stash name) e y i l a =
      format_lem perl grant R U n s p g stash name e y
  import_referent-Gives n rec spec s p g (array_of items) e y i l a =
      array_lem perl grant R U n rec spec s p g items e y i l a
  import_referent-Gives n rec spec s p g scalar_of e y i l a =
      scalar_lem perl grant R U n rec spec s p g e y i l a
  import_referent-Gives n rec spec s p g (other_of type_name) e y i l a = tt

  -- A new node, and what is in it then.
  pub record IsNew (g g1 : Graph NV) : Type 0 where
    pub next_eq : g1.heap.next ≡ g.heap.next + 1
    pub map_eq : g1.map ≡ g.map
    pub others : (q : ℕ) → q < g.heap.next → g1.heap.node q ≡ g.heap.node q

  IsNew-Grows : (g g1 : Graph NV) → IsNew g g1 → Grows g.heap.next g g1
  IsNew-Grows g g1 w = record {
    next_le = omega (arith, w.next_eq);
    others = λ q l d. w.others q l;
    map_kept = λ s d. ap (λ m. import_find m s) w.map_eq;
  }

  acquired : (g : Graph NV) → IsNew g (record g { heap = new_node perl.api.zero_nv g.heap })
  acquired g = record {
    next_eq = refl;
    map_eq = refl;
    others = λ q l. update-other g.heap.node g.heap.next q _ (omega (arith, l));
  }

  scalar_imported :
      (v c : ℕ) (g g1 after : Graph NV)
      → perl.rv v ≡ none
      → WellFormed g
      → IsNew g g1
      → Changed g.heap.next (import_scalar perl.api true v).1 g1 c after
      → Imports perl v g c after
  scalar_imported v c g g1 after e w k t =
      let m : after.map ≡ g.map = t.1.map_eq ∙ k.map_eq in
      record {
        grows =
            Grows-trans g.heap.next g g1 after (IsNew-Grows g g1 k)
              (Touches-Grows g.heap.next _ g1 after t.1);
        well_formed = WellFormed-keep g after m (omega (arith, t.1.next_eq, k.next_eq)) w;
        finished = λ s z d. elim (d (ap (λ x. import_find x s) m ∙ z)) [ ];
        stands =
            subst (λ o. StandsFor perl g.heap.next after v c o) (sym e)
              (
                omega (arith, t.0),
                omega (arith, t.0, t.1.next_eq, k.next_eq),
                ap after.heap.node t.0 ∙ t.1.node_eq,
              );
      }

  referent_imported :
      (v s c : ℕ) (g g1 after : Graph NV)
      → perl.rv v ≡ some s
      → WellFormed g
      → IsNew g g1
      → Referred perl s g.heap.next g1 c after
      → Imports perl v g c after
  referent_imported v s c g g1 after e w k t =
      let nz : 0 < g1.heap.next = omega (arith, k.next_eq) in
      record {
        grows = Grows-trans g.heap.next g g1 after (IsNew-Grows g g1 k) t.grows;
        well_formed = t.well_formed;
        finished = λ r z d. elim (same_or r s) [
          | inl q ↦
              subst
                (λ x.
                  (g.heap.next ≤ import_find after.map x)
                  × (import_find after.map x < after.heap.next)
                  × Content perl g.heap.next after x (import_find after.map x))
                (sym q)
                (
                  omega (arith, t.mapped),
                  omega (arith, t.mapped, t.grows.next_le, k.next_eq),
                  Content-weaken perl g.heap.next g1.heap.next after s _ (omega (arith, k.next_eq))
                      nz
                      (subst (λ x. Content perl g1.heap.next after s x) (sym t.mapped) t.content),
                )
          | inr q ↦
              let (a, b, f) = t.finished r q (ap (λ x. import_find x r) k.map_eq ∙ z) d in
              (
                omega (arith, a, k.next_eq),
                b,
                Content-weaken perl g.heap.next g1.heap.next after r _ (omega (arith, k.next_eq)) nz
                    f,
              )
        ];
        stands =
            subst (λ o. StandsFor perl g.heap.next after v c o) (sym e)
              (omega (arith, t.result, w.nonnull), t.mapped ∙ sym t.result);
      }

  module _ (fin : IsFinite) where
    import_behind-Gives :
        (n : ℕ) (rec : ℕ → Graph NV → Imported ℕ × Graph NV)
        → Recurses perl R U n rec
        → (v : ℕ) (o : Option ℕ) (g : Graph NV) → perl.rv v ≡ o
        → R v
        → WellFormed g
        → missing U g.map < suc n
        → Gives (Imports perl v g) (import_behind perl grant rec none v o g)
    import_behind-Gives n rec spec v none g e a w m = elim (Bool-cases (grant g.heap.allocs)) [
      | inl given ↦
          let g1 : Graph NV = record g { heap = new_node perl.api.zero_nv g.heap } in
          rw given (
            Gives-map (Changed g.heap.next (import_scalar perl.api true v).1 g1) (Imports perl v g)
              _ (store_scalar-Gives perl grant g.heap.next v g1)
              (λ c after t. scalar_imported v c g g1 after e w (acquired g) t))
      | inr denied ↦ rw denied tt
    ]
    import_behind-Gives n rec spec v (some s) g e a w m =
        if-Gives (Imports perl v g) (import_find g.map s == 0) _ _
          (λ absent. elim (Bool-cases (grant g.heap.allocs)) [
            | inl given ↦
                let g1 : Graph NV = record g { heap = new_node perl.api.zero_nv g.heap } in
                let g2 : Graph NV = change g.heap.next (λ k. empty_node perl.api.zero_nv) g1 in
                let t : Touches g.heap.next (empty_node perl.api.zero_nv) g1 g2 =
                  Touches-change g.heap.next (λ k. empty_node perl.api.zero_nv) g1 in
                let f = fin.behind v s a e in
                rw given (
                  Gives-map (Referred perl s g.heap.next g2) (Imports perl v g) _
                    (import_referent-Gives n rec spec s g.heap.next g2 (perl.contents s) refl
                      (record {
                        well_formed = WellFormed-keep g g2 refl (omega arith) w;
                        nonzero = omega (arith, w.nonnull);
                        allocated = omega arith;
                        absent = ground (arith, absent);
                        unused = λ r q. omega (arith, q, w.below r);
                        cleared = t.node_eq;
                      })
                      f.0 m f.1)
                    (λ c after r.
                      referent_imported v s c g g2 after e w
                        (record {
                          next_eq = refl;
                          map_eq = refl;
                          others = λ q l. t.others q (omega (arith, l)) ∙ (acquired g).others q l;
                        })
                        r))
            | inr denied ↦ rw denied tt
          ])
          (λ present. record {
            grows = Grows-refl g.heap.next g;
            well_formed = w;
            finished = λ r z d. elim (d z) [ ];
            stands =
                subst (λ o. StandsFor perl g.heap.next g v (import_find g.map s) o) (sym e)
                  (ground (arith, present), refl);
          })

    pub import_value-Gives :
        (n : ℕ) → Recurses perl R U n (λ v g. import_value perl grant n none v g)
    unfolding import_value
    import_value-Gives zero v g a w m = omega (arith, m)
    import_value-Gives (suc n) v g a w m =
        import_behind-Gives n (λ x g1. import_value perl grant n none x g1) (import_value-Gives n) v
          (perl.rv v) g refl a w m
