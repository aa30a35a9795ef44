-- ===== src/Shared/Graph/Kinds.antt =====
-- What `dd_shared_import_value` makes of each kind of referent that had no node.
use developer_dashboard.Common.{
  ℕ, suc, ◌-◌, ◌<◌, ◌≡◌, ◌∙◌, refl, sym, ap, subst, arith, Bool, List, ◌++◌, Option, none, some,
  Bytes, length, leb, ltb,
}
use developer_dashboard.Shared.{hash, scalarref, regexp, format, SharedNode, empty_node}
use developer_dashboard.Shared.Reserve.{size_max}
use developer_dashboard.Shared.Perl.{
  Perl, Graph, Imported, hash_of, regexp_of, format_of, scalar_of, done, and_then, change,
  with_type, with_pv, with_scalarref, sv_class, full_name, no_regexp_class, no_regexp,
  no_format_name,
}
use developer_dashboard.Shared.Graph.{
  alloc, set_class, add_mapping, opened, import_entries, import_regexp, import_format,
}
use developer_dashboard.Shared.Graph.Missing.{missing, Listed}
use developer_dashboard.Shared.Graph.Stands.{WellFormed, Stands, EntriesStand, Holds}
use developer_dashboard.Shared.Graph.Steps.{
  Gives, Gives-map, and_then-Gives, if-Gives, Touches, Touches-WellFormed, Touches-change,
  add_mapping-Gives, set_class-Gives, alloc-Gives, classed,
}
use developer_dashboard.Shared.Graph.Loops.{Fills, Fills-refl, child_lem, Recurses}
use developer_dashboard.Shared.Graph.Entries.{AllValues, HashDone, import_entries-Gives}
use developer_dashboard.Shared.Graph.Opened.{
  Ready, Referred, closing_lem, Mapped-WellFormed, Mapped-missing, opened-Gives,
}

abbrev pub Changed : {NV : Type 0} → ℕ → SharedNode NV → Graph NV → ℕ → Graph NV → Type 0
Changed p m g c after = (c ≡ p) × Touches p m g after

module _ {NV : Type 0} (perl : Perl NV) (grant : ℕ → Bool) (R : ℕ → Type 0) (U : List ℕ)
    (n : ℕ) where
  pub regexp_lem :
      (s p : ℕ) (g : Graph NV)
      → perl.contents s ≡ regexp_of
      → Ready perl.api.zero_nv s p g
      → Gives
          (Referred perl s p g)
          (and_then (add_mapping perl grant regexp s p g) (λ q g1. import_regexp perl grant s p g1))
  regexp_lem s p g e y =
      and_then-Gives _ (Referred perl s p g) (add_mapping perl grant regexp s p g) _
        (add_mapping-Gives perl grant regexp s p g y.well_formed.is_map y.nonzero y.absent)
        (λ k g1 q.
          if-Gives (Referred perl s p g) (leb (size_max - 1) (length (perl.pattern s))) _ _
            (λ x. tt)
            (λ x.
              and_then-Gives (Changed p (with_pv regexp (perl.pattern s) (g1.heap.node p)) g1)
                (Referred perl s p g)
                (alloc perl grant no_regexp p (with_pv regexp (perl.pattern s)) g1)
                (λ c g2. set_class perl grant no_regexp_class p (sv_class perl s) g2)
                (alloc-Gives perl grant no_regexp p (with_pv regexp (perl.pattern s)) g1)
                (λ c g2 t.
                  let filled : g2.heap.node p
                      ≡ with_pv regexp (perl.pattern s) (empty_node perl.api.zero_nv) =
                    t.1.node_eq ∙ ap (with_pv regexp (perl.pattern s)) (q.nodes p ∙ y.cleared) in
                  Gives-map
                    (Changed p
                      (classed (sv_class perl s)
                        (with_pv regexp (perl.pattern s) (empty_node perl.api.zero_nv)))
                      g2)
                    (Referred perl s p g) _
                    (set_class-Gives perl grant no_regexp_class p (sv_class perl s) _ g2 filled
                      refl)
                    (λ d after u.
                      let changed : Touches p
                          (classed (sv_class perl s)
                            (with_pv regexp (perl.pattern s) (empty_node perl.api.zero_nv)))
                          g1 after =
                        record {
                          next_eq = u.1.next_eq ∙ t.1.next_eq;
                          map_eq = u.1.map_eq ∙ t.1.map_eq;
                          node_eq = u.1.node_eq;
                          others = λ j l. u.1.others j l ∙ t.1.others j l;
                        } in
                      closing_lem perl s p d _ g g1 after after y.nonzero y.absent q changed u.0
                        (Fills-refl perl p g.heap.next after (
                          Touches-WellFormed p _ g1 after changed
                            (Mapped-WellFormed perl _ s p g g1 y q)))
                        (subst (λ r. Holds perl g.heap.next after s (after.heap.node p) r) (sym e)
                          (
                            ap (λ m. m.type) u.1.node_eq,
                            ap (λ m. m.class_name) u.1.node_eq,
                            ap (λ m. m.pv) u.1.node_eq,
                          ))))))

  pub format_lem :
      (s p : ℕ) (g : Graph NV) (stash name : Option Bytes)
      → perl.contents s ≡ format_of stash name
      → Ready perl.api.zero_nv s p g
      → Gives (Referred perl s p g) (import_format perl grant s p stash name g)
  format_lem s p g none name e y = tt
  format_lem s p g (some stash) none e y = tt
  format_lem s p g (some stash) (some name) e y =
      and_then-Gives _ (Referred perl s p g) (add_mapping perl grant format s p g) _
        (add_mapping-Gives perl grant format s p g y.well_formed.is_map y.nonzero y.absent)
        (λ k g1 q.
          if-Gives (Referred perl s p g) (ltb (size_max - length name - 3) (length stash)) _ _
            (λ x. tt)
            (λ x.
              Gives-map (Changed p (with_pv format (full_name stash name) (g1.heap.node p)) g1)
                (Referred perl s p g) _
                (alloc-Gives perl grant no_format_name p (with_pv format (full_name stash name)) g1)
                (λ c after t.
                  closing_lem perl s p c _ g g1 after after y.nonzero y.absent q t.1 t.0
                    (Fills-refl perl p g.heap.next after
                      (Touches-WellFormed p _ g1 after t.1 (Mapped-WellFormed perl _ s p g g1 y q)))
                    (subst (λ r. Holds perl g.heap.next after s (after.heap.node p) r) (sym e)
                      (ap (λ m. m.type) t.1.node_eq, ap (λ m. m.pv) t.1.node_eq)))))

  module _ (rec : ℕ → Graph NV → Imported ℕ × Graph NV) (spec : Recurses perl R U n rec) where
    pub hash_lem :
        (s p : ℕ) (g : Graph NV) (entries : List (Bytes × ℕ))
        → perl.contents s ≡ hash_of entries
        → Ready perl.api.zero_nv s p g
        → Listed s U
        → missing U g.map < suc n
        → AllValues perl R entries
        → Gives
            (Referred perl s p g)
            (opened perl grant hash s p g (λ q g1. import_entries perl grant rec p entries g1))
    hash_lem s p g entries e y i l a =
        opened-Gives perl grant perl.api.zero_nv (Referred perl s p g) hash s p g _ y.well_formed
          y.nonzero y.absent y.cleared
          (λ g1 g2 k q t.
            let w : WellFormed g2 =
              Touches-WellFormed p _ g1 g2 t (Mapped-WellFormed perl _ s p g g1 y q) in
            Gives-map (HashDone perl p g.heap.next g2 entries) (Referred perl s p g) _
              (import_entries-Gives perl grant R U n rec spec entries p g.heap.next g2
                (record {
                  typed = ap (λ m. m.type) t.node_eq;
                  allocated = omega (arith, y.allocated, q.next_eq, t.next_eq);
                  counted = omega (arith, ap (λ m. length m.hash_entries) t.node_eq);
                  fits = omega (arith, ap (λ m. m.hash_capacity) t.node_eq);
                })
                y.allocated (omega (arith, q.next_eq, t.next_eq)) w
                (Mapped-missing perl U n s p _ g g1 g2 y.nonzero i y.absent q t l) a)
              (λ c after h. closing_lem perl s p c _ g g1 g2 after y.nonzero y.absent q t h.0 h.1 (
                subst (λ r. Holds perl g.heap.next after s (after.heap.node p) r) (sym e)
                  (
                    h.2.0,
                    h.2.1 ∙ ap (λ m. m.class_name) t.node_eq,
                    subst (λ x. EntriesStand perl g.heap.next after entries x)
                        (sym (h.2.3 ∙ ap (λ m. m.hash_entries ++ h.2.2) t.node_eq)) h.2.4,
                  ))))

    pub scalar_lem :
        (s p : ℕ) (g : Graph NV)
        → perl.contents s ≡ scalar_of
        → Ready perl.api.zero_nv s p g
        → Listed s U
        → missing U g.map < suc n
        → R s
        → Gives (Referred perl s p g) (
            opened perl grant scalarref s p g (λ q g1.
              and_then (rec s g1) (λ child g2. (done p, change p (with_scalarref child) g2))))
    scalar_lem s p g e y i l a =
        opened-Gives perl grant perl.api.zero_nv (Referred perl s p g) scalarref s p g _
          y.well_formed y.nonzero y.absent y.cleared
          (λ g1 g2 k q t.
            let w : WellFormed g2 =
              Touches-WellFormed p _ g1 g2 t (Mapped-WellFormed perl _ s p g g1 y q) in
            and_then-Gives _ (Referred perl s p g) (rec s g2) _
              (spec s g2 a w (Mapped-missing perl U n s p _ g g1 g2 y.nonzero i y.absent q t l))
              (λ c g3 u.
                let after : Graph NV = change p (with_scalarref c) g3 in
                let v : Touches p (with_scalarref c (g3.heap.node p)) g3 after =
                  Touches-change p (with_scalarref c) g3 in
                let same : g3.heap.node p ≡ g2.heap.node p =
                  u.grows.others p (omega (arith, y.allocated, q.next_eq, t.next_eq))
                    (omega (arith, y.allocated, q.next_eq, t.next_eq)) in
                let f : Fills perl p g.heap.next g2 after × Stands perl g.heap.next after s c =
                  child_lem perl p g.heap.next s c _ _ g2 g2 g3 after after y.allocated
                    (omega (arith, q.next_eq, t.next_eq))
                    (record { next_eq = refl; map_eq = refl; node_eq = refl; others = λ j d. refl })
                    u v
                    (Fills-refl perl p g.heap.next after
                      (Touches-WellFormed p _ g3 after v u.well_formed)) in
                let node_eq : after.heap.node p
                    ≡ with_scalarref c (
                        classed (sv_class perl s)
                          (with_type scalarref (empty_node perl.api.zero_nv))) =
                  v.node_eq ∙ ap (with_scalarref c) (same ∙ t.node_eq) in
                closing_lem perl s p p _ g g1 g2 after y.nonzero y.absent q t refl f.0 (
                  subst (λ r. Holds perl g.heap.next after s (after.heap.node p) r) (sym e)
                    (
                      ap (λ m. m.type) node_eq,
                      ap (λ m. m.class_name) node_eq,
                      subst (λ x. Stands perl g.heap.next after s x)
                          (sym (ap (λ m. m.scalarref_value) node_eq)) f.1,
                    ))))
