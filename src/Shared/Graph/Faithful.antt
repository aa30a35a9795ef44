-- ===== src/Shared/Graph/Faithful.antt =====
-- `dd_shared_import_into` ends, and its nodes have the shape of the Perl values.
use developer_dashboard.Common.{
  ℕ, zero, suc, ◌<◌, ◌≡◌, ◌≢◌, ◌∙◌, refl, sym, ap, subst, arith, Bool, true, inl, inr, List, Option,
  none, some, length, ◌==◌,
}
use developer_dashboard.Shared.{empty_node}
use developer_dashboard.Shared.Heap.{Heap}
use developer_dashboard.Shared.Import.{import_find, find_source}
use developer_dashboard.Shared.Perl.{Perl, Graph, change}
use developer_dashboard.Shared.Graph.Stands.{WellFormed, Content}
use developer_dashboard.Shared.Graph.Steps.{Gives, Gives-map, if-Gives, Touches, Touches-change}
use developer_dashboard.Shared.Graph.Loops.{same_or}
use developer_dashboard.Shared.Graph.Opened.{Referred}
use developer_dashboard.Shared.Scalar.{import_scalar}
use developer_dashboard.Shared.Perl.{no_map}
use developer_dashboard.Shared.Graph.{import_behind, import_value, import_into}
use developer_dashboard.Shared.Graph.Missing.{missing-length}
use developer_dashboard.Shared.Graph.Stands.{WellFormed-keep}
use developer_dashboard.Shared.Graph.Steps.{store_scalar-Gives}
use developer_dashboard.Shared.Graph.Kinds.{Changed}
use developer_dashboard.Shared.Graph.Values.{
  IsFinite, import_referent-Gives, import_value-Gives, Content-weaken,
}

module _ {NV : Type 0} (perl : Perl NV) where
  abbrev pub Root : Graph NV → ℕ → ℕ → Option ℕ → Type 0
  Root g v d none = g.heap.node d ≡ (import_scalar perl.api true v).1
  Root g v d (some s) = import_find g.map s ≡ d

  -- The graph behind `v` stands at the node `d`, and the other nodes of `h` are as they were. What is
  -- read behind each referent stands in its node: the keys and values of a hash, the slots of an array,
  -- the text of a regular expression, the name of a format, the target of a reference, and the class.
  pub record IsCopy (d v : ℕ) (h : Heap NV) (c : ℕ) (after : Graph NV) : Type 0 where
    pub result : c ≡ d
    pub root : Root after v d (perl.rv v)
    pub holds :
        (s : ℕ) → import_find after.map s ≢ 0 → Content perl 0 after s (import_find after.map s)
    pub injective :
        (s t : ℕ)
        → import_find after.map s ≢ 0
        → import_find after.map s ≡ import_find after.map t
        → s ≡ t
    pub others : (q : ℕ) → q < h.next → q ≢ d → after.heap.node q ≡ h.node q

  abbrev start : Heap NV → Graph NV
  start h = record { heap = h; map = no_map }

  start-WellFormed : (h : Heap NV) → 0 < h.next → WellFormed (start h)
  unfolding import_find find_source
  start-WellFormed h l = record {
    nonnull = l;
    is_map = record { within = omega arith; fits = omega arith; nodes = tt };
    below = λ s. l;
    injective = λ s t d e. elim (d refl) [ ];
  }

  not_mapped : (s : ℕ) → import_find no_map s ≡ 0
  unfolding import_find find_source
  not_mapped s = refl

  scalar_copied :
      (d v c : ℕ) (h : Heap NV) (after : Graph NV)
      → perl.rv v ≡ none
      → Changed d (import_scalar perl.api true v).1 (start h) c after
      → IsCopy d v h c after
  scalar_copied d v c h after e t =
      let absent : (s : ℕ) → import_find after.map s ≡ 0 =
        λ s. ap (λ m. import_find m s) t.1.map_eq ∙ not_mapped s in
      record {
        result = t.0;
        root = subst (λ o. Root after v d o) (sym e) t.1.node_eq;
        holds = λ s n. elim (n (absent s)) [ ];
        injective = λ s u n q. elim (n (absent s)) [ ];
        others = λ q l n. t.1.others q n;
      }

  referent_copied :
      (d v s c : ℕ) (h : Heap NV) (g1 after : Graph NV)
      → perl.rv v ≡ some s
      → 0 < h.next
      → Touches d (empty_node perl.api.zero_nv) (start h) g1
      → Referred perl s d g1 c after
      → IsCopy d v h c after
  referent_copied d v s c h g1 after e z t r =
      let pos : 0 < g1.heap.next = omega (arith, z, t.next_eq) in
      record {
        result = r.result;
        root = subst (λ o. Root after v d o) (sym e) r.mapped;
        holds = λ x n. elim (same_or x s) [
          | inl q ↦
              subst (λ y. Content perl 0 after y (import_find after.map y)) (sym q)
                (Content-weaken perl 0 g1.heap.next after s _ (omega arith) pos
                  (subst (λ k. Content perl g1.heap.next after s k) (sym r.mapped) r.content))
          | inr q ↦
              Content-weaken perl 0 g1.heap.next after x _ (omega arith) pos
                (r.finished x q (ap (λ m. import_find m x) t.map_eq ∙ not_mapped x) n).2
        ];
        injective = r.well_formed.injective;
        others = λ q l n. r.grows.others q (omega (arith, l, t.next_eq)) n ∙ t.others q n;
      }

  module _ (grant : ℕ → Bool) (R : ℕ → Type 0) (U : List ℕ) (fin : IsFinite perl grant R U) where
    import_root-Gives :
        (n d v : ℕ) (o : Option ℕ) (h : Heap NV)
        → perl.rv v ≡ o
        → R v
        → 0 < h.next
        → d ≢ 0
        → d < h.next
        → length U < suc n
        → Gives (IsCopy d v h) (
            import_behind perl grant
              (λ x g. import_value perl grant n none x g)
              (some d)
              v
              o
              (start h))
    import_root-Gives n d v none h e a z nz l m =
        Gives-map (Changed d (import_scalar perl.api true v).1 (start h)) (IsCopy d v h) _
          (store_scalar-Gives perl grant d v (start h))
          (λ c after t. scalar_copied d v c h after e t)
    import_root-Gives n d v (some s) h e a z nz l m =
        if-Gives (IsCopy d v h) (import_find no_map s == 0) _ _
          (λ absent.
            let g1 : Graph NV = change d (λ k. empty_node perl.api.zero_nv) (start h) in
            let t : Touches d (empty_node perl.api.zero_nv) (start h) g1 =
              Touches-change d (λ k. empty_node perl.api.zero_nv) (start h) in
            let f = fin.behind v s a e in
            Gives-map (Referred perl s d g1) (IsCopy d v h) _
              (import_referent-Gives perl grant R U n _ (import_value-Gives perl grant R U fin n) s
                d g1 (perl.contents s) refl
                (record {
                  well_formed =
                      WellFormed-keep (start h) g1 refl (omega arith) (start-WellFormed h z);
                  nonzero = nz;
                  allocated = l;
                  absent = not_mapped s;
                  unused = λ r q. nz (sym q ∙ not_mapped r);
                  cleared = t.node_eq;
                })
                f.0 (omega (arith, m, missing-length U no_map)) f.1)
              (λ c after r. referent_copied d v s c h g1 after e z t r))
          (λ present. ground (arith, present, not_mapped s))

    -- For a Perl value that refers to finitely many things, whatever aliases and cycles there are, and fuel
    -- for each of them, the import into a node that is there either is refused or gives a copy: the node
    -- stands for the value, what is read behind each referent stands in a node of its own, the same one
    -- wherever it is referred to, and no other node that was there has changed.
    pub import_into-IsCopy :
        (fuel d v : ℕ) (h : Heap NV)
        → R v
        → 0 < h.next
        → d ≢ 0
        → d < h.next
        → length U < fuel
        → Gives (IsCopy d v h) (import_into perl grant fuel d v h)
    unfolding import_into import_value
    import_into-IsCopy zero d v h a z nz l m = omega (arith, m)
    import_into-IsCopy (suc n) d v h a z nz l m =
        import_root-Gives n d v (perl.rv v) h refl a z nz l m
