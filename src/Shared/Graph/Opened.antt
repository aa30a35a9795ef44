-- ===== src/Shared/Graph/Opened.antt =====
-- What `dd_shared_import_value` makes of a reference to what had no node.
use developer_dashboard.Common.{ℕ, suc, ◌≤◌, ◌<◌, ◌≡◌, ◌≢◌, ◌∙◌, refl, sym, ap, arith, Bool, List}
use developer_dashboard.Shared.{SharedType, SharedNode, empty_node}
use developer_dashboard.Shared.Import.{import_find}
use developer_dashboard.Shared.Perl.{
  Perl, Graph, Imported, Referent, hash_of, array_of, scalar_of, change, with_type, sv_class,
  no_object_class,
}
use developer_dashboard.Shared.Graph.{add_mapping, opened}
use developer_dashboard.Shared.Graph.Missing.{missing, missing_less, Listed}
use developer_dashboard.Shared.Graph.Stands.{Grows, Grows-trans, WellFormed, Content}
use developer_dashboard.Shared.Graph.Steps.{
  Gives, and_then-Gives, Touches, Touches-Grows, Touches-change, Mapped, add_mapping-Gives,
  set_class-Gives, classed,
}
use developer_dashboard.Shared.Graph.Loops.{Fills}
use developer_dashboard.Shared.Graph.Entries.{AllValues}
use developer_dashboard.Shared.Graph.Items.{AllItems}

-- The referent `s` has no node, and `p` is a node that has been cleared for it.
pub record Ready {NV : Type 0} (z : NV) (s p : ℕ) (g : Graph NV) : Type 0 where
  pub well_formed : WellFormed g
  pub nonzero : p ≢ 0
  pub allocated : p < g.heap.next
  pub absent : import_find g.map s ≡ 0
  pub unused : (r : ℕ) → import_find g.map r ≢ p
  pub cleared : g.heap.node p ≡ empty_node z

module _ {NV : Type 0} (perl : Perl NV) where
  -- What is reached from a referent is in R.
  abbrev pub Reaches : (ℕ → Type 0) → ℕ → Referent → Type 0
  Reaches R s (hash_of entries) = AllValues perl R entries
  Reaches R s (array_of items) = AllItems perl R items
  Reaches R s scalar_of = R s
  Reaches R s _ = Unit

  -- The node `p` holds the referent `s`, and what else has a node now holds it in nodes behind `p`.
  pub record Referred (s p : ℕ) (g : Graph NV) (c : ℕ) (after : Graph NV) : Type 0 where
    pub result : c ≡ p
    pub grows : Grows p g after
    pub well_formed : WellFormed after
    pub mapped : import_find after.map s ≡ p
    pub content : Content perl g.heap.next after s p
    pub finished :
        (r : ℕ)
        → r ≢ s
        → import_find g.map r ≡ 0
        → import_find after.map r ≢ 0
        → (g.heap.next ≤ import_find after.map r)
          × (import_find after.map r < after.heap.next)
          × Content perl g.heap.next after r (import_find after.map r)

  -- The mapping, a change of the node and the rest, put together.
  pub closing_lem :
      (s p c : ℕ) (m : SharedNode NV) (g g1 g2 after : Graph NV)
      → p ≢ 0
      → import_find g.map s ≡ 0
      → Mapped s p g g1
      → Touches p m g1 g2
      → c ≡ p
      → Fills perl p g.heap.next g2 after
      → Content perl g.heap.next after s p
      → Referred s p g c after
  closing_lem s p c m g g1 g2 after nz z q t r f k =
      let kept : Grows p g g1 = record {
        next_le = omega (arith, q.next_eq);
        others = λ x l d. q.nodes x;
        map_kept = λ x d. ground (arith, q.finds x, d, z);
      } in
      let found : import_find g2.map s ≡ p =
        ap (λ x. import_find x s) t.map_eq ∙ ground (arith, q.finds s) in
      record {
        result = r;
        grows =
            Grows-trans p g g1 after kept
              (Grows-trans p g1 g2 after (Touches-Grows p m g1 g2 t) f.grows);
        well_formed = f.well_formed;
        mapped = f.grows.map_kept s (λ e. nz (sym found ∙ e)) ∙ found;
        content = k;
        finished = λ x d a b.
            f.finished x (ap (λ y. import_find y x) t.map_eq ∙ ground (arith, q.finds x, a, d)) b;
      }

  pub Mapped-WellFormed :
      (z : NV) (s p : ℕ) (g g1 : Graph NV) → Ready z s p g → Mapped s p g g1 → WellFormed g1
  Mapped-WellFormed z s p g g1 y q = record {
    nonnull = omega (arith, q.next_eq, y.well_formed.nonnull);
    is_map = q.is_map;
    below = λ r. ground (arith, q.finds r, q.next_eq, y.well_formed.below r, y.allocated);
    injective = λ r t d e.
        ground
          (arith, q.finds r, q.finds t, d, e, y.unused r, y.unused t, y.well_formed.injective r t);
  }

  -- One referent fewer has no node.
  pub Mapped-missing :
      (U : List ℕ) (n s p : ℕ) (m : SharedNode NV) (g g1 g2 : Graph NV)
      → p ≢ 0
      → Listed s U
      → import_find g.map s ≡ 0
      → Mapped s p g g1
      → Touches p m g1 g2
      → missing U g.map < suc n
      → missing U g2.map < n
  Mapped-missing U n s p m g g1 g2 nz i z q t l = omega (
    arith,
    ap (λ x. missing U x) t.map_eq,
    missing_less U g.map g1.map s (λ x d. ground (arith, q.finds x, d, nz)) i z
        (ground (arith, q.finds s, nz)),
    l,
  )

  module _ (grant : ℕ → Bool) (z : NV) where
    pub opened-Gives :
        (P : ℕ → Graph NV → Type 0)
        → (t : SharedType) (s p : ℕ) (g : Graph NV) (next : ℕ → Graph NV → Imported ℕ × Graph NV)
        → WellFormed g
        → p ≢ 0
        → import_find g.map s ≡ 0
        → g.heap.node p ≡ empty_node z
        → ((g1 g2 : Graph NV) (c : ℕ)
            → Mapped s p g g1
            → Touches p (classed (sv_class perl s) (with_type t (empty_node z))) g1 g2
            → Gives P (next c g2))
        → Gives P (opened perl grant t s p g next)
    opened-Gives P t s p g next w nz h e f =
        and_then-Gives _ P (add_mapping perl grant t s p g) _
          (add_mapping-Gives perl grant t s p g w.is_map nz h)
          (λ k g1 q.
            let typed = Touches-change p (λ n. with_type t n) g1 in
            and_then-Gives _ P _ next
              (set_class-Gives perl grant no_object_class p (sv_class perl s)
                (with_type t (empty_node z)) (change p (with_type t) g1)
                (typed.node_eq ∙ ap (λ n. with_type t n) (q.nodes p ∙ e)) refl)
              (λ c g2 u. f g1 g2 c q (record {
                next_eq = u.1.next_eq ∙ typed.next_eq;
                map_eq = u.1.map_eq ∙ typed.map_eq;
                node_eq = u.1.node_eq;
                others = λ x d. u.1.others x d ∙ typed.others x d;
              })))
