-- ===== src/Shared/Graph/Loops.antt =====
-- The loops of `dd_shared_import_value` over a hash and over an array: every child that is imported stands
-- for its value at the end, though what comes later changes the graph.
use developer_dashboard.Common.{
  ℕ, zero, suc, ◌≤◌, ◌<◌, ◌≡◌, ◌≢◌, ◌∙◌, refl, sym, ap, subst, arith, Bool-cases, inl, inr, List,
  ◌==◌, ◌⊎◌,
}
use developer_dashboard.Shared.{SharedNode}
use developer_dashboard.Shared.Import.{import_find}
use developer_dashboard.Shared.Perl.{Perl, Graph, Imported}
use developer_dashboard.Shared.Graph.Missing.{missing, Extends}
use developer_dashboard.Shared.Graph.Stands.{
  Grows, Grows-refl, Grows-trans, Grows-any, WellFormed, Stands, Finished, Content, Stands-Grows,
  Content-Grows,
}
use developer_dashboard.Shared.Graph.Steps.{Gives, Touches, Touches-Grows}

pub zero_or : (n : ℕ) → (n ≡ 0) ⊎ (n ≢ 0)
zero_or zero = inl refl
zero_or (suc n) = inr (omega arith)

pub same_or : (r s : ℕ) → (r ≡ s) ⊎ (r ≢ s)
same_or r s = elim (Bool-cases (r == s)) [
  | inl e ↦ inl (ground (arith, e))
  | inr e ↦ inr (ground (arith, e))
]

module _ {NV : Type 0} (perl : Perl NV) where
  -- What the import of a value comes to.
  pub record Imports (v : ℕ) (g : Graph NV) (c : ℕ) (after : Graph NV) : Type 0 where
    pub grows : Grows g.heap.next g after
    pub well_formed : WellFormed after
    pub finished : Finished perl g.heap.next g after
    pub stands : Stands perl g.heap.next after v c

  pub Imports-Extends :
      (v : ℕ) (g : Graph NV) (c : ℕ) (after : Graph NV)
      → Imports v g c after
      → Extends g.map after.map
  Imports-Extends v g c after u s d e = d (sym (u.grows.map_kept s d) ∙ e)

  -- What a part of the import of what stands at `p` comes to; its children are nodes from `lo` on.
  pub record Fills (p lo : ℕ) (g after : Graph NV) : Type 0 where
    pub grows : Grows p g after
    pub well_formed : WellFormed after
    pub finished : Finished perl lo g after

  -- A child is imported between two changes of the node itself.
  pub child_lem :
      (p lo v c : ℕ) (m n : SharedNode NV) (g g1 g2 g3 after : Graph NV)
      → p < lo
      → lo ≤ g.heap.next
      → Touches p m g g1
      → Imports v g1 c g2
      → Touches p n g2 g3
      → Fills p lo g3 after
      → Fills p lo g after × Stands perl lo after v c
  child_lem p lo v c m n g g1 g2 g3 after b le t i u f = (
    record {
      grows =
          Grows-trans p g g1 after (Touches-Grows p m g g1 t)
            (Grows-trans p g1 g2 after (Grows-any p g1 g2 i.grows) later);
      well_formed = f.well_formed;
      finished = λ s z d. elim (zero_or (import_find g2.map s)) [
        | inl absent ↦ f.finished s (ap (λ k. import_find k s) u.map_eq ∙ absent) d
        | inr present ↦
            let (a, l, h) = i.finished s (ap (λ k. import_find k s) t.map_eq ∙ z) present in
            subst (λ k. (lo ≤ k) × (k < after.heap.next) × Content perl lo after s k)
              (sym (later.map_kept s present))
              (
                omega (arith, a, le, t.next_eq),
                omega (arith, l, later.next_le),
                Content-Grows perl lo g1.heap.next p g2 after later below at_least s _ a l h,
              )
      ];
    },
    Stands-Grows perl lo g1.heap.next p g2 after later below at_least v c i.stands,
  )
    where
      later : Grows p g2 after
      later = Grows-trans p g2 g3 after (Touches-Grows p n g2 g3 u) f.grows

      below : p < g1.heap.next
      below = omega (arith, b, le, t.next_eq)

      at_least : lo ≤ g1.heap.next
      at_least = omega (arith, le, t.next_eq)

  -- Nothing is left to do.
  pub Fills-refl : (p lo : ℕ) (g : Graph NV) → WellFormed g → Fills p lo g g
  Fills-refl p lo g w = record {
    grows = Grows-refl p g;
    well_formed = w;
    finished = λ s z d. elim (d z) [ ];
  }

  -- What an import by `rec` comes to, for values of `R` whose referents are in the list `U`, as long as
  -- fewer than `n` of them have no node.
  abbrev pub Recurses : (ℕ → Type 0) → List ℕ → ℕ → (ℕ → Graph NV → Imported ℕ × Graph NV) → Type 0
  Recurses R U n rec =
      (v : ℕ) (g : Graph NV)
      → R v
      → WellFormed g
      → missing U g.map < n
      → Gives (λ c after. Imports v g c after) (rec v g)
