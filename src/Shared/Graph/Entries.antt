-- ===== src/Shared/Graph/Entries.antt =====
-- The loop of `dd_shared_import_value` over a hash.
use developer_dashboard.Common.{
  ℕ, ◌≤◌, ◌<◌, ◌≡◌, ◌∙◌, refl, sym, ap, arith, Bool, List, [], ◌∷◌, ◌++◌, append_assoc, append-nil,
  Bytes, length, length-append,
}
use developer_dashboard.Shared.{hash, HashEntry}
use developer_dashboard.Shared.Hash.{with_entry}
use developer_dashboard.Shared.Hash.Growth.{IsHash}
use developer_dashboard.Shared.Perl.{Perl, Graph, Imported, change}
use developer_dashboard.Shared.Graph.{reserve_entry, import_entries}
use developer_dashboard.Shared.Graph.Missing.{missing, missing_mono}
use developer_dashboard.Shared.Graph.Stands.{WellFormed, EntriesStand}
use developer_dashboard.Shared.Graph.Steps.{
  Gives, Gives-map, and_then-Gives, Touches, Touches-WellFormed, Touches-change, RoomFor,
  reserve_entry-Gives,
}
use developer_dashboard.Shared.Graph.Loops.{
  Imports, Imports-Extends, Fills, Fills-refl, child_lem, Recurses,
}

module _ {NV : Type 0} (perl : Perl NV) where
  abbrev pub AllValues : (ℕ → Type 0) → List (Bytes × ℕ) → Type 0
  AllValues R [] = Unit
  AllValues R (e ∷ entries) = R e.1 × AllValues R entries

  abbrev pub FilledHash : ℕ → ℕ → Graph NV → Graph NV → List (Bytes × ℕ) → Type 0
  FilledHash p lo g after entries =
      ((after.heap.node p).type ≡ hash)
      × ((after.heap.node p).class_name ≡ (g.heap.node p).class_name)
      × (l : List HashEntry) × ((after.heap.node p).hash_entries
          ≡ (g.heap.node p).hash_entries ++ l)
      × EntriesStand perl lo after entries l

  abbrev pub HashDone : ℕ → ℕ → Graph NV → List (Bytes × ℕ) → ℕ → Graph NV → Type 0
  HashDone p lo g entries c after =
      (c ≡ p) × Fills perl p lo g after × FilledHash p lo g after entries

  with_entry-node :
      (p c : ℕ) (key : Bytes) (g1 g2 : Graph NV)
      → g2.heap.node p ≡ g1.heap.node p
      → (change p (λ n. with_entry n key c) g2).heap.node p ≡ with_entry (g1.heap.node p) key c
  with_entry-node p c key g1 g2 e =
      (Touches-change p (λ n. with_entry n key c) g2).node_eq ∙ ap (λ n. with_entry n key c) e

  -- The hash once an entry is there.
  with_entry-IsHash :
      (p c : ℕ) (key : Bytes) (g g1 g2 : Graph NV)
      → RoomFor p g g1
      → g1.heap.next ≤ g2.heap.next
      → g2.heap.node p ≡ g1.heap.node p
      → IsHash (change p (λ n. with_entry n key c) g2).heap p
  with_entry-IsHash p c key g g1 g2 r l e =
      let node_eq = with_entry-node p c key g1 g2 e in
      record {
        typed = ap (λ n. n.type) node_eq ∙ r.inv.typed;
        allocated = omega (arith, r.inv.allocated, l);
        counted = omega (
          arith,
          ap (λ n. length n.hash_entries) node_eq,
          ap (λ n. n.hash_capacity) node_eq,
          length-append (g1.heap.node p).hash_entries (record { key = key; value = c } ∷ []),
          ap length r.entries_eq,
          r.room,
        );
        fits = omega (arith, ap (λ n. n.hash_capacity) node_eq, r.inv.fits);
      }

  RoomFor-Touches : (p : ℕ) (g g1 : Graph NV) → RoomFor p g g1 → Touches p (g1.heap.node p) g g1
  RoomFor-Touches p g g1 r = record {
    next_eq = r.next_eq;
    map_eq = r.map_eq;
    node_eq = refl;
    others = r.others;
  }

  -- An entry and those behind it.
  entry_lem :
      (p lo c : ℕ) (e : Bytes × ℕ) (entries : List (Bytes × ℕ)) (g g1 g2 after : Graph NV)
      → p < lo
      → lo ≤ g.heap.next
      → RoomFor p g g1
      → Imports perl e.1 g1 c g2
      → g2.heap.node p ≡ g1.heap.node p
      → Fills perl p lo (change p (λ n. with_entry n e.0 c) g2) after
      → FilledHash p lo (change p (λ n. with_entry n e.0 c) g2) after entries
      → Fills perl p lo g after × FilledHash p lo g after (e ∷ entries)
  entry_lem p lo c e entries g g1 g2 after b le r u q f h =
      let (fills, stands) =
        child_lem perl p lo e.1 c _ _ g g1 g2 _ after b le (RoomFor-Touches p g g1 r) u
          (Touches-change p (λ n. with_entry n e.0 c) g2) f in
      let node_eq = with_entry-node p c e.0 g1 g2 q in
      (
        fills,
        (
          h.0,
          h.1 ∙ ap (λ n. n.class_name) node_eq ∙ r.class_eq,
          record { key = e.0; value = c } ∷ h.2,
          h.3
              ∙ ap (λ n. n.hash_entries ++ h.2) node_eq
              ∙ append_assoc (g1.heap.node p).hash_entries _ h.2
              ∙ ap (λ l. l ++ (record { key = e.0; value = c } ∷ h.2)) r.entries_eq,
          (refl, stands, h.4),
        ),
      )

  module _ (grant : ℕ → Bool) (R : ℕ → Type 0) (U : List ℕ) (n : ℕ)
      (rec : ℕ → Graph NV → Imported ℕ × Graph NV) (spec : Recurses perl R U n rec) where
    pub import_entries-Gives :
        (entries : List (Bytes × ℕ)) (p lo : ℕ) (g : Graph NV)
        → IsHash g.heap p
        → p < lo
        → lo ≤ g.heap.next
        → WellFormed g
        → missing U g.map < n
        → AllValues R entries
        → Gives (HashDone p lo g entries) (import_entries perl grant rec p entries g)
    unfolding import_entries
    import_entries-Gives [] p lo g i b le w m a =
        (refl, Fills-refl perl p lo g w, (i.typed, refl, [], sym (append-nil _), tt))
    import_entries-Gives (e ∷ entries) p lo g i b le w m a =
        and_then-Gives _ _ (reserve_entry perl grant p e.0 g) _
          (reserve_entry-Gives perl grant p e.0 g i)
          (λ k g1 r.
            let t = RoomFor-Touches p g g1 r in
            let few : missing U g1.map < n = omega (arith, m, ap (λ x. missing U x) r.map_eq) in
            and_then-Gives _ _ (rec e.1 g1) _
              (spec e.1 g1 a.0 (Touches-WellFormed p _ g g1 t w) few)
              (λ c g2 u.
                let q : g2.heap.node p ≡ g1.heap.node p =
                  u.grows.others p (omega (arith, b, le, r.next_eq))
                    (omega (arith, b, le, r.next_eq)) in
                Gives-map (HashDone p lo (change p (λ n. with_entry n e.0 c) g2) entries)
                  (HashDone p lo g (e ∷ entries)) _
                  (import_entries-Gives entries p lo (change p (λ n. with_entry n e.0 c) g2)
                    (with_entry-IsHash p c e.0 g g1 g2 r u.grows.next_le q) b
                    (omega (arith, le, r.next_eq, u.grows.next_le))
                    (Touches-WellFormed p _ g2 _ (Touches-change p (λ n. with_entry n e.0 c) g2)
                      u.well_formed)
                    (omega (
                      arith,
                      few,
                      missing_mono U g1.map g2.map (Imports-Extends perl e.1 g1 c g2 u),
                    ))
                    a.1)
                  (λ d after h.
                    let f = entry_lem p lo c e entries g g1 g2 after b le r u q h.1 h.2 in
                    (h.0, f.0, f.1))))
