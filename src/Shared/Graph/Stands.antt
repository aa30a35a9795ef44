-- ===== src/Shared/Graph/Stands.antt =====
-- What it means that a node stands for a Perl value, and what an import leaves as it was.
use developer_dashboard.Common.{
  ℕ, ◌+◌, ◌≤◌, ◌<◌, ◌≡◌, ◌≢◌, ◌∙◌, refl, sym, ap, subst, arith, true, List, [], ◌∷◌, Option, none,
  some, Bytes, length,
}
use developer_dashboard.Shared.{hash, array, scalarref, regexp, format, HashEntry, SharedNode}
use developer_dashboard.Shared.Array.{slot}
use developer_dashboard.Shared.Scalar.{import_scalar}
use developer_dashboard.Shared.Import.{import_find, IsMap}
use developer_dashboard.Shared.Perl.{
  Perl, Referent, hash_of, regexp_of, format_of, array_of, scalar_of, other_of, Graph, full_name,
  sv_class,
}

-- A class whose name is empty is none.
abbrev pub class_text : Option Bytes → Option Bytes
class_text none = none
class_text (some []) = none
class_text (some (c ∷ name)) = some (c ∷ name)

module _ {NV : Type 0} where
  -- All nodes but `x` are as they were, and what had a node has it still.
  pub record Grows (x : ℕ) (g after : Graph NV) : Type 0 where
    pub next_le : g.heap.next ≤ after.heap.next
    pub others : (q : ℕ) → q < g.heap.next → q ≢ x → after.heap.node q ≡ g.heap.node q
    pub map_kept : (s : ℕ) → import_find g.map s ≢ 0 → import_find after.map s ≡ import_find g.map s

  -- What has a node has one of its own.
  pub record WellFormed (g : Graph NV) : Type 0 where
    pub nonnull : 0 < g.heap.next
    pub is_map : IsMap g.map
    pub below : (s : ℕ) → import_find g.map s < g.heap.next
    pub injective :
        (s t : ℕ) → import_find g.map s ≢ 0 → import_find g.map s ≡ import_find g.map t → s ≡ t

  pub WellFormed-keep :
      (g after : Graph NV)
      → after.map ≡ g.map
      → g.heap.next ≤ after.heap.next
      → WellFormed g
      → WellFormed after
  WellFormed-keep g after e l w = record {
    nonnull = omega (arith, l, w.nonnull);
    is_map = subst IsMap (sym e) w.is_map;
    below = λ s. omega (arith, ap (λ m. import_find m s) e, w.below s, l);
    injective = λ s t d q.
        w.injective s t (λ z. d (ap (λ m. import_find m s) e ∙ z))
          (sym (ap (λ m. import_find m s) e) ∙ q ∙ ap (λ m. import_find m t) e);
  }

  pub Grows-refl : (x : ℕ) (g : Graph NV) → Grows x g g
  Grows-refl x g = record { next_le = omega arith; others = λ q l n. refl; map_kept = λ s n. refl }

  pub Grows-trans : (x : ℕ) (a b c : Graph NV) → Grows x a b → Grows x b c → Grows x a c
  Grows-trans x a b c u v = record {
    next_le = omega (arith, u.next_le, v.next_le);
    others = λ q l n. v.others q (omega (arith, l, u.next_le)) n ∙ u.others q l n;
    map_kept = λ s n. v.map_kept s (λ e. n (sym (u.map_kept s n) ∙ e)) ∙ u.map_kept s n;
  }

  -- No node that was there has changed.
  pub Grows-any : (x : ℕ) (g after : Graph NV) → Grows g.heap.next g after → Grows x g after
  Grows-any x g after u = record {
    next_le = u.next_le;
    others = λ q l n. u.others q l (omega (arith, l));
    map_kept = u.map_kept;
  }

module _ {NV : Type 0} (perl : Perl NV) where
  -- A value that is no reference has a node of its own, from `lo` on; one that is a reference has the
  -- node of what it refers to.
  abbrev pub StandsFor : ℕ → Graph NV → ℕ → ℕ → Option ℕ → Type 0
  StandsFor lo g v c none =
      (lo ≤ c) × (c < g.heap.next) × (g.heap.node c ≡ (import_scalar perl.api true v).1)
  StandsFor lo g v c (some r) = (c ≢ 0) × (import_find g.map r ≡ c)

  abbrev pub Stands : ℕ → Graph NV → ℕ → ℕ → Type 0
  Stands lo g v c = StandsFor lo g v c (perl.rv v)

  abbrev pub EntriesStand : ℕ → Graph NV → List (Bytes × ℕ) → List HashEntry → Type 0
  EntriesStand lo g [] [] = Unit
  EntriesStand lo g (p ∷ entries) (e ∷ l) =
      (e.key ≡ p.0) × Stands lo g p.1 e.value × EntriesStand lo g entries l
  EntriesStand lo g _ _ = ⊥

  -- A slot that av_fetch does not find is NULL.
  abbrev pub ItemStands : ℕ → Graph NV → Option ℕ → ℕ → Type 0
  ItemStands lo g none c = c ≡ 0
  ItemStands lo g (some v) c = Stands lo g v c

  abbrev pub ItemsStand : ℕ → Graph NV → List (Option ℕ) → ℕ → List ℕ → Type 0
  ItemsStand lo g [] i slots = Unit
  ItemsStand lo g (item ∷ items) i slots =
      ItemStands lo g item (slot slots i) × ItemsStand lo g items (i + 1) slots

  -- The node holds what is read behind a reference to `s`.
  abbrev pub Holds : ℕ → Graph NV → ℕ → SharedNode NV → Referent → Type 0
  Holds lo g s n (hash_of entries) =
      (n.type ≡ hash)
      × (n.class_name ≡ class_text (sv_class perl s))
      × EntriesStand lo g entries n.hash_entries
  Holds lo g s n regexp_of =
      (n.type ≡ regexp)
      × (n.class_name ≡ class_text (sv_class perl s))
      × (n.pv ≡ some (perl.pattern s))
  Holds lo g s n (format_of (some stash) (some name)) =
      (n.type ≡ format) × (n.pv ≡ some (full_name stash name))
  Holds lo g s n (format_of _ _) = ⊥
  Holds lo g s n (array_of items) =
      (n.type ≡ array)
      × (n.class_name ≡ class_text (sv_class perl s))
      × (n.array_size ≡ length items)
      × ItemsStand lo g items 0 n.array_items
  Holds lo g s n scalar_of =
      (n.type ≡ scalarref)
      × (n.class_name ≡ class_text (sv_class perl s))
      × Stands lo g s n.scalarref_value
  Holds lo g s n (other_of type_name) = ⊥

  abbrev pub Content : ℕ → Graph NV → ℕ → ℕ → Type 0
  Content lo g s c = Holds lo g s (g.heap.node c) (perl.contents s)

  -- What has a node now and had none has one that holds it.
  abbrev pub Finished : ℕ → Graph NV → Graph NV → Type 0
  Finished lo g after =
      (s : ℕ)
      → import_find g.map s ≡ 0
      → import_find after.map s ≢ 0
      → (lo ≤ import_find after.map s)
        × (import_find after.map s < after.heap.next)
        × Content lo after s (import_find after.map s)

  -- The nodes from `low` on outlast a growth that changes a node below it.
  module _ (low lo x : ℕ) (g after : Graph NV) (u : Grows x g after) (b : x < lo)
      (le : low ≤ lo) where
    pub Stands-Grows : (v c : ℕ) → Stands lo g v c → Stands low after v c
    Stands-Grows v c = for_value (perl.rv v)
      where
        for_value : (r : Option ℕ) → StandsFor lo g v c r → StandsFor low after v c r
        for_value none h = (
          omega (arith, h.0, le),
          omega (arith, h.1, u.next_le),
          u.others c h.1 (λ e. omega (arith, e, h.0, b)) ∙ h.2,
        )
        for_value (some r) h = (h.0, u.map_kept r (λ e. h.0 (sym h.1 ∙ e)) ∙ h.1)

    pub EntriesStand-Grows :
        (entries : List (Bytes × ℕ)) (l : List HashEntry)
        → EntriesStand lo g entries l
        → EntriesStand low after entries l
    EntriesStand-Grows [] [] h = h
    EntriesStand-Grows (p ∷ entries) (e ∷ l) h =
        (h.0, Stands-Grows p.1 e.value h.1, EntriesStand-Grows entries l h.2)
    EntriesStand-Grows [] (e ∷ l) h = elim h [ ]
    EntriesStand-Grows (p ∷ entries) [] h = elim h [ ]

    pub ItemStands-Grows :
        (item : Option ℕ) (c : ℕ) → ItemStands lo g item c → ItemStands low after item c
    ItemStands-Grows none c h = h
    ItemStands-Grows (some v) c h = Stands-Grows v c h

    pub ItemsStand-Grows :
        (items : List (Option ℕ)) (i : ℕ) (slots : List ℕ)
        → ItemsStand lo g items i slots
        → ItemsStand low after items i slots
    ItemsStand-Grows [] i slots h = h
    ItemsStand-Grows (item ∷ items) i slots h =
        (ItemStands-Grows item (slot slots i) h.0, ItemsStand-Grows items (i + 1) slots h.1)

    pub Holds-Grows :
        (s : ℕ) (n : SharedNode NV) (r : Referent) → Holds lo g s n r → Holds low after s n r
    Holds-Grows s n (hash_of entries) h = (h.0, h.1, EntriesStand-Grows entries n.hash_entries h.2)
    Holds-Grows s n regexp_of h = h
    Holds-Grows s n (format_of (some stash) (some name)) h = h
    Holds-Grows s n (format_of none name) h = h
    Holds-Grows s n (format_of (some stash) none) h = h
    Holds-Grows s n (array_of items) h = (h.0, h.1, h.2, ItemsStand-Grows items 0 n.array_items h.3)
    Holds-Grows s n scalar_of h = (h.0, h.1, Stands-Grows s n.scalarref_value h.2)
    Holds-Grows s n (other_of type_name) h = h

    pub Content-Grows :
        (s c : ℕ) → lo ≤ c → c < g.heap.next → Content lo g s c → Content low after s c
    Content-Grows s c l k h =
        subst (λ n. Holds low after s n (perl.contents s))
          (sym (u.others c k (λ e. omega (arith, e, l, b))))
          (Holds-Grows s (g.heap.node c) (perl.contents s) h)
