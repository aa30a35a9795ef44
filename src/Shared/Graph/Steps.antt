-- ===== src/Shared/Graph/Steps.antt =====
-- What each step of `dd_shared_import_value` does to the graph where it succeeds.
use developer_dashboard.Common.{
  ℕ, ◌+◌, ◌-◌, ◌≤◌, ◌≡◌, ◌≢◌, ◌∙◌, refl, ap, subst, arith, Bool, Bool-cases, true, false, inl, inr,
  [], ◌∷◌, Option, none, some, Bytes, length, ◌==◌, leb, if◌then◌else◌,
}
use developer_dashboard.Shared.{SharedNode, SharedType}
use developer_dashboard.Shared.Heap.{Heap, ok, update}
use developer_dashboard.Shared.Hash.{hash_count}
use developer_dashboard.Shared.Reserve.{size_max}
use developer_dashboard.Shared.Hash.Growth.{IsHash, Reserved, hash_reserve_lem}
use developer_dashboard.Shared.Scalar.{import_scalar}
use developer_dashboard.Shared.Import.{import_find, import_add, IsMap, Added, import_add-Added}
use developer_dashboard.Shared.Perl.{
  Perl, Graph, Imported, ImportError, done, refused, unfinished, and_then, change,
}
use developer_dashboard.Shared.Graph.{
  set_class, alloc, store_scalar, add_mapping, reserve_entry, entry_reserved,
}
use developer_dashboard.Shared.Graph.Stands.{Grows, WellFormed, WellFormed-keep, class_text}

-- A run that succeeds gives what Q says; it may be refused, but it is not unfinished.
abbrev pub Gives : {NV A : Type 0} → (A → Graph NV → Type 0) → Imported A × Graph NV → Type 0
Gives Q (done a, g) = Q a g
Gives Q (refused e, g) = Unit
Gives Q (unfinished, g) = ⊥

pub and_then-Gives :
    {NV A B : Type 0}
    → (Q : A → Graph NV → Type 0) (P : B → Graph NV → Type 0)
    → (r : Imported A × Graph NV) (next : A → Graph NV → Imported B × Graph NV) → Gives Q r
    → ((a : A) (g : Graph NV) → Q a g → Gives P (next a g))
    → Gives P (and_then r next)
and_then-Gives Q P (done a, g) next h f = f a g h
and_then-Gives Q P (refused e, g) next h f = tt
and_then-Gives Q P (unfinished, g) next h f = elim h [ ]

pub Gives-map :
    {NV A : Type 0}
    → (Q P : A → Graph NV → Type 0) (r : Imported A × Graph NV) → Gives Q r
    → ((a : A) (g : Graph NV) → Q a g → P a g)
    → Gives P r
Gives-map Q P (done a, g) h f = f a g h
Gives-map Q P (refused e, g) h f = tt
Gives-map Q P (unfinished, g) h f = elim h [ ]

-- The result of an allocation, or of another test.
pub if-Gives :
    {NV A : Type 0}
    → (Q : A → Graph NV → Type 0) → (b : Bool) (r q : Imported A × Graph NV)
    → (b ≡ true → Gives Q r)
    → (b ≡ false → Gives Q q)
    → Gives Q (if b then r else q)
if-Gives Q true r q f h = f refl
if-Gives Q false r q f h = h refl

pub update-same : {A : Type 0} (f : ℕ → A) (p : ℕ) (v : A) → update f p v p ≡ v
update-same f p v = ground arith

pub update-other : {A : Type 0} (f : ℕ → A) (p q : ℕ) (v : A) → q ≢ p → update f p v q ≡ f q
update-other f p q v n = ground (arith, n)

-- Only the node `p` is changed, to `n`.
pub record Touches {NV : Type 0} (p : ℕ) (n : SharedNode NV) (g after : Graph NV) : Type 0 where
  pub next_eq : after.heap.next ≡ g.heap.next
  pub map_eq : after.map ≡ g.map
  pub node_eq : after.heap.node p ≡ n
  pub others : (q : ℕ) → q ≢ p → after.heap.node q ≡ g.heap.node q

module _ {NV : Type 0} where
  pub Touches-Grows :
      (p : ℕ) (n : SharedNode NV) (g after : Graph NV) → Touches p n g after → Grows p g after
  Touches-Grows p n g after t = record {
    next_le = omega (arith, t.next_eq);
    others = λ q l d. t.others q d;
    map_kept = λ s d. ap (λ m. import_find m s) t.map_eq;
  }

  pub Touches-WellFormed :
      (p : ℕ) (n : SharedNode NV) (g after : Graph NV)
      → Touches p n g after
      → WellFormed g
      → WellFormed after
  Touches-WellFormed p n g after t w = WellFormed-keep g after t.map_eq (omega (arith, t.next_eq)) w

  pub Touches-change :
      (p : ℕ) (f : SharedNode NV → SharedNode NV) (g : Graph NV)
      → Touches p (f (g.heap.node p)) g (change p f g)
  Touches-change p f g = record {
    next_eq = refl;
    map_eq = refl;
    node_eq = update-same g.heap.node p (f (g.heap.node p));
    others = λ q d. update-other g.heap.node p q (f (g.heap.node p)) d;
  }

abbrev pub classed : {NV : Type 0} → Option Bytes → SharedNode NV → SharedNode NV
classed name n = record n { class_name = class_text name }

-- A referent that had no node has one now.
pub record Mapped {NV : Type 0} (s p : ℕ) (g after : Graph NV) : Type 0 where
  pub next_eq : after.heap.next ≡ g.heap.next
  pub nodes : (q : ℕ) → after.heap.node q ≡ g.heap.node q
  pub is_map : IsMap after.map
  pub finds : (r : ℕ) → import_find after.map r ≡ (if s == r then p else import_find g.map r)

-- Room for an entry.
pub record RoomFor {NV : Type 0} (p : ℕ) (g after : Graph NV) : Type 0 where
  pub inv : IsHash after.heap p
  pub room : hash_count (g.heap.node p) + 1 ≤ (after.heap.node p).hash_capacity
  pub entries_eq : (after.heap.node p).hash_entries ≡ (g.heap.node p).hash_entries
  pub class_eq : (after.heap.node p).class_name ≡ (g.heap.node p).class_name
  pub next_eq : after.heap.next ≡ g.heap.next
  pub map_eq : after.map ≡ g.map
  pub others : (q : ℕ) → q ≢ p → after.heap.node q ≡ g.heap.node q

module _ {NV : Type 0} (perl : Perl NV) (grant : ℕ → Bool) where
  pub alloc-Gives :
      (e : ImportError) (p : ℕ) (f : SharedNode NV → SharedNode NV) (g : Graph NV)
      → Gives
          (λ c after. (c ≡ p) × Touches p (f (g.heap.node p)) g after)
          (alloc perl grant e p f g)
  alloc-Gives e p f g = elim (Bool-cases (grant g.heap.allocs)) [
    | inl given ↦
        let t = Touches-change p f g in
        rw given
          (refl, record { next_eq = refl; map_eq = refl; node_eq = t.node_eq; others = t.others })
    | inr denied ↦ rw denied tt
  ]

  pub set_class-Gives :
      (e : ImportError) (p : ℕ) (name : Option Bytes) (n : SharedNode NV) (g : Graph NV)
      → g.heap.node p ≡ n
      → n.class_name ≡ none
      → Gives
          (λ c after. (c ≡ p) × Touches p (classed name n) g after)
          (set_class perl grant e p name g)
  set_class-Gives e p none n g a b = (
    refl,
    record {
      next_eq = refl;
      map_eq = refl;
      node_eq = a ∙ ap (λ c. record n { class_name = c }) b;
      others = λ q d. refl;
    },
  )
  set_class-Gives e p (some []) n g a b = (
    refl,
    record {
      next_eq = refl;
      map_eq = refl;
      node_eq = a ∙ ap (λ c. record n { class_name = c }) b;
      others = λ q d. refl;
    },
  )
  set_class-Gives e p (some (c ∷ name)) n g a b =
      subst
        (λ k.
          Gives (λ r after. (r ≡ p) × Touches p (record k { class_name = some (c ∷ name) }) g after)
            (alloc perl grant e p (λ j. record j { class_name = some (c ∷ name) }) g))
        a (alloc-Gives e p (λ k. record k { class_name = some (c ∷ name) }) g)

  import_scalar_granted :
      (b : Bool) (v : ℕ)
      → (import_scalar perl.api b v).0 ≡ true
      → (import_scalar perl.api b v).1 ≡ (import_scalar perl.api true v).1
  unfolding import_scalar
  import_scalar_granted b v h = ground (arith, h)

  -- A scalar is stored in a node.
  pub store_scalar-Gives :
      (p v : ℕ) (g : Graph NV)
      → Gives
          (λ c after. (c ≡ p) × Touches p (import_scalar perl.api true v).1 g after)
          (store_scalar perl grant p v g)
  unfolding store_scalar
  store_scalar-Gives p v g = elim (Bool-cases (import_scalar perl.api (grant g.heap.allocs) v).0) [
    | inl good ↦ rw good (
      refl,
      record {
        next_eq = refl;
        map_eq = refl;
        node_eq = update-same g.heap.node p _ ∙ import_scalar_granted (grant g.heap.allocs) v good;
        others = λ q d. update-other g.heap.node p q _ d;
      },
    )
    | inr bad ↦ rw bad tt
  ]

  pub add_mapping-Gives :
      (t : SharedType) (s p : ℕ) (g : Graph NV)
      → IsMap g.map
      → p ≢ 0
      → import_find g.map s ≡ 0
      → Gives (λ c after. Mapped s p g after) (add_mapping perl grant t s p g)
  unfolding add_mapping
  add_mapping-Gives t s p g i n h =
      elim (Bool-cases (import_add (grant g.heap.allocs) g.map s p).0) [
        | inl good ↦
            let a =
              subst
                (λ b.
                  Added (grant g.heap.allocs) g.map s p
                    (b, (import_add (grant g.heap.allocs) g.map s p).1))
                good (import_add-Added (grant g.heap.allocs) g.map s p i n h) in
            rw good (record { next_eq = refl; nodes = λ q. refl; is_map = a.0; finds = a.1 })
        | inr bad ↦ rw bad tt
      ]

  reserved_lem :
      (p : ℕ) (g : Graph NV) (b : Bool) (h : Heap NV)
      → Reserved g.heap h p (hash_count (g.heap.node p) + 1) b
      → Gives (λ c after. RoomFor p g after) (entry_reserved perl grant g (ok b, h))
  reserved_lem p g false h r = tt
  reserved_lem p g true h r =
      if-Gives (λ c after. RoomFor p g after) (grant h.allocs) _ _
        (λ e. record {
          inv = record {
            typed = r.inv.typed;
            allocated = r.inv.allocated;
            counted = r.inv.counted;
            fits = r.inv.fits;
          };
          room = r.room refl;
          entries_eq = r.entries;
          class_eq = r.class_eq;
          next_eq = r.next_eq;
          map_eq = refl;
          others = r.others;
        })
        (λ e. tt)

  pub reserve_entry-Gives :
      (p : ℕ) (key : Bytes) (g : Graph NV)
      → IsHash g.heap p
      → Gives (λ c after. RoomFor p g after) (reserve_entry perl grant p key g)
  unfolding reserve_entry
  reserve_entry-Gives p key g i =
      if-Gives (λ c after. RoomFor p g after) (leb (size_max - 1) (length key)) _ _ (λ e. tt)
        (λ e.
          let (b, h, q, r) =
            hash_reserve_lem grant perl.api.zero_nv g.heap p (hash_count (g.heap.node p) + 1) i in
          rw q (reserved_lem p g b h r))
