-- ===== src/Shared/Hash/Growth.antt =====
-- `dd_shared_hash_reserve` makes room and leaves the entries as they are.
use developer_dashboard.Common.{
  ℕ, ◌*◌, ◌≤◌, ◌<◌, ◌≡◌, ◌≢◌, refl, arith, Bool, true, false, Bool-cases, inl, inr, Option, none,
  some, leb,
}
use developer_dashboard.Shared.{hash}
use developer_dashboard.Shared.Heap.{Heap, Answer, ok, put, counted}
use developer_dashboard.Shared.Reserve.{new_capacity-Chosen, Chosen, size_max}
use developer_dashboard.Shared.Hash.{entry_size, hash_count, hash_realloc, hash_reserve}

-- What `hash_ensure` relies on: the node is one of those allocated, and its capacity is one that a
-- growth gave it.
pub record IsHash {NV : Type 0} (h : Heap NV) (p : ℕ) : Type 0 where
  pub typed : (h.node p).type ≡ hash
  pub allocated : p < h.next
  pub counted : hash_count (h.node p) ≤ (h.node p).hash_capacity
  pub fits : (h.node p).hash_capacity * entry_size ≤ size_max

module _ {NV : Type 0} where
  pub record Reserved (h h' : Heap NV) (p need : ℕ) (b : Bool) : Type 0 where
    pub inv : IsHash h' p
    pub entries : (h'.node p).hash_entries ≡ (h.node p).hash_entries
    pub class_eq : (h'.node p).class_name ≡ (h.node p).class_name
    pub next_eq : h'.next ≡ h.next
    pub others : (q : ℕ) → q ≢ p → h'.node q ≡ h.node q
    pub room : b ≡ true → need ≤ (h'.node p).hash_capacity

  hash_realloc-Reserved :
      (h : Heap NV) (p need capacity : ℕ)
      → IsHash h p
      → need ≤ capacity
      → (h.node p).hash_capacity ≤ capacity
      → capacity * entry_size ≤ size_max
      → Reserved h (counted (put h p (record (h.node p) { hash_capacity = capacity }))) p need true
  hash_realloc-Reserved h p need capacity i a b c = record {
    inv = record {
      typed = ground (arith, i.typed);
      allocated = i.allocated;
      counted = ground (arith, i.counted);
      fits = ground arith;
    };
    entries = ground arith;
    class_eq = ground arith;
    next_eq = refl;
    others = λ q ne. ground arith;
    room = λ _. ground arith;
  }

  unchanged : (h : Heap NV) (p need : ℕ) → IsHash h p → Reserved h h p need false
  unchanged h p need i = record {
    inv = i;
    entries = refl;
    class_eq = refl;
    next_eq = refl;
    others = λ q ne. refl;
    room = λ e. cc;
  }

  kept : (h : Heap NV) (p need : ℕ) → IsHash h p → Reserved h (counted h) p need false
  kept h p need i = record {
    inv = record { typed = i.typed; allocated = i.allocated; counted = i.counted; fits = i.fits };
    entries = refl;
    class_eq = refl;
    next_eq = refl;
    others = λ q ne. refl;
    room = λ e. cc;
  }

  abbrev pub Reserves : Heap NV → ℕ → ℕ → Answer Bool × Heap NV → Type 0
  Reserves h p need r = (b : Bool) × (h' : Heap NV) × (r ≡ (ok b, h')) × Reserved h h' p need b

module _ {NV : Type 0} (grant : ℕ → Bool) (zero_nv : NV) where
  realloc_lem :
      (h : Heap NV) (p need : ℕ) (c : Option ℕ)
      → IsHash h p
      → Chosen entry_size (h.node p).hash_capacity need c
      → Reserves h p need (hash_realloc grant zero_nv h p (some c))
  unfolding hash_realloc
  realloc_lem h p need none i ch = (false, h, refl, unchanged h p need i)
  realloc_lem h p need (some c) i ch = elim (Bool-cases (grant h.allocs)) [
    | inl given ↦ (true, _, rw given, hash_realloc-Reserved h p need c i ch.0 ch.1 ch.2)
    | inr refused ↦ (false, _, rw refused, kept h p need i)
  ]

  pub hash_reserve_lem :
      (h : Heap NV) (p need : ℕ)
      → IsHash h p
      → Reserves h p need (hash_reserve grant zero_nv h p need)
  unfolding hash_reserve
  hash_reserve_lem h p need i = elim (Bool-cases (leb need (h.node p).hash_capacity)) [
    | inl enough ↦ (
      true,
      h,
      rw enough,
      record {
        inv = i;
        entries = refl;
        class_eq = refl;
        next_eq = refl;
        others = λ q ne. refl;
        room = λ _. ground (arith, enough);
      },
    )
    | inr short ↦
        let (c, e, ch) =
          new_capacity-Chosen entry_size (h.node p).hash_capacity need (omega arith) (omega arith)
            i.fits in
        rw short (rw e (realloc_lem h p need c i ch))
  ]
