-- ===== src/Shared/Array/Growth.antt =====
-- `dd_shared_array_reserve` makes room, and leaves the slots as they are.
use developer_dashboard.Common.{
  ℕ, zero, suc, ◌-◌, ◌+◌, ◌*◌, ◌≤◌, ◌<◌, ◌≡◌, ◌≢◌, ◌∙◌, refl, ap, arith, Bool, true, false,
  Bool-cases, inl, inr, List, [], ◌∷◌, ◌++◌, Option, none, some, leb, length, replicate, set,
  length-append, length-replicate,
}
use developer_dashboard.Shared.{array, SharedNode}
use developer_dashboard.Shared.Heap.{Heap, Answer, ok, put, counted}
use developer_dashboard.Shared.Reserve.{new_capacity-Chosen, Chosen, size_max}
use developer_dashboard.Shared.Array.{
  item_size, slot, array_capacity, widened, array_realloc, array_reserve,
}

pub slot-append-holes : (items : List ℕ) (n i : ℕ) → slot (items ++ replicate n 0) i ≡ slot items i
slot-append-holes [] zero i = refl
slot-append-holes [] (suc n) zero = refl
slot-append-holes [] (suc n) (suc i) = slot-append-holes [] n i
slot-append-holes (v ∷ items) n zero = refl
slot-append-holes (v ∷ items) n (suc i) = slot-append-holes items n i

pub slot-set : (items : List ℕ) (i v : ℕ) → i < length items → slot (set items i v) i ≡ v
slot-set [] i v l = absurd (omega arith)
slot-set (x ∷ items) zero v l = refl
slot-set (x ∷ items) (suc i) v l = slot-set items i v (omega arith)

pub slot-set-other : (items : List ℕ) (i j v : ℕ) → i ≢ j → slot (set items i v) j ≡ slot items j
slot-set-other [] i j v ne = refl
slot-set-other (x ∷ items) zero zero v ne = absurd (ne refl)
slot-set-other (x ∷ items) zero (suc j) v ne = refl
slot-set-other (x ∷ items) (suc i) zero v ne = refl
slot-set-other (x ∷ items) (suc i) (suc j) v ne = slot-set-other items i j v (λ e. ne (ap suc e))

pub slot-past : (items : List ℕ) (i : ℕ) → length items ≤ i → slot items i ≡ 0
slot-past [] i l = refl
slot-past (x ∷ items) zero l = absurd (omega arith)
slot-past (x ∷ items) (suc i) l = slot-past items i (omega arith)

-- What `array_ensure` relies on: the node is one of those allocated, none of which is NULL, its size
-- is within the capacity, which a growth gave it, and what lies behind the size is NULL.
pub record IsArray {NV : Type 0} (h : Heap NV) (p : ℕ) : Type 0 where
  pub typed : (h.node p).type ≡ array
  pub nonnull : 0 < h.next
  pub allocated : p < h.next
  pub within : (h.node p).array_size ≤ array_capacity (h.node p)
  pub fits : array_capacity (h.node p) * item_size ≤ size_max
  pub holes : (i : ℕ) → (h.node p).array_size ≤ i → slot (h.node p).array_items i ≡ 0

module _ {NV : Type 0} where
  pub record Reserved (h h' : Heap NV) (p need : ℕ) (b : Bool) : Type 0 where
    pub inv : IsArray h' p
    pub size_eq : (h'.node p).array_size ≡ (h.node p).array_size
    pub slots : (i : ℕ) → slot (h'.node p).array_items i ≡ slot (h.node p).array_items i
    pub class_eq : (h'.node p).class_name ≡ (h.node p).class_name
    pub next_eq : h'.next ≡ h.next
    pub others : (q : ℕ) → q ≢ p → h'.node q ≡ h.node q
    pub room : b ≡ true → need ≤ array_capacity (h'.node p)

  capacity-widened :
      (n : SharedNode NV) (c : ℕ) → array_capacity n ≤ c → array_capacity (widened n c) ≡ c
  capacity-widened n c l = omega (
    arith,
    length-append n.array_items (replicate (c - length n.array_items) 0),
    length-replicate {A = ℕ} (c - length n.array_items) 0,
    l,
  )

  array_realloc-Reserved :
      (h : Heap NV) (p need c : ℕ)
      → IsArray h p
      → need ≤ c
      → array_capacity (h.node p) ≤ c
      → c * item_size ≤ size_max
      → Reserved h (counted (put h p (widened (h.node p) c))) p need true
  array_realloc-Reserved h p need c i a b d =
      let e = node_eq in
      let l = capacity-widened (h.node p) c b in
      record {
        inv = record {
          typed = rw e i.typed;
          nonnull = i.nonnull;
          allocated = i.allocated;
          within = rw e (omega (arith, l, b, i.within));
          fits = rw e (rw l d);
          holes = λ k s. rw e (slot-append-holes _ _ k ∙ i.holes k (rw e at s));
        };
        size_eq = rw e refl;
        slots = λ k. rw e (slot-append-holes _ _ k);
        class_eq = rw e refl;
        next_eq = refl;
        others = λ q ne. ground arith;
        room = λ _. rw e (rw l a);
      }
    where
      node_eq : (counted (put h p (widened (h.node p) c))).node p ≡ widened (h.node p) c
      node_eq = ground arith

  kept :
      (h : Heap NV) (p need n : ℕ) → IsArray h p → Reserved h (record h { allocs = n }) p need false
  kept h p need n i = record {
    inv = record {
      typed = i.typed;
      nonnull = i.nonnull;
      allocated = i.allocated;
      within = i.within;
      fits = i.fits;
      holes = i.holes;
    };
    size_eq = refl;
    slots = λ k. refl;
    class_eq = refl;
    next_eq = refl;
    others = λ q ne. refl;
    room = λ e. cc;
  }

  abbrev pub Reserves : Heap NV → ℕ → ℕ → Answer Bool × Heap NV → Type 0
  Reserves h p need r = (b : Bool) × (h' : Heap NV) × (r ≡ (ok b, h')) × Reserved h h' p need b

module _ {NV : Type 0} (grant : ℕ → Bool) (zero_nv : NV) where
  realloc_lem :
      (h : Heap NV) (p need : ℕ) (c : Option ℕ)
      → IsArray h p
      → Chosen item_size (array_capacity (h.node p)) need c
      → Reserves h p need (array_realloc grant zero_nv h p (some c))
  unfolding array_realloc
  realloc_lem h p need none i ch = (false, h, refl, kept h p need h.allocs i)
  realloc_lem h p need (some c) i ch = elim (Bool-cases (grant h.allocs)) [
    | inl given ↦ (
      true,
      counted (put h p (widened (h.node p) c)),
      rw given,
      array_realloc-Reserved h p need c i ch.0 ch.1 ch.2,
    )
    | inr refused ↦ (false, counted h, rw refused, kept h p need (h.allocs + 1) i)
  ]

  pub array_reserve_lem :
      (h : Heap NV) (p need : ℕ)
      → IsArray h p
      → Reserves h p need (array_reserve grant zero_nv h p need)
  unfolding array_reserve
  array_reserve_lem h p need i = elim (Bool-cases (leb need (array_capacity (h.node p)))) [
    | inl enough ↦ (
      true,
      h,
      rw enough,
      record {
        inv = i;
        size_eq = refl;
        slots = λ k. refl;
        class_eq = refl;
        next_eq = refl;
        others = λ q ne. refl;
        room = λ _. ground (arith, enough);
      },
    )
    | inr short ↦
        let (c, e, ch) =
          new_capacity-Chosen item_size (array_capacity (h.node p)) need (omega arith) (omega arith)
            i.fits in
        rw short (rw e (realloc_lem h p need c i ch))
  ]
