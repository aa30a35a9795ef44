-- ===== src/Shared/Array/Slots.antt =====
-- The slots of a shared array under its steps: a size that is raised, a hole that is filled.
use developer_dashboard.Common.{
  ℕ, ◌+◌, ◌≤◌, ◌<◌, ◌≡◌, ◌≢◌, ◌∙◌, ◌⊎◌, sym, arith, Bool-cases, inl, inr, leb, length-set,
}
use developer_dashboard.Common.Int.{pos}
use developer_dashboard.Shared.Heap.{Heap, put, new_node}
use developer_dashboard.Shared.Array.{slot, array_capacity, array_get, sized, with_item}
use developer_dashboard.Shared.Array.Growth.{IsArray, slot-set, slot-set-other}

module _ {NV : Type 0} where
  pub array_get-slot :
      (h : Heap NV) (p j : ℕ)
      → IsArray h p
      → array_get (h.node p) (pos j) ≡ slot (h.node p).array_items j
  unfolding array_get
  array_get-slot h p j i = rw i.typed (elim (Bool-cases (leb (h.node p).array_size j)) [
    | inl past ↦ rw past (sym (i.holes j (ground (arith, past))))
    | inr inside ↦ rw inside
  ])

  -- The slots of a node in two heaps are the same, but for index `i`, where there is `v` now.
  pub record Written (h h' : Heap NV) (p i v : ℕ) : Type 0 where
    pub inv : IsArray h' p
    pub here : slot (h'.node p).array_items i ≡ v
    pub elsewhere : (j : ℕ) → i ≢ j → slot (h'.node p).array_items j ≡ slot (h.node p).array_items j
    pub others : (q : ℕ) → q ≢ p → q < h.next → h'.node q ≡ h.node q

  pub sized-next : (h : Heap NV) (p i : ℕ) → (sized h p i).next ≡ h.next
  sized-next h p i = ground arith

  pub sized-items :
      (h : Heap NV) (p i : ℕ) → ((sized h p i).node p).array_items ≡ (h.node p).array_items
  sized-items h p i = ground arith

  pub sized-type : (h : Heap NV) (p i : ℕ) → ((sized h p i).node p).type ≡ (h.node p).type
  sized-type h p i = ground arith

  pub sized-others : (h : Heap NV) (p i q : ℕ) → q ≢ p → (sized h p i).node q ≡ h.node q
  sized-others h p i q ne = ground arith

  pub sized-size :
      (h : Heap NV) (p i : ℕ)
      → (i < ((sized h p i).node p).array_size)
        × ((h.node p).array_size ≤ ((sized h p i).node p).array_size)
        × (((sized h p i).node p).array_size ≤ (h.node p).array_size
            ⊎ ((sized h p i).node p).array_size ≡ i + 1)
  sized-size h p i = ground arith

  pub sized-IsArray :
      (h : Heap NV) (p i : ℕ)
      → IsArray h p
      → i < array_capacity (h.node p)
      → IsArray (sized h p i) p
  sized-IsArray h p i a l =
      let e = sized-items h p i in
      let s = sized-size h p i in
      record {
        typed = sized-type h p i ∙ a.typed;
        nonnull = rw (sized-next h p i) a.nonnull;
        allocated = rw (sized-next h p i) a.allocated;
        within = rw e (bound s.2);
        fits = rw e a.fits;
        holes = λ j m. rw e (a.holes j (omega (arith, s.1, m)));
      }
    where
      bound :
          (((sized h p i).node p).array_size ≤ (h.node p).array_size
            ⊎ ((sized h p i).node p).array_size ≡ i + 1)
          → ((sized h p i).node p).array_size ≤ array_capacity (h.node p)
      bound (inl m) = omega (arith, m, a.within)
      bound (inr m) = omega (arith, m, l)

  abbrev pub filled : NV → Heap NV → ℕ → ℕ → Heap NV
  filled zero_nv h p i =
      put (new_node zero_nv h) p (with_item ((new_node zero_nv h).node p) i h.next)

  pub filled-node :
      (zero_nv : NV) (h : Heap NV) (p i : ℕ)
      → p < h.next
      → (filled zero_nv h p i).node p ≡ with_item (h.node p) i h.next
  filled-node zero_nv h p i l = ground arith

  pub filled-Written :
      (zero_nv : NV) (h : Heap NV) (p i : ℕ)
      → IsArray h p
      → i < (h.node p).array_size
      → Written h (filled zero_nv h p i) p i h.next
  filled-Written zero_nv h p i a l =
      let e = filled-node zero_nv h p i a.allocated in
      let c = length-set (h.node p).array_items i h.next in
      record {
        inv = record {
          typed = rw e a.typed;
          nonnull = omega (arith, a.nonnull);
          allocated = omega (arith, a.allocated);
          within = rw e (rw c a.within);
          fits = rw e (rw c a.fits);
          holes = λ j m.
              let m' = rw e at m in
              rw e (
                slot-set-other _ i j h.next (λ q. absurd (omega (arith, m', l, q))) ∙ a.holes j m');
        };
        here = rw e (slot-set _ i h.next (omega (arith, l, a.within)));
        elsewhere = λ j ne. rw e (slot-set-other _ i j h.next ne);
        others = λ q ne m. ground arith;
      }
