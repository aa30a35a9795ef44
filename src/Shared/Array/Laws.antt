-- ===== src/Shared/Array/Laws.antt =====
-- A shared array is a map from indices to nodes, NULL for a hole: what `dd_shared_array_ensure` does
-- to it, on success and on failure.
use developer_dashboard.Common.{
  ℕ, ◌+◌, ◌/◌, ◌<◌, ◌≡◌, ◌≢◌, ◌∙◌, refl, sym, ap, arith, Bool, true, false, Bool-cases, inl, inr,
  ◌==◌, leb,
}
use developer_dashboard.Common.Int.{ℤ, pos, negsuc}
use developer_dashboard.Shared.Heap.{
  Heap, Answer, ok, failed, out_of_fuel, SharedError, negative_index, cannot_grow_array,
  no_memory_for_item,
}
use developer_dashboard.Shared.Reserve.{size_max}
use developer_dashboard.Shared.Array.{
  item_size, slot, array_get, array_reserve, array_fill, array_grown, sized, array_ensure,
  array_ensure_index,
}
use developer_dashboard.Shared.Array.Growth.{IsArray, Reserved, Reserves, array_reserve_lem}
use developer_dashboard.Shared.Array.Slots.{
  array_get-slot, Written, sized-next, sized-items, sized-others, sized-size, sized-IsArray, filled,
  filled-Written,
}

module _ {NV : Type 0} (grant : ℕ → Bool) (zero_nv : NV) where
  -- What an answer of `array_ensure` stands for.
  abbrev pub ArrayEnsured : Heap NV → ℕ → ℤ → Answer ℕ × Heap NV → Type 0
  ArrayEnsured h p index (ok v, h') =
      IsArray h' p
      × (v ≢ 0)
      × (array_get (h'.node p) index ≡ v)
      × (array_get (h.node p) index ≢ 0 → v ≡ array_get (h.node p) index)
      × ((j : ℤ) → index ≢ j → array_get (h'.node p) j ≡ array_get (h.node p) j)
      × ((q : ℕ) → q ≢ p → q < h.next → h'.node q ≡ h.node q)
  ArrayEnsured h p index (failed e, h') =
      IsArray h' p
      × ((j : ℤ) → array_get (h'.node p) j ≡ array_get (h.node p) j)
      × ((q : ℕ) → q ≢ p → h'.node q ≡ h.node q)
  ArrayEnsured h p index (out_of_fuel, h') = ⊥

  -- The heap in which the slots are those of `h`, as it is between the growth and the answer.
  record Same (h h' : Heap NV) (p : ℕ) : Type 0 where
    inv : IsArray h' p
    slots : (j : ℕ) → slot (h'.node p).array_items j ≡ slot (h.node p).array_items j
    others : (q : ℕ) → q ≢ p → h'.node q ≡ h.node q

  Same-array_get :
      (h h' : Heap NV) (p : ℕ)
      → IsArray h p
      → Same h h' p
      → (j : ℤ) → array_get (h'.node p) j ≡ array_get (h.node p) j
  unfolding array_get
  Same-array_get h h' p a s (pos j) =
      array_get-slot h' p j s.inv ∙ s.slots j ∙ sym (array_get-slot h p j a)
  Same-array_get h h' p a s (negsuc j) = refl

  failed_lem :
      (h h' : Heap NV) (p : ℕ) (index : ℤ) (e : SharedError) (n : ℕ)
      → IsArray h p
      → Same h h' p
      → ArrayEnsured h p index (failed e, record h' { allocs = n })
  failed_lem h h' p index e n a s = (
    record {
      typed = s.inv.typed;
      nonnull = s.inv.nonnull;
      allocated = s.inv.allocated;
      within = s.inv.within;
      fits = s.inv.fits;
      holes = s.inv.holes;
    },
    Same-array_get h h' p a s,
    s.others,
  )

  written_lem :
      (h h' : Heap NV) (p i : ℕ)
      → IsArray h p
      → Same h h' p
      → h'.next ≡ h.next
      → slot (h'.node p).array_items i ≡ 0
      → Written h' (filled zero_nv h' p i) p i h'.next
      → ArrayEnsured h p (pos i) (ok h'.next, filled zero_nv h' p i)
  unfolding array_get
  written_lem h h' p i a s eq empty w = (
    w.inv,
    λ e. omega (arith, e, s.inv.nonnull),
    array_get-slot _ p i w.inv ∙ w.here,
    λ ne. absurd (ne (array_get-slot h p i a ∙ sym (s.slots i) ∙ empty)),
    elsewhere,
    λ q ne l. w.others q ne (rw eq l) ∙ s.others q ne,
  )
    where
      elsewhere :
          (j : ℤ)
          → pos i ≢ j
          → array_get ((filled zero_nv h' p i).node p) j ≡ array_get (h.node p) j
      elsewhere (negsuc j) ne = refl
      elsewhere (pos j) ne =
          array_get-slot _ p j w.inv
          ∙ w.elsewhere j (λ e. ne (ap pos e))
          ∙ s.slots j
          ∙ sym (array_get-slot h p j a)

  found_lem :
      (h h' : Heap NV) (p i : ℕ)
      → IsArray h p
      → Same h h' p
      → slot (h'.node p).array_items i ≢ 0
      → ArrayEnsured h p (pos i) (ok (slot (h'.node p).array_items i), h')
  found_lem h h' p i a s ne = (
    s.inv,
    ne,
    array_get-slot h' p i s.inv,
    λ _. s.slots i ∙ sym (array_get-slot h p i a),
    λ j _. Same-array_get h h' p a s j,
    λ q d l. s.others q d,
  )

  fill_lem :
      (h h' : Heap NV) (p i : ℕ)
      → IsArray h p
      → Same h h' p
      → h'.next ≡ h.next
      → i < (h'.node p).array_size
      → ArrayEnsured h p (pos i) (array_fill grant zero_nv h' p i)
  unfolding array_fill
  fill_lem h h' p i a s eq l = elim (Bool-cases (slot (h'.node p).array_items i == 0)) [
    | inr full ↦ rw full (found_lem h h' p i a s (ground (arith, full)))
    | inl empty ↦ rw empty (elim (Bool-cases (grant h'.allocs)) [
      | inr refused ↦ rw refused (failed_lem h h' p (pos i) no_memory_for_item (h'.allocs + 1) a s)
      | inl given ↦ rw given (
          written_lem h h' p i a s eq (ground (arith, empty))
            (filled-Written zero_nv h' p i s.inv l))
    ])
  ]

  sized-Same : (h h' : Heap NV) (p i : ℕ) → Reserved h h' p (i + 1) true → Same h (sized h' p i) p
  sized-Same h h' p i r = record {
    inv = sized-IsArray h' p i r.inv (omega (arith, r.room refl));
    slots = λ j. rw (sized-items h' p i) (r.slots j);
    others = λ q ne. sized-others h' p i q ne ∙ r.others q ne;
  }

  grown_lem :
      (h : Heap NV) (p i : ℕ)
      → IsArray h p
      → Reserves h p (i + 1) (array_reserve grant zero_nv h p (i + 1))
      → ArrayEnsured h p
          (pos i)
          (array_grown grant zero_nv p i (array_reserve grant zero_nv h p (i + 1)))
  unfolding array_grown
  grown_lem h p i a (true, h', q, r) = rw q (
      fill_lem h (sized h' p i) p i a (sized-Same h h' p i r) (sized-next h' p i ∙ r.next_eq)
        (sized-size h' p i).0)
  grown_lem h p i a (false, h', q, r) = rw q (
      failed_lem h h' p (pos i) cannot_grow_array h'.allocs a
        (record { inv = r.inv; slots = r.slots; others = r.others }))

  unchanged : (h : Heap NV) (p : ℕ) → IsArray h p → Same h h p
  unchanged h p a = record { inv = a; slots = λ j. refl; others = λ q ne. refl }

  -- `array_ensure` on an array gives the index a node that is not NULL, the one that it had if it had
  -- one, and leaves every other index and every other node as it was; or it fails, on a negative
  -- index, in the growth or in the allocation, and then what is at each index has not changed. Either
  -- way the array stays well formed: what lies behind its size is NULL.
  pub array_ensure-Ensured :
      (h : Heap NV) (p : ℕ) (index : ℤ)
      → IsArray h p
      → ArrayEnsured h p index (array_ensure grant zero_nv h p index)
  unfolding array_ensure array_ensure_index
  array_ensure-Ensured h p (negsuc i) a =
      rw a.typed (failed_lem h h p (negsuc i) negative_index h.allocs a (unchanged h p a))
  array_ensure-Ensured h p (pos i) a =
      rw a.typed (elim (Bool-cases (leb (size_max / item_size) i)) [
        | inl over ↦
            rw over (failed_lem h h p (pos i) cannot_grow_array h.allocs a (unchanged h p a))
        | inr room ↦ rw room (grown_lem h p i a (array_reserve_lem grant zero_nv h p (i + 1) a))
      ])
