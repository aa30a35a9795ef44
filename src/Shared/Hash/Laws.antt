-- ===== src/Shared/Hash/Laws.antt =====
-- A shared hash is a finite map: what `dd_shared_hash_ensure` does to the keys, on success and on
-- failure.
use developer_dashboard.Common.{
  ℕ, ◌+◌, ◌≤◌, ◌<◌, ◌≡◌, ◌≢◌, ◌∙◌, refl, sym, ap, arith, Bool, true, false, Bool-cases, inl, inr,
  List, [], ◌∷◌, ◌++◌, All, suc, if◌then◌else◌, Bytes, equal, equal_iff, length-append,
}
use developer_dashboard.Shared.{hash, HashEntry, SharedNode}
use developer_dashboard.Shared.Heap.{
  Heap, Answer, ok, failed, out_of_fuel, cannot_grow_hash, no_memory_for_key, no_memory_for_value,
  SharedError, put, counted, new_node,
}
use developer_dashboard.Shared.Hash.{
  hash_count, Found, no_hash, absent, at, after_first, find_entry, value_at, find_in, hash_find,
  found_value, hash_get, hash_reserve, hash_append, hash_grown, hash_ensure_found, hash_ensure,
  with_entry,
}
use developer_dashboard.Shared.Hash.Growth.{IsHash, Reserved, Reserves, hash_reserve_lem}
use developer_dashboard.Shared.Hash.Lookup.{
  lookup, found_value-find_entry, lookup-append, hash_get-lookup, find_entry-ne-no_hash,
}

found_get :
    {NV : Type 0} (h : Heap NV) (p : ℕ) (key k : Bytes) (n : ℕ)
    → IsHash h p
    → find_entry (h.node p).hash_entries key ≡ at n
    → hash_get (h.node p) k
      ≡ (if equal key k then value_at (h.node p).hash_entries n else hash_get (h.node p) k)
found_get h p key k n i e = elim (Bool-cases (equal key k)) [
  | inr other ↦ rw other
  | inl same ↦ rw same (
      rw (← (equal_iff key k).0 same) (
        hash_get-lookup (h.node p) key i.typed
        ∙ sym (found_value-find_entry (h.node p).hash_entries key)
        ∙ ap (found_value (h.node p).hash_entries) e))
]

-- Below `n`, the value of an entry is a node, and not NULL.
abbrev pub HasNode : ℕ → HashEntry → Type 0
HasNode n e = (e.value ≢ 0) × (e.value < n)

abbrev pub HaveNodes : {NV : Type 0} → Heap NV → ℕ → Type 0
HaveNodes h p = All (HasNode h.next) (h.node p).hash_entries

value_at-HasNode :
    (n : ℕ) (l : List HashEntry) (key : Bytes) (i : ℕ)
    → All (HasNode n) l
    → find_entry l key ≡ at i
    → (value_at l i ≢ 0) × (value_at l i < n)
unfolding find_entry value_at
value_at-HasNode n [] key i h e = absurd (cc)
value_at-HasNode n (x ∷ l) key i h e = elim (Bool-cases (equal x.key key)) [
  | inl same ↦ first i (rw same at e)
  | inr other ↦
      behind (λ j d. value_at-HasNode n l key j h.1 d) (find_entry l key) refl (rw other at e)
]
  where
    first : (j : ℕ) → at 0 ≡ at j → (value_at (x ∷ l) j ≢ 0) × (value_at (x ∷ l) j < n)
    first j q = let z : 0 ≡ j = cc in rw (← z) h.0

    behind :
        ((j : ℕ) → find_entry l key ≡ at j → (value_at l j ≢ 0) × (value_at l j < n))
        → (f : Found) → find_entry l key ≡ f
        → after_first f ≡ at i
        → (value_at (x ∷ l) i ≢ 0) × (value_at (x ∷ l) i < n)
    behind rec no_hash d q = absurd (cc)
    behind rec absent d q = absurd (cc)
    behind rec (at j) d q = let z : suc j ≡ i = cc in rw (← z) (rec j d)

append-HasNode :
    (n : ℕ) (l : List HashEntry) (key : Bytes)
    → 0 < n
    → All (HasNode n) l
    → All (HasNode (n + 1)) (l ++ (record { key = key; value = n } ∷ []))
append-HasNode n [] key l h = ((λ e. omega arith, omega arith), tt)
append-HasNode n (x ∷ l) key b h = ((h.0.0, omega (arith, h.0.1)), append-HasNode n l key b h.1)

module _ {NV : Type 0} (grant : ℕ → Bool) (zero_nv : NV) where
  -- What an answer of `hash_ensure` stands for.
  abbrev pub Ensured : Heap NV → ℕ → Bytes → Answer ℕ × Heap NV → Type 0
  Ensured h p key (ok v, h') =
      IsHash h' p
      × HaveNodes h' p
      × (v ≢ 0)
      × (v < h'.next)
      × ((k : Bytes) → hash_get (h'.node p) k ≡ (if equal key k then v else hash_get (h.node p) k))
      × ((q : ℕ) → q ≢ p → q < h.next → h'.node q ≡ h.node q)
  Ensured h p key (failed e, h') =
      IsHash h' p
      × HaveNodes h' p
      × ((k : Bytes) → hash_get (h'.node p) k ≡ hash_get (h.node p) k)
      × ((q : ℕ) → q ≢ p → h'.node q ≡ h.node q)
  Ensured h p key (out_of_fuel, h') = ⊥

  abbrev appended : Heap NV → ℕ → Bytes → Heap NV
  appended h p key =
      put (new_node zero_nv (counted h)) p
        (with_entry ((new_node zero_nv (counted h)).node p) key h.next)

  appended_node :
      (h : Heap NV) (p : ℕ) (key : Bytes)
      → p < h.next
      → (appended h p key).node p ≡ with_entry (h.node p) key h.next
  appended_node h p key l = ground arith

  appended-IsHash :
      (h : Heap NV) (p : ℕ) (key : Bytes)
      → IsHash h p
      → hash_count (h.node p) + 1 ≤ (h.node p).hash_capacity
      → IsHash (appended h p key) p
  appended-IsHash h p key i l =
      let e = appended_node h p key i.allocated in
      record {
        typed = rw e i.typed;
        allocated = omega (arith, i.allocated);
        counted = rw e (
            omega (
              arith,
              length-append (h.node p).hash_entries (record { key = key; value = h.next } ∷ []),
              l,
            ));
        fits = rw e i.fits;
      }

  appended-get :
      (h : Heap NV) (p : ℕ) (key k : Bytes)
      → IsHash h p
      → find_entry (h.node p).hash_entries key ≡ absent
      → hash_get ((appended h p key).node p) k
        ≡ (if equal key k then h.next else hash_get (h.node p) k)
  appended-get h p key k i f = rw (appended_node h p key i.allocated) (
      hash_get-lookup (with_entry (h.node p) key h.next) k i.typed
      ∙ lookup-append (h.node p).hash_entries key k h.next f
      ∙ ap (λ v. if equal key k then h.next else v) (sym (hash_get-lookup (h.node p) k i.typed)))

  same_get :
      (n m : SharedNode NV) (k : Bytes)
      → n.type ≡ hash
      → m.type ≡ hash
      → n.hash_entries ≡ m.hash_entries
      → hash_get n k ≡ hash_get m k
  same_get n m k t u e =
      hash_get-lookup n k t ∙ ap (λ l. lookup l k) e ∙ sym (hash_get-lookup m k u)

  failed_lem :
      (h h' : Heap NV) (p need : ℕ) (key : Bytes) (b : Bool) (e : SharedError) (n : ℕ)
      → IsHash h p
      → HaveNodes h p
      → Reserved h h' p need b
      → Ensured h p key (failed e, record h' { allocs = n })
  failed_lem h h' p need key b e n i v r = (
    record {
      typed = r.inv.typed;
      allocated = r.inv.allocated;
      counted = r.inv.counted;
      fits = r.inv.fits;
    },
    rw r.entries (rw r.next_eq v),
    λ k. same_get (h'.node p) (h.node p) k r.inv.typed i.typed r.entries,
    r.others,
  )

  append_lem :
      (h h' : Heap NV) (p : ℕ) (key : Bytes)
      → IsHash h p
      → HaveNodes h p
      → find_entry (h.node p).hash_entries key ≡ absent
      → Reserved h h' p (hash_count (h.node p) + 1) true
      → Ensured h p key (hash_append grant zero_nv h' p key)
  unfolding hash_append
  append_lem h h' p key i v f r = elim (Bool-cases (grant h'.allocs)) [
    | inr no_key ↦ rw no_key (failed_lem h h' p _ key true no_memory_for_key _ i v r)
    | inl got_key ↦ rw got_key (elim (Bool-cases (grant (h'.allocs + 1))) [
      | inr no_value ↦ rw no_value (failed_lem h h' p _ key true no_memory_for_value _ i v r)
      | inl got_value ↦ rw got_value (
        appended-IsHash h' p key r.inv (rw r.entries (r.room refl)),
        rw (appended_node h' p key r.inv.allocated) (
            append-HasNode h'.next (h'.node p).hash_entries key (omega (arith, r.inv.allocated))
              (rw r.entries (rw r.next_eq v))),
        λ e. omega (arith, r.inv.allocated),
        omega arith,
        λ k.
            appended-get h' p key k r.inv (rw r.entries f)
            ∙ ap (λ v. if equal key k then h'.next else v)
                (same_get (h'.node p) (h.node p) k r.inv.typed i.typed r.entries),
        λ q ne l. (ground (arith, r.next_eq)) ∙ r.others q ne,
      )
    ])
  ]

  ensure_found_lem :
      (h : Heap NV) (p : ℕ) (key : Bytes) (f : Found)
      → IsHash h p
      → HaveNodes h p
      → find_entry (h.node p).hash_entries key ≡ f
      → Ensured h p key (hash_ensure_found grant zero_nv h p key f)
  unfolding hash_ensure_found hash_grown
  ensure_found_lem h p key no_hash i v e =
      absurd (find_entry-ne-no_hash (h.node p).hash_entries key e)
  ensure_found_lem h p key (at n) i v e =
      let (nonnull, below) = value_at-HasNode h.next (h.node p).hash_entries key n v e in
      (i, v, nonnull, below, λ k. found_get h p key k n i e, λ q ne l. refl)
  ensure_found_lem h p key absent i v e =
      grown (hash_reserve_lem grant zero_nv h p (hash_count (h.node p) + 1) i)
    where
      grown :
          Reserves h p
            (hash_count (h.node p) + 1)
            (hash_reserve grant zero_nv h p (hash_count (h.node p) + 1))
          → Ensured h p key (hash_ensure_found grant zero_nv h p key absent)
      grown (true, h', q, r) = rw q (append_lem h h' p key i v e r)
      grown (false, h', q, r) =
          rw q (failed_lem h h' p _ key false cannot_grow_hash h'.allocs i v r)

  -- `hash_ensure` on a hash whose values are nodes that have been allocated, none of them NULL, gives the
  -- key such a node and leaves every other key, and every other node, as it was; or it fails, in the
  -- growth or in one of two allocations, and then no key has changed. Either way the hash stays well
  -- formed, and its values such nodes.
  pub hash_ensure-Ensured :
      (h : Heap NV) (p : ℕ) (key : Bytes)
      → IsHash h p
      → HaveNodes h p
      → Ensured h p key (hash_ensure grant zero_nv h p key)
  unfolding hash_ensure hash_find find_in find_entry
  hash_ensure-Ensured h p key i v = rw (i.typed, find_in) (ensure_found_lem h p key _ i v refl)
