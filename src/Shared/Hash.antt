-- ===== src/Shared/Hash.antt =====
-- `dd_shared_hash_reserve`, `dd_shared_hash_find`, `dd_shared_hash_get` and `dd_shared_hash_ensure`
-- of GoRoutineShared.h.
pub mod Growth
pub mod Laws
pub mod Lookup
use developer_dashboard.Common.{
  ℕ, zero, suc, ◌+◌, Bool, true, false, List, [], ◌∷◌, ◌++◌, Option, none, some, leb, ◌==◌,
  if◌then◌else◌, Bytes, equal, length, get_elem?,
}
use developer_dashboard.Shared.{SharedType, undef, hash, HashEntry, SharedNode, empty_node}
use developer_dashboard.Shared.Heap.{
  Heap, Answer, ok, failed, out_of_fuel, not_a_hash, cannot_grow_hash, no_memory_for_key,
  no_memory_for_value, put, counted, new_node,
}
use developer_dashboard.Shared.Reserve.{new_capacity}

-- `sizeof(dd_shared_hash_entry)` on a 64-bit machine.
abbrev pub entry_size : ℕ
entry_size = 24

abbrev pub hash_count : {NV : Type 0} → SharedNode NV → ℕ
hash_count n = length n.hash_entries

-- -2 for a node that is no hash, -1 for a key that is absent, or the index.
pub data Found : Type 0 where
  no_hash : Found
  absent : Found
  at : ℕ → Found

abbrev after_first : Found → Found
after_first (at i) = at (suc i)
after_first f = f

pub find_entry : List HashEntry → Bytes → Found
find_entry [] key = absent
find_entry (e ∷ rest) key = if equal e.key key then at 0 else after_first (find_entry rest key)

-- `hash_entries[index].value`; the index is one that a search found.
pub value_at : List HashEntry → ℕ → ℕ
value_at [] i = 0
value_at (e ∷ rest) zero = e.value
value_at (e ∷ rest) (suc i) = value_at rest i

pub find_in : SharedType → List HashEntry → Bytes → Found
find_in hash entries key = find_entry entries key
find_in _ entries key = no_hash

abbrev pub found_value : List HashEntry → Found → ℕ
found_value entries (at i) = value_at entries i
found_value entries _ = 0

module _ {NV : Type 0} where
  pub hash_find : SharedNode NV → Bytes → Found
  hash_find n key = find_in n.type n.hash_entries key

  -- 0 is NULL.
  pub hash_get : SharedNode NV → Bytes → ℕ
  hash_get n key = found_value n.hash_entries (hash_find n key)

abbrev pub with_entry : {NV : Type 0} → SharedNode NV → Bytes → ℕ → SharedNode NV
with_entry n key v = record n {
  hash_entries = n.hash_entries ++ (record { key = key; value = v } ∷ []);
}

module _ {NV : Type 0} (grant : ℕ → Bool) (zero_nv : NV) where
  -- The `realloc` to the capacity that was chosen, if one was.
  hash_realloc : Heap NV → ℕ → Option (Option ℕ) → Answer Bool × Heap NV
  hash_realloc h p none = (out_of_fuel, h)
  hash_realloc h p (some none) = (ok false, h)
  hash_realloc h p (some (some capacity)) =
      if grant h.allocs
      then (ok true, counted (put h p (record (h.node p) { hash_capacity = capacity })))
      else (ok false, counted h)

  pub hash_reserve : Heap NV → ℕ → ℕ → Answer Bool × Heap NV
  hash_reserve h p need =
      if leb need (h.node p).hash_capacity
      then (ok true, h)
      else hash_realloc h p (new_capacity entry_size (h.node p).hash_capacity need)

  -- The key's copy, then the value's node; the key is given back where the node cannot be had.
  hash_append : Heap NV → ℕ → Bytes → Answer ℕ × Heap NV
  hash_append h p key =
      if grant h.allocs
      then (if grant (h.allocs + 1)
          then (
            ok h.next,
            put (new_node zero_nv (counted h)) p
                (with_entry ((new_node zero_nv (counted h)).node p) key h.next),
          )
          else (failed no_memory_for_value, counted (counted h)))
      else (failed no_memory_for_key, counted h)

  hash_grown : ℕ → Bytes → Answer Bool × Heap NV → Answer ℕ × Heap NV
  hash_grown p key (ok true, h) = hash_append h p key
  hash_grown p key (ok false, h) = (failed cannot_grow_hash, h)
  hash_grown p key (failed e, h) = (failed e, h)
  hash_grown p key (out_of_fuel, h) = (out_of_fuel, h)

  hash_ensure_found : Heap NV → ℕ → Bytes → Found → Answer ℕ × Heap NV
  hash_ensure_found h p key no_hash = (failed not_a_hash, h)
  hash_ensure_found h p key (at i) = (ok (value_at (h.node p).hash_entries i), h)
  hash_ensure_found h p key absent = hash_grown p key (hash_reserve h p (hash_count (h.node p) + 1))

  pub hash_ensure : Heap NV → ℕ → Bytes → Answer ℕ × Heap NV
  hash_ensure h p key = hash_ensure_found h p key (hash_find (h.node p) key)
