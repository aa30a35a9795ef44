-- ===== src/Shared/Array.antt =====
-- `dd_shared_array_reserve`, `dd_shared_array_get` and `dd_shared_array_ensure` of GoRoutineShared.h.
pub mod Growth
pub mod Laws
pub mod Slots
use developer_dashboard.Common.{
  ℕ, zero, suc, ◌+◌, ◌-◌, ◌/◌, Bool, true, false, List, [], ◌∷◌, ◌++◌, Option, none, some, leb, ltb,
  ◌==◌, if◌then◌else◌, length, set, replicate,
}
use developer_dashboard.Common.Int.{ℤ, pos, negsuc}
use developer_dashboard.Shared.{
  SharedType, undef, iv, nv, pv, hash, array, scalarref, regexp, format, SharedNode,
}
use developer_dashboard.Shared.Heap.{
  Heap, Answer, ok, failed, out_of_fuel, not_an_array, negative_index, cannot_grow_array,
  no_memory_for_item, put, counted, new_node,
}
use developer_dashboard.Shared.Reserve.{new_capacity, size_max}

-- `sizeof(dd_shared_node *)` on a 64-bit machine.
abbrev pub item_size : ℕ
item_size = 8

abbrev pub is_array : SharedType → Bool
is_array array = true
is_array _ = false

-- `array_items[index]`, the index being within the capacity.
abbrev pub slot : List ℕ → ℕ → ℕ
slot [] i = 0
slot (v ∷ items) zero = v
slot (v ∷ items) (suc i) = slot items i

abbrev pub array_capacity : {NV : Type 0} → SharedNode NV → ℕ
array_capacity n = length n.array_items

-- The `memset` behind the `realloc`: the slots that are new are NULL.
abbrev pub widened : {NV : Type 0} → SharedNode NV → ℕ → SharedNode NV
widened n capacity = record n {
  array_items = n.array_items ++ replicate (capacity - length n.array_items) 0;
}

abbrev pub with_size : {NV : Type 0} → SharedNode NV → ℕ → SharedNode NV
with_size n size = record n { array_size = size }

abbrev pub with_item : {NV : Type 0} → SharedNode NV → ℕ → ℕ → SharedNode NV
with_item n i v = record n { array_items = set n.array_items i v }

pub array_get : {NV : Type 0} → SharedNode NV → ℤ → ℕ
array_get n (negsuc i) = 0
array_get n (pos i) =
    if is_array n.type then (if leb n.array_size i then 0 else slot n.array_items i) else 0

-- `if ((size_t)index >= node->array_size) node->array_size = (size_t)index + 1;`
abbrev pub sized : {NV : Type 0} → Heap NV → ℕ → ℕ → Heap NV
sized h p i = if leb (h.node p).array_size i then put h p (with_size (h.node p) (i + 1)) else h

module _ {NV : Type 0} (grant : ℕ → Bool) (zero_nv : NV) where
  array_realloc : Heap NV → ℕ → Option (Option ℕ) → Answer Bool × Heap NV
  array_realloc h p none = (out_of_fuel, h)
  array_realloc h p (some none) = (ok false, h)
  array_realloc h p (some (some capacity)) =
      if grant h.allocs
      then (ok true, counted (put h p (widened (h.node p) capacity)))
      else (ok false, counted h)

  pub array_reserve : Heap NV → ℕ → ℕ → Answer Bool × Heap NV
  array_reserve h p need =
      if leb need (array_capacity (h.node p))
      then (ok true, h)
      else array_realloc h p (new_capacity item_size (array_capacity (h.node p)) need)

  -- The node of a hole is allocated.
  array_fill : Heap NV → ℕ → ℕ → Answer ℕ × Heap NV
  array_fill h p i =
      if slot (h.node p).array_items i == 0
      then (if grant h.allocs
          then (
            ok h.next,
            put (new_node zero_nv h) p (with_item ((new_node zero_nv h).node p) i h.next),
          )
          else (failed no_memory_for_item, counted h))
      else (ok (slot (h.node p).array_items i), h)

  array_grown : ℕ → ℕ → Answer Bool × Heap NV → Answer ℕ × Heap NV
  array_grown p i (ok true, h) = array_fill (sized h p i) p i
  array_grown p i (ok false, h) = (failed cannot_grow_array, h)
  array_grown p i (failed e, h) = (failed e, h)
  array_grown p i (out_of_fuel, h) = (out_of_fuel, h)

  -- The index is no negative number.
  array_ensure_index : Heap NV → ℕ → ℤ → Answer ℕ × Heap NV
  array_ensure_index h p (negsuc i) = (failed negative_index, h)
  array_ensure_index h p (pos i) =
      if leb (size_max / item_size) i
      then (failed cannot_grow_array, h)
      else array_grown p i (array_reserve h p (i + 1))

  pub array_ensure : Heap NV → ℕ → ℤ → Answer ℕ × Heap NV
  array_ensure h p index =
      if is_array (h.node p).type then array_ensure_index h p index else (failed not_an_array, h)
