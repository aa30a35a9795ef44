-- ===== src/Shared/Heap.antt =====
-- The nodes that GoRoutineShared.h has allocated, and what an operation on them answers. An
-- allocation may fail: `grant n` says whether the n-th one succeeds.
use developer_dashboard.Common.{ℕ, ◌+◌, ◌==◌, if◌then◌else◌}
use developer_dashboard.Shared.{SharedNode, empty_node}

pub record Heap (NV : Type 0) : Type 0 where
  pub next : ℕ
  pub node : ℕ → SharedNode NV
  pub allocs : ℕ

-- The errors of the source's `*error`, one for each text.
pub data SharedError : Type 0 where
  not_a_hash cannot_grow_hash no_memory_for_key no_memory_for_value : SharedError
  not_an_array negative_index cannot_grow_array no_memory_for_item : SharedError

-- `out_of_fuel` is no answer of the source: a loop of the model had too little fuel.
pub data Answer (A : Type 0) : Type 0 where
  ok : A → Answer A
  failed : SharedError → Answer A
  out_of_fuel : Answer A

abbrev pub update {ℓ} : {A : Type ℓ} → (ℕ → A) → ℕ → A → ℕ → A
update f p v q = if p == q then v else f q

module _ {NV : Type 0} where
  abbrev pub put : Heap NV → ℕ → SharedNode NV → Heap NV
  put h p n = record h { node = update h.node p n }

  -- One call of `malloc`, `calloc` or `realloc`, whatever its outcome.
  abbrev pub counted : Heap NV → Heap NV
  counted h = record h { allocs = h.allocs + 1 }

  -- `dd_shared_node_alloc` where it succeeds: `calloc` gives a node at a fresh address.
  abbrev pub new_node : NV → Heap NV → Heap NV
  new_node zero_nv h = record h {
    next = h.next + 1;
    node = update h.node h.next (empty_node zero_nv);
    allocs = h.allocs + 1;
  }
