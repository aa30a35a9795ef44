-- ===== src/Tests/Shared.antt =====
-- The growth of a table, and a shared hash and array of one heap.
use developer_dashboard.Common.{
  [], ◌∷◌, ℕ, ◌≡◌, refl, arith, Bool, true, Option, some, codes, ◌==◌, if◌then◌else◌,
}
use developer_dashboard.Common.Int.{pos}
use developer_dashboard.Shared.{hash, array, SharedNode, empty_node}
use developer_dashboard.Shared.Heap.{Heap}
use developer_dashboard.Shared.Reserve.{new_capacity, Chosen, new_capacity-Chosen}
use developer_dashboard.Shared.Hash.{hash_ensure}
use developer_dashboard.Shared.Hash.Growth.{IsHash}
use developer_dashboard.Shared.Hash.Laws.{Ensured, hash_ensure-Ensured}
use developer_dashboard.Shared.Import.{
  ImportMap, import_find, find_source, import_add, IsMap, Added, import_add-Added,
}
use developer_dashboard.Shared.Array.{array_ensure}
use developer_dashboard.Shared.Array.Growth.{IsArray}
use developer_dashboard.Shared.Array.Laws.{ArrayEnsured, array_ensure-Ensured}

abbrev nodes : ℕ → SharedNode ℕ
nodes p =
    if p == 1
    then record (empty_node 0) { type = hash }
    else if p == 2
    then record (empty_node 0) { type = array }
    else empty_node 0

abbrev heap : Heap ℕ
heap = record { next = 3; node = nodes; allocs = 0 }

abbrev always : ℕ → Bool
always n = true

heap-IsHash : IsHash heap 1
heap-IsHash = record {
  typed = refl;
  allocated = omega arith;
  counted = omega arith;
  fits = omega arith;
}

heap-IsArray : IsArray heap 2
heap-IsArray = record {
  typed = refl;
  nonnull = omega arith;
  allocated = omega arith;
  within = omega arith;
  fits = omega arith;
  holes = λ i l. refl;
}

new_capacity-Chosen_example : (r : Option ℕ) × (new_capacity 24 8 9 ≡ some r) × Chosen 24 8 9 r
new_capacity-Chosen_example = new_capacity-Chosen 24 8 9 (omega arith) (omega arith) (omega arith)

hash_ensure-Ensured_example :
    Ensured always 0 heap 1 (codes "key") (hash_ensure always 0 heap 1 (codes "key"))
hash_ensure-Ensured_example = hash_ensure-Ensured always 0 heap 1 (codes "key") heap-IsHash tt

array_ensure-Ensured_example :
    ArrayEnsured always 0 heap 2 (pos 3) (array_ensure always 0 heap 2 (pos 3))
array_ensure-Ensured_example = array_ensure-Ensured always 0 heap 2 (pos 3) heap-IsArray

abbrev full_map : ImportMap
full_map = record { entries = record { source = 1000; node = 1 } ∷ []; capacity = 1 }

full_map-IsMap : IsMap full_map
full_map-IsMap = record {
  within = omega arith;
  fits = omega arith;
  nodes = (λ e. omega (arith, e), tt);
}

import_add-Added_example : Added true full_map 2000 2 (import_add true full_map 2000 2)
unfolding import_find find_source
import_add-Added_example =
    import_add-Added true full_map 2000 2 full_map-IsMap (λ e. omega (arith, e)) refl
