-- ===== src/Shared/Graph.antt =====
-- `dd_shared_import_value` and `dd_shared_import_into` of GoRoutineShared.h: a Perl value, with all that it
-- refers to, becomes nodes. An SV is its address; what Perl's API says of one is a parameter.
pub mod Missing
pub mod Stands
pub mod Steps
pub mod Loops
pub mod Entries
pub mod Items
pub mod Opened
pub mod Kinds
pub mod Filled
pub mod Values
pub mod Faithful
use developer_dashboard.Common.{
  ℕ, zero, suc, ◌+◌, ◌-◌, ◌/◌, ◌==◌, ltb, leb, ◌||◌, ◌&&◌, not, Bool, true, false, if◌then◌else◌,
  List, [], ◌∷◌, ◌++◌, Option, none, some, Bytes, codes, length,
}
use developer_dashboard.Shared.{
  SharedType, hash, array, scalarref, regexp, format, SharedNode, empty_node,
}
use developer_dashboard.Shared.Heap.{Heap, Answer, ok, failed, out_of_fuel, put, counted, new_node}
use developer_dashboard.Shared.Reserve.{size_max}
use developer_dashboard.Shared.Hash.{hash_count, hash_reserve, with_entry}
use developer_dashboard.Shared.Array.{array_reserve, item_size, with_size, with_item}
use developer_dashboard.Shared.Scalar.{PerlApi, plain_iv, plain_nv, import_scalar}
use developer_dashboard.Shared.Import.{
  ImportMap, import_add, import_find, import_entry_size, next_capacity,
}
use developer_dashboard.Shared.Perl.{
  Graph, ImportError, Imported, Perl, Referent, and_then, array_cannot_grow, array_of, change, done,
  format_of, full_name, hash_cannot_grow, hash_of, long_format_name, map_allocs, no_format_name,
  no_hash_key, no_map, no_mapping, no_node, no_object_class, no_regexp, no_regexp_class, no_scalar,
  other_of, refused, regexp_of, scalar_of, sv_class, unfinished, unnamed_format, unreadable_regexp,
  unsupported, with_pv, with_scalarref, with_type,
}

module _ {NV : Type 0} (perl : Perl NV) (grant : ℕ → Bool) where
  abbrev pub counted_in : Graph NV → Graph NV
  counted_in g = record g { heap = counted g.heap }

  -- A call of `malloc`, and what is done where it succeeds.
  abbrev pub alloc :
      ImportError → ℕ → (SharedNode NV → SharedNode NV) → Graph NV → Imported ℕ × Graph NV
  alloc e p f g =
      if grant g.heap.allocs then (done p, counted_in (change p f g)) else (refused e, counted_in g)

  -- `dd_shared_set_class`. A class is a C string.
  abbrev pub set_class : ImportError → ℕ → Option Bytes → Graph NV → Imported ℕ × Graph NV
  set_class e p none g = (done p, g)
  set_class e p (some []) g = (done p, g)
  set_class e p (some (c ∷ name)) g = alloc e p (λ n. record n { class_name = some (c ∷ name) }) g

  -- The preferred node, or a new one.
  abbrev pub acquire : Option ℕ → Graph NV → Imported ℕ × Graph NV
  acquire (some p) g = (done p, g)
  acquire none g =
      if grant g.heap.allocs
      then (done g.heap.next, record g { heap = new_node perl.api.zero_nv g.heap })
      else (refused no_node, counted_in g)

  -- Whether `import_scalar` calls `malloc`.
  abbrev pub scalar_allocs : ℕ → ℕ
  scalar_allocs v =
      if perl.api.ok v
        && not (plain_iv perl.api v)
        && not (plain_nv perl.api v)
        && not (leb (size_max - 1) (length (perl.api.sv_pv v)))
      then 1
      else 0

  unfoldable pub store_scalar : ℕ → ℕ → Graph NV → Imported ℕ × Graph NV
  store_scalar p v g =
      let r = import_scalar perl.api (grant g.heap.allocs) v in
      (
        (if r.0 then done p else refused no_scalar),
        record g { heap = record (put g.heap p r.1) { allocs = g.heap.allocs + scalar_allocs v } },
      )

  unfoldable pub add_mapping : SharedType → ℕ → ℕ → Graph NV → Imported ℕ × Graph NV
  add_mapping t source p g =
      let r = import_add (grant g.heap.allocs) g.map source p in
      (
        (if r.0 then done p else refused (no_mapping t)),
        record { heap = record g.heap { allocs = g.heap.allocs + map_allocs g.map }; map = r.1 },
      )

  abbrev pub entry_reserved : Graph NV → Answer Bool × Heap NV → Imported ℕ × Graph NV
  entry_reserved g (ok true, h) =
      if grant h.allocs
      then (done 0, record g { heap = counted h })
      else (refused no_hash_key, record g { heap = counted h })
  entry_reserved g (ok false, h) = (refused hash_cannot_grow, record g { heap = h })
  entry_reserved g (failed e, h) = (refused hash_cannot_grow, record g { heap = h })
  entry_reserved g (out_of_fuel, h) = (unfinished, record g { heap = h })

  -- Room for one more entry, and for its key.
  unfoldable pub reserve_entry : ℕ → Bytes → Graph NV → Imported ℕ × Graph NV
  reserve_entry p key g =
      if leb (size_max - 1) (length key)
      then (refused hash_cannot_grow, g)
      else entry_reserved g
          (hash_reserve grant perl.api.zero_nv g.heap p (hash_count (g.heap.node p) + 1))

  -- The loop over a hash; `rec` imports a value that has no node yet.
  unfoldable pub import_entries :
      (ℕ → Graph NV → Imported ℕ × Graph NV)
      → ℕ
      → List (Bytes × ℕ)
      → Graph NV
      → Imported ℕ × Graph NV
  import_entries rec p [] g = (done p, g)
  import_entries rec p (entry ∷ rest) g = and_then (reserve_entry p entry.0 g) (λ room g1.
      and_then (rec entry.1 g1)
        (λ child g2. import_entries rec p rest (change p (λ n. with_entry n entry.0 child) g2)))

  -- The loop over an array from the index `i` on.
  unfoldable pub import_items :
      (ℕ → Graph NV → Imported ℕ × Graph NV)
      → ℕ
      → ℕ
      → List (Option ℕ)
      → Graph NV
      → Imported ℕ × Graph NV
  import_items rec p i [] g = (done p, g)
  import_items rec p i (none ∷ rest) g = import_items rec p (i + 1) rest g
  import_items rec p i (some value ∷ rest) g =
      and_then (rec value g)
        (λ child g2. import_items rec p (i + 1) rest (change p (λ n. with_item n i child) g2))

  abbrev pub items_reserved :
      (ℕ → Graph NV → Imported ℕ × Graph NV)
      → ℕ
      → List (Option ℕ)
      → Graph NV
      → Answer Bool × Heap NV
      → Imported ℕ × Graph NV
  items_reserved rec p items g (ok true, h) =
      import_items rec p 0 items
        (change p (λ n. with_size n (length items)) (record g { heap = h }))
  items_reserved rec p items g (ok false, h) = (refused array_cannot_grow, record g { heap = h })
  items_reserved rec p items g (failed e, h) = (refused array_cannot_grow, record g { heap = h })
  items_reserved rec p items g (out_of_fuel, h) = (unfinished, record g { heap = h })

  unfoldable pub fill_array :
      (ℕ → Graph NV → Imported ℕ × Graph NV)
      → ℕ
      → List (Option ℕ)
      → Graph NV
      → Imported ℕ × Graph NV
  fill_array rec p [] g = (done p, g)
  fill_array rec p (item ∷ items) g =
      if leb (size_max / item_size) (length items)
      then (refused array_cannot_grow, g)
      else items_reserved rec p (item ∷ items) g
          (array_reserve grant perl.api.zero_nv g.heap p (length (item ∷ items)))

  -- The node is in the map before anything is read behind the reference.
  abbrev pub opened :
      SharedType → ℕ → ℕ → Graph NV → (ℕ → Graph NV → Imported ℕ × Graph NV) → Imported ℕ × Graph NV
  opened t referent p g next = and_then (add_mapping t referent p g) (λ q g1.
      and_then (set_class no_object_class p (sv_class perl referent) (change p (with_type t) g1))
        next)

  abbrev pub import_regexp : ℕ → ℕ → Graph NV → Imported ℕ × Graph NV
  import_regexp referent p g =
      if leb (size_max - 1) (length (perl.pattern referent))
      then (refused unreadable_regexp, g)
      else and_then (alloc no_regexp p (with_pv regexp (perl.pattern referent)) g)
          (λ q g1. set_class no_regexp_class p (sv_class perl referent) g1)

  abbrev pub import_format : ℕ → ℕ → Option Bytes → Option Bytes → Graph NV → Imported ℕ × Graph NV
  import_format referent p (some stash) (some name) g =
      and_then (add_mapping format referent p g) (λ q g1.
        if ltb (size_max - length name - 3) (length stash)
        then (refused long_format_name, g1)
        else alloc no_format_name p (with_pv format (full_name stash name)) g1)
  import_format referent p _ _ g = (refused unnamed_format, g)

  abbrev pub import_referent :
      (ℕ → Graph NV → Imported ℕ × Graph NV) → ℕ → ℕ → Referent → Graph NV → Imported ℕ × Graph NV
  import_referent rec referent p (hash_of entries) g =
      opened hash referent p g (λ q g1. import_entries rec p entries g1)
  import_referent rec referent p regexp_of g =
      and_then (add_mapping regexp referent p g) (λ q g1. import_regexp referent p g1)
  import_referent rec referent p (format_of stash name) g = import_format referent p stash name g
  import_referent rec referent p (array_of items) g =
      opened array referent p g (λ q g1. fill_array rec p items g1)
  import_referent rec referent p scalar_of g = opened scalarref referent p g (λ q g1.
      and_then (rec referent g1) (λ child g2. (done p, change p (with_scalarref child) g2)))
  import_referent rec referent p (other_of type_name) g = (refused (unsupported type_name), g)

  -- A value that is no reference, or one to what has a node, or to what has none.
  abbrev pub import_behind :
      (ℕ → Graph NV → Imported ℕ × Graph NV)
      → Option ℕ
      → ℕ
      → Option ℕ
      → Graph NV
      → Imported ℕ × Graph NV
  import_behind rec preferred value none g =
      and_then (acquire preferred g) (λ p g1. store_scalar p value g1)
  import_behind rec preferred value (some referent) g =
      if import_find g.map referent == 0
      then and_then (acquire preferred g) (λ p g1.
        import_referent rec referent p (perl.contents referent)
          (change p (λ n. empty_node perl.api.zero_nv) g1))
      else (done (import_find g.map referent), g)

  unfoldable pub import_value : ℕ → Option ℕ → ℕ → Graph NV → Imported ℕ × Graph NV
  import_value zero preferred value g = (unfinished, g)
  import_value (suc fuel) preferred value g =
      import_behind (λ v g1. import_value fuel none v g1) preferred value (perl.rv value) g

  -- The map is freed at the end.
  unfoldable pub import_into : ℕ → ℕ → ℕ → Heap NV → Imported ℕ × Graph NV
  import_into fuel destination value h =
      import_value fuel (some destination) value (record { heap = h; map = no_map })
