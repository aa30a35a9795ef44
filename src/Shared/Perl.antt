-- ===== src/Shared/Perl.antt =====
-- What GoRoutineShared.h reads of Perl, and the state that the import of a Perl value has: the nodes and
-- the map of what has one.
use developer_dashboard.Common.{
  ℕ, ◌/◌, ◌==◌, ltb, ◌||◌, Bool, if◌then◌else◌, List, [], ◌++◌, Option, none, some, Bytes, codes,
  length,
}
use developer_dashboard.Shared.{SharedType, SharedNode}
use developer_dashboard.Shared.Heap.{Heap, put}
use developer_dashboard.Shared.Reserve.{size_max}
use developer_dashboard.Shared.Scalar.{PerlApi}
use developer_dashboard.Shared.Import.{ImportMap, import_entry_size, next_capacity}

-- What a reference refers to, by SvTYPE in the order of the tests: the keys and values of a hash in the
-- order of hv_iternext, the slots of an array, none where av_fetch finds nothing, the package and the name
-- of a format, and the sv_reftype of what is not supported.
pub data Referent : Type 0 where
  hash_of : List (Bytes × ℕ) → Referent
  regexp_of : Referent
  format_of : Option Bytes → Option Bytes → Referent
  array_of : List (Option ℕ) → Referent
  scalar_of : Referent
  other_of : Bytes → Referent

-- The calls of Perl's API: SvROK with SvRV, SvTYPE with what is read behind it, SvPV of a reference to a
-- regular expression, SvOBJECT, and SvSTASH with HvNAME, all three of the referent.
pub record Perl (NV : Type 0) : Type 0 where
  pub api : PerlApi NV ℕ
  pub rv : ℕ → Option ℕ
  pub contents : ℕ → Referent
  pub pattern : ℕ → Bytes
  pub is_object : ℕ → Bool
  pub stash_name : ℕ → Option Bytes

-- One for each text of `*error`; `no_mapping` has the type that its text names.
pub data ImportError : Type 0 where
  no_node no_scalar no_object_class : ImportError
  no_mapping : SharedType → ImportError
  hash_cannot_grow no_hash_key array_cannot_grow : ImportError
  unreadable_regexp no_regexp no_regexp_class : ImportError
  unnamed_format long_format_name no_format_name : ImportError
  unsupported : Bytes → ImportError

-- `unfinished` is no answer of the source: the model had too little fuel.
pub data Imported (A : Type 0) : Type 0 where
  done : A → Imported A
  refused : ImportError → Imported A
  unfinished : Imported A

pub record Graph (NV : Type 0) : Type 0 where
  pub heap : Heap NV
  pub map : ImportMap

abbrev pub and_then :
    {NV A B : Type 0}
    → Imported A × Graph NV
    → (A → Graph NV → Imported B × Graph NV)
    → Imported B × Graph NV
and_then (done a, g) next = next a g
and_then (refused e, g) next = (refused e, g)
and_then (unfinished, g) next = (unfinished, g)

abbrev pub change : {NV : Type 0} → ℕ → (SharedNode NV → SharedNode NV) → Graph NV → Graph NV
change p f g = record g { heap = put g.heap p (f (g.heap.node p)) }

abbrev pub with_type : {NV : Type 0} → SharedType → SharedNode NV → SharedNode NV
with_type t n = record n { type = t }

abbrev pub with_pv : {NV : Type 0} → SharedType → Bytes → SharedNode NV → SharedNode NV
with_pv t s n = record n { pv = some s; type = t }

abbrev pub with_scalarref : {NV : Type 0} → ℕ → SharedNode NV → SharedNode NV
with_scalarref c n = record n { scalarref_value = c }

-- The full name of a format is the package, two colons and the name.
abbrev pub full_name : Bytes → Bytes → Bytes
full_name stash name = stash ++ (codes "::" ++ name)

-- Whether `import_add` calls `realloc`.
abbrev pub map_allocs : ImportMap → ℕ
map_allocs m =
    let capacity = next_capacity m.capacity in
    if length m.entries == m.capacity
    then (if ltb capacity m.capacity || ltb (size_max / import_entry_size) capacity then 0 else 1)
    else 0

abbrev pub no_map : ImportMap
no_map = record { entries = []; capacity = 0 }

-- `dd_shared_sv_class` of a reference.
unfoldable pub sv_class : {NV : Type 0} → Perl NV → ℕ → Option Bytes
sv_class perl referent = if perl.is_object referent then perl.stash_name referent else none
