-- ===== src/Shared.antt =====
-- The nodes of GoRoutineShared.h. A pointer to a node is a number, 0 is NULL. The used entries of a
-- hash are a list, `hash_count` being its length; the slots of an array are a list whose length is
-- `array_capacity`. NV, the C `double`, and what Perl computes with it are parameters.
pub mod Heap
pub mod Import
pub mod Reserve
pub mod Scalar
pub mod Hash
pub mod Array
pub mod Perl
pub mod Graph
use developer_dashboard.Common.{ℕ, Bool, true, false, List, [], ◌∷◌, Option, none, some, Bytes}
use developer_dashboard.Common.Int.{ℤ, pos}

pub data SharedType : Type 0 where
  undef iv nv pv hash array scalarref regexp format : SharedType

pub record HashEntry : Type 0 where
  pub key : Bytes
  pub value : ℕ

pub record SharedNode (NV : Type 0) : Type 0 where
  pub type : SharedType
  pub iv : ℤ
  pub nv : NV
  pub pv : Option Bytes
  pub utf8 : Bool
  pub class_name : Option Bytes
  pub hash_entries : List HashEntry
  pub hash_capacity : ℕ
  pub array_items : List ℕ
  pub array_size : ℕ
  pub scalarref_value : ℕ

-- `calloc`, and `dd_shared_node_clear`: every field is zero.
abbrev pub empty_node : {NV : Type 0} → NV → SharedNode NV
empty_node zero_nv = record {
  type = undef;
  iv = pos 0;
  nv = zero_nv;
  pv = none;
  utf8 = false;
  class_name = none;
  hash_entries = [];
  hash_capacity = 0;
  array_items = [];
  array_size = 0;
  scalarref_value = 0;
}

-- `dd_shared_type` in the order of the source: what stands from `hash` on is a reference.
abbrev pub is_reference : SharedType → Bool
is_reference undef = false
is_reference iv = false
is_reference nv = false
is_reference pv = false
is_reference _ = true
