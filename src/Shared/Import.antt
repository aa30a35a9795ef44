-- ===== src/Shared/Import.antt =====
-- `dd_shared_import_find` and `dd_shared_import_add`: which referents have been imported so far, and the
-- nodes that stand for them. Addresses are numbers, 0 is NULL; the count is the length of the list.
use developer_dashboard.Common.{
  ℕ, ◌+◌, ◌*◌, ◌/◌, ◌%◌, ◌^◌, ◌≤◌, ◌≡◌, ◌≢◌, refl, ap, arith, Bool, true, false, ◌||◌, not, List,
  [], ◌∷◌, ◌++◌, ltb, ◌==◌, Bool-cases, inl, inr, if◌then◌else◌, length, length-append, All,
}
use developer_dashboard.Shared.Reserve.{size_max}

pub record ImportEntry : Type 0 where
  pub source : ℕ
  pub node : ℕ

pub record ImportMap : Type 0 where
  pub entries : List ImportEntry
  pub capacity : ℕ

-- `sizeof(dd_shared_import_entry)` on a 64-bit machine.
abbrev pub import_entry_size : ℕ
import_entry_size = 16

unfoldable pub find_source : List ImportEntry → ℕ → ℕ
find_source [] source = 0
find_source (e ∷ rest) source = if e.source == source then e.node else find_source rest source

unfoldable pub import_find : ImportMap → ℕ → ℕ
import_find m source = find_source m.entries source

abbrev pub next_capacity : ℕ → ℕ
next_capacity c = if ltb 0 c then c * 2 % 2 ^ 64 else 16

abbrev pub with_mapping : ImportMap → ℕ → ℕ → ImportMap
with_mapping m source node = record m {
  entries = m.entries ++ (record { source = source; node = node } ∷ []);
}

-- `granted` is the outcome of the `realloc`.
unfoldable pub import_add : Bool → ImportMap → ℕ → ℕ → Bool × ImportMap
import_add granted m source node =
    let capacity = next_capacity m.capacity in
    if length m.entries == m.capacity
    then (if ltb capacity m.capacity || ltb (size_max / import_entry_size) capacity
        then (false, m)
        else if granted
        then (true, with_mapping (record m { capacity = capacity }) source node)
        else (false, m))
    else (true, with_mapping m source node)

abbrev pub HasNode : ImportEntry → Type 0
HasNode e = e.node ≢ 0

-- The entries are within the capacity, whose bytes fit a `size_t`, and none of their nodes is NULL.
pub record IsMap (m : ImportMap) : Type 0 where
  pub within : length m.entries ≤ m.capacity
  pub fits : m.capacity * import_entry_size ≤ size_max
  pub nodes : All HasNode m.entries

All-append :
    (l : List ImportEntry) (e : ImportEntry)
    → All HasNode l
    → HasNode e
    → All HasNode (l ++ (e ∷ []))
All-append [] e h g = (g, tt)
All-append (x ∷ l) e h g = (h.0, All-append l e h.1 g)

find_source-append :
    (l : List ImportEntry) (source node other : ℕ)
    → All HasNode l
    → find_source l source ≡ 0
    → find_source (l ++ (record { source = source; node = node } ∷ [])) other
      ≡ (if source == other then node else find_source l other)
unfolding find_source
find_source-append [] source node other n h = refl
find_source-append (e ∷ l) source node other n h =
    ground (arith, n.0, h, find_source-append l source node other n.1)

-- That the next capacity wraps, or that its entries are more than a `size_t` can count.
abbrev pub over_size : ℕ → Bool
over_size c = ltb (next_capacity c) c || ltb (size_max / import_entry_size) (next_capacity c)

-- What an answer of `import_add` stands for.
abbrev pub Added : Bool → ImportMap → ℕ → ℕ → Bool × ImportMap → Type 0
Added granted m source node (false, after) =
    (after ≡ m) × (length m.entries ≡ m.capacity) × (over_size m.capacity || not granted ≡ true)
Added granted m source node (true, after) =
    IsMap after
    × ((other : ℕ)
        → import_find after other ≡ (if source == other then node else import_find m other))

added_lem :
    (granted : Bool) (m : ImportMap) (source node capacity : ℕ)
    → IsMap m
    → node ≢ 0
    → import_find m source ≡ 0
    → length m.entries + 1 ≤ capacity
    → capacity * import_entry_size ≤ size_max
    → Added granted m source node
        (true, with_mapping (record m { capacity = capacity }) source node)
unfolding import_find
added_lem granted m source node capacity v n h a b = (
  record {
    within =
        omega (arith, a, length-append m.entries (record { source = source; node = node } ∷ []));
    fits = b;
    nodes = All-append m.entries _ v.nodes n;
  },
  λ other. find_source-append m.entries source node other v.nodes h,
)

-- A referent that is not in a well-formed map is added: the map then gives it its node and every other
-- referent what it gave before, and is well formed; or the map is as it was, it was full, and either the memory
-- has been refused or a capacity of twice as many entries does not fit a `size_t`.
pub import_add-Added :
    (granted : Bool) (m : ImportMap) (source node : ℕ)
    → IsMap m
    → node ≢ 0
    → import_find m source ≡ 0
    → Added granted m source node (import_add granted m source node)
unfolding import_add
import_add-Added granted m source node v n h = elim (Bool-cases (length m.entries == m.capacity)) [
  | inr room ↦
      rw room
        (added_lem granted m source node m.capacity v n h (ground (arith, room, v.within)) v.fits)
  | inl full ↦
      let at_end : length m.entries ≡ m.capacity = ground (arith, full) in
      rw full (elim (Bool-cases (over_size m.capacity)) [
        | inl over ↦ rw over (refl, at_end, ap (λ b. b || not granted) over)
        | inr fits ↦ rw fits (elim (Bool-cases granted) [
          | inr denied ↦ rw denied (refl, at_end, ground (arith, fits, denied))
          | inl got ↦ rw got (
              added_lem true m source node (next_capacity m.capacity) v n h
                (ground (arith, fits, full, v.fits)) (ground (arith, fits)))
        ])
      ])
]
