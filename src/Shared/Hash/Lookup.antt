-- ===== src/Shared/Hash/Lookup.antt =====
-- The search of a shared hash as the search of a list.
use developer_dashboard.Common.{
  ℕ, ◌≡◌, ◌≢◌, ◌∙◌, refl, arith, false, Bool-cases, inl, inr, List, [], ◌∷◌, ◌++◌, if◌then◌else◌,
  Bytes, equal, equal_iff,
}
use developer_dashboard.Shared.{hash, HashEntry, SharedNode}
use developer_dashboard.Shared.Hash.{
  Found, no_hash, absent, at, find_entry, value_at, find_in, hash_find, found_value, hash_get,
  after_first,
}

-- The value of the first entry with the key, 0 for none.
abbrev pub lookup : List HashEntry → Bytes → ℕ
lookup [] key = 0
lookup (e ∷ rest) key = if equal e.key key then e.value else lookup rest key

value_at-after_first :
    (e : HashEntry) (rest : List HashEntry) (f : Found)
    → found_value (e ∷ rest) (after_first f) ≡ found_value rest f
unfolding value_at
value_at-after_first e rest no_hash = refl
value_at-after_first e rest absent = refl
value_at-after_first e rest (at i) = refl

pub found_value-find_entry :
    (entries : List HashEntry) (key : Bytes)
    → found_value entries (find_entry entries key) ≡ lookup entries key
unfolding find_entry value_at
found_value-find_entry [] key = refl
found_value-find_entry (e ∷ rest) key = elim (Bool-cases (equal e.key key)) [
  | inl same ↦ rw same
  | inr other ↦
      rw other (value_at-after_first e rest (find_entry rest key) ∙ found_value-find_entry rest key)
]

absent-cons :
    (e : HashEntry) (rest : List HashEntry) (key : Bytes)
    → find_entry (e ∷ rest) key ≡ absent
    → (equal e.key key ≡ false) × (find_entry rest key ≡ absent)
unfolding find_entry
absent-cons e rest key h = elim (Bool-cases (equal e.key key)) [
  | inl same ↦ absurd (impossible (rw same at h))
  | inr other ↦ (other, tail (find_entry rest key) (rw other at h))
]
  where
    impossible : at 0 ≡ absent → ⊥
    impossible q = cc

    tail : (f : Found) → after_first f ≡ absent → f ≡ absent
    tail no_hash q = q
    tail absent q = refl
    tail (at i) q = absurd (cc)

pub lookup-append :
    (entries : List HashEntry) (key k : Bytes) (v : ℕ)
    → find_entry entries key ≡ absent
    → lookup (entries ++ (record { key = key; value = v } ∷ [])) k
      ≡ (if equal key k then v else lookup entries k)
lookup-append [] key k v h = refl
lookup-append (e ∷ rest) key k v h =
    let (other, behind) = absent-cons e rest key h in
    ground (
      arith,
      other,
      lookup-append rest key k v behind,
      equal_iff e.key k,
      equal_iff key k,
      equal_iff e.key key,
    )

pub hash_get-lookup :
    {NV : Type 0} (n : SharedNode NV) (k : Bytes)
    → n.type ≡ hash
    → hash_get n k ≡ lookup n.hash_entries k
unfolding hash_get hash_find find_in
hash_get-lookup n k t = rw (t, find_in) (found_value-find_entry n.hash_entries k)

pub find_entry-ne-no_hash :
    (entries : List HashEntry) (key : Bytes) → find_entry entries key ≢ no_hash
unfolding find_entry
find_entry-ne-no_hash [] key e = cc
find_entry-ne-no_hash (x ∷ rest) key e = elim (Bool-cases (equal x.key key)) [
  | inl same ↦ impossible (rw same at e)
  | inr other ↦ find_entry-ne-no_hash rest key (tail (find_entry rest key) (rw other at e))
]
  where
    impossible : at 0 ≡ no_hash → ⊥
    impossible q = cc

    tail : (f : Found) → after_first f ≡ no_hash → f ≡ no_hash
    tail no_hash q = refl
    tail absent q = q
    tail (at i) q = absurd (cc)
