-- ===== src/Tests/Graph.antt =====
-- The import of a Perl graph with a cycle and an alias.
use developer_dashboard.Common.{
  ℕ, zero, suc, ◌≡◌, ◌==◌, refl, arith, Bool, true, false, List, [], ◌∷◌, Option, none, some, inl,
  inr, codes, Bytes, if◌then◌else◌,
}
use developer_dashboard.Common.Int.{pos}
use developer_dashboard.Shared.{scalarref, empty_node}
use developer_dashboard.Shared.Heap.{Heap}
use developer_dashboard.Shared.Scalar.{PerlApi}
use developer_dashboard.Shared.Import.{import_find, find_source, import_add}
use developer_dashboard.Shared.Perl.{
  Perl, Referent, hash_of, array_of, scalar_of, regexp_of, format_of, other_of, Graph, done,
  sv_class,
}
use developer_dashboard.Shared.Graph.{import_into, import_value, add_mapping}
use developer_dashboard.Shared.Graph.Missing.{Listed}
use developer_dashboard.Shared.Graph.Steps.{Gives}
use developer_dashboard.Shared.Graph.Entries.{AllValues}
use developer_dashboard.Shared.Graph.Items.{AllItems}
use developer_dashboard.Shared.Graph.Opened.{Reaches}
use developer_dashboard.Shared.Graph.Values.{IsFinite}
use developer_dashboard.Shared.Graph.Faithful.{IsCopy, import_into-IsCopy}

-- Every scalar is the integer 7.
abbrev seven : PerlApi ℕ ℕ
seven = record {
  ok = λ v. true;
  iok = λ v. true;
  nok = λ v. false;
  pok = λ v. false;
  is_utf8 = λ v. false;
  sv_iv = λ v. pos 7;
  sv_nv = λ v. 7;
  sv_pv = λ v. codes "7";
  new_iv = λ i. 1;
  new_nv = λ n. 1;
  new_pv = λ s u. 1;
  new_undef = 0;
  zero_nv = 0;
}

-- 0 and 1 refer to the hash 10, 2 to the array 11, 3 to the scalar 4.
abbrev refers : ℕ → Option ℕ
refers zero = some 10
refers (suc zero) = some 10
refers (suc (suc zero)) = some 11
refers (suc (suc (suc zero))) = some 4
refers _ = none

abbrev behind : ℕ → Referent
behind s =
    if s == 10
    then hash_of ((codes "self", 1) ∷ (codes "list", 2) ∷ [])
    else if s == 11
    then array_of (none ∷ some 1 ∷ some 3 ∷ some 4 ∷ [])
    else scalar_of

abbrev perl : Perl ℕ
perl = record {
  api = seven;
  rv = refers;
  contents = behind;
  pattern = λ s. [];
  is_object = λ s. s == 10;
  stash_name = λ s. some (codes "Node");
}

abbrev every_grant : ℕ → Bool
every_grant k = true

abbrev Any : ℕ → Type 0
Any v = Unit

abbrev referents : List ℕ
referents = 10 ∷ 11 ∷ 4 ∷ []

values-Any : (entries : List (Bytes × ℕ)) → AllValues perl Any entries
values-Any [] = tt
values-Any (e ∷ entries) = (tt, values-Any entries)

items-Any : (items : List (Option ℕ)) → AllItems perl Any items
items-Any [] = tt
items-Any (none ∷ items) = items-Any items
items-Any (some v ∷ items) = (tt, items-Any items)

reaches-Any : (s : ℕ) (r : Referent) → Reaches perl Any s r
reaches-Any s (hash_of entries) = values-Any entries
reaches-Any s (array_of items) = items-Any items
reaches-Any s regexp_of = tt
reaches-Any s (format_of stash name) = tt
reaches-Any s scalar_of = tt
reaches-Any s (other_of type_name) = tt

listed : (v s : ℕ) → refers v ≡ some s → Listed s referents
listed zero s e = let q : s ≡ 10 = cc in inl q
listed (suc zero) s e = let q : s ≡ 10 = cc in inl q
listed (suc (suc zero)) s e = let q : s ≡ 11 = cc in inr (inl q)
listed (suc (suc (suc zero))) s e = let q : s ≡ 4 = cc in inr (inr (inl q))
listed (suc (suc (suc (suc v)))) s e = cc

perl-IsFinite : IsFinite perl every_grant Any referents
perl-IsFinite = record { behind = λ v s a e. (listed v s e, reaches-Any s (behind s)) }

abbrev one_node : Heap ℕ
one_node = record { next = 2; node = λ p. empty_node 0; allocs = 0 }

-- `$x = \$x`: the scalar 4 refers to itself.
abbrev itself : Perl ℕ
itself = record perl { rv = λ v. some 4; contents = λ s. scalar_of }

abbrev after_cycle : Graph ℕ
after_cycle = (import_into itself every_grant 2 1 0 one_node).1

imports_cycle :
    ((import_into itself every_grant 2 1 0 one_node).0 ≡ done 1)
    × (after_cycle.heap.node 1 ≡ record (empty_node 0) { type = scalarref; scalarref_value = 1 })
unfolding import_into import_value add_mapping import_find find_source import_add sv_class
imports_cycle = (refl, refl)

import_into-IsCopy_example :
    Gives (IsCopy perl 1 0 one_node) (import_into perl every_grant 4 1 0 one_node)
import_into-IsCopy_example =
    import_into-IsCopy perl every_grant Any referents perl-IsFinite 4 1 0 one_node tt (omega arith)
      (omega arith) (omega arith) (omega arith)
