-- ===== src/Tests/Scalar.antt =====
-- A Perl of four kinds of scalars, with natural numbers for its doubles.
use developer_dashboard.Common.{
  ℕ, ◌+◌, ◌-◌, ◌*◌, ◌/◌, ◌≡◌, ◌≢◌, refl, arith, Bool, true, false, some, Bytes, [], codes, ◌==◌,
  equal, ◌∷◌, ◌++◌, none,
}
use developer_dashboard.Common.Int.{ℤ, pos, negsuc}
use developer_dashboard.Shared.{iv, SharedNode, empty_node}
use developer_dashboard.Shared.Scalar.{PerlApi, store_iv, store_pv, copy_scalar, import_scalar}
use developer_dashboard.Shared.Scalar.RoundTrip.{IsPerl, copy_scalar-import_scalar}
use developer_dashboard.Shared.Scalar.Apply.{
  Doubles, applied, apply, apply_mod, apply_concat, remainder, as_iv, as_pv, has_utf8,
}
use developer_dashboard.Shared.Scalar.Laws.{Settled, apply-Settled, perl_rem, apply_mod-differs}
use developer_dashboard.Box.{Box, shared_iv, store_sv, copy_sv, concat}
use developer_dashboard.Box.Kept.{Keeps, copy_sv-store_sv}

data Sv : Type 0 where
  nothing : Sv
  integer : ℤ → Sv
  number : ℕ → Sv
  characters : Bytes → Bool → Sv

abbrev is_defined : Sv → Bool
is_defined nothing = false
is_defined _ = true

abbrev is_integer : Sv → Bool
is_integer (integer i) = true
is_integer _ = false

abbrev is_number : Sv → Bool
is_number (number x) = true
is_number _ = false

abbrev is_characters : Sv → Bool
is_characters (characters s u) = true
is_characters _ = false

abbrev utf8_flag : Sv → Bool
utf8_flag (characters s u) = u
utf8_flag _ = false

abbrev as_integer : Sv → ℤ
as_integer (integer i) = i
as_integer (number x) = pos x
as_integer _ = pos 0

abbrev as_number : Sv → ℕ
as_number (integer (pos i)) = i
as_number (number x) = x
as_number _ = 0

abbrev as_characters : Sv → Bytes
as_characters (characters s u) = s
as_characters _ = []

abbrev perl : PerlApi ℕ Sv
perl = record {
  ok = is_defined;
  iok = is_integer;
  nok = is_number;
  pok = is_characters;
  is_utf8 = utf8_flag;
  sv_iv = as_integer;
  sv_nv = as_number;
  sv_pv = as_characters;
  new_iv = λ i. integer i;
  new_nv = λ x. number x;
  new_pv = λ s u. characters s u;
  new_undef = nothing;
  zero_nv = 0;
}

abbrev naturals : Doubles ℕ
naturals = record {
  one = 1;
  plus = ◌+◌;
  minus = ◌-◌;
  times = ◌*◌;
  over = ◌/◌;
  is_zero = λ n. n == 0;
  to_iv = λ n. some (pos n);
}

perl-IsPerl : IsPerl perl
perl-IsPerl = record {
  undef_ok = refl;
  iv_ok = λ i. refl;
  iv_plain = λ i. refl;
  iv_value = λ i. refl;
  nv_ok = λ x. refl;
  nv_not_iv = λ x. refl;
  nv_plain = λ x. refl;
  nv_value = λ x. refl;
  pv_ok = λ s u. refl;
  pv_not_iv = λ s u. refl;
  pv_not_nv = λ s u. refl;
  pv_value = λ s u. refl;
  pv_utf8 = λ s u. refl;
}

abbrev minus_seven : SharedNode ℕ
minus_seven = record (empty_node 0) { type = iv; iv = negsuc 6 }

concatenates :
    apply perl naturals true
      (store_pv perl (codes "b") false)
      (codes "concat")
      (characters (codes "a") true)
      true
    ≡ (applied, store_pv perl (codes "ab") true)
unfolding apply equal apply_concat as_pv has_utf8 copy_scalar store_pv
concatenates = refl

modulus :
    apply perl naturals true minus_seven (codes "mod") (integer (pos 3)) false
    ≡ (applied, store_iv perl (negsuc 0))
unfolding apply equal apply_mod remainder as_iv copy_scalar store_iv
modulus = refl

apply-Settled_example :
    Settled minus_seven (apply perl naturals true minus_seven (codes "mod") (integer (pos 0)) false)
apply-Settled_example =
    apply-Settled perl naturals true minus_seven (codes "mod") (integer (pos 0)) false

apply_mod-differs_example :
    (r : ℤ) × (apply_mod perl naturals minus_seven (integer (pos 3)) false
      ≡ (applied, store_iv perl r))
    × (r ≢ pos (perl_rem 6 2))
unfolding as_iv copy_scalar
apply_mod-differs_example =
    apply_mod-differs perl naturals minus_seven (integer (pos 3)) 6 2 refl refl (omega arith)

copy_scalar-import_scalar_example :
    ((import_scalar perl true (characters (codes "a") true)).0 ≡ true)
    × (copy_scalar perl (import_scalar perl true (characters (codes "a") true)).1
        ≡ some (characters (codes "a") true))
unfolding store_pv copy_scalar
copy_scalar-import_scalar_example =
    copy_scalar-import_scalar perl (store_pv perl (codes "a") true) (characters (codes "a") true)
      perl-IsPerl refl (omega arith)

-- The letter e with an acute accent, in UTF-8.
abbrev accented : Sv
accented = characters (195 ∷ 169 ∷ []) true

abbrev used_box : Box ℕ
used_box = record { type = shared_iv; iv = pos 5; nv = 0; pv = none }

loses_flag :
    copy_sv perl (store_sv perl true accented used_box).1 ≡ characters (195 ∷ 169 ∷ []) false
unfolding copy_sv store_sv
loses_flag = refl

copy_sv-store_sv_example :
    Keeps perl accented (copy_sv perl (store_sv perl true accented used_box).1)
    × (as_characters (
          copy_sv perl
            (concat perl true true
              (characters (65 ∷ []) false)
              (store_sv perl true accented used_box).1).1)
        ≡ (65 ∷ []) ++ as_characters (copy_sv perl (store_sv perl true accented used_box).1))
unfolding copy_sv store_sv
copy_sv-store_sv_example =
    copy_sv-store_sv perl perl-IsPerl accented (characters (65 ∷ []) false) used_box true
      (omega arith) (omega arith)
