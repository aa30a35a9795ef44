-- ===== src/Shared/Scalar/RoundTrip.antt =====
-- A scalar that is copied out of a shared node and stored again is the same scalar.
use developer_dashboard.Common.{
  ◌-◌, ◌<◌, ◌≡◌, refl, subst, arith, Bool, true, false, some, Bytes, length, leb,
}
use developer_dashboard.Common.Int.{ℤ}
use developer_dashboard.Shared.{
  SharedType, undef, iv, nv, pv, hash, array, scalarref, regexp, format, SharedNode,
}
use developer_dashboard.Shared.Reserve.{size_max}
use developer_dashboard.Shared.Scalar.{
  PerlApi, store_iv, store_nv, store_pv, copy_scalar, scalar_of, import_scalar, text_in, plain_iv,
  plain_nv,
}

-- What Perl documents of the scalars that these calls make.
pub record IsPerl {NV SV : Type 0} (api : PerlApi NV SV) : Type 0 where
  pub undef_ok : api.ok api.new_undef ≡ false
  pub iv_ok : (i : ℤ) → api.ok (api.new_iv i) ≡ true
  pub iv_plain : (i : ℤ) → plain_iv api (api.new_iv i) ≡ true
  pub iv_value : (i : ℤ) → api.sv_iv (api.new_iv i) ≡ i
  pub nv_ok : (x : NV) → api.ok (api.new_nv x) ≡ true
  pub nv_not_iv : (x : NV) → plain_iv api (api.new_nv x) ≡ false
  pub nv_plain : (x : NV) → plain_nv api (api.new_nv x) ≡ true
  pub nv_value : (x : NV) → api.sv_nv (api.new_nv x) ≡ x
  pub pv_ok : (s : Bytes) (u : Bool) → api.ok (api.new_pv s u) ≡ true
  pub pv_not_iv : (s : Bytes) (u : Bool) → plain_iv api (api.new_pv s u) ≡ false
  pub pv_not_nv : (s : Bytes) (u : Bool) → plain_nv api (api.new_pv s u) ≡ false
  pub pv_value : (s : Bytes) (u : Bool) → api.sv_pv (api.new_pv s u) ≡ s
  pub pv_utf8 : (s : Bytes) (u : Bool) → api.is_utf8 (api.new_pv s u) ≡ u

module _ {NV SV : Type 0} (api : PerlApi NV SV) where
  -- The scalars that `copy_scalar` makes.
  data Made : SV → Type 0 where
    undefined : Made api.new_undef
    integer : (i : ℤ) → Made (api.new_iv i)
    number : (x : NV) → Made (api.new_nv x)
    characters : (s : Bytes) (u : Bool) → Made (api.new_pv s u)

  some_lem : {v w : SV} → some v ≡ some w → Made v → Made w
  some_lem {v} {w} e m = let q : v ≡ w = cc in subst Made q m

  scalar_of-Made :
      (t : SharedType) (n : SharedNode NV) (v : SV) → scalar_of api t n ≡ some v → Made v
  scalar_of-Made undef n v e = some_lem e undefined
  scalar_of-Made iv n v e = some_lem e (integer n.iv)
  scalar_of-Made nv n v e = some_lem e (number n.nv)
  scalar_of-Made pv n v e = some_lem e (characters (text_in n.pv) n.utf8)
  scalar_of-Made hash n v e = absurd (cc)
  scalar_of-Made array n v e = absurd (cc)
  scalar_of-Made scalarref n v e = absurd (cc)
  scalar_of-Made regexp n v e = absurd (cc)
  scalar_of-Made format n v e = absurd (cc)

  fits : (s : Bytes) → length s < size_max - 1 → leb (size_max - 1) (length s) ≡ false
  fits s h = ground arith

  stored_lem :
      (v : SV)
      → IsPerl api
      → Made v
      → length (api.sv_pv v) < size_max - 1
      → ((import_scalar api true v).0 ≡ true)
        × (copy_scalar api (import_scalar api true v).1 ≡ some v)
  unfolding import_scalar copy_scalar store_iv store_nv store_pv
  stored_lem v p undefined h = rw (p.undef_ok) (refl, refl)
  stored_lem v p (integer i) h = rw (p.iv_ok i, p.iv_plain i, p.iv_value i) (refl, refl)
  stored_lem v p (number x) h =
      rw (p.nv_ok x, p.nv_not_iv x, p.nv_plain x, p.nv_value x) (refl, refl)
  stored_lem v p (characters s u) h =
      let f = fits s (rw (p.pv_value s u) at h) in
      rw (p.pv_ok s u, p.pv_not_iv s u, p.pv_not_nv s u, p.pv_value s u, p.pv_utf8 s u, f)
        (refl, refl)

  -- Where memory can be had and a string is not too long, a copy of a shared scalar is stored, and a
  -- copy of what is stored is the same scalar.
  pub copy_scalar-import_scalar :
      (n : SharedNode NV) (v : SV)
      → IsPerl api
      → copy_scalar api n ≡ some v
      → length (api.sv_pv v) < size_max - 1
      → ((import_scalar api true v).0 ≡ true)
        × (copy_scalar api (import_scalar api true v).1 ≡ some v)
  unfolding copy_scalar
  copy_scalar-import_scalar n v p e h = stored_lem v p (scalar_of-Made n.type n v e) h
