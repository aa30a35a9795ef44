-- ===== src/Shared/Scalar.antt =====
-- Scalars in shared nodes: `dd_shared_import_scalar`, `dd_shared_copy_scalar` and the stores of
-- GoRoutineShared.h. A Perl scalar (SV) and what Perl's API says of one are parameters.
pub mod Apply
pub mod Laws
pub mod RoundTrip
use developer_dashboard.Common.{
  ℕ, ◌-◌, ◌^◌, Bool, true, false, not, ◌&&◌, Option, none, some, Bytes, [], length, if◌then◌else◌,
  leb,
}
use developer_dashboard.Common.Int.{ℤ}
use developer_dashboard.Shared.{
  SharedType, undef, iv, nv, pv, hash, array, scalarref, regexp, format, SharedNode, empty_node,
}
use developer_dashboard.Shared.Reserve.{size_max}

-- SvOK, SvIOK, SvNOK, SvPOK, SvUTF8, SvIV, SvNV, SvPV, and newSViv, newSVnv, newSVpvn with SvUTF8_on,
-- newSV(0).
pub record PerlApi (NV SV : Type 0) : Type 0 where
  pub ok : SV → Bool
  pub iok : SV → Bool
  pub nok : SV → Bool
  pub pok : SV → Bool
  pub is_utf8 : SV → Bool
  pub sv_iv : SV → ℤ
  pub sv_nv : SV → NV
  pub sv_pv : SV → Bytes
  pub new_iv : ℤ → SV
  pub new_nv : NV → SV
  pub new_pv : Bytes → Bool → SV
  pub new_undef : SV
  pub zero_nv : NV

-- A string of a node, with `pv ? pv : ""`.
abbrev pub text_in : Option Bytes → Bytes
text_in none = []
text_in (some s) = s

module _ {NV SV : Type 0} (api : PerlApi NV SV) where
  unfoldable pub store_iv : ℤ → SharedNode NV
  store_iv i = record (empty_node api.zero_nv) { type = iv; iv = i }

  unfoldable pub store_nv : NV → SharedNode NV
  store_nv n = record (empty_node api.zero_nv) { type = nv; nv = n }

  unfoldable pub store_pv : Bytes → Bool → SharedNode NV
  store_pv s utf8 = record (empty_node api.zero_nv) { type = pv; pv = some s; utf8 = utf8 }

  abbrev pub plain_iv : SV → Bool
  plain_iv v = api.iok v && not (api.nok v) && not (api.pok v)

  abbrev pub plain_nv : SV → Bool
  plain_nv v = api.nok v && not (api.pok v)

  -- Whether it succeeded, and the node, which is cleared in any case. `granted` is the outcome of the
  -- `malloc` for a string.
  unfoldable pub import_scalar : Bool → SV → Bool × SharedNode NV
  import_scalar granted v =
      if not (api.ok v)
      then (true, empty_node api.zero_nv)
      else if plain_iv v
      then (true, store_iv (api.sv_iv v))
      else if plain_nv v
      then (true, store_nv (api.sv_nv v))
      else if leb (size_max - 1) (length (api.sv_pv v))
      then (false, empty_node api.zero_nv)
      else if granted
      then (true, store_pv (api.sv_pv v) (api.is_utf8 v))
      else (false, empty_node api.zero_nv)

  abbrev pub scalar_of : SharedType → SharedNode NV → Option SV
  scalar_of undef n = some api.new_undef
  scalar_of iv n = some (api.new_iv n.iv)
  scalar_of nv n = some (api.new_nv n.nv)
  scalar_of pv n = some (api.new_pv (text_in n.pv) n.utf8)
  scalar_of _ n = none

  -- No scalar: it croaks, the value being a reference.
  unfoldable pub copy_scalar : SharedNode NV → Option SV
  copy_scalar n = scalar_of n.type n
