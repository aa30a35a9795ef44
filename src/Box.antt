-- ===== src/Box.antt =====
-- `shared_scalar` of GoRoutineNative.h: a scalar that interpreters share. Perl's scalars and what its API
-- says of them are parameters.
pub mod Kept
use developer_dashboard.Common.{
  ℕ, ◌+◌, ◌-◌, ◌==◌, ltb, Bool, true, false, not, ◌&&◌, if◌then◌else◌, ◌++◌, [], Option, none, some,
  Bytes, length,
}
use developer_dashboard.Common.Int.{ℤ}
use developer_dashboard.Shared.Reserve.{size_max}
use developer_dashboard.Shared.Scalar.{PerlApi, plain_iv, plain_nv, text_in}

pub data BoxType : Type 0 where
  shared_undef shared_iv shared_nv shared_pv : BoxType

pub record Box (NV : Type 0) : Type 0 where
  pub type : BoxType
  pub iv : ℤ
  pub nv : NV
  pub pv : Option Bytes

abbrev is_pv : BoxType → Bool
is_pv shared_pv = true
is_pv _ = false

module _ {NV SV : Type 0} (api : PerlApi NV SV) where
  -- `shared_clear_value`: numbers stay, but the type says that there are none.
  abbrev pub clear_value : Box NV → Box NV
  clear_value b = record b { type = shared_undef; pv = if is_pv b.type then none else b.pv }

  abbrev pub with_text : Bytes → Box NV → Box NV
  with_text s b = record b { type = shared_pv; pv = some s }

  -- Whether it succeeded, and the box. `granted` is the outcome of `malloc`.
  unfoldable pub store_sv : Bool → SV → Box NV → Bool × Box NV
  store_sv granted v b =
      if not (api.ok v)
      then (true, clear_value b)
      else if plain_iv api v
      then (true, record (clear_value b) { type = shared_iv; iv = api.sv_iv v })
      else if plain_nv api v
      then (true, record (clear_value b) { type = shared_nv; nv = api.sv_nv v })
      else if length (api.sv_pv v) == size_max
      then (false, clear_value b)
      else if granted
      then (true, with_text (api.sv_pv v) (clear_value b))
      else (false, clear_value b)

  abbrev pub copy_as : BoxType → Box NV → SV
  copy_as shared_undef b = api.new_undef
  copy_as shared_iv b = api.new_iv b.iv
  copy_as shared_nv b = api.new_nv b.nv
  copy_as shared_pv b = api.new_pv (text_in b.pv) false

  unfoldable pub copy_sv : Box NV → SV
  copy_sv b = copy_as b.type b

  -- `shared_concat`, with the length of the sum without wrap-around.
  unfoldable pub concat : Bool → Bool → SV → Box NV → Bool × Box NV
  concat granted reverse arg b =
      let left = api.sv_pv (copy_sv b) in
      let right = api.sv_pv arg in
      if ltb (size_max - length left - 1) (length right)
      then (false, b)
      else if granted
      then (true, with_text (if reverse then right ++ left else left ++ right) (clear_value b))
      else (false, b)
