-- ===== src/Shared/Scalar/Apply.antt =====
-- `dd_shared_apply`: one overloaded operation on a shared scalar.
use developer_dashboard.Common.{
  ℕ, suc, ◌-◌, ◌%◌, ◌^◌, Bool, true, false, ◌&&◌, ◌||◌, Option, none, some, Bytes, codes, [], ◌++◌,
  length, equal, ltb, ◌==◌, if◌then◌else◌,
}
use developer_dashboard.Common.Int.{ℤ, pos, negsuc, ◌+ℤ◌, ◌-ℤ◌}
use developer_dashboard.Shared.{SharedType, iv, is_reference, SharedNode}
use developer_dashboard.Shared.Reserve.{size_max}
use developer_dashboard.Shared.Scalar.{PerlApi, store_iv, store_nv, store_pv, copy_scalar, plain_iv}

-- The arithmetic of doubles. `to_iv` is the cast to IV, none where C leaves it undefined.
pub record Doubles (NV : Type 0) : Type 0 where
  pub one : NV
  pub plus : NV → NV → NV
  pub minus : NV → NV → NV
  pub times : NV → NV → NV
  pub over : NV → NV → NV
  pub is_zero : NV → Bool
  pub to_iv : NV → Option ℤ

pub data ApplyError : Type 0 where
  shared_reference too_large no_memory modulus_zero division_zero unknown_operation : ApplyError

-- `undefined` is what C leaves undefined: an IV that overflows, or a cast of a double that is no IV.
pub data Outcome : Type 0 where
  applied : Outcome
  failed : ApplyError → Outcome
  undefined : Outcome

abbrev pub magnitude : ℤ → ℕ
magnitude (pos n) = n
magnitude (negsuc n) = suc n

abbrev pub negative : ℕ → ℤ
negative n = pos 0 -ℤ pos n

-- C's `a % b`: the remainder of the magnitudes, with the sign of `a`.
abbrev pub c_rem : ℤ → ℤ → ℤ
c_rem (pos a) b = pos (a % magnitude b)
c_rem (negsuc a) b = negative (suc a % magnitude b)

abbrev pub is_zero_iv : ℤ → Bool
is_zero_iv i = magnitude i == 0

abbrev pub iv_max : ℤ
iv_max = pos (2 ^ 63 - 1)

abbrev pub iv_min : ℤ
iv_min = negsuc (2 ^ 63 - 1)

abbrev pub same_iv : ℤ → ℤ → Bool
same_iv (pos a) (pos b) = a == b
same_iv (negsuc a) (negsuc b) = a == b
same_iv _ _ = false

abbrev pub is_iv : SharedType → Bool
is_iv iv = true
is_iv _ = false

abbrev pub turned {ℓ κ} : {A : Type ℓ} {B : Type κ} → Bool → (A → A → B) → A → A → B
turned reverse f left right = if reverse then f right left else f left right

module _ {NV SV : Type 0} (api : PerlApi NV SV) (d : Doubles NV) where
  unfoldable pub as_nv : SharedNode NV → NV
  as_nv n = elim (copy_scalar api n) [ none ↦ api.zero_nv | some v ↦ api.sv_nv v ]

  unfoldable pub as_iv : SharedNode NV → ℤ
  as_iv n = elim (copy_scalar api n) [ none ↦ pos 0 | some v ↦ api.sv_iv v ]

  unfoldable pub as_pv : SharedNode NV → Bytes
  as_pv n = elim (copy_scalar api n) [ none ↦ [] | some v ↦ api.sv_pv v ]

  unfoldable pub has_utf8 : SharedNode NV → Bool
  has_utf8 n = elim (copy_scalar api n) [ none ↦ false | some v ↦ api.is_utf8 v ]

  -- `++node->iv` and `--node->iv` overflow at the ends of the range.
  unfoldable pub apply_step : Bool → SharedNode NV → Outcome × SharedNode NV
  apply_step up n =
      if is_iv n.type
      then (if same_iv n.iv (if up then iv_max else iv_min)
          then (undefined, n)
          else (applied, record n { iv = if up then n.iv +ℤ pos 1 else n.iv -ℤ pos 1 }))
      else (applied, store_nv api (if up then d.plus (as_nv n) d.one else d.minus (as_nv n) d.one))

  unfoldable pub apply_concat : Bool → SharedNode NV → SV → Bool → Outcome × SharedNode NV
  apply_concat granted n arg reverse =
      let left = as_pv n in
      let right = api.sv_pv arg in
      if ltb (size_max - length left - 1) (length right)
      then (failed too_large, n)
      else if granted
      then (applied, store_pv api (turned reverse ◌++◌ left right) (has_utf8 n || api.is_utf8 arg))
      else (failed no_memory, n)

  -- `right_iv % left_iv` or `left_iv % right_iv`; the quotient of the least IV by -1 overflows.
  unfoldable pub remainder : ℤ → ℤ → SharedNode NV → Outcome × SharedNode NV
  remainder a b n =
      if is_zero_iv b
      then (failed modulus_zero, n)
      else if same_iv a iv_min && same_iv b (negsuc 0)
      then (undefined, n)
      else (applied, store_iv api (c_rem a b))

  unfoldable pub apply_mod : SharedNode NV → SV → Bool → Outcome × SharedNode NV
  apply_mod n arg reverse = turned reverse remainder (as_iv n) (api.sv_iv arg) n

  -- The result of the other operations: an IV stays one, but not in a division.
  unfoldable pub store_result : Bool → SharedNode NV → SV → NV → Outcome × SharedNode NV
  store_result integral n arg result =
      if integral && is_iv n.type && plain_iv api arg
      then (elim (d.to_iv result) [ none ↦ (undefined, n) | some i ↦ (applied, store_iv api i) ])
      else (applied, store_nv api result)

  unfoldable pub divide : NV → NV → SharedNode NV → SV → Outcome × SharedNode NV
  divide a b n arg =
      if d.is_zero b then (failed division_zero, n) else store_result false n arg (d.over a b)

  unfoldable pub apply_nv : Bytes → SharedNode NV → SV → Bool → Outcome × SharedNode NV
  apply_nv operation n arg reverse =
      let left = as_nv n in
      let right = api.sv_nv arg in
      if equal operation (codes "add")
      then store_result true n arg (turned reverse d.plus left right)
      else if equal operation (codes "sub")
      then store_result true n arg (turned reverse d.minus left right)
      else if equal operation (codes "mul")
      then store_result true n arg (turned reverse d.times left right)
      else if equal operation (codes "div")
      then turned reverse divide left right n arg
      else (failed unknown_operation, n)

  -- `granted` is the outcome of the `malloc` of a concatenation.
  unfoldable pub apply : Bool → SharedNode NV → Bytes → SV → Bool → Outcome × SharedNode NV
  apply granted n operation arg reverse =
      if is_reference n.type
      then (failed shared_reference, n)
      else if equal operation (codes "inc")
      then apply_step true n
      else if equal operation (codes "dec")
      then apply_step false n
      else if equal operation (codes "concat")
      then apply_concat granted n arg reverse
      else if equal operation (codes "mod")
      then apply_mod n arg reverse
      else apply_nv operation n arg reverse
