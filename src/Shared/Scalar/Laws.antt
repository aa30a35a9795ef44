-- ===== src/Shared/Scalar/Laws.antt =====
-- What an operation on a shared scalar may do to it, and how scalars go in and out.
use developer_dashboard.Common.{
  ℕ, suc, ◌-◌, ◌%◌, ◌<◌, ◌≡◌, ◌≢◌, refl, arith, Bool, true, false, Bytes, codes, length, equal, ltb,
  if_both, option_both, if◌then◌else◌, ◌&&◌,
}
use developer_dashboard.Common.Int.{ℤ, pos, negsuc}
use developer_dashboard.Shared.{is_reference, SharedNode}
use developer_dashboard.Shared.Reserve.{size_max}
use developer_dashboard.Shared.Scalar.{PerlApi, store_iv, store_nv, store_pv, plain_iv}
use developer_dashboard.Shared.Scalar.Apply.{
  Doubles, Outcome, applied, failed, undefined, apply, apply_step, apply_concat, apply_mod,
  remainder, apply_nv, store_result, divide, turned, as_iv, as_pv, too_large, no_memory, c_rem,
  is_iv, same_iv, iv_max, iv_min, is_zero_iv,
}

-- A node changes only where the operation is applied, and then it is a scalar still.
abbrev pub Settled : {NV : Type 0} → SharedNode NV → Outcome × SharedNode NV → Type 0
Settled n (applied, m) = is_reference m.type ≡ false
Settled n (failed e, m) = m ≡ n
Settled n (undefined, m) = m ≡ n

-- Perl's `%` of -(a + 1) by m + 1: it has the sign of the right operand.
abbrev pub perl_rem : ℕ → ℕ → ℕ
perl_rem a m = (suc m - suc a % suc m) % suc m

module _ {NV SV : Type 0} (api : PerlApi NV SV) (d : Doubles NV) where
  step_lem :
      (up : Bool) (n : SharedNode NV)
      → is_reference n.type ≡ false
      → Settled n (apply_step api d up n)
  unfolding apply_step store_nv
  step_lem up n h =
      if_both (Settled n) (is_iv n.type) _ _
        (if_both (Settled n) (same_iv n.iv (if up then iv_max else iv_min)) _ _ refl h) refl

  concat_lem :
      (granted : Bool) (n : SharedNode NV) (arg : SV) (reverse : Bool)
      → Settled n (apply_concat api d granted n arg reverse)
  unfolding apply_concat store_pv
  concat_lem granted n arg reverse =
      if_both (Settled n) (ltb (size_max - length (as_pv api d n) - 1) (length (api.sv_pv arg)))
        (failed too_large, n) _ refl (if_both (Settled n) granted _ (failed no_memory, n) refl refl)

  remainder_lem : (a b : ℤ) (n : SharedNode NV) → Settled n (remainder api d a b n)
  unfolding remainder store_iv
  remainder_lem a b n =
      if_both (Settled n) (is_zero_iv b) _ _ refl
        (if_both (Settled n) (same_iv a iv_min && same_iv b (negsuc 0)) _ _ refl refl)

  mod_lem :
      (n : SharedNode NV) (arg : SV) (reverse : Bool) → Settled n (apply_mod api d n arg reverse)
  unfolding apply_mod
  mod_lem n arg true = remainder_lem (api.sv_iv arg) (as_iv api d n) n
  mod_lem n arg false = remainder_lem (as_iv api d n) (api.sv_iv arg) n

  result_lem :
      (integral : Bool) (n : SharedNode NV) (arg : SV) (result : NV)
      → Settled n (store_result api d integral n arg result)
  unfolding store_result store_iv store_nv
  result_lem integral n arg result =
      if_both (Settled n) (integral && is_iv n.type && plain_iv api arg) _ _
        (option_both (Settled n) (d.to_iv result) _ _ refl (λ i. refl)) refl

  divide_lem : (a b : NV) (n : SharedNode NV) (arg : SV) → Settled n (divide api d a b n arg)
  unfolding divide
  divide_lem a b n arg =
      if_both (Settled n) (d.is_zero b) _ _ refl (result_lem false n arg (d.over a b))

  turned_divide_lem :
      (reverse : Bool) (a b : NV) (n : SharedNode NV) (arg : SV)
      → Settled n (turned reverse (divide api d) a b n arg)
  turned_divide_lem true a b n arg = divide_lem b a n arg
  turned_divide_lem false a b n arg = divide_lem a b n arg

  nv_lem :
      (operation : Bytes) (n : SharedNode NV) (arg : SV) (reverse : Bool)
      → Settled n (apply_nv api d operation n arg reverse)
  unfolding apply_nv
  nv_lem operation n arg reverse =
      if_both (Settled n) (equal operation (codes "add")) _ _ (result_lem true n arg _) (
        if_both (Settled n) (equal operation (codes "sub")) _ _ (result_lem true n arg _) (
          if_both (Settled n) (equal operation (codes "mul")) _ _ (result_lem true n arg _) (
            if_both (Settled n) (equal operation (codes "div")) _ _
              (turned_divide_lem reverse _ _ n arg) refl)))

  scalar_lem :
      (granted : Bool) (n : SharedNode NV) (operation : Bytes) (arg : SV) (reverse : Bool)
      → (reference : Bool) → is_reference n.type ≡ reference
      → Settled n (apply api d granted n operation arg reverse)
  unfolding apply
  scalar_lem granted n operation arg reverse true h = rw h refl
  scalar_lem granted n operation arg reverse false h =
      if_both (Settled n) (is_reference n.type) _ _ refl (
        if_both (Settled n) (equal operation (codes "inc")) _ _ (step_lem true n h) (
          if_both (Settled n) (equal operation (codes "dec")) _ _ (step_lem false n h) (
            if_both (Settled n) (equal operation (codes "concat")) _ _
              (concat_lem granted n arg reverse)
              (if_both (Settled n) (equal operation (codes "mod")) _ _ (mod_lem n arg reverse)
                (nv_lem operation n arg reverse)))))

  -- Whatever the operation, its argument and its order, an operation that fails leaves the node as it
  -- was, and one that is applied leaves a scalar.
  pub apply-Settled :
      (granted : Bool) (n : SharedNode NV) (operation : Bytes) (arg : SV) (reverse : Bool)
      → Settled n (apply api d granted n operation arg reverse)
  apply-Settled granted n operation arg reverse =
      scalar_lem granted n operation arg reverse (is_reference n.type) refl

  -- The remainder that is stored for a negative value and a positive operand that does not divide it
  -- is not the one of Perl's `%`.
  pub apply_mod-differs :
      (n : SharedNode NV) (arg : SV) (a m : ℕ)
      → as_iv api d n ≡ negsuc a
      → api.sv_iv arg ≡ pos (suc m)
      → 0 < suc a % suc m
      → (r : ℤ) × (apply_mod api d n arg false ≡ (applied, store_iv api r))
        × (r ≢ pos (perl_rem a m))
  unfolding apply_mod remainder
  apply_mod-differs n arg a m e f h =
      (c_rem (negsuc a) (pos (suc m)), rw (e, f) (ground arith), λ q. ground (arith, q, h))
