-- ===== src/Box/Kept.antt =====
-- What a scalar keeps that is stored in a box and copied out again.
use developer_dashboard.Common.{
  ◌+◌, ◌-◌, ◌<◌, ◌≡◌, sym, subst, arith, ltb, Bool, Bool-cases, true, false, not, if◌then◌else◌,
  ◌++◌, inl, inr, Bytes, length,
}
use developer_dashboard.Shared.Reserve.{size_max}
use developer_dashboard.Shared.Scalar.{PerlApi, plain_iv, plain_nv}
use developer_dashboard.Shared.Scalar.RoundTrip.{IsPerl}
use developer_dashboard.Box.{Box, store_sv, copy_sv, concat, with_text, clear_value}

-- What a copy has of a scalar: whether it is defined, its integer where it is no more than that, its double
-- likewise, and otherwise its bytes, which are flagged as no characters, whatever they were.
pub record Keeps {NV SV : Type 0} (api : PerlApi NV SV) (v copy : SV) : Type 0 where
  pub defined : api.ok copy ≡ api.ok v
  pub integer : api.ok v ≡ true → plain_iv api v ≡ true → api.sv_iv copy ≡ api.sv_iv v
  pub number :
      api.ok v ≡ true
      → plain_iv api v ≡ false
      → plain_nv api v ≡ true
      → api.sv_nv copy ≡ api.sv_nv v
  pub bytes :
      api.ok v ≡ true
      → plain_iv api v ≡ false
      → plain_nv api v ≡ false
      → (api.sv_pv copy ≡ api.sv_pv v) × (api.is_utf8 copy ≡ false)

module _ {NV SV : Type 0} (api : PerlApi NV SV) (p : IsPerl api) where
  abbrev shape : SV → SV
  shape v =
      if not (api.ok v)
      then api.new_undef
      else if plain_iv api v
      then api.new_iv (api.sv_iv v)
      else if plain_nv api v
      then api.new_nv (api.sv_nv v)
      else api.new_pv (api.sv_pv v) false

  shape_lem :
      (v : SV) (b : Box NV)
      → length (api.sv_pv v) < size_max
      → copy_sv api (store_sv api true v b).1 ≡ shape v
  unfolding store_sv copy_sv
  shape_lem v b l = ground (arith, l)

  shape-Keeps : (v : SV) → Keeps api v (shape v)
  shape-Keeps v = record {
    defined = ground (
      arith,
      p.undef_ok,
      p.iv_ok (api.sv_iv v),
      p.nv_ok (api.sv_nv v),
      p.pv_ok (api.sv_pv v) false,
    );
    integer = λ e f. ground (arith, e, f, p.iv_value (api.sv_iv v));
    number = λ e f g. ground (arith, e, f, g, p.nv_value (api.sv_nv v));
    bytes = λ e f g. (
      ground (arith, e, f, g, p.pv_value (api.sv_pv v) false),
      ground (arith, e, f, g, p.pv_utf8 (api.sv_pv v) false),
    );
  }

  text_lem :
      (t : Bytes) (b : Box NV) → api.sv_pv (copy_sv api (with_text api t (clear_value api b))) ≡ t
  unfolding copy_sv
  text_lem t b = p.pv_value t false

  concat_lem :
      (arg : SV) (b : Box NV) (reverse : Bool)
      → length (api.sv_pv (copy_sv api b)) + length (api.sv_pv arg) < size_max
      → api.sv_pv (copy_sv api (concat api true reverse arg b).1) ≡ (
          if reverse
          then api.sv_pv arg ++ api.sv_pv (copy_sv api b)
          else api.sv_pv (copy_sv api b) ++ api.sv_pv arg)
  unfolding concat
  concat_lem arg b reverse l =
      elim (Bool-cases
        (ltb (size_max - length (api.sv_pv (copy_sv api b)) - 1) (length (api.sv_pv arg)))) [
          | inl over ↦ ground (arith, over, l)
          | inr fits ↦ rw fits (
              text_lem
                (if reverse
                  then api.sv_pv arg ++ api.sv_pv (copy_sv api b)
                  else api.sv_pv (copy_sv api b) ++ api.sv_pv arg)
                b)
        ]

  -- A scalar whose bytes a machine can hold, stored in a box whatever that held and copied out: the copy keeps
  -- the definedness, the plain integer, the plain double or the bytes, but never the UTF-8 flag. With
  -- a text put behind or before it that leaves room, it has the bytes of both in that order.
  pub copy_sv-store_sv :
      (v arg : SV) (b : Box NV) (reverse : Bool)
      → length (api.sv_pv v) < size_max
      → length (api.sv_pv (copy_sv api (store_sv api true v b).1)) + length (api.sv_pv arg)
        < size_max
      → let stored = (store_sv api true v b).1 in
        Keeps api v (copy_sv api stored)
        × (api.sv_pv (copy_sv api (concat api true reverse arg stored).1) ≡ (
            if reverse
            then api.sv_pv arg ++ api.sv_pv (copy_sv api stored)
            else api.sv_pv (copy_sv api stored) ++ api.sv_pv arg))
  copy_sv-store_sv v arg b reverse l m = (
    subst (Keeps api v) (sym (shape_lem v b l)) (shape-Keeps v),
    concat_lem arg (store_sv api true v b).1 reverse m,
  )
