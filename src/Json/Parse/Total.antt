-- ===== src/Json/Parse/Total.antt =====
-- `j_parse` ends on every text: each step of its recursion has fuel for what is left to read.
use developer_dashboard.Common.{
  ℕ, ◌∙◌, ◌≢◌, sym, zero, suc, ◌+◌, ◌*◌, ◌≤◌, ◌<◌, ◌≡◌, refl, arith, Option-cases, [], ◌∷◌, Option,
  none, some, inl, inr, length, Bytes, c_string,
}
use developer_dashboard.Json.{
  JParser, JValue, Items, Pairs, j_skip, fail, invalid_array, invalid_object,
}
use developer_dashboard.Json.Text.{j_string}
use developer_dashboard.Json.Text.Bounds.{Strung, j_string_total}
use developer_dashboard.Json.Parse.Steps.{bind_some, array_loop_cons, object_loop_cons}
use developer_dashboard.Json.Parse.{
  keyword, start, expect, advance, j_value, j_array, array_loop, j_object, object_loop, j_parse,
  accept, fuel_for, at_end, at_object, at_array, at_string, at_keyword, Start,
}
use developer_dashboard.Json.Parse.Measure.{
  length-skip_spaces, Valued, keyword-Valued, expect-length, length-advance, Valued-mono, Answers,
  Strung-mono, array_item_total, pair_colon_total,
}

record Enough (f : ℕ) : Type 0 where
  value :
      (ps : JParser)
      → 4 * length ps.rest + 2 ≤ f
      → (r : Option JValue × JParser) × (j_value f ps ≡ some r) × Valued (length ps.rest) r
  in_array :
      (ps : JParser)
      → 0 < length ps.rest
      → 4 * length ps.rest + 1 ≤ f
      → (r : Items × JParser) × (j_array f ps ≡ some r) × (length r.1.rest < length ps.rest)
  items : (ps : JParser) → 4 * length ps.rest + 3 ≤ f → Answers (array_loop f ps) (length ps.rest)
  in_object :
      (ps : JParser)
      → 0 < length ps.rest
      → 4 * length ps.rest + 1 ≤ f
      → (r : Pairs × JParser) × (j_object f ps ≡ some r) × (length r.1.rest < length ps.rest)
  pairs : (ps : JParser) → 4 * length ps.rest + 3 ≤ f → Answers (object_loop f ps) (length ps.rest)

start-pos : (s : Bytes) {k : Start} → start s ≡ k → k ≢ at_end → 0 < length s
unfolding start
start-pos [] e h = absurd (h (sym e))
start-pos (c ∷ rest) e h = omega arith

module _ (f : ℕ) (enough : Enough f) where
  open enough use {value, in_array, items, in_object, pairs}

  abbrev Value : JParser → Type 0
  Value ps =
      (r : Option JValue × JParser) × (j_value (suc f) ps ≡ some r) × Valued (length ps.rest) r

  value_at :
      (ps : JParser)
      → 4 * length ps.rest + 2 ≤ suc f
      → length (j_skip ps).rest ≤ length ps.rest
      → (k : Start) → start (j_skip ps).rest ≡ k
      → Value ps
  unfolding j_value
  value_at ps h l at_end e = ((none, j_skip ps), rw (e, j_value), omega arith)
  value_at ps h l at_object e =
      let (r, q, d) = in_object (j_skip ps) (start-pos _ e (λ x. cc)) (omega arith) in
      ((some (JValue.object r.0), r.1), rw (e, j_value) (rw q), omega arith)
  value_at ps h l at_array e =
      let (r, q, d) = in_array (j_skip ps) (start-pos _ e (λ x. cc)) (omega arith) in
      ((some (JValue.array r.0), r.1), rw (e, j_value) (rw q), omega arith)
  value_at ps h l at_string e = let (r, q, d) = j_string_total (j_skip ps) in string_at r q d
    where
      string_at :
          (r : Option Bytes × JParser)
          → j_string (j_skip ps) ≡ some r
          → Strung (length (j_skip ps).rest) r
          → Value ps
      string_at (none, after) q d = ((none, after), rw (e, j_value) (rw q), omega arith)
      string_at (some s, after) q d =
          ((some (JValue.string s), after), rw (e, j_value) (rw q), omega arith)
  value_at ps h l at_keyword e = (
    keyword (j_skip ps),
    rw (e, j_value),
    Valued-mono (keyword (j_skip ps)) l (keyword-Valued (j_skip ps)),
  )

  value_suc : (ps : JParser) → 4 * length ps.rest + 2 ≤ suc f → Value ps
  value_suc ps h = value_at ps h (length-skip_spaces ps.rest) (start (j_skip ps).rest) refl

  in_array_suc :
      (ps : JParser)
      → 0 < length ps.rest
      → 4 * length ps.rest + 1 ≤ suc f
      → (r : Items × JParser) × (j_array (suc f) ps ≡ some r) × (length r.1.rest < length ps.rest)
  unfolding j_array
  in_array_suc ps p h =
      let inside = j_skip (advance ps) in
      let less : length inside.rest < length ps.rest =
        omega (arith, length-skip_spaces (advance ps).rest, length-advance ps ps.rest refl p) in
      elim (Option-cases (expect b']' inside.rest)) [
        | inr (rest, e) ↦ (
          (Items.nil, record inside { rest = rest }),
          rw (e, j_array),
          omega (arith, expect-length b']' inside.rest e),
        )
        | inl e ↦ let (r, q, d) = items inside (omega arith) in (r, rw (e, j_array) q, omega arith)
      ]

  in_object_suc :
      (ps : JParser)
      → 0 < length ps.rest
      → 4 * length ps.rest + 1 ≤ suc f
      → (r : Pairs × JParser) × (j_object (suc f) ps ≡ some r) × (length r.1.rest < length ps.rest)
  unfolding j_object
  in_object_suc ps p h =
      let inside = j_skip (advance ps) in
      let less : length inside.rest < length ps.rest =
        omega (arith, length-skip_spaces (advance ps).rest, length-advance ps ps.rest refl p) in
      elim (Option-cases (expect b'}' inside.rest)) [
        | inr (rest, e) ↦ (
          (Pairs.end, record inside { rest = rest }),
          rw (e, j_object),
          omega (arith, expect-length b'}' inside.rest e),
        )
        | inl e ↦ let (r, q, d) = pairs inside (omega arith) in (r, rw (e, j_object) q, omega arith)
      ]

  items_suc :
      (ps : JParser)
      → 4 * length ps.rest + 3 ≤ suc f
      → (s : Bytes) → ps.rest ≡ s
      → Answers (array_loop (suc f) ps) (length ps.rest)
  unfolding array_loop
  items_suc ps h [] e =
      ((Items.nil, fail invalid_array ps), rw (e, array_loop) (ground arith), omega arith)
  items_suc ps h (c ∷ more) e =
      let (r, q, d) = value ps (omega arith) in
      let (t, q', d') =
        array_item_total (array_loop f) (length ps.rest) (λ p l. items p (omega arith)) r d in
      (t, array_loop_cons f ps e ∙ bind_some _ q q', d')

  pairs_suc :
      (ps : JParser)
      → 4 * length ps.rest + 3 ≤ suc f
      → (s : Bytes) → ps.rest ≡ s
      → Answers (object_loop (suc f) ps) (length ps.rest)
  unfolding object_loop
  pairs_suc ps h [] e =
      ((Pairs.end, fail invalid_object ps), rw (e, object_loop) (ground arith), omega arith)
  pairs_suc ps h (c ∷ more) e =
      let less = length-skip_spaces ps.rest in
      let (r, q, d) = j_string_total (j_skip ps) in
      let (t, q', d') =
        pair_colon_total (object_loop f) (length ps.rest) (λ p l. pairs p (omega arith)) (j_value f)
          (λ p l. value p (omega arith)) r (Strung-mono r less d) in
      (t, object_loop_cons f ps e ∙ bind_some _ q q', d')

enough : (f : ℕ) → Enough f
enough zero = record {
  value = λ ps h. absurd (omega arith);
  in_array = λ ps p h. absurd (omega arith);
  items = λ ps h. absurd (omega arith);
  in_object = λ ps p h. absurd (omega arith);
  pairs = λ ps h. absurd (omega arith);
}
enough (suc f) =
    let before = enough f in
    record {
      value = value_suc f before;
      in_array = in_array_suc f before;
      items = λ ps h. items_suc f before ps h ps.rest refl;
      in_object = in_object_suc f before;
      pairs = λ ps h. pairs_suc f before ps h ps.rest refl;
    }

-- `j_parse` comes to an end on every text, however deep its brackets nest: it returns a value or
-- NULL.
pub j_parse_total : (s : Bytes) → (r : Option JValue) × (j_parse s ≡ some r)
unfolding j_parse
j_parse_total s =
    let text = c_string s in
    let start_at : JParser = record { rest = text; error = none } in
    let (r, e, d) = (enough (fuel_for text)).value start_at (omega arith) in
    (accept r.0 (j_skip r.1), rw e)
