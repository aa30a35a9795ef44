-- ===== src/Json/Parse/Measure.antt =====
-- How much text each step of the parser leaves.
use developer_dashboard.Common.{
  ℕ, ◌+◌, ◌≤◌, ◌<◌, ◌≡◌, refl, arith, Option-cases, [], ◌∷◌, Option, none, some, inl, inr, length,
  Bytes,
}
use developer_dashboard.Json.{
  JParser, JValue, Items, Pairs, skip_spaces, j_skip, fail, invalid_array, invalid_object,
}
use developer_dashboard.Json.Text.Bounds.{Strung}
use developer_dashboard.Json.Parse.{
  Separator, comma, close, neither, separator, strip, keyword, expect, advance, item_separator,
  array_item, pair_separator, pair_value, pair_colon, true_word, false_word, null_word,
}

pub length-skip_spaces : (s : Bytes) → length (skip_spaces s) ≤ length s
unfolding skip_spaces
length-skip_spaces [] = omega arith
length-skip_spaces (c ∷ rest) = ground (arith, length-skip_spaces rest)

-- No value leaves more text than there was, and a value takes some.
abbrev pub Valued : ℕ → Option JValue × JParser → Type 0
Valued n (none, ps) = length ps.rest ≤ n
Valued n (some v, ps) = length ps.rest < n

abbrev Parted : ℕ → Separator → Type 0
Parted n (comma ps) = length ps.rest < n
Parted n (close ps) = length ps.rest < n
Parted n (neither ps) = length ps.rest ≤ n

separator-Parted :
    (bracket : ℕ) (ps : JParser) (s : Bytes)
    → ps.rest ≡ s
    → Parted (length s) (separator bracket ps s)
unfolding separator
separator-Parted bracket ps [] h = ground arith
separator-Parted bracket ps (c ∷ rest) h = ground arith

strip-length :
    (word s : Bytes) {rest : Bytes}
    → strip word s ≡ some rest
    → length rest + length word ≤ length s
unfolding strip
strip-length [] s h = ground arith
strip-length (k ∷ ks) [] h = ground arith
strip-length (k ∷ ks) (c ∷ s) {rest} h = ground (arith, strip-length ks s {rest = rest})

pub keyword-Valued : (ps : JParser) → Valued (length ps.rest) (keyword ps)
unfolding keyword
keyword-Valued ps = elim (Option-cases (strip true_word ps.rest)) [
  | inr (a, e) ↦ rw (e, keyword) (omega (arith, strip-length true_word ps.rest e))
  | inl e ↦
      rw (e, keyword)
        (elim (Option-cases (strip false_word ps.rest)) [
          | inr (a, f) ↦ rw (f, keyword) (omega (arith, strip-length false_word ps.rest f))
          | inl f ↦
              rw (f, keyword)
                (elim (Option-cases (strip null_word ps.rest)) [
                  | inr (a, g) ↦ rw (g, keyword) (omega (arith, strip-length null_word ps.rest g))
                  | inl g ↦ rw (g, keyword) (omega arith)
                ])
        ])
]

pub expect-length :
    (c : ℕ) (s : Bytes) {rest : Bytes} → expect c s ≡ some rest → length rest < length s
unfolding expect
expect-length c [] h = ground arith
expect-length c (d ∷ s) h = ground arith

pub length-advance :
    (ps : JParser) (s : Bytes) → ps.rest ≡ s → 0 < length s → length (advance ps).rest < length s
unfolding advance
length-advance ps [] h l = absurd (omega arith)
length-advance ps (c ∷ rest) h l = rw (h, advance) (omega arith)

pub Valued-mono : {m n : ℕ} (r : Option JValue × JParser) → m ≤ n → Valued m r → Valued n r
Valued-mono (none, ps) h v = omega arith
Valued-mono (some x, ps) h v = omega arith

-- What each function answers on fuel `f`, for a text that the fuel is enough for.
abbrev pub Answers {ℓ} : {A : Type ℓ} → Option (A × JParser) → ℕ → Type ℓ
Answers {A = A} call n = (r : A × JParser) × (call ≡ some r) × (length r.1.rest ≤ n)

pub Strung-mono : {m n : ℕ} (r : Option Bytes × JParser) → m ≤ n → Strung m r → Strung n r
Strung-mono (none, ps) h v = omega arith
Strung-mono (some x, ps) h v = omega arith

Parted-mono : {m n : ℕ} (s : Separator) → m ≤ n → Parted m s → Parted n s
Parted-mono (comma ps) h d = omega arith
Parted-mono (close ps) h d = omega arith
Parted-mono (neither ps) h d = omega arith

-- A loop that answers on every text shorter than `n`.
abbrev Serves {ℓ} : {A : Type ℓ} → (JParser → Option (A × JParser)) → ℕ → Type ℓ
Serves loop n = (ps : JParser) → length ps.rest < n → Answers (loop ps) (length ps.rest)

module _ (loop : JParser → Option (Items × JParser)) (n : ℕ) (serves : Serves loop n) where
  item_separator_total :
      (v : JValue) (s : Separator) → Parted n s → Answers (item_separator loop v s) n
  unfolding item_separator
  item_separator_total v (comma next) d =
      let less = length-skip_spaces next.rest in
      let (r, e, d') = serves (j_skip next) (omega arith) in
      ((Items.cons v r.0, r.1), rw e, omega arith)
  item_separator_total v (close last) d = ((Items.cons v Items.nil, last), refl, omega arith)
  item_separator_total v (neither last) d =
      ((Items.cons v Items.nil, fail invalid_array last), refl, omega arith)

  pub array_item_total : (r : Option JValue × JParser) → Valued n r → Answers (array_item loop r) n
  unfolding array_item
  array_item_total (none, after) d = ((Items.nil, fail invalid_array after), refl, omega arith)
  array_item_total (some v, after) d =
      let less = length-skip_spaces after.rest in
      item_separator_total v _ (
        Parted-mono _ (omega arith) (separator-Parted b']' (j_skip after) (j_skip after).rest refl))

module _ (loop : JParser → Option (Pairs × JParser)) (n : ℕ) (serves : Serves loop n) where
  pair_separator_total :
      (key : Bytes) (v : JValue) (s : Separator)
      → Parted n s
      → Answers (pair_separator loop key v s) n
  unfolding pair_separator
  pair_separator_total key v (comma next) d =
      let (r, e, d') = serves next (omega arith) in ((Pairs.pair key v r.0, r.1), rw e, omega arith)
  pair_separator_total key v (close last) d =
      ((Pairs.pair key v Pairs.end, last), refl, omega arith)
  pair_separator_total key v (neither last) d =
      ((Pairs.pair key v Pairs.end, fail invalid_object last), refl, omega arith)

  pair_value_total :
      (key : Bytes) (r : Option JValue × JParser) → Valued n r → Answers (pair_value loop key r) n
  unfolding pair_value
  pair_value_total key (none, after) d = ((Pairs.end, fail invalid_object after), refl, omega arith)
  pair_value_total key (some v, after) d =
      let less = length-skip_spaces after.rest in
      pair_separator_total key v _ (
        Parted-mono _ (omega arith) (separator-Parted b'}' (j_skip after) (j_skip after).rest refl))

  pub pair_colon_total :
      (value : JParser → Option (Option JValue × JParser))
      → ((ps : JParser)
          → length ps.rest < n
          → (r : Option JValue × JParser) × (value ps ≡ some r) × Valued (length ps.rest) r)
      → (r : Option Bytes × JParser) → Strung n r
      → Answers (pair_colon value loop r) n
  unfolding pair_colon
  pair_colon_total value reads (none, after) d =
      ((Pairs.end, fail invalid_object after), refl, omega arith)
  pair_colon_total value reads (some key, after) d =
      let less = length-skip_spaces after.rest in
      elim (Option-cases (expect b':' (j_skip after).rest)) [
        | inl e ↦ ((Pairs.end, fail invalid_object (j_skip after)), rw (e, pair_colon), omega arith)
        | inr (rest, e) ↦
            let shorter = expect-length b':' (j_skip after).rest e in
            let less' = length-skip_spaces rest in
            let (r, q, d') = reads (j_skip (record after { rest = rest })) (omega arith) in
            let (t, q', d'') = pair_value_total key r (Valued-mono r (omega arith) d') in
            (t, rw (e, pair_colon) (rw q q'), d'')
      ]
