-- ===== src/Channel/Ring.antt =====
-- The ring of a channel: what it holds, and what a write behind it and a read at its head do.
use Prim.Native.Nat.{ℕ}
use native.Mathlib.Nat.{mod-add-mod, mod-eq_of_lt, mod-eq-sub-mod, add-zero, add-mod_right}
use mathlib.Core.Path.{ap₂}
use native.Mathlib.Decide.{dec_lt}
use developer_dashboard.Common.{
  zero, suc, ◌+◌, ◌-◌, ◌%◌, ◌<◌, ◌≤◌, ◌≡◌, ◌≢◌, ◌∙◌, refl, ap, arith, List, [], ◌∷◌, ◌++◌, Option,
  subst, length, set,
}
use developer_dashboard.Channel.{at_head}

add_mod_ne : (cap h k : ℕ) → h < cap → 0 < k → k < cap → (h + k) % cap ≢ h
add_mod_ne cap h k hh pos hk = elim (dec_lt (h + k) cap) [
  | yes below ↦ omega (arith, mod-eq_of_lt below)
  | no past ↦ omega (
    arith,
    mod-eq-sub-mod {n = h + k} {m = cap} (omega arith),
    mod-eq_of_lt {n = h + k - cap} {m = cap} (omega arith),
  )
]

around : (cap h n : ℕ) → ((h + 1) % cap + n) % cap ≡ (h + suc n) % cap
around cap h n = rw mod-add-mod (ap (λ (t : ℕ). t % cap) (omega arith))

back_round : (cap h : ℕ) → h < cap → ((h + 1) % cap + (cap - 1)) % cap ≡ h
back_round cap h l =
    around cap h (cap - 1)
    ∙ ap (λ (t : ℕ). t % cap) (omega (arith, l))
    ∙ add-mod_right h cap
    ∙ mod-eq_of_lt l

module _ {A : Type 0} where
  pub at_head-set_self :
      (buf : List (Option A)) (i : ℕ) (v : Option A) → i < length buf → at_head (set buf i v) i ≡ v
  at_head-set_self [] i v h = absurd (omega arith)
  at_head-set_self (x ∷ xs) zero v h = refl
  at_head-set_self (x ∷ xs) (suc i) v h = at_head-set_self xs i v (omega arith)

  at_head-set_ne :
      (buf : List (Option A)) (i j : ℕ) (v : Option A)
      → i ≢ j
      → at_head (set buf i v) j ≡ at_head buf j
  at_head-set_ne [] i j v h = refl
  at_head-set_ne (x ∷ xs) zero zero v h = absurd (h refl)
  at_head-set_ne (x ∷ xs) zero (suc j) v h = refl
  at_head-set_ne (x ∷ xs) (suc i) zero v h = refl
  at_head-set_ne (x ∷ xs) (suc i) (suc j) v h = at_head-set_ne xs i j v (omega arith)

  -- The `n` slots from `h` on, round the ring.
  abbrev pub window : ℕ → List (Option A) → ℕ → ℕ → List (Option A)
  window cap buf h zero = []
  window cap buf h (suc n) = at_head buf h ∷ window cap buf ((h + 1) % cap) n

  -- One slot more.
  pub window-suc :
      (cap : ℕ) (buf : List (Option A)) (h n : ℕ)
      → h < cap
      → window cap buf h (suc n) ≡ window cap buf h n ++ (at_head buf ((h + n) % cap) ∷ [])
  window-suc cap buf h zero l = rw (add-zero, mod-eq_of_lt l) refl
  window-suc cap buf h (suc n) l =
      ap (λ w. at_head buf h ∷ w)
        (window-suc cap buf ((h + 1) % cap) n (grind arith)
          ∙ ap (λ i. window cap buf ((h + 1) % cap) n ++ (at_head buf i ∷ [])) (around cap h n))

  -- A write at a slot that is not in the window.
  pub window-set :
      (cap : ℕ) (buf : List (Option A)) (h n k : ℕ) (v : Option A)
      → h < cap
      → n ≤ k
      → k < cap
      → window cap (set buf ((h + k) % cap) v) h n ≡ window cap buf h n
  window-set cap buf h zero k v hh hn hk = refl
  window-set cap buf h (suc n) zero v hh hn hk = absurd (omega arith)
  window-set cap buf h (suc n) (suc k) v hh hn hk =
      ap₂ ◌∷◌
        (at_head-set_ne buf ((h + suc k) % cap) h v (add_mod_ne cap h (suc k) hh (omega arith) hk))
        (subst (λ i. window cap (set buf i v) ((h + 1) % cap) n ≡ window cap buf ((h + 1) % cap) n)
          (around cap h k)
          (window-set cap buf ((h + 1) % cap) n k v (grind arith) (omega arith) (omega arith)))

  -- A write at the tail of a ring that is not full.
  pub window-set_tail :
      (cap : ℕ) (buf : List (Option A)) (h n : ℕ) (v : Option A)
      → cap ≤ length buf
      → h < cap
      → n < cap
      → window cap (set buf ((h + n) % cap) v) h (suc n) ≡ window cap buf h n ++ (v ∷ [])
  window-set_tail cap buf h n v whole hh hn =
      window-suc cap (set buf ((h + n) % cap) v) h n hh
      ∙ ap₂ (λ w a. w ++ (a ∷ [])) (window-set cap buf h n n v hh (omega arith) hn)
          (at_head-set_self buf ((h + n) % cap) v (grind (arith, whole)))

  -- A write at the head, which is no longer in the window.
  pub window-set_head :
      (cap : ℕ) (buf : List (Option A)) (h n : ℕ) (v : Option A)
      → h < cap
      → n < cap
      → window cap (set buf h v) ((h + 1) % cap) n ≡ window cap buf ((h + 1) % cap) n
  window-set_head cap buf h n v hh hn =
      subst (λ i. window cap (set buf i v) ((h + 1) % cap) n ≡ window cap buf ((h + 1) % cap) n)
        (back_round cap h hh)
        (window-set cap buf ((h + 1) % cap) n (cap - 1) v (grind arith) (omega arith) (omega arith))
