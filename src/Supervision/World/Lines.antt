-- ===== src/Supervision/World/Lines.antt =====
-- The parts of the invariant: what is counted, and the lines that a helper has been sent.
use developer_dashboard.Common.{
  ℕ, zero, suc, ◌+◌, ◌≡◌, ◌≢◌, ◌∙◌, refl, ap, sym, arith, if◌then◌else◌, List, [], ◌∷◌, ◌++◌,
  append_assoc, Option, none, some, Bytes, get_elem?, Bool-cases, inl, inr, if_both,
}
use developer_dashboard.Supervision.{
  Helper, no_helper, Effect, Waited, wait_error, helper_is_running, Answers, start, Sending,
  command, stop,
}
use developer_dashboard.Supervision.Write.{IsLine}
use developer_dashboard.Supervision.Ledger.{
  one_at, held, held_by, opened, closed, begun, reaped, opened-append, closed-append, begun-append,
  reaped-append, IsTidy, Balanced, helper_is_running-Looked,
}
use developer_dashboard.Supervision.World.{World, add, remove}

abbrev pub count : List ℕ → ℕ → ℕ
count [] x = 0
count (y ∷ l) x = one_at y x + count l x

abbrev pub framed : List Bytes → Bytes
framed [] = []
framed (value ∷ l) = value ++ (10 ∷ framed l)

-- The descriptors that were opened and not closed are the helper's, each child that was started has
-- been reaped or is the helper's, one of those that are waited for or one of those that are lost, and
-- the helper has been sent the commands that were answered with success, a line each, and nothing
-- else.
pub record IsAccounted (w : World) : Type 0 where
  pub descriptors : (x : ℕ) → opened w.log x ≡ closed w.log x + held w.helper x
  pub children :
      (p : ℕ)
      → begun w.log p
        ≡ reaped w.log p + held_by w.helper.pid p + (count w.waiting p + count w.lost p)
  pub tidy : IsTidy w.helper
  pub lines : (p : ℕ) → w.helper.pid ≡ some p → w.sent ≡ framed w.accepted

pub descriptors_lem :
    (w : World) (fx : List Effect) (g : Helper) (k : Option ℕ)
    → IsAccounted w
    → Balanced w.helper fx g k
    → (x : ℕ) → opened (w.log ++ fx) x ≡ closed (w.log ++ fx) x + held g x
descriptors_lem w fx g k v b x =
    omega
      (arith, opened-append w.log fx x, closed-append w.log fx x, v.descriptors x, b.descriptors x)

pub children_lem :
    (w : World) (fx : List Effect) (g : Helper) (k : Option ℕ)
    → IsAccounted w
    → Balanced w.helper fx g k
    → (p : ℕ)
    → begun (w.log ++ fx) p
      ≡ reaped (w.log ++ fx) p
        + held_by g.pid p
        + (count w.waiting p + count w.lost p + held_by k p)
children_lem w fx g k v b p =
    omega (arith, begun-append w.log fx p, reaped-append w.log fx p, v.children p, b.children p)

pub count-add : (k : Option ℕ) (l : List ℕ) (p : ℕ) → count (add k l) p ≡ count l p + held_by k p
count-add none l p = omega arith
count-add (some q) l p = omega arith

pub count-remove :
    (l : List ℕ) (i q p : ℕ)
    → get_elem? l i ≡ some q
    → count l p ≡ count (remove l i) p + one_at q p
count-remove [] i q p e = absurd (cc)
count-remove (x ∷ l) zero q p e = rw (some_eq e) (omega arith)
  where
    some_eq : some x ≡ some q → x ≡ q
    some_eq e = cc
count-remove (x ∷ l) (suc i) q p e = omega (arith, count-remove l i q p e)

framed-append :
    (l : List Bytes) (value : Bytes) → framed (l ++ (value ∷ [])) ≡ framed l ++ (value ++ (10 ∷ []))
framed-append [] value = refl
framed-append (v ∷ l) value =
    ap (λ t. v ++ (10 ∷ t)) (framed-append l value)
    ∙ sym (append_assoc v (10 ∷ framed l) (value ++ (10 ∷ [])))

-- The lines that a helper has been sent, if there is one.
abbrev pub Told : Helper → Bytes → List Bytes → Type 0
Told h sent accepted = (p : ℕ) → h.pid ≡ some p → sent ≡ framed accepted

nobody : (h : Helper) (sent : Bytes) (accepted : List Bytes) → h.pid ≡ none → Told h sent accepted
nobody h sent accepted e p f = absurd (none_some (sym e ∙ f))
  where
    none_some : none ≡ some p → ⊥
    none_some g = cc

module _ (h : Helper) (a : Waited) (n : a ≢ wait_error) (t : IsTidy h) where
  pub looks-Told :
      (sent : Bytes) (accepted : List Bytes)
      → Told h sent accepted
      → Told (helper_is_running h a).1 sent accepted
  looks-Told sent accepted told =
      let l = helper_is_running-Looked h a t n in
      elim (Bool-cases (helper_is_running h a).0) [
        | inl running ↦ rw (l.kept running) told
        | inr gone ↦ nobody (helper_is_running h a).1 sent accepted (l.emptied gone)
      ]

  pub starts-Told :
      (answers : Answers) (sent : Bytes) (accepted : List Bytes)
      → Told h sent accepted
      → Told
          (start h a answers).1
          (if (helper_is_running h a).0 then sent else [])
          (if (helper_is_running h a).0 then accepted else [])
  unfolding start
  starts-Told answers sent accepted told =
      let l = helper_is_running-Looked h a t n in
      elim (Bool-cases (helper_is_running h a).0) [
        | inl running ↦ rw (running, l.kept running) told
        | inr gone ↦ rw gone (λ p e. refl)
      ]

  pub commands-Told :
      (value : Bytes) (s : Sending) (sent : Bytes) (accepted : List Bytes)
      → IsLine value s
      → Told h sent accepted
      → Told
          (command h a s).2
          (sent ++ (command h a s).1)
          (if (command h a s).0 then accepted ++ (value ∷ []) else accepted)
  unfolding command
  commands-Told value s sent accepted line told =
      let l = helper_is_running-Looked h a t n in
      elim (Bool-cases (helper_is_running h a).0) [
        | inl running ↦ elim (Bool-cases s.complete) [
          | inl whole ↦
              rw (running, l.kept running)
                (rw (whole, framed-append accepted value, line.0 whole)
                  (λ p e. ap (λ x. x ++ (value ++ (10 ∷ []))) (told p e)))
          | inr part ↦ rw running (rw part (nobody no_helper _ _ refl))
        ]
        | inr gone ↦ rw gone (nobody (helper_is_running h a).1 _ _ (l.emptied gone))
      ]

  pub stops-Told : (sent : Bytes) (accepted : List Bytes) → Told (stop h a).1 sent accepted
  unfolding stop
  stops-Told sent accepted =
      if_both (λ (r : Option ℕ × Helper × List Effect). Told r.1 sent accepted)
        (helper_is_running h a).0 _ _ (nobody no_helper sent accepted refl)
        (nobody no_helper sent accepted refl)
