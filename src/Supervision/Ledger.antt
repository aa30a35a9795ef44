-- ===== src/Supervision/Ledger.antt =====
-- What the operations open, close, start and reap, counted.
use developer_dashboard.Common.{
  ℕ, ◌+◌, ◌≡◌, ◌≢◌, ◌==◌, refl, arith, Bool, true, false, if◌then◌else◌, List, [], ◌∷◌, ◌++◌,
  Option, none, some,
}
use developer_dashboard.Supervision.{
  close_if_open, running_with, Helper, no_helper, Effect, opens, closes, starts, reaps, Waited,
  still_running, has_ended, no_child, wait_error, helper_is_running, close_helper_state,
}

pub one_at : ℕ → ℕ → ℕ
one_at x y = if x == y then 1 else 0

abbrev pub held_by : Option ℕ → ℕ → ℕ
held_by none x = 0
held_by (some y) x = one_at y x

abbrev pub opened : List Effect → ℕ → ℕ
opened [] x = 0
opened (opens y ∷ l) x = one_at y x + opened l x
opened (_ ∷ l) x = opened l x

abbrev pub closed : List Effect → ℕ → ℕ
closed [] x = 0
closed (closes y ∷ l) x = one_at y x + closed l x
closed (_ ∷ l) x = closed l x

abbrev pub begun : List Effect → ℕ → ℕ
begun [] x = 0
begun (starts y ∷ l) x = one_at y x + begun l x
begun (_ ∷ l) x = begun l x

abbrev pub reaped : List Effect → ℕ → ℕ
reaped [] x = 0
reaped (reaps y ∷ l) x = one_at y x + reaped l x
reaped (_ ∷ l) x = reaped l x

-- The descriptors of the helper are those that are open, and its child the one that is not reaped.
abbrev pub held : Helper → ℕ → ℕ
held h x = held_by h.commands x + held_by h.events x

-- A helper that is not there holds no descriptor.
abbrev pub IsTidy : Helper → Type 0
IsTidy h = h.pid ≡ none → (h.commands ≡ none) × (h.events ≡ none)

-- From one helper to another: no descriptor is lost and none is closed twice, and so with the children,
-- of which `waiting` is still to be reaped.
pub record Balanced (h : Helper) (fx : List Effect) (g : Helper) (waiting : Option ℕ) : Type 0 where
  pub descriptors : (x : ℕ) → held h x + opened fx x ≡ closed fx x + held g x
  pub children :
      (p : ℕ) → held_by h.pid p + begun fx p ≡ reaped fx p + held_by g.pid p + held_by waiting p
  pub tidy : IsTidy g

module _ where
  pub opened-append : (l m : List Effect) (x : ℕ) → opened (l ++ m) x ≡ opened l x + opened m x
  opened-append [] m x = omega arith
  opened-append (opens y ∷ l) m x = omega (arith, opened-append l m x)
  opened-append (closes y ∷ l) m x = opened-append l m x
  opened-append (starts y ∷ l) m x = opened-append l m x
  opened-append (reaps y ∷ l) m x = opened-append l m x

  pub closed-append : (l m : List Effect) (x : ℕ) → closed (l ++ m) x ≡ closed l x + closed m x
  closed-append [] m x = omega arith
  closed-append (closes y ∷ l) m x = omega (arith, closed-append l m x)
  closed-append (opens y ∷ l) m x = closed-append l m x
  closed-append (starts y ∷ l) m x = closed-append l m x
  closed-append (reaps y ∷ l) m x = closed-append l m x

  pub begun-append : (l m : List Effect) (x : ℕ) → begun (l ++ m) x ≡ begun l x + begun m x
  begun-append [] m x = omega arith
  begun-append (starts y ∷ l) m x = omega (arith, begun-append l m x)
  begun-append (opens y ∷ l) m x = begun-append l m x
  begun-append (closes y ∷ l) m x = begun-append l m x
  begun-append (reaps y ∷ l) m x = begun-append l m x

  pub reaped-append : (l m : List Effect) (x : ℕ) → reaped (l ++ m) x ≡ reaped l x + reaped m x
  reaped-append [] m x = omega arith
  reaped-append (reaps y ∷ l) m x = omega (arith, reaped-append l m x)
  reaped-append (opens y ∷ l) m x = reaped-append l m x
  reaped-append (closes y ∷ l) m x = reaped-append l m x
  reaped-append (starts y ∷ l) m x = reaped-append l m x

-- One operation behind another.
pub Balanced-append :
    (h : Helper) (fx : List Effect) (g : Helper) (fy : List Effect) (k : Helper) (w : Option ℕ)
    → Balanced h fx g none
    → Balanced g fy k w
    → Balanced h (fx ++ fy) k w
Balanced-append h fx g fy k w a b = record {
  descriptors = λ x.
      omega (arith, opened-append fx fy x, closed-append fx fy x, a.descriptors x, b.descriptors x);
  children =
      λ p. omega (arith, begun-append fx fy p, reaped-append fx fy p, a.children p, b.children p);
  tidy = b.tidy;
}

pub unchanged : (h : Helper) → IsTidy h → Balanced h [] h none
unchanged h t = record { descriptors = λ x. omega arith; children = λ p. omega arith; tidy = t }

closes_both :
    (a b : Option ℕ) (x : ℕ)
    → (opened (close_if_open a ++ close_if_open b) x ≡ 0)
      × (closed (close_if_open a ++ close_if_open b) x ≡ held_by a x + held_by b x)
      × (begun (close_if_open a ++ close_if_open b) x ≡ 0)
      × (reaped (close_if_open a ++ close_if_open b) x ≡ 0)
closes_both none none x = omega arith
closes_both none (some b) x = omega arith
closes_both (some a) none x = omega arith
closes_both (some a) (some b) x = omega arith

-- The child that is given up is waited for by somebody else, or by nobody.
pub given_up : (h : Helper) → Balanced h (close_helper_state h) no_helper h.pid
unfolding close_helper_state
given_up h = record {
  descriptors = λ x. omega (arith, closes_both h.commands h.events x);
  children = λ p. omega (arith, closes_both h.commands h.events p);
  tidy = λ e. (refl, refl);
}

reaped_lem :
    (h : Helper) (pid : ℕ)
    → h.pid ≡ some pid
    → Balanced h (reaps pid ∷ close_helper_state h) no_helper none
unfolding close_helper_state
reaped_lem h pid e = record {
  descriptors = λ x. omega (arith, closes_both h.commands h.events x);
  children = λ p. rw e (omega (arith, closes_both h.commands h.events p));
  tidy = λ e. (refl, refl);
}

-- What the look at the child leaves: the helper as it was, or none.
pub record Looked (h : Helper) (r : Bool × Helper × List Effect) : Type 0 where
  pub balanced : Balanced h r.2 r.1 none
  pub kept : r.0 ≡ true → r.1 ≡ h
  pub emptied : r.0 ≡ false → r.1.pid ≡ none

running_with-Looked :
    (h : Helper) (pid : Option ℕ) (w : Waited)
    → IsTidy h
    → w ≢ wait_error
    → h.pid ≡ pid
    → Looked h (running_with h pid w)
running_with-Looked h none w t n e = record {
  balanced = unchanged h t;
  kept = λ f. refl;
  emptied = λ f. e;
}
running_with-Looked h (some pid) still_running t n e = record {
  balanced = unchanged h t;
  kept = λ f. refl;
  emptied = λ f. absurd (cc);
}
running_with-Looked h (some pid) has_ended t n e = record {
  balanced = reaped_lem h pid e;
  kept = λ f. absurd (cc);
  emptied = λ f. refl;
}
running_with-Looked h (some pid) no_child t n e = record {
  balanced = reaped_lem h pid e;
  kept = λ f. absurd (cc);
  emptied = λ f. refl;
}
running_with-Looked h (some pid) wait_error t n e = absurd (n refl)

pub helper_is_running-Looked :
    (h : Helper) (w : Waited) → IsTidy h → w ≢ wait_error → Looked h (helper_is_running h w)
unfolding helper_is_running
helper_is_running-Looked h w t n = running_with-Looked h h.pid w t n refl
