-- ===== src/Routine/Counted.antt =====
-- The count of the workers is right, and `wait_all` returns behind the last one.
use developer_dashboard.Common.{
  ℕ, zero, suc, ◌+◌, ◌≡◌, refl, sym, subst, arith, false, List, [], ◌∷◌, ◌++◌, some, get_elem?, set,
  ap, Bool-cases, inl, inr, ◌⊎◌,
}
use developer_dashboard.Control.{Seconds, GoState, is_running, is_timeout}
use developer_dashboard.Routine.{
  Routine, Ending, returned, raised_cancel, raised_exit, died, new_routine, request_cancel,
  set_timeout, final_state, finish,
}
use developer_dashboard.Routine.Cancel.{Call, cancel, exit, time_limit, published, perform}
use developer_dashboard.Routine.World.{
  Stage, counted, refused, working, ending, finished, gone, never, Worker, World, decremented,
  is_counted, Move, called, created, not_created, returns, finishes, Leaves, leaves, gives_up, Step,
  goes, moves, drops, Steps, here, followed_by, no_workers,
}

module _ {T : Type 0} (s : Seconds T) where
  abbrev pub count : List (Worker T) → ℕ
  count [] = 0
  count (k ∷ l) = is_counted k.stage + count l

  -- A worker that has gone has ended, and one that is behind its callback is to end.
  abbrev pub IsSettled : Stage → GoState → Type 0
  IsSettled gone state = is_running state ≡ false
  IsSettled finished state = is_running state ≡ false
  IsSettled (ending result) state = is_running result ≡ false
  IsSettled _ state = Unit

  abbrev pub AllSettled : List (Worker T) → Type 0
  AllSettled [] = Unit
  AllSettled (k ∷ l) = IsSettled k.stage k.routine.state × AllSettled l

  pub record IsCounted (w : World T) : Type 0 where
    pub active_eq : w.active ≡ count w.workers
    pub settled : AllSettled w.workers

  count-append :
      (l : List (Worker T)) (k : Worker T) → count (l ++ (k ∷ [])) ≡ count l + is_counted k.stage
  count-append [] k = omega arith
  count-append (x ∷ l) k = omega (arith, count-append l k)

  AllSettled-append :
      (l : List (Worker T)) (k : Worker T)
      → AllSettled l
      → IsSettled k.stage k.routine.state
      → AllSettled (l ++ (k ∷ []))
  AllSettled-append [] k h a = (a, tt)
  AllSettled-append (x ∷ l) k h a = (h.0, AllSettled-append l k h.1 a)

  count-set :
      (l : List (Worker T)) (i : ℕ) (k after : Worker T)
      → get_elem? l i ≡ some k
      → count (set l i after) + is_counted k.stage ≡ count l + is_counted after.stage
  count-set [] i k after e = cc
  count-set (x ∷ l) zero k after e =
      let q : x ≡ k = cc in omega (arith, ap (λ y. is_counted y.stage) q)
  count-set (x ∷ l) (suc i) k after e = omega (arith, count-set l i k after e)

  AllSettled-set :
      (l : List (Worker T)) (i : ℕ) (k after : Worker T)
      → get_elem? l i ≡ some k
      → (IsSettled k.stage k.routine.state → IsSettled after.stage after.routine.state)
      → AllSettled l
      → AllSettled (set l i after)
  AllSettled-set [] i k after e f h = cc
  AllSettled-set (x ∷ l) zero k after e f h =
      let q : x ≡ k = cc in (f (subst (λ y. IsSettled y.stage y.routine.state) q h.0), h.1)
  AllSettled-set (x ∷ l) (suc i) k after e f h = (h.0, AllSettled-set l i k after e f h.1)

  perform-state : (c : Call T) (r : Routine T) → (perform s c r).state ≡ r.state
  unfolding request_cancel set_timeout
  perform-state (cancel reason) r = ground arith
  perform-state exit r = refl
  perform-state (time_limit seconds) r = refl
  perform-state published r = refl

  final_state-ended : (r : Routine T) (e : Ending) → is_running (final_state r e) ≡ false
  final_state-ended r returned = refl
  final_state-ended r raised_cancel = elim (Bool-cases (is_timeout r.cancel_reason)) [
    | inl e ↦ rw e refl
    | inr e ↦ rw e refl
  ]
  final_state-ended r raised_exit = refl
  final_state-ended r died = refl

  Move-count : (k after : Worker T) → Move s k after → is_counted after.stage ≡ is_counted k.stage
  Move-count k _ (called c) = refl
  Move-count k _ (created e) = ap is_counted (sym e)
  Move-count k _ (not_created e) = ap is_counted (sym e)
  Move-count k _ (returns e q) = ap is_counted (sym q)
  Move-count k _ (finishes now result e) = ap is_counted (sym e)

  Move-IsSettled :
      (k after : Worker T)
      → Move s k after
      → IsSettled k.stage k.routine.state
      → IsSettled after.stage after.routine.state
  unfolding finish
  Move-IsSettled k _ (called c) h = subst (IsSettled k.stage) (sym (perform-state c k.routine)) h
  Move-IsSettled k _ (created e) h = tt
  Move-IsSettled k _ (not_created e) h = tt
  Move-IsSettled k _ (returns e q) h = final_state-ended k.routine e
  Move-IsSettled k _ (finishes now result e) h = subst (λ x. IsSettled x k.routine.state) e h

  Leaves-count :
      (k after : Worker T) → Leaves s k after → is_counted k.stage ≡ suc (is_counted after.stage)
  Leaves-count k _ (leaves e) = ap is_counted e
  Leaves-count k _ (gives_up e) = ap is_counted e

  Leaves-IsSettled :
      (k after : Worker T)
      → Leaves s k after
      → IsSettled k.stage k.routine.state
      → IsSettled after.stage after.routine.state
  Leaves-IsSettled k _ (leaves e) h = subst (λ x. IsSettled x k.routine.state) e h
  Leaves-IsSettled k _ (gives_up e) h = tt

  Step-IsCounted : (w v : World T) → Step s w v → IsCounted w → IsCounted v
  unfolding decremented
  Step-IsCounted w _ (goes now l) h = record {
    active_eq = omega (
      arith,
      count-append w.workers (record { routine = new_routine s now; stage = counted }),
      h.active_eq,
    );
    settled =
        AllSettled-append w.workers (record { routine = new_routine s now; stage = counted })
          h.settled tt;
  }
  Step-IsCounted w _ (moves i k after e m) h = record {
    active_eq = omega (arith, count-set w.workers i k after e, Move-count k after m, h.active_eq);
    settled = AllSettled-set w.workers i k after e (Move-IsSettled k after m) h.settled;
  }
  Step-IsCounted w _ (drops i k after e m) h = record {
    active_eq =
        ground (arith, count-set w.workers i k after e, Leaves-count k after m, h.active_eq);
    settled = AllSettled-set w.workers i k after e (Leaves-IsSettled k after m) h.settled;
  }

  Steps-IsCounted : (w : World T) → Steps s (no_workers s) w → IsCounted w
  Steps-IsCounted _ here = record { active_eq = refl; settled = tt }
  Steps-IsCounted _ (followed_by {v} {u} steps step) =
      Step-IsCounted v u step (Steps-IsCounted v steps)

  -- A worker that is no longer counted has ended, unless it never had a thread.
  abbrev pub HasEnded : Worker T → Type 0
  HasEnded k = (k.stage ≡ never) ⊎ ((k.stage ≡ gone) × (is_running k.routine.state ≡ false))

  abbrev pub AllEnded : List (Worker T) → Type 0
  AllEnded [] = Unit
  AllEnded (k ∷ l) = HasEnded k × AllEnded l

  stage_ended :
      (stage : Stage) (state : GoState)
      → is_counted stage ≡ 0
      → IsSettled stage state
      → (stage ≡ never) ⊎ ((stage ≡ gone) × (is_running state ≡ false))
  stage_ended gone state z h = inr (refl, h)
  stage_ended never state z h = inl refl
  stage_ended counted state z h = let absurd : ⊥ = omega (arith, z) in elim absurd [ ]
  stage_ended refused state z h = let absurd : ⊥ = omega (arith, z) in elim absurd [ ]
  stage_ended working state z h = let absurd : ⊥ = omega (arith, z) in elim absurd [ ]
  stage_ended (ending result) state z h = let absurd : ⊥ = omega (arith, z) in elim absurd [ ]
  stage_ended finished state z h = let absurd : ⊥ = omega (arith, z) in elim absurd [ ]

  all_ended : (l : List (Worker T)) → count l ≡ 0 → AllSettled l → AllEnded l
  all_ended [] z h = tt
  all_ended (k ∷ l) z h = (
    stage_ended k.stage k.routine.state (omega (arith, z)) h.0,
    all_ended l (omega (arith, z)) h.1,
  )

  -- However workers are started, called, end and are dropped: where the count is 0, so that `wait_all`
  -- returns, each worker whose thread was created has finished in an end state and is gone.
  pub wait_all-AllEnded :
      (w : World T) → Steps s (no_workers s) w → w.active ≡ 0 → AllEnded w.workers
  wait_all-AllEnded w steps z =
      let h = Steps-IsCounted w steps in
      all_ended w.workers (omega (arith, z, h.active_eq)) h.settled
