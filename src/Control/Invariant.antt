-- ===== src/Control/Invariant.antt =====
-- What holds at every moment of a control block, whoever runs.
use developer_dashboard.Common.{
  ℕ, zero, suc, ◌+◌, ◌≤◌, ◌≡◌, ◌==◌, if◌then◌else◌, Bool, true, refl, arith, List, [], ◌∷◌, some,
  get_elem?, length, length-set,
}
use developer_dashboard.Control.{Seconds, Control, new_control, GoState, failed}
use developer_dashboard.Control.World.{
  in_phase, leaving, ending, checked, starting, World, Step, Steps, ready, publish, begin, ask_exit,
  callback_ends, looks_at_wake_error, worker_finishes, worker_leaves, cancel, cancel_wakes,
  new_handle, drop_handle, set_timeout, no_timer, new_timer, timer_enters, timer_turns,
  timer_expires, timer_wakes, timer_leaves, here, next, remove,
}
use developer_dashboard.Control.Flags.{
  Core, Pending, is_alive, holds, Alike, Alike-Core, mark_cancel-Core, finish-Core, finish-same,
  publish-Core, final_state-Pending, mark_cancel-refs, mark_cancel-once, moved-Core,
}
use developer_dashboard.Control.Timers.{
  mark_timeout-Core, mark_timeout-refs, mark_timeout-requested, loop_head-Alike, after_wait-Alike,
  begin_timeout-Alike, undo_timeout-Alike,
}

-- The flags agree with where the worker is, every reference has a holder, and the one cancel request
-- has at most one caller that is to wake the worker.
pub record IsValid {T : Type 0} (w : World T) : Type 0 where
  pub core : Core w.control w.worker
  pub counted : w.control.refs ≡ holds w.worker + w.handles + length w.timers
  pub wake_once : w.wakers ≤ (if w.control.cancel_requested then 1 else 0)

pub length-remove {ℓ} :
    {A : Type ℓ} (xs : List A) (i : ℕ) (x : A)
    → get_elem? xs i ≡ some x
    → length (remove xs i) + 1 ≡ length xs
length-remove [] i x e = ground arith
length-remove (y ∷ xs) zero x e = omega arith
length-remove (y ∷ xs) (suc i) x e = omega (arith, length-remove xs i x e)

module _ {T : Type 0} (s : Seconds T) where
  -- A step that leaves the flags, the worker and the callers alone.
  alike_lem :
      (w u : World T)
      → IsValid w
      → Alike w.control u.control
      → u.worker ≡ w.worker
      → u.wakers ≤ w.wakers
      → u.control.refs ≡ holds u.worker + u.handles + length u.timers
      → IsValid u
  alike_lem w u v a k n r = record {
    core = rw k (Alike-Core w.control u.control w.worker a v.core);
    counted = r;
    wake_once = rw (a.2) (omega (arith, n, v.wake_once));
  }

  -- A step of the worker that leaves the flags alone.
  moved_lem :
      (w u : World T)
      → IsValid w
      → Alike w.control u.control
      → is_alive u.worker ≡ is_alive w.worker
      → Pending u.worker w.control
      → u.wakers ≡ w.wakers
      → u.control.refs ≡ holds u.worker + u.handles + length u.timers
      → IsValid u
  moved_lem w u v a k p n r = record {
    core =
        Alike-Core w.control u.control u.worker a
          (moved-Core w.control w.worker u.worker k p v.core);
    counted = r;
    wake_once = rw (a.2) (omega (arith, n, v.wake_once));
  }

  looked-Pending :
      (r : GoState) (c : Control T)
      → Pending (ending r) c
      → Pending (checked (if c.wake_error == 0 then r else failed)) c
  looked-Pending r c p = ground arith

  once :
      {n : ℕ} (before after : Bool)
      → (before ≡ true → after ≡ true)
      → n ≤ (if before then 1 else 0)
      → n ≤ (if after then 1 else 0)
  once before after keeps h = ground arith

  Step-IsValid : {w u : World T} → Step s w u → IsValid w → IsValid u
  Step-IsValid {w} (ready e) v =
      moved_lem w _ v (refl, refl, refl, refl, refl, refl) (rw e refl) tt refl
        (ground (arith, v.counted, e))
  Step-IsValid {w} (publish t e) v = record {
    core = publish-Core t w.control w.worker e v.core;
    counted = v.counted;
    wake_once = v.wake_once;
  }
  Step-IsValid {w} (begin e f) v =
      moved_lem w _ v (refl, refl, refl, refl, refl, refl) (rw e refl) tt refl
        (ground (arith, v.counted, e))
  Step-IsValid {w} (ask_exit e) v =
      alike_lem w _ v (refl, refl, refl, refl, refl, refl) refl (omega arith) v.counted
  Step-IsValid {w} (callback_ends e f) v =
      moved_lem w _ v (refl, refl, refl, refl, refl, refl) (rw f refl)
        (final_state-Pending e w.control (rw f at v.core)) refl (ground (arith, v.counted, f))
  Step-IsValid {w} (looks_at_wake_error r e) v =
      moved_lem w _ v (refl, refl, refl, refl, refl, refl) (rw e refl)
        (looked-Pending r w.control (rw e at v.core).pending) refl (ground (arith, v.counted, e))
  Step-IsValid {w} (worker_finishes r now e) v = record {
    core = finish-Core r now w.control (rw e at v.core);
    counted = ground (arith, v.counted, e, (finish-same r now w.control).0);
    wake_once = rw ((finish-same r now w.control).1) v.wake_once;
  }
  Step-IsValid {w} (worker_leaves e) v =
      moved_lem w _ v (ground arith) (rw e refl) tt refl (ground (arith, v.counted, e))
  Step-IsValid {w} (cancel r) v = record {
    core = mark_cancel-Core r w.control w.worker v.core;
    counted = rw (mark_cancel-refs r w.control) v.counted;
    wake_once = mark_cancel-once r w.control w.wakers v.wake_once;
  }
  Step-IsValid {w} (cancel_wakes rc m) v =
      alike_lem w _ v (ground arith) refl (omega arith) (ground (arith, v.counted))
  Step-IsValid {w} (new_handle m b) v =
      alike_lem w _ v (refl, refl, refl, refl, refl, refl) refl (omega arith)
        (ground (arith, v.counted))
  Step-IsValid {w} (drop_handle m) v =
      alike_lem w _ v (ground arith) refl (omega arith) (ground (arith, v.counted))
  Step-IsValid {w} (set_timeout seconds) v =
      let (a, r) = begin_timeout-Alike s seconds w.control in
      alike_lem w _ v a refl (omega arith) (rw r v.counted)
  Step-IsValid {w} (no_timer i g e) v =
      let (a, r) = undo_timeout-Alike s g w.control in
      alike_lem w _ v a refl (omega arith) (rw r v.counted)
  Step-IsValid {w} (new_timer i g d e b) v =
      alike_lem w _ v (refl, refl, refl, refl, refl, refl) refl (omega arith)
        (ground (arith, v.counted))
  Step-IsValid {w} (timer_enters i now t e p) v =
      let (a, r) = loop_head-Alike s t.generation 0 t.deadline now w.control in
      alike_lem w _ v a refl (omega arith) (omega (arith, r, v.counted, length-set w.timers i _))
  Step-IsValid {w} (timer_turns i rc now t e p) v =
      let (a, r) = after_wait-Alike s t.generation rc t.deadline now w.control in
      alike_lem w _ v a refl (omega arith) (omega (arith, r, v.counted, length-set w.timers i _))
  Step-IsValid {w} (timer_expires i t e p) v = record {
    core = mark_timeout-Core s t.generation w.control w.worker v.core;
    counted =
        omega
          (arith, mark_timeout-refs s t.generation w.control, v.counted, length-set w.timers i _);
    wake_once =
        once w.control.cancel_requested _ (λ h. mark_timeout-requested s t.generation w.control h)
          v.wake_once;
  }
  Step-IsValid {w} (timer_wakes i rc t e p) v =
      alike_lem w _ v (ground arith) refl (omega arith)
        (ground (arith, v.counted, length-set w.timers i (in_phase t leaving)))
  Step-IsValid {w} (timer_leaves i t e p) v =
      alike_lem w _ v (ground arith) refl (omega arith)
        (ground (arith, v.counted, length-remove w.timers i t e))

  pub Steps-IsValid : {w u : World T} → Steps s w u → IsValid w → IsValid u
  Steps-IsValid here v = v
  Steps-IsValid (next r t) v = Step-IsValid t (Steps-IsValid r v)

  -- The world of a control that `go_control_new` has made.
  abbrev pub fresh_world : ℕ → T → World T
  fresh_world owner now = record {
    control = new_control s owner now;
    worker = starting;
    wakers = 0;
    handles = 0;
    setters = [];
    timers = [];
  }

  pub fresh_world-IsValid : (owner : ℕ) (now : T) → IsValid (fresh_world owner now)
  unfolding new_control
  fresh_world-IsValid owner now = record {
    core = record {
      live = refl;
      valid = λ e. cc;
      reason = λ e. refl;
      justified = tt;
      pending = tt;
    };
    counted = refl;
    wake_once = omega arith;
  }
