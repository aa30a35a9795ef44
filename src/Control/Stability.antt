-- ===== src/Control/Stability.antt =====
-- What stays as it is once it has been decided: the first cancel request, and the end of the worker.
use developer_dashboard.Common.{◌≡◌, ◌⊎◌, inl, inr, ◌∙◌, ◌&&◌, not, true, false, refl, ap, arith}
use developer_dashboard.Control.{Seconds, Control, is_running, age}
use developer_dashboard.Control.World.{
  World, Step, Steps, ready, publish, begin, ask_exit, callback_ends, looks_at_wake_error,
  worker_finishes, worker_leaves, cancel, cancel_wakes, new_handle, drop_handle, set_timeout,
  no_timer, new_timer, timer_enters, timer_turns, timer_expires, timer_wakes, timer_leaves, here,
  next,
}
use developer_dashboard.Control.Flags.{
  is_alive, unpublished-alive, Alike, mark_cancel-idle, finish-same,
}
use developer_dashboard.Control.Timers.{
  mark_timeout-idle, loop_head-Alike, after_wait-Alike, begin_timeout-Alike, undo_timeout-Alike,
}
use developer_dashboard.Control.Invariant.{IsValid, Steps-IsValid}

module _ {T : Type 0} (s : Seconds T) where
  -- A step in which the worker does not finish and nobody is the first to ask for a cancel.
  Step-Alike :
      {w u : World T}
      → Step s w u
      → (is_running w.control.state && not w.control.cancel_requested) ≡ false
      → Alike w.control u.control
        ⊎ ((u.control.cancel_requested ≡ w.control.cancel_requested)
            × (u.control.cancel_reason ≡ w.control.cancel_reason)
            × (is_alive w.worker ≡ true))
  Step-Alike (ready e) h = inl (refl, refl, refl, refl, refl, refl)
  Step-Alike {w} (publish t e) h = inr (refl, refl, unpublished-alive w.worker e)
  Step-Alike (begin e f) h = inl (refl, refl, refl, refl, refl, refl)
  Step-Alike (ask_exit e) h = inl (refl, refl, refl, refl, refl, refl)
  Step-Alike (callback_ends e f) h = inl (refl, refl, refl, refl, refl, refl)
  Step-Alike (looks_at_wake_error r e) h = inl (refl, refl, refl, refl, refl, refl)
  Step-Alike {w} (worker_finishes r now e) h =
      let (_, q, p) = finish-same r now w.control in inr (q, p, rw e refl)
  Step-Alike (worker_leaves e) h = inl (ground arith)
  Step-Alike {w} (cancel r) h =
      inl (rw (mark_cancel-idle r w.control h) (refl, refl, refl, refl, refl, refl))
  Step-Alike (cancel_wakes rc m) h = inl (ground arith)
  Step-Alike (new_handle m b) h = inl (refl, refl, refl, refl, refl, refl)
  Step-Alike (drop_handle m) h = inl (ground arith)
  Step-Alike {w} (set_timeout seconds) h = inl (begin_timeout-Alike s seconds w.control).0
  Step-Alike {w} (no_timer i g e) h = inl (undo_timeout-Alike s g w.control).0
  Step-Alike (new_timer i g d e b) h = inl (refl, refl, refl, refl, refl, refl)
  Step-Alike {w} (timer_enters i now t e p) h =
      inl (loop_head-Alike s t.generation 0 t.deadline now w.control).0
  Step-Alike {w} (timer_turns i rc now t e p) h =
      inl (after_wait-Alike s t.generation rc t.deadline now w.control).0
  Step-Alike {w} (timer_expires i t e p) h =
      inl (rw (mark_timeout-idle s t.generation w.control h) (refl, refl, refl, refl, refl, refl))
  Step-Alike (timer_wakes i rc t e p) h = inl (ground arith)
  Step-Alike (timer_leaves i t e p) h = inl (ground arith)

  -- The first cancel request stands: none that comes later, a timer's among them, takes it back or
  -- changes its reason, before the worker finishes or after.
  pub first_cancel_stands :
      {w u : World T}
      → Steps s w u
      → w.control.cancel_requested ≡ true
      → (u.control.cancel_requested ≡ true) × (u.control.cancel_reason ≡ w.control.cancel_reason)
  first_cancel_stands here h = (h, refl)
  first_cancel_stands (next {u} r t) h =
      let (q, p) = first_cancel_stands r h in
      elim (Step-Alike t (ground (arith, q))) [
        | inl a ↦ (a.2 ∙ q, a.3 ∙ p)
        | inr b ↦ (b.0 ∙ q, b.1 ∙ p)
      ]

  Alike-trans : (a b c : Control T) → Alike a b → Alike b c → Alike a c
  Alike-trans a b c p q = (q.0 ∙ p.0, q.1 ∙ p.1, q.2 ∙ p.2, q.3 ∙ p.3, q.4 ∙ p.4, q.5 ∙ p.5)

  end_lem :
      {w u : World T}
      → Steps s w u
      → IsValid w
      → is_alive w.worker ≡ false
      → Alike w.control u.control
  end_lem here v f = (refl, refl, refl, refl, refl, refl)
  end_lem {w} {u = x} (next {u} r t) v f =
      let a = end_lem r v f in
      let i = Steps-IsValid s r v in
      let stopped = ap is_running a.0 ∙ v.core.live ∙ f in
      elim (Step-Alike t (ground (arith, stopped))) [
        | inl b ↦ Alike-trans w.control u.control x.control a b
        | inr b ↦ absurd (ground (arith, stopped, i.core.live, b.2))
      ]

  same_age :
      (c d : Control T) (now later : T)
      → is_running c.state ≡ false
      → Alike c d
      → age s later d ≡ age s now c
  unfolding age
  same_age c d now later f a = rw (a.0, a.4, a.5, f) refl

  -- Once the worker has finished, nothing that happens at the control changes its state, its cancel
  -- request or its times; so its age is the same at every moment.
  pub end_stands :
      {w u : World T}
      → Steps s w u
      → IsValid w
      → is_alive w.worker ≡ false
      → Alike w.control u.control × ((now later : T) → age s later u.control ≡ age s now w.control)
  end_stands {w} {u} r v f =
      let a = end_lem r v f in
      (a, λ now later. same_age w.control u.control now later (v.core.live ∙ f) a)
