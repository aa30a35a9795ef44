-- ===== src/Control/Timers.antt =====
-- The sections of the timers and the flags of a control block.
use developer_dashboard.Common.{ℕ, ◌≡◌, ◌&&◌, not, ◌==◌, true, false, arith, Bool-cases, inl, inr}
use developer_dashboard.Control.{
  Seconds, Control, is_running, mark_timeout, begin_timeout, undo_timeout, loop_head, after_wait,
  leave_loop,
}
use developer_dashboard.Control.World.{Worker}
use developer_dashboard.Control.Flags.{Core, Alike}

module _ {T : Type 0} (s : Seconds T) where
  pub mark_timeout-refs : (g : ℕ) (c : Control T) → (mark_timeout s g c).1.refs ≡ c.refs
  unfolding mark_timeout
  mark_timeout-refs g c = ground arith

  pub mark_timeout-requested :
      (g : ℕ) (c : Control T)
      → c.cancel_requested ≡ true
      → (mark_timeout s g c).1.cancel_requested ≡ true
  unfolding mark_timeout
  mark_timeout-requested g c h = ground arith

  pub mark_timeout-idle :
      (g : ℕ) (c : Control T)
      → (is_running c.state && not c.cancel_requested) ≡ false
      → (mark_timeout s g c).1 ≡ c
  unfolding mark_timeout
  mark_timeout-idle g c h = ground arith

  pub mark_timeout-Core :
      (g : ℕ) (c : Control T) (k : Worker) → Core c k → Core (mark_timeout s g c).1 k
  unfolding mark_timeout
  mark_timeout-Core g c k i =
      elim (Bool-cases (
        is_running c.state
        && c.timeout_generation == g
        && s.positive c.timeout_seconds
        && not c.cancel_requested)) [
          | inr refused ↦ rw refused i
          | inl free ↦ rw free (record {
            live = i.live;
            valid = i.valid;
            reason = λ e. ground arith;
            justified = ground (arith, free, i.justified);
            pending = ground (arith, free, i.pending);
          })
        ]

  pub loop_head-Alike :
      (g rc : ℕ) (d now : T) (c : Control T)
      → Alike c (loop_head s g d now rc c).1 × ((loop_head s g d now rc c).1.refs ≡ c.refs)
  unfolding loop_head leave_loop
  loop_head-Alike g rc d now c = ground arith

  pub after_wait-Alike :
      (g rc : ℕ) (d now : T) (c : Control T)
      → Alike c (after_wait s g d now rc c).1 × ((after_wait s g d now rc c).1.refs ≡ c.refs)
  unfolding after_wait loop_head leave_loop
  after_wait-Alike g rc d now c = ground arith

  pub begin_timeout-Alike :
      (seconds : T) (c : Control T)
      → Alike c (begin_timeout s seconds c).1 × ((begin_timeout s seconds c).1.refs ≡ c.refs)
  unfolding begin_timeout
  begin_timeout-Alike seconds c = ground arith

  pub undo_timeout-Alike :
      (g : ℕ) (c : Control T) → Alike c (undo_timeout s g c) × ((undo_timeout s g c).refs ≡ c.refs)
  unfolding undo_timeout
  undo_timeout-Alike g c = ground arith
