-- ===== src/Control/Stale.antt =====
-- A timer that has been replaced is harmless.
use developer_dashboard.Common.{
  ℕ, ◌+◌, ◌%◌, ◌^◌, ◌≤◌, ◌<◌, ◌≡◌, ◌≢◌, ◌⊎◌, ◌∙◌, ap, Bool-cases, inl, inr, true, false, refl,
  arith, List, [], ◌∷◌, length,
}
use developer_dashboard.Control.{
  Seconds, Control, is_running, no_wake, begin_timeout, mark_timeout, end, loop_head, leave_loop,
}

module _ {T : Type 0} (s : Seconds T) where
  -- Calls of `go_control_set_timeout`, one for each of the times.
  abbrev pub set_timeouts : List T → Control T → Control T
  set_timeouts [] c = c
  set_timeouts (seconds ∷ rest) c = set_timeouts rest (begin_timeout s seconds c).1

  begin_timeout_running :
      (seconds : T) (c : Control T)
      → is_running c.state ≡ true
      → (is_running (begin_timeout s seconds c).1.state ≡ true)
        × ((begin_timeout s seconds c).1.timeout_generation ≡ (c.timeout_generation + 1) % 2 ^ 64)
  unfolding begin_timeout
  begin_timeout_running seconds c h = (ground (arith, h), ground (arith, h))

  begin_timeout_finished :
      (seconds : T) (c : Control T) → is_running c.state ≡ false → (begin_timeout s seconds c).1 ≡ c
  unfolding begin_timeout
  begin_timeout_finished seconds c h = rw h refl

  set_timeouts_finished :
      (times : List T) (c : Control T) → is_running c.state ≡ false → set_timeouts times c ≡ c
  set_timeouts_finished [] c h = refl
  set_timeouts_finished (x ∷ times) c h =
      ap (set_timeouts times) (begin_timeout_finished x c h) ∙ set_timeouts_finished times c h

  set_timeouts_running :
      (times : List T) (c : Control T)
      → is_running c.state ≡ true
      → c.timeout_generation < 2 ^ 64
      → (set_timeouts times c).timeout_generation ≡ (c.timeout_generation + length times) % 2 ^ 64
  set_timeouts_running [] c h l = omega arith
  set_timeouts_running (x ∷ times) c h l =
      let (r, g) = begin_timeout_running x c h in
      omega (arith, g, set_timeouts_running times (begin_timeout s x c).1 r (omega (arith, g)))

  idle_lem :
      (c : Control T) (g : ℕ) (deadline now : T)
      → (is_running c.state ≡ false) ⊎ (c.timeout_generation ≢ g)
      → (mark_timeout s g c ≡ (no_wake, c)) × (loop_head s g deadline now 0 c ≡ (end, c))
  unfolding mark_timeout loop_head leave_loop
  idle_lem c g deadline now h = (ground (arith, h), ground (arith, h))

  -- After at least one and fewer than 2 ^ 64 further calls of `go_control_set_timeout` a timer of the
  -- generation before them does nothing: from the head of its loop it goes to its end, and should it
  -- be in `go_control_timeout` already, that changes nothing and wakes nobody.
  pub stale_timer :
      (c : Control T) (times : List T) (deadline now : T)
      → c.timeout_generation < 2 ^ 64
      → 1 ≤ length times
      → length times < 2 ^ 64
      → (mark_timeout s c.timeout_generation (set_timeouts times c)
          ≡ (no_wake, set_timeouts times c))
        × (loop_head s c.timeout_generation deadline now 0 (set_timeouts times c)
            ≡ (end, set_timeouts times c))
  stale_timer c times deadline now l some_call few =
      idle_lem (set_timeouts times c) c.timeout_generation deadline now
        (elim (Bool-cases (is_running c.state)) [
          | inl h ↦ inr (λ e. omega (arith, set_timeouts_running times c h l, e))
          | inr h ↦ inl (rw (set_timeouts_finished times c h) h)
        ])
