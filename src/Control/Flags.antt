-- ===== src/Control/Flags.antt =====
-- The flags of a control block: how they hang together, section by section.
use developer_dashboard.Common.{
  ℕ, ◌≤◌, ◌≡◌, ◌∙◌, ◌&&◌, not, if◌then◌else◌, Bool, true, false, refl, arith, Bool-cases, inl, inr,
}
use developer_dashboard.Control.{
  Control, GoState, running, done, exited, failed, timed_out, killed, is_running, CancelReason,
  no_cancel, timeout, mark_cancel, finish,
}
use developer_dashboard.Control.World.{
  Worker, is_unpublished, working, ending, checked, finished, gone, Ending, final_state,
  wakers_after,
}

-- The worker has not been through `go_control_finish`.
abbrev pub is_alive : Worker → Bool
is_alive finished = false
is_alive gone = false
is_alive _ = true

abbrev pub holds : Worker → ℕ
holds gone = 0
holds _ = 1

-- What the state that a worker finished in, or is about to, says of the cancel requests.
abbrev pub Justified : {T : Type 0} → GoState → Control T → Type 0
Justified timed_out c = (c.cancel_requested ≡ true) × (c.cancel_reason ≡ timeout)
Justified done c = c.cancel_requested ≡ false
Justified exited c = c.cancel_requested ≡ false
Justified _ c = Unit

abbrev pub Pending : {T : Type 0} → Worker → Control T → Type 0
Pending (ending timed_out) c = (c.cancel_requested ≡ true) × (c.cancel_reason ≡ timeout)
Pending (checked timed_out) c = (c.cancel_requested ≡ true) × (c.cancel_reason ≡ timeout)
Pending (ending running) c = ⊥
Pending (checked running) c = ⊥
Pending _ c = Unit

-- Of the flags of a control whose worker is where it is.
pub record Core {T : Type 0} (c : Control T) (worker : Worker) : Type 0 where
  pub live : is_running c.state ≡ is_alive worker
  pub valid : c.thread_valid ≡ true → is_running c.state ≡ true
  pub reason : c.cancel_requested ≡ false → c.cancel_reason ≡ no_cancel
  pub justified : Justified c.state c
  pub pending : Pending worker c

pub unpublished-alive : (k : Worker) → is_unpublished k ≡ true → is_alive k ≡ true
unpublished-alive k e = ground (arith, e)

module _ {T : Type 0} where
  -- The two are the same in their flags and in their times.
  abbrev pub Alike : Control T → Control T → Type 0
  Alike c d =
      (d.state ≡ c.state)
      × (d.thread_valid ≡ c.thread_valid)
      × (d.cancel_requested ≡ c.cancel_requested)
      × (d.cancel_reason ≡ c.cancel_reason)
      × (d.started_at ≡ c.started_at)
      × (d.finished_at ≡ c.finished_at)

  pub Alike-Core : (c d : Control T) (k : Worker) → Alike c d → Core c k → Core d k
  Alike-Core c d k a i = record {
    live = rw a.0 i.live;
    valid = rw (a.0, a.1) i.valid;
    reason = rw (a.2, a.3) i.reason;
    justified = justify d.state c.state a.0 i.justified;
    pending = pend k i.pending;
  }
    where
      justify : (t u : GoState) → t ≡ u → Justified u c → Justified t d
      justify t u e j = rw e (same u j)
        where
          same : (u : GoState) → Justified u c → Justified u d
          same timed_out j = (a.2 ∙ j.0, a.3 ∙ j.1)
          same done j = a.2 ∙ j
          same exited j = a.2 ∙ j
          same running j = tt
          same killed j = tt
          same failed j = tt

      pend : (k : Worker) → Pending k c → Pending k d
      pend (ending timed_out) j = (a.2 ∙ j.0, a.3 ∙ j.1)
      pend (checked timed_out) j = (a.2 ∙ j.0, a.3 ∙ j.1)
      pend (ending running) j = j
      pend (checked running) j = j
      pend k j = ground arith

  pub moved-Core :
      (c : Control T) (k l : Worker) → is_alive l ≡ is_alive k → Pending l c → Core c k → Core c l
  moved-Core c k l e p i = record {
    live = rw e i.live;
    valid = i.valid;
    reason = i.reason;
    justified = i.justified;
    pending = p;
  }

  pub mark_cancel-refs : (r : CancelReason) (c : Control T) → (mark_cancel r c).1.refs ≡ c.refs
  unfolding mark_cancel
  mark_cancel-refs r c = ground arith

  -- Only a request that is the first one has a caller that wakes the worker.
  pub mark_cancel-once :
      (r : CancelReason) (c : Control T) (n : ℕ)
      → n ≤ (if c.cancel_requested then 1 else 0)
      → wakers_after (mark_cancel r c).0 n ≤ (if (mark_cancel r c).1.cancel_requested then 1 else 0)
  unfolding mark_cancel
  mark_cancel-once r c n h = ground arith

  -- Neither does anything once a cancel is requested, or the worker has finished.
  pub mark_cancel-idle :
      (r : CancelReason) (c : Control T)
      → (is_running c.state && not c.cancel_requested) ≡ false
      → (mark_cancel r c).1 ≡ c
  unfolding mark_cancel
  mark_cancel-idle r c h = rw h refl

  pub mark_cancel-Core :
      (r : CancelReason) (c : Control T) (k : Worker) → Core c k → Core (mark_cancel r c).1 k
  unfolding mark_cancel
  mark_cancel-Core r c k i = elim (Bool-cases (is_running c.state && not c.cancel_requested)) [
    | inr refused ↦ rw refused i
    | inl free ↦ rw free (record {
      live = i.live;
      valid = i.valid;
      reason = λ e. ground arith;
      justified = ground (arith, free, i.justified);
      pending = ground (arith, free, i.pending);
    })
  ]

  pub finish-same :
      (result : GoState) (now : T) (c : Control T)
      → ((finish result now c).refs ≡ c.refs)
        × ((finish result now c).cancel_requested ≡ c.cancel_requested)
        × ((finish result now c).cancel_reason ≡ c.cancel_reason)
  unfolding finish
  finish-same result now c = (refl, refl, refl)

  pub finish-Core :
      (result : GoState) (now : T) (c : Control T)
      → Core c (checked result)
      → Core (finish result now c) finished
  unfolding finish
  finish-Core result now c i = record {
    live = ground (arith, i.pending);
    valid = λ e. ground arith;
    reason = i.reason;
    justified = ground (arith, i.pending, i.reason);
    pending = ground arith;
  }

  -- The thread is published while the worker waits for it.
  pub publish-Core :
      (thread : ℕ) (c : Control T) (k : Worker)
      → is_unpublished k ≡ true
      → Core c k
      → Core (record c { thread = thread; thread_valid = true }) k
  publish-Core thread c k e i = record {
    live = i.live;
    valid = λ _. i.live ∙ unpublished-alive k e;
    reason = i.reason;
    justified = ground (arith, i.justified);
    pending = ground (arith, i.pending);
  }

  pub final_state-Pending :
      (e : Ending) (c : Control T) → Core c working → Pending (ending (final_state c e)) c
  final_state-Pending e c i = ground (arith, i.reason)
