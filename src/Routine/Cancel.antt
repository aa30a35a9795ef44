-- ===== src/Routine/Cancel.antt =====
-- What a request to cancel a worker comes to.
use developer_dashboard.Common.{
  ◌≡◌, refl, arith, ap, Bool, true, false, List, [], ◌∷◌, if◌then◌else◌,
}
use developer_dashboard.Control.{Seconds, running, killed, timed_out, CancelReason, is_timeout}
use developer_dashboard.Routine.{
  Routine, raises_cancel, raised_cancel, request_cancel, request_exit, poll, final_state,
  set_timeout, publish,
}

-- What others do to a worker while it runs.
pub data Call (T : Type 0) : Type 0 where
  cancel : CancelReason → Call T
  exit : Call T
  time_limit : T → Call T
  published : Call T

module _ {T : Type 0} (s : Seconds T) where
  abbrev pub perform : Call T → Routine T → Routine T
  perform (cancel reason) r = (request_cancel reason r).1
  perform exit r = request_exit r
  perform (time_limit seconds) r = (set_timeout s seconds r).1
  perform published r = publish r

  abbrev pub performs : List (Call T) → Routine T → Routine T
  performs [] r = r
  performs (c ∷ calls) r = performs calls (perform c r)

  abbrev Requested : CancelReason → Routine T → Type 0
  Requested reason r = (r.cancel_requested ≡ true) × (r.cancel_reason ≡ reason)

  perform-Requested :
      (reason : CancelReason) (c : Call T) (r : Routine T)
      → Requested reason r
      → Requested reason (perform c r)
  unfolding request_cancel set_timeout
  perform-Requested reason (cancel other) r h = ground (arith, h.0, h.1)
  perform-Requested reason exit r h = h
  perform-Requested reason (time_limit seconds) r h = h
  perform-Requested reason published r h = h

  performs-Requested :
      (reason : CancelReason) (calls : List (Call T)) (r : Routine T)
      → Requested reason r
      → Requested reason (performs calls r)
  performs-Requested reason [] r h = h
  performs-Requested reason (c ∷ calls) r h =
      performs-Requested reason calls (perform c r) (perform-Requested reason c r h)

  -- Once a running worker that nobody has cancelled is cancelled, whatever is called behind that, another
  -- cancel included: the next operation of its callback raises the cancel, and the worker then ends as
  -- timed out if the reason was a timeout and as killed otherwise.
  pub cancel-Ends :
      (reason : CancelReason) (calls : List (Call T)) (r : Routine T) (is_exit : Bool)
      → r.state ≡ running
      → r.cancel_requested ≡ false
      → let after = performs calls (request_cancel reason r).1 in
        ((poll is_exit after).0 ≡ raises_cancel)
        × (final_state (poll is_exit after).1 raised_cancel
            ≡ (if is_timeout reason then timed_out else killed))
  unfolding poll request_cancel
  cancel-Ends reason calls r is_exit e f =
      let h = performs-Requested reason calls (request_cancel reason r).1 (requested e f) in
      rw h.0 (refl, ap (λ k. if is_timeout k then timed_out else killed) h.1)
    where
      requested :
          r.state ≡ running
          → r.cancel_requested ≡ false
          → Requested reason (request_cancel reason r).1
      requested a b = rw a (rw b (refl, refl))
