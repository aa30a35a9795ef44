-- ===== src/Supervision/Balance.antt =====
-- Each operation keeps the ledger.
use developer_dashboard.Common.{
  ℕ, ◌≡◌, ◌≢◌, refl, arith, if◌then◌else◌, List, [], ◌∷◌, ◌++◌, Option, none, some, Bytes, if_both,
  Bool-cases, inl, inr,
}
use developer_dashboard.Supervision.{
  Helper, no_helper, Effect, Waited, wait_error, helper_is_running, close_helper_state, Answers,
  Started, start, with_path, with_events, with_child, behind, start_error, no_actions, Sending,
  command, ReadAnswer, got, interrupted, would_block, at_end, read_error, read_events, read_from,
  read_loop, stop, opens_pipe, closes_pipe,
}
use developer_dashboard.Supervision.Ledger.{
  IsTidy, Balanced, Balanced-append, unchanged, given_up, helper_is_running-Looked,
}

pub stop-Balanced :
    (h : Helper) (w : Waited)
    → IsTidy h
    → w ≢ wait_error
    → Balanced h (stop h w).2 (stop h w).1 (stop h w).0
unfolding stop
stop-Balanced h w t n =
    let l = helper_is_running-Looked h w t n in
    let g = (helper_is_running h w).1 in
    let all =
      Balanced-append h (helper_is_running h w).2 g (close_helper_state g) no_helper g.pid
        l.balanced (given_up g) in
    elim (Bool-cases (helper_is_running h w).0) [
      | inl running ↦ rw running all
      | inr gone ↦ rw gone (rw (l.emptied gone) at all)
    ]

-- Of a helper that is not there.
empty_helper : (h : Helper) → IsTidy h → h.pid ≡ none → h ≡ no_helper
empty_helper h t e = λ i. record { commands = (t e).0 i; events = (t e).1 i; pid = e i }

-- A result that starts from no helper.
abbrev FromNone : Started × Helper × List Effect → Type 0
FromNone r = Balanced no_helper r.2 r.1 none

with_child_lem :
    (c e : ℕ × ℕ) (child : Option ℕ)
    → FromNone (behind (opens_pipe c) (behind (opens_pipe e) (with_child no_helper c e child)))
with_child_lem c e none = record {
  descriptors = λ x. omega arith;
  children = λ p. omega arith;
  tidy = λ f. (refl, refl);
}
with_child_lem c e (some pid) = record {
  descriptors = λ x. omega arith;
  children = λ p. omega arith;
  tidy = λ f. absurd (cc);
}

with_events_lem :
    (a : Answers) (c : ℕ × ℕ) (e : Option (ℕ × ℕ))
    → FromNone (behind (opens_pipe c) (with_events no_helper a c e))
with_events_lem a c none = record {
  descriptors = λ x. omega arith;
  children = λ p. omega arith;
  tidy = λ f. (refl, refl);
}
with_events_lem a c (some e) =
    if_both
      (λ (r : Started × Helper × List Effect).
        FromNone (behind (opens_pipe c) (behind (opens_pipe e) r)))
      a.actions (with_child no_helper c e a.child)
      (start_error no_actions, no_helper, closes_pipe c ++ closes_pipe e)
      (with_child_lem c e a.child)
      (record {
        descriptors = λ x. omega arith;
        children = λ p. omega arith;
        tidy = λ f. (refl, refl);
      })

with_path_lem :
    (a : Answers) (path : Option Bytes) (commands : Option (ℕ × ℕ))
    → a.command_pipe ≡ commands
    → FromNone (with_path no_helper a path)
with_path_lem a none commands e = unchanged no_helper (λ f. (refl, refl))
with_path_lem a (some path) none e = rw e (unchanged no_helper (λ f. (refl, refl)))
with_path_lem a (some path) (some c) e = rw e (with_events_lem a c a.event_pipe)

pub start-Balanced :
    (h : Helper) (w : Waited) (a : Answers)
    → IsTidy h
    → w ≢ wait_error
    → Balanced h (start h w a).2 (start h w a).1 none
unfolding start
start-Balanced h w a t n =
    let l = helper_is_running-Looked h w t n in
    elim (Bool-cases (helper_is_running h w).0) [
      | inl running ↦ rw running l.balanced
      | inr gone ↦
          let e = empty_helper (helper_is_running h w).1 l.balanced.tidy (l.emptied gone) in
          rw gone (
            Balanced-append h (helper_is_running h w).2 no_helper _ _ none (rw e at l.balanced)
              (rw e (with_path_lem a a.path a.command_pipe refl)))
    ]

-- A command that could not be sent gives the child up, and nobody waits for it.
abbrev pub lost_in : Helper → Waited → Sending → Option ℕ
lost_in h w s =
    if (helper_is_running h w).0
    then (if s.complete then none else (helper_is_running h w).1.pid)
    else none

pub command-Balanced :
    (h : Helper) (w : Waited) (s : Sending)
    → IsTidy h
    → w ≢ wait_error
    → Balanced h (command h w s).3 (command h w s).2 (lost_in h w s)
unfolding command
command-Balanced h w s t n =
    let l = helper_is_running-Looked h w t n in
    let g = (helper_is_running h w).1 in
    elim (Bool-cases (helper_is_running h w).0) [
      | inl running ↦ elim (Bool-cases s.complete) [
        | inl whole ↦ rw running (rw whole l.balanced)
        | inr part ↦ rw running (
            rw part (
              Balanced-append h (helper_is_running h w).2 g (close_helper_state g) no_helper g.pid
                l.balanced (given_up g)))
      ]
      | inr gone ↦ rw gone l.balanced
    ]

read_loop_lem :
    (answers : List ReadAnswer) (h : Helper) (fd : ℕ)
    → IsTidy h
    → h.events ≡ some fd
    → Balanced h (read_loop answers h fd).2 (read_loop answers h fd).1 none
      × ((read_loop answers h fd).1.pid ≡ h.pid)
unfolding read_loop
read_loop_lem [] h fd t e = (unchanged h t, refl)
read_loop_lem (got s ∷ rest) h fd t e = read_loop_lem rest h fd t e
read_loop_lem (interrupted ∷ rest) h fd t e = read_loop_lem rest h fd t e
read_loop_lem (would_block ∷ rest) h fd t e = (unchanged h t, refl)
read_loop_lem (read_error ∷ rest) h fd t e = (unchanged h t, refl)
read_loop_lem (at_end ∷ rest) h fd t e = (
  record {
    descriptors = λ x. rw e (omega arith);
    children = λ p. omega arith;
    tidy = λ f. ((t f).0, refl);
  },
  refl,
)

read_from_lem :
    (answers : List ReadAnswer) (h : Helper) (fd : Option ℕ)
    → IsTidy h
    → h.events ≡ fd
    → Balanced h (read_from answers h fd).2 (read_from answers h fd).1 none
      × ((read_from answers h fd).1.pid ≡ h.pid)
read_from_lem answers h none t e = (unchanged h t, refl)
read_from_lem answers h (some fd) t e = read_loop_lem answers h fd t e

pub read_events-Balanced :
    (answers : List ReadAnswer) (h : Helper)
    → IsTidy h
    → Balanced h (read_events answers h).2 (read_events answers h).1 none
      × ((read_events answers h).1.pid ≡ h.pid)
unfolding read_events
read_events-Balanced answers h t = read_from_lem answers h h.events t refl
