-- ===== src/Supervision/World/Invariant.antt =====
-- What holds of the helper at every moment.
use developer_dashboard.Common.{
  ℕ, ◌+◌, ◌≡◌, ◌∙◌, refl, subst, sym, arith, [], ◌∷◌, none, some, Bytes, length,
}
use developer_dashboard.Menu.Write.{Wrote}
use developer_dashboard.Supervision.{no_helper, reaps, Sending, stop}
use developer_dashboard.Supervision.Write.{IsCalm, IsLine, send_line, send_line-IsLine}
use developer_dashboard.Supervision.Ledger.{
  opened-append, closed-append, begun-append, reaped-append, helper_is_running-Looked,
}
use developer_dashboard.Supervision.Balance.{
  start-Balanced, command-Balanced, lost_in, read_events-Balanced, stop-Balanced,
}
use developer_dashboard.Supervision.World.{
  World, Step, starts, looks, commands, reads, stops, waits, Steps, here, next,
}
use developer_dashboard.Supervision.World.Lines.{
  IsAccounted, descriptors_lem, children_lem, count-add, count-remove, looks-Told, starts-Told,
  commands-Told, stops-Told,
}

found-IsLine :
    (value : Bytes) (answer answer' : ℕ → Wrote) (calm calm' : ℕ) (s : Sending)
    → IsCalm answer calm
    → IsCalm answer' calm'
    → send_line answer (calm + length value + 1) answer' (calm' + 2) value ≡ some s
    → IsLine value s
found-IsLine value answer answer' calm calm' s c c' e =
    let (r, f, l) = send_line-IsLine answer answer' calm calm' value c c' in
    let g : r ≡ s = some_eq (sym f ∙ e) in subst (IsLine value) g l
  where
    some_eq : {r : Sending} → some r ≡ some s → r ≡ s
    some_eq g = cc

Step-IsAccounted : {w u : World} → Step w u → IsAccounted w → IsAccounted u
Step-IsAccounted {w} (starts a answers n) v =
    let b = start-Balanced w.helper a answers v.tidy n in
    record {
      descriptors = descriptors_lem w _ _ none v b;
      children = λ p. children_lem w _ _ none v b p ∙ (omega arith);
      tidy = b.tidy;
      lines = starts-Told w.helper a n v.tidy answers w.sent w.accepted v.lines;
    }
Step-IsAccounted {w} (looks a n) v =
    let b = (helper_is_running-Looked w.helper a v.tidy n).balanced in
    record {
      descriptors = descriptors_lem w _ _ none v b;
      children = λ p. children_lem w _ _ none v b p ∙ (omega arith);
      tidy = b.tidy;
      lines = looks-Told w.helper a n v.tidy w.sent w.accepted v.lines;
    }
Step-IsAccounted {w} (commands a value answer answer' calm calm' s n c c' e) v =
    let b = command-Balanced w.helper a s v.tidy n in
    record {
      descriptors = descriptors_lem w _ _ (lost_in w.helper a s) v b;
      children = λ p. omega (
        arith,
        children_lem w _ _ (lost_in w.helper a s) v b p,
        count-add (lost_in w.helper a s) w.lost p,
      );
      tidy = b.tidy;
      lines =
          commands-Told w.helper a n v.tidy value s w.sent w.accepted
            (found-IsLine value answer answer' calm calm' s c c' e) v.lines;
    }
Step-IsAccounted {w} (reads answers) v =
    let (b, same) = read_events-Balanced answers w.helper v.tidy in
    record {
      descriptors = descriptors_lem w _ _ none v b;
      children = λ p. children_lem w _ _ none v b p ∙ (omega arith);
      tidy = b.tidy;
      lines = λ p e. v.lines p (sym same ∙ e);
    }
Step-IsAccounted {w} (stops a n) v =
    let b = stop-Balanced w.helper a v.tidy n in
    record {
      descriptors = descriptors_lem w _ _ (stop w.helper a).0 v b;
      children = λ p. omega (
        arith,
        children_lem w _ _ (stop w.helper a).0 v b p,
        count-add (stop w.helper a).0 w.waiting p,
      );
      tidy = b.tidy;
      lines = stops-Told w.helper a n v.tidy w.sent w.accepted;
    }
Step-IsAccounted {w} (waits i pid e) v = record {
  descriptors = λ x. omega (
    arith,
    opened-append w.log (reaps pid ∷ []) x,
    closed-append w.log (reaps pid ∷ []) x,
    v.descriptors x,
  );
  children = λ p. omega (
    arith,
    begun-append w.log (reaps pid ∷ []) p,
    reaped-append w.log (reaps pid ∷ []) p,
    v.children p,
    count-remove w.waiting i pid p e,
  );
  tidy = v.tidy;
  lines = v.lines;
}

-- Whatever threads start, feed, drain, look at and stop the helper, in whatever order, and whatever the
-- system answers, `waitpid` knowing its children: every descriptor that was opened is closed once or is
-- held; each child that was started is reaped once, or is the helper, or a `_stop` is to wait for it,
-- or a command could not be sent to it; and the helper has been sent just the lines of the commands that
-- were answered with success, so that no line follows a part of one.
pub Steps-IsAccounted : {w u : World} → Steps w u → IsAccounted w → IsAccounted u
Steps-IsAccounted here v = v
Steps-IsAccounted (next r t) v = Step-IsAccounted t (Steps-IsAccounted r v)

-- When the library is loaded.
abbrev pub loaded : World
loaded = record { helper = no_helper; log = []; waiting = []; lost = []; sent = []; accepted = [] }

pub loaded-IsAccounted : IsAccounted loaded
loaded-IsAccounted = record {
  descriptors = λ x. omega arith;
  children = λ p. omega arith;
  tidy = λ e. (refl, refl);
  lines = λ p e. refl;
}
