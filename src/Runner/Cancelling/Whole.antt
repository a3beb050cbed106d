-- ===== src/Runner/Cancelling/Whole.antt =====
-- A run with a control, whatever pauses and cancels arrive, and the fold over the tasks it reaches.
use graphed.Prelude.{
  ℕ, ◌≡◌, refl, ap, sym, subst, ◌∙◌, Bool, false, Option, none, some, List, length, if◌then◌else◌,
}
use graphed.Outcome.{
  Outcome, returns, raises, hangs, Exec, pure, continue, finish, finally, ◌>>=◌, ◌>>◌,
}
use graphed.Control.{Control, RunState, running, paused, cancelled, is_cancelled, read_state}
use graphed.Resources
use graphed.Resources.{Resources}
use graphed.Plan
use graphed.Plan.{Task, StopReason, ExecResult}
use graphed.Runner.Tasks.{
  Monitor, Job, World, Run, in_key_order, as_result, is_cancelled_now, cancelled_state, submit_all,
  loop, body, cleanup, fresh, run_tasks,
}
use graphed.Runner.Simulation.{IsTame}
use graphed.Runner.Fold.{fold_tasks}
use graphed.Runner.Steps.{Like-submit_all}
use graphed.Runner.Cancelling.Reaching.{
  comes, looked, comes_to, starts_and_comes_to, reached, reached_body, Same, Same-continue,
  loop-reached,
}
use graphed.Runner.Cancelling.Ends.{cleans_to}

module _ {H W M V : Type 0} (closer : H → Option (Exec W (Unit {0}))) (now : ℕ → ℕ)
    (monitor : Option (Monitor M)) (tame : IsTame monitor) (job : Job (Resources H W) V) where
  results_in :
      {A : Type 0} (f : A → ExecResult V) (x : Outcome A × World H W M)
      (y : Outcome A × Resources H W)
      → Same x y
      → Same (continue x (λ r. pure (f r))) (continue y (λ r. pure (f r)))
  results_in f x y same = Same-continue x y _ _ same (λ a. (refl, refl))

  submitted :
      (tasks : List Task) (value : V) (o : Option Control) (w : World H W M)
      → w.control ≡ o
      → Same
          (continue
            (submit_all closer now monitor job tasks w)
            (λ _. loop closer now monitor job tasks value 0))
          (reached job (comes_to o (length tasks)) tasks value 0 w.resources)
  submitted tasks value o w at =
      let (out, res, ctl) = (Like-submit_all closer now monitor tame o job tasks).at w at in
      Same-continue (submit_all closer now monitor job tasks w) (returns tt, w.resources) _
        (λ _. reached job (comes_to o (length tasks)) tasks value 0) (out, res)
        (λ _. loop-reached closer now monitor tame job tasks o value 0 _ ctl)

  -- Past the check for a cancel.
  abbrev goes : List Task → V → Run closer now monitor (ExecResult V)
  goes tasks value =
      submit_all closer now monitor job tasks >> loop closer now monitor job tasks value 0 >>= λ r.
      pure (as_result r)

  abbrev checked : List Task → V → Run closer now monitor (ExecResult V)
  checked tasks value = is_cancelled_now closer now monitor >>= λ stop.
      if stop then pure (as_result (value, 0, some Plan.cancelled)) else goes tasks value

  goes-Same :
      (tasks : List Task) (value : V) (o : Option Control) (w : World H W M)
      → w.control ≡ o
      → Same (goes tasks value w) (
          continue
            (reached job (comes_to o (length tasks)) tasks value 0 w.resources)
            (λ r. pure (as_result r)))
  goes-Same tasks value o w at =
      results_in as_result
        (continue (submit_all closer now monitor job tasks w)
          (λ _. loop closer now monitor job tasks value 0))
        (reached job (comes_to o (length tasks)) tasks value 0 w.resources)
        (submitted tasks value o w at)

  checked_by :
      (tasks : List Task) (value : V) (b : Bool) (w w' : World H W M)
      (y : Outcome (ExecResult V) × Resources H W)
      → is_cancelled_now closer now monitor w ≡ (returns b, w')
      → Same
          ((if b then pure (as_result (value, 0, some Plan.cancelled)) else goes tasks value) w')
          y
      → Same (checked tasks value w) y
  checked_by tasks value b w w' y e h =
      subst
        (λ x.
          Same
            (continue x (λ stop.
              if stop then pure (as_result (value, 0, some Plan.cancelled)) else goes tasks value))
            y)
        (sym e) h

  checked-looked :
      (tasks : List Task) (value : V) (c c' : Control) (s : RunState) (w : World H W M)
      → w.control ≡ some c
      → read_state c ≡ (s, c')
      → Same (checked tasks value w) (
          continue
            (reached job (looked s (comes c' (length tasks))) tasks value 0 w.resources)
            (λ r. pure (as_result r)))
  unfolding is_cancelled_now cancelled_state fold_tasks
  checked-looked tasks value c c' s w at e =
      checked_by tasks value (is_cancelled s) w (record w { control = some c' }) _
        (ap (λ o. cancelled_state closer now monitor o w) at
          ∙ ap
              (λ (y : RunState × Control).
                (returns (is_cancelled y.0), record w { control = some y.1 }))
              e)
        (go s)
    where
      go :
          (s : RunState)
          → Same
              ((if is_cancelled s
                  then pure (as_result (value, 0, some Plan.cancelled))
                  else goes tasks value)
                (record w { control = some c' }))
              (continue
                (reached job (looked s (comes c' (length tasks))) tasks value 0 w.resources)
                (λ r. pure (as_result r)))
      go running = goes-Same tasks value (some c') (record w { control = some c' }) refl
      go paused = goes-Same tasks value (some c') (record w { control = some c' }) refl
      go cancelled = (refl, refl)

  checked-Same :
      (tasks : List Task) (value : V) (o : Option Control) (w : World H W M)
      → w.control ≡ o
      → Same (checked tasks value w) (
          continue
            (reached job (starts_and_comes_to o (length tasks)) tasks value 0 w.resources)
            (λ r. pure (as_result r)))
  unfolding is_cancelled_now cancelled_state
  checked-Same tasks value none w at =
      checked_by tasks value false w w _ (ap (λ o. cancelled_state closer now monitor o w) at)
        (goes-Same tasks value none w at)
  checked-Same tasks value (some c) w at =
      checked-looked tasks value c (read_state c).1 (read_state c).0 w at refl

  body-Same :
      (tasks : List Task) (w : World H W M)
      → Same (body closer now monitor job tasks w) (
          reached_body job
            (starts_and_comes_to w.control (length (in_key_order tasks)))
            (in_key_order tasks)
            w.resources)
  unfolding body
  body-Same tasks w =
      Same-continue (job.empty, w) (job.empty, w.resources) _ _ (refl, refl)
        (λ value. checked-Same (in_key_order tasks) value w.control w refl)

  finish-Same :
      (x : Outcome (ExecResult V) × World H W M) (y : Outcome (ExecResult V) × Resources H W)
      → Same x y
      → Same (finish x (cleanup closer now monitor)) (finish y (Resources.close closer))
  finish-Same (returns a, w) (returns b, r) (o, e) =
      let is : a ≡ b = cc o in
      subst
        (λ c.
          Same (finish (returns a, w) (cleanup closer now monitor))
            (finish (returns c, r) (Resources.close closer)))
        is
        (Same-continue (cleanup closer now monitor w) (Resources.close closer r) _ _
          (cleans_to closer now monitor w r e) (λ u. (refl, refl)))
  finish-Same (raises a, w) (raises b, r) (o, e) =
      let is : a ≡ b = cc o in
      subst
        (λ c.
          Same {A = ExecResult V} (finish (raises a, w) (cleanup closer now monitor))
            (finish (raises c, r) (Resources.close closer)))
        is
        (Same-continue (cleanup closer now monitor w) (Resources.close closer r) _ _
          (cleans_to closer now monitor w r e) (λ u. (refl, refl)))
  finish-Same (hangs, w) (hangs, r) (o, e) = (refl, e)
  finish-Same (returns a, w) (raises b, r) (o, e) = absurd (cc o)
  finish-Same (returns a, w) (hangs, r) (o, e) = absurd (cc o)
  finish-Same (raises a, w) (returns b, r) (o, e) = absurd (cc o)
  finish-Same (raises a, w) (hangs, r) (o, e) = absurd (cc o)
  finish-Same (hangs, w) (returns b, r) (o, e) = absurd (cc o)
  finish-Same (hangs, w) (raises b, r) (o, e) = absurd (cc o)

-- With any control, whatever calls reach it and when, and with no monitor or one whose hooks raise at
-- most Exceptions: the control's reads alone say how many tasks a run begins, in key order, and what
-- stops it after them - a first read that is CANCELLED, a wait before a task that wakes CANCELLED, a
-- wait that never wakes, or no task being left. The run ends as the fold over those tasks on fresh
-- resources does, in its exception if a task raises, and else in its value and counts, stopped as
-- cancelled after a cancel, or waiting for ever; and it leaves the same resources and outside.
pub run_tasks-reached :
    {H W M V : Type 0} (closer : H → Option (Exec W (Unit {0}))) (now : ℕ → ℕ)
    (monitor : Option (Monitor M)) (job : Job (Resources H W) V) (tasks : List Task)
    (w : World H W M)
    → IsTame monitor
    → let ordered = in_key_order tasks in
      let far = starts_and_comes_to w.control (length ordered) in
      Same (run_tasks closer now monitor job tasks w) (
        finally
          (reached_body job far ordered)
          (Resources.close closer)
          (fresh closer now monitor w).resources)
unfolding run_tasks
run_tasks-reached closer now monitor job tasks w tame =
    finish-Same closer now monitor tame job
      (body closer now monitor job tasks (fresh closer now monitor w)) _
      (body-Same closer now monitor tame job tasks (fresh closer now monitor w))
