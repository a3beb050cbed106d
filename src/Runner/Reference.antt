-- ===== src/Runner/Reference.antt =====
-- What a run computes: the fold of the tasks' partials in key order.
use graphed.Prelude.{
  ℕ, ◌+◌, ◌≡◌, refl, true, false, Option, none, some, List, [], ◌∷◌, if◌then◌else◌,
}
use graphed.Outcome.{returns, Exec, pure, lift, finally, ◌>>=◌}
use graphed.Control.{Control}
use graphed.Resources
use graphed.Resources.{Resources}
use graphed.Plan.{Task, StopReason, cancelled, ExecResult}
use graphed.Runner.Tasks.{
  Monitor, Job, World, in_key_order, is_cancelled_now, wait_cancelled, cancelled_state,
  cancelled_wait, reset_control, loop, as_result, body, cleanup, fresh, run_tasks,
}
use graphed.Runner.Simulation.{IsTame, Sim-pure, Sim-lift, Sim-in_resources, Sim-after, Sim-finally}
use graphed.Runner.Fold.{fold_tasks, reference}
use graphed.Runner.Steps.{Like, Like-bind, Like-submit_all, Like-run_one}

module _ {H W M V : Type 0} (closer : H → Option (Exec W (Unit {0}))) (now : ℕ → ℕ)
    (monitor : Option (Monitor M)) (tame : IsTame monitor) (job : Job (Resources H W) V) where
  wait-none :
      (o : Option Control) (w : World H W M)
      → o ≡ none
      → cancelled_wait closer now monitor o w ≡ (returns false, w)
  unfolding cancelled_wait
  wait-none none w e = refl
  wait-none (some c) w e = cc

  state-none :
      (o : Option Control) (w : World H W M)
      → o ≡ none
      → cancelled_state closer now monitor o w ≡ (returns false, w)
  unfolding cancelled_state
  state-none none w e = refl
  state-none (some c) w e = cc

  reset-none :
      (o : Option Control) (w : World H W M)
      → o ≡ none
      → reset_control closer now monitor o w ≡ (returns tt, w)
  unfolding reset_control
  reset-none none w e = refl
  reset-none (some c) w e = cc

  Like-wait_cancelled :
      Like closer now monitor tame none job (wait_cancelled closer now monitor) (pure false)
  unfolding wait_cancelled
  Like-wait_cancelled = record { at = λ w c. rw (wait-none w.control w c) (refl, refl, c) }

  Like-is_cancelled_now :
      Like closer now monitor tame none job (is_cancelled_now closer now monitor) (pure false)
  unfolding is_cancelled_now
  Like-is_cancelled_now = record { at = λ w c. rw (state-none w.control w c) (refl, refl, c) }

  Like-loop :
      (tasks : List Task) (value : V) (n : ℕ)
      → Like closer now monitor tame none job
          (loop closer now monitor job tasks value n)
          (fold_tasks job tasks value n)
  unfolding loop fold_tasks
  Like-loop [] value n = Sim-pure closer now monitor tame none _
  Like-loop (task ∷ tasks) value n =
      let stopped : V × ℕ × Option StopReason = (value, n, some cancelled) in
      Like-bind closer now monitor tame none job _ (pure false) _
        (λ stop. if stop then pure stopped else fold_tasks job (task ∷ tasks) value n)
        Like-wait_cancelled
        (elim [
          | true ↦ Sim-pure closer now monitor tame none stopped
          | false ↦
              Like-bind closer now monitor tame none job _ _ _
                (λ value'. fold_tasks job tasks value' (n + 1))
                (Like-run_one closer now monitor tame none job task value)
                (λ value'. Like-loop tasks value' (n + 1))
        ])

  Like-body :
      (tasks : List Task)
      → Like closer now monitor tame none job (body closer now monitor job tasks) (
          lift job.empty >>= λ value.
          fold_tasks job (in_key_order tasks) value 0 >>= λ r. pure (as_result r))
  unfolding body
  Like-body tasks =
      let ordered = in_key_order tasks in
      Like-bind closer now monitor tame none job _ _ _ _
        (Sim-lift closer now monitor tame none job.empty)
        λ value.
          let stopped : ExecResult V = as_result (value, 0, some cancelled) in
          let full : Exec (Resources H W) (ExecResult V) =
            fold_tasks job ordered value 0 >>= λ r. pure (as_result r) in
          Like-bind closer now monitor tame none job _ (pure false) _
            (λ stop. if stop then pure stopped else full) Like-is_cancelled_now
            (elim [
              | true ↦ Sim-pure closer now monitor tame none stopped
              | false ↦
                  Like-bind closer now monitor tame none job _ _ _ _
                    (Like-bind closer now monitor tame none job _ (pure tt) _
                      (λ _. fold_tasks job ordered value 0)
                      (Like-submit_all closer now monitor tame none job ordered)
                      (λ _. Like-loop ordered value 0))
                    (λ r. Sim-pure closer now monitor tame none (as_result r))
            ])

  Like-cleanup :
      Like closer now monitor tame none job (cleanup closer now monitor) (Resources.close closer)
  unfolding cleanup
  Like-cleanup =
      Sim-after closer now monitor tame none _ _ _
        (Sim-in_resources closer now monitor tame none (Resources.close closer))
        (λ u. record { at = λ w c. rw (reset-none w.control w c) (refl, refl, c) })

  Like-finally :
      (tasks : List Task)
      → Like closer now monitor tame none job
          (finally (body closer now monitor job tasks) (cleanup closer now monitor))
          (reference closer job tasks)
  unfolding reference
  Like-finally tasks =
      Sim-finally closer now monitor tame none _ _ _ _ (Like-body tasks) Like-cleanup

-- Without a control, and with no monitor or one whose hooks raise at most Exceptions, a run ends as
-- the reference fold on fresh resources does, with the same value, counts and exception, and leaves
-- the same resources and outside.
pub run_tasks-reference :
    {H W M V : Type 0} (closer : H → Option (Exec W (Unit {0}))) (now : ℕ → ℕ)
    (monitor : Option (Monitor M)) (job : Job (Resources H W) V) (tasks : List Task)
    (w : World H W M)
    → IsTame monitor
    → w.control ≡ none
    → let start = (fresh closer now monitor w).resources in
      ((run_tasks closer now monitor job tasks w).0 ≡ (reference closer job tasks start).0)
      × ((run_tasks closer now monitor job tasks w).1.resources
          ≡ (reference closer job tasks start).1)
unfolding run_tasks
run_tasks-reference closer now monitor job tasks w tame c =
    let (o, r, _) =
      (Like-finally closer now monitor tame job tasks).at (fresh closer now monitor w) c in
    (o, r)
