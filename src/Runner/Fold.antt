-- ===== src/Runner/Fold.antt =====
-- The fold that a run is measured against.
use graphed.Prelude.{ℕ, ◌+◌, Option, none, List, [], ◌∷◌}
use graphed.Outcome.{Exec, pure, lift, finally, ◌>>=◌}
use graphed.Resources
use graphed.Resources.{Resources}
use graphed.Plan.{Task, StopReason, ExecResult}
use graphed.Runner.Tasks.{Job, in_key_order, as_result}

-- `combine(value, process(task))`
unfoldable pub fold_step : {S V : Type 0} → Job S V → Task → V → Exec S V
fold_step job task value =
    job.process task.partition >>= λ partial. lift (job.combine value partial)

-- The fold over the tasks in turn, with how many were done and no
-- reason to stop: no monitor, no control.
unfoldable pub fold_tasks :
    {S V : Type 0} → Job S V → List Task → V → ℕ → Exec S (V × ℕ × Option StopReason)
unfolding fold_step
fold_tasks job [] value n = pure (value, n, none)
fold_tasks job (task ∷ tasks) value n = do
  value' ← fold_step job task value
  fold_tasks job tasks value' (n + 1)

-- The result of a full run: the fold from `empty` over the tasks in key order, and the handles that
-- are still open closed at the end.
unfoldable pub reference :
    {H W V : Type 0}
    → (H → Option (Exec W (Unit {0})))
    → Job (Resources H W) V
    → List Task
    → Exec (Resources H W) (ExecResult V)
unfolding fold_tasks
reference closer job tasks =
    finally
      (lift job.empty >>= λ value.
        fold_tasks job (in_key_order tasks) value 0 >>= λ r. pure (as_result r))
      (Resources.close closer)
