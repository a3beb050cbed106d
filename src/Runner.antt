-- ===== src/Runner.antt =====
-- `SequentialRunner` of core/execution.py, for a `Plan`: `run` and `submit`. `_run_tasks` is in
-- `Tasks`; staged plans are in `Stages`. A world holds the run's resources, the monitor's
-- state and the control.
pub mod Tasks
pub mod Simulation
pub mod Fold
pub mod Steps
pub mod Reference
pub mod Cancelling
pub mod Order
pub mod Skipping
pub mod Stages
pub mod Observed
use graphed.Prelude.{ℕ, Bool, Option, none, some, List, [], ◌∷◌, length}
use graphed.Prelude.Int.{ℤ}
use graphed.Outcome.{Exn, Outcome, returns, raises, Exec, pure, lift, except, finally, ◌>>=◌, ◌>>◌}
use graphed.Resources.{Resources}
use graphed.Plan.{Settings, Plan, ExecResult}
use graphed.Services.{require_bound}
use graphed.Failures.Partials.{Partial, skip_call, skip_merge, empty_partial, skipped_error}
use graphed.Failures.Budget.{
  AnyPlan, plain, skip, SkipPlan, settings_of, skipping, finalize_plain, finalize_skip,
}
use graphed.Runner.Tasks.{Monitor, Job, World, Run, notify, run_tasks}

module _ {S R : Type 0} where
  -- What the runner calls of a plan that does not skip …
  abbrev pub plain_job : Plan S R → Job S R
  plain_job p = record {
    process = p.process;
    combine = p.combine;
    empty = p.empty;
    skipped = λ _. none;
  }

  -- … and of one that does.
  abbrev pub skip_job : SkipPlan S R → Job S (Partial R)
  skip_job p = record {
    process = skip_call p.process;
    combine = skip_merge p.combine;
    empty = empty_partial p.empty;
    skipped = skipped_error;
  }

module _ {H W M : Type 0} (closer : H → Option (Exec W (Unit {0}))) (now : ℕ → ℕ)
    (monitor : Option (Monitor M)) where
  start_hook : Option (Monitor M) → ℕ → Run closer now monitor (Unit {0})
  start_hook none n w = (returns tt, w)
  start_hook (some m) n w = notify closer now monitor (m.on_run_start n) w

  end_hook : Option (Monitor M) → Run closer now monitor (Unit {0})
  end_hook none w = (returns tt, w)
  end_hook (some m) w = notify closer now monitor m.on_run_end w

  -- `with observed_run(monitor, plan): …`
  unfoldable pub observed_run :
      {A : Type 0} → ℕ → Run closer now monitor A → Run closer now monitor A
  unfolding start_hook end_hook
  observed_run n_tasks block = start_hook monitor n_tasks >> finally block (end_hook monitor)

  module _ {R : Type 0} where
    unfoldable pub run_plan : AnyPlan (Resources H W) R → Run closer now monitor (ExecResult R)
    run_plan (plain p) =
        observed_run (length p.settings.tasks)
          (run_tasks closer now monitor (plain_job p) p.settings.tasks)
        >>= λ r. lift (finalize_plain p.settings r)
    run_plan (skip p) =
        observed_run (length p.settings.tasks)
          (run_tasks closer now monitor (skip_job p) p.settings.tasks)
        >>= λ r. lift (finalize_skip p.settings r)

    -- `SequentialRunner.run(plan, skip_failed=…)`; `rounds` bounds the passes of `require_bound`
    unfoldable pub run : ℕ → AnyPlan (Resources H W) R → ℤ → Run closer now monitor (ExecResult R)
    unfolding run_plan
    run rounds plan skip_failed = do
      lift (require_bound rounds (settings_of plan))
      plan' ← lift (skipping plan skip_failed)
      run_plan plan'

    -- `SequentialRunner.submit`: the finished future holds the result or the Exception
    unfoldable pub submit :
        ℕ → AnyPlan (Resources H W) R → Run closer now monitor (Outcome (ExecResult R))
    submit rounds plan =
        except (run rounds plan (ℤ.pos 0) >>= λ r. pure (returns r)) (λ exc. pure (raises exc))
