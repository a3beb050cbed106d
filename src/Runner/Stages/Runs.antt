-- ===== src/Runner/Stages/Runs.antt =====
-- A whole run of a staged plan, whatever calls reach its control.
use graphed.Prelude.{ℕ, ◌≡◌, refl, ap, ◌∙◌, Option, List, [], All, map, take, length}
use graphed.Prelude.Int.{pos}
use graphed.Outcome.{Outcome, returns, Exec, and_then}
use graphed.Resources.{Resources}
use graphed.Plan.{Task}
use graphed.Services.{Part}
use graphed.Checkpoint.Blobs.{Bytes}
use graphed.Checkpoint.Shuffle.{Stage}
use graphed.Checkpoint.Shuffle.Staged.{staged_or}
use graphed.Durable.{OpSpec}
use graphed.Durable.Plans.{DurablePlanV2}
use graphed.Runner.{observed_run}
use graphed.Runner.Tasks.{Monitor, World}
use graphed.Runner.Simulation.{IsTame}
use graphed.Runner.Cancelling.Release.{ClosesTamely}
use graphed.Runner.Cancelling.Reaching.{comes_to}
use graphed.Runner.Observed.{observed_run_lem}
use graphed.Runner.Stages.{index_error, StagedValue, run_stages}
use graphed.Runner.Stages.Counting.{tasks_by_reading}
use graphed.Runner.Stages.Chains.{and_then_assoc, after, lifted}
use graphed.Runner.Stages.Fold.{as_stage, Works, run_stages-staged}
use graphed.Runner.Stages.Whole.{require_stages_bound, refuse_budget, finalize_staged, run_staged}
use graphed.Runner.Stages.Expected.{run_end, run_end_lem}

module _ {H W M V F : Type 0} (closer : H → Option (Exec W (Unit {0}))) (now : ℕ → ℕ)
    (monitor : Option (Monitor M))
    (resolve : OpSpec → Outcome (Task → List Bytes → Exec (Resources H W) Bytes))
    (bindable : (Task → List Bytes → Exec (Resources H W) Bytes) → Option Part)
    (loads : Bytes → Outcome V)
    (resolve_finalize : OpSpec → Outcome (Option (StagedValue V) → Outcome F))
    (process_of : OpSpec → Task → List Bytes → Exec (Resources H W) Bytes)
    (g : Stage (Resources H W) → Task → List Bytes → Outcome Bytes) where
  bound :
      (rounds : ℕ) (plan : DurablePlanV2)
      → plan.services ≡ []
      → require_stages_bound resolve bindable rounds plan ≡ returns tt
  unfolding require_stages_bound
  bound rounds plan h = rw h refl

  -- A run of a staged plan that needs no service, under no failure budget, whatever calls reach its
  -- control, and with no monitor or one whose hooks raise at most Exceptions: the control's reads alone
  -- say how many stages it begins, and what stops it. It ends in the exception of the fold that computes
  -- those stages' payloads from the payloads of the stages that each reads; or, with every stage done,
  -- in what the last stage's payloads are decoded to - one value if it is a reduce, else one for each
  -- payload - and finalized to; after a cancel, with no value and nothing finalized; and it waits for
  -- ever where a wait does. It counts the tasks of the begun stages that read none, and those of the
  -- others. It is assumed that each stage's process resolves, that a task's work always ends alike, and
  -- that each handle's `close` ends in a value or an Exception.
  pub run_staged-expected :
      (rounds : ℕ) (plan : DurablePlanV2) (w : World H W M)
      → IsTame monitor
      → ClosesTamely closer
      → All (Works process_of resolve g) plan.stages
      → plan.services ≡ []
      → let (k, ending) = comes_to w.control (length plan.stages) in
        let begun = take k plan.stages in
        (run_staged closer now monitor resolve bindable loads resolve_finalize rounds plan
          (pos 0)
          w).0
        ≡ and_then
            (staged_or g index_error (map (as_stage process_of) begun) [])
            (λ all. run_end loads resolve_finalize plan ending all (tasks_by_reading begun))
  unfolding run_staged refuse_budget
  run_staged-expected rounds plan w tame closes works no_services =
      let (k, ending) = comes_to w.control (length plan.stages) in
      let begun = take k plan.stages in
      after _ (ap (λ o. (o, w)) (bound rounds plan no_services)) (
        lifted
          (observed_run closer now monitor 0 (run_stages closer now monitor resolve loads plan) w) _
          (finalize_staged resolve_finalize plan.finalize)
          (observed_run_lem closer now monitor 0 (run_stages closer now monitor resolve loads plan)
            _ w tame refl
            (λ w' at'.
              run_stages-staged closer now monitor resolve process_of g loads plan w.control w'
                closes at' works))
        ∙ and_then_assoc (staged_or g index_error (map (as_stage process_of) begun) []) _ _
        ∙ ap (and_then (staged_or g index_error (map (as_stage process_of) begun) [])) (λ i all.
          run_end_lem loads resolve_finalize plan ending all (tasks_by_reading begun) i))
