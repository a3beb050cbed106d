-- ===== src/Tests/Pipelines.antt =====
-- A staged run with no store: two tasks write blocks, and a reduce adds what they wrote.
use graphed.Prelude.{take, ℕ, ◌+◌, ◌≡◌, refl, Option, none, some, List, [], ◌∷◌, All, map}
use graphed.Outcome.{Outcome, returns, Exec, and_then}
use graphed.Resources
use graphed.Resources.{Resources}
use graphed.Plan.{Task, ExecResult}
use graphed.Checkpoint.Blobs.{Bytes}
use graphed.Checkpoint.Shuffle.{Stage}
use graphed.Checkpoint.Shuffle.Staged.{staged_or}
use graphed.Document.{end}
use graphed.Durable.{OpSpec, Kind}
use graphed.Durable.Plans.{DurablePlanV2, StageSpec}
use graphed.Runner.Stages.{
  index_error, StagedValue, only, run_stages, run_stages_from, run_each, staged_result,
  last_payloads, read_upstream, staged_value, ends_in_reduce,
}
use graphed.Runner.Stages.Counting.{tasks_by_reading}
use graphed.Runner.Stages.Fold.{as_stage, Works}
use graphed.Runner.Stages.Whole.{run_staged}
use graphed.Runner.Stages.Expected.{run_end}
use graphed.Runner.Stages.Runs.{run_staged-expected}
use graphed.Runner.Cancelling.Reaching.{comes_to}
use graphed.Prelude.Int.{pos}
use graphed.Services.{Part}
use graphed.Runner.Tasks.{in_resources, wait_cancelled, cancelled_wait, cleanup}
use graphed.Tests.Runs.{closer, closer-ends, now, world, broken_monitor, first_half, second_half}

abbrev summing : OpSpec
summing = record { kind = Kind.ref; ref = "sums:add"; blob_b64 = "" }

abbrev total : List ℕ → ℕ
total [] = 0
total (n ∷ ns) = n + total ns

-- A task adds one to the sum of what it reads.
abbrev add_one : Task → List Bytes → Exec (Resources ℕ ℕ) Bytes
add_one task up r = (returns ((total (map total up) + 1) ∷ []), r)

abbrev stage_of : List ℕ → List Task → StageSpec
stage_of inputs tasks = record {
  kind = "reduce";
  inputs = inputs;
  process = summing;
  routing = end;
  tasks = tasks;
}

abbrev written_then_reduced : DurablePlanV2
written_then_reduced = record {
  ir = [];
  stages = stage_of [] (first_half ∷ second_half ∷ []) ∷ stage_of (0 ∷ []) (first_half ∷ []) ∷ [];
  services = [];
  finalize = none;
}

abbrev sum_of : Bytes → Outcome ℕ
sum_of p = returns (total p)

abbrev work_of : Stage (Resources ℕ ℕ) → Task → List Bytes → Outcome Bytes
work_of stage task up = returns ((total (map total up) + 1) ∷ [])

works : All (Works (λ op. add_one) (λ op. returns add_one) work_of) written_then_reduced.stages
works = ((refl, λ task up r. refl), ((refl, λ task up r. refl), tt))

abbrev reduced : ExecResult (Option (StagedValue ℕ))
reduced = record {
  value = some (only 3);
  n_partitions = 2;
  n_combines = 1;
  stopped = none;
  failed = [];
}

staged_run :
    (run_stages closer now none (λ op. returns add_one) sum_of written_then_reduced world).0
    ≡ returns reduced
unfolding run_stages run_stages_from run_each read_upstream staged_result last_payloads staged_value
    ends_in_reduce in_resources wait_cancelled cancelled_wait cleanup Resources.close
staged_run = refl

abbrev finalized_plan : DurablePlanV2
finalized_plan = record written_then_reduced { finalize = some summing }

-- The sum, doubled.
abbrev double : OpSpec → Outcome (Option (StagedValue ℕ) → Outcome ℕ)
double op = returns (λ o. elim o [ some (only n) ↦ returns (n + n) | _ ↦ returns 0 ])

abbrev not_bindable : (Task → List Bytes → Exec (Resources ℕ ℕ) Bytes) → Option Part
not_bindable process = none

run_staged-expected_example :
    let (k, ending) = comes_to world.control 2 in
    let begun = take k finalized_plan.stages in
    (run_staged closer now
      (some broken_monitor)
      (λ op. returns add_one)
      not_bindable
      sum_of
      double
      1
      finalized_plan
      (pos 0)
      world).0
    ≡ and_then
        (staged_or work_of index_error
          (map (as_stage {S = Resources ℕ ℕ} (λ op. add_one)) begun)
          [])
        (λ all. run_end sum_of double finalized_plan ending all (tasks_by_reading begun))
run_staged-expected_example =
    run_staged-expected closer now (some broken_monitor) (λ op. returns add_one) not_bindable sum_of
      double (λ op. add_one) work_of 1 finalized_plan world
      ((λ e m. refl), (λ n m. refl), (λ m. refl)) closer-ends works refl
