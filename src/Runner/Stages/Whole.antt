-- ===== src/Runner/Stages/Whole.antt =====
-- `SequentialRunner.run` of a `DurablePlanV2`, with the staged branches of `require_bound`, `skipping`,
-- `observed_run` and `finalize_result` in core/execution.py. Whether a process is `Bindable` is a
-- parameter, as is what the plan's `finalize` resolves to.
use graphed.Prelude.{ℕ, Bool, true, false, Option, none, some, List, [], ◌∷◌, if◌then◌else◌}
use graphed.Prelude.Int.{ℤ, is_nonzero}
use graphed.Outcome.{
  type_error, Outcome, returns, raises, Exec, lift, and_then, pure, except, ◌>>=◌,
}
use graphed.Resources.{Resources}
use graphed.Plan.{Task, StopReason, cancelled, ExecResult}
use graphed.Services.{Part, require_parts}
use graphed.Services.Specs.{ServiceSpec}
use graphed.Checkpoint.Blobs.{Bytes}
use graphed.Durable.{OpSpec}
use graphed.Durable.Plans.{StageSpec, DurablePlanV2}
use graphed.Runner.{observed_run}
use graphed.Runner.Tasks.{Monitor, Run}
use graphed.Runner.Stages.{StagedValue, run_stages}

-- The value of a finished run: what `_run_stages` answered, or what `finalize` made of it.
pub data FinalValue (V F : Type 0) : Type 0 where
  as_it_is : Option (StagedValue V) → FinalValue V F
  finalized : F → FinalValue V F

abbrev has_services : List ServiceSpec → Bool
has_services [] = false
has_services (s ∷ services) = true

abbrev was_cancelled : Option StopReason → Bool
was_cancelled (some cancelled) = true
was_cancelled _ = false

-- The staged branch of `skipping`
unfoldable pub refuse_budget : ℤ → Outcome (Unit {0})
refuse_budget skip_failed =
    if is_nonzero skip_failed
    then raises (type_error "skip_failed needs a Plan; a DurablePlanV2 has no chunk to leave out")
    else returns tt

module _ {P : Type 0} (resolve : OpSpec → Outcome P) (bindable : P → Option Part) where
  -- `_stage_processes(plan)`, of them the `Bindable` ones
  unfoldable pub stage_parts : List StageSpec → Outcome (List Part)
  stage_parts [] = returns []
  stage_parts (stage ∷ stages) = and_then (resolve stage.process) λ process.
      and_then (stage_parts stages)
        λ parts. returns (elim (bindable process) [ none ↦ parts | some part ↦ part ∷ parts ])

  -- `require_bound` of a `DurablePlanV2`
  unfoldable pub require_stages_bound : ℕ → DurablePlanV2 → Outcome (Unit {0})
  unfolding stage_parts
  require_stages_bound rounds plan =
      if has_services plan.services
      then and_then (stage_parts plan.stages) (λ parts. require_parts rounds parts [])
      else returns tt

module _ {V F : Type 0} (resolve : OpSpec → Outcome (Option (StagedValue V) → Outcome F)) where
  abbrev with_value : {A : Type 0} → ExecResult A → FinalValue V F → ExecResult (FinalValue V F)
  with_value r v = record {
    value = v;
    n_partitions = r.n_partitions;
    n_combines = r.n_combines;
    stopped = r.stopped;
    failed = r.failed;
  }

  -- `finalize_result` of a `DurablePlanV2`
  unfoldable pub finalize_staged :
      Option OpSpec → ExecResult (Option (StagedValue V)) → Outcome (ExecResult (FinalValue V F))
  finalize_staged none r = returns (with_value r (as_it_is r.value))
  finalize_staged (some spec) r =
      if was_cancelled r.stopped
      then returns (with_value r (as_it_is r.value))
      else and_then (resolve spec)
          λ fn. and_then (fn r.value) (λ v. returns (with_value r (finalized v)))

module _ {H W M V F : Type 0} (closer : H → Option (Exec W (Unit {0}))) (now : ℕ → ℕ)
    (monitor : Option (Monitor M))
    (resolve : OpSpec → Outcome (Task → List Bytes → Exec (Resources H W) Bytes))
    (bindable : (Task → List Bytes → Exec (Resources H W) Bytes) → Option Part)
    (loads : Bytes → Outcome V)
    (resolve_finalize : OpSpec → Outcome (Option (StagedValue V) → Outcome F)) where
  -- `SequentialRunner.run(plan, skip_failed=…)` of a `DurablePlanV2`
  unfoldable pub run_staged :
      ℕ → DurablePlanV2 → ℤ → Run closer now monitor (ExecResult (FinalValue V F))
  unfolding require_stages_bound refuse_budget finalize_staged
  run_staged rounds plan skip_failed =
      lift (require_stages_bound resolve bindable rounds plan) >>= λ _.
      lift (refuse_budget skip_failed) >>= λ _.
      observed_run closer now monitor 0 (run_stages closer now monitor resolve loads plan) >>= λ r.
      lift (finalize_staged resolve_finalize plan.finalize r)

  -- `SequentialRunner.submit` of a `DurablePlanV2`
  unfoldable pub submit_staged :
      ℕ → DurablePlanV2 → Run closer now monitor (Outcome (ExecResult (FinalValue V F)))
  submit_staged rounds plan =
      except (run_staged rounds plan (ℤ.pos 0) >>= λ r. pure (returns r)) (λ exc. pure (raises exc))
