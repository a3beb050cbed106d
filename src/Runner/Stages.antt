-- ===== src/Runner/Stages.antt =====
-- `_run_stages` of `SequentialRunner` in core/execution.py: a staged plan in this process, with no
-- store. What a stage's process resolves to, and how a payload is unpickled, are parameters.
pub mod Counting
pub mod Chains
pub mod Fold
pub mod Whole
pub mod Expected
pub mod Runs
use graphed.Prelude.{
  ℕ, zero, suc, ◌+◌, String, Bool, true, false, Option, none, some, List, [], ◌∷◌, ◌++◌,
  if◌then◌else◌,
}
use graphed.Prelude.Text.{str_eq}
use graphed.Outcome.{
  Exn, exception, plain, value_error, Outcome, returns, raises, Exec, pure, lift, and_then, finally,
  ◌>>=◌,
}
use graphed.Resources.{Resources}
use graphed.Plan.{Task, cancelled, ExecResult}
use graphed.Checkpoint.Blobs.{Bytes}
use graphed.Durable.{OpSpec}
use graphed.Durable.Plans.{StageSpec, DurablePlanV2}
use graphed.Runner.Tasks.{Monitor, World, Run, in_resources, wait_cancelled, cleanup, fresh}

-- What a list answers out of its range.
abbrev pub index_error : Exn
index_error = exception (plain "IndexError" "list index out of range")

-- `payloads[dep]`
unfoldable pub payloads_of : List (List Bytes) → ℕ → Outcome (List Bytes)
payloads_of [] dep = raises index_error
payloads_of (p ∷ rest) zero = returns p
payloads_of (p ∷ rest) (suc dep) = payloads_of rest dep

-- `tuple(p for dep in stage.inputs for p in payloads[dep])`
unfoldable pub read_upstream : List (List Bytes) → List ℕ → Outcome (List Bytes)
unfolding payloads_of
read_upstream payloads [] = returns []
read_upstream payloads (dep ∷ inputs) =
    and_then (payloads_of payloads dep)
      λ p. and_then (read_upstream payloads inputs) λ rest. returns (p ++ rest)

-- `payloads[-1]`
unfoldable pub last_payloads : List (List Bytes) → Outcome (List Bytes)
last_payloads [] = raises index_error
last_payloads (p ∷ []) = returns p
last_payloads (p ∷ (q ∷ rest)) = last_payloads (q ∷ rest)

-- A run's value: that of the one payload of a reduce, or one for each payload.
pub data StagedValue (V : Type 0) : Type 0 where
  only : V → StagedValue V
  each : List V → StagedValue V

-- `self.stages and self.stages[-1].kind == "reduce"`
unfoldable pub ends_in_reduce : List StageSpec → Bool
ends_in_reduce [] = false
ends_in_reduce (stage ∷ []) = str_eq stage.kind "reduce"
ends_in_reduce (stage ∷ (next ∷ stages)) = ends_in_reduce (next ∷ stages)

module _ {V : Type 0} (loads : Bytes → Outcome V) where
  abbrev pub decoded : List Bytes → Outcome (List V)
  decoded [] = returns []
  decoded (p ∷ payloads) =
      and_then (loads p) (λ v. and_then (decoded payloads) (λ vs. returns (v ∷ vs)))

  -- `(only,) = decoded`
  abbrev pub unpacked : List V → Outcome (StagedValue V)
  unpacked [] = raises (value_error "not enough values to unpack (expected 1, got 0)")
  unpacked (v ∷ []) = returns (only v)
  unpacked (v ∷ (v' ∷ vs)) = raises (value_error "too many values to unpack (expected 1)")

  -- `DurablePlanV2.value`
  unfoldable pub staged_value : DurablePlanV2 → List Bytes → Outcome (StagedValue V)
  unfolding ends_in_reduce
  staged_value plan payloads =
      and_then (decoded payloads)
        λ vs. if ends_in_reduce plan.stages then unpacked vs else returns (each vs)

-- `ran`: how many tasks ran of stages with no inputs, and of the others
pub record RanTasks : Type 0 where
  pub sources : ℕ
  pub others : ℕ

-- `ran[bool(stage.inputs)] += 1`
abbrev pub ran_one : List ℕ → RanTasks → RanTasks
ran_one [] ran = record ran { sources = ran.sources + 1 }
ran_one (dep ∷ inputs) ran = record ran { others = ran.others + 1 }

module _ {V : Type 0} (loads : Bytes → Outcome V) where
  -- The `ExecResult` of the loop; a cancelled run has the value `None`.
  unfoldable pub staged_result :
      DurablePlanV2
      → Option (List (List Bytes)) × RanTasks
      → Outcome (ExecResult (Option (StagedValue V)))
  unfolding last_payloads staged_value
  staged_result plan (none, ran) = returns (record {
    value = none;
    n_partitions = ran.sources;
    n_combines = ran.others;
    stopped = some cancelled;
    failed = [];
  })
  staged_result plan (some payloads, ran) = and_then (last_payloads payloads) λ last.
      and_then (staged_value loads plan last) λ v. returns (record {
        value = some v;
        n_partitions = ran.sources;
        n_combines = ran.others;
        stopped = none;
        failed = [];
      })

module _ {H W M : Type 0} (closer : H → Option (Exec W (Unit {0}))) (now : ℕ → ℕ)
    (monitor : Option (Monitor M)) where
  -- The `for task in stage.tasks` loop, with `out` and `ran`.
  unfoldable pub run_each :
      (Task → List Bytes → Exec (Resources H W) Bytes)
      → List ℕ
      → List Bytes
      → List Task
      → List Bytes
      → RanTasks
      → Run closer now monitor (List Bytes × RanTasks)
  run_each process inputs up [] out ran = pure (out, ran)
  run_each process inputs up (task ∷ tasks) out ran =
      in_resources closer now monitor (process task up) >>= λ p.
      run_each process inputs up tasks (out ++ p ∷ []) (ran_one inputs ran)

  module _ (resolve : OpSpec → Outcome (Task → List Bytes → Exec (Resources H W) Bytes)) where
    -- The `for stage in plan.stages` loop; no payloads when a cancel ended it.
    unfoldable pub run_stages_from :
        List StageSpec
        → List (List Bytes)
        → RanTasks
        → Run closer now monitor (Option (List (List Bytes)) × RanTasks)
    unfolding run_each read_upstream
    run_stages_from [] payloads ran = pure (some payloads, ran)
    run_stages_from (stage ∷ stages) payloads ran = do
      stop ← wait_cancelled closer now monitor
      let rest = lift (resolve stage.process) >>= λ process.
          lift (read_upstream payloads stage.inputs) >>= λ up.
          run_each process stage.inputs up stage.tasks [] ran >>= λ r.
          run_stages_from stages (payloads ++ r.0 ∷ []) r.1
      if stop then pure (none, ran) else rest

    module _ {V : Type 0} (loads : Bytes → Outcome V) where
      -- `SequentialRunner._run_stages`
      unfoldable pub run_stages :
          DurablePlanV2 → Run closer now monitor (ExecResult (Option (StagedValue V)))
      unfolding run_stages_from staged_result
      run_stages plan w =
          finally
            (run_stages_from plan.stages [] (record { sources = 0; others = 0 }) >>= λ r.
              lift (staged_result loads plan r))
            (cleanup closer now monitor) (fresh closer now monitor w)
