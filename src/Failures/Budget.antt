-- ===== src/Failures/Budget.antt =====
-- `skipping`, `without_lost` and `finalize_result`: the failure budget of a run.
pub mod Rerun
use graphed.Prelude.{
  ℕ, zero, suc, ◌-◌, String, Bool, true, false, not, Option, none, some, List, [], ◌∷◌, map, ltb,
  ◌==◌, if◌then◌else◌, length,
}
use graphed.Prelude.Int.{ℤ, pos, negsuc, is_negative, is_nonzero, show_int}
use graphed.Prelude.Text.{concat, str_eq}
use graphed.Outcome.{
  FailedChunk, Exn, exception, interrupt, too_many_failed, unbound_services, value_error, Outcome,
  returns, raises, and_then,
}
use graphed.Partition.{Partition}
use graphed.Plan.{Task, StopCondition, no_condition, Settings, Plan, ExecResult}
use graphed.Failures.Labels.{chunk_key, failed_chunk}
use graphed.Failures.Partials.{Partial, SkipProcess, SkipCombine, lost_record, by_label}

-- A plan whose process is a `_SkipProcess`; `empty` is what its `functools.partial` wraps.
pub record SkipPlan (S R : Type 0) : Type 0 where
  pub process : SkipProcess S R
  pub combine : SkipCombine R
  pub empty : Outcome R
  pub settings : Settings R

pub data AnyPlan (S R : Type 0) : Type 0 where
  plain : Plan S R → AnyPlan S R
  skip : SkipPlan S R → AnyPlan S R

abbrev pub settings_of : {S R : Type 0} → AnyPlan S R → Settings R
settings_of (plain p) = p.settings
settings_of (skip p) = p.settings

abbrev stop_errors : Option StopCondition → Option ℤ
stop_errors none = none
stop_errors (some stop) = stop.max_errors

-- `skip_failed or (plan.stop.max_errors if plan.stop else None)`
abbrev budget_of : ℤ → Option StopCondition → Option ℤ
budget_of skip_failed stop = if is_nonzero skip_failed then some skip_failed else stop_errors stop

abbrev or_default : Option StopCondition → StopCondition
or_default none = no_condition
or_default (some stop) = stop

-- `replace(plan.stop or StopCondition(), max_errors=budget)`
abbrev pub with_budget : {R : Type 0} → Settings R → ℕ → Settings R
with_budget s budget = record s {
  stop = some (record (or_default s.stop) { max_errors = some (pos budget) });
}

-- The `replace(plan, …)` of `skipping`.
unfoldable pub wrap : {S R : Type 0} → Plan S R → ℕ → SkipPlan S R
wrap p budget = record {
  process = record { process = p.process; empty = p.empty; lost = [] };
  combine = record { combine = p.combine; budget = budget };
  empty = p.empty;
  settings = with_budget p.settings budget;
}

-- From the budget on; a plan that skips already stays as it is.
within_budget : {S R : Type 0} → AnyPlan S R → Option ℤ → Outcome (AnyPlan S R)
unfolding wrap
within_budget plan none = returns plan
within_budget plan (some (negsuc n)) =
    raises
      (value_error (concat ("a failed-chunk budget must be >= 0, got " ∷ show_int (negsuc n) ∷ [])))
within_budget plan (some (pos zero)) = returns plan
within_budget (skip p) (some (pos (suc n))) = returns (skip p)
within_budget (plain p) (some (pos (suc n))) = returns (skip (wrap p (suc n)))

-- `skipping` of a `Plan`
unfoldable pub skipping : {S R : Type 0} → AnyPlan S R → ℤ → Outcome (AnyPlan S R)
unfolding within_budget
skipping plan skip_failed = within_budget plan (budget_of skip_failed (settings_of plan).stop)

-- `getattr(err, "partition", "")`
abbrev pub partition_of : Exn → String
partition_of (exception x) = x.partition
partition_of (interrupt x) = x.partition
partition_of _ = ""

-- `{chunk_label(t.partition): t.partition for t in plan.tasks}[label]`: of equal labels the last
unfoldable pub labelled : String → List Task → Option Partition
labelled label [] = none
labelled label (t ∷ tasks) = elim (labelled label tasks) [
  | some p ↦ some p
  | none ↦ if str_eq (chunk_key t.partition) label then some t.partition else none
]

-- `{**lost, label: failed}`
unfoldable pub with_lost :
    String → FailedChunk → List (String × FailedChunk) → List (String × FailedChunk)
with_lost label failed [] = (label, failed) ∷ []
with_lost label failed ((l, f) ∷ rest) =
    if str_eq l label then (label, failed) ∷ rest else (l, f) ∷ with_lost label failed rest

-- `label in process.lost`
abbrev pub is_lost : String → List (String × FailedChunk) → Bool
is_lost label lost = elim (lost_record label lost) [ none ↦ false | some _ ↦ true ]

rerun_without :
    {S R : Type 0} → SkipPlan S R → String → Exn → Option Partition → Outcome (SkipPlan S R)
unfolding with_lost
rerun_without plan label err none = raises err
rerun_without plan label err (some p) =
    let budget =
      if is_lost label plan.process.lost then plan.combine.budget - 1 else plan.combine.budget in
    let lost = with_lost label (failed_chunk label p err) plan.process.lost in
    if ltb budget (length lost)
    then raises (too_many_failed (by_label (map (λ e. e.1) lost)))
    else returns (record plan {
      process = record (plan.process) { lost = lost };
      combine = record (plan.combine) { budget = budget };
      settings = with_budget plan.settings budget;
    })

abbrev is_adaptive : {A : Type 0} → Option A → Bool
is_adaptive none = false
is_adaptive (some _) = true

-- `without_lost`: only a skipping plan with a fixed set of tasks can run again
unfoldable pub without_lost : {S R : Type 0} → AnyPlan S R → Exn → Outcome (SkipPlan S R)
unfolding rerun_without labelled
without_lost (plain p) err = raises err
without_lost (skip p) err =
    let label = partition_of err in
    if is_adaptive p.settings.next_tasks
    then raises err
    else rerun_without p label err (labelled label p.settings.tasks)

-- `plan.finalize`, where there is one
finalized : {R : Type 0} → Option (R → Outcome R) → ExecResult R → Outcome (ExecResult R)
finalized none result = returns result
finalized (some fn) result = and_then (fn result.value) (λ v. returns (record result { value = v }))

-- `finalize_result` of a plan that does not skip, and of one that does: the failed chunks go from
-- the value to `failed`. (It also warns that they are missing.)
unfoldable pub finalize_plain : {R : Type 0} → Settings R → ExecResult R → Outcome (ExecResult R)
unfolding finalized
finalize_plain s result = finalized s.finalize result

unfoldable pub finalize_skip :
    {R : Type 0} → Settings R → ExecResult (Partial R) → Outcome (ExecResult R)
unfolding finalized
finalize_skip s result = finalized s.finalize (record {
  value = result.value.value;
  n_partitions = result.n_partitions;
  n_combines = result.n_combines;
  stopped = result.stopped;
  failed = by_label result.value.failed;
})
