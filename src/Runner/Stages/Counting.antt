-- ===== src/Runner/Stages/Counting.antt =====
-- How many tasks a staged run has counted: those of the stages that read none, and the others.
use graphed.Prelude.{
  arith, ℕ, ◌+◌, Bool, true, false, ◌≡◌, ap, ◌∙◌, List, [], ◌∷◌, length, if◌then◌else◌, not,
}
use graphed.Plan.{Task}
use graphed.Durable.Plans.{StageSpec}
use graphed.Runner.Stages.{RanTasks, ran_one}

-- How many tasks the stages have whose inputs are `keep`.
abbrev pub reads_none : List ℕ → Bool
reads_none [] = true
reads_none (dep ∷ inputs) = false

abbrev pub tasks_of : (List ℕ → Bool) → List StageSpec → ℕ
tasks_of keep [] = 0
tasks_of keep (stage ∷ stages) =
    if keep stage.inputs then length stage.tasks + tasks_of keep stages else tasks_of keep stages

abbrev pub tasks_by_reading : List StageSpec → RanTasks
tasks_by_reading stages = record {
  sources = tasks_of reads_none stages;
  others = tasks_of (λ inputs. not (reads_none inputs)) stages;
}

abbrev pub ran_each : List ℕ → List Task → RanTasks → RanTasks
ran_each inputs [] ran = ran
ran_each inputs (task ∷ tasks) ran = ran_each inputs tasks (ran_one inputs ran)

abbrev pub ran_stages : List StageSpec → RanTasks → RanTasks
ran_stages [] ran = ran
ran_stages (stage ∷ stages) ran = ran_stages stages (ran_each stage.inputs stage.tasks ran)

ran_each-sources :
    (tasks : List Task) (ran : RanTasks)
    → ran_each [] tasks ran ≡ record ran { sources = ran.sources + length tasks }
ran_each-sources [] ran = ap (λ n. record ran { sources = n }) (omega arith)
ran_each-sources (task ∷ tasks) ran =
    ran_each-sources tasks (ran_one [] ran) ∙ ap (λ n. record ran { sources = n }) (omega arith)

ran_each-others :
    (dep : ℕ) (inputs : List ℕ) (tasks : List Task) (ran : RanTasks)
    → ran_each (dep ∷ inputs) tasks ran ≡ record ran { others = ran.others + length tasks }
ran_each-others dep inputs [] ran = ap (λ n. record ran { others = n }) (omega arith)
ran_each-others dep inputs (task ∷ tasks) ran =
    ran_each-others dep inputs tasks (ran_one (dep ∷ inputs) ran)
    ∙ ap (λ n. record ran { others = n }) (omega arith)

abbrev added : RanTasks → RanTasks → RanTasks
added a b = record { sources = a.sources + b.sources; others = a.others + b.others }

abbrev pub ran_of : ℕ → ℕ → RanTasks
ran_of a b = record { sources = a; others = b }

pub ran_path : {a b c d : ℕ} → a ≡ c → b ≡ d → ran_of a b ≡ ran_of c d
ran_path e e' = cc (e, e')

counted_by_reading :
    (inputs : List ℕ) (tasks : List Task) (ran rest : RanTasks)
    → added (ran_each inputs tasks ran) rest
      ≡ added ran (record {
        sources = if reads_none inputs then length tasks + rest.sources else rest.sources;
        others = if not (reads_none inputs) then length tasks + rest.others else rest.others;
      })
counted_by_reading [] tasks ran rest =
    ap (λ r. added r rest) (ran_each-sources tasks ran) ∙ ran_path (omega arith) (omega arith)
counted_by_reading (dep ∷ inputs) tasks ran rest =
    ap (λ r. added r rest) (ran_each-others dep inputs tasks ran)
    ∙ ran_path (omega arith) (omega arith)

pub ran_stages-tasks_by_reading :
    (stages : List StageSpec) (ran : RanTasks)
    → ran_stages stages ran ≡ added ran (tasks_by_reading stages)
ran_stages-tasks_by_reading [] ran = ran_path (omega arith) (omega arith)
ran_stages-tasks_by_reading (stage ∷ stages) ran =
    ran_stages-tasks_by_reading stages (ran_each stage.inputs stage.tasks ran)
    ∙ counted_by_reading stage.inputs stage.tasks ran (tasks_by_reading stages)
