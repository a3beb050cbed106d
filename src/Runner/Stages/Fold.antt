-- ===== src/Runner/Stages/Fold.antt =====
-- A staged run of the sequential runner and the staged fold.
use graphed.Prelude.{
  zero, suc, take, length, arith, ℕ, false, ◌≡◌, refl, sym, ap, ◌∙◌, Option, none, some, List, [],
  ◌∷◌, ◌++◌, All, map,
}
use graphed.Control.{Control, RunState, running, paused, cancelled, is_cancelled, wait}
use graphed.Runner.Cancelling.Reaching.{
  Ending, finished, cut, blocked, met, comes, comes_to, wait-raises_not,
}
use graphed.Outcome.{hangs, raises, continue, lift, ◌>>=◌, Outcome, returns, Exec, and_then}
use graphed.Resources.{Resources}
use graphed.Plan.{Task}
use graphed.Checkpoint.Blobs.{Bytes}
use graphed.Checkpoint.Shuffle.{Stage}
use graphed.Checkpoint.Shuffle.Staged.{inputs_or, payloads_or, staged_tasks, staged_or}
use graphed.Durable.{OpSpec}
use graphed.Durable.Plans.{StageSpec, DurablePlanV2}
use graphed.Runner.Tasks.{Monitor, World, in_resources, wait_cancelled, cancelled_wait, cleanup}
use graphed.Runner.Cancelling.Release.{ClosesTamely, cleanup-Released}
use graphed.Runner.Stages.{
  payloads_of, read_upstream, index_error, RanTasks, run_each, run_stages_from, staged_result,
  run_stages,
}
use graphed.Runner.Stages.Counting.{
  tasks_by_reading, ran_each, ran_stages, ran_of, ran_path, ran_stages-tasks_by_reading,
}
use graphed.Runner.Stages.Chains.{
  and_then_assoc, and_then_returns, after, after_hangs, lift_lem, chained, continue-control, lifted,
  finish_lem,
}

-- What the loop answers, by what ended it.
abbrev pub stages_end :
    Ending → List (List Bytes) → RanTasks → Outcome (Option (List (List Bytes)) × RanTasks)
stages_end finished all ran = returns (some all, ran)
stages_end cut all ran = returns (none, ran)
stages_end blocked all ran = hangs

module _ {S : Type 0} (process_of : OpSpec → Task → List Bytes → Exec S Bytes) where
  -- A stage with its process resolved.
  abbrev pub as_stage : StageSpec → Stage S
  as_stage stage = record {
    kind = stage.kind;
    inputs = stage.inputs;
    process = process_of stage.process;
    tasks = stage.tasks;
  }

  module _ (resolve : OpSpec → Outcome (Task → List Bytes → Exec S Bytes))
      (g : Stage S → Task → List Bytes → Outcome Bytes) where
    -- A stage's process resolves, and a task's work in it always ends alike.
    abbrev pub Works : StageSpec → Type 0
    Works stage =
        (resolve stage.process ≡ returns (process_of stage.process))
        × ((task : Task) (up : List Bytes) (r : S)
            → (process_of stage.process task up r).0 ≡ g (as_stage stage) task up)

module _ {H W M : Type 0} (closer : H → Option (Exec W (Unit {0}))) (now : ℕ → ℕ)
    (monitor : Option (Monitor M))
    (resolve : OpSpec → Outcome (Task → List Bytes → Exec (Resources H W) Bytes))
    (process_of : OpSpec → Task → List Bytes → Exec (Resources H W) Bytes)
    (g : Stage (Resources H W) → Task → List Bytes → Outcome Bytes) where
  run_each-control :
      {o : Option Control} (process : Task → List Bytes → Exec (Resources H W) Bytes)
      (inputs : List ℕ) (up : List Bytes) (tasks : List Task) (out : List Bytes) (ran : RanTasks)
      (w : World H W M)
      → w.control ≡ o
      → (run_each closer now monitor process inputs up tasks out ran w).1.control ≡ o
  unfolding run_each in_resources
  run_each-control process inputs up [] out ran w at = at
  run_each-control process inputs up (task ∷ tasks) out ran w at =
      continue-control (in_resources closer now monitor (process task up) w) _ at
        (λ p w' at'. run_each-control process inputs up tasks (out ++ p ∷ []) _ w' at')

  run_each-staged_tasks :
      {o : Option Control} (stage : StageSpec) (up : List Bytes) (tasks : List Task)
      (out : List Bytes) (ran : RanTasks) (w : World H W M)
      → w.control ≡ o
      → ((task : Task) (up : List Bytes) (r : Resources H W)
          → (process_of stage.process task up r).0 ≡ g (as_stage process_of stage) task up)
      → (run_each closer now monitor (process_of stage.process) stage.inputs up tasks out ran w).0
        ≡ and_then
            (staged_tasks g (as_stage process_of stage) up tasks out)
            (λ all. returns (all, ran_each stage.inputs tasks ran))
  unfolding run_each in_resources
  run_each-staged_tasks stage up [] out ran w at ends = refl
  run_each-staged_tasks stage up (task ∷ tasks) out ran w at ends =
      chained (in_resources closer now monitor (process_of stage.process task up) w)
        (g (as_stage process_of stage) task up) (λ p. p) _ _
        (ends task up w.resources ∙ and_then_returns (g (as_stage process_of stage) task up)) at
        (λ p w' at'. run_each-staged_tasks stage up tasks (out ++ p ∷ []) _ w' at' ends)
      ∙ sym (and_then_assoc (g (as_stage process_of stage) task up) _ _)

  quiet :
      (w : World H W M)
      → w.control ≡ none
      → wait_cancelled closer now monitor w ≡ (returns false, w)
  unfolding wait_cancelled cancelled_wait
  quiet w at = ap (λ o. cancelled_wait closer now monitor o w) at

  asked :
      (w : World H W M) (c c' : Control) (state : Outcome RunState)
      → w.control ≡ some c
      → wait c ≡ (state, c')
      → wait_cancelled closer now monitor w
        ≡ (and_then state (λ st. returns (is_cancelled st)), record w { control = some c' })
  unfolding wait_cancelled cancelled_wait
  asked w c c' state at e =
      ap (λ o. cancelled_wait closer now monitor o w) at
      ∙ ap
          (λ (y : Outcome RunState × Control).
            (and_then y.0 (λ st. returns (is_cancelled st)), record w { control = some y.1 }))
          e

  read_upstream-inputs_or :
      (payloads : List (List Bytes)) (inputs : List ℕ)
      → read_upstream payloads inputs ≡ inputs_or index_error payloads inputs
  unfolding read_upstream
  read_upstream-inputs_or payloads [] = refl
  read_upstream-inputs_or payloads (dep ∷ inputs) =
      ap
        (λ o.
          and_then o (λ p. and_then (read_upstream payloads inputs) (λ rest. returns (p ++ rest))))
        (found payloads dep)
      ∙ ap
          (λ o.
            and_then (payloads_or index_error payloads dep)
              (λ p. and_then o (λ rest. returns (p ++ rest))))
          (read_upstream-inputs_or payloads inputs)
    where
      found :
          (payloads : List (List Bytes)) (dep : ℕ)
          → payloads_of payloads dep ≡ payloads_or index_error payloads dep
      found [] dep = refl
      found (p ∷ rest) zero = refl
      found (p ∷ rest) (suc dep) = found rest dep

  abbrev fold_to :
      ℕ × Ending
      → List StageSpec
      → List (List Bytes)
      → RanTasks
      → Outcome (Option (List (List Bytes)) × RanTasks)
  fold_to (k, ending) stages payloads ran =
      and_then (staged_or g index_error (map (as_stage process_of) (take k stages)) payloads)
        (λ all. stages_end ending all (ran_stages (take k stages) ran))

  abbrev Looping : List StageSpec → Option Control → Type 0
  Looping stages o =
      (payloads : List (List Bytes)) (ran : RanTasks) (w : World H W M)
      → w.control ≡ o
      → (run_stages_from closer now monitor resolve stages payloads ran w).0
        ≡ fold_to (comes_to o (length stages)) stages payloads ran

  -- A stage is run, and the stages after it.
  goes_on :
      (stage : StageSpec) (stages : List StageSpec) (o : Option Control)
      (payloads : List (List Bytes)) (ran : RanTasks) (w : World H W M)
      → w.control ≡ o
      → Works process_of resolve g stage
      → Looping stages o
      → let (k, ending) = comes_to o (length stages) in
        ((lift (resolve stage.process) >>= λ process.
        lift (read_upstream payloads stage.inputs) >>= λ up.
        run_each closer now monitor process stage.inputs up stage.tasks [] ran >>= λ r.
        run_stages_from closer now monitor resolve stages (payloads ++ r.0 ∷ []) r.1)
          w).0
        ≡ fold_to (suc k, ending) (stage ∷ stages) payloads ran
  goes_on stage stages o payloads ran w at works ih =
      after _ (ap (λ y. (y, w)) works.0) (
        after_same _ (read_upstream-inputs_or payloads stage.inputs) (
          lift_lem (inputs_or index_error payloads stage.inputs) w _ _ (λ up.
            chained
              (run_each closer now monitor (process_of stage.process) stage.inputs up stage.tasks []
                ran w)
              (staged_tasks g (as_stage process_of stage) up stage.tasks [])
              (λ this. (this, ran_each stage.inputs stage.tasks ran)) _ _
              (run_each-staged_tasks stage up stage.tasks [] ran w at works.1)
              (run_each-control (process_of stage.process) stage.inputs up stage.tasks [] ran w at)
              (λ this w' at'. ih (payloads ++ this ∷ []) _ w' at')
            ∙ sym (
                and_then_assoc (staged_tasks g (as_stage process_of stage) up stage.tasks []) _
                  _))))
      ∙ sym (and_then_assoc (inputs_or index_error payloads stage.inputs) _ _)
    where
      after_same :
          {A B : Type 0} {y y' : Outcome A} {z : Outcome B} (k : A → Exec (World H W M) B)
          → y ≡ y'
          → (continue (y', w) k).0 ≡ z
          → (continue (y, w) k).0 ≡ z
      after_same k e h = ap (λ o. (continue (o, w) k).0) e ∙ h

  turn :
      (stage : StageSpec) (stages : List StageSpec) (c c' : Control) (state : Outcome RunState)
      (payloads : List (List Bytes)) (ran : RanTasks) (w : World H W M)
      → wait c ≡ (state, c')
      → w.control ≡ some c
      → Works process_of resolve g stage
      → Looping stages (some c')
      → (run_stages_from closer now monitor resolve (stage ∷ stages) payloads ran w).0
        ≡ fold_to (met state (comes c' (length stages))) (stage ∷ stages) payloads ran
  unfolding run_stages_from
  turn stage stages c c' (returns running) payloads ran w e at works ih =
      after _ (asked w c c' (returns running) at e)
        (goes_on stage stages (some c') payloads ran (record w { control = some c' }) refl works ih)
  turn stage stages c c' (returns paused) payloads ran w e at works ih =
      after _ (asked w c c' (returns paused) at e)
        (goes_on stage stages (some c') payloads ran (record w { control = some c' }) refl works ih)
  turn stage stages c c' (returns cancelled) payloads ran w e at works ih =
      after _ (asked w c c' (returns cancelled) at e) refl
  turn stage stages c c' (raises d) payloads ran w e at works ih = absurd (wait-raises_not c d c' e)
  turn stage stages c c' hangs payloads ran w e at works ih =
      after_hangs _ (asked w c c' hangs at e)

  pub run_stages_from-staged :
      (stages : List StageSpec) (o : Option Control)
      → All (Works process_of resolve g) stages
      → Looping stages o
  unfolding run_stages_from
  run_stages_from-staged [] none works payloads ran w at = refl
  run_stages_from-staged [] (some c) works payloads ran w at = refl
  run_stages_from-staged (stage ∷ stages) none works payloads ran w at = after _ (quiet w at) (
      goes_on stage stages none payloads ran w at works.0
        (run_stages_from-staged stages none works.1))
  run_stages_from-staged (stage ∷ stages) (some c) works payloads ran w at =
      turn stage stages c (wait c).1 (wait c).0 payloads ran w refl at works.0
        (run_stages_from-staged stages (some (wait c).1) works.1)

  -- Whatever calls reach its control, a staged run ends as the fold over the stages that it reaches
  -- does, and in the result of what ended it.
  pub run_stages-staged :
      {V : Type 0} (loads : Bytes → Outcome V) (plan : DurablePlanV2) (o : Option Control)
      (w : World H W M)
      → ClosesTamely closer
      → w.control ≡ o
      → All (Works process_of resolve g) plan.stages
      → let (k, ending) = comes_to o (length plan.stages) in
        let begun = take k plan.stages in
        (run_stages closer now monitor resolve loads plan w).0
        ≡ and_then (staged_or g index_error (map (as_stage process_of) begun) []) (λ all.
          and_then (stages_end ending all (tasks_by_reading begun)) (staged_result loads plan))
  unfolding run_stages
  run_stages-staged loads plan o w tame at works =
      let (k, ending) = comes_to o (length plan.stages) in
      let begun = take k plan.stages in
      finish_lem _ (cleanup closer now monitor)
        (λ w'. (cleanup-Released closer now monitor tame w').1)
      ∙ lifted _ _ (staged_result loads plan)
          (run_stages_from-staged plan.stages o works [] (ran_of 0 0) _ at)
      ∙ and_then_assoc (staged_or g index_error (map (as_stage process_of) begun) []) _ _
      ∙ ap
          (λ ran.
            and_then (staged_or g index_error (map (as_stage process_of) begun) [])
              (λ all. and_then (stages_end ending all ran) (staged_result loads plan)))
          (ran_stages-tasks_by_reading begun (ran_of 0 0) ∙ ran_path (omega arith) (omega arith))
