-- ===== src/Checkpoint/Resume.antt =====
-- `run_resumable` of checkpoint/runner.py, from the read of the journal on: the environment check
-- and the warning on unreused entries come before it. The store is the `CheckpointStore` protocol;
-- the codec, the task ids and the plan's functions are parameters. Partials carry no warnings.
pub mod Expected
pub mod Value
pub mod Crash
use graphed.Prelude.{
  ℕ, ◌+◌, String, Bool, true, false, Option, none, some, List, [], ◌∷◌, ltb, leb, if◌then◌else◌,
}
use graphed.Prelude.Text.{concat, show}
use graphed.Prelude.Dict.{find}
use graphed.Outcome.{
  Exn, interrupt, plain, value_error, DeadLetter, Outcome, returns, raises, hangs, Exec, pure,
  except, and_then, ◌>>=◌,
}
use graphed.Partition.{Partition}
use graphed.Retry.{Process, Combine, Policy, recover_with}
use graphed.Failures.Labels.{dead_letter_descriptor}
use graphed.Checkpoint.Journal.{JournalEntry, Completed}
use graphed.Checkpoint.Protocol.{CheckpointStore, Codec}

-- `ResumeReport`; `dead_letters` is read off the store at the end.
pub record ResumeReport : Type 0 where
  pub executed : ℕ
  pub skipped : ℕ
  pub dead : ℕ
  pub stopped : Option String
  pub dead_letters : List DeadLetter

-- `_partition_tag`
abbrev pub partition_tag : Partition → String
partition_tag p = concat (p.uri ∷ "@" ∷ show p.entry_start ∷ ":" ∷ show p.entry_stop ∷ [])

-- `_run_one`
unfoldable pub run_one : {S R : Type 0} → Process S R → Combine R → Option (Policy S) → Process S R
run_one process combine none part = process part
run_one process combine (some retry) part =
    except (process part) (recover_with retry process combine part)

-- `combine(acc, value) if folded else value`
unfoldable pub fold_in : {R : Type 0} → Combine R → Option R → R → Outcome R
fold_in combine none value = returns value
fold_in combine (some acc) value = combine acc value

-- `error_budget is not None and report.dead > error_budget`
abbrev pub over_budget : Option ℕ → ℕ → Bool
over_budget none dead = false
over_budget (some error_budget) dead = ltb error_budget dead

-- `_kill_after is not None and committed >= _kill_after`
abbrev pub kill_due : Option ℕ → ℕ → Bool
kill_due none committed = false
kill_due (some kill_after) committed = leb kill_after committed

-- `_SimulatedInterrupt(f"simulated kill after …")`
abbrev pub killed_after : ℕ → String → Exn
killed_after n what = interrupt (
    plain "_SimulatedInterrupt"
      (concat ("simulated kill after " ∷ show n ∷ " committed " ∷ what ∷ [])))

-- What the loop carries: the fold so far, the report, and the commits of this invocation.
pub record Progress (R : Type 0) : Type 0 where
  pub acc : Option R
  pub report : ResumeReport
  pub committed : ℕ

module _ {S St R : Type 0} (store : CheckpointStore St) (codec : Codec R)
    (task_id : Partition → String) (work : Process S R) (combine : Combine R)
    (error_budget kill_after : Option ℕ) where
  -- `_stored_partial`: the blob of the entry, decoded, if the store serves it
  unfoldable pub stored_partial : Option JournalEntry → St → Option R × St
  stored_partial none st = (none, st)
  stored_partial (some entry) st =
      let (blob, st') = store.get entry.blob st in
      ((elim blob [ none ↦ none | some bytes ↦ some (codec.decode bytes) ]), st')

  -- The rest of a turn once `_run_one` has ended: go on with the next progress, or break off.
  unfoldable pub settle : Partition → Progress R → Outcome R → St → Outcome (Progress R × Bool) × St
  settle part pr (returns value) st =
      let (digest, st') = store.put (codec.encode value) st in
      let st'' =
        store.record_done
          (record {
            task_id = task_id part;
            partition = partition_tag part;
            blob = digest;
            stage = "";
            deps = [];
          })
          st' in
      let committed = pr.committed + 1 in
      (
        and_then (fold_in combine pr.acc value) (λ acc.
            if kill_due kill_after committed
            then raises (killed_after committed "tasks")
            else returns (
              record {
                acc = some acc;
                report = record (pr.report) { executed = pr.report.executed + 1 };
                committed = committed;
              },
              true,
            )),
        st'',
      )
  settle part pr (raises (interrupt e)) st = (raises (interrupt e), st)
  settle part pr (raises exc) st =
      let dead = pr.report.dead + 1 in
      let over = over_budget error_budget dead in
      (
        returns (
          record pr {
            report = record (pr.report) {
              dead = dead;
              stopped = if over then some "error_budget" else pr.report.stopped;
            };
          },
          (if over then false else true),
        ),
        store.record_dead (dead_letter_descriptor (task_id part) part exc) st,
      )
  settle part pr hangs st = (hangs, st)

  -- One turn of the loop: a stored partial is folded in, and any other partition is run.
  unfoldable pub turn : Completed → Partition → Progress R → Exec (S × St) (Progress R × Bool)
  unfolding stored_partial settle
  turn completed part pr (s, st) =
      let (stored, st') = stored_partial (find (task_id part) completed.done) st in
      elim stored [
        | some value ↦ (
          and_then (fold_in combine pr.acc value) (λ acc. returns (
            record pr {
              acc = some acc;
              report = record (pr.report) { skipped = pr.report.skipped + 1 };
            },
            true,
          )),
          (s, st'),
        )
        | none ↦
            let (done, s') = work part s in
            let (next, st'') = settle part pr done st' in (next, (s', st''))
      ]

  -- The `for part in plan.partitions` loop.
  unfoldable pub run_parts : Completed → List Partition → Progress R → Exec (S × St) (Progress R)
  unfolding turn
  run_parts completed [] pr = pure pr
  run_parts completed (part ∷ parts) pr = turn completed part pr >>= λ (pr', go_on).
      if go_on then run_parts completed parts pr' else pure pr'

-- `ResumeResult`
pub record ResumeResult (R : Type 0) : Type 0 where
  pub value : R
  pub report : ResumeReport

-- `_require_kill_fired`
unfoldable pub require_kill_fired : Option ℕ → Option String → ℕ → Outcome (Unit {0})
require_kill_fired (some kill_after) none committed =
    if ltb committed kill_after
    then raises (
        value_error (
          concat (
            "_kill_after="
            ∷ show kill_after
            ∷ " never fired: the run committed only "
            ∷ show committed
            ∷ " task(s) before completing, so the simulated crash could not happen. The plan has too few committable partitions for that kill point."
            ∷ [])))
    else returns tt
require_kill_fired _ _ committed = returns tt

abbrev pub value_of : {R : Type 0} → Outcome R → Option R → Outcome R
value_of empty none = empty
value_of empty (some acc) = returns acc

abbrev pub finalized : {R : Type 0} → Option (R → Outcome R) → R → Outcome R
finalized none value = returns value
finalized (some finalize) value = finalize value

abbrev pub nothing_yet : {R : Type 0} → Progress R
nothing_yet = record {
  acc = none;
  report = record { executed = 0; skipped = 0; dead = 0; stopped = none; dead_letters = [] };
  committed = 0;
}

-- What a resumable run takes of a `DurablePlan`, its specs resolved.
pub record Resumable (S R : Type 0) : Type 0 where
  pub process : Process S R
  pub combine : Combine R
  pub empty : Outcome R
  pub finalize : Option (R → Outcome R)
  pub partitions : List Partition
  pub task_id : Partition → String

module _ {S St R : Type 0} (store : CheckpointStore St) (codec : Codec R)
    (retry : Option (Policy S)) (error_budget kill_after : Option ℕ) where
  -- From the end of the loop on.
  unfoldable pub conclude : Resumable S R → Progress R → Exec (S × St) (ResumeResult R)
  conclude plan pr (s, st) = (
    and_then (require_kill_fired kill_after pr.report.stopped pr.committed) (λ _.
        and_then (value_of plan.empty pr.acc) (λ value.
          and_then (finalized plan.finalize value) (λ value'. returns (record {
            value = value';
            report = record (pr.report) { dead_letters = store.dead_letters st };
          })))),
    (s, st),
  )

  -- `run_resumable`
  unfoldable pub run_resumable : Resumable S R → Exec (S × St) (ResumeResult R)
  unfolding run_parts conclude run_one
  run_resumable plan (s, st) =
      (run_parts store codec plan.task_id (run_one plan.process plan.combine retry) plan.combine
            error_budget kill_after (store.completed st) plan.partitions nothing_yet
          >>= conclude plan)
        (s, st)
