-- ===== src/Checkpoint/Shuffle.antt =====
-- `run_shuffle_resumable` of checkpoint/runner.py, from the read of the journal on: a staged plan
-- against a store. The services and the environment are checked before it.
pub mod Staged
use graphed.Prelude.{
  ℕ, suc, zero, ◌+◌, ◌-◌, String, Option, none, some, List, [], ◌∷◌, ◌++◌, length, if◌then◌else◌,
}
use graphed.Prelude.Dict.{find}
use graphed.Outcome.{
  exception, plain, Outcome, returns, raises, hangs, Exec, pure, lift, and_then, ◌>>=◌,
}
use graphed.Plan.{Task}
use graphed.Checkpoint.Blobs.{Bytes}
use graphed.Checkpoint.Journal.{JournalEntry, Completed}
use graphed.Checkpoint.Protocol.{CheckpointStore}
use graphed.Checkpoint.Resume.{ResumeReport, partition_tag, kill_due, killed_after}

-- `StageSpec`, its process resolved; the routing is read by the task id alone.
pub record Stage (S : Type 0) : Type 0 where
  pub kind : String
  pub inputs : List ℕ
  pub process : Task → List Bytes → Exec S Bytes
  pub tasks : List Task

-- A stage's payloads and their content hashes, in task order.
pub record Blocks : Type 0 where
  pub payloads : List Bytes
  pub hashes : List String

-- The upstream blocks, one dependency after another; a stage that has not run is a KeyError.
abbrev pub blocks_at : List Blocks → ℕ → Outcome Blocks
blocks_at [] n = raises (exception (plain "KeyError" ""))
blocks_at (b ∷ rest) zero = returns b
blocks_at (b ∷ rest) (suc n) = blocks_at rest n

unfoldable pub upstream : List Blocks → List ℕ → Outcome Blocks
upstream ran [] = returns (record { payloads = []; hashes = [] })
upstream ran (dep ∷ inputs) = and_then (blocks_at ran dep) λ b.
    and_then (upstream ran inputs) λ rest.
      returns (record { payloads = b.payloads ++ rest.payloads; hashes = b.hashes ++ rest.hashes })

-- What the loops carry: the stage's blocks so far, its `deps` once listed, the report, the commits.
pub record StageProgress : Type 0 where
  pub this : Blocks
  pub deps : Option (List String)
  pub report : ResumeReport
  pub committed : ℕ

abbrev pub with_block : StageProgress → Bytes → String → StageProgress
with_block pr payload hash = record pr {
  this = record {
    payloads = pr.this.payloads ++ payload ∷ [];
    hashes = pr.this.hashes ++ hash ∷ [];
  };
}

module _ {St : Type 0} (store : CheckpointStore St) (dumps : List String → Bytes) where
  -- The block that the store serves for a completed task.
  pub served : Option JournalEntry → St → Option (Bytes × String) × St
  served none st = (none, st)
  served (some entry) st =
      let (blob, st') = store.get entry.blob st in
      ((elim blob [ none ↦ none | some bytes ↦ some (bytes, entry.blob) ]), st')

  -- The upstream hashes' listing is stored once per stage.
  pub listed : List String → Option (List String) → St → List String × St
  listed hashes (some deps) st = (deps, st)
  listed [] none st = ([], st)
  listed (h ∷ hashes) none st =
      let (digest, st') = store.put (dumps (h ∷ hashes)) st in (digest ∷ [], st')

module _ {S St : Type 0} (store : CheckpointStore St) (task_id : ℕ → Task → String)
    (dumps : List String → Bytes) (kill_after : Option ℕ) (completed : Completed) where
  -- A payload that was computed is stored and journaled.
  unfoldable pub commit :
      ℕ → Stage S → Blocks → Task → StageProgress → Bytes → St → Outcome StageProgress × St
  unfolding listed
  commit si stage up task pr payload st =
      let (hash, st1) = store.put payload st in
      let (deps, st2) = listed store dumps up.hashes pr.deps st1 in
      let entry : JournalEntry = record {
        task_id = task_id si task;
        partition = partition_tag task.partition;
        blob = hash;
        stage = stage.kind;
        deps = deps;
      } in
      let committed = pr.committed + 1 in
      let block = with_block pr payload hash in
      (
        (if kill_due kill_after committed
            then raises (killed_after committed "blocks")
            else returns (record block {
              deps = some deps;
              report = record (pr.report) { executed = pr.report.executed + 1 };
              committed = committed;
            })),
        store.record_done entry st2,
      )

  abbrev pub committing :
      ℕ
      → Stage S
      → Blocks
      → Task
      → StageProgress
      → Outcome Bytes × S
      → St
      → Outcome StageProgress × (S × St)
  committing si stage up task pr (returns payload, s) st =
      let (next, st') = commit si stage up task pr payload st in (next, (s, st'))
  committing si stage up task pr (raises e, s) st = (raises e, (s, st))
  committing si stage up task pr (hangs, s) st = (hangs, (s, st))

  -- One turn of `for task in stage.tasks`.
  unfoldable pub run_task :
      ℕ → Stage S → Blocks → Task → StageProgress → Exec (S × St) StageProgress
  unfolding served commit
  run_task si stage up task pr (s, st) =
      let (found, st') = served store dumps (find (task_id si task) completed.done) st in
      elim found [
        | some (blob, hash) ↦ (
          returns (record (with_block pr blob hash) {
            report = record (pr.report) { skipped = pr.report.skipped + 1 };
          }),
          (s, st'),
        )
        | none ↦ committing si stage up task pr (stage.process task up.payloads s) st'
      ]

  unfoldable pub run_stage_tasks :
      ℕ → Stage S → Blocks → List Task → StageProgress → Exec (S × St) StageProgress
  unfolding run_task
  run_stage_tasks si stage up [] pr = pure pr
  run_stage_tasks si stage up (task ∷ tasks) pr =
      run_task si stage up task pr >>= λ pr'. run_stage_tasks si stage up tasks pr'

  -- The `for si, stage in enumerate(plan.stages)` loop, with the blocks of the stages that ran.
  unfoldable pub run_all_stages :
      ℕ
      → List (Stage S)
      → List Blocks
      → ResumeReport
      → ℕ
      → Exec (S × St) (List Blocks × ResumeReport)
  unfolding run_stage_tasks upstream
  run_all_stages si [] ran report committed = pure (ran, report)
  run_all_stages si (stage ∷ stages) ran report committed = do
    up ← lift (upstream ran stage.inputs)
    pr ← run_stage_tasks si stage up stage.tasks (record {
      this = record { payloads = []; hashes = [] };
      deps = none;
      report = report;
      committed = committed;
    })
    run_all_stages (si + 1) stages (ran ++ pr.this ∷ []) pr.report pr.committed

-- `run_shuffle_resumable`: the hashes of the last stage's blocks, and the report
unfoldable pub run_shuffle_resumable :
    {S St : Type 0}
    → CheckpointStore St
    → (ℕ → Task → String)
    → (List String → Bytes)
    → Option ℕ
    → List (Stage S)
    → Exec (S × St) (List String × ResumeReport)
unfolding run_all_stages
run_shuffle_resumable store task_id dumps kill_after stages (s, st) =
    (run_all_stages store task_id dumps kill_after (store.completed st) 0 stages []
          (record { executed = 0; skipped = 0; dead = 0; stopped = none; dead_letters = [] }) 0
        >>= λ (ran, report).
            lift (
              and_then (blocks_at ran (length stages - 1)) (λ last. returns (last.hashes, report))))
      (s, st)
