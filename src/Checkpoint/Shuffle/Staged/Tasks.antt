-- ===== src/Checkpoint/Shuffle/Staged/Tasks.antt =====
-- The tasks of one stage against a store.
use graphed.Prelude.{
  ℕ, String, ◌≡◌, refl, sym, ap, ◌∙◌, Option, none, some, List, [], ◌∷◌, ◌++◌, All,
}
use graphed.Prelude.Dict.{find}
use graphed.Outcome.{Outcome, returns, raises, hangs, Exec, and_then, continue}
use graphed.Plan.{Task}
use graphed.Checkpoint.Blobs.{Bytes}
use graphed.Checkpoint.Journal.{JournalEntry, Completed}
use graphed.Checkpoint.Protocol.{CheckpointStore}
use graphed.Checkpoint.Shuffle.{
  Stage, Blocks, StageProgress, served, commit, committing, run_task, run_stage_tasks,
}
use graphed.Checkpoint.Shuffle.Staged.{staged_tasks, HonestTask}
use graphed.Checkpoint.Shuffle.Staged.Hashed.{blocks_of, with_block_lem}

module _ {S St : Type 0} (g : Stage S → Task → List Bytes → Outcome Bytes)
    (store : CheckpointStore St) (task_id : ℕ → Task → String) (content_hash : Bytes → String)
    (dumps : List String → Bytes) (completed : Completed)
    (put_digest : (x : Bytes) (st : St) → (store.put x st).0 ≡ content_hash x)
    (get_verified : (digest : String) (st : St) (x : Bytes)
      → (store.get digest st).0 ≡ some x
      → content_hash x ≡ digest)
    (no_collision : (x y : Bytes) → content_hash x ≡ content_hash y → x ≡ y) where
  served-right :
      (stage : Stage S) (up : List Bytes) (task : Task) (o : Option JournalEntry) (st : St)
      (blob : Bytes) (hash : String)
      → ((e : JournalEntry)
          → o ≡ some e
          → (p : Bytes) × (g stage task up ≡ returns p) × (e.blob ≡ content_hash p))
      → (served store dumps o st).0 ≡ some (blob, hash)
      → (g stage task up ≡ returns blob) × (hash ≡ content_hash blob)
  unfolding served
  served-right stage up task none st blob hash honest h = absurd (cc h)
  served-right stage up task (some e) st blob hash honest h = go (store.get e.blob st).0 refl h
    where
      go :
          (b : Option Bytes)
          → (store.get e.blob st).0 ≡ b
          → Path
              (Option (Bytes × String))
              (elim b [ none ↦ none | some bytes ↦ some (bytes, e.blob) ])
              (some (blob, hash))
          → (g stage task up ≡ returns blob) × (hash ≡ content_hash blob)
      go none at h' = absurd (cc h')
      go (some x) at h' =
          let (p, right, named) = honest e refl in
          let verified = get_verified e.blob st x at in
          let same : x ≡ p = no_collision x p (verified ∙ named) in
          let is : x ≡ blob = cc h' in
          let digest : e.blob ≡ hash = cc h' in
          (right ∙ ap returns (sym same ∙ is), cc (digest, verified, is))

  commit_lem :
      (si : ℕ) (stage : Stage S) (up : Blocks) (task : Task) (pr : StageProgress)
      (this : List Bytes) (x : Outcome Bytes × S) (st : St)
      → pr.this ≡ blocks_of content_hash this
      → and_then
          (committing store task_id dumps none completed si stage up task pr x st).0
          (λ pr'. returns pr'.this)
        ≡ and_then x.0 (λ p. returns (blocks_of content_hash (this ++ p ∷ [])))
  unfolding commit
  commit_lem si stage up task pr this (returns p, s) st at =
      ap returns (with_block_lem content_hash pr this p (store.put p st).0 at (put_digest p st))
  commit_lem si stage up task pr this (raises e, s) st at = refl
  commit_lem si stage up task pr this (hangs, s) st at = refl

  -- A turn adds the payload's block.
  task_lem :
      (si : ℕ) (stage : Stage S) (up : List Bytes) (task : Task) (pr : StageProgress)
      (this : List Bytes) (w : S × St)
      → ((s : S) → (stage.process task up s).0 ≡ g stage task up)
      → HonestTask g store task_id content_hash completed si stage up task
      → pr.this ≡ blocks_of content_hash this
      → and_then
          (run_task store task_id dumps none completed si stage
            (blocks_of content_hash up)
            task
            pr
            w).0
          (λ pr'. returns pr'.this)
        ≡ and_then (g stage task up) (λ p. returns (blocks_of content_hash (this ++ p ∷ [])))
  unfolding run_task
  task_lem si stage up task pr this (s, st) ends honest at =
      go (served store dumps (find (task_id si task) completed.done) st) refl
    where
      go :
          (x : Option (Bytes × String) × St)
          → served store dumps (find (task_id si task) completed.done) st ≡ x
          → and_then
              (run_task store task_id dumps none completed si stage
                (blocks_of content_hash up)
                task
                pr
                (s, st)).0
              (λ pr'. returns pr'.this)
            ≡ and_then (g stage task up) (λ p. returns (blocks_of content_hash (this ++ p ∷ [])))
      go (some (blob, hash), st') e =
          let (right, named) =
            served-right stage up task (find (task_id si task) completed.done) st blob hash honest
              (ap (λ (x : Option (Bytes × String) × St). x.0) e) in
          rw (run_task, e, right)
            (ap returns (with_block_lem content_hash pr this blob hash at named))
      go (none, st') e =
          rw (run_task, e)
            (commit_lem si stage (blocks_of content_hash up) task pr this (stage.process task up s)
                (served store dumps (find (task_id si task) completed.done) st).1 at
              ∙ ap (λ y. and_then y (λ p. returns (blocks_of content_hash (this ++ p ∷ []))))
                  (ends s))

  -- One turn and the rest.
  chained :
      (x : Outcome StageProgress × (S × St)) (y : Outcome Bytes) (this : List Bytes)
      (k : StageProgress → Exec (S × St) StageProgress) (r : List Bytes → Outcome (List Bytes))
      → and_then x.0 (λ pr'. returns pr'.this)
        ≡ and_then y (λ p. returns (blocks_of content_hash (this ++ p ∷ [])))
      → ((pr' : StageProgress) (w : S × St) (p : Bytes)
          → pr'.this ≡ blocks_of content_hash (this ++ p ∷ [])
          → and_then (k pr' w).0 (λ q. returns q.this)
            ≡ and_then (r (this ++ p ∷ [])) (λ ps. returns (blocks_of content_hash ps)))
      → and_then (continue x k).0 (λ q. returns q.this)
        ≡ and_then
            (and_then y (λ p. r (this ++ p ∷ [])))
            (λ ps. returns (blocks_of content_hash ps))
  chained (returns pr', w) (returns p) this k r e ih = ih pr' w p (cc e)
  chained (returns pr', w) (raises f) this k r e ih = absurd (cc e)
  chained (returns pr', w) hangs this k r e ih = absurd (cc e)
  chained (raises e', w) (returns p) this k r e ih = absurd (cc e)
  chained (raises e', w) (raises f) this k r e ih = cc e
  chained (raises e', w) hangs this k r e ih = absurd (cc e)
  chained (hangs, w) (returns p) this k r e ih = absurd (cc e)
  chained (hangs, w) (raises f) this k r e ih = absurd (cc e)
  chained (hangs, w) hangs this k r e ih = refl

  pub tasks_lem :
      (si : ℕ) (stage : Stage S) (up : List Bytes) (tasks : List Task) (pr : StageProgress)
      (this : List Bytes) (w : S × St)
      → ((task : Task) (s : S) → (stage.process task up s).0 ≡ g stage task up)
      → All (HonestTask g store task_id content_hash completed si stage up) tasks
      → pr.this ≡ blocks_of content_hash this
      → and_then
          (run_stage_tasks store task_id dumps none completed si stage
            (blocks_of content_hash up)
            tasks
            pr
            w).0
          (λ q. returns q.this)
        ≡ and_then (staged_tasks g stage up tasks this) (λ ps. returns (blocks_of content_hash ps))
  unfolding run_stage_tasks
  tasks_lem si stage up [] pr this w ends honest at = ap returns at
  tasks_lem si stage up (task ∷ tasks) pr this w ends honest at =
      chained
        (run_task store task_id dumps none completed si stage (blocks_of content_hash up) task pr w)
        (g stage task up) this _ (staged_tasks g stage up tasks)
        (task_lem si stage up task pr this w (ends task) honest.0 at)
        λ pr' w' p at'. tasks_lem si stage up tasks pr' (this ++ p ∷ []) w' ends honest.1 at'
