-- ===== src/Checkpoint/Shuffle/Staged/Run.antt =====
-- A staged run against a store and the staged fold without one.
use graphed.Prelude.{
  ℕ, ◌+◌, ◌-◌, String, ◌≡◌, refl, ap, ◌∙◌, none, some, List, [], ◌∷◌, ◌++◌, map, All, length,
}
use graphed.Outcome.{Outcome, returns, raises, hangs, Exec, and_then, continue, lift, ◌>>=◌}
use graphed.Plan.{Task}
use graphed.Checkpoint.Blobs.{Bytes}
use graphed.Checkpoint.Journal.{Completed}
use graphed.Checkpoint.Protocol.{CheckpointStore}
use graphed.Checkpoint.Resume.{ResumeReport}
use graphed.Checkpoint.Shuffle.{
  Stage, Blocks, blocks_at, StageProgress, run_stage_tasks, run_all_stages, run_shuffle_resumable,
}
use graphed.Checkpoint.Shuffle.Staged.{
  payloads_at, inputs_of, staged_tasks, staged, StagesRely, HonestStages,
}
use graphed.Checkpoint.Shuffle.Staged.Hashed.{blocks_of, at_blocks, upstream_lem, map_snoc}
use graphed.Checkpoint.Shuffle.Staged.Tasks.{tasks_lem}

module _ {S St : Type 0} (g : Stage S → Task → List Bytes → Outcome Bytes)
    (store : CheckpointStore St) (task_id : ℕ → Task → String) (content_hash : Bytes → String)
    (dumps : List String → Bytes) (completed : Completed)
    (put_digest : (x : Bytes) (st : St) → (store.put x st).0 ≡ content_hash x)
    (get_verified : (digest : String) (st : St) (x : Bytes)
      → (store.get digest st).0 ≡ some x
      → content_hash x ≡ digest)
    (no_collision : (x y : Bytes) → content_hash x ≡ content_hash y → x ≡ y) where
  -- One stage and the rest.
  stage_chained :
      {R : Type 0} (x : Outcome StageProgress × (S × St)) (y : Outcome (List Bytes))
      (k : StageProgress → Exec (S × St) (List Blocks × R))
      (r : List Bytes → Outcome (List (List Bytes)))
      → and_then x.0 (λ q. returns q.this) ≡ and_then y (λ ps. returns (blocks_of content_hash ps))
      → ((q : StageProgress) (w : S × St) (ps : List Bytes)
          → y ≡ returns ps
          → q.this ≡ blocks_of content_hash ps
          → and_then (k q w).0 (λ v. returns v.0)
            ≡ and_then (r ps) (λ ran. returns (map (blocks_of content_hash) ran)))
      → and_then (continue x k).0 (λ v. returns v.0)
        ≡ and_then (and_then y r) (λ ran. returns (map (blocks_of content_hash) ran))
  stage_chained (returns q, w) (returns p) k r e ih = ih q w p refl (cc e)
  stage_chained (returns q, w) (raises f) k r e ih = absurd (cc e)
  stage_chained (returns q, w) hangs k r e ih = absurd (cc e)
  stage_chained (raises e', w) (returns p) k r e ih = absurd (cc e)
  stage_chained (raises e', w) (raises f) k r e ih = cc e
  stage_chained (raises e', w) hangs k r e ih = absurd (cc e)
  stage_chained (hangs, w) (returns p) k r e ih = absurd (cc e)
  stage_chained (hangs, w) (raises f) k r e ih = absurd (cc e)
  stage_chained (hangs, w) hangs k r e ih = refl

  abbrev EndsAlike : Stage S → Type 0
  EndsAlike stage =
      (task : Task) (up : List Bytes) (s : S) → (stage.process task up s).0 ≡ g stage task up

  abbrev run_stages :
      ℕ
      → List (Stage S)
      → List Blocks
      → ResumeReport
      → ℕ
      → Exec (S × St) (List Blocks × ResumeReport)
  run_stages = run_all_stages store task_id dumps none completed

  abbrev Staged : ℕ → List (Stage S) → List (List Bytes) → Type 0
  Staged si stages ran =
      (report : ResumeReport) (committed : ℕ) (w : S × St)
      → and_then (run_stages si stages (map (blocks_of content_hash) ran) report committed w).0
          (λ v. returns v.0)
        ≡ and_then (staged g stages ran) (λ all. returns (map (blocks_of content_hash) all))

  -- A stage's turn, once its inputs are known.
  abbrev stage_turn :
      ℕ
      → Stage S
      → List (Stage S)
      → List (List Bytes)
      → ResumeReport
      → ℕ
      → Blocks
      → Exec (S × St) (List Blocks × ResumeReport)
  stage_turn si stage stages ran report committed up =
      run_stage_tasks store task_id dumps none completed si stage up stage.tasks (record {
        this = record { payloads = []; hashes = [] };
        deps = none;
        report = report;
        committed = committed;
      })
      >>= λ pr.
          run_stages (si + 1) stages (map (blocks_of content_hash) ran ++ pr.this ∷ []) pr.report
            pr.committed

  stage_lem :
      (si : ℕ) (stage : Stage S) (stages : List (Stage S)) (ran : List (List Bytes))
      (report : ResumeReport) (committed : ℕ) (w : S × St) (o : Outcome (List Bytes))
      → inputs_of ran stage.inputs ≡ o
      → EndsAlike stage
      → HonestStages g store task_id content_hash completed si (stage ∷ stages) ran
      → ((ps : List Bytes)
          → HonestStages g store task_id content_hash completed (si + 1) stages (ran ++ ps ∷ [])
          → Staged (si + 1) stages (ran ++ ps ∷ []))
      → and_then
          (continue
            (and_then o (λ up. returns (blocks_of content_hash up)), w)
            (stage_turn si stage stages ran report committed)).0
          (λ v. returns v.0)
        ≡ and_then
            (and_then o (λ up.
              and_then
                (staged_tasks g stage up stage.tasks [])
                (λ this. staged g stages (ran ++ this ∷ []))))
            (λ all. returns (map (blocks_of content_hash) all))
  stage_lem si stage stages ran report committed w (returns up) e ends honest ih =
      let (tasks, later) = honest up e in
      stage_chained _ (staged_tasks g stage up stage.tasks []) _
        (λ this. staged g stages (ran ++ this ∷ []))
        (tasks_lem g store task_id content_hash dumps completed put_digest get_verified no_collision
          si stage up stage.tasks _ [] w (λ task s. ends task up s) tasks refl)
        λ q w' ps is at.
          ap
            (λ l.
              and_then (run_stages (si + 1) stages l q.report q.committed w').0 (λ v. returns v.0))
            (ap (λ b. map (blocks_of content_hash) ran ++ b ∷ []) at ∙ map_snoc content_hash ran ps)
          ∙ ih ps (later ps is) q.report q.committed w'
  stage_lem si stage stages ran report committed w (raises f) e ends honest ih = refl
  stage_lem si stage stages ran report committed w hangs e ends honest ih = refl

  stages_lem :
      (si : ℕ) (stages : List (Stage S)) (ran : List (List Bytes))
      → All EndsAlike stages
      → HonestStages g store task_id content_hash completed si stages ran
      → Staged si stages ran
  unfolding run_all_stages
  stages_lem si [] ran ends honest report committed w = refl
  stages_lem si (stage ∷ stages) ran ends honest report committed w =
      rw (upstream_lem content_hash ran stage.inputs) (
        stage_lem si stage stages ran report committed w (inputs_of ran stage.inputs) refl ends.0
          honest λ ps h. stages_lem (si + 1) stages (ran ++ ps ∷ []) ends.1 h)

  abbrev with_hashes : ResumeReport → Blocks → Outcome (List String × ResumeReport)
  with_hashes report last = returns (last.hashes, report)

  last_lem :
      (x : Outcome (List Blocks × ResumeReport) × (S × St)) (y : Outcome (List (List Bytes)))
      (n : ℕ)
      → and_then x.0 (λ v. returns v.0)
        ≡ and_then y (λ all. returns (map (blocks_of content_hash) all))
      → and_then
          (continue x (λ v. lift (and_then (blocks_at v.0 n) (with_hashes v.1)))).0
          (λ r. returns r.0)
        ≡ and_then y (λ all. and_then (payloads_at all n) (λ last. returns (map content_hash last)))
  last_lem (returns v, w) (returns all) n e =
      let ran : v.0 ≡ map (blocks_of content_hash) all = cc e in
      rw (ran, at_blocks content_hash all n) (read (payloads_at all n))
    where
      read :
          (o : Outcome (List Bytes))
          → and_then
              (and_then (and_then o (λ p. returns (blocks_of content_hash p))) (with_hashes v.1))
              (λ r. returns r.0)
            ≡ and_then o (λ last. returns (map content_hash last))
      read (returns p) = refl
      read (raises f) = refl
      read hangs = refl
  last_lem (returns v, w) (raises f) n e = absurd (cc e)
  last_lem (returns v, w) hangs n e = absurd (cc e)
  last_lem (raises e', w) (returns p) n e = absurd (cc e)
  last_lem (raises e', w) (raises f) n e = cc e
  last_lem (raises e', w) hangs n e = absurd (cc e)
  last_lem (hangs, w) (returns p) n e = absurd (cc e)
  last_lem (hangs, w) (raises f) n e = absurd (cc e)
  last_lem (hangs, w) hangs n e = refl

-- A staged run that no simulated kill ends returns the hashes of the last stage's payloads in the fold
-- that computes every task, or ends in that fold's exception, whatever the store holds of earlier
-- runs: if each task's work always ends alike, the store names and serves bytes by their hash, no
-- two payloads have one hash, and the journal names only payloads of this work.
pub run_shuffle_resumable-staged :
    {S St : Type 0} (store : CheckpointStore St) (task_id : ℕ → Task → String)
    (dumps : List String → Bytes) (content_hash : Bytes → String)
    (g : Stage S → Task → List Bytes → Outcome Bytes) (stages : List (Stage S)) (s : S) (st : St)
    → StagesRely g store task_id content_hash stages
    → HonestStages g store task_id content_hash (store.completed st) 0 stages []
    → and_then (run_shuffle_resumable store task_id dumps none stages (s, st)).0 (λ r. returns r.0)
      ≡ and_then (staged g stages []) (λ all.
        and_then (payloads_at all (length stages - 1)) (λ last. returns (map content_hash last)))
unfolding run_shuffle_resumable
run_shuffle_resumable-staged store task_id dumps content_hash g stages s st rely honest =
    last_lem g store task_id content_hash dumps (store.completed st) rely.put_digest
      rely.get_verified rely.no_collision _ (staged g stages []) (length stages - 1)
      (stages_lem g store task_id content_hash dumps (store.completed st) rely.put_digest
        rely.get_verified rely.no_collision 0 stages [] rely.work_ends honest _ 0 (s, st))
