-- ===== src/Checkpoint/Local/Killed.antt =====
-- Runs of one work on a `Store`, killed and gone on with.
use graphed.Prelude.{ℕ, String, ◌≡◌, Option, none, List, All}
use graphed.Outcome.{Outcome, returns, and_then}
use graphed.Partition.{Partition}
use graphed.Retry.{Policy}
use graphed.Checkpoint.Blobs.{Bytes}
use graphed.Checkpoint.Journal.{Rec}
use graphed.Checkpoint.Protocol.{Codec}
use graphed.Checkpoint.Resume.{Resumable, run_one, run_resumable}
use graphed.Checkpoint.Resume.Expected.{Relies, answer, answered, expected}
use graphed.Checkpoint.Resume.Crash.{run_resumable-after_kill}
use graphed.Checkpoint.Local.{Root, local_store}
use graphed.Checkpoint.Local.Trusted.{TrustedRoot, ReadsBack, local_store-Keeps}

-- On a `Store` that only runs of this work have written to, each journal ending in a whole line, a run that is killed after any number of
-- commits, between two writes, or ends in any other way, leaves a store from which the next run, with no kill, answers
-- the fold over all partitions. It is assumed that a partition's work always ends alike, that the
-- codec's bytes are known by their hash, that tasks with one id have one work, and that the records
-- that are written for the plan's partitions read back.
pub run_resumable-killed :
    {S R : Type 0} (content_hash : Bytes → String) (line_of : Rec → String)
    (parse : String → Option Rec) (shown : List String → String) (journal_path : String)
    (codec : Codec R) (retry : Option (Policy S)) (plan : Resumable S R) (g : Partition → Outcome R)
    (error_budget later_budget kill_after : Option ℕ) (s s' : S) (root : Root)
    → let store = local_store content_hash line_of parse shown journal_path in
      let work = run_one plan.process plan.combine retry in
      Relies store codec plan.task_id work content_hash g
      → ((p q : Partition) → plan.task_id q ≡ plan.task_id p → g q ≡ g p)
      → All
          (ReadsBack content_hash line_of parse shown journal_path codec plan.task_id work g)
          plan.partitions
      → TrustedRoot content_hash line_of parse shown journal_path codec plan.task_id work g root
      → let left = (run_resumable store codec retry error_budget kill_after plan (s, root)).1.1 in
        and_then
          (run_resumable store codec retry later_budget none plan (s', left)).0
          (λ r. returns (answer r))
        ≡ and_then (expected g plan.combine later_budget plan.partitions none 0) (answered plan)
run_resumable-killed content_hash line_of parse shown journal_path codec retry plan g error_budget
      later_budget kill_after s s' root relies one reads trusted =
    run_resumable-after_kill (local_store content_hash line_of parse shown journal_path) codec retry
      plan content_hash g _ _ error_budget later_budget kill_after s s' root relies
      (local_store-Keeps content_hash line_of parse shown journal_path codec plan.task_id _ g one)
      reads trusted
