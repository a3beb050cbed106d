-- ===== src/Checkpoint/Resume/Expected.antt =====
-- What a resumable run is compared with, and what it relies on.
use graphed.Prelude.{ℕ, ◌+◌, String, ◌≡◌, Option, none, some, List, [], ◌∷◌, if◌then◌else◌}
use graphed.Prelude.Dict.{find}
use graphed.Outcome.{interrupt, Outcome, returns, raises, hangs, and_then}
use graphed.Partition.{Partition}
use graphed.Retry.{Process, Combine}
use graphed.Checkpoint.Blobs.{Bytes}
use graphed.Checkpoint.Journal.{JournalEntry, Completed}
use graphed.Checkpoint.Protocol.{CheckpointStore, Codec}
use graphed.Checkpoint.Resume.{
  fold_in, over_budget, Progress, value_of, finalized, Resumable, ResumeResult,
}

-- The fold with no store: the partials of the partitions in turn, the failed ones left out, up to
-- the error budget; with how many failed and why it stopped.
module _ {R : Type 0} (g : Partition → Outcome R) (combine : Combine R)
    (error_budget : Option ℕ) where
  abbrev pub Ending : Type 0
  Ending = Outcome (Option R × ℕ × Option String)

  -- One partition, with the rest of the fold as a function of the fold so far.
  abbrev pub expected_after : Option R → ℕ → Outcome R → (Option R → ℕ → Ending) → Ending
  expected_after acc dead (returns v) rest =
      and_then (fold_in combine acc v) (λ a. rest (some a) dead)
  expected_after acc dead (raises (interrupt e)) rest = raises (interrupt e)
  expected_after acc dead (raises e) rest =
      if over_budget error_budget (dead + 1)
      then returns (acc, dead + 1, some "error_budget")
      else rest acc (dead + 1)
  expected_after acc dead hangs rest = hangs

  abbrev pub expected : List Partition → Option R → ℕ → Ending
  expected [] acc dead = returns (acc, dead, none)
  expected (p ∷ parts) acc dead = expected_after acc dead (g p) (λ a d. expected parts a d)

abbrev pub ending : {R : Type 0} → Progress R → Option R × ℕ × Option String
ending pr = (pr.acc, pr.report.dead, pr.report.stopped)

module _ {S St R : Type 0} (store : CheckpointStore St) (codec : Codec R)
    (task_id : Partition → String) (work : Process S R) (content_hash : Bytes → String)
    (g : Partition → Outcome R) where
  -- What a run relies on: a partition's work always ends alike; the store serves bytes only under
  -- their own hash; and a blob with the hash of a partial's bytes decodes to that partial.
  pub record Relies : Type 0 where
    pub work_ends : (p : Partition) (s : S) → (work p s).0 ≡ g p
    pub get_verified :
        (digest : String) (st : St) (x : Bytes)
        → (store.get digest st).0 ≡ some x
        → content_hash x ≡ digest
    pub decodes :
        (v : R) (x : Bytes) → content_hash x ≡ content_hash (codec.encode v) → codec.decode x ≡ v

  -- Every entry of the journal is of a partition whose work returns, and names its partial's bytes.
  abbrev pub IsHonest : Completed → Type 0
  IsHonest completed =
      (p : Partition) (e : JournalEntry)
      → find (task_id p) completed.done ≡ some e
      → (v : R) × (g p ≡ returns v) × (e.blob ≡ content_hash (codec.encode v))

-- What a run returns of its value, how many partitions failed, and why it stopped.
abbrev pub answer : {R : Type 0} → ResumeResult R → R × ℕ × Option String
answer r = (r.value, r.report.dead, r.report.stopped)

-- The answer from how the fold ended.
abbrev pub answered :
    {S R : Type 0} → Resumable S R → Option R × ℕ × Option String → Outcome (R × ℕ × Option String)
answered plan (acc, dead, stopped) =
    and_then (value_of plan.empty acc)
      (λ v. and_then (finalized plan.finalize v) (λ v'. returns (v', dead, stopped)))
