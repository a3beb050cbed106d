-- ===== src/Checkpoint/Shuffle/Staged.antt =====
-- A staged run against a store and the staged fold without one.
pub mod Hashed
pub mod Tasks
pub mod Run
use graphed.Prelude.{ℕ, zero, suc, ◌+◌, String, ◌≡◌, some, List, [], ◌∷◌, ◌++◌, All}
use graphed.Prelude.Dict.{find}
use graphed.Outcome.{Exn, exception, plain, Outcome, returns, raises, and_then}
use graphed.Plan.{Task}
use graphed.Checkpoint.Blobs.{Bytes}
use graphed.Checkpoint.Journal.{JournalEntry, Completed}
use graphed.Checkpoint.Protocol.{CheckpointStore}
use graphed.Checkpoint.Shuffle.{Stage}

-- The payloads of the stages that ran, with no store; `missing` is what a stage that has not run is
-- answered with.
abbrev pub payloads_or : Exn → List (List Bytes) → ℕ → Outcome (List Bytes)
payloads_or missing [] n = raises missing
payloads_or missing (p ∷ rest) zero = returns p
payloads_or missing (p ∷ rest) (suc n) = payloads_or missing rest n

abbrev pub inputs_or : Exn → List (List Bytes) → List ℕ → Outcome (List Bytes)
inputs_or missing ran [] = returns []
inputs_or missing ran (dep ∷ inputs) =
    and_then (payloads_or missing ran dep)
      λ p. and_then (inputs_or missing ran inputs) λ rest. returns (p ++ rest)

abbrev pub payloads_at : List (List Bytes) → ℕ → Outcome (List Bytes)
payloads_at = payloads_or (exception (plain "KeyError" ""))

abbrev pub inputs_of : List (List Bytes) → List ℕ → Outcome (List Bytes)
inputs_of = inputs_or (exception (plain "KeyError" ""))

module _ {S : Type 0} (g : Stage S → Task → List Bytes → Outcome Bytes) where
  abbrev pub staged_tasks : Stage S → List Bytes → List Task → List Bytes → Outcome (List Bytes)
  staged_tasks stage up [] this = returns this
  staged_tasks stage up (task ∷ tasks) this =
      and_then (g stage task up) (λ p. staged_tasks stage up tasks (this ++ p ∷ []))

  -- The stages in turn, each task's payload computed from the payloads of the stages that its own
  -- reads.
  abbrev pub staged_or : Exn → List (Stage S) → List (List Bytes) → Outcome (List (List Bytes))
  staged_or missing [] ran = returns ran
  staged_or missing (stage ∷ stages) ran = and_then (inputs_or missing ran stage.inputs) λ up.
      and_then (staged_tasks stage up stage.tasks [])
        (λ this. staged_or missing stages (ran ++ this ∷ []))

  abbrev pub staged : List (Stage S) → List (List Bytes) → Outcome (List (List Bytes))
  staged = staged_or (exception (plain "KeyError" ""))

  module _ {St : Type 0} (store : CheckpointStore St) (task_id : ℕ → Task → String)
      (content_hash : Bytes → String) where
    -- What a staged run relies on: a task's work always ends alike; the store names bytes by their hash
    -- and serves bytes only under their own; and no two payloads have one hash.
    pub record StagesRely (stages : List (Stage S)) : Type 0 where
      pub work_ends :
          All
            (λ stage.
              (task : Task) (up : List Bytes) (s : S)
              → (stage.process task up s).0 ≡ g stage task up)
            stages
      pub put_digest : (x : Bytes) (st : St) → (store.put x st).0 ≡ content_hash x
      pub get_verified :
          (digest : String) (st : St) (x : Bytes)
          → (store.get digest st).0 ≡ some x
          → content_hash x ≡ digest
      pub no_collision : (x y : Bytes) → content_hash x ≡ content_hash y → x ≡ y

    -- A task that the journal names has the blob of the payload that its stage makes of `up`.
    abbrev pub HonestTask : Completed → ℕ → Stage S → List Bytes → Task → Type 0
    HonestTask completed si stage up task =
        (e : JournalEntry)
        → find (task_id si task) completed.done ≡ some e
        → (p : Bytes) × (g stage task up ≡ returns p) × (e.blob ≡ content_hash p)

    -- Along the fold, each stage with the payloads that it has upstream there.
    abbrev pub HonestStages : Completed → ℕ → List (Stage S) → List (List Bytes) → Type 0
    HonestStages completed si [] ran = Unit
    HonestStages completed si (stage ∷ stages) ran =
        (up : List Bytes)
        → inputs_of ran stage.inputs ≡ returns up
        → All (HonestTask completed si stage up) stage.tasks
          × ((this : List Bytes)
              → staged_tasks stage up stage.tasks [] ≡ returns this
              → HonestStages completed (si + 1) stages (ran ++ this ∷ []))
