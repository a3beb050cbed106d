-- ===== src/Checkpoint/Protocol.antt =====
-- What a resumable run needs of a store and of a codec: the `CheckpointStore` protocol of
-- checkpoint/store.py and `Codec` of checkpoint/codec.py.
use graphed.Prelude.{String, Option, List}
use graphed.Outcome.{DeadLetter}
use graphed.Checkpoint.Blobs.{Bytes}
use graphed.Checkpoint.Journal.{JournalEntry, Completed}

-- `CheckpointStore`, over a store's state. `completed` is read once per run.
pub record CheckpointStore (St : Type 0) : Type 0 where
  pub put : Bytes → St → String × St
  pub get : String → St → Option Bytes × St
  pub record_done : JournalEntry → St → St
  pub completed : St → Completed
  pub record_dead : DeadLetter → St → St
  pub dead_letters : St → List DeadLetter

-- `Codec`; both calls are taken to return.
pub record Codec (R : Type 0) : Type 0 where
  pub encode : R → Bytes
  pub decode : Bytes → R
