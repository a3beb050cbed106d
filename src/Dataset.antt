-- ===== src/Dataset.antt =====
-- `Dataset`, `partition_dataset` and `partition_datasets` of core/plan.py: the fixed partitions of
-- a dataset whose length is known.
pub mod Cover
use graphed.Prelude.{ℕ, zero, suc, ◌+◌, min, String, List, [], ◌∷◌, ◌++◌, ltb, leb, if◌then◌else◌}
use graphed.Outcome.{Outcome, returns, raises, value_error, and_then}
use graphed.Partition.{Partition, ranged}

pub record Dataset : Type 0 where
  pub uri : String
  pub n_events : ℕ
  pub tree : String
  pub name : String

-- The `while start < dataset.n_events` loop. Every round raises `start`, so `n_events` rounds of
-- fuel are enough.
unfoldable pub chunks_from : ℕ → Dataset → ℕ → ℕ → List Partition
chunks_from zero dataset chunk_size start = []
chunks_from (suc fuel) dataset chunk_size start =
    let stop = min (start + chunk_size) dataset.n_events in
    let rest = chunks_from fuel dataset chunk_size stop in
    if ltb start dataset.n_events then ranged dataset.uri dataset.tree start stop ∷ rest else []

unfoldable pub partition_dataset : Dataset → ℕ → Outcome (List Partition)
partition_dataset dataset chunk_size =
    if leb chunk_size 0
    then raises (value_error "chunk_size must be positive")
    else returns (chunks_from dataset.n_events dataset chunk_size 0)

-- The `for ds in datasets` loop, with `out` the partitions so far.
extend_all : List Partition → List Dataset → ℕ → Outcome (List Partition)
extend_all out [] chunk_size = returns out
extend_all out (ds ∷ datasets) chunk_size =
    and_then (partition_dataset ds chunk_size) (λ ps. extend_all (out ++ ps) datasets chunk_size)

unfoldable pub partition_datasets : List Dataset → ℕ → Outcome (List Partition)
unfolding extend_all
partition_datasets = extend_all []
