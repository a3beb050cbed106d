-- ===== src/Dataset/Cover.antt =====
-- The partitions of a dataset read each of its entries once.
use graphed.Prelude.{
  ℕ, zero, suc, ◌+◌, ◌≤◌, ◌<◌, ◌≡◌, refl, sym, ap, ◌∙◌, append-nil, append_assoc, List, [], ◌∷◌,
  ◌++◌, arith, All, min,
}
use graphed.Prelude.Ranges.{range}
use graphed.Outcome.{returns}
use graphed.Partition.{Partition}
use graphed.Partition.Tiles.{all_entries, Tiles, all_entries_from_zero}
use graphed.Dataset.{Dataset, chunks_from, extend_all, partition_dataset, partition_datasets}

-- A chunk of `dataset`: of its file and tree, not empty, and of at most `chunk_size` entries.
pub record IsChunk (dataset : Dataset) (chunk_size : ℕ) (p : Partition) : Type 0 where
  pub of_uri : p.uri ≡ dataset.uri
  pub of_tree : p.tree ≡ dataset.tree
  pub ordered : p.entry_start < p.entry_stop
  pub fits : p.entry_stop ≤ p.entry_start + chunk_size

module _ (dataset : Dataset) (chunk_size : ℕ) (positive : 0 < chunk_size) where
  chunks-Tiles :
      (fuel start : ℕ)
      → start ≤ dataset.n_events
      → dataset.n_events ≤ start + fuel
      → Tiles start dataset.n_events (chunks_from fuel dataset chunk_size start)
  unfolding chunks_from
  chunks-Tiles zero start below enough = omega arith
  chunks-Tiles (suc fuel) start below enough =
      ground (arith, chunks-Tiles fuel (min (start + chunk_size) dataset.n_events))

  chunks-IsChunk :
      (fuel start : ℕ)
      → All (IsChunk dataset chunk_size) (chunks_from fuel dataset chunk_size start)
  unfolding chunks_from
  chunks-IsChunk zero start = tt
  chunks-IsChunk (suc fuel) start =
      ground (arith, chunks-IsChunk fuel (min (start + chunk_size) dataset.n_events))

-- With a positive chunk size `partition_dataset` returns partitions that read the entries
-- `0 .. n_events - 1`, each once and in order, and each is a chunk: of the dataset's file and tree,
-- not empty, and no longer than `chunk_size`.
pub partition_dataset_covers :
    (dataset : Dataset) (chunk_size : ℕ)
    → 0 < chunk_size
    → (ps : List Partition) × (partition_dataset dataset chunk_size ≡ returns ps)
      × (all_entries ps ≡ range 0 dataset.n_events)
      × All (IsChunk dataset chunk_size) ps
unfolding partition_dataset
partition_dataset_covers dataset chunk_size h = (
  chunks_from dataset.n_events dataset chunk_size 0,
  ground arith,
  all_entries_from_zero dataset.n_events _
      (chunks-Tiles dataset chunk_size h dataset.n_events 0 (omega arith) (omega arith)),
  chunks-IsChunk dataset chunk_size h dataset.n_events 0,
)

-- `ps` are the partitions of the datasets one after another, each part covering its dataset.
abbrev pub CoversEach : ℕ → List Dataset → List Partition → Type 0
CoversEach chunk_size [] ps = ps ≡ []
CoversEach chunk_size (ds ∷ datasets) ps =
    (here : List Partition) × (rest : List Partition) × (ps ≡ here ++ rest)
    × (all_entries here ≡ range 0 ds.n_events)
    × All (IsChunk ds chunk_size) here
    × CoversEach chunk_size datasets rest

extend_covers :
    (chunk_size : ℕ) (datasets : List Dataset) (out : List Partition)
    → 0 < chunk_size
    → (ps : List Partition) × (extend_all out datasets chunk_size ≡ returns (out ++ ps))
      × CoversEach chunk_size datasets ps
unfolding extend_all
extend_covers chunk_size [] out h = ([], ap returns (sym (append-nil out)), refl)
extend_covers chunk_size (ds ∷ datasets) out h =
    let (here, made, reads, chunks) = partition_dataset_covers ds chunk_size h in
    let (rest, ends, covers) = extend_covers chunk_size datasets (out ++ here) h in
    (
      here ++ rest,
      rw made (ends ∙ ap returns (append_assoc out here rest)),
      (here, rest, refl, reads, chunks, covers),
    )

-- Over several datasets the partitions are each dataset's own, concatenated in order.
pub partition_datasets_covers :
    (datasets : List Dataset) (chunk_size : ℕ)
    → 0 < chunk_size
    → (ps : List Partition) × (partition_datasets datasets chunk_size ≡ returns ps)
      × CoversEach chunk_size datasets ps
unfolding partition_datasets
partition_datasets_covers datasets chunk_size h = extend_covers chunk_size datasets [] h
