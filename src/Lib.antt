-- ===== src/Lib.antt =====
-- The execution layer of graphed: how the input of an analysis is cut into partitions, how a plan's
-- tasks are run over them and folded into one value, and how a run goes on past failures.
--
-- A `Plan` holds tasks, each with a partition, and a `process`, `combine` and `empty`.
-- `SequentialRunner.run` checks that its services are bound, wraps it for a failure budget, and
-- runs the tasks in key order: each is processed with the worker's resources, the partials are
-- combined from the left, a monitor is told, and a control is asked before each task. A failed
-- partition goes to a retry policy, or is left out of the value and listed. `run_resumable` folds a
-- durable plan's partitions in turn instead, and commits each partial to a checkpoint store, so that
-- a later run takes it from there. A staged plan's stages run in turn, each task on the payloads of
-- the stages that its own reads: in `SequentialRunner` with no store, in `run_shuffle_resumable`
-- against one. One staged fold (Checkpoint/Shuffle/Staged) says what both do.
--
-- Which file models what:
--   Partition   `Partition` of python/graphed/core/execution.py
--   Dataset     `Dataset`, `partition_dataset`, `partition_datasets` of python/graphed/core/plan.py
--   Retry       the policies and `_split` of python/graphed/checkpoint/retry.py
--   Control     `RunControl` of python/graphed/core/execution.py
--   Resources   `LocalResources` and `_close_handle` of the same file
--   Plan        `Plan`, `Task`, `StopCondition`, `ExecResult` of the same file
--   Services    `require_bound` and `_require_parts` of the same file; `Launch` and `ServiceSpec`
--               of python/graphed/core/services.py (Specs)
--   Failures    `_Partial`, `_SkipProcess`, `_SkipCombine`, `skipping`, `without_lost`,
--               `finalize_result`, `dead_letter_descriptor` and the labels of the same file
--   Runner      `SequentialRunner` of the same file, with `observed_run` and `emit_task`; its
--               staged runs, with `DurablePlanV2.value` of core/plan.py (Stages)
--   Checkpoint  `Store` of python/graphed/checkpoint/store.py (Blobs, Journal, Local) and
--               `run_resumable` and `run_shuffle_resumable` of
--               python/graphed/checkpoint/runner.py (Resume, Shuffle)
--   Systematics the package python/graphed/systematics/: of tags.py `normalize` (Digits), the
--               regular expressions (Grammar), `spell_number`, `canonical_tag` and `numeric_value`
--               (Tags); the coordinates and points of points.py (Points); `SystematicsState` of
--               state.py with `_check_unique` of registration.py (Registry); the contexts of
--               lineage.py (Lineage)
--   Warnings    the partials that carry warnings of python/graphed/core/worker_warnings.py, and
--               `keeping_warnings` (Keeping)
--   Addresses   `AddressTable` of python/graphed/core/execution.py
--   Document    JSON values, how they are read, and `json.dumps` with sorted keys
--   Durable     `OpSpec`, task ids and the JSON of partitions of python/graphed/core/plan.py, and
--               `DurablePlan`, `StageSpec` and `DurablePlanV2` with their bytes (Plans)
--   Outcome     what a Python call ends in: a value, an exception, or a wait without end
--   Prelude     shared helpers; Tests holds the concrete inputs at which theorems are applied
--
-- State is passed explicitly: a call takes the state and gives an outcome beside the state it
-- leaves, also when it raises. What the program only calls is a parameter: a plan's functions, the
-- openers and closers of handles (actions on an outside state), the clock, the monitor's hooks, the
-- content hash, a codec, and what JSON makes of a line. The calls of other threads on a run's
-- control are the list of batches that arrive before each of the run's reads of it.
--
-- Bounds and fuel. Entry indices, counts and steps are natural numbers; a plan's budget is an
-- integer, since the source tests its sign. `partition_dataset` has as many rounds as the
-- dataset has events, and each round takes at least one; `_process_split` nests at most
-- `n_entries` deep, as each piece is shorter; `_require_parts` has a number of rounds as a
-- parameter and goes on for ever past it, and one round more than there are services is enough.
-- A tag is a list of ASCII code points, its numbers are exact, and `str` and `int` have no limit
-- on digits. A number in a text is printed in full, and `_sha256_hex` writes a length in eight
-- bytes. A context's chain of parents is a data type, so the loops over it end; the loops of
-- `_decimal` and `gcd` have as many rounds as the number that they make smaller.
--
-- Not modelled: `OpSpec.resolve` and `from_callable`, which import and pickle code, the environment
-- check of resumed runs, stores at a URL, exceptions of a codec, how a write to disk is made
-- atomic, how a worker hooks the warnings module, `split_endpoint` and `bind_services`, the warning
-- that `finalize_result` gives, `wait` with a timeout (the runner uses none), and times as floats
-- (a clock gives numbers). The array frontends, the graph store in Rust, the varied arrays and the
-- fanout of systematics, the routing of shuffles and bundles are outside this library.
pub mod Prelude
pub mod Outcome
pub mod Partition
pub mod Dataset
pub mod Retry
pub mod Control
pub mod Resources
pub mod Plan
pub mod Services
pub mod Failures
pub mod Runner
pub mod Checkpoint
pub mod Document
pub mod Durable
pub mod Addresses
pub mod Systematics
pub mod Warnings
pub mod Tests
