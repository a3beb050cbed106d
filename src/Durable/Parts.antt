-- ===== src/Durable/Parts.antt =====
-- Round trips of the JSON objects.
use graphed.Prelude.{String, ℕ, ◌<◌, ◌≡◌, refl, Option, none, some, arith}
use graphed.Document.{member_at, sorted_members, insert_sorted}
use graphed.Outcome.{returns}
use graphed.Partition.{Partition, blind, first}
use graphed.Durable.{OpSpec, Kind, op_json, op_from_json, partition_json, partition_from_json}

-- An operation is read back as it was written.
pub op_from_json-op_json : (s : OpSpec) → op_from_json (sorted_members (op_json s)) ≡ returns s
unfolding op_from_json op_json member_at sorted_members insert_sorted
op_from_json-op_json s = go s.kind s.ref s.blob_b64
  where
    go :
        (k : Kind) (r b : _)
        → op_from_json (sorted_members (op_json (record { kind = k; ref = r; blob_b64 = b })))
          ≡ returns (record { kind = k; ref = r; blob_b64 = b })
    go Kind.ref r b = refl
    go Kind.opaque r b = refl

-- A partition as `Partition(…)`, `Partition.blind` and `first` make it: an entry range with no blind
-- fields, or a step below the number of steps with no entry range.
abbrev pub IsMade : Partition → Type 0
IsMade p = elim p.blind_step [
  | none ↦ (p.blind_n_steps ≡ none) × (p.blind_limit ≡ none)
  | some step ↦
      (n_steps : ℕ) × (p.blind_n_steps ≡ some n_steps)
      × (step < n_steps)
      × (p.entry_start ≡ 0)
      × (p.entry_stop ≡ 0)
]

read_back :
    (uri tree : String) (start stop : ℕ) (step n_steps limit : Option ℕ)
    → let p : Partition = record {
      uri = uri;
      tree = tree;
      entry_start = start;
      entry_stop = stop;
      blind_step = step;
      blind_n_steps = n_steps;
      blind_limit = limit;
    } in
      IsMade p → partition_from_json (sorted_members (partition_json p)) ≡ returns p
unfolding partition_from_json partition_json member_at sorted_members insert_sorted blind first
read_back uri tree start stop none n_steps limit (a, b) = rw (a, b) refl
read_back uri tree start stop (some step) n_steps none (n, a, less, b, c) =
    rw (a, b, c) (ground (arith, less))
read_back uri tree start stop (some step) n_steps (some limit) (n, a, less, b, c) =
    rw (a, b, c) (ground (arith, less))

-- A partition is read back as it was written.
pub partition_from_json-partition_json :
    (p : Partition) → IsMade p → partition_from_json (sorted_members (partition_json p)) ≡ returns p
partition_from_json-partition_json p h =
    read_back p.uri p.tree p.entry_start p.entry_stop p.blind_step p.blind_n_steps p.blind_limit h
