-- ===== src/Durable.antt =====
-- core/plan.py: how a durable plan's operations and partitions are written as JSON objects, and how
-- task ids are hashed. SHA-256 and `json.dumps` are parameters, and bytes are lists of numbers.
pub mod Framing
pub mod Parts
pub mod Plans
use graphed.Prelude.{
  ℕ, suc, zero, ◌+◌, ◌/◌, ◌%◌, String, Option, none, some, List, [], ◌∷◌, ◌++◌, if◌then◌else◌,
  length,
}
use graphed.Prelude.Text.{str_eq, concat, repr}
use graphed.Document.{
  JsonValue, text, number, object, Members, end, member, joined, member_at, text_at, number_at,
  text_or, number_or,
}
use graphed.Outcome.{value_error, Outcome, returns, raises, and_then}
use graphed.Partition.{Partition, ranged, blind, first, is_set}
use graphed.Checkpoint.Blobs.{Bytes}

-- `n.to_bytes(width, "big")`, for an `n` that fits
unfoldable pub to_bytes : ℕ → ℕ → Bytes
to_bytes zero n = []
to_bytes (suc width) n = to_bytes width (n / 256) ++ (n % 256) ∷ []

-- What `_sha256_hex` feeds to the hash: each part behind its length in eight bytes.
unfoldable pub framed : List Bytes → Bytes
framed [] = []
framed (p ∷ parts) = to_bytes 8 (length p) ++ (p ++ framed parts)

-- `kind` tells a referenced callable from an embedded one; `live` is no part of bytes or identity.
pub data Kind : Type 0 where
  ref opaque : Kind

pub record OpSpec : Type 0 where
  pub kind : Kind
  pub ref : String
  pub blob_b64 : String

abbrev pub kind_name : Kind → String
kind_name Kind.ref = "ref"
kind_name Kind.opaque = "opaque"

-- `OpSpec._to_json`
unfoldable pub op_json : OpSpec → Members
op_json s =
    member "kind" (text (kind_name s.kind))
      (member "ref" (text s.ref) (member "blob_b64" (text s.blob_b64) end))

-- `OpSpec._from_json`
unfoldable pub op_from_json : Members → Outcome OpSpec
op_from_json d = and_then (text_at "kind" d) λ kind. and_then (text_or "" "ref" d) λ r.
    and_then (text_or "" "blob_b64" d) λ blob.
      if str_eq kind "ref"
      then returns (record { kind = Kind.ref; ref = r; blob_b64 = blob })
      else if str_eq kind "opaque"
      then returns (record { kind = Kind.opaque; ref = r; blob_b64 = blob })
      else raises (value_error (concat ("unknown OpSpec kind " ∷ repr kind ∷ [])))

abbrev step_fields : Option ℕ → Option ℕ → Members
step_fields (some step) (some n_steps) =
    member "blind_step" (number step) (member "blind_n_steps" (number n_steps) end)
step_fields _ _ = end

abbrev limit_fields : Option ℕ → Members
limit_fields none = end
limit_fields (some limit) = member "blind_limit" (number limit) end

-- `_partition_json`
unfoldable pub partition_json : Partition → Members
unfolding joined
partition_json p = member "uri" (text p.uri) (
    member "tree" (text p.tree) (
      member "entry_start" (number p.entry_start) (
        member "entry_stop" (number p.entry_stop)
          (joined (step_fields p.blind_step p.blind_n_steps) (limit_fields p.blind_limit)))))

-- The branch of `_partition_from_json` for a blind partition.
abbrev blind_from_json : Members → Outcome Partition
blind_from_json d = and_then (text_at "uri" d) λ uri. and_then (text_or "" "tree" d) λ tree.
    and_then (number_at "blind_step" d) λ step. and_then (number_at "blind_n_steps" d) λ n_steps.
      and_then (blind uri tree step n_steps) λ p.
        if is_set (member_at "blind_limit" d)
        then and_then (number_at "blind_limit" d) (λ limit. returns (first p limit))
        else returns p

-- `_partition_from_json`
unfoldable pub partition_from_json : Members → Outcome Partition
partition_from_json d =
    if is_set (member_at "blind_step" d)
    then blind_from_json d
    else and_then (text_at "uri" d) λ uri. and_then (text_or "" "tree" d) λ tree.
      and_then (number_or 0 "entry_start" d)
        λ start. and_then (number_or 0 "entry_stop" d) λ stop. returns (ranged uri tree start stop)

module _ (sha256_hex : Bytes → String) (dumps : JsonValue → Bytes) (encode : String → Bytes)
    (b64decode : String → Bytes) where
  -- `OpSpec.identity`: "ref" or "opaque" with a zero byte, then the reference or the bytes
  unfoldable pub identity : OpSpec → Bytes
  identity s = elim s.kind [
    | Kind.ref ↦ 114 ∷ 101 ∷ 102 ∷ 0 ∷ encode s.ref
    | Kind.opaque ↦ 111 ∷ 112 ∷ 97 ∷ 113 ∷ 117 ∷ 101 ∷ 0 ∷ b64decode s.blob_b64
  ]

  -- `_partition_bytes`
  unfoldable pub partition_bytes : Partition → Bytes
  partition_bytes p = dumps (object (partition_json p))

  -- `DurablePlan.task_id`, for a plan with this IR and process
  unfoldable pub task_id : Bytes → OpSpec → Partition → String
  task_id ir process p =
      sha256_hex
        (framed (encode "graphed-task-v1" ∷ ir ∷ identity process ∷ partition_bytes p ∷ []))
