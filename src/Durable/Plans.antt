-- ===== src/Durable/Plans.antt =====
-- `DurablePlan` and `DurablePlanV2` of core/plan.py as bytes. `json.dumps` of a document with sorted
-- keys, `json.loads` and base64 are parameters, and `Wire` is what `json.dumps` makes.
pub mod Reading
pub mod Written
use graphed.Prelude.{ℕ, String, Bool, false, Option, none, some, List, [], ◌∷◌, if◌then◌else◌}
use graphed.Prelude.Text.{str_eq, show}
use graphed.Dataset.{Dataset, partition_dataset, partition_datasets}
use graphed.Plan.{Task}
use graphed.Outcome.{value_error, Outcome, returns, raises, and_then}
use graphed.Partition.{Partition}
use graphed.Checkpoint.Blobs.{Bytes}
use graphed.Document.{
  JsonValue, text, number, null, array, object, Members, end, member, joined, member_at, text_at,
  number_at, object_at, array_at, as_text, as_number, as_object, as_array, elements, read_each,
}
use graphed.Services.Specs.{ServiceSpec, service_json, service_from_json}
use graphed.Durable.{
  OpSpec, op_json, op_from_json, partition_json, partition_from_json, framed, identity,
  partition_bytes,
}

pub record DurablePlan : Type 0 where
  pub ir : Bytes
  pub process : OpSpec
  pub combine : OpSpec
  pub empty : OpSpec
  pub partitions : List Partition
  pub read_columns : List String
  pub stopping : Members
  pub file_locality : Members
  pub resource_hints : Members
  pub format_version : ℕ
  pub services : List ServiceSpec
  pub finalize : Option OpSpec

-- `DurablePlan.with_partitions`
abbrev pub with_partitions : DurablePlan → List Partition → DurablePlan
with_partitions plan partitions = record plan { partitions = partitions }

-- `DurablePlan.for_dataset` and `DurablePlan.for_datasets`
unfoldable pub for_dataset : DurablePlan → Dataset → ℕ → Outcome DurablePlan
for_dataset plan dataset chunk_size =
    and_then (partition_dataset dataset chunk_size) (λ ps. returns (with_partitions plan ps))

unfoldable pub for_datasets : DurablePlan → List Dataset → ℕ → Outcome DurablePlan
for_datasets plan datasets chunk_size =
    and_then (partition_datasets datasets chunk_size) (λ ps. returns (with_partitions plan ps))

pub record StageSpec : Type 0 where
  pub kind : String
  pub inputs : List ℕ
  pub process : OpSpec
  pub routing : Members
  pub tasks : List Task

pub record DurablePlanV2 : Type 0 where
  pub ir : Bytes
  pub stages : List StageSpec
  pub services : List ServiceSpec
  pub finalize : Option OpSpec

-- FORMAT_VERSION_V2, which `format_version` of a `DurablePlanV2` is
abbrev pub format_version_v2 : String
format_version_v2 = "graphed-plan/2"

-- `DurablePlanV2.task_id`, for a stage of a plan with this IR
unfoldable pub task_id_v2 :
    (Bytes → String)
    → (JsonValue → Bytes)
    → (String → Bytes)
    → (String → Bytes)
    → Bytes
    → ℕ
    → StageSpec
    → Task
    → String
task_id_v2 sha256_hex dumps encode b64decode ir stage_index stage task = sha256_hex (
    framed (
      encode "graphed-task-v2"
      ∷ ir
      ∷ encode (show stage_index)
      ∷ encode stage.kind
      ∷ identity sha256_hex dumps encode b64decode stage.process
      ∷ dumps (object stage.routing)
      ∷ partition_bytes sha256_hex dumps encode b64decode task.partition
      ∷ encode (show task.key)
      ∷ []))

-- The keys that a plan's document has only when they are set.
abbrev pub services_member : List ServiceSpec → Members
services_member [] = end
services_member (s ∷ services) =
    member "services" (array (elements service_json (s ∷ services))) end

abbrev pub finalize_member : Option OpSpec → Members
finalize_member none = end
finalize_member (some spec) = member "finalize" (object (op_json spec)) end

-- `tuple(ServiceSpec.from_json(spec) for spec in doc.get("services", ()))`
unfoldable pub services_from_json : Members → Outcome (List ServiceSpec)
services_from_json doc = elim (member_at "services" doc) [
  | none ↦ returns []
  | some j ↦ and_then (as_array j) (read_each service_from_json)
]

abbrev pub op_of : JsonValue → Outcome OpSpec
op_of j = and_then (as_object j) op_from_json

-- `_finalize_from_json`
unfoldable pub finalize_from_json : Members → Outcome (Option OpSpec)
finalize_from_json doc = elim (member_at "finalize" doc) [
  | none ↦ returns none
  | some j ↦ elim j [
    | null ↦ returns none
    | other ↦ and_then (op_of other) (λ spec. returns (some spec))
  ]
]

abbrev pub partition_item : JsonValue → Outcome Partition
partition_item j = and_then (as_object j) partition_from_json

-- `{"key": t.key, "partition": _partition_json(t.partition)}`
unfoldable pub task_json : Task → JsonValue
task_json t =
    object
      (member "key" (number t.key) (member "partition" (object (partition_json t.partition)) end))

unfoldable pub task_from_json : JsonValue → Outcome Task
task_from_json j = and_then (as_object j) λ d. and_then (number_at "key" d) λ key.
    and_then (and_then (object_at "partition" d) partition_from_json)
      λ p. returns (record { key = key; partition = p })

-- `StageSpec._to_json`
unfoldable pub stage_json : StageSpec → JsonValue
unfolding task_json
stage_json s = object (
    member "kind" (text s.kind) (
      member "inputs" (array (elements number s.inputs)) (
        member "process" (object (op_json s.process)) (
          member "routing" (object s.routing)
            (member "tasks" (array (elements task_json s.tasks)) end)))))

-- `StageSpec._from_json`
unfoldable pub stage_from_json : JsonValue → Outcome StageSpec
unfolding task_from_json
stage_from_json j = and_then (as_object j) λ d. and_then (text_at "kind" d) λ kind.
    and_then (and_then (array_at "inputs" d) (read_each as_number)) λ inputs.
      and_then (and_then (object_at "process" d) op_from_json) λ process.
        and_then (object_at "routing" d) λ routing.
          and_then (and_then (array_at "tasks" d) (read_each task_from_json)) λ tasks.
            returns (record {
              kind = kind;
              inputs = inputs;
              process = process;
              routing = routing;
              tasks = tasks;
            })

module _ {Wire : Type 0} (dumps : JsonValue → Wire) (loads : Wire → Outcome JsonValue)
    (b64encode : Bytes → String) (b64decode : String → Bytes) where
  -- The document that `DurablePlan.to_bytes` writes.
  unfoldable pub plan_json : DurablePlan → Members
  unfolding joined
  plan_json p = member "format_version" (number p.format_version) (
      member "ir_b64" (text (b64encode p.ir)) (
        member "process" (object (op_json p.process)) (
          member "combine" (object (op_json p.combine)) (
            member "empty" (object (op_json p.empty)) (
              member "partitions" (array (elements (λ q. object (partition_json q)) p.partitions)) (
                member "read_columns" (array (elements text p.read_columns)) (
                  member "stopping" (object p.stopping) (
                    member "file_locality" (object p.file_locality) (
                      member "resource_hints" (object p.resource_hints)
                        (joined (services_member p.services) (finalize_member p.finalize)))))))))))

  -- `DurablePlan.to_bytes`
  unfoldable pub plan_to_bytes : DurablePlan → Wire
  plan_to_bytes p = dumps (object (plan_json p))

  -- What `DurablePlan.from_bytes` makes of the document.
  unfoldable pub plan_from_json : Members → Outcome DurablePlan
  unfolding services_from_json finalize_from_json
  plan_from_json doc = and_then (text_at "ir_b64" doc) λ ir_b64.
      and_then (and_then (object_at "process" doc) op_from_json) λ process.
        and_then (and_then (object_at "combine" doc) op_from_json) λ combine.
          and_then (and_then (object_at "empty" doc) op_from_json) λ empty.
            and_then (and_then (array_at "partitions" doc) (read_each partition_item)) λ partitions.
              and_then (and_then (array_at "read_columns" doc) (read_each as_text)) λ read_columns.
                and_then (object_at "stopping" doc) λ stopping.
                  and_then (object_at "file_locality" doc) λ file_locality.
                    and_then (object_at "resource_hints" doc) λ resource_hints.
                      and_then (number_at "format_version" doc) λ format_version.
                        and_then (services_from_json doc) λ services.
                          and_then (finalize_from_json doc) λ finalize. returns (record {
                            ir = b64decode ir_b64;
                            process = process;
                            combine = combine;
                            empty = empty;
                            partitions = partitions;
                            read_columns = read_columns;
                            stopping = stopping;
                            file_locality = file_locality;
                            resource_hints = resource_hints;
                            format_version = format_version;
                            services = services;
                            finalize = finalize;
                          })

  -- `DurablePlan.from_bytes`
  unfoldable pub plan_from_bytes : Wire → Outcome DurablePlan
  plan_from_bytes bytes = and_then (and_then (loads bytes) as_object) plan_from_json

  -- The document that `DurablePlanV2.to_bytes` writes.
  unfoldable pub plan_v2_json : DurablePlanV2 → Members
  unfolding joined
  plan_v2_json p = member "format_version" (text format_version_v2) (
      member "ir_b64" (text (b64encode p.ir)) (
        member "stages" (array (elements stage_json p.stages))
          (joined (services_member p.services) (finalize_member p.finalize))))

  -- `DurablePlanV2.to_bytes`
  unfoldable pub plan_v2_to_bytes : DurablePlanV2 → Wire
  plan_v2_to_bytes p = dumps (object (plan_v2_json p))

  -- `doc.get("format_version") == FORMAT_VERSION_V2`
  abbrev is_v2 : Option JsonValue → Bool
  is_v2 (some (text v)) = str_eq v format_version_v2
  is_v2 _ = false

  -- The refusal of another format is a ValueError, less what its message quotes.
  unfoldable pub plan_v2_from_json : Members → Outcome DurablePlanV2
  unfolding services_from_json finalize_from_json
  plan_v2_from_json doc =
      if is_v2 (member_at "format_version" doc)
      then (and_then (text_at "ir_b64" doc) λ ir_b64.
          and_then (and_then (array_at "stages" doc) (read_each stage_from_json)) λ stages.
            and_then (services_from_json doc) λ services.
              and_then (finalize_from_json doc) λ finalize. returns (record {
                ir = b64decode ir_b64;
                stages = stages;
                services = services;
                finalize = finalize;
              }))
      else raises (value_error "not a 'graphed-plan/2' blob")

  -- `DurablePlanV2.from_bytes`
  unfoldable pub plan_v2_from_bytes : Wire → Outcome DurablePlanV2
  plan_v2_from_bytes bytes = and_then (and_then (loads bytes) as_object) plan_v2_from_json
