-- ===== src/Durable/Plans/Reading.antt =====
-- What is read from the bytes that a plan was written to.
use graphed.Prelude.{ℕ, ◌≡◌, refl, ap, ◌∙◌, Option, none, some, List, [], ◌∷◌, map, All, String}
use graphed.Plan.{Task}
use graphed.Outcome.{Outcome, returns}
use graphed.Partition.{Partition}
use graphed.Checkpoint.Blobs.{Bytes}
use graphed.Document.{
  JsonValue, number, object, member_at, as_number, elements, read_each, insert_sorted, sorted_json,
  sorted_elements, sorted_members,
}
use graphed.Document.Sorted.{read_each-elements, always, map-same}
use graphed.Services.Specs.{ServiceSpec, service_json, service_from_json}
use graphed.Services.Specs.Reading.{in_order_service, service_back, texts_back}
use graphed.Durable.{OpSpec, partition_json}
use graphed.Durable.Parts.{IsMade, op_from_json-op_json, partition_from_json-partition_json}
use graphed.Durable.Plans.{
  DurablePlan, StageSpec, DurablePlanV2, services_from_json, finalize_from_json, task_json,
  task_from_json, stage_json, stage_from_json, partition_item, plan_json, plan_from_json,
  plan_v2_json, plan_v2_from_json,
}

-- The plan with its mappings' keys in order: an equal plan, as Python compares dicts.
unfoldable pub in_order : DurablePlan → DurablePlan
unfolding in_order_service
in_order p = record p {
  stopping = sorted_members p.stopping;
  file_locality = sorted_members p.file_locality;
  resource_hints = sorted_members p.resource_hints;
  services = map in_order_service p.services;
}

unfoldable pub in_order_stage : StageSpec → StageSpec
in_order_stage s = record s { routing = sorted_members s.routing }

unfoldable pub in_order_v2 : DurablePlanV2 → DurablePlanV2
unfolding in_order_service in_order_stage
in_order_v2 p = record p {
  stages = map in_order_stage p.stages;
  services = map in_order_service p.services;
}

abbrev pub TaskIsMade : Task → Type 0
TaskIsMade t = IsMade t.partition

abbrev pub StageIsMade : StageSpec → Type 0
StageIsMade s = All TaskIsMade s.tasks

services_back :
    (services : List ServiceSpec)
    → read_each service_from_json (sorted_elements (elements service_json services))
      ≡ returns (map in_order_service services)
services_back services =
    read_each-elements (λ _. Unit {0}) in_order_service service_json service_from_json
      (λ s _. service_back s) services (always services)

partitions_back :
    (ps : List Partition)
    → All IsMade ps
    → read_each partition_item (sorted_elements (elements (λ q. object (partition_json q)) ps))
      ≡ returns ps
unfolding sorted_json
partitions_back ps made =
    read_each-elements IsMade (λ p. p) (λ q. object (partition_json q)) partition_item
      partition_from_json-partition_json ps made
    ∙ ap returns (map-same ps)

numbers_back :
    (ns : List ℕ) → read_each as_number (sorted_elements (elements number ns)) ≡ returns ns
unfolding sorted_json
numbers_back ns =
    read_each-elements (λ _. Unit {0}) (λ n. n) number as_number (λ n _. refl) ns (always ns)
    ∙ ap returns (map-same ns)

task_back : (t : Task) → TaskIsMade t → task_from_json (sorted_json (task_json t)) ≡ returns t
unfolding task_from_json task_json sorted_json member_at insert_sorted
task_back t made = rw (partition_from_json-partition_json t.partition made) refl

tasks_back :
    (ts : List Task)
    → All TaskIsMade ts
    → read_each task_from_json (sorted_elements (elements task_json ts)) ≡ returns ts
tasks_back ts made =
    read_each-elements TaskIsMade (λ t. t) task_json task_from_json task_back ts made
    ∙ ap returns (map-same ts)

stage_back :
    (s : StageSpec)
    → StageIsMade s
    → stage_from_json (sorted_json (stage_json s)) ≡ returns (in_order_stage s)
unfolding stage_from_json stage_json sorted_json member_at insert_sorted in_order_stage
stage_back s made =
    rw (numbers_back s.inputs, op_from_json-op_json s.process, tasks_back s.tasks made) refl

stages_back :
    (stages : List StageSpec)
    → All StageIsMade stages
    → read_each stage_from_json (sorted_elements (elements stage_json stages))
      ≡ returns (map in_order_stage stages)
stages_back = read_each-elements StageIsMade in_order_stage stage_json stage_from_json stage_back

module _ {Wire : Type 0} (dumps : JsonValue → Wire) (loads : Wire → Outcome JsonValue)
    (b64encode : Bytes → String) (b64decode : String → Bytes)
    (decoded : (b : Bytes) → b64decode (b64encode b) ≡ b) where
  pub plan_of :
      (services : List ServiceSpec) (finalize : Option OpSpec) (p : DurablePlan)
      → All IsMade p.partitions
      → let q : DurablePlan = record p { services = services; finalize = finalize } in
        plan_from_json dumps loads b64encode b64decode
          (sorted_members (plan_json dumps loads b64encode b64decode q))
        ≡ returns (in_order q)
  unfolding plan_from_json plan_json sorted_members member_at insert_sorted in_order
      services_from_json finalize_from_json
  plan_of [] none p made =
      rw
        (
          decoded p.ir,
          op_from_json-op_json p.process,
          op_from_json-op_json p.combine,
          op_from_json-op_json p.empty,
          partitions_back p.partitions made,
          texts_back p.read_columns,
        )
        refl
  plan_of [] (some f) p made =
      rw
        (
          decoded p.ir,
          op_from_json-op_json p.process,
          op_from_json-op_json p.combine,
          op_from_json-op_json p.empty,
          partitions_back p.partitions made,
          texts_back p.read_columns,
          op_from_json-op_json f,
        )
        refl
  plan_of (s ∷ services) none p made =
      rw
        (
          decoded p.ir,
          op_from_json-op_json p.process,
          op_from_json-op_json p.combine,
          op_from_json-op_json p.empty,
          partitions_back p.partitions made,
          texts_back p.read_columns,
          services_back (s ∷ services),
        )
        refl
  plan_of (s ∷ services) (some f) p made =
      rw
        (
          decoded p.ir,
          op_from_json-op_json p.process,
          op_from_json-op_json p.combine,
          op_from_json-op_json p.empty,
          partitions_back p.partitions made,
          texts_back p.read_columns,
          services_back (s ∷ services),
          op_from_json-op_json f,
        )
        refl

  pub v2_of :
      (services : List ServiceSpec) (finalize : Option OpSpec) (p : DurablePlanV2)
      → All StageIsMade p.stages
      → let q : DurablePlanV2 = record p { services = services; finalize = finalize } in
        plan_v2_from_json dumps loads b64encode b64decode
          (sorted_members (plan_v2_json dumps loads b64encode b64decode q))
        ≡ returns (in_order_v2 q)
  unfolding plan_v2_from_json plan_v2_json sorted_members member_at insert_sorted in_order_v2
      services_from_json finalize_from_json
  v2_of [] none p made = rw (decoded p.ir, stages_back p.stages made) refl
  v2_of [] (some f) p made =
      rw (decoded p.ir, stages_back p.stages made, op_from_json-op_json f) refl
  v2_of (s ∷ services) none p made =
      rw (decoded p.ir, stages_back p.stages made, services_back (s ∷ services)) refl
  v2_of (s ∷ services) (some f) p made =
      rw
        (
          decoded p.ir,
          stages_back p.stages made,
          services_back (s ∷ services),
          op_from_json-op_json f,
        )
        refl
