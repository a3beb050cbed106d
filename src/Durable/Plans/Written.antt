-- ===== src/Durable/Plans/Written.antt =====
-- A plan that is written and read back, and each reader on the other format's bytes.
use graphed.Prelude.{◌≡◌, refl, ap, String, Option, none, some, List, [], ◌∷◌, All}
use graphed.Outcome.{Outcome, returns, raises, value_error}
use graphed.Checkpoint.Blobs.{Bytes}
use graphed.Document.{
  JsonValue, object, member_at, insert_sorted, sorted_json, sorted_members, key_error,
}
use graphed.Document.Sorted.{sorted_members-sorted_members, elements-same}
use graphed.Services.Specs.{ServiceSpec, service_json}
use graphed.Services.Specs.Reading.{in_order_service, service_in_order}
use graphed.Durable.{OpSpec}
use graphed.Durable.Parts.{IsMade}
use graphed.Durable.Plans.{
  DurablePlan, StageSpec, DurablePlanV2, stage_json, plan_json, plan_from_json, plan_to_bytes,
  plan_from_bytes, plan_v2_json, plan_v2_from_json, plan_v2_to_bytes, plan_v2_from_bytes,
}
use graphed.Durable.Plans.Reading.{
  in_order, in_order_stage, in_order_v2, StageIsMade, plan_of, v2_of,
}

-- What the two modules that the source calls document: `json.loads` reads the document whose keys
-- `json.dumps` has sorted, `json.dumps` writes documents that sort alike alike, and base64 is
-- decoded to what was encoded.
pub record Codecs (Wire : Type 0) : Type 0 where
  pub dumps : JsonValue → Wire
  pub loads : Wire → Outcome JsonValue
  pub b64encode : Bytes → String
  pub b64decode : String → Bytes
  pub loads-dumps : (j : JsonValue) → loads (dumps j) ≡ returns (sorted_json j)
  pub dumps_sorted : (i j : JsonValue) → sorted_json i ≡ sorted_json j → dumps i ≡ dumps j
  pub b64decode-b64encode : (b : Bytes) → b64decode (b64encode b) ≡ b

stage_in_order :
    (s : StageSpec) → sorted_json (stage_json (in_order_stage s)) ≡ sorted_json (stage_json s)
unfolding stage_json sorted_json insert_sorted in_order_stage
stage_in_order s = rw (sorted_members-sorted_members s.routing) refl

module _ {Wire : Type 0} (c : Codecs Wire) where
  open c use {dumps, loads, b64encode, b64decode, loads-dumps, dumps_sorted, b64decode-b64encode}

  same_document :
      (services : List ServiceSpec) (finalize : Option OpSpec) (p : DurablePlan)
      → let q : DurablePlan = record p { services = services; finalize = finalize } in
        sorted_members (plan_json dumps loads b64encode b64decode (in_order q))
        ≡ sorted_members (plan_json dumps loads b64encode b64decode q)
  unfolding plan_json sorted_members insert_sorted in_order
  same_document [] finalize p =
      rw
        (
          sorted_members-sorted_members p.stopping,
          sorted_members-sorted_members p.file_locality,
          sorted_members-sorted_members p.resource_hints,
        )
        refl
  same_document (s ∷ services) finalize p =
      rw
        (
          sorted_members-sorted_members p.stopping,
          sorted_members-sorted_members p.file_locality,
          sorted_members-sorted_members p.resource_hints,
          elements-same service_json in_order_service service_in_order (s ∷ services),
        )
        refl

  same_document_v2 :
      (services : List ServiceSpec) (finalize : Option OpSpec) (p : DurablePlanV2)
      → let q : DurablePlanV2 = record p { services = services; finalize = finalize } in
        sorted_members (plan_v2_json dumps loads b64encode b64decode (in_order_v2 q))
        ≡ sorted_members (plan_v2_json dumps loads b64encode b64decode q)
  unfolding plan_v2_json sorted_members insert_sorted in_order_v2
  same_document_v2 [] finalize p =
      rw (elements-same stage_json in_order_stage stage_in_order p.stages) refl
  same_document_v2 (s ∷ services) finalize p =
      rw
        (
          elements-same stage_json in_order_stage stage_in_order p.stages,
          elements-same service_json in_order_service service_in_order (s ∷ services),
        )
        refl

  -- A plan of partitions as `Partition(…)`, `Partition.blind` and `first` make them is read back from
  -- the bytes that it was written to, with the keys of its mappings in order, and what is read
  -- back is written to the same bytes.
  pub plan_from_bytes-plan_to_bytes :
      (p : DurablePlan)
      → All IsMade p.partitions
      → let bytes = plan_to_bytes dumps loads b64encode b64decode in
        (plan_from_bytes dumps loads b64encode b64decode (bytes p) ≡ returns (in_order p))
        × (bytes (in_order p) ≡ bytes p)
  unfolding plan_from_bytes plan_to_bytes sorted_json
  plan_from_bytes-plan_to_bytes p made = (
    rw (loads-dumps (object (plan_json dumps loads b64encode b64decode p)))
        (plan_of dumps loads b64encode b64decode b64decode-b64encode p.services p.finalize p made),
    dumps_sorted _ _ (ap object (same_document p.services p.finalize p)),
  )

  -- The same for a staged plan.
  pub plan_v2_from_bytes-plan_v2_to_bytes :
      (p : DurablePlanV2)
      → All StageIsMade p.stages
      → let bytes = plan_v2_to_bytes dumps loads b64encode b64decode in
        (plan_v2_from_bytes dumps loads b64encode b64decode (bytes p) ≡ returns (in_order_v2 p))
        × (bytes (in_order_v2 p) ≡ bytes p)
  unfolding plan_v2_from_bytes plan_v2_to_bytes sorted_json
  plan_v2_from_bytes-plan_v2_to_bytes p made = (
    rw (loads-dumps (object (plan_v2_json dumps loads b64encode b64decode p)))
        (v2_of dumps loads b64encode b64decode b64decode-b64encode p.services p.finalize p made),
    dumps_sorted _ _ (ap object (same_document_v2 p.services p.finalize p)),
  )

  v1_refused :
      (services : List ServiceSpec) (finalize : Option OpSpec) (p : DurablePlan)
      → let q : DurablePlan = record p { services = services; finalize = finalize } in
        plan_v2_from_json dumps loads b64encode b64decode
          (sorted_members (plan_json dumps loads b64encode b64decode q))
        ≡ raises (value_error "not a 'graphed-plan/2' blob")
  unfolding plan_v2_from_json plan_json sorted_members insert_sorted member_at
  v1_refused [] none p = refl
  v1_refused [] (some f) p = refl
  v1_refused (s ∷ services) none p = refl
  v1_refused (s ∷ services) (some f) p = refl

  v2_refused :
      (services : List ServiceSpec) (finalize : Option OpSpec) (p : DurablePlanV2)
      → let q : DurablePlanV2 = record p { services = services; finalize = finalize } in
        plan_from_json dumps loads b64encode b64decode
          (sorted_members (plan_v2_json dumps loads b64encode b64decode q))
        ≡ raises (key_error "process")
  unfolding plan_from_json plan_v2_json sorted_members insert_sorted member_at
  v2_refused [] none p = refl
  v2_refused [] (some f) p = refl
  v2_refused (s ∷ services) none p = refl
  v2_refused (s ∷ services) (some f) p = refl

  -- Each reader refuses the bytes of the other format: that of the staged plans with a ValueError, and
  -- that of the unstaged ones with the KeyError of the first key that it misses.
  pub readers_refuse :
      (p : DurablePlan) (q : DurablePlanV2)
      → (plan_v2_from_bytes dumps loads b64encode b64decode
            (plan_to_bytes dumps loads b64encode b64decode p)
          ≡ raises (value_error "not a 'graphed-plan/2' blob"))
        × (plan_from_bytes dumps loads b64encode b64decode
              (plan_v2_to_bytes dumps loads b64encode b64decode q)
            ≡ raises (key_error "process"))
  unfolding plan_from_bytes plan_to_bytes plan_v2_from_bytes plan_v2_to_bytes sorted_json
  readers_refuse p q = (
    rw (loads-dumps (object (plan_json dumps loads b64encode b64decode p)))
        (v1_refused p.services p.finalize p),
    rw (loads-dumps (object (plan_v2_json dumps loads b64encode b64decode q)))
        (v2_refused q.services q.finalize q),
  )
