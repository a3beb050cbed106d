-- ===== src/Tests/Durables.antt =====
-- Operations, partitions and frames of durable plans.
use graphed.Prelude.{◌≡◌, refl, some, List, [], ◌∷◌, arith}
use graphed.Prelude.{ℕ, zero, suc, ◌+◌, String, none, true, false, ap, ◌∙◌, ◌==◌, ap₂}
use Prim.Native.Char.{code}
use graphed.Addresses.{AddressTable}
use graphed.Outcome.{returns, raises, value_error}
use graphed.Partition.{Partition, ranged}
use graphed.Durable.{Kind, OpSpec}
use graphed.Document.{JsonValue, text, float, end, member, sorted_json, key_error}
use graphed.Services.Specs.{ServiceSpec}
use graphed.Durable.Plans.{
  DurablePlan, DurablePlanV2, plan_to_bytes, plan_from_bytes, plan_v2_to_bytes, plan_v2_from_bytes,
}
use graphed.Durable.Plans.Reading.{in_order, in_order_v2}
use graphed.Durable.Plans.Written.{
  Codecs, plan_from_bytes-plan_to_bytes, plan_v2_from_bytes-plan_v2_to_bytes, readers_refuse,
}
use graphed.Durable.Framing.{framed-injective}
use graphed.Checkpoint.Blobs.{Bytes}

abbrev imported : OpSpec
imported = record { kind = Kind.ref; ref = "builtins:list"; blob_b64 = "" }

-- Step 1 of 3, cut to 100 entries.
abbrev step_one : Partition
step_one = record (ranged "a.root" "Events" 0 0) {
  blind_step = some 1;
  blind_n_steps = some 3;
  blind_limit = some 100;
}

abbrev two_parts : List Bytes
two_parts = (1 ∷ 2 ∷ []) ∷ (3 ∷ []) ∷ []

framed-injective_example : two_parts ≡ (1 ∷ 2 ∷ []) ∷ (3 ∷ []) ∷ []
framed-injective_example =
    framed-injective two_parts two_parts (omega arith, (omega arith, tt))
      (omega arith, (omega arith, tt)) refl

abbrev one_node : AddressTable
one_node = record { addresses = ("n1", ("host", 80)) ∷ []; provenance = ("n1", "child") ∷ [] }

-- A code of bytes as texts: as many `1`s as each byte says, and a `0` behind them.
ones : ℕ → String → String
ones zero s = s
ones (suc n) s = String.◌∷◌ "1" (ones n s)

pub in_ones : Bytes → String
in_ones [] = ""
in_ones (b ∷ bytes) = ones b (String.◌∷◌ "0" (in_ones bytes))

pub counted_ones : ℕ → String → Bytes
counted_ones n String.[] = []
counted_ones n (String.◌∷◌ c s) = elim (code c == 48) [
  | true ↦ n ∷ counted_ones 0 s
  | false ↦ counted_ones (suc n) s
]

counted_ones-ones :
    (n m : ℕ) (s : String) → counted_ones n (ones m (String.◌∷◌ "0" s)) ≡ (n + m) ∷ counted_ones 0 s
unfolding ones counted_ones
counted_ones-ones n zero s = ap (λ k. k ∷ counted_ones 0 s) (omega arith)
counted_ones-ones n (suc m) s =
    counted_ones-ones (suc n) m s ∙ ap (λ k. k ∷ counted_ones 0 s) (omega arith)

pub counted_ones-in_ones : (bytes : Bytes) → counted_ones 0 (in_ones bytes) ≡ bytes
unfolding in_ones counted_ones
counted_ones-in_ones [] = refl
counted_ones-in_ones (b ∷ bytes) =
    counted_ones-ones 0 b (in_ones bytes) ∙ ap₂ ◌∷◌ (omega arith) (counted_ones-in_ones bytes)

-- A wire that is the sorted document itself.
abbrev direct : Codecs JsonValue
direct = record {
  dumps = sorted_json;
  loads = λ j. returns j;
  b64encode = in_ones;
  b64decode = counted_ones 0;
  loads-dumps = λ j. refl;
  dumps_sorted = λ i j e. e;
  b64decode-b64encode = counted_ones-in_ones;
}

abbrev model_service : ServiceSpec
model_service = record {
  name = "model";
  kind = "triton";
  check = "tcp";
  ports = (10000, 10100);
  launch = some (record {
    argv = "serve" ∷ "{port}" ∷ [];
    image = none;
    inputs = [];
    env = member "B" (text "2") (member "A" (text "1") end);
    resources = end;
  });
  timeout_s = float "600.0";
}

abbrev plan_one : DurablePlan
plan_one = record {
  ir = 1 ∷ 2 ∷ [];
  process = imported;
  combine = imported;
  empty = imported;
  partitions = step_one ∷ ranged "b.root" "Events" 0 10 ∷ [];
  read_columns = "pt" ∷ [];
  stopping = member "z" (float "1.0") (member "a" (float "2.0") end);
  file_locality = end;
  resource_hints = end;
  format_version = 1;
  services = model_service ∷ [];
  finalize = some imported;
}

abbrev plan_two : DurablePlanV2
plan_two = record {
  ir = 1 ∷ [];
  stages =
      record {
        kind = "map_write";
        inputs = [];
        process = imported;
        routing = member "scheme" (text "hash") (member "key" (text "k") end);
        tasks = record { key = 0; partition = step_one } ∷ [];
      }
      ∷ [];
  services = [];
  finalize = none;
}

plan_from_bytes-plan_to_bytes_example :
    let bytes = plan_to_bytes sorted_json direct.loads in_ones (counted_ones 0) in
    (plan_from_bytes sorted_json direct.loads in_ones (counted_ones 0) (bytes plan_one)
      ≡ returns (in_order plan_one))
    × (bytes (in_order plan_one) ≡ bytes plan_one)
plan_from_bytes-plan_to_bytes_example =
    plan_from_bytes-plan_to_bytes direct plan_one
      ((3, refl, omega arith, refl, refl), ((refl, refl), tt))

plan_v2_from_bytes-plan_v2_to_bytes_example :
    let bytes = plan_v2_to_bytes sorted_json direct.loads in_ones (counted_ones 0) in
    (plan_v2_from_bytes sorted_json direct.loads in_ones (counted_ones 0) (bytes plan_two)
      ≡ returns (in_order_v2 plan_two))
    × (bytes (in_order_v2 plan_two) ≡ bytes plan_two)
plan_v2_from_bytes-plan_v2_to_bytes_example =
    plan_v2_from_bytes-plan_v2_to_bytes direct plan_two
      (((3, refl, omega arith, refl, refl), tt), tt)

readers_refuse_example :
    (plan_v2_from_bytes sorted_json direct.loads in_ones
        (counted_ones 0)
        (plan_to_bytes sorted_json direct.loads in_ones (counted_ones 0) plan_one)
      ≡ raises (value_error "not a 'graphed-plan/2' blob"))
    × (plan_from_bytes sorted_json direct.loads in_ones
          (counted_ones 0)
          (plan_v2_to_bytes sorted_json direct.loads in_ones (counted_ones 0) plan_two)
        ≡ raises (key_error "process"))
readers_refuse_example = readers_refuse direct plan_one plan_two
