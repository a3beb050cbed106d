-- ===== src/Services/Specs.antt =====
-- `Launch` and `ServiceSpec` of core/services.py and their JSON. The values of the mappings and the
-- timeout are any JSON values.
pub mod Reading
use graphed.Prelude.{
  ℕ, String, Bool, true, false, Option, none, some, List, [], ◌∷◌, ◌&&◌, ◌||◌, if◌then◌else◌,
}
use graphed.Prelude.Text.{str_eq}
use graphed.Outcome.{type_error, value_error, Outcome, returns, raises, and_then}
use graphed.Document.{
  JsonValue, text, float, number, null, array, object, nil, cons, Members, end, member, member_at,
  item, as_text, as_number, as_object, as_array, elements, read_each, sorted_items,
}

pub record Launch : Type 0 where
  pub argv : List String
  pub image : Option String
  pub inputs : List String
  pub env : Members
  pub resources : Members

pub record ServiceSpec : Type 0 where
  pub name : String
  pub kind : String
  pub check : String
  pub ports : ℕ × ℕ
  pub launch : Option Launch
  pub timeout_s : JsonValue

abbrev pub text_or_null : Option String → JsonValue
text_or_null none = null
text_or_null (some s) = text s

-- `Launch.to_json`
unfoldable pub launch_json : Launch → Members
launch_json l = member "argv" (array (elements text l.argv)) (
    member "env" (object (sorted_items l.env)) (
      member "image" (text_or_null l.image) (
        member "inputs" (array (elements text l.inputs))
          (member "resources" (object (sorted_items l.resources)) end))))

-- A call by keywords refuses a keyword that it does not know, and one that it misses.
unfoldable pub among : String → List String → Bool
among key [] = false
among key (k ∷ keys) = str_eq k key || among key keys

unfoldable pub only_keywords : List String → Members → Bool
unfolding among
only_keywords keys end = true
only_keywords keys (member k j d) = among k keys && only_keywords keys d

abbrev pub argument : {A : Type 0} → String → (JsonValue → Outcome A) → Members → Outcome A
argument key read d = elim (member_at key d) [
  | none ↦ raises (type_error "missing a required argument")
  | some j ↦ read j
]

abbrev pub argument_or : {A : Type 0} → A → String → (JsonValue → Outcome A) → Members → Outcome A
argument_or default key read d = elim (member_at key d) [ none ↦ returns default | some j ↦ read j ]

abbrev pub texts : JsonValue → Outcome (List String)
texts j = and_then (as_array j) (read_each as_text)

abbrev pub optional_text : JsonValue → Outcome (Option String)
optional_text null = returns none
optional_text j = and_then (as_text j) (λ s. returns (some s))

-- `Launch.from_json`
unfoldable pub launch_from_json : Members → Outcome Launch
unfolding only_keywords
launch_from_json d =
    if only_keywords ("argv" ∷ "image" ∷ "inputs" ∷ "env" ∷ "resources" ∷ []) d
    then (and_then (argument "argv" texts d) λ argv.
        and_then (argument_or none "image" optional_text d) λ image.
          and_then (argument_or [] "inputs" texts d) λ inputs.
            and_then (argument_or end "env" as_object d) λ env.
              and_then (argument_or end "resources" as_object d) λ resources. returns (record {
                argv = argv;
                image = image;
                inputs = inputs;
                env = env;
                resources = resources;
              }))
    else raises (type_error "got an unexpected keyword argument")

unfoldable pub launch_or_null : Option Launch → JsonValue
unfolding launch_json
launch_or_null none = null
launch_or_null (some l) = object (launch_json l)

-- `ServiceSpec.to_json`
unfoldable pub service_json : ServiceSpec → JsonValue
unfolding launch_or_null
service_json s = object (
    member "check" (text s.check) (
      member "kind" (text s.kind) (
        member "launch" (launch_or_null s.launch) (
          member "name" (text s.name) (
            member "ports" (array (cons (number s.ports.0) (cons (number s.ports.1) nil)))
              (member "timeout_s" s.timeout_s end))))))

-- `low, high = self.ports`
unfoldable pub port_pair : List ℕ → Outcome (ℕ × ℕ)
port_pair (low ∷ high ∷ []) = returns (low, high)
port_pair _ = raises (value_error "expected 2 values to unpack")

abbrev pub port_range : JsonValue → Outcome (ℕ × ℕ)
port_range j = and_then (and_then (as_array j) (read_each as_number)) port_pair

unfoldable pub optional_launch : JsonValue → Outcome (Option Launch)
unfolding launch_from_json
optional_launch null = returns none
optional_launch j = and_then (as_object j) λ d. and_then (launch_from_json d) λ l. returns (some l)

-- `ServiceSpec.from_json`: the launch is looked up first
unfoldable pub service_from_json : JsonValue → Outcome ServiceSpec
unfolding optional_launch only_keywords port_pair
service_from_json j = and_then (as_object j) λ d. and_then (item "launch" d) λ launch_json.
    and_then (optional_launch launch_json) λ launch.
      if only_keywords ("name" ∷ "kind" ∷ "check" ∷ "ports" ∷ "launch" ∷ "timeout_s" ∷ []) d
      then (and_then (argument "name" as_text d) λ name.
          and_then (argument "kind" as_text d) λ kind.
            and_then (argument_or "tcp" "check" as_text d) λ check.
              and_then (argument_or (10000, 10100) "ports" port_range d) λ ports.
                and_then (argument_or (float "600.0") "timeout_s" returns d) λ timeout_s.
                  returns (record {
                    name = name;
                    kind = kind;
                    check = check;
                    ports = ports;
                    launch = launch;
                    timeout_s = timeout_s;
                  }))
      else raises (type_error "got an unexpected keyword argument")
