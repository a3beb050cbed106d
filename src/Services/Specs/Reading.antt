-- ===== src/Services/Specs/Reading.antt =====
-- A service that is written to a document and read from it, its keys sorted on the way.
use mathlib.Core.Option.{map as map_option}
use graphed.Prelude.{◌≡◌, refl, ap, ◌∙◌, String, Option, none, some, List}
use graphed.Outcome.{returns}
use graphed.Document.{
  text, Members, object, member_at, insert_sorted, sorted_items, sorted_json, sorted_members,
  as_text, elements, read_each, sorted_elements,
}
use graphed.Document.Sorted.{
  read_each-elements, always, map-same, sorted_again, sorted_json-sorted_json,
}
use graphed.Services.Specs.{
  Launch, ServiceSpec, launch_json, launch_from_json, launch_or_null, optional_launch, service_json,
  service_from_json,
}

-- The launch and the service with their mappings' keys in order: equal, as Python compares them.
unfoldable pub in_order_launch : Launch → Launch
in_order_launch l = record l {
  env = sorted_members (sorted_items l.env);
  resources = sorted_members (sorted_items l.resources);
}

unfoldable pub in_order_service : ServiceSpec → ServiceSpec
unfolding in_order_launch
in_order_service s = record s {
  launch = map_option in_order_launch s.launch;
  timeout_s = sorted_json s.timeout_s;
}

pub texts_back :
    (xs : List String) → read_each as_text (sorted_elements (elements text xs)) ≡ returns xs
unfolding sorted_json
texts_back xs =
    read_each-elements (λ _. Unit {0}) (λ s. s) text as_text (λ s _. refl) xs (always xs)
    ∙ ap returns (map-same xs)

launch_of :
    (argv : List String) (image : Option String) (inputs : List String) (env resources : Members)
    → let l : Launch = record {
      argv = argv;
      image = image;
      inputs = inputs;
      env = env;
      resources = resources;
    } in
      launch_from_json (sorted_members (launch_json l)) ≡ returns (in_order_launch l)
unfolding launch_from_json launch_json member_at sorted_members insert_sorted in_order_launch
launch_of argv none inputs env resources = rw (texts_back argv, texts_back inputs) refl
launch_of argv (some image) inputs env resources = rw (texts_back argv, texts_back inputs) refl

launch_back :
    (l : Launch) → launch_from_json (sorted_members (launch_json l)) ≡ returns (in_order_launch l)
launch_back l = launch_of l.argv l.image l.inputs l.env l.resources

optional_launch_back :
    (o : Option Launch)
    → optional_launch (sorted_json (launch_or_null o)) ≡ returns (map_option in_order_launch o)
unfolding optional_launch launch_or_null sorted_json
optional_launch_back none = refl
optional_launch_back (some l) = rw (launch_back l) refl

pub service_back :
    (s : ServiceSpec)
    → service_from_json (sorted_json (service_json s)) ≡ returns (in_order_service s)
unfolding service_from_json service_json member_at sorted_json insert_sorted in_order_service
    read_each
service_back s = rw (optional_launch_back s.launch) refl

launch_in_order :
    (l : Launch) → sorted_members (launch_json (in_order_launch l)) ≡ sorted_members (launch_json l)
unfolding launch_json sorted_members insert_sorted in_order_launch
launch_in_order l = rw (sorted_again l.env, sorted_again l.resources) refl

optional_launch_in_order :
    (o : Option Launch)
    → sorted_json (launch_or_null (map_option in_order_launch o)) ≡ sorted_json (launch_or_null o)
unfolding launch_or_null sorted_json
optional_launch_in_order none = refl
optional_launch_in_order (some l) = ap object (launch_in_order l)

-- A service and the one with its keys in order are one document.
pub service_in_order :
    (s : ServiceSpec)
    → sorted_json (service_json (in_order_service s)) ≡ sorted_json (service_json s)
unfolding service_json sorted_json insert_sorted in_order_service
service_in_order s =
    rw (optional_launch_in_order s.launch, sorted_json-sorted_json s.timeout_s) refl
