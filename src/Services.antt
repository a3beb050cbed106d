-- ===== src/Services.antt =====
-- `require_bound` and `_require_parts` of core/execution.py: which services of a plan have no
-- endpoint. A `Bindable` part is what its `bind_services` does with the endpoints: return, or raise.
pub mod Rounds
pub mod Gathering
pub mod Verdict
pub mod Specs
use graphed.Prelude.{
  ℕ, zero, suc, String, Bool, true, false, Option, none, some, List, [], ◌∷◌, ◌++◌, map,
  if◌then◌else◌,
}
use graphed.Prelude.Text.{str_eq, str_leb}
use graphed.Prelude.Sorting.{sorted}
use graphed.Outcome.{Exn, unbound_services, Outcome, returns, raises, hangs, and_then}
use graphed.Plan.{Settings}

-- `bind_services(endpoints)`
abbrev pub Part : Type 0
Part = List (String × String) → Outcome (Unit {0})

unfoldable pub has_name : String → List (String × String) → Bool
has_name name [] = false
has_name name ((n, _) ∷ rest) = if str_eq n name then true else has_name name rest

abbrev pub names : List (String × String) → List String
names endpoints = map (λ e. e.0) endpoints

-- `for part in parts: part.bind_services(missing)`
unfoldable pub bind_each : List Part → List (String × String) → Outcome (Unit {0})
bind_each [] missing = returns tt
bind_each (part ∷ parts) missing = and_then (part missing) (λ _. bind_each parts missing)

-- What one pass through the `while True` loop of `_require_parts` decides: to end, or to go round
-- again with one more name.
pub data Pass : Type 0 where
  ends : Outcome (Unit {0}) → Pass
  again : List (String × String) → Pass

unfoldable pub unbound_error : List (String × String) → Exn
unbound_error missing = unbound_services (sorted str_leb (names missing))

unfoldable pub after_binding : List (String × String) → Outcome (Unit {0}) → Pass
unfolding has_name unbound_error
after_binding [] (returns _) = ends (returns tt)
after_binding (m ∷ missing) (returns _) = ends (raises (unbound_error (m ∷ missing)))
after_binding missing (raises (unbound_services (name ∷ more))) =
    if has_name name missing
    then ends (raises (unbound_services (name ∷ more)))
    else again (missing ++ (name, "tcp://unbound:0") ∷ [])
after_binding missing (raises e) = ends (raises e)
after_binding missing hangs = ends hangs

-- The loop, for at most `rounds` passes: with none left it goes on for ever.
unfoldable pub require_parts : ℕ → List Part → List (String × String) → Outcome (Unit {0})
unfolding bind_each after_binding
require_parts zero parts missing = hangs
require_parts (suc rounds) parts missing = elim (after_binding missing (bind_each parts missing)) [
  | ends r ↦ r
  | again missing' ↦ require_parts rounds parts missing'
]

abbrev as_parts : Option Part → List Part
as_parts none = []
as_parts (some part) = part ∷ []

abbrev is_empty : List String → Bool
is_empty [] = true
is_empty _ = false

-- `require_bound` of a `Plan`
unfoldable pub require_bound : {R : Type 0} → ℕ → Settings R → Outcome (Unit {0})
unfolding require_parts
require_bound rounds plan =
    if is_empty plan.services then returns tt else require_parts rounds (as_parts plan.bind) []
