-- ===== src/Tests/Bindings.antt =====
-- A plan with two parts, which need the services `model` and `cuts`.
use graphed.Prelude.{◌≡◌, refl, String, List, [], ◌∷◌, All}
use graphed.Outcome.{hangs}
use graphed.Services.{Part, require_parts}
use graphed.Services.Rounds.{is_needed, Asks, require_parts-ends}
use graphed.Services.Gathering.{ask, ask-Asks}
use graphed.Services.Verdict.{refusal, IsAscending, AreDistinct, require_parts-refusal}

abbrev needs : List String
needs = "model" ∷ "cuts" ∷ []

abbrev parts : List Part
parts = ask ("cuts" ∷ []) ∷ ask needs ∷ []

parts-Asks : All (Asks needs) parts
parts-Asks =
    (ask-Asks needs ("cuts" ∷ []) (refl, tt), (ask-Asks needs needs (refl, (refl, tt)), tt))

require_parts-ends_example : ¬ require_parts 3 parts [] ≡ hangs
require_parts-ends_example = require_parts-ends needs parts parts-Asks

require_parts-refusal_example :
    (ns : List String) × (require_parts 4 parts [] ≡ refusal ns)
    × IsAscending ns
    × AreDistinct ns
    × ((name : String) → is_needed name ns ≡ is_needed name ("cuts" ∷ needs))
require_parts-refusal_example = require_parts-refusal (("cuts" ∷ []) ∷ needs ∷ [])
