-- ===== src/Tests/Contexts.antt =====
-- Event contexts: a root, a selection of it, variations of both, and a projection.
use graphed.Prelude.{ℕ, ◌≡◌, refl, none, some, [], ◌∷◌, if◌then◌else◌, ◌==◌}
use graphed.Systematics.Lineage.{
  mask, vary, project, EventContext, root, derived, links_below, selection, row_space_above,
  divergent, unify_contexts, present,
}
use graphed.Systematics.Lineage.Ancestry.{itself, above}
use graphed.Systematics.Lineage.Links.{LinksFrom, LinksFrom-links_below}
use graphed.Systematics.Lineage.Rows.{NearestAbove, row_space_above-nearest}
use graphed.Systematics.Lineage.Unifying.{Answers, unify_contexts-most_derived}

abbrev events : EventContext ℕ
events = root 0 none

abbrev selected_events : EventContext ℕ
selected_events = derived 1 events (some (mask 7))

abbrev varied : EventContext ℕ
varied = derived 2 selected_events (some vary)

abbrev varied_again : EventContext ℕ
varied_again = derived 3 varied (some vary)

abbrev sibling : EventContext ℕ
sibling = derived 4 selected_events (some (project "jes_up"))

abbrev objects : ℕ → EventContext ℕ
objects i =
    if i == 0
    then events
    else if i == 1
    then selected_events
    else if i == 2
    then varied
    else if i == 3
    then varied_again
    else sibling

LinksFrom-links_below_example : LinksFrom events varied_again (links_below varied_again events)
LinksFrom-links_below_example =
    LinksFrom-links_below objects (refl, (refl, (refl, refl))) (above (above (above itself)))

row_space_above-nearest_example :
    NearestAbove varied_again sibling (row_space_above varied_again sibling)
row_space_above-nearest_example =
    row_space_above-nearest objects varied_again sibling (refl, (refl, (refl, refl)))
      (refl, (refl, refl))

row_space_found : row_space_above varied_again sibling ≡ some selected_events
unfolding row_space_above
row_space_found = refl

unify_contexts-most_derived_example :
    Answers
      (present (some varied ∷ none ∷ some events ∷ some varied_again ∷ []))
      (unify_contexts (some varied ∷ none ∷ some events ∷ some varied_again ∷ []))
unfolding present
unify_contexts-most_derived_example =
    unify_contexts-most_derived objects (some varied ∷ none ∷ some events ∷ some varied_again ∷ [])
      ((refl, (refl, refl)), (refl, ((refl, (refl, (refl, refl))), tt)))

unify_contexts_divergent :
    unify_contexts (some varied ∷ some events ∷ some sibling ∷ []) ≡ divergent varied sibling
unfolding unify_contexts
unify_contexts_divergent = refl

selection_past_vary : selection varied_again ≡ some 7
unfolding selection
selection_past_vary = refl
