-- ===== src/Systematics/Lineage.antt =====
-- systematics/lineage.py: which context an event context is derived from, and by what link.
-- A context is an object with an identity_of; a chain of parents is finite, since a parent exists
-- before its children. The Session, the collections and the ambient record are only read back.
pub mod Ancestry
pub mod Links
pub mod Unifying
pub mod Rows
use graphed.Prelude.{
  ℕ, String, Bool, true, false, ◌||◌, Option, none, some, List, [], ◌∷◌, ◌++◌, ◌==◌, if◌then◌else◌,
}
use mathlib.Core.List.{reverse}

-- `("mask", mask)`, `("vary", None)` and `("project", label)`
pub data Link (M : Type 0) : Type 0 where
  mask : M → Link M
  vary : Link M
  project : String → Link M

-- A context by its identity_of, its parent, if it has one, and its link, if it has one.
pub data EventContext (M : Type 0) : Type 0 where
  root : ℕ → Option (Link M) → EventContext M
  derived : ℕ → EventContext M → Option (Link M) → EventContext M

module _ {M : Type 0} where
  abbrev pub identity_of : EventContext M → ℕ
  identity_of (root i _) = i
  identity_of (derived i _ _) = i

  abbrev pub parent_of : EventContext M → Option (EventContext M)
  parent_of (root _ _) = none
  parent_of (derived _ parent _) = some parent

  abbrev pub link_of : EventContext M → Option (Link M)
  link_of (root _ link) = link
  link_of (derived _ _ link) = link

  -- `a is b`
  abbrev pub is_same : EventContext M → EventContext M → Bool
  is_same a b = identity_of a == identity_of b

  unfoldable pub is_ancestor : EventContext M → EventContext M → Bool
  is_ancestor ancestor (root i link) = is_same (root i link) ancestor
  is_ancestor ancestor (derived i parent link) =
      is_same (derived i parent link) ancestor || is_ancestor ancestor parent

  abbrev pub appended : List (Link M) → Option (Link M) → List (Link M)
  appended links none = links
  appended links (some link) = links ++ link ∷ []

  -- The loop of `links_below`, with the links that it has appended.
  unfoldable pub collected : List (Link M) → EventContext M → EventContext M → List (Link M)
  collected links (root i link) ancestor =
      if is_same (root i link) ancestor then links else appended links link
  collected links (derived i parent link) ancestor =
      let rest = collected (appended links link) parent ancestor in
      if is_same (derived i parent link) ancestor then links else rest

  unfoldable pub links_below : EventContext M → EventContext M → List (Link M)
  unfolding collected
  links_below ctx ancestor = reverse (collected [] ctx ancestor)

  -- A mask answers, a projection answers nothing, and a `vary` link goes on with what is above.
  unfoldable pub selected : Option (Link M) → Option M → Option M
  selected none above = none
  selected (some (mask m)) above = some m
  selected (some (project _)) above = none
  selected (some vary) above = above

  unfoldable pub selection : EventContext M → Option M
  unfolding selected
  selection (root _ link) = selected link none
  selection (derived _ parent link) = selected link (selection parent)

  abbrev pub is_vary : Option (Link M) → Bool
  is_vary (some vary) = true
  is_vary _ = false

  unfoldable pub row_space_above : EventContext M → EventContext M → Option (EventContext M)
  unfolding is_ancestor
  row_space_above (root _ _) ctx = none
  row_space_above (derived _ parent link) ctx =
      let rest = row_space_above parent ctx in
      if is_vary link
      then (if is_same parent ctx || is_ancestor parent ctx then some parent else rest)
      else none

  -- `[handle for handle in handles if handle is not None]`
  unfoldable pub present : List (Option (EventContext M)) → List (EventContext M)
  present [] = []
  present (none ∷ handles) = present handles
  present (some handle ∷ handles) = handle ∷ present handles

-- The most-derived handle, `None`, or the error that names two contexts on divergent branches.
pub data Unification (M : Type 0) : Type 0 where
  context_free : Unification M
  unified : EventContext M → Unification M
  divergent : EventContext M → EventContext M → Unification M

module _ {M : Type 0} where
  -- One round of the loop: the best handle so far, or nothing where the branches diverge.
  unfoldable pub better : EventContext M → EventContext M → Option (EventContext M)
  unfolding is_ancestor
  better best handle =
      if is_same handle best
      then some best
      else if is_ancestor best handle
      then some handle
      else if is_ancestor handle best
      then some best
      else none

  unfoldable pub unify_from : EventContext M → List (EventContext M) → Unification M
  unfolding better
  unify_from best [] = unified best
  unify_from best (handle ∷ handles) = elim (better best handle) [
    | none ↦ divergent best handle
    | some best' ↦ unify_from best' handles
  ]

  unfoldable pub unify_present : List (EventContext M) → Unification M
  unfolding unify_from
  unify_present [] = context_free
  unify_present (handle ∷ handles) = unify_from handle handles

  unfoldable pub unify_contexts : List (Option (EventContext M)) → Unification M
  unfolding unify_present present
  unify_contexts handles = unify_present (present handles)
