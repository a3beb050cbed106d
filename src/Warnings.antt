-- ===== src/Warnings.antt =====
-- core/worker_warnings.py: a task's warnings, carried to the driver in its partial. The categories of
-- warnings are a type with a test for equality; which of them survive the trip is a parameter.
pub mod Merge
pub mod Fold
pub mod Keeping
use graphed.Prelude.{ℕ, String, Bool, ◌&&◌, Option, none, some, List, [], ◌∷◌, ◌++◌, if◌then◌else◌}
use graphed.Prelude.Text.{str_eq, concat}
use graphed.Outcome.{Outcome, returns, Exec, pure, lift, and_then, ◌>>=◌, ◌>>◌}

-- The category and the message of a warning.
abbrev pub Key : Type 0 → Type 0
Key C = C × String

-- Where it was issued: the file and the line …
abbrev pub Site : Type 0
Site = String × ℕ

-- … and in which chunk.
abbrev pub ChunkSite : Type 0
ChunkSite = String × ℕ × String

-- `_Caught`, as the items of the dict
abbrev pub Caught : Type 0 → Type 0
Caught C = List (Key C × Site)

-- What a partial carries.
abbrev pub Carried : Type 0 → Type 0
Carried C = List (Key C × ChunkSite)

-- A partial: a plain value, or a `Warned`.
pub data MaybeWarned (C V : Type 0) : Type 0 where
  plain : V → MaybeWarned C V
  warned : V → Carried C → MaybeWarned C V

module _ {C : Type 0} (same : C → C → Bool) where
  -- equality of the keys
  unfoldable pub same_key : Key C → Key C → Bool
  same_key (c, message) (d, text) = same c d && str_eq message text

  module _ {A : Type 0} where
    -- `d.get(key)`
    unfoldable pub find : Key C → List (Key C × A) → Option A
    find key [] = none
    find key ((k, a) ∷ rest) = if same_key k key then some a else find key rest

    -- `d[key] = a`
    unfoldable pub set : Key C → A → List (Key C × A) → List (Key C × A)
    set key a [] = (key, a) ∷ []
    set key a ((k, b) ∷ rest) =
        let others = set key a rest in if same_key k key then (k, a) ∷ rest else (k, b) ∷ others

    default_to : Option A → Key C → A → List (Key C × A) → List (Key C × A)
    default_to none key a d = d ++ (key, a) ∷ []
    default_to (some _) key a d = d

    -- `d.setdefault(key, a)`
    unfoldable pub setdefault : Key C → A → List (Key C × A) → List (Key C × A)
    unfolding default_to
    setdefault key a d = default_to (find key d) key a d

    -- `{**d, **e}`
    unfoldable pub merge : List (Key C × A) → List (Key C × A) → List (Key C × A)
    merge d [] = d
    merge d ((k, a) ∷ e) = merge (set k a d) e

  -- `{(_carried(kind), message): (*where, chunk) for … in caught.items()}`
  unfoldable pub with_chunk : (C → C) → String → Caught C → Carried C → Carried C
  with_chunk carried chunk [] d = d
  with_chunk carried chunk (((c, message), (file, line)) ∷ caught) d =
      with_chunk carried chunk caught (set (carried c, message) (file, line, chunk) d)

  -- `carrying`; a chunk that is called for its name is given by that name
  unfoldable pub carrying : {V : Type 0} → (C → C) → V → Caught C → String → MaybeWarned C V
  unfolding with_chunk
  carrying carried value [] chunk = plain value
  carrying carried value (w ∷ caught) chunk =
      warned value (with_chunk carried chunk (w ∷ caught) [])

  -- `_split`
  abbrev pub split : {V : Type 0} → MaybeWarned C V → V × Carried C
  split (plain value) = (value, [])
  split (warned value caught) = (value, caught)

  -- `Warned(value, caught) if caught else value`
  unfoldable pub with_caught : {V : Type 0} → V → Carried C → MaybeWarned C V
  with_caught value [] = plain value
  with_caught value (w ∷ caught) = warned value (w ∷ caught)

  -- `WarnedCombine.__call__`
  unfoldable pub warned_combine :
      {V : Type 0}
      → (V → V → Outcome V)
      → MaybeWarned C V
      → MaybeWarned C V
      → Outcome (MaybeWarned C V)
  unfolding with_caught merge
  warned_combine fn a b =
      let (left, left_caught) = split a in
      let (right, right_caught) = split b in
      and_then (fn left right)
        (λ value. returns (with_caught value (merge right_caught left_caught)))

  -- `on_value`
  unfoldable pub on_value :
      {V R : Type 0} → (V → Outcome R) → MaybeWarned C V → Outcome (MaybeWarned C R)
  unfolding with_caught
  on_value fn value =
      let (bare, caught) = split value in and_then (fn bare) (λ v. returns (with_caught v caught))

  module _ {W : Type 0} (warn : C → String → Site → Exec W (Unit {0})) where
    -- the loop of `without_warnings`, over `warnings.warn_explicit`
    issue : Carried C → Exec W (Unit {0})
    issue [] = pure tt
    issue (((c, message), (file, line, chunk)) ∷ caught) =
        warn c (concat (message ∷ " [first in " ∷ chunk ∷ "]" ∷ [])) (file, line) >> issue caught

    -- `without_warnings`
    unfoldable pub without_warnings : {V : Type 0} → MaybeWarned C V → Exec W V
    unfolding issue
    without_warnings value = let (bare, caught) = split value in issue caught >> pure bare

    finalized : {V : Type 0} → Option (V → Outcome V) → V → Outcome V
    finalized none value = returns value
    finalized (some fn) value = fn value

    -- `WarnedFinalize.__call__`
    unfoldable pub warned_finalize :
        {V : Type 0} → Option (V → Outcome V) → MaybeWarned C V → Exec W V
    unfolding without_warnings finalized
    warned_finalize fn value = without_warnings value >>= λ v. lift (finalized fn v)
