-- ===== src/Warnings/Keeping.antt =====
-- `_keep_or_show` and `keeping_warnings` of core/worker_warnings.py: what a task issues in a worker is
-- kept, and what is issued elsewhere is shown.
use graphed.Prelude.{
  String, ◌≡◌, refl, Bool, true, false, Option, none, some, List, [], ◌∷◌, ◌++◌, map,
}
use graphed.Prelude.Text.{concat, show}
use graphed.Outcome.{Outcome, returns, raises, hangs, Exec}
use graphed.Warnings.{Key, Site, Caught, setdefault}

-- The context variable `_sink`, the notes of the exception in flight, and what is outside.
pub record Context (C W : Type 0) : Type 0 where
  pub sink : Option (Caught C)
  pub notes : List String
  pub outside : W

module _ {C W : Type 0} (same : C → C → Bool) (name_of : C → String)
    (shown : Key C → Site → Exec W (Unit {0})) where
  keep_in : Option (Caught C) → Key C → Site → Exec (Context C W) (Unit {0})
  keep_in none key site x = let (o, w) = shown key site x.outside in (o, record x { outside = w })
  keep_in (some caught) key site x =
      (returns tt, record x { sink = some (setdefault same key site caught) })

  -- `_keep_or_show`
  unfoldable pub keep_or_show : Key C → Site → Exec (Context C W) (Unit {0})
  unfolding keep_in
  keep_or_show key site x = keep_in x.sink key site x

  -- `f"{category.__name__} before this: {message} ({filename}:{lineno})"`
  note : Key C × Site → String
  note ((category, message), (file, line)) =
      concat
        (name_of category ∷ " before this: " ∷ message ∷ " (" ∷ file ∷ ":" ∷ show line ∷ ")" ∷ [])

  kept_in : Option (Caught C) → Caught C
  kept_in none = []
  kept_in (some caught) = caught

  -- The end of the `with` block: the caught warnings beside its value, or as notes of its exception,
  -- and the sink that was there before.
  released :
      {A : Type 0}
      → Option (Caught C)
      → Outcome A × Context C W
      → Outcome (A × Caught C) × Context C W
  unfolding kept_in note
  released before (returns a, x) = (returns (a, kept_in x.sink), record x { sink = before })
  released before (raises e, x) =
      (raises e, record x { sink = before; notes = x.notes ++ map note (kept_in x.sink) })
  released before (hangs, x) = (hangs, x)

  outside_worker : {A : Type 0} → Outcome A × Context C W → Outcome (A × Caught C) × Context C W
  outside_worker (returns a, x) = (returns (a, []), x)
  outside_worker (raises e, x) = (raises e, x)
  outside_worker (hangs, x) = (hangs, x)

  -- `with keeping_warnings() as caught: block`, in a process that is a worker or is not
  unfoldable pub keeping_warnings :
      {A : Type 0} → Bool → Exec (Context C W) A → Exec (Context C W) (A × Caught C)
  unfolding released outside_worker
  keeping_warnings false block x = outside_worker (block x)
  keeping_warnings true block x = released x.sink (block (record x { sink = some [] }))

  -- However the block ends, the sink is the one that was there before.
  pub keeping_warnings-sink :
      {A : Type 0} (block : Exec (Context C W) A) (x : Context C W)
      → ¬ (keeping_warnings true block x).0 ≡ hangs
      → (keeping_warnings true block x).1.sink ≡ x.sink
  unfolding keeping_warnings
  keeping_warnings-sink {A} block x h = go (block (record x { sink = some [] })) h
    where
      go :
          (y : Outcome A × Context C W)
          → ¬ (released x.sink y).0 ≡ hangs
          → (released x.sink y).1.sink ≡ x.sink
      go (returns a, y) k = refl
      go (raises e, y) k = refl
      go (hangs, y) k = absurd (k refl)
