-- ===== src/Systematics/Lineage/Rows.antt =====
-- What `row_space_above` and `selection` of systematics/lineage.py answer.
use graphed.Prelude.{
  ℕ, ◌||◌, true, false, ◌≡◌, refl, subst, ◌⊎◌, inl, inr, Option, none, some, arith, Bool-cases,
}
use graphed.Systematics.Lineage.{
  mask, vary, project, EventContext, root, derived, is_same, is_ancestor, selection,
  row_space_above, is_vary,
}
use graphed.Systematics.Lineage.Ancestry.{
  Ancestor, itself, Lives, is_same-eq, Ancestor-by_test, is_ancestor_of,
}

module _ {M : Type 0} where
  -- `h` is derived from `n` by a run of `vary` links, one or more.
  pub data Varied (n : EventContext M) : EventContext M → Type 0 where
    once : {i : ℕ} → Varied n (derived i n (some vary))
    again :
        {i : ℕ} {parent : EventContext M}
        → Varied n parent
        → Varied n (derived i parent (some vary))

  -- A run of `vary` links changes no rows.
  selection-Varied : {n h : EventContext M} → Varied n h → selection h ≡ selection n
  unfolding selection
  selection-Varied once = refl
  selection-Varied (again r) = selection-Varied r

  -- The answer for a handle `h` as seen from `ctx`.
  abbrev pub NearestAbove : EventContext M → EventContext M → Option (EventContext M) → Type 0
  NearestAbove h ctx none = (m : EventContext M) → Varied m h → ¬ Ancestor m ctx
  NearestAbove h ctx (some n) =
      Varied n h
      × Ancestor n ctx
      × (selection n ≡ selection h)
      × ((m : EventContext M) → Varied m h → Ancestor m ctx → (m ≡ n) ⊎ Varied m n)

  -- One parent up, when the parent is not on the chain of `ctx`.
  NearestAbove-again :
      (i : ℕ) (parent ctx : EventContext M) (o : Option (EventContext M))
      → ¬ Ancestor parent ctx
      → NearestAbove parent ctx o
      → NearestAbove (derived i parent (some vary)) ctx o
  unfolding selection
  NearestAbove-again i parent ctx none off near = nothing
    where
      nothing : (m : EventContext M) → Varied m (derived i parent (some vary)) → ¬ Ancestor m ctx
      nothing m once r = off r
      nothing m (again v) r = near m v r
  NearestAbove-again i parent ctx (some n) off near = (again near.0, near.1, near.2, nearest)
    where
      nearest :
          (m : EventContext M)
          → Varied m (derived i parent (some vary))
          → Ancestor m ctx
          → (m ≡ n) ⊎ Varied m n
      nearest m once r = absurd (off r)
      nearest m (again v) r = near.3 m v r

  NearestAbove-here :
      (i : ℕ) (parent ctx : EventContext M)
      → Ancestor parent ctx
      → NearestAbove (derived i parent (some vary)) ctx (some parent)
  unfolding selection
  NearestAbove-here i parent ctx r = (once, r, refl, nearest)
    where
      nearest :
          (m : EventContext M)
          → Varied m (derived i parent (some vary))
          → Ancestor m ctx
          → (m ≡ parent) ⊎ Varied m parent
      nearest m once q = inl refl
      nearest m (again v) q = inr v

  on_chain :
      (heap : ℕ → EventContext M) (a ctx : EventContext M)
      → Lives heap a
      → Lives heap ctx
      → (is_same a ctx || is_ancestor a ctx) ≡ true
      → Ancestor a ctx
  on_chain heap a ctx ha hc e = elim (Bool-cases (is_same a ctx)) [
    | inl s ↦ subst (Ancestor a) (is_same-eq heap a ctx ha hc s) itself
    | inr d ↦ Ancestor-by_test heap a ctx ha hc (ground arith)
  ]

  off_chain :
      (a ctx : EventContext M) → (is_same a ctx || is_ancestor a ctx) ≡ false → ¬ Ancestor a ctx
  off_chain a ctx e r = ground (arith, is_ancestor_of r)

  abbrev HasVaryLink : EventContext M → Type 0
  HasVaryLink (root _ _) = ⊥
  HasVaryLink (derived _ _ link) = is_vary link ≡ true

  Varied-HasVaryLink : {m h : EventContext M} → Varied m h → HasVaryLink h
  Varied-HasVaryLink once = refl
  Varied-HasVaryLink (again v) = refl

  -- `row_space_above` answers the nearest context that the handle varies, by one `vary` link or
  -- more, and that is `ctx` or an ancestor of it; that context has the selection of the handle.
  -- It answers nothing exactly where no context above the handle by `vary` links is one.
  pub row_space_above-nearest :
      (heap : ℕ → EventContext M) (h ctx : EventContext M)
      → Lives heap h
      → Lives heap ctx
      → NearestAbove h ctx (row_space_above h ctx)
  unfolding row_space_above
  row_space_above-nearest heap (root i link) ctx hh hc = λ m v. absurd (Varied-HasVaryLink v)
  row_space_above-nearest heap (derived i parent none) ctx hh hc = λ m v. cc (Varied-HasVaryLink v)
  row_space_above-nearest heap (derived i parent (some (mask x))) ctx hh hc =
      λ m v. cc (Varied-HasVaryLink v)
  row_space_above-nearest heap (derived i parent (some (project x))) ctx hh hc =
      λ m v. cc (Varied-HasVaryLink v)
  row_space_above-nearest heap (derived i parent (some vary)) ctx hh hc =
      elim (Bool-cases (is_same parent ctx || is_ancestor parent ctx)) [
        | inl e ↦ rw e (NearestAbove-here i parent ctx (on_chain heap parent ctx hh.1 hc e))
        | inr e ↦ rw e (
            NearestAbove-again i parent ctx (row_space_above parent ctx) (off_chain parent ctx e)
              (row_space_above-nearest heap parent ctx hh.1 hc))
      ]
