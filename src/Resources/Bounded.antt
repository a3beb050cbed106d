-- ===== src/Resources/Bounded.antt =====
-- The set of open handles stays within `max_open`, and holds each uri at most once.
use graphed.Prelude.{
  ℕ, suc, ◌+◌, ◌≤◌, ◌≡◌, refl, ap, String, ◌≢◌, Option, none, some, [], ◌∷◌, ◌++◌, arith, ltb,
  le→ltb-false, if◌then◌else◌, length, length-append, eq_iff, inl, inr, Bool-cases,
}
use graphed.Outcome.{Outcome, returns, raises, hangs, Exec, pure, continue}
use graphed.Outcome.Inversion.{continue_keeps}
use graphed.Resources.{
  Handles, Resources, lookup, remove, close_handle, evict, opened, found_or_opened, open_once,
}

module _ {H : Type 0} where
  -- No uri stands twice.
  abbrev pub DistinctUris : Handles H → Type 0
  DistinctUris [] = Unit
  DistinctUris ((u, h) ∷ rest) = (lookup u rest ≡ none) × DistinctUris rest

  lookup-remove_ne : (u v : String) (l : Handles H) → u ≢ v → lookup u (remove v l) ≡ lookup u l
  unfolding lookup remove
  lookup-remove_ne u v [] ne = refl
  lookup-remove_ne u v ((w, h) ∷ l) ne =
      ground (arith, lookup-remove_ne u v l, eq_iff w u, eq_iff w v, eq_iff u v)

  lookup-remove-none :
      (u v : String) (l : Handles H) → lookup u l ≡ none → lookup u (remove v l) ≡ none
  unfolding lookup remove
  lookup-remove-none u v [] h = refl
  lookup-remove-none u v ((w, x) ∷ l) h = ground (arith, lookup-remove-none u v l)

  pub lookup-remove_self :
      (u : String) (l : Handles H) → DistinctUris l → lookup u (remove u l) ≡ none
  unfolding lookup remove
  lookup-remove_self u [] d = refl
  lookup-remove_self u ((w, x) ∷ l) d = ground (arith, lookup-remove_self u l d.1, eq_iff w u)

  remove-DistinctUris : (u : String) (l : Handles H) → DistinctUris l → DistinctUris (remove u l)
  unfolding remove
  remove-DistinctUris u [] d = tt
  remove-DistinctUris u ((w, x) ∷ l) d =
      ground (arith, remove-DistinctUris u l d.1, lookup-remove-none w u l d.0)

  length-remove :
      (u : String) (l : Handles H) {h : H}
      → lookup u l ≡ some h
      → length (remove u l) + 1 ≡ length l
  unfolding lookup remove
  length-remove u [] {h} e = cc
  length-remove u ((w, x) ∷ l) {h} e = ground (arith, length-remove u l {h = h})

  lookup-snoc_none :
      (u v : String) (h : H) (l : Handles H)
      → lookup u l ≡ none
      → u ≢ v
      → lookup u (l ++ (v, h) ∷ []) ≡ none
  unfolding lookup
  lookup-snoc_none u v h [] e ne = ground (arith, eq_iff v u)
  lookup-snoc_none u v h ((w, x) ∷ l) e ne = ground (arith, lookup-snoc_none u v h l)

  pub lookup-snoc_self :
      (u : String) (h : H) (l : Handles H)
      → lookup u l ≡ none
      → lookup u (l ++ (u, h) ∷ []) ≡ some h
  unfolding lookup
  lookup-snoc_self u h [] e = ground (arith, eq_iff u u)
  lookup-snoc_self u h ((w, x) ∷ l) e = ground (arith, lookup-snoc_self u h l)

  -- A uri that is not there goes to the end.
  snoc-DistinctUris :
      (u : String) (h : H) (l : Handles H)
      → DistinctUris l
      → lookup u l ≡ none
      → DistinctUris (l ++ (u, h) ∷ [])
  unfolding lookup
  snoc-DistinctUris u h [] d e = ground arith
  snoc-DistinctUris u h ((w, x) ∷ l) d e =
      ground (arith, snoc-DistinctUris u h l d.1, lookup-snoc_none w u h l d.0, eq_iff w u)

module _ {H W : Type 0} where
  -- At most `max_open` handles are open, each uri once.
  pub record IsBounded (r : Resources H W) : Type 0 where
    pub within : length r.handles ≤ r.max_open
    pub distinct : DistinctUris r.handles

module _ {H W : Type 0} (closer : H → Option (Exec W (Unit {0}))) where
  abbrev pub tail_if_over : ℕ → Handles H → Handles H
  tail_if_over cap [] = []
  tail_if_over cap (e ∷ rest) = if ltb cap (suc (length rest)) then rest else e ∷ rest

  evict_fits :
      (l : Handles H) (r : Resources H W)
      → length l ≤ r.max_open
      → evict closer l r ≡ (returns tt, r)
  unfolding evict
  evict_fits [] r few = refl
  evict_fits ((u, h) ∷ rest) r few = rw (le→ltb-false r.max_open (suc (length rest)) few) refl

  -- Handles to be stored where one may be too many: the first goes if it is, whether its `close`
  -- returns or not, and nothing else of the state but the outside changes.
  evict_lem :
      (l : Handles H) (r : Resources H W)
      → r.handles ≡ l
      → length l ≤ r.max_open + 1
      → ((evict closer l r).1.handles ≡ tail_if_over r.max_open l)
        × ((evict closer l r).1.max_open ≡ r.max_open)
        × ((evict closer l r).1.open_count ≡ r.open_count)
  unfolding evict close_handle
  evict_lem [] r at few = (at, refl, refl)
  evict_lem ((u, h) ∷ rest) r at few = elim (Bool-cases (ltb r.max_open (suc (length rest)))) [
    | inl over ↦
        let r0 : Resources H W = record r { handles = rest } in
        let fits : length rest ≤ r.max_open = omega arith in
        let shut = close_handle closer h r0 in
        let same : (continue shut (λ _. evict closer rest)).1 ≡ shut.1 =
          continue_keeps shut (λ _. evict closer rest)
            (λ _.
              ap (λ (x : Outcome (Unit {0}) × Resources H W). x.1) (evict_fits rest shut.1 fits)) in
        rw over (rw same (refl, refl, refl))
    | inr within ↦ rw within (at, refl, refl)
  ]

  tail_if_over-DistinctUris :
      (cap : ℕ) (l : Handles H) → DistinctUris l → DistinctUris (tail_if_over cap l)
  tail_if_over-DistinctUris cap [] d = tt
  tail_if_over-DistinctUris cap ((u, h) ∷ l) d = ground arith

  length-tail_if_over :
      (cap : ℕ) (l : Handles H) → length l ≤ cap + 1 → length (tail_if_over cap l) ≤ cap
  length-tail_if_over cap [] few = omega arith
  length-tail_if_over cap ((u, h) ∷ l) few = ground arith

  pub lookup-tail_if_over :
      (cap : ℕ) (uri : String) (h : H) (l : Handles H)
      → 1 ≤ cap
      → lookup uri l ≡ none
      → lookup uri (tail_if_over cap (l ++ (uri, h) ∷ [])) ≡ some h
  unfolding lookup
  lookup-tail_if_over cap uri h [] one e = ground (arith, eq_iff uri uri)
  lookup-tail_if_over cap uri h ((w, x) ∷ l) one e =
      ground (arith, lookup-snoc_self uri h l, lookup-snoc_self uri h ((w, x) ∷ l))

  module _ (uri : String) (handle : H) (r : Resources H W) (bounded : IsBounded r)
      (new : lookup uri r.handles ≡ none) where
    abbrev pub added : Resources H W
    added = record r { handles = r.handles ++ (uri, handle) ∷ []; open_count = r.open_count + 1 }

    pub opened_lem :
        ((opened closer uri handle r).1.handles ≡ tail_if_over r.max_open added.handles)
        × ((opened closer uri handle r).1.max_open ≡ r.max_open)
        × ((opened closer uri handle r).1.open_count ≡ r.open_count + 1)
    unfolding opened
    opened_lem =
        let same =
          continue_keeps (evict closer added.handles added) (λ _. pure handle) (λ _. refl) in
        rw same (
          evict_lem added.handles added refl
            (omega (arith, length-append r.handles ((uri, handle) ∷ []), bounded.within)))

    opened-IsBounded : IsBounded (opened closer uri handle r).1
    opened-IsBounded = record {
      within =
          rw (opened_lem.0, opened_lem.1)
            (length-tail_if_over r.max_open added.handles
              (omega (arith, length-append r.handles ((uri, handle) ∷ []), bounded.within)));
      distinct = rw opened_lem.0 (
          tail_if_over-DistinctUris r.max_open added.handles
            (snoc-DistinctUris uri handle r.handles bounded.distinct new));
    }

  found_or_opened-IsBounded :
      (uri : String) (opener : String → Exec W H) (o : Option H) (r : Resources H W)
      → IsBounded r
      → lookup uri r.handles ≡ o
      → IsBounded (found_or_opened closer uri opener o r).1
  unfolding found_or_opened
  found_or_opened-IsBounded uri opener (some handle) r b e = record {
    within = omega (
      arith,
      b.within,
      length-append (remove uri r.handles) ((uri, handle) ∷ []),
      length-remove uri r.handles e,
    );
    distinct =
        snoc-DistinctUris uri handle (remove uri r.handles)
          (remove-DistinctUris uri r.handles b.distinct)
          (lookup-remove_self uri r.handles b.distinct);
  }
  found_or_opened-IsBounded uri opener none r b e = go (opener uri r.outside)
    where
      after : W → Resources H W
      after w = record r { outside = w }

      go : (x : Outcome H × W) → IsBounded (continue (x.0, after x.1) (opened closer uri)).1
      go (returns handle, w) =
          opened-IsBounded uri handle (after w)
            (record { within = b.within; distinct = b.distinct }) e
      go (raises x, w) = record { within = b.within; distinct = b.distinct }
      go (hangs, w) = record { within = b.within; distinct = b.distinct }

-- However `open_once` ends - with a handle, or with an exception of the opener or of a handle's
-- `close` - no more than `max_open` handles are held afterwards and no uri is held twice, if that
-- was so before.
pub open_once-IsBounded :
    {H W : Type 0} (closer : H → Option (Exec W (Unit {0}))) (uri : String)
    (opener : String → Exec W H) (r : Resources H W)
    → IsBounded r
    → IsBounded (open_once closer uri opener r).1
unfolding open_once
open_once-IsBounded closer uri opener r b =
    found_or_opened-IsBounded closer uri opener (lookup uri r.handles) r b refl
