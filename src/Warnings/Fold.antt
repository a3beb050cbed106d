-- ===== src/Warnings/Fold.antt =====
-- What a run's partial carries: the fold of its chunks' partials with `WarnedCombine`.
use graphed.Prelude.{
  String, ◌≡◌, refl, sym, ap, ◌∙◌, Bool, true, Option, none, List, [], ◌∷◌, map, All, ◌↔◌, subst,
}
use graphed.Outcome.{Outcome, returns, raises, hangs, and_then}
use graphed.Warnings.{
  Key, Caught, Carried, ChunkSite, MaybeWarned, find, merge, with_chunk, carrying, split,
  with_caught, warned_combine,
}
use graphed.Warnings.Merge.{
  AreDistinct, first_of, first_of_assoc, first_of-none, find-merge, merge-AreDistinct,
  set-AreDistinct,
}

-- `reduce(fn, values, value)`
abbrev pub fold_values : {V : Type 0} → (V → V → Outcome V) → V → List V → Outcome V
fold_values fn value [] = returns value
fold_values fn value (v ∷ values) = and_then (fn value v) (λ w. fold_values fn w values)

module _ {C : Type 0} (same : C → C → Bool)
    (same_iff : (c d : C) → (same c d ≡ true) ↔ (c ≡ d)) where
  abbrev pub value_of : {V : Type 0} → MaybeWarned C V → V
  value_of p = (split same p).0

  abbrev pub caught_of : {V : Type 0} → MaybeWarned C V → Carried C
  caught_of p = (split same p).1

  -- The first partial that carries the warning.
  abbrev pub first_caught : {V : Type 0} → Key C → List (MaybeWarned C V) → Option ChunkSite
  first_caught key [] = none
  first_caught key (p ∷ parts) = first_of (find same key (caught_of p)) (first_caught key parts)

  abbrev pub IsDict : {V : Type 0} → MaybeWarned C V → Type 0
  IsDict p = AreDistinct same (caught_of p)

  with_caught-value :
      {V : Type 0} (v : V) (caught : Carried C) → value_of (with_caught same v caught) ≡ v
  unfolding with_caught
  with_caught-value v [] = refl
  with_caught-value v (w ∷ caught) = refl

  with_caught-caught :
      {V : Type 0} (v : V) (caught : Carried C) → caught_of (with_caught same v caught) ≡ caught
  unfolding with_caught
  with_caught-caught v [] = refl
  with_caught-caught v (w ∷ caught) = refl

  with_chunk-AreDistinct :
      (carried : C → C) (chunk : String) (caught : Caught C) (d : Carried C)
      → AreDistinct same d
      → AreDistinct same (with_chunk same carried chunk caught d)
  unfolding with_chunk
  with_chunk-AreDistinct carried chunk [] d h = h
  with_chunk-AreDistinct carried chunk (((c, message), (file, line)) ∷ caught) d h =
      with_chunk-AreDistinct carried chunk caught _ (set-AreDistinct same same_iff _ _ d h)

  -- What a task carries is a dict.
  pub carrying-IsDict :
      {V : Type 0} (carried : C → C) (value : V) (caught : Caught C) (chunk : String)
      → IsDict (carrying same carried value caught chunk)
  unfolding carrying
  carrying-IsDict carried value [] chunk = tt
  carrying-IsDict carried value (w ∷ caught) chunk =
      with_chunk-AreDistinct carried chunk (w ∷ caught) [] tt

  module _ {V : Type 0} (fn : V → V → Outcome V) where
    abbrev pub fold_partials : MaybeWarned C V → List (MaybeWarned C V) → Outcome (MaybeWarned C V)
    fold_partials acc [] = returns acc
    fold_partials acc (p ∷ parts) =
        and_then (warned_combine same fn acc p) (λ acc'. fold_partials acc' parts)

    -- Carrying warnings changes no value: the fold of the partials has the value, or the exception,
    -- of the fold of their plain values.
    pub fold_partials-value :
        (acc : MaybeWarned C V) (parts : List (MaybeWarned C V))
        → and_then (fold_partials acc parts) (λ p. returns (value_of p))
          ≡ fold_values fn (value_of acc) (map value_of parts)
    unfolding warned_combine
    fold_partials-value acc [] = refl
    fold_partials-value acc (p ∷ parts) =
        combined (fn (value_of acc) (value_of p)) (λ v. fold_partials-value (after v) parts)
      where
        after : V → MaybeWarned C V
        after v = with_caught same v (merge same (caught_of p) (caught_of acc))

        combined :
            (o : Outcome V)
            → ((v : V)
                → and_then (fold_partials (after v) parts) (λ q. returns (value_of q))
                  ≡ fold_values fn (value_of (after v)) (map value_of parts))
            → and_then
                (and_then (and_then o (λ v. returns (after v))) (λ acc'. fold_partials acc' parts))
                (λ q. returns (value_of q))
              ≡ and_then o (λ v. fold_values fn v (map value_of parts))
        combined (returns v) ih =
            ih v ∙ ap (λ w. fold_values fn w (map value_of parts)) (with_caught-value v _)
        combined (raises e) ih = refl
        combined hangs ih = refl

    -- If the fold returns a partial, it carries each warning that some chunk's partial carries, and
    -- with it the file, line and chunk of the first one in the order of the fold, and no other
    -- warning. The warnings of each chunk's partial are a dict: no key is there twice.
    pub fold_partials-first_caught :
        (acc : MaybeWarned C V) (parts : List (MaybeWarned C V)) (result : MaybeWarned C V)
        (key : Key C)
        → All IsDict (acc ∷ parts)
        → fold_partials acc parts ≡ returns result
        → find same key (caught_of result) ≡ first_caught key (acc ∷ parts)
    unfolding warned_combine
    fold_partials-first_caught acc [] result key h e =
        let is : acc ≡ result = cc e in
        ap (λ p. find same key (caught_of p)) (sym is) ∙ sym (first_of-none _)
    fold_partials-first_caught acc (p ∷ parts) result key h e =
        combined (fn (value_of acc) (value_of p)) e
          (λ v g. fold_partials-first_caught (after v) parts result key (dict v, h.1.1) g)
      where
        after : V → MaybeWarned C V
        after v = with_caught same v (merge same (caught_of p) (caught_of acc))

        dict : (v : V) → IsDict (after v)
        dict v =
            subst (AreDistinct same)
              (sym (with_caught-caught v (merge same (caught_of p) (caught_of acc))))
              (merge-AreDistinct same same_iff (caught_of p) (caught_of acc) h.1.0)

        merged :
            (v : V)
            → find same key (caught_of (after v))
              ≡ first_of (find same key (caught_of acc)) (find same key (caught_of p))
        merged v =
            ap (find same key) (with_caught-caught v (merge same (caught_of p) (caught_of acc)))
            ∙ find-merge same same_iff key (caught_of p) (caught_of acc) h.0

        combined :
            (o : Outcome V)
            → and_then (and_then o (λ v. returns (after v))) (λ acc'. fold_partials acc' parts)
              ≡ returns result
            → ((v : V)
                → fold_partials (after v) parts ≡ returns result
                → find same key (caught_of result) ≡ first_caught key (after v ∷ parts))
            → find same key (caught_of result) ≡ first_caught key (acc ∷ p ∷ parts)
        combined (returns v) g ih =
            ih v g
            ∙ ap (λ x. first_of x (first_caught key parts)) (merged v)
            ∙ first_of_assoc (find same key (caught_of acc)) (find same key (caught_of p))
                (first_caught key parts)
        combined (raises x) g ih = absurd (cc g)
        combined hangs g ih = absurd (cc g)
