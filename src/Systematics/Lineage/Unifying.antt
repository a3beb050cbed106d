-- ===== src/Systematics/Lineage/Unifying.antt =====
-- Which handle `unify_contexts` of systematics/lineage.py answers.
use graphed.Prelude.{
  ℕ, false, ◌≡◌, refl, sym, ◌∙◌, ap, subst, ◌⊎◌, inl, inr, Option, none, some, List, [], ◌∷◌, All,
  arith, Bool-cases,
}
use graphed.Systematics.Lineage.{
  EventContext, is_same, is_ancestor, present, Unification, context_free, unified, divergent,
  better, unify_from, unify_present, unify_contexts,
}
use graphed.Systematics.Lineage.Ancestry.{
  Ancestor, itself, Lives, is_same-eq, Ancestor-by_test, is_ancestor_of, Ancestor-trans,
  Ancestor-antisym, Ancestor-chain,
}

module _ {M : Type 0} where
  -- `a` is one of the handles.
  abbrev pub Among : EventContext M → List (EventContext M) → Type 0
  Among a [] = ⊥
  Among a (h ∷ handles) = (a ≡ h) ⊎ Among a handles

  abbrev pub Divergent : EventContext M → EventContext M → Type 0
  Divergent a b = (¬ Ancestor a b) × (¬ Ancestor b a)

  -- What is answered of the handles that are contexts.
  abbrev pub Answers : List (EventContext M) → Unification M → Type 0
  Answers handles context_free = handles ≡ []
  Answers handles (unified best) = Among best handles × All (λ h. Ancestor h best) handles
  Answers handles (divergent a b) = Among a handles × Among b handles × Divergent a b

  abbrev BetterOf : EventContext M → EventContext M → Option (EventContext M) → Type 0
  BetterOf best h none = Divergent best h
  BetterOf best h (some b) = ((b ≡ best) ⊎ (b ≡ h)) × Ancestor best b × Ancestor h b

  apart_by_test : (a b : EventContext M) → is_ancestor a b ≡ false → ¬ Ancestor a b
  apart_by_test a b e r = ground (arith, is_ancestor_of r)

  module _ (heap : ℕ → EventContext M) where
    better_lem :
        (best h : EventContext M) → Lives heap best → Lives heap h → BetterOf best h (better best h)
    unfolding better
    better_lem best h lb lh = elim (Bool-cases (is_same h best)) [
      | inl s ↦ rw s (inl refl, itself, subst (Ancestor h) (is_same-eq heap h best lh lb s) itself)
      | inr d ↦ elim (Bool-cases (is_ancestor best h)) [
        | inl below ↦ rw (d, below) (inr refl, Ancestor-by_test heap best h lb lh below, itself)
        | inr off ↦ elim (Bool-cases (is_ancestor h best)) [
          | inl up ↦ rw (d, off, up) (inl refl, itself, Ancestor-by_test heap h best lh lb up)
          | inr apart ↦ rw (d, off, apart) (apart_by_test best h off, apart_by_test h best apart)
        ]
      ]
    ]

    -- A round keeps what is known: the next best stands for the best so far and the handle.
    Answers-better :
        (best h b : EventContext M) (rest : List (EventContext M)) (u : Unification M)
        → BetterOf best h (some b)
        → Answers (b ∷ rest) u
        → Answers (best ∷ h ∷ rest) u
    Answers-better best h b rest context_free k a = cc
    Answers-better best h b rest (unified m) (from, up, over) (m_in, (to, all)) =
        (among from m_in, (Ancestor-trans up to, (Ancestor-trans over to, all)))
      where
        among :
            (b ≡ best) ⊎ (b ≡ h) → (m ≡ b) ⊎ Among m rest → (m ≡ best) ⊎ ((m ≡ h) ⊎ Among m rest)
        among (inl e) (inl f) = inl (f ∙ e)
        among (inr e) (inl f) = inr (inl (f ∙ e))
        among _ (inr r) = inr (inr r)
    Answers-better best h b rest (divergent x y) (from, up, over) (x_in, y_in, apart) =
        (among x from x_in, among y from y_in, apart)
      where
        among :
            (c : EventContext M)
            → (b ≡ best) ⊎ (b ≡ h)
            → (c ≡ b) ⊎ Among c rest
            → (c ≡ best) ⊎ ((c ≡ h) ⊎ Among c rest)
        among c (inl e) (inl f) = inl (f ∙ e)
        among c (inr e) (inl f) = inr (inl (f ∙ e))
        among c _ (inr r) = inr (inr r)

    Answers-step :
        (best h : EventContext M) (rest : List (EventContext M)) (o : Option (EventContext M))
        → BetterOf best h o
        → ((b : EventContext M) → o ≡ some b → Answers (b ∷ rest) (unify_from b rest))
        → Answers
            (best ∷ h ∷ rest)
            (elim o [ none ↦ divergent best h | some b ↦ unify_from b rest ])
    Answers-step best h rest none apart ih = (inl refl, inr (inl refl), apart)
    Answers-step best h rest (some b) known ih =
        Answers-better best h b rest (unify_from b rest) known (ih b refl)

    Lives-better :
        (best h b : EventContext M)
        → Lives heap best
        → Lives heap h
        → (b ≡ best) ⊎ (b ≡ h)
        → Lives heap b
    Lives-better best h b lb lh (inl e) = subst (Lives heap) (sym e) lb
    Lives-better best h b lb lh (inr e) = subst (Lives heap) (sym e) lh

    unify_from-Answers :
        (best : EventContext M) (rest : List (EventContext M))
        → Lives heap best
        → All (Lives heap) rest
        → Answers (best ∷ rest) (unify_from best rest)
    unfolding unify_from
    unify_from-Answers best [] lb lr = (inl refl, (itself, tt))
    unify_from-Answers best (h ∷ rest) lb lr =
        Answers-step best h rest (better best h) (better_lem best h lb lr.0)
          λ b e. unify_from-Answers b rest (Lives-better best h b lb lr.0 (from b e)) lr.1
      where
        from : (b : EventContext M) → better best h ≡ some b → (b ≡ best) ⊎ (b ≡ h)
        from b e = (subst (BetterOf best h) e (better_lem best h lb lr.0)).0

    unify_present-Answers :
        (handles : List (EventContext M))
        → All (Lives heap) handles
        → Answers handles (unify_present handles)
    unfolding unify_present
    unify_present-Answers [] l = refl
    unify_present-Answers (h ∷ handles) l = unify_from-Answers h handles l.0 l.1

  All-Among :
      (m a : EventContext M) (handles : List (EventContext M))
      → All (λ h. Ancestor h m) handles
      → Among a handles
      → Ancestor a m
  All-Among m a [] all at = elim at [ ]
  All-Among m a (h ∷ handles) all (inl e) = subst (λ c. Ancestor c m) (sym e) all.0
  All-Among m a (h ∷ handles) all (inr r) = All-Among m a handles all.1 r

  apart_from_chain : {a b : EventContext M} → (Ancestor a b) ⊎ (Ancestor b a) → Divergent a b → ⊥
  apart_from_chain (inl r) apart = apart.0 r
  apart_from_chain (inr r) apart = apart.1 r

  -- Only one answer is right where a handle is derived from all the others.
  Answers-unique :
      (handles : List (EventContext M)) (m : EventContext M) (u : Unification M)
      → Among m handles
      → All (λ h. Ancestor h m) handles
      → Answers handles u
      → u ≡ unified m
  Answers-unique [] m u m_in all a = absurd m_in
  Answers-unique (h ∷ handles) m context_free m_in all a = cc
  Answers-unique (h ∷ handles) m (unified b) m_in all (b_in, below) = ap unified (
      Ancestor-antisym (All-Among m b (h ∷ handles) all b_in)
        (All-Among b m (h ∷ handles) below m_in))
  Answers-unique (h ∷ handles) m (divergent x y) m_in all (x_in, y_in, apart) = absurd (
      apart_from_chain
        (Ancestor-chain (All-Among m x (h ∷ handles) all x_in)
          (All-Among m y (h ∷ handles) all y_in))
        apart)

  -- `unify_contexts` answers `None` exactly for handles that are all `None`; else it answers one of the
  -- handles, of which every handle is an ancestor, or names two of them neither of which is an
  -- ancestor of the other.
  pub unify_contexts-most_derived :
      (heap : ℕ → EventContext M) (handles : List (Option (EventContext M)))
      → All (Lives heap) (present handles)
      → Answers (present handles) (unify_contexts handles)
  unfolding unify_contexts
  unify_contexts-most_derived heap handles l = unify_present-Answers heap (present handles) l

  -- A handle that is derived from all others is the answer.
  pub unify_contexts-unified :
      (heap : ℕ → EventContext M) (handles : List (Option (EventContext M))) (m : EventContext M)
      → All (Lives heap) (present handles)
      → Among m (present handles)
      → All (λ h. Ancestor h m) (present handles)
      → unify_contexts handles ≡ unified m
  unify_contexts-unified heap handles m l m_in all =
      Answers-unique (present handles) m _ m_in all (unify_contexts-most_derived heap handles l)
