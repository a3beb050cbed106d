-- ===== src/Warnings/Merge.antt =====
-- Which warning a merged dict holds.
use graphed.Prelude.{
  ◌≡◌, refl, sym, ap, ap₂, ◌∙◌, Bool, true, false, Option, none, some, List, [], ◌∷◌, if◌then◌else◌,
  Bool-cases, inl, inr, arith, eq_iff, ◌↔◌,
}
use graphed.Prelude.Text.{str_eq}
use graphed.Warnings.{Key, same_key, find, set, merge}

-- The first result, or the second if there is none.
abbrev pub first_of : {A : Type 0} → Option A → Option A → Option A
first_of none b = b
first_of (some a) b = some a

pub first_of_assoc :
    {A : Type 0} (a b c : Option A) → first_of (first_of a b) c ≡ first_of a (first_of b c)
first_of_assoc none b c = refl
first_of_assoc (some a) b c = refl

pub first_of-none : {A : Type 0} (a : Option A) → first_of a none ≡ a
first_of-none none = refl
first_of-none (some a) = refl

-- The keys of a dict, which are all different.
abbrev pub AreDistinct : {C A : Type 0} → (C → C → Bool) → List (Key C × A) → Type 0
AreDistinct same [] = Unit
AreDistinct same ((k, a) ∷ d) = (find same k d ≡ none) × AreDistinct same d

module _ {C : Type 0} (same : C → C → Bool)
    (same_iff : (c d : C) → (same c d ≡ true) ↔ (c ≡ d)) where
  -- The test decides equality of keys.
  same_key_iff : (k l : Key C) → (same_key same k l ≡ true) ↔ (k ≡ l)
  unfolding same_key
  same_key_iff (c, m) (d, n) = (
    (λ h.
        let category : same c d ≡ true = ground (arith, h) in
        let message : str_eq m n ≡ true = ground (arith, h) in
        ap₂ (λ x y. (x, y)) ((same_iff c d).0 category) ((eq_iff m n).0 message)),
    (λ p.
        let category = (same_iff c d).1 (ap (λ k. k.0) p) in
        let message = (eq_iff m n).1 (ap (λ k. k.1) p) in rw (category, message) refl),
  )

  turned : (k l : Key C) → same_key same k l ≡ true → same_key same l k ≡ true
  turned k l h = (same_key_iff l k).1 (sym ((same_key_iff k l).0 h))

  unturned : (k l : Key C) → same_key same l k ≡ false → same_key same k l ≡ false
  unturned k l h = ground (arith, h, turned k l)

  module _ {A : Type 0} where
    pub find-set :
        (key other : Key C) (a : A) (d : List (Key C × A))
        → find same key (set same other a d)
          ≡ (if same_key same other key then some a else find same key d)
    unfolding find set
    find-set key other a [] = refl
    find-set key other a ((k, b) ∷ rest) = elim (Bool-cases (same_key same k other)) [
      | inl e ↦
          let here : same_key same k key ≡ same_key same other key =
            ap (λ l. same_key same l key) ((same_key_iff k other).0 e) in
          ground (arith, e, here)
      | inr e ↦ elim (Bool-cases (same_key same k key)) [
        | inr f ↦ ground (arith, e, f, find-set key other a rest)
        | inl f ↦
            let differs : same_key same other key ≡ false = ground (
              arith,
              e,
              ap (λ l. same_key same l other) ((same_key_iff k key).0 f),
              turned other key,
            ) in
            ground (arith, e, f, differs)
      ]
    ]

    -- `{**d, **e}` holds what `e` holds, and else what `d` does.
    pub find-merge :
        (key : Key C) (d e : List (Key C × A))
        → AreDistinct same e
        → find same key (merge same d e) ≡ first_of (find same key e) (find same key d)
    unfolding merge find
    find-merge key d [] h = refl
    find-merge key d ((k, a) ∷ e) h =
        let rest = find-merge key (set same k a d) e h.1 in
        let held = find-set key k a d in
        elim (Bool-cases (same_key same k key)) [
          | inl f ↦
              let only : find same key e ≡ none =
                ap (λ l. find same l e) (sym ((same_key_iff k key).0 f)) ∙ h.0 in
              rest ∙ ap₂ first_of only held ∙ rw f refl
          | inr f ↦ rest ∙ ap (first_of (find same key e)) held ∙ rw f refl
        ]

    pub set-AreDistinct :
        (k : Key C) (a : A) (d : List (Key C × A))
        → AreDistinct same d
        → AreDistinct same (set same k a d)
    unfolding set find
    set-AreDistinct k a [] h = (refl, tt)
    set-AreDistinct k a ((l, b) ∷ rest) h = elim (Bool-cases (same_key same l k)) [
      | inl e ↦ rw e h
      | inr e ↦
          let other : same_key same k l ≡ false = unturned k l e in
          let kept = find-set l k a rest in rw e (kept ∙ rw other h.0, set-AreDistinct k a rest h.1)
    ]

    pub merge-AreDistinct :
        (d e : List (Key C × A)) → AreDistinct same d → AreDistinct same (merge same d e)
    unfolding merge
    merge-AreDistinct d [] h = h
    merge-AreDistinct d ((k, a) ∷ e) h =
        merge-AreDistinct (set same k a d) e (set-AreDistinct k a d h)
