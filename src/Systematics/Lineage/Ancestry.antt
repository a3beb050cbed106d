-- ===== src/Systematics/Lineage/Ancestry.antt =====
-- What `is_ancestor` of systematics/lineage.py tests, and the order that it is.
use graphed.Prelude.{
  ℕ, suc, ◌≤◌, true, false, ◌≡◌, refl, sym, ◌∙◌, ap, subst, ◌⊎◌, inl, inr, Option, arith,
  Bool-cases,
}
use graphed.Systematics.Lineage.{
  Link, EventContext, root, derived, identity_of, is_same, is_ancestor,
}

module _ {M : Type 0} where
  -- `a` is the context or lies on its parent chain.
  pub data Ancestor (a : EventContext M) : EventContext M → Type 0 where
    itself : Ancestor a a
    above :
        {i : ℕ} {parent : EventContext M} {link : Option (Link M)}
        → Ancestor a parent
        → Ancestor a (derived i parent link)

  -- The context and all above it are the objects of their identities.
  abbrev pub Lives : (ℕ → EventContext M) → EventContext M → Type 0
  Lives heap (root i link) = heap i ≡ root i link
  Lives heap (derived i parent link) = (heap i ≡ derived i parent link) × Lives heap parent

  pub Lives-at :
      (heap : ℕ → EventContext M) (a : EventContext M) → Lives heap a → heap (identity_of a) ≡ a
  Lives-at heap (root i link) h = h
  Lives-at heap (derived i parent link) h = h.0

  pub Lives-above :
      (heap : ℕ → EventContext M) {a b : EventContext M}
      → Ancestor a b
      → Lives heap b
      → Lives heap a
  Lives-above heap itself h = h
  Lives-above heap (above r) h = Lives-above heap r h.1

  pub is_same-eq :
      (heap : ℕ → EventContext M) (a b : EventContext M)
      → Lives heap a
      → Lives heap b
      → is_same a b ≡ true
      → a ≡ b
  is_same-eq heap a b ha hb e =
      sym (Lives-at heap a ha) ∙ ap heap (ground arith) ∙ Lives-at heap b hb

  pub is_same_refl : (a : EventContext M) → is_same a a ≡ true
  is_same_refl a = ground arith

  pub is_ancestor_refl : (a : EventContext M) → is_ancestor a a ≡ true
  unfolding is_ancestor
  is_ancestor_refl (root i link) = is_same_refl (root i link)
  is_ancestor_refl (derived i parent link) = ground arith

  pub is_ancestor_of : {a b : EventContext M} → Ancestor a b → is_ancestor a b ≡ true
  unfolding is_ancestor
  is_ancestor_of {a} itself = is_ancestor_refl a
  is_ancestor_of (above r) = ground (arith, is_ancestor_of r)

  pub Ancestor-by_test :
      (heap : ℕ → EventContext M) (a b : EventContext M)
      → Lives heap a
      → Lives heap b
      → is_ancestor a b ≡ true
      → Ancestor a b
  unfolding is_ancestor
  Ancestor-by_test heap a (root i link) ha hb e =
      subst (Ancestor a) (sym (is_same-eq heap (root i link) a hb ha e)) itself
  Ancestor-by_test heap a (derived i parent link) ha hb e =
      elim (Bool-cases (is_same (derived i parent link) a)) [
        | inl s ↦
            subst (Ancestor a) (sym (is_same-eq heap (derived i parent link) a hb ha s)) itself
        | inr d ↦ above (Ancestor-by_test heap a parent ha hb.1 (ground arith))
      ]

  pub Ancestor-trans : {a b c : EventContext M} → Ancestor a b → Ancestor b c → Ancestor a c
  Ancestor-trans r itself = r
  Ancestor-trans r (above q) = above (Ancestor-trans r q)

  -- The ancestors of one context are a chain.
  pub Ancestor-chain :
      {a b c : EventContext M} → Ancestor a c → Ancestor b c → (Ancestor a b) ⊎ (Ancestor b a)
  Ancestor-chain itself q = inr q
  Ancestor-chain r itself = inl r
  Ancestor-chain (above r) (above q) = Ancestor-chain r q

  depth : EventContext M → ℕ
  depth (root _ _) = 0
  depth (derived _ parent _) = suc (depth parent)

  depth-le : {a b : EventContext M} → Ancestor a b → depth a ≤ depth b
  unfolding depth
  depth-le itself = omega arith
  depth-le (above r) = omega (arith, depth-le r)

  -- Two contexts that are each other's ancestors are one.
  pub Ancestor-antisym : {a b : EventContext M} → Ancestor a b → Ancestor b a → a ≡ b
  unfolding depth
  Ancestor-antisym itself q = refl
  Ancestor-antisym (above r) q = absurd (omega (arith, depth-le r, depth-le q))

  -- A derived context is not one of the contexts above it.
  pub is_same-above :
      (heap : ℕ → EventContext M) {a : EventContext M} (i : ℕ) (parent : EventContext M)
      (link : Option (Link M))
      → Lives heap (derived i parent link)
      → Ancestor a parent
      → is_same (derived i parent link) a ≡ false
  unfolding depth
  is_same-above heap {a} i parent link l r = elim (Bool-cases (is_same (derived i parent link) a)) [
    | inl s ↦
        absurd (looped (is_same-eq heap (derived i parent link) a l (Lives-above heap r l.1) s))
    | inr d ↦ d
  ]
    where
      looped : derived i parent link ≡ a → ⊥
      looped e = omega (arith, ap depth e, depth-le r)
