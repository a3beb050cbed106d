-- ===== src/Systematics/Lineage/Links.antt =====
-- The links between a context and its ancestors, as `links_below` of systematics/lineage.py lists them.
use graphed.Prelude.{
  ℕ, ◌≡◌, refl, sym, ◌∙◌, ap, subst, inl, inr, Option, none, some, List, [], ◌∷◌, ◌++◌, append-nil,
  append_assoc, Bool-cases,
}
use mathlib.Core.List.{reverse, reverse-append}
use graphed.Systematics.Lineage.{
  Link, EventContext, root, derived, is_same, appended, collected, links_below,
}
use graphed.Systematics.Lineage.Ancestry.{
  Ancestor, itself, above, Lives, is_same_refl, is_same-above, Ancestor-trans,
}

module _ {M : Type 0} where
  -- `links` are the links from just below `a` down to the context, in that order.
  pub data LinksFrom (a : EventContext M) : EventContext M → List (Link M) → Type 0 where
    none_yet : LinksFrom a a []
    unlinked :
        {i : ℕ} {parent : EventContext M} {links : List (Link M)}
        → LinksFrom a parent links
        → LinksFrom a (derived i parent none) links
    linked :
        {i : ℕ} {parent : EventContext M} {links : List (Link M)} (link : Link M)
        → LinksFrom a parent links
        → LinksFrom a (derived i parent (some link)) (links ++ link ∷ [])

  collected-append :
      (links : List (Link M)) (ctx a : EventContext M)
      → collected links ctx a ≡ links ++ collected [] ctx a
  unfolding collected
  collected-append links (root i none) a = elim (Bool-cases (is_same (root i none) a)) [
    | inl s ↦ rw s (sym (append-nil links))
    | inr d ↦ rw d (sym (append-nil links))
  ]
  collected-append links (root i (some link)) a = elim (Bool-cases (is_same (root i none) a)) [
    | inl s ↦ rw s (sym (append-nil links))
    | inr d ↦ rw d refl
  ]
  collected-append links (derived i parent none) a =
      elim (Bool-cases (is_same (derived i parent none) a)) [
        | inl s ↦ rw s (sym (append-nil links))
        | inr d ↦ rw d (collected-append links parent a)
      ]
  collected-append links (derived i parent (some link)) a =
      elim (Bool-cases (is_same (derived i parent none) a)) [
        | inl s ↦ rw s (sym (append-nil links))
        | inr d ↦ rw d (
            collected-append (links ++ link ∷ []) parent a
            ∙ append_assoc links (link ∷ []) (collected [] parent a)
            ∙ ap (λ l. links ++ l) (sym (collected-append (link ∷ []) parent a)))
      ]

  -- The links below an ancestor of the parent are the parent's, and the last link.
  links_below-derived :
      (heap : ℕ → EventContext M) {a : EventContext M} (i : ℕ) (parent : EventContext M)
      (link : Option (Link M))
      → Lives heap (derived i parent link)
      → Ancestor a parent
      → links_below (derived i parent link) a ≡ appended (links_below parent a) link
  unfolding links_below collected
  links_below-derived heap {a} i parent none l r = rw (is_same-above heap i parent none l r) refl
  links_below-derived heap {a} i parent (some link) l r =
      rw (is_same-above heap i parent (some link) l r) (
        ap reverse (collected-append (link ∷ []) parent a)
        ∙ reverse-append (link ∷ []) (collected [] parent a))

  links_below-itself : (a : EventContext M) → links_below a a ≡ []
  unfolding links_below collected
  links_below-itself (root i link) = rw (is_same_refl (root i link)) refl
  links_below-itself (derived i parent link) = rw (is_same_refl (derived i parent link)) refl

  -- For an ancestor of a context `links_below` lists the links on the way down to the context, each
  -- once and in that order.
  pub LinksFrom-links_below :
      (heap : ℕ → EventContext M) {a c : EventContext M}
      → Lives heap c
      → Ancestor a c
      → LinksFrom a c (links_below c a)
  LinksFrom-links_below heap {a} l itself =
      subst (LinksFrom a a) (sym (links_below-itself a)) none_yet
  LinksFrom-links_below heap {a} l (above {i = i} {parent = parent} {link = none} r) =
      subst (LinksFrom a (derived i parent none)) (sym (links_below-derived heap i parent none l r))
        (unlinked (LinksFrom-links_below heap l.1 r))
  LinksFrom-links_below heap {a} l (above {i = i} {parent = parent} {link = some link} r) =
      subst (LinksFrom a (derived i parent (some link)))
        (sym (links_below-derived heap i parent (some link) l r))
        (linked link (LinksFrom-links_below heap l.1 r))

  -- Over a context between the two, `links_below` lists the links down to that one, then those below
  -- it.
  links_below-append :
      (heap : ℕ → EventContext M) {a m c : EventContext M}
      → Lives heap c
      → Ancestor a m
      → Ancestor m c
      → links_below c a ≡ links_below m a ++ links_below c m
  links_below-append heap {a} {m} l r itself =
      rw (links_below-itself m) (sym (append-nil (links_below m a)))
  links_below-append heap {a} {m} l r (above {i = i} {parent = parent} {link = none} q) =
      links_below-derived heap i parent none l (Ancestor-trans r q)
      ∙ links_below-append heap l.1 r q
      ∙ ap (λ k. links_below m a ++ k) (sym (links_below-derived heap i parent none l q))
  links_below-append heap {a} {m} l r (above {i = i} {parent = parent} {link = some link} q) =
      links_below-derived heap i parent (some link) l (Ancestor-trans r q)
      ∙ ap (λ k. k ++ link ∷ []) (links_below-append heap l.1 r q)
      ∙ append_assoc (links_below m a) (links_below parent m) (link ∷ [])
      ∙ ap (λ k. links_below m a ++ k) (sym (links_below-derived heap i parent (some link) l q))
