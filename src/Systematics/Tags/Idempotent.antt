-- ===== src/Systematics/Tags/Idempotent.antt =====
-- A canonical tag is its own canonical tag.
use graphed.Prelude.{
  ℕ, ◌≡◌, refl, sym, ap, subst, ◌∙◌, true, false, Option, none, some, [], ◌∷◌, ◌++◌, arith,
  Bool-cases, inl, inr,
}
use graphed.Prelude.Int.{ℤ}
use graphed.Systematics.Digits.{Text, Triple, zeros}
use graphed.Systematics.Digits.Value.{AreDigits}
use graphed.Systematics.Digits.Shape.{IsMinimal, StartsNonzero, normalize-IsMinimal}
use graphed.Systematics.Grammar.{Match, float_sugar, canonical}
use graphed.Systematics.Tags.{
  TagValue, text_tag, python_number, tag_text, canonical_of, canonical_tag, spelled, rendered,
  is_zero, spell_number, spell_match, kept, by_canonical, by_sugar, canonical_text, is_not_finite,
}
use graphed.Systematics.Tags.Bounds.{spelled-cases, no_refusal}
use graphed.Systematics.Grammar.Groups.{
  Holds, DigitGroups, float_sugar-DigitGroups, canonical-DigitGroups,
}
use graphed.Systematics.Tags.Reading.{canonical_text-rendered}

zero_tag : rendered (false, 48 ∷ [], ℤ.pos 0) ≡ 48 ∷ []
unfolding rendered zeros
zero_tag = refl

nonzero : (digits : Text) → StartsNonzero digits → is_zero digits ≡ true → ⊥
unfolding is_zero
nonzero [] s z = s
nonzero (c ∷ []) s z = cc (s, z)
nonzero (c ∷ d ∷ digits) s z = cc z

-- What is spelled for a minimal triple is what is rendered.
pub spelled-rendered :
    (t : Triple) (tag : Text) → IsMinimal t → spell_number t ≡ spelled tag → rendered t ≡ tag
unfolding is_zero
spelled-rendered (negative, digits, exp10) tag (inl (n, d, e)) h =
    let same : Path Triple (negative, digits, exp10) (false, 48 ∷ [], ℤ.pos 0) =
      rw (n, d, e) refl in
    elim (spelled-cases negative digits exp10 tag h) [
      | inl (z, is) ↦ ap rendered same ∙ zero_tag ∙ sym is
      | inr (is, few) ↦ sym is
    ]
spelled-rendered (negative, digits, exp10) tag (inr (are, s, t)) h =
    elim (spelled-cases negative digits exp10 tag h) [
      | inl (z, is) ↦ absurd (nonzero digits s z)
      | inr (is, few) ↦ sym is
    ]

-- The spelling of a minimal triple is canonical.
spelled_again :
    (t : Triple) (tag : Text)
    → IsMinimal t
    → spell_number t ≡ spelled tag
    → canonical_text tag ≡ spelled tag
spelled_again t tag m e =
    ap canonical_text (sym (spelled-rendered t tag m e)) ∙ canonical_text-rendered t m ∙ e

kept_again : (c : ℕ) (rest tag : Text) → kept (c ∷ rest) ≡ spelled tag → tag ≡ c ∷ rest
unfolding kept
kept_again c rest tag e = ground (arith, e)

-- A tag that a text is canonicalized to is its own canonical tag.
canonical_text-canonical_text :
    (text tag : Text) → canonical_text text ≡ spelled tag → canonical_text tag ≡ spelled tag
unfolding canonical_text spell_match by_canonical by_sugar
canonical_text-canonical_text [] tag e = absurd (cc e)
canonical_text-canonical_text (c ∷ rest) tag e = elim (Bool-cases (is_not_finite (c ∷ rest))) [
  | inl f ↦ absurd (no_refusal (simp f at e))
  | inr f ↦ sugar (float_sugar (c ∷ rest)) refl (simp f at e)
]
  where
    read :
        (m : Match)
        → AreDigits (m.int ++ m.frac)
        → spell_match m ≡ spelled tag
        → canonical_text tag ≡ spelled tag
    read m h k = spelled_again _ tag (normalize-IsMinimal m.negative (m.int ++ m.frac) _ h) k

    plain :
        (o : Option Match)
        → canonical (c ∷ rest) ≡ o
        → by_canonical (c ∷ rest) o ≡ spelled tag
        → canonical_text tag ≡ spelled tag
    plain none at k = ap canonical_text (kept_again c rest tag k) ∙ e
    plain (some m) at k = read m (subst (Holds DigitGroups) at (canonical-DigitGroups (c ∷ rest))) k

    sugar :
        (o : Option Match)
        → float_sugar (c ∷ rest) ≡ o
        → by_sugar (c ∷ rest) o ≡ spelled tag
        → canonical_text tag ≡ spelled tag
    sugar none at k = plain (canonical (c ∷ rest)) refl k
    sugar (some m) at k =
        read m (subst (Holds DigitGroups) at (float_sugar-DigitGroups (c ∷ rest))) k

-- The tag that `canonical_tag` returns, for a text or a number, is its own canonical tag: reading it
-- again changes nothing.
pub canonical_tag-canonical_tag :
    (value : TagValue) (tag : Text)
    → canonical_tag value ≡ spelled tag
    → canonical_tag (text_tag tag) ≡ spelled tag
unfolding canonical_tag canonical_of tag_text python_number
canonical_tag-canonical_tag value tag e = read (tag_text value (python_number value)) e
  where
    read : (o : Option Text) → canonical_of o ≡ spelled tag → canonical_text tag ≡ spelled tag
    read none h = absurd (no_refusal h)
    read (some text) h = canonical_text-canonical_text text tag h
