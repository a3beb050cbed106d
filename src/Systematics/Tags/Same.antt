-- ===== src/Systematics/Tags/Same.antt =====
-- One number, one tag.
use graphed.Prelude.{
  ℕ, ◌≡◌, sym, ap, subst, ◌∙◌, false, some, [], ◌∷◌, ◌++◌, length, ◌==◌, arith, Bool-cases, inl,
  inr,
}
use graphed.Prelude.Int.{ℤ}
use graphed.Systematics.Digits.{Text, is_digit, number, minus, plus, normalize}
use graphed.Systematics.Digits.Value.{tens}
use graphed.Systematics.Digits.Unique.{normalize-same}
use graphed.Systematics.Grammar.{Match, float_sugar, optional, digits_first, started, span_digits}
use graphed.Systematics.Grammar.Groups.{Holds, DigitGroups, float_sugar-DigitGroups}
use graphed.Systematics.Tags.{
  spell_number, spell_match, by_sugar, canonical_text, is_not_finite, lower, same_text,
}
use graphed.Systematics.Tags.Reading.{finite-digit}

-- Two matches name one number, with the same sign: brought to one power of ten, their digits are the
-- same number.
abbrev pub SameNumber : Match → Match → Type 0
SameNumber m n =
    (m.negative ≡ n.negative)
    × (exp10 : ℤ) × (i : ℕ) × (j : ℕ) × (minus m.exp10 (length m.frac) ≡ plus exp10 i)
    × (minus n.exp10 (length n.frac) ≡ plus exp10 j)
    × (tens (number (m.int ++ m.frac)) i ≡ tens (number (n.int ++ n.frac)) j)

finite-sugar :
    (c : ℕ) (rest : Text) (m : Match)
    → float_sugar (c ∷ rest) ≡ some m
    → is_not_finite (c ∷ rest) ≡ false
unfolding float_sugar optional digits_first started span_digits is_not_finite lower same_text
finite-sugar c rest m e = elim (Bool-cases (is_digit c)) [
  | inl d ↦ finite-digit c rest d
  | inr n ↦ elim (Bool-cases (c == 45)) [
    | inl minus ↦ ground (arith, minus)
    | inr other ↦ absurd (cc (simp (other, n) at e))
  ]
]

canonical_text-match :
    (text : Text) (m : Match) → float_sugar text ≡ some m → canonical_text text ≡ spell_match m
unfolding canonical_text by_sugar float_sugar digits_first started span_digits optional
canonical_text-match [] m e = absurd (cc e)
canonical_text-match (c ∷ rest) m e = rw (finite-sugar c rest m e) (ap (by_sugar (c ∷ rest)) e)

-- Two ASCII spellings in the float grammar, both with a minus sign or both without, whose digits and
-- powers of ten name one number: they have one canonical tag, or are refused for one reason.
pub canonical_text-same :
    (s t : Text) (m n : Match)
    → float_sugar s ≡ some m
    → float_sugar t ≡ some n
    → SameNumber m n
    → canonical_text s ≡ canonical_text t
unfolding spell_match
canonical_text-same s t m n at_s at_t (sign, exp10, i, j, e, f, same) =
    let ds = subst (Holds DigitGroups) at_s (float_sugar-DigitGroups s) in
    let dt = subst (Holds DigitGroups) at_t (float_sugar-DigitGroups t) in
    canonical_text-match s m at_s
    ∙ ap (λ x. spell_number (normalize m.negative (m.int ++ m.frac) x)) e
    ∙ ap spell_number
        (normalize-same m.negative (m.int ++ m.frac) (n.int ++ n.frac) exp10 i j ds dt same)
    ∙ ap (λ b. spell_number (normalize b (n.int ++ n.frac) (plus exp10 j))) sign
    ∙ ap (λ x. spell_number (normalize n.negative (n.int ++ n.frac) x)) (sym f)
    ∙ sym (canonical_text-match t n at_t)
