-- ===== src/Systematics/Grammar/Groups.antt =====
-- The groups of a match that are digits.
use graphed.Prelude.{Option, none, some, [], ◌∷◌, ◌++◌, All-append, ◌==◌, Bool-cases, inl, inr}
use graphed.Systematics.Digits.{Text, is_digit}
use graphed.Systematics.Digits.Value.{AreDigits}
use graphed.Systematics.Grammar.{
  Match, ◌>>=◌, span_digits, started, digits_first, fraction, optional, exponent, negated,
  float_sugar, canonical,
}

-- What an optional result satisfies, if there is one.
abbrev pub Holds : {A : Type 0} → (A → Type 0) → Option A → Type 0
Holds P none = Unit
Holds P (some a) = P a

Holds-bind :
    {A B : Type 0} (Q : A → Type 0) (P : B → Type 0) (o : Option A) (f : A → Option B)
    → Holds Q o
    → ((a : A) → Q a → Holds P (f a))
    → Holds P (o >>= f)
Holds-bind Q P none f h k = tt
Holds-bind Q P (some a) f h k = k a h

Holds-any : {A : Type 0} (o : Option A) → Holds (λ _. Unit {0}) o
Holds-any none = tt
Holds-any (some a) = tt

abbrev Run : Text × Text → Type 0
Run x = AreDigits x.0

abbrev pub DigitGroups : Match → Type 0
DigitGroups m = AreDigits (m.int ++ m.frac)

span_digits-AreDigits : (text : Text) → AreDigits (span_digits text).0
unfolding span_digits
span_digits-AreDigits [] = tt
span_digits-AreDigits (c ∷ text) = elim (Bool-cases (is_digit c)) [
  | inl d ↦ rw d (d, span_digits-AreDigits text)
  | inr n ↦ rw n tt
]

digits_first-Run : (text : Text) → Holds Run (digits_first text)
unfolding digits_first started
digits_first-Run text = go (span_digits text) (span_digits-AreDigits text)
  where
    go : (y : Text × Text) → AreDigits y.0 → Holds Run (started y)
    go ([], rest) h = tt
    go (c ∷ digits, rest) h = h

fraction-Run : (text : Text) → Holds Run (fraction text)
unfolding fraction
fraction-Run [] = tt
fraction-Run (c ∷ text) = elim (Bool-cases (c == 46)) [
  | inl d ↦ rw d (digits_first-Run text)
  | inr n ↦ rw n tt
]

pub float_sugar-DigitGroups : (text : Text) → Holds DigitGroups (float_sugar text)
unfolding float_sugar
float_sugar-DigitGroups text =
    Holds-bind Run DigitGroups (digits_first (optional 45 text).1) _
      (digits_first-Run (optional 45 text).1)
      λ i hi. Holds-bind Run DigitGroups (fraction i.1) _ (fraction-Run i.1) λ f hf.
        Holds-bind (λ _. Unit {0}) DigitGroups (exponent f.1) _ (Holds-any (exponent f.1))
          λ e _. All-append _ i.0 f.0 hi hf

pub canonical-DigitGroups : (text : Text) → Holds DigitGroups (canonical text)
unfolding canonical
canonical-DigitGroups text =
    Holds-bind Run DigitGroups (digits_first (optional 109 text).1) _
      (digits_first-Run (optional 109 text).1)
      λ i hi.
        Holds-bind (λ _. Unit {0}) DigitGroups (negated i.1) _ (Holds-any (negated i.1))
          λ e _. All-append _ i.0 [] hi tt
