-- ===== src/Systematics/Tags/Parsing.antt =====
-- What the grammars read in digits, with a mark in front or a power of ten behind.
use graphed.Prelude.{
  ℕ, suc, ◌≡◌, refl, sym, ap, ◌∙◌, Bool, true, false, none, some, [], ◌∷◌, ◌++◌, append-nil, ltb,
  ◌==◌, arith, Bool-cases, inl, inr,
}
use graphed.Prelude.Int.{ℤ}
use graphed.Systematics.Digits.{digits_from_right, Text, is_digit, decimal}
use graphed.Systematics.Digits.Value.{AreDigits}
use graphed.Systematics.Digits.Decimal.{number-decimal, decimal-AreDigits}
use graphed.Systematics.Grammar.{
  optional, span_digits, started, digits_first, ended, only_digits, signed, exponent, fraction,
  float_sugar, negated, canonical,
}
use graphed.Systematics.Tags.{marker}

-- The text does not go on with a digit.
abbrev pub StopsDigits : Text → Type 0
StopsDigits [] = Unit
StopsDigits (c ∷ rest) = is_digit c ≡ false

abbrev pub IsNonempty : Text → Type 0
IsNonempty [] = ⊥
IsNonempty (c ∷ a) = Unit

pub span_digits-append :
    (a rest : Text) → AreDigits a → StopsDigits rest → span_digits (a ++ rest) ≡ (a, rest)
unfolding span_digits
span_digits-append [] [] h k = refl
span_digits-append [] (c ∷ rest) h k = rw k refl
span_digits-append (c ∷ a) rest h k = rw (h.0, span_digits-append a rest h.1 k) refl

pub digits_first-append :
    (a rest : Text)
    → IsNonempty a
    → AreDigits a
    → StopsDigits rest
    → digits_first (a ++ rest) ≡ some (a, rest)
unfolding digits_first started
digits_first-append [] rest s h k = absurd s
digits_first-append (c ∷ a) rest s h k = ap started (span_digits-append (c ∷ a) rest h k)

pub digits_first-all : (a : Text) → IsNonempty a → AreDigits a → digits_first a ≡ some (a, [])
digits_first-all a s h = ap digits_first (sym (append-nil a)) ∙ digits_first-append a [] s h tt

pub only_digits-all : (a : Text) → IsNonempty a → AreDigits a → only_digits a ≡ some a
unfolding only_digits ended
only_digits-all a s h = rw (digits_first-all a s h) refl

-- No sign in front of digits.
pub optional-digits :
    (sign : ℕ) (a rest : Text)
    → is_digit sign ≡ false
    → IsNonempty a
    → AreDigits a
    → optional sign (a ++ rest) ≡ (false, a ++ rest)
unfolding optional
optional-digits sign [] rest n s h = absurd s
optional-digits sign (c ∷ a) rest n s h =
    let other : c == sign ≡ false = ground (arith, h.0, n) in rw other refl

-- `\d+` alone, as each of the two grammars reads it.
pub float_sugar-digits :
    (a : Text)
    → IsNonempty a
    → AreDigits a
    → float_sugar a ≡ some (record { negative = false; int = a; frac = []; exp10 = ℤ.pos 0 })
unfolding float_sugar fraction exponent
float_sugar-digits a s h =
    rw
      (
        ap (optional 45) (sym (append-nil a)) ∙ optional-digits 45 a [] refl s h,
        append-nil a,
        digits_first-all a s h,
      )
      refl

pub float_sugar-marked : (a : Text) → float_sugar (109 ∷ a) ≡ none
unfolding float_sugar optional
float_sugar-marked a = refl

pub float_sugar-power :
    (a b : Text) → IsNonempty a → AreDigits a → float_sugar (a ++ 101 ∷ 109 ∷ b) ≡ none
unfolding float_sugar fraction exponent signed only_digits
float_sugar-power a b s h =
    rw
      (
        optional-digits 45 a (101 ∷ 109 ∷ b) refl s h,
        digits_first-append a (101 ∷ 109 ∷ b) s h refl,
      )
      refl

pub canonical-digits :
    (a : Text)
    → IsNonempty a
    → AreDigits a
    → canonical (109 ∷ a) ≡ some (record { negative = true; int = a; frac = []; exp10 = ℤ.pos 0 })
unfolding canonical optional negated
canonical-digits a s h = rw (digits_first-all a s h) refl

pub last_stays : (a : Text) (c : ℕ) → IsNonempty (a ++ c ∷ [])
last_stays [] c = tt
last_stays (d ∷ a) c = tt

pub decimal-IsNonempty : (n : ℕ) → IsNonempty (decimal n)
unfolding decimal digits_from_right
decimal-IsNonempty n = elim (Bool-cases (ltb n 10)) [
  | inl small ↦ rw small tt
  | inr large ↦ rw large (last_stays _ _)
]

-- `em` and a number behind the digits, with or without the mark of a negative number.
pub negated-decimal : (n : ℕ) → negated (101 ∷ 109 ∷ decimal (suc n)) ≡ some (ℤ.negsuc n)
unfolding negated
negated-decimal n =
    rw
      (
        only_digits-all (decimal (suc n)) (decimal-IsNonempty (suc n)) (decimal-AreDigits (suc n)),
        number-decimal (suc n),
      )
      refl

pub canonical-power :
    (negative : Bool) (a : Text) (n : ℕ)
    → IsNonempty a
    → AreDigits a
    → canonical (marker negative ++ (a ++ 101 ∷ 109 ∷ decimal (suc n)))
      ≡ some (record { negative = negative; int = a; frac = []; exp10 = ℤ.negsuc n })
unfolding canonical optional
canonical-power false a n s h =
    rw
      (
        optional-digits 109 a (101 ∷ 109 ∷ decimal (suc n)) refl s h,
        digits_first-append a (101 ∷ 109 ∷ decimal (suc n)) s h refl,
        negated-decimal n,
      )
      refl
canonical-power true a n s h =
    rw (digits_first-append a (101 ∷ 109 ∷ decimal (suc n)) s h refl, negated-decimal n) refl
