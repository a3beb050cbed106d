-- ===== src/Systematics/Tags/Values.antt =====
-- What number `numeric_value` reads in a tag.
use graphed.Prelude.{
  suc, ◌≡◌, refl, sym, ap, ◌∙◌, Bool, true, false, some, [], ◌∷◌, ◌++◌, append-nil, All-append, inl,
  inr,
}
use graphed.Prelude.Int.{ℤ}
use graphed.Systematics.Digits.{Text, Triple, number, decimal, zeros, number_from_right}
use graphed.Systematics.Digits.Value.{AreDigits, tens}
use graphed.Systematics.Digits.Shape.{IsMinimal}
use graphed.Systematics.Digits.Decimal.{number-zeros, zeros-AreDigits}
use graphed.Systematics.Grammar.{canonical, optional, negated}
use graphed.Systematics.Tags.{
  Exact, marker, rendered, spelled, spell_number, numeric_value, of_canonical, negated_power,
}
use graphed.Systematics.Tags.Parsing.{
  IsNonempty, canonical-digits, canonical-power, optional-digits, digits_first-all,
}
use graphed.Systematics.Tags.Reading.{append-IsNonempty, starts-IsNonempty}
use graphed.Systematics.Tags.Idempotent.{spelled-rendered}

-- The number of a triple: its digits with the zeros behind them, or over a power of ten.
abbrev pub exact : Triple → Exact
exact (negative, digits, ℤ.pos n) = record {
  negative = negative;
  numerator = tens (number digits) n;
  power = 0;
}
exact (negative, digits, ℤ.negsuc n) = record {
  negative = negative;
  numerator = number digits;
  power = suc n;
}

canonical-whole :
    (negative : Bool) (a : Text)
    → IsNonempty a
    → AreDigits a
    → canonical (marker negative ++ a)
      ≡ some (record { negative = negative; int = a; frac = []; exp10 = ℤ.pos 0 })
unfolding canonical optional negated
canonical-whole true a s h = canonical-digits a s h
canonical-whole false a s h =
    rw
      (
        ap (optional 109) (sym (append-nil a)) ∙ optional-digits 109 a [] refl s h,
        append-nil a,
        digits_first-all a s h,
      )
      refl

zero_value :
    numeric_value (rendered (false, 48 ∷ [], ℤ.pos 0)) ≡ some (exact (false, 48 ∷ [], ℤ.pos 0))
unfolding numeric_value rendered zeros canonical of_canonical negated number number_from_right
zero_value = refl

numeric_value-rendered : (t : Triple) → IsMinimal t → numeric_value (rendered t) ≡ some (exact t)
unfolding numeric_value of_canonical rendered negated_power
numeric_value-rendered (negative, digits, exp10) (inl (n, d, e)) =
    let same : Path Triple (negative, digits, exp10) (false, 48 ∷ [], ℤ.pos 0) =
      rw (n, d, e) refl in
    ap (λ t. numeric_value (rendered t)) same ∙ zero_value ∙ ap (λ t. some (exact t)) (sym same)
numeric_value-rendered (negative, digits, ℤ.pos n) (inr (h, s, t)) =
    let some_digits = append-IsNonempty digits (zeros n) (starts-IsNonempty digits s) in
    let are = All-append _ digits (zeros n) h (zeros-AreDigits n) in
    ap (of_canonical (marker negative ++ (digits ++ zeros n)))
      (canonical-whole negative (digits ++ zeros n) some_digits are)
    ∙ ap (λ v. some (record { negative = negative; numerator = v; power = 0 }))
        (number-zeros digits n)
numeric_value-rendered (negative, digits, ℤ.negsuc n) (inr (h, s, t)) =
    ap (of_canonical (marker negative ++ (digits ++ 101 ∷ 109 ∷ decimal (suc n))))
      (canonical-power negative digits n (starts-IsNonempty digits s) h)

-- The tag that `spell_number` writes for a number in lowest form names that number: `numeric_value`
-- reads it back exactly.
pub numeric_value-spell_number :
    (t : Triple) (tag : Text)
    → IsMinimal t
    → spell_number t ≡ spelled tag
    → numeric_value tag ≡ some (exact t)
numeric_value-spell_number t tag m e =
    ap numeric_value (sym (spelled-rendered t tag m e)) ∙ numeric_value-rendered t m
