-- ===== src/Tests/Coordinates.antt =====
-- Coordinates and points: one half, one third, and a point with a central coordinate.
use graphed.Prelude.{◌*◌, ◌≡◌, refl, false, not, ◌&&◌, ◌==◌, some, [], ◌∷◌, ◌↔◌, arith}
use graphed.Prelude.Int.{ℤ}
use graphed.Systematics.Digits.{Text, normalize, number}
use graphed.Systematics.Grammar.{is_identifier, canonical}
use graphed.Systematics.Tags.{
  Exact, integral, spell_number, magnitude, starts_with_digit, python_number, numeric_value,
}
use graphed.Systematics.Points.{
  Fraction, at, nowhere, no_finite_decimal, decimal_tag, coordinate, fraction_value, tag_value,
  point,
}
use graphed.Systematics.Points.Powers.{powers}
use graphed.Systematics.Points.Reading.{decimal_tag-reads}
use graphed.Systematics.Points.ByValue.{Terminates, decimal_tag-Terminates}

abbrev one_half : Fraction
one_half = record { negative = false; numerator = 1; denominator = 2 }

abbrev one_third : Fraction
one_third = record { negative = false; numerator = 1; denominator = 3 }

abbrev half_spelled : Text
half_spelled = 53 ∷ 101 ∷ 109 ∷ 49 ∷ []

one_half-half_spelled : decimal_tag one_half ≡ at half_spelled
unfolding decimal_tag spell_number normalize magnitude
one_half-half_spelled = refl

decimal_tag-reads_example :
    (e : Exact) × (numeric_value half_spelled ≡ some e)
    × (e.numerator * 2 ≡ 1 * powers 10 e.power)
    × (e.negative ≡ (false && not (1 == 0)))
decimal_tag-reads_example =
    decimal_tag-reads one_half half_spelled (omega arith) one_half-half_spelled

decimal_tag-Terminates_example :
    (decimal_tag one_third ≡ nowhere no_finite_decimal) ↔ (¬ Terminates one_third)
decimal_tag-Terminates_example = decimal_tag-Terminates one_third (omega arith)

-- `Fraction(1, 2)` is 5em1
half_tag : coordinate (fraction_value one_half) ≡ at (53 ∷ 101 ∷ 109 ∷ 49 ∷ [])
unfolding coordinate spell_number normalize magnitude
half_tag = refl

-- `Point({"j": 1, "b": 0})` is `Point({"j": 1})`
zero_dropped :
    point
      ((106 ∷ [], tag_value (integral (ℤ.pos 1))) ∷ (98 ∷ [], tag_value (integral (ℤ.pos 0))) ∷ [])
    ≡ point ((106 ∷ [], tag_value (integral (ℤ.pos 1))) ∷ [])
unfolding point is_identifier starts_with_digit python_number spell_number normalize numeric_value
    canonical number
zero_dropped = refl
