-- ===== src/Tests/Tags.antt =====
-- Tags of variations: `2`, `2.0` and `-0.50` (as code points).
use graphed.Prelude.{◌≡◌, refl, true, false, some, [], ◌∷◌, inr}
use graphed.Prelude.Int.{ℤ}
use graphed.Systematics.Digits.{Text, Triple, number, number_from_right}
use graphed.Systematics.Grammar.{Match, float_sugar}
use graphed.Systematics.Tags.{
  canonical_tag, text_tag, magnitude, spelled, spell_number, canonical_text, numeric_value,
}
use graphed.Systematics.Tags.Idempotent.{canonical_tag-canonical_tag}
use graphed.Systematics.Tags.Same.{SameNumber, canonical_text-same}
use graphed.Systematics.Tags.Values.{exact, numeric_value-spell_number}

abbrev two : Text
two = 50 ∷ []

abbrev two_point_zero : Text
two_point_zero = 50 ∷ 46 ∷ 48 ∷ []

abbrev minus_half : Text
minus_half = 45 ∷ 48 ∷ 46 ∷ 53 ∷ 48 ∷ []

abbrev minus_half_tag : Text
minus_half_tag = 109 ∷ 53 ∷ 101 ∷ 109 ∷ 49 ∷ []

half_read : canonical_text minus_half ≡ spelled minus_half_tag
unfolding canonical_text float_sugar magnitude
half_read = refl

abbrev two_match : Match
two_match = record { negative = false; int = 50 ∷ []; frac = []; exp10 = ℤ.pos 0 }

abbrev two_point_zero_match : Match
two_point_zero_match = record { negative = false; int = 50 ∷ []; frac = 48 ∷ []; exp10 = ℤ.pos 0 }

read_two : float_sugar two ≡ some two_match
unfolding float_sugar
read_two = refl

read_two_point_zero : float_sugar two_point_zero ≡ some two_point_zero_match
unfolding float_sugar
read_two_point_zero = refl

same_number : SameNumber two_match two_point_zero_match
unfolding number number_from_right
same_number = (refl, ℤ.negsuc 0, 1, 0, refl, refl, refl)

canonical_text-same_example : canonical_text two ≡ canonical_text two_point_zero
canonical_text-same_example =
    canonical_text-same two two_point_zero two_match two_point_zero_match read_two
      read_two_point_zero same_number

half_tagged : canonical_tag (text_tag minus_half) ≡ spelled minus_half_tag
unfolding canonical_tag
half_tagged = half_read

canonical_tag-canonical_tag_example :
    canonical_tag (text_tag minus_half_tag) ≡ spelled minus_half_tag
canonical_tag-canonical_tag_example =
    canonical_tag-canonical_tag (text_tag minus_half) minus_half_tag half_tagged

abbrev half : Triple
half = (true, 53 ∷ [], ℤ.negsuc 0)

half_spelled : spell_number half ≡ spelled minus_half_tag
unfolding spell_number magnitude
half_spelled = refl

numeric_value-spell_number_example : numeric_value minus_half_tag ≡ some (exact half)
numeric_value-spell_number_example =
    numeric_value-spell_number half minus_half_tag (inr ((refl, tt), refl, refl)) half_spelled
