-- ===== src/Systematics/Points.antt =====
-- systematics/points.py: the coordinates and points of universes. Texts are lists of ASCII code points.
pub mod Powers
pub mod ByValue
pub mod Reading
use graphed.Prelude.{
  ℕ, zero, suc, ◌/◌, ◌%◌, max, Bool, true, false, not, ◌&&◌, ◌||◌, Option, none, some, List, [],
  ◌∷◌, ◌++◌, ltb, ◌==◌, if◌then◌else◌, length,
}
use graphed.Prelude.Int.{ℤ}
use graphed.Prelude.Sorting.{sorted}
use graphed.Systematics.Digits.{Text, number, decimal, minus, negate, normalize}
use graphed.Systematics.Digits.Value.{tens}
use graphed.Systematics.Grammar.{Match, float_sugar, is_identifier}
use graphed.Systematics.Tags.{
  Refusal, Spelling, spelled, refused, spell_number, TagValue, text_tag, Number, whole, float,
  python_number, canonical_text, Exact, numeric_value, starts_with_digit, same_text,
}

-- `fractions.Fraction`: numerator and denominator in lowest terms.
pub record Fraction : Type 0 where
  pub negative : Bool
  pub numerator : ℕ
  pub denominator : ℕ

-- `math.gcd`: each round makes `b` smaller
unfoldable pub gcd : ℕ → ℕ → ℕ → ℕ
gcd zero a b = a
gcd (suc fuel) a b = elim (b == 0) [ true ↦ a | false ↦ gcd fuel b (a % b) ]

-- `Fraction(numerator, denominator)`, for a denominator above 0
unfoldable pub lowest_terms : Bool → ℕ → ℕ → Fraction
unfolding gcd
lowest_terms negative n d =
    let g = gcd (suc d) n d in
    record { negative = negative; numerator = n / g; denominator = d / g }

unfoldable pub of_exact : Exact → Fraction
unfolding lowest_terms
of_exact e = lowest_terms e.negative e.numerator (tens 1 e.power)

-- `Fraction(text)` of a finite float's `repr`
unfoldable pub of_match : Bool → Text → ℤ → Fraction
unfolding lowest_terms
of_match negative digits (ℤ.pos n) = lowest_terms negative (tens (number digits) n) 1
of_match negative digits (ℤ.negsuc n) = lowest_terms negative (number digits) (tens 1 (suc n))

-- Why there is no coordinate: `_decimal` cannot spell it, the tag is refused, it is neither text nor
-- number, `Fraction` cannot read the `repr` of an infinite float or of nan.
pub data NoCoordinate : Type 0 where
  no_finite_decimal no_coordinate invalid_literal no_identifier : NoCoordinate
  bad_tag : Refusal → NoCoordinate

pub data Coordinate : Type 0 where
  at : Text → Coordinate
  nowhere : NoCoordinate → Coordinate

abbrev pub spelling : Spelling → Coordinate
spelling (spelled tag) = at tag
spelling (refused r) = nowhere (bad_tag r)

-- `while n % p == 0: n, count = n // p, count + 1`, for an `n` above 0
unfoldable pub stripped : ℕ → ℕ → ℕ → ℕ × ℕ
stripped zero p n = (n, 0)
stripped (suc fuel) p n = elim (n % p == 0) [
  | true ↦ let (rest, count) = stripped fuel p (n / p) in (rest, suc count)
  | false ↦ (n, 0)
]

-- The denominator less its twos, with their number, and what is left of that less its fives.
unfoldable pub odd_part : Fraction → ℕ × ℕ
unfolding stripped
odd_part value = stripped value.denominator 2 value.denominator

unfoldable pub last_part : Fraction → ℕ × ℕ
unfolding odd_part stripped
last_part value = stripped (odd_part value).0 5 (odd_part value).0

-- `max(twos, fives)`
unfoldable pub scale_of : Fraction → ℕ
unfolding odd_part last_part
scale_of value = max (odd_part value).1 (last_part value).1

-- `value.numerator * 10**scale // value.denominator`, less the sign: the division is exact
unfoldable pub scaled_digits : Fraction → ℕ
unfolding scale_of
scaled_digits value = tens value.numerator (scale_of value) / value.denominator

-- `_decimal`
unfoldable pub decimal_tag : Fraction → Coordinate
unfolding last_part scaled_digits scale_of
decimal_tag value =
    let digits = scaled_digits value in
    let negative = value.negative && not (digits == 0) in
    if (last_part value).0 == 1
    then spelling
        (spell_number (normalize negative (decimal digits) (negate (ℤ.pos (scale_of value)))))
    else nowhere no_finite_decimal

-- What a coordinate is given as: what a tag is given as, or a `Fraction`.
pub data CoordinateValue : Type 0 where
  tag_value : TagValue → CoordinateValue
  fraction_value : Fraction → CoordinateValue

unfoldable pub of_number : Option Exact → Text → Coordinate
unfolding decimal_tag of_exact
of_number none tag = at tag
of_number (some exact) tag = decimal_tag (of_exact exact)

-- The branch of `coordinate` for a text.
unfoldable pub text_coordinate : Spelling → Coordinate
unfolding of_number
text_coordinate (refused r) = nowhere (bad_tag r)
text_coordinate (spelled tag) = of_number (numeric_value tag) tag

unfoldable pub float_coordinate : Option Match → Coordinate
unfolding decimal_tag of_match
float_coordinate none = nowhere invalid_literal
float_coordinate (some m) =
    decimal_tag (of_match m.negative (m.int ++ m.frac) (minus m.exp10 (length m.frac)))

unfoldable pub number_coordinate : Option Number → Coordinate
unfolding float_coordinate lowest_terms
number_coordinate none = nowhere no_coordinate
number_coordinate (some (whole (ℤ.pos n))) = decimal_tag (lowest_terms false n 1)
number_coordinate (some (whole (ℤ.negsuc n))) = decimal_tag (lowest_terms true (suc n) 1)
number_coordinate (some (float text)) = float_coordinate (float_sugar text)

unfoldable pub coordinate : CoordinateValue → Coordinate
unfolding text_coordinate number_coordinate
coordinate (fraction_value f) = decimal_tag f
coordinate (tag_value (text_tag text)) = text_coordinate (canonical_text text)
coordinate (tag_value value) = number_coordinate (python_number value)

-- A point: the pairs of a nuisance and its coordinate, sorted.
abbrev pub Point : Type 0
Point = List (Text × Text)

-- `a <= b` on texts
unfoldable pub text_leb : Text → Text → Bool
text_leb [] b = true
text_leb (c ∷ a) [] = false
text_leb (c ∷ a) (d ∷ b) = ltb c d || c == d && text_leb a b

abbrev pub pair_leb : Text × Text → Text × Text → Bool
pair_leb a b = if same_text a.0 b.0 then text_leb a.1 b.1 else text_leb a.0 b.0

-- `_build`
unfoldable pub build : List (Text × Text) → Point
unfolding text_leb
build = sorted pair_leb

-- `_nuisance`: of an ASCII text, `isidentifier`
unfoldable pub is_nuisance : Text → Bool
is_nuisance name = is_identifier name && not (starts_with_digit name)

-- `numeric_value(tag) != 0`
unfoldable pub is_displaced : Option Exact → Bool
is_displaced none = true
is_displaced (some e) = not (e.numerator == 0)

-- A point, or why there is none.
pub data Built : Type 0 where
  built : Point → Built
  unbuilt : NoCoordinate → Built

-- One pair of a point, or why there is none.
unfoldable pub pair_of : Text → CoordinateValue → Coordinate
unfolding coordinate is_nuisance
pair_of name value = if is_nuisance name then coordinate value else nowhere no_identifier

-- The pairs that `Point.__new__` keeps, in the order of the mapping; the first bad pair ends it.
unfoldable pub displaced : List (Text × CoordinateValue) → Built
unfolding pair_of is_displaced
displaced [] = built []
displaced ((name, value) ∷ mapping) =
    let rest = displaced mapping in
    elim (pair_of name value) [
      | nowhere why ↦ unbuilt why
      | at tag ↦ elim rest [
        | unbuilt why ↦ unbuilt why
        | built pairs ↦
            built (if is_displaced (numeric_value tag) then (name, tag) ∷ pairs else pairs)
      ]
    ]

-- `Point(mapping)`
unfoldable pub point : List (Text × CoordinateValue) → Built
unfolding displaced build
point mapping = elim (displaced mapping) [
  | unbuilt why ↦ unbuilt why
  | built pairs ↦ built (build pairs)
]

-- `default`: never zero-dropped
unfoldable pub default : Text → Text → Built
unfolding pair_of build
default name tag = elim (pair_of name (tag_value (text_tag tag))) [
  | nowhere why ↦ unbuilt why
  | at canonical ↦ built (build ((name, canonical) ∷ []))
]

-- `restrict`, the axes by the test of membership
unfoldable pub kept_axes : (Text → Bool) → List (Text × Text) → List (Text × Text)
kept_axes on [] = []
kept_axes on (pair ∷ pairs) =
    let rest = kept_axes on pairs in if on pair.0 then pair ∷ rest else rest

unfoldable pub restrict : Point → (Text → Bool) → Point
unfolding kept_axes build
restrict p on = build (kept_axes on p)
