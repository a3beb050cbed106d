-- ===== src/Systematics/Tags.antt =====
-- `canonical_tag`, `spell_number` and `numeric_value` of systematics/tags.py.
pub mod Bounds
pub mod Parsing
pub mod Reading
pub mod Idempotent
pub mod Same
pub mod Values
use graphed.Prelude.{
  ℕ, suc, ◌+◌, max, Bool, true, false, ◌&&◌, ◌||◌, Option, none, some, [], ◌∷◌, ◌++◌, ltb, leb,
  ◌==◌, if◌then◌else◌, length,
}
use graphed.Prelude.Int.{ℤ}
use graphed.Systematics.Digits.{
  Text, Triple, is_digit, number, decimal, plus, minus, normalize, zeros,
}
use graphed.Systematics.Grammar.{Match, float_sugar, canonical, p_form, is_identifier}

-- Which rule a tag breaks: the message of the `GraphedError`, less the tag that it quotes.
pub data Refusal : Type 0 where
  no_text empty_tag not_finite not_identifier looks_numeric : Refusal
  magnitude_over length_over : ℕ → Refusal

pub data Spelling : Type 0 where
  spelled : Text → Spelling
  refused : Refusal → Spelling

-- MAX_TAG_CHARS
abbrev pub max_tag_chars : ℕ
max_tag_chars = 32

-- `max(n, 1)` of an integer
unfoldable pub at_least_one : ℤ → ℕ
at_least_one (ℤ.pos n) = max n 1
at_least_one (ℤ.negsuc _) = 1

unfoldable pub magnitude : Text → ℤ → ℕ
unfolding at_least_one
magnitude digits exp10 = at_least_one (plus exp10 (length digits))

unfoldable pub tag_length : ℕ → Text → ℤ → ℕ
unfolding decimal
tag_length sign digits (ℤ.pos n) = magnitude digits (ℤ.pos n) + sign
tag_length sign digits (ℤ.negsuc n) = length digits + 2 + length (decimal (suc n)) + sign

abbrev pub marker : Bool → Text
marker negative = if negative then 109 ∷ [] else []

-- The tag, past the two tests.
unfoldable pub rendered : Triple → Text
unfolding zeros decimal
rendered (negative, digits, ℤ.pos n) = marker negative ++ (digits ++ zeros n)
rendered (negative, digits, ℤ.negsuc n) = marker negative ++ (digits ++ 101 ∷ 109 ∷ decimal (suc n))

-- `digits == "0"`
unfoldable pub is_zero : Text → Bool
is_zero (c ∷ []) = c == 48
is_zero _ = false

unfoldable pub spell_number : Triple → Spelling
unfolding is_zero tag_length rendered
spell_number (negative, digits, exp10) =
    let sign = if negative then 1 else 0 in
    let size = magnitude digits exp10 in
    let long = tag_length sign digits exp10 in
    if is_zero digits
    then spelled (48 ∷ [])
    else if ltb max_tag_chars size
    then refused (magnitude_over size)
    else if ltb max_tag_chars long
    then refused (length_over long)
    else spelled (rendered (negative, digits, exp10))

-- The values that a tag is spelled with, by the tests that `python_number` makes in turn. An integral
-- scalar is given by its `int`, a real one that is no rational by the `repr` of its `float`.
pub data TagValue : Type 0 where
  boolean : Bool → TagValue
  integral : ℤ → TagValue
  real text_tag : Text → TagValue
  another : TagValue

pub data Number : Type 0 where
  whole : ℤ → Number
  float : Text → Number

unfoldable pub python_number : TagValue → Option Number
python_number (integral n) = some (whole n)
python_number (real text) = some (float text)
python_number _ = none

-- `text.lower()`
unfoldable pub lower : Text → Text
lower [] = []
lower (c ∷ text) = (if leb 65 c && leb c 90 then c + 32 else c) ∷ lower text

unfoldable pub same_text : Text → Text → Bool
same_text [] [] = true
same_text (c ∷ a) (d ∷ b) = c == d && same_text a b
same_text _ _ = false

-- `tag.lower() in _NOT_FINITE`: inf, infinity, nan
unfoldable pub is_not_finite : Text → Bool
unfolding lower same_text
is_not_finite tag =
    let low = lower tag in
    same_text low (105 ∷ 110 ∷ 102 ∷ [])
    || same_text low (105 ∷ 110 ∷ 102 ∷ 105 ∷ 110 ∷ 105 ∷ 116 ∷ 121 ∷ [])
    || same_text low (110 ∷ 97 ∷ 110 ∷ [])

-- The spelling of a match: `int(exp) - len(frac)` is the power of ten of its digits.
unfoldable pub spell_match : Match → Spelling
unfolding spell_number normalize
spell_match m =
    spell_number (normalize m.negative (m.int ++ m.frac) (minus m.exp10 (length m.frac)))

unfoldable pub starts_with_digit : Text → Bool
starts_with_digit [] = false
starts_with_digit (c ∷ _) = is_digit c

unfoldable pub is_some : Option Match → Bool
is_some none = false
is_some (some _) = true

-- A tag that is no number: an identifier is kept, unless it looks like a number and is no p-form.
unfoldable pub kept : Text → Spelling
unfolding starts_with_digit is_some
kept tag =
    if is_identifier tag
    then (if starts_with_digit tag
        then (if is_some (p_form tag) then spelled tag else refused looks_numeric)
        else spelled tag)
    else refused not_identifier

unfoldable pub by_canonical : Text → Option Match → Spelling
unfolding spell_match kept
by_canonical tag none = kept tag
by_canonical tag (some m) = spell_match m

unfoldable pub by_sugar : Text → Option Match → Spelling
unfolding spell_match by_canonical
by_sugar tag none = by_canonical tag (canonical tag)
by_sugar tag (some m) = spell_match m

unfoldable pub canonical_text : Text → Spelling
unfolding by_sugar is_not_finite
canonical_text [] = refused empty_tag
canonical_text (c ∷ rest) =
    let tag = c ∷ rest in
    if is_not_finite tag then refused not_finite else by_sugar tag (float_sugar tag)

-- `str(n)`
unfoldable pub integer_text : ℤ → Text
unfolding decimal
integer_text (ℤ.pos n) = decimal n
integer_text (ℤ.negsuc n) = 45 ∷ decimal (suc n)

-- A value that is no number is a tag if it is a text.
unfoldable pub tag_text : TagValue → Option Number → Option Text
unfolding integer_text
tag_text value (some (whole n)) = some (integer_text n)
tag_text value (some (float text)) = some text
tag_text (text_tag text) none = some text
tag_text _ none = none

unfoldable pub canonical_of : Option Text → Spelling
unfolding canonical_text
canonical_of none = refused no_text
canonical_of (some text) = canonical_text text

unfoldable pub canonical_tag : TagValue → Spelling
unfolding canonical_of tag_text python_number
canonical_tag value = canonical_of (tag_text value (python_number value))

-- `Fraction(int(digits), 10 ** places)`, negated if `negative`
pub record Exact : Type 0 where
  pub negative : Bool
  pub numerator : ℕ
  pub power : ℕ

-- `int(exp or 0)` of the canonical form, which the match holds negated
unfoldable pub negated_power : ℤ → ℕ
negated_power (ℤ.pos n) = 0
negated_power (ℤ.negsuc n) = suc n

unfoldable pub of_p_form : Option Match → Option Exact
of_p_form none = none
of_p_form (some m) =
    some (record {
      negative = m.negative;
      numerator = number (m.int ++ m.frac);
      power = length m.frac;
    })

unfoldable pub of_canonical : Text → Option Match → Option Exact
unfolding of_p_form negated_power
of_canonical tag none = of_p_form (p_form tag)
of_canonical tag (some m) =
    some (record { negative = m.negative; numerator = number m.int; power = negated_power m.exp10 })

unfoldable pub numeric_value : Text → Option Exact
unfolding of_canonical
numeric_value tag = of_canonical tag (canonical tag)
