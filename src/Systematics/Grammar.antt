-- ===== src/Systematics/Grammar.antt =====
-- The regular expressions of systematics/tags.py, each as the match of a whole ASCII text with its
-- groups. What follows a repeated `\d` never starts with a digit, so the longest run is the only
-- one that can match.
pub mod Groups
use graphed.Prelude.{
  ℕ, Bool, true, false, ◌&&◌, ◌||◌, Option, none, some, [], ◌∷◌, leb, ◌==◌, if◌then◌else◌,
}
use graphed.Prelude.Int.{ℤ}
use graphed.Systematics.Digits.{Text, is_digit, number, negate}

-- A sign in front: `-?` and `m?`.
unfoldable pub optional : ℕ → Text → Bool × Text
optional sign [] = (false, [])
optional sign (c ∷ text) = if c == sign then (true, text) else (false, c ∷ text)

-- The digits that a text starts with, and the rest.
unfoldable pub span_digits : Text → Text × Text
span_digits [] = ([], [])
span_digits (c ∷ text) =
    let (digits, rest) = span_digits text in
    if is_digit c then (c ∷ digits, rest) else ([], c ∷ text)

unfoldable pub started : Text × Text → Option (Text × Text)
started ([], rest) = none
started (c ∷ digits, rest) = some (c ∷ digits, rest)

-- `\d+`, and what follows
unfoldable pub digits_first : Text → Option (Text × Text)
unfolding started span_digits
digits_first text = started (span_digits text)

unfoldable pub ended : Text × Text → Option Text
ended (digits, []) = some digits
ended (digits, c ∷ rest) = none

infixl 10 ◌>>=◌
abbrev pub ◌>>=◌ : {A B : Type 0} → Option A → (A → Option B) → Option B
◌>>=◌ none f = none
◌>>=◌ (some a) f = f a

-- `\d+\Z`
unfoldable pub only_digits : Text → Option Text
unfolding ended digits_first
only_digits text = digits_first text >>= ended

-- The named groups of a match; a group that is not there is empty, or the exponent 0.
pub record Match : Type 0 where
  pub negative : Bool
  pub int : Text
  pub frac : Text
  pub exp10 : ℤ

-- `[+-]?\d+\Z`, read by `int`
unfoldable pub signed : Text → Option ℤ
unfolding only_digits
signed [] = none
signed (c ∷ text) =
    if c == 45
    then (only_digits text >>= λ d. some (negate (ℤ.pos (number d))))
    else if c == 43
    then (only_digits text >>= λ d. some (ℤ.pos (number d)))
    else (only_digits (c ∷ text) >>= λ d. some (ℤ.pos (number d)))

-- `(?:[eE](?P<exp>[+-]?\d+))?\Z`
unfoldable pub exponent : Text → Option ℤ
unfolding signed
exponent [] = some (ℤ.pos 0)
exponent (c ∷ text) = if c == 101 || c == 69 then signed text else none

-- `(?:\.(?P<frac>\d+))?`, and what follows
unfoldable pub fraction : Text → Option (Text × Text)
unfolding digits_first
fraction [] = some ([], [])
fraction (c ∷ text) = if c == 46 then digits_first text else some ([], c ∷ text)

-- `_FLOAT_SUGAR.fullmatch`
unfoldable pub float_sugar : Text → Option Match
unfolding optional digits_first fraction exponent
float_sugar text =
    let (negative, unsigned) = optional 45 text in
    digits_first unsigned >>= λ i. fraction i.1 >>= λ f. exponent f.1 >>= λ exp10.
    some (record { negative = negative; int = i.0; frac = f.0; exp10 = exp10 })

-- `(?:em(?P<exp>\d+))?\Z`; the exponent is negated where it is used
unfoldable pub negated : Text → Option ℤ
unfolding only_digits
negated (c ∷ d ∷ text) =
    if c == 101 && d == 109
    then (only_digits text >>= λ e. some (negate (ℤ.pos (number e))))
    else none
negated [] = some (ℤ.pos 0)
negated (c ∷ []) = none

-- `_CANONICAL.fullmatch`
unfoldable pub canonical : Text → Option Match
unfolding optional digits_first negated
canonical text =
    let (negative, unsigned) = optional 109 text in
    digits_first unsigned >>= λ i. negated i.1 >>= λ exp10.
    some (record { negative = negative; int = i.0; frac = []; exp10 = exp10 })

-- `(?:p(?P<frac>\d+))?\Z`
unfoldable pub places : Text → Option Text
unfolding only_digits
places [] = some []
places (c ∷ text) = if c == 112 then only_digits text else none

-- `_P_FORM.fullmatch`
unfoldable pub p_form : Text → Option Match
unfolding optional digits_first places
p_form text =
    let (negative, unsigned) = optional 109 text in
    digits_first unsigned >>= λ i. places i.1 >>= λ frac.
    some (record { negative = negative; int = i.0; frac = frac; exp10 = ℤ.pos 0 })

-- `[A-Za-z0-9_]`
is_word : ℕ → Bool
is_word c = is_digit c || (leb 65 c && leb c 90) || (leb 97 c && leb c 122) || c == 95

all_words : Text → Bool
unfolding is_word
all_words [] = true
all_words (c ∷ text) = is_word c && all_words text

-- `_IDENTIFIER.fullmatch(text) is not None`
unfoldable pub is_identifier : Text → Bool
unfolding all_words
is_identifier [] = false
is_identifier (c ∷ text) = all_words (c ∷ text)
