-- ===== src/Systematics/Digits.antt =====
-- Decimal digits as texts: `normalize` of systematics/tags.py, and Python's `int(text)` and `str(n)`.
-- A text is the list of its code points, all ASCII; an exponent is a signed integer.
pub mod Value
pub mod Shape
pub mod Unique
pub mod Decimal
use graphed.Prelude.{
  ℕ, zero, suc, ◌+◌, ◌-◌, ◌*◌, ◌/◌, ◌%◌, Bool, true, false, ◌&&◌, List, [], ◌∷◌, ◌++◌, ltb, leb,
  ◌==◌, if◌then◌else◌,
}
use graphed.Prelude.Int.{ℤ}

abbrev pub Text : Type 0
Text = List ℕ

-- `\d`
abbrev pub is_digit : ℕ → Bool
is_digit c = leb 48 c && leb c 57

abbrev pub reversed : Text → Text
reversed [] = []
reversed (c ∷ text) = reversed text ++ c ∷ []

-- `int(text)` of a text of digits, from its last digit on
unfoldable pub number_from_right : Text → ℕ
number_from_right [] = 0
number_from_right (c ∷ rest) = (c - 48) + 10 * number_from_right rest

unfoldable pub number : Text → ℕ
unfolding number_from_right
number text = number_from_right (reversed text)

unfoldable pub digits_from_right : ℕ → ℕ → Text
digits_from_right zero n = []
digits_from_right (suc fuel) n =
    let rest = digits_from_right fuel (n / 10) in
    if ltb n 10 then (48 + n) ∷ [] else (48 + n % 10) ∷ rest

-- `str(n)`: `n + 1` divisions by ten are more than enough
unfoldable pub decimal : ℕ → Text
unfolding digits_from_right
decimal n = reversed (digits_from_right (suc n) n)

-- `"0" * n`
unfoldable pub zeros : ℕ → Text
zeros zero = []
zeros (suc n) = 48 ∷ zeros n

-- `exp10 + 1`
abbrev pub succ : ℤ → ℤ
succ (ℤ.pos n) = ℤ.pos (suc n)
succ (ℤ.negsuc zero) = ℤ.pos 0
succ (ℤ.negsuc (suc n)) = ℤ.negsuc n

-- `exp10 - 1`
abbrev pub pred : ℤ → ℤ
pred (ℤ.pos zero) = ℤ.negsuc 0
pred (ℤ.pos (suc n)) = ℤ.pos n
pred (ℤ.negsuc n) = ℤ.negsuc (suc n)

-- `exp10 + n`
abbrev pub plus : ℤ → ℕ → ℤ
plus exp10 zero = exp10
plus exp10 (suc n) = succ (plus exp10 n)

-- `exp10 - n`
abbrev pub minus : ℤ → ℕ → ℤ
minus exp10 zero = exp10
minus exp10 (suc n) = pred (minus exp10 n)

-- `-exp10`
abbrev pub negate : ℤ → ℤ
negate (ℤ.pos zero) = ℤ.pos 0
negate (ℤ.pos (suc n)) = ℤ.negsuc n
negate (ℤ.negsuc n) = ℤ.pos (suc n)

-- `text.lstrip("0")`
unfoldable pub lstrip : Text → Text
lstrip [] = []
lstrip (c ∷ text) = if c == 48 then lstrip text else c ∷ text

-- The `while digits.endswith("0")` loop, on the digits from the last one on.
unfoldable pub drop_zeros : Text → ℤ → Text × ℤ
drop_zeros [] exp10 = ([], exp10)
drop_zeros (c ∷ digits) exp10 =
    if c == 48 then drop_zeros digits (succ exp10) else (c ∷ digits, exp10)

-- The triples that stand for a number: is it negative, its digits, and the power of ten.
abbrev pub Triple : Type 0
Triple = Bool × Text × ℤ

unfoldable pub has_no_digits : Text → Bool
has_no_digits [] = true
has_no_digits _ = false

-- `normalize`
unfoldable pub normalize : Bool → Text → ℤ → Triple
unfolding lstrip drop_zeros has_no_digits
normalize negative digits exp10 =
    let stripped = lstrip digits in
    let (kept, exp10') = drop_zeros (reversed stripped) exp10 in
    if has_no_digits stripped then (false, 48 ∷ [], ℤ.pos 0) else (negative, reversed kept, exp10')
