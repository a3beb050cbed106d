-- ===== src/Systematics/Digits/Decimal.antt =====
-- `str` writes the number that `int` reads.
use graphed.Prelude.{
  ℕ, zero, suc, ◌+◌, ◌/◌, ◌%◌, ◌≤◌, ◌<◌, ◌≡◌, refl, sym, ap, ◌∙◌, subst, Bool, true, [], ◌∷◌, ◌++◌,
  append-nil, append_assoc, All-append, ltb, arith, Bool-cases, inl, inr,
}
use graphed.Prelude.Int.{ℤ}
use graphed.Systematics.Digits.{
  Text, Triple, is_digit, reversed, number_from_right, number, decimal, digits_from_right, succ,
  plus, lstrip, drop_zeros, normalize, zeros,
}
use graphed.Systematics.Digits.Value.{
  AreDigits, AreDigits-reversed, reversed-append, reversed-reversed, tens,
}
use graphed.Systematics.Digits.Unique.{tens-tens, normalize-same}
use graphed.Systematics.Digits.Shape.{StartsNonzero, normalize-cons}

number-digits_from_right :
    (fuel n : ℕ)
    → n < fuel
    → (number_from_right (digits_from_right fuel n) ≡ n) × AreDigits (digits_from_right fuel n)
unfolding number_from_right digits_from_right
number-digits_from_right zero n h = absurd (omega arith)
number-digits_from_right (suc fuel) n h = elim (Bool-cases (ltb n 10)) [
  | inl small ↦ rw small (omega arith, (ground (arith, small), tt))
  | inr large ↦
      let bound : 10 ≤ n = ground arith in
      let (rest, are) = number-digits_from_right fuel (n / 10) (omega (arith, bound)) in
      let low : is_digit (48 + n % 10) ≡ true = ground arith in
      rw large (omega (arith, rest), (low, are))
]

pub number-decimal : (n : ℕ) → number (decimal n) ≡ n
unfolding number decimal
number-decimal n =
    ap number_from_right (reversed-reversed (digits_from_right (suc n) n))
    ∙ (number-digits_from_right (suc n) n (omega arith)).0

pub decimal-AreDigits : (n : ℕ) → AreDigits (decimal n)
unfolding decimal
decimal-AreDigits n = AreDigits-reversed _ (number-digits_from_right (suc n) n (omega arith)).1

lstrip-none : (digits : Text) → StartsNonzero digits → lstrip digits ≡ digits
unfolding lstrip
lstrip-none [] h = refl
lstrip-none (c ∷ digits) h = rw h refl

drop_zeros-none : (a : Text) (e : ℤ) → StartsNonzero a → drop_zeros a e ≡ (a, e)
unfolding drop_zeros
drop_zeros-none [] e h = refl
drop_zeros-none (c ∷ a) e h = rw h refl

pub plus-pos : (n : ℕ) → plus (ℤ.pos 0) n ≡ ℤ.pos n
plus-pos zero = refl
plus-pos (suc n) = ap succ (plus-pos n)

-- The triple of a number that is not zero, with no digit too many, stays as it is.
pub normalize-fixed :
    (negative : Bool) (digits : Text) (exp10 : ℤ)
    → StartsNonzero digits
    → StartsNonzero (reversed digits)
    → normalize negative digits exp10 ≡ (negative, digits, exp10)
normalize-fixed negative digits exp10 s t =
    let whole = lstrip-none digits s in
    let twice = ap (λ d. reversed (reversed d)) whole ∙ reversed-reversed digits in
    normalize-cons negative digits exp10 (subst StartsNonzero (sym twice) s)
    ∙ ap (λ d. from_loop (drop_zeros (reversed d) exp10)) whole
    ∙ ap from_loop (drop_zeros-none (reversed digits) exp10 t)
    ∙ ap (λ d. triple d exp10) (reversed-reversed digits)
  where
    triple : Text → ℤ → Triple
    triple d e = (negative, d, e)

    from_loop : Text × ℤ → Triple
    from_loop x = (negative, reversed x.0, x.1)

-- `"0" * n` behind the digits
pub number-zeros : (a : Text) (n : ℕ) → number (a ++ zeros n) ≡ tens (number a) n
unfolding number zeros number_from_right
number-zeros a zero = ap (λ d. number d) (append-nil a)
number-zeros a (suc n) =
    let shift = append_assoc a (48 ∷ []) (zeros n) in
    let ten : number (a ++ 48 ∷ []) ≡ tens (number a) 1 =
      ap number_from_right (reversed-append a (48 ∷ [])) ∙ omega arith in
    let count : n + 1 ≡ suc n = omega arith in
    ap number (sym shift)
    ∙ number-zeros (a ++ 48 ∷ []) n
    ∙ ap (λ v. tens v n) ten
    ∙ tens-tens (number a) 1 n
    ∙ ap (tens (number a)) count

pub zeros-AreDigits : (n : ℕ) → AreDigits (zeros n)
unfolding zeros
zeros-AreDigits zero = tt
zeros-AreDigits (suc n) = (refl, zeros-AreDigits n)

-- Zeros behind digits count as powers of ten.
pub normalize-zeros :
    (negative : Bool) (digits : Text) (n : ℕ)
    → AreDigits digits
    → StartsNonzero digits
    → StartsNonzero (reversed digits)
    → normalize negative (digits ++ zeros n) (ℤ.pos 0) ≡ (negative, digits, ℤ.pos n)
normalize-zeros negative digits n h s t =
    normalize-same negative (digits ++ zeros n) digits (ℤ.pos 0) 0 n
      (All-append _ digits (zeros n) h (zeros-AreDigits n)) h (number-zeros digits n)
    ∙ ap (normalize negative digits) (plus-pos n)
    ∙ normalize-fixed negative digits (ℤ.pos n) s t
