-- ===== src/Systematics/Points/Reading.antt =====
-- Which number `numeric_value` of systematics/tags.py reads in a tag that `_decimal` answers.
use graphed.Prelude.{
  ℕ, zero, suc, ◌*◌, ◌/◌, ◌<◌, Bool, true, false, not, ◌&&◌, some, ◌≡◌, ◌≢◌, refl, sym, ap, ◌∙◌,
  inl, inr, arith, ◌==◌, Bool-cases,
}
use graphed.Prelude.Int.{ℤ}
use native.Mathlib.Nat.{mul-div_cancel, mul-pos}
use graphed.Systematics.Digits.{
  Text, number, number_from_right, decimal, negate, plus, lstrip, reversed, drop_zeros, normalize,
}
use graphed.Systematics.Digits.Value.{
  tens, number-lstrip, drop_zeros-number, plus-succ, reversed-reversed,
}
use graphed.Systematics.Digits.Shape.{lstripped, normalize-nil, normalize-cons, normalize-IsMinimal}
use graphed.Systematics.Digits.Unique.{nil_zero}
use graphed.Systematics.Digits.Decimal.{plus-pos, number-decimal, decimal-AreDigits}
use graphed.Systematics.Tags.{Exact, Spelling, spelled, refused, spell_number, numeric_value}
use graphed.Systematics.Tags.Values.{exact, numeric_value-spell_number}
use graphed.Systematics.Points.{
  Fraction, at, nowhere, no_finite_decimal, spelling, last_part, scale_of, scaled_digits,
  decimal_tag,
}
use graphed.Systematics.Points.Powers.{powers, powers-pos}
use graphed.Systematics.Points.ByValue.{decimal_tag-one, digits_exact}

shifted :
    (negative : Bool) (d : Text) (s n : ℕ)
    → (exact (negative, d, plus (negate (ℤ.pos s)) n)).numerator * powers 10 s
      ≡ tens (number d) n * powers 10 (exact (negative, d, plus (negate (ℤ.pos s)) n)).power
unfolding powers
shifted negative d zero n =
    ap (λ e. (exact (negative, d, e)).numerator * 1) (plus-pos n)
    ∙ ap (λ e. tens (number d) n * powers 10 (exact (negative, d, e)).power) (sym (plus-pos n))
shifted negative d (suc s) zero = refl
shifted negative d (suc zero) (suc n) =
    rw (sym (plus-succ (ℤ.negsuc 0) n)) (omega (arith, shifted negative d zero n))
shifted negative d (suc (suc s)) (suc n) =
    rw (sym (plus-succ (ℤ.negsuc (suc s)) n)) (omega (arith, shifted negative d (suc s) n))

shifted_to :
    (negative : Bool) (d : Text) (e : ℤ) (s n v : ℕ)
    → e ≡ plus (negate (ℤ.pos s)) n
    → tens (number d) n ≡ v
    → (exact (negative, d, e)).numerator * powers 10 s
      ≡ v * powers 10 (exact (negative, d, e)).power
shifted_to negative d e s n v at_end same = rw at_end (
    shifted negative d s n
    ∙ ap (λ t. t * powers 10 (exact (negative, d, plus (negate (ℤ.pos s)) n)).power) same)

sign_lem : (negative : Bool) (d : Text) (e : ℤ) → (exact (negative, d, e)).negative ≡ negative
sign_lem negative d (ℤ.pos n) = refl
sign_lem negative d (ℤ.negsuc n) = refl

no_sign : (b : Bool) (m : ℕ) → m ≡ 0 → false ≡ (b && not (m == 0))
no_sign true m h = rw h refl
no_sign false m h = refl

none_of : (a b m : ℕ) → m ≡ 0 → 0 * a ≡ m * b
none_of a b m h = rw h (omega arith)

-- The triple of `m` over a power of ten names `m` over that power, with the sign.
normalized :
    (b : Bool) (m s : ℕ)
    → let e = exact (normalize (b && not (m == 0)) (decimal m) (negate (ℤ.pos s))) in
      (e.numerator * powers 10 s ≡ m * powers 10 e.power) × (e.negative ≡ (b && not (m == 0)))
unfolding number
normalized b m s = elim (lstripped (decimal m) (decimal-AreDigits m)) [
  | inl none_left ↦
      let no_more : m ≡ 0 = sym (number-decimal m) ∙ nil_zero (decimal m) none_left in
      rw (normalize-nil (b && not (m == 0)) (decimal m) (negate (ℤ.pos s)) none_left)
        (none_of _ _ m no_more, no_sign b m no_more)
  | inr (are, starts) ↦
      let a = reversed (lstrip (decimal m)) in
      let d = reversed (drop_zeros a (negate (ℤ.pos s))).0 in
      let (n, at_end, same) = drop_zeros-number a (negate (ℤ.pos s)) in
      rw (normalize-cons (b && not (m == 0)) (decimal m) (negate (ℤ.pos s)) starts) (
        shifted_to _ d _ s n m at_end (
            ap (λ x. tens (number_from_right x) n) (reversed-reversed _)
            ∙ same
            ∙ number-lstrip (decimal m)
            ∙ number-decimal m),
        sign_lem _ d _,
      )
]

-- A number of digits over a power of ten is the fraction; so is what is equal to it.
same_value :
    (v p m s n d : ℕ)
    → v * powers 10 s ≡ m * powers 10 p
    → m * d ≡ n * powers 10 s
    → v * d ≡ n * powers 10 p
same_value v p m s n d e h =
    sym (mul-div_cancel (v * d) (powers-pos 10 s (omega arith)))
    ∙ ap (λ t. t / powers 10 s) (omega (arith, ap (λ t. d * t) e, ap (λ t. t * powers 10 p) h))
    ∙ mul-div_cancel (n * powers 10 p) (powers-pos 10 s (omega arith))

zero_together : (m d n t : ℕ) → 0 < d → 0 < t → m * d ≡ n * t → (m == 0) ≡ (n == 0)
zero_together zero d zero t d_pos t_pos h = refl
zero_together zero d (suc n) t d_pos t_pos h =
    let some_left : 0 < suc n * t = mul-pos (omega arith) t_pos in
    absurd (omega (arith, some_left, h))
zero_together (suc m) d zero t d_pos t_pos h =
    let some_left : 0 < suc m * d = mul-pos (omega arith) d_pos in
    absurd (omega (arith, some_left, h))
zero_together (suc m) d (suc n) t d_pos t_pos h = ground arith

at-spelled : (s : Spelling) (tag : Text) → spelling s ≡ at tag → s ≡ spelled tag
at-spelled (spelled t) tag e = cc e
at-spelled (refused r) tag e = absurd (cc e)

refused_so :
    (f : Fraction) → (last_part f).0 == 1 ≡ false → decimal_tag f ≡ nowhere no_finite_decimal
unfolding decimal_tag
refused_so f e = rw e refl

unanswered : (tag : Text) → nowhere no_finite_decimal ≢ at tag
unanswered tag e = absurd (cc e)

-- Where `_decimal` answers a tag, `numeric_value` reads that tag back as exactly the value it was given:
-- a number over a power of ten that is the numerator over the denominator, with the value's sign.
pub decimal_tag-reads :
    (f : Fraction) (tag : Text)
    → 0 < f.denominator
    → decimal_tag f ≡ at tag
    → (e : Exact) × (numeric_value tag ≡ some e)
      × (e.numerator * f.denominator ≡ f.numerator * powers 10 e.power)
      × (e.negative ≡ (f.negative && not (f.numerator == 0)))
decimal_tag-reads f tag pos answered = elim (Bool-cases ((last_part f).0 == 1)) [
  | inl e ↦
      let one : (last_part f).0 ≡ 1 = ground (arith, e) in
      let m = scaled_digits f in
      let s = scale_of f in
      let t = normalize (f.negative && not (m == 0)) (decimal m) (negate (ℤ.pos s)) in
      let (value, sign) = normalized f.negative m s in
      let exactly = digits_exact f pos one in
      (
        exact t,
        numeric_value-spell_number t tag (normalize-IsMinimal _ (decimal m) _ (decimal-AreDigits m))
            (at-spelled (spell_number t) tag (sym (decimal_tag-one f one) ∙ answered)),
        same_value _ _ m s f.numerator f.denominator value exactly,
        sign
            ∙ ap (λ b. f.negative && not b)
                (zero_together m f.denominator f.numerator _ pos (powers-pos 10 s (omega arith))
                  exactly),
      )
  | inr e ↦ absurd (unanswered tag (sym (refused_so f e) ∙ answered))
]
