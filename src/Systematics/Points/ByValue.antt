-- ===== src/Systematics/Points/ByValue.antt =====
-- Which coordinate `_decimal` of systematics/points.py answers for a value.
use graphed.Prelude.{
  ℕ, ◌+◌, ◌-◌, ◌*◌, ◌/◌, ◌%◌, ◌<◌, max, Bool, false, not, ◌&&◌, ◌≡◌, ◌≢◌, refl, sym, ap, ◌∙◌, ◌↔◌,
  inl, inr, arith, ◌==◌, Bool-cases,
}
use graphed.Prelude.Int.{ℤ}
use native.Mathlib.Nat.{mul-div_cancel, mul-pos}
use graphed.Systematics.Digits.{decimal, negate, normalize}
use graphed.Systematics.Digits.Value.{tens}
use graphed.Systematics.Tags.{spelled, refused, spell_number}
use graphed.Systematics.Points.{
  Fraction, Coordinate, nowhere, no_finite_decimal, spelling, odd_part, last_part, scale_of,
  scaled_digits, decimal_tag,
}
use graphed.Systematics.Points.Powers.{
  powers, powers-add, powers-pos, powers-ten, tens-powers, stripped-eq, stripped-last, exact_two,
  exact_five, smaller_two, smaller_five, one_of_powers,
}

-- Some power of ten is a multiple of the denominator: the value has a finite decimal expansion.
abbrev pub Terminates : Fraction → Type 0
Terminates f = (k : ℕ) × (c : ℕ) × (f.denominator * c ≡ powers 10 k)

module _ (f : Fraction) (pos : 0 < f.denominator) where
  odd_lem :
      (f.denominator ≡ powers 2 (odd_part f).1 * (odd_part f).0)
      × ((odd_part f).0 % 2 == 0 ≡ false)
      × (0 < (odd_part f).0)
  unfolding odd_part
  odd_lem =
      let (last, pos') =
        stripped-last 2 exact_two smaller_two f.denominator f.denominator (omega arith) pos in
      (stripped-eq 2 exact_two f.denominator f.denominator, last, pos')

  last_lem :
      ((odd_part f).0 ≡ powers 5 (last_part f).1 * (last_part f).0)
      × ((last_part f).0 % 5 == 0 ≡ false)
  unfolding last_part
  last_lem =
      let (last, _) =
        stripped-last 5 exact_five smaller_five (odd_part f).0 (odd_part f).0 (omega arith)
          odd_lem.2 in
      (stripped-eq 5 exact_five (odd_part f).0 (odd_part f).0, last)

  last_odd : ((last_part f).0 % 2 == 0) ≡ false
  last_odd = odd_factor (powers 5 (last_part f).1) (last_part f).0 last_lem.0 odd_lem.1
    where
      odd_factor :
          (a b : ℕ)
          → (odd_part f).0 ≡ a * b
          → ((odd_part f).0 % 2 == 0) ≡ false
          → (b % 2 == 0) ≡ false
      odd_factor a b e h = elim (Bool-cases (b % 2 == 0)) [
        | inl even ↦
            let half : b ≡ 2 * (b / 2) = exact_two b even in
            let twice : (odd_part f).0 ≡ 2 * (a * (b / 2)) =
              e ∙ omega (arith, ap (λ t. a * t) half) in
            absurd (ground (arith, twice, h))
        | inr odd ↦ odd
      ]

  last_one : Terminates f → (last_part f).0 ≡ 1
  last_one (k, c, e) =
      one_of_powers (last_part f).0 (powers 2 (odd_part f).1 * powers 5 (last_part f).1 * c) k
        last_odd last_lem.1 (factor _ _ _ _ odd_lem.0 last_lem.0 ∙ e)
    where
      factor :
          (a b r o : ℕ) → f.denominator ≡ a * o → o ≡ b * r → r * (a * b * c) ≡ f.denominator * c
      factor a b r o d h = omega (arith, ap (λ t. t * c) d, ap (λ t. a * t * c) h)

  -- What the denominator is multiplied with to make the power of ten.
  missing : ℕ
  missing = powers 2 (scale_of f - (odd_part f).1) * powers 5 (scale_of f - (last_part f).1)

  missing-pos : 0 < missing
  unfolding missing
  missing-pos = mul-pos (powers-pos 2 _ (omega arith)) (powers-pos 5 _ (omega arith))

  scaled_up : (last_part f).0 ≡ 1 → f.denominator * missing ≡ powers 10 (scale_of f)
  unfolding scale_of missing
  scaled_up one =
      let s = max (odd_part f).1 (last_part f).1 in
      let twos : (odd_part f).1 + (s - (odd_part f).1) ≡ s = omega arith in
      let fives : (last_part f).1 + (s - (last_part f).1) ≡ s = omega arith in
      combine _ _ _ _ _ _ (odd_lem.0) (last_lem.0) one
        (sym (powers-add 2 (odd_part f).1 (s - (odd_part f).1)) ∙ ap (powers 2) twos)
        (sym (powers-add 5 (last_part f).1 (s - (last_part f).1)) ∙ ap (powers 5) fives)
      ∙ sym (powers-ten s)
    where
      combine :
          (a b a' b' u v : ℕ)
          → f.denominator ≡ a * (odd_part f).0
          → (odd_part f).0 ≡ b * (last_part f).0
          → (last_part f).0 ≡ 1
          → a * a' ≡ u
          → b * b' ≡ v
          → f.denominator * (a' * b') ≡ u * v
      combine a b a' b' u v d o r p q = rw (d, o, r) (rw (← p, ← q) (omega arith))

  -- The division leaves no rest.
  pub digits_exact :
      (last_part f).0 ≡ 1 → scaled_digits f * f.denominator ≡ f.numerator * powers 10 (scale_of f)
  unfolding scaled_digits
  digits_exact one =
      let up : tens f.numerator (scale_of f) ≡ f.numerator * missing * f.denominator =
        tens-powers f.numerator (scale_of f) ∙ sym (whole (scaled_up one)) in
      ap (λ t. t / f.denominator * f.denominator) up
      ∙ ap (λ t. t * f.denominator) (mul-div_cancel (f.numerator * missing) pos)
      ∙ whole (scaled_up one)
    where
      whole :
          f.denominator * missing ≡ powers 10 (scale_of f)
          → f.numerator * missing * f.denominator ≡ f.numerator * powers 10 (scale_of f)
      whole e = omega (arith, ap (λ t. f.numerator * t) e)

  terminates : (last_part f).0 ≡ 1 → Terminates f
  terminates one = (scale_of f, missing, scaled_up one)

spelling-finite : (s : _) → spelling s ≢ nowhere no_finite_decimal
spelling-finite (spelled tag) e = absurd (cc e)
spelling-finite (refused r) e = absurd (cc e)

abbrev pub spelled_from : Bool → ℕ → ℕ → Coordinate
spelled_from negative digits scale = spelling (
    spell_number
      (normalize (negative && not (digits == 0)) (decimal digits) (negate (ℤ.pos scale))))

pub decimal_tag-one :
    (f : Fraction)
    → (last_part f).0 ≡ 1
    → decimal_tag f ≡ spelled_from f.negative (scaled_digits f) (scale_of f)
unfolding decimal_tag
decimal_tag-one f one = rw one refl

-- `_decimal` refuses a value as one with no finite decimal expansion exactly where no power of ten
-- is a multiple of its denominator.
pub decimal_tag-Terminates :
    (f : Fraction)
    → 0 < f.denominator
    → (decimal_tag f ≡ nowhere no_finite_decimal) ↔ (¬ Terminates f)
decimal_tag-Terminates f pos = (
  λ refused_it t. spelling-finite _ (sym (decimal_tag-one f (last_one f pos t)) ∙ refused_it),
  λ never. elim (Bool-cases ((last_part f).0 == 1)) [
    | inl one ↦ absurd (never (terminates f pos (ground arith)))
    | inr other ↦ unfold decimal_tag in rw other refl
  ],
)
