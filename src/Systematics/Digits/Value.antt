-- ===== src/Systematics/Digits/Value.antt =====
-- What number a text of digits names.
use graphed.Prelude.{
  ℕ, zero, suc, ◌*◌, ◌≡◌, refl, sym, ap, ◌∙◌, true, [], ◌∷◌, ◌++◌, append-nil, append_assoc, All,
  All-append, ◌==◌, arith, Bool-cases, inl, inr,
}
use graphed.Prelude.Int.{ℤ}
use graphed.Systematics.Digits.{
  Text, is_digit, reversed, number_from_right, succ, plus, lstrip, drop_zeros,
}

-- `v` with `n` zeros behind it.
abbrev pub tens : ℕ → ℕ → ℕ
tens v zero = v
tens v (suc n) = 10 * tens v n

abbrev pub AreDigits : Text → Type 0
AreDigits = All (λ c. is_digit c ≡ true)

pub reversed-append : (a b : Text) → reversed (a ++ b) ≡ reversed b ++ reversed a
reversed-append [] b = sym (append-nil (reversed b))
reversed-append (c ∷ a) b =
    ap (λ l. l ++ c ∷ []) (reversed-append a b) ∙ append_assoc (reversed b) (reversed a) (c ∷ [])

pub reversed-reversed : (a : Text) → reversed (reversed a) ≡ a
reversed-reversed [] = refl
reversed-reversed (c ∷ a) =
    reversed-append (reversed a) (c ∷ []) ∙ ap (λ l. c ∷ l) (reversed-reversed a)

pub AreDigits-reversed : (a : Text) → AreDigits a → AreDigits (reversed a)
AreDigits-reversed [] h = tt
AreDigits-reversed (c ∷ a) h =
    All-append _ (reversed a) (c ∷ []) (AreDigits-reversed a h.1) (h.0, tt)

-- Leading zeros: seen from the right they are last.
append-zero : (a : Text) → number_from_right (a ++ 48 ∷ []) ≡ number_from_right a
unfolding number_from_right
append-zero [] = refl
append-zero (c ∷ a) = omega (arith, append-zero a)

pub number-lstrip :
    (a : Text) → number_from_right (reversed (lstrip a)) ≡ number_from_right (reversed a)
unfolding lstrip
number-lstrip [] = refl
number-lstrip (c ∷ a) = elim (Bool-cases (c == 48)) [
  | inl e ↦
      let same : c ≡ 48 = ground arith in
      rw e (rw same (number-lstrip a ∙ sym (append-zero (reversed a))))
  | inr e ↦ rw e refl
]

pub plus-succ : (e : ℤ) (n : ℕ) → plus (succ e) n ≡ plus e (suc n)
plus-succ e zero = refl
plus-succ e (suc n) = ap succ (plus-succ e n)

-- Trailing zeros move into the exponent.
pub drop_zeros-number :
    (a : Text) (e : ℤ)
    → (n : ℕ) × ((drop_zeros a e).1 ≡ plus e n)
      × (tens (number_from_right (drop_zeros a e).0) n ≡ number_from_right a)
unfolding drop_zeros number_from_right
drop_zeros-number [] e = (0, refl, refl)
drop_zeros-number (c ∷ a) e = elim (Bool-cases (c == 48)) [
  | inl z ↦
      let same : c ≡ 48 = ground arith in
      let (n, at, is) = drop_zeros-number a (succ e) in
      rw z (suc n, at ∙ plus-succ e n, omega (arith, same, is))
  | inr z ↦ rw z (0, refl, refl)
]
