-- ===== src/Systematics/Points/Powers.antt =====
-- The loops of `_decimal` of systematics/points.py, and what they say of powers of ten.
use graphed.Prelude.{
  ℕ, zero, suc, ◌+◌, ◌*◌, ◌/◌, ◌%◌, ◌≤◌, ◌<◌, true, false, ◌≡◌, ◌≢◌, refl, sym, ap, ◌∙◌, inl, inr,
  arith, ◌==◌, Bool-cases,
}
use native.Mathlib.Nat.{mul_assoc, mul_left_comm, mul-pos, eq_of_mul-eq-mul_left}
use graphed.Systematics.Digits.Value.{tens}
use graphed.Systematics.Points.{stripped}

-- `p ** k`
unfoldable pub powers : ℕ → ℕ → ℕ
powers p zero = 1
powers p (suc k) = p * powers p k

pub powers-add : (p j k : ℕ) → powers p (j + k) ≡ powers p j * powers p k
unfolding powers
powers-add p zero k =
    let none_more : 0 + k ≡ k = omega arith in ap (powers p) none_more ∙ omega arith
powers-add p (suc j) k =
    let more : suc j + k ≡ suc (j + k) = omega arith in
    ap (powers p) more ∙ omega (arith, ap (λ t. p * t) (powers-add p j k))

pub powers-pos : (p k : ℕ) → 0 < p → 0 < powers p k
unfolding powers
powers-pos p zero h = omega arith
powers-pos p (suc k) h = mul-pos h (powers-pos p k h)

pub tens-powers : (v k : ℕ) → tens v k ≡ v * powers 10 k
unfolding powers
tens-powers v zero = omega arith
tens-powers v (suc k) = omega (arith, tens-powers v k)

pub powers-ten : (k : ℕ) → powers 10 k ≡ powers 2 k * powers 5 k
unfolding powers
powers-ten zero = omega arith
powers-ten (suc k) = omega (arith, powers-ten k)

module _ (p : ℕ) (exact : (m : ℕ) → (m % p == 0) ≡ true → m ≡ p * (m / p)) where
  pub stripped-eq : (fuel n : ℕ) → n ≡ powers p (stripped fuel p n).1 * (stripped fuel p n).0
  unfolding stripped powers
  stripped-eq zero n = omega arith
  stripped-eq (suc fuel) n = elim (Bool-cases (n % p == 0)) [
    | inl more ↦ rw (more, stripped) (divided _ _ (stripped-eq fuel (n / p)) (exact n more))
    | inr done ↦ rw (done, stripped) (omega arith)
  ]
    where
      divided : (a b : ℕ) → n / p ≡ a * b → n ≡ p * (n / p) → n ≡ p * a * b
      divided a b e f = f ∙ ap (λ t. p * t) e ∙ sym (mul_assoc p a b)

  module _ (smaller : (m : ℕ) → 0 < m → (m % p == 0) ≡ true → (m / p < m) × (0 < m / p)) where
    -- What is left has no factor `p` more, if there is a round for each division.
    pub stripped-last :
        (fuel n : ℕ)
        → n ≤ fuel
        → 0 < n
        → ((stripped fuel p n).0 % p == 0 ≡ false) × (0 < (stripped fuel p n).0)
    unfolding stripped
    stripped-last zero n h pos = absurd (omega arith)
    stripped-last (suc fuel) n h pos = elim (Bool-cases (n % p == 0)) [
      | inl more ↦
          let (less, pos') = smaller n pos more in
          rw (more, stripped) (stripped-last fuel (n / p) (omega arith) pos')
      | inr done ↦ rw (done, stripped) (done, pos)
    ]

-- A factor that is not a multiple of `p` takes no `p` from a power.
module _ (p : ℕ)
    (prime : (r d q : ℕ) → (r % p == 0) ≡ false → r * d ≡ p * q → (e : ℕ) × (d ≡ p * e)) where
  divides-rest : (r d q : ℕ) → 0 < p → (r % p == 0) ≡ false → r * d ≡ p * q → (e : ℕ) × (r * e ≡ q)
  divides-rest r d q pos h eq =
      let (e, de) = prime r d q h eq in
      (
        e,
        eq_of_mul-eq-mul_left p pos (r * e) q (mul_left_comm p r e ∙ ap (λ t. r * t) (sym de) ∙ eq),
      )

pub exact_two : (m : ℕ) → (m % 2 == 0) ≡ true → m ≡ 2 * (m / 2)
exact_two m h = ground arith

pub exact_five : (m : ℕ) → (m % 5 == 0) ≡ true → m ≡ 5 * (m / 5)
exact_five m h = ground arith

pub smaller_two : (m : ℕ) → 0 < m → (m % 2 == 0) ≡ true → (m / 2 < m) × (0 < m / 2)
smaller_two m pos h = ground arith

pub smaller_five : (m : ℕ) → 0 < m → (m % 5 == 0) ≡ true → (m / 5 < m) × (0 < m / 5)
smaller_five m pos h = ground arith

prime_two : (r d q : ℕ) → (r % 2 == 0) ≡ false → r * d ≡ 2 * q → (e : ℕ) × (d ≡ 2 * e)
prime_two r d q h eq =
    let odd : r ≡ 2 * (r / 2) + 1 = ground arith in
    let product : (2 * (r / 2) + 1) * d ≡ 2 * q = ap (λ t. t * d) (sym odd) ∙ eq in
    (d / 2, omega (arith, product))

prime_five : (r d q : ℕ) → (r % 5 == 0) ≡ false → r * d ≡ 5 * q → (e : ℕ) × (d ≡ 5 * e)
prime_five r d q h eq = (d / 5, from (r % 5) split below nonzero)
  where
    split : r ≡ 5 * (r / 5) + r % 5
    split = omega arith

    below : r % 5 < 5
    below = omega arith

    nonzero : r % 5 ≢ 0
    nonzero = ground arith

    from : (i : ℕ) → r ≡ 5 * (r / 5) + i → i < 5 → i ≢ 0 → d ≡ 5 * (d / 5)
    from zero s b n = absurd (n refl)
    from (suc zero) s b n = omega (arith, ap (λ t. t * d) s)
    from (suc (suc zero)) s b n = omega (arith, ap (λ t. t * d) s)
    from (suc (suc (suc zero))) s b n = omega (arith, ap (λ t. t * d) s)
    from (suc (suc (suc (suc zero)))) s b n = omega (arith, ap (λ t. t * d) s)
    from (suc (suc (suc (suc (suc i))))) s b n = absurd (omega arith)

one_of_one : (r d : ℕ) → r * d ≡ 1 → r ≡ 1
one_of_one zero d e = absurd (omega (arith, e))
one_of_one (suc zero) d e = refl
one_of_one (suc (suc r)) zero e = absurd (omega (arith, e))
one_of_one (suc (suc r)) (suc d) e = absurd (omega (arith, e))

-- A number that neither two nor five divides divides a power of ten only if it is one.
pub one_of_powers :
    (r d k : ℕ) → (r % 2 == 0) ≡ false → (r % 5 == 0) ≡ false → r * d ≡ powers 10 k → r ≡ 1
unfolding powers
one_of_powers r d zero h2 h5 e = one_of_one r d e
one_of_powers r d (suc k) h2 h5 e =
    let (d2, e2) =
      divides-rest 2 prime_two r d (5 * powers 10 k) (omega arith) h2 (omega (arith, e)) in
    let (d5, e5) = divides-rest 5 prime_five r d2 (powers 10 k) (omega arith) h5 e2 in
    one_of_powers r d5 k h2 h5 e5
