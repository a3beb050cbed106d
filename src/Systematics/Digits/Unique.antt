-- ===== src/Systematics/Digits/Unique.antt =====
-- Equal numbers, equal triples.
use graphed.Prelude.{
  ℕ, zero, suc, ◌+◌, ◌-◌, ◌*◌, ◌<◌, ◌≡◌, refl, sym, ap, ap₂, ◌∙◌, Bool, true, false, [], ◌∷◌, ◌++◌,
  ◌==◌, arith, inl, inr,
}
use graphed.Prelude.Int.{ℤ}
use graphed.Systematics.Digits.{
  Text, Triple, is_digit, reversed, number_from_right, number, succ, plus, lstrip, drop_zeros,
  normalize,
}
use graphed.Systematics.Digits.Value.{AreDigits, tens, number-lstrip, drop_zeros-number}
use graphed.Systematics.Digits.Shape.{
  StartsNonzero, lstripped, drop_zeros-starts, normalize-nil, normalize-cons,
}

-- The last but one of two characters is followed by the last.
without_last :
    (a : Text) (x c : ℕ) → StartsNonzero ((a ++ x ∷ []) ++ c ∷ []) → StartsNonzero (a ++ x ∷ [])
without_last [] x c h = h
without_last (y ∷ a) x c h = h

number-positive : (a : Text) → AreDigits a → StartsNonzero (reversed a) → 0 < number_from_right a
unfolding number_from_right
number-positive [] h k = absurd k
number-positive (c ∷ []) h k = ground (arith, h.0, k)
number-positive (c ∷ d ∷ a) h k =
    omega (arith, number-positive (d ∷ a) h.1 (without_last (reversed a) d c k))

-- Digits are those of their number.
same_digits :
    (a b : Text)
    → AreDigits a
    → AreDigits b
    → StartsNonzero (reversed a)
    → StartsNonzero (reversed b)
    → number_from_right a ≡ number_from_right b
    → a ≡ b
unfolding number_from_right
same_digits [] b h k s t e = absurd s
same_digits (c ∷ a) [] h k s t e = absurd t
same_digits (c ∷ []) (d ∷ []) h k s t e = ap (λ x. x ∷ []) (ground (arith, h.0, k.0, e))
same_digits (c ∷ x ∷ a) (d ∷ []) h k s t e =
    absurd
      (ground (arith, h.0, k.0, e, number-positive (x ∷ a) h.1 (without_last (reversed a) x c s)))
same_digits (c ∷ []) (d ∷ y ∷ b) h k s t e =
    absurd
      (ground (arith, h.0, k.0, e, number-positive (y ∷ b) k.1 (without_last (reversed b) y d t)))
same_digits (c ∷ x ∷ a) (d ∷ y ∷ b) h k s t e =
    let low : c ≡ d = ground (arith, h.0, k.0, e) in
    let high : number_from_right (x ∷ a) ≡ number_from_right (y ∷ b) =
      ground (arith, h.0, k.0, e) in
    ap₂ (λ z l. z ∷ l) low
      (same_digits (x ∷ a) (y ∷ b) h.1 k.1 (without_last (reversed a) x c s)
        (without_last (reversed b) y d t) high)

-- A number that is not a multiple of ten, and how many zeros are behind it.
same_tens :
    (c d v w m n : ℕ)
    → is_digit c ≡ true
    → is_digit d ≡ true
    → c == 48 ≡ false
    → d == 48 ≡ false
    → tens (c - 48 + 10 * v) m ≡ tens (d - 48 + 10 * w) n
    → (c - 48 + 10 * v ≡ d - 48 + 10 * w) × (m ≡ n)
same_tens c d v w zero zero h k s t e = (e, refl)
same_tens c d v w (suc m) zero h k s t e = absurd (ground (arith, h, k, s, t, e))
same_tens c d v w zero (suc n) h k s t e = absurd (ground (arith, h, k, s, t, e))
same_tens c d v w (suc m) (suc n) h k s t e =
    let (v', n') = same_tens c d v w m n h k s t (omega (arith, e)) in (v', omega (arith, n'))

pub tens-tens : (v m n : ℕ) → tens (tens v m) n ≡ tens v (n + m)
tens-tens v m zero = ap (tens v) (omega arith)
tens-tens v m (suc n) =
    let more : suc (n + m) ≡ suc n + m = omega arith in
    ap (λ x. 10 * x) (tens-tens v m n) ∙ ap (tens v) more

plus-plus : (e : ℤ) (m n : ℕ) → plus (plus e m) n ≡ plus e (n + m)
plus-plus e m zero = let none_more : m ≡ 0 + m = omega arith in ap (plus e) none_more
plus-plus e m (suc n) =
    let more : suc (n + m) ≡ suc n + m = omega arith in ap succ (plus-plus e m n) ∙ ap (plus e) more

tens-zero : (n : ℕ) → tens 0 n ≡ 0
tens-zero zero = refl
tens-zero (suc n) = omega (arith, tens-zero n)

tens-positive : (v n : ℕ) → 0 < v → 0 < tens v n
tens-positive v zero h = h
tens-positive v (suc n) h = omega (arith, tens-positive v n h)

pub nil_zero : (a : Text) → lstrip a ≡ [] → number a ≡ 0
unfolding number number_from_right
nil_zero a e = sym (number-lstrip a) ∙ ap (λ s. number_from_right (reversed s)) e

-- Minimal digits with zeros behind them.
same_kept :
    (a b : Text) (m n : ℕ)
    → AreDigits a
    → AreDigits b
    → StartsNonzero a
    → StartsNonzero b
    → tens (number_from_right a) m ≡ tens (number_from_right b) n
    → (number_from_right a ≡ number_from_right b) × (m ≡ n)
unfolding number_from_right
same_kept [] b m n h k s t e = absurd s
same_kept (c ∷ a) [] m n h k s t e = absurd t
same_kept (c ∷ a) (d ∷ b) m n h k s t e =
    same_tens c d (number_from_right a) (number_from_right b) m n h.0 k.0 s t e

never :
    (a b : Text) (i j : ℕ)
    → AreDigits (reversed (lstrip a))
    → StartsNonzero (reversed (reversed (lstrip a)))
    → lstrip b ≡ []
    → tens (number a) i ≡ tens (number b) j
    → ⊥
unfolding number
never a b i j h s z e =
    let positive : 0 < number a =
      rw (number-lstrip a) at (number-positive (reversed (lstrip a)) h s) in
    let none_left : tens (number b) j ≡ 0 = ap (λ v. tens v j) (nil_zero b z) ∙ tens-zero j in
    omega (arith, tens-positive (number a) i positive, e, none_left)

-- What the loop makes of `a`, with `i` zeros behind it.
abbrev Loop : Text → ℤ → ℕ → Text → ℤ → Type 0
Loop a exp10 i kept exp10' =
    (n : ℕ) × (exp10' ≡ plus exp10 (n + i))
    × (tens (number_from_right kept) (n + i) ≡ tens (number a) i)

looped :
    (a : Text) (exp10 : ℤ) (i : ℕ)
    → Loop a exp10 i
        (drop_zeros (reversed (lstrip a)) (plus exp10 i)).0
        (drop_zeros (reversed (lstrip a)) (plus exp10 i)).1
unfolding number
looped a exp10 i =
    let (n, at, is) = drop_zeros-number (reversed (lstrip a)) (plus exp10 i) in
    let kept = number_from_right (drop_zeros (reversed (lstrip a)) (plus exp10 i)).0 in
    let swap : n + i ≡ i + n = omega arith in
    (
      n,
      at ∙ plus-plus exp10 i n,
      ap (tens kept) swap ∙ sym (tens-tens kept n i) ∙ ap (λ v. tens v i) (is ∙ number-lstrip a),
    )

abbrev triple : Bool → Text → ℤ → Triple
triple negative kept exp10 = (negative, reversed kept, exp10)

-- The digits `a` with `i` and `b` with `j` zeros behind them name one number: then `normalize`
-- returns one triple for both, whatever the power of ten is that they share.
pub normalize-same :
    (negative : Bool) (a b : Text) (exp10 : ℤ) (i j : ℕ)
    → AreDigits a
    → AreDigits b
    → tens (number a) i ≡ tens (number b) j
    → normalize negative a (plus exp10 i) ≡ normalize negative b (plus exp10 j)
normalize-same negative a b exp10 i j h k e = elim (lstripped a h) [
  | inl za ↦ elim (lstripped b k) [
    | inl zb ↦ normalize-nil negative a _ za ∙ sym (normalize-nil negative b _ zb)
    | inr (kb, tb) ↦ absurd (never b a j i kb tb za (sym e))
  ]
  | inr (ka, ta) ↦ elim (lstripped b k) [
    | inl zb ↦ absurd (never a b i j ka ta zb e)
    | inr (kb, tb) ↦
        let (p, pe, pv) = looped a exp10 i in
        let (q, qe, qv) = looped b exp10 j in
        let (da, fa, la) = drop_zeros-starts (reversed (lstrip a)) (plus exp10 i) ka ta in
        let (db, fb, lb) = drop_zeros-starts (reversed (lstrip b)) (plus exp10 j) kb tb in
        let (v, n) = same_kept _ _ (p + i) (q + j) da db fa fb (pv ∙ e ∙ sym qv) in
        let kept = same_digits _ _ da db la lb v in
        normalize-cons negative a _ ta
        ∙ ap₂ (triple negative) kept (pe ∙ ap (plus exp10) n ∙ sym qe)
        ∙ sym (normalize-cons negative b _ tb)
  ]
]
