-- ===== src/Systematics/Digits/Shape.antt =====
-- The triples that `normalize` returns have no digit too many.
use graphed.Prelude.{
  ◌≡◌, refl, ◌∙◌, ◌⊎◌, Bool, false, [], ◌∷◌, ◌++◌, ◌==◌, if◌then◌else◌, arith, Bool-cases, inl, inr,
}
use graphed.Prelude.Int.{ℤ}
use graphed.Systematics.Digits.{
  Text, Triple, reversed, succ, lstrip, drop_zeros, normalize, has_no_digits,
}
use graphed.Systematics.Digits.Value.{AreDigits, AreDigits-reversed, reversed-reversed}

-- There is a first digit, and it is not zero.
abbrev pub StartsNonzero : Text → Type 0
StartsNonzero [] = ⊥
StartsNonzero (c ∷ digits) = c == 48 ≡ false

-- The triple of zero, or one whose digits neither start nor end with a zero.
abbrev pub IsMinimal : Triple → Type 0
IsMinimal (negative, digits, exp10) =
    ((negative ≡ false) × (digits ≡ 48 ∷ []) × (exp10 ≡ ℤ.pos 0))
    ⊎ (AreDigits digits × StartsNonzero digits × StartsNonzero (reversed digits))

StartsNonzero-append : (a b : Text) → StartsNonzero a → StartsNonzero (a ++ b)
StartsNonzero-append (c ∷ a) b h = h
StartsNonzero-append [] b h = absurd h

without_zero : (a : Text) → StartsNonzero (a ++ 48 ∷ []) → StartsNonzero a
without_zero [] h = absurd (cc h)
without_zero (c ∷ a) h = h

lstrip-starts : (a : Text) → (lstrip a ≡ []) ⊎ StartsNonzero (lstrip a)
unfolding lstrip
lstrip-starts [] = inl refl
lstrip-starts (c ∷ a) = elim (Bool-cases (c == 48)) [
  | inl e ↦ rw e (lstrip-starts a)
  | inr e ↦ inr (rw e e)
]

lstrip-AreDigits : (a : Text) → AreDigits a → AreDigits (lstrip a)
unfolding lstrip
lstrip-AreDigits [] h = tt
lstrip-AreDigits (c ∷ a) h = elim (Bool-cases (c == 48)) [
  | inl e ↦ rw e (lstrip-AreDigits a h.1)
  | inr e ↦ rw e h
]

-- The loop keeps the last digit that it meets, which is the first one of the number.
pub drop_zeros-starts :
    (a : Text) (e : ℤ)
    → AreDigits a
    → StartsNonzero (reversed a)
    → AreDigits (drop_zeros a e).0
      × StartsNonzero (drop_zeros a e).0
      × StartsNonzero (reversed (drop_zeros a e).0)
unfolding drop_zeros
drop_zeros-starts [] e h k = absurd k
drop_zeros-starts (c ∷ a) e h k = elim (Bool-cases (c == 48)) [
  | inl z ↦
      let same : c ≡ 48 = ground arith in
      rw z (drop_zeros-starts a (succ e) h.1 (without_zero (reversed a) (rw same at k)))
  | inr z ↦ rw z (h, z, k)
]

-- What `lstrip` leaves, seen from the right: nothing, or digits that the loop makes minimal.
pub lstripped :
    (a : Text)
    → AreDigits a
    → (lstrip a ≡ [])
      ⊎ (AreDigits (reversed (lstrip a)) × StartsNonzero (reversed (reversed (lstrip a))))
lstripped a h = elim (lstrip-starts a) [
  | inl e ↦ inl e
  | inr s ↦ inr (AreDigits-reversed _ (lstrip-AreDigits a h), rw (reversed-reversed (lstrip a)) s)
]

-- What `normalize` returns for `stripped` digits.
pub normalize-nil :
    (negative : Bool) (a : Text) (e : ℤ)
    → lstrip a ≡ []
    → normalize negative a e ≡ (false, 48 ∷ [], ℤ.pos 0)
unfolding normalize has_no_digits
normalize-nil negative a e h = rw h refl

abbrev the_zero : Triple
the_zero = (false, 48 ∷ [], ℤ.pos 0)

abbrev from_stripped : Bool → Text → ℤ → Triple
from_stripped negative [] e = (false, 48 ∷ [], ℤ.pos 0)
from_stripped negative (c ∷ s) e =
    (negative, reversed (drop_zeros (reversed (c ∷ s)) e).0, (drop_zeros (reversed (c ∷ s)) e).1)

pub normalize-cons :
    (negative : Bool) (a : Text) (e : ℤ)
    → StartsNonzero (reversed (reversed (lstrip a)))
    → normalize negative a e ≡ (
      negative,
      reversed (drop_zeros (reversed (lstrip a)) e).0,
      (drop_zeros (reversed (lstrip a)) e).1,
    )
unfolding normalize has_no_digits
normalize-cons negative a e h = choose (lstrip a) ∙ go (lstrip a) refl h
  where
    choose :
        (s : Text)
        → (if has_no_digits s
            then the_zero
            else (negative, reversed (drop_zeros (reversed s) e).0, (drop_zeros (reversed s) e).1))
          ≡ from_stripped negative s e
    choose [] = refl
    choose (c ∷ s) = refl

    go :
        (s : Text)
        → lstrip a ≡ s
        → StartsNonzero (reversed (reversed s))
        → from_stripped negative s e
          ≡ (negative, reversed (drop_zeros (reversed s) e).0, (drop_zeros (reversed s) e).1)
    go [] at k = absurd k
    go (c ∷ s) at k = refl

-- Whatever digits it is given, `normalize` returns the triple of zero, or digits that neither start
-- nor end with a zero.
pub normalize-IsMinimal :
    (negative : Bool) (digits : Text) (exp10 : ℤ)
    → AreDigits digits
    → IsMinimal (normalize negative digits exp10)
normalize-IsMinimal negative digits exp10 h = elim (lstripped digits h) [
  | inl e ↦ rw (normalize-nil negative digits exp10 e) (inl (refl, refl, refl))
  | inr (are, starts) ↦
      let (are', first, last) = drop_zeros-starts (reversed (lstrip digits)) exp10 are starts in
      rw (normalize-cons negative digits exp10 starts) (
        inr (
          AreDigits-reversed _ are',
          last,
          rw (reversed-reversed (drop_zeros (reversed (lstrip digits)) exp10).0) first,
        ))
]
