-- ===== src/Systematics/Tags/Bounds.antt =====
-- How long a tag is that `spell_number` writes.
use graphed.Prelude.{
  ℕ, zero, suc, ◌+◌, ◌≤◌, ◌≡◌, refl, sym, ap, ◌∙◌, Bool, true, false, [], ◌∷◌, ◌++◌, length,
  length-append, ltb, if◌then◌else◌, arith, Bool-cases, inl, inr, ◌⊎◌,
}
use graphed.Prelude.Int.{ℤ}
use graphed.Systematics.Digits.{Text, Triple, decimal, zeros, plus, succ}
use graphed.Systematics.Tags.{
  spelled, refused, Refusal, marker, rendered, tag_length, magnitude, at_least_one, is_zero,
  spell_number,
}

length-zeros : (n : ℕ) → length (zeros n) ≡ n
unfolding zeros
length-zeros zero = refl
length-zeros (suc n) = ap suc (length-zeros n)

plus-pos_pos : (m n : ℕ) → plus (ℤ.pos m) n ≡ ℤ.pos (m + n)
plus-pos_pos m zero = ap ℤ.pos (omega arith)
plus-pos_pos m (suc n) = ap succ (plus-pos_pos m n) ∙ ap ℤ.pos (omega arith)

length-marker : (negative : Bool) → length (marker negative) ≡ (if negative then 1 else 0)
length-marker false = refl
length-marker true = refl

-- What the second test computes bounds the length of what is written.
length-rendered :
    (negative : Bool) (digits : Text) (exp10 : ℤ)
    → length (rendered (negative, digits, exp10))
      ≤ tag_length (if negative then 1 else 0) digits exp10
unfolding rendered tag_length magnitude at_least_one
length-rendered negative digits (ℤ.pos n) =
    let wide = plus-pos_pos n (length digits) in
    rw
      (
        wide,
        length-append (marker negative) (digits ++ zeros n),
        length-append digits (zeros n),
        length-zeros n,
        length-marker negative,
      )
      (omega arith)
length-rendered negative digits (ℤ.negsuc n) =
    rw
      (
        length-append (marker negative) (digits ++ 101 ∷ 109 ∷ decimal (suc n)),
        length-append digits (101 ∷ 109 ∷ decimal (suc n)),
        length-marker negative,
      )
      (omega arith)

spelled-injective : {a b : Text} → spelled a ≡ spelled b → a ≡ b
spelled-injective e = cc e

pub no_refusal : {r : Refusal} {a : Text} → refused r ≡ spelled a → ⊥
no_refusal e = cc e

-- A tag is written past both tests, or it is zero's.
pub spelled-cases :
    (negative : Bool) (digits : Text) (exp10 : ℤ) (tag : Text)
    → spell_number (negative, digits, exp10) ≡ spelled tag
    → ((is_zero digits ≡ true) × (tag ≡ 48 ∷ []))
      ⊎ ((tag ≡ rendered (negative, digits, exp10))
          × (tag_length (if negative then 1 else 0) digits exp10 ≤ 32))
unfolding spell_number
spelled-cases negative digits exp10 tag e =
    let size = magnitude digits exp10 in
    let long = tag_length (if negative then 1 else 0) digits exp10 in
    elim (Bool-cases (is_zero digits)) [
      | inl z ↦ inl (z, sym (spelled-injective (simp z at e)))
      | inr nz ↦ elim (Bool-cases (ltb 32 size)) [
        | inl over ↦ absurd (no_refusal (simp (nz, over) at e))
        | inr fits ↦ elim (Bool-cases (ltb 32 long)) [
          | inl over ↦ absurd (no_refusal (simp (nz, fits, over) at e))
          | inr short ↦
              inr (sym (spelled-injective (simp (nz, fits, short) at e)), ground (arith, short))
        ]
      ]
    ]

-- A tag that `spell_number` writes has at most 32 characters.
pub spell_number-length : (t : Triple) (tag : Text) → spell_number t ≡ spelled tag → length tag ≤ 32
spell_number-length (negative, digits, exp10) tag e =
    elim (spelled-cases negative digits exp10 tag e) [
      | inl (z, is) ↦ rw is (omega arith)
      | inr (is, few) ↦ rw is (omega (arith, length-rendered negative digits exp10, few))
    ]
