-- ===== src/Systematics/Tags/Reading.antt =====
-- What `canonical_tag` reads in a tag that `spell_number` wrote.
use graphed.Prelude.{
  ℕ, suc, ◌≡◌, refl, sym, ap, ◌∙◌, Bool, true, false, [], ◌∷◌, ◌++◌, append-nil, All-append, arith,
  inl, inr,
}
use graphed.Prelude.Int.{ℤ}
use graphed.Systematics.Digits.{Text, Triple, is_digit, decimal, normalize, zeros}
use graphed.Systematics.Digits.Value.{AreDigits}
use graphed.Systematics.Digits.Shape.{StartsNonzero, IsMinimal}
use graphed.Systematics.Digits.Decimal.{normalize-fixed, normalize-zeros, zeros-AreDigits}
use graphed.Systematics.Grammar.{float_sugar}
use graphed.Systematics.Tags.{
  marker, rendered, spell_number, spell_match, by_sugar, by_canonical, canonical_text,
  is_not_finite, lower, same_text,
}
use graphed.Systematics.Tags.Parsing.{
  IsNonempty, float_sugar-digits, float_sugar-marked, float_sugar-power, canonical-digits,
  canonical-power,
}

-- A text that starts with a digit or the mark is none of inf, infinity, nan.
pub finite-digit : (c : ℕ) (rest : Text) → is_digit c ≡ true → is_not_finite (c ∷ rest) ≡ false
unfolding is_not_finite lower same_text
finite-digit c rest h = ground (arith, h)

finite-mark : (rest : Text) → is_not_finite (109 ∷ rest) ≡ false
unfolding is_not_finite lower same_text
finite-mark rest = refl

abbrev IsFinite : Text → Type 0
IsFinite t = is_not_finite t ≡ false

IsFinite-rendered :
    (negative : Bool) (a rest : Text)
    → IsNonempty a
    → AreDigits a
    → IsFinite (marker negative ++ (a ++ rest))
IsFinite-rendered false [] rest s h = absurd s
IsFinite-rendered false (c ∷ a) rest s h = finite-digit c (a ++ rest) h.0
IsFinite-rendered true a rest s h = finite-mark (a ++ rest)

rendered-IsNonempty :
    (negative : Bool) (a rest : Text) → IsNonempty a → IsNonempty (marker negative ++ (a ++ rest))
rendered-IsNonempty false [] rest s = absurd s
rendered-IsNonempty false (c ∷ a) rest s = tt
rendered-IsNonempty true a rest s = tt

pub canonical_text-some :
    (t : Text) → IsNonempty t → IsFinite t → canonical_text t ≡ by_sugar t (float_sugar t)
unfolding canonical_text
canonical_text-some [] s f = absurd s
canonical_text-some (c ∷ t) s f = rw f refl

-- A whole number is read back …
reread-whole :
    (negative : Bool) (a : Text)
    → IsNonempty a
    → AreDigits a
    → by_sugar (marker negative ++ a) (float_sugar (marker negative ++ a))
      ≡ spell_number (normalize negative (a ++ []) (ℤ.pos 0))
unfolding by_sugar by_canonical spell_match
reread-whole false a s h = rw (float_sugar-digits a s h) refl
reread-whole true a s h = rw (float_sugar-marked a, canonical-digits a s h) refl

-- … and so is a fraction.
reread-power :
    (negative : Bool) (a : Text) (n : ℕ)
    → IsNonempty a
    → AreDigits a
    → by_sugar
        (marker negative ++ (a ++ 101 ∷ 109 ∷ decimal (suc n)))
        (float_sugar (marker negative ++ (a ++ 101 ∷ 109 ∷ decimal (suc n))))
      ≡ spell_number (normalize negative (a ++ []) (ℤ.negsuc n))
unfolding by_sugar by_canonical spell_match
reread-power false a n s h =
    rw (float_sugar-power a (decimal (suc n)) s h, canonical-power false a n s h) refl
reread-power true a n s h =
    rw (float_sugar-marked (a ++ 101 ∷ 109 ∷ decimal (suc n)), canonical-power true a n s h) refl

pub starts-IsNonempty : (a : Text) → StartsNonzero a → IsNonempty a
starts-IsNonempty [] h = h
starts-IsNonempty (c ∷ a) h = tt

pub append-IsNonempty : (a b : Text) → IsNonempty a → IsNonempty (a ++ b)
append-IsNonempty [] b h = absurd h
append-IsNonempty (c ∷ a) b h = tt

reread_zero :
    canonical_text (rendered (false, 48 ∷ [], ℤ.pos 0)) ≡ spell_number (false, 48 ∷ [], ℤ.pos 0)
unfolding rendered zeros canonical_text spell_number by_sugar float_sugar
reread_zero = refl

-- The tag of a minimal triple is spelled as the triple is.
pub canonical_text-rendered :
    (t : Triple) → IsMinimal t → canonical_text (rendered t) ≡ spell_number t
unfolding rendered
canonical_text-rendered (negative, digits, exp10) (inl (n, d, e)) =
    let same : Path Triple (negative, digits, exp10) (false, 48 ∷ [], ℤ.pos 0) =
      rw (n, d, e) refl in
    ap (λ t. canonical_text (rendered t)) same ∙ reread_zero ∙ ap spell_number (sym same)
canonical_text-rendered (negative, digits, ℤ.pos n) (inr (h, s, t)) =
    let some_digits = starts-IsNonempty digits s in
    let whole = append-IsNonempty digits (zeros n) some_digits in
    let are = All-append _ digits (zeros n) h (zeros-AreDigits n) in
    canonical_text-some _ (rendered-IsNonempty negative digits (zeros n) some_digits)
      (IsFinite-rendered negative digits (zeros n) some_digits h)
    ∙ reread-whole negative (digits ++ zeros n) whole are
    ∙ ap (λ d. spell_number (normalize negative d (ℤ.pos 0))) (append-nil (digits ++ zeros n))
    ∙ ap spell_number (normalize-zeros negative digits n h s t)
canonical_text-rendered (negative, digits, ℤ.negsuc n) (inr (h, s, t)) =
    let some_digits = starts-IsNonempty digits s in
    let power = 101 ∷ 109 ∷ decimal (suc n) in
    canonical_text-some _ (rendered-IsNonempty negative digits power some_digits)
      (IsFinite-rendered negative digits power some_digits h)
    ∙ reread-power negative digits n some_digits h
    ∙ ap (λ d. spell_number (normalize negative d (ℤ.negsuc n))) (append-nil digits)
    ∙ ap spell_number (normalize-fixed negative digits (ℤ.negsuc n) s t)
