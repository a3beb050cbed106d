-- ===== src/Tests/Warned.antt =====
-- Three chunks, two of which warn of an overflow.
use graphed.Prelude.{ℕ, ◌+◌, ◌≡◌, refl, Bool, true, [], ◌∷◌, ◌==◌, ◌↔◌, arith, All}
use graphed.Outcome.{Outcome, returns}
use graphed.Warnings
use graphed.Warnings.{Key, MaybeWarned, warned, carrying, find, same_key, warned_combine}
use graphed.Warnings.Fold.{
  fold_partials, caught_of, first_caught, IsDict, carrying-IsDict, fold_partials-first_caught,
}

same_iff : (c d : ℕ) → (c == d ≡ true) ↔ (c ≡ d)
same_iff c d = ((λ h. ground arith), (λ p. ground arith))

abbrev same : ℕ → ℕ → Bool
same c d = c == d

-- Category 0 does not survive the trip, and travels as 1.
abbrev carried : ℕ → ℕ
carried c = c + 1

abbrev overflow : Key ℕ
overflow = (1, "overflow")

abbrev quiet : MaybeWarned ℕ ℕ
quiet = carrying same carried 1 [] "a.root"

abbrev first_warner : MaybeWarned ℕ ℕ
first_warner = carrying same carried 2 (((0, "overflow"), ("cuts.py", 7)) ∷ []) "b.root"

abbrev second_warner : MaybeWarned ℕ ℕ
second_warner = carrying same carried 3 (((0, "overflow"), ("cuts.py", 9)) ∷ []) "c.root"

abbrev add : ℕ → ℕ → Outcome ℕ
add a b = returns (a + b)

abbrev result : MaybeWarned ℕ ℕ
result = warned 6 ((overflow, ("cuts.py", 7, "b.root")) ∷ [])

dicts : All (IsDict same same_iff) (quiet ∷ first_warner ∷ second_warner ∷ [])
dicts = (
  carrying-IsDict same same_iff carried 1 [] "a.root",
  (
    carrying-IsDict same same_iff carried 2 (((0, "overflow"), ("cuts.py", 7)) ∷ []) "b.root",
    (carrying-IsDict same same_iff carried 3 (((0, "overflow"), ("cuts.py", 9)) ∷ []) "c.root", tt),
  ),
)

folded : fold_partials same same_iff add quiet (first_warner ∷ second_warner ∷ []) ≡ returns result
unfolding warned_combine carrying Warnings.set same_key
folded = refl

fold_partials-first_caught_example :
    find same overflow (caught_of same same_iff result)
    ≡ first_caught same same_iff overflow (quiet ∷ first_warner ∷ second_warner ∷ [])
fold_partials-first_caught_example =
    fold_partials-first_caught same same_iff add quiet (first_warner ∷ second_warner ∷ []) result
      overflow dicts folded
