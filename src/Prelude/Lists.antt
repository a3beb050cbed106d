-- ===== src/Prelude/Lists.antt =====
-- Lists measured by native numbers, and predicates on lists by recursion.
use Prim.Native.Nat.{ℕ, zero, suc, ◌+◌}
use mathlib.Core.Path.{◌≡◌, refl, ap}
use mathlib.Core.List.{List, [], ◌∷◌, ◌++◌}
use native.Mathlib.Omega.{arith}

module _ {ℓ} {A : Type ℓ} where
  abbrev pub length : List A → ℕ
  length [] = 0
  length (x ∷ xs) = suc (length xs)

  pub length-append : (xs ys : List A) → length (xs ++ ys) ≡ length xs + length ys
  length-append [] ys = omega arith
  length-append (x ∷ xs) ys = omega (arith, length-append xs ys)

module _ {ℓ κ} {A : Type ℓ} (P : A → Type κ) where
  -- `P` holds of every element.
  abbrev pub All : List A → Type κ
  All [] = Unit
  All (x ∷ xs) = P x × All xs

  pub All-append : (xs ys : List A) → All xs → All ys → All (xs ++ ys)
  All-append [] ys h k = k
  All-append (x ∷ xs) ys h k = (h.0, All-append xs ys h.1 k)

module _ {ℓ} {A : Type ℓ} where
  abbrev pub take : ℕ → List A → List A
  take zero xs = []
  take (suc n) [] = []
  take (suc n) (x ∷ xs) = x ∷ take n xs

  -- One element past `xs` is the first of what follows.
  pub take-append_suc :
      (xs : List A) (y : A) (ys : List A) (n : ℕ)
      → length xs ≡ n
      → take (suc n) (xs ++ y ∷ ys) ≡ xs ++ y ∷ []
  take-append_suc [] y ys zero e = refl
  take-append_suc [] y ys (suc n) e = absurd (omega arith)
  take-append_suc (x ∷ xs) y ys zero e = absurd (omega arith)
  take-append_suc (x ∷ xs) y ys (suc n) e =
      ap (λ l. x ∷ l) (take-append_suc xs y ys n (omega arith))
