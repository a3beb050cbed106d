-- ===== src/Prelude/Ranges.antt =====
-- `range(start, start + count)` as a list, and how adjacent ranges join.
use Prim.Native.Nat.{ℕ, zero, suc, ◌+◌}
use mathlib.Core.Path.{◌≡◌, refl, ap}
use mathlib.Core.List.{List, [], ◌∷◌, ◌++◌}
use native.Mathlib.Omega.{arith}
use Prim.Native.Nat.add
use graphed.Prelude.Lists.{length}

-- The `count` numbers from `start` on.
unfoldable pub range : ℕ → ℕ → List ℕ
range start zero = []
range start (suc count) = start ∷ range (start + 1) count

pub length-range : (start count : ℕ) → length (range start count) ≡ count
unfolding range
length-range start zero = refl
length-range start (suc count) = ap suc (length-range (start + 1) count)

pub range-add : (start a b c : ℕ) → start + a ≡ c → range start a ++ range c b ≡ range start (a + b)
unfolding range
range-add start zero b c e = let here : start ≡ c = omega arith in rw (here, add.zero b) refl
range-add start (suc a) b c e =
    rw (add.suc a b) (ap (λ l. start ∷ l) (range-add (start + 1) a b c (omega arith)))
