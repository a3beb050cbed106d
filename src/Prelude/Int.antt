-- ===== src/Prelude/Int.antt =====
-- Python's signed integers, where a test for a negative number matters.
use Prim.Native.Nat.{ℕ, zero, suc}
use mathlib.Core.Bool.{Bool, true, false}
use mathlib.Core.List.{[], ◌∷◌}
use Prim.Native.String.{String}
use graphed.Prelude.Text.{concat, show}

-- `negsuc n` is -(n + 1).
pub data ℤ : Type 0 where
  pos : ℕ → ℤ
  negsuc : ℕ → ℤ

-- `n < 0`
abbrev pub is_negative : ℤ → Bool
is_negative (pos _) = false
is_negative (negsuc _) = true

-- `bool(n)`
abbrev pub is_nonzero : ℤ → Bool
is_nonzero (pos zero) = false
is_nonzero _ = true

unfoldable pub show_int : ℤ → String
show_int (pos n) = show n
show_int (negsuc n) = concat ("-" ∷ show (suc n) ∷ [])
