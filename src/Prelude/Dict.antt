-- ===== src/Prelude/Dict.antt =====
-- Python dicts with texts as keys, as their items in order of insertion.
use Prim.Native.String.{String}
use mathlib.Core.Path.{◌≡◌}
use mathlib.Core.Logic.{◌≢◌}
use mathlib.Core.Option.{Option, none, some}
use mathlib.Core.List.{List, [], ◌∷◌}
use native.Mathlib.Omega.{arith}
use text.Mathlib.TextEquality.{eq_iff}
use graphed.Prelude.Tests.{if◌then◌else◌}
use graphed.Prelude.Text.{str_eq}

module _ {ℓ} {A : Type ℓ} where
  -- `d.get(key)`
  unfoldable pub find : String → List (String × A) → Option A
  find key [] = none
  find key ((k, a) ∷ rest) = if str_eq k key then some a else find key rest

  -- `d[key] = a`
  unfoldable pub set : String → A → List (String × A) → List (String × A)
  set key a [] = (key, a) ∷ []
  set key a ((k, b) ∷ rest) =
      let others = set key a rest in if str_eq k key then (k, a) ∷ rest else (k, b) ∷ others

  pub find-set : (key : String) (a : A) (d : List (String × A)) → find key (set key a d) ≡ some a
  unfolding find set
  find-set key a [] = ground (arith, eq_iff key key)
  find-set key a ((k, b) ∷ rest) = ground (arith, find-set key a rest, eq_iff k key)

  pub find-set_ne :
      (key other : String) (a : A) (d : List (String × A))
      → key ≢ other
      → find key (set other a d) ≡ find key d
  unfolding find set
  find-set_ne key other a [] ne = ground (arith, eq_iff other key)
  find-set_ne key other a ((k, b) ∷ rest) ne =
      ground (arith, find-set_ne key other a rest, eq_iff k key, eq_iff k other, eq_iff other key)
