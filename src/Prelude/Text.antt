-- ===== src/Prelude/Text.antt =====
-- Text as Python prints it: joined pieces and decimal numbers.
use Prim.Native.Nat.{ℕ, zero, suc, ◌+◌, ◌/◌, ◌%◌}
use Prim.Native.String.{slice}
use Prim.Native.String
use Prim.Native.String.{String}
pub use text.Mathlib.Text.{◌==◌ as str_eq}
use Prim.Native.Nat.{Ordering}
use mathlib.Core.Bool.{Bool, true, false}
use mathlib.Core.List.{List, [], ◌∷◌}
use mathlib.Core.Path.{◌≡◌, refl}
use graphed.Prelude.Tests.{ltb, if◌then◌else◌}

-- `s <= t` on texts, which Python compares by code point
abbrev pub str_leb : String → String → Bool
str_leb s t = elim (String.compare s t) [ Ordering.gt ↦ false | _ ↦ true ]

-- "".join(pieces), also the value of an f-string with these pieces
abbrev pub concat : List String → String
concat [] = ""
concat (s ∷ rest) = String.◌++◌ s (concat rest)

-- sep.join(pieces)
abbrev pub join : String → List String → String
join sep [] = ""
join sep (s ∷ []) = s
join sep (s ∷ rest) = concat (s ∷ sep ∷ join sep rest ∷ [])

-- `repr` of a text with no quotes and nothing to escape
abbrev pub repr : String → String
repr s = concat ("'" ∷ s ∷ "'" ∷ [])

digit : ℕ → String
digit d = slice "0123456789" d (d + 1)

show_digits : ℕ → ℕ → String
show_digits zero n = ""
show_digits (suc fuel) n =
    let rest = String.◌++◌ (show_digits fuel (n / 10)) (digit (n % 10)) in
    if ltb n 10 then digit n else rest

-- str(n): `n + 1` divisions by ten are more than enough
unfoldable pub show : ℕ → String
unfolding digit show_digits
show n = show_digits (suc n) n

show_runs : show 15000 ≡ "15000"
unfolding show
show_runs = refl
