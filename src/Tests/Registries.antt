-- ===== src/Tests/Registries.antt =====
-- The registry of a Session after a mint, a refused mint and a transaction that raises.
use graphed.Prelude.{String, ◌≡◌, ◌≢◌, refl, some, [], ◌∷◌, arith, eq_iff}
use graphed.Prelude.Dict.{find, set}
use graphed.Systematics.Tags.{same_text}
use graphed.Outcome.{Outcome, raises, value_error}
use graphed.Systematics.Points.{Point}
use graphed.Systematics.Registry.{
  SystematicsState, new_state, Points, two_labels, owner_of, mint, transaction,
}
use graphed.Systematics.Registry.Calling.{
  InverseIn, Minted, mint-Minted, start, minting, Kept, now, leaving, Later-Kept,
}

-- jes: up, and jes: dn
abbrev up_point : Point
up_point = (106 ∷ 101 ∷ 115 ∷ [], 117 ∷ 112 ∷ []) ∷ []

abbrev down_point : Point
down_point = (106 ∷ 101 ∷ 115 ∷ [], 100 ∷ 110 ∷ []) ∷ []

abbrev jes : Points
jes = ("jes_up", up_point) ∷ ("jes_dn", down_point) ∷ []

nothing-IsInverse : InverseIn new_state
unfolding find owner_of
nothing-IsInverse = record { owned = λ l p h. cc h; named = λ l p h. cc h }

mint-Minted_example : Minted jes new_state (mint jes new_state)
mint-Minted_example = mint-Minted jes new_state ((different, tt), (tt, tt)) nothing-IsInverse
  where
    different : ◌≢◌ {A = String} "jes_dn" "jes_up"
    different e = ground (arith, eq_iff "jes_dn" "jes_up", e)

second_name_refused :
    (mint (("jec_up", up_point) ∷ []) (mint jes new_state).1).0
    ≡ some (two_labels "jec_up" "jes_up")
unfolding mint find set same_text
second_name_refused = refl

-- A body that mints and then raises.
abbrev failing : SystematicsState → Outcome (Unit {0}) × SystematicsState
failing st = (raises (value_error "no"), (mint (("jec_up", down_point) ∷ []) st).1)

-- From the body's last state, where the label is bound, to the one after the rollback.
Later-Kept_example : Kept (failing new_state).1 (transaction failing new_state).1
Later-Kept_example =
    Later-Kept nothing-IsInverse (
      leaving (Unit {0}) failing start (now (minting (("jec_up", down_point) ∷ []) (tt, tt) start)))

rolled_back_again : (transaction failing new_state).1.points ≡ []
unfolding transaction
rolled_back_again = refl
