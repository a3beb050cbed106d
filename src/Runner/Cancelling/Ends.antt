-- ===== src/Runner/Cancelling/Ends.antt =====
-- What the cleanup of a run leaves of the resources.
use graphed.Prelude.{ℕ, ◌≡◌, refl, Option, none, some}
use graphed.Outcome.{Outcome, returns, raises, hangs, Exec, continue}
use graphed.Control.{Control}
use graphed.Resources
use graphed.Resources.{Resources}
use graphed.Runner.Tasks.{Monitor, World, Run, in_resources, reset_control, cleanup}

module _ {H W M : Type 0} (closer : H → Option (Exec W (Unit {0}))) (now : ℕ → ℕ)
    (monitor : Option (Monitor M)) where
  resets :
      (o : Option Control) (w : World H W M)
      → ((reset_control closer now monitor o w).0 ≡ returns tt)
        × ((reset_control closer now monitor o w).1.resources ≡ w.resources)
  unfolding reset_control
  resets none w = (refl, refl)
  resets (some c) w = (refl, refl)

  cleans :
      (w : World H W M)
      → ((cleanup closer now monitor w).0 ≡ (Resources.close closer w.resources).0)
        × ((cleanup closer now monitor w).1.resources ≡ (Resources.close closer w.resources).1)
  unfolding cleanup in_resources
  cleans w = closed (Resources.close closer w.resources)
    where
      reset : Run closer now monitor (Unit {0})
      reset w' = reset_control closer now monitor w'.control w'

      closed :
          (x : Outcome (Unit {0}) × Resources H W)
          → ((continue (x.0, record w { resources = x.1 }) (λ _. reset)).0 ≡ x.0)
            × ((continue (x.0, record w { resources = x.1 }) (λ _. reset)).1.resources ≡ x.1)
      closed (returns u, r) = resets w.control (record w { resources = r })
      closed (raises d, r) = (refl, refl)
      closed (hangs, r) = (refl, refl)

  pub cleans_to :
      (w : World H W M) (r : Resources H W)
      → (w.resources ≡ r)
      → ((cleanup closer now monitor w).0 ≡ (Resources.close closer r).0)
        × ((cleanup closer now monitor w).1.resources ≡ (Resources.close closer r).1)
  cleans_to w r e = rw⁻¹ e (cleans w)
