-- ===== src/Runner/Observed.antt =====
-- `observed_run`: the monitor's hooks around a run change nothing of what it ends in.
use graphed.Prelude.{ℕ, ◌≡◌, refl, ◌∙◌, Option, none, some}
use graphed.Control.{Control}
use graphed.Outcome.{Outcome, returns, Exec}
use graphed.Runner.{start_hook, end_hook, observed_run}
use graphed.Runner.Tasks.{Monitor, World, Run, notify}
use graphed.Runner.Simulation.{IsTame, swallowed}
use graphed.Runner.Stages.Chains.{after, finish_lem}

module _ {H W M : Type 0} (closer : H → Option (Exec W (Unit {0}))) (now : ℕ → ℕ)
    (monitor : Option (Monitor M)) where
  start_lem :
      (o : Option (Monitor M)) (n : ℕ) (w : World H W M)
      → IsTame o
      → (start_hook closer now monitor o n w).0 ≡ returns tt
  unfolding start_hook notify
  start_lem none n w tame = refl
  start_lem (some m) n w tame = swallowed (m.on_run_start n w.monitor) (tame.1 n w.monitor)

  start-control :
      (o : Option (Monitor M)) (n : ℕ) (w : World H W M)
      → (start_hook closer now monitor o n w).1.control ≡ w.control
  unfolding start_hook notify
  start-control none n w = refl
  start-control (some m) n w = refl

  end_lem :
      (o : Option (Monitor M)) (w : World H W M)
      → IsTame o
      → (end_hook closer now monitor o w).0 ≡ returns tt
  unfolding end_hook notify
  end_lem none w tame = refl
  end_lem (some m) w tame = swallowed (m.on_run_end w.monitor) (tame.2 w.monitor)

  pub observed_run_lem :
      {A : Type 0} {o : Option Control} (n : ℕ) (block : Run closer now monitor A) (z : Outcome A)
      (w : World H W M)
      → IsTame monitor
      → w.control ≡ o
      → ((w' : World H W M) → w'.control ≡ o → (block w').0 ≡ z)
      → (observed_run closer now monitor n block w).0 ≡ z
  unfolding observed_run
  observed_run_lem n block z w tame at h =
      after _ (λ i. (start_lem monitor n w tame i, (start_hook closer now monitor monitor n w).1))
        (finish_lem _ (end_hook closer now monitor monitor) (λ w'. end_lem monitor w' tame)
          ∙ h _ (start-control monitor n w ∙ at))
