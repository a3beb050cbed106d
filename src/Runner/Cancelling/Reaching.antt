-- ===== src/Runner/Cancelling/Reaching.antt =====
-- How far the calls to its control let a run come, and the fold over the tasks that it reaches.
use graphed.Prelude.{
  ℕ, zero, suc, ◌+◌, ◌≡◌, refl, ap, sym, subst, Option, none, some, List, [], ◌∷◌, inl, inr, length,
  take, if◌then◌else◌,
}
use graphed.Outcome.{Exn, Outcome, returns, raises, hangs, Exec, pure, lift, continue, ◌>>=◌}
use graphed.Control.{Control, RunState, running, paused, cancelled, wait, read_state}
use graphed.Control.Sticky.{wait_wakes}
use graphed.Resources.{Resources}
use graphed.Plan.{Task, StopReason, ExecResult}
use graphed.Plan
use graphed.Runner.Tasks.{
  Monitor, Job, World, as_result, wait_cancelled, cancelled_wait, run_one, loop,
}
use graphed.Runner.Simulation.{IsTame}
use graphed.Runner.Fold.{fold_step, fold_tasks}
use graphed.Runner.Steps.{Like-run_one}

-- What ends the loop if no task does: there is none left, a cancel, or a pause for good.
pub data Ending : Type 0 where
  finished cut blocked : Ending

-- What the next wait lets the run do, and how far it comes then.
abbrev pub met : Outcome RunState → ℕ × Ending → ℕ × Ending
met (returns running) (k, ending) = (suc k, ending)
met (returns paused) (k, ending) = (suc k, ending)
met (returns cancelled) rest = (0, cut)
met (raises e) rest = (0, blocked)
met hangs rest = (0, blocked)

-- How many of `n` tasks a run begins whose control this is, asked before each, and what stops it.
abbrev pub comes : Control → ℕ → ℕ × Ending
comes c zero = (0, finished)
comes c (suc n) = met (wait c).0 (comes (wait c).1 n)

abbrev pub comes_to : Option Control → ℕ → ℕ × Ending
comes_to none n = (n, finished)
comes_to (some c) n = comes c n

-- The state that is read before the first task is submitted.
abbrev pub looked : RunState → ℕ × Ending → ℕ × Ending
looked cancelled rest = (0, cut)
looked _ rest = rest

abbrev pub starts_and_comes_to : Option Control → ℕ → ℕ × Ending
starts_and_comes_to none n = (n, finished)
starts_and_comes_to (some c) n = looked (read_state c).0 (comes (read_state c).1 n)

module _ {S V : Type 0} (job : Job S V) where
  abbrev ended : Ending → V → ℕ → Exec S (V × ℕ × Option StopReason)
  ended finished value n = pure (value, n, none)
  ended cut value n = pure (value, n, some Plan.cancelled)
  ended blocked value n = λ s. (hangs, s)

  -- The fold over the tasks that are reached, and how it ends after them.
  abbrev pub reached : ℕ × Ending → List Task → V → ℕ → Exec S (V × ℕ × Option StopReason)
  reached (k, ending) tasks value n =
      fold_tasks job (take k tasks) value n >>= λ r. ended ending r.0 r.1

  abbrev pub reached_body : ℕ × Ending → List Task → Exec S (ExecResult V)
  reached_body far tasks =
      lift job.empty >>= λ value. reached far tasks value 0 >>= λ r. pure (as_result r)

module _ {H W M : Type 0} where
  -- The same outcome, and the same resources.
  abbrev pub Same : {A : Type 0} → Outcome A × World H W M → Outcome A × Resources H W → Type 0
  Same x y = (x.0 ≡ y.0) × (x.1.resources ≡ y.1)

  pub Same-continue :
      {A B : Type 0} (x : Outcome A × World H W M) (y : Outcome A × Resources H W)
      (f : A → Exec (World H W M) B) (g : A → Exec (Resources H W) B)
      → Same x y
      → ((a : A) → Same (f a x.1) (g a x.1.resources))
      → Same (continue x f) (continue y g)
  Same-continue (returns a, w) (returns b, r) f g (o, e) h =
      let is : a ≡ b = cc o in
      subst (λ s. Same (f a w) (g b s)) e (subst (λ c. Same (f a w) (g c w.resources)) is (h a))
  Same-continue (raises a, w) (raises b, r) f g (o, e) h = (ap raises (cc o), e)
  Same-continue (hangs, w) (hangs, r) f g (o, e) h = (refl, e)
  Same-continue (returns a, w) (raises b, r) f g (o, e) h = absurd (cc o)
  Same-continue (returns a, w) (hangs, r) f g (o, e) h = absurd (cc o)
  Same-continue (raises a, w) (returns b, r) f g (o, e) h = absurd (cc o)
  Same-continue (raises a, w) (hangs, r) f g (o, e) h = absurd (cc o)
  Same-continue (hangs, w) (returns b, r) f g (o, e) h = absurd (cc o)
  Same-continue (hangs, w) (raises b, r) f g (o, e) h = absurd (cc o)

pub continue_assoc :
    {S A B C : Type 0} (y : Outcome A × S) (f : A → Exec S B) (g : B → Exec S C)
    → continue y (λ a s. continue (f a s) g) ≡ continue (continue y f) g
continue_assoc (returns a, s) f g = refl
continue_assoc (raises e, s) f g = refl
continue_assoc (hangs, s) f g = refl

pub wait-raises_not : (c : Control) (d : Exn) (c' : Control) → ¬ wait c ≡ (raises d, c')
wait-raises_not c d c' e = elim (wait_wakes c) [
  | inl (woke, _) ↦ cc (ap (λ (x : Outcome RunState × Control). x.0) e, woke)
  | inr (stuck, _, _) ↦ cc (ap (λ (x : Outcome RunState × Control). x.0) e, stuck)
]

module _ {H W M V : Type 0} (closer : H → Option (Exec W (Unit {0}))) (now : ℕ → ℕ)
    (monitor : Option (Monitor M)) (tame : IsTame monitor) (job : Job (Resources H W) V) where
  abbrev Looping : List Task → Option Control → Type 0
  Looping tasks o =
      (value : V) (n : ℕ) (w : World H W M)
      → w.control ≡ o
      → Same (loop closer now monitor job tasks value n w)
          (reached job (comes_to o (length tasks)) tasks value n w.resources)

  -- A task is run, and the tasks after it.
  goes_on :
      (task : Task) (tasks : List Task) (o : Option Control) (value : V) (n : ℕ) (w : World H W M)
      → w.control ≡ o
      → Looping tasks o
      → let (k, ending) = comes_to o (length tasks) in
        Same
          (continue
            (run_one closer now monitor job task value w)
            (λ v. loop closer now monitor job tasks v (n + 1)))
          (reached job (suc k, ending) (task ∷ tasks) value n w.resources)
  unfolding fold_tasks
  goes_on task tasks o value n w at ih =
      let (out, res, ctl) = (Like-run_one closer now monitor tame o job task value).at w at in
      let far = comes_to o (length tasks) in
      subst
        (Same (
          continue (run_one closer now monitor job task value w)
            (λ v. loop closer now monitor job tasks v (n + 1))))
        (continue_assoc (fold_step job task value w.resources)
          (λ v. fold_tasks job (take far.0 tasks) v (n + 1)) (λ r. ended job far.1 r.0 r.1))
        (Same-continue (run_one closer now monitor job task value w)
          (fold_step job task value w.resources) _ _ (out, res)
          (λ v. ih v (n + 1) (run_one closer now monitor job task value w).1 ctl))

  turn :
      (task : Task) (tasks : List Task) (c : Control) (value : V) (n : ℕ) (w : World H W M)
      (state : Outcome RunState) (c' : Control)
      → wait c ≡ (state, c')
      → w.control ≡ some c
      → Looping tasks (some c')
      → Same
          (loop closer now monitor job (task ∷ tasks) value n w)
          (reached job (met state (comes c' (length tasks))) (task ∷ tasks) value n w.resources)
  unfolding loop wait_cancelled cancelled_wait fold_tasks
  turn task tasks c value n w (returns running) c' e at ih =
      rw (at, e) (goes_on task tasks (some c') value n (record w { control = some c' }) refl ih)
  turn task tasks c value n w (returns paused) c' e at ih =
      rw (at, e) (goes_on task tasks (some c') value n (record w { control = some c' }) refl ih)
  turn task tasks c value n w (returns cancelled) c' e at ih = rw (at, e) (refl, refl)
  turn task tasks c value n w (raises d) c' e at ih = absurd (wait-raises_not c d c' e)
  turn task tasks c value n w hangs c' e at ih = rw (at, e) (refl, refl)

  pub loop-reached : (tasks : List Task) (o : Option Control) → Looping tasks o
  unfolding loop fold_tasks wait_cancelled cancelled_wait
  loop-reached [] none value n w at = (refl, refl)
  loop-reached [] (some c) value n w at = (refl, refl)
  loop-reached (task ∷ tasks) none value n w at =
      subst
        (λ x.
          Same
            (continue x (λ stop.
              if stop
              then pure (value, n, some Plan.cancelled)
              else (run_one closer now monitor job task value >>= λ v.
                  loop closer now monitor job tasks v (n + 1))))
            (reached job (suc (length tasks), finished) (task ∷ tasks) value n w.resources))
        (sym (ap (λ o. cancelled_wait closer now monitor o w) at))
        (goes_on task tasks none value n w at (loop-reached tasks none))
  loop-reached (task ∷ tasks) (some c) value n w at =
      turn task tasks c value n w (wait c).0 (wait c).1 refl at
        (loop-reached tasks (some (wait c).1))
