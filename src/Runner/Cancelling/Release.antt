-- ===== src/Runner/Cancelling/Release.antt =====
-- What a run gives back when it ends: closed handles and a control ready for the next run.
use graphed.Prelude.{
  ℕ, ◌≡◌, refl, ap, ◌∙◌, Bool, true, Option, none, some, List, [], ◌∷◌, if◌then◌else◌, subst, sym,
  not,
}
use graphed.Outcome.{raise, Outcome, returns, raises, hangs, Exec, pure, finish, continue}
use graphed.Control.{Control, RunState, cancelled, is_cancelled, read_state}
use graphed.Resources
use graphed.Resources.{Resources}
use graphed.Plan.{Task}
use graphed.Runner.Tasks.{
  Monitor, Job, World, in_resources, reset_control, body, cleanup, fresh, run_tasks,
}
use graphed.Control.{call, running, paused}
use graphed.Runner.Simulation.{EndsTamely, swallowed}
use graphed.Resources.{close_handle, close_callable, close_each}

-- The call of a handle's `close` ends, in a value or an Exception.
abbrev pub ClosesTamely : {H W : Type 0} → (H → Option (Exec W (Unit {0}))) → Type 0
ClosesTamely {H} {W} closer =
    (h : H) (close : Exec W (Unit {0})) → closer h ≡ some close → EndsTamely close

pub after_returns :
    {S B : Type 0} (x : Outcome (Unit {0}) × S) (f : Exec S B)
    → x.0 ≡ returns tt
    → continue x (λ _. f) ≡ f x.1
after_returns (returns u, s) f e = refl
after_returns (raises d, s) f e = absurd (cc e)
after_returns (hangs, s) f e = absurd (cc e)

module _ {H W : Type 0} (closer : H → Option (Exec W (Unit {0}))) (tame : ClosesTamely closer) where
  close_callable-returns :
      (o : Option (Exec W (Unit {0}))) (w : W)
      → ((close : Exec W (Unit {0})) → o ≡ some close → EndsTamely close)
      → (close_callable closer o w).0 ≡ returns tt
  unfolding close_callable
  close_callable-returns none w h = refl
  close_callable-returns (some close) w h = swallowed (close w) (h close refl w)

  pub close_each-returns : (hs : _) (r : Resources H W) → (close_each closer hs r).0 ≡ returns tt
  unfolding close_each close_handle
  close_each-returns [] r = refl
  close_each-returns ((u, h) ∷ rest) r =
      ap (λ x. x.0)
        (after_returns _ (close_each closer rest)
          (close_callable-returns (closer h) r.outside (tame h)))
      ∙ close_each-returns rest _

  pub close-returns : (r : Resources H W) → (Resources.close closer r).0 ≡ returns tt
  unfolding Resources.close
  close-returns r =
      ap (λ x. x.0)
        (after_returns (close_each closer r.handles r) _ (close_each-returns r.handles r))

  close-handles : (r : Resources H W) → (Resources.close closer r).1.handles ≡ []
  unfolding Resources.close
  close-handles r =
      ap (λ x. x.1.handles)
        (after_returns (close_each closer r.handles r) _ (close_each-returns r.handles r))

-- No run is refused by the control.
abbrev pub is_ready : Option Control → Bool
is_ready none = true
is_ready (some c) = not (is_cancelled c.state)

module _ {H W M : Type 0} (closer : H → Option (Exec W (Unit {0}))) (now : ℕ → ℕ)
    (monitor : Option (Monitor M)) where
  abbrev pub Released : World H W M → Type 0
  Released w = (w.resources.handles ≡ []) × (is_ready w.control ≡ true)

  resets_state :
      (c : Control)
      → not (is_cancelled (if is_cancelled c.state then record c { state = running } else c).state)
        ≡ true
  resets_state c = go c.state refl
    where
      go :
          (s : RunState)
          → c.state ≡ s
          → not (
              is_cancelled (if is_cancelled c.state then record c { state = running } else c).state)
            ≡ true
      go running e = simp e
      go paused e = simp e
      go cancelled e = simp e

  reset_control-is_ready :
      (o : Option Control) (w : World H W M)
      → (w.control ≡ o)
      → (is_ready (reset_control closer now monitor o w).1.control ≡ true)
        × ((reset_control closer now monitor o w).1.resources ≡ w.resources)
        × ((reset_control closer now monitor o w).0 ≡ returns tt)
  unfolding reset_control call read_state
  reset_control-is_ready none w e = (ap is_ready e, refl, refl)
  reset_control-is_ready (some c) w e = (resets_state (read_state c).1, refl, refl)

  abbrev in_closed : World H W M → Outcome (Unit {0}) × World H W M
  in_closed w = let (a, r) = Resources.close closer w.resources in (a, record w { resources = r })

  pub cleanup-Released :
      (tame : ClosesTamely closer) (w : World H W M)
      → Released (cleanup closer now monitor w).1 × ((cleanup closer now monitor w).0 ≡ returns tt)
  unfolding cleanup in_resources
  cleanup-Released tame w =
      let closed =
        after_returns (in_closed w) (λ w'. reset_control closer now monitor w'.control w')
          (close-returns closer tame w.resources) in
      let (is, same, ends) = reset_control-is_ready (in_closed w).1.control (in_closed w).1 refl in
      (
        (
          ap (λ x. x.1.resources.handles) closed
              ∙ ap (λ r. r.handles) same
              ∙ close-handles closer tame w.resources,
          ap (λ x. is_ready x.1.control) closed ∙ is,
        ),
        ap (λ x. x.0) closed ∙ ends,
      )

  pub cleanup-resources :
      (tame : ClosesTamely closer) (w : World H W M)
      → (cleanup closer now monitor w).1.resources ≡ (Resources.close closer w.resources).1
  unfolding cleanup in_resources
  cleanup-resources tame w =
      let closed =
        after_returns (in_closed w) (λ w'. reset_control closer now monitor w'.control w')
          (close-returns closer tame w.resources) in
      let (is, same, ends) = reset_control-is_ready (in_closed w).1.control (in_closed w).1 refl in
      ap (λ x. x.1.resources) closed ∙ same

  pub finish-Released :
      {A : Type 0} (tame : ClosesTamely closer) (x : Outcome A × World H W M)
      → ¬ (finish x (cleanup closer now monitor)).0 ≡ hangs
      → Released (finish x (cleanup closer now monitor)).1
  finish-Released tame (returns a, w) ends =
      let (done, o) = cleanup-Released tame w in
      subst (λ x. Released x.1) (sym (after_returns (cleanup closer now monitor w) (pure a) o)) done
  finish-Released tame (raises e, w) ends =
      let (done, o) = cleanup-Released tame w in
      subst (λ x. Released x.1) (sym (after_returns (cleanup closer now monitor w) (raise e) o))
        done
  finish-Released tame (hangs, w) ends = absurd (ends refl)

module _ {H W M V : Type 0} (closer : H → Option (Exec W (Unit {0}))) (now : ℕ → ℕ)
    (monitor : Option (Monitor M)) (job : Job (Resources H W) V) where
  -- A run that ends, however it ends, has let go of every handle, and its control accepts the next
  -- run: it is not left cancelled. Each handle's `close` is taken to end in a value or an Exception.
  pub run_tasks-Released :
      (tasks : List Task) (w : World H W M)
      → ClosesTamely closer
      → ¬ (run_tasks closer now monitor job tasks w).0 ≡ hangs
      → Released closer now monitor (run_tasks closer now monitor job tasks w).1
  unfolding run_tasks
  run_tasks-Released tasks w tame ends =
      finish-Released closer now monitor tame
        (body closer now monitor job tasks (fresh closer now monitor w)) ends
