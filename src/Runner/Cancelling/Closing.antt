-- ===== src/Runner/Cancelling/Closing.antt =====
-- A run that ends has closed each handle that its tasks left open.
use graphed.Prelude.{ℕ, ◌≡◌, refl, ap, ◌∙◌, subst, Option, none, some, List, ◌++◌}
use graphed.Outcome.{Outcome, returns, raises, hangs, Exec, pure, raise, finish}
use graphed.Resources
use graphed.Resources.{Resources, close_each}
use graphed.Resources.Closing.{Recorded, recorded, held, close_each-recorded}
use graphed.Plan.{Task}
use graphed.Runner.Tasks.{Monitor, Job, World, body, cleanup, fresh, run_tasks}
use graphed.Runner.Simulation.{Tame, EndsTamely}
use graphed.Runner.Cancelling.Release.{
  ClosesTamely, after_returns, close_each-returns, Released, cleanup-Released, cleanup-resources,
  run_tasks-Released,
}

module _ {H W M : Type 0} (close : H → Exec W (Unit {0})) (now : ℕ → ℕ)
    (monitor : Option (Monitor M)) (tame : (h : H) (w : W) → Tame (close h w).0) where
  recorded-tame : ClosesTamely (recorded close)
  recorded-tame h c e = subst EndsSo e (λ w. tame h w.0)
    where
      EndsSo : Option (Exec (Recorded close) (Unit {0})) → Type 0
      EndsSo (some c) = EndsTamely c
      EndsSo none = Unit

  close-recorded :
      (r : Resources H (Recorded close))
      → (Resources.close (recorded close) r).1.outside.1 ≡ r.outside.1 ++ held close r.handles
  unfolding Resources.close
  close-recorded r =
      ap (λ x. x.1.outside.1)
        (after_returns (close_each (recorded close) r.handles r) _
          (close_each-returns (recorded close) recorded-tame r.handles r))
      ∙ close_each-recorded close r.handles r tame

  cleanup-recorded :
      (w : World H (Recorded close) M)
      → (cleanup (recorded close) now monitor w).1.resources.outside.1
        ≡ w.resources.outside.1 ++ held close w.resources.handles
  cleanup-recorded w =
      ap (λ r. r.outside.1) (cleanup-resources (recorded close) now monitor recorded-tame w)
      ∙ close-recorded w.resources

  finish-recorded :
      {A : Type 0} (x : Outcome A × World H (Recorded close) M)
      → ¬ (finish x (cleanup (recorded close) now monitor)).0 ≡ hangs
      → (finish x (cleanup (recorded close) now monitor)).1.resources.outside.1
        ≡ x.1.resources.outside.1 ++ held close x.1.resources.handles
  finish-recorded (returns a, w) ends =
      ap (λ y. y.1.resources.outside.1)
        (after_returns (cleanup (recorded close) now monitor w) (pure a)
          (cleanup-Released (recorded close) now monitor recorded-tame w).1)
      ∙ cleanup-recorded w
  finish-recorded (raises e, w) ends =
      ap (λ y. y.1.resources.outside.1)
        (after_returns (cleanup (recorded close) now monitor w) (raise e)
          (cleanup-Released (recorded close) now monitor recorded-tame w).1)
      ∙ cleanup-recorded w
  finish-recorded (hangs, w) ends = absurd (ends refl)

  module _ {V : Type 0} (job : Job (Resources H (Recorded close)) V) where
    -- A run that ends, however it ends, has called the `close` of every handle that was held when its
    -- tasks ended, each once and in turn, and holds none; and its control accepts the next run: it is
    -- not left cancelled. Each handle's `close` is taken to end in a value or an Exception.
    pub run_tasks-closes :
        (tasks : List Task) (w : World H (Recorded close) M)
        → ¬ (run_tasks (recorded close) now monitor job tasks w).0 ≡ hangs
        → let tasks_ended =
            (body
              (recorded close)
              now
              monitor
              job
              tasks
              (fresh (recorded close) now monitor w)).1 in
          let ended = (run_tasks (recorded close) now monitor job tasks w).1 in
          (ended.resources.outside.1
            ≡ tasks_ended.resources.outside.1 ++ held close tasks_ended.resources.handles)
          × Released (recorded close) now monitor ended
    unfolding run_tasks
    run_tasks-closes tasks w ends = (
      finish-recorded
          (body (recorded close) now monitor job tasks (fresh (recorded close) now monitor w)) ends,
      run_tasks-Released (recorded close) now monitor job tasks w recorded-tame ends,
    )
