-- ===== src/Runner/Steps.antt =====
-- The pieces of a turn of the loop, with any control: they are those of the fold.
use graphed.Prelude.{ℕ, Bool, true, false, Option, List, [], ◌∷◌, if◌then◌else◌}
use graphed.Outcome.{Exec, pure, raise, ◌>>=◌}
use graphed.Control.{Control}
use graphed.Resources.{Resources}
use graphed.Plan.{Task}
use graphed.Runner.Tasks.{Monitor, Job, Run, emit, lean, submit_all, process_task, report, run_one}
use graphed.Runner.Simulation.{
  IsTame, Sim, Sim-pure, Sim-lift, Sim-raise, Sim-in_resources, Sim-emit, Sim-bind, Sim-after,
  Sim-except,
}
use graphed.Runner.Fold.{fold_step}

module _ {H W M V : Type 0} (closer : H → Option (Exec W (Unit {0}))) (now : ℕ → ℕ)
    (monitor : Option (Monitor M)) (tame : IsTame monitor) (control : Option Control)
    (job : Job (Resources H W) V) where
  abbrev pub Like : {A : Type 0} → Run closer now monitor A → Exec (Resources H W) A → Type 0
  Like = Sim closer now monitor tame control

  pub Like-emit :
      (phase : _) (task : Task) (error : _) (b : Bool)
      → Like (emit closer now monitor phase task error b) (pure tt)
  Like-emit = Sim-emit closer now monitor tame control

  pub Like-if :
      {A : Type 0} (b : Bool) (m n : Run closer now monitor A) (m' : Exec (Resources H W) A)
      → Like m m'
      → Like n m'
      → Like (if b then m else n) m'
  Like-if true m n m' h k = h
  Like-if false m n m' h k = k

  pub Like-bind :
      {A B : Type 0} (m : Run closer now monitor A) (m' : Exec (Resources H W) A)
      (f : A → Run closer now monitor B) (f' : A → Exec (Resources H W) B)
      → Like m m'
      → ((a : A) → Like (f a) (f' a))
      → Like (m >>= f) (m' >>= f')
  Like-bind = Sim-bind closer now monitor tame control

  pub Like-submit_all :
      (tasks : List Task) → Like (submit_all closer now monitor job tasks) (pure tt)
  unfolding submit_all
  Like-submit_all [] = Sim-pure closer now monitor tame control tt
  Like-submit_all (task ∷ tasks) =
      Like-bind _ _ _ (λ _. pure tt) (Like-emit _ _ _ _) (λ _. Like-submit_all tasks)

  pub Like-process_task :
      (task : Task) → Like (process_task closer now monitor job task) (job.process task.partition)
  unfolding process_task
  Like-process_task task =
      Sim-except closer now monitor tame control _ _ _
        (Sim-in_resources closer now monitor tame control (job.process task.partition))
        (λ e.
          Like-bind _ (pure tt) _ (λ _. raise e) (Like-emit _ _ _ _)
            (λ _. Sim-raise closer now monitor tame control e))

  pub Like-report :
      (task : Task) (partial : V) → Like (report closer now monitor job task partial) (pure tt)
  unfolding report
  Like-report task partial = Like-emit _ _ _ _

  pub Like-run_one :
      (task : Task) (value : V)
      → Like (run_one closer now monitor job task value) (fold_step job task value)
  unfolding run_one fold_step
  Like-run_one task value =
      Like-bind _ (pure tt) _ (λ _. fold_step job task value)
        (Like-if (lean closer now monitor) _ _ _ (Sim-pure closer now monitor tame control tt)
          (Like-emit _ _ _ _))
        (λ _. Like-bind _ _ _ _ (Like-process_task task) (λ partial.
          Sim-after closer now monitor tame control _ _ _
            (Sim-lift closer now monitor tame control (job.combine value partial))
            (λ value'.
              Like-bind _ (pure tt) _ (λ _. pure value') (Like-report task partial)
                (λ _. Sim-pure closer now monitor tame control value'))))
