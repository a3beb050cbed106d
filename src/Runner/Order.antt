-- ===== src/Runner/Order.antt =====
-- The order in which a plan lists its tasks does not matter: a run takes them by their keys.
use mathlib.Core.List.{Perm}
use mathlib.Core.Logic.{∥∥₁_elim}
use text.Mathlib.TextEquality.{IsScalar-prop}
use graphed.Prelude.{ℕ, refl, ◌≡◌, Option, List}
use graphed.Prelude.Sorting.{DistinctKeys, sorted-permᴰ}
use graphed.Outcome.{Exec}
use graphed.Resources.{Resources}
use graphed.Plan.{Task}
use graphed.Runner.Tasks.{Monitor, Job, World, in_key_order, body, run_tasks}

Task-set : IsSet (List Task)
Task-set = hlevel (IsScalar-prop)

-- Rearranged tasks with distinct keys are one sequence in key order.
in_key_order-perm :
    {tasks tasks' : List Task}
    → Perm tasks tasks'
    → DistinctKeys (λ t. t.key) tasks
    → in_key_order tasks ≡ in_key_order tasks'
unfolding in_key_order
in_key_order-perm p h = ∥∥₁_elim p (Task-set _ _) (λ d. sorted-permᴰ (λ t. t.key) d h)

-- Two runs of one plan whose tasks are listed in different orders are the same, events, control and
-- resources included, if no two tasks have one key.
pub run_tasks-perm :
    {H W M V : Type 0} (closer : H → Option (Exec W (Unit {0}))) (now : ℕ → ℕ)
    (monitor : Option (Monitor M)) (job : Job (Resources H W) V) (tasks tasks' : List Task)
    (w : World H W M)
    → Perm tasks tasks'
    → DistinctKeys (λ t. t.key) tasks
    → run_tasks closer now monitor job tasks w ≡ run_tasks closer now monitor job tasks' w
unfolding run_tasks body
run_tasks-perm closer now monitor job tasks tasks' w p h = rw (in_key_order-perm p h) refl
