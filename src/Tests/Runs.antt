-- ===== src/Tests/Runs.antt =====
-- Whole runs: two tasks listed out of order, a monitor whose hooks raise, and a chunk that fails.
use graphed.Prelude.{
  length, ℕ, ◌+◌, ◌≡◌, refl, true, false, Option, none, some, List, [], ◌∷◌, ◌++◌, arith, leb,
  if◌then◌else◌, subst,
}
use mathlib.Core.List.{Perm, Permᴰ}
use graphed.Outcome.{value_error, Outcome, hangs, returns, raises, Exec}
use graphed.Partition.{Partition, ranged}
use graphed.Resources
use graphed.Resources.{Resources}
use graphed.Plan.{Task, cancelled, ExecResult}
use graphed.Runner.Tasks.{
  Monitor, Job, World, fresh, run_tasks, body, is_cancelled_now, submit_all, in_key_order, emit,
  loop, wait_cancelled, run_one, process_task, in_resources, report, cleanup,
}
use graphed.Runner.Simulation.{Tame, EndsTamely}
use graphed.Runner.Reference.{run_tasks-reference}
use graphed.Control.{cancel, pause, resume, running, read_state, wait}
use graphed.Prelude.Sorting.{sorted}
use graphed.Runner.Cancelling.Reaching.{starts_and_comes_to, reached_body, Same}
use graphed.Runner.Cancelling.Whole.{run_tasks-reached}
use graphed.Outcome.{finally}
use graphed.Runner.Cancelling.Release.{Released}
use graphed.Runner.Cancelling.Closing.{run_tasks-closes}
use graphed.Resources.Closing.{recorded, held}
use graphed.Runner.Fold.{reference}
use graphed.Runner.Order.{run_tasks-perm}
use graphed.Runner.{run}
use graphed.Runner.Skipping.Whole.{plan_with, skipped_result, run-skipped_result}
use graphed.Failures.Budget.{plain}
use graphed.Prelude.Int.{pos}
use graphed.Plan.{Settings}

abbrev pub first_half : Task
first_half = record { key = 0; partition = ranged "a.root" "Events" 0 10 }

abbrev pub second_half : Task
second_half = record { key = 1; partition = ranged "a.root" "Events" 10 25 }

abbrev tasks : List Task
tasks = second_half ∷ first_half ∷ []

-- Each task gives its number of entries, and they are added.
abbrev counting : Job (Resources ℕ ℕ) ℕ
counting = record {
  process = λ p r. (returns p.entry_stop, r);
  combine = λ a b. returns (a + b);
  empty = returns 0;
  skipped = λ _. none;
}

-- Its hooks count and then raise.
abbrev pub broken_monitor : Monitor ℕ
broken_monitor = record {
  on_task = λ e m. (raises (value_error "on_task"), m + 1);
  on_run_start = λ n m. (raises (value_error "on_run_start"), m + 1);
  on_run_end = λ m. (raises (value_error "on_run_end"), m + 1);
  lean_events = false;
}

abbrev pub closer : ℕ → Option (Exec ℕ (Unit {0}))
closer h = some (λ w. (returns tt, w + h))

abbrev pub now : ℕ → ℕ
now n = n

abbrev pub world : World ℕ ℕ ℕ
world = record {
  resources = record { handles = []; max_open = 2; open_count = 0; outside = 0 };
  monitor = 0;
  control = none;
  ticks = 0;
}

run_tasks-reference_example :
    let start = (fresh closer now (some broken_monitor) world).resources in
    ((run_tasks closer now (some broken_monitor) counting tasks world).0
      ≡ (reference closer counting tasks start).0)
    × ((run_tasks closer now (some broken_monitor) counting tasks world).1.resources
        ≡ (reference closer counting tasks start).1)
run_tasks-reference_example =
    run_tasks-reference closer now (some broken_monitor) counting tasks world
      ((λ e m. refl), (λ n m. refl), (λ m. refl)) refl

one_swap : Perm (first_half ∷ second_half ∷ []) tasks
one_swap = ∣ Permᴰ.swap refl refl ∣₁

run_tasks-perm_example :
    run_tasks closer now (some broken_monitor) counting (first_half ∷ second_half ∷ []) world
    ≡ run_tasks closer now (some broken_monitor) counting tasks world
run_tasks-perm_example =
    run_tasks-perm closer now (some broken_monitor) counting (first_half ∷ second_half ∷ []) tasks
      world one_swap (((λ e. ground arith), tt), (tt, tt))

add_zero : (a : ℕ) → a + 0 ≡ a
add_zero a = omega arith

-- Chunks from entry 10 on fail.
abbrev early_only : Partition → Outcome ℕ
early_only p = if leb 10 p.entry_start then raises (value_error "late") else returns p.entry_stop

early_only-Tame : (p : Partition) → Tame (early_only p)
early_only-Tame p = ground arith

abbrev skip_settings : Settings ℕ
skip_settings = record {
  tasks = tasks;
  next_tasks = none;
  stop = none;
  open_once = true;
  services = [];
  bind = none;
  finalize = none;
}

run-skipped_result_example :
    (run closer now
      (some broken_monitor)
      1
      (plain (
        plan_with closer now
          (some broken_monitor)
          early_only
          (λ a b. a + b)
          0
          add_zero
          early_only-Tame
          skip_settings))
      (pos 1)
      world).0
    ≡ skipped_result closer now
        (some broken_monitor)
        early_only
        (λ a b. a + b)
        0
        add_zero
        early_only-Tame
        1
        (in_key_order tasks)
run-skipped_result_example =
    run-skipped_result closer now (some broken_monitor) early_only (λ a b. a + b) 0 add_zero
      early_only-Tame 1 skip_settings 0 world ((λ e m. refl), (λ n m. refl), (λ m. refl)) refl refl
      refl

-- Another thread pauses the run before its first task, resumes it, and cancels it before the second.
abbrev controlled : World ℕ ℕ ℕ
controlled = record world {
  control = some (record {
    state = running;
    arriving = [] ∷ (pause ∷ []) ∷ (resume ∷ []) ∷ (cancel ∷ []) ∷ [];
  });
}

abbrev controlled_result : Outcome (ExecResult ℕ)
controlled_result =
    returns (record {
      value = 10;
      n_partitions = 1;
      n_combines = 0;
      stopped = some cancelled;
      failed = [];
    })

one_done :
    (run_tasks closer now (some broken_monitor) counting tasks controlled).0 ≡ controlled_result
unfolding run_tasks body is_cancelled_now read_state submit_all in_key_order sorted emit loop
    wait_cancelled wait run_one process_task in_resources report cleanup Resources.close
one_done = refl

run_tasks-reached_example :
    let far = starts_and_comes_to controlled.control (length (in_key_order tasks)) in
    Same (run_tasks closer now (some broken_monitor) counting tasks controlled) (
      finally
        (reached_body counting far (in_key_order tasks))
        (Resources.close closer)
        (fresh closer now (some broken_monitor) controlled).resources)
run_tasks-reached_example =
    run_tasks-reached closer now (some broken_monitor) counting tasks controlled
      ((λ e m. refl), (λ n m. refl), (λ m. refl))

abbrev EndsAll : Option (Exec ℕ (Unit {0})) → Type 0
EndsAll none = Unit {0}
EndsAll (some close) = EndsTamely close

pub closer-ends : (h : ℕ) (close : Exec ℕ (Unit {0})) → closer h ≡ some close → EndsTamely close
closer-ends h close e = subst EndsAll e (λ m. tt)

-- Each task leaves a handle open, and a handle's `close` is counted.
abbrev counted_close : ℕ → Exec ℕ (Unit {0})
counted_close h w = (returns tt, w + 1)

abbrev leaving_open : Job (Resources ℕ (ℕ × List ℕ)) ℕ
leaving_open = record {
  process =
      λ p r. (returns p.entry_stop, record r { handles = r.handles ++ (p.uri, p.entry_stop) ∷ [] });
  combine = λ a b. returns (a + b);
  empty = returns 0;
  skipped = λ _. none;
}

abbrev recorded_world : World ℕ (ℕ × List ℕ) ℕ
recorded_world = record {
  resources = record { handles = []; max_open = 2; open_count = 0; outside = (0, []) };
  monitor = 0;
  control = controlled.control;
  ticks = 0;
}

recorded_done :
    (run_tasks
      (recorded counted_close)
      now
      (some broken_monitor)
      leaving_open
      tasks
      recorded_world).0
    ≡ controlled_result
unfolding run_tasks body is_cancelled_now read_state submit_all in_key_order sorted emit loop
    wait_cancelled wait run_one process_task in_resources report cleanup Resources.close
    Resources.close_handle
recorded_done = refl

recorded_ends :
    ¬ (run_tasks
      (recorded counted_close)
      now
      (some broken_monitor)
      leaving_open
      tasks
      recorded_world).0
    ≡ hangs
recorded_ends never = cc (recorded_done, never)

run_tasks-closes_example :
    let tasks_ended =
      (body
        (recorded counted_close)
        now
        (some broken_monitor)
        leaving_open
        tasks
        (fresh (recorded counted_close) now (some broken_monitor) recorded_world)).1 in
    let ended =
      (run_tasks
        (recorded counted_close)
        now
        (some broken_monitor)
        leaving_open
        tasks
        recorded_world).1 in
    (ended.resources.outside.1
      ≡ tasks_ended.resources.outside.1 ++ held counted_close tasks_ended.resources.handles)
    × Released (recorded counted_close) now (some broken_monitor) ended
run_tasks-closes_example =
    run_tasks-closes counted_close now (some broken_monitor) (λ h w. tt) leaving_open tasks
      recorded_world recorded_ends
