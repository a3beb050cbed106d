-- ===== src/Runner/Tasks.antt =====
-- `_run_tasks`: the loop over the tasks in key order.
use graphed.Prelude.{
  ℕ, ◌+◌, ◌-◌, max, String, Bool, false, not, Option, none, some, List, [], ◌∷◌, if◌then◌else◌,
}
use graphed.Prelude.Text.{concat, str_eq}
use graphed.Prelude.Sorting.{sorted, by_key}
use graphed.Outcome.{
  Outcome, returns, Exec, and_then, pure, raise, lift, except, finally, ◌>>=◌, ◌>>◌,
}
use graphed.Partition.{n_entries}
use graphed.Retry.{Process, Combine}
use graphed.Control.{Control, is_cancelled, read_state, wait, call, reset}
use graphed.Resources
use graphed.Resources.{Resources}
use graphed.Failures.Labels.{partition_label, type_name, str_of}
use graphed.Plan.{Task, StopReason, cancelled, ExecResult}

pub data TaskPhase : Type 0 where
  submitted started finished errored : TaskPhase

pub record TaskEvent : Type 0 where
  pub phase : TaskPhase
  pub key : ℕ
  pub worker : String
  pub t : ℕ
  pub partition : String
  pub n_entries : ℕ
  pub error : Option String

-- A `Monitor` with state `M`; a hook that it lacks is one that does nothing.
pub record Monitor (M : Type 0) : Type 0 where
  pub on_task : TaskEvent → Exec M (Unit {0})
  pub on_run_start : ℕ → Exec M (Unit {0})
  pub on_run_end : Exec M (Unit {0})
  pub lean_events : Bool

-- What `_run_tasks` reads of a plan; `skipped` is `skipped_error` on its partials.
pub record Job (S V : Type 0) : Type 0 where
  pub process : Process S V
  pub combine : Combine V
  pub empty : Outcome V
  pub skipped : V → Option String

-- The run's resources with the world outside, the monitor's state, the control if there is one, and
-- how often the clock was read.
pub record World (H W M : Type 0) : Type 0 where
  pub resources : Resources H W
  pub monitor : M
  pub control : Option Control
  pub ticks : ℕ

-- `sorted(plan.tasks, key=lambda t: t.key)`
unfoldable pub in_key_order : List Task → List Task
in_key_order = sorted (by_key (λ t. t.key))

-- `bool(why)`
abbrev pub is_text : Option String → Bool
is_text none = false
is_text (some s) = not (str_eq s "")

-- The `ExecResult` of a value, the number of tasks done, and why the loop broke off.
abbrev pub as_result : {V : Type 0} → V × ℕ × Option StopReason → ExecResult V
as_result (value, n, stopped) = record {
  value = value;
  n_partitions = n;
  n_combines = max 0 (n - 1);
  stopped = stopped;
  failed = [];
}

module _ {H W M : Type 0} (closer : H → Option (Exec W (Unit {0}))) (now : ℕ → ℕ)
    (monitor : Option (Monitor M)) where
  abbrev pub Run : Type 0 → Type 0
  Run A = Exec (World H W M) A

  unfoldable pub in_resources : {A : Type 0} → Exec (Resources H W) A → Run A
  in_resources m w = let (a, r) = m w.resources in (a, record w { resources = r })

  -- A hook of the monitor; an Exception in it is suppressed.
  unfoldable pub notify : Exec M (Unit {0}) → Run (Unit {0})
  notify hook w = let (a, m) = except hook (λ _. pure tt) w.monitor in (a, record w { monitor = m })

  -- `_event`, read from the clock at `t`
  unfoldable pub event : ℕ → TaskPhase → Task → Option String → Bool → TaskEvent
  event t phase task error lean = record {
    phase = phase;
    key = task.key;
    worker = "seq";
    t = t;
    partition = if lean then "" else partition_label task.partition;
    n_entries = n_entries task.partition;
    error = error;
  }

  -- `emit_task(monitor, self._event(…))` under `if monitor is not None`
  unfoldable pub emit_to :
      Option (Monitor M) → TaskPhase → Task → Option String → Bool → Run (Unit {0})
  unfolding notify event
  emit_to none phase task error lean w = (returns tt, w)
  emit_to (some m) phase task error lean w =
      notify (m.on_task (event (now w.ticks) phase task error lean))
        (record w { ticks = w.ticks + 1 })

  unfoldable pub emit : TaskPhase → Task → Option String → Bool → Run (Unit {0})
  unfolding emit_to
  emit = emit_to monitor

  -- `lean_events(monitor)`
  abbrev lean_of : Option (Monitor M) → Bool
  lean_of none = false
  lean_of (some m) = m.lean_events

  abbrev pub lean : Bool
  lean = lean_of monitor

  -- `control is not None and control.state is RunState.CANCELLED`
  unfoldable pub cancelled_state : Option Control → Run Bool
  cancelled_state none w = (returns false, w)
  cancelled_state (some c) w =
      let (state, c') = read_state c in
      (returns (is_cancelled state), record w { control = some c' })

  -- `control is not None and control.wait() is RunState.CANCELLED`
  unfoldable pub cancelled_wait : Option Control → Run Bool
  cancelled_wait none w = (returns false, w)
  cancelled_wait (some c) w =
      let (state, c') = wait c in
      (and_then state (λ st. returns (is_cancelled st)), record w { control = some c' })

  unfoldable pub is_cancelled_now : Run Bool
  unfolding cancelled_state
  is_cancelled_now w = cancelled_state w.control w

  unfoldable pub wait_cancelled : Run Bool
  unfolding cancelled_wait
  wait_cancelled w = cancelled_wait w.control w

  -- `control.reset()` if a cancel has come, seen by a check or not
  unfoldable pub reset_control : Option Control → Run (Unit {0})
  reset_control none w = (returns tt, w)
  reset_control (some c) w =
      let (state, c') = read_state c in
      (
        returns tt,
        record w {
          control =
              some (if is_cancelled state then record c' { state = call reset state } else c');
        },
      )

  -- The `finally` block.
  unfoldable pub cleanup : Run (Unit {0})
  unfolding reset_control
  cleanup = in_resources (Resources.close closer) >> (λ w. reset_control w.control w)

  -- `resources = LocalResources()`
  abbrev pub fresh : World H W M → World H W M
  fresh w = record w {
    resources = record {
      handles = [];
      max_open = 128;
      open_count = 0;
      outside = w.resources.outside;
    };
  }

  module _ {V : Type 0} (job : Job (Resources H W) V) where
    -- The SUBMITTED events, in key order.
    unfoldable pub submit_all : List Task → Run (Unit {0})
    submit_all [] = pure tt
    submit_all (task ∷ tasks) = emit submitted task none false >> submit_all tasks

    -- `plan.process`, with the ERRORED event of an Exception, which goes on up
    unfoldable pub process_task : Task → Run V
    process_task task = except (in_resources (job.process task.partition)) (λ exc.
        emit errored task (some (concat (type_name exc ∷ ": " ∷ str_of exc ∷ []))) lean
        >> raise exc)

    -- The event after a task's partial was combined: a partial with no data counts as ERRORED.
    unfoldable pub report : Task → V → Run (Unit {0})
    report task partial =
        let why = job.skipped partial in
        emit (if is_text why then errored else finished) task why lean

    -- One turn of the loop, past the check of the control: the new value.
    unfoldable pub run_one : Task → V → Run V
    run_one task value = do
      if lean then pure tt else emit started task none false
      partial ← process_task task
      value' ← lift (job.combine value partial)
      report task partial
      pure value'

    -- The `for task in ordered` loop, with `value`, `n` and, where it broke off, the reason.
    unfoldable pub loop : List Task → V → ℕ → Run (V × ℕ × Option StopReason)
    loop [] value n = pure (value, n, none)
    loop (task ∷ tasks) value n = do
      stop ← wait_cancelled
      let rest = run_one task value >>= λ value'. loop tasks value' (n + 1)
      if stop then pure (value, n, some cancelled) else rest

    -- The `try` block of `_run_tasks`.
    unfoldable pub body : List Task → Run (ExecResult V)
    body tasks = do
      value ← lift job.empty
      stop ← is_cancelled_now
      let ordered = in_key_order tasks
      let rest = submit_all ordered >> loop ordered value 0 >>= λ r. pure (as_result r)
      if stop then pure (as_result (value, 0, some cancelled)) else rest

    -- `SequentialRunner._run_tasks`
    unfoldable pub run_tasks : List Task → Run (ExecResult V)
    run_tasks tasks w = finally (body tasks) cleanup (fresh w)
