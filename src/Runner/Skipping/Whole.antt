-- ===== src/Runner/Skipping/Whole.antt =====
-- `SequentialRunner.run(plan, skip_failed=budget)`, from the check of the services to the result.
use graphed.Prelude.{
  ℕ, suc, ◌-◌, max, ◌≡◌, refl, ap, ◌∙◌, Option, none, List, [], length, take, leb, Bool-cases, inl,
  inr, if◌then◌else◌,
}
use graphed.Prelude.Int.{pos}
use graphed.Outcome.{
  too_many_failed, Outcome, returns, raises, hangs, Exec, and_then, finish, continue, pure,
}
use graphed.Partition.{Partition}
use graphed.Resources
use graphed.Resources.{Resources, close_each}
use graphed.Plan.{Task, StopReason, Settings, Plan, ExecResult}
use graphed.Services.{require_bound}
use graphed.Failures.Partials.{Partial, by_label, empty_partial}
use graphed.Failures.Budget.{plain, skip, skipping, wrap, with_budget, finalize_skip}
use graphed.Runner.{skip_job, observed_run, run_plan, run}
use graphed.Runner.Tasks.{Monitor, World, in_key_order, as_result, fresh, run_tasks}
use graphed.Runner.Fold.{reference}
use graphed.Runner.Simulation.{Tame, IsTame}
use graphed.Runner.Reference.{run_tasks-reference}
use graphed.Runner.Observed.{observed_run_lem}
use graphed.Runner.Stages.Chains.{after, lifted}
use graphed.Runner.Skipping.{failures, fold_good, skipping_job, fold_tasks_skipping}

module _ {H W M R : Type 0} (closer : H → Option (Exec W (Unit {0}))) (now : ℕ → ℕ)
    (monitor : Option (Monitor M)) (g : Partition → Outcome R) (c : R → R → R) (e : R)
    (unit : (a : R) → c a e ≡ a) (tame : (p : Partition) → Tame (g p)) where
  -- The plan whose process answers `g`, and that combines by `c` from `e`.
  abbrev pub plan_with : Settings R → Plan (Resources H W) R
  plan_with s = record {
    process = λ p r. (g p, r);
    combine = λ a b. returns (c a b);
    empty = returns e;
    settings = s;
  }

  -- What is returned within the budget, and raised past it.
  abbrev pub skipped_result : ℕ → List Task → Outcome (ExecResult R)
  skipped_result budget tasks =
      let all = failures g tasks in
      if leb (length all) budget
      then returns (record {
        value = fold_good g c e tasks;
        n_partitions = length tasks;
        n_combines = max 0 (length tasks - 1);
        stopped = none;
        failed = by_label all;
      })
      else raises (too_many_failed (by_label (take (suc budget) all)))

  nothing_to_close :
      {A : Type 0} (o : Outcome A) (r : Resources H W)
      → r.handles ≡ []
      → (finish (o, r) (Resources.close closer)).0 ≡ o
  unfolding Resources.close close_each
  nothing_to_close (returns a) r h = rw h refl
  nothing_to_close (raises d) r h = rw h refl
  nothing_to_close hangs r h = refl

  returned :
      {A B : Type 0} (o : Outcome A) (f : A → B) (r : Resources H W)
      → r.handles ≡ []
      → (finish (continue (o, r) (λ v. pure (f v))) (Resources.close closer)).0
        ≡ and_then o (λ v. returns (f v))
  returned (returns a) f r h = nothing_to_close (returns (f a)) r h
  returned (raises d) f r h = nothing_to_close (raises d) r h
  returned hangs f r h = refl

  abbrev settled_all : ℕ → List Task → Outcome (Partial R × ℕ × Option StopReason)
  settled_all budget tasks =
      let all = failures g tasks in
      if leb (length all) budget
      then returns (record { value = fold_good g c e tasks; failed = all }, length tasks, none)
      else raises (too_many_failed (by_label (take (suc budget) all)))

  loop_result :
      (budget : ℕ) (tasks : List Task) (r : Resources H W)
      → r.handles ≡ []
      → (reference closer (skipping_job {S = Resources H W} g c e budget unit) tasks r).0
        ≡ and_then (settled_all budget (in_key_order tasks)) (λ x. returns (as_result x))
  unfolding reference empty_partial
  loop_result budget tasks r h =
      ap (λ x. (finish (continue x (λ v. pure (as_result v))) (Resources.close closer)).0)
        (fold_tasks_skipping g c e budget unit tame (in_key_order tasks) r)
      ∙ returned (settled_all budget (in_key_order tasks)) as_result r h

  finalized_so :
      (s : Settings R) (budget : ℕ) (tasks : List Task)
      → s.finalize ≡ none
      → and_then
          (and_then (settled_all budget tasks) (λ x. returns (as_result x)))
          (finalize_skip (with_budget s budget))
        ≡ skipped_result budget tasks
  unfolding finalize_skip
  finalized_so s budget tasks h = elim (Bool-cases (leb (length (failures g tasks)) budget)) [
    | inl within ↦ rw (within, h) refl
    | inr past ↦ rw past refl
  ]

  bound : (s : Settings R) (rounds : ℕ) → s.services ≡ [] → require_bound rounds s ≡ returns tt
  unfolding require_bound
  bound s rounds h = rw h refl

  skips :
      (s : Settings R) (b : ℕ)
      → skipping (plain (plan_with s)) (pos (suc b)) ≡ returns (skip (wrap (plan_with s) (suc b)))
  unfolding skipping
  skips s b = refl

  -- A run under `skip_failed` of a plan that needs no service and has no `finalize`, over chunks whose
  -- process answers by the partition alone, in a value or an Exception, and whose combine is total and
  -- leaves `empty` out; with no control, and no monitor or one whose hooks raise at most Exceptions.
  -- While the failed chunks are within the budget, it returns the fold over the good chunks in key
  -- order, with the failed ones listed by label and every task counted; past the budget it raises
  -- `TooManyFailedChunksError` with the first `budget + 1` failures in key order, by label.
  pub run-skipped_result :
      (rounds : ℕ) (s : Settings R) (b : ℕ) (w : World H W M)
      → IsTame monitor
      → w.control ≡ none
      → s.services ≡ []
      → s.finalize ≡ none
      → (run closer now monitor rounds (plain (plan_with s)) (pos (suc b)) w).0
        ≡ skipped_result (suc b) (in_key_order s.tasks)
  unfolding run run_plan wrap
  run-skipped_result rounds s b w calm at no_services no_finalize =
      after _ (ap (λ o. (o, w)) (bound s rounds no_services)) (
        after _ (ap (λ o. (o, w)) (skips s b)) (
          lifted
            (observed_run closer now monitor (length s.tasks)
              (run_tasks closer now monitor (skip_job (wrap (plan_with s) (suc b))) s.tasks) w)
            _ (finalize_skip (with_budget s (suc b)))
            (observed_run_lem closer now monitor (length s.tasks)
              (run_tasks closer now monitor (skip_job (wrap (plan_with s) (suc b))) s.tasks) _ w
              calm at
              (λ w' at'.
                (run_tasks-reference closer now monitor (skip_job (wrap (plan_with s) (suc b)))
                  s.tasks w' calm at').0
                ∙ loop_result (suc b) s.tasks (fresh closer now monitor w').resources refl))
          ∙ finalized_so s (suc b) (in_key_order s.tasks) no_finalize))
