-- ===== src/Runner/Skipping.antt =====
-- `skip_failed`: what a run with a failure budget returns, and when it ends in
-- `TooManyFailedChunksError`. The process here answers by the partition alone: `g p` is what
-- `process(p, resources)` ends in.
pub mod Whole
use graphed.Prelude.{
  ℕ, suc, ◌+◌, ◌≤◌, ◌≡◌, refl, Option, none, List, [], ◌∷◌, ◌++◌, arith, length, length-append,
  append-nil, append_assoc, take, take-append_suc, leb, ltb, if◌then◌else◌, le→ltb-false, lt→ltb,
  lt→leb-false, inl, inr,
}
use native.Mathlib.Nat.{eq-or-lt_of_le}
use graphed.Outcome.{
  FailedChunk, exception, too_many_failed, unbound_services, interrupt, Outcome, returns, raises,
  hangs,
}
use graphed.Partition.{Partition}
use graphed.Plan.{Task, StopReason}
use graphed.Failures.Labels.{chunk_key, failed_chunk}
use graphed.Failures.Partials.{
  Partial, by_label, lost_record, skip_call, skip_merge, empty_partial, skipped_error,
}
use graphed.Runner.Tasks.{Job}
use graphed.Runner.Fold.{fold_step, fold_tasks}
use graphed.Runner.Simulation.{Tame}

module _ {R : Type 0} (g : Partition → Outcome R) where
  -- The failed chunks among the tasks, in turn.
  abbrev pub failure : Partition → Outcome R → List FailedChunk
  failure p (raises e) = failed_chunk (chunk_key p) p e ∷ []
  failure p _ = []

  abbrev pub failures : List Task → List FailedChunk
  failures [] = []
  failures (t ∷ tasks) = failure t.partition (g t.partition) ++ failures tasks

  -- The fold over the tasks whose process returns, the others left out.
  abbrev pub merged : (R → R → R) → R → Outcome R → R
  merged c v (returns r) = c v r
  merged c v _ = v

  abbrev pub fold_good : (R → R → R) → R → List Task → R
  fold_good c v [] = v
  fold_good c v (t ∷ tasks) = fold_good c (merged c v (g t.partition)) tasks

module _ {R : Type 0} (g : Partition → Outcome R) (c : R → R → R) (budget : ℕ) where
  -- What the loop ends in, `n` chunks done and `fs` failed before it.
  abbrev pub settled :
      List Task → R → List FailedChunk → ℕ → Outcome (Partial R × ℕ × Option StopReason)
  settled tasks v fs n =
      let all = fs ++ failures g tasks in
      if leb (length all) budget
      then returns (record { value = fold_good g c v tasks; failed = all }, n + length tasks, none)
      else raises (too_many_failed (by_label (take (suc budget) all)))

module _ {S R : Type 0} (g : Partition → Outcome R) (c : R → R → R) (e : R) (budget : ℕ)
    (unit : (a : R) → c a e ≡ a) where
  -- The job of a plan with this process under `skipping`.
  abbrev pub skipping_job : Job S (Partial R)
  skipping_job = record {
    process = skip_call (record { process = λ p s. (g p, s); empty = returns e; lost = [] });
    combine = skip_merge (record { combine = λ a b. returns (c a b); budget = budget });
    empty = empty_partial (returns e);
    skipped = skipped_error;
  }

  -- A chunk's merge, whichever way its process ends.
  merge_lem :
      (t : Task) (v : R) (fs : List FailedChunk) (s : S) (o : Outcome R)
      → g t.partition ≡ o
      → Tame o
      → let fs' = fs ++ failure g t.partition o in
        fold_step skipping_job t (record { value = v; failed = fs }) s ≡ (
          (if ltb budget (length fs')
              then raises (too_many_failed (by_label fs'))
              else returns (record { value = merged g c v o; failed = fs' })),
          s,
        )
  unfolding fold_step skip_call skip_merge lost_record
  merge_lem t v fs s (returns a) q tame = rw (q, append-nil fs) (ground arith)
  merge_lem t v fs s (raises (exception x)) q tame = rw (q, unit v) (ground arith)
  merge_lem t v fs s (raises (too_many_failed x)) q tame = rw (q, unit v) (ground arith)
  merge_lem t v fs s (raises (unbound_services x)) q tame = rw (q, unit v) (ground arith)
  merge_lem t v fs s (raises (interrupt x)) q tame = ground arith
  merge_lem t v fs s hangs q tame = absurd tame

  settled_step :
      (t : Task) (tasks : List Task) (v : R) (fs : List FailedChunk) (n : ℕ) (s : S) (o : Outcome R)
      → g t.partition ≡ o
      → Tame o
      → length fs ≤ budget
      → ((v' : R) (fs' : List FailedChunk)
          → length fs' ≤ budget
          → fold_tasks skipping_job tasks (record { value = v'; failed = fs' }) (n + 1) s
            ≡ (settled g c budget tasks v' fs' (n + 1), s))
      → fold_tasks skipping_job (t ∷ tasks) (record { value = v; failed = fs }) n s
        ≡ (settled g c budget (t ∷ tasks) v fs n, s)
  unfolding fold_tasks
  settled_step t tasks v fs n s (returns a) q tame h ih =
      rw
        (
          merge_lem t v fs s (returns a) q tame,
          q,
          append-nil fs,
          le→ltb-false budget (length fs) h,
          ih (c v a) fs h,
        )
        (ground arith)
  settled_step t tasks v fs n s (raises e') q tame h ih =
      let f : FailedChunk = failed_chunk (chunk_key t.partition) t.partition e' in
      let size : length (fs ++ f ∷ []) ≡ length fs + 1 = length-append fs (f ∷ []) in
      elim (eq-or-lt_of_le h) [
        | inr fits ↦
            rw
              (
                merge_lem t v fs s (raises e') q tame,
                q,
                le→ltb-false budget (length (fs ++ f ∷ [])) (omega arith),
                ih v (fs ++ f ∷ []) (omega arith),
                append_assoc fs (f ∷ []) (failures g tasks),
              )
              (ground arith)
        | inl full ↦
            let past : length (fs ++ f ∷ failures g tasks)
                ≡ length fs + suc (length (failures g tasks)) =
              length-append fs (f ∷ failures g tasks) in
            rw
              (
                merge_lem t v fs s (raises e') q tame,
                q,
                lt→ltb budget (length (fs ++ f ∷ [])) (omega arith),
                lt→leb-false (length (fs ++ f ∷ failures g tasks)) budget (omega arith),
                take-append_suc fs f (failures g tasks) budget full,
              )
              refl
      ]
  settled_step t tasks v fs n s hangs q tame h ih = absurd tame

  fold_lem :
      (tame : (p : Partition) → Tame (g p)) (tasks : List Task) (v : R) (fs : List FailedChunk)
      (n : ℕ) (s : S)
      → length fs ≤ budget
      → fold_tasks skipping_job tasks (record { value = v; failed = fs }) n s
        ≡ (settled g c budget tasks v fs n, s)
  unfolding fold_tasks
  fold_lem tame [] v fs n s h = rw (append-nil fs) (ground arith)
  fold_lem tame (t ∷ tasks) v fs n s h =
      settled_step t tasks v fs n s (g t.partition) refl (tame t.partition) h
        (λ v' fs' h'. fold_lem tame tasks v' fs' (n + 1) s h')

  -- What the whole loop ends in.
  pub fold_tasks_skipping :
      (tame : (p : Partition) → Tame (g p)) (tasks : List Task) (s : S)
      → let all = failures g tasks in
        fold_tasks skipping_job tasks (record { value = e; failed = [] }) 0 s ≡ (
          (if leb (length all) budget
              then returns
                  (record { value = fold_good g c e tasks; failed = all }, length tasks, none)
              else raises (too_many_failed (by_label (take (suc budget) all)))),
          s,
        )
  fold_tasks_skipping tame tasks s = rw (fold_lem tame tasks e [] 0 s (omega arith)) (ground arith)
