-- ===== src/Tests/Recoveries.antt =====
-- Retries of a process that takes at most four entries, and plans that lose chunks.
use graphed.Prelude.{
  ℕ, zero, suc, ◌+◌, ◌-◌, ◌≤◌, String, ◌≡◌, refl, Bool, true, false, Option, none, some, List, [],
  ◌∷◌, ◌⊎◌, inl, inr, arith, length, leb, if◌then◌else◌,
}
use native.Mathlib.Decide.{dec_le}
use graphed.Outcome.{FailedChunk, Exn, exception, Raised, plain, returns, raises}
use graphed.Partition.{Partition, ranged, n_entries}
use graphed.Retry.{Process, Combine, retry_smaller_chunk, recover_with}
use graphed.Retry.Splitting.{IsAdditive, value_of}
use graphed.Retry.Recovery.{CanTake, retry_smaller_chunk_sound, retry_smaller_chunk_recovers}
use graphed.Failures.Labels.{chunk_key, failed_chunk}
use graphed.Failures.Budget.{skip, SkipPlan, is_lost, without_lost, with_budget}
use graphed.Failures.Budget.Rerun.{reruns_left, IsWithin, without_lost_costs}

-- The result over a range is the range.
abbrev span : ℕ → ℕ → ℕ × ℕ
span lo hi = (lo, hi)

abbrev too_large : Raised
too_large = plain "MemoryError" "too large"

spans : Process (Unit {0}) (ℕ × ℕ)
spans p s =
    if leb (n_entries p) 4
    then (returns (p.entry_start, p.entry_stop), s)
    else (raises (exception too_large), s)

abbrev join_spans : Combine (ℕ × ℕ)
join_spans a b = returns (a.0, b.1)

spans-IsAdditive : IsAdditive spans join_spans "a.root" "Events" span
unfolding spans
spans-IsAdditive = record {
  joins = λ lo mid hi up up'. refl;
  computes = λ lo hi s r e. ground arith;
}

spans-CanTake : CanTake spans "a.root" "Events" 4
unfolding spans n_entries
spans-CanTake = record {
  small = λ lo hi s h. (span lo hi, ground arith);
  large = λ lo hi s. elim (dec_le (n_entries (ranged "a.root" "Events" lo hi)) 4) [
    | yes h ↦ inl (span lo hi, ground arith)
    | no h ↦ inr (too_large, ground arith)
  ];
}

abbrev twenty : Partition
twenty = ranged "a.root" "Events" 0 20

twenty_entries : n_entries twenty ≡ 20
unfolding n_entries
twenty_entries = refl

retry_smaller_chunk_recovers_example :
    (recover_with (retry_smaller_chunk 2 1) spans join_spans twenty (exception too_large) tt).0
    ≡ returns (0, 20)
retry_smaller_chunk_recovers_example =
    retry_smaller_chunk_recovers spans join_spans "a.root" "Events" span 4 2 1 twenty
      (exception too_large) tt spans-IsAdditive spans-CanTake (omega arith) (omega arith) refl
      (omega (arith, twenty_entries))

retry_smaller_chunk_sound_example : (0, 20) ≡ value_of span twenty
retry_smaller_chunk_sound_example =
    retry_smaller_chunk_sound spans join_spans "a.root" "Events" span 2 1 twenty
      (exception too_large) tt spans-IsAdditive refl retry_smaller_chunk_recovers_example

-- A process that fails as often as its state says.
abbrev shaky : Process ℕ String
shaky p zero = (returns "done", 0)
shaky p (suc n) = (raises (exception too_large), n)

abbrev no_join : Combine String
no_join a b = returns a

abbrev from_two : ℕ → ℕ
from_two i = 2 - i

abbrev from_three : ℕ → ℕ
from_three i = 3 - i

-- Two chunks under a budget of one.
abbrev skipping_plan : SkipPlan (Unit {0}) (ℕ × ℕ)
skipping_plan = record {
  process = record { process = spans; empty = returns (0, 0); lost = [] };
  combine = record { combine = join_spans; budget = 1 };
  empty = returns (0, 0);
  settings = record {
    tasks =
        record { key = 0; partition = ranged "a.root" "Events" 0 10 }
        ∷ record { key = 1; partition = twenty }
        ∷ [];
    next_tasks = none;
    stop = none;
    open_once = true;
    services = [];
    bind = none;
    finalize = none;
  };
}

abbrev worker_lost : Exn
worker_lost = exception (record {
  type_name = "WorkerLost";
  message = "gone";
  partition = chunk_key twenty;
  stage_error = none;
})

abbrev lost_twenty : FailedChunk
lost_twenty = failed_chunk (chunk_key twenty) twenty worker_lost

abbrev without_twenty : SkipPlan (Unit {0}) (ℕ × ℕ)
without_twenty = record skipping_plan {
  process = record (skipping_plan.process) { lost = (chunk_key twenty, lost_twenty) ∷ [] };
  settings = with_budget skipping_plan.settings 1;
}

reruns : without_lost (skip skipping_plan) worker_lost ≡ returns without_twenty
unfolding without_lost chunk_key graphed.Partition.is_blind graphed.Prelude.Text.show
    graphed.Failures.Partials.lost_record
reruns = refl

without_lost_costs_example :
    (q : SkipPlan (Unit {0}) (ℕ × ℕ)) × (skip skipping_plan ≡ skip q)
    × (reruns_left without_twenty + 1 ≡ reruns_left q)
    × IsWithin without_twenty
    × (is_lost (chunk_key twenty) without_twenty.process.lost ≡ true)
without_lost_costs_example = without_lost_costs (skip skipping_plan) worker_lost reruns
