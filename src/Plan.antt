-- ===== src/Plan.antt =====
-- The runtime `Plan` of core/execution.py, its tasks and its stopping conditions. `S` is the state
-- of a worker: its resources and the world outside.
use graphed.Prelude.{ℕ, String, Bool, Option, none, some, List, leb, ltb, if◌then◌else◌}
use graphed.Prelude.Int.{ℤ, pos, negsuc}
use graphed.Outcome.{Outcome, FailedChunk}
use graphed.Partition.{Partition}
use graphed.Retry.{Process, Combine}

pub record Task : Type 0 where
  pub key : ℕ
  pub partition : Partition

pub data StopReason : Type 0 where
  exhausted target_events precision wall_clock error_budget cancelled : StopReason

-- Seconds are counted in a unit of the clock.
pub record ExecContext : Type 0 where
  pub n_done : ℕ
  pub events_done : ℕ
  pub errors : ℕ
  pub elapsed_s : ℕ
  pub last_durations : List (ℕ × ℕ)

pub record StopCondition : Type 0 where
  pub target : Option ℕ
  pub max_wall_s : Option ℕ
  pub max_errors : Option ℤ

-- `StopCondition()`
abbrev pub no_condition : StopCondition
no_condition = record { target = none; max_wall_s = none; max_errors = none }

-- `limit is not None and n >= limit`
abbrev reached : Option ℕ → ℕ → Bool
reached none n = Bool.false
reached (some limit) n = leb limit n

-- `limit is not None and n > limit`: a negative limit is always passed
abbrev passed : Option ℤ → ℕ → Bool
passed none n = Bool.false
passed (some (pos limit)) n = ltb limit n
passed (some (negsuc _)) n = Bool.true

-- `StopCondition.reason`
unfoldable pub reason : StopCondition → ExecContext → Option StopReason
reason stop ctx =
    if reached stop.target ctx.events_done
    then some target_events
    else if reached stop.max_wall_s ctx.elapsed_s
    then some wall_clock
    else if passed stop.max_errors ctx.errors
    then some error_budget
    else none

-- What a plan says beside its process and its reduction.
pub record Settings (R : Type 0) : Type 0 where
  pub tasks : List Task
  pub next_tasks : Option (ExecContext → Option (List Task))
  pub stop : Option StopCondition
  pub open_once : Bool
  -- the names of the plan's `services`
  pub services : List String
  -- `process.bind_services`, where the process is `Bindable`: whether it raises for these endpoints
  pub bind : Option (List (String × String) → Outcome (Unit {0}))
  pub finalize : Option (R → Outcome R)

pub record Plan (S R : Type 0) : Type 0 where
  pub process : Process S R
  pub combine : Combine R
  pub empty : Outcome R
  pub settings : Settings R
  pub open settings use *

pub record ExecResult (R : Type 0) : Type 0 where
  pub value : R
  pub n_partitions : ℕ
  pub n_combines : ℕ
  pub stopped : Option StopReason
  pub failed : List FailedChunk
