-- ===== src/Control.antt =====
-- `RunControl` of core/execution.py: the pause/resume/cancel switch a runner reads before it starts
-- a task. Other threads call its methods while a run goes on; which calls have arrived by each read
-- of the state is an explicit sequence, so a run is a function of that sequence.
pub mod Sticky
use graphed.Prelude.{
  String, Bool, true, false, Option, none, some, List, [], ◌∷◌, foldl, if◌then◌else◌,
}
use graphed.Prelude.Text.{concat, repr, str_eq}
use graphed.Outcome.{Outcome, returns, raises, hangs, value_error}

pub data RunState : Type 0 where
  running paused cancelled : RunState

abbrev pub is_paused : RunState → Bool
is_paused paused = true
is_paused _ = false

abbrev pub is_cancelled : RunState → Bool
is_cancelled cancelled = true
is_cancelled _ = false

abbrev pub is_running : RunState → Bool
is_running running = true
is_running _ = false

-- `self._state is only_from`
abbrev same_state : RunState → RunState → Bool
same_state running s = is_running s
same_state paused s = is_paused s
same_state cancelled s = is_cancelled s

-- `RunControl._move`
move : RunState → Option RunState → RunState → RunState
move to none state = to
move to (some only_from) state = if same_state only_from state then to else state

-- The methods of `RunControl` that change the state.
pub data Method : Type 0 where
  pause resume cancel reset : Method

unfoldable pub call : Method → RunState → RunState
unfolding move
call pause = move paused (some running)
call resume = move running (some paused)
call cancel = move cancelled none
call reset = move running none

unfoldable pub call_all : List Method → RunState → RunState
unfolding call
call_all [] state = state
call_all (m ∷ ms) state = call_all ms (call m state)

-- `RunControl.apply`: the wire form of a command, beside the state that it leaves
unfoldable pub apply : String → RunState → Outcome (Unit {0}) × RunState
unfolding call
apply cmd state =
    if str_eq cmd "pause"
    then (returns tt, call pause state)
    else if str_eq cmd "resume"
    then (returns tt, call resume state)
    else if str_eq cmd "cancel"
    then (returns tt, call cancel state)
    else (
      raises (
          value_error (
            concat (
              "unknown run-control command "
              ∷ repr cmd
              ∷ " (expected pause, resume or cancel)"
              ∷ []))),
      state,
    )

-- The control as a run sees it: its state, and the calls of other threads that arrive before each
-- of the run's next reads.
pub record Control : Type 0 where
  pub state : RunState
  pub arriving : List (List Method)

next_read : RunState → List (List Method) → Control
unfolding call_all
next_read state [] = record { state = state; arriving = [] }
next_read state (batch ∷ later) = record { state = call_all batch state; arriving = later }

-- `control.state`, read after the next batch has arrived
unfoldable pub read_state : Control → RunState × Control
unfolding next_read
read_state c = let c' = next_read c.state c.arriving in (c'.state, c')

wait_from : RunState → List (List Method) → Outcome RunState × Control
unfolding call_all
wait_from state [] =
    (if is_paused state then hangs else returns state, record { state = state; arriving = [] })
wait_from state (batch ∷ later) =
    let state' = call_all batch state in
    let woken : Outcome RunState × Control =
      (returns state', record { state = state'; arriving = later }) in
    let still = wait_from state' later in if is_paused state' then still else woken

-- `control.wait()`: it blocks while the state is PAUSED, for ever if nothing resumes it
unfoldable pub wait : Control → Outcome RunState × Control
unfolding wait_from
wait c = wait_from c.state c.arriving
