-- ===== src/Checkpoint/Resume/Crash.antt =====
-- What a killed run leaves behind: a store from which the next run goes on.
use graphed.Prelude.{
  ℕ, String, ◌≡◌, refl, sym, Bool, true, false, Option, none, some, List, [], ◌∷◌, All,
  if◌then◌else◌,
}
use graphed.Prelude.Dict.{find}
use graphed.Outcome.{
  exception, too_many_failed, unbound_services, interrupt, DeadLetter, Outcome, returns, raises,
  hangs, Exec, and_then, continue,
}
use graphed.Partition.{Partition}
use graphed.Retry.{Process, Combine, Policy}
use graphed.Checkpoint.Blobs.{Bytes}
use graphed.Checkpoint.Journal.{JournalEntry, Completed}
use graphed.Checkpoint.Protocol.{CheckpointStore, Codec}
use graphed.Checkpoint.Resume.{
  partition_tag, Progress, stored_partial, settle, turn, run_parts, Resumable, run_one, conclude,
  run_resumable, nothing_yet,
}
use graphed.Checkpoint.Resume.Expected.{Relies, IsHonest, expected, answer, answered}
use graphed.Checkpoint.Resume.Value.{run_resumable-expected}

-- The entry that a run records for the partial of `p`.
abbrev pub done_entry : (Partition → String) → Partition → String → JournalEntry
done_entry task_id p digest = record {
  task_id = task_id p;
  partition = partition_tag p;
  blob = digest;
  stage = "";
  deps = [];
}

module _ {S St R : Type 0} (store : CheckpointStore St) (codec : Codec R)
    (task_id : Partition → String) (work : Process S R) (content_hash : Bytes → String)
    (g : Partition → Outcome R) (Known : Partition → Type 0) where
  -- What holds of a store's state between any two steps of runs of this work: its journal is honest,
  -- and reading, committing a partial that the work of a known
  -- partition returns, and listing a failure keep it so.
  pub record Keeps (Trusted : St → Type 0) : Type 0 where
    pub honest :
        (st : St)
        → Trusted st
        → IsHonest store codec task_id work content_hash g (store.completed st)
    pub get_keeps : (digest : String) (st : St) → Trusted st → Trusted (store.get digest st).1
    pub dead_keeps :
        (letter : DeadLetter) (st : St) → Trusted st → Trusted (store.record_dead letter st)
    pub done_keeps :
        (p : Partition) (v : R) (st : St)
        → Known p
        → g p ≡ returns v
        → Trusted st
        → let (digest, st') = store.put (codec.encode v) st in
          Trusted (store.record_done (done_entry task_id p digest) st')

  module _ (Trusted : St → Type 0) (keeps : Keeps Trusted)
      (work_ends : (p : Partition) (s : S) → (work p s).0 ≡ g p) (combine : Combine R)
      (error_budget kill_after : Option ℕ) where
    stored-Trusted :
        (o : Option JournalEntry) (st : St)
        → Trusted st
        → Trusted (stored_partial store codec task_id work combine error_budget kill_after o st).1
    unfolding stored_partial
    stored-Trusted none st h = h
    stored-Trusted (some e) st h = keeps.get_keeps e.blob st h

    settle-Trusted :
        (p : Partition) (pr : Progress R) (o : Outcome R) (st : St)
        → Known p
        → g p ≡ o
        → Trusted st
        → Trusted (settle store codec task_id work combine error_budget kill_after p pr o st).1
    unfolding settle
    settle-Trusted p pr (returns v) st k e h = keeps.done_keeps p v st k e h
    settle-Trusted p pr (raises (interrupt x)) st k e h = h
    settle-Trusted p pr (raises (exception x)) st k e h = keeps.dead_keeps _ st h
    settle-Trusted p pr (raises (too_many_failed x)) st k e h = keeps.dead_keeps _ st h
    settle-Trusted p pr (raises (unbound_services x)) st k e h = keeps.dead_keeps _ st h
    settle-Trusted p pr hangs st k e h = h

    turn-Trusted :
        (completed : Completed) (p : Partition) (pr : Progress R) (s : S) (st : St)
        → Known p
        → Trusted st
        → Trusted
            (turn store codec task_id work combine error_budget kill_after completed p pr
              (s, st)).1.1
    unfolding turn
    turn-Trusted completed p pr s st k h =
        go
          (stored_partial store codec task_id work combine error_budget kill_after
            (find (task_id p) completed.done) st)
          refl
      where
        go :
            (x : Option R × St)
            → stored_partial store codec task_id work combine error_budget kill_after
                (find (task_id p) completed.done)
                st
              ≡ x
            → Trusted
                (turn store codec task_id work combine error_budget kill_after completed p pr
                  (s, st)).1.1
        go (some v, st') at =
            let kept = stored-Trusted (find (task_id p) completed.done) st h in rw (turn, at) kept
        go (none, st') at =
            let kept = stored-Trusted (find (task_id p) completed.done) st h in
            rw (turn, at) (settle-Trusted p pr (work p s).0 _ k (sym (work_ends p s)) kept)

    continued :
        {A B : Type 0} (y : Outcome A × (S × St)) (f : A → Exec (S × St) B)
        → Trusted y.1.1
        → ((a : A) (s : S) (st : St) → Trusted st → Trusted (f a (s, st)).1.1)
        → Trusted (continue y f).1.1
    continued (returns a, (s, st)) f h k = k a s st h
    continued (raises e, w) f h k = h
    continued (hangs, w) f h k = h

    run_parts-Trusted :
        (completed : Completed) (parts : List Partition) (pr : Progress R) (s : S) (st : St)
        → All Known parts
        → Trusted st
        → Trusted
            (run_parts store codec task_id work combine error_budget kill_after completed parts pr
              (s, st)).1.1
    unfolding run_parts
    run_parts-Trusted completed [] pr s st k h = h
    run_parts-Trusted completed (p ∷ parts) pr s st k h =
        continued
          (turn store codec task_id work combine error_budget kill_after completed p pr (s, st)) _
          (turn-Trusted completed p pr s st k.0 h)
          (λ next s' st' h'.
            go next.1 next.0 s' st' h' (λ pr'. run_parts-Trusted completed parts pr' s' st' k.1 h'))
      where
        go :
            (go_on : Bool) (pr' : Progress R) (s' : S) (st' : St)
            → Trusted st'
            → ((pr'' : Progress R)
                → Trusted
                    (run_parts store codec task_id work combine error_budget kill_after completed
                      parts pr''
                      (s', st')).1.1)
            → Trusted
                ((if go_on
                    then run_parts store codec task_id work combine error_budget kill_after
                        completed parts pr'
                    else (λ w. (returns pr', w)))
                  (s', st')).1.1
        go true pr' s' st' h' ih = ih pr'
        go false pr' s' st' h' ih = h'

module _ {S St R : Type 0} (store : CheckpointStore St) (codec : Codec R)
    (retry : Option (Policy S)) (plan : Resumable S R) (content_hash : Bytes → String)
    (g : Partition → Outcome R) (Known : Partition → Type 0) (Trusted : St → Type 0) where
  abbrev work : Process S R
  work = run_one plan.process plan.combine retry

  run_resumable-Trusted :
      (error_budget kill_after : Option ℕ) (s : S) (st : St)
      → Keeps store codec plan.task_id work content_hash g Known Trusted
      → ((p : Partition) (s : S) → (work p s).0 ≡ g p)
      → All Known plan.partitions
      → Trusted st
      → Trusted (run_resumable store codec retry error_budget kill_after plan (s, st)).1.1
  unfolding run_resumable conclude
  run_resumable-Trusted error_budget kill_after s st keeps ends k h =
      continued store codec plan.task_id work content_hash g Known Trusted keeps ends plan.combine
        error_budget kill_after
        (run_parts store codec plan.task_id work plan.combine error_budget kill_after
          (store.completed st) plan.partitions nothing_yet (s, st))
        _
        (run_parts-Trusted store codec plan.task_id work content_hash g Known Trusted keeps ends
          plan.combine error_budget kill_after (store.completed st) plan.partitions nothing_yet s st
          k h)
        (λ pr s' st' h'. h')

  -- A run that is killed after any number of commits, or ends in any other way, leaves a store from
  -- which the next run, with no kill, answers the fold over all partitions, as if nothing had
  -- happened before.
  pub run_resumable-after_kill :
      (error_budget later_budget kill_after : Option ℕ) (s s' : S) (st : St)
      → Relies store codec plan.task_id work content_hash g
      → Keeps store codec plan.task_id work content_hash g Known Trusted
      → All Known plan.partitions
      → Trusted st
      → let left = (run_resumable store codec retry error_budget kill_after plan (s, st)).1.1 in
        and_then
          (run_resumable store codec retry later_budget none plan (s', left)).0
          (λ r. returns (answer r))
        ≡ and_then (expected g plan.combine later_budget plan.partitions none 0) (answered plan)
  run_resumable-after_kill error_budget later_budget kill_after s s' st relies keeps k h =
      let left = (run_resumable store codec retry error_budget kill_after plan (s, st)).1.1 in
      run_resumable-expected store codec retry later_budget plan content_hash g s' left relies (
        keeps.honest left
          (run_resumable-Trusted error_budget kill_after s st keeps relies.work_ends k h))
