-- ===== src/Checkpoint/Resume/Value.antt =====
-- A resumed run computes what an uninterrupted one does.
use graphed.Prelude.{
  ℕ, ◌+◌, String, ◌≡◌, refl, ap, ◌∙◌, Bool, true, false, Option, none, some, List, [], ◌∷◌,
  if◌then◌else◌, Bool-cases, inl, inr,
}
use graphed.Prelude.Dict.{find}
use graphed.Outcome.{
  exception, too_many_failed, unbound_services, interrupt, Outcome, returns, raises, hangs, Exec,
  and_then, continue,
}
use graphed.Partition.{Partition}
use graphed.Retry.{Process, Combine, Policy}
use graphed.Checkpoint.Blobs.{Bytes}
use graphed.Checkpoint.Journal.{JournalEntry, Completed}
use graphed.Checkpoint.Protocol.{CheckpointStore, Codec}
use graphed.Checkpoint.Resume.{
  fold_in, over_budget, Progress, stored_partial, settle, turn, run_parts, value_of, finalized,
  Resumable, ResumeResult, run_one, conclude, run_resumable, nothing_yet,
}
use graphed.Checkpoint.Resume.Expected.{
  expected_after, expected, ending, Relies, IsHonest, answer, answered,
}

module _ {S St R : Type 0} (store : CheckpointStore St) (codec : Codec R)
    (task_id : Partition → String) (work : Process S R) (content_hash : Bytes → String)
    (g : Partition → Outcome R) where
  module _ (relies : Relies store codec task_id work content_hash g) (combine : Combine R)
      (error_budget : Option ℕ) where
    stored-right :
        (p : Partition) (o : Option JournalEntry) (st : St) (v : R)
        → ((e : JournalEntry)
            → o ≡ some e
            → (v' : R) × (g p ≡ returns v') × (e.blob ≡ content_hash (codec.encode v')))
        → (stored_partial store codec task_id work combine error_budget none o st).0 ≡ some v
        → g p ≡ returns v
    unfolding stored_partial
    stored-right p none st v honest h = cc
    stored-right p (some e) st v honest h = go (store.get e.blob st).0 refl h
      where
        go :
            (b : Option Bytes)
            → (store.get e.blob st).0 ≡ b
            → (elim b [ none ↦ none | some bytes ↦ some (codec.decode bytes) ]) ≡ some v
            → g p ≡ returns v
        go none at h' = cc
        go (some x) at h' =
            let (v', right, named) = honest e refl in
            let hash : content_hash x ≡ content_hash (codec.encode v') =
              cc (relies.get_verified e.blob st x at, named) in
            cc (right, relies.decodes v' x hash, h')

    module _ (completed : Completed)
        (honest : IsHonest store codec task_id work content_hash g completed) where
      abbrev run : List Partition → Progress R → Exec (S × St) (Progress R)
      run = run_parts store codec task_id work combine error_budget none completed

      abbrev Right : List Partition → Progress R → S × St → Type 0
      Right parts pr w =
          and_then (run parts pr w).0 (λ pr'. returns (ending pr'))
          ≡ expected g combine error_budget parts pr.acc pr.report.dead

      -- The rest of a run after the turn of one partition.
      abbrev rest_of : List Partition → Progress R × Bool → Exec (S × St) (Progress R)
      rest_of parts (pr', go_on) = if go_on then run parts pr' else (λ w. (returns pr', w))

      abbrev Go : List Partition → Type 0
      Go parts = (pr : Progress R) (w : S × St) → pr.report.stopped ≡ none → Right parts pr w

      joined :
          (parts : List Partition) (y : Outcome R) (f : R → Progress R) (w : S × St) (dead : ℕ)
          → ((a : R)
              → and_then (run parts (f a) w).0 (λ pr'. returns (ending pr'))
                ≡ expected g combine error_budget parts (some a) dead)
          → and_then
              (continue (and_then y (λ a. returns (f a, true)), w) (rest_of parts)).0
              (λ pr'. returns (ending pr'))
            ≡ and_then y (λ a. expected g combine error_budget parts (some a) dead)
      joined parts (returns a) f w dead h = h a
      joined parts (raises e) f w dead h = refl
      joined parts hangs f w dead h = refl

      given_up :
          (parts : List Partition) (pr : Progress R) (w : S × St)
          → pr.report.stopped ≡ none
          → Go parts
          → let over = over_budget error_budget (pr.report.dead + 1) in
            let pr' : Progress R = record pr {
              report = record (pr.report) {
                dead = pr.report.dead + 1;
                stopped = if over then some "error_budget" else pr.report.stopped;
              };
            } in
            and_then
              (rest_of parts (pr', (if over then false else true)) w).0
              (λ pr''. returns (ending pr''))
            ≡ (if over
                then returns (pr.acc, pr.report.dead + 1, some "error_budget")
                else expected g combine error_budget parts pr.acc (pr.report.dead + 1))
      given_up parts pr w fine ih =
          elim (Bool-cases (over_budget error_budget (pr.report.dead + 1))) [
            | inl over ↦ rw over refl
            | inr under ↦ rw under (ih _ w fine)
          ]

      settled :
          (p : Partition) (parts : List Partition) (pr : Progress R) (o : Outcome R) (s : S)
          (st : St)
          → pr.report.stopped ≡ none
          → Go parts
          → let x = settle store codec task_id work combine error_budget none p pr o st in
            and_then (continue (x.0, (s, x.1)) (rest_of parts)).0 (λ pr'. returns (ending pr'))
            ≡ expected_after g combine error_budget pr.acc pr.report.dead o
                (λ a d. expected g combine error_budget parts a d)
      unfolding settle
      settled p parts pr (returns v) s st fine ih =
          joined parts (fold_in combine pr.acc v) _ _ pr.report.dead (λ a. ih _ _ fine)
      settled p parts pr (raises (interrupt e)) s st fine ih = refl
      settled p parts pr (raises (exception e)) s st fine ih = given_up parts pr _ fine ih
      settled p parts pr (raises (too_many_failed e)) s st fine ih = given_up parts pr _ fine ih
      settled p parts pr (raises (unbound_services e)) s st fine ih = given_up parts pr _ fine ih
      settled p parts pr hangs s st fine ih = refl

      turned :
          (p : Partition) (parts : List Partition) (pr : Progress R) (s : S) (st : St)
          → pr.report.stopped ≡ none
          → Go parts
          → Right (p ∷ parts) pr (s, st)
      unfolding run_parts turn
      turned p parts pr s st fine ih =
          go
            (stored_partial store codec task_id work combine error_budget none
              (find (task_id p) completed.done) st)
            refl
        where
          go :
              (x : Option R × St)
              → stored_partial store codec task_id work combine error_budget none
                  (find (task_id p) completed.done)
                  st
                ≡ x
              → Right (p ∷ parts) pr (s, st)
          go (some v, st') at =
              let right : g p ≡ returns v =
                stored-right p (find (task_id p) completed.done) st v (λ e q. honest p e q)
                  (ap (λ (x : Option R × St). x.0) at) in
              rw (turn, at, right)
                (joined parts (fold_in combine pr.acc v) _ _ pr.report.dead (λ a. ih _ _ fine))
          go (none, st') at =
              rw (turn, at, relies.work_ends p s) (settled p parts pr (g p) (work p s).1 _ fine ih)

      run_lem : (parts : List Partition) → Go parts
      unfolding run_parts
      run_lem [] pr w fine = rw fine refl
      run_lem (p ∷ parts) pr (s, st) fine = turned p parts pr s st fine (run_lem parts)

and_then-twice :
    {R : Type 0} (a : Outcome R) (f : R → Outcome R) (report : R → ResumeResult R) (dead : ℕ)
    (stopped : Option String)
    → ((v : R) → answer (report v) ≡ (v, dead, stopped))
    → and_then
        (and_then a (λ v. and_then (f v) (λ v'. returns (report v'))))
        (λ r. returns (answer r))
      ≡ and_then a (λ v. and_then (f v) (λ v'. returns (v', dead, stopped)))
and_then-twice (returns v) f report dead stopped h = go (f v)
  where
    go :
        (b : Outcome _)
        → and_then (and_then b (λ v'. returns (report v'))) (λ r. returns (answer r))
          ≡ and_then b (λ v'. returns (v', dead, stopped))
    go (returns v') = ap returns (h v')
    go (raises e) = refl
    go hangs = refl
and_then-twice (raises e) f report dead stopped h = refl
and_then-twice hangs f report dead stopped h = refl

concluded :
    {S St R : Type 0} (store : CheckpointStore St) (codec : Codec R) (retry : Option (Policy S))
    (error_budget : Option ℕ) (plan : Resumable S R) (x : Outcome (Progress R) × (S × St))
    → and_then
        (continue x (conclude store codec retry error_budget none plan)).0
        (λ r. returns (answer r))
      ≡ and_then (and_then x.0 (λ pr. returns (ending pr))) (answered plan)
unfolding conclude graphed.Checkpoint.Resume.require_kill_fired
concluded store codec retry error_budget plan (returns pr, w) =
    and_then-twice (value_of plan.empty pr.acc) (finalized plan.finalize) _ pr.report.dead
      pr.report.stopped (λ v. refl)
concluded store codec retry error_budget plan (raises e, w) = refl
concluded store codec retry error_budget plan (hangs, w) = refl

-- A resumable run that no simulated kill ends answers the fold over its partitions, whatever the
-- store holds of earlier runs: if the work of each partition ends alike every time, the store
-- verifies what it serves, the codec's bytes are known by their hash, and the journal names only
-- partials of this work, then the value, the number of dead partitions and the stop by the error
-- budget, or the exception, are those of the fold that runs every partition.
pub run_resumable-expected :
    {S St R : Type 0} (store : CheckpointStore St) (codec : Codec R) (retry : Option (Policy S))
    (error_budget : Option ℕ) (plan : Resumable S R) (content_hash : Bytes → String)
    (g : Partition → Outcome R) (s : S) (st : St)
    → Relies store codec plan.task_id (run_one plan.process plan.combine retry) content_hash g
    → IsHonest store codec plan.task_id
        (run_one plan.process plan.combine retry)
        content_hash
        g
        (store.completed st)
    → and_then
        (run_resumable store codec retry error_budget none plan (s, st)).0
        (λ r. returns (answer r))
      ≡ and_then (expected g plan.combine error_budget plan.partitions none 0) (answered plan)
unfolding run_resumable
run_resumable-expected store codec retry error_budget plan content_hash g s st relies honest =
    concluded store codec retry error_budget plan _
    ∙ ap (λ e. and_then e (answered plan))
        (run_lem store codec plan.task_id _ content_hash g relies plan.combine error_budget
          (store.completed st) honest plan.partitions nothing_yet (s, st) refl)
