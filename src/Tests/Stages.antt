-- ===== src/Tests/Stages.antt =====
-- A staged run that is gone on with: the map stage's block is in the store, the gather's is not.
use graphed.Prelude.{
  ℕ, String, ◌≡◌, refl, sym, ap, ◌∙◌, none, some, List, [], ◌∷◌, if◌then◌else◌, map, length, ◌-◌,
}
use graphed.Prelude.Text.{str_eq}
use graphed.Prelude.Dict.{find}
use graphed.Prelude.{leb, eq_iff, Bool-cases, inl, inr}
use graphed.Outcome.{Outcome, returns, and_then}
use graphed.Plan.{Task}
use graphed.Partition.{ranged}
use graphed.Checkpoint.Blobs.{Bytes}
use graphed.Checkpoint.Journal.{JournalEntry}
use graphed.Checkpoint.Protocol.{CheckpointStore}
use graphed.Checkpoint.Shuffle.{Stage, run_shuffle_resumable}
use graphed.Checkpoint.Shuffle.Staged.{staged, payloads_at, StagesRely, HonestTask, HonestStages}
use graphed.Checkpoint.Shuffle.Staged.Run.{run_shuffle_resumable-staged}
use graphed.Tests.Durables.{in_ones, counted_ones, counted_ones-in_ones}

abbrev task_zero : Task
task_zero = record { key = 0; partition = ranged "a.root" "Events" 0 10 }

abbrev map_write : Stage (Unit {0})
map_write = record {
  kind = "map_write";
  inputs = [];
  process = λ task up s. (returns (1 ∷ []), s);
  tasks = task_zero ∷ [];
}

abbrev gather : Stage (Unit {0})
gather = record {
  kind = "gather";
  inputs = 0 ∷ [];
  process = λ task up s. (returns (length up ∷ []), s);
  tasks = task_zero ∷ [];
}

abbrev two_stages : List (Stage (Unit {0}))
two_stages = map_write ∷ gather ∷ []

abbrev id_of : ℕ → Task → String
id_of si task = if leb si 0 then "first" else "second"

abbrev written : JournalEntry
written = record {
  task_id = "first";
  partition = "a.root@0:10";
  blob = in_ones (1 ∷ []);
  stage = "map_write";
  deps = [];
}

abbrev kept_blob : CheckpointStore (Unit {0})
kept_blob = record {
  put = λ x st. (in_ones x, st);
  get = λ digest st. ((if str_eq digest (in_ones (1 ∷ [])) then some (1 ∷ []) else none), st);
  record_done = λ e st. st;
  completed = λ st. record { done = ("first", written) ∷ []; environments = [] };
  record_dead = λ d st. st;
  dead_letters = λ st. [];
}

abbrev work_of : Stage (Unit {0}) → Task → List Bytes → Outcome Bytes
work_of stage task up = (stage.process task up tt).0

verified :
    (digest : String) (st : Unit {0}) (x : Bytes)
    → (kept_blob.get digest st).0 ≡ some x
    → in_ones x ≡ digest
verified digest st x h = elim (Bool-cases (str_eq digest (in_ones (1 ∷ [])))) [
  | inl same ↦
      let at : digest ≡ in_ones (1 ∷ []) = (eq_iff digest (in_ones (1 ∷ []))).0 same in
      let is : x ≡ 1 ∷ [] = cc (simp same at h) in ap in_ones is ∙ sym at
  | inr other ↦ absurd (cc (simp other at h))
]

relies : StagesRely work_of kept_blob id_of in_ones two_stages
relies = record {
  work_ends = ((λ task up s. refl), ((λ task up s. refl), tt));
  put_digest = λ x st. refl;
  get_verified = verified;
  no_collision =
      λ x y e. sym (counted_ones-in_ones x) ∙ ap (counted_ones 0) e ∙ counted_ones-in_ones y;
}

first_honest :
    (up : List Bytes)
    → HonestTask work_of kept_blob id_of in_ones (kept_blob.completed tt) 0 map_write up task_zero
unfolding find
first_honest up e h =
    let is : written ≡ e = cc h in (1 ∷ [], refl, ap (λ (j : JournalEntry). j.blob) (sym is))

second_honest :
    (up : List Bytes)
    → HonestTask work_of kept_blob id_of in_ones (kept_blob.completed tt) 1 gather up task_zero
unfolding find
second_honest up e h = absurd (cc h)

honest : HonestStages work_of kept_blob id_of in_ones (kept_blob.completed tt) 0 two_stages []
honest up at =
    ((first_honest up, tt), λ this is up' at'. ((second_honest up', tt), λ this' is'. tt))

run_shuffle_resumable-staged_example :
    and_then
      (run_shuffle_resumable kept_blob id_of (λ hashes. []) none two_stages (tt, tt)).0
      (λ r. returns r.0)
    ≡ and_then (staged work_of two_stages []) (λ all.
      and_then (payloads_at all (length two_stages - 1)) (λ last. returns (map in_ones last)))
run_shuffle_resumable-staged_example =
    run_shuffle_resumable-staged kept_blob id_of (λ hashes. []) in_ones work_of two_stages tt tt
      relies honest
