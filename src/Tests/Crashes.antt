-- ===== src/Tests/Crashes.antt =====
-- A run of three partitions that is killed after its first commit, and the run that goes on from
-- there. A line of the journal is the task's id.
use graphed.Prelude.{String, ◌≡◌, refl, ap, true, false, Option, none, some, [], All, if◌then◌else◌}
use graphed.Prelude.Text.{str_eq}
use graphed.Prelude.Dict.{find}
use graphed.Outcome.{returns, raises, value_error, and_then}
use graphed.Partition.{Partition, ranged}
use graphed.Checkpoint.Journal.{Json, text, Rec, done_record}
use graphed.Checkpoint.Resume.{run_one, run_resumable}
use graphed.Checkpoint.Resume.Expected.{Relies, answer, answered, expected}
use graphed.Checkpoint.Resume.Crash.{done_entry}
use graphed.Checkpoint.Local.Killed.{run_resumable-killed}
use graphed.Checkpoint.Local.{Root, local_store, local_store-get}
use graphed.Checkpoint.Local.Trusted.{ReadsBack}
use graphed.Tests.Stores.{hash, bit_codec, shown, outcome, plan, decodes_bit}

abbrev text_of : Option Json → String
text_of (some (text s)) = s
text_of _ = ""

abbrev line_of : Rec → String
line_of rec = text_of (find "task_id" rec)

abbrev first_part : Partition
first_part = ranged "a.root" "Events" 0 10

abbrev last_part : Partition
last_part = ranged "c.root" "Events" 0 10

abbrev parse : String → Option Rec
parse line =
    if str_eq line "a.root"
    then some (done_record shown (done_entry plan.task_id first_part "t"))
    else if str_eq line "c.root"
    then some (done_record shown (done_entry plan.task_id last_part "t"))
    else none

abbrev empty_root : Root
empty_root = record { blobs = record { objects = []; bad = [] }; journals = []; dead = [] }

abbrev Known : Partition → Type 0
Known =
    ReadsBack hash line_of parse shown "journal.log" bit_codec plan.task_id
      (run_one plan.process plan.combine none) outcome

known : All Known plan.partitions
unfolding done_record find
known = (
  (elim [ true ↦ λ e. refl | false ↦ λ e. absurd (cc e) ]),
  ((λ v e. absurd (cc e)), ((elim [ true ↦ λ e. refl | false ↦ λ e. absurd (cc e) ]), tt)),
)

relies :
    Relies
      (local_store hash line_of parse shown "journal.log")
      bit_codec
      plan.task_id
      (run_one plan.process plan.combine none)
      hash
      outcome
unfolding run_one
relies = record {
  work_ends = λ p s. refl;
  get_verified =
      λ digest st x h. local_store-get hash line_of parse shown "journal.log" digest st x h;
  decodes = decodes_bit;
}

run_resumable-killed_example :
    let left =
      (run_resumable
        (local_store hash line_of parse shown "journal.log")
        bit_codec
        none
        (some 3)
        (some 1)
        plan
        (tt, empty_root)).1.1 in
    and_then
      (run_resumable
        (local_store hash line_of parse shown "journal.log")
        bit_codec
        none
        (some 3)
        none
        plan
        (tt, left)).0
      (λ r. returns (answer r))
    ≡ and_then (expected outcome plan.combine (some 3) plan.partitions none 0) (answered plan)
run_resumable-killed_example =
    run_resumable-killed hash line_of parse shown "journal.log" bit_codec none plan outcome (some 3)
      (some 3) (some 1) tt tt empty_root relies
      (λ p q same.
        ap (λ uri. if str_eq uri "b.root" then raises (value_error "unreadable") else returns true)
          same)
      known tt
