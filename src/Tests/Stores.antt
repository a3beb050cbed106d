-- ===== src/Tests/Stores.antt =====
-- A store with one finished partition, and a run resumed on it.
use graphed.Prelude.{
  ℕ, zero, suc, String, ◌≡◌, ◌≢◌, refl, sym, ap, Bool, true, false, Option, none, some, List, [],
  ◌∷◌, arith, eq_iff, Bool-cases, inl, inr, if◌then◌else◌,
}
use graphed.Prelude.Text.{str_eq}
use graphed.Prelude.Dict.{find}
use graphed.Outcome.{Outcome, returns, raises, value_error, and_then}
use graphed.Partition.{Partition, ranged}
use graphed.Checkpoint.Blobs.{Bytes, Store, has_blob, put, get}
use graphed.Checkpoint.Blobs.Healing.{put-get_healed}
use graphed.Checkpoint.Journal.{
  Rec, JournalEntry, Completed, Journals, record_done, done_record, completed,
}
use graphed.Checkpoint.Journal.Replay.{IsSound, completed-IsSound, completed-record_done}
use graphed.Checkpoint.Protocol.{Codec}
use graphed.Checkpoint.Resume.{Resumable, run_one, run_resumable}
use graphed.Checkpoint.Resume.Expected.{Relies, IsHonest, answer, answered, expected}
use graphed.Checkpoint.Resume.Value.{run_resumable-expected}
use graphed.Checkpoint.Local.{Root, local_store, local_store-get}

-- Partials are truth values, and bytes are hashed by their truth value.
abbrev pub truth : Bytes → Bool
truth [] = false
truth (zero ∷ _) = false
truth (suc _ ∷ _) = true

abbrev pub name_of : Bool → String
name_of true = "t"
name_of false = "f"

abbrev pub hash : Bytes → String
hash bytes = name_of (truth bytes)

abbrev pub bits : Bool → Bytes
bits true = 1 ∷ []
bits false = 0 ∷ []

abbrev pub bit_codec : Codec Bool
bit_codec = record { encode = bits; decode = truth }

-- Lines are records' blobs, and only "t" reads back.
abbrev pub shown : List String → String
shown deps = "[]"

abbrev finished : JournalEntry
finished = record {
  task_id = "a.root";
  partition = "a.root@0:10";
  blob = "t";
  stage = "";
  deps = [];
}

abbrev line_of : Rec → String
line_of rec = "done"

abbrev parse : String → Option Rec
parse line = if str_eq line "done" then some (done_record shown finished) else none

-- The first line is damaged.
abbrev journals : Journals
journals = ("journal.log", record { lines = "{\"bl" ∷ "done" ∷ []; torn = none }) ∷ []

abbrev blobs : Store
blobs = record { objects = ("t", 1 ∷ []) ∷ ("f", 7 ∷ []) ∷ []; bad = [] }

put-get_healed_example :
    ((x : Bytes) → (get hash "f" blobs).0 ≡ some x → hash x ≡ "f")
    × ((get hash "f" blobs).0 ≡ none
        → (get hash "f" (put hash (0 ∷ []) (get hash "f" blobs).1).1).0 ≡ some (0 ∷ []))
put-get_healed_example = put-get_healed hash (0 ∷ []) blobs

completed-IsSound_example :
    IsSound (has_blob blobs) (completed line_of parse (has_blob blobs) journals)
completed-IsSound_example = completed-IsSound line_of parse (has_blob blobs) journals

has_t : has_blob blobs "t" ≡ true
unfolding has_blob find
has_t = refl

completed-record_done_example :
    let before : Completed = completed line_of parse (has_blob blobs) journals in
    let after : Completed =
      completed line_of parse
        (has_blob blobs)
        (record_done line_of parse "journal.log" shown finished journals) in
    (find "a.root" after.done ≡ some finished)
    × ((task : String) → task ≢ "a.root" → find task after.done ≡ find task before.done)
completed-record_done_example =
    completed-record_done line_of parse (has_blob blobs) "journal.log" ("{\"bl" ∷ "done" ∷ []) shown
      finished refl has_t (λ e. ground (arith, e, eq_iff "" "environment"))

abbrev root : Root
root = record { blobs = blobs; journals = journals; dead = [] }

-- Files whose name is "b.root" fail.
abbrev pub outcome : Partition → Outcome Bool
outcome p = if str_eq p.uri "b.root" then raises (value_error "unreadable") else returns true

abbrev pub plan : Resumable (Unit {0}) Bool
plan = record {
  process = λ p s. (outcome p, s);
  combine = λ a b. returns b;
  empty = returns false;
  finalize = none;
  partitions =
      ranged "a.root" "Events" 0 10
      ∷ ranged "b.root" "Events" 0 10
      ∷ ranged "c.root" "Events" 0 10
      ∷ [];
  task_id = λ p. p.uri;
}

same_name : (a b : Bool) → name_of a ≡ name_of b → a ≡ b
same_name true true h = refl
same_name false false h = refl
same_name true false h = absurd (ground (arith, h, eq_iff "t" "f"))
same_name false true h = absurd (ground (arith, h, eq_iff "f" "t"))

pub decodes_bit : (v : Bool) (x : Bytes) → hash x ≡ hash (bits v) → truth x ≡ v
decodes_bit true x h = same_name (truth x) true h
decodes_bit false x h = same_name (truth x) false h

pub relies :
    Relies
      (local_store hash line_of parse shown "journal.log")
      bit_codec
      plan.task_id
      (run_one plan.process plan.combine none)
      hash
      outcome
unfolding run_one
relies = record {
  work_ends = λ p s. refl;
  get_verified =
      λ digest st x h. local_store-get hash line_of parse shown "journal.log" digest st x h;
  decodes = decodes_bit;
}

one_done : (completed line_of parse (has_blob blobs) journals).done ≡ ("a.root", finished) ∷ []
unfolding completed has_blob find done_record graphed.Prelude.Sorting.sorted
    graphed.Prelude.Dict.set
one_done = refl

found :
    (uri : String) (e : JournalEntry)
    → find uri (("a.root", finished) ∷ []) ≡ some e
    → (uri ≡ "a.root") × (finished ≡ e)
unfolding find
found uri e h = ground (arith, eq_iff "a.root" uri)

honest :
    IsHonest
      (local_store hash line_of parse shown "journal.log")
      bit_codec
      plan.task_id
      (run_one plan.process plan.combine none)
      hash
      outcome
      (completed line_of parse (has_blob blobs) journals)
honest p e h =
    let (at, is) = found p.uri e (rw one_done at h) in
    (true, rw at refl, ap (λ (x : JournalEntry). x.blob) (sym is))

run_resumable-expected_example :
    and_then
      (run_resumable
        (local_store hash line_of parse shown "journal.log")
        bit_codec
        none
        (some 3)
        none
        plan
        (tt, root)).0
      (λ r. returns (answer r))
    ≡ and_then (expected outcome plan.combine (some 3) plan.partitions none 0) (answered plan)
run_resumable-expected_example =
    run_resumable-expected (local_store hash line_of parse shown "journal.log") bit_codec none
      (some 3) plan hash outcome tt root relies honest
