-- ===== src/Checkpoint/Local/Trusted.antt =====
-- A `Store` that only runs of one work have written to, killed or not: it can be resumed from.
use graphed.Prelude.{
  String, ◌≡◌, ◌≢◌, refl, ap, sym, subst, ◌∙◌, Bool, true, false, Option, none, some, List, [], ◌∷◌,
  arith, All, All-append, eq_iff, Bool-cases, inl, inr, if◌then◌else◌,
}
use graphed.Prelude.Text.{str_eq, str_leb}
use graphed.Prelude.Sorting.{All-sorted}
use graphed.Prelude.Dict.{find, set, find-set, find-set_ne}
use graphed.Outcome.{Outcome, returns}
use graphed.Partition.{Partition}
use graphed.Retry.{Process}
use graphed.Checkpoint.Blobs.{Bytes, Store, put, has_blob}
use graphed.Checkpoint.Journal.{
  Json, text, Rec, JournalEntry, Completed, entry_of, keep, replay_blob, replay_from, replay,
  done_record, Journals, record_done, append, append_to, all_lines, Log, completed, read_lines,
  read_all,
}
use graphed.Checkpoint.Journal.Replay.{read_lines-append, read_lines-one}
use graphed.Checkpoint.Protocol.{Codec}
use graphed.Checkpoint.Resume.Crash.{Keeps, done_entry}
use graphed.Checkpoint.Local.{Root, local_store}

module _ {S R : Type 0} (content_hash : Bytes → String) (line_of : Rec → String)
    (parse : String → Option Rec) (shown : List String → String) (journal_path : String)
    (codec : Codec R) (task_id : Partition → String) (work : Process S R)
    (g : Partition → Outcome R) where
  -- The partial of the task with this id is returned by its work, and this is its hash.
  abbrev Right : String → String → Type 0
  Right task blob =
      (p : Partition)
      → task_id p ≡ task
      → (v : R) × (g p ≡ returns v) × (blob ≡ content_hash (codec.encode v))

  -- A record that a run of this work may have written; those of environments are let be.
  abbrev HonestRec : Rec → Type 0
  HonestRec rec =
      (blob : String)
      → find "blob" rec ≡ some (text blob)
      → str_eq (entry_of blob rec).stage "environment" ≡ false
      → Right (entry_of blob rec).task_id blob

  abbrev HonestLines : List String → Type 0
  HonestLines lines = All HonestRec (read_lines line_of parse lines)

  abbrev HonestLog : Log → Type 0
  HonestLog log = HonestLines log.lines × (log.torn ≡ none)

  -- Every line of every journal that reads as a record is honest, and no journal ends in a torn one:
  -- a kill of a run comes between two appends.
  abbrev pub TrustedRoot : Root → Type 0
  TrustedRoot root = All (λ (j : String × Log). HonestLog j.1) root.journals

  abbrev HonestDone : Completed → Type 0
  HonestDone c = (task : String) (e : JournalEntry) → find task c.done ≡ some e → Right task e.blob

  keep-Honest :
      (e : JournalEntry) (c : Completed)
      → (str_eq e.stage "environment" ≡ false → Right e.task_id e.blob)
      → HonestDone c
      → HonestDone (keep e c)
  keep-Honest e c r h = elim (Bool-cases (str_eq e.stage "environment")) [
    | inl env ↦ rw env h
    | inr task ↦ rw task (set_honest (r task))
  ]
    where
      set_honest :
          Right e.task_id e.blob
          → (task : String) (e' : JournalEntry) → find task (set e.task_id e c.done) ≡ some e'
          → Right task e'.blob
      set_honest right task e' at = elim (Bool-cases (str_eq e.task_id task)) [
        | inl same ↦
            let here : e.task_id ≡ task = (eq_iff e.task_id task).0 same in
            let got : some e ≡ some e' = cc (at, here, find-set e.task_id e c.done) in
            let it : e ≡ e' = cc got in
            subst (λ t. Right t e'.blob) here
              (subst (λ (x : JournalEntry). Right e.task_id x.blob) it right)
        | inr differ ↦
            let ne : task ≢ e.task_id =
              λ q. absurd (ground (arith, q, differ, eq_iff e.task_id task)) in
            h task e' (cc (at, find-set_ne task e.task_id e c.done ne))
      ]

  module _ (present : String → Bool) where
    replay_blob-Honest :
        (o : Option Json) (rec : Rec) (c : Completed)
        → find "blob" rec ≡ o
        → HonestRec rec
        → HonestDone c
        → HonestDone (replay_blob present o rec c)
    replay_blob-Honest none rec c at r h = h
    replay_blob-Honest (some (text blob)) rec c at r h = elim (Bool-cases (present blob)) [
      | inl here ↦ rw here (keep-Honest (entry_of blob rec) c (r blob at) h)
      | inr gone ↦ rw gone h
    ]
    replay_blob-Honest (some _) rec c at r h = h

    replay_from-Honest :
        (c : Completed) (records : List Rec)
        → All HonestRec records
        → HonestDone c
        → HonestDone (replay_from present c records)
    unfolding replay_from
    replay_from-Honest c [] r h = h
    replay_from-Honest c (rec ∷ records) r h =
        replay_from-Honest (replay_blob present (find "blob" rec) rec c) records r.1
          (replay_blob-Honest (find "blob" rec) rec c refl r.0 h)

  read_all-Honest :
      (js : Journals)
      → All (λ (j : String × Log). HonestLog j.1) js
      → All HonestRec (read_all line_of parse js)
  unfolding read_all
  read_all-Honest [] h = tt
  read_all-Honest ((path, log) ∷ js) h =
      All-append HonestRec (read_lines line_of parse (all_lines log)) (read_all line_of parse js)
        (rw h.0.1 h.0.0) (read_all-Honest js h.1)

  completed-Honest :
      (root : Root)
      → TrustedRoot root
      → HonestDone (completed line_of parse (has_blob root.blobs) root.journals)
  unfolding completed replay find
  completed-Honest root h =
      replay_from-Honest (has_blob root.blobs) (record { done = []; environments = [] }) _
        (read_all-Honest _ (All-sorted _ (λ a b. str_leb a.0 b.0) root.journals h)) nothing
    where
      nothing : (task : String) (e : JournalEntry) → find task [] ≡ some e → Right task e.blob
      nothing task e at = absurd (cc at)

  -- A record is put at the end of a journal.
  found-Honest :
      (path : String) (js : Journals)
      → All (λ (j : String × Log). HonestLog j.1) js
      → (line : String) → HonestLines (line ∷ [])
      → HonestLog (append_to line_of parse (find path js) line)
  unfolding find
  found-Honest path [] h line k = (k, refl)
  found-Honest path ((p, log) ∷ js) h line k = elim (Bool-cases (str_eq p path)) [
    | inl here ↦
        rw (here, h.0.1)
          (
            rw (read_lines-append line_of parse log.lines (line ∷ [])) (
                All-append HonestRec (read_lines line_of parse log.lines)
                  (read_lines line_of parse (line ∷ [])) h.0.0 k),
            refl,
          )
    | inr other ↦ rw other (found-Honest path js h.1 line k)
  ]

  set-Honest :
      (path : String) (lines : Log) (js : Journals)
      → HonestLog lines
      → All (λ (j : String × Log). HonestLog j.1) js
      → All (λ (j : String × Log). HonestLog j.1) (set path lines js)
  unfolding set
  set-Honest path lines [] k h = (k, tt)
  set-Honest path lines ((p, ls) ∷ js) k h = elim (Bool-cases (str_eq p path)) [
    | inl here ↦ rw here (k, h.1)
    | inr other ↦ rw other (h.0, set-Honest path lines js k h.1)
  ]

  -- The record that a run writes for the partial `v` of `p`.
  abbrev pub record_of : Partition → R → Rec
  record_of p v = done_record shown (done_entry task_id p (content_hash (codec.encode v)))

  -- What is written for a partition reads back.
  abbrev pub ReadsBack : Partition → Type 0
  ReadsBack p = (v : R) → g p ≡ returns v → parse (line_of (record_of p v)) ≡ some (record_of p v)

  record_of-Honest :
      (p : Partition) (v : R)
      → g p ≡ returns v
      → ((q : Partition) → task_id q ≡ task_id p → g q ≡ g p)
      → HonestRec (record_of p v)
  unfolding done_record find
  record_of-Honest p v e one blob at task q same =
      let is : content_hash (codec.encode v) ≡ blob = ap blob_of at in (v, one q same ∙ e, sym is)
    where
      blob_of : Option Json → String
      blob_of (some (text b)) = b
      blob_of _ = ""

  put-digest : (bytes : Bytes) (st : Store) → (put content_hash bytes st).0 ≡ content_hash bytes
  unfolding put
  put-digest bytes st = either _ _ _
    where
      either :
          (b : Bool) (x y : Store)
          → (if◌then◌else◌ {A = String × Store} b (content_hash bytes, x) (content_hash bytes, y)).0
            ≡ content_hash bytes
      either true x y = refl
      either false x y = refl

  -- What `record_done` makes of the journals for the partial `v` of `p`.
  committed :
      (p : Partition) (v : R) (js : Journals)
      → ReadsBack p
      → g p ≡ returns v
      → ((q : Partition) → task_id q ≡ task_id p → g q ≡ g p)
      → All (λ (j : String × Log). HonestLog j.1) js
      → All
          (λ (j : String × Log). HonestLog j.1)
          (record_done line_of parse journal_path shown
            (done_entry task_id p (content_hash (codec.encode v)))
            js)
  unfolding record_done append
  committed p v js reads e one h =
      let line = line_of (record_of p v) in
      let written : HonestLines (line ∷ []) =
        rw (read_lines-one line_of parse line (record_of p v) (reads v e))
          (record_of-Honest p v e one, tt) in
      set-Honest journal_path (append_to line_of parse (find journal_path js) line) js
        (found-Honest journal_path js h line written) h

  -- A `Store` keeps to what runs rely on, if the tasks' ids tell apart partitions whose work differs.
  pub local_store-Keeps :
      ((p q : Partition) → task_id q ≡ task_id p → g q ≡ g p)
      → Keeps
          (local_store content_hash line_of parse shown journal_path)
          codec
          task_id
          work
          content_hash
          g
          ReadsBack
          TrustedRoot
  local_store-Keeps one = record {
    honest = λ root h p e at. completed-Honest root h (task_id p) e at p refl;
    get_keeps = λ digest root h. h;
    dead_keeps = λ letter root h. h;
    done_keeps = λ p v root k e h.
        subst
          (λ d.
            All (λ (j : String × Log). HonestLog j.1)
              (record_done line_of parse journal_path shown (done_entry task_id p d) root.journals))
          (sym (put-digest (codec.encode v) root.blobs))
          (committed p v root.journals k e (one p) h);
  }
