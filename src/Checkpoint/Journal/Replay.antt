-- ===== src/Checkpoint/Journal/Replay.antt =====
-- What a replay of the journals says.
use graphed.Prelude.{
  String, ◌≡◌, ◌≢◌, refl, ap, Bool, true, false, Option, none, some, List, [], ◌∷◌, ◌++◌, arith,
  eq_iff, Bool-cases, inl, inr, append-nil,
}
use graphed.Prelude.Text.{str_eq, str_leb}
use graphed.Prelude.Sorting.{sorted}
use graphed.Prelude.Dict.{find, set, find-set, find-set_ne}
use graphed.Checkpoint.Journal.{
  Json, text, Rec, JournalEntry, Completed, entry_of, keep, replay_blob, replay_from, replay,
  done_record, Journals, record_done, completed, read_lines, read_all,
}

-- Every entry is under its own task's id, and its blob is present.
pub record IsSound (present : String → Bool) (c : Completed) : Type 0 where
  pub each :
      (task : String) (e : JournalEntry)
      → find task c.done ≡ some e
      → (e.task_id ≡ task) × (present e.blob ≡ true)

module _ (present : String → Bool) where
  keep-IsSound :
      (e : JournalEntry) (c : Completed)
      → present e.blob ≡ true
      → IsSound present c
      → IsSound present (keep e c)
  keep-IsSound e c p h = elim (Bool-cases (str_eq e.stage "environment")) [
    | inl env ↦ rw env (record { each = h.each })
    | inr task ↦ rw task (record { each = set_sound })
  ]
    where
      set_sound :
          (task : String) (e' : JournalEntry)
          → find task (set e.task_id e c.done) ≡ some e'
          → (e'.task_id ≡ task) × (present e'.blob ≡ true)
      set_sound task e' at = elim (Bool-cases (str_eq e.task_id task)) [
        | inl same ↦
            let here : e.task_id ≡ task = (eq_iff e.task_id task).0 same in
            let got : some e ≡ some e' = cc (at, here, find-set e.task_id e c.done) in
            let it : e ≡ e' = cc got in (cc (it, here), cc (it, p))
        | inr differ ↦
            let ne : task ≢ e.task_id =
              λ q. absurd (ground (arith, q, differ, eq_iff e.task_id task)) in
            h.each task e' (cc (at, find-set_ne task e.task_id e c.done ne))
      ]

  replay_blob-IsSound :
      (o : Option Json) (rec : Rec) (c : Completed)
      → IsSound present c
      → IsSound present (replay_blob present o rec c)
  replay_blob-IsSound none rec c h = h
  replay_blob-IsSound (some (text blob)) rec c h = elim (Bool-cases (present blob)) [
    | inl here ↦ rw here (keep-IsSound (entry_of blob rec) c here h)
    | inr gone ↦ rw gone h
  ]
  replay_blob-IsSound (some _) rec c h = h

  replay_from-IsSound :
      (c : Completed) (records : List Rec)
      → IsSound present c
      → IsSound present (replay_from present c records)
  unfolding replay_from
  replay_from-IsSound c [] h = h
  replay_from-IsSound c (rec ∷ records) h =
      replay_from-IsSound (replay_blob present (find "blob" rec) rec c) records
        (replay_blob-IsSound (find "blob" rec) rec c h)

  replay-IsSound : (records : List Rec) → IsSound present (replay present records)
  unfolding replay find
  replay-IsSound records =
      replay_from-IsSound (record { done = []; environments = [] }) records
        (record { each = nothing })
    where
      nothing :
          (task : String) (e : JournalEntry)
          → find task [] ≡ some e
          → (e.task_id ≡ task) × (present e.blob ≡ true)
      nothing task e at = absurd (cc at)

  replay_from-append :
      (c : Completed) (a b : List Rec)
      → replay_from present c (a ++ b) ≡ replay_from present (replay_from present c a) b
  unfolding replay_from
  replay_from-append c [] b = refl
  replay_from-append c (rec ∷ a) b =
      replay_from-append (replay_blob present (find "blob" rec) rec c) a b

entry_fields :
    (shown : List String → String) (task partition blob stage : String) (deps : List String)
    → let e : JournalEntry = record {
      task_id = task;
      partition = partition;
      blob = blob;
      stage = stage;
      deps = deps;
    } in
      entry_of blob (done_record shown e) ≡ e
unfolding done_record find
entry_fields shown task partition blob stage [] = elim (Bool-cases (str_eq stage "")) [
  | inl empty ↦ let is : stage ≡ "" = (eq_iff stage "").0 empty in rw is refl
  | inr full ↦ rw full refl
]
entry_fields shown task partition blob stage (d ∷ deps) = elim (Bool-cases (str_eq stage "")) [
  | inl empty ↦ let is : stage ≡ "" = (eq_iff stage "").0 empty in rw is refl
  | inr full ↦ rw full refl
]

-- A replay of the record that `record_done` wrote keeps its entry.
replay_done :
    (present : String → Bool) (shown : List String → String) (e : JournalEntry) (c : Completed)
    → present e.blob ≡ true
    → replay_from present c (done_record shown e ∷ []) ≡ keep e c
unfolding replay_from done_record find
replay_done present shown e c here =
    rw here (ap (λ e'. keep e' c) (entry_fields shown e.task_id e.partition e.blob e.stage e.deps))

module _ (line_of : Rec → String) (parse : String → Option Rec) where
  pub read_lines-append :
      (a b : List String)
      → read_lines line_of parse (a ++ b) ≡ read_lines line_of parse a ++ read_lines line_of parse b
  unfolding read_lines
  read_lines-append [] b = refl
  read_lines-append (l ∷ a) b = go (parse l) (read_lines-append a b)
    where
      go :
          (o : Option Rec)
          → read_lines line_of parse (a ++ b)
            ≡ read_lines line_of parse a ++ read_lines line_of parse b
          → (elim o [
            | none ↦ read_lines line_of parse (a ++ b)
            | some rec ↦ rec ∷ read_lines line_of parse (a ++ b)
          ])
            ≡ (elim o [
              | none ↦ read_lines line_of parse a
              | some rec ↦ rec ∷ read_lines line_of parse a
            ])
              ++ read_lines line_of parse b
      go none ih = ih
      go (some rec) ih = ap (λ l. rec ∷ l) ih

  pub read_lines-one :
      (line : String) (rec : Rec)
      → parse line ≡ some rec
      → read_lines line_of parse (line ∷ []) ≡ rec ∷ []
  unfolding read_lines
  read_lines-one line rec h = rw (read_lines, h) refl

  -- The journal of a store with one writer, whose last line is whole.
  abbrev pub one_journal : String → List String → Journals
  one_journal path lines = (path, record { lines = lines; torn = none }) ∷ []

  completed-one :
      (present : String → Bool) (path : String) (lines : List String)
      → completed line_of parse present (one_journal path lines)
        ≡ replay present (read_lines line_of parse lines)
  unfolding completed sorted
  completed-one present path lines = rw (append-nil (read_lines line_of parse lines)) refl

  record_done-one :
      (path : String) (shown : List String → String) (e : JournalEntry) (lines : List String)
      → record_done line_of parse path shown e (one_journal path lines)
        ≡ one_journal path (lines ++ line_of (done_record shown e) ∷ [])
  unfolding record_done find set
  record_done-one path shown e lines = rw ((eq_iff path path).1 refl) refl

-- The tasks that a store's journals name as completed: each under its own id, and each with a blob
-- that is present, whatever the lines of the journals are.
pub completed-IsSound :
    (line_of : Rec → String) (parse : String → Option Rec) (has_blob : String → Bool)
    (journals : Journals)
    → IsSound has_blob (completed line_of parse has_blob journals)
unfolding completed
completed-IsSound line_of parse has_blob journals =
    replay-IsSound has_blob (read_all line_of parse (sorted (λ a b. str_leb a.0 b.0) journals))

-- In a store with one journal, whose last line is whole: after `record_done` of a task of a stage
-- that is not "environment", whose blob is present and whose record reads back, the journal names that
-- task as completed with exactly the entry recorded, whatever it said of the task before, and says of
-- every other task what it said before. Lines before the end may be damaged.
pub completed-record_done :
    (line_of : Rec → String) (parse : String → Option Rec) (has_blob : String → Bool)
    (path : String) (lines : List String) (shown : List String → String) (e : JournalEntry)
    → parse (line_of (done_record shown e)) ≡ some (done_record shown e)
    → has_blob e.blob ≡ true
    → e.stage ≢ "environment"
    → let before : Completed =
        completed line_of parse has_blob (one_journal line_of parse path lines) in
      let after : Completed =
        completed line_of parse has_blob
          (record_done line_of parse path shown e (one_journal line_of parse path lines)) in
      (find e.task_id after.done ≡ some e)
      × ((task : String) → task ≢ e.task_id → find task after.done ≡ find task before.done)
unfolding replay
completed-record_done line_of parse has_blob path lines shown e reads here ne =
    let start : Completed = record { done = []; environments = [] } in
    let before = read_lines line_of parse lines in
    let task : str_eq e.stage "environment" ≡ false =
      ground (arith, ne, eq_iff e.stage "environment") in
    rw
      (
        record_done-one line_of parse path shown e lines,
        completed-one line_of parse has_blob path lines,
        completed-one line_of parse has_blob path (lines ++ line_of (done_record shown e) ∷ []),
        read_lines-append line_of parse lines (line_of (done_record shown e) ∷ []),
        read_lines-one line_of parse (line_of (done_record shown e)) (done_record shown e) reads,
        replay_from-append has_blob start before (done_record shown e ∷ []),
        replay_done has_blob shown e (replay_from has_blob start before) here,
        task,
      )
      (find-set e.task_id e _, λ t other. find-set_ne t e.task_id e _ other)
