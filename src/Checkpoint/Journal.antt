-- ===== src/Checkpoint/Journal.antt =====
-- The journals of completed tasks: `_done_record`, `_replay`, `_parse_record`, `record_done` and
-- `completed`. A line stands for its text without the newline, and what JSON makes of a line is a
-- parameter: nothing, for a line that it does not read.
pub mod Replay
use graphed.Prelude.{
  ℕ, String, Bool, true, false, Option, none, some, List, [], ◌∷◌, ◌++◌, map, if◌then◌else◌,
}
use graphed.Prelude.Text.{concat, str_eq, str_leb}
use graphed.Prelude.Sorting.{sorted}
use graphed.Prelude.Dict.{find, set}

-- A value in a record, as `_replay` tells them apart: a text, a list with its items' `str`, or any
-- other value with its `str`. A list's own `str` stands beside the items'.
pub data Json : Type 0 where
  text : String → Json
  items : (shown : String) → List String → Json
  other : (shown : String) → Json

-- `str(value)`
abbrev pub str : Json → String
str (text s) = s
str (items shown _) = shown
str (other shown) = shown

abbrev pub Rec : Type 0
Rec = List (String × Json)

pub record JournalEntry : Type 0 where
  pub task_id : String
  pub partition : String
  pub blob : String
  pub stage : String
  pub deps : List String

-- `Completed`: the entries by task, and the environment records beside them
pub record Completed : Type 0 where
  pub done : List (String × JournalEntry)
  pub environments : List JournalEntry

-- `str(rec.get(key, ""))`
abbrev str_or_empty : Option Json → String
str_or_empty none = ""
str_or_empty (some v) = str v

abbrev deps_of : Option Json → List String
deps_of (some (items _ deps)) = deps
deps_of _ = []

abbrev pub entry_of : String → Rec → JournalEntry
entry_of blob rec = record {
  task_id = str_or_empty (find "task_id" rec);
  partition = str_or_empty (find "partition" rec);
  blob = blob;
  stage = str_or_empty (find "stage" rec);
  deps = deps_of (find "deps" rec);
}

-- The two branches for an entry whose blob is present.
abbrev pub keep : JournalEntry → Completed → Completed
keep entry c =
    if str_eq entry.stage "environment"
    then record c { environments = c.environments ++ entry ∷ [] }
    else record c { done = set entry.task_id entry c.done }

module _ (present : String → Bool) where
  abbrev pub replay_blob : Option Json → Rec → Completed → Completed
  replay_blob (some (text blob)) rec c = if present blob then keep (entry_of blob rec) c else c
  replay_blob _ rec c = c

  -- The `for rec in records` loop of `_replay`.
  unfoldable pub replay_from : Completed → List Rec → Completed
  replay_from c [] = c
  replay_from c (rec ∷ records) = replay_from (replay_blob (find "blob" rec) rec c) records

  -- `_replay`
  unfoldable pub replay : List Rec → Completed
  unfolding replay_from
  replay = replay_from (record { done = []; environments = [] })

abbrev pub with_stage : String → Rec
with_stage stage = if str_eq stage "" then [] else ("stage", text stage) ∷ []

abbrev with_deps : (List String → String) → List String → Rec
with_deps shown [] = []
with_deps shown deps = ("deps", items (shown deps) deps) ∷ []

-- `_done_record`; `shown` is the `str` of the list
unfoldable pub done_record : (List String → String) → JournalEntry → Rec
done_record shown e =
    ("task_id", text e.task_id)
      ∷ ("partition", text e.partition)
      ∷ ("blob", text e.blob)
      ∷ with_stage e.stage
    ++ with_deps shown e.deps

-- What stands in a journal: its whole lines, and what an interrupted append left after them, with no
-- newline at its end.
pub record Log : Type 0 where
  pub lines : List String
  pub torn : Option String

-- `for line in f`: the rest that was torn is the last line.
abbrev lines_and : List String → Option String → List String
lines_and lines none = lines
lines_and lines (some rest) = lines ++ rest ∷ []

abbrev pub all_lines : Log → List String
all_lines log = lines_and log.lines log.torn

-- The journals by file name.
abbrev pub Journals : Type 0
Journals = List (String × Log)

module _ (line_of : Rec → String) (parse : String → Option Rec) where
  -- `_read_lines`
  unfoldable pub read_lines : List String → List Rec
  read_lines [] = []
  read_lines (line ∷ lines) = elim (parse line) [
    | none ↦ read_lines lines
    | some rec ↦ rec ∷ read_lines lines
  ]

  unfoldable pub read_all : Journals → List Rec
  unfolding read_lines
  read_all [] = []
  read_all ((_, log) ∷ journals) = read_lines (all_lines log) ++ read_all journals

  -- `Store.completed`
  unfoldable pub completed : (String → Bool) → Journals → Completed
  unfolding read_all replay
  completed has_blob journals =
      replay has_blob (read_all (sorted (λ a b. str_leb a.0 b.0) journals))

  -- What a line is written behind: it has a newline at its end and none at its start, so it goes on
  -- the line that was torn.
  abbrev after_torn : Option String → String → String
  after_torn none line = line
  after_torn (some rest) line = concat (rest ∷ line ∷ [])

  abbrev pub append_to : Option Log → String → Log
  append_to none line = record { lines = line ∷ []; torn = none }
  append_to (some log) line = record {
    lines = log.lines ++ after_torn log.torn line ∷ [];
    torn = none;
  }

  -- `_append`: the file is made if it is not there
  unfoldable pub append : String → Rec → Journals → Journals
  append path rec journals = set path (append_to (find path journals) (line_of rec)) journals

  -- `Store.record_done` of the writer whose journal is `path`
  unfoldable pub record_done : String → (List String → String) → JournalEntry → Journals → Journals
  unfolding append done_record
  record_done path shown entry = append path (done_record shown entry)
