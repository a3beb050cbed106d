-- ===== src/Failures/Labels.antt =====
-- The labels and dead letters of a failed chunk: `partition_label`, `chunk_label`,
-- `dead_letter_descriptor`, `_failed_chunk` and `TooManyFailedChunksError.__str__`.
use Prim.Native.Char.{Char, code}
use graphed.Prelude.{
  ℕ, ◌+◌, String, Option, none, some, List, [], ◌∷◌, map, ◌==◌, if◌then◌else◌, length,
}
use graphed.Prelude.Text.{concat, join, repr, show, str_eq}
use graphed.Outcome.{
  StageError, DeadLetter, FailedChunk, Exn, exception, too_many_failed, unbound_services, interrupt,
  Outcome, returns, and_then, counted,
}
use graphed.Partition.{Partition, is_blind, resolve}

failed_lines : List FailedChunk → List String
failed_lines [] = []
failed_lines (f ∷ rest) = "\n  " ∷ f.partition ∷ ": " ∷ f.error ∷ failed_lines rest

-- `TooManyFailedChunksError.__str__`
unfoldable pub too_many_failed_str : List FailedChunk → String
unfolding failed_lines counted
too_many_failed_str failed =
    concat (counted (length failed) "chunk" ∷ " failed:" ∷ failed_lines failed)

-- `type(exc).__name__`
unfoldable pub type_name : Exn → String
type_name (exception x) = x.type_name
type_name (too_many_failed _) = "TooManyFailedChunksError"
type_name (unbound_services _) = "UnboundServiceError"
type_name (interrupt x) = x.type_name

endpoints_of : List String → List String
endpoints_of [] = []
endpoints_of (name ∷ names) =
    concat (repr name ∷ ": 'scheme://host:port'" ∷ []) ∷ endpoints_of names

-- The text that `UnboundServiceError.__init__` gives its base class.
unfoldable pub unbound_str : List String → String
unfolding endpoints_of
unbound_str names =
    let listed = join ", " (map repr names) in
    let endpoints = join ", " (endpoints_of names) in
    let has =
      if length names == 1
      then concat ("service " ∷ listed ∷ " has" ∷ [])
      else concat ("services " ∷ listed ∷ " have" ∷ []) in
    concat (
      has ∷ " no endpoint: bind with graphed.services.bind_services(plan, {" ∷ endpoints
      ∷ "}), or run the plan through an executor that resolves Plan.services" ∷ [])

-- `str(exc)`
unfoldable pub str_of : Exn → String
unfolding too_many_failed_str unbound_str
str_of (exception x) = x.message
str_of (too_many_failed failed) = too_many_failed_str failed
str_of (unbound_services names) = unbound_str names
str_of (interrupt x) = x.message

-- The `stage_error` entry: only an error with `op` and `frames` has one.
abbrev stage_error_of : Exn → Option StageError
stage_error_of (exception x) = x.stage_error
stage_error_of (interrupt x) = x.stage_error
stage_error_of _ = none

unfoldable pub dead_letter_descriptor : String → Partition → Exn → DeadLetter
unfolding type_name str_of
dead_letter_descriptor task_id p exc = record {
  task_id = task_id;
  uri = p.uri;
  tree = p.tree;
  entry_start = p.entry_start;
  entry_stop = p.entry_stop;
  error_type = type_name exc;
  error_message = str_of exc;
  stage_error = stage_error_of exc;
}

-- `_failed_chunk`
unfoldable pub failed_chunk : String → Partition → Exn → FailedChunk
unfolding dead_letter_descriptor
failed_chunk label p exc = record {
  partition = label;
  error = concat (type_name exc ∷ ": " ∷ str_of exc ∷ []);
  letter = dead_letter_descriptor label p exc;
}

-- An optional number in an f-string.
show_option : Option ℕ → String
show_option none = "None"
show_option (some n) = show n

label_of_step : Partition → Option ℕ → String
unfolding show_option
label_of_step p (some step) =
    concat (p.uri ∷ ":" ∷ p.tree ∷ ":" ∷ show step ∷ "/" ∷ show_option p.blind_n_steps ∷ [])
label_of_step p none =
    concat (p.uri ∷ ":" ∷ p.tree ∷ ":" ∷ show p.entry_start ∷ "-" ∷ show p.entry_stop ∷ [])

unfoldable pub partition_label : Partition → String
unfolding label_of_step
partition_label p = label_of_step p p.blind_step

-- `tree.strip("/")`, from the left and from the right
strip_left : String → String
strip_left String.[] = ""
strip_left (String.◌∷◌ c s) = if code c == b'/' then strip_left s else String.◌∷◌ c s

drop_slash : Char → String → String
drop_slash c String.[] = if code c == b'/' then "" else String.◌∷◌ c String.[]
drop_slash c s = String.◌∷◌ c s

strip_right : String → String
unfolding drop_slash
strip_right String.[] = ""
strip_right (String.◌∷◌ c s) = drop_slash c (strip_right s)

-- `.partition(";")[0]`
before_semicolon : String → String
before_semicolon String.[] = ""
before_semicolon (String.◌∷◌ c s) =
    let rest = before_semicolon s in if code c == b';' then "" else String.◌∷◌ c rest

-- The part of `chunk_label` that every label begins with.
chunk_name : Partition → String
unfolding strip_left strip_right before_semicolon
chunk_name p =
    let tree = before_semicolon (strip_right (strip_left p.tree)) in
    if str_eq tree "" then p.uri else concat (p.uri ∷ ":" ∷ tree ∷ [])

with_entries : String → Partition → String
with_entries head p =
    concat (head ∷ " (entries " ∷ show p.entry_start ∷ "-" ∷ show p.entry_stop ∷ ")" ∷ [])

-- `cast(int, partition.blind_step) + 1`
abbrev step_number : Option ℕ → ℕ
step_number none = 0
step_number (some step) = step + 1

step_label : Partition → String
unfolding chunk_name show_option
step_label p = concat (
    "chunk "
    ∷ show (step_number p.blind_step)
    ∷ "/"
    ∷ show_option p.blind_n_steps
    ∷ " of "
    ∷ chunk_name p
    ∷ [])

sized_label : Partition → Option ℕ → Option ℕ → Outcome String
unfolding step_label with_entries
sized_label p (some file_entries) rows =
    and_then (resolve p file_entries) (λ known. returns (with_entries (step_label p) known))
sized_label p none none = returns (step_label p)
sized_label p none (some rows) =
    returns (concat (step_label p ∷ " (" ∷ show rows ∷ " entries)" ∷ []))

-- `chunk_label(partition, file_entries=…, rows=…)`; resolving a blind partition may raise
unfoldable pub chunk_label : Partition → Option ℕ → Option ℕ → Outcome String
unfolding sized_label with_entries chunk_name
chunk_label p file_entries rows =
    if is_blind p then sized_label p file_entries rows else returns (with_entries (chunk_name p) p)

-- `chunk_label(partition)`: with neither keyword it is a plain text
unfoldable pub chunk_key : Partition → String
unfolding step_label with_entries chunk_name
chunk_key p = if is_blind p then step_label p else with_entries (chunk_name p) p
