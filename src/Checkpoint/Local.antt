-- ===== src/Checkpoint/Local.antt =====
-- `Store` of checkpoint/store.py as a `CheckpointStore`: its blobs, its journals and its dead
-- letters. The hash, JSON's reading and writing of a line, and the `str` of a list are parameters.
pub mod Trusted
pub mod Killed
use graphed.Prelude.{String, ◌≡◌, refl, Option, some, List, [], ◌∷◌, ◌++◌}
use graphed.Prelude.Dict.{find}
use graphed.Outcome.{DeadLetter}
use graphed.Checkpoint.Blobs.{Bytes, Store, has_blob, put, get}
use graphed.Checkpoint.Blobs.Healing.{get-some}
use graphed.Checkpoint.Journal.{Rec, Journals, record_done, completed}
use graphed.Checkpoint.Protocol.{CheckpointStore}

-- What is under the root directory, with the instance's `_bad`.
pub record Root : Type 0 where
  pub blobs : Store
  pub journals : Journals
  pub dead : List DeadLetter

module _ (content_hash : Bytes → String) (line_of : Rec → String) (parse : String → Option Rec)
    (shown : List String → String) (journal_path : String) where
  abbrev pub local_store : CheckpointStore Root
  local_store = record {
    put = λ bytes root.
        let (digest, blobs) = put content_hash bytes root.blobs in
        (digest, record root { blobs = blobs });
    get = λ digest root.
        let (served, blobs) = get content_hash digest root.blobs in
        (served, record root { blobs = blobs });
    record_done = λ entry root. record root {
      journals = record_done line_of parse journal_path shown entry root.journals;
    };
    completed = λ root. completed line_of parse (has_blob root.blobs) root.journals;
    record_dead = λ letter root. record root { dead = root.dead ++ letter ∷ [] };
    dead_letters = λ root. root.dead;
  }

  pub local_store-get :
      (digest : String) (root : Root) (x : Bytes)
      → (local_store.get digest root).0 ≡ some x
      → content_hash x ≡ digest
  local_store-get digest root x h =
      get-some content_hash digest root.blobs x (find digest root.blobs.objects) refl h
