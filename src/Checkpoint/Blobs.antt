-- ===== src/Checkpoint/Blobs.antt =====
-- `Store.put`, `Store.get` and `has_blob`: blobs under their content hash. The hash is a parameter;
-- the disk answers every call (no PermissionError), and a write is atomic, as `_atomic_write` makes
-- it.
pub mod Healing
use graphed.Prelude.{
  ℕ, String, Bool, true, false, Option, none, some, List, [], ◌∷◌, not, ◌||◌, ◌==◌, if◌then◌else◌,
  length,
}
use graphed.Prelude.Text.{str_eq}
use graphed.Prelude.Dict.{find, set}

-- The bytes of a blob.
abbrev pub Bytes : Type 0
Bytes = List ℕ

-- The blobs under `objects/`, and the digests that `get` found not to verify.
pub record Store : Type 0 where
  pub objects : List (String × Bytes)
  pub bad : List String

-- `digest in self._bad`
unfoldable pub is_bad : String → List String → Bool
is_bad digest [] = false
is_bad digest (d ∷ rest) = if str_eq d digest then true else is_bad digest rest

-- `self._bad.discard(digest)`
unfoldable pub discard : String → List String → List String
discard digest [] = []
discard digest (d ∷ rest) =
    let others = discard digest rest in if str_eq d digest then others else d ∷ others

-- `self._blob_size(digest) != len(data)`
abbrev pub other_size : Option Bytes → Bytes → Bool
other_size none bytes = true
other_size (some blob) bytes = not (length blob == length bytes)

-- `Store.has_blob`
unfoldable pub has_blob : Store → String → Bool
has_blob store digest = elim (find digest store.objects) [ none ↦ false | some _ ↦ true ]

module _ (content_hash : Bytes → String) where
  -- `Store.put`
  unfoldable pub put : Bytes → Store → String × Store
  put bytes store =
      let digest = content_hash bytes in
      if is_bad digest store.bad || other_size (find digest store.objects) bytes
      then (
        digest,
        record { objects = set digest bytes store.objects; bad = discard digest store.bad },
      )
      else (digest, store)

  -- What `get` makes of the bytes it read.
  verified : String → Option Bytes → Store → Option Bytes × Store
  verified digest none store = (none, store)
  verified digest (some bytes) store =
      if str_eq (content_hash bytes) digest
      then (some bytes, store)
      else (none, record store { bad = digest ∷ store.bad })

  -- `Store.get`
  unfoldable pub get : String → Store → Option Bytes × Store
  unfolding verified
  get digest store = verified digest (find digest store.objects) store
