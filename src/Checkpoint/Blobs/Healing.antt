-- ===== src/Checkpoint/Blobs/Healing.antt =====
-- What `get` serves, and how a damaged blob is replaced.
use graphed.Prelude.{String, ◌≡◌, refl, ◌⊎◌, true, Option, none, some, arith, eq_iff}
use graphed.Prelude.Dict.{find, set, find-set}
use graphed.Checkpoint.Blobs.{Bytes, Store, is_bad, discard, put, get}

module _ (content_hash : Bytes → String) where
  -- A blob that is absent, or was found damaged.
  abbrev pub NeedsWriting : String → Store → Type 0
  NeedsWriting digest store = (is_bad digest store.bad ≡ true) ⊎ (find digest store.objects ≡ none)

  get-none :
      (digest : String) (store : Store)
      → (get content_hash digest store).0 ≡ none
      → NeedsWriting digest (get content_hash digest store).1
  unfolding get is_bad
  get-none digest store h = ground (arith, eq_iff digest digest)

  pub get-some :
      (digest : String) (store : Store) (x : Bytes) (o : Option Bytes)
      → find digest store.objects ≡ o
      → (get content_hash digest store).0 ≡ some x
      → content_hash x ≡ digest
  unfolding get
  get-some digest store x none e h = cc
  get-some digest store x (some y) e h = ground (arith, eq_iff (content_hash y) digest)

  put_written :
      (bytes : Bytes) (store : Store)
      → NeedsWriting (content_hash bytes) store
      → (get content_hash (content_hash bytes) (put content_hash bytes store).1).0 ≡ some bytes
  unfolding get put is_bad discard find set
  put_written bytes store h = ground (
    arith,
    find-set (content_hash bytes) bytes store.objects,
    eq_iff (content_hash bytes) (content_hash bytes),
  )

-- Whatever is on disk, `get` serves bytes only under their own hash, and a blob that it does not
-- serve, because it is absent or damaged, is there again after the next `put` of the bytes: a
-- damaged blob is never served and never stays.
pub put-get_healed :
    (content_hash : Bytes → String) (bytes : Bytes) (store : Store)
    → let digest = content_hash bytes in
      let (served, store') = get content_hash digest store in
      ((x : Bytes) → served ≡ some x → content_hash x ≡ digest)
      × (served ≡ none → (get content_hash digest (put content_hash bytes store').1).0 ≡ some bytes)
unfolding get
put-get_healed content_hash bytes store = (
  λ x h.
      get-some content_hash (content_hash bytes) store x (find (content_hash bytes) store.objects)
        refl h,
  λ h. put_written content_hash bytes _ (get-none content_hash (content_hash bytes) store h),
)
