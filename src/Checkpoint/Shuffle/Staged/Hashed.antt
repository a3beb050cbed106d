-- ===== src/Checkpoint/Shuffle/Staged/Hashed.antt =====
-- Blocks as payloads with their content hashes.
use graphed.Prelude.{ℕ, zero, suc, String, ◌≡◌, refl, sym, ap, ◌∙◌, List, [], ◌∷◌, ◌++◌, map}
use graphed.Outcome.{Outcome, returns, raises, hangs, and_then}
use graphed.Checkpoint.Blobs.{Bytes}
use graphed.Checkpoint.Shuffle.{Blocks, blocks_at, upstream, StageProgress, with_block}
use graphed.Checkpoint.Shuffle.Staged.{payloads_at, inputs_of}

module _ (content_hash : Bytes → String) where
  -- Blocks are payloads with their hashes.
  abbrev pub blocks_of : List Bytes → Blocks
  blocks_of ps = record { payloads = ps; hashes = map content_hash ps }

  map_append :
      (xs ys : List Bytes)
      → map content_hash (xs ++ ys) ≡ map content_hash xs ++ map content_hash ys
  map_append [] ys = refl
  map_append (x ∷ xs) ys = ap (λ l. content_hash x ∷ l) (map_append xs ys)

  pub at_blocks :
      (ran : List (List Bytes)) (n : ℕ)
      → blocks_at (map blocks_of ran) n ≡ and_then (payloads_at ran n) (λ p. returns (blocks_of p))
  at_blocks [] n = refl
  at_blocks (p ∷ ran) zero = refl
  at_blocks (p ∷ ran) (suc n) = at_blocks ran n

  pub upstream_lem :
      (ran : List (List Bytes)) (inputs : List ℕ)
      → upstream (map blocks_of ran) inputs
        ≡ and_then (inputs_of ran inputs) (λ up. returns (blocks_of up))
  unfolding upstream
  upstream_lem ran [] = refl
  upstream_lem ran (dep ∷ inputs) =
      rw (at_blocks ran dep, upstream_lem ran inputs)
        (joined (payloads_at ran dep) (inputs_of ran inputs))
    where
      joined :
          (a b : Outcome (List Bytes))
          → and_then (and_then a (λ p. returns (blocks_of p))) (λ x.
            and_then (and_then b (λ up. returns (blocks_of up))) (λ rest. returns (record {
              payloads = x.payloads ++ rest.payloads;
              hashes = x.hashes ++ rest.hashes;
            })))
            ≡ and_then
                (and_then a (λ p. and_then b (λ rest. returns (p ++ rest))))
                (λ up. returns (blocks_of up))
      joined (returns p) (returns q) =
          ap (λ h. returns (record { payloads = p ++ q; hashes = h })) (sym (map_append p q))
      joined (returns p) (raises e) = refl
      joined (returns p) hangs = refl
      joined (raises e) b = refl
      joined hangs b = refl

  pub with_block_lem :
      (pr : StageProgress) (this : List Bytes) (p : Bytes) (hash : String)
      → pr.this ≡ blocks_of this
      → hash ≡ content_hash p
      → (with_block pr p hash).this ≡ blocks_of (this ++ p ∷ [])
  with_block_lem pr this p hash at h =
      ap (λ (b : Blocks). added b hash) at
      ∙ ap (λ k. added (blocks_of this) k) h
      ∙ ap (λ l. make (this ++ p ∷ []) l) (sym (map_append this (p ∷ [])))
    where
      make : List Bytes → List String → Blocks
      make ps hs = record { payloads = ps; hashes = hs }

      added : Blocks → String → Blocks
      added b k = record { payloads = b.payloads ++ p ∷ []; hashes = b.hashes ++ k ∷ [] }

  pub map_snoc :
      (ran : List (List Bytes)) (this : List Bytes)
      → map blocks_of ran ++ blocks_of this ∷ [] ≡ map blocks_of (ran ++ this ∷ [])
  map_snoc [] this = refl
  map_snoc (p ∷ ran) this = ap (λ l. blocks_of p ∷ l) (map_snoc ran this)
