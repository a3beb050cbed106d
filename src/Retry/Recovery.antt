-- ===== src/Retry/Recovery.antt =====
-- When `RetrySmallerChunk` recovers: the pieces that a worker can take whole are reached.
use graphed.Prelude.{
  ℕ, zero, suc, ◌+◌, ◌≤◌, ◌<◌, ◌≡◌, refl, String, List, [], ◌∷◌, arith, All, inl, inr, ◌⊎◌, false,
}
use native.Mathlib.Decide.{dec_le}
use graphed.Outcome.{Raised, Exn, exception, returns, raises, Exec, except, pure, lift, ◌>>=◌}
use graphed.Outcome.Inversion.{recover_returned, recover_raised, continue_returned}
use graphed.Partition.{Partition, ranged, n_entries}
use graphed.Retry.{
  Process, Combine, retry_smaller_chunk, reduce, each_sub, process_split, split, recover_with,
}
use graphed.Retry.Pieces.{IsPart, split-Cuts}
use graphed.Retry.Splitting.{
  IsAdditive, OfFile, value_of, Answers, process_split-value, each_sub-values, reduce-values,
  parts-OfFile, gives_up,
}

module _ {ℓ} {S R : Type ℓ} (process : Process S R) (uri tree : String) (cap : ℕ) where
  -- A worker that can take `cap` entries of the file at once: it returns on every range of up to
  -- `cap` entries, and on a longer one it returns or raises an Exception.
  pub record CanTake : Type ℓ where
    pub small :
        (lo hi : ℕ) (s : S)
        → hi ≤ lo + cap
        → (r : R) × ((process (ranged uri tree lo hi) s).0 ≡ returns r)
    pub large :
        (lo hi : ℕ) (s : S)
        → ((r : R) × ((process (ranged uri tree lo hi) s).0 ≡ returns r))
          ⊎ ((e : Raised) × ((process (ranged uri tree lo hi) s).0 ≡ raises (exception e)))

  module _ (takes : CanTake) where
    -- A handler that recovers every longer range that is shorter than `bound`.
    abbrev Recovers : ℕ → (Partition → Exn → Exec S R) → Type ℓ
    Recovers bound again =
        (q : Partition) (e : Exn) (s : S)
        → q ≡ ranged uri tree q.entry_start q.entry_stop
        → cap < n_entries q
        → n_entries q < bound
        → (r : R) × ((again q e s).0 ≡ returns r)

    sub-Recovers :
        (bound : ℕ) (again : Partition → Exn → Exec S R) (q : Partition) (s : S)
        → Recovers bound again
        → q ≡ ranged uri tree q.entry_start q.entry_stop
        → n_entries q < bound
        → (r : R) × ((except (process q) (again q) s).0 ≡ returns r)
    unfolding n_entries
    sub-Recovers bound again q s recovers of_file short =
        elim (dec_le q.entry_stop (q.entry_start + cap)) [
          | yes fits ↦
              let (r, done) = takes.small q.entry_start q.entry_stop s fits in
              (r, recover_returned (process q s) (again q) (rw (← of_file) at done))
          | no long ↦ elim (takes.large q.entry_start q.entry_stop s) [
            | inl (r, done) ↦ (r, recover_returned (process q s) (again q) (rw (← of_file) at done))
            | inr (x, failed) ↦
                let caught = recover_raised (process q s) (again q) (rw (← of_file) at failed) in
                let (r, done) =
                  recovers q (exception x) (process q s).1 of_file (omega arith) short in
                (r, rw caught done)
          ]
        ]

    each_sub-Recovers :
        (bound : ℕ) (again : Partition → Exn → Exec S R) (ps : List Partition) (s : S)
        → Recovers bound again
        → All (OfFile uri tree) ps
        → All (λ q. n_entries q < bound) ps
        → (rs : List R) × ((each_sub process again ps s).0 ≡ returns rs)
    unfolding each_sub
    each_sub-Recovers bound again [] s recovers files short = ([], refl)
    each_sub-Recovers bound again (q ∷ qs) s recovers files short =
        let first = except (process q) (again q) s in
        let (r, got) = sub-Recovers bound again q s recovers files.0 short.0 in
        let (rest, got') = each_sub-Recovers bound again qs first.1 recovers files.1 short.1 in
        let go_on =
          continue_returned first (λ r. each_sub process again qs >>= λ rest. pure (r ∷ rest))
            got in
        let go_on' =
          continue_returned (each_sub process again qs first.1) (λ rest. pure (r ∷ rest)) got' in
        (r ∷ rest, rw go_on (rw go_on' refl))

    parts_shorter :
        (p : Partition) (ps : List Partition)
        → All (IsPart p) ps
        → All (λ q. n_entries q < n_entries p) ps
    parts_shorter p [] h = tt
    parts_shorter p (q ∷ ps) h = (h.0.shorter, parts_shorter p ps h.1)

    module _ (combine : Combine R) (value : ℕ → ℕ → R)
        (additive : IsAdditive process combine uri tree value) (splits min_size : ℕ) (one : 1 ≤ cap)
        (reaches : min_size ≤ cap) where
      abbrev again_from : ℕ → Partition → Exn → Exec S R
      again_from = process_split splits min_size process combine

      split_recovers :
          (fuel : ℕ) (p : Partition) (error : Exn) (s : S)
          → OfFile uri tree p
          → cap < n_entries p
          → n_entries p ≤ fuel
          → (r : R) × ((again_from fuel p error s).0 ≡ returns r)
      unfolding process_split
      split_recovers zero p error s of_file long enough = absurd (omega arith)
      split_recovers (suc fuel) p error s of_file long enough =
          let subs = split p splits in
          let (cuts, count) = split-Cuts p splits (omega arith) in
          let files = parts-OfFile process combine uri tree value additive p subs of_file cuts.1 in
          let shorter = parts_shorter p subs cuts.1 in
          let again : Recovers (n_entries p) (again_from fuel) = λ q e s' of_file' long' short'.
            split_recovers fuel q e s' of_file' long' (omega arith) in
          let (rs, got) =
            each_sub-Recovers (n_entries p) (again_from fuel) subs s again files shorter in
          let answers : Answers process combine uri tree value additive (again_from fuel) =
            process_split-value process combine uri tree value additive splits min_size fuel in
          let values =
            each_sub-values process combine uri tree value additive (again_from fuel) subs s rs
              answers files got in
          let goes_on : gives_up splits min_size p ≡ false = ground (arith, count) in
          let joined =
            reduce-values process combine uri tree value additive p.entry_start p.entry_stop subs
              (omega (arith, count)) cuts.0 in
          (
            value_of value p,
            rw goes_on (
                rw
                  (continue_returned (each_sub process (again_from fuel) subs s)
                    (λ partials. lift (reduce combine partials)) got)
                  (rw values joined)),
          )

-- `RetrySmallerChunk` never changes the answer: where partial results over adjacent ranges join to
-- the result over their union, and `process` computes that result whenever it returns, what
-- `recover` returns for a partition is the result over the whole partition, whatever failed in
-- between and however often it split.
pub retry_smaller_chunk_sound {ℓ} :
    {S R : Type ℓ} (process : Process S R) (combine : Combine R) (uri tree : String)
    (value : ℕ → ℕ → R) (splits min_size : ℕ) (p : Partition) (error : Exn) (s : S) {r : R}
    → IsAdditive process combine uri tree value
    → OfFile uri tree p
    → (recover_with (retry_smaller_chunk splits min_size) process combine p error s).0 ≡ returns r
    → r ≡ value_of value p
unfolding recover_with
retry_smaller_chunk_sound process combine uri tree value splits min_size p error s additive of_file
      e =
    process_split-value process combine uri tree value additive splits min_size (n_entries p) p
      error s _ of_file e

-- A partition too long to be processed at once succeeds when it is split: if the worker takes every
-- range of up to `cap` entries and answers longer ones with a value or an Exception, and `min_size`
-- is no larger than `cap`, then for a partition of more than `cap` entries `recover` terminates and
-- returns the result over the whole partition.
pub retry_smaller_chunk_recovers {ℓ} :
    {S R : Type ℓ} (process : Process S R) (combine : Combine R) (uri tree : String)
    (value : ℕ → ℕ → R) (cap splits min_size : ℕ) (p : Partition) (error : Exn) (s : S)
    → IsAdditive process combine uri tree value
    → CanTake process uri tree cap
    → 1 ≤ cap
    → min_size ≤ cap
    → OfFile uri tree p
    → cap < n_entries p
    → (recover_with (retry_smaller_chunk splits min_size) process combine p error s).0
      ≡ returns (value_of value p)
unfolding recover_with
retry_smaller_chunk_recovers process combine uri tree value cap splits min_size p error s additive
      takes one reaches of_file long =
    let (r, done) =
      split_recovers process uri tree cap takes combine value additive splits min_size one reaches
        (n_entries p) p error s of_file long (omega arith) in
    let right =
      process_split-value process combine uri tree value additive splits min_size (n_entries p) p
        error s r of_file done in
    rw (← right) done
