-- ===== src/Retry.antt =====
-- checkpoint/retry.py: what a runner does with a partition whose `process` raised. A process and
-- the policies are actions on the worker's resources `S`; `combine` may raise too.
pub mod Pieces
pub mod Splitting
pub mod Recovery
pub mod Attempts
use graphed.Prelude.{
  ℕ, zero, suc, ◌+◌, ◌*◌, ◌/◌, min, max, Bool, Option, none, some, List, [], ◌∷◌, ◌++◌, map, ltb,
  leb, ◌||◌, if◌then◌else◌, length,
}
use graphed.Prelude.Ranges.{range}
use graphed.Outcome.{
  Exn, Outcome, returns, raises, hangs, Exec, pure, raise, lift, except, type_error, and_then,
  ◌>>=◌,
}
use graphed.Partition.{Partition, ranged, n_entries}

-- The loop over `range(n)` in `_split`, on the successive pairs of `bounds`.
unfoldable pub pieces : Partition → List ℕ → List Partition
pieces p (lo ∷ hi ∷ bounds) =
    let rest = pieces p (hi ∷ bounds) in
    if ltb lo hi then ranged p.uri p.tree lo hi ∷ rest else rest
pieces p _ = []

-- `_split`
unfoldable pub split : Partition → ℕ → List Partition
split p n =
    let total = n_entries p in
    if leb total 1
    then p ∷ []
    else let n' = max 2 (min n total) in
      let size = total / n' in
      pieces p (map (λ i. p.entry_start + i * size) (range 0 n') ++ p.entry_stop ∷ [])

-- `process(partition, resources)`
abbrev pub Process {ℓ} : Type ℓ → Type ℓ → Type ℓ
Process S R = Partition → Exec S R

abbrev pub Combine {ℓ} : Type ℓ → Type ℓ
Combine R = R → R → Outcome R

module _ {ℓ} {R : Type ℓ} where
  unfoldable pub reduce_from : Combine R → R → List R → Outcome R
  reduce_from combine acc [] = returns acc
  reduce_from combine acc (r ∷ rest) =
      and_then (combine acc r) (λ acc'. reduce_from combine acc' rest)

  -- `functools.reduce(combine, partials)`
  unfoldable pub reduce : Combine R → List R → Outcome R
  unfolding reduce_from
  reduce combine [] = raises (type_error "reduce() of empty iterable with no initial value")
  reduce combine (r ∷ rest) = reduce_from combine r rest

module _ {ℓ} {S R : Type ℓ} where
  -- The loop over `subs` in `_process_split`; `again` handles a sub-range that failed.
  unfoldable pub each_sub :
      Process S R → (Partition → Exn → Exec S R) → List Partition → Exec S (List R)
  each_sub process again [] = pure []
  each_sub process again (sub ∷ subs) = except (process sub) (again sub) >>= λ r.
      each_sub process again subs >>= λ rest. pure (r ∷ rest)

  -- `RetrySmallerChunk._process_split`, `n_entries` rounds deep at most.
  unfoldable pub process_split : ℕ → ℕ → Process S R → Combine R → ℕ → Partition → Exn → Exec S R
  process_split splits min_size process combine zero p error = raise error
  process_split splits min_size process combine (suc fuel) p error =
      let again = process_split splits min_size process combine fuel in
      let subs = split p splits in
      if leb (length subs) 1 || leb (n_entries p) min_size
      then raise error
      else each_sub process again subs >>= λ partials. lift (reduce combine partials)

  -- The `for _ in range(n)` loop of `RetryN` and `RetryElsewhere`, from attempt `i` on.
  unfoldable pub attempts : (ℕ → Exec S R) → ℕ → ℕ → Exn → Exec S R
  attempts try i zero last = raise last
  attempts try i (suc left) last = except (try i) (attempts try (i + 1) left)

-- The classes behind `RetryPolicy`. `new_resources` gives the object that its i-th call returns,
-- which is dropped after the attempt.
pub data Policy {ℓ} (S : Type ℓ) : Type ℓ where
  quarantine : Policy S
  retry_n : (n : ℕ) → Policy S
  retry_elsewhere : (tries : ℕ) → (new_resources : Option (ℕ → S)) → Policy S
  retry_smaller_chunk : (splits min_size : ℕ) → Policy S

module _ {ℓ} {S R : Type ℓ} where
  abbrev pub elsewhere : Option (ℕ → S) → Process S R → Partition → ℕ → Exec S R
  elsewhere none process p i s = process p s
  elsewhere (some fresh) process p i s = ((process p (fresh i)).0, s)

  -- `policy.recover(partition, error, process=…, combine=…, resources=…)`
  unfoldable pub recover_with : Policy S → Process S R → Combine R → Partition → Exn → Exec S R
  recover_with quarantine process combine p error = raise error
  recover_with (retry_n n) process combine p error = attempts (λ _. process p) 0 n error
  recover_with (retry_elsewhere tries fresh) process combine p error =
      attempts (elsewhere fresh process p) 0 tries error
  recover_with (retry_smaller_chunk splits min_size) process combine p error =
      process_split splits min_size process combine (n_entries p) p error
