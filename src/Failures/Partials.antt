-- ===== src/Failures/Partials.antt =====
-- `_Partial`, `_SkipProcess` and `_SkipCombine`: a run's partials with the failures beside them.
use graphed.Prelude.{ℕ, String, Option, none, some, List, [], ◌∷◌, ◌++◌, ltb, if◌then◌else◌, length}
use graphed.Prelude.Text.{str_eq, str_leb}
use graphed.Prelude.Sorting.{sorted}
use graphed.Outcome.{
  FailedChunk, too_many_failed, Outcome, returns, raises, Exec, pure, lift, except, and_then, ◌>>=◌,
}
use graphed.Partition.{Partition}
use graphed.Retry.{Process, Combine}
use graphed.Failures.Labels.{chunk_key, failed_chunk}

-- `_Partial`
pub record Partial (R : Type 0) : Type 0 where
  pub value : R
  pub failed : List FailedChunk

-- `_by_label`
unfoldable pub by_label : List FailedChunk → List FailedChunk
by_label = sorted (λ a b. str_leb a.partition b.partition)

-- `lost.get(label)`, on the dict as its items
unfoldable pub lost_record : String → List (String × FailedChunk) → Option FailedChunk
lost_record label [] = none
lost_record label ((l, f) ∷ rest) = if str_eq l label then some f else lost_record label rest

-- `_SkipProcess`
pub record SkipProcess (S R : Type 0) : Type 0 where
  pub process : Process S R
  pub empty : Outcome R
  pub lost : List (String × FailedChunk)

module _ {S R : Type 0} where
  -- `_Partial(self.empty(), (failed,))`
  abbrev pub left_out : Outcome R → FailedChunk → Exec S (Partial R)
  left_out empty failed = lift empty >>= λ v. pure (record { value = v; failed = failed ∷ [] })

  -- `_Partial(self.process(partition, resources))` under `except Exception`
  attempt : SkipProcess S R → Process S (Partial R)
  attempt sp p =
      except (sp.process p >>= λ v. pure (record { value = v; failed = [] }))
        (λ exc. left_out sp.empty (failed_chunk (chunk_key p) p exc))

  unless_lost : SkipProcess S R → Partition → Option FailedChunk → Exec S (Partial R)
  unless_lost sp p none = attempt sp p
  unless_lost sp p (some failed) = left_out sp.empty failed

  -- `_SkipProcess.__call__`
  unfoldable pub skip_call : SkipProcess S R → Process S (Partial R)
  unfolding attempt unless_lost
  skip_call sp p = unless_lost sp p (lost_record (chunk_key p) sp.lost)

-- `_SkipCombine`
pub record SkipCombine (R : Type 0) : Type 0 where
  pub combine : Combine R
  pub budget : ℕ

-- `_SkipCombine.__call__`
unfoldable pub skip_merge : {R : Type 0} → SkipCombine R → Combine (Partial R)
skip_merge sc a b =
    let failed = a.failed ++ b.failed in
    if ltb sc.budget (length failed)
    then raises (too_many_failed (by_label failed))
    else and_then (sc.combine a.value b.value)
        (λ v. returns (record { value = v; failed = failed }))

-- `_empty_partial`
unfoldable pub empty_partial : {R : Type 0} → Outcome R → Outcome (Partial R)
empty_partial empty = and_then empty (λ v. returns (record { value = v; failed = [] }))

-- `n_failed` and `skipped_error` of a `_Partial`
unfoldable pub n_failed : {R : Type 0} → Partial R → ℕ
n_failed p = length p.failed

unfoldable pub skipped_error : {R : Type 0} → Partial R → Option String
skipped_error p = elim p.failed [ [] ↦ none | f ∷ _ ↦ some f.error ]
