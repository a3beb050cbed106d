-- ===== src/Runner/Stages/Expected.antt =====
-- What a staged run is expected to end in, once the fold over its stages has ended.
use graphed.Prelude.{
  ◌≡◌, refl, ap, ◌∙◌, Bool, true, false, Option, none, some, List, [], ◌∷◌, foldl, map,
  if◌then◌else◌,
}
use graphed.Prelude.Text.{str_eq}
use graphed.Outcome.{value_error, Outcome, returns, raises, hangs, and_then}
use graphed.Plan.{cancelled, ExecResult}
use graphed.Checkpoint.Blobs.{Bytes}
use graphed.Durable.{OpSpec}
use graphed.Durable.Plans.{StageSpec, DurablePlanV2}
use graphed.Runner.Cancelling.Reaching.{Ending, finished, cut, blocked}
use graphed.Runner.Stages.{
  index_error, last_payloads, StagedValue, only, each, ends_in_reduce, decoded, unpacked,
  staged_value, RanTasks, staged_result,
}
use graphed.Runner.Stages.Fold.{stages_end}
use graphed.Runner.Stages.Whole.{FinalValue, as_it_is, finalized, finalize_staged}

-- The last of a list, if it has one.
abbrev last_or {ℓ} : {A : Type ℓ} → A → List A → A
last_or none_there xs = foldl (λ _ x. x) none_there xs

module _ {V F : Type 0} (loads : Bytes → Outcome V)
    (resolve : OpSpec → Outcome (Option (StagedValue V) → Outcome F)) where
  -- One value after a reduce, and else one for each payload.
  abbrev in_shape : Bool → List V → Outcome (StagedValue V)
  in_shape false vs = returns (each vs)
  in_shape true (v ∷ []) = returns (only v)
  in_shape true [] = raises (value_error "not enough values to unpack (expected 1, got 0)")
  in_shape true (v ∷ (v' ∷ vs)) = raises (value_error "too many values to unpack (expected 1)")

  -- Whether the last stage is a reduce.
  abbrev reduces : List StageSpec → Bool
  reduces stages = last_or false (map (λ s. str_eq s.kind "reduce") stages)

  abbrev value_of : DurablePlanV2 → List (List Bytes) → Outcome (StagedValue V)
  value_of plan all =
      and_then (last_or (raises index_error) (map (λ p. returns p) all))
        λ payloads. and_then (decoded loads payloads) (in_shape (reduces plan.stages))

  abbrev finalized_by : Option OpSpec → StagedValue V → Outcome (FinalValue V F)
  finalized_by none v = returns (as_it_is (some v))
  finalized_by (some spec) v =
      and_then (resolve spec) (λ fn. and_then (fn (some v)) (λ x. returns (finalized x)))

  -- With every stage done, the value of the last one's payloads, finalized; after a cancel, no value
  -- and nothing finalized; and no end where a wait has none.
  abbrev pub run_end :
      DurablePlanV2 → Ending → List (List Bytes) → RanTasks → Outcome (ExecResult (FinalValue V F))
  run_end plan finished all ran = and_then (value_of plan all) λ v.
      and_then (finalized_by plan.finalize v) λ x. returns (record {
        value = x;
        n_partitions = ran.sources;
        n_combines = ran.others;
        stopped = none;
        failed = [];
      })
  run_end plan cut all ran = returns (record {
    value = as_it_is none;
    n_partitions = ran.sources;
    n_combines = ran.others;
    stopped = some cancelled;
    failed = [];
  })
  run_end plan blocked all ran = hangs

  last_lem :
      (p : List Bytes) (all : List (List Bytes)) (d : Outcome (List Bytes))
      → last_payloads (p ∷ all) ≡ last_or d (map (λ q. returns q) (p ∷ all))
  unfolding last_payloads
  last_lem p [] d = refl
  last_lem p (q ∷ all) d = last_lem q all (returns p)

  last_payloads-last_or :
      (all : List (List Bytes))
      → last_payloads all ≡ last_or (raises index_error) (map (λ p. returns p) all)
  unfolding last_payloads
  last_payloads-last_or [] = refl
  last_payloads-last_or (p ∷ all) = last_lem p all (raises index_error)

  reduce_lem :
      (s : StageSpec) (stages : List StageSpec) (d : Bool)
      → ends_in_reduce (s ∷ stages)
        ≡ last_or d (map (λ (t : StageSpec). str_eq t.kind "reduce") (s ∷ stages))
  unfolding ends_in_reduce
  reduce_lem s [] d = refl
  reduce_lem s (t ∷ stages) d = reduce_lem t stages (str_eq s.kind "reduce")

  ends_in_reduce-reduces : (stages : List StageSpec) → ends_in_reduce stages ≡ reduces stages
  unfolding ends_in_reduce
  ends_in_reduce-reduces [] = refl
  ends_in_reduce-reduces (s ∷ stages) = reduce_lem s stages false

  staged_value_lem :
      (plan : DurablePlanV2) (payloads : List Bytes)
      → staged_value loads plan payloads
        ≡ and_then (decoded loads payloads) (in_shape (reduces plan.stages))
  unfolding staged_value
  staged_value_lem plan payloads =
      shaped (decoded loads payloads) (ends_in_reduce plan.stages) (reduces plan.stages)
        (ends_in_reduce-reduces plan.stages)
    where
      in_one :
          (b : Bool) (vs : List V)
          → (if b then unpacked loads vs else returns (each vs)) ≡ in_shape b vs
      in_one false vs = refl
      in_one true [] = refl
      in_one true (v ∷ []) = refl
      in_one true (v ∷ (v' ∷ vs)) = refl

      shaped :
          (o : Outcome (List V)) (b b' : Bool)
          → b ≡ b'
          → and_then o (λ vs. if b then unpacked loads vs else returns (each vs))
            ≡ and_then o (in_shape b')
      shaped (returns vs) b b' e = in_one b vs ∙ ap (λ c. in_shape c vs) e
      shaped (raises d) b b' e = refl
      shaped hangs b b' e = refl

  abbrev result_of : RanTasks → StagedValue V → ExecResult (Option (StagedValue V))
  result_of ran v = record {
    value = some v;
    n_partitions = ran.sources;
    n_combines = ran.others;
    stopped = none;
    failed = [];
  }

  abbrev ending_in : RanTasks → FinalValue V F → ExecResult (FinalValue V F)
  ending_in ran x = record {
    value = x;
    n_partitions = ran.sources;
    n_combines = ran.others;
    stopped = none;
    failed = [];
  }

  finalize_lem :
      (o : Option OpSpec) (ran : RanTasks) (v : StagedValue V)
      → finalize_staged resolve o (result_of ran v)
        ≡ and_then (finalized_by o v) (λ x. returns (ending_in ran x))
  unfolding finalize_staged
  finalize_lem none ran v = refl
  finalize_lem (some spec) ran v = go (resolve spec)
    where
      done :
          (o : Outcome F)
          → and_then o (λ x. returns (ending_in ran (finalized x)))
            ≡ and_then (and_then o (λ x. returns (finalized x))) (λ x. returns (ending_in ran x))
      done (returns x) = refl
      done (raises d) = refl
      done hangs = refl

      go :
          (o : Outcome (Option (StagedValue V) → Outcome F))
          → and_then o (λ fn. and_then (fn (some v)) (λ x. returns (ending_in ran (finalized x))))
            ≡ and_then
                (and_then o (λ fn. and_then (fn (some v)) (λ x. returns (finalized x))))
                (λ x. returns (ending_in ran x))
      go (returns fn) = done (fn (some v))
      go (raises d) = refl
      go hangs = refl

  pub run_end_lem :
      (plan : DurablePlanV2) (ending : Ending) (all : List (List Bytes)) (ran : RanTasks)
      → and_then
          (and_then (stages_end ending all ran) (staged_result loads plan))
          (finalize_staged resolve plan.finalize)
        ≡ run_end plan ending all ran
  unfolding staged_result finalize_staged
  run_end_lem plan finished all ran =
      found (last_payloads all) (last_or (raises index_error) (map (λ p. returns p) all))
        (last_payloads-last_or all)
    where
      valued :
          (o : Outcome (StagedValue V))
          → and_then
              (and_then o (λ v. returns (result_of ran v)))
              (finalize_staged resolve plan.finalize)
            ≡ and_then o
                (λ v. and_then (finalized_by plan.finalize v) (λ x. returns (ending_in ran x)))
      valued (returns v) = finalize_lem plan.finalize ran v
      valued (raises d) = refl
      valued hangs = refl

      found :
          (o o' : Outcome (List Bytes))
          → o ≡ o'
          → and_then
              (and_then o
                (λ last. and_then (staged_value loads plan last) (λ v. returns (result_of ran v))))
              (finalize_staged resolve plan.finalize)
            ≡ and_then
                (and_then o'
                  (λ payloads. and_then (decoded loads payloads) (in_shape (reduces plan.stages))))
                (λ v. and_then (finalized_by plan.finalize v) (λ x. returns (ending_in ran x)))
      found o o' e =
          one o
          ∙ ap
              (λ z.
                and_then
                  (and_then z (λ payloads.
                    and_then (decoded loads payloads) (in_shape (reduces plan.stages))))
                  (λ v. and_then (finalized_by plan.finalize v) (λ x. returns (ending_in ran x))))
              e
        where
          one :
              (o : Outcome (List Bytes))
              → and_then
                  (and_then o (λ last.
                    and_then (staged_value loads plan last) (λ v. returns (result_of ran v))))
                  (finalize_staged resolve plan.finalize)
                ≡ and_then
                    (and_then o (λ payloads.
                      and_then (decoded loads payloads) (in_shape (reduces plan.stages))))
                    (λ v. and_then (finalized_by plan.finalize v) (λ x. returns (ending_in ran x)))
          one (returns last) =
              valued (staged_value loads plan last)
              ∙ ap
                  (λ z.
                    and_then z (λ v.
                      and_then (finalized_by plan.finalize v) (λ x. returns (ending_in ran x))))
                  (staged_value_lem plan last)
          one (raises d) = refl
          one hangs = refl
  run_end_lem plan cut all ran = cut_lem plan.finalize
    where
      cut_lem :
          (o : Option OpSpec)
          → finalize_staged resolve o (record {
            value = none;
            n_partitions = ran.sources;
            n_combines = ran.others;
            stopped = some cancelled;
            failed = [];
          })
            ≡ run_end plan cut all ran
      cut_lem none = refl
      cut_lem (some spec) = refl
  run_end_lem plan blocked all ran = refl
