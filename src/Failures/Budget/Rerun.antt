-- ===== src/Failures/Budget/Rerun.antt =====
-- Each rerun of `without_lost` costs one from the budget, so there are at most as many reruns as
-- the budget allows.
use graphed.Prelude.{
  ℕ, ◌+◌, ◌-◌, ◌≤◌, ◌≡◌, refl, String, true, Option, none, some, List, [], ◌∷◌, arith, length,
  if◌then◌else◌, eq_iff,
}
use graphed.Outcome.{FailedChunk, Exn, returns}
use graphed.Partition.{Partition}
use graphed.Failures.Labels.{failed_chunk}
use graphed.Failures.Partials.{lost_record}
use graphed.Failures.Budget.{
  SkipPlan, AnyPlan, plain, skip, with_lost, is_lost, rerun_without, labelled, without_lost,
  partition_of,
}

length-with_lost :
    (label : String) (f : FailedChunk) (lost : List (String × FailedChunk))
    → length (with_lost label f lost)
      ≡ (if is_lost label lost then length lost else length lost + 1)
unfolding with_lost lost_record
length-with_lost label f [] = refl
length-with_lost label f ((l, g) ∷ lost) = ground (arith, length-with_lost label f lost)

lost_record-with_lost :
    (label : String) (f : FailedChunk) (lost : List (String × FailedChunk))
    → lost_record label (with_lost label f lost) ≡ some f
unfolding with_lost lost_record
lost_record-with_lost label f [] = ground (arith, eq_iff label label)
lost_record-with_lost label f ((l, g) ∷ lost) =
    ground (arith, eq_iff label label, eq_iff l label, lost_record-with_lost label f lost)

-- The reruns that a plan still has: its budget less the chunks it leaves out.
abbrev pub reruns_left : {S R : Type 0} → SkipPlan S R → ℕ
reruns_left p = p.combine.budget - length p.process.lost

-- No more chunks are left out than the budget allows.
abbrev pub IsWithin : {S R : Type 0} → SkipPlan S R → Type 0
IsWithin p = length p.process.lost ≤ p.combine.budget

with_lost_pos :
    (label : String) (f : FailedChunk) (lost : List (String × FailedChunk))
    → 1 ≤ length (with_lost label f lost)
unfolding with_lost
with_lost_pos label f [] = omega arith
with_lost_pos label f ((l, g) ∷ lost) = ground arith

rerun_costs :
    {S R : Type 0} (p : SkipPlan S R) (label : String) (err : Exn) (o : Option Partition)
    {p' : SkipPlan S R}
    → rerun_without p label err o ≡ returns p'
    → (reruns_left p' + 1 ≡ reruns_left p) × IsWithin p' × (is_lost label p'.process.lost ≡ true)
unfolding rerun_without
rerun_costs p label err none e = cc
rerun_costs p label err (some q) {p'} e =
    let f = failed_chunk label q err in
    ground (
      arith,
      length-with_lost label f p.process.lost,
      with_lost_pos label f p.process.lost,
      lost_record-with_lost label f p.process.lost,
    )

-- A rerun without a lost chunk costs exactly one of the reruns that are left, whether the chunk is
-- blamed for the first time or again; the chunks left out stay within the budget, and the chunk of
-- the error is one of them.
pub without_lost_costs :
    {S R : Type 0} (p : AnyPlan S R) (err : Exn) {p' : SkipPlan S R}
    → without_lost p err ≡ returns p'
    → (q : SkipPlan S R) × (p ≡ skip q)
      × (reruns_left p' + 1 ≡ reruns_left q)
      × IsWithin p'
      × (is_lost (partition_of err) p'.process.lost ≡ true)
unfolding without_lost
without_lost_costs (plain q) err e = cc
without_lost_costs (skip q) err {p'} e =
    let label = partition_of err in
    let found = labelled label q.settings.tasks in
    let fixed : rerun_without q label err found ≡ returns p' = ground arith in
    let (left, within, out) = rerun_costs q label err found fixed in (q, refl, left, within, out)
