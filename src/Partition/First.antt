-- ===== src/Partition/First.antt =====
-- `Partition.first` against `resolve` and `n_entries`.
use graphed.Prelude.{ℕ, min, ◌≡◌, none, arith}
use graphed.Outcome.{returns, and_then}
use graphed.Partition.{Partition, resolve, first, n_entries}

-- Cutting a partition to its first `n` entries and then resolving it against a file is resolving
-- it and then cutting the range: the cap of a blind partition is exact.
pub resolve-first :
    (p : Partition) (n num_entries : ℕ)
    → resolve (first p n) num_entries ≡ and_then (resolve p num_entries) (λ q. returns (first q n))
unfolding resolve first
resolve-first p n num_entries = ground arith

-- Two caps are one cap, the smaller of both.
pub first-first : (p : Partition) (a b : ℕ) → first (first p a) b ≡ first p (min b a)
unfolding first
first-first p a b = ground arith

-- The first `n` entries of a range are `n`, or all of them if it has fewer.
pub n_entries-first :
    (p : Partition) (n : ℕ) → p.blind_step ≡ none → n_entries (first p n) ≡ min n (n_entries p)
unfolding first n_entries
n_entries-first p n h = ground arith
