-- ===== src/Retry/Pieces.antt =====
-- `split` cuts a partition edge to edge into shorter pieces.
use native.Mathlib.Nat.{le-div_iff_mul-le, div-mul-le_self}
use native.Mathlib.Decide.{dec_le}
use graphed.Prelude.{
  ℕ, zero, suc, ◌+◌, ◌-◌, ◌*◌, ◌/◌, ◌≤◌, ◌<◌, min, max, ◌≡◌, refl, ap, subst, List, [], ◌∷◌, ◌++◌,
  map, arith, All, length, lt→ltb, lt→leb-false,
}
use graphed.Prelude.Ranges.{range}
use graphed.Partition.{Partition, ranged, n_entries}
use graphed.Partition.Tiles.{Tiles}
use graphed.Retry.{pieces, split}

-- A sub-range of `p`: of its file and tree, not empty, and shorter than `p`.
pub record IsPart (p q : Partition) : Type 0 where
  pub is_range : q ≡ ranged p.uri p.tree q.entry_start q.entry_stop
  pub ordered : q.entry_start < q.entry_stop
  pub shorter : n_entries q < n_entries p

-- Bounds that rise from `lo` by less than `width` at each step, and end at `stop`.
abbrev IsLadder : ℕ → ℕ → List ℕ → ℕ → Type 0
IsLadder width lo [] stop = lo ≡ stop
IsLadder width lo (hi ∷ bounds) stop = (lo < hi) × (hi < lo + width) × IsLadder width hi bounds stop

n_entries-stop : (p : Partition) → 0 < n_entries p → p.entry_start + n_entries p ≡ p.entry_stop
unfolding n_entries
n_entries-stop p h = omega arith

-- What `split` promises of `ps` when it cuts `p` between `start` and `stop`.
abbrev pub Cuts : Partition → ℕ → ℕ → List Partition → Type 0
Cuts p start stop ps = Tiles start stop ps × All (IsPart p) ps

ranged-IsPart :
    (p : Partition) (lo hi : ℕ)
    → lo < hi
    → hi < lo + n_entries p
    → IsPart p (ranged p.uri p.tree lo hi)
unfolding n_entries
ranged-IsPart p lo hi up near = record { is_range = refl; ordered = up; shorter = omega arith }

pieces-Cuts :
    (p : Partition) (lo : ℕ) (bounds : List ℕ) (stop : ℕ)
    → IsLadder (n_entries p) lo bounds stop
    → Cuts p lo stop (pieces p (lo ∷ bounds)) × (length (pieces p (lo ∷ bounds)) ≡ length bounds)
unfolding pieces
pieces-Cuts p lo [] stop h = ((h, tt), refl)
pieces-Cuts p lo (hi ∷ bounds) stop h =
    let (rest, count) = pieces-Cuts p hi bounds stop h.2 in
    rw (lt→ltb lo hi h.0)
      (((refl, omega arith, rest.0), (ranged-IsPart p lo hi h.0 h.1, rest.1)), ap suc count)

module _ (start size width : ℕ) (positive : 0 < size) (narrow : size < width) where
  bounds-IsLadder :
      (i count last stop : ℕ)
      → i + count ≡ last
      → start + last * size < stop
      → stop < start + last * size + width
      → IsLadder width
          (start + i * size)
          (map (λ j. start + j * size) (range (i + 1) count) ++ stop ∷ [])
          stop
  unfolding range
  bounds-IsLadder i zero last stop e below near =
      let here : i ≡ last = omega arith in (rw here below, rw here near, refl)
  bounds-IsLadder i (suc count) last stop e below near =
      (omega arith, omega arith, bounds-IsLadder (i + 1) count last stop (omega arith) below near)

length-bounds :
    (f : ℕ → ℕ) (i count stop : ℕ) → length (map f (range i count) ++ stop ∷ []) ≡ count + 1
unfolding range
length-bounds f i zero stop = refl
length-bounds f i (suc count) stop = omega (arith, length-bounds f (i + 1) count stop)

-- The arithmetic of `size = total // n` for `n = m + 2` pieces.
size_fits :
    (total m size : ℕ)
    → (m + 2) ≤ total
    → size ≡ total / (m + 2)
    → (0 < size) × (size < total) × ((m + 1) * size < total) × (0 < (m + 1) * size)
size_fits total m size few e =
    let fits : size * (m + 2) ≤ total = rw e (div-mul-le_self total (m + 2)) in
    let some_entry : 1 ≤ size = rw e ((le-div_iff_mul-le (omega arith)).1 (omega arith)) in
    grind arith

module _ (p : Partition) (n m : ℕ) (many : 2 ≤ n_entries p)
    (count : max 2 (min n (n_entries p)) ≡ suc (suc m)) where
  abbrev size : ℕ
  size = n_entries p / suc (suc m)

  inner : List ℕ
  inner = map (λ i. p.entry_start + i * size) (range 1 (suc m)) ++ p.entry_stop ∷ []

  split-pieces : split p n ≡ pieces p ((p.entry_start + 0 * size) ∷ inner)
  unfolding split inner range
  split-pieces = rw (lt→leb-false (n_entries p) 1 many, count) refl

  inner-IsLadder : IsLadder (n_entries p) (p.entry_start + 0 * size) inner p.entry_stop
  unfolding inner
  inner-IsLadder =
      let (positive, narrow, below, above) =
        size_fits (n_entries p) m size (omega arith) (ap (λ d. n_entries p / d) (omega arith)) in
      let whole = n_entries-stop p (omega arith) in
      bounds-IsLadder p.entry_start size (n_entries p) positive narrow 0 (suc m) (m + 1)
        p.entry_stop (omega arith) (omega arith) (omega arith)

  split_into : Cuts p p.entry_start p.entry_stop (split p n) × (length (split p n) ≡ suc (suc m))
  unfolding inner
  split_into =
      let (cuts, len) =
        pieces-Cuts p (p.entry_start + 0 * size) inner p.entry_stop inner-IsLadder in
      let start_at : p.entry_start + 0 * size ≡ p.entry_start = omega arith in
      let tiles =
        subst (λ s. Tiles s p.entry_stop (pieces p ((p.entry_start + 0 * size) ∷ inner))) start_at
          cuts.0 in
      rw split-pieces (
        (tiles, cuts.1),
        omega (arith, len, length-bounds (λ i. p.entry_start + i * size) 1 (suc m) p.entry_stop),
      )

-- `_split` of a partition with two entries or more: as many pieces as asked for, but two where fewer
-- are, and at most one to an entry. They stand edge to edge from its start to its stop, and each is a
-- non-empty range of the same file and tree that is shorter than the partition.
pub split-Cuts :
    (p : Partition) (n : ℕ)
    → 2 ≤ n_entries p
    → Cuts p p.entry_start p.entry_stop (split p n)
      × (length (split p n) ≡ max 2 (min n (n_entries p)))
split-Cuts p n many =
    let m = max 2 (min n (n_entries p)) - 2 in
    let count : max 2 (min n (n_entries p)) ≡ suc (suc m) = omega arith in
    rw count (split_into p n m many count)

-- A partition of one entry or none is not cut.
pub split_small : (p : Partition) (n : ℕ) → n_entries p ≤ 1 → split p n ≡ p ∷ []
unfolding split
split_small p n few = ground arith

-- Only a partition with two entries or more falls into several pieces.
pub split_several : (p : Partition) (n : ℕ) → 1 < length (split p n) → 2 ≤ n_entries p
split_several p n several = elim (dec_le 2 (n_entries p)) [
  | yes many ↦ many
  | no few ↦ absurd (omega (arith, several, ap length (split_small p n (omega arith))))
]
