-- ===== src/Partition/Blind.antt =====
-- A file read through blind partitions: whatever its entry count turns out to be, the steps
-- together read every entry exactly once.
use native.Mathlib.Nat.{
  lt_of_mul-lt-mul_right, le-div_iff_mul-le, div-mul-le_self, mul-div_cancel_left, zero-div,
  lt-div-mul-add,
}
use graphed.Prelude.{
  ℕ, zero, suc, ◌+◌, ◌*◌, ◌/◌, ◌≤◌, ◌<◌, String, ◌≡◌, refl, ap, ap₂, ◌∙◌, List, ◌∷◌, arith, map,
}
use graphed.Prelude.Ranges.{range}
use graphed.Outcome.{Outcome, returns, and_then}
use graphed.Partition.{Partition, ranged, blind, resolve, n_entries}
use graphed.Partition.Tiles.{all_entries, Tiles, all_entries-Tiles}

-- Where step `k` of `n` begins in a file of `num` entries.
abbrev edge : ℕ → ℕ → ℕ → ℕ
edge num n k = k * num / n

edge_mono : (num n k : ℕ) → 0 < n → edge num n k ≤ edge num n (k + 1)
edge_mono num n k h = (le-div_iff_mul-le h).1 (grind (arith, div-mul-le_self (k * num) n))

edge_end : (num n : ℕ) → 0 < n → edge num n n ≡ num
edge_end num n h = mul-div_cancel_left num h

-- A step's width against the even share, on products: `a`, `b` and `q` are the quotients of `x`,
-- `x + y` and `y` by `n`.
quotient_gap :
    (a b q x y n : ℕ)
    → a * n ≤ x
    → x < a * n + n
    → b * n ≤ x + y
    → x + y < b * n + n
    → q * n ≤ y
    → y < q * n + n
    → (a + q ≤ b) × (b ≤ a + q + 1)
quotient_gap a b q x y n h1 h2 h3 h4 h5 h6 = (
  omega (arith, lt_of_mul-lt-mul_right n {m = a + q} {n = b + 1} (omega arith)),
  omega (arith, lt_of_mul-lt-mul_right n {m = b} {n = a + q + 2} (omega arith)),
)

share_bounds :
    (num n k : ℕ)
    → 0 < n
    → (edge num n k + num / n ≤ edge num n (k + 1))
      × (edge num n (k + 1) ≤ edge num n k + num / n + 1)
share_bounds num n k h =
    quotient_gap (edge num n k) (edge num n (k + 1)) (num / n) (k * num) num n
      (div-mul-le_self (k * num) n) (lt-div-mul-add h)
      (omega (arith, div-mul-le_self ((k + 1) * num) n))
      (omega (arith, lt-div-mul-add {a = (k + 1) * num} h)) (div-mul-le_self num n)
      (lt-div-mul-add h)

-- What the reader of step `k` of `n` gets from a file of `num` entries.
abbrev pub piece : String → String → ℕ → ℕ → ℕ → Outcome Partition
piece uri tree n num k = and_then (blind uri tree k n) (λ p. resolve p num)

module _ (uri tree : String) (n num : ℕ) (some_step : 0 < n) where
  abbrev cut : ℕ → Partition
  cut k = ranged uri tree (edge num n k) (edge num n (k + 1))

  piece-cut : (k : ℕ) → k < n → piece uri tree n num k ≡ returns (cut k)
  unfolding blind resolve
  piece-cut k h = ground arith

  -- The steps from `k` on.
  pieces-cut :
      (k count : ℕ)
      → k + count ≤ n
      → map (piece uri tree n num) (range k count) ≡ map (λ p. returns p) (map cut (range k count))
  unfolding range
  pieces-cut k zero h = refl
  pieces-cut k (suc count) h =
      ap₂ ◌∷◌ (piece-cut k (omega arith)) (pieces-cut (k + 1) count (omega arith))

  cuts-Tiles :
      (k count stop : ℕ)
      → k + count ≡ stop
      → Tiles (edge num n k) (edge num n stop) (map cut (range k count))
  unfolding range
  cuts-Tiles k zero stop e = let here : k ≡ stop = omega arith in ap (edge num n) here
  cuts-Tiles k (suc count) stop e =
      (refl, edge_mono num n k some_step, cuts-Tiles (k + 1) count stop (omega arith))

  cuts_all : all_entries (map cut (range 0 n)) ≡ range 0 num
  cuts_all =
      all_entries-Tiles (edge num n 0) (edge num n n) _ (cuts-Tiles 0 n n (omega arith))
      ∙ ap₂ range edge_start (omega (arith, edge_start, edge_end num n some_step))
    where
      edge_start : edge num n 0 ≡ 0
      edge_start = omega (arith, zero-div n)

-- For every entry count of the file, each of the `n` steps resolves to a range, and the ranges in
-- step order read the entries `0 .. num - 1`, each exactly once and in order.
pub blind_covers :
    (uri tree : String) (n num : ℕ)
    → 0 < n
    → (ps : List Partition) × (map (piece uri tree n num) (range 0 n) ≡ map (λ p. returns p) ps)
      × (all_entries ps ≡ range 0 num)
blind_covers uri tree n num h = (
  map (cut uri tree n num h) (range 0 n),
  pieces-cut uri tree n num h 0 n (omega arith),
  cuts_all uri tree n num h,
)

-- No step of a blind file is more than one entry larger than the even share `num / n`, nor smaller
-- than it.
pub blind_balanced :
    (uri tree : String) (n num k : ℕ) {p : Partition}
    → k < n
    → piece uri tree n num k ≡ returns p
    → (num / n ≤ n_entries p) × (n_entries p ≤ num / n + 1)
unfolding n_entries
blind_balanced uri tree n num k {p} h e =
    let some_step : 0 < n = omega arith in
    let at : ranged uri tree (edge num n k) (edge num n (k + 1)) ≡ p =
      cc (e, piece-cut uri tree n num some_step k h) in
    rw (← at) (omega (arith, share_bounds num n k some_step))
