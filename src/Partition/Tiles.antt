-- ===== src/Partition/Tiles.antt =====
-- Partitions that stand edge to edge: they read every entry of a range once, in order.
use graphed.Prelude.{ℕ, ◌+◌, ◌-◌, ◌≤◌, ◌≡◌, refl, ◌∙◌, ap, ap₂, List, [], ◌∷◌, ◌++◌, arith}
use graphed.Prelude.Ranges.{range, range-add}
use graphed.Partition.{Partition, n_entries}

-- The indices of the entries that a reader of `p` reads.
abbrev pub entries : Partition → List ℕ
entries p = range p.entry_start (n_entries p)

-- The indices that the readers of `ps` read, in order.
abbrev pub all_entries : List Partition → List ℕ
all_entries [] = []
all_entries (p ∷ ps) = entries p ++ all_entries ps

-- `ps` go from `start` to `stop` edge to edge, and none is reversed.
abbrev pub Tiles : ℕ → ℕ → List Partition → Type 0
Tiles start stop [] = start ≡ stop
Tiles start stop (p ∷ ps) =
    (p.entry_start ≡ start) × (start ≤ p.entry_stop) × Tiles p.entry_stop stop ps

reaches :
    (p : Partition) → p.entry_start ≤ p.entry_stop → p.entry_start + n_entries p ≡ p.entry_stop
unfolding n_entries
reaches p h = omega arith

pub Tiles-le : (start stop : ℕ) (ps : List Partition) → Tiles start stop ps → start ≤ stop
Tiles-le start stop [] h = omega arith
Tiles-le start stop (p ∷ ps) h = omega (arith, Tiles-le p.entry_stop stop ps h.2)

-- A range read first, then the rest.
entries-append :
    (p : Partition) (start stop : ℕ)
    → p.entry_start ≡ start
    → start ≤ p.entry_stop
    → p.entry_stop ≤ stop
    → entries p ++ range p.entry_stop (stop - p.entry_stop) ≡ range start (stop - start)
entries-append p start stop at below above =
    range-add p.entry_start (n_entries p) (stop - p.entry_stop) p.entry_stop (reaches p below')
    ∙ total
  where
    below' : p.entry_start ≤ p.entry_stop
    below' = omega arith

    total : range p.entry_start (n_entries p + (stop - p.entry_stop)) ≡ range start (stop - start)
    total = ap₂ range at (omega (arith, reaches p below'))

pub all_entries-Tiles :
    (start stop : ℕ) (ps : List Partition)
    → Tiles start stop ps
    → all_entries ps ≡ range start (stop - start)
unfolding range
all_entries-Tiles start stop [] h =
    let none_left : stop - start ≡ 0 = omega arith in rw none_left refl
all_entries-Tiles start stop (p ∷ ps) h =
    let rest = all_entries-Tiles p.entry_stop stop ps h.2 in
    rw rest (entries-append p start stop h.0 h.1 (Tiles-le p.entry_stop stop ps h.2))

pub all_entries_from_zero :
    (stop : ℕ) (ps : List Partition) → Tiles 0 stop ps → all_entries ps ≡ range 0 stop
all_entries_from_zero stop ps h = all_entries-Tiles 0 stop ps h ∙ ap (range 0) (omega arith)
