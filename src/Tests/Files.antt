-- ===== src/Tests/Files.antt =====
-- Partitions, datasets, handles and controls.
use graphed.Prelude.{
  ℕ, ◌+◌, ◌≤◌, min, max, String, ◌≡◌, refl, true, false, Option, some, List, [], ◌∷◌, ◌⊎◌, map,
  arith, All, length,
}
use graphed.Prelude.Ranges.{range}
use graphed.Outcome.{Outcome, returns, Exec, pure, and_then}
use graphed.Partition.{Partition, ranged, resolve, first, n_entries}
use graphed.Partition.Tiles.{all_entries}
use graphed.Partition.Blind.{piece, blind_covers}
use graphed.Partition.First.{resolve-first, n_entries-first}
use graphed.Dataset.{Dataset, partition_dataset}
use graphed.Dataset.Cover.{IsChunk, partition_dataset_covers}
use graphed.Retry.{split}
use graphed.Retry.Pieces.{Cuts, split-Cuts}
use graphed.Control.{
  running, is_cancelled, is_paused, pause, resume, cancel, call_all, Control, wait,
}
use graphed.Control.Sticky.{cancel_sticky, wait_wakes}
use graphed.Resources.{Resources, open_once}
use graphed.Resources.Bounded.{IsBounded}
use graphed.Resources.Closing.{recorded, unrecorded, Accounts, open_once-Accounts}

abbrev ten : Partition
ten = ranged "a.root" "Events" 5 15

-- Step 1 of 3, its entries not known yet.
abbrev unread : Partition
unread = record ten { blind_step = some 1; blind_n_steps = some 3 }

abbrev run2024 : Dataset
run2024 = record { uri = "a.root"; n_events = 25; tree = "Events"; name = "run2024" }

blind_covers_example :
    (ps : List Partition) × (map (piece "a.root" "Events" 3 10) (range 0 3)
      ≡ map (λ p. returns p) ps)
    × (all_entries ps ≡ range 0 10)
blind_covers_example = blind_covers "a.root" "Events" 3 10 (omega arith)

last_third : piece "a.root" "Events" 3 10 2 ≡ returns (ranged "a.root" "Events" 6 10)
unfolding graphed.Partition.blind resolve
last_third = refl

resolve-first_example :
    resolve (first unread 2) 30 ≡ and_then (resolve unread 30) (λ q. returns (first q 2))
resolve-first_example = resolve-first unread 2 30

n_entries-first_example : n_entries (first ten 4) ≡ min 4 (n_entries ten)
n_entries-first_example = n_entries-first ten 4 refl

partition_dataset_covers_example :
    (ps : List Partition) × (partition_dataset run2024 10 ≡ returns ps)
    × (all_entries ps ≡ range 0 25)
    × All (IsChunk run2024 10) ps
partition_dataset_covers_example = partition_dataset_covers run2024 10 (omega arith)

ten_entries : 2 ≤ n_entries ten
unfolding n_entries
ten_entries = omega arith

split-Cuts_example :
    Cuts ten 5 15 (split ten 3) × (length (split ten 3) ≡ max 2 (min 3 (n_entries ten)))
split-Cuts_example = split-Cuts ten 3 ten_entries

cancel_sticky_example : is_cancelled (call_all (pause ∷ cancel ∷ resume ∷ []) running) ≡ true
cancel_sticky_example =
    cancel_sticky (pause ∷ cancel ∷ resume ∷ []) running (refl, (refl, (refl, tt)))

abbrev paused_twice : Control
paused_twice = record { state = running; arriving = (pause ∷ []) ∷ (resume ∷ []) ∷ [] }

wait_wakes_example :
    (((wait paused_twice).0 ≡ returns (wait paused_twice).1.state)
      × (is_paused (wait paused_twice).1.state ≡ false))
    ⊎ (((wait paused_twice).0 ≡ graphed.Outcome.hangs)
        × (is_paused (wait paused_twice).1.state ≡ true)
        × ((wait paused_twice).1.arriving ≡ []))
wait_wakes_example = wait_wakes paused_twice

-- Handles are numbers, closing one adds it to the outside, and opening gives the outside.
abbrev closer : ℕ → Option (Exec ℕ (Unit {0}))
closer h = some (λ w. (returns tt, w + h))

abbrev opener : String → Exec ℕ ℕ
opener uri w = (returns w, w + 1)

abbrev full : Resources ℕ ℕ
full = record {
  handles = ("a.root", 1) ∷ ("b.root", 2) ∷ [];
  max_open = 2;
  open_count = 2;
  outside = 7;
}

full-IsBounded : IsBounded full
unfolding graphed.Resources.lookup
full-IsBounded = record { within = omega arith; distinct = (refl, (refl, tt)) }

-- What `full` was opened with, none closed so far.
abbrev full_recorded : Resources ℕ (ℕ × List ℕ)
full_recorded = record { handles = full.handles; max_open = 2; open_count = 2; outside = (7, []) }

abbrev counted_close : ℕ → Exec ℕ (Unit {0})
counted_close h w = (returns tt, w + h)

open_once-Accounts_example :
    let r' =
      (open_once
        (recorded counted_close)
        "c.root"
        (unrecorded counted_close opener)
        full_recorded).1 in
    IsBounded r' × Accounts counted_close full_recorded r'
unfolding graphed.Resources.lookup
open_once-Accounts_example =
    open_once-Accounts counted_close "c.root" opener full_recorded
      (record { within = omega arith; distinct = (refl, (refl, tt)) })

opens_third : (open_once closer "c.root" opener full).0 ≡ returns 7
unfolding open_once graphed.Resources.lookup graphed.Resources.opened graphed.Resources.evict
    graphed.Resources.close_handle
opens_third = refl
