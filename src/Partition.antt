-- ===== src/Partition.antt =====
-- `Partition` of core/execution.py: a unit of input work. Entry indices, steps and limits are
-- counts, so they are natural numbers; where the source tests them for being negative the test
-- stands here too.
pub mod Tiles
pub mod Blind
pub mod First
use graphed.Prelude.{
  ℕ, ◌+◌, ◌-◌, ◌*◌, ◌/◌, min, max, String, Bool, true, false, not, ◌&&◌, ◌||◌, Option, none, some,
  List, [], ◌∷◌, ltb, leb, ◌==◌, if◌then◌else◌,
}
use graphed.Prelude.Text.{concat, show}
use graphed.Outcome.{Outcome, returns, raises, plain, exception, value_error}

pub record Partition : Type 0 where
  pub uri : String
  pub tree : String
  pub entry_start : ℕ
  pub entry_stop : ℕ
  pub blind_step : Option ℕ
  pub blind_n_steps : Option ℕ
  pub blind_limit : Option ℕ

-- `Partition(uri, tree, start, stop)`
abbrev pub ranged : String → String → ℕ → ℕ → Partition
ranged uri tree start stop = record {
  uri = uri;
  tree = tree;
  entry_start = start;
  entry_stop = stop;
  blind_step = none;
  blind_n_steps = none;
  blind_limit = none;
}

-- `Partition.blind`
unfoldable pub blind : String → String → ℕ → ℕ → Outcome Partition
blind uri tree step n_steps =
    if ltb n_steps 1 || not (leb 0 step && ltb step n_steps)
    then raises (
        value_error (
          concat (
            "blind partition needs 0 <= step < n_steps, got "
            ∷ show step
            ∷ "/"
            ∷ show n_steps
            ∷ [])))
    else returns
        (record (ranged uri tree 0 0) { blind_step = some step; blind_n_steps = some n_steps })

-- `is not None`
abbrev pub is_set {ℓ} : {A : Type ℓ} → Option A → Bool
is_set none = false
is_set (some _) = true

-- `Partition.is_blind`
unfoldable pub is_blind : Partition → Bool
is_blind p = is_set p.blind_step && not (is_set p.blind_limit)

abbrev capped : Option ℕ → ℕ → ℕ → ℕ
capped none start stop = stop
capped (some limit) start stop = min stop (start + limit)

-- `//` by zero raises
resolve_steps : Partition → ℕ → Option ℕ → Option ℕ → Outcome Partition
resolve_steps p num_entries (some step) (some n_steps) =
    if n_steps == 0
    then raises (exception (plain "ZeroDivisionError" "integer division or modulo by zero"))
    else let start = step * num_entries / n_steps in
      let stop = (step + 1) * num_entries / n_steps in
      returns (ranged p.uri p.tree start (capped p.blind_limit start stop))
resolve_steps p num_entries _ _ = returns p

-- `Partition.resolve`
unfoldable pub resolve : Partition → ℕ → Outcome Partition
unfolding resolve_steps
resolve p num_entries = resolve_steps p num_entries p.blind_step p.blind_n_steps

-- `limit = n if self.blind_limit is None else min(n, self.blind_limit)`
abbrev tighter : ℕ → Option ℕ → ℕ
tighter n none = n
tighter n (some limit) = min n limit

-- `Partition.first`
unfoldable pub first : Partition → ℕ → Partition
first p n =
    if is_set p.blind_step
    then record p { blind_limit = some (tighter n p.blind_limit) }
    else record p { entry_stop = min p.entry_stop (p.entry_start + n) }

-- `Partition.n_entries`: `-` stops at 0, which is the `max(0, _)` of the source.
unfoldable pub n_entries : Partition → ℕ
n_entries p = max 0 (p.entry_stop - p.entry_start)
