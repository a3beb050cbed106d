-- ===== src/Systematics/Registry.antt =====
-- systematics/state.py: the variation registries of a Session, and `_check_unique` of
-- systematics/registration.py. A dict is its items; a point is one as systematics/points.py makes it.
-- The Session's lock, which every call holds, leaves one call at a time.
pub mod Inverse
pub mod Checking
pub mod Calling
use graphed.Prelude.{
  ℕ, ◌+◌, String, Bool, true, false, Option, none, some, List, [], ◌∷◌, ◌++◌, ◌==◌, ◌&&◌,
  if◌then◌else◌,
}
use graphed.Prelude.Text.{str_eq}
use graphed.Prelude.Dict.{find, set}
use graphed.Outcome.{Outcome, returns, raises, hangs}
use graphed.Systematics.Tags.{same_text}
use graphed.Systematics.Points.{Point}

-- `p == q` on points
unfoldable pub same_point : Point → Point → Bool
same_point [] [] = true
same_point ((n, c) ∷ p) ((m, d) ∷ q) = same_text n m && same_text c d && same_point p q
same_point _ _ = false

abbrev pub Owners : Type 0
Owners = List (Point × String)

-- `by_point.get(point)` and `owners[point] = label`
unfoldable pub owner_of : Point → Owners → Option String
unfolding same_point
owner_of point [] = none
owner_of point ((p, label) ∷ owners) =
    if same_point p point then some label else owner_of point owners

unfoldable pub set_owner : Point → String → Owners → Owners
unfolding same_point
set_owner point label [] = (point, label) ∷ []
set_owner point label ((p, l) ∷ owners) =
    let others = set_owner point label owners in
    if same_point p point then (p, label) ∷ owners else (p, l) ∷ others

abbrev pub Points : Type 0
Points = List (String × Point)

-- One `two_level` page.
abbrev pub Page : Type 0
Page = List (String × (String × Option String))

-- The `_varied` list holds the labels of the containers that are still alive.
pub record SystematicsState : Type 0 where
  pub points : Points
  pub point_owners : Owners
  pub epoch : ℕ
  pub weight_factors : List (String × List ℕ)
  pub shift_after_weight : List ((String × String) × List ℕ)
  pub varied : List (List String)
  pub universes : List (ℕ × Page)

-- `SystematicsState()`
abbrev pub new_state : SystematicsState
new_state = record {
  points = [];
  point_owners = [];
  epoch = 0;
  weight_factors = [];
  shift_after_weight = [];
  varied = [];
  universes = [];
}

unfoldable pub all_owned : Points → Owners → Owners
unfolding set_owner
all_owned [] owners = owners
all_owned ((label, point) ∷ minted) owners = all_owned minted (set_owner point label owners)

-- `{**points, **minted}`
unfoldable pub all_set : Points → Points → Points
all_set [] points = points
all_set ((label, point) ∷ minted) points = all_set minted (set label point points)

-- `bind`
unfoldable pub bind : Points → SystematicsState → SystematicsState
unfolding all_owned all_set
bind minted st = record st {
  points = all_set minted st.points;
  point_owners = all_owned minted st.point_owners;
  epoch = st.epoch + 1;
}

abbrev pub record_varied : List String → SystematicsState → SystematicsState
record_varied labels st = record st { varied = st.varied ++ labels ∷ [] }

-- `registered_labels`, with a label as often as containers carry it
unfoldable pub registered_labels : List (List String) → List String
registered_labels [] = []
registered_labels (labels ∷ varied) = labels ++ registered_labels varied

abbrev pub record_weight_factor : String → List ℕ → SystematicsState → SystematicsState
record_weight_factor name nodes st = record st {
  weight_factors = st.weight_factors ++ (name, nodes) ∷ [];
}

unfoldable pub merge_report :
    String × String → List ℕ → List ((String × String) × List ℕ) → List ((String × String) × List ℕ)
merge_report pair nodes [] = (pair, nodes) ∷ []
merge_report pair nodes ((other, held) ∷ reports) =
    let rest = merge_report pair nodes reports in
    if str_eq other.0 pair.0 && str_eq other.1 pair.1
    then (other, held ++ nodes) ∷ reports
    else (other, held) ∷ rest

abbrev pub report_shift_after_weight :
    String × String → List ℕ → SystematicsState → SystematicsState
report_shift_after_weight pair nodes st = record st {
  shift_after_weight = merge_report pair nodes st.shift_after_weight;
}

-- `self._universes.get(key)`
unfoldable pub page_at : ℕ → List (ℕ × Page) → Option Page
page_at key [] = none
page_at key ((k, page) ∷ pages) = if k == key then some page else page_at key pages

abbrev pub universe_page : ℕ → SystematicsState → Page × SystematicsState
universe_page key st = elim (page_at key st.universes) [
  | some page ↦ (page, st)
  | none ↦ ([], record st { universes = st.universes ++ (key, []) ∷ [] })
]

-- What a raised transaction leaves of the state in which its body began, and of the one in which
-- the body raised.
unfoldable pub rolled_back : SystematicsState → SystematicsState → SystematicsState
rolled_back saved st = record st {
  points = saved.points;
  point_owners = saved.point_owners;
  shift_after_weight = saved.shift_after_weight;
  weight_factors = saved.weight_factors;
  epoch = st.epoch + 1;
  universes = [];
}

-- How the transaction ends, by how its body does.
unfoldable pub transaction_end {ℓ} :
    {A : Type ℓ} → SystematicsState → Outcome A × SystematicsState → Outcome A × SystematicsState
unfolding rolled_back
transaction_end saved (returns a, st) = (returns a, st)
transaction_end saved (raises e, st) = (raises e, rolled_back saved st)
transaction_end saved (hangs, st) = (hangs, st)

unfoldable pub transaction {ℓ} :
    {A : Type ℓ}
    → (SystematicsState → Outcome A × SystematicsState)
    → SystematicsState
    → Outcome A × SystematicsState
unfolding transaction_end
transaction body st = transaction_end st (body st)

-- Why `_check_unique` raises its PointError: the label names another point, or the point has
-- another label.
pub data Clash : Type 0 where
  two_points : String → Point → Clash
  two_labels : String → String → Clash

-- `next((o for o, p in minted.items() if o != label and p == point), owner)`
unfoldable pub other_label : String → Point → Points → Option String → Option String
unfolding same_point
other_label label point [] owner = owner
other_label label point ((o, p) ∷ minted) owner =
    let rest = other_label label point minted owner in
    if str_eq o label then rest else if same_point p point then some o else rest

-- The owner that a label clashes with, if there is one.
unfoldable pub clashing : String → Option String → Option Clash
clashing label none = none
clashing label (some owner) = if str_eq owner label then none else some (two_labels label owner)

abbrev pub is_own : String → Option String → Bool
is_own label none = true
is_own label (some owner) = str_eq owner label

unfoldable pub owner_clash : String → Point → Points → Option String → Option Clash
unfolding other_label clashing
owner_clash label point minted owner =
    clashing label (if is_own label owner then other_label label point minted owner else owner)

-- `seen is not None and seen != point`
unfoldable pub seen_clash : String → Point → Option Point → Option Clash
unfolding same_point
seen_clash label point none = none
seen_clash label point (some seen) =
    if same_point seen point then none else some (two_points label seen)

-- The first error ends the loop.
unfoldable pub or_else : Option Clash → Option Clash → Option Clash
or_else (some clash) later = some clash
or_else none later = later

-- The loop of `_check_unique`, over the labels left of all that are minted.
unfoldable pub check_each : Points → Points → Points → Owners → Option Clash
unfolding or_else seen_clash owner_clash owner_of
check_each [] minted registry by_point = none
check_each ((label, point) ∷ rest) minted registry by_point =
    or_else (seen_clash label point (find label registry)) (
      or_else (owner_clash label point minted (owner_of point by_point))
        (check_each rest minted registry by_point))

unfoldable pub check_unique : Points → Points → Owners → Option Clash
unfolding check_each
check_unique minted registry by_point = check_each minted minted registry by_point

-- `_check_unique(minted, state.points, state.point_owners)` and `state.bind(minted)`
unfoldable pub unless_clash :
    Points → SystematicsState → Option Clash → Option Clash × SystematicsState
unfolding bind
unless_clash minted st (some clash) = (some clash, st)
unless_clash minted st none = (none, bind minted st)

unfoldable pub mint : Points → SystematicsState → Option Clash × SystematicsState
unfolding check_unique unless_clash
mint minted st = unless_clash minted st (check_unique minted st.points st.point_owners)
