-- ===== src/Systematics/Registry/Calling.antt =====
-- The registries after any calls: mints, records and transactions, nested in any way.
use graphed.Prelude.{
  ℕ, ◌+◌, ◌≤◌, ◌<◌, String, ◌≡◌, refl, sym, ◌∙◌, ◌++◌, ◌⊎◌, subst, inl, inr, Option, none, some,
  List, [], ◌∷◌, All, arith, Option-cases,
}
use graphed.Prelude.Dict.{find}
use graphed.Outcome.{Outcome, returns, raises, hangs}
use graphed.Systematics.Points.{Point}
use graphed.Systematics.Registry.{
  Owners, owner_of, Points, Page, SystematicsState, all_set, bind, record_varied,
  record_weight_factor, report_shift_after_weight, universe_page, page_at, rolled_back,
  transaction_end, transaction, Clash, or_else, seen_clash, owner_clash, check_each, check_unique,
  unless_clash, mint,
}
use graphed.Systematics.Registry.Inverse.{
  IsInverse, MayBindAll, all_set-IsInverse, all_set-minted, all_set-kept,
}
use graphed.Systematics.Registry.Checking.{
  HasDistinctLabels, check_each-Passed, Passed-MayBindAll, Among, IsTrue, seen_IsTrue, owner_IsTrue,
}

or_else-some : (a b : Option Clash) (c : Clash) → or_else a b ≡ some c → (a ≡ some c) ⊎ (b ≡ some c)
unfolding or_else
or_else-some none b c h = inr h
or_else-some (some d) b c h = inl h

check_each-IsTrue :
    (rest minted points : Points) (owners : Owners) (clash : Clash)
    → ((e : String × Point) → Among e rest → Among e minted)
    → check_each rest minted points owners ≡ some clash
    → IsTrue minted points owners clash
unfolding check_each
check_each-IsTrue [] minted points owners clash keep h = absurd (cc h)
check_each-IsTrue ((label, point) ∷ rest) minted points owners clash keep h =
    elim (or_else-some (seen_clash label point (find label points)) _ clash h) [
      | inl seen ↦
          seen_IsTrue label point minted points owners clash (find label points) refl
            (keep (label, point) (inl refl)) seen
      | inr later ↦
          elim (or_else-some (owner_clash label point minted (owner_of point owners)) _ clash
            later) [
              | inl owned ↦
                  owner_IsTrue label point minted points owners clash (owner_of point owners) refl
                    (keep (label, point) (inl refl)) owned
              | inr others ↦
                  check_each-IsTrue rest minted points owners clash (λ e a. keep e (inr a)) others
            ]
    ]

abbrev pub InverseIn : SystematicsState → Type 0
InverseIn st = IsInverse st.points st.point_owners

-- What minting comes to, in the state `st`.
abbrev pub Minted : Points → SystematicsState → Option Clash × SystematicsState → Type 0
Minted minted st (some clash, after) = (after ≡ st) × IsTrue minted st.points st.point_owners clash
Minted minted st (none, after) =
    InverseIn after
    × All (λ e. find e.0 after.points ≡ some e.1) minted
    × ((label : String)
        → (find label st.points ≡ none) ⊎ (find label after.points ≡ find label st.points))
    × (after.epoch ≡ st.epoch + 1)

-- Minting labels, no two alike, where labels and points are each other's inverse: either nothing
-- changes and the error is true - a label of the mint names another point, or its point wears
-- another label - or labels and points are each other's inverse still, each minted label names its
-- point, every label that named a point names it still, and the epoch is one higher.
pub mint-Minted :
    (minted : Points) (st : SystematicsState)
    → HasDistinctLabels minted
    → InverseIn st
    → Minted minted st (mint minted st)
unfolding mint check_unique unless_clash bind
mint-Minted minted st d inv = checked (check_each minted minted st.points st.point_owners) refl
  where
    kept_label :
        (l : String)
        → MayBindAll minted st.points st.point_owners
        → (find l st.points ≡ none) ⊎ ((p : Point) × (find l st.points ≡ some p))
        → (find l st.points ≡ none) ⊎ (find l (all_set minted st.points) ≡ find l st.points)
    kept_label l may (inl e) = inl e
    kept_label l may (inr (p, e)) =
        inr (all_set-kept l p minted st.points st.point_owners may e ∙ sym e)

    checked :
        (c : Option Clash)
        → check_each minted minted st.points st.point_owners ≡ c
        → Minted minted st (unless_clash minted st c)
    checked (some clash) e =
        (refl, check_each-IsTrue minted minted st.points st.point_owners clash (λ _ a. a) e)
    checked none e =
        let passed = check_each-Passed minted minted st.points st.point_owners e in
        let may =
          Passed-MayBindAll minted st.points st.point_owners minted (λ P all. all) d passed in
        (
          all_set-IsInverse minted st.points st.point_owners may inv,
          all_set-minted minted st.points st.point_owners may,
          λ l. kept_label l may (Option-cases (find l st.points)),
          refl,
        )

-- The state `t` is reached from `s` by calls, one after the other. The labels of a mint are the keys of
-- a dict.
pub data Calls : SystematicsState → SystematicsState → Type 1 where
  start : {s : SystematicsState} → Calls s s
  minting :
      {s t : SystematicsState} (minted : Points)
      → HasDistinctLabels minted
      → Calls s t
      → Calls s (mint minted t).1
  varying :
      {s t : SystematicsState} (labels : List String) → Calls s t → Calls s (record_varied labels t)
  factoring :
      {s t : SystematicsState} (name : String) (nodes : List ℕ)
      → Calls s t
      → Calls s (record_weight_factor name nodes t)
  reporting :
      {s t : SystematicsState} (pair : String × String) (nodes : List ℕ)
      → Calls s t
      → Calls s (report_shift_after_weight pair nodes t)
  paging : {s t : SystematicsState} (key : ℕ) → Calls s t → Calls s (universe_page key t).1
  transacting :
      {s t : SystematicsState} (A : Type 0) (body : SystematicsState → Outcome A × SystematicsState)
      → Calls s t
      → Calls t (body t).1
      → Calls s (transaction body t).1

-- The registries of `t` are those of `s`, epoch included, or the epoch has moved.
abbrev pub Since : SystematicsState → SystematicsState → Type 0
Since s t =
    (s.epoch < t.epoch)
    ⊎ ((t.epoch ≡ s.epoch) × (t.points ≡ s.points) × (t.point_owners ≡ s.point_owners))

-- What the calls from `s` to `t` keep.
abbrev pub Kept : SystematicsState → SystematicsState → Type 0
Kept s t = InverseIn t × Since s t

Since-le : (s t : SystematicsState) → Since s t → s.epoch ≤ t.epoch
Since-le s t (inl less) = omega arith
Since-le s t (inr (e, _, _)) = omega (arith, e)

Since-trans : (s t u : SystematicsState) → Since s t → Since t u → Since s u
Since-trans s t u (inl a) b = inl (omega (arith, a, Since-le t u b))
Since-trans s t u (inr (e, p, o)) (inl b) = inl (omega (arith, e, b))
Since-trans s t u (inr (e, p, o)) (inr (e', p', o')) = inr (e' ∙ e, p' ∙ p, o' ∙ o)

Kept-minting :
    (s t : SystematicsState) (minted : Points) (r : Option Clash × SystematicsState)
    → Minted minted t r
    → Kept s t
    → Kept s r.1
Kept-minting s t minted (some clash, after) (same, _) k = subst (Kept s) (sym same) k
Kept-minting s t minted (none, after) m k = (m.0, inl (omega (arith, m.3, Since-le s t k.1)))

page_keeps :
    (s t : SystematicsState) (key : ℕ) (page : Option Page)
    → Kept s t
    → Kept s
        (elim page as (λ _. Page × SystematicsState) [
          | some p ↦ (p, t)
          | none ↦ ([], record t { universes = t.universes ++ (key, []) ∷ [] })
        ]).1
page_keeps s t key none k = k
page_keeps s t key (some p) k = k

Kept-transaction_end :
    {A : Type 0} (s t : SystematicsState) (r : Outcome A × SystematicsState)
    → Kept s t
    → Kept t r.1
    → Kept s (transaction_end t r).1
unfolding transaction_end rolled_back
Kept-transaction_end s t (returns a, u) k m = (m.0, Since-trans s t u k.1 m.1)
Kept-transaction_end s t (raises e, u) k m =
    (k.0, inl (omega (arith, Since-le s t k.1, Since-le t u m.1)))
Kept-transaction_end s t (hangs, u) k m = (m.0, Since-trans s t u k.1 m.1)

Kept-transaction :
    {A : Type 0} (s t : SystematicsState) (body : SystematicsState → Outcome A × SystematicsState)
    → Kept s t
    → Kept t (body t).1
    → Kept s (transaction body t).1
unfolding transaction
Kept-transaction s t body k m = Kept-transaction_end s t (body t) k m

-- Calls keep the two inverse, and move the epoch wherever they change either.
pub Calls-Kept : {s t : SystematicsState} → InverseIn s → Calls s t → Kept s t
Calls-Kept inv start = (inv, inr (refl, refl, refl))
Calls-Kept inv (minting {s = s} {t = t} minted d c) =
    let k = Calls-Kept inv c in
    Kept-minting s t minted (mint minted t) (mint-Minted minted t d k.0) k
Calls-Kept inv (varying labels c) = Calls-Kept inv c
Calls-Kept inv (factoring name nodes c) = Calls-Kept inv c
Calls-Kept inv (reporting pair nodes c) = Calls-Kept inv c
Calls-Kept inv (paging {s = s} {t = t} key c) =
    page_keeps s t key (page_at key t.universes) (Calls-Kept inv c)
Calls-Kept inv (transacting {s = s} {t = t} A body c inner) =
    let k = Calls-Kept inv c in Kept-transaction s t body k (Calls-Kept k.0 inner)

-- From calls on `s` the state was once `u`, and is `v` now: also where `u` stood in the body of a
-- transaction that has ended since, and raised.
pub data Later (s u : SystematicsState) : SystematicsState → Type 1 where
  now : Calls s u → Later s u u
  going : {v w : SystematicsState} → Later s u v → Calls v w → Later s u w
  leaving :
      {t : SystematicsState} (A : Type 0) (body : SystematicsState → Outcome A × SystematicsState)
      → Calls s t
      → Later s u (body t).1
      → Later s u (transaction body t).1

left :
    {A : Type 0} (t u : SystematicsState) (r : Outcome A × SystematicsState)
    → InverseIn t
    → Kept u r.1
    → Kept u (transaction_end t r).1
unfolding transaction_end rolled_back
left t u (returns a, v) inv k = k
left t u (raises e, v) inv k = (inv, inl (omega (arith, Since-le u v k.1)))
left t u (hangs, v) inv k = k

left_transaction :
    {A : Type 0} (t u : SystematicsState) (body : SystematicsState → Outcome A × SystematicsState)
    → InverseIn t
    → Kept u (body t).1
    → Kept u (transaction body t).1
unfolding transaction
left_transaction t u body inv k = left t u (body t) inv k

-- Between any two moments of calls - mints, records, and transactions that return or raise, nested in
-- any way - on a state in which labels and points are each other's inverse, a moment in the body of a
-- transaction that raised afterwards included: at the later one they are each other's inverse, and the
-- epoch is higher than at the earlier one, or the epoch, the labels' points and the points' labels are
-- all the same.
pub Later-Kept : {s u v : SystematicsState} → InverseIn s → Later s u v → Kept u v
Later-Kept inv (now c) = ((Calls-Kept inv c).0, inr (refl, refl, refl))
Later-Kept {u = u} inv (going {v = v} {w = w} l c) =
    let k = Later-Kept inv l in let m = Calls-Kept k.0 c in (m.0, Since-trans u v w k.1 m.1)
Later-Kept {u = u} inv (leaving {t = t} A body c l) =
    left_transaction t u body (Calls-Kept inv c).0 (Later-Kept inv l)
