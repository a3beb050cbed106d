-- ===== src/Systematics/Registry/Checking.antt =====
-- What `_check_unique` of systematics/registration.py lets pass and what it refuses.
use graphed.Prelude.{
  String, ◌≡◌, ◌≢◌, refl, sym, ap, ◌∙◌, subst, ◌⊎◌, inl, inr, Option, none, some, [], ◌∷◌, All, ap₂,
  arith, Bool-cases, eq_iff,
}
use graphed.Prelude.Text.{str_eq}
use graphed.Prelude.Dict.{find}
use graphed.Systematics.Points.{Point}
use graphed.Systematics.Registry.{
  same_point, Owners, owner_of, Points, Clash, two_points, two_labels, other_label, clashing,
  is_own, owner_clash, seen_clash, or_else, check_each,
}
use graphed.Systematics.Registry.Inverse.{
  same_point-eq, same_point_iff, MayBind, MayBindAll, Distinct,
}

-- The keys of a dict.
abbrev pub HasDistinctLabels : Points → Type 0
HasDistinctLabels [] = Unit
HasDistinctLabels ((label, _) ∷ minted) = All (λ e. e.0 ≢ label) minted × HasDistinctLabels minted

not_clashing :
    (label : String) (owner : Option String)
    → clashing label owner ≡ none
    → (owner ≡ none) ⊎ (owner ≡ some label)
unfolding clashing
not_clashing label none h = inl refl
not_clashing label (some owner) h = ground (arith, h, eq_iff owner label)

-- No other label that is minted has the point.
no_other :
    (label : String) (point : Point) (minted : Points) (owner : Option String)
    → clashing label (other_label label point minted owner) ≡ none
    → All (λ e. (e.0 ≡ label) ⊎ (e.1 ≢ point)) minted
unfolding other_label clashing
no_other label point [] owner h = tt
no_other label point ((o, p) ∷ minted) owner h = elim (Bool-cases (str_eq o label)) [
  | inl same ↦
      (inl ((eq_iff o label).0 same), no_other label point minted owner (cc (simp same at h)))
  | inr other ↦ elim (Bool-cases (same_point p point)) [
    | inl here ↦ absurd (cc (simp (other, here) at h))
    | inr apart ↦ (
      inr (λ e. cc ((same_point_iff p point).1 e, apart)),
      no_other label point minted owner (cc (simp (other, apart) at h)),
    )
  ]
]

owner_lem :
    (label : String) (point : Point) (minted : Points) (owner : Option String)
    → owner_clash label point minted owner ≡ none
    → ((owner ≡ none) ⊎ (owner ≡ some label)) × All (λ e. (e.0 ≡ label) ⊎ (e.1 ≢ point)) minted
unfolding owner_clash
owner_lem label point minted none h = (inl refl, no_other label point minted none h)
owner_lem label point minted (some owner) h = elim (Bool-cases (str_eq owner label)) [
  | inl own ↦ (
    inr (ap some ((eq_iff owner label).0 own)),
    no_other label point minted (some owner) (cc (simp own at h)),
  )
  | inr other ↦
      let taken = not_clashing label (some owner) (cc (simp other at h)) in
      absurd (ground (arith, taken, other, eq_iff owner label))
]

seen_lem :
    (label : String) (point : Point) (seen : Option Point)
    → seen_clash label point seen ≡ none
    → (seen ≡ none) ⊎ (seen ≡ some point)
unfolding seen_clash
seen_lem label point none h = inl refl
seen_lem label point (some seen) h = ground (arith, h, same_point_iff seen point)

abbrev pub Passed : Points → Points → Owners → String × Point → Type 0
Passed minted points owners e =
    MayBind e.0 e.1 points owners × All (λ f. (f.0 ≡ e.0) ⊎ (f.1 ≢ e.1)) minted

or_else-none : (a b : Option Clash) → or_else a b ≡ none → (a ≡ none) × (b ≡ none)
unfolding or_else
or_else-none none b h = (refl, h)
or_else-none (some c) b h = absurd (cc h)

pub check_each-Passed :
    (rest minted points : Points) (owners : Owners)
    → check_each rest minted points owners ≡ none
    → All (Passed minted points owners) rest
unfolding check_each
check_each-Passed [] minted points owners h = tt
check_each-Passed ((label, point) ∷ rest) minted points owners h =
    let (seen, later) = or_else-none (seen_clash label point (find label points)) _ h in
    let (owned, others) =
      or_else-none (owner_clash label point minted (owner_of point owners)) _ later in
    let (owner, apart) = owner_lem label point minted (owner_of point owners) owned in
    (
      ((seen_lem label point (find label points) seen, owner), apart),
      check_each-Passed rest minted points owners others,
    )

module _ (minted points : Points) (owners : Owners) where
  distinct :
      (label : String) (point : Point) (rest : Points)
      → All (λ e. e.0 ≢ label) rest
      → All (λ e. (e.0 ≡ label) ⊎ (e.1 ≢ point)) rest
      → Distinct label point rest
  distinct label point [] ls ps = tt
  distinct label point ((l, p) ∷ rest) (ne, ls) (inl e, ps) = absurd (ne e)
  distinct label point ((l, p) ∷ rest) (ne, ls) (inr ne', ps) =
      ((ne, ne'), distinct label point rest ls ps)

  pub Passed-MayBindAll :
      (rest : Points)
      → ((P : String × Point → Type 0) → All P minted → All P rest)
      → HasDistinctLabels rest
      → All (Passed minted points owners) rest
      → MayBindAll rest points owners
  Passed-MayBindAll [] keep d h = tt
  Passed-MayBindAll ((label, point) ∷ rest) keep d ((may, apart), h) = (
    may,
    distinct label point rest d.0 (keep _ apart).1,
    Passed-MayBindAll rest (λ P all. (keep P all).1) d.1 h,
  )

-- The entry is one of the minted.
abbrev pub Among : String × Point → Points → Type 0
Among e [] = ⊥
Among e (f ∷ minted) = (e ≡ f) ⊎ Among e minted

-- What an error says is so: the label names another point, or another label has the point.
abbrev pub IsTrue : Points → Points → Owners → Clash → Type 0
IsTrue minted points owners (two_points label seen) =
    (point : Point) × Among (label, point) minted × (find label points ≡ some seen) × (seen ≢ point)
IsTrue minted points owners (two_labels label owner) =
    (point : Point) × Among (label, point) minted
    × (owner ≢ label)
    × ((owner_of point owners ≡ some owner) ⊎ Among (owner, point) minted)

pub seen_IsTrue :
    (label : String) (point : Point) (minted points : Points) (owners : Owners) (clash : Clash)
    (seen : Option Point)
    → find label points ≡ seen
    → Among (label, point) minted
    → seen_clash label point seen ≡ some clash
    → IsTrue minted points owners clash
unfolding seen_clash
seen_IsTrue label point minted points owners clash none f a h = absurd (cc h)
seen_IsTrue label point minted points owners clash (some seen) f a h =
    elim (Bool-cases (same_point seen point)) [
      | inl same ↦ absurd (cc (simp same at h))
      | inr other ↦
          let is : two_points label seen ≡ clash = cc (simp other at h) in
          subst (IsTrue minted points owners) is
            (point, a, f, λ e. cc ((same_point_iff seen point).1 e, other))
    ]

clashing_lem :
    (label : String) (owner : Option String) (clash : Clash)
    → clashing label owner ≡ some clash
    → (o : String) × (owner ≡ some o) × (o ≢ label) × (two_labels label o ≡ clash)
unfolding clashing
clashing_lem label none clash h = absurd (cc h)
clashing_lem label (some o) clash h = elim (Bool-cases (str_eq o label)) [
  | inl own ↦ absurd (cc (simp own at h))
  | inr other ↦ (o, refl, λ e. cc ((eq_iff o label).1 e, other), cc (simp other at h))
]

other_label_lem :
    (label : String) (point : Point) (minted : Points) (owner : Option String) (o : String)
    → other_label label point minted owner ≡ some o
    → (owner ≡ some o) ⊎ Among (o, point) minted
unfolding other_label
other_label_lem label point [] owner o h = inl h
other_label_lem label point ((l, p) ∷ minted) owner o h = elim (Bool-cases (str_eq l label)) [
  | inl same ↦ deeper (other_label_lem label point minted owner o (cc (simp same at h)))
  | inr other ↦ elim (Bool-cases (same_point p point)) [
    | inl here ↦
        let e : p ≡ point = same_point-eq p point here in
        let f : l ≡ o = cc (simp (other, here) at h) in
        inr (inl (ap₂ (λ x y. (x, y)) (sym f) (sym e)))
    | inr apart ↦
        deeper (other_label_lem label point minted owner o (cc (simp (other, apart) at h)))
  ]
]
  where
    deeper :
        (owner ≡ some o) ⊎ Among (o, point) minted
        → (owner ≡ some o) ⊎ Among (o, point) ((l, p) ∷ minted)
    deeper (inl e) = inl e
    deeper (inr a) = inr (inr a)

pub owner_IsTrue :
    (label : String) (point : Point) (minted points : Points) (owners : Owners) (clash : Clash)
    (owner : Option String)
    → owner_of point owners ≡ owner
    → Among (label, point) minted
    → owner_clash label point minted owner ≡ some clash
    → IsTrue minted points owners clash
unfolding owner_clash
owner_IsTrue label point minted points owners clash owner f a h =
    elim (Bool-cases (is_own label owner)) [
      | inl own ↦
          let (o, is, ne, same) =
            clashing_lem label (other_label label point minted owner) clash (cc (simp own at h)) in
          subst (IsTrue minted points owners) same
            (point, a, ne, from o (other_label_lem label point minted owner o is))
      | inr other ↦
          let (o, is, ne, same) = clashing_lem label owner clash (cc (simp other at h)) in
          subst (IsTrue minted points owners) same (point, a, ne, inl (f ∙ is))
    ]
  where
    from :
        (o : String)
        → (owner ≡ some o) ⊎ Among (o, point) minted
        → (owner_of point owners ≡ some o) ⊎ Among (o, point) minted
    from o (inl e) = inl (f ∙ e)
    from o (inr b) = inr b
