-- ===== src/Systematics/Registry/Inverse.antt =====
-- One label names one point, and one point wears one label.
use graphed.Prelude.{
  String, true, ◌≡◌, ◌≢◌, refl, sym, ◌∙◌, subst, ◌↔◌, ◌⊎◌, inl, inr, none, some, [], ◌∷◌, All,
  arith, Bool-cases, eq_iff, ap₂,
}
use graphed.Prelude.Text.{str_eq}
use graphed.Prelude.Dict.{find, set, find-set, find-set_ne}
use graphed.Systematics.Digits.{Text}
use graphed.Systematics.Tags.{same_text}
use graphed.Systematics.Points.{Point}
use graphed.Systematics.Registry.{
  same_point, Owners, owner_of, set_owner, Points, all_owned, all_set,
}

same_text-eq : (a b : Text) → same_text a b ≡ true → a ≡ b
unfolding same_text
same_text-eq [] [] h = refl
same_text-eq [] (d ∷ b) h = cc
same_text-eq (c ∷ a) [] h = cc
same_text-eq (c ∷ a) (d ∷ b) h = ap₂ ◌∷◌ (ground arith) (same_text-eq a b (ground arith))

same_text_refl : (a : Text) → same_text a a ≡ true
unfolding same_text
same_text_refl [] = refl
same_text_refl (c ∷ a) = ground (arith, same_text_refl a)

pub same_point-eq : (p q : Point) → same_point p q ≡ true → p ≡ q
unfolding same_point
same_point-eq [] [] h = refl
same_point-eq [] (d ∷ b) h = cc
same_point-eq (c ∷ a) [] h = cc
same_point-eq ((n, c) ∷ p) ((m, d) ∷ q) h =
    ap₂ ◌∷◌
      (ap₂ (λ x y. (x, y)) (same_text-eq n m (ground arith)) (same_text-eq c d (ground arith)))
      (same_point-eq p q (ground arith))

same_point_refl : (p : Point) → same_point p p ≡ true
unfolding same_point
same_point_refl [] = refl
same_point_refl ((n, c) ∷ p) = ground (arith, same_text_refl n, same_text_refl c, same_point_refl p)

pub same_point_iff : (p q : Point) → (same_point p q ≡ true) ↔ (p ≡ q)
same_point_iff p q =
    (same_point-eq p q, λ e. subst (λ x. same_point p x ≡ true) e (same_point_refl p))

-- The registry of owners is a dict with points as keys.
owner-set : (p : Point) (l : String) (o : Owners) → owner_of p (set_owner p l o) ≡ some l
unfolding owner_of set_owner
owner-set p l [] = ground (arith, same_point_refl p)
owner-set p l ((q, k) ∷ o) = ground (arith, owner-set p l o, same_point_iff q p)

owner-set_ne :
    (p q : Point) (l : String) (o : Owners) → p ≢ q → owner_of p (set_owner q l o) ≡ owner_of p o
unfolding owner_of set_owner
owner-set_ne p q l [] ne = ground (arith, same_point_iff q p)
owner-set_ne p q l ((r, k) ∷ o) ne =
    ground (arith, owner-set_ne p q l o, same_point_iff r p, same_point_iff r q, same_point_iff q p)

-- The two registries are each other's inverse.
pub record IsInverse (points : Points) (owners : Owners) : Type 0 where
  pub owned :
      (label : String) (point : Point)
      → find label points ≡ some point
      → owner_of point owners ≡ some label
  pub named :
      (label : String) (point : Point)
      → owner_of point owners ≡ some label
      → find label points ≡ some point

-- The label names no other point, and the point has no other label.
abbrev pub MayBind : String → Point → Points → Owners → Type 0
MayBind label point points owners =
    ((find label points ≡ none) ⊎ (find label points ≡ some point))
    × ((owner_of point owners ≡ none) ⊎ (owner_of point owners ≡ some label))

module _ (label : String) (point : Point) (points : Points) (owners : Owners)
    (may : MayBind label point points owners) (inv : IsInverse points owners) where
  owned_after :
      (l : String) (p : Point)
      → find l (set label point points) ≡ some p
      → owner_of p (set_owner point label owners) ≡ some l
  owned_after l p h = elim (Bool-cases (str_eq l label)) [
    | inl same ↦
        let e : l ≡ label = (eq_iff l label).0 same in
        let found : find l (set label point points) ≡ some point =
          rw e (find-set label point points) in
        let q : p ≡ point = cc (h, found) in rw (q, e) (owner-set point label owners)
    | inr other ↦
        let ne : l ≢ label = λ e. cc ((eq_iff l label).1 e, other) in
        let had : find l points ≡ some p = sym (find-set_ne l label point points ne) ∙ h in
        let owner = inv.owned l p had in
        let apart : p ≢ point = λ e. ne (ground (arith, may.1, owner, e)) in
        owner-set_ne p point label owners apart ∙ owner
  ]

  named_after :
      (l : String) (p : Point)
      → owner_of p (set_owner point label owners) ≡ some l
      → find l (set label point points) ≡ some p
  named_after l p h = elim (Bool-cases (same_point p point)) [
    | inl same ↦
        let e : p ≡ point = same_point-eq p point same in
        let found : owner_of p (set_owner point label owners) ≡ some label =
          rw e (owner-set point label owners) in
        let q : l ≡ label = cc (h, found) in rw (q, e) (find-set label point points)
    | inr other ↦
        let ne : p ≢ point = λ e. cc ((same_point_iff p point).1 e, other) in
        let had : owner_of p owners ≡ some l = sym (owner-set_ne p point label owners ne) ∙ h in
        let name = inv.named l p had in
        let apart : l ≢ label = λ e. ne (ground (arith, may.0, name, e)) in
        find-set_ne l label point points apart ∙ name
  ]

  set-IsInverse : IsInverse (set label point points) (set_owner point label owners)
  set-IsInverse = record { owned = owned_after; named = named_after }

-- What a passed check says of every minted label.
abbrev pub Distinct : String → Point → Points → Type 0
Distinct label point = All (λ e. (e.0 ≢ label) × (e.1 ≢ point))

abbrev pub MayBindAll : Points → Points → Owners → Type 0
MayBindAll [] points owners = Unit
MayBindAll ((label, point) ∷ minted) points owners =
    MayBind label point points owners
    × Distinct label point minted
    × MayBindAll minted points owners

MayBindAll-set :
    (label : String) (point : Point) (minted points : Points) (owners : Owners)
    → Distinct label point minted
    → MayBindAll minted points owners
    → MayBindAll minted (set label point points) (set_owner point label owners)
MayBindAll-set label point [] points owners d m = tt
MayBindAll-set label point ((l, p) ∷ minted) points owners d m = (
  (
    rw (find-set_ne l label point points d.0.0) m.0.0,
    rw (owner-set_ne p point label owners d.0.1) m.0.1,
  ),
  m.1,
  MayBindAll-set label point minted points owners d.1 m.2,
)

pub all_set-IsInverse :
    (minted points : Points) (owners : Owners)
    → MayBindAll minted points owners
    → IsInverse points owners
    → IsInverse (all_set minted points) (all_owned minted owners)
unfolding all_set all_owned
all_set-IsInverse [] points owners may inv = inv
all_set-IsInverse ((label, point) ∷ minted) points owners may inv =
    all_set-IsInverse minted (set label point points) (set_owner point label owners)
      (MayBindAll-set label point minted points owners may.1 may.2)
      (set-IsInverse label point points owners may.0 inv)

-- A label keeps its point when others are minted.
all_set-keeps :
    (label : String) (point : Point) (minted points : Points)
    → Distinct label point minted
    → find label points ≡ some point
    → find label (all_set minted points) ≡ some point
unfolding all_set
all_set-keeps label point [] points d h = h
all_set-keeps label point ((l, p) ∷ minted) points d h =
    all_set-keeps label point minted (set l p points) d.1
      (find-set_ne label l p points (λ e. d.0.0 (sym e)) ∙ h)

pub all_set-minted :
    (minted points : Points) (owners : Owners)
    → MayBindAll minted points owners
    → All (λ e. find e.0 (all_set minted points) ≡ some e.1) minted
unfolding all_set
all_set-minted [] points owners may = tt
all_set-minted ((label, point) ∷ minted) points owners may = (
  all_set-keeps label point minted (set label point points) may.1 (find-set label point points),
  all_set-minted minted (set label point points) (set_owner point label owners)
      (MayBindAll-set label point minted points owners may.1 may.2),
)

-- A label that had a point has it still.
pub all_set-kept :
    (l : String) (p : Point) (minted points : Points) (owners : Owners)
    → MayBindAll minted points owners
    → find l points ≡ some p
    → find l (all_set minted points) ≡ some p
unfolding all_set
all_set-kept l p [] points owners may h = h
all_set-kept l p ((label, point) ∷ minted) points owners may h =
    all_set-kept l p minted (set label point points) (set_owner point label owners)
      (MayBindAll-set label point minted points owners may.1 may.2)
      (elim (Bool-cases (str_eq l label)) [
        | inl same ↦
            let e : l ≡ label = (eq_iff l label).0 same in
            let at_label : find label points ≡ some p = rw (← e) h in
            let q : point ≡ p = ground (arith, may.0.0, at_label) in
            rw (e, q) (find-set label p points)
        | inr other ↦ find-set_ne l label point points (λ e. cc ((eq_iff l label).1 e, other)) ∙ h
      ])
