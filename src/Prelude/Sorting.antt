-- ===== src/Prelude/Sorting.antt =====
-- Python's stable `sorted`, and why its result does not depend on the order of distinct keys.
use Prim.Native.Nat.{ℕ, suc}
use mathlib.Core.Path.{◌≡◌, refl, sym, ap, ap₂, subst, ◌∙◌}
use mathlib.Core.Logic.{◌≢◌, inl, inr}
use mathlib.Core.Bool.{Bool}
use mathlib.Core.List.{List, [], ◌∷◌, Permᴰ}
use native.Mathlib.Omega.{arith}
use graphed.Prelude.Tests.{leb, if◌then◌else◌, Bool-cases}
use graphed.Prelude.Lists.{length, All}

module _ {ℓ} {A : Type ℓ} (le : A → A → Bool) where
  -- Before the first element that is not smaller: equal elements keep their order.
  unfoldable pub insert : A → List A → List A
  insert x [] = x ∷ []
  insert x (y ∷ ys) = if le x y then x ∷ y ∷ ys else y ∷ insert x ys

  -- `sorted(items, key=…)`, with the order of the keys as `le`
  unfoldable pub sorted : List A → List A
  unfolding insert
  sorted [] = []
  sorted (x ∷ xs) = insert x (sorted xs)

module _ {ℓ} {A : Type ℓ} (key : A → ℕ) where
  -- `key(a) <= key(b)`
  abbrev pub by_key : A → A → Bool
  by_key a b = leb (key a) (key b)

  -- The key `k` is no element's.
  abbrev pub Fresh : ℕ → List A → Type 0
  Fresh k [] = Unit
  Fresh k (x ∷ xs) = (k ≢ key x) × Fresh k xs

  -- No two elements have one key.
  abbrev pub DistinctKeys : List A → Type 0
  DistinctKeys [] = Unit
  DistinctKeys (x ∷ xs) = Fresh (key x) xs × DistinctKeys xs

  insert-insert :
      (x y : A) (l : List A)
      → key x ≢ key y
      → insert by_key x (insert by_key y l) ≡ insert by_key y (insert by_key x l)
  unfolding insert
  insert-insert x y [] ne = ground arith
  insert-insert x y (z ∷ l) ne = ground (arith, insert-insert x y l)

  pub length-insert : (x : A) (l : List A) → length (insert by_key x l) ≡ suc (length l)
  unfolding insert
  length-insert x [] = refl
  length-insert x (z ∷ l) = ground (arith, length-insert x l)

  pub length-sorted : (l : List A) → length (sorted by_key l) ≡ length l
  unfolding sorted
  length-sorted [] = refl
  length-sorted (x ∷ l) = length-insert x (sorted by_key l) ∙ ap suc (length-sorted l)

  Fresh-perm : {l l' : List A} (k : ℕ) → Permᴰ l l' → Fresh k l → Fresh k l'
  Fresh-perm k Permᴰ.nil h = h
  Fresh-perm k (Permᴰ.cons e p) h = (rw e at (h.0), Fresh-perm k p h.1)
  Fresh-perm k (Permᴰ.swap e f) h = (rw f at (h.1.0), (rw e at (h.0), h.1.1))
  Fresh-perm k (Permᴰ.trans p q) h = Fresh-perm k q (Fresh-perm k p h)

  DistinctKeys-perm : {l l' : List A} → Permᴰ l l' → DistinctKeys l → DistinctKeys l'
  DistinctKeys-perm Permᴰ.nil h = h
  DistinctKeys-perm (Permᴰ.cons {a} {b} {l₁} {l₂} e p) h =
      (rw (ap key e) at (Fresh-perm (key a) p h.0), DistinctKeys-perm p h.1)
  DistinctKeys-perm (Permᴰ.swap {l = l} e f) h = (
    ((λ q. h.0.0 (ap key e ∙ sym q ∙ ap key (sym f))), subst (λ x. Fresh (key x) l) f h.1.0),
    (subst (λ x. Fresh (key x) l) e h.0.1, h.1.1),
  )
  DistinctKeys-perm (Permᴰ.trans p q) h = DistinctKeys-perm q (DistinctKeys-perm p h)

  -- Lists of the same elements, with distinct keys, have one sorted list.
  pub sorted-permᴰ :
      {l l' : List A} → Permᴰ l l' → DistinctKeys l → sorted by_key l ≡ sorted by_key l'
  unfolding sorted
  sorted-permᴰ Permᴰ.nil h = refl
  sorted-permᴰ (Permᴰ.cons e p) h = ap₂ (insert by_key) e (sorted-permᴰ p h.1)
  sorted-permᴰ (Permᴰ.swap {a} {b} {l = l} e f) h =
      rw (← e, ← f) (insert-insert a b (sorted by_key l) h.0.0)
  sorted-permᴰ (Permᴰ.trans p q) h = sorted-permᴰ p h ∙ sorted-permᴰ q (DistinctKeys-perm p h)

-- Sorting keeps what holds of every element.
module _ {ℓ κ} {A : Type ℓ} (P : A → Type κ) (le : A → A → Bool) where
  All-insert : (x : A) (l : List A) → P x → All P l → All P (insert le x l)
  unfolding insert
  All-insert x [] h k = (h, tt)
  All-insert x (y ∷ ys) h k = elim (Bool-cases (le x y)) [
    | inl e ↦ rw e (h, k)
    | inr e ↦ rw e (k.0, All-insert x ys h k.1)
  ]

  pub All-sorted : (l : List A) → All P l → All P (sorted le l)
  unfolding sorted
  All-sorted [] h = tt
  All-sorted (x ∷ l) h = All-insert x (sorted le l) h.0 (All-sorted l h.1)
