-- ===== src/Services/Verdict.antt =====
-- The error that `_require_parts` ends in: which names it lists, and how.
use graphed.Prelude.{
  ℕ, zero, suc, ◌≡◌, refl, sym, ap, ◌∙◌, Bool-cases, inl, inr, String, Bool, true, false, ◌||◌,
  List, [], ◌∷◌, ◌++◌, map, length, arith, eq_iff,
}
use graphed.Prelude.Text.{str_eq, str_leb}
use graphed.Prelude.Sorting.{insert, sorted}
use graphed.Document.Sorted.{str_leb-total}
use graphed.Outcome.{unbound_services, Outcome, returns, raises, hangs, and_then}
use graphed.Services.{
  Part, Pass, ends, again, names, has_name, bind_each, after_binding, unbound_error, require_parts,
}
use graphed.Services.Rounds.{is_needed}
use graphed.Services.Gathering.{ask, with_names, verdict, require_parts-verdict}

-- No text stands before a smaller one, and none stands twice.
abbrev leads : String → List String → Bool
leads x [] = true
leads x (y ∷ ys) = str_leb x y

abbrev pub IsAscending : List String → Type 0
IsAscending [] = Unit
IsAscending (x ∷ xs) = (leads x xs ≡ true) × IsAscending xs

abbrev pub AreDistinct : List String → Type 0
AreDistinct [] = Unit
AreDistinct (x ∷ xs) = (is_needed x xs ≡ false) × AreDistinct xs

insert-leads :
    (x y : String) (l : List String)
    → str_leb y x ≡ true
    → leads y l ≡ true
    → leads y (insert str_leb x l) ≡ true
unfolding insert
insert-leads x y [] h k = h
insert-leads x y (z ∷ l) h k = ground (arith, h, k)

insert-IsAscending :
    (x : String) (l : List String) → IsAscending l → IsAscending (insert str_leb x l)
unfolding insert
insert-IsAscending x [] h = (refl, tt)
insert-IsAscending x (y ∷ l) h = elim (Bool-cases (str_leb x y)) [
  | inl before ↦ rw before (before, h)
  | inr after ↦
      rw after (insert-leads x y l (str_leb-total x y after) h.0, insert-IsAscending x l h.1)
]

sorted-IsAscending : (l : List String) → IsAscending (sorted str_leb l)
unfolding sorted
sorted-IsAscending [] = tt
sorted-IsAscending (x ∷ l) = insert-IsAscending x (sorted str_leb l) (sorted-IsAscending l)

is_needed-insert :
    (n x : String) (l : List String) → is_needed n (insert str_leb x l) ≡ is_needed n (x ∷ l)
unfolding insert
is_needed-insert n x [] = refl
is_needed-insert n x (y ∷ l) = ground (arith, is_needed-insert n x l)

is_needed-sorted : (n : String) (l : List String) → is_needed n (sorted str_leb l) ≡ is_needed n l
unfolding sorted
is_needed-sorted n [] = refl
is_needed-sorted n (x ∷ l) =
    ground (arith, is_needed-insert n x (sorted str_leb l), is_needed-sorted n l)

insert-AreDistinct :
    (x : String) (l : List String)
    → is_needed x l ≡ false
    → AreDistinct l
    → AreDistinct (insert str_leb x l)
unfolding insert
insert-AreDistinct x [] h d = (refl, tt)
insert-AreDistinct x (y ∷ l) h d = elim (Bool-cases (str_leb x y)) [
  | inl before ↦ rw before (h, d)
  | inr after ↦ rw after (
    ground (arith, is_needed-insert y x l, h, d.0, eq_iff x y, eq_iff y x),
    insert-AreDistinct x l (ground (arith, h)) d.1,
  )
]

sorted-AreDistinct : (l : List String) → AreDistinct l → AreDistinct (sorted str_leb l)
unfolding sorted
sorted-AreDistinct [] d = tt
sorted-AreDistinct (x ∷ l) d =
    insert-AreDistinct x (sorted str_leb l) (is_needed-sorted x l ∙ d.0) (sorted-AreDistinct l d.1)

has_name-names :
    (n : String) (missing : List (String × String))
    → has_name n missing ≡ is_needed n (names missing)
unfolding has_name
has_name-names n [] = refl
has_name-names n ((m, e) ∷ missing) = ground (arith, has_name-names n missing)

is_needed-snoc :
    (n x e : String) (missing : List (String × String))
    → is_needed n (names (missing ++ (x, e) ∷ [])) ≡ (is_needed n (names missing) || str_eq x n)
is_needed-snoc n x e [] = ground arith
is_needed-snoc n x e ((m, f) ∷ missing) = ground (arith, is_needed-snoc n x e missing)

snoc-AreDistinct :
    (x e : String) (missing : List (String × String))
    → is_needed x (names missing) ≡ false
    → AreDistinct (names missing)
    → AreDistinct (names (missing ++ (x, e) ∷ []))
snoc-AreDistinct x e [] h d = (refl, tt)
snoc-AreDistinct x e ((m, f) ∷ missing) h d = (
  ground (arith, is_needed-snoc m x e missing, h, d.0, eq_iff x m, eq_iff m x),
  snoc-AreDistinct x e missing (ground (arith, h)) d.1,
)

with_names-AreDistinct :
    (needs : List String) (missing : List (String × String))
    → AreDistinct (names missing)
    → AreDistinct (names (with_names needs missing))
unfolding with_names
with_names-AreDistinct [] missing d = d
with_names-AreDistinct (n ∷ needs) missing d = elim (Bool-cases (has_name n missing)) [
  | inl known ↦ rw known (with_names-AreDistinct needs missing d)
  | inr unknown ↦ rw unknown (
      with_names-AreDistinct needs (missing ++ (n, "tcp://unbound:0") ∷ [])
        (snoc-AreDistinct n "tcp://unbound:0" missing (sym (has_name-names n missing) ∙ unknown) d))
]

-- Parts that each ask for their services in turn are bound as one that asks for all of them.
abbrev pub all_needs : List (List String) → List String
all_needs [] = []
all_needs (needs ∷ more) = needs ++ all_needs more

ask-append :
    (a b : List String) (missing : List (String × String))
    → ask (a ++ b) missing ≡ and_then (ask a missing) (λ _. ask b missing)
unfolding ask
ask-append [] b missing = refl
ask-append (n ∷ a) b missing = elim (Bool-cases (has_name n missing)) [
  | inl known ↦ rw known (ask-append a b missing)
  | inr unknown ↦ rw unknown refl
]

and_then_tt : (o : Outcome (Unit {0})) → and_then o (λ _. returns tt) ≡ o
and_then_tt (returns u) = refl
and_then_tt (raises e) = refl
and_then_tt hangs = refl

bind_each-ask :
    (needs : List (List String)) (missing : List (String × String))
    → bind_each (map ask needs) missing ≡ ask (all_needs needs) missing
unfolding bind_each ask
bind_each-ask [] missing = refl
bind_each-ask (a ∷ more) missing =
    ap (λ o. and_then (ask a missing) (λ _. o)) (bind_each-ask more missing)
    ∙ sym (ask-append a (all_needs more) missing)

alike :
    (rounds : ℕ) (parts parts' : List Part) (missing : List (String × String))
    → ((missing' : List (String × String)) → bind_each parts missing' ≡ bind_each parts' missing')
    → require_parts rounds parts missing ≡ require_parts rounds parts' missing
unfolding require_parts
alike zero parts parts' missing same = refl
alike (suc rounds) parts parts' missing same =
    ap (λ o. elim (after_binding missing o) [ ends r ↦ r | again m ↦ require_parts rounds parts m ])
      (same missing)
    ∙ go (after_binding missing (bind_each parts' missing)) (λ m. alike rounds parts parts' m same)
  where
    go :
        (pass : Pass)
        → ((m : List (String × String))
            → require_parts rounds parts m ≡ require_parts rounds parts' m)
        → elim pass [ ends r ↦ r | again m ↦ require_parts rounds parts m ]
          ≡ elim pass [ ends r ↦ r | again m ↦ require_parts rounds parts' m ]
    go (ends r) ih = refl
    go (again m) ih = ih m

-- The names of the one error that the check raises; there is none without a name.
abbrev pub refusal : List String → Outcome (Unit {0})
refusal [] = returns tt
refusal (n ∷ ns) = raises (unbound_services (n ∷ ns))

refusal-insert :
    (x : String) (l : List String)
    → raises (unbound_services (insert str_leb x l)) ≡ refusal (insert str_leb x l)
unfolding insert
refusal-insert x [] = refl
refusal-insert x (y ∷ l) = elim (Bool-cases (str_leb x y)) [
  | inl before ↦ rw before refl
  | inr after ↦ rw after refl
]

names_of_verdict :
    (missing : List (String × String)) → verdict missing ≡ refusal (sorted str_leb (names missing))
unfolding unbound_error sorted
names_of_verdict [] = refl
names_of_verdict (m ∷ missing) = refusal-insert m.0 (sorted str_leb (names missing))

-- Parts that each ask for services of theirs in turn: the check passes if none of them needs one, and
-- otherwise raises one error, whose names are exactly those that some part needs, each once and in
-- the order of texts. One pass more than there are needs is enough.
pub require_parts-refusal :
    (needs : List (List String))
    → (ns : List String) × (require_parts (suc (length (all_needs needs))) (map ask needs) []
        ≡ refusal ns)
      × IsAscending ns
      × AreDistinct ns
      × ((name : String) → is_needed name ns ≡ is_needed name (all_needs needs))
unfolding bind_each
require_parts-refusal needs =
    let all = all_needs needs in
    let gathered = with_names all [] in
    let (ends_so, exactly) = require_parts-verdict all in
    (
      sorted str_leb (names gathered),
      alike (suc (length all)) (map ask needs) (ask all ∷ []) []
            (λ m. bind_each-ask needs m ∙ sym (and_then_tt (ask all m)))
          ∙ ends_so
          ∙ names_of_verdict gathered,
      sorted-IsAscending (names gathered),
      sorted-AreDistinct (names gathered) (with_names-AreDistinct all [] tt),
      λ name.
          is_needed-sorted name (names gathered)
          ∙ sym (has_name-names name gathered)
          ∙ exactly name,
    )
