-- ===== src/Document/Sorted.antt =====
-- Sorting a document's keys changes no value that it is asked for, and is done once and for all.
use Prim.Native.Nat.{ℕ, Ordering, compare as compare_ℕ}
use Prim.Native.String
use Prim.Native.Char.{code}
use Prim.Native.String.compare as compare_text
use graphed.Prelude.{
  String, Bool, true, false, ◌≡◌, refl, sym, ◌∙◌, ap, ap₂, inl, inr, Option, none, some, arith,
  Bool-cases, eq_iff, List, [], ◌∷◌, All, map, if◌then◌else◌,
}
use graphed.Prelude.Text.{str_eq, str_leb}
use graphed.Outcome.{Outcome, returns}
use graphed.Document.{
  JsonValue, text, float, number, null, array, object, Elements, nil, cons, Members, end, member,
  member_at, insert_sorted, sorted_items, sorted_json, sorted_elements, sorted_members, elements,
  read_each,
}

str_leb_refl : (s : String) → str_leb s s ≡ true
str_leb_refl s = ground (arith, eq_iff s s)

abbrev changed : Option JsonValue → Option JsonValue
changed none = none
changed (some j) = some (sorted_json j)

member_at-insert_sorted :
    (key k : String) (j : JsonValue) (d : Members)
    → member_at key (insert_sorted k j d) ≡ member_at key (member k j d)
unfolding member_at insert_sorted
member_at-insert_sorted key k j end = refl
member_at-insert_sorted key k j (member k' j' d) = elim (Bool-cases (str_leb k k')) [
  | inl before ↦ rw before refl
  | inr after ↦ rw after (
      ground (
        arith,
        member_at-insert_sorted key k j d,
        eq_iff k key,
        eq_iff k' key,
        eq_iff k k',
        str_leb_refl k,
      ))
]

-- What is found in the sorted dict is what is found in the dict, sorted.
pub member_at-sorted_members :
    (key : String) (d : Members) → member_at key (sorted_members d) ≡ changed (member_at key d)
unfolding member_at sorted_members
member_at-sorted_members key end = refl
member_at-sorted_members key (member k j d) =
    member_at-insert_sorted key k (sorted_json j) (sorted_members d)
    ∙ found (str_eq k key) _ (member_at key d) (member_at-sorted_members key d)
  where
    found :
        (b : Bool) (o o' : Option JsonValue)
        → o ≡ changed o'
        → (if b then some (sorted_json j) else o) ≡ changed (if b then some j else o')
    found true o o' e = refl
    found false o o' e = e

opposite : Ordering → Ordering
opposite Ordering.lt = Ordering.gt
opposite Ordering.eq = Ordering.eq
opposite Ordering.gt = Ordering.lt

opposite-then :
    (o r : Ordering) → opposite (String.then o r) ≡ String.then (opposite o) (opposite r)
unfolding opposite
opposite-then Ordering.lt r = refl
opposite-then Ordering.eq r = refl
opposite-then Ordering.gt r = refl

compare_numbers : (m n : ℕ) → compare_ℕ n m ≡ opposite (compare_ℕ m n)
unfolding opposite
compare_numbers m n = ground arith

compare_texts : (s t : String) → String.compare t s ≡ opposite (String.compare s t)
unfolding opposite
compare_texts String.[] String.[] = refl
compare_texts String.[] (String.◌∷◌ d t) =
    rw (compare_text.nil-cons d t, compare_text.cons-nil d t) refl
compare_texts (String.◌∷◌ c s) String.[] =
    rw (compare_text.nil-cons c s, compare_text.cons-nil c s) refl
compare_texts (String.◌∷◌ c s) (String.◌∷◌ d t) =
    compare_text.cons-cons d c t s
    ∙ ap₂ String.then (compare_numbers (code c) (code d)) (compare_texts s t)
    ∙ sym (opposite-then (compare_ℕ (code c) (code d)) (String.compare s t))
    ∙ ap opposite (sym (compare_text.cons-cons c d s t))

pub str_leb-total : (s t : String) → str_leb s t ≡ false → str_leb t s ≡ true
unfolding opposite
str_leb-total s t h = ground (arith, compare_texts s t)

-- The keys are in order, each value sorted.
head_after : String → Members → Bool
head_after k end = true
head_after k (member k' j d) = str_leb k k'

mutual
  InOrder : JsonValue → Type 0
  InOrder (array xs) = ElementsInOrder xs
  InOrder (object d) = MembersInOrder d
  InOrder _ = Unit

  ElementsInOrder : Elements → Type 0
  ElementsInOrder nil = Unit
  ElementsInOrder (cons j xs) = InOrder j × ElementsInOrder xs

  MembersInOrder : Members → Type 0
  MembersInOrder end = Unit
  MembersInOrder (member k j d) = (head_after k d ≡ true) × InOrder j × MembersInOrder d

insert-head :
    (k k' : String) (j : JsonValue) (d : Members)
    → str_leb k' k ≡ true
    → head_after k' d ≡ true
    → head_after k' (insert_sorted k j d) ≡ true
unfolding insert_sorted head_after
insert-head k k' j end h after = h
insert-head k k' j (member k'' j' d) h after = ground (arith, h, after)

insert-InOrder :
    (k : String) (j : JsonValue) (d : Members)
    → InOrder j
    → MembersInOrder d
    → MembersInOrder (insert_sorted k j d)
unfolding insert_sorted MembersInOrder head_after
insert-InOrder k j end hj hd = (refl, hj, tt)
insert-InOrder k j (member k' j' d) hj (h, hj', hd) = elim (Bool-cases (str_leb k k')) [
  | inl before ↦ rw before (before, hj, (h, hj', hd))
  | inr after ↦
      rw after (insert-head k k' j d (str_leb-total k k' after) h, hj', insert-InOrder k j d hj hd)
]

mutual
  unfolding sorted_json InOrder

  sorted_json-InOrder : (j : JsonValue) → InOrder (sorted_json j)
  sorted_json-InOrder (text s) = tt
  sorted_json-InOrder (float s) = tt
  sorted_json-InOrder (number n) = tt
  sorted_json-InOrder null = tt
  sorted_json-InOrder (array xs) = sorted_elements-InOrder xs
  sorted_json-InOrder (object d) = sorted_members-InOrder d

  sorted_elements-InOrder : (xs : Elements) → ElementsInOrder (sorted_elements xs)
  sorted_elements-InOrder nil = tt
  sorted_elements-InOrder (cons j xs) = (sorted_json-InOrder j, sorted_elements-InOrder xs)

  sorted_members-InOrder : (d : Members) → MembersInOrder (sorted_members d)
  sorted_members-InOrder end = tt
  sorted_members-InOrder (member k j d) =
      insert-InOrder k (sorted_json j) (sorted_members d) (sorted_json-InOrder j)
        (sorted_members-InOrder d)

insert-first :
    (k : String) (j : JsonValue) (d : Members)
    → head_after k d ≡ true
    → insert_sorted k j d ≡ member k j d
unfolding insert_sorted head_after
insert-first k j end h = refl
insert-first k j (member k' j' d) h = rw h refl

mutual
  unfolding sorted_json InOrder

  sorted_json-of_order : (j : JsonValue) → InOrder j → sorted_json j ≡ j
  sorted_json-of_order (text s) h = refl
  sorted_json-of_order (float s) h = refl
  sorted_json-of_order (number n) h = refl
  sorted_json-of_order null h = refl
  sorted_json-of_order (array xs) h = ap array (sorted_elements-of_order xs h)
  sorted_json-of_order (object d) h = ap object (sorted_members-of_order d h)

  sorted_elements-of_order : (xs : Elements) → ElementsInOrder xs → sorted_elements xs ≡ xs
  sorted_elements-of_order nil h = refl
  sorted_elements-of_order (cons j xs) h =
      ap₂ cons (sorted_json-of_order j h.0) (sorted_elements-of_order xs h.1)

  sorted_members-of_order : (d : Members) → MembersInOrder d → sorted_members d ≡ d
  sorted_members-of_order end h = refl
  sorted_members-of_order (member k j d) (first, hj, hd) =
      ap₂ (insert_sorted k) (sorted_json-of_order j hj) (sorted_members-of_order d hd)
      ∙ insert-first k j d first

-- Sorting what is sorted changes nothing.
pub sorted_members-sorted_members :
    (d : Members) → sorted_members (sorted_members d) ≡ sorted_members d
sorted_members-sorted_members d =
    sorted_members-of_order (sorted_members d) (sorted_members-InOrder d)

pub sorted_json-sorted_json : (j : JsonValue) → sorted_json (sorted_json j) ≡ sorted_json j
sorted_json-sorted_json j = sorted_json-of_order (sorted_json j) (sorted_json-InOrder j)

sorted_items-of_order : (d : Members) → MembersInOrder d → sorted_items d ≡ d
unfolding sorted_items MembersInOrder
sorted_items-of_order end h = refl
sorted_items-of_order (member k j d) (first, hj, hd) =
    ap (insert_sorted k j) (sorted_items-of_order d hd) ∙ insert-first k j d first

-- So too where the items are sorted once more on the way.
pub sorted_again :
    (d : Members)
    → sorted_members (sorted_items (sorted_members (sorted_items d)))
      ≡ sorted_members (sorted_items d)
sorted_again d =
    ap sorted_members (
      sorted_items-of_order (sorted_members (sorted_items d))
        (sorted_members-InOrder (sorted_items d)))
    ∙ sorted_members-sorted_members (sorted_items d)

-- Documents of a list, each sorted alike.
pub elements-same {ℓ} :
    {A : Type ℓ} (write : A → JsonValue) (f : A → A)
    → ((a : A) → sorted_json (write (f a)) ≡ sorted_json (write a))
    → (items : List A)
    → sorted_elements (elements write (map f items)) ≡ sorted_elements (elements write items)
unfolding elements sorted_elements
elements-same write f h [] = refl
elements-same write f h (a ∷ items) = ap₂ cons (h a) (elements-same write f h items)

module _ {ℓ κ} {A B : Type ℓ} (P : A → Type κ) (f : A → B) where
  -- Values that are each read back, as `f` of them, are read back from a list.
  pub read_each-elements :
      (write : A → JsonValue) (read : JsonValue → Outcome B)
      → ((a : A) → P a → read (sorted_json (write a)) ≡ returns (f a))
      → (items : List A) → All P items
      → read_each read (sorted_elements (elements write items)) ≡ returns (map f items)
  unfolding read_each elements sorted_elements
  read_each-elements write read h [] all = refl
  read_each-elements write read h (a ∷ items) (p, all) =
      rw (h a p, read_each-elements write read h items all) refl

pub always {ℓ} : {A : Type ℓ} (items : List A) → All (λ _. Unit {0}) items
always [] = tt
always (a ∷ items) = (tt, always items)

pub map-same {ℓ} : {A : Type ℓ} (items : List A) → map (λ a. a) items ≡ items
map-same [] = refl
map-same (a ∷ items) = ap (λ l. a ∷ l) (map-same items)
