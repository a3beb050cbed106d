-- ===== src/Document.antt =====
-- JSON documents as Python holds them, for core/plan.py and core/services.py: a dict is its items in
-- the order of insertion, a float is its `repr`. What `json.dumps(..., sort_keys=True)` makes of a
-- document is its `sorted_json` as bytes.
pub mod Sorted
use graphed.Prelude.{ℕ, String, Option, none, some, List, [], ◌∷◌, if◌then◌else◌}
use graphed.Prelude.Text.{str_eq, str_leb, repr}
use graphed.Outcome.{Exn, exception, plain, type_error, Outcome, returns, raises, and_then}

mutual
  pub data JsonValue : Type 0 where
    text float : String → JsonValue
    number : ℕ → JsonValue
    null : JsonValue
    array : Elements → JsonValue
    object : Members → JsonValue

  pub data Elements : Type 0 where
    nil : Elements
    cons : JsonValue → Elements → Elements

  pub data Members : Type 0 where
    end : Members
    member : String → JsonValue → Members → Members

-- `{**first, **second}`, where no key is in both
unfoldable pub joined : Members → Members → Members
joined end second = second
joined (member k j first) second = member k j (joined first second)

-- `d.get(key)`
unfoldable pub member_at : String → Members → Option JsonValue
member_at key end = none
member_at key (member k j d) = if str_eq k key then some j else member_at key d

abbrev pub key_error : String → Exn
key_error key = exception (plain "KeyError" (repr key))

-- `d[key]`
abbrev pub item : String → Members → Outcome JsonValue
item key d = elim (member_at key d) [ none ↦ raises (key_error key) | some j ↦ returns j ]

-- The values that the readers take: what Python makes of a value of another type is a TypeError.
abbrev pub as_text : JsonValue → Outcome String
as_text (text s) = returns s
as_text _ = raises (type_error "not a text")

abbrev pub as_number : JsonValue → Outcome ℕ
as_number (number n) = returns n
as_number _ = raises (type_error "not a number")

abbrev pub as_object : JsonValue → Outcome Members
as_object (object d) = returns d
as_object _ = raises (type_error "not an object")

abbrev pub as_array : JsonValue → Outcome Elements
as_array (array xs) = returns xs
as_array _ = raises (type_error "not an array")

abbrev pub text_at : String → Members → Outcome String
text_at key d = and_then (item key d) as_text

abbrev pub number_at : String → Members → Outcome ℕ
number_at key d = and_then (item key d) as_number

abbrev pub object_at : String → Members → Outcome Members
object_at key d = and_then (item key d) as_object

abbrev pub array_at : String → Members → Outcome Elements
array_at key d = and_then (item key d) as_array

-- `d.get(key, default)`
abbrev pub text_or : String → String → Members → Outcome String
text_or default key d = elim (member_at key d) [ none ↦ returns default | some j ↦ as_text j ]

abbrev pub number_or : ℕ → String → Members → Outcome ℕ
number_or default key d = elim (member_at key d) [ none ↦ returns default | some j ↦ as_number j ]

module _ {ℓ} {A : Type ℓ} where
  -- `[write(a) for a in items]`
  unfoldable pub elements : (A → JsonValue) → List A → Elements
  elements write [] = nil
  elements write (a ∷ items) = cons (write a) (elements write items)

  -- `tuple(read(j) for j in array)`
  unfoldable pub read_each : (JsonValue → Outcome A) → Elements → Outcome (List A)
  read_each read nil = returns []
  read_each read (cons j rest) =
      and_then (read j) λ a. and_then (read_each read rest) λ items. returns (a ∷ items)

-- `sorted(d.items())` of a dict, one item after another.
unfoldable pub insert_sorted : String → JsonValue → Members → Members
insert_sorted k j end = member k j end
insert_sorted k j (member k' j' d) =
    let later = insert_sorted k j d in
    if str_leb k k' then member k j (member k' j' d) else member k' j' later

-- `dict(sorted(mapping.items()))`
unfoldable pub sorted_items : Members → Members
sorted_items end = end
sorted_items (member k j d) = insert_sorted k j (sorted_items d)

unfoldable mutual
  pub sorted_json : JsonValue → JsonValue
  sorted_json (text s) = text s
  sorted_json (float s) = float s
  sorted_json (number n) = number n
  sorted_json null = null
  sorted_json (array xs) = array (sorted_elements xs)
  sorted_json (object d) = object (sorted_members d)

  pub sorted_elements : Elements → Elements
  sorted_elements nil = nil
  sorted_elements (cons j xs) = cons (sorted_json j) (sorted_elements xs)

  pub sorted_members : Members → Members
  sorted_members end = end
  sorted_members (member k j d) = insert_sorted k (sorted_json j) (sorted_members d)
