-- ===== src/Services/Gathering.antt =====
-- What `_require_parts` gathers from a part that asks for its services one at a time.
use graphed.Prelude.{
  ℕ, zero, suc, ◌<◌, ◌≡◌, refl, ap, ◌∙◌, subst, Bool-cases, inl, inr, String, Bool, true, false,
  ◌||◌, List, [], ◌∷◌, ◌++◌, if◌then◌else◌, length, All, All-append, append_assoc, arith, eq_iff,
}
use graphed.Prelude.Text.{str_eq}
use graphed.Outcome.{unbound_services, Outcome, returns, raises, and_then}
use graphed.Services.{
  Part, ends, again, has_name, bind_each, after_binding, unbound_error, require_parts,
}
use graphed.Services.Rounds.{is_needed, NamesIn, Asks, has_name-append, has_name-added}

-- A part that asks for `needs` in turn: it raises for the first that has no endpoint.
unfoldable pub ask : List String → Part
ask [] endpoints = returns tt
ask (n ∷ needs) endpoints =
    if has_name n endpoints then ask needs endpoints else raises (unbound_services (n ∷ []))

-- Each of `needs` that has no name yet, added at the end once.
unfoldable pub with_names : List String → List (String × String) → List (String × String)
with_names [] missing = missing
with_names (n ∷ needs) missing =
    if has_name n missing
    then with_names needs missing
    else with_names needs (missing ++ (n, "tcp://unbound:0") ∷ [])

-- What the check says when the loop has gathered `missing`.
abbrev pub verdict : List (String × String) → Outcome (Unit {0})
verdict [] = returns tt
verdict (m ∷ missing) = raises (unbound_error (m ∷ missing))

abbrev Named : List (String × String) → List String → Type 0
Named missing = All (λ n. has_name n missing ≡ true)

Named-append :
    (pre : List String) (missing : List (String × String)) (x : String × String)
    → Named missing pre
    → Named (missing ++ x ∷ []) pre
Named-append [] missing x h = tt
Named-append (n ∷ pre) missing x h =
    (ground (arith, h.0, has_name-append n missing (x ∷ [])), Named-append pre missing x h.1)

ask-Named :
    (pre ns : List String) (missing : List (String × String))
    → Named missing pre
    → ask (pre ++ ns) missing ≡ ask ns missing
unfolding ask
ask-Named [] ns missing h = refl
ask-Named (n ∷ pre) ns missing h = rw h.0 (ask-Named pre ns missing h.1)

returns-verdict :
    (missing : List (String × String)) (rest : List (String × String) → Outcome (Unit {0}))
    → elim (after_binding missing (returns tt)) [ ends r ↦ r | again missing' ↦ rest missing' ]
      ≡ verdict missing
unfolding after_binding
returns-verdict [] rest = refl
returns-verdict (m ∷ missing) rest = refl

raises-again :
    (n : String) (missing : List (String × String))
    (rest : List (String × String) → Outcome (Unit {0}))
    → has_name n missing ≡ false
    → elim (after_binding missing (raises (unbound_services (n ∷ [])))) [
      | ends r ↦ r
      | again missing' ↦ rest missing'
    ]
      ≡ rest (missing ++ (n, "tcp://unbound:0") ∷ [])
unfolding after_binding
raises-again n missing rest e = simp e

one_pass :
    (part : Part) (missing : List (String × String)) (rounds : ℕ) (o : Outcome (Unit {0}))
    → part missing ≡ o
    → require_parts (suc rounds) (part ∷ []) missing
      ≡ elim (after_binding missing (and_then o (λ _. returns tt))) [
        | ends r ↦ r
        | again missing' ↦ require_parts rounds (part ∷ []) missing'
      ]
unfolding require_parts bind_each
one_pass part missing rounds o e =
    ap
      (λ o. elim (after_binding missing (and_then o (λ _. returns tt))) [
        | ends r ↦ r
        | again missing' ↦ require_parts rounds (part ∷ []) missing'
      ])
      e

ask-unnamed :
    (n : String) (ns : List String) (missing : List (String × String))
    → has_name n missing ≡ false
    → ask (n ∷ ns) missing ≡ raises (unbound_services (n ∷ []))
unfolding ask
ask-unnamed n ns missing e = simp e

require_parts-ask :
    (pre ns : List String) (missing : List (String × String)) (rounds : ℕ)
    → Named missing pre
    → length ns < rounds
    → require_parts rounds (ask (pre ++ ns) ∷ []) missing ≡ verdict (with_names ns missing)
unfolding with_names ask
require_parts-ask pre [] missing (suc rounds) h few =
    one_pass (ask (pre ++ [])) missing rounds (returns tt) (ask-Named pre [] missing h)
    ∙ returns-verdict missing _
require_parts-ask pre (n ∷ ns) missing (suc rounds) h few =
    let shift = append_assoc pre (n ∷ []) ns in
    let x : String × String = (n, "tcp://unbound:0") in
    elim (Bool-cases (has_name n missing)) [
      | inl known ↦ rw known (
          subst
            (λ l. require_parts (suc rounds) (ask l ∷ []) missing ≡ verdict (with_names ns missing))
            shift
            (require_parts-ask (pre ++ n ∷ []) ns missing (suc rounds)
              (All-append _ pre (n ∷ []) h (known, tt)) (omega arith)))
      | inr unknown ↦
          let named : has_name n (missing ++ x ∷ []) ≡ true =
            has_name-added n missing "tcp://unbound:0" in
          rw unknown (
            one_pass (ask (pre ++ n ∷ ns)) missing rounds (raises (unbound_services (n ∷ [])))
              (ask-Named pre (n ∷ ns) missing h ∙ ask-unnamed n ns missing unknown)
            ∙ raises-again n missing _ unknown
            ∙ subst
                (λ l.
                  require_parts rounds (ask l ∷ []) (missing ++ x ∷ [])
                  ≡ verdict (with_names ns (missing ++ x ∷ [])))
                shift
                (require_parts-ask (pre ++ n ∷ []) ns (missing ++ x ∷ []) rounds
                  (All-append _ pre (n ∷ []) (Named-append pre missing x h) (named, tt))
                  (omega arith)))
    ]
require_parts-ask pre ns missing zero h few = absurd (omega arith)

has_name-with_names :
    (needs : List String) (missing : List (String × String)) (name : String)
    → has_name name (with_names needs missing) ≡ (has_name name missing || is_needed name needs)
unfolding with_names has_name
has_name-with_names [] missing name = ground arith
has_name-with_names (n ∷ needs) missing name =
    let grown = missing ++ (n, "tcp://unbound:0") ∷ [] in
    let added = has_name-append name missing ((n, "tcp://unbound:0") ∷ []) in
    let kept = has_name-with_names needs missing name in
    let more = has_name-with_names needs grown name in
    elim (Bool-cases (str_eq n name)) [
      | inl e ↦ ground (
        arith,
        e,
        added,
        kept,
        more,
        eq_iff n name,
        ap (λ m. has_name m missing) ((eq_iff n name).0 e),
      )
      | inr e ↦ ground (arith, e, added, kept, more)
    ]

-- A part that asks for `needs` in turn is asked once for each name and no more: the check passes if
-- it needs nothing, and otherwise raises one error with the sorted names it has gathered, which are
-- exactly the names of `needs`.
pub require_parts-verdict :
    (needs : List String)
    → (require_parts (suc (length needs)) (ask needs ∷ []) [] ≡ verdict (with_names needs []))
      × ((name : String) → has_name name (with_names needs []) ≡ is_needed name needs)
unfolding has_name
require_parts-verdict needs = (
  require_parts-ask [] needs [] (suc (length needs)) tt (omega arith),
  has_name-with_names needs [],
)

-- Such a part only asks for what it needs.
pub ask-Asks :
    (needs ns : List String) → All (λ n. is_needed n needs ≡ true) ns → Asks needs (ask ns)
unfolding ask
ask-Asks needs [] h endpoints = tt
ask-Asks needs (n ∷ ns) h endpoints = go (has_name n endpoints) (ask-Asks needs ns h.1 endpoints)
  where
    go :
        (b : Bool)
        → NamesIn needs (ask ns endpoints)
        → NamesIn needs (if b then ask ns endpoints else raises (unbound_services (n ∷ [])))
    go true k = k
    go false k = h.0
