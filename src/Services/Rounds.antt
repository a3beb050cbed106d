-- ===== src/Services/Rounds.antt =====
-- How often `_require_parts` goes round: each pass that goes on names one more service.
use graphed.Prelude.{
  ℕ, zero, suc, ◌≤◌, ◌<◌, ◌≡◌, refl, sym, Bool-cases, inl, inr, String, Bool, true, false, ◌||◌,
  List, [], ◌∷◌, ◌++◌, if◌then◌else◌, length, All, arith, eq_iff,
}
use graphed.Prelude.Text.{str_eq}
use graphed.Outcome.{
  exception, too_many_failed, unbound_services, interrupt, Outcome, returns, raises, hangs,
  and_then,
}
use graphed.Services.{Part, ends, again, has_name, bind_each, after_binding, require_parts}

-- `name` is one of `needs`.
abbrev pub is_needed : String → List String → Bool
is_needed name [] = false
is_needed name (n ∷ needs) = if str_eq n name then true else is_needed name needs

-- A part's binding ends, and a service that it misses first is one of `needs`.
abbrev pub NamesIn : List String → Outcome (Unit {0}) → Type 0
NamesIn needs (raises (unbound_services (name ∷ more))) = is_needed name needs ≡ true
NamesIn needs (raises e) = Unit
NamesIn needs (returns u) = Unit
NamesIn needs hangs = ⊥

abbrev pub Asks : List String → Part → Type 0
Asks needs part = (endpoints : List (String × String)) → NamesIn needs (part endpoints)

bind_each-NamesIn :
    (needs : List String) (parts : List Part) (missing : List (String × String))
    → All (Asks needs) parts
    → NamesIn needs (bind_each parts missing)
unfolding bind_each
bind_each-NamesIn needs [] missing h = tt
bind_each-NamesIn needs (part ∷ parts) missing h =
    after (bind_each-NamesIn needs parts missing h.1) (part missing) (h.0 missing)
  where
    after :
        NamesIn needs (bind_each parts missing)
        → (o : Outcome (Unit {0})) → NamesIn needs o
        → NamesIn needs (and_then o (λ _. bind_each parts missing))
    after ih (returns u) k = ih
    after ih (raises (unbound_services (name ∷ more))) k = k
    after ih (raises (unbound_services [])) k = k
    after ih (raises (exception e)) k = k
    after ih (raises (too_many_failed e)) k = k
    after ih (raises (interrupt e)) k = k
    after ih hangs k = k

-- How many of `needs` have no name in `missing` yet.
unnamed : List String → List (String × String) → ℕ
unnamed [] missing = 0
unnamed (n ∷ needs) missing =
    if has_name n missing then unnamed needs missing else suc (unnamed needs missing)

pub has_name-append :
    (n : String) (ms ns : List (String × String))
    → has_name n (ms ++ ns) ≡ (has_name n ms || has_name n ns)
unfolding has_name
has_name-append n [] ns = refl
has_name-append n ((m, e) ∷ ms) ns = ground (arith, has_name-append n ms ns)

pub has_name-added :
    (n : String) (missing : List (String × String)) (endpoint : String)
    → has_name n (missing ++ (n, endpoint) ∷ []) ≡ true
unfolding has_name
has_name-added n missing endpoint =
    ground (arith, has_name-append n missing ((n, endpoint) ∷ []), (eq_iff n n).1 refl)

-- Naming one more service never adds to those left …
unnamed-le :
    (needs : List String) (missing : List (String × String)) (x : String × String)
    → unnamed needs (missing ++ x ∷ []) ≤ unnamed needs missing
unfolding unnamed
unnamed-le [] missing x = omega arith
unnamed-le (n ∷ needs) missing x =
    ground (arith, unnamed-le needs missing x, has_name-append n missing (x ∷ []))

-- … and takes one away if it was needed and had no name.
unnamed-lt :
    (needs : List String) (missing : List (String × String)) (name endpoint : String)
    → is_needed name needs ≡ true
    → has_name name missing ≡ false
    → unnamed needs (missing ++ (name, endpoint) ∷ []) < unnamed needs missing
unfolding unnamed has_name
unnamed-lt [] missing name endpoint h k = absurd (cc h)
unnamed-lt (n ∷ needs) missing name endpoint h k =
    go (str_eq n name) refl (λ h'. unnamed-lt needs missing name endpoint h' k)
  where
    go :
        (b : Bool)
        → str_eq n name ≡ b
        → (is_needed name needs ≡ true
            → unnamed needs (missing ++ (name, endpoint) ∷ []) < unnamed needs missing)
        → unnamed (n ∷ needs) (missing ++ (name, endpoint) ∷ []) < unnamed (n ∷ needs) missing
    go true e ih =
        let same : name ≡ n = sym ((eq_iff n name).0 e) in
        let rest = unnamed-le needs missing (name, endpoint) in
        let named = has_name-append name missing ((name, endpoint) ∷ []) in
        rw (← same) (ground (arith, rest, named, k, (eq_iff name name).1 refl))
    go false e ih =
        let ih' = ih (simp e at h) in
        let named = has_name-append n missing ((name, endpoint) ∷ []) in ground (arith, ih', named)

ends_returns :
    (missing : List (String × String)) (rest : List (String × String) → Outcome (Unit {0}))
    → ¬ elim (after_binding missing (returns tt)) [ ends r ↦ r | again missing' ↦ rest missing' ]
      ≡ hangs
unfolding after_binding
ends_returns [] rest e = cc e
ends_returns (m ∷ missing) rest e = cc e

require_parts-some :
    (needs : List String) (parts : List Part) (missing : List (String × String)) (rounds : ℕ)
    → All (Asks needs) parts
    → unnamed needs missing < rounds
    → ¬ require_parts rounds parts missing ≡ hangs
unfolding require_parts after_binding
require_parts-some needs parts missing zero h few = absurd (omega arith)
require_parts-some needs parts missing (suc rounds) h few =
    pass (bind_each parts missing) (bind_each-NamesIn needs parts missing h)
      (λ missing' few'. require_parts-some needs parts missing' rounds h few')
  where
    pass :
        (o : Outcome (Unit {0}))
        → NamesIn needs o
        → ((missing' : List (String × String))
            → unnamed needs missing' < rounds
            → ¬ require_parts rounds parts missing' ≡ hangs)
        → ¬ elim (after_binding missing o) [
          | ends r ↦ r
          | again missing' ↦ require_parts rounds parts missing'
        ]
          ≡ hangs
    pass (returns u) k ih never = ends_returns missing (require_parts rounds parts) never
    pass (raises (unbound_services (name ∷ more))) k ih never =
        elim (Bool-cases (has_name name missing)) [
          | inl known ↦ cc (known, never)
          | inr unknown ↦
              ih (missing ++ (name, "tcp://unbound:0") ∷ [])
                (omega (arith, unnamed-lt needs missing name "tcp://unbound:0" k unknown))
                (simp unknown at never)
        ]
    pass (raises (unbound_services [])) k ih never = cc never
    pass (raises (exception e)) k ih never = cc never
    pass (raises (too_many_failed e)) k ih never = cc never
    pass (raises (interrupt e)) k ih never = cc never
    pass hangs k ih never = k

unnamed-nil : (needs : List String) → unnamed needs [] ≡ length needs
unfolding unnamed has_name
unnamed-nil [] = refl
unnamed-nil (n ∷ needs) = omega (arith, unnamed-nil needs)

-- One pass more than there are services is enough for the loop to end, whatever the parts return or
-- raise, if each part's binding ends and asks first for one of `needs` when services are missing.
pub require_parts-ends :
    (needs : List String) (parts : List Part)
    → All (Asks needs) parts
    → ¬ require_parts (suc (length needs)) parts [] ≡ hangs
require_parts-ends needs parts h =
    require_parts-some needs parts [] (suc (length needs)) h (omega (arith, unnamed-nil needs))
