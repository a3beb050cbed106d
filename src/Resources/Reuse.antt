-- ===== src/Resources/Reuse.antt =====
-- A uri that was opened stays open for the next call: `open_once` opens it once.
use graphed.Prelude.{◌+◌, ◌≤◌, ◌≡◌, refl, String, Option, none, some, [], ◌∷◌, ◌++◌}
use graphed.Outcome.{Outcome, returns, raises, hangs, Exec, pure, continue}
use graphed.Outcome.Inversion.{continue-eq-returns}
use graphed.Resources.{Resources, lookup, remove, opened, evict, found_or_opened, open_once}
use graphed.Resources.Bounded.{
  IsBounded, opened_lem, lookup-tail_if_over, lookup-snoc_self, lookup-remove_self,
}

module _ {H W : Type 0} (closer : H → Option (Exec W (Unit {0}))) (uri : String) where
  opened-returns :
      (handle : H) (r : Resources H W) {h : H}
      → (opened closer uri handle r).0 ≡ returns h
      → handle ≡ h
  unfolding opened
  opened-returns handle r e =
      let r' : Resources H W = record r {
        handles = r.handles ++ (uri, handle) ∷ [];
        open_count = r.open_count + 1;
      } in
      let (_, _, ends) = continue-eq-returns (evict closer r'.handles r') (λ _. pure handle) e in
      cc ends

  opened-lookup :
      (handle : H) (r : Resources H W) {h : H}
      → IsBounded r
      → 1 ≤ r.max_open
      → lookup uri r.handles ≡ none
      → (opened closer uri handle r).0 ≡ returns h
      → lookup uri (opened closer uri handle r).1.handles ≡ some h
  opened-lookup handle r bounded one new e =
      rw ((opened_lem closer uri handle r bounded new).0, ← opened-returns handle r e)
        (lookup-tail_if_over closer r.max_open uri handle r.handles one new)

  found_or_opened-lookup :
      (opener : String → Exec W H) (o : Option H) (r : Resources H W) {h : H}
      → IsBounded r
      → 1 ≤ r.max_open
      → lookup uri r.handles ≡ o
      → (found_or_opened closer uri opener o r).0 ≡ returns h
      → lookup uri (found_or_opened closer uri opener o r).1.handles ≡ some h
  unfolding found_or_opened
  found_or_opened-lookup opener (some handle) r {h} b one at e =
      let found : handle ≡ h = cc in
      rw (← found) (
        lookup-snoc_self uri handle (remove uri r.handles)
          (lookup-remove_self uri r.handles b.distinct))
  found_or_opened-lookup opener none r {h} b one at e = go (opener uri r.outside) e
    where
      after : W → Resources H W
      after w = record r { outside = w }

      go :
          (x : Outcome H × W)
          → (continue (x.0, after x.1) (opened closer uri)).0 ≡ returns h
          → lookup uri (continue (x.0, after x.1) (opened closer uri)).1.handles ≡ some h
      go (returns handle, w) e' =
          opened-lookup handle (after w) (record { within = b.within; distinct = b.distinct }) one
            at e'
      go (raises x, w) e' = cc
      go (hangs, w) e' = cc

  found-keeps :
      (opener : String → Exec W H) (o : Option H) (r : Resources H W) {h : H}
      → o ≡ some h
      → ((found_or_opened closer uri opener o r).0 ≡ returns h)
        × ((found_or_opened closer uri opener o r).1.open_count ≡ r.open_count)
        × ((found_or_opened closer uri opener o r).1.outside ≡ r.outside)
  unfolding found_or_opened
  found-keeps opener (some handle) r e = (cc, refl, refl)
  found-keeps opener none r e = cc

-- With room for at least one handle, a second `open_once` of a uri directly after one that returned
-- a handle returns the same handle, whatever its opener, and opens nothing: neither the count of
-- opens nor the outside changes.
pub open_once_twice :
    {H W : Type 0} (closer : H → Option (Exec W (Unit {0}))) (uri : String)
    (opener opener' : String → Exec W H) (r : Resources H W) {h : H}
    → IsBounded r
    → 1 ≤ r.max_open
    → (open_once closer uri opener r).0 ≡ returns h
    → let r' = (open_once closer uri opener r).1 in
      ((open_once closer uri opener' r').0 ≡ returns h)
      × ((open_once closer uri opener' r').1.open_count ≡ r'.open_count)
      × ((open_once closer uri opener' r').1.outside ≡ r'.outside)
unfolding open_once
open_once_twice closer uri opener opener' r b one e =
    found-keeps closer uri opener' _ _
      (found_or_opened-lookup closer uri opener (lookup uri r.handles) r b one refl e)
