-- ===== src/Resources.antt =====
-- `LocalResources` of core/execution.py: handles kept open per uri, the least recently used closed
-- first. What opening and closing a handle do outside the program is the caller's: an opener and a
-- handle's `close` are actions on an outside state `W`.
pub mod Bounded
pub mod Reuse
pub mod Closing
use graphed.Prelude.{
  ℕ, suc, ◌+◌, String, Bool, Option, none, some, List, [], ◌∷◌, ◌++◌, ltb, if◌then◌else◌, length,
}
use graphed.Prelude.Text.{str_eq}
use graphed.Outcome.{
  Exn, Outcome, returns, raises, hangs, Exec, pure, except, continue, ◌>>=◌, ◌>>◌,
}

-- The `OrderedDict`: the least recently used handle first.
abbrev pub Handles : Type 0 → Type 0
Handles H = List (String × H)

pub record Resources (H W : Type 0) : Type 0 where
  pub handles : Handles H
  pub max_open : ℕ
  pub open_count : ℕ
  pub outside : W

module _ {H : Type 0} where
  unfoldable pub lookup : String → Handles H → Option H
  lookup uri [] = none
  lookup uri ((u, h) ∷ rest) = if str_eq u uri then some h else lookup uri rest

  unfoldable pub remove : String → Handles H → Handles H
  remove uri [] = []
  remove uri ((u, h) ∷ rest) =
      let others = remove uri rest in if str_eq u uri then rest else (u, h) ∷ others

module _ {H W : Type 0} (closer : H → Option (Exec W (Unit {0}))) where
  -- an action on the outside, run by the resources
  abbrev pub outside_do : {A : Type 0} → Exec W A → Exec (Resources H W) A
  outside_do m r = let (a, w) = m r.outside in (a, record r { outside = w })

  -- `_close_handle`: a handle without a callable `close` is left alone, and an Exception in it is
  -- suppressed
  unfoldable pub close_callable : Option (Exec W (Unit {0})) → Exec W (Unit {0})
  close_callable none = pure tt
  close_callable (some close) = except close (λ _. pure tt)

  unfoldable pub close_handle : H → Exec (Resources H W) (Unit {0})
  unfolding close_callable
  close_handle h = outside_do (close_callable (closer h))

  -- The `while len(self._handles) > self._max_open` loop; each round takes the first handle off.
  unfoldable pub evict : Handles H → Exec (Resources H W) (Unit {0})
  evict [] r = (returns tt, r)
  evict ((u, h) ∷ rest) r =
      let again = (close_handle h >> evict rest) (record r { handles = rest }) in
      if ltb r.max_open (suc (length rest)) then again else (returns tt, r)

  -- The branch of `open_once` that opens: `uri` is not in `_handles`, so it is added at the end.
  unfoldable pub opened : String → H → Exec (Resources H W) H
  opened uri handle r =
      let r' = record r {
        handles = r.handles ++ (uri, handle) ∷ [];
        open_count = r.open_count + 1;
      } in
      (evict r'.handles >> pure handle) r'

  found_or_opened : String → (String → Exec W H) → Option H → Exec (Resources H W) H
  found_or_opened uri opener (some handle) r =
      (returns handle, record r { handles = remove uri r.handles ++ (uri, handle) ∷ [] })
  found_or_opened uri opener none r = (outside_do (opener uri) >>= opened uri) r

  -- `LocalResources.open_once`
  unfoldable pub open_once : String → (String → Exec W H) → Exec (Resources H W) H
  unfolding found_or_opened
  open_once uri opener r = found_or_opened uri opener (lookup uri r.handles) r

  -- `LocalResources.close`: close each, then clear
  unfoldable pub close_each : Handles H → Exec (Resources H W) (Unit {0})
  close_each [] = pure tt
  close_each ((u, h) ∷ rest) = close_handle h >> close_each rest

  unfoldable pub close : Exec (Resources H W) (Unit {0})
  unfolding close_each
  close r = (close_each r.handles >> (λ r'. (returns tt, record r' { handles = [] }))) r
