-- ===== src/Resources/Closing.antt =====
-- Which handles have been closed: a handle's `close` is put on record as it is called.
use graphed.Prelude.{
  suc, ◌+◌, ◌≡◌, refl, sym, ap, ◌∙◌, ◌⊎◌, inl, inr, String, Option, none, some, List, [], ◌∷◌, ◌++◌,
  map, ltb, length, append_assoc, append-nil, Bool-cases, subst,
}
use mathlib.Core.List.{Permᴰ}
use graphed.Prelude.Text.{str_eq}
use graphed.Outcome.{
  exception, too_many_failed, unbound_services, interrupt, Outcome, returns, raises, hangs, Exec,
  recover, pure, continue,
}
use graphed.Resources.{
  Handles, Resources, lookup, remove, close_callable, close_handle, evict, opened, found_or_opened,
  open_once, close_each,
}
use graphed.Runner.Simulation.{Tame, swallowed}
use graphed.Runner.Cancelling.Release.{after_returns}
use graphed.Resources.Bounded.{IsBounded, open_once-IsBounded}

module _ {H W : Type 0} (close : H → Exec W (Unit {0})) where
  -- The world outside, and the handles whose `close` was called, in turn.
  abbrev pub Recorded : Type 0
  Recorded = W × List H

  abbrev pub recorded : H → Option (Exec Recorded (Unit {0}))
  recorded h = some (λ w. let (o, out) = close h w.0 in (o, (out, w.1 ++ h ∷ [])))

  abbrev pub unrecorded : (String → Exec W H) → String → Exec Recorded H
  unrecorded opener uri w = let (o, out) = opener uri w.0 in (o, (out, w.1))

  abbrev pub held : Handles H → List H
  held handles = map (λ e. e.1) handles

  -- The handles that were closed, and those that are held.
  abbrev pub known : Resources H Recorded → List H
  known r = r.outside.1 ++ held r.handles

  recover_state : {S : Type 0} (x : Outcome (Unit {0}) × S) → (recover x (λ _. pure tt)).1 ≡ x.1
  recover_state (returns u, s) = refl
  recover_state (raises (exception e), s) = refl
  recover_state (raises (too_many_failed e), s) = refl
  recover_state (raises (unbound_services e), s) = refl
  recover_state (raises (interrupt e), s) = refl
  recover_state (hangs, s) = refl

  pub close_handle-recorded :
      (h : H) (r : Resources H Recorded)
      → (close_handle recorded h r).1.outside.1 ≡ r.outside.1 ++ h ∷ []
  unfolding close_handle close_callable
  close_handle-recorded h r = ap (λ (s : Recorded). s.1) (recover_state _)

  close_handle-handles :
      (h : H) (r : Resources H Recorded) → (close_handle recorded h r).1.handles ≡ r.handles
  unfolding close_handle
  close_handle-handles h r = refl

  continue-known :
      {A : Type 0} (x : Outcome (Unit {0}) × Resources H Recorded)
      (k : Exec (Resources H Recorded) A) (all : List H)
      → known x.1 ≡ all
      → known (k x.1).1 ≡ all
      → known (continue x (λ _. k)).1 ≡ all
  continue-known (returns u, r) k all e h = h
  continue-known (raises d, r) k all e h = e
  continue-known (hangs, r) k all e h = e

  evict-known :
      (l : Handles H) (r : Resources H Recorded)
      → r.handles ≡ l
      → known (evict recorded l r).1 ≡ known r
  unfolding evict close_handle
  evict-known [] r at = refl
  evict-known ((u, h) ∷ rest) r at = elim (Bool-cases (ltb r.max_open (suc (length rest)))) [
    | inl over ↦
        let r0 : Resources H Recorded = record r { handles = rest } in
        let shut = close_handle recorded h r0 in
        let moved : known shut.1 ≡ known r =
          ap (λ log. log ++ held rest) (close_handle-recorded h r0)
          ∙ append_assoc r.outside.1 (h ∷ []) (held rest)
          ∙ ap (λ l. r.outside.1 ++ held l) (sym at) in
        rw over (
          continue-known shut (evict recorded rest) (known r) moved
            (evict-known rest shut.1 (close_handle-handles h r0) ∙ moved))
    | inr within ↦ rw within refl
  ]

  Perm-refl : (l : List H) → Permᴰ l l
  Perm-refl [] = Permᴰ.nil
  Perm-refl (x ∷ l) = Permᴰ.cons refl (Perm-refl l)

  to_the_end : (h : H) (l : List H) → Permᴰ (h ∷ l) (l ++ h ∷ [])
  to_the_end h [] = Perm-refl (h ∷ [])
  to_the_end h (x ∷ l) = Permᴰ.trans (Permᴰ.swap refl refl) (Permᴰ.cons refl (to_the_end h l))

  behind : (log : List H) {a b : List H} → Permᴰ a b → Permᴰ (log ++ a) (log ++ b)
  behind [] p = p
  behind (x ∷ log) p = Permᴰ.cons refl (behind log p)

  held-append :
      (l : Handles H) (uri : String) (h : H) → held (l ++ (uri, h) ∷ []) ≡ held l ++ h ∷ []
  held-append [] uri h = refl
  held-append ((u, x) ∷ l) uri h = ap (λ m. x ∷ m) (held-append l uri h)

  remove-Perm :
      (uri : String) (h : H) (l : Handles H)
      → lookup uri l ≡ some h
      → Permᴰ (held l) (held (remove uri l) ++ h ∷ [])
  unfolding lookup remove
  remove-Perm uri h [] e = absurd (cc e)
  remove-Perm uri h ((u, x) ∷ l) e = elim (Bool-cases (str_eq u uri)) [
    | inl here ↦
        let is : x ≡ h = cc (simp here at e) in
        rw here (subst (λ y. Permᴰ (x ∷ held l) (held l ++ y ∷ [])) is (to_the_end x (held l)))
    | inr other ↦ rw other (Permᴰ.cons refl (remove-Perm uri h l (simp other at e)))
  ]

  -- All that was closed or held still is, once; with one handle more if one was opened.
  abbrev pub Accounts : Resources H Recorded → Resources H Recorded → Type 0
  Accounts r r' = Permᴰ (known r) (known r') ⊎ ((h : H) × (known r' ≡ known r ++ h ∷ []))

  opened-known :
      (uri : String) (h : H) (r : Resources H Recorded)
      → known (opened recorded uri h r).1 ≡ known r ++ h ∷ []
  unfolding opened
  opened-known uri h r =
      let r' : Resources H Recorded = record r {
        handles = r.handles ++ (uri, h) ∷ [];
        open_count = r.open_count + 1;
      } in
      let grown : known r' ≡ known r ++ h ∷ [] =
        ap (λ l. r.outside.1 ++ l) (held-append r.handles uri h)
        ∙ sym (append_assoc r.outside.1 (held r.handles) (h ∷ [])) in
      let all = evict-known r'.handles r' refl ∙ grown in
      continue-known (evict recorded r'.handles r') (pure h) (known r ++ h ∷ []) all all

  found_or_opened-Accounts :
      (uri : String) (opener : String → Exec W H) (o : Option H) (r : Resources H Recorded)
      → lookup uri r.handles ≡ o
      → Accounts r (found_or_opened recorded uri (unrecorded opener) o r).1
  unfolding found_or_opened
  found_or_opened-Accounts uri opener (some h) r e = inl (
      behind r.outside.1 (
        subst (Permᴰ (held r.handles)) (sym (held-append (remove uri r.handles) uri h))
          (remove-Perm uri h r.handles e)))
  found_or_opened-Accounts uri opener none r e = go (opener uri r.outside.0)
    where
      after : W → Resources H Recorded
      after w = record r { outside = (w, r.outside.1) }

      go : (x : Outcome H × W) → Accounts r (continue (x.0, after x.1) (opened recorded uri)).1
      go (returns h, w) = inr (h, opened-known uri h (after w))
      go (raises d, w) = inl (Perm-refl (known r))
      go (hangs, w) = inl (Perm-refl (known r))

  -- Each handle's `close` ends in a value or an Exception, so all of them are called, in turn.
  pub close_each-recorded :
      (hs : Handles H) (r : Resources H Recorded)
      → ((h : H) (w : W) → Tame (close h w).0)
      → (close_each recorded hs r).1.outside.1 ≡ r.outside.1 ++ held hs
  unfolding close_each close_handle close_callable
  close_each-recorded [] r tame = sym (append-nil r.outside.1)
  close_each-recorded ((u, h) ∷ rest) r tame =
      let shut = close_handle recorded h r in
      ap (λ x. x.1.outside.1)
        (after_returns shut (close_each recorded rest) (swallowed _ (tame h r.outside.0)))
      ∙ close_each-recorded rest shut.1 tame
      ∙ ap (λ log. log ++ held rest) (close_handle-recorded h r)
      ∙ append_assoc r.outside.1 (h ∷ []) (held rest)

  -- However `open_once` ends - with a handle, or with an exception of the opener or of a handle's
  -- `close` - no more than `max_open` handles are held afterwards and no uri is held twice, if that
  -- was so before; and no handle is let go of without a call of its `close`, which is called once: the
  -- handles that were closed so far and those that are held are the same as before together, or the
  -- same with the one that was opened at the end.
  pub open_once-Accounts :
      (uri : String) (opener : String → Exec W H) (r : Resources H Recorded)
      → IsBounded r
      → let r' = (open_once recorded uri (unrecorded opener) r).1 in IsBounded r' × Accounts r r'
  unfolding open_once
  open_once-Accounts uri opener r b = (
    open_once-IsBounded recorded uri (unrecorded opener) r b,
    found_or_opened-Accounts uri opener (lookup uri r.handles) r refl,
  )
