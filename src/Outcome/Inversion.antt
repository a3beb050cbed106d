-- ===== src/Outcome/Inversion.antt =====
-- What follows from a call that returned.
use graphed.Prelude.{true, false, ◌≡◌, refl, ◌⊎◌, inl, inr}
use graphed.Outcome.{
  is_exception, Raised, Exn, exception, too_many_failed, unbound_services, interrupt, Outcome,
  returns, raises, hangs, Exec, recover, continue, and_then,
}

module _ {ℓ} {S A : Type ℓ} where
  pub recover-eq-returns :
      (x : Outcome A × S) (handle : Exn → Exec S A) {a : A}
      → (recover x handle).0 ≡ returns a
      → (x.0 ≡ returns a) ⊎ ((e : Exn) × ((handle e x.1).0 ≡ returns a))
  recover-eq-returns (returns b, s) handle h = inl h
  recover-eq-returns (raises (exception e), s) handle h = inr (exception e, h)
  recover-eq-returns (raises (too_many_failed e), s) handle h = inr (too_many_failed e, h)
  recover-eq-returns (raises (unbound_services e), s) handle h = inr (unbound_services e, h)
  recover-eq-returns (raises (interrupt e), s) handle h = cc
  recover-eq-returns (hangs, s) handle h = cc

module _ {ℓ} {S A B : Type ℓ} where
  pub continue-eq-returns :
      (x : Outcome A × S) (f : A → Exec S B) {b : B}
      → (continue x f).0 ≡ returns b
      → (a : A) × (x.0 ≡ returns a) × ((f a x.1).0 ≡ returns b)
  continue-eq-returns (returns a, s) f h = (a, refl, h)
  continue-eq-returns (raises e, s) f h = cc
  continue-eq-returns (hangs, s) f h = cc

module _ {ℓ κ} {A : Type ℓ} {B : Type κ} where
  pub and_then-eq-returns :
      (x : Outcome A) (f : A → Outcome B) {b : B}
      → and_then x f ≡ returns b
      → (a : A) × (x ≡ returns a) × (f a ≡ returns b)
  and_then-eq-returns (returns a) f h = (a, refl, h)
  and_then-eq-returns (raises e) f h = cc
  and_then-eq-returns hangs f h = cc

module _ {ℓ} {S A : Type ℓ} where
  pub recover_returned :
      (x : Outcome A × S) (handle : Exn → Exec S A) {a : A}
      → x.0 ≡ returns a
      → (recover x handle).0 ≡ returns a
  recover_returned (returns b, s) handle h = h
  recover_returned (raises e, s) handle h = cc
  recover_returned (hangs, s) handle h = cc

  pub recover_raised :
      (x : Outcome A × S) (handle : Exn → Exec S A) {e : Raised}
      → x.0 ≡ raises (exception e)
      → recover x handle ≡ handle (exception e) x.1
  recover_raised (returns b, s) handle h = cc
  recover_raised (raises (exception x), s) handle h = cc
  recover_raised (raises (too_many_failed x), s) handle h = cc
  recover_raised (raises (unbound_services x), s) handle h = cc
  recover_raised (raises (interrupt x), s) handle h = cc
  recover_raised (hangs, s) handle h = cc

module _ {ℓ} {S A B : Type ℓ} where
  pub continue_returned :
      (x : Outcome A × S) (f : A → Exec S B) {a : A} → x.0 ≡ returns a → continue x f ≡ f a x.1
  continue_returned (returns b, s) f h = cc
  continue_returned (raises e, s) f h = cc
  continue_returned (hangs, s) f h = cc

module _ {ℓ} {S A : Type ℓ} where
  -- `except Exception` catches exactly what `is_exception` says.
  pub recover_caught :
      (e : Exn) (s : S) (handle : Exn → Exec S A)
      → is_exception e ≡ true
      → recover (raises e, s) handle ≡ handle e s
  recover_caught (exception x) s handle h = refl
  recover_caught (too_many_failed x) s handle h = refl
  recover_caught (unbound_services x) s handle h = refl
  recover_caught (interrupt x) s handle h = cc

  pub recover_passed :
      (e : Exn) (s : S) (handle : Exn → Exec S A)
      → is_exception e ≡ false
      → recover (raises e, s) handle ≡ (raises e, s)
  recover_passed (exception x) s handle h = cc
  recover_passed (too_many_failed x) s handle h = cc
  recover_passed (unbound_services x) s handle h = cc
  recover_passed (interrupt x) s handle h = refl

module _ {ℓ} {S A B : Type ℓ} where
  -- A second call that leaves the state alone.
  pub continue_keeps :
      (x : Outcome A × S) (f : A → Exec S B)
      → ((a : A) → (f a x.1).1 ≡ x.1)
      → (continue x f).1 ≡ x.1
  continue_keeps (returns a, s) f h = h a
  continue_keeps (raises e, s) f h = refl
  continue_keeps (hangs, s) f h = refl
