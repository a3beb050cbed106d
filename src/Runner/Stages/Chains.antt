-- ===== src/Runner/Stages/Chains.antt =====
-- Calls that leave the control alone, and outcomes in chains.
use graphed.Prelude.{Option, ◌≡◌, refl, ap, ◌∙◌}
use graphed.Control.{Control}
use graphed.Outcome.{
  Outcome, returns, raises, hangs, Exec, pure, raise, lift, and_then, continue, finish,
}
use graphed.Runner.Cancelling.Release.{after_returns}
use graphed.Runner.Tasks.{World}

pub and_then_assoc :
    {A B C : Type 0} (y : Outcome A) (f : A → Outcome B) (h : B → Outcome C)
    → and_then (and_then y f) h ≡ and_then y (λ a. and_then (f a) h)
and_then_assoc (returns a) f h = refl
and_then_assoc (raises e) f h = refl
and_then_assoc hangs f h = refl

pub and_then_returns : {A : Type 0} (y : Outcome A) → y ≡ and_then y (λ a. returns a)
and_then_returns (returns a) = refl
and_then_returns (raises e) = refl
and_then_returns hangs = refl

module _ {H W M : Type 0} where
  pub after :
      {A B : Type 0} {x : Outcome A × World H W M} {a : A} {w : World H W M} {z : Outcome B}
      (k : A → Exec (World H W M) B)
      → x ≡ (returns a, w)
      → (k a w).0 ≡ z
      → (continue x k).0 ≡ z
  after k e h = ap (λ y. (continue y k).0) e ∙ h

  pub after_hangs :
      {A B : Type 0} {x : Outcome A × World H W M} {w : World H W M} (k : A → Exec (World H W M) B)
      → x ≡ (hangs, w)
      → (continue x k).0 ≡ hangs
  after_hangs k e = ap (λ y. (continue y k).0) e

  pub lift_lem :
      {B C : Type 0} (y : Outcome C) (w : World H W M) (k : C → Exec (World H W M) B)
      (r : C → Outcome B)
      → ((c : C) → (k c w).0 ≡ r c)
      → (continue (y, w) k).0 ≡ and_then y r
  lift_lem (returns c) w k r h = h c
  lift_lem (raises e) w k r h = refl
  lift_lem hangs w k r h = refl

  -- A call that leaves the control alone, and the rest.
  pub chained :
      {A B C : Type 0} {o : Option Control} (x : Outcome A × World H W M) (y : Outcome C)
      (f : C → A) (k : A → Exec (World H W M) B) (r : C → Outcome B)
      → x.0 ≡ and_then y (λ c. returns (f c))
      → x.1.control ≡ o
      → ((c : C) (w : World H W M) → w.control ≡ o → (k (f c) w).0 ≡ r c)
      → (continue x k).0 ≡ and_then y r
  chained (returns a, w) (returns c) f k r e at h =
      let is : a ≡ f c = cc e in ap (λ b. (k b w).0) is ∙ h c w at
  chained (returns a, w) (raises d) f k r e at h = absurd (cc e)
  chained (returns a, w) hangs f k r e at h = absurd (cc e)
  chained (raises d, w) (returns c) f k r e at h = absurd (cc e)
  chained (raises d, w) (raises d') f k r e at h = cc e
  chained (raises d, w) hangs f k r e at h = absurd (cc e)
  chained (hangs, w) (returns c) f k r e at h = absurd (cc e)
  chained (hangs, w) (raises d) f k r e at h = absurd (cc e)
  chained (hangs, w) hangs f k r e at h = refl

  pub continue-control :
      {A B : Type 0} {o : Option Control} (x : Outcome A × World H W M)
      (k : A → Exec (World H W M) B)
      → x.1.control ≡ o
      → ((a : A) (w : World H W M) → w.control ≡ o → (k a w).1.control ≡ o)
      → (continue x k).1.control ≡ o
  continue-control (returns a, w) k at h = h a w at
  continue-control (raises e, w) k at h = at
  continue-control (hangs, w) k at h = at

  pub lifted :
      {A B : Type 0} (x : Outcome A × World H W M) (y : Outcome A) (f : A → Outcome B)
      → x.0 ≡ y
      → (continue x (λ a. lift (f a))).0 ≡ and_then y f
  lifted (returns a, w) y f e = ap (λ z. and_then z f) e
  lifted (raises d, w) y f e = ap (λ z. and_then z f) e
  lifted (hangs, w) y f e = ap (λ z. and_then z f) e

  -- A cleanup that returns leaves what the call ended in.
  pub finish_lem :
      {A : Type 0} (x : Outcome A × World H W M) (ending : Exec (World H W M) (Unit {0}))
      → ((w : World H W M) → (ending w).0 ≡ returns tt)
      → (finish x ending).0 ≡ x.0
  finish_lem (returns a, w) ending h = ap (λ y. y.0) (after_returns (ending w) (pure a) (h w))
  finish_lem (raises e, w) ending h = ap (λ y. y.0) (after_returns (ending w) (raise e) (h w))
  finish_lem (hangs, w) ending h = refl
