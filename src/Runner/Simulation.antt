-- ===== src/Runner/Simulation.antt =====
-- A piece of a run that leaves the control alone, seen without its monitor: the same outcome and
-- the same resources.
use graphed.Prelude.{ℕ, ◌+◌, ◌≡◌, ◌∙◌, refl, ap, String, Bool, true, Option, none, some}
use graphed.Outcome.{
  Exn, exception, too_many_failed, unbound_services, interrupt, is_exception, Outcome, returns,
  raises, hangs, Exec, pure, raise, lift, except, recover, continue, finish, finally, ◌>>=◌,
}
use graphed.Outcome.Inversion.{recover_caught}
use graphed.Control.{Control}
use graphed.Resources.{Resources}
use graphed.Plan.{Task}
use graphed.Runner.Tasks.{
  Monitor, TaskEvent, TaskPhase, World, Run, notify, emit_to, emit, in_resources,
}

abbrev pub Tame : {A : Type 0} → Outcome A → Type 0
Tame (returns a) = Unit
Tame (raises e) = is_exception e ≡ true
Tame hangs = ⊥

-- The hook ends in a value or an Exception, never in an interrupt and never not at all.
abbrev pub EndsTamely : {M : Type 0} → Exec M (Unit {0}) → Type 0
EndsTamely hook = (m : _) → Tame (hook m).0

-- What the run relies on: the monitor's hooks only ever raise Exceptions.
abbrev pub IsTame : {M : Type 0} → Option (Monitor M) → Type 0
IsTame none = Unit
IsTame (some m) =
    ((e : TaskEvent) → EndsTamely (m.on_task e))
    × ((n : ℕ) → EndsTamely (m.on_run_start n))
    × EndsTamely m.on_run_end

pub swallowed :
    {M : Type 0} (x : Outcome (Unit {0}) × M) → Tame x.0 → (recover x (λ _. pure tt)).0 ≡ returns tt
swallowed (returns u, m) h = refl
swallowed (raises e, m) h =
    ap (λ (x : Outcome (Unit {0}) × _). x.0) (recover_caught e m (λ _. pure tt) h)
swallowed (hangs, m) h = absurd h

module _ {H W M : Type 0} (closer : H → Option (Exec W (Unit {0}))) (now : ℕ → ℕ)
    (monitor : Option (Monitor M)) (tame : IsTame monitor) (control : Option Control) where
  -- The same outcome, the same resources, and still that control.
  abbrev pub At : {A : Type 0} → Outcome A × World H W M → Outcome A × Resources H W → Type 0
  At x y = (x.0 ≡ y.0) × (x.1.resources ≡ y.1) × (x.1.control ≡ control)

  -- From a world with that control, `m` ends as `m'` does on the world's resources.
  pub record Sim {A : Type 0} (m : Run closer now monitor A) (m' : Exec (Resources H W) A)
      : Type 0 where
    pub at : (w : World H W M) → w.control ≡ control → At (m w) (m' w.resources)

  pub Sim-pure : {A : Type 0} (a : A) → Sim (pure a) (pure a)
  Sim-pure a = record { at = λ w h. (refl, refl, h) }

  pub Sim-lift : {A : Type 0} (r : Outcome A) → Sim (lift r) (lift r)
  Sim-lift r = record { at = λ w h. (refl, refl, h) }

  pub Sim-raise : {A : Type 0} (e : Exn) → Sim (raise {A = A} e) (raise e)
  Sim-raise e = record { at = λ w h. (refl, refl, h) }

  pub Sim-in_resources :
      {A : Type 0} (m : Exec (Resources H W) A) → Sim (in_resources closer now monitor m) m
  unfolding in_resources
  Sim-in_resources m = record { at = λ w h. (refl, refl, h) }

  pub Sim-notify :
      (hook : Exec M (Unit {0})) → EndsTamely hook → Sim (notify closer now monitor hook) (pure tt)
  unfolding notify
  Sim-notify hook h = record { at = λ w c. (swallowed (hook w.monitor) (h w.monitor), refl, c) }

  Sim-emit_to :
      (o : Option (Monitor M)) (phase : TaskPhase) (task : Task) (error : Option String)
      (lean : Bool)
      → IsTame o
      → Sim (emit_to closer now monitor o phase task error lean) (pure tt)
  unfolding emit_to
  Sim-emit_to none phase task error lean h = Sim-pure tt
  Sim-emit_to (some m) phase task error lean h = record {
    at = λ w c. (Sim-notify (m.on_task _) (h.0 _)).at (record w { ticks = w.ticks + 1 }) c;
  }

  pub Sim-emit :
      (phase : TaskPhase) (task : Task) (error : Option String) (lean : Bool)
      → Sim (emit closer now monitor phase task error lean) (pure tt)
  unfolding emit
  Sim-emit phase task error lean = Sim-emit_to monitor phase task error lean tame

  module _ {A B : Type 0} (f : A → Run closer now monitor B) (f' : A → Exec (Resources H W) B)
      (sf : (a : A) → Sim (f a) (f' a)) where
    continue-At :
        (x : Outcome A × World H W M) (y : Outcome A × Resources H W)
        → At x y
        → At (continue x f) (continue y f')
    continue-At (returns a, w) (returns b, r) h =
        let same : a ≡ b = cc (h.0) in rw (← same, ← h.1) ((sf a).at w h.2)
    continue-At (raises a, w) (raises b, r) h = (cc (h.0), h.1, h.2)
    continue-At (hangs, w) (hangs, r) h = (refl, h.1, h.2)
    continue-At (returns a, w) (raises b, r) h = absurd (cc h.0)
    continue-At (returns a, w) (hangs, r) h = absurd (cc h.0)
    continue-At (raises a, w) (returns b, r) h = absurd (cc h.0)
    continue-At (raises a, w) (hangs, r) h = absurd (cc h.0)
    continue-At (hangs, w) (returns b, r) h = absurd (cc h.0)
    continue-At (hangs, w) (raises b, r) h = absurd (cc h.0)

  pub Sim-bind :
      {A B : Type 0} (m : Run closer now monitor A) (m' : Exec (Resources H W) A)
      (f : A → Run closer now monitor B) (f' : A → Exec (Resources H W) B)
      → Sim m m'
      → ((a : A) → Sim (f a) (f' a))
      → Sim (m >>= f) (m' >>= f')
  Sim-bind m m' f f' sm sf = record {
    at = λ w c. continue-At f f' sf (m w) (m' w.resources) (sm.at w c);
  }

  module _ {A : Type 0} (handle : Exn → Run closer now monitor A)
      (sh : (e : Exn) → Sim (handle e) (raise e)) where
    recover-At :
        (x : Outcome A × World H W M) (y : Outcome A × Resources H W)
        → At x y
        → At (recover x handle) y
    recover-At (returns a, w) y h = h
    recover-At (hangs, w) y h = h
    recover-At (raises (exception e), w) y h =
        let (o, r, c) = (sh (exception e)).at w h.2 in (o ∙ h.0, r ∙ h.1, c)
    recover-At (raises (too_many_failed e), w) y h =
        let (o, r, c) = (sh (too_many_failed e)).at w h.2 in (o ∙ h.0, r ∙ h.1, c)
    recover-At (raises (unbound_services e), w) y h =
        let (o, r, c) = (sh (unbound_services e)).at w h.2 in (o ∙ h.0, r ∙ h.1, c)
    recover-At (raises (interrupt e), w) y h = h

  -- A handler that only raises again.
  pub Sim-except :
      {A : Type 0} (m : Run closer now monitor A) (m' : Exec (Resources H W) A)
      (handle : Exn → Run closer now monitor A)
      → Sim m m'
      → ((e : Exn) → Sim (handle e) (raise e))
      → Sim (except m handle) m'
  Sim-except m m' handle sm sh = record {
    at = λ w c. recover-At handle sh (m w) (m' w.resources) (sm.at w c);
  }

  module _ {A B : Type 0} (cleanup : Run closer now monitor B) (cleanup' : Exec (Resources H W) B)
      (sc : Sim cleanup cleanup') where
    finish-At :
        (x : Outcome A × World H W M) (y : Outcome A × Resources H W)
        → At x y
        → At (finish x cleanup) (finish y cleanup')
    finish-At (returns a, w) (returns b, r) h =
        let same : a ≡ b = cc (h.0) in
        rw (← same, ← h.1)
          ((Sim-bind cleanup cleanup' (λ _. pure a) (λ _. pure a) sc (λ _. Sim-pure a)).at w h.2)
    finish-At (raises d, w) (raises e, r) h =
        let same : d ≡ e = cc (h.0) in
        rw (← same, ← h.1)
          ((Sim-bind cleanup cleanup' (λ _. raise {A = A} d) (λ _. raise d) sc
              (λ _. Sim-raise d)).at
            w h.2)
    finish-At (hangs, w) (hangs, r) h = (refl, h.1, h.2)
    finish-At (returns a, w) (raises b, r) h = absurd (cc (h.0))
    finish-At (returns a, w) (hangs, r) h = absurd (cc (h.0))
    finish-At (raises a, w) (returns b, r) h = absurd (cc (h.0))
    finish-At (raises a, w) (hangs, r) h = absurd (cc (h.0))
    finish-At (hangs, w) (returns b, r) h = absurd (cc (h.0))
    finish-At (hangs, w) (raises b, r) h = absurd (cc (h.0))

  pub Sim-finally :
      {A B : Type 0} (m : Run closer now monitor A) (m' : Exec (Resources H W) A)
      (cleanup : Run closer now monitor B) (cleanup' : Exec (Resources H W) B)
      → Sim m m'
      → Sim cleanup cleanup'
      → Sim (finally m cleanup) (finally m' cleanup')
  Sim-finally m m' cleanup cleanup' sm sc = record {
    at = λ w c. finish-At cleanup cleanup' sc (m w) (m' w.resources) (sm.at w c);
  }

  module _ {A : Type 0} (f : A → Run closer now monitor A) (sf : (a : A) → Sim (f a) (pure a)) where
    after-At :
        (x : Outcome A × World H W M) (y : Outcome A × Resources H W) → At x y → At (continue x f) y
    after-At (returns a, w) y h = let (o, r, c) = (sf a).at w h.2 in (o ∙ h.0, r ∙ h.1, c)
    after-At (raises e, w) y h = h
    after-At (hangs, w) y h = h

  -- What follows `m` only hands its value on.
  pub Sim-after :
      {A : Type 0} (m : Run closer now monitor A) (m' : Exec (Resources H W) A)
      (f : A → Run closer now monitor A)
      → Sim m m'
      → ((a : A) → Sim (f a) (pure a))
      → Sim (m >>= f) m'
  Sim-after m m' f sm sf = record { at = λ w c. after-At f sf (m w) (m' w.resources) (sm.at w c) }
