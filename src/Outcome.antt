-- ===== src/Outcome.antt =====
-- Python's ways to end a call: a value, an exception, or a wait that nothing ends. Calls that
-- change state pass it on beside the outcome, also when they raise.
pub mod Inversion
use graphed.Prelude.{ℕ, zero, suc, String, Bool, true, false, Option, none, List, [], ◌∷◌}
use graphed.Prelude.Text.{concat, show}

-- The attributes that the execution layer reads off an exception object: its type's name, `str`,
-- `partition` ("" where it has none), and what `StageError` carries in `op`, `cause_type`,
-- `cause_message` and its top frame.
pub record StageError : Type 0 where
  pub op : String
  pub cause_type : String
  pub cause_message : String
  pub user_file : String
  pub user_line : ℕ
  pub user_source : String

pub record Raised : Type 0 where
  pub type_name : String
  pub message : String
  pub partition : String
  pub stage_error : Option StageError

-- The record `dead_letter_descriptor` builds, with the keys as fields.
pub record DeadLetter : Type 0 where
  pub task_id : String
  pub uri : String
  pub tree : String
  pub entry_start : ℕ
  pub entry_stop : ℕ
  pub error_type : String
  pub error_message : String
  pub stage_error : Option StageError

pub record FailedChunk : Type 0 where
  pub partition : String
  pub error : String
  pub letter : DeadLetter

-- `interrupt` is a `BaseException` that is no `Exception`: KeyboardInterrupt, SystemExit.
pub data Exn : Type 0 where
  exception : Raised → Exn
  too_many_failed : List FailedChunk → Exn
  unbound_services : List String → Exn
  interrupt : Raised → Exn

abbrev pub plain : String → String → Raised
plain type_name message = record {
  type_name = type_name;
  message = message;
  partition = "";
  stage_error = none;
}

abbrev pub value_error : String → Exn
value_error message = exception (plain "ValueError" message)

abbrev pub type_error : String → Exn
type_error message = exception (plain "TypeError" message)

-- `except Exception` catches it.
abbrev pub is_exception : Exn → Bool
is_exception (interrupt _) = false
is_exception _ = true

pub data Outcome {ℓ} (A : Type ℓ) : Type ℓ where
  returns : A → Outcome A
  raises : Exn → Outcome A
  hangs : Outcome A

abbrev pub Exec {ℓ} : Type ℓ → Type ℓ → Type ℓ
Exec S A = S → Outcome A × S

module _ {ℓ} {S A : Type ℓ} where
  abbrev pub pure : A → Exec S A
  pure a s = (returns a, s)

  abbrev pub raise : Exn → Exec S A
  raise e s = (raises e, s)

  abbrev pub lift : Outcome A → Exec S A
  lift r s = (r, s)

  -- `try: m` with `except Exception as exc: handle exc`
  abbrev pub recover : Outcome A × S → (Exn → Exec S A) → Outcome A × S
  recover (returns a, s) handle = (returns a, s)
  recover (raises (interrupt e), s) handle = (raises (interrupt e), s)
  recover (raises e, s) handle = handle e s
  recover (hangs, s) handle = (hangs, s)

  abbrev pub except : Exec S A → (Exn → Exec S A) → Exec S A
  except m handle s = recover (m s) handle

module _ {ℓ} {S A B : Type ℓ} where
  abbrev pub continue : Outcome A × S → (A → Exec S B) → Outcome B × S
  continue (returns a, s) f = f a s
  continue (raises e, s) f = (raises e, s)
  continue (hangs, s) f = (hangs, s)

  infixl 10 ◌>>=◌ ◌>>◌
  abbrev pub ◌>>=◌ : Exec S A → (A → Exec S B) → Exec S B
  ◌>>=◌ m f s = continue (m s) f

  abbrev pub ◌>>◌ : Exec S A → Exec S B → Exec S B
  m >> n = m >>= λ _. n

module _ {ℓ} {S A B : Type ℓ} where
  -- `try: m` with `finally: cleanup`: what the cleanup raises replaces what `m` ended in.
  abbrev pub finish : Outcome A × S → Exec S B → Outcome A × S
  finish (returns a, s) cleanup = continue (cleanup s) (λ _. pure a)
  finish (raises e, s) cleanup = continue (cleanup s) (λ _. raise e)
  finish (hangs, s) cleanup = (hangs, s)

  abbrev pub finally : Exec S A → Exec S B → Exec S A
  finally m cleanup s = finish (m s) cleanup

-- A chain of calls with no state.
abbrev pub and_then {ℓ κ} : {A : Type ℓ} {B : Type κ} → Outcome A → (A → Outcome B) → Outcome B
and_then (returns a) f = f a
and_then (raises e) f = raises e
and_then hangs f = hangs

-- `counted(n, noun)`
unfoldable pub counted : ℕ → String → String
counted n noun = concat (show n ∷ " " ∷ noun ∷ (elim n [ suc zero ↦ "" | _ ↦ "s" ]) ∷ [])
