-- ===== src/Errors.antt =====
-- domain/errors.py: the typed failures, and methods that may raise them.
-- A method is an action: it returns or raises, and what it wrote before a raise stays written.
pub mod Keeps
pub mod Ends
pub mod Runs
pub mod Typed
pub mod Yields
use aws_ssm_kit.Base.{
  ℕ, String, ◌≡◌, refl, Bool, true, false, Option, none, some, arith, if◌then◌else◌,
}

-- `APPLICATION_ERROR_TYPES`, and the base class.
pub data ErrorType : Type 0 where
  application configuration credential_validation mfa_validation aws_permission aws_network
        target_not_connected port_already_in_use plugin_execution secret_access s3_transfer
        data_protection :
      ErrorType

pub data ErrorCategory : Type 0 where
  permission authentication network timeout resource process conflict configuration_category
        internal :
      ErrorCategory

pub record ApplicationError : Type 0 where
  pub kind : ErrorType
  pub message_code : String
  pub technical_cause : String
  pub retryable : Bool
  pub aws_service : Option String
  pub aws_action : Option String
  pub error_category : Option ErrorCategory
  pub execution_logged : Bool

-- An error with the dataclass defaults.
abbrev pub raised : ErrorType → String → String → ApplicationError
raised kind code cause = record {
  kind = kind;
  message_code = code;
  technical_cause = cause;
  retryable = false;
  aws_service = none;
  aws_action = none;
  error_category = none;
  execution_logged = false;
}

-- `_configuration(code)`
abbrev pub configuration_error : String → ApplicationError
configuration_error code = raised configuration code code

-- What ends a call early: a typed error, `OperationCancelled`, or another Python exception,
-- such as `ValueError` or `TimeoutError`.
pub data Failure : Type 0 where
  app : ApplicationError → Failure
  cancelled : Failure
  untyped : Failure

pub data Result (A : Type 0) : Type 0 where
  ok : A → Result A
  err : Failure → Result A

abbrev pub Exec : Type 0 → Type 0 → Type 0
Exec S A = S → Result A × S

module _ {S A : Type 0} where
  unfoldable pub pure : A → Exec S A
  pure a s = (ok a, s)

  unfoldable pub raise : ApplicationError → Exec S A
  raise e s = (err (app e), s)

  unfoldable pub lift : Result A → Exec S A
  lift r s = (r, s)

  unfoldable pub gets : (S → A) → Exec S A
  gets f s = (ok (f s), s)

  -- `raise` unless a value is there
  unfoldable pub or_raise : Option A → ApplicationError → Exec S A
  or_raise none e s = (err (app e), s)
  or_raise (some a) e s = (ok a, s)

module _ {S A : Type 0} where
  -- `try: m except Kind: handler`, for the errors that the test accepts
  abbrev pub rescued :
      (ApplicationError → Bool) → (ApplicationError → Exec S A) → Result A → Exec S A
  rescued test handler (ok a) s = (ok a, s)
  rescued test handler (err (app e)) s = if test e then handler e s else (err (app e), s)
  rescued test handler (err other) s = (err other, s)

  unfoldable pub rescue :
      Exec S A → (ApplicationError → Bool) → (ApplicationError → Exec S A) → Exec S A
  rescue m test handler s = let (r, s') = m s in rescued test handler r s'

-- How a call ended, where every exception is caught.
pub data Attempt (A : Type 0) : Type 0 where
  returned : A → Attempt A
  failed : Failure → Attempt A

module _ {S A : Type 0} where
  -- `try: m except BaseException as failure: …`
  unfoldable pub attempt_all : Exec S A → Exec S (Attempt A)
  attempt_all m s = let (r, s') = m s in (ok (elim r [ ok a ↦ returned a | err x ↦ failed x ]), s')

  -- the other exceptions go on
  unfoldable pub fail : Failure → Exec S A
  fail x s = (err x, s)

module _ {S : Type 0} where
  unfoldable pub modify : (S → S) → Exec S (Unit {0})
  modify f s = (ok tt, f s)

  -- `if test: raise error`
  unfoldable pub raise_if : Bool → ApplicationError → Exec S (Unit {0})
  raise_if b e s = (if b then err (app e) else ok tt, s)

module _ {S A B : Type 0} where
  abbrev pub continue : Result A → (A → Exec S B) → Exec S B
  continue (ok a) f s = f a s
  continue (err e) f s = (err e, s)

  infixl 10 ◌>>=◌ ◌>>◌
  -- opening this opens the primitive actions too
  unfoldable pub ◌>>=◌ : Exec S A → (A → Exec S B) → Exec S B
  unfolding pure raise lift gets or_raise modify raise_if
  ◌>>=◌ m f s = let (result, after) = m s in continue result f after

  abbrev pub ◌>>◌ : Exec S A → Exec S B → Exec S B
  m >> n = m >>= λ _. n

module _ {S A B : Type 0} where
  -- A chain that returned has returned from each part.
  pub bind-eq-ok :
      (m : Exec S A) (f : A → Exec S B) (s : S) {b : B} {s' : S}
      → (m >>= f) s ≡ (ok b, s')
      → (a : A) × (t : S) × (m s ≡ (ok a, t)) × (f a t ≡ (ok b, s'))
  unfolding ◌>>=◌
  bind-eq-ok m f s {b} {s'} h = go (m s).0 refl
    where
      go :
          (r : Result A)
          → (m s).0 ≡ r
          → (a : A) × (t : S) × (m s ≡ (ok a, t)) × (f a t ≡ (ok b, s'))
      go (ok a) e = (a, (m s).1, ground arith, ground arith)
      go (err x) e = absurd (ground arith)

module _ {A B : Type 0} where
  -- Sequencing of pure code that may raise.
  infixl 10 ◌then_do◌
  abbrev pub ◌then_do◌ : Result A → (A → Result B) → Result B
  (ok a) then_do f = f a
  (err e) then_do f = err e

  pub then_do-eq-ok :
      (r : Result A) (f : A → Result B) {b : B}
      → (r then_do f) ≡ ok b
      → (a : A) × (r ≡ ok a) × (f a ≡ ok b)
  then_do-eq-ok (ok a) f h = (a, refl, h)
  then_do-eq-ok (err e) f h = cc

abbrev pub fail_with : {A : Type 0} → ApplicationError → Result A
fail_with e = err (app e)
