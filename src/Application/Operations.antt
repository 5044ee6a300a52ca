-- ===== src/Application/Operations.antt =====
-- application/operations.py: contexts and results of long operations.
use aws_ssm_kit.Base.{ℕ, Bool, Option, none, some, if◌then◌else◌}
use aws_ssm_kit.Errors.{ErrorType, ApplicationError, Result, ok, err, app, Failure, raised, Exec}
use aws_ssm_kit.Text.{Text}

abbrev pub max_pending_authentication_operations : ℕ
max_pending_authentication_operations = 128

pub data OperationState : Type 0 where
  pending mfa_required running succeeded failed cancelled : OperationState

pub record MfaChallenge : Type 0 where
  pub operation_id : ℕ
  pub profile_id : ℕ
  pub device_arn : Text
  pub expires_at : ℕ

pub record OperationResult (T : Type 0) : Type 0 where
  pub operation_id : ℕ
  pub state : OperationState
  pub value : Option T
  pub error : Option ApplicationError
  pub challenge : Option MfaChallenge

-- The identity of an operation and the token that cancels it; the progress channel only shows.
pub record OperationContext : Type 0 where
  pub operation_id : ℕ
  pub cancellation : ℕ

-- `rebound`
abbrev pub rebound : OperationContext → ℕ → OperationContext
rebound context operation_id = record context { operation_id = operation_id }

module _ {T : Type 0} where
  abbrev pub succeeded_with : ℕ → T → OperationResult T
  succeeded_with id value = record {
    operation_id = id;
    state = OperationState.succeeded;
    value = some value;
    error = none;
    challenge = none;
  }

  abbrev pub ended : ℕ → OperationState → OperationResult T
  ended id state = record {
    operation_id = id;
    state = state;
    value = none;
    error = none;
    challenge = none;
  }

  abbrev pub failed_with : ℕ → ApplicationError → OperationResult T
  failed_with id error = record (ended id OperationState.failed) { error = some error }

  abbrev pub challenged : ℕ → MfaChallenge → OperationResult T
  challenged id challenge = record (ended id OperationState.mfa_required) {
    challenge = some challenge;
  }

abbrev pub authentication_capacity_error : ApplicationError
authentication_capacity_error =
    raised ErrorType.configuration "auth.operation.capacity_exceeded"
      "Too many authentication operations are waiting for MFA"

module _ {S T : Type 0} where
  -- the translation of a call's ending; other exceptions pass
  unfoldable pub translate : ℕ → Result T → Exec S (OperationResult T)
  translate id (ok value) s = (ok (succeeded_with id value), s)
  translate id (err Failure.cancelled) s = (ok (ended id OperationState.cancelled), s)
  translate id (err (app error)) s = (ok (failed_with id error), s)
  translate id (err Failure.untyped) s = (err Failure.untyped, s)

  -- `execute_operation`, where `is_cancelled` reads the token of a context
  unfoldable pub execute_operation :
      (ℕ → S → Bool) → (OperationContext → Exec S T) → OperationContext → Exec S (OperationResult T)
  unfolding translate
  execute_operation is_cancelled action context s =
      if is_cancelled context.cancellation s
      then (ok (ended context.operation_id OperationState.cancelled), s)
      else (let (r, s') = action context s in translate context.operation_id r s')
