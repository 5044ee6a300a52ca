-- ===== src/Application/Logging.antt =====
-- application/execution_logging.py, and `record_success` of application/activity_log_service.py,
-- for a service that has a recorder. The identifiers of the request are not modelled.
pub mod Yields
use Prim.Native.String.{◌++◌ as ◌<>◌}
use aws_ssm_kit.Base.{ℕ, String, Bool, true, Option, none, some, str_eq, if◌then◌else◌}
use aws_ssm_kit.Errors.{
  ErrorType, ErrorCategory, ApplicationError, Result, ok, err, Failure, app, Exec,
}
use aws_ssm_kit.Text.{Text, codes}
use aws_ssm_kit.Domain.ExecutionLog.{ExecutionLevel, ExecutionResult, ExecutionPhase}
use aws_ssm_kit.Application.Env.{Env, LogRecord, record_event}

-- `record_success`
abbrev pub success : String → String → Text → Option ℕ → Bool → LogRecord
success feature operation target profile_id warning = record {
  feature = feature;
  operation = operation;
  result = if warning then ExecutionResult.warning else ExecutionResult.success;
  level = if warning then ExecutionLevel.warning else ExecutionLevel.info;
  phase = ExecutionPhase.completed;
  message_code = feature <> "." <> operation <> ".completed";
  target = target;
  profile_id = profile_id;
  error_category = none;
}

-- A record of the decorator, which names neither profile nor error.
abbrev pub event :
    String → String → Text → ExecutionResult → ExecutionLevel → ExecutionPhase → String → LogRecord
event feature action target result level phase code = record {
  feature = feature;
  operation = action;
  result = result;
  level = level;
  phase = phase;
  message_code = code;
  target = target;
  profile_id = none;
  error_category = none;
}

-- the category that `record_failure` gives an error that has none
abbrev pub category : ErrorType → ErrorCategory
category ErrorType.aws_permission = ErrorCategory.permission
category ErrorType.aws_network = ErrorCategory.network
category ErrorType.credential_validation = ErrorCategory.authentication
category ErrorType.mfa_validation = ErrorCategory.authentication
category ErrorType.plugin_execution = ErrorCategory.process
category ErrorType.port_already_in_use = ErrorCategory.conflict
category ErrorType.target_not_connected = ErrorCategory.resource
category _ = ErrorCategory.configuration_category

-- the record of `record_failure`
unfoldable pub failure : String → String → Text → Option ℕ → ApplicationError → LogRecord
failure feature action target profile_id error = record {
  feature = feature;
  operation = action;
  result = ExecutionResult.failure;
  level = ExecutionLevel.error;
  phase = ExecutionPhase.completed;
  message_code = error.message_code;
  target = target;
  profile_id = profile_id;
  error_category = some (elim error.error_category [ none ↦ category error.kind | some c ↦ c ]);
}

-- `record_failure` marks the error, so that the handlers above log it no second time.
abbrev pub logged : ApplicationError → ApplicationError
logged error = record error { execution_logged = true }

module _ {W A : Type 0} where
  -- the handlers and the ending of the decorator
  unfoldable pub finish : String → String → Bool → Text → Result A → Exec (Env W) A
  unfolding record_event
  finish feature action completion target (ok a) e =
      if completion
      then (
        ok a,
        (record_event
            (event feature action target ExecutionResult.success ExecutionLevel.info
              ExecutionPhase.completed (feature <> "." <> action <> ".completed"))
            e).1,
      )
      else (ok a, e)
  finish feature action completion target (err Failure.cancelled) e = (
    err Failure.cancelled,
    (record_event
        (event feature action target ExecutionResult.cancelled ExecutionLevel.warning
          ExecutionPhase.completed (feature <> "." <> action <> ".cancelled"))
        e).1,
  )
  finish feature action completion target (err Failure.untyped) e = (
    err Failure.untyped,
    (record_event
        (record (event feature action target ExecutionResult.failure ExecutionLevel.error
          ExecutionPhase.completed (feature <> "." <> action <> ".failed")) {
            error_category = some ErrorCategory.internal;
          })
        e).1,
  )
  finish feature action completion target (err (app error)) e =
      if str_eq error.message_code "auth.mfa_required"
      then (
        err (app error),
        (record_event
            (event feature action (codes "-") ExecutionResult.warning ExecutionLevel.info
              ExecutionPhase.progress "auth.mfa_required")
            e).1,
      )
      else if error.execution_logged
      then (err (app error), e)
      else (err (app (logged error)), (record_event (failure feature action target none error) e).1)

  -- `@logged_operation(feature, action, completion=…)` on a first attempt
  unfoldable pub logged_operation : String → String → Bool → Text → Exec (Env W) A → Exec (Env W) A
  unfolding finish
  logged_operation feature action completion target m e =
      let started =
        (record_event
          (event feature action target ExecutionResult.success ExecutionLevel.info
            ExecutionPhase.started (feature <> "." <> action <> ".started"))
          e).1 in
      let (r, e') = m started in finish feature action completion target r e'
