-- ===== src/Application/Ssm.antt =====
-- application/ssm_session.py: the values and the helpers that both runners of Session Manager
-- sessions share. The gateway of AWS and the plugin are the parameter `SsmPorts`; a process is a
-- number that the plugin gave out, and exit codes are numbers. Keyboard interrupts are not modelled,
-- nor are the parts of a technical cause that name a Python exception.
pub mod Counted
pub mod Foreground
pub mod Managed
use Prim.Native.String.{◌++◌ as ◌<>◌}
use aws_ssm_kit.Base.{
  ℕ, String, Bool, true, false, not, Option, none, some, List, [], ◌∷◌, if◌then◌else◌,
}
use aws_ssm_kit.Errors.{
  ErrorType, ApplicationError, Result, ok, err, app, raised, Failure, Attempt, attempt_all,
  returned, failed, fail, Exec, pure, raise, raise_if, ◌>>=◌, ◌>>◌,
}
use aws_ssm_kit.Text.{Text}
use aws_ssm_kit.Domain.Profile.{PlainCredentials}
use aws_ssm_kit.Application.Operations.{OperationContext, OperationState}

pub data SessionEndReason : Type 0 where
  max_duration : SessionEndReason

pub record SsmRunResult : Type 0 where
  pub session_id : Text
  pub plugin_exit_code : ℕ
  pub end_reason : Option SessionEndReason

pub record ManagedSsmSession : Type 0 where
  pub operation_id : ℕ
  pub process_id : ℕ
  pub session_id : Text
  pub state : OperationState
  pub exit_code : Option ℕ
  pub error : Option ApplicationError
  pub warning : Option ApplicationError

-- the parameters of the port forwarding document
pub record Parameters : Type 0 where
  pub host : Text
  pub port_number : ℕ
  pub local_port_number : ℕ

pub record StartedSsmSession : Type 0 where
  pub session_id : Text
  pub stream_url : Text
  pub token_value : Text

pub record PluginDiagnostic : Type 0 where
  pub exists : Bool
  pub supported : Bool
  pub environment_ready : Bool

-- A document is the one of port forwarding, or none.
pub record PluginInvocation : Type 0 where
  pub session : StartedSsmSession
  pub region : Text
  pub target : Text
  pub parameters : Option Parameters

-- `process.wait(timeout=…)`: an exit code, or `TimeoutError`
pub data Waited : Type 0 where
  exited : ℕ → Waited
  timed_out : Waited

pub record SsmPorts (W : Type 0) : Type 0 where
  pub is_cancelled : ℕ → W → Bool
  -- the observer of the progress of an operation, which may raise
  pub report : OperationContext → String → Exec W (Unit {0})
  pub diagnose : Exec W PluginDiagnostic
  pub start_session : PlainCredentials → Text → Text → Option Parameters → Exec W StartedSsmSession
  pub end_session : PlainCredentials → Text → Text → Exec W (Unit {0})
  pub run : PluginInvocation → Exec W ℕ
  pub launch : PluginInvocation → Bool → Exec W ℕ
  pub pid : ℕ → ℕ
  pub poll : ℕ → Exec W (Option ℕ)
  -- with a number of seconds
  pub wait : ℕ → ℕ → Exec W Waited
  pub terminate : ℕ → Exec W (Unit {0})
  pub kill : ℕ → Exec W (Unit {0})

abbrev pub plugin_error : String → String → ApplicationError
plugin_error code cause = raised ErrorType.plugin_execution code cause

-- `_with_cleanup_failure`
abbrev pub with_cleanup_failure : ApplicationError → ApplicationError
with_cleanup_failure primary =
    record (plugin_error primary.message_code (primary.technical_cause <> "; EndSession failed")) {
      retryable = primary.retryable;
      aws_service = primary.aws_service;
      aws_action = primary.aws_action;
    }

abbrev pub present : List (Option ApplicationError) → List ApplicationError
present [] = []
present (none ∷ errors) = present errors
present (some e ∷ errors) = e ∷ present errors

-- the causes that are joined to the one of the first error
abbrev pub joined_causes : String → List ApplicationError → String
joined_causes cause [] = cause
joined_causes cause (e ∷ errors) =
    joined_causes (cause <> "; " <> e.message_code <> " (" <> e.technical_cause <> ")") errors

abbrev pub combined : List ApplicationError → Option ApplicationError
combined [] = none
combined (e ∷ []) = some e
combined (e ∷ other ∷ errors) =
    some (record (plugin_error e.message_code (joined_causes e.technical_cause (other ∷ errors))) {
      retryable = e.retryable;
      aws_service = e.aws_service;
      aws_action = e.aws_action;
    })

-- `_combine_errors`
abbrev pub combine_errors : List (Option ApplicationError) → Option ApplicationError
combine_errors errors = combined (present errors)

module _ {W : Type 0} (p : SsmPorts W) where
  -- `context.raise_if_cancelled()`
  unfoldable pub check_cancelled : OperationContext → Exec W (Unit {0})
  check_cancelled context w =
      (if p.is_cancelled context.cancellation w then err Failure.cancelled else ok tt, w)

  -- `_ensure_plugin_ready`
  unfoldable pub ensure_plugin_ready : Exec W (Unit {0})
  ensure_plugin_ready = do
    d ← p.diagnose
    raise_if (not d.exists) (plugin_error "plugin.not_found" "Session Manager Plugin is missing")
    raise_if (not d.environment_ready)
        (plugin_error "plugin.environment.invalid" "Plugin execution environment is not supported")
    raise_if (not d.supported)
        (plugin_error "plugin.version.unsupported" "Session Manager Plugin version is too old")

  -- `wait` where a timeout is an exception like any other
  unfoldable pub wait_or_fail : ℕ → Exec W ℕ
  wait_or_fail process = do
    waited ← p.wait process 5
    elim waited [ exited code ↦ pure code | timed_out ↦ fail Failure.untyped ]

  -- the `try` block of `_stop_process`
  unfoldable pub terminate_or_kill : ℕ → Exec W ℕ
  unfolding wait_or_fail
  terminate_or_kill process = do
    p.terminate process
    waited ← p.wait process 5
    elim waited [ exited code ↦ pure code | timed_out ↦ (do p.kill process; wait_or_fail process) ]

  -- its handler
  unfoldable pub recover_process : ℕ → Exec W (Option ℕ × Option ApplicationError)
  unfolding wait_or_fail
  recover_process process = do
    attempt_all (p.kill process)
    code ← attempt_all (wait_or_fail process)
    pure (
      elim code [ returned c ↦ some c | failed _ ↦ none ],
      some (plugin_error "plugin.stop.failed" "plugin.stop.failed"),
    )

  -- `_stop_process`
  unfoldable pub stop_process : ℕ → Exec W (Option ℕ × Option ApplicationError)
  unfolding terminate_or_kill recover_process
  stop_process process = do
    stopped ← attempt_all (terminate_or_kill process)
    elim stopped [ returned code ↦ pure (some code, none) | failed _ ↦ recover_process process ]
