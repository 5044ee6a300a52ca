-- ===== src/Application/Ssm/Managed.antt =====
-- application/ssm_session.py: `ManagedSsmSessionRunner`, the sessions that outlive the call that
-- started them. Its lock makes each access to the table one step. The flag `ended` of an owned session
-- is not modelled: a session leaves the table in the call that ends it.
pub mod Balance
pub mod Reach
pub mod Typed
use aws_ssm_kit.Base.{
  ℕ, Bool, true, false, not, ◌&&◌, Option, none, some, [], ◌∷◌, is_some, ◌==◌, if◌then◌else◌,
}
use aws_ssm_kit.Base.Dict.{Dict, lookup, insert, erase}
use aws_ssm_kit.Errors.{
  ApplicationError, Result, ok, err, app, Failure, Attempt, attempt_all, returned, failed, fail,
  Exec, pure, raise, ◌>>=◌, ◌>>◌,
}
use aws_ssm_kit.Text.{Text}
use aws_ssm_kit.Domain.Profile.{PlainCredentials}
use aws_ssm_kit.Application.Operations.{OperationContext, OperationState}
use aws_ssm_kit.Application.Ssm.{
  ManagedSsmSession, Parameters, StartedSsmSession, PluginInvocation, SsmPorts, plugin_error,
  with_cleanup_failure, combine_errors, check_cancelled, ensure_plugin_ready, stop_process,
}

-- `_OwnedSession`
pub record OwnedSession : Type 0 where
  pub credentials : PlainCredentials
  pub region : Text
  pub session_id : Text
  pub process : ℕ
  pub external_terminal : Bool

pub record Runner (W : Type 0) : Type 0 where
  pub world : W
  pub owned : Dict OwnedSession

abbrev pub not_owned : ApplicationError
not_owned =
    plugin_error "session.operation.not_found" "Managed SSM session is not owned by this process"

abbrev pub status_failed : ApplicationError
status_failed = plugin_error "plugin.status.failed" "plugin.status.failed"

-- the error of a code other than 0
abbrev pub exit_error : ℕ → Option ApplicationError
exit_error code =
    if code == 0
    then none
    else some
        (plugin_error "plugin.exit.nonzero" "Session Manager Plugin exited with a nonzero code")

-- what a failed launch becomes, by whether the end of the session failed
abbrev pub launch_failure : Failure → Bool → Failure
launch_failure (app primary) true = app (with_cleanup_failure primary)
launch_failure (app primary) false = app primary
launch_failure Failure.cancelled true =
    app (plugin_error "session.cancel.cleanup_failed" "session.cancel.cleanup_failed")
launch_failure Failure.cancelled false = Failure.cancelled
launch_failure Failure.untyped true =
    app (with_cleanup_failure (plugin_error "plugin.launch.failed" "plugin.launch.failed"))
launch_failure Failure.untyped false =
    app (plugin_error "plugin.launch.failed" "plugin.launch.failed")

-- the state of a session that has ended with no error but these
abbrev pub final_state : OperationState → Option ApplicationError → OperationState
final_state state none = state
final_state state (some e) = OperationState.failed

-- the state that `stop` finds or makes
abbrev pub stopped_state : Option ℕ → OperationState
stopped_state none = OperationState.cancelled
stopped_state (some code) = if code == 0 then OperationState.succeeded else OperationState.failed

abbrev pub polled_error : Option ℕ → Option ApplicationError
polled_error none = none
polled_error (some code) = exit_error code

module _ {W : Type 0} where
  -- a call of the gateway or of the plugin
  unfoldable pub outside : {A : Type 0} → Exec W A → Exec (Runner W) A
  outside m s = let (r, w) = m s.world in (r, record s { world = w })

  unfoldable pub own : ℕ → OwnedSession → Exec (Runner W) (Unit {0})
  own id session s = (ok tt, record s { owned = insert id session s.owned })

  unfoldable pub disown : ℕ → Exec (Runner W) (Unit {0})
  disown id s = (ok tt, record s { owned = erase id s.owned })

module _ {W : Type 0} (p : SsmPorts W) where
  -- `_snapshot`
  abbrev pub snapshot :
      ℕ
      → OwnedSession
      → OperationState
      → Option ℕ
      → Option ApplicationError
      → Option ApplicationError
      → ManagedSsmSession
  snapshot id session state code error warning = record {
    operation_id = id;
    process_id = p.pid session.process;
    session_id = session.session_id;
    state = state;
    exit_code = code;
    error = error;
    warning = warning;
  }

  -- `_capture_end_error`
  unfoldable pub capture_end_error : OwnedSession → Exec W (Option ApplicationError)
  capture_end_error session = do
    outcome ← attempt_all (p.end_session session.credentials session.region session.session_id)
    pure (elim outcome [
      | returned _ ↦ none
      | failed _ ↦ some (plugin_error "session.end.failed" "session.end.failed")
    ])

  -- `stop` of a session whose process has been polled
  unfoldable pub stop_polled :
      ℕ → OwnedSession → Attempt (Option ℕ) → Exec (Runner W) ManagedSsmSession
  unfolding outside disown capture_end_error stop_process
  stop_polled id session (returned (some code)) = do
    end_error ← outside (capture_end_error session)
    disown id
    let error = combine_errors (exit_error code ∷ none ∷ end_error ∷ [])
    pure
        (snapshot id session (final_state (stopped_state (some code)) error) (some code) error none)
  stop_polled id session (returned none) = do
    (code, stop_error) ← outside (stop_process p session.process)
    end_error ← outside (capture_end_error session)
    disown id
    let error = combine_errors (none ∷ combine_errors (none ∷ stop_error ∷ []) ∷ end_error ∷ [])
    pure (snapshot id session (final_state OperationState.cancelled error) code error none)
  stop_polled id session (failed _) = do
    (code, stop_error) ← outside (stop_process p session.process)
    end_error ← outside (capture_end_error session)
    disown id
    let error =
        combine_errors
          (none ∷ combine_errors (some status_failed ∷ stop_error ∷ []) ∷ end_error ∷ [])
    pure (snapshot id session (final_state OperationState.cancelled error) code error none)

  unfoldable pub stop_owned : ℕ → OwnedSession → Exec (Runner W) ManagedSsmSession
  unfolding outside stop_polled
  stop_owned id session = do
    polled ← outside (attempt_all (p.poll session.process))
    stop_polled id session polled

  unfoldable pub stop_found : ℕ → Option OwnedSession → Exec (Runner W) ManagedSsmSession
  unfolding stop_owned
  stop_found id none = raise not_owned
  stop_found id (some session) = stop_owned id session

  -- `stop`
  unfoldable pub stop : ℕ → Exec (Runner W) ManagedSsmSession
  unfolding stop_found
  stop id s = stop_found id (lookup id s.owned) s

  -- `status` of a session whose process has been polled
  unfoldable pub status_polled :
      ℕ → OwnedSession → Attempt (Option ℕ) → Exec (Runner W) ManagedSsmSession
  unfolding outside disown capture_end_error stop_process
  status_polled id session (returned none) =
      pure (snapshot id session OperationState.running none none none)
  status_polled id session (returned (some code)) = do
    end_error ← outside (capture_end_error session)
    let external = code == 0 && session.external_terminal
    let warning = if external then end_error else none
    let later = if external then none else end_error
    let error =
        if is_some later then combine_errors (exit_error code ∷ later ∷ []) else exit_error code
    disown id
    pure (
        snapshot id session (final_state (stopped_state (some code)) later) (some code) error
          warning)
  status_polled id session (failed _) = do
    (_, cleanup) ← outside (stop_process p session.process)
    end_error ← outside (capture_end_error session)
    disown id
    pure (
        snapshot id session OperationState.failed none
          (combine_errors (some status_failed ∷ cleanup ∷ end_error ∷ [])) none)

  unfoldable pub status_found : ℕ → Option OwnedSession → Exec (Runner W) ManagedSsmSession
  unfolding status_polled outside
  status_found id none = raise not_owned
  status_found id (some session) = do
    polled ← outside (attempt_all (p.poll session.process))
    status_polled id session polled

  -- `status`
  unfoldable pub status : ℕ → Exec (Runner W) ManagedSsmSession
  unfolding status_found
  status id s = status_found id (lookup id s.owned) s

  -- the `try` block that launches the plugin
  unfoldable pub launch_session : OperationContext → PluginInvocation → Bool → Exec W ℕ
  unfolding check_cancelled
  launch_session context invocation external = do
    check_cancelled p context
    p.report context "session.plugin.launch"
    p.launch invocation external

  -- `_raise_start_failure`
  unfoldable pub raise_start_failure :
      {A : Type 0} → PlainCredentials → Text → Text → Failure → Exec W A
  raise_start_failure credentials region session_id primary = do
    cleanup ← attempt_all (p.end_session credentials region session_id)
    fail (launch_failure primary (elim cleanup [ returned _ ↦ false | failed _ ↦ true ]))

  -- `start` from the report of the running session on: an observer that raises ends the session
  unfoldable pub announce : OperationContext → OwnedSession → Exec (Runner W) ManagedSsmSession
  unfolding outside stop
  announce context session = do
    told ← outside (attempt_all (p.report context "session.running"))
    elim told [
      | returned _ ↦
          pure (snapshot context.operation_id session OperationState.running none none none)
      | failed primary ↦ (do stop context.operation_id; fail primary)
    ]

  -- `start` from the launch on
  unfoldable pub start_launched :
      PlainCredentials
      → Text
      → Text
      → Bool
      → OperationContext
      → Attempt ℕ
      → Exec (Runner W) ManagedSsmSession
  unfolding outside own announce raise_start_failure
  start_launched credentials region session_id external context (failed primary) =
      outside (raise_start_failure credentials region session_id primary)
  start_launched credentials region session_id external context (returned process) = do
    let session : OwnedSession = record {
      credentials = credentials;
      region = region;
      session_id = session_id;
      process = process;
      external_terminal = external;
    }
    own context.operation_id session
    announce context session

  -- `start`
  unfoldable pub start :
      PlainCredentials
      → Text
      → Text
      → Option Parameters
      → Bool
      → OperationContext
      → Exec (Runner W) ManagedSsmSession
  unfolding outside start_launched launch_session check_cancelled ensure_plugin_ready
  start credentials region target parameters external context = do
    outside (check_cancelled p context)
    outside (p.report context "session.plugin.check")
    outside (ensure_plugin_ready p)
    outside (check_cancelled p context)
    outside (p.report context "session.aws.start")
    started ← outside (p.start_session credentials region target parameters)
    launched ← outside (
        attempt_all (
          launch_session context
            (record {
              session = started;
              region = region;
              target = target;
              parameters = parameters;
            })
            external))
    start_launched credentials region started.session_id external context launched
