-- ===== src/Application/Ssm/Foreground.antt =====
-- application/ssm_session.py: `ForegroundSsmSessionRunner`.
pub mod Balance
use aws_ssm_kit.Base.{ℕ, Bool, true, false, not, Option, none, some, ◌==◌, if◌then◌else◌}
use aws_ssm_kit.Errors.{
  ApplicationError, Result, ok, err, app, Failure, Attempt, attempt_all, returned, failed, fail,
  Exec, pure, raise, raise_if, ◌>>=◌, ◌>>◌,
}
use aws_ssm_kit.Text.{Text}
use aws_ssm_kit.Domain.Profile.{PlainCredentials}
use aws_ssm_kit.Application.Operations.{OperationContext}
use aws_ssm_kit.Application.Ssm.{
  SessionEndReason, max_duration, SsmRunResult, Parameters, StartedSsmSession, PluginInvocation,
  Waited, exited, timed_out, SsmPorts, plugin_error, with_cleanup_failure, check_cancelled,
  ensure_plugin_ready, stop_process,
}

-- what the failure of `_run_bounded` becomes when the process could not be stopped
abbrev pub bounded_failure : Failure → ApplicationError → ApplicationError
bounded_failure (app primary) cleanup = with_cleanup_failure primary
bounded_failure Failure.cancelled cleanup =
    plugin_error "session.cancel.cleanup_failed" cleanup.technical_cause
bounded_failure Failure.untyped cleanup = plugin_error "plugin.wait.failed" cleanup.technical_cause

-- what a failure becomes after the session has been ended, by whether that failed
abbrev pub ended_failure : Failure → Bool → Failure
ended_failure Failure.cancelled true =
    app (plugin_error "session.cancel.cleanup_failed" "EndSession failed")
ended_failure Failure.cancelled false = Failure.cancelled
ended_failure (app primary) true = app (with_cleanup_failure primary)
ended_failure (app primary) false = app primary
ended_failure Failure.untyped true =
    app (with_cleanup_failure (plugin_error "plugin.execute.failed" "plugin.execute.failed"))
ended_failure Failure.untyped false =
    app (plugin_error "plugin.execute.failed" "plugin.execute.failed")

abbrev pub is_failed_attempt : {A : Type 0} → Attempt A → Bool
is_failed_attempt (returned a) = false
is_failed_attempt (failed x) = true

module _ {W : Type 0} (p : SsmPorts W) where
  -- `_run_bounded` from the end of the wait on
  unfoldable pub after_wait : ℕ → Attempt Waited → Exec W (ℕ × Option SessionEndReason)
  after_wait process (returned (exited code)) = pure (code, none)
  after_wait process (returned timed_out) = do
    (code, error) ← stop_process p process
    elim error [ none ↦ pure (0, some max_duration) | some e ↦ raise e ]
  after_wait process (failed primary) = do
    (code, cleanup) ← stop_process p process
    elim cleanup [ none ↦ fail primary | some e ↦ raise (bounded_failure primary e) ]

  -- `_run_bounded`
  unfoldable pub run_bounded : PluginInvocation → ℕ → Exec W (ℕ × Option SessionEndReason)
  unfolding after_wait
  run_bounded invocation seconds = do
    process ← p.launch invocation false
    waited ← attempt_all (p.wait process seconds)
    after_wait process waited

  -- the plugin with a time limit, or without
  unfoldable pub run_plugin : PluginInvocation → Option ℕ → Exec W (ℕ × Option SessionEndReason)
  unfolding run_bounded
  run_plugin invocation none = do code ← p.run invocation; pure (code, none)
  run_plugin invocation (some seconds) = run_bounded invocation seconds

  -- the `try` block of `run`
  unfoldable pub run_session :
      OperationContext → PluginInvocation → Option ℕ → Exec W (ℕ × Option SessionEndReason)
  unfolding check_cancelled run_plugin
  run_session context invocation seconds = do
    check_cancelled p context
    p.report context "session.running"
    (code, reason) ← run_plugin invocation seconds
    raise_if (not (code == 0))
        (plugin_error "plugin.exit.nonzero" "Session Manager Plugin exited with a nonzero code")
    pure (code, reason)

  -- `_raise_after_end`
  unfoldable pub raise_after_end :
      {A : Type 0} → PlainCredentials → Text → Text → Failure → Exec W A
  raise_after_end credentials region session_id primary = do
    cleanup ← attempt_all (p.end_session credentials region session_id)
    fail (ended_failure primary (is_failed_attempt cleanup))

  -- `run` from the end of its `try` block on
  unfoldable pub finish_run :
      PlainCredentials
      → Text
      → Text
      → OperationContext
      → Attempt (ℕ × Option SessionEndReason)
      → Exec W SsmRunResult
  unfolding raise_after_end
  finish_run credentials region session_id context (failed primary) =
      raise_after_end credentials region session_id primary
  finish_run credentials region session_id context (returned (code, reason)) = do
    outcome ← attempt_all (p.end_session credentials region session_id)
    raise_if (is_failed_attempt outcome) (plugin_error "session.end.failed" "session.end.failed")
    p.report context "session.completed"
    pure (record { session_id = session_id; plugin_exit_code = code; end_reason = reason })

  -- `run`
  unfoldable pub run :
      PlainCredentials
      → Text
      → Text
      → Option Parameters
      → OperationContext
      → Option ℕ
      → Exec W SsmRunResult
  unfolding check_cancelled ensure_plugin_ready run_session finish_run
  run credentials region target parameters context seconds = do
    check_cancelled p context
    p.report context "session.plugin.check"
    ensure_plugin_ready p
    check_cancelled p context
    p.report context "session.aws.start"
    started ← p.start_session credentials region target parameters
    outcome ← attempt_all (
        run_session context
          (record { session = started; region = region; target = target; parameters = parameters })
          seconds)
    finish_run credentials region started.session_id context outcome
