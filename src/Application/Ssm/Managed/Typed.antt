-- ===== src/Application/Ssm/Managed/Typed.antt =====
-- What a stop of the managed runner of application/ssm_session.py raises.
use aws_ssm_kit.Base.{ℕ, Option, none, some}
use aws_ssm_kit.Base.Dict.{lookup}
use aws_ssm_kit.Errors
use aws_ssm_kit.Errors.{
  ApplicationError, Result, ok, err, app, Failure, Exec, pure, raise, attempt_all, fail, ◌>>=◌,
  ◌>>◌,
}
use aws_ssm_kit.Application.Ssm.{
  SsmPorts, stop_process, recover_process, terminate_or_kill, wait_or_fail,
}
use aws_ssm_kit.Application.Ssm.Managed as Sessions
use aws_ssm_kit.Application.Ssm.Managed.{OwnedSession, outside, disown, capture_end_error}
use aws_ssm_kit.Errors.Typed.{Typed, Typed-bind, Typed-attempt_all, Typed-pure}

module _ {W A : Type 0} where
  pub Typed-outside :
      (m : Exec W A) → ((w : W) → Typed (m w).0) → (s : Sessions.Runner W) → Typed (outside m s).0
  unfolding outside
  Typed-outside m h s = h s.world

module _ {W : Type 0} (p : SsmPorts W) where
  pub stop_process-Typed : (process : ℕ) (w : W) → Typed (stop_process p process w).0
  unfolding stop_process recover_process
  stop_process-Typed process =
      Typed-bind (attempt_all (terminate_or_kill p process)) _ (Typed-attempt_all _) stopped
    where
      stopped :
          (a : Errors.Attempt ℕ) (w : W)
          → Typed
              ((elim a as (λ _. Exec W (Option ℕ × Option ApplicationError)) [
                | Errors.Attempt.returned code ↦ pure (some code, none)
                | Errors.Attempt.failed _ ↦ recover_process p process
              ])
                w).0
      stopped (Errors.Attempt.returned code) = Typed-pure _
      stopped (Errors.Attempt.failed x) =
          Typed-bind (attempt_all (p.kill process)) _ (Typed-attempt_all _) (λ _.
            Typed-bind (attempt_all (wait_or_fail p process)) _ (Typed-attempt_all _)
              (λ code. Typed-pure _))

  capture_end_error-Typed :
      (session : OwnedSession) (w : W) → Typed (capture_end_error p session w).0
  unfolding capture_end_error
  capture_end_error-Typed session =
      Typed-bind (attempt_all (p.end_session session.credentials session.region session.session_id))
        _ (Typed-attempt_all _) (λ o. Typed-pure _)

  closing-Typed :
      {A : Type 0} (id : ℕ) (session : OwnedSession) (result : Option ApplicationError → A)
      (s : Sessions.Runner W)
      → Typed
          ((outside (capture_end_error p session) >>= λ e. disown id >>= λ _. pure (result e)) s).0
  unfolding disown
  closing-Typed id session result =
      Typed-bind (outside (capture_end_error p session)) _
        (Typed-outside (capture_end_error p session) (capture_end_error-Typed session))
        (λ e. Typed-bind (disown id) _ (λ s. tt) (λ _. Typed-pure _))

  stop_polled-Typed :
      (id : ℕ) (session : OwnedSession) (polled : Errors.Attempt (Option ℕ)) (s : Sessions.Runner W)
      → Typed (Sessions.stop_polled p id session polled s).0
  unfolding Sessions.stop_polled
  stop_polled-Typed id session (Errors.Attempt.returned (some code)) = closing-Typed id session _
  stop_polled-Typed id session (Errors.Attempt.returned none) =
      Typed-bind (outside (stop_process p session.process)) _
        (Typed-outside (stop_process p session.process) (stop_process-Typed session.process))
        (λ a. closing-Typed id session _)
  stop_polled-Typed id session (Errors.Attempt.failed x) =
      Typed-bind (outside (stop_process p session.process)) _
        (Typed-outside (stop_process p session.process) (stop_process-Typed session.process))
        (λ a. closing-Typed id session _)

  stop_found-Typed :
      (id : ℕ) (o : Option OwnedSession) (s : Sessions.Runner W)
      → Typed (Sessions.stop_found p id o s).0
  unfolding Sessions.stop_found Sessions.stop_owned raise
  stop_found-Typed id none s = tt
  stop_found-Typed id (some session) s =
      Typed-bind (outside (attempt_all (p.poll session.process))) _
        (Typed-outside (attempt_all (p.poll session.process)) (Typed-attempt_all _))
        (stop_polled-Typed id session) s

  -- A stop of the runner returns, or raises that it does not own the session.
  pub stop-Typed : (id : ℕ) (s : Sessions.Runner W) → Typed (Sessions.stop p id s).0
  unfolding Sessions.stop
  stop-Typed id s = stop_found-Typed id (lookup id s.owned) s
