-- ===== src/Application/Refresh.antt =====
-- application/authentication_service.py: `OperationCoordinator`, the pending MFA refreshes. Its lock
-- makes each access to the table of pending refreshes one step; a call is modelled as one step too.
pub mod Bound
pub mod Resume
use aws_ssm_kit.Base.{
  ℕ, ◌+◌, ◌*◌, Bool, true, false, not, ◌||◌, Option, none, some, leb, length, if◌then◌else◌, String,
}
use aws_ssm_kit.Base.Dict.{Dict, lookup, insert, erase, drop_where}
use aws_ssm_kit.Errors.{
  ErrorType, ApplicationError, Result, ok, err, app, raised, Exec, pure, gets, modify, rescue,
  ◌>>=◌, ◌>>◌,
}
use aws_ssm_kit.Text.{Text, codes}
use aws_ssm_kit.Domain.ExecutionLog.{ExecutionLevel, ExecutionResult, ExecutionPhase}
use aws_ssm_kit.Application.Env.{Ports, Env, LogRecord, ask, record_event}
use aws_ssm_kit.Application.Logging.{success}
use aws_ssm_kit.Application.Profiles.{Selector, ProfileSummary}
use aws_ssm_kit.Application.Sessions.{AuthenticationStatus, status, discard_cached_session, refresh}
use aws_ssm_kit.Application.Operations.{
  OperationState, OperationResult, succeeded_with, ended, failed_with, challenged,
  authentication_capacity_error, max_pending_authentication_operations,
}

pub record PendingRefresh : Type 0 where
  pub profile_id : ℕ
  pub expires_at : ℕ
  pub resumed : Bool

pub record Coordinator (W : Type 0) : Type 0 where
  pub env : Env W
  pub pending : Dict PendingRefresh

-- five minutes
abbrev pub challenge_lifetime : ℕ
challenge_lifetime = 5 * 60 * 1000000

abbrev is_mfa_validation : ApplicationError → Bool
is_mfa_validation e = elim e.kind [ ErrorType.mfa_validation ↦ true | _ ↦ false ]

abbrev pub cancelled_record : LogRecord
cancelled_record = record (success "auth" "mfa" (codes "-") none false) {
  result = ExecutionResult.cancelled;
  message_code = "auth.mfa.cancelled";
}

-- `_failure(operation_id, code)`
abbrev pub failure : ℕ → String → OperationResult AuthenticationStatus
failure id code = failed_with id (raised ErrorType.mfa_validation code code)

abbrev pub is_expired : ℕ → ℕ → PendingRefresh → Bool
is_expired now _ pending = leb pending.expires_at now

module _ {W : Type 0} where
  -- a call of the authentication service
  unfoldable pub within : {A : Type 0} → Exec (Env W) A → Exec (Coordinator W) A
  within m c = let (r, e) = m c.env in (r, record c { env = e })

  -- `_sweep_expired_locked` at a time
  unfoldable pub sweep : ℕ → Exec (Coordinator W) (Unit {0})
  sweep now c = (ok tt, record c { pending = drop_where (is_expired now) c.pending })

  unfoldable pub put_pending : ℕ → PendingRefresh → Exec (Coordinator W) (Unit {0})
  put_pending id pending c = (ok tt, record c { pending = insert id pending c.pending })

  unfoldable pub pop_pending : ℕ → Exec (Coordinator W) (Unit {0})
  pop_pending id c = (ok tt, record c { pending = erase id c.pending })

  -- the last step of `start_refresh`: the bound, or a place in the table
  unfoldable pub admit :
      ℕ → ProfileSummary → ℕ → Exec (Coordinator W) (OperationResult AuthenticationStatus)
  unfolding put_pending
  admit id profile expires_at c =
      if leb max_pending_authentication_operations (length c.pending)
      then (ok (failed_with id authentication_capacity_error), c)
      else (
        ok (
            challenged id (record {
              operation_id = id;
              profile_id = profile.id;
              device_arn = profile.mfa_arn;
              expires_at = expires_at;
            })),
        (put_pending id
            (record { profile_id = profile.id; expires_at = expires_at; resumed = false }) c).1,
      )

module _ {W : Type 0} (p : Ports W) where
  unfoldable pub answer :
      ℕ → AuthenticationStatus → Exec (Coordinator W) (OperationResult AuthenticationStatus)
  unfolding within sweep admit ask
  answer id found =
      if found.reusable
      then pure (succeeded_with id found)
      else if not found.profile.mfa_enabled
      then (do
        refreshed ← within (refresh p found.profile.id none)
        pure (succeeded_with id refreshed))
      else (do
        now ← within (ask p.now)
        sweep_time ← within (ask p.now)
        sweep sweep_time
        admit id found.profile (now + challenge_lifetime))

  unfoldable pub start_refresh :
      Selector → Bool → Exec (Coordinator W) (OperationResult AuthenticationStatus)
  unfolding answer
  start_refresh selector discard = do
    sweep_time ← within (ask p.now)
    sweep sweep_time
    if discard then (do within (discard_cached_session p selector); pure tt) else pure tt
    found ← within (status p selector)
    id ← within (ask p.new_operation_id)
    answer id found

  -- `resume` of a pending refresh that has been popped
  unfoldable pub resume_popped :
      ℕ → PendingRefresh → Option Text → Exec (Coordinator W) (OperationResult AuthenticationStatus)
  unfolding within ask record_event
  resume_popped id pending none = do
    within (record_event cancelled_record)
    pure (ended id OperationState.cancelled)
  resume_popped id pending (some code) = do
    now ← within (ask p.now)
    if leb pending.expires_at now
        then pure (failure id "mfa.challenge.expired")
        else rescue
            (do
              refreshed ← within (refresh p pending.profile_id (some code))
              pure (succeeded_with id refreshed))
            is_mfa_validation (λ e. pure (failed_with id e))

  unfoldable pub resume_found :
      ℕ
      → Option PendingRefresh
      → Option Text
      → Exec (Coordinator W) (OperationResult AuthenticationStatus)
  unfolding resume_popped pop_pending
  resume_found id none code = pure (failure id "mfa.operation.not_resumable")
  resume_found id (some pending) code =
      if pending.resumed
      then pure (failure id "mfa.operation.not_resumable")
      else (do pop_pending id; resume_popped id pending code)

  unfoldable pub resume :
      ℕ → Option Text → Exec (Coordinator W) (OperationResult AuthenticationStatus)
  unfolding resume_found
  resume id code c = resume_found id (lookup id c.pending) code c

module _ {W : Type 0} where
  unfoldable pub cancel : ℕ → Exec (Coordinator W) (Unit {0})
  unfolding within pop_pending record_event
  cancel id c = elim (lookup id c.pending) [
    | none ↦ pop_pending id c
    | some _ ↦ (do pop_pending id; within (record_event cancelled_record)) c
  ]
