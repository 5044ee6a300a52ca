-- ===== src/Application/Env.antt =====
-- What a service works on: the database, the execution log, and the world behind the ports of
-- application/ports.py. The implementations of the ports call AWS, DPAPI, the clock and `uuid4`:
-- they are the parameter `Ports`, whose calls take the world and give it back changed.
use aws_ssm_kit.Base.{ℕ, String, Option, List, ◌∷◌}
use aws_ssm_kit.Errors.{ErrorCategory, Result, ok, Exec}
use aws_ssm_kit.Text.{Text, Runtime}
use aws_ssm_kit.Domain.Profile.{PlainCredentials}
use aws_ssm_kit.Domain.ExecutionLog.{ExecutionLevel, ExecutionResult, ExecutionPhase}
use aws_ssm_kit.Store.{Db}

pub record AwsIdentity : Type 0 where
  pub account_id : Text
  pub user_id : Text
  pub arn : Text

pub record IssuedSession : Type 0 where
  pub credentials : PlainCredentials
  pub expires_at_utc : ℕ

-- One call of `ActivityLogService.record`, without the identifiers of the request and the AWS
-- diagnostics.
pub record LogRecord : Type 0 where
  pub feature : String
  pub operation : String
  pub result : ExecutionResult
  pub level : ExecutionLevel
  pub phase : ExecutionPhase
  pub message_code : String
  pub target : Text
  pub profile_id : Option ℕ
  pub error_category : Option ErrorCategory

pub record Ports (W : Type 0) : Type 0 where
  pub runtime : Runtime
  -- `Clock.now`, and the clock that the store stamps its rows with
  pub now : W → ℕ × W
  -- `str(uuid4())`
  pub new_operation_id : W → ℕ × W
  pub get_identity : PlainCredentials → Text → Exec W AwsIdentity
  pub get_session_token :
      PlainCredentials → Text → Option Text → Option Text → ℕ → Exec W IssuedSession
  pub protect : Text → Exec W Text
  pub unprotect : Text → Exec W Text
  -- `SharedCredentialsWriter.write`, where one is given
  pub write_shared : Option (ℕ → PlainCredentials → Exec W (Unit {0}))

pub record Env (W : Type 0) : Type 0 where
  pub db : Db
  pub world : W
  -- the newest record first
  pub log : List LogRecord

module _ {W : Type 0} where
  -- a call of a port
  unfoldable pub call : {A : Type 0} → Exec W A → Exec (Env W) A
  call m e = let (r, w) = m e.world in (r, record e { world = w })

  -- a port that cannot raise
  unfoldable pub ask : {A : Type 0} → (W → A × W) → Exec (Env W) A
  ask m e = let (a, w) = m e.world in (ok a, record e { world = w })

  -- a call of the store
  unfoldable pub query : {A : Type 0} → (Db → Result A) → Exec (Env W) A
  query f e = (f e.db, e)

  unfoldable pub write : {A : Type 0} → Exec Db A → Exec (Env W) A
  write m e = let (r, db) = m e.db in (r, record e { db = db })

  unfoldable pub record_event : LogRecord → Exec (Env W) (Unit {0})
  record_event r e = (ok tt, record e { log = r ∷ e.log })
