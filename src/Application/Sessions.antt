-- ===== src/Application/Sessions.antt =====
-- application/authentication_service.py: `SessionGuard` and `AuthenticationService`. The locks of
-- the service make a refresh of one profile exclusive: a call is one step here.
pub mod Guard
pub mod World
use aws_ssm_kit.Base.{
  ℕ, ◌*◌, String, Bool, true, false, not, ◌||◌, ◌&&◌, Option, none, some, is_some, if◌then◌else◌,
  [],
}
use aws_ssm_kit.Errors.{
  ErrorType, ApplicationError, Result, ok, err, app, raised, Exec, pure, lift, raise, raise_if,
  rescue, ◌>>=◌, ◌>>◌,
}
use aws_ssm_kit.Text.{Text, Runtime, codes, same}
use aws_ssm_kit.Text.Regex.{fullmatch}
use aws_ssm_kit.Domain.Patterns.{mfa_code_pattern}
use aws_ssm_kit.Domain.Profile.{
  AwsProfile, require_id, PlainCredentials, plain_credentials, SessionCredentials, needs_refresh,
}
use aws_ssm_kit.Domain.ExecutionLog.{ExecutionLevel, ExecutionResult, ExecutionPhase}
use aws_ssm_kit.Store.{Db}
use aws_ssm_kit.Store.Sessions
use aws_ssm_kit.Application.Env.{
  Ports, Env, IssuedSession, LogRecord, call, ask, query, write, record_event,
}
use aws_ssm_kit.Application.Logging.{logged_operation, success}
use aws_ssm_kit.Application.Profiles.{
  Selector, by_id, ProfileSummary, resolve, show, reveal_credentials,
}

pub data SessionState : Type 0 where
  ready mfa_required session_required : SessionState

pub record AuthenticationStatus : Type 0 where
  pub profile : ProfileSummary
  pub state : SessionState
  pub expires_at_utc : Option ℕ
  pub reusable : Bool

abbrev pub identity_mismatch : ApplicationError
identity_mismatch =
    record (raised ErrorType.credential_validation "credentials.identity_mismatch"
      "Session identity does not match its owning profile") {
        aws_service = some "sts";
        aws_action = some "GetCallerIdentity";
      }

-- the errors that make a cached session disposable
abbrev pub is_disposable : ApplicationError → Bool
is_disposable e = elim e.kind [
  | ErrorType.configuration ↦ true
  | ErrorType.credential_validation ↦ true
  | ErrorType.data_protection ↦ true
  | _ ↦ false
]

abbrev pub is_configuration : ApplicationError → Bool
is_configuration e = elim e.kind [ ErrorType.configuration ↦ true | _ ↦ false ]

-- `mfa_code is not None and _MFA_CODE.fullmatch(mfa_code)`
unfoldable pub is_mfa_code : Runtime → Option Text → Bool
is_mfa_code u none = false
is_mfa_code u (some code) = fullmatch (mfa_code_pattern u) code

abbrev pub needed_state : AwsProfile → SessionState
needed_state profile = if profile.mfa_enabled then mfa_required else session_required

module _ {W : Type 0} (p : Ports W) where
  unfoldable pub delete_session : ℕ → Exec (Env W) (Unit {0})
  unfolding write
  delete_session id = write (λ db. (ok tt, Sessions.delete_session id db))

  unfoldable pub get_session : ℕ → Exec (Env W) (Option SessionCredentials)
  unfolding query
  get_session id = query (λ db. ok (Sessions.get_session id db))

  -- `_assert_identity` after the call of `get_identity`
  unfoldable pub assert_identity : AwsProfile → PlainCredentials → Exec (Env W) (Unit {0})
  unfolding call
  assert_identity profile credentials = do
    identity ← call (p.get_identity credentials profile.region)
    raise_if
        (not (same profile.account_id identity.account_id)
          || not (same profile.user_id identity.user_id))
        identity_mismatch

  -- the `try` block of `SessionGuard.credentials`
  unfoldable pub open_session :
      AwsProfile → SessionCredentials → Exec (Env W) (Option PlainCredentials)
  unfolding assert_identity
  open_session profile session = do
    access ← call (p.unprotect session.encrypted_access_key)
    secret ← call (p.unprotect session.encrypted_secret_key)
    token ← call (p.unprotect session.encrypted_session_token)
    credentials ← lift (
        plain_credentials
          (record { access_key = access; secret_key = secret; session_token = some token }))
    assert_identity profile credentials
    pure (some credentials)

  -- the rest of `credentials` on a cached session
  unfoldable pub use_session :
      AwsProfile → ℕ → SessionCredentials → Exec (Env W) (Option PlainCredentials)
  unfolding delete_session ask
  use_session profile id session = do
    now ← ask p.now
    if needs_refresh session now
        then (do delete_session id; pure none)
        else rescue (open_session profile session) is_disposable
            (λ _. do delete_session id; pure none)

  unfoldable pub or_none :
      AwsProfile → ℕ → Option SessionCredentials → Exec (Env W) (Option PlainCredentials)
  or_none profile id none = pure none
  or_none profile id (some session) = use_session profile id session

  -- `SessionGuard.credentials`
  unfoldable pub credentials : Selector → Exec (Env W) (Option PlainCredentials)
  unfolding or_none get_session
  credentials selector = do
    profile ← query (resolve p.runtime selector)
    id ← lift (require_id profile)
    session ← get_session id
    or_none profile id session

  abbrev pub mfa_required_error : ApplicationError
  mfa_required_error =
      raised ErrorType.credential_validation "auth.mfa_required"
        "No reusable authenticated session is available"

  unfoldable pub given : Option PlainCredentials → Exec (Env W) PlainCredentials
  given none = raise mfa_required_error
  given (some c) = pure c

  unfoldable pub require_credentials : ℕ → Exec (Env W) PlainCredentials
  unfolding given
  require_credentials profile_id = do found ← credentials (by_id profile_id); given found

  unfoldable pub status_of :
      AwsProfile → ℕ → Option SessionCredentials → Exec (Env W) AuthenticationStatus
  unfolding delete_session ask show
  status_of profile id none = do
    shown ← show p (by_id id)
    pure (record {
      profile = shown;
      state = needed_state profile;
      expires_at_utc = none;
      reusable = false;
    })
  status_of profile id (some session) = do
    now ← ask p.now
    let reusable = not (needs_refresh session now)
    if reusable then pure tt else delete_session id
    shown ← show p (by_id id)
    pure (record {
      profile = shown;
      state = if reusable then ready else needed_state profile;
      expires_at_utc = some session.expires_at_utc;
      reusable = reusable;
    })

  -- `AuthenticationService.status`
  unfoldable pub status : Selector → Exec (Env W) AuthenticationStatus
  unfolding status_of get_session
  status selector = do
    profile ← query (resolve p.runtime selector)
    id ← lift (require_id profile)
    session ← get_session id
    status_of profile id session

  unfoldable pub discard_cached_session : Selector → Exec (Env W) ℕ
  unfolding delete_session
  discard_cached_session selector = do
    profile ← query (resolve p.runtime selector)
    id ← lift (require_id profile)
    delete_session id
    pure id

  unfoldable pub validate : Selector → Exec (Env W) AuthenticationStatus
  unfolding assert_identity status
  validate selector = logged_operation "auth" "validate" false (codes "-") (do
    profile ← query (resolve p.runtime selector)
    plain ← reveal_credentials p profile
    assert_identity profile plain
    id ← lift (require_id profile)
    record_event (success "auth" "validate" (codes "-") (some id) false)
    status (by_id id))

  abbrev issued_record : ℕ → LogRecord
  issued_record id = record (success "auth" "issue_session" (codes "-") (some id) false) {
    phase = ExecutionPhase.progress;
    message_code = "auth.session.issued";
  }

  -- the shared credentials file: a refresh that cannot write it is undone
  unfoldable pub share :
      Option (ℕ → PlainCredentials → Exec W (Unit {0}))
      → ℕ
      → PlainCredentials
      → Exec (Env W) (Unit {0})
  unfolding delete_session call
  share none id credentials = pure tt
  share (some write_shared) id credentials =
      rescue (call (write_shared id credentials)) is_configuration
        (λ e. do delete_session id; raise e)

  -- `refresh` from the call of STS on
  unfoldable pub issue : AwsProfile → ℕ → Option Text → Exec (Env W) AuthenticationStatus
  unfolding assert_identity share status call ask
  issue profile id mfa_code = do
    plain ← reveal_credentials p profile
    issued ← call (
        p.get_session_token plain profile.region
          (if profile.mfa_enabled then some profile.mfa_arn else none)
          (if profile.mfa_enabled then mfa_code else none) (profile.session_hours * 60 * 60))
    record_event (issued_record id)
    assert_identity profile issued.credentials
    now ← ask p.now
    access ← call (p.protect issued.credentials.access_key)
    secret ← call (p.protect issued.credentials.secret_key)
    token ← call (p.protect (elim issued.credentials.session_token [ none ↦ [] | some t ↦ t ]))
    write (λ db. (
      ok tt,
      Sessions.put_session
          (record {
            profile_id = id;
            encrypted_access_key = access;
            encrypted_secret_key = secret;
            encrypted_session_token = token;
            expires_at_utc = issued.expires_at_utc;
            verified_at_utc = now;
          })
          db,
    ))
    share p.write_shared id issued.credentials
    record_event (success "auth" "refresh" (codes "-") (some id) false)
    status (by_id id)

  unfoldable pub refresh_body : ℕ → Option Text → Exec (Env W) AuthenticationStatus
  unfolding issue credentials
  refresh_body id mfa_code = do
    profile ← query (resolve p.runtime (by_id id))
    raise_if (profile.mfa_enabled && not (is_mfa_code p.runtime mfa_code)) (
        raised ErrorType.mfa_validation "mfa.code.invalid"
          "MFA code must contain exactly six digits")
    cached ← credentials (by_id id)
    if is_some cached then status (by_id id) else issue profile id mfa_code

  -- `AuthenticationService.refresh`
  unfoldable pub refresh : ℕ → Option Text → Exec (Env W) AuthenticationStatus
  unfolding refresh_body logged_operation
  refresh id mfa_code =
      logged_operation "auth" "refresh" false (codes "-") (refresh_body id mfa_code)
