-- ===== src/Application/Profiles.antt =====
-- application/profile_service.py: profile use cases.
pub mod Selection
use aws_ssm_kit.Base.{
  ℕ, Bool, true, false, not, ◌||◌, ◌&&◌, Option, none, some, all, ltb, if◌then◌else◌, get_or_else,
}
use aws_ssm_kit.Errors.{
  Result, ok, err, Failure, raised, credential_validation, configuration_error, fail_with, Exec,
  lift, raise_if, or_raise, ◌>>=◌, ◌>>◌, ◌then_do◌,
}
use aws_ssm_kit.Text.{Text, Runtime, same, is_empty, trim, int_value}
use aws_ssm_kit.Domain.Profile.{
  AwsProfile, aws_profile, require_id, PlainCredentials, plain_credentials, default_mfa_arn,
  default_session_duration_hours,
}
use aws_ssm_kit.Store.{Db}
use aws_ssm_kit.Store.Profiles
use aws_ssm_kit.Store.Sessions.{delete_session}
use aws_ssm_kit.Application.Env.{Ports, Env, call, ask, query, write}

-- `str | int | None`
pub data Selector : Type 0 where
  default_profile : Selector
  by_id : ℕ → Selector
  by_text : Text → Selector

pub record SaveProfileRequest : Type 0 where
  pub name : Text
  pub region : Text
  pub account_id : Text
  pub user_id : Text
  pub access_key : Option Text
  pub secret_key : Option Text
  pub mfa_arn : Option Text
  pub mfa_enabled : Option Bool
  pub session_hours : Option ℕ
  pub profile_id : Option ℕ

pub record ProfileSummary : Type 0 where
  pub id : ℕ
  pub name : Text
  pub region : Text
  pub account_id : Text
  pub user_id : Text
  pub mfa_arn : Text
  pub is_default : Bool
  pub mfa_enabled : Bool
  pub session_hours : ℕ

-- `s.isdigit()`
unfoldable pub is_digits : Runtime → Text → Bool
is_digits u s = not (is_empty s) && all u.is_digit s

-- A parameter of a statement: the driver raises `OverflowError` on an integer of more than 64 bits.
abbrev pub with_key : {A : Type 0} → ℕ → Result A → Result A
with_key k read = if ltb k 9223372036854775808 then read else err Failure.untyped

-- the three reads of `resolve`; `int` raises on a digit that is no decimal, and on too many digits
unfoldable pub find : Runtime → Selector → Db → Result (Option AwsProfile)
unfolding is_digits int_value
find u default_profile db = Profiles.get_default u db
find u (by_id k) db = with_key k (Profiles.get u k db)
find u (by_text s) db =
    if is_digits u s
    then elim (int_value u s) [
      | none ↦ err Failure.untyped
      | some k ↦ with_key k (Profiles.get u k db)
    ]
    else Profiles.get_by_name u s db

unfoldable pub resolve : Runtime → Selector → Db → Result AwsProfile
unfolding find
resolve u selector db =
    find u selector db
    then_do elim [ none ↦ fail_with (configuration_error "profile.not_found") | some p ↦ ok p ]

unfoldable pub summary : AwsProfile → Result ProfileSummary
unfolding require_id
summary p = require_id p then_do λ id. ok (record {
  id = id;
  name = p.name;
  region = p.region;
  account_id = p.account_id;
  user_id = p.user_id;
  mfa_arn = p.mfa_arn;
  is_default = p.is_default;
  mfa_enabled = p.mfa_enabled;
  session_hours = p.session_hours;
})

-- Two optional keys make credentials only together.
unfoldable pub requested_credentials : SaveProfileRequest → Result PlainCredentials
requested_credentials r = elim r.access_key [
  | none ↦ fail_with (configuration_error "profile.credentials.required")
  | some access ↦ elim r.secret_key [
    | none ↦ fail_with (configuration_error "profile.credentials.required")
    | some secret ↦
        plain_credentials
          (record { access_key = access; secret_key = secret; session_token = none })
  ]
]

module _ {W : Type 0} (p : Ports W) where
  unfoldable pub show : Selector → Exec (Env W) ProfileSummary
  unfolding query
  show selector = do profile ← query (resolve p.runtime selector); lift (summary profile)

  unfoldable pub reveal_credentials : AwsProfile → Exec (Env W) PlainCredentials
  reveal_credentials profile = do
    access ← call (p.unprotect profile.encrypted_access_key)
    secret ← call (p.unprotect profile.encrypted_secret_key)
    lift (
        plain_credentials
          (record { access_key = access; secret_key = secret; session_token = none }))

  unfoldable pub credentials_for_update :
      Option Text → Option Text → AwsProfile → Exec (Env W) PlainCredentials
  unfolding reveal_credentials
  credentials_for_update none none current = reveal_credentials current
  credentials_for_update none (some secret) current =
      lift (fail_with (configuration_error "profile.credentials.incomplete"))
  credentials_for_update (some access) none current =
      lift (fail_with (configuration_error "profile.credentials.incomplete"))
  credentials_for_update (some access) (some secret) current = lift (
      plain_credentials (record { access_key = access; secret_key = secret; session_token = none }))

  unfoldable pub validate_identity : SaveProfileRequest → PlainCredentials → Exec (Env W) (Unit {0})
  validate_identity r credentials = do
    identity ← call (p.get_identity credentials r.region)
    raise_if (not (same identity.account_id r.account_id) || not (same identity.user_id r.user_id))
        (raised credential_validation "credentials.identity_mismatch"
          "Configured Account ID or IAM user does not match STS identity")

  unfoldable pub create : SaveProfileRequest → Exec (Env W) ProfileSummary
  create r = do
    credentials ← lift (requested_credentials r)
    validate_identity r credentials
    access ← call (p.protect credentials.access_key)
    secret ← call (p.protect credentials.secret_key)
    profile ← lift (
        aws_profile p.runtime (record {
          id = none;
          name = r.name;
          region = r.region;
          account_id = r.account_id;
          user_id = r.user_id;
          mfa_arn = elim r.mfa_arn [
            | none ↦ default_mfa_arn r.account_id r.user_id
            | some arn ↦ if is_empty arn then default_mfa_arn r.account_id r.user_id else arn
          ];
          encrypted_access_key = access;
          encrypted_secret_key = secret;
          mfa_enabled = get_or_else r.mfa_enabled true;
          session_hours = get_or_else r.session_hours default_session_duration_hours;
          is_default = false;
          created_at = none;
          updated_at = none;
        }))
    now ← ask p.now
    saved ← write (Profiles.create p.runtime now profile)
    lift (summary saved)

  unfoldable pub update_current : SaveProfileRequest → ℕ → AwsProfile → Exec (Env W) ProfileSummary
  unfolding credentials_for_update validate_identity
  update_current r id current = do
    credentials ← credentials_for_update r.access_key r.secret_key current
    validate_identity r credentials
    access ← call (p.protect credentials.access_key)
    secret ← call (p.protect credentials.secret_key)
    profile ← lift (
        aws_profile p.runtime (record current {
          name = r.name;
          region = r.region;
          account_id = r.account_id;
          user_id = r.user_id;
          mfa_arn = get_or_else r.mfa_arn current.mfa_arn;
          encrypted_access_key = access;
          encrypted_secret_key = secret;
          mfa_enabled = get_or_else r.mfa_enabled current.mfa_enabled;
          session_hours = get_or_else r.session_hours current.session_hours;
        }))
    now ← ask p.now
    saved ← write (Profiles.update p.runtime now profile)
    write (λ db. (ok tt, delete_session id db))
    lift (summary saved)

  unfoldable pub update : SaveProfileRequest → Exec (Env W) ProfileSummary
  unfolding update_current
  update r = do
    id ← or_raise r.profile_id (configuration_error "profile.id.required")
    current ← query (resolve p.runtime (by_id id))
    update_current r id current

  unfoldable pub clone : Selector → Text → Exec (Env W) ProfileSummary
  clone selector name = do
    source ← query (resolve p.runtime selector)
    cloned ← lift (
        aws_profile p.runtime (record source {
          id = none;
          name = trim p.runtime name;
          is_default = false;
          created_at = none;
          updated_at = none;
        }))
    now ← ask p.now
    saved ← write (Profiles.create p.runtime now cloned)
    lift (summary saved)

  -- `use`
  unfoldable pub choose : Selector → Exec (Env W) ProfileSummary
  choose selector = do
    profile ← query (resolve p.runtime selector)
    id ← lift (require_id profile)
    now ← ask p.now
    saved ← write (Profiles.set_default p.runtime now id)
    lift (summary saved)
