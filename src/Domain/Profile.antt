-- ===== src/Domain/Profile.antt =====
-- domain/aws_profile.py: profiles, credentials and temporary sessions.
-- A dataclass constructor is a function from the field values to the checked, normalised object.
-- Datetimes are instants in microseconds; `bytes` are lists of numbers.
pub mod Validity
pub mod Refresh
use aws_ssm_kit.Base.{
  ℕ, ◌+◌, ◌-◌, ◌*◌, ◌/◌, ◌%◌, min, Bool, true, false, not, ◌&&◌, ◌||◌, Option, none, some, List, [],
  ◌∷◌, ◌++◌, ltb, leb, ◌==◌, length, any, if◌then◌else◌,
}
use aws_ssm_kit.Errors.{Result, ok, ◌then_do◌, fail_with, configuration_error}
use aws_ssm_kit.Text.{Text, Runtime, codes, is_empty, trim, has_char, starts_with}
use aws_ssm_kit.Text.Regex.{fullmatch}
use aws_ssm_kit.Domain.Patterns.{account_id_pattern, region_pattern, access_key_pattern}

abbrev pub session_duration_hours : List ℕ
session_duration_hours = 1 ∷ 8 ∷ 12 ∷ 24 ∷ 36 ∷ []

abbrev pub default_session_duration_hours : ℕ
default_session_duration_hours = 12

-- thirty minutes
abbrev pub max_session_refresh_window : ℕ
max_session_refresh_window = 30 * 60 * 1000000

abbrev pub mfa_arn_prefix : Text → Text
mfa_arn_prefix account_id = codes "arn:aws:iam::" ++ (account_id ++ codes ":mfa/")

unfoldable pub default_mfa_arn : Text → Text → Text
default_mfa_arn account_id user_id = mfa_arn_prefix account_id ++ user_id

unfoldable pub validated_region : Runtime → Text → Result Text
validated_region u region =
    let normalized = trim u region in
    if fullmatch (region_pattern u) normalized
    then ok normalized
    else fail_with (configuration_error "profile.region.invalid")

unfoldable pub validated_session_duration_hours : ℕ → Result ℕ
validated_session_duration_hours value =
    if any (λ h. h == value) session_duration_hours
    then ok value
    else fail_with (configuration_error "profile.session_duration.invalid")

unfoldable pub is_long_session_duration : ℕ → Result Bool
is_long_session_duration value =
    validated_session_duration_hours value then_do λ hours. ok (leb 24 hours)

pub record AwsProfile : Type 0 where
  pub id : Option ℕ
  pub name : Text
  pub region : Text
  pub account_id : Text
  pub user_id : Text
  pub mfa_arn : Text
  pub encrypted_access_key : Text
  pub encrypted_secret_key : Text
  pub mfa_enabled : Bool
  pub session_hours : ℕ
  pub is_default : Bool
  pub created_at : Option ℕ
  pub updated_at : Option ℕ

-- `AwsProfile(…)` with `__post_init__`
unfoldable pub aws_profile : Runtime → AwsProfile → Result AwsProfile
unfolding validated_region validated_session_duration_hours
aws_profile u p =
    if is_empty (trim u p.name)
    then fail_with (configuration_error "profile.name.required")
    else validated_region u p.region then_do λ region.
        if not (fullmatch (account_id_pattern u) p.account_id)
        then fail_with (configuration_error "profile.account_id.invalid")
        else if is_empty (trim u p.user_id) || has_char b'/' p.user_id
        then fail_with (configuration_error "profile.user_id.invalid")
        else if not (starts_with (mfa_arn_prefix p.account_id) p.mfa_arn)
        then fail_with (configuration_error "profile.mfa_arn.invalid")
        else if is_empty p.encrypted_access_key || is_empty p.encrypted_secret_key
        then fail_with (configuration_error "profile.credentials.required")
        else validated_session_duration_hours p.session_hours then_do λ hours.
            ok (record p { region = region; session_hours = hours })

unfoldable pub require_id : AwsProfile → Result ℕ
require_id p = elim p.id [
  | none ↦ fail_with (configuration_error "profile.id.required")
  | some id ↦ ok id
]

pub record PlainCredentials : Type 0 where
  pub access_key : Text
  pub secret_key : Text
  pub session_token : Option Text

-- `PlainCredentials(…)` with `__post_init__`
unfoldable pub plain_credentials : PlainCredentials → Result PlainCredentials
plain_credentials c =
    if not (fullmatch access_key_pattern c.access_key)
    then fail_with (configuration_error "credentials.access_key.invalid")
    else if ltb (length c.secret_key) 16
    then fail_with (configuration_error "credentials.secret_key.invalid")
    else if elim c.session_token [ none ↦ false | some token ↦ is_empty token ]
    then fail_with (configuration_error "credentials.session_token.invalid")
    else ok c

pub record SessionCredentials : Type 0 where
  pub profile_id : ℕ
  pub encrypted_access_key : Text
  pub encrypted_secret_key : Text
  pub encrypted_session_token : Text
  pub expires_at_utc : ℕ
  pub verified_at_utc : ℕ

-- `timedelta / 10`: the nearest microsecond, and the even one of two that are equally near
unfoldable pub tenth : ℕ → ℕ
tenth d =
    let q = d / 10 in let r = d % 10 in if ltb r 5 then q else if ltb 5 r then q + 1 else q + q % 2

unfoldable pub needs_refresh : SessionCredentials → ℕ → Bool
unfolding tenth
needs_refresh s now =
    if leb s.expires_at_utc s.verified_at_utc
    then true
    else let refresh_window =
        min max_session_refresh_window (tenth (s.expires_at_utc - s.verified_at_utc)) in
      leb s.expires_at_utc (now + refresh_window)
