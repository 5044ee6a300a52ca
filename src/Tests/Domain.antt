-- ===== src/Tests/Domain.antt =====
-- The theorems on the domain types at sample values.
use aws_ssm_kit.Base.{
  ◌+◌, ◌-◌, ◌*◌, ◌/◌, ◌≤◌, ◌<◌, ◌≡◌, ◌≢◌, refl, ◌↔◌, ◌⊎◌, true, false, none, some, ◌∷◌, arith,
}
use aws_ssm_kit.Errors.{ok}
use aws_ssm_kit.Text.{
  codes, trim, split, replace_char, strip, has_char, has_part, starts_with, ends_with, map_text,
  same, first_part,
}
use aws_ssm_kit.Text.Regex.{fullmatch}
use aws_ssm_kit.Text.Strip.{leads}
use aws_ssm_kit.Domain.Patterns.{region_pattern}
use aws_ssm_kit.Domain.Profile.{AwsProfile, aws_profile, needs_refresh, max_session_refresh_window}
use aws_ssm_kit.Domain.Profile.Refresh.{needs_refresh_bounds}
use aws_ssm_kit.Domain.Profile.Validity as ProfileValidity
use aws_ssm_kit.Domain.Profile.Validity.{aws_profile-IsValid, aws_profile_fixed}
use aws_ssm_kit.Domain.Tunnel.{
  TargetMode, tunnel_session, valid_host, resolve_target, is_instance_id,
}
use aws_ssm_kit.Domain.Tunnel.Validity as TunnelValidity
use aws_ssm_kit.Domain.Tunnel.Validity.{
  tunnel_session_iff, tunnel_session_host_padding, resolve_target_lem,
}
use aws_ssm_kit.Domain.S3Location.{S3Location, s3_location, prefix_form, is_bucket}
use aws_ssm_kit.Domain.S3Location.Validity as LocationValidity
use aws_ssm_kit.Domain.S3Location.Validity.{
  s3_location-IsValid, s3_location_idem, s3_location_not_idem,
}
use aws_ssm_kit.Domain.S3Drive.{S3Drive, s3_drive, is_letter, letter_form, local_form, bad_part}
use aws_ssm_kit.Domain.S3Drive.Validity as DriveValidity
use aws_ssm_kit.Domain.S3Drive.Validity.{s3_drive-IsValid}
use aws_ssm_kit.Domain.SavedSecret.{SavedSecret, saved_secret, relay_form}
use aws_ssm_kit.Domain.SavedSecret.Validity as SecretValidity
use aws_ssm_kit.Domain.SavedSecret.Validity.{saved_secret-IsValid}
use aws_ssm_kit.Tests.Samples.{ascii, profile, session, tunnel, location, drive, secret}

region_accepted : fullmatch (region_pattern ascii) (codes "us-gov-west-1") ≡ true
unfolding fullmatch
region_accepted = refl

region_refused : fullmatch (region_pattern ascii) (codes "us-gov-west-12") ≡ false
unfolding fullmatch
region_refused = refl

needs_refresh_bounds_example :
    (needs_refresh session 1000 ≡ true → needs_refresh session 2000 ≡ true)
    × (needs_refresh session 1000 ≡ false → 1000 < session.expires_at_utc)
    × (session.verified_at_utc < session.expires_at_utc
        → 1000 + max_session_refresh_window < session.expires_at_utc
        → needs_refresh session 1000 ≡ false)
    × (session.verified_at_utc + 10 * max_session_refresh_window ≤ session.expires_at_utc
        → session.expires_at_utc ≤ 1000 + max_session_refresh_window
        → needs_refresh session 1000 ≡ true)
    × (session.expires_at_utc ≤ session.verified_at_utc + 10 * max_session_refresh_window
        → session.expires_at_utc ≤ 1000 + (session.expires_at_utc - session.verified_at_utc) / 10
        → needs_refresh session 1000 ≡ true)
    × (session.verified_at_utc < session.expires_at_utc
        → 1000 + (session.expires_at_utc - session.verified_at_utc) / 10 + 1
          < session.expires_at_utc
        → needs_refresh session 1000 ≡ false)
needs_refresh_bounds_example = needs_refresh_bounds session 1000 2000 (omega arith)

abbrev spaced : AwsProfile
spaced = record profile { region = codes " us-gov-west-1 " }

spaced_accepted : aws_profile ascii spaced ≡ ok profile
unfolding aws_profile strip fullmatch has_char starts_with
spaced_accepted = refl

aws_profile-IsValid_example :
    ProfileValidity.IsValid ascii profile
    × (profile ≡ record spaced { region = trim ascii spaced.region })
aws_profile-IsValid_example = aws_profile-IsValid ascii spaced spaced_accepted

aws_profile_fixed_example :
    ProfileValidity.IsValid ascii profile ↔ (aws_profile ascii profile ≡ ok profile)
aws_profile_fixed_example = aws_profile_fixed ascii profile

tunnel_accepted : tunnel_session ascii tunnel ≡ ok tunnel
unfolding tunnel_session valid_host is_instance_id strip ends_with split fullmatch
tunnel_accepted = refl

tunnel_session_iff_example :
    (tunnel_session ascii tunnel ≡ ok tunnel)
    ↔ ((tunnel ≡ tunnel) × TunnelValidity.IsValid ascii tunnel)
tunnel_session_iff_example = tunnel_session_iff ascii tunnel tunnel

tunnel_session_host_padding_example :
    let padded = record tunnel { host = 32 ∷ tunnel.host } in
    (tunnel_session ascii padded ≡ ok padded) × (valid_host ascii padded.host ≡ false)
tunnel_session_host_padding_example =
    tunnel_session_host_padding ascii tunnel 32 refl tunnel_accepted

tunnel-IsValid : TunnelValidity.IsValid ascii tunnel
tunnel-IsValid = ((tunnel_session_iff ascii tunnel tunnel).0 tunnel_accepted).1

resolve_target_example :
    let id = codes "i-0123456789abcdef0" in
    (resolve_target tunnel none ≡ ok id) ↔ (
      (is_instance_id (some id) ≡ true)
      × ((TargetMode.fixed ≡ TargetMode.fixed) × (tunnel.target_instance_id ≡ some id)
          ⊎ (TargetMode.fixed ≡ TargetMode.select) × (none ≡ some id)))
resolve_target_example =
    resolve_target_lem ascii tunnel none (codes "i-0123456789abcdef0") tunnel-IsValid

abbrev kept_location : S3Location
kept_location = record location { name = codes "logs"; prefix = codes "2026/" }

location_accepted : s3_location ascii location ≡ ok kept_location
unfolding s3_location strip is_bucket fullmatch has_part has_char
location_accepted = refl

s3_location-IsValid_example :
    LocationValidity.IsValid ascii kept_location
    × (kept_location.id ≡ location.id)
    × (kept_location.profile_id ≡ location.profile_id)
    × (kept_location.prefix ≡ prefix_form ascii location.prefix)
s3_location-IsValid_example = s3_location-IsValid ascii location location_accepted

unspaced : leads ascii.is_space (prefix_form ascii location.prefix) ≡ false
unfolding strip
unspaced = refl

s3_location_idem_example : s3_location ascii kept_location ≡ ok kept_location
s3_location_idem_example = s3_location_idem ascii location location_accepted unspaced

-- a space after the slash
abbrev padded_location : S3Location
padded_location = record location { prefix = codes "/ x" }

abbrev kept_padded : S3Location
kept_padded = record kept_location { prefix = codes " x" }

padded_accepted : s3_location ascii padded_location ≡ ok kept_padded
unfolding s3_location strip is_bucket fullmatch has_part has_char
padded_accepted = refl

padded_spaced : leads ascii.is_space (prefix_form ascii padded_location.prefix) ≡ true
unfolding strip
padded_spaced = refl

s3_location_not_idem_example :
    (s3_location ascii kept_padded
      ≡ ok (record kept_padded { prefix = prefix_form ascii kept_padded.prefix }))
    × (prefix_form ascii kept_padded.prefix ≢ kept_padded.prefix)
s3_location_not_idem_example =
    s3_location_not_idem ascii padded_location padded_accepted padded_spaced

abbrev kept_drive : S3Drive
kept_drive = record drive {
  prefix = codes "2026";
  letter = codes "S";
  local_prefix = codes "team/reports";
}

drive_accepted : s3_drive ascii drive ≡ ok kept_drive
unfolding s3_drive s3_location strip is_bucket fullmatch has_part has_char is_letter letter_form
    map_text local_form replace_char split bad_part same ends_with first_part
drive_accepted = refl

s3_drive-IsValid_example :
    DriveValidity.IsValid ascii kept_drive
    × (split 92 (replace_char b'/' 92 kept_drive.local_prefix) ≡ split b'/' kept_drive.local_prefix)
s3_drive-IsValid_example = s3_drive-IsValid ascii drive drive_accepted

abbrev kept_secret : SavedSecret
kept_secret = record secret {
  identifier = codes "db/password";
  relay_instance_id = some (codes "i-0123456789abcdef0");
}

secret_accepted : saved_secret ascii secret ≡ ok kept_secret
unfolding saved_secret strip has_char relay_form
secret_accepted = refl

saved_secret-IsValid_example :
    SecretValidity.IsValid ascii kept_secret
    × (kept_secret ≡ record secret {
      identifier = trim ascii secret.identifier;
      relay_instance_id = relay_form ascii secret.relay_instance_id;
    })
    × (saved_secret ascii kept_secret ≡ ok kept_secret)
saved_secret-IsValid_example = saved_secret-IsValid ascii secret secret_accepted
