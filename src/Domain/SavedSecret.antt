-- ===== src/Domain/SavedSecret.antt =====
-- domain/saved_secret.py: saved lookups of secrets.
pub mod Validity
use aws_ssm_kit.Base.{
  ℕ, Bool, true, false, ◌||◌, Option, none, some, ltb, leb, length, if◌then◌else◌,
}
use aws_ssm_kit.Errors.{Result, ok, ◌then_do◌, fail_with, raised, configuration}
use aws_ssm_kit.Text.{Text, Runtime, is_empty, trim, has_char}

pub data SecretLookupMode : Type 0 where
  direct via_ec2 : SecretLookupMode

pub record SavedSecret : Type 0 where
  pub id : Option ℕ
  pub profile_id : ℕ
  pub identifier : Text
  pub value : Text
  pub lookup_mode : SecretLookupMode
  pub relay_instance_id : Option Text
  pub last_retrieved_at : Option ℕ

-- the relay as it is kept: a blank one is none
unfoldable pub relay_form : Runtime → Option Text → Option Text
relay_form u none = none
relay_form u (some id) = let id' = trim u id in if is_empty id' then none else some id'

unfoldable pub check_relay : SecretLookupMode → Option Text → Result (Unit {0})
check_relay SecretLookupMode.via_ec2 none = fail_with (
    raised configuration "secret.saved.relay.required"
      "An EC2 relay instance is required for an EC2-mediated saved Secret")
check_relay SecretLookupMode.direct (some _) = fail_with (
    raised configuration "secret.saved.relay.unexpected"
      "A directly retrieved saved Secret cannot have an EC2 relay instance")
check_relay _ _ = ok tt

-- `SavedSecret(…)` with `__post_init__`, for a value that is text and a mode of the enumeration.
unfoldable pub saved_secret : Runtime → SavedSecret → Result SavedSecret
unfolding check_relay
saved_secret u s =
    let identifier = trim u s.identifier in
    let relay = relay_form u s.relay_instance_id in
    if leb s.profile_id 0
    then fail_with
        (raised configuration "secret.saved.profile.invalid" "Profile ID must be positive")
    else if is_empty identifier || ltb 2048 (length identifier) || has_char 0 identifier
    then fail_with (
        raised configuration "secret.saved.identifier.invalid"
          "A valid Secret name or ARN is required")
    else check_relay s.lookup_mode relay then_do λ _.
        ok (record s { identifier = identifier; relay_instance_id = relay })

unfoldable pub require_secret_id : SavedSecret → Result ℕ
require_secret_id s = elim s.id [
  | none ↦ fail_with (raised configuration "secret.saved.id.required" "Saved Secret ID is required")
  | some id ↦ ok id
]
