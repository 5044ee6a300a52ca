-- ===== src/Domain/Profile/Validity.antt =====
-- What the constructor of a profile accepts, and its normal form.
use aws_ssm_kit.Base.{
  ◌≡◌, ◌≢◌, refl, ◌↔◌, true, false, [], ◌∷◌, ◌++◌, arith, length, All, any, ◌==◌,
}
use aws_ssm_kit.Errors.{ok}
use aws_ssm_kit.Text.{Text, Runtime, is_empty, trim, has_char, starts_with, is_decimal}
use aws_ssm_kit.Text.Strip.{strip_idem}
use aws_ssm_kit.Text.Search.{starts_with_sound, starts_with_append}
use aws_ssm_kit.Text.Regex.{fullmatch}
use aws_ssm_kit.Text.Regex.Language.{Matches, fullmatch_iff, Matches-times, times-Matches}
use aws_ssm_kit.Domain.Patterns.{region_pattern, account_id_pattern}
use aws_ssm_kit.Domain.Profile.{AwsProfile, aws_profile, mfa_arn_prefix, session_duration_hours}

-- The invariant of a profile, with no reference to the constructor.
pub record IsValid (u : Runtime) (p : AwsProfile) : Type 0 where
  pub named : is_empty (trim u p.name) ≡ false
  pub region_trimmed : trim u p.region ≡ p.region
  pub region_matches : Matches (region_pattern u) p.region
  pub account_length : length p.account_id ≡ 12
  pub account_decimal : All (λ c. is_decimal u c ≡ true) p.account_id
  pub user_named : is_empty (trim u p.user_id) ≡ false
  pub user_plain : has_char b'/' p.user_id ≡ false
  pub own_device : (device : Text) × (p.mfa_arn ≡ mfa_arn_prefix p.account_id ++ device)
  pub access_key_kept : p.encrypted_access_key ≢ []
  pub secret_key_kept : p.encrypted_secret_key ≢ []
  pub hours_allowed : any (λ h. h == p.session_hours) session_duration_hours ≡ true

-- The tests that the constructor makes, in its order, after the region is trimmed.
record Passes (u : Runtime) (p : AwsProfile) : Type 0 where
  named : is_empty (trim u p.name) ≡ false
  region : fullmatch (region_pattern u) p.region ≡ true
  account : fullmatch (account_id_pattern u) p.account_id ≡ true
  user_named : is_empty (trim u p.user_id) ≡ false
  user_plain : has_char b'/' p.user_id ≡ false
  device : starts_with (mfa_arn_prefix p.account_id) p.mfa_arn ≡ true
  access_key_kept : is_empty p.encrypted_access_key ≡ false
  secret_key_kept : is_empty p.encrypted_secret_key ≡ false
  hours_allowed : any (λ h. h == p.session_hours) session_duration_hours ≡ true

aws_profile-Passes :
    (u : Runtime) (p : AwsProfile) {q : AwsProfile}
    → aws_profile u p ≡ ok q
    → Passes u q × (q ≡ record p { region = trim u p.region })
unfolding aws_profile
aws_profile-Passes u p {q} h = ground arith

Passes-aws_profile :
    (u : Runtime) (p : AwsProfile)
    → Passes u p
    → trim u p.region ≡ p.region
    → aws_profile u p ≡ ok p
unfolding aws_profile
Passes-aws_profile u p t e = ground arith

is_empty→nil : (s : Text) → is_empty s ≡ false → s ≢ []
is_empty→nil [] h = cc
is_empty→nil (c ∷ s) h = λ e. cc

is_empty_of_ne : (s : Text) → s ≢ [] → is_empty s ≡ false
is_empty_of_ne [] h = absurd (h refl)
is_empty_of_ne (c ∷ s) h = refl

Passes-IsValid :
    (u : Runtime) (p : AwsProfile) → trim u p.region ≡ p.region → Passes u p → IsValid u p
Passes-IsValid u p e t =
    let account = Matches-times 12 (is_decimal u) ((fullmatch_iff _ _).0 t.account) in
    record {
      named = t.named;
      region_trimmed = e;
      region_matches = (fullmatch_iff _ _).0 t.region;
      account_length = account.0;
      account_decimal = account.1;
      user_named = t.user_named;
      user_plain = t.user_plain;
      own_device = starts_with_sound _ _ t.device;
      access_key_kept = is_empty→nil _ t.access_key_kept;
      secret_key_kept = is_empty→nil _ t.secret_key_kept;
      hours_allowed = t.hours_allowed;
    }

IsValid-Passes : (u : Runtime) (p : AwsProfile) → IsValid u p → Passes u p
IsValid-Passes u p v = record {
  named = v.named;
  region = (fullmatch_iff _ _).1 v.region_matches;
  account =
      (fullmatch_iff _ _).1
        (times-Matches 12 (is_decimal u) p.account_id v.account_length v.account_decimal);
  user_named = v.user_named;
  user_plain = v.user_plain;
  device = let (device, e) = v.own_device in rw e (starts_with_append _ device);
  access_key_kept = is_empty_of_ne _ v.access_key_kept;
  secret_key_kept = is_empty_of_ne _ v.secret_key_kept;
  hours_allowed = v.hours_allowed;
}

-- A profile that the constructor returns is valid, and differs from the arguments only in that
-- its region is trimmed.
pub aws_profile-IsValid :
    (u : Runtime) (p : AwsProfile) {q : AwsProfile}
    → aws_profile u p ≡ ok q
    → IsValid u q × (q ≡ record p { region = trim u p.region })
aws_profile-IsValid u p {q} h =
    let (t, e) = aws_profile-Passes u p h in (Passes-IsValid u q (rw e (strip_idem _ _)) t, e)

-- The constructor returns its arguments unchanged exactly when they form a valid profile.
pub aws_profile_fixed : (u : Runtime) (p : AwsProfile) → IsValid u p ↔ (aws_profile u p ≡ ok p)
aws_profile_fixed u p = (
  λ v. Passes-aws_profile u p (IsValid-Passes u p v) v.region_trimmed,
  λ h. (aws_profile-IsValid u p h).0,
)
