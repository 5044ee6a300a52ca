-- ===== src/Domain/S3Location.antt =====
-- domain/s3_location.py: saved S3 locations.
pub mod Validity
use aws_ssm_kit.Base.{ℕ, Bool, not, ◌&&◌, ◌||◌, Option, none, some, leb, ◌==◌, if◌then◌else◌}
use aws_ssm_kit.Errors.{Result, ok, fail_with, configuration_error}
use aws_ssm_kit.Text.{Text, Runtime, codes, is_empty, trim, lstrip, has_part, has_char}
use aws_ssm_kit.Text.Regex.{fullmatch}
use aws_ssm_kit.Domain.Patterns.{bucket_pattern, dotted_quad_pattern}

pub record S3Location : Type 0 where
  pub id : Option ℕ
  pub profile_id : ℕ
  pub name : Text
  pub bucket : Text
  pub prefix : Text
  pub created_at : Option ℕ
  pub updated_at : Option ℕ

-- `_BUCKET` and the three tests beside it
unfoldable pub is_bucket : Runtime → Text → Bool
is_bucket u bucket =
    fullmatch bucket_pattern bucket
    && not (fullmatch (dotted_quad_pattern u) bucket)
    && not (
        has_part (codes "..") bucket
        || has_part (codes ".-") bucket
        || has_part (codes "-.") bucket)

-- `prefix.strip().lstrip("/")`
abbrev pub prefix_form : Runtime → Text → Text
prefix_form u prefix = lstrip (λ c. c == b'/') (trim u prefix)

-- `S3Location(…)` with `__post_init__`
unfoldable pub s3_location : Runtime → S3Location → Result S3Location
s3_location u l =
    let name = trim u l.name in
    let bucket = trim u l.bucket in
    let prefix = prefix_form u l.prefix in
    if is_empty name
    then fail_with (configuration_error "s3.location.name.required")
    else if not (is_bucket u bucket)
    then fail_with (configuration_error "s3.bucket.invalid")
    else if leb l.profile_id 0
    then fail_with (configuration_error "s3.location.profile_id.invalid")
    else if has_char 0 prefix
    then fail_with (configuration_error "s3.prefix.invalid")
    else ok (record l { name = name; bucket = bucket; prefix = prefix })

unfoldable pub require_location_id : S3Location → Result ℕ
require_location_id l = elim l.id [
  | none ↦ fail_with (configuration_error "s3.location.id.required")
  | some id ↦ ok id
]
