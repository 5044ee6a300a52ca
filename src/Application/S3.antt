-- ===== src/Application/S3.antt =====
-- application/s3_service.py: the values of the S3 service. The gateway and the local files are the
-- parameter `S3Ports`. A transfer calls its observer with the number of bytes of each step: here it
-- returns these numbers. A local path is a text that the ports read.
pub mod Contents
pub mod Objects
pub mod Upload
pub mod Download
pub mod Locations
pub mod Parts
use aws_ssm_kit.Base.{
  ℕ, ◌*◌, ◌+◌, String, Bool, true, false, Option, none, some, List, [], ◌∷◌, ◌++◌, if◌then◌else◌,
}
use aws_ssm_kit.Errors.{
  ErrorType, ApplicationError, Result, ok, err, app, raised, Failure, Exec, fail_with, raise, fail,
  ◌>>=◌,
}
use aws_ssm_kit.Text.{Text, codes}
use aws_ssm_kit.Domain.Profile.{PlainCredentials}
use aws_ssm_kit.Domain.S3Location.{S3Location}
use aws_ssm_kit.Application.Operations.{OperationContext}

abbrev pub multipart_threshold : ℕ
multipart_threshold = 16 * 1024 * 1024

abbrev pub multipart_part_size : ℕ
multipart_part_size = 8 * 1024 * 1024

abbrev pub max_concurrency : ℕ
max_concurrency = 1

pub data UploadConflictPolicy : Type 0 where
  overwrite skip_existing : UploadConflictPolicy

pub record S3Object : Type 0 where
  pub key : Text
  pub size : ℕ
  pub is_prefix : Bool

pub record UploadItem : Type 0 where
  pub source : Text
  pub bucket : Text
  pub key : Text
  pub size : ℕ
  pub exists : Bool

pub record UploadPlan : Type 0 where
  pub profile_id : ℕ
  pub region : Text
  pub items : List UploadItem

pub record UploadSummary : Type 0 where
  pub uploaded : List Text
  pub bytes_transferred : ℕ
  pub skipped : List Text

pub record DownloadItem : Type 0 where
  pub bucket : Text
  pub key : Text
  pub destination : Text
  pub size : ℕ
  pub exists : Bool

pub record DownloadPlan : Type 0 where
  pub profile_id : ℕ
  pub region : Text
  pub items : List DownloadItem

pub record DownloadSummary : Type 0 where
  pub downloaded : List Text
  pub bytes_transferred : ℕ
  pub skipped : List Text

-- `f"s3://{bucket}/{key}"`
abbrev pub uri : Text → Text → Text
uri bucket key = codes "s3://" ++ bucket ++ b'/' ∷ key

pub record S3Ports (W : Type 0) : Type 0 where
  pub is_cancelled : ℕ → W → Bool
  pub list_buckets : PlainCredentials → Text → Exec W (List Text)
  pub list_objects : PlainCredentials → Text → Text → Text → Exec W (List S3Object)
  pub list_objects_recursive : PlainCredentials → Text → Text → Text → Exec W (List S3Object)
  pub object_exists : PlainCredentials → Text → Text → Text → Exec W Bool
  -- bucket, key and target
  pub rename_object : PlainCredentials → Text → Text → Text → Text → Exec W (Unit {0})
  pub delete_object : PlainCredentials → Text → Text → Text → Exec W (Unit {0})
  -- bucket, key and source
  pub put_file : PlainCredentials → Text → Text → Text → Text → OperationContext → Exec W (List ℕ)
  -- with the size of a part and the number of parts in flight
  pub multipart_file :
      PlainCredentials → Text → Text → Text → Text → ℕ → ℕ → OperationContext → Exec W (List ℕ)
  -- bucket, key, destination, and whether it may be replaced
  pub download_file :
      PlainCredentials
      → Text
      → Text
      → Text
      → Text
      → Bool
      → Option OperationContext
      → Exec W (List ℕ)
  pub path_exists : Text → W → Bool
  -- `destination.parent.mkdir(parents=True, exist_ok=True)`, with its error translated
  pub make_parent : Text → Exec W (Unit {0})
  -- `target.parent.is_dir()`
  pub has_parent : Text → W → Bool
  -- `destination.expanduser().resolve()`
  pub resolve_path : Text → W → Text

abbrev pub s3_error : String → String → ApplicationError
s3_error code cause = raised ErrorType.configuration code cause

-- `S3Location(None, profile_id, "direct", bucket, prefix)`
abbrev pub direct : ℕ → Text → Text → S3Location
direct profile_id bucket prefix = record {
  id = none;
  profile_id = profile_id;
  name = codes "direct";
  bucket = bucket;
  prefix = prefix;
  created_at = none;
  updated_at = none;
}

abbrev pub policy_of : Bool → UploadConflictPolicy
policy_of true = overwrite
policy_of false = skip_existing

abbrev pub same_policy : UploadConflictPolicy → UploadConflictPolicy → Bool
same_policy overwrite overwrite = true
same_policy skip_existing skip_existing = true
same_policy _ _ = false

-- `_resolve_upload_policy`
unfoldable pub resolve_upload_policy :
    Option Bool → Option UploadConflictPolicy → Result UploadConflictPolicy
resolve_upload_policy (some flag) (some policy) =
    if same_policy policy (policy_of flag)
    then ok policy
    else fail_with (
        s3_error "s3.upload.conflict_policy.conflicting"
          "Specify either overwrite or a matching upload conflict policy")
resolve_upload_policy none (some policy) = ok policy
resolve_upload_policy (some flag) none = ok (policy_of flag)
resolve_upload_policy none none = fail_with (
    s3_error "s3.upload.conflict_policy.required"
      "Select how existing S3 objects should be handled")

abbrev pub total : List ℕ → ℕ
total [] = 0
total (n ∷ ns) = n + total ns
