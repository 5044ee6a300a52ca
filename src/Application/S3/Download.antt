-- ===== src/Application/S3/Download.antt =====
-- application/s3_service.py: `S3Service.download`.
pub mod Kept
pub mod Parts
use aws_ssm_kit.Base.{
  ℕ, ◌+◌, Bool, true, false, not, ◌&&◌, Option, none, some, List, [], ◌∷◌, ◌++◌, str_eq,
  if◌then◌else◌,
}
use aws_ssm_kit.Errors.{
  ApplicationError, Failure, fail, Exec, pure, raise, raise_if, rescue, ◌>>=◌, ◌>>◌,
}
use aws_ssm_kit.Text.{codes}
use aws_ssm_kit.Domain.Profile.{PlainCredentials}
use aws_ssm_kit.Application.Env.{Ports, Env, call, record_event}
use aws_ssm_kit.Application.Logging.{success, logged_operation}
use aws_ssm_kit.Application.Operations.{OperationContext}
use aws_ssm_kit.Application.Sessions.{require_credentials}
use aws_ssm_kit.Application.S3.{
  UploadConflictPolicy, overwrite, skip_existing, DownloadItem, DownloadPlan, DownloadSummary,
  S3Ports, s3_error, same_policy, total,
}
use aws_ssm_kit.Application.S3.Upload.{check_cancelled, is_nil}

-- the summary after an item: skipped where the local file stays
abbrev pub add_download : DownloadItem → Option (List ℕ) → DownloadSummary → DownloadSummary
add_download item none summary = record summary {
  skipped = summary.skipped ++ item.destination ∷ [];
}
add_download item (some deltas) summary = record summary {
  downloaded = summary.downloaded ++ item.destination ∷ [];
  bytes_transferred = summary.bytes_transferred + total deltas;
}

module _ {W : Type 0} (p : Ports W) (s : S3Ports W) where
  -- the transfer of one item
  unfoldable pub fetch_item :
      UploadConflictPolicy
      → OperationContext
      → DownloadPlan
      → PlainCredentials
      → DownloadItem
      → Exec (Env W) (Option (List ℕ))
  unfolding call
  fetch_item policy context plan credentials item = do
    call (s.make_parent item.destination)
    deltas ← call (
        s.download_file credentials plan.region item.bucket item.key item.destination
          (same_policy policy overwrite && item.exists) (some context))
    pure (some deltas)

  -- an item whose local file exists
  unfoldable pub meet_existing :
      UploadConflictPolicy
      → OperationContext
      → DownloadPlan
      → PlainCredentials
      → DownloadItem
      → Exec (Env W) (Option (List ℕ))
  unfolding fetch_item
  meet_existing skip_existing context plan credentials item = pure none
  meet_existing overwrite context plan credentials item = do
    raise_if (not item.exists) (
        s3_error "s3.download.destination.exists"
          "A destination file appeared after confirmation; retry to confirm it")
    fetch_item overwrite context plan credentials item

  unfoldable pub download_present :
      UploadConflictPolicy
      → OperationContext
      → DownloadPlan
      → PlainCredentials
      → DownloadItem
      → Bool
      → Exec (Env W) (Option (List ℕ))
  unfolding meet_existing fetch_item
  download_present policy context plan credentials item present =
      if present
      then meet_existing policy context plan credentials item
      else fetch_item policy context plan credentials item

  -- the body of the loop
  unfoldable pub download_item :
      UploadConflictPolicy
      → OperationContext
      → DownloadPlan
      → PlainCredentials
      → DownloadItem
      → Exec (Env W) (Option (List ℕ))
  unfolding check_cancelled download_present
  download_item policy context plan credentials item = do
    check_cancelled s context
    λ e.
        download_present policy context plan credentials item
          (s.path_exists item.destination e.world) e

  unfoldable pub download_all :
      UploadConflictPolicy
      → OperationContext
      → DownloadPlan
      → PlainCredentials
      → List DownloadItem
      → DownloadSummary
      → Exec (Env W) DownloadSummary
  unfolding download_item
  download_all policy context plan credentials [] summary = pure summary
  download_all policy context plan credentials (item ∷ items) summary = do
    moved ← download_item policy context plan credentials item
    download_all policy context plan credentials items (add_download item moved summary)

  -- the block that the handler covers
  unfoldable pub download_checked :
      UploadConflictPolicy
      → OperationContext
      → DownloadPlan
      → PlainCredentials
      → Exec (Env W) DownloadSummary
  unfolding download_all check_cancelled
  download_checked policy context plan credentials = do
    let start : DownloadSummary = record { downloaded = []; bytes_transferred = 0; skipped = [] }
    summary ← download_all policy context plan credentials plan.items start
    check_cancelled s context
    pure summary

  unfoldable pub end_download : {A : Type 0} → ApplicationError → Exec (Env W) A
  end_download e =
      if str_eq e.message_code "s3.download.cancelled" then fail Failure.cancelled else raise e

  unfoldable pub download_body :
      UploadConflictPolicy → OperationContext → DownloadPlan → Exec (Env W) DownloadSummary
  unfolding download_checked end_download check_cancelled record_event
  download_body policy context plan = do
    check_cancelled s context
    credentials ← require_credentials p plan.profile_id
    summary ←
        rescue (download_checked policy context plan credentials) (λ e. true) (λ e. end_download e)
    record_event
        (success "s3" "download" (codes "-") (some plan.profile_id) (not (is_nil summary.skipped)))
    pure summary

  -- `download`
  unfoldable pub download :
      UploadConflictPolicy → OperationContext → DownloadPlan → Exec (Env W) DownloadSummary
  unfolding download_body logged_operation
  download policy context plan =
      logged_operation "s3" "download" false (codes "-") (download_body policy context plan)
