-- ===== src/Application/S3/Download/Parts.antt =====
-- What a download reports.
use mathlib.Core.List.{Perm, append-nil}
use mathlib.Core.List.Perm
use aws_ssm_kit.Base.{◌≡◌, false, none, some, List, [], ◌∷◌, ◌++◌, map, str_eq}
use aws_ssm_kit.Errors.{ok, Failure, fail, raise, rescue, ApplicationError}
use aws_ssm_kit.Errors.Yields.{
  IfOk-ok, Yields, Yields-if, Yields-pure, Yields-fail, Yields-raise, Yields-rescue, Yields-then,
  Yields-after, Yields-weaken,
}
use aws_ssm_kit.Text.{Text}
use aws_ssm_kit.Domain.Profile.{PlainCredentials}
use aws_ssm_kit.Application.Env.{Ports, Env, record_event}
use aws_ssm_kit.Application.Sessions.{require_credentials}
use aws_ssm_kit.Application.Logging.Yields.{logged_operation-Yields}
use aws_ssm_kit.Application.Operations.{OperationContext}
use aws_ssm_kit.Application.S3.{
  UploadConflictPolicy, DownloadItem, DownloadPlan, DownloadSummary, S3Ports,
}
use aws_ssm_kit.Application.S3.Parts.{Perm-add_left, Perm-add_right}
use aws_ssm_kit.Application.S3.Upload.{check_cancelled}
use aws_ssm_kit.Application.S3.Download.{
  add_download, download_item, download_all, download_checked, end_download, download_body,
  download,
}

abbrev destinations : List DownloadItem → List Text
destinations items = map (λ item. item.destination) items

-- the files that a summary reports
abbrev downloads : DownloadSummary → List Text
downloads summary = summary.downloaded ++ summary.skipped

Perm-add_download :
    (item : DownloadItem) (items : List DownloadItem) (moved : _) (before after : DownloadSummary)
    → Perm (downloads after) (downloads (add_download item moved before) ++ destinations items)
    → Perm (downloads after) (downloads before ++ destinations (item ∷ items))
Perm-add_download item items none before after h =
    Perm.trans h
      (Perm-add_right before.downloaded before.skipped (destinations items) item.destination)
Perm-add_download item items (some deltas) before after h =
    Perm.trans h
      (Perm-add_left before.downloaded before.skipped (destinations items) item.destination)

module _ {W : Type 0} (p : Ports W) (s : S3Ports W) (policy : UploadConflictPolicy)
    (context : OperationContext) (plan : DownloadPlan) where
  download_all-Yields :
      (c : PlainCredentials) (items : List DownloadItem) (before : DownloadSummary)
      → Yields
          (λ after. Perm (downloads after) (downloads before ++ destinations items))
          (download_all p s policy context plan c items before)
  unfolding download_all
  download_all-Yields c [] before =
      Yields-pure before (rw (append-nil (downloads before)) (Perm.refl _))
  download_all-Yields c (item ∷ items) before =
      Yields-after (download_item p s policy context plan c item) _ (λ moved.
        Yields-weaken _ (Perm-add_download item items moved before)
          (download_all-Yields c items (add_download item moved before)))

  download_checked-Yields :
      (c : PlainCredentials)
      → Yields
          (λ after. Perm (downloads after) (destinations plan.items))
          (download_checked p s policy context plan c)
  unfolding download_checked
  download_checked-Yields c =
      Yields-then (download_all p s policy context plan c plan.items _) _
        (download_all-Yields c plan.items _)
        (λ after h. Yields-after (check_cancelled s context) _ (λ _. Yields-pure after h))

  end_download-Yields :
      {A : Type 0} (Q : A → Type 0) (e : ApplicationError) → Yields Q (end_download p s {A = A} e)
  unfolding end_download
  end_download-Yields Q e =
      Yields-if (str_eq e.message_code "s3.download.cancelled") (fail Failure.cancelled) (raise e)
        (λ _. Yields-fail Failure.cancelled) (λ _. Yields-raise e)

  download_body-Yields :
      Yields
        (λ after. Perm (downloads after) (destinations plan.items))
        (download_body p s policy context plan)
  unfolding download_body
  download_body-Yields = Yields-after (check_cancelled s context) _ (λ _.
      Yields-after (require_credentials p plan.profile_id) _ (λ c.
        Yields-then (rescue (download_checked p s policy context plan c) _ _) _
          (Yields-rescue _ _ _ (download_checked-Yields c) (end_download-Yields _))
          (λ after h. Yields-after (record_event _) _ (λ _. Yields-pure after h))))

  -- A download that returns has reported each item of its plan exactly once, as downloaded or as
  -- skipped, whatever the policy is: no item is lost and none is reported twice.
  download_reports_all :
      (e : Env W) (summary : DownloadSummary)
      → (download p s policy context plan e).0 ≡ ok summary
      → Perm (summary.downloaded ++ summary.skipped) (map (λ item. item.destination) plan.items)
  unfolding download
  download_reports_all e summary returned =
      IfOk-ok _ returned
        ((logged_operation-Yields _ "s3" "download" false _ _ download_body-Yields).gives e)
