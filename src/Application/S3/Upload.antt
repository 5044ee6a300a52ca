-- ===== src/Application/S3/Upload.antt =====
-- application/s3_service.py: `S3Service.upload`.
pub mod Kept
pub mod Parts
use aws_ssm_kit.Base.{
  ℕ, ◌+◌, Bool, true, false, not, Option, none, some, List, [], ◌∷◌, ◌++◌, leb, keep, map, str_eq,
  if◌then◌else◌,
}
use aws_ssm_kit.Errors.{
  ApplicationError, ok, err, Failure, fail, Exec, pure, lift, rescue, ◌>>=◌, ◌>>◌,
}
use aws_ssm_kit.Text.{Text, codes}
use aws_ssm_kit.Domain.Profile.{PlainCredentials}
use aws_ssm_kit.Application.Env.{Ports, Env, call, record_event}
use aws_ssm_kit.Application.Logging.{success, logged_operation}
use aws_ssm_kit.Application.Operations.{OperationContext}
use aws_ssm_kit.Application.Sessions.{require_credentials}
use aws_ssm_kit.Application.S3.{
  UploadConflictPolicy, overwrite, skip_existing, UploadItem, UploadPlan, UploadSummary, S3Ports,
  uri, resolve_upload_policy, multipart_threshold, multipart_part_size, max_concurrency, total,
}
use aws_ssm_kit.Application.S3.Objects.{recorded_raise}

abbrev pub item_uri : UploadItem → Text
item_uri item = uri item.bucket item.key

-- the items that the plan leaves for the loop
abbrev pub transfer_items : UploadConflictPolicy → List UploadItem → List UploadItem
transfer_items overwrite items = items
transfer_items skip_existing items = keep (λ item. not item.exists) items

abbrev pub skipped_first : UploadConflictPolicy → List UploadItem → List Text
skipped_first overwrite items = []
skipped_first skip_existing items = map item_uri (keep (λ item. item.exists) items)

abbrev pub is_nil : {A : Type 0} → List A → Bool
is_nil [] = true
is_nil (_ ∷ _) = false

-- the summary after an item: skipped where nothing was moved
abbrev pub add_item : UploadItem → Option (List ℕ) → UploadSummary → UploadSummary
add_item item none summary = record summary { skipped = summary.skipped ++ item_uri item ∷ [] }
add_item item (some deltas) summary = record summary {
  uploaded = summary.uploaded ++ item_uri item ∷ [];
  bytes_transferred = summary.bytes_transferred + total deltas;
}

module _ {W : Type 0} (s : S3Ports W) where
  -- `context.raise_if_cancelled()`
  unfoldable pub check_cancelled : OperationContext → Exec (Env W) (Unit {0})
  check_cancelled context e =
      (if s.is_cancelled context.cancellation e.world then err Failure.cancelled else ok tt, e)

module _ {W : Type 0} (p : Ports W) (s : S3Ports W) where
  -- the transfer of one item, by its size
  unfoldable pub put_item :
      OperationContext → PlainCredentials → Text → UploadItem → Exec (Env W) (List ℕ)
  unfolding call
  put_item context credentials region item =
      if leb multipart_threshold item.size
      then call (
          s.multipart_file credentials region item.bucket item.key item.source multipart_part_size
            max_concurrency context)
      else call (s.put_file credentials region item.bucket item.key item.source context)

  -- whether the object has appeared since the plan was made
  unfoldable pub has_appeared :
      UploadConflictPolicy → PlainCredentials → Text → UploadItem → Exec (Env W) Bool
  unfolding call
  has_appeared overwrite credentials region item = pure false
  has_appeared skip_existing credentials region item =
      call (s.object_exists credentials region item.bucket item.key)

  unfoldable pub move_item :
      OperationContext → UploadPlan → PlainCredentials → UploadItem → Exec (Env W) (Option (List ℕ))
  unfolding put_item record_event
  move_item context plan credentials item = do
    deltas ← put_item context credentials plan.region item
    record_event (success "s3" "upload" item.key (some plan.profile_id) false)
    pure (some deltas)

  -- the body of the loop
  unfoldable pub upload_item :
      UploadConflictPolicy
      → OperationContext
      → UploadPlan
      → PlainCredentials
      → UploadItem
      → Exec (Env W) (Option (List ℕ))
  unfolding check_cancelled has_appeared move_item
  upload_item policy context plan credentials item = do
    check_cancelled s context
    appeared ← has_appeared policy credentials plan.region item
    if appeared then pure none else move_item context plan credentials item

  -- the handler of the loop, which names the item at which it ended
  unfoldable pub handle_failure :
      {A : Type 0} → UploadPlan → UploadItem → ApplicationError → Exec (Env W) A
  unfolding recorded_raise
  handle_failure plan item e =
      if str_eq e.message_code "s3.upload.cancelled"
      then fail Failure.cancelled
      else recorded_raise "upload" item.key plan.profile_id e

  unfoldable pub upload_all :
      UploadConflictPolicy
      → OperationContext
      → UploadPlan
      → PlainCredentials
      → List UploadItem
      → UploadSummary
      → Exec (Env W) UploadSummary
  unfolding upload_item handle_failure
  upload_all policy context plan credentials [] summary = pure summary
  upload_all policy context plan credentials (item ∷ items) summary = do
    moved ←
        rescue (upload_item policy context plan credentials item) (λ e. true)
          (handle_failure plan item)
    upload_all policy context plan credentials items (add_item item moved summary)

  -- `upload` from the check of the credentials on
  unfoldable pub upload_rest :
      UploadConflictPolicy
      → OperationContext
      → UploadPlan
      → PlainCredentials
      → Exec (Env W) UploadSummary
  unfolding upload_all check_cancelled record_event
  upload_rest policy context plan credentials =
      let start : UploadSummary = record {
        uploaded = [];
        bytes_transferred = 0;
        skipped = skipped_first policy plan.items;
      } in
      if is_nil (transfer_items policy plan.items)
      then (do
        record_event
            (success "s3" "upload" (codes "-") (some plan.profile_id) (not (is_nil start.skipped)))
        pure start)
      else (do
        summary ←
            upload_all policy context plan credentials (transfer_items policy plan.items) start
        check_cancelled s context
        pure summary)

  unfoldable pub upload_body :
      UploadPlan
      → Option Bool
      → Option UploadConflictPolicy
      → OperationContext
      → Exec (Env W) UploadSummary
  unfolding upload_rest check_cancelled
  upload_body plan flag choice context = do
    check_cancelled s context
    policy ← lift (resolve_upload_policy flag choice)
    credentials ← require_credentials p plan.profile_id
    upload_rest policy context plan credentials

  -- `upload`
  unfoldable pub upload :
      UploadPlan
      → Option Bool
      → Option UploadConflictPolicy
      → OperationContext
      → Exec (Env W) UploadSummary
  unfolding upload_body logged_operation
  upload plan flag choice context =
      logged_operation "s3" "upload" false (codes "-") (upload_body plan flag choice context)
