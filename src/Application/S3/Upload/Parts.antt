-- ===== src/Application/S3/Upload/Parts.antt =====
-- What an upload reports.
use mathlib.Core.List.{Perm, append-nil}
use mathlib.Core.List.Perm
use aws_ssm_kit.Base.{◌≡◌, Bool, true, false, Option, none, some, List, [], ◌∷◌, ◌++◌, map}
use aws_ssm_kit.Errors.{ok, lift, rescue}
use aws_ssm_kit.Errors.Yields.{
  Yields-weaken, Yields, Yields-if, IfOk-ok, Yields-pure, Yields-then, Yields-after,
}
use aws_ssm_kit.Text.{Text}
use aws_ssm_kit.Domain.Profile.{PlainCredentials}
use aws_ssm_kit.Application.Env.{Ports, Env, record_event}
use aws_ssm_kit.Application.Sessions.{require_credentials}
use aws_ssm_kit.Application.Logging.Yields.{logged_operation-Yields}
use aws_ssm_kit.Application.Operations.{OperationContext}
use aws_ssm_kit.Application.S3.{
  UploadConflictPolicy, overwrite, skip_existing, UploadItem, UploadPlan, UploadSummary, S3Ports,
  resolve_upload_policy,
}
use aws_ssm_kit.Application.S3.Parts.{Perm-add_left, Perm-add_right, Perm-keep}
use aws_ssm_kit.Application.S3.Upload.{
  item_uri, transfer_items, skipped_first, is_nil, add_item, check_cancelled, upload_item,
  upload_all, upload_rest, upload_body, upload,
}

-- the items that a summary reports
abbrev reported : UploadSummary → List Text
reported summary = summary.uploaded ++ summary.skipped

-- The summary reports what another one does, and these items.
abbrev Adds : UploadSummary → List UploadItem → UploadSummary → Type 0
Adds before items after = Perm (reported after) (reported before ++ map item_uri items)

Adds-add_item :
    (item : UploadItem) (items : List UploadItem) (moved : _) (before after : UploadSummary)
    → Adds (add_item item moved before) items after
    → Adds before (item ∷ items) after
Adds-add_item item items none before after h =
    Perm.trans h
      (Perm-add_right before.uploaded before.skipped (map item_uri items) (item_uri item))
Adds-add_item item items (some deltas) before after h =
    Perm.trans h (Perm-add_left before.uploaded before.skipped (map item_uri items) (item_uri item))

-- the items that are left out first, and those of the loop
transfer_items-Perm :
    (policy : UploadConflictPolicy) (items : List UploadItem)
    → Perm
        (skipped_first policy items ++ map item_uri (transfer_items policy items))
        (map item_uri items)
transfer_items-Perm overwrite items = Perm.refl _
transfer_items-Perm skip_existing items = Perm-keep item_uri (λ item. item.exists) items

module _ {W : Type 0} (p : Ports W) (s : S3Ports W) where
  upload_all-Yields :
      (policy : UploadConflictPolicy) (context : OperationContext) (plan : UploadPlan)
      (c : PlainCredentials) (items : List UploadItem) (before : UploadSummary)
      → Yields (Adds before items) (upload_all p s policy context plan c items before)
  unfolding upload_all
  upload_all-Yields policy context plan c [] before =
      Yields-pure before (rw (append-nil (reported before)) (Perm.refl _))
  upload_all-Yields policy context plan c (item ∷ items) before =
      Yields-after (rescue (upload_item p s policy context plan c item) _ _) _ (λ moved.
        Yields-weaken _ (Adds-add_item item items moved before)
          (upload_all-Yields policy context plan c items (add_item item moved before)))

  upload_rest-Yields :
      (policy : UploadConflictPolicy) (context : OperationContext) (plan : UploadPlan)
      (c : PlainCredentials)
      → Yields
          (λ after. Perm (reported after) (map item_uri plan.items))
          (upload_rest p s policy context plan c)
  unfolding upload_rest
  upload_rest-Yields policy context plan c =
      Yields-if (is_nil (transfer_items policy plan.items)) _ _
        (λ nothing. Yields-after (record_event _) _ (λ _.
          Yields-pure _
            (Perm.trans (all_skipped _ _ nothing) (transfer_items-Perm policy plan.items))))
        (λ _.
          Yields-then (upload_all p s policy context plan c (transfer_items policy plan.items) _) _
            (upload_all-Yields policy context plan c (transfer_items policy plan.items) _)
            (λ after h.
              Yields-after (check_cancelled s context) _
                (λ _. Yields-pure after (Perm.trans h (transfer_items-Perm policy plan.items)))))
    where
      all_skipped :
          (skipped : List Text) (items : List UploadItem)
          → is_nil items ≡ true
          → Perm skipped (skipped ++ map item_uri items)
      all_skipped skipped [] _ = rw (append-nil skipped) (Perm.refl _)
      all_skipped skipped (item ∷ items) h = cc

  upload_body-Yields :
      (plan : UploadPlan) (flag : Option Bool) (choice : Option UploadConflictPolicy)
      (context : OperationContext)
      → Yields
          (λ after. Perm (reported after) (map item_uri plan.items))
          (upload_body p s plan flag choice context)
  unfolding upload_body
  upload_body-Yields plan flag choice context = Yields-after (check_cancelled s context) _ (λ _.
      Yields-after (lift (resolve_upload_policy flag choice)) _ (λ policy.
        Yields-after (require_credentials p plan.profile_id) _
          (upload_rest-Yields policy context plan)))

  -- An upload that returns has reported each item of its plan exactly once, as uploaded or as
  -- skipped, whatever the policy is: no item is lost and none is reported twice.
  upload_reports_all :
      (plan : UploadPlan) (flag : Option Bool) (choice : Option UploadConflictPolicy)
      (context : OperationContext) (e : Env W) (summary : UploadSummary)
      → (upload p s plan flag choice context e).0 ≡ ok summary
      → Perm (summary.uploaded ++ summary.skipped) (map item_uri plan.items)
  unfolding upload
  upload_reports_all plan flag choice context e summary returned = IfOk-ok _ returned (
      (logged_operation-Yields _ "s3" "upload" false _ _
          (upload_body-Yields plan flag choice context)).gives
        e)
