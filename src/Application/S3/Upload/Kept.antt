-- ===== src/Application/S3/Upload/Kept.antt =====
-- Which objects an upload that skips existing ones may replace.
use aws_ssm_kit.Base.{
  ◌≡◌, refl, Bool, true, false, Option, none, some, List, [], ◌∷◌, if◌then◌else◌,
}
use aws_ssm_kit.Errors.{ok, pure, rescue, ApplicationError}
use aws_ssm_kit.Errors.Keeps.{
  Keeps, Keeps-bind, Keeps-lift_known, Keeps-if, Keeps-rescue, keeps_rules,
}
use aws_ssm_kit.Errors.Runs.{Runs, Ending, Runs-bind, Keeps-Runs, Keeps-fail}
use aws_ssm_kit.Text.{Text}
use aws_ssm_kit.Domain.Profile.{PlainCredentials}
use aws_ssm_kit.Application.Env.{Ports, Env, call}
use aws_ssm_kit.Application.Operations.{OperationContext}
use aws_ssm_kit.Application.Sessions.{require_credentials}
use aws_ssm_kit.Application.Sessions.World.{
  Outside, call-Keeps, record_event-Keeps, logged_operation-Keeps, require_credentials-Keeps,
}
use aws_ssm_kit.Application.S3.{
  UploadConflictPolicy, skip_existing, UploadItem, UploadPlan, UploadSummary, S3Ports,
  resolve_upload_policy,
}
use aws_ssm_kit.Application.S3.Contents.{
  Has, ObjectLaws, Answered, object_exists-Runs, missing_other,
}
use aws_ssm_kit.Application.S3.Objects.{recorded_raise}
use aws_ssm_kit.Application.S3.Upload.{
  check_cancelled, put_item, has_appeared, move_item, upload_item, handle_failure, upload_all,
  upload_rest, upload_body, upload,
}

module _ {W C : Type 0} (p : Ports W) (s : S3Ports W) (object : W → Text → Text → Option C)
    (laws : ObjectLaws object p s) (bucket key : Text) (value : C) where
  -- the object is there
  abbrev There : Env W → Type 0
  There = Outside (Has object bucket key value)

  check_cancelled-Keeps : (context : OperationContext) → Keeps There (check_cancelled s context)
  unfolding check_cancelled
  check_cancelled-Keeps context = record { at = λ e h. h }

  -- A transfer changes its own object only.
  put_item-Keeps :
      (context : OperationContext) (c : PlainCredentials) (region : Text) (item : UploadItem)
      → ¬ ((bucket ≡ item.bucket) × (key ≡ item.key))
      → Keeps There (put_item p s context c region item)
  unfolding put_item
  put_item-Keeps context c region item other =
      Keeps-if _ _ _
        (call-Keeps _ _ (laws.multipart_only c region _ _ _ _ _ context bucket key value other))
        (call-Keeps _ _ (laws.put_only c region _ _ _ context bucket key value other))

  move_item-Keeps :
      (context : OperationContext) (plan : UploadPlan) (c : PlainCredentials) (item : UploadItem)
      → ¬ ((bucket ≡ item.bucket) × (key ≡ item.key))
      → Keeps There (move_item p s context plan c item)
  unfolding move_item
  move_item-Keeps context plan c item other =
      Keeps-bind (put_item p s context c plan.region item) _
        (put_item-Keeps context c plan.region item other)
        (λ deltas. search (keeps_rules, record_event-Keeps))

  -- the rest of an item once the question is answered
  after_check :
      (context : OperationContext) (plan : UploadPlan) (c : PlainCredentials) (item : UploadItem)
      (appeared : Bool)
      → Runs
          (Answered p s object laws bucket key value item.bucket item.key (ok appeared))
          (if appeared then pure none else move_item p s context plan c item)
          (Ending There)
  unfolding pure
  after_check context plan c item true = record { from = λ e h. h.0 }
  after_check context plan c item false = record {
    from = λ e h.
        (move_item-Keeps context plan c item (
            missing_other p s object laws bucket key value item.bucket item.key e.world h.0
              (h.1 refl))).at
          e h.0;
  }

  upload_item-Keeps :
      (context : OperationContext) (plan : UploadPlan) (c : PlainCredentials) (item : UploadItem)
      → Keeps There (upload_item p s skip_existing context plan c item)
  unfolding upload_item has_appeared
  upload_item-Keeps context plan c item =
      Keeps-bind (check_cancelled s context) _ (check_cancelled-Keeps context) (λ _. Keeps-Runs _ (
        Runs-bind (call (s.object_exists c plan.region item.bucket item.key)) _
          (object_exists-Runs p s object laws bucket key value c plan.region item.bucket item.key)
          (after_check context plan c item) (λ x e h. h.0)))

  handle_failure-Keeps :
      {A : Type 0} (plan : UploadPlan) (item : UploadItem) (e : ApplicationError)
      → Keeps There (handle_failure p s {A = A} plan item e)
  unfolding handle_failure recorded_raise
  handle_failure-Keeps plan item e = search (keeps_rules, Keeps-fail, record_event-Keeps)

  upload_all-Keeps :
      (context : OperationContext) (plan : UploadPlan) (c : PlainCredentials)
      (items : List UploadItem) (summary : UploadSummary)
      → Keeps There (upload_all p s skip_existing context plan c items summary)
  unfolding upload_all
  upload_all-Keeps context plan c [] summary = search keeps_rules
  upload_all-Keeps context plan c (item ∷ items) summary =
      Keeps-bind (rescue (upload_item p s skip_existing context plan c item) _ _) _
        (Keeps-rescue _ _ _ (upload_item-Keeps context plan c item)
          (handle_failure-Keeps plan item))
        (λ moved. upload_all-Keeps context plan c items _)

  upload_rest-Keeps :
      (context : OperationContext) (plan : UploadPlan) (c : PlainCredentials)
      → Keeps There (upload_rest p s skip_existing context plan c)
  unfolding upload_rest
  upload_rest-Keeps context plan c =
      search (keeps_rules, record_event-Keeps, upload_all-Keeps, check_cancelled-Keeps) depth 8

  upload_with-Keeps :
      (context : OperationContext) (plan : UploadPlan) (flag : Option Bool)
      (choice : Option UploadConflictPolicy)
      → resolve_upload_policy flag choice ≡ ok skip_existing
      → Keeps There (upload_body p s plan flag choice context)
  unfolding upload_body
  upload_with-Keeps context plan flag choice skips = rw skips (
      Keeps-bind (check_cancelled s context) _ (check_cancelled-Keeps context) (λ _.
        Keeps-lift_known skip_existing _ (
          Keeps-bind (require_credentials p plan.profile_id) _
            (require_credentials-Keeps p _ (laws.guard_keeps bucket key value) plan.profile_id)
            (upload_rest-Keeps context plan))))

  -- An upload that is to skip existing objects replaces none: every object that S3 has when it starts
  -- is there unchanged when it ends, whether it returns, is cancelled or fails, and also where the
  -- object has appeared after the plan was made. The laws on the ports say which calls change which
  -- object; other writers are out of view.
  pub upload_keeps_objects :
      (context : OperationContext) (plan : UploadPlan) (flag : Option Bool)
      (choice : Option UploadConflictPolicy) (e : Env W)
      → resolve_upload_policy flag choice ≡ ok skip_existing
      → object e.world bucket key ≡ some value
      → object (upload p s plan flag choice context e).1.world bucket key ≡ some value
  unfolding upload
  upload_keeps_objects context plan flag choice e skips there =
      (logged_operation-Keeps (Has object bucket key value) "s3" "upload" false _ _
          (upload_with-Keeps context plan flag choice skips)).at
        e there
