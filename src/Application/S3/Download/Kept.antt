-- ===== src/Application/S3/Download/Kept.antt =====
-- Which local files a download may replace.
use aws_ssm_kit.Base.{
  ◌≡◌, refl, sym, ◌∙◌, Bool, true, false, not, ◌&&◌, Option, none, some, List, [], ◌∷◌, All,
  Bool-cases, inl, inr,
}
use aws_ssm_kit.Errors.{raise_if, Exec, rescue, ◌>>=◌, ◌>>◌, ApplicationError}
use aws_ssm_kit.Errors.Keeps.{Keeps, Keeps-bind, Keeps-rescue, keeps_rules}
use aws_ssm_kit.Errors.Runs.{Keeps-fail}
use aws_ssm_kit.Text.{Text}
use aws_ssm_kit.Domain.Profile.{PlainCredentials}
use aws_ssm_kit.Application.Env.{Ports, Env, call}
use aws_ssm_kit.Application.Operations.{OperationContext}
use aws_ssm_kit.Application.Sessions.{require_credentials}
use aws_ssm_kit.Application.Sessions.World.{
  KeepsWorld, Outside, call-Keeps, record_event-Keeps, logged_operation-Keeps,
  require_credentials-Keeps,
}
use aws_ssm_kit.Application.S3.{
  UploadConflictPolicy, skip_existing, overwrite, same_policy, DownloadItem, DownloadPlan,
  DownloadSummary, S3Ports,
}
use aws_ssm_kit.Application.S3.Upload.{check_cancelled}
use aws_ssm_kit.Application.S3.Download.{
  fetch_item, meet_existing, download_present, download_item, download_all, download_checked,
  end_download, download_body, download,
}

module _ {W C : Type 0} (file : W → Text → Option C) where
  -- The path has this content.
  abbrev pub Holds : Text → C → W → Type 0
  Holds path value w = file w path ≡ some value

  -- What the calls do to the local files, a view of the world. A download changes its destination
  -- only; between two calls nobody else writes.
  pub record FileLaws (p : Ports W) (s : S3Ports W) : Type 0 where
    pub guard_keeps : (path : Text) (value : C) → KeepsWorld p (Holds path value)
    -- the answer "no" is true
    pub exists_true : (path : Text) (w : W) → s.path_exists path w ≡ false → file w path ≡ none
    pub parent_keeps :
        (target path : Text) (value : C) → Keeps (Holds path value) (s.make_parent target)
    pub download_only :
        (c : PlainCredentials) (region bucket key target : Text) (replace : Bool)
        (context : Option OperationContext) (path : Text) (value : C)
        → ¬ (path ≡ target)
        → Keeps (Holds path value) (s.download_file c region bucket key target replace context)

-- The item may not replace the file of a path: the policy skips, or the plan has not shown the file.
abbrev pub Unconfirmed : UploadConflictPolicy → Text → DownloadItem → Type 0
Unconfirmed policy path item =
    path ≡ item.destination → (same_policy policy overwrite && item.exists) ≡ false

module _ {W C : Type 0} (p : Ports W) (s : S3Ports W) (file : W → Text → Option C)
    (laws : FileLaws file p s) (path : Text) (value : C) where
  abbrev There : Env W → Type 0
  There = Outside (Holds file path value)

  check_cancelled-Keeps : (context : OperationContext) → Keeps There (check_cancelled s context)
  unfolding check_cancelled
  check_cancelled-Keeps context = record { at = λ e h. h }

  make_parent-Keeps : (target : Text) → Keeps There (call (s.make_parent target))
  make_parent-Keeps target = call-Keeps _ _ (laws.parent_keeps target path value)

  -- a test before a call
  refused-Keeps :
      {A : Type 0} (b : Bool) (error : ApplicationError) (m : Exec (Env W) A)
      → (b ≡ true → Keeps There m)
      → Keeps There (raise_if (not b) error >> m)
  unfolding raise_if ◌>>=◌
  refused-Keeps true error m k = record { at = (k refl).at }
  refused-Keeps false error m k = record { at = λ e h. h }

  module _ (context : OperationContext) (plan : DownloadPlan) (c : PlainCredentials) where
    fetch_item-Keeps :
        (policy : UploadConflictPolicy) (item : DownloadItem)
        → ¬ (path ≡ item.destination)
        → Keeps There (fetch_item p s policy context plan c item)
    unfolding fetch_item
    fetch_item-Keeps policy item other =
        Keeps-bind (call (s.make_parent item.destination)) _ (make_parent-Keeps item.destination)
          (λ _.
            Keeps-bind
              (call (s.download_file c plan.region item.bucket item.key item.destination _ _)) _
              (call-Keeps _ _
                (laws.download_only c plan.region _ _ item.destination _ _ path value other))
              (λ deltas. search keeps_rules))

    meet_existing-Keeps :
        (policy : UploadConflictPolicy) (item : DownloadItem)
        → Unconfirmed policy path item
        → Keeps There (meet_existing p s policy context plan c item)
    unfolding meet_existing
    meet_existing-Keeps skip_existing item unconfirmed = search keeps_rules
    meet_existing-Keeps overwrite item unconfirmed =
        refused-Keeps item.exists _ _
          (λ shown. fetch_item-Keeps overwrite item (λ q. clash (sym shown ∙ unconfirmed q)))
      where
        clash : ¬ (true ≡ false)
        clash h = absurd (cc)

    download_present-Keeps :
        (policy : UploadConflictPolicy) (item : DownloadItem) (e : Env W)
        → Unconfirmed policy path item
        → There e
        → There
            (download_present p s policy context plan c item
              (s.path_exists item.destination e.world)
              e).1
    unfolding download_present
    download_present-Keeps policy item e unconfirmed h =
        elim (Bool-cases (s.path_exists item.destination e.world)) [
          | inl present ↦ rw present ((meet_existing-Keeps policy item unconfirmed).at e h)
          | inr absent ↦ rw absent (
              (fetch_item-Keeps policy item
                  (λ q. absurd (here q (laws.exists_true item.destination e.world absent)))).at
                e h)
        ]
      where
        here : path ≡ item.destination → ¬ (file e.world item.destination ≡ none)
        here q missing = cc

    download_item-Keeps :
        (policy : UploadConflictPolicy) (item : DownloadItem)
        → Unconfirmed policy path item
        → Keeps There (download_item p s policy context plan c item)
    unfolding download_item
    download_item-Keeps policy item unconfirmed =
        Keeps-bind (check_cancelled s context) _ (check_cancelled-Keeps context)
          (λ _. record { at = λ e. download_present-Keeps policy item e unconfirmed })

    download_all-Keeps :
        (policy : UploadConflictPolicy) (items : List DownloadItem) (summary : DownloadSummary)
        → All (Unconfirmed policy path) items
        → Keeps There (download_all p s policy context plan c items summary)
    unfolding download_all
    download_all-Keeps policy [] summary _ = search keeps_rules
    download_all-Keeps policy (item ∷ items) summary (first, rest) =
        Keeps-bind (download_item p s policy context plan c item) _
          (download_item-Keeps policy item first) (λ moved. download_all-Keeps policy items _ rest)

    download_checked-Keeps :
        (policy : UploadConflictPolicy)
        → All (Unconfirmed policy path) plan.items
        → Keeps There (download_checked p s policy context plan c)
    unfolding download_checked
    download_checked-Keeps policy unconfirmed =
        Keeps-bind (download_all p s policy context plan c plan.items _) _
          (download_all-Keeps policy plan.items _ unconfirmed)
          (λ summary. search (keeps_rules, check_cancelled-Keeps) depth 6)

  end_download-Keeps :
      {A : Type 0} (e : ApplicationError) → Keeps There (end_download p s {A = A} e)
  unfolding end_download
  end_download-Keeps e = search (keeps_rules, Keeps-fail)

  download_body-Keeps :
      (policy : UploadConflictPolicy) (context : OperationContext) (plan : DownloadPlan)
      → All (Unconfirmed policy path) plan.items
      → Keeps There (download_body p s policy context plan)
  unfolding download_body
  download_body-Keeps policy context plan unconfirmed =
      Keeps-bind (check_cancelled s context) _ (check_cancelled-Keeps context) (λ _.
        Keeps-bind (require_credentials p plan.profile_id) _
          (require_credentials-Keeps p _ (laws.guard_keeps path value) plan.profile_id)
          (λ c.
            Keeps-bind (rescue (download_checked p s policy context plan c) _ _) _
              (Keeps-rescue _ _ _ (download_checked-Keeps context plan c policy unconfirmed)
                end_download-Keeps)
              (λ summary. search (keeps_rules, record_event-Keeps) depth 6)))

  -- A download replaces no local file that the user has not confirmed: a file that is there at the
  -- start is there unchanged at the end, however the download ends, unless the policy is to overwrite
  -- and an item of the plan with this destination was marked as existing. It holds also where the
  -- file was not there when the plan was made. The laws on the ports say that a transfer changes its
  -- destination only; other writers are out of view.
  pub download_keeps_files :
      (policy : UploadConflictPolicy) (context : OperationContext) (plan : DownloadPlan) (e : Env W)
      → All (Unconfirmed policy path) plan.items
      → file e.world path ≡ some value
      → file (download p s policy context plan e).1.world path ≡ some value
  unfolding download
  download_keeps_files policy context plan e unconfirmed there =
      (logged_operation-Keeps (Holds file path value) "s3" "download" false _ _
          (download_body-Keeps policy context plan unconfirmed)).at
        e there
