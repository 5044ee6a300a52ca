-- ===== src/Application/S3/Objects/Renamed.antt =====
-- Which objects a rename may replace.
use aws_ssm_kit.Base.{◌≡◌, refl, Bool, true, false, Option, some, ℕ}
use aws_ssm_kit.Errors.{ok, raise_if, Exec, pure, rescue, ◌>>=◌, ◌>>◌}
use aws_ssm_kit.Errors.Keeps.{Keeps, Keeps-bind, Keeps-rescue, keeps_rules}
use aws_ssm_kit.Errors.Runs.{Runs, Ending, Runs-bind, Keeps-Runs}
use aws_ssm_kit.Text.{Text}
use aws_ssm_kit.Domain.Profile.{PlainCredentials}
use aws_ssm_kit.Application.Env.{Ports, Env, call, record_event}
use aws_ssm_kit.Application.Logging.{success}
use aws_ssm_kit.Application.Profiles.{Selector}
use aws_ssm_kit.Application.Sessions.{require_credentials}
use aws_ssm_kit.Application.Sessions.World.{
  Outside, call-Keeps, query-Keeps, record_event-Keeps, logged_operation-Keeps,
  require_credentials-Keeps,
}
use aws_ssm_kit.Application.S3.{S3Ports, s3_error}
use aws_ssm_kit.Application.S3.Contents.{
  Has, ObjectLaws, Answered, object_exists-Runs, missing_other,
}
use aws_ssm_kit.Application.S3.Objects.{recorded_raise, rename_to, rename_body, rename_object}

module _ {W C : Type 0} (p : Ports W) (s : S3Ports W) (object : W → Text → Text → Option C)
    (laws : ObjectLaws object p s) (b k : Text) (value : C) (key : Text) (other : ¬ (k ≡ key)) where
  abbrev There : Env W → Type 0
  There = Outside (Has object b k value)

  -- the call of the gateway, with its error recorded, and the records of its success
  abbrev moved : PlainCredentials → ℕ → Text → Text → Text → Exec (Env W) Text
  moved c id region bucket target = do
    rescue (call (s.rename_object c region bucket key target)) (λ e. true)
        (λ e. recorded_raise "rename" key id e)
    record_event (success "s3" "rename" target (some id) false)
    record_event (success "s3" "rename" key (some id) false)
    pure target

  moved-Keeps :
      (c : PlainCredentials) (id : ℕ) (region bucket target : Text)
      → ¬ ((b ≡ bucket) × (k ≡ target))
      → Keeps There (moved c id region bucket target)
  unfolding recorded_raise
  moved-Keeps c id region bucket target free =
      Keeps-bind (rescue (call (s.rename_object c region bucket key target)) _ _) _
        (Keeps-rescue _ _ _
          (call-Keeps _ _ (laws.rename_only c region bucket key target b k value other free))
          (λ e. search (keeps_rules, record_event-Keeps)))
        (λ _. search (keeps_rules, record_event-Keeps) depth 6)

  after_check :
      (c : PlainCredentials) (id : ℕ) (region bucket target : Text) (taken : Bool)
      → Runs
          (Answered p s object laws b k value bucket target (ok taken))
          (raise_if taken (s3_error "s3.rename.exists" "같은 이름의 파일이 있습니다. 다른 이름을 입력하세요.")
            >> moved c id region bucket target)
          (Ending There)
  unfolding ◌>>=◌ raise_if
  after_check c id region bucket target true = record { from = λ e h. h.0 }
  after_check c id region bucket target false = record {
    from = λ e h.
        (moved-Keeps c id region bucket target
            (missing_other p s object laws b k value bucket target e.world h.0 (h.1 refl))).at
          e h.0;
  }

  rename_to-Keeps :
      (id : ℕ) (region bucket target : Text)
      → Keeps There (rename_to p s id region bucket key target)
  unfolding rename_to
  rename_to-Keeps id region bucket target =
      Keeps-bind (require_credentials p id) _
        (require_credentials-Keeps p _ (laws.guard_keeps b k value) id)
        (λ c. Keeps-Runs _ (
          Runs-bind (call (s.object_exists c region bucket target)) _
            (object_exists-Runs p s object laws b k value c region bucket target)
            (after_check c id region bucket target) (λ x e h. h.0)))

  rename_body-Keeps :
      (bucket name : Text) (selector : Selector)
      → Keeps There (rename_body p s bucket key name selector)
  unfolding rename_body
  rename_body-Keeps bucket name selector =
      search (keeps_rules, query-Keeps, rename_to-Keeps) depth 12

  -- Renaming a key replaces no other object: an object that S3 has under another key is there
  -- unchanged at the end, however the call ends, and also where the new name is the one of that object. The laws on
  -- the ports let a rename overwrite its target.
  pub rename_keeps_objects :
      (bucket name : Text) (selector : Selector) (e : Env W)
      → object e.world b k ≡ some value
      → object (rename_object p s bucket key name selector e).1.world b k ≡ some value
  unfolding rename_object
  rename_keeps_objects bucket name selector e there =
      (logged_operation-Keeps (Has object b k value) "s3" "rename" false _ _
          (rename_body-Keeps bucket name selector)).at
        e there
