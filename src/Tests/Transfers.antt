-- ===== src/Tests/Transfers.antt =====
-- The theorems on transfers at a small cloud.
use aws_ssm_kit.Base.{
  ℕ, ◌≡◌, refl, ap, Bool, true, false, ◌&&◌, Option, none, some, [], ◌∷◌, ==_iff, Bool-cases, inl,
  inr, if◌then◌else◌, ◌==◌,
}
use aws_ssm_kit.Errors.{ok, Result}
use aws_ssm_kit.Errors.Keeps.{Keeps}
use aws_ssm_kit.Text.{Text, codes, same}
use aws_ssm_kit.Application.Env.{Ports, Env}
use aws_ssm_kit.Application.Operations.{OperationContext}
use aws_ssm_kit.Application.Profiles.{by_id}
use aws_ssm_kit.Application.Sessions.World.{KeepsWorld}
use aws_ssm_kit.Application.S3.{
  UploadItem, UploadPlan, DownloadItem, DownloadPlan, S3Ports, skip_existing, overwrite,
  resolve_upload_policy,
}
use aws_ssm_kit.Application.S3.Contents.{Has, ObjectLaws}
use aws_ssm_kit.Application.S3.Objects.{rename_object}
use aws_ssm_kit.Application.S3.Objects.Renamed.{rename_keeps_objects}
use aws_ssm_kit.Application.S3.Upload.{upload}
use aws_ssm_kit.Application.S3.Upload.Kept.{upload_keeps_objects}
use aws_ssm_kit.Application.S3.Download.{download}
use aws_ssm_kit.Application.S3.Download.Kept.{FileLaws, download_keeps_files}
use aws_ssm_kit.Tests.Samples.{ascii, plain, profile, db}

-- the objects, by bucket and key, and the local files
pub record Cloud : Type 0 where
  pub object : Text → Text → Option ℕ
  pub file : Text → Option ℕ

same-true : (s t : Text) → same s t ≡ true → s ≡ t
unfolding same
same-true [] [] h = refl
same-true [] (b ∷ t) h = cc
same-true (a ∷ s) [] h = cc
same-true (a ∷ s) (b ∷ t) h = elim (Bool-cases (a == b)) [
  | inl e ↦ rw ((==_iff a b).0 e, same-true s t (rw e at h)) refl
  | inr e ↦ cc
]

-- a table with one more entry
abbrev put : {A : Type 0} → Text → Option A → (Text → Option A) → Text → Option A
put key value table k = if same k key then value else table k

put_other :
    {A : Type 0} (key : Text) (value : Option A) (table : Text → Option A) (k : Text)
    → ¬ (k ≡ key)
    → put key value table k ≡ table k
put_other key value table k other = elim (Bool-cases (same k key)) [
  | inl e ↦ absurd (other (same-true k key e))
  | inr e ↦ rw e refl
]

abbrev is_there : Option ℕ → Bool
is_there none = false
is_there (some _) = true

is_there-false : (o : Option ℕ) → ok (is_there o) ≡ ok false → o ≡ none
is_there-false none h = refl
is_there-false (some n) h = cc

abbrev store_at : Text → Text → Option ℕ → Cloud → Cloud
store_at bucket key value w = record w {
  object = λ b k. if same b bucket && same k key then value else w.object b k;
}

store_at_other :
    (bucket key : Text) (value : Option ℕ) (w : Cloud) (b k : Text)
    → ¬ ((b ≡ bucket) × (k ≡ key))
    → (store_at bucket key value w).object b k ≡ w.object b k
store_at_other bucket key value w b k other = elim (Bool-cases (same b bucket && same k key)) [
  | inl e ↦ absurd (other (both (same b bucket) (same k key) refl refl e))
  | inr e ↦ rw e refl
]
  where
    both :
        (x y : Bool)
        → same b bucket ≡ x
        → same k key ≡ y
        → (x && y) ≡ true
        → (b ≡ bucket) × (k ≡ key)
    both true true p q h = (same-true b bucket p, same-true k key q)
    both true false p q h = cc
    both false y p q h = cc

abbrev cloud_ports : Ports Cloud
cloud_ports = record {
  runtime = ascii;
  now = λ w. (1000, w);
  new_operation_id = λ w. (1, w);
  get_identity = λ c region w.
      (ok (record { account_id = profile.account_id; user_id = profile.user_id; arn = [] }), w);
  get_session_token = λ c region arn code seconds w.
      (ok (record { credentials = plain; expires_at_utc = 50000000000 }), w);
  protect = λ s w. (ok s, w);
  unprotect = λ s w. (ok s, w);
  write_shared = none;
}

abbrev cloud_s3 : S3Ports Cloud
cloud_s3 = record {
  is_cancelled = λ token w. false;
  list_buckets = λ c region w. (ok [], w);
  list_objects = λ c region bucket prefix w. (ok [], w);
  list_objects_recursive = λ c region bucket prefix w. (ok [], w);
  object_exists = λ c region bucket key w. (ok (is_there (w.object bucket key)), w);
  rename_object = λ c region bucket key target w.
      (ok tt, store_at bucket key none (store_at bucket target (w.object bucket key) w));
  delete_object = λ c region bucket key w. (ok tt, store_at bucket key none w);
  put_file =
      λ c region bucket key source context w. (ok (3 ∷ 4 ∷ []), store_at bucket key (some 7) w);
  multipart_file = λ c region bucket key source size parts context w.
      (ok (size ∷ []), store_at bucket key (some size) w);
  download_file = λ c region bucket key target replace context w.
      (ok (5 ∷ []), record w { file = put target (w.object bucket key) w.file });
  path_exists = λ path w. is_there (w.file path);
  make_parent = λ path w. (ok tt, w);
  has_parent = λ path w. true;
  resolve_path = λ path w. path;
}

abbrev unmoved : {A : Type 0} {P : Cloud → Type 0} (r : Result A) → Keeps P (λ w. (r, w))
unmoved r = record { at = λ w h. h }

cloud_guard : (P : Cloud → Type 0) → KeepsWorld cloud_ports P
cloud_guard P = record {
  now_keeps = λ w h. h;
  identity_keeps = λ c region. unmoved _;
  unprotect_keeps = λ text. unmoved _;
}

stored_Keeps :
    {A : Type 0} (r : Result A) (bucket key : Text) (value : Option ℕ) (b k : Text) (old : ℕ)
    → ¬ ((b ≡ bucket) × (k ≡ key))
    → Keeps (Has (λ w. w.object) b k old) (λ w. (r, store_at bucket key value w))
stored_Keeps r bucket key value b k old other = record {
  at = λ w h. rw (store_at_other bucket key value w b k other) h;
}

cloud_objects : ObjectLaws (λ w. w.object) cloud_ports cloud_s3
cloud_objects = record {
  guard_keeps = λ b k value. cloud_guard _;
  exists_keeps = λ c region bucket key b k value. record { at = λ w h. h };
  exists_true = λ c region bucket key w. is_there-false (w.object bucket key);
  put_only = λ c region bucket key source context b k value. stored_Keeps _ bucket key _ b k value;
  multipart_only = λ c region bucket key source size parts context b k value.
      stored_Keeps _ bucket key _ b k value;
  rename_only = λ c region bucket key target b k value other free. record {
    at = λ w h.
        rw
          (
            store_at_other bucket key none (store_at bucket target (w.object bucket key) w) b k
                (λ q. other q.1),
            store_at_other bucket target (w.object bucket key) w b k free,
          )
          h;
  };
}

cloud_files : FileLaws (λ w. w.file) cloud_ports cloud_s3
cloud_files = record {
  guard_keeps = λ path value. cloud_guard _;
  exists_true = λ path w h. is_there-false (w.file path) (ap ok h);
  parent_keeps = λ target path value. record { at = λ w h. h };
  download_only = λ c region bucket key target replace context path value other. record {
    at = λ w h. rw (put_other target (w.object bucket key) w.file path other) h;
  };
}

-- the bucket has two objects, and one local file exists
abbrev cloud : Env Cloud
cloud = record {
  db = db;
  world = record {
    object = λ b. put (codes "a") (some 1) (put (codes "b") (some 2) (λ k. none));
    file = put (codes "c:/b") (some 9) (λ path. none);
  };
  log = [];
}

abbrev upload_of : Text → ℕ → Bool → UploadItem
upload_of key size exists = record {
  source = codes "c:/x";
  bucket = codes "box";
  key = key;
  size = size;
  exists = exists;
}

-- an object that was there, one that has appeared, and a new one
abbrev uploads : UploadPlan
uploads = record {
  profile_id = 1;
  region = profile.region;
  items =
      upload_of (codes "a") 7 true
      ∷ upload_of (codes "b") 7 false
      ∷ upload_of (codes "c") 20000000 false
      ∷ [];
}

abbrev request : OperationContext
request = record { operation_id = 4; cancellation = 0 }

-- the object that has appeared is as it was
upload_keeps_objects_example :
    (upload cloud_ports cloud_s3 uploads none (some skip_existing) request cloud).1.world.object
      (codes "box")
      (codes "b")
    ≡ some 2
unfolding resolve_upload_policy same
upload_keeps_objects_example =
    upload_keeps_objects cloud_ports cloud_s3 (λ w. w.object) cloud_objects (codes "box")
      (codes "b") 2 request uploads none (some skip_existing) cloud skips there
  where
    skips : resolve_upload_policy none (some skip_existing) ≡ ok skip_existing
    skips = refl

    there : cloud.world.object (codes "box") (codes "b") ≡ some 2
    there = refl

rename_keeps_objects_example :
    (rename_object cloud_ports cloud_s3
        (codes "box")
        (codes "a")
        (codes "b")
        (by_id 1)
        cloud).1.world.object
      (codes "box")
      (codes "b")
    ≡ some 2
unfolding same
rename_keeps_objects_example =
    rename_keeps_objects cloud_ports cloud_s3 (λ w. w.object) cloud_objects (codes "box")
      (codes "b") 2 (codes "a") (λ h. absurd (differ h)) (codes "box") (codes "b") (by_id 1) cloud
      there
  where
    clash : ¬ (true ≡ false)
    clash q = absurd cc

    differ : ¬ (codes "b" ≡ codes "a")
    differ h = clash (ap (λ t. same (codes "b") t) h)

    there : cloud.world.object (codes "box") (codes "b") ≡ some 2
    there = refl

abbrev download_of : Text → Text → Bool → DownloadItem
download_of key destination exists = record {
  bucket = codes "box";
  key = key;
  destination = destination;
  size = 5;
  exists = exists;
}

-- a file that has appeared since the plan was made, and a new one
abbrev downloads : DownloadPlan
downloads = record {
  profile_id = 1;
  region = profile.region;
  items =
      download_of (codes "a") (codes "c:/a") false
      ∷ download_of (codes "b") (codes "c:/b") false
      ∷ [];
}

download_keeps_files_example :
    (download cloud_ports cloud_s3 overwrite request downloads cloud).1.world.file (codes "c:/b")
    ≡ some 9
unfolding same
download_keeps_files_example =
    download_keeps_files cloud_ports cloud_s3 (λ w. w.file) cloud_files (codes "c:/b") 9 overwrite
      request downloads cloud (λ q. refl, (λ q. refl, tt)) there
  where
    there : cloud.world.file (codes "c:/b") ≡ some 9
    there = refl
