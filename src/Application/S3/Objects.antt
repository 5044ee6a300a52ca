-- ===== src/Application/S3/Objects.antt =====
-- application/s3_service.py: buckets, listings, and the calls for one object.
pub mod Renamed
use aws_ssm_kit.Base.{
  ℕ, String, Bool, true, false, not, ◌&&◌, ◌||◌, Option, none, some, List, [], ◌∷◌, ◌++◌, ◌==◌,
  keep, if◌then◌else◌,
}
use aws_ssm_kit.Errors.{
  ApplicationError, ok, Exec, pure, lift, raise, raise_if, rescue, ◌>>=◌, ◌>>◌,
}
use aws_ssm_kit.Text.{
  Text, Runtime, codes, is_empty, trim, same, ends_with, has_char, has_part, before_last, last_part,
  map_text,
}
use aws_ssm_kit.Domain.ExecutionLog.{ExecutionLevel, ExecutionResult, ExecutionPhase}
use aws_ssm_kit.Domain.Profile.{AwsProfile, require_id, PlainCredentials}
use aws_ssm_kit.Domain.S3Location.{s3_location}
use aws_ssm_kit.Application.Env.{Ports, Env, call, query, record_event}
use aws_ssm_kit.Application.Logging.{success, failure, logged, event, finish, logged_operation}
use aws_ssm_kit.Application.Profiles.{Selector, resolve}
use aws_ssm_kit.Application.Sessions.{require_credentials}
use aws_ssm_kit.Application.S3.{S3Object, S3Ports, s3_error, direct}

-- The successful catalogs by profile and region.
pub record Catalog : Type 0 where
  pub profile_id : ℕ
  pub region : Text
  pub buckets : List Text

pub record Buckets (W : Type 0) : Type 0 where
  pub env : Env W
  pub catalogs : List Catalog

abbrev pub is_for : ℕ → Text → Catalog → Bool
is_for profile_id region entry = entry.profile_id == profile_id && same entry.region region

unfoldable pub find_catalog : ℕ → Text → List Catalog → Option (List Text)
find_catalog profile_id region [] = none
find_catalog profile_id region (entry ∷ entries) =
    if is_for profile_id region entry
    then some entry.buckets
    else find_catalog profile_id region entries

-- `self._bucket_catalog[key] = value`
unfoldable pub put_catalog : ℕ → Text → List Text → List Catalog → List Catalog
put_catalog profile_id region buckets entries =
    record { profile_id = profile_id; region = region; buckets = buckets }
    ∷ keep (λ entry. not (is_for profile_id region entry)) entries

-- the file name of a key contains the query, without regard to case
unfoldable pub matches_query : Runtime → Text → S3Object → Bool
matches_query u query item =
    not item.is_prefix
    && has_part (map_text u.casefold query) (map_text u.casefold (last_part b'/' item.key))

-- the names that `rename_object` refuses
unfoldable pub bad_rename : Text → Text → Bool
bad_rename key name =
    is_empty key
    || ends_with b'/' key
    || is_empty name
    || same name (codes ".")
    || same name (codes "..")
    || has_char b'/' name
    || has_char 92 name

-- the target of a rename: the same prefix with another name
unfoldable pub rename_target : Text → Text → Text
rename_target key name = elim (before_last b'/' key) [
  | none ↦ name
  | some prefix ↦ prefix ++ b'/' ∷ name
]

module _ {W : Type 0} where
  unfoldable pub within : {A : Type 0} → Exec (Env W) A → Exec (Buckets W) A
  within m s = let (r, e) = m s.env in (r, record s { env = e })

  -- `record_failure`, then the same error goes on
  unfoldable pub recorded_raise :
      {A : Type 0} → String → Text → ℕ → ApplicationError → Exec (Env W) A
  unfolding record_event
  recorded_raise action target profile_id e = do
    record_event (failure "s3" action target (some profile_id) e)
    raise (logged e)

module _ {W : Type 0} (p : Ports W) (s : S3Ports W) where
  -- `cached_buckets`
  unfoldable pub cached_buckets : Selector → Exec (Buckets W) (Option (List Text))
  unfolding within query
  cached_buckets selector = do
    selected ← within (query (resolve p.runtime selector))
    id ← within (lift (require_id selected))
    λ b. (ok (find_catalog id selected.region b.catalogs), b)

  -- `list_buckets` when the catalog has to come from AWS
  unfoldable pub fetch_buckets : ℕ → Text → Exec (Buckets W) (List Text)
  unfolding within call
  fetch_buckets id region = do
    credentials ← within (require_credentials p id)
    value ← within (call (s.list_buckets credentials region))
    λ b. (ok value, record b { catalogs = put_catalog id region value b.catalogs })

  unfoldable pub list_found : Bool → ℕ → Text → Option (List Text) → Exec (Buckets W) (List Text)
  unfolding fetch_buckets
  list_found refresh id region none = fetch_buckets id region
  list_found refresh id region (some known) =
      if refresh then fetch_buckets id region else pure known

  unfoldable pub list_buckets_body : Selector → Bool → Exec (Buckets W) (List Text)
  unfolding within query list_found
  list_buckets_body selector refresh = do
    selected ← within (query (resolve p.runtime selector))
    id ← within (lift (require_id selected))
    λ b. list_found refresh id selected.region (find_catalog id selected.region b.catalogs) b

  -- `list_buckets`
  unfoldable pub list_buckets : Selector → Bool → Exec (Buckets W) (List Text)
  unfolding within list_buckets_body
  list_buckets selector refresh b =
      let started =
        (within
          (record_event (
            event "s3" "list_buckets" (codes "-") ExecutionResult.success ExecutionLevel.info
              ExecutionPhase.started "s3.list_buckets.started"))
          b).1 in
      let (r, b') = list_buckets_body selector refresh started in
      within (finish "s3" "list_buckets" true (codes "-") r) b'

  unfoldable pub list_objects_body :
      Text → Text → Selector → Option Text → Exec (Env W) (List S3Object)
  unfolding query call record_event
  list_objects_body bucket prefix selector search_for = do
    selected ← query (resolve p.runtime selector)
    id ← lift (require_id selected)
    credentials ← require_credentials p id
    location ← lift (s3_location p.runtime (direct id bucket prefix))
    found ← elim search_for [
      | none ↦ call (s.list_objects credentials selected.region location.bucket location.prefix)
      | some _ ↦
          call
            (s.list_objects_recursive credentials selected.region location.bucket location.prefix)
    ]
    record_event (success "s3" "list" location.bucket (some id) false)
    pure (elim search_for [ none ↦ found | some q ↦ keep (matches_query p.runtime q) found ])

  -- `list_objects`
  unfoldable pub list_objects : Text → Text → Selector → Option Text → Exec (Env W) (List S3Object)
  unfolding list_objects_body logged_operation
  list_objects bucket prefix selector search_for =
      logged_operation "s3" "list_objects" false bucket
        (list_objects_body bucket prefix selector search_for)

  -- `rename_object` to another key
  unfoldable pub rename_to : ℕ → Text → Text → Text → Text → Exec (Env W) Text
  unfolding call record_event recorded_raise
  rename_to id region bucket key target = do
    credentials ← require_credentials p id
    taken ← call (s.object_exists credentials region bucket target)
    raise_if taken (s3_error "s3.rename.exists" "같은 이름의 파일이 있습니다. 다른 이름을 입력하세요.")
    rescue (call (s.rename_object credentials region bucket key target)) (λ e. true)
        (λ e. recorded_raise "rename" key id e)
    record_event (success "s3" "rename" target (some id) false)
    record_event (success "s3" "rename" key (some id) false)
    pure target

  unfoldable pub rename_body : Text → Text → Text → Selector → Exec (Env W) Text
  unfolding query rename_to
  rename_body bucket key name selector = do
    selected ← query (resolve p.runtime selector)
    id ← lift (require_id selected)
    location ← lift (s3_location p.runtime (direct id bucket []))
    raise_if (bad_rename key (trim p.runtime name))
        (s3_error "s3.rename.invalid" "폴더가 아닌 파일의 새 이름을 입력하세요.")
    if same (rename_target key (trim p.runtime name)) key
        then pure (rename_target key (trim p.runtime name))
        else rename_to id selected.region location.bucket key
            (rename_target key (trim p.runtime name))

  -- `rename_object`
  unfoldable pub rename_object : Text → Text → Text → Selector → Exec (Env W) Text
  unfolding rename_body logged_operation
  rename_object bucket key name selector =
      logged_operation "s3" "rename" false key (rename_body bucket key name selector)

  unfoldable pub delete_body : Text → Text → Selector → Exec (Env W) (Unit {0})
  unfolding query call record_event recorded_raise
  delete_body bucket key selector = do
    selected ← query (resolve p.runtime selector)
    id ← lift (require_id selected)
    credentials ← require_credentials p id
    location ← lift (s3_location p.runtime (direct id bucket []))
    raise_if (is_empty (trim p.runtime key) || ends_with b'/' (trim p.runtime key))
        (s3_error "s3.delete.object.required" "Select one non-prefix S3 object")
    rescue (call (s.delete_object credentials selected.region location.bucket (trim p.runtime key)))
        (λ e. true) (λ e. recorded_raise "delete_object" (trim p.runtime key) id e)
    record_event (success "s3" "delete_object" (trim p.runtime key) (some id) false)

  -- `delete_object`
  unfoldable pub delete_object : Text → Text → Selector → Exec (Env W) (Unit {0})
  unfolding delete_body logged_operation
  delete_object bucket key selector =
      logged_operation "s3" "delete_object" false key (delete_body bucket key selector)

  unfoldable pub download_one :
      AwsProfile → ℕ → PlainCredentials → Text → Text → Text → Exec (Env W) Text
  unfolding call record_event
  download_one selected id credentials bucket key target e =
      (do
        raise_if (is_empty key || ends_with b'/' key)
            (s3_error "s3.download.object.required" "Select one S3 object")
        raise_if (not (s.has_parent target e.world))
            (s3_error "s3.download.destination.invalid" "Download directory does not exist")
        call (s.download_file credentials selected.region bucket key target false none)
        record_event (success "s3" "download" key (some id) false)
        pure target)
        e

  unfoldable pub download_object_body : Text → Text → Text → Selector → Exec (Env W) Text
  unfolding query download_one
  download_object_body bucket key destination selector = do
    selected ← query (resolve p.runtime selector)
    id ← lift (require_id selected)
    credentials ← require_credentials p id
    location ← lift (s3_location p.runtime (direct id bucket []))
    λ e.
        download_one selected id credentials location.bucket (trim p.runtime key)
          (s.resolve_path destination e.world) e

  -- `download_object`
  unfoldable pub download_object : Text → Text → Text → Selector → Exec (Env W) Text
  unfolding download_object_body logged_operation
  download_object bucket key destination selector =
      logged_operation "s3" "download_object" false key
        (download_object_body bucket key destination selector)
