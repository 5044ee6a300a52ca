-- ===== src/Store/Locations.antt =====
-- The table `s3_locations`.
use aws_ssm_kit.Base.{
  ℕ, ◌+◌, Bool, false, not, Option, none, some, List, [], ◌∷◌, ◌==◌, is_some, if◌then◌else◌, String,
}
use aws_ssm_kit.Base.Dict.{lookup, erase, alter, append_row}
use aws_ssm_kit.Errors.{
  Result, ok, err, app, Exec, lift, ◌>>=◌, configuration_error, ◌then_do◌, fail_with,
}
use aws_ssm_kit.Text.{Text, Runtime}
use aws_ssm_kit.Domain.S3Location.{S3Location, s3_location, require_location_id}
use aws_ssm_kit.Store.{Db}
use aws_ssm_kit.Store.Named.{Named, find_named, taken, ordered}

abbrev pub location_names : Named S3Location
location_names = record { key = λ l. l.id; owner = λ l. l.profile_id; label = λ l. l.name }

-- `_s3_location(row)`, which runs the checks of the constructor
unfoldable pub read_location : Runtime → Option S3Location → Result (Option S3Location)
read_location u none = ok none
read_location u (some row) = s3_location u row then_do λ l. ok (some l)

-- the rows of a list, each read by a constructor
unfoldable pub read_all : {R : Type 0} → (R → Result R) → List R → Result (List R)
read_all make [] = ok []
read_all make (row ∷ rows) =
    let rest = read_all make rows in make row then_do λ r. rest then_do λ rs. ok (r ∷ rs)

unfoldable pub list_s3_locations : Runtime → ℕ → Db → Result (List S3Location)
unfolding ordered read_all
list_s3_locations u profile_id db =
    read_all (s3_location u) (ordered location_names (λ l. l.profile_id == profile_id) db.locations)

unfoldable pub get_s3_location : Runtime → ℕ → Db → Result (Option S3Location)
get_s3_location u id db = read_location u (lookup id db.locations)

unfoldable pub get_s3_location_by_name : Runtime → ℕ → Text → Db → Result (Option S3Location)
get_s3_location_by_name u profile_id name db =
    read_location u (find_named location_names profile_id name db.locations)

unfoldable pub reread_location : Runtime → String → ℕ → Exec Db S3Location
reread_location u code id db = (
  get_s3_location u id db
      then_do elim [ none ↦ fail_with (configuration_error code) | some l ↦ ok l ],
  db,
)

abbrev pub new_location : ℕ → ℕ → S3Location → S3Location
new_location k now l = record l { id = some k; created_at = some now; updated_at = some now }

-- `_s3_store_error`: a name that the profile already uses, or a missing profile
unfoldable pub create_s3_location : Runtime → ℕ → S3Location → Exec Db S3Location
create_s3_location u now l db =
    let k = db.last_location + 1 in
    if taken location_names k l.profile_id l.name db.locations
    then (err (app (configuration_error "s3.location.name.duplicate")), db)
    else if not (is_some (lookup l.profile_id db.profiles))
    then (err (app (configuration_error "s3.location.persistence.invalid")), db)
    else reread_location u "s3.location.create.failed" k (record db {
      locations = append_row k (new_location k now l) db.locations;
      last_location = k;
    })

-- the columns that `update_s3_location` sets
abbrev pub updated_location : ℕ → S3Location → S3Location → S3Location
updated_location now l row = record row {
  name = l.name;
  bucket = l.bucket;
  prefix = l.prefix;
  updated_at = some now;
}

-- `WHERE id = ? AND profile_id = ?`
unfoldable pub has_location : ℕ → ℕ → Db → Bool
has_location k profile_id db = elim (lookup k db.locations) [
  | none ↦ false
  | some row ↦ row.profile_id == profile_id
]

-- `update_s3_location` of a location with the id `k`
unfoldable pub update_location_at : Runtime → ℕ → ℕ → S3Location → Exec Db S3Location
unfolding has_location
update_location_at u now k l db =
    if not (has_location k l.profile_id db)
    then (err (app (configuration_error "s3.location.not_found")), db)
    else if taken location_names k l.profile_id l.name db.locations
    then (err (app (configuration_error "s3.location.name.duplicate")), db)
    else reread_location u "s3.location.update.failed" k
        (record db { locations = alter k (updated_location now l) db.locations })

unfoldable pub update_s3_location : Runtime → ℕ → S3Location → Exec Db S3Location
unfolding update_location_at
update_s3_location u now l = do k ← lift (require_location_id l); update_location_at u now k l

unfoldable pub delete_s3_location : ℕ → Exec Db (Unit {0})
delete_s3_location k db =
    if is_some (lookup k db.locations)
    then (ok tt, record db { locations = erase k db.locations })
    else (err (app (configuration_error "s3.location.not_found")), db)
