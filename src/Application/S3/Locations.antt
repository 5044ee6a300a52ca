-- ===== src/Application/S3/Locations.antt =====
-- application/s3_service.py: `S3LocationService`, the saved locations of a profile.
pub mod Owned
use aws_ssm_kit.Base.{ℕ, Bool, not, Option, none, some, List, ◌==◌, if◌then◌else◌}
use aws_ssm_kit.Errors.{
  Result, ok, configuration_error, fail_with, Exec, pure, lift, raise, ◌>>=◌, ◌>>◌, ◌then_do◌,
  raised, configuration,
}
use aws_ssm_kit.Text.{Text, Runtime}
use aws_ssm_kit.Domain.Profile.{require_id}
use aws_ssm_kit.Domain.S3Location.{S3Location, s3_location, require_location_id}
use aws_ssm_kit.Store.{Db}
use aws_ssm_kit.Store.Locations as Store
use aws_ssm_kit.Application.Env.{Ports, Env, ask, query, write}
use aws_ssm_kit.Application.Profiles.{Selector, resolve}

pub record SaveS3LocationRequest : Type 0 where
  pub profile : Selector
  pub name : Text
  pub bucket : Text
  pub prefix : Text
  pub location_id : Option ℕ

-- `str | int`
pub data LocationSelector : Type 0 where
  location_id : ℕ → LocationSelector
  location_name : Text → LocationSelector

unfoldable pub owner_id : Runtime → Selector → Db → Result ℕ
owner_id u selector db = resolve u selector db then_do require_id

-- `list`
unfoldable pub list : Runtime → Selector → Db → Result (List S3Location)
unfolding owner_id
list u profile db = owner_id u profile db then_do λ id. Store.list_s3_locations u id db

-- the two reads of `show`
unfoldable pub find_location : Runtime → LocationSelector → ℕ → Db → Result (Option S3Location)
find_location u (location_id k) profile_id db = Store.get_s3_location u k db
find_location u (location_name name) profile_id db =
    Store.get_s3_location_by_name u profile_id name db

-- a location of another profile is not found
unfoldable pub own_location : ℕ → Option S3Location → Result S3Location
own_location profile_id none =
    fail_with (raised configuration "s3.location.not_found" "Saved S3 location was not found")
own_location profile_id (some l) =
    if l.profile_id == profile_id
    then ok l
    else fail_with (raised configuration "s3.location.not_found" "Saved S3 location was not found")

-- `show`
unfoldable pub show : Runtime → LocationSelector → Selector → Db → Result S3Location
unfolding owner_id find_location own_location
show u selector profile db =
    owner_id u profile db then_do λ id. find_location u selector id db then_do own_location id

-- `S3Location(…)` of a request, with its checks
abbrev pub requested : Runtime → Option ℕ → ℕ → SaveS3LocationRequest → Result S3Location
requested u id profile_id request = s3_location u (record {
  id = id;
  profile_id = profile_id;
  name = request.name;
  bucket = request.bucket;
  prefix = request.prefix;
  created_at = none;
  updated_at = none;
})

module _ {W : Type 0} (p : Ports W) where
  -- `create`
  unfoldable pub create : SaveS3LocationRequest → Exec (Env W) S3Location
  unfolding owner_id ask query write
  create request = do
    profile_id ← query (owner_id p.runtime request.profile)
    location ← lift (requested p.runtime none profile_id request)
    now ← ask p.now
    write (Store.create_s3_location p.runtime now location)

  unfoldable pub update_found : SaveS3LocationRequest → ℕ → Exec (Env W) S3Location
  unfolding show ask query write
  update_found request k = do
    current ← query (show p.runtime (location_id k) request.profile)
    location ← lift (requested p.runtime (some k) current.profile_id request)
    now ← ask p.now
    write (Store.update_s3_location p.runtime now location)

  -- `update`
  unfoldable pub update : SaveS3LocationRequest → Exec (Env W) S3Location
  unfolding update_found
  update request = elim request.location_id [
    | none ↦ raise (raised configuration "s3.location.id.required" "Location id is required")
    | some k ↦ update_found request k
  ]

  -- `delete`
  unfoldable pub delete : LocationSelector → Selector → Exec (Env W) (Unit {0})
  unfolding show query write
  delete selector profile = do
    location ← query (show p.runtime selector profile)
    k ← lift (require_location_id location)
    write (Store.delete_s3_location k)
