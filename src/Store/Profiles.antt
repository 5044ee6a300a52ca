-- ===== src/Store/Profiles.antt =====
-- The table `aws_profiles`.
pub mod Defaults
pub mod Sound
pub mod Retired
pub mod Writes
use aws_ssm_kit.Base.{
  ℕ, ◌+◌, Bool, true, false, not, ◌&&◌, ◌||◌, Option, none, some, List, [], ◌∷◌, ltb, ◌==◌, is_some,
  keep, if◌then◌else◌, String,
}
use aws_ssm_kit.Base.Dict.{Dict, lookup, erase, alter, alter_all, append_row, drop_where}
use aws_ssm_kit.Errors.{
  Result, ok, err, app, Exec, lift, ◌>>=◌, configuration_error, ◌then_do◌, fail_with,
}
use aws_ssm_kit.Text.{Text, Runtime, same}
use aws_ssm_kit.Domain.Profile.{AwsProfile, aws_profile, require_id}
use aws_ssm_kit.Store.{Db}

-- `ORDER BY name`: by code points
unfoldable pub before : Text → Text → Bool
before [] [] = false
before [] (b ∷ t) = true
before (a ∷ s) [] = false
before (a ∷ s) (b ∷ t) = if ltb a b then true else a == b && before s t

-- `WHERE name = ?`
unfoldable pub find_name : Text → Dict AwsProfile → Option AwsProfile
find_name name [] = none
find_name name ((_, row) ∷ rows) = if same row.name name then some row else find_name name rows

-- `WHERE is_default = 1`
unfoldable pub find_default : Dict AwsProfile → Option AwsProfile
find_default [] = none
find_default ((_, row) ∷ rows) = if row.is_default then some row else find_default rows

-- the `UNIQUE` name, for a row with the key `k`
unfoldable pub name_taken : ℕ → Text → Dict AwsProfile → Bool
name_taken k name [] = false
name_taken k name ((j, row) ∷ rows) = not (j == k) && same row.name name || name_taken k name rows

-- `_profile(row)`, which runs the checks of the constructor
unfoldable pub read_row : Runtime → Option AwsProfile → Result (Option AwsProfile)
read_row u none = ok none
read_row u (some row) = aws_profile u row then_do λ p. ok (some p)

unfoldable pub get : Runtime → ℕ → Db → Result (Option AwsProfile)
get u profile_id db = read_row u (lookup profile_id db.profiles)

unfoldable pub get_by_name : Runtime → Text → Db → Result (Option AwsProfile)
get_by_name u name db = read_row u (find_name name db.profiles)

unfoldable pub get_default : Runtime → Db → Result (Option AwsProfile)
get_default u db = read_row u (find_default db.profiles)

-- the read that closes a write; a missing row raises
unfoldable pub reread : Runtime → String → ℕ → Exec Db AwsProfile
reread u code profile_id db = (
  get u profile_id db then_do elim [ none ↦ fail_with (configuration_error code) | some p ↦ ok p ],
  db,
)

-- the row that `create` inserts
abbrev pub new_row : ℕ → ℕ → Bool → AwsProfile → AwsProfile
new_row k now make_default p = record p {
  id = some k;
  is_default = make_default || p.is_default;
  created_at = some now;
  updated_at = some now;
}

abbrev pub is_nil : Dict AwsProfile → Bool
is_nil [] = true
is_nil (_ ∷ _) = false

-- A second default row breaks the index `only_one_default_profile`; the code reports either
-- integrity error as a duplicate name.
unfoldable pub create : Runtime → ℕ → AwsProfile → Exec Db AwsProfile
create u now p db =
    let k = db.last_profile + 1 in
    let row = new_row k now (is_nil db.profiles) p in
    if name_taken k p.name db.profiles || row.is_default && is_some (find_default db.profiles)
    then (err (app (configuration_error "profile.name.duplicate")), db)
    else reread u "profile.create.failed" k
        (record db { profiles = append_row k row db.profiles; last_profile = k })

-- the columns that `update` sets
abbrev pub updated_row : ℕ → AwsProfile → AwsProfile → AwsProfile
updated_row now p row = record row {
  name = p.name;
  region = p.region;
  account_id = p.account_id;
  user_id = p.user_id;
  mfa_arn = p.mfa_arn;
  mfa_enabled = p.mfa_enabled;
  session_hours = p.session_hours;
  encrypted_access_key = p.encrypted_access_key;
  encrypted_secret_key = p.encrypted_secret_key;
  updated_at = some now;
}

unfoldable pub update_at : Runtime → ℕ → AwsProfile → ℕ → Exec Db AwsProfile
update_at u now p k db =
    if not (is_some (lookup k db.profiles))
    then (err (app (configuration_error "profile.not_found")), db)
    else if name_taken k p.name db.profiles
    then (err (app (configuration_error "profile.name.duplicate")), db)
    else reread u "profile.update.failed" k
        (record db { profiles = alter k (updated_row now p) db.profiles })

unfoldable pub update : Runtime → ℕ → AwsProfile → Exec Db AwsProfile
unfolding update_at
update u now p = do k ← lift (require_id p); update_at u now p k

-- `SELECT id … ORDER BY name LIMIT 1`
unfoldable pub first_by_name : Dict AwsProfile → Option (ℕ × Text)
first_by_name [] = none
first_by_name ((k, row) ∷ rows) = elim (first_by_name rows) [
  | none ↦ some (k, row.name)
  | some (j, name) ↦ some (if before name row.name then (j, name) else (k, row.name))
]

abbrev pub made_default : AwsProfile → AwsProfile
made_default row = record row { is_default = true }

-- the new default when the default row is deleted
unfoldable pub promote_at : Option (ℕ × Text) → Dict AwsProfile → Dict AwsProfile
promote_at none rows = rows
promote_at (some (k, _)) rows = alter k made_default rows

unfoldable pub promote : Dict AwsProfile → Dict AwsProfile
unfolding promote_at
promote rows = promote_at (first_by_name rows) rows

-- `ON DELETE CASCADE` in the tables that refer to a profile
unfoldable pub cascade : ℕ → Db → Db
cascade k db = record db {
  sessions = drop_where (λ _ s. s.profile_id == k) db.sessions;
  tunnels = drop_where (λ _ t. t.profile_id == k) db.tunnels;
  locations = drop_where (λ _ l. l.profile_id == k) db.locations;
  drives = drop_where (λ _ d. d.profile_id == k) db.drives;
  secrets = drop_where (λ _ s. s.profile_id == k) db.secrets;
  favorites = keep (λ f. not (f.profile_id == k)) db.favorites;
}

unfoldable pub delete : ℕ → Exec Db (Unit {0})
unfolding promote cascade
delete k db = elim (lookup k db.profiles) [
  | none ↦ (err (app (configuration_error "profile.not_found")), db)
  | some row ↦
      let rest = erase k db.profiles in
      (ok tt, record (cascade k db) { profiles = if row.is_default then promote rest else rest })
]

-- the two `UPDATE`s of `set_default`
abbrev pub cleared : AwsProfile → AwsProfile
cleared row = record row { is_default = false }

abbrev pub chosen : ℕ → AwsProfile → AwsProfile
chosen now row = record row { is_default = true; updated_at = some now }

unfoldable pub set_default : Runtime → ℕ → ℕ → Exec Db AwsProfile
set_default u now k db =
    if not (is_some (lookup k db.profiles))
    then (err (app (configuration_error "profile.not_found")), db)
    else reread u "profile.not_found" k
        (record db { profiles = alter k (chosen now) (alter_all cleared db.profiles) })
