-- ===== src/Store/Drives.antt =====
-- The table `s3_drives`. `save_drive` reports every error of the database as `drive.storage.failed`.
pub mod Refines
use aws_ssm_kit.Base.{
  ℕ, ◌+◌, Bool, false, true, not, ◌||◌, Option, none, some, List, ◌==◌, is_some, if◌then◌else◌,
}
use aws_ssm_kit.Base.Dict.{lookup, erase, alter, append_row}
use aws_ssm_kit.Errors.{Result, ok, err, app, raised, configuration, Exec, ◌then_do◌}
use aws_ssm_kit.Text.{Runtime}
use aws_ssm_kit.Domain.S3Drive.{S3Drive, s3_drive}
use aws_ssm_kit.Store.{Db}
use aws_ssm_kit.Store.Named.{Named, taken, ordered}
use aws_ssm_kit.Store.Locations.{read_all}

abbrev pub drive_names : Named S3Drive
drive_names = record { key = λ d. d.id; owner = λ d. d.profile_id; label = λ d. d.name }

-- `? IS NULL OR profile_id = ?`
abbrev pub is_wanted : Option ℕ → S3Drive → Bool
is_wanted none d = true
is_wanted (some profile_id) d = d.profile_id == profile_id

unfoldable pub list_drives : Runtime → Option ℕ → Db → Result (List S3Drive)
unfolding ordered read_all
list_drives u profile_id db =
    read_all (s3_drive u) (ordered drive_names (is_wanted profile_id) db.drives)

-- `S3Drive(**dict(row))`, which runs the checks of the constructor
unfoldable pub read_drive : Runtime → Option S3Drive → Result (Option S3Drive)
read_drive u none = ok none
read_drive u (some row) = s3_drive u row then_do λ d. ok (some d)

unfoldable pub get_drive : Runtime → ℕ → Db → Result (Option S3Drive)
get_drive u id db = read_drive u (lookup id db.drives)

-- the row of a drive
abbrev pub drive_row : ℕ → S3Drive → S3Drive
drive_row k d = record d { id = some k }

-- `WHERE id = ? AND profile_id = ?`
unfoldable pub has_drive : ℕ → ℕ → Db → Bool
has_drive k profile_id db = elim (lookup k db.drives) [
  | none ↦ false
  | some row ↦ row.profile_id == profile_id
]

unfoldable pub insert_drive : Runtime → S3Drive → Exec Db S3Drive
insert_drive u d db =
    let k = db.last_drive + 1 in
    if taken drive_names k d.profile_id d.name db.drives
      || not (is_some (lookup d.profile_id db.profiles))
    then (
      err (app (raised configuration "drive.storage.failed" "Check drive name and profile")),
      db,
    )
    else (
      s3_drive u (drive_row k d),
      record db { drives = append_row k (drive_row k d) db.drives; last_drive = k },
    )

unfoldable pub update_drive : Runtime → ℕ → S3Drive → Exec Db S3Drive
unfolding has_drive
update_drive u k d db =
    if not (has_drive k d.profile_id db)
    then (err (app (raised configuration "drive.not_found" "Drive update target missing")), db)
    else if taken drive_names k d.profile_id d.name db.drives
    then (
      err (app (raised configuration "drive.storage.failed" "Check drive name and profile")),
      db,
    )
    else (s3_drive u (drive_row k d), record db { drives = alter k (λ _. drive_row k d) db.drives })

unfoldable pub save_drive : Runtime → S3Drive → Exec Db S3Drive
unfolding insert_drive update_drive
save_drive u d = elim d.id [ none ↦ insert_drive u d | some k ↦ update_drive u k d ]

unfoldable pub delete_drive : ℕ → Exec Db (Unit {0})
delete_drive k db = (ok tt, record db { drives = erase k db.drives })
