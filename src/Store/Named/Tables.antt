-- ===== src/Store/Named/Tables.antt =====
-- The invariant of the tables of saved tunnels, locations, drives and secrets.
use aws_ssm_kit.Base.{
  ℕ, ◌+◌, ◌≡◌, refl, false, Option, none, some, [], ◌∷◌, arith, Option-cases, inl, inr, ◌==◌,
}
use aws_ssm_kit.Base.Dict.{Dict, lookup}
use aws_ssm_kit.Text.{Text, Runtime}
use aws_ssm_kit.Domain.Tunnel.{TunnelSession}
use aws_ssm_kit.Domain.S3Location.{S3Location}
use aws_ssm_kit.Domain.S3Drive.{S3Drive}
use aws_ssm_kit.Domain.SavedSecret.{SavedSecret}
use aws_ssm_kit.Store.{Db}
use aws_ssm_kit.Store.Tunnels.{
  create_tunnel, update_tunnel, delete_tunnel, touch_tunnel, name_taken, new_row, updated_row,
  touched, has_row, reread,
}
use aws_ssm_kit.Store.Locations.{
  location_names, create_s3_location, update_location_at, delete_s3_location, new_location,
  updated_location, has_location, reread_location,
}
use aws_ssm_kit.Store.Drives.{
  drive_names, save_drive, insert_drive, update_drive, delete_drive, drive_row, has_drive,
}
use aws_ssm_kit.Store.Secrets.{
  secret_names, create_saved_secret, upsert_saved_secret, update_secret_at, delete_saved_secret,
  secret_row, refreshed, updated_secret, has_secret, upserted, key_of,
}
use aws_ssm_kit.Store.Profiles.{delete, cascade}
use aws_ssm_kit.Store.Named.{Named, taken}
use aws_ssm_kit.Store.Named.Sound.{
  IsKept, append_row-IsKept, erase-IsKept, drop_where-IsKept, alter-IsKept, alter_other-IsKept,
  IsKept-later,
}

abbrev pub tunnel_names : Named TunnelSession
tunnel_names = record { key = λ t. t.id; owner = λ t. t.profile_id; label = λ t. t.name }

name_taken_lem :
    (k profile_id : ℕ) (name : Text) (d : Dict TunnelSession)
    → name_taken k profile_id name d ≡ taken tunnel_names k profile_id name d
unfolding name_taken taken
name_taken_lem k profile_id name [] = refl
name_taken_lem k profile_id name ((j, row) ∷ d) = ground (arith, name_taken_lem k profile_id name d)

pub record IsNamed (db : Db) : Type 0 where
  pub tunnels_kept : IsKept tunnel_names db.tunnels db.last_tunnel
  pub locations_kept : IsKept location_names db.locations db.last_location
  pub drives_kept : IsKept drive_names db.drives db.last_drive
  pub secrets_kept : IsKept secret_names db.secrets db.last_secret

pub create_location-IsNamed :
    (u : Runtime) (now : ℕ) (l : S3Location) (db : Db)
    → IsNamed db
    → IsNamed (create_s3_location u now l db).1
unfolding create_s3_location reread_location
create_location-IsNamed u now l db v = ground (
  arith,
  append_row-IsKept location_names (new_location (db.last_location + 1) now l) db.locations
      db.last_location,
)

pub update_location-IsNamed :
    (u : Runtime) (now k : ℕ) (l : S3Location) (db : Db)
    → IsNamed db
    → IsNamed (update_location_at u now k l db).1
unfolding update_location_at reread_location has_location
update_location-IsNamed u now k l db v = elim (Option-cases (lookup k db.locations)) [
  | inl missing ↦ rw (missing, has_location) v
  | inr (row, found) ↦ ground (
    arith,
    found,
    v.locations_kept.keyed k row found,
    alter-IsKept location_names k (updated_location now l) row db.locations db.last_location,
  )
]

pub delete_location-IsNamed : (k : ℕ) (db : Db) → IsNamed db → IsNamed (delete_s3_location k db).1
unfolding delete_s3_location
delete_location-IsNamed k db v =
    ground (arith, erase-IsKept location_names k db.locations db.last_location v.locations_kept)

pub create_tunnel-IsNamed :
    (u : Runtime) (now : ℕ) (t : TunnelSession) (db : Db)
    → IsNamed db
    → IsNamed (create_tunnel u now t db).1
unfolding create_tunnel reread
create_tunnel-IsNamed u now t db v = ground (
  arith,
  name_taken_lem (db.last_tunnel + 1) t.profile_id t.name db.tunnels,
  append_row-IsKept tunnel_names (new_row (db.last_tunnel + 1) now t) db.tunnels db.last_tunnel,
)

pub update_tunnel-IsNamed :
    (u : Runtime) (now k : ℕ) (t : TunnelSession) (db : Db)
    → IsNamed db
    → IsNamed (update_tunnel u now k t db).1
unfolding update_tunnel reread has_row
update_tunnel-IsNamed u now k t db v = elim (Option-cases (lookup k db.tunnels)) [
  | inl missing ↦ rw (missing, has_row) v
  | inr (row, found) ↦ ground (
    arith,
    found,
    name_taken_lem k t.profile_id t.name db.tunnels,
    v.tunnels_kept.keyed k row found,
    alter-IsKept tunnel_names k (updated_row now t) row db.tunnels db.last_tunnel,
  )
]

pub delete_tunnel-IsNamed : (k : ℕ) (db : Db) → IsNamed db → IsNamed (delete_tunnel k db).1
unfolding delete_tunnel
delete_tunnel-IsNamed k db v =
    ground (arith, erase-IsKept tunnel_names k db.tunnels db.last_tunnel v.tunnels_kept)

pub touch_tunnel-IsNamed :
    (used now k : ℕ) (db : Db) → IsNamed db → IsNamed (touch_tunnel used now k db).1
unfolding touch_tunnel
touch_tunnel-IsNamed used now k db v =
    let kept =
      alter_other-IsKept tunnel_names k (touched used now) db.tunnels db.last_tunnel (λ w. refl)
        (λ w. refl) (λ w. refl) v.tunnels_kept in
    ground arith

insert_drive-IsNamed :
    (u : Runtime) (d : S3Drive) (db : Db) → IsNamed db → IsNamed (insert_drive u d db).1
unfolding insert_drive
insert_drive-IsNamed u d db v =
    ground (
      arith,
      append_row-IsKept drive_names (drive_row (db.last_drive + 1) d) db.drives db.last_drive,
    )

update_drive-IsNamed :
    (u : Runtime) (k : ℕ) (d : S3Drive) (db : Db) → IsNamed db → IsNamed (update_drive u k d db).1
unfolding update_drive has_drive
update_drive-IsNamed u k d db v = elim (Option-cases (lookup k db.drives)) [
  | inl missing ↦ rw (missing, has_drive) v
  | inr (row, found) ↦ ground (
    arith,
    found,
    v.drives_kept.keyed k row found,
    alter-IsKept drive_names k (λ _. drive_row k d) row db.drives db.last_drive,
  )
]

pub save_drive-IsNamed :
    (u : Runtime) (d : S3Drive) (db : Db) → IsNamed db → IsNamed (save_drive u d db).1
unfolding save_drive
save_drive-IsNamed u d db v = go d.id refl
  where
    go : (o : Option ℕ) → d.id ≡ o → IsNamed (save_drive u d db).1
    go none e = rw (e, save_drive) (insert_drive-IsNamed u d db v)
    go (some k) e = rw (e, save_drive) (update_drive-IsNamed u k d db v)

pub delete_drive-IsNamed : (k : ℕ) (db : Db) → IsNamed db → IsNamed (delete_drive k db).1
unfolding delete_drive
delete_drive-IsNamed k db v = record {
  tunnels_kept = v.tunnels_kept;
  locations_kept = v.locations_kept;
  drives_kept = erase-IsKept drive_names k db.drives db.last_drive v.drives_kept;
  secrets_kept = v.secrets_kept;
}

pub create_secret-IsNamed :
    (u : Runtime) (s : SavedSecret) (db : Db) → IsNamed db → IsNamed (create_saved_secret u s db).1
unfolding create_saved_secret
create_secret-IsNamed u s db v = ground (
  arith,
  append_row-IsKept secret_names (secret_row (db.last_secret + 1) s) db.secrets db.last_secret,
)

pub update_secret-IsNamed :
    (u : Runtime) (k : ℕ) (s : SavedSecret) (db : Db)
    → IsNamed db
    → IsNamed (update_secret_at u k s db).1
unfolding update_secret_at has_secret
update_secret-IsNamed u k s db v = elim (Option-cases (lookup k db.secrets)) [
  | inl missing ↦ rw (missing, has_secret) v
  | inr (row, found) ↦ ground (
    arith,
    found,
    v.secrets_kept.keyed k row found,
    alter-IsKept secret_names k (updated_secret s) row db.secrets db.last_secret,
  )
]

pub delete_secret-IsNamed : (k : ℕ) (db : Db) → IsNamed db → IsNamed (delete_saved_secret k db).1
unfolding delete_saved_secret
delete_secret-IsNamed k db v =
    ground (arith, erase-IsKept secret_names k db.secrets db.last_secret v.secrets_kept)

-- An identifier that no row has is free.
key_of-none :
    (k profile_id : ℕ) (identifier : Text) (d : Dict SavedSecret)
    → key_of profile_id identifier d ≡ none
    → taken secret_names k profile_id identifier d ≡ false
unfolding key_of taken
key_of-none k profile_id identifier [] h = refl
key_of-none k profile_id identifier ((j, row) ∷ d) h =
    ground (arith, key_of-none k profile_id identifier d)

upserted-IsKept :
    (s : SavedSecret) (o : Option ℕ) (db : Db)
    → key_of s.profile_id s.identifier db.secrets ≡ o
    → IsNamed db
    → IsKept secret_names (upserted (db.last_secret + 1) s o db.secrets) (db.last_secret + 1)
unfolding upserted
upserted-IsKept s none db h v =
    append_row-IsKept secret_names (secret_row (db.last_secret + 1) s) db.secrets db.last_secret
      refl (key_of-none (db.last_secret + 1) s.profile_id s.identifier db.secrets h) v.secrets_kept
upserted-IsKept s (some j) db h v = IsKept-later secret_names _ db.last_secret (
    alter_other-IsKept secret_names j (refreshed s) db.secrets db.last_secret (λ w. refl)
      (λ w. refl) (λ w. refl) v.secrets_kept)

pub upsert_secret-IsNamed :
    (u : Runtime) (s : SavedSecret) (db : Db) → IsNamed db → IsNamed (upsert_saved_secret u s db).1
unfolding upsert_saved_secret
upsert_secret-IsNamed u s db v =
    let kept = upserted-IsKept s (key_of s.profile_id s.identifier db.secrets) db refl v in
    ground arith

pub delete_profile-IsNamed : (k : ℕ) (db : Db) → IsNamed db → IsNamed (delete k db).1
unfolding delete cascade
delete_profile-IsNamed k db v =
    let t =
      drop_where-IsKept tunnel_names (λ _ r. r.profile_id == k) db.tunnels db.last_tunnel
        v.tunnels_kept in
    let l =
      drop_where-IsKept location_names (λ _ r. r.profile_id == k) db.locations db.last_location
        v.locations_kept in
    let d =
      drop_where-IsKept drive_names (λ _ r. r.profile_id == k) db.drives db.last_drive
        v.drives_kept in
    let s =
      drop_where-IsKept secret_names (λ _ r. r.profile_id == k) db.secrets db.last_secret
        v.secrets_kept in
    ground arith
