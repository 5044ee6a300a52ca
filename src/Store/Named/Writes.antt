-- ===== src/Store/Named/Writes.antt =====
-- Sequences of writes of the tables that belong to a profile.
use aws_ssm_kit.Base.{ℕ, List, [], ◌∷◌}
use aws_ssm_kit.Errors.{Result, ok, err, lift, ◌>>=◌}
use aws_ssm_kit.Text.{Runtime}
use aws_ssm_kit.Domain.Tunnel.{TunnelSession}
use aws_ssm_kit.Domain.S3Location.{S3Location, require_location_id}
use aws_ssm_kit.Domain.S3Drive.{S3Drive}
use aws_ssm_kit.Domain.SavedSecret.{SavedSecret, require_secret_id}
use aws_ssm_kit.Store.{Db}
use aws_ssm_kit.Store.Tunnels as Tunnels
use aws_ssm_kit.Store.Locations as Locations
use aws_ssm_kit.Store.Drives as Drives
use aws_ssm_kit.Store.Secrets as Secrets
use aws_ssm_kit.Store.Profiles as Profiles
use aws_ssm_kit.Store.Named.Tables.{
  IsNamed, create_location-IsNamed, update_location-IsNamed, delete_location-IsNamed,
  create_tunnel-IsNamed, update_tunnel-IsNamed, delete_tunnel-IsNamed, touch_tunnel-IsNamed,
  save_drive-IsNamed, delete_drive-IsNamed, create_secret-IsNamed, update_secret-IsNamed,
  delete_secret-IsNamed, upsert_secret-IsNamed, delete_profile-IsNamed,
}

pub data Write : Type 0 where
  create_tunnel : TunnelSession → Write
  update_tunnel : ℕ → TunnelSession → Write
  create_location update_location : S3Location → Write
  save_drive : S3Drive → Write
  create_secret upsert_secret update_secret : SavedSecret → Write
  delete_tunnel delete_location delete_drive delete_secret delete_profile : ℕ → Write
  -- with the time of the use
  touch_tunnel : ℕ → ℕ → Write

-- a write at a time
pub write_row : Runtime → ℕ → Write → Db → Db
write_row u now (create_tunnel t) db = (Tunnels.create_tunnel u now t db).1
write_row u now (update_tunnel k t) db = (Tunnels.update_tunnel u now k t db).1
write_row u now (create_location l) db = (Locations.create_s3_location u now l db).1
write_row u now (update_location l) db = (Locations.update_s3_location u now l db).1
write_row u now (save_drive d) db = (Drives.save_drive u d db).1
write_row u now (create_secret s) db = (Secrets.create_saved_secret u s db).1
write_row u now (upsert_secret s) db = (Secrets.upsert_saved_secret u s db).1
write_row u now (update_secret s) db = (Secrets.update_saved_secret u s db).1
write_row u now (delete_tunnel k) db = (Tunnels.delete_tunnel k db).1
write_row u now (delete_location k) db = (Locations.delete_s3_location k db).1
write_row u now (delete_drive k) db = (Drives.delete_drive k db).1
write_row u now (delete_secret k) db = (Secrets.delete_saved_secret k db).1
write_row u now (delete_profile k) db = (Profiles.delete k db).1
write_row u now (touch_tunnel used k) db = (Tunnels.touch_tunnel used now k db).1

pub write_rows : Runtime → List (ℕ × Write) → Db → Db
write_rows u [] db = db
write_rows u ((now, write) ∷ rest) db = write_rows u rest (write_row u now write db)

update_by_id-IsNamed :
    (u : Runtime) (now : ℕ) (l : S3Location) (db : Db)
    → IsNamed db
    → IsNamed (Locations.update_s3_location u now l db).1
unfolding Locations.update_s3_location ◌>>=◌
update_by_id-IsNamed u now l db v = go (require_location_id l)
  where
    go : (r : Result ℕ) → IsNamed ((lift r >>= λ k. Locations.update_location_at u now k l) db).1
    go (ok k) = update_location-IsNamed u now k l db v
    go (err x) = v

secret_by_id-IsNamed :
    (u : Runtime) (s : SavedSecret) (db : Db)
    → IsNamed db
    → IsNamed (Secrets.update_saved_secret u s db).1
unfolding Secrets.update_saved_secret ◌>>=◌
secret_by_id-IsNamed u s db v = go (require_secret_id s)
  where
    go : (r : Result ℕ) → IsNamed ((lift r >>= λ k. Secrets.update_secret_at u k s) db).1
    go (ok k) = update_secret-IsNamed u k s db v
    go (err x) = v

write_row-IsNamed :
    (u : Runtime) (now : ℕ) (write : Write) (db : Db)
    → IsNamed db
    → IsNamed (write_row u now write db)
unfolding write_row
write_row-IsNamed u now (create_tunnel t) db v = create_tunnel-IsNamed u now t db v
write_row-IsNamed u now (update_tunnel k t) db v = update_tunnel-IsNamed u now k t db v
write_row-IsNamed u now (create_location l) db v = create_location-IsNamed u now l db v
write_row-IsNamed u now (update_location l) db v = update_by_id-IsNamed u now l db v
write_row-IsNamed u now (save_drive d) db v = save_drive-IsNamed u d db v
write_row-IsNamed u now (create_secret s) db v = create_secret-IsNamed u s db v
write_row-IsNamed u now (upsert_secret s) db v = upsert_secret-IsNamed u s db v
write_row-IsNamed u now (update_secret s) db v = secret_by_id-IsNamed u s db v
write_row-IsNamed u now (delete_tunnel k) db v = delete_tunnel-IsNamed k db v
write_row-IsNamed u now (delete_location k) db v = delete_location-IsNamed k db v
write_row-IsNamed u now (delete_drive k) db v = delete_drive-IsNamed k db v
write_row-IsNamed u now (delete_secret k) db v = delete_secret-IsNamed k db v
write_row-IsNamed u now (delete_profile k) db v = delete_profile-IsNamed k db v
write_row-IsNamed u now (touch_tunnel used k) db v = touch_tunnel-IsNamed used now k db v

-- After any sequence of writes of saved tunnels, locations, drives and secrets and of deletions of
-- profiles, failing ones included: in each table no key is listed twice or was not given out yet,
-- and no two rows of a profile have the same name (for a secret, the same identifier).
pub write_rows-IsNamed :
    (u : Runtime) (writes : List (ℕ × Write)) (db : Db)
    → IsNamed db
    → IsNamed (write_rows u writes db)
unfolding write_rows
write_rows-IsNamed u [] db v = v
write_rows-IsNamed u ((now, write) ∷ rest) db v =
    write_rows-IsNamed u rest (write_row u now write db) (write_row-IsNamed u now write db v)
