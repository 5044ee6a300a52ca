-- ===== src/Store/Tunnels.antt =====
-- The table `tunnel_sessions`. Its CHECK constraints hold of every `TunnelSession` that the
-- constructor returns.
use aws_ssm_kit.Base.{
  ℕ, ◌+◌, Bool, false, not, ◌&&◌, ◌||◌, Option, none, some, [], ◌∷◌, ◌==◌, is_some, if◌then◌else◌,
  String,
}
use aws_ssm_kit.Base.Dict.{Dict, lookup, erase, alter, append_row}
use aws_ssm_kit.Errors.{Result, ok, err, app, Exec, configuration_error, ◌then_do◌, fail_with}
use aws_ssm_kit.Text.{Text, Runtime, same}
use aws_ssm_kit.Domain.Tunnel.{TunnelSession, tunnel_session}
use aws_ssm_kit.Store.{Db}

-- `WHERE profile_id = ? AND name = ?`
unfoldable pub find_name : ℕ → Text → Dict TunnelSession → Option TunnelSession
find_name profile_id name [] = none
find_name profile_id name ((_, row) ∷ rows) =
    if row.profile_id == profile_id && same row.name name
    then some row
    else find_name profile_id name rows

-- `UNIQUE (profile_id, name)`, for a row with the key `k`
unfoldable pub name_taken : ℕ → ℕ → Text → Dict TunnelSession → Bool
name_taken k profile_id name [] = false
name_taken k profile_id name ((j, row) ∷ rows) =
    not (j == k) && (row.profile_id == profile_id && same row.name name)
    || name_taken k profile_id name rows

-- `_tunnel(row)`, which runs the checks of the constructor
unfoldable pub read_row : Runtime → Option TunnelSession → Result (Option TunnelSession)
read_row u none = ok none
read_row u (some row) = tunnel_session u row then_do λ t. ok (some t)

unfoldable pub get_tunnel : Runtime → ℕ → Db → Result (Option TunnelSession)
get_tunnel u id db = read_row u (lookup id db.tunnels)

unfoldable pub get_tunnel_by_name : Runtime → ℕ → Text → Db → Result (Option TunnelSession)
get_tunnel_by_name u profile_id name db = read_row u (find_name profile_id name db.tunnels)

unfoldable pub reread : Runtime → String → ℕ → Exec Db TunnelSession
reread u code id db = (
  get_tunnel u id db then_do elim [ none ↦ fail_with (configuration_error code) | some t ↦ ok t ],
  db,
)

abbrev pub new_row : ℕ → ℕ → TunnelSession → TunnelSession
new_row k now t = record t { id = some k; created_at = some now; updated_at = some now }

-- A name that the profile already uses breaks the uniqueness, a missing profile the foreign key.
unfoldable pub create_tunnel : Runtime → ℕ → TunnelSession → Exec Db TunnelSession
create_tunnel u now t db =
    let k = db.last_tunnel + 1 in
    if name_taken k t.profile_id t.name db.tunnels
    then (err (app (configuration_error "rds.session.name.duplicate")), db)
    else if not (is_some (lookup t.profile_id db.profiles))
    then (err (app (configuration_error "rds.session.persistence.invalid")), db)
    else reread u "rds.session.create.failed" k
        (record db { tunnels = append_row k (new_row k now t) db.tunnels; last_tunnel = k })

-- the columns that `update_tunnel` sets
abbrev pub updated_row : ℕ → TunnelSession → TunnelSession → TunnelSession
updated_row now t row = record row {
  name = t.name;
  host = t.host;
  remote_port = t.remote_port;
  local_port = t.local_port;
  target_mode = t.target_mode;
  target_instance_id = t.target_instance_id;
  session_hours = t.session_hours;
  updated_at = some now;
}

-- `WHERE id = ? AND profile_id = ?`
unfoldable pub has_row : ℕ → ℕ → Db → Bool
has_row k profile_id db = elim (lookup k db.tunnels) [
  | none ↦ false
  | some row ↦ row.profile_id == profile_id
]

-- `update_tunnel` of a tunnel with the id `k`
unfoldable pub update_tunnel : Runtime → ℕ → ℕ → TunnelSession → Exec Db TunnelSession
unfolding has_row
update_tunnel u now k t db =
    if not (has_row k t.profile_id db)
    then (err (app (configuration_error "rds.session.not_found")), db)
    else if name_taken k t.profile_id t.name db.tunnels
    then (err (app (configuration_error "rds.session.name.duplicate")), db)
    else reread u "rds.session.update.failed" k
        (record db { tunnels = alter k (updated_row now t) db.tunnels })

unfoldable pub delete_tunnel : ℕ → Exec Db (Unit {0})
delete_tunnel k db =
    if is_some (lookup k db.tunnels)
    then (ok tt, record db { tunnels = erase k db.tunnels })
    else (err (app (configuration_error "rds.session.not_found")), db)

abbrev pub touched : ℕ → ℕ → TunnelSession → TunnelSession
touched used_at now row = record row { last_used_at = some used_at; updated_at = some now }

unfoldable pub touch_tunnel : ℕ → ℕ → ℕ → Exec Db (Unit {0})
touch_tunnel used_at now k db =
    if is_some (lookup k db.tunnels)
    then (ok tt, record db { tunnels = alter k (touched used_at now) db.tunnels })
    else (err (app (configuration_error "rds.session.not_found")), db)
