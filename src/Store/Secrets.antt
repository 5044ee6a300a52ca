-- ===== src/Store/Secrets.antt =====
-- The table `saved_secrets`. The model counts a key up in each upsert, also where it meets a row.
use aws_ssm_kit.Base.{
  ℕ, ◌+◌, Bool, false, not, Option, none, some, List, [], ◌∷◌, ◌==◌, is_some, if◌then◌else◌, String,
}
use aws_ssm_kit.Base.Dict.{Dict, lookup, erase, alter, append_row}
use aws_ssm_kit.Errors.{
  Result, ok, err, app, Exec, lift, ◌>>=◌, configuration_error, ◌then_do◌, fail_with,
}
use aws_ssm_kit.Text.{Text, Runtime}
use aws_ssm_kit.Domain.SavedSecret.{SavedSecret, saved_secret, require_secret_id}
use aws_ssm_kit.Store.{Db}
use aws_ssm_kit.Store.Named.{Named, is_named, find_named, taken, ordered}
use aws_ssm_kit.Store.Locations.{read_all}

abbrev pub secret_names : Named SavedSecret
secret_names = record { key = λ s. s.id; owner = λ s. s.profile_id; label = λ s. s.identifier }

-- `_saved_secret(row)`, which runs the checks of the constructor
unfoldable pub read_secret : Runtime → Option SavedSecret → Result (Option SavedSecret)
read_secret u none = ok none
read_secret u (some row) = saved_secret u row then_do λ s. ok (some s)

unfoldable pub list_saved_secrets : Runtime → ℕ → Db → Result (List SavedSecret)
unfolding ordered read_all
list_saved_secrets u profile_id db =
    read_all (saved_secret u) (ordered secret_names (λ s. s.profile_id == profile_id) db.secrets)

unfoldable pub get_saved_secret : Runtime → ℕ → Db → Result (Option SavedSecret)
get_saved_secret u id db = read_secret u (lookup id db.secrets)

unfoldable pub get_saved_secret_by_identifier :
    Runtime → ℕ → Text → Db → Result (Option SavedSecret)
get_saved_secret_by_identifier u profile_id identifier db =
    read_secret u (find_named secret_names profile_id identifier db.secrets)

unfoldable pub reread_secret : Runtime → String → Result (Option SavedSecret) → Result SavedSecret
reread_secret u code found =
    found then_do elim [ none ↦ fail_with (configuration_error code) | some s ↦ ok s ]

abbrev pub secret_row : ℕ → SavedSecret → SavedSecret
secret_row k s = record s { id = some k }

unfoldable pub create_saved_secret : Runtime → SavedSecret → Exec Db SavedSecret
unfolding reread_secret
create_saved_secret u s db =
    let k = db.last_secret + 1 in
    if taken secret_names k s.profile_id s.identifier db.secrets
    then (err (app (configuration_error "secret.saved.identifier.duplicate")), db)
    else if not (is_some (lookup s.profile_id db.profiles))
    then (err (app (configuration_error "secret.saved.persistence.invalid")), db)
    else let db' = record db {
      secrets = append_row k (secret_row k s) db.secrets;
      last_secret = k;
    } in
      (reread_secret u "secret.saved.create.failed" (get_saved_secret u k db'), db')

-- the columns that the upsert sets on a row that is there
abbrev pub refreshed : SavedSecret → SavedSecret → SavedSecret
refreshed s row = record row {
  value = s.value;
  lookup_mode = s.lookup_mode;
  relay_instance_id = s.relay_instance_id;
  last_retrieved_at = elim s.last_retrieved_at [
    | none ↦ row.last_retrieved_at
    | some at_time ↦ some at_time
  ];
}

-- the row of a profile with an identifier
unfoldable pub key_of : ℕ → Text → Dict SavedSecret → Option ℕ
key_of profile_id identifier [] = none
key_of profile_id identifier ((k, row) ∷ rows) =
    if is_named secret_names profile_id identifier row
    then some k
    else key_of profile_id identifier rows

-- the rows after the statement of `upsert_saved_secret`
unfoldable pub upserted : ℕ → SavedSecret → Option ℕ → Dict SavedSecret → Dict SavedSecret
upserted k s none rows = append_row k (secret_row k s) rows
upserted k s (some j) rows = alter j (refreshed s) rows

-- the read in the same transaction: where it raises, the write is rolled back
unfoldable pub upsert_saved_secret : Runtime → SavedSecret → Exec Db SavedSecret
unfolding upserted reread_secret
upsert_saved_secret u s db =
    if not (is_some (lookup s.profile_id db.profiles))
    then (err (app (configuration_error "secret.saved.persistence.invalid")), db)
    else let k = db.last_secret + 1 in
      let rows = upserted k s (key_of s.profile_id s.identifier db.secrets) db.secrets in
      let db' = record db { secrets = rows; last_secret = k } in
      elim (reread_secret u "secret.saved.upsert.failed"
        (get_saved_secret_by_identifier u s.profile_id s.identifier db')) [
          | ok row ↦ (ok row, db')
          | err x ↦ (err x, db)
        ]

-- the columns that `update_saved_secret` sets
abbrev pub updated_secret : SavedSecret → SavedSecret → SavedSecret
updated_secret s row = record row {
  identifier = s.identifier;
  value = s.value;
  lookup_mode = s.lookup_mode;
  relay_instance_id = s.relay_instance_id;
}

-- `WHERE id = ? AND profile_id = ?`
unfoldable pub has_secret : ℕ → ℕ → Db → Bool
has_secret k profile_id db = elim (lookup k db.secrets) [
  | none ↦ false
  | some row ↦ row.profile_id == profile_id
]

unfoldable pub update_secret_at : Runtime → ℕ → SavedSecret → Exec Db SavedSecret
unfolding has_secret reread_secret
update_secret_at u k s db =
    if not (has_secret k s.profile_id db)
    then (err (app (configuration_error "secret.saved.not_found")), db)
    else if taken secret_names k s.profile_id s.identifier db.secrets
    then (err (app (configuration_error "secret.saved.identifier.duplicate")), db)
    else let db' = record db { secrets = alter k (updated_secret s) db.secrets } in
      (reread_secret u "secret.saved.update.failed" (get_saved_secret u k db'), db')

unfoldable pub update_saved_secret : Runtime → SavedSecret → Exec Db SavedSecret
unfolding update_secret_at
update_saved_secret u s = do k ← lift (require_secret_id s); update_secret_at u k s

unfoldable pub delete_saved_secret : ℕ → Exec Db (Unit {0})
delete_saved_secret k db =
    if is_some (lookup k db.secrets)
    then (ok tt, record db { secrets = erase k db.secrets })
    else (err (app (configuration_error "secret.saved.not_found")), db)
