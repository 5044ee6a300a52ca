-- ===== src/Application/Secrets/Saved.antt =====
-- application/secrets_service.py: the saved lookups of `SecretsService`, for a service that has a
-- store of them.
use aws_ssm_kit.Base.{
  ℕ, Bool, true, false, ◌||◌, Option, none, some, List, [], ◌==◌, is_some, if◌then◌else◌, str_eq,
}
use aws_ssm_kit.Errors.{
  ApplicationError, Result, ok, Exec, pure, lift, raise, rescue, ◌>>=◌, ◌then_do◌, fail_with,
  raised, configuration,
}
use aws_ssm_kit.Text.{Text, Runtime}
use aws_ssm_kit.Domain.Profile.{require_id}
use aws_ssm_kit.Domain.SavedSecret.{SavedSecret, SecretLookupMode, saved_secret}
use aws_ssm_kit.Store.{Db}
use aws_ssm_kit.Store.Secrets as Store
use aws_ssm_kit.Application.Env.{Ports, Env, query, write}
use aws_ssm_kit.Application.Profiles.{Selector, resolve}
use aws_ssm_kit.Application.Secrets.{JsonPorts, SecretResult, parse}

abbrev pub saved_not_found : ApplicationError
saved_not_found = raised configuration "secret.saved.not_found" "Saved Secret was not found"

unfoldable pub owner_id : Runtime → Selector → Db → Result ℕ
owner_id u selector db = resolve u selector db then_do require_id

-- the keyword arguments of `remember`
pub record Snapshot : Type 0 where
  pub value : Option Text
  pub lookup_mode : Option SecretLookupMode
  pub relay_instance_id : Option Text
  pub last_retrieved_at : Option ℕ

abbrev pub has_lookup_snapshot : Snapshot → Bool
has_lookup_snapshot s = is_some s.value || is_some s.lookup_mode || is_some s.relay_instance_id

abbrev pub candidate : ℕ → Text → Snapshot → SavedSecret
candidate profile_id identifier s = record {
  id = none;
  profile_id = profile_id;
  identifier = identifier;
  value = elim s.value [ none ↦ [] | some v ↦ v ];
  lookup_mode = elim s.lookup_mode [ none ↦ SecretLookupMode.direct | some m ↦ m ];
  relay_instance_id = s.relay_instance_id;
  last_retrieved_at = s.last_retrieved_at;
}

-- a row of another profile is not found
unfoldable pub own_saved : ℕ → Option SavedSecret → Result SavedSecret
own_saved profile_id none = fail_with saved_not_found
own_saved profile_id (some s) =
    if s.profile_id == profile_id then ok s else fail_with saved_not_found

-- the reads with which `update_saved`, `load_saved` and `delete_saved` begin
unfoldable pub find_saved : Runtime → ℕ → Selector → Db → Result SavedSecret
unfolding owner_id own_saved
find_saved u id selector db = owner_id u selector db then_do λ profile_id.
    Store.get_saved_secret u id db then_do own_saved profile_id

-- `load_saved`
unfoldable pub load_saved :
    Runtime → JsonPorts → ℕ → Selector → Db → Result (SavedSecret × SecretResult)
unfolding find_saved parse
load_saved u j id selector db = find_saved u id selector db then_do λ existing. ok (
  existing,
  record (parse u j existing.identifier existing.value none []) {
    retrieved_at = existing.last_retrieved_at;
  },
)

-- `list_saved`
unfoldable pub list_saved : Runtime → Selector → Db → Result (List SavedSecret)
unfolding owner_id
list_saved u selector db =
    owner_id u selector db then_do λ profile_id. Store.list_saved_secrets u profile_id db

module _ {W : Type 0} (p : Ports W) where
  -- the read after a creation that met a row with the same identifier
  unfoldable pub reread_duplicate : SavedSecret → ApplicationError → Exec (Env W) SavedSecret
  unfolding query
  reread_duplicate s e = do
    concurrent ← query (Store.get_saved_secret_by_identifier p.runtime s.profile_id s.identifier)
    elim concurrent [ none ↦ raise e | some row ↦ pure row ]

  -- `remember` without a snapshot
  unfoldable pub create_or_find : SavedSecret → Option SavedSecret → Exec (Env W) SavedSecret
  unfolding write reread_duplicate
  create_or_find s (some existing) = pure existing
  create_or_find s none =
      rescue (write (Store.create_saved_secret p.runtime s))
        (λ e. str_eq e.message_code "secret.saved.identifier.duplicate") (reread_duplicate s)

  unfoldable pub remember_candidate : Bool → SavedSecret → Exec (Env W) SavedSecret
  unfolding query write create_or_find
  remember_candidate true s = write (Store.upsert_saved_secret p.runtime s)
  remember_candidate false s = do
    existing ← query (Store.get_saved_secret_by_identifier p.runtime s.profile_id s.identifier)
    create_or_find s existing

  -- `remember`
  unfoldable pub remember : Text → Selector → Snapshot → Exec (Env W) SavedSecret
  unfolding query owner_id remember_candidate
  remember identifier selector s = do
    profile_id ← query (owner_id p.runtime selector)
    made ← lift (saved_secret p.runtime (candidate profile_id identifier s))
    remember_candidate (has_lookup_snapshot s) made

  -- `update_saved`
  unfoldable pub update_saved : ℕ → Text → Selector → Option Text → Exec (Env W) SavedSecret
  unfolding query write find_saved
  update_saved id identifier selector value = do
    existing ← query (find_saved p.runtime id selector)
    changed ← lift (
        saved_secret p.runtime (record existing {
          id = some id;
          identifier = identifier;
          value = elim value [ none ↦ existing.value | some v ↦ v ];
        }))
    write (Store.update_saved_secret p.runtime changed)

  -- `delete_saved`
  unfoldable pub delete_saved : ℕ → Selector → Exec (Env W) (Unit {0})
  unfolding query write find_saved
  delete_saved id selector = do
    existing ← query (find_saved p.runtime id selector)
    write (Store.delete_saved_secret id)
