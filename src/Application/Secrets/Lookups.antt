-- ===== src/Application/Secrets/Lookups.antt =====
-- application/secrets_service.py: the lookups of `SecretsService`, for a service with all its
-- gateways and a store of saved lookups. The gateways are the parameter `SecretPorts`; a lookup
-- without a context has one that nobody cancels. Progress reports only show.
pub mod Confirmed
use aws_ssm_kit.Base.{
  ℕ, Bool, true, false, not, ◌||◌, Option, none, some, List, [], ◌∷◌, map, keep, ◌&&◌, is_some,
  if◌then◌else◌, String,
}
use aws_ssm_kit.Errors.{
  ErrorType, ApplicationError, Result, ok, err, Failure, Exec, pure, lift, raise, raise_if, rescue,
  ◌>>=◌, ◌>>◌, raised, configuration,
}
use aws_ssm_kit.Text.{Text, Runtime, codes, is_empty, trim, same, has_char}
use aws_ssm_kit.Domain.Profile.{AwsProfile, require_id, PlainCredentials}
use aws_ssm_kit.Domain.SavedSecret.{SecretLookupMode}
use aws_ssm_kit.Application.Env.{Ports, Env, call, ask, query, record_event}
use aws_ssm_kit.Application.Logging.{success, logged_operation}
use aws_ssm_kit.Application.Operations.{OperationContext}
use aws_ssm_kit.Application.Profiles.{Selector, by_id, resolve}
use aws_ssm_kit.Application.Sessions.{require_credentials}
use aws_ssm_kit.Application.Secrets.{
  Json, Members, object, no_members, member, scalar, string, JsonPorts, SecretKind, SecretResult,
  parse,
}
use aws_ssm_kit.Application.Secrets.Commands.{validate_remote_secret_id, supported_platform}
use aws_ssm_kit.Application.Secrets.Saved.{remember}

pub record ManagedInstance : Type 0 where
  pub instance_id : Text
  pub ping_status : Text
  pub platform_name : Option Text

pub record RetrievedSecret : Type 0 where
  pub secret_id : Text
  pub secret_string : Text
  pub version_id : Option Text
  pub version_stages : List Text

pub record ListedSecret : Type 0 where
  pub name : Text
  pub arn : Text

pub record SecretRelayTarget : Type 0 where
  pub instance_id : Text
  pub platform_name : Text
  pub name : Option Text

pub record SecretPorts (W : Type 0) : Type 0 where
  pub json : JsonPorts
  -- `json.dumps` with the separators of `save_top_level_field`
  pub dumps_compact : Json → Text
  pub is_cancelled : ℕ → W → Bool
  pub get_secret_value : PlainCredentials → Text → Text → Exec W RetrievedSecret
  pub list_secrets : PlainCredentials → Text → Exec W (List ListedSecret)
  pub put_secret_value : PlainCredentials → Text → Text → Text → Exec W (Option Text)
  pub list_online : PlainCredentials → Text → Exec W (List ManagedInstance)
  -- the names of instances
  pub describe : PlainCredentials → Text → List Text → Exec W (Text → Option Text)
  -- with the token of the cancellation
  pub get_remote_value : PlainCredentials → Text → Text → Text → Text → ℕ → Exec W RetrievedSecret

-- the first instance with an id that is online
unfoldable pub find_online : Text → List ManagedInstance → Option ManagedInstance
find_online id [] = none
find_online id (i ∷ rest) =
    if same i.instance_id id && same i.ping_status (codes "Online")
    then some i
    else find_online id rest

abbrev pub config : String → String → ApplicationError
config code cause = raised configuration code cause

unfoldable pub relay_on : Runtime → Text → Text → Result SecretRelayTarget
relay_on u id platform =
    if is_empty platform || not (supported_platform u platform)
    then err (
        Failure.app (
          config "secret.relay.platform.unsupported"
            "The selected EC2 relay platform is unavailable"))
    else ok (record { instance_id = id; platform_name = platform; name = none })

unfoldable pub relay_of : Runtime → Option ManagedInstance → Result SecretRelayTarget
unfolding relay_on
relay_of u none = err (
    Failure.app (
      config "secret.relay.instance.not_online"
        "The selected EC2 relay is not an Online SSM managed node"))
relay_of u (some i) =
    relay_on u i.instance_id (elim i.platform_name [ none ↦ [] | some name ↦ name ])

-- `path in document`, and `document[path] = value`
unfoldable pub has_member : Text → Members → Bool
has_member path no_members = false
has_member path (member name v ms) = same name path || has_member path ms

unfoldable pub put_member : Text → Json → Members → Members
put_member path value no_members = member path value no_members
put_member path value (member name v ms) =
    if same name path then member name value ms else member name v (put_member path value ms)

abbrev is_available : ManagedInstance → Bool
is_available i =
    same i.ping_status (codes "Online")
    && elim i.platform_name [ none ↦ false | some name ↦ not (is_empty name) ]

abbrev target_of : (Text → Option Text) → ManagedInstance → SecretRelayTarget
target_of metadata i = record {
  instance_id = i.instance_id;
  platform_name = elim i.platform_name [ none ↦ [] | some name ↦ name ];
  name = metadata i.instance_id;
}

abbrev is_permission_error : ApplicationError → Bool
is_permission_error e = elim e.kind [ ErrorType.aws_permission ↦ true | _ ↦ false ]

-- the keyword arguments of `get`
pub record Lookup : Type 0 where
  pub mode : SecretLookupMode
  pub instance_id : Option Text
  pub confirmed : Bool
  pub context : OperationContext

module _ {W : Type 0} (p : Ports W) (s : SecretPorts W) where
  -- `raise_if_cancelled`
  unfoldable pub check_cancelled : OperationContext → Exec (Env W) (Unit {0})
  check_cancelled context e =
      (if s.is_cancelled context.cancellation e.world then err Failure.cancelled else ok tt, e)

  -- `_require_online_relay`
  unfoldable pub require_online_relay :
      PlainCredentials → Text → Text → Exec (Env W) SecretRelayTarget
  unfolding call find_online relay_of
  require_online_relay credentials region id = do
    raise_if (is_empty id)
        (config "secret.relay.instance.required" "Select one Online EC2 relay instance")
    targets ← call (s.list_online credentials region)
    lift (relay_of p.runtime (find_online id targets))

  -- the branch of `get` that goes through a relay
  unfoldable pub get_via_relay :
      PlainCredentials → Text → Text → Lookup → Exec (Env W) RetrievedSecret
  unfolding call check_cancelled require_online_relay
  get_via_relay credentials region identifier l = do
    lift (validate_remote_secret_id p.runtime identifier)
    raise_if (not l.confirmed) (
        config "secret.relay.confirmation.required"
          "EC2-mediated Secret lookup requires explicit acknowledgement")
    relay ←
        require_online_relay credentials region
          (trim p.runtime (elim l.instance_id [ none ↦ [] | some id ↦ id ]))
    check_cancelled l.context
    call (
        s.get_remote_value credentials region relay.instance_id relay.platform_name identifier
          l.context.cancellation)

  unfoldable pub retrieve : PlainCredentials → Text → Text → Lookup → Exec (Env W) RetrievedSecret
  unfolding call get_via_relay
  retrieve credentials region identifier l = elim l.mode [
    | SecretLookupMode.direct ↦ call (s.get_secret_value credentials region identifier)
    | SecretLookupMode.via_ec2 ↦ get_via_relay credentials region identifier l
  ]

  -- the relay that `get` remembers
  abbrev pub relay_used : Lookup → Option Text
  relay_used l = elim l.mode [
    | SecretLookupMode.direct ↦ none
    | SecretLookupMode.via_ec2 ↦ elim l.instance_id [
      | none ↦ none
      | some id ↦ some (trim p.runtime id)
    ]
  ]

  -- `get` with what was retrieved
  unfoldable pub keep_retrieved :
      AwsProfile → ℕ → Text → Lookup → RetrievedSecret → Exec (Env W) SecretResult
  unfolding ask record_event
  keep_retrieved selected id identifier l r = do
    now ← ask p.now
    remember p r.secret_id (by_id id) (record {
      value = some r.secret_string;
      lookup_mode = some l.mode;
      relay_instance_id = relay_used l;
      last_retrieved_at = some now;
    })
    record_event (success "secrets" "get" identifier (some id) false)
    pure
        (record (parse p.runtime s.json r.secret_id r.secret_string r.version_id r.version_stages) {
          retrieved_at = some now;
        })

  unfoldable pub get_body : Text → Selector → Lookup → Exec (Env W) SecretResult
  unfolding query retrieve keep_retrieved
  get_body secret_id selector l = do
    raise_if (is_empty (trim p.runtime secret_id))
        (config "secret.id.required" "A Secret name or ARN is required")
    selected ← query (resolve p.runtime selector)
    id ← lift (require_id selected)
    credentials ← require_credentials p id
    r ← retrieve credentials selected.region (trim p.runtime secret_id) l
    keep_retrieved selected id (trim p.runtime secret_id) l r

  -- `get`
  unfoldable pub get : Text → Selector → Lookup → Exec (Env W) SecretResult
  unfolding get_body logged_operation
  get secret_id selector l =
      logged_operation "secrets" "get" false secret_id (get_body secret_id selector l)

  unfoldable pub list_body : Selector → Exec (Env W) (List ListedSecret)
  unfolding query call record_event
  list_body selector = do
    selected ← query (resolve p.runtime selector)
    id ← lift (require_id selected)
    credentials ← require_credentials p id
    found ← call (s.list_secrets credentials selected.region)
    record_event (success "secrets" "list" (codes "-") (some id) false)
    pure found

  -- `list`
  unfoldable pub list : Selector → Exec (Env W) (List ListedSecret)
  unfolding list_body logged_operation
  list selector = logged_operation "secrets" "list" false (codes "-") (list_body selector)

  unfoldable pub describe_names :
      PlainCredentials → Text → List ManagedInstance → Exec (Env W) (Text → Option Text)
  unfolding call
  describe_names credentials region [] = pure (λ _. none)
  describe_names credentials region (i ∷ rest) =
      rescue (call (s.describe credentials region (map (λ m. m.instance_id) (i ∷ rest))))
        is_permission_error (λ _. pure (λ _. none))

  -- `list_relay_targets`
  unfoldable pub list_relay_targets : Selector → Exec (Env W) (List SecretRelayTarget)
  unfolding query call describe_names
  list_relay_targets selector = do
    selected ← query (resolve p.runtime selector)
    id ← lift (require_id selected)
    credentials ← require_credentials p id
    found ← call (s.list_online credentials selected.region)
    metadata ← describe_names credentials selected.region (keep is_available found)
    pure (map (target_of metadata) (keep is_available found))

  unfoldable pub test_relay_body : Text → Selector → Exec (Env W) SecretRelayTarget
  unfolding query require_online_relay
  test_relay_body instance_id selector = do
    selected ← query (resolve p.runtime selector)
    id ← lift (require_id selected)
    credentials ← require_credentials p id
    require_online_relay credentials selected.region (trim p.runtime instance_id)

  -- `test_relay_connection`
  unfoldable pub test_relay_connection : Text → Selector → Exec (Env W) SecretRelayTarget
  unfolding test_relay_body logged_operation
  test_relay_connection instance_id selector =
      logged_operation "secrets" "test_relay_connection" true instance_id
        (test_relay_body instance_id selector)

  -- the write of `save_top_level_field`
  unfoldable pub put_document : SecretResult → Json → Selector → Exec (Env W) SecretResult
  unfolding query call
  put_document r document selector = do
    selected ← query (resolve p.runtime selector)
    id ← lift (require_id selected)
    credentials ← require_credentials p id
    version_id ←
        call (s.put_secret_value credentials selected.region r.secret_id (s.dumps_compact document))
    pure (
        parse p.runtime s.json r.secret_id (s.dumps_compact document) version_id
          (codes "AWSCURRENT" ∷ []))

  abbrev unsupported : ApplicationError
  unsupported =
      config "secret.field.update.unsupported" "Only top-level JSON fields can be updated safely"

  abbrev absent_field : ApplicationError
  absent_field = config "secret.field.not_found" "The requested top-level field is absent"

  -- the document with the new value: JSON where it can be read, and else text
  unfoldable pub changed_document : Text → Text → Option Json → Result Json
  unfolding has_member put_member
  changed_document path value_text none =
      err (
        Failure.app (config "secret.field.update.unsupported" "Secret source is not a JSON object"))
  changed_document path value_text (some (object ms)) =
      if not (has_member path ms)
      then err (Failure.app absent_field)
      else ok (
          object (
            put_member path
              (elim (s.json.loads value_text) [ none ↦ scalar (string value_text) | some v ↦ v ])
              ms))
  changed_document path value_text (some _) = err (Failure.app absent_field)

  abbrev is_json : SecretKind → Bool
  is_json SecretKind.json = true
  is_json SecretKind.text = false

  -- `save_top_level_field`
  unfoldable pub save_top_level_field :
      SecretResult → Text → Text → Selector → Exec (Env W) SecretResult
  unfolding changed_document put_document
  save_top_level_field r path value_text selector = do
    raise_if (not (is_json r.kind) || is_empty path || has_char b'.' path || has_char b'[' path)
        unsupported
    document ← lift (changed_document path value_text (s.json.loads r.raw_secret_string))
    put_document r document selector
