-- ===== src/Tests/Secrets.antt =====
-- The theorems on secrets: two documents that differ in a password, and a command for a relay.
use aws_ssm_kit.Base.{
  ℕ, ◌≡◌, refl, true, false, none, some, List, [], ◌∷◌, ◌++◌, map, All, if◌then◌else◌, arith, inl,
  inr, ◌⊎◌,
}
use aws_ssm_kit.Errors.{ok}
use aws_ssm_kit.Text.{Text, codes, same, is_decimal, split, trim}
use aws_ssm_kit.Domain.SensitiveData.{is_sensitive_name}
use aws_ssm_kit.Application.Secrets.{
  Json, scalar, object, no_members, member, string, JsonPorts, parse, json_text, flatten,
  masked_document,
}
use aws_ssm_kit.Application.Secrets.Flattened.{shown, flatten_masked}
use aws_ssm_kit.Application.Secrets.Hidden.{Alike, AlikeStrings, json_text_hides}
use aws_ssm_kit.Application.Secrets.Commands.{
  build_persistent_remote_secret_command, build_remote_secret_command, before_id, after_id,
  unix_shell, validate_remote_secret_id, supported_platform,
}
use aws_ssm_kit.Application.Secrets.Commands.Quoted.{
  IsPlain, IsWrapped, quoted_parts, persistent_command_quotes,
}
use aws_ssm_kit.Domain.SavedSecret.{SecretLookupMode}
use aws_ssm_kit.Application.Env.{Env}
use aws_ssm_kit.Application.Profiles.{by_id}
use aws_ssm_kit.Application.Secrets.Lookups.{
  SecretPorts, RetrievedSecret, ManagedInstance, Lookup, get,
}
use aws_ssm_kit.Application.Secrets.Lookups.Confirmed.{RemoteCall, RelayLaws, get_asks}
use aws_ssm_kit.Tests.Samples.{ascii, db, quiet_ports}

abbrev login : Text → Json
login password = object (
    member (codes "host") (scalar (string (codes "db.example")))
      (member (codes "password") (scalar (string password)) no_members))

abbrev printed : Json → Text
printed (scalar (string s)) = s
printed (object (member a (scalar (string s)) (member b (scalar (string t)) no_members))) =
    a ++ codes ":" ++ s ++ codes "," ++ b ++ codes ":" ++ t
printed _ = []

-- a reader that knows two strings
abbrev json_ports : JsonPorts
json_ports = record {
  loads = λ raw.
      if same raw (codes "first")
      then some (login (codes "one"))
      else if same raw (codes "second")
      then some (login (codes "two"))
      else none;
  dumps = printed;
  dumps_line = printed;
}

alike_logins :
    AlikeStrings ascii (json_ports.loads (codes "first")) (json_ports.loads (codes "second"))
unfolding same Alike is_sensitive_name aws_ssm_kit.Text.has_part aws_ssm_kit.Text.replace_char
    aws_ssm_kit.Text.map_text
alike_logins = (refl, ((refl, inr refl, (refl, inl refl, tt))))

json_text_hides_example :
    json_text ascii json_ports (parse ascii json_ports (codes "db") (codes "first") none []) false
    ≡ json_text ascii json_ports
        (parse ascii json_ports (codes "db") (codes "second") none [])
        false
json_text_hides_example =
    json_text_hides ascii json_ports (codes "db") (codes "first") (codes "second") none []
      alike_logins

abbrev id : Text
id = codes "db/password"

abbrev command : Text
command = before_id ++ id ++ after_id

accepted :
    build_persistent_remote_secret_command ascii id (codes "Linux") ≡ ok (command ++ unix_shell)
unfolding build_persistent_remote_secret_command aws_ssm_kit.Text.Regex.fullmatch
    aws_ssm_kit.Text.has_part aws_ssm_kit.Text.map_text
accepted = refl

digits-IsPlain : (c : ℕ) → is_decimal ascii c ≡ true → IsPlain c
digits-IsPlain c h = ground arith

persistent_command_quotes_example :
    (command : Text) × (build_remote_secret_command ascii id ≡ ok command)
    × All IsPlain id
    × (split 39 command ≡ quoted_parts id)
    × IsWrapped ascii (codes "Linux") command (before_id ++ id ++ after_id ++ unix_shell)
persistent_command_quotes_example =
    persistent_command_quotes ascii id (codes "Linux") (command ++ unix_shell) digits-IsPlain
      accepted

flatten_masked_example :
    flatten ascii (masked_document ascii (login (codes "one")) false) [] false
    ≡ map shown (flatten ascii (login (codes "one")) [] false)
flatten_masked_example = flatten_masked ascii (login (codes "one")) [] false

abbrev retrieved : Text → RetrievedSecret
retrieved id = record {
  secret_id = id;
  secret_string = codes "first";
  version_id = none;
  version_stages = [];
}

abbrev relay : ManagedInstance
relay = record {
  instance_id = codes "i-1";
  ping_status = codes "Online";
  platform_name = some (codes "Linux");
}

-- The world is the list of the commands of the relay.
abbrev relay_ports : SecretPorts (List RemoteCall)
relay_ports = record {
  json = json_ports;
  dumps_compact = printed;
  is_cancelled = λ token w. false;
  get_secret_value = λ c region id w. (ok (retrieved id), w);
  list_secrets = λ c region w. (ok [], w);
  put_secret_value = λ c region id value w. (ok none, w);
  list_online = λ c region w. (ok (relay ∷ []), w);
  describe = λ c region ids w. (ok (λ id. none), w);
  get_remote_value = λ c region instance platform id token w. (
    ok (retrieved id),
    record { instance_id = instance; platform_name = platform; secret_id = id } ∷ w,
  );
}

relay_laws : RelayLaws quiet_ports relay_ports (λ w. w)
relay_laws = record {
  guard_keeps = λ calls. record {
    now_keeps = λ w h. h;
    identity_keeps = λ c region. record { at = λ w h. h };
    unprotect_keeps = λ text. record { at = λ w h. h };
  };
  direct_keeps = λ calls c region id. record { at = λ w h. h };
  online_keeps = λ calls c region. record { at = λ w h. h };
  remote_asks = λ c region instance platform id token w. refl;
}

abbrev through_relay : Lookup
through_relay = record {
  mode = SecretLookupMode.via_ec2;
  instance_id = some (codes "i-1");
  confirmed = true;
  context = record { operation_id = 1; cancellation = 0 };
}

abbrev idle : Env (List RemoteCall)
idle = record { db = db; world = []; log = [] }

get_asks_example :
    let now = (get quiet_ports relay_ports id (by_id 1) through_relay idle).1.world in
    (now ≡ [])
    ⊎ ((c : RemoteCall) × (now ≡ c ∷ [])
        × ((c.secret_id ≡ trim ascii id)
            × (validate_remote_secret_id ascii c.secret_id ≡ ok tt)
            × (supported_platform ascii c.platform_name ≡ true)
            × (true ≡ true)))
get_asks_example =
    get_asks quiet_ports relay_ports (λ w. w) relay_laws id (by_id 1) through_relay idle
