-- ===== src/Tests/Tunnels.antt =====
-- The theorems on tunnels at sample values.
use aws_ssm_kit.Base.{ℕ, ◌+◌, ◌≡◌, refl, ap, [], ◌∷◌, some, none, true, false}
use aws_ssm_kit.Base.Dict.{lookup, lookup-nil, NodupKeys}
use aws_ssm_kit.Errors.{ok, err, app, configuration_error}
use aws_ssm_kit.Text.{Text, codes}
use aws_ssm_kit.Domain.Profile.{require_id}
use aws_ssm_kit.Domain.Tunnel.{resolve_target}
use aws_ssm_kit.Store.{Db}
use aws_ssm_kit.Application.Env.{Env}
use aws_ssm_kit.Application.Operations.{OperationState}
use aws_ssm_kit.Application.Profiles.{Selector, resolve}
use aws_ssm_kit.Application.Tunnels.{TunnelSelector, show}
use aws_ssm_kit.Application.Tunnels.Managed.{
  ManagedTunnel, ManagedSsmSession, StartTunnelRequest, TunnelPorts, Tunnels, Prepared,
}
use aws_ssm_kit.Application.Tunnels.Managed.Start.{prepare}
use aws_ssm_kit.Application.Tunnels.Managed.Stop.{stop_all, active_tunnels, owned}
use aws_ssm_kit.Application.Tunnels.Managed.Cleared.{OthersLeft, stop_all-OthersLeft}
use aws_ssm_kit.Application.Tunnels.Managed.Reports.{AllReported, active_tunnels-AllReported}
use aws_ssm_kit.Application.Tunnels.Managed.Checks.{Online, prepare-Online}
use aws_ssm_kit.Tests.Samples.{ascii, profile, plain, tunnel, ports, db, env}

abbrev running_session : ℕ → ManagedSsmSession
running_session id = record {
  operation_id = id;
  process_id = 4000 + id;
  session_id = codes "session";
  state = OperationState.running;
  exit_code = none;
  error = none;
  warning = none;
}

abbrev pub relay : Text
relay = codes "i-0123456789abcdef0"

-- Every port is free and the relay is online; sessions run until they are stopped.
abbrev tunnel_ports : TunnelPorts ℕ
tunnel_ports = record {
  is_cancelled = λ token w. false;
  is_available = λ port w. (ok true, w);
  list_online =
      λ c region w. (ok (record { instance_id = relay; ping_status = codes "Online" } ∷ []), w + 1);
  run = λ c region target parameters context seconds w. (
    ok (record { session_id = codes "session"; plugin_exit_code = 0; end_reason = none }),
    w + 1,
  );
  start = λ c region target parameters context w. (ok (running_session 9), w + 1);
  status = λ id w. (ok (running_session id), w + 1);
  stop = λ id w. (ok (record (running_session id) { state = OperationState.succeeded }), w + 1);
}

abbrev pub managed_tunnel : ℕ → ManagedTunnel
managed_tunnel owner = record {
  tunnel = record tunnel { profile_id = owner };
  target_instance_id = relay;
  process_id = 4007;
  session_id = codes "session";
  expires_at = 43200000000;
}

-- a tunnel of the first profile, and one of another
abbrev tunnels : Tunnels ℕ
tunnels = record {
  env = record env { db = record db { tunnels = (1, tunnel) ∷ []; last_tunnel = 1 } };
  managed = (7, managed_tunnel 1) ∷ (8, managed_tunnel 2) ∷ [];
}

managed_once : NodupKeys tunnels.managed
unfolding lookup
managed_once = (refl, (lookup-nil 8, tt))

stop_all-OthersLeft_example :
    OthersLeft
      (some 1)
      tunnels
      (stop_all ports tunnel_ports (some 1) tunnels).0
      (stop_all ports tunnel_ports (some 1) tunnels).1
stop_all-OthersLeft_example = stop_all-OthersLeft ports tunnel_ports (some 1) tunnels managed_once

active_tunnels-AllReported_example :
    AllReported
      (owned (some 1) tunnels.managed)
      tunnels
      (active_tunnels ports tunnel_ports (some 1) tunnels).0
      (active_tunnels ports tunnel_ports (some 1) tunnels).1
active_tunnels-AllReported_example =
    active_tunnels-AllReported ports tunnel_ports (some 1) tunnels managed_once

abbrev request : StartTunnelRequest
request = record {
  tunnel = TunnelSelector.tunnel_id 1;
  profile = Selector.default_profile;
  selected_instance_id = none;
}

abbrev prepared : Prepared
prepared = record {
  profile = profile;
  profile_id = 1;
  tunnel = tunnel;
  credentials = plain;
  target = relay;
  parameters = record { host = tunnel.host; port_number = 5432; local_port_number = 15432 };
}

prepared_env : (prepare ports tunnel_ports request tunnels.env).0 ≡ ok prepared
unfolding prepare aws_ssm_kit.Errors.◌>>=◌ resolve aws_ssm_kit.Store.Profiles.get_default
    aws_ssm_kit.Store.Profiles.read_row aws_ssm_kit.Store.Profiles.find_default
    aws_ssm_kit.Domain.Profile.aws_profile aws_ssm_kit.Text.strip aws_ssm_kit.Text.Regex.fullmatch
    aws_ssm_kit.Text.has_char aws_ssm_kit.Text.starts_with require_id show
    aws_ssm_kit.Store.Profiles.get lookup aws_ssm_kit.Store.Tunnels.get_tunnel
    aws_ssm_kit.Store.Tunnels.read_row aws_ssm_kit.Domain.Tunnel.tunnel_session
    aws_ssm_kit.Application.Env.call aws_ssm_kit.Application.Profiles.find
    aws_ssm_kit.Application.Sessions.require_credentials aws_ssm_kit.Domain.Profile.needs_refresh
    aws_ssm_kit.Domain.Profile.plain_credentials resolve_target aws_ssm_kit.Domain.Tunnel.valid_host
    aws_ssm_kit.Domain.Tunnel.is_instance_id aws_ssm_kit.Domain.Tunnel.check_candidate
    aws_ssm_kit.Errors.rescue aws_ssm_kit.Store.Sessions.get_session aws_ssm_kit.Text.ends_with
    aws_ssm_kit.Text.split aws_ssm_kit.Application.Sessions.credentials
    aws_ssm_kit.Application.Sessions.use_session aws_ssm_kit.Application.Sessions.open_session
    aws_ssm_kit.Text.same
prepared_env = refl

prepare-Online_example :
    (resolve ascii Selector.default_profile tunnels.env.db ≡ ok profile)
    × ((id : ℕ) × (require_id profile ≡ ok id)
        × (show ascii (TunnelSelector.tunnel_id 1) (Selector.by_id id) tunnels.env.db ≡ ok tunnel))
    × ((w : ℕ) × ((tunnel_ports.is_available 15432 w).0 ≡ ok true))
    × (resolve_target tunnel none ≡ ok relay)
    × (prepared.parameters
        ≡ record { host = tunnel.host; port_number = 5432; local_port_number = 15432 })
    × Online ports tunnel_ports plain profile.region relay
prepare-Online_example =
    prepare-Online ports tunnel_ports request tunnels.env
      (prepare ports tunnel_ports request tunnels.env).1 prepared
      (ap (λ r. (r, (prepare ports tunnel_ports request tunnels.env).1)) prepared_env)
