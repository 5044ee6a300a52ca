-- ===== src/Application/Tunnels.antt =====
-- application/rds_tunnel_service.py: `TunnelSessionService`, the saved tunnels of a profile. The list
-- for the user interface is left out.
pub mod Managed
use aws_ssm_kit.Base.{ℕ, Bool, true, false, not, Option, none, some, ◌==◌, if◌then◌else◌}
use aws_ssm_kit.Errors.{
  Result, ok, err, Failure, configuration_error, fail_with, Exec, pure, lift, raise, ◌>>=◌, ◌>>◌,
  ◌then_do◌,
}
use aws_ssm_kit.Text.{Text, Runtime, int_value}
use aws_ssm_kit.Domain.Profile.{require_id}
use aws_ssm_kit.Domain.Tunnel.{
  TunnelSession, TargetMode, tunnel_session, require_tunnel_id,
  default_tunnel_session_duration_hours,
}
use aws_ssm_kit.Store.{Db}
use aws_ssm_kit.Store.Tunnels
use aws_ssm_kit.Application.Env.{Ports, Env, ask, query, write}
use aws_ssm_kit.Application.Profiles.{Selector, resolve, is_digits, with_key}

-- `str | int`
pub data TunnelSelector : Type 0 where
  tunnel_id : ℕ → TunnelSelector
  tunnel_text : Text → TunnelSelector

pub record SaveTunnelSessionRequest : Type 0 where
  pub profile : Selector
  pub name : Text
  pub host : Text
  pub remote_port : ℕ
  pub local_port : ℕ
  pub target_mode : TargetMode
  pub target_instance_id : Option Text
  pub tunnel_id : Option ℕ
  pub session_hours : Option ℕ

-- `_profile_id`
unfoldable pub profile_key : Runtime → Selector → Db → Result ℕ
profile_key u selector db = resolve u selector db then_do require_id

-- the two reads of `_resolve`
unfoldable pub find_tunnel : Runtime → TunnelSelector → ℕ → Db → Result (Option TunnelSession)
find_tunnel u (tunnel_id k) profile_id db = with_key k (Tunnels.get_tunnel u k db)
find_tunnel u (tunnel_text s) profile_id db =
    if is_digits u s
    then elim (int_value u s) [
      | none ↦ err Failure.untyped
      | some k ↦ with_key k (Tunnels.get_tunnel u k db)
    ]
    else Tunnels.get_tunnel_by_name u profile_id s db

-- `show`: a tunnel of another profile is not found
unfoldable pub show : Runtime → TunnelSelector → Selector → Db → Result TunnelSession
unfolding profile_key find_tunnel
show u selector profile db = profile_key u profile db then_do λ profile_id.
    find_tunnel u selector profile_id db then_do elim [
      | none ↦ fail_with (configuration_error "rds.session.not_found")
      | some t ↦
          if t.profile_id == profile_id
          then ok t
          else fail_with (configuration_error "rds.session.not_found")
    ]

-- the duration that `_from_request` chooses
abbrev pub chosen_hours : Option ℕ → Option TunnelSession → ℕ
chosen_hours (some hours) current = hours
chosen_hours none (some t) = t.session_hours
chosen_hours none none = default_tunnel_session_duration_hours

-- `_from_request`
unfoldable pub from_request :
    Runtime → SaveTunnelSessionRequest → Option TunnelSession → Db → Result TunnelSession
unfolding profile_key
from_request u request current db = profile_key u request.profile db then_do λ profile_id.
    tunnel_session u (record {
      id = elim current [ none ↦ none | some t ↦ t.id ];
      profile_id = profile_id;
      name = request.name;
      host = request.host;
      remote_port = request.remote_port;
      local_port = request.local_port;
      target_mode = request.target_mode;
      target_instance_id = request.target_instance_id;
      created_at = elim current [ none ↦ none | some t ↦ t.created_at ];
      updated_at = elim current [ none ↦ none | some t ↦ t.updated_at ];
      last_used_at = elim current [ none ↦ none | some t ↦ t.last_used_at ];
      session_hours = chosen_hours request.session_hours current;
    })

module _ {W : Type 0} (p : Ports W) where
  unfoldable pub create : SaveTunnelSessionRequest → Exec (Env W) TunnelSession
  unfolding from_request ask query write
  create request = do
    t ← query (from_request p.runtime request none)
    now ← ask p.now
    write (Tunnels.create_tunnel p.runtime now t)

  unfoldable pub update_found : SaveTunnelSessionRequest → ℕ → Exec (Env W) TunnelSession
  unfolding show from_request ask query write
  update_found request k = do
    current ← query (show p.runtime (TunnelSelector.tunnel_id k) request.profile)
    t ← query (from_request p.runtime request (some current))
    key ← lift (require_tunnel_id t)
    now ← ask p.now
    write (Tunnels.update_tunnel p.runtime now key t)

  unfoldable pub update : SaveTunnelSessionRequest → Exec (Env W) TunnelSession
  unfolding update_found
  update request = elim request.tunnel_id [
    | none ↦ raise (configuration_error "rds.session.id.required")
    | some k ↦ update_found request k
  ]

  -- A rename keeps every other setting: its request leaves the duration to the current row.
  unfoldable pub rename : TunnelSelector → Text → Selector → Exec (Env W) TunnelSession
  unfolding show update query
  rename selector name profile = do
    source ← query (show p.runtime selector profile)
    key ← lift (require_tunnel_id source)
    update (record {
      profile = Selector.by_id source.profile_id;
      name = name;
      host = source.host;
      remote_port = source.remote_port;
      local_port = source.local_port;
      target_mode = source.target_mode;
      target_instance_id = source.target_instance_id;
      tunnel_id = some key;
      session_hours = none;
    })

  unfoldable pub clone : TunnelSelector → Text → Selector → Exec (Env W) TunnelSession
  unfolding show create query
  clone selector name profile = do
    source ← query (show p.runtime selector profile)
    create (record {
      profile = Selector.by_id source.profile_id;
      name = name;
      host = source.host;
      remote_port = source.remote_port;
      local_port = source.local_port;
      target_mode = source.target_mode;
      target_instance_id = source.target_instance_id;
      tunnel_id = none;
      session_hours = some source.session_hours;
    })

  unfoldable pub delete : TunnelSelector → Selector → Exec (Env W) (Unit {0})
  unfolding show query write
  delete selector profile = do
    source ← query (show p.runtime selector profile)
    key ← lift (require_tunnel_id source)
    write (Tunnels.delete_tunnel key)
