-- ===== src/Application/Tunnels/Managed/Start.antt =====
-- application/rds_tunnel_service.py: the checks before a tunnel starts, and both ways to start one.
use aws_ssm_kit.Base.{ℕ, ◌+◌, ◌*◌, Bool, false, not, Option, none, some, any}
use aws_ssm_kit.Errors.{Exec, pure, lift, raise_if, ◌>>=◌, ◌>>◌}
use aws_ssm_kit.Text.{Text}
use aws_ssm_kit.Domain.Profile.{AwsProfile, require_id, PlainCredentials}
use aws_ssm_kit.Domain.Tunnel.{
  TunnelSession, validate_local_port, require_tunnel_id, resolve_target,
}
use aws_ssm_kit.Store.Tunnels.{touch_tunnel}
use aws_ssm_kit.Application.Env.{Ports, Env, call, ask, query, write, record_event}
use aws_ssm_kit.Application.Logging.{success}
use aws_ssm_kit.Application.Operations.{OperationContext, OperationState}
use aws_ssm_kit.Application.Profiles.{Selector, resolve}
use aws_ssm_kit.Application.Sessions.{require_credentials}
use aws_ssm_kit.Application.Tunnels.{TunnelSelector, show}
use aws_ssm_kit.Application.Tunnels.Managed.{
  StartTunnelRequest, TunnelOwner, foreground, SessionEndReason, TunnelConnectionResult,
  TunnelPorts, Tunnels, Prepared, local_port_in_use, target_not_online, is_online, handle, hour,
  within, put_managed, logged_rds, raise_if_cancelled,
}

module _ {W : Type 0} (p : Ports W) (t : TunnelPorts W) where
  -- `local_port_available`
  unfoldable pub local_port_available : ℕ → Exec (Env W) Bool
  unfolding call
  local_port_available port = do lift (validate_local_port port); call (t.is_available port)

  -- `_require_online_target`
  unfoldable pub require_online_target : PlainCredentials → Text → Text → Exec (Env W) (Unit {0})
  unfolding call
  require_online_target credentials region target = do
    online ← call (t.list_online credentials region)
    raise_if (not (any (is_online target) online)) target_not_online

  -- `_prepare` from the probe of the local port on
  unfoldable pub prepare_free :
      StartTunnelRequest → AwsProfile → ℕ → TunnelSession → Bool → Exec (Env W) Prepared
  unfolding require_online_target
  prepare_free request profile id tunnel free = do
    raise_if (not free) local_port_in_use
    target ← lift (resolve_target tunnel request.selected_instance_id)
    credentials ← require_credentials p id
    require_online_target credentials profile.region target
    pure (record {
      profile = profile;
      profile_id = id;
      tunnel = tunnel;
      credentials = credentials;
      target = target;
      parameters = record {
        host = tunnel.host;
        port_number = tunnel.remote_port;
        local_port_number = tunnel.local_port;
      };
    })

  -- `_prepare`
  unfoldable pub prepare : StartTunnelRequest → Exec (Env W) Prepared
  unfolding local_port_available prepare_free query
  prepare request = do
    profile ← query (resolve p.runtime request.profile)
    id ← lift (require_id profile)
    tunnel ← query (show p.runtime request.tunnel (Selector.by_id id))
    free ← local_port_available tunnel.local_port
    prepare_free request profile id tunnel free

  -- the history of a start, and the tunnel that the result shows
  unfoldable pub touch : Prepared → Exec (Env W) (Unit {0})
  unfolding ask write
  touch prepared = do
    key ← lift (require_tunnel_id prepared.tunnel)
    used_at ← ask p.now
    now ← ask p.now
    write (touch_tunnel used_at now key)

  unfoldable pub shown : Prepared → Exec (Env W) TunnelSession
  unfolding query
  shown prepared = do
    key ← lift (require_tunnel_id prepared.tunnel)
    query (show p.runtime (TunnelSelector.tunnel_id key) (Selector.by_id prepared.profile_id))

  -- the record of a stop that the time limit caused
  unfoldable pub record_limit : Prepared → Option SessionEndReason → Exec (Env W) (Unit {0})
  unfolding record_event
  record_limit prepared none = pure tt
  record_limit prepared (some _) =
      record_event (success "rds" "stop" prepared.tunnel.name (some prepared.profile_id) false)

  unfoldable pub run_prepared : OperationContext → Prepared → Exec (Env W) TunnelConnectionResult
  unfolding touch shown record_limit call record_event
  run_prepared context prepared = do
    result ← call (
        t.run prepared.credentials prepared.profile.region prepared.target prepared.parameters
          context (prepared.tunnel.session_hours * 3600))
    touch prepared
    record_event (success "rds" "start" prepared.tunnel.name (some prepared.profile_id) false)
    record_limit prepared result.end_reason
    tunnel ← shown prepared
    pure (record {
      tunnel = tunnel;
      target_instance_id = prepared.target;
      handle = record {
        session_id = result.session_id;
        owner = foreground;
        state = OperationState.succeeded;
        operation_id = none;
        process_id = none;
        local_port = none;
        exit_code = none;
        end_reason = result.end_reason;
      };
      plugin_exit_code = some result.plugin_exit_code;
      error = none;
    })

  -- `start`
  unfoldable pub start :
      StartTunnelRequest → OperationContext → Exec (Tunnels W) TunnelConnectionResult
  unfolding logged_rds within prepare run_prepared raise_if_cancelled
  start request context = logged_rds "start" (
      within (do
        raise_if_cancelled t context
        prepared ← prepare request
        run_prepared context prepared))

  unfoldable pub start_prepared :
      OperationContext → Prepared → Exec (Tunnels W) TunnelConnectionResult
  unfolding within put_managed touch shown call ask record_event
  start_prepared context prepared = do
    managed ← within (
        call (
          t.start prepared.credentials prepared.profile.region prepared.target prepared.parameters
            context))
    connected_at ← within (ask p.now)
    put_managed managed.operation_id (record {
      tunnel = prepared.tunnel;
      target_instance_id = prepared.target;
      process_id = managed.process_id;
      session_id = managed.session_id;
      expires_at = connected_at + prepared.tunnel.session_hours * hour;
    })
    within (touch prepared)
    within
        (record_event (success "rds" "start" prepared.tunnel.name (some prepared.profile_id) false))
    tunnel ← within (shown prepared)
    pure (record {
      tunnel = tunnel;
      target_instance_id = prepared.target;
      handle = handle prepared.tunnel managed TunnelOwner.gui none;
      plugin_exit_code = none;
      error = none;
    })

  -- `start_managed`
  unfoldable pub start_managed :
      StartTunnelRequest → OperationContext → Exec (Tunnels W) TunnelConnectionResult
  unfolding logged_rds within prepare start_prepared raise_if_cancelled
  start_managed request context = logged_rds "start_managed" (do
    within (raise_if_cancelled t context)
    prepared ← within (prepare request)
    start_prepared context prepared)
