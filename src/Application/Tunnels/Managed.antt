-- ===== src/Application/Tunnels/Managed.antt =====
-- application/rds_tunnel_service.py: `RdsTunnelService`, the foreground tunnels and the table of
-- managed ones, for a service that has a managed runner. The lock makes a call one step. Ports and
-- exit codes are numbers; the runners, the probe of the local port and the list of online instances
-- are the parameter `TunnelPorts`.
pub mod Start
pub mod Stop
pub mod Cleared
pub mod Reports
pub mod Checks
pub mod Runner
use Prim.Native.String.{◌++◌ as ◌<>◌}
use aws_ssm_kit.Base.{
  ℕ, ◌+◌, ◌*◌, Bool, true, false, not, ◌&&◌, Option, none, some, List, [], ◌∷◌, leb, ◌==◌, any,
  if◌then◌else◌, String, str_eq,
}
use aws_ssm_kit.Base.Dict.{Dict, lookup, insert, erase}
use aws_ssm_kit.Errors.{
  ErrorType, ApplicationError, Result, ok, err, app, raised, configuration_error, Failure, Exec,
  pure, lift, raise, raise_if, ◌>>=◌, ◌>>◌,
}
use aws_ssm_kit.Text.{Text, same, codes}
use aws_ssm_kit.Domain.Profile.{AwsProfile, require_id, PlainCredentials}
use aws_ssm_kit.Domain.Tunnel.{
  TunnelSession, validate_local_port, require_tunnel_id, resolve_target,
}
use aws_ssm_kit.Domain.ExecutionLog.{ExecutionLevel, ExecutionResult, ExecutionPhase}
use aws_ssm_kit.Store.Tunnels.{touch_tunnel}
use aws_ssm_kit.Application.Env.{Ports, Env, call, ask, query, write, record_event}
use aws_ssm_kit.Application.Logging.{success, event, finish}
use aws_ssm_kit.Application.Operations.{OperationContext, OperationState}
use aws_ssm_kit.Application.Profiles.{Selector, resolve}
use aws_ssm_kit.Application.Sessions.{require_credentials}
pub use aws_ssm_kit.Application.Ssm.{
  SessionEndReason, max_duration, ManagedSsmSession, SsmRunResult, Parameters,
}
use aws_ssm_kit.Application.Tunnels.{TunnelSelector, show}

pub record StartTunnelRequest : Type 0 where
  pub tunnel : TunnelSelector
  pub profile : Selector
  pub selected_instance_id : Option Text

pub data TunnelOwner : Type 0 where
  foreground gui : TunnelOwner

pub record TunnelHandle : Type 0 where
  pub session_id : Text
  pub owner : TunnelOwner
  pub state : OperationState
  pub operation_id : Option ℕ
  pub process_id : Option ℕ
  pub local_port : Option ℕ
  pub exit_code : Option ℕ
  pub end_reason : Option SessionEndReason

pub record TunnelConnectionResult : Type 0 where
  pub tunnel : TunnelSession
  pub target_instance_id : Text
  pub handle : TunnelHandle
  pub plugin_exit_code : Option ℕ
  pub error : Option ApplicationError

-- `_ManagedTunnel`
pub record ManagedTunnel : Type 0 where
  pub tunnel : TunnelSession
  pub target_instance_id : Text
  pub process_id : ℕ
  pub session_id : Text
  pub expires_at : ℕ

pub record ManagedInstance : Type 0 where
  pub instance_id : Text
  pub ping_status : Text

pub record TunnelPorts (W : Type 0) : Type 0 where
  pub is_cancelled : ℕ → W → Bool
  pub is_available : ℕ → Exec W Bool
  pub list_online : PlainCredentials → Text → Exec W (List ManagedInstance)
  pub run : PlainCredentials → Text → Text → Parameters → OperationContext → ℕ → Exec W SsmRunResult
  pub start :
      PlainCredentials → Text → Text → Parameters → OperationContext → Exec W ManagedSsmSession
  pub status : ℕ → Exec W ManagedSsmSession
  pub stop : ℕ → Exec W ManagedSsmSession

pub record Tunnels (W : Type 0) : Type 0 where
  pub env : Env W
  pub managed : Dict ManagedTunnel

-- what `_prepare` returns
pub record Prepared : Type 0 where
  pub profile : AwsProfile
  pub profile_id : ℕ
  pub tunnel : TunnelSession
  pub credentials : PlainCredentials
  pub target : Text
  pub parameters : Parameters

abbrev pub local_port_in_use : ApplicationError
local_port_in_use =
    raised ErrorType.port_already_in_use "rds.tunnel.local_port_in_use"
      "Local port is already in use"

abbrev pub target_not_online : ApplicationError
target_not_online =
    record (raised ErrorType.target_not_connected "rds.tunnel.target_not_online"
      "The relay instance is not an online SSM managed node") {
        aws_service = some "ssm";
        aws_action = some "DescribeInstanceInformation";
      }

abbrev pub is_online : Text → ManagedInstance → Bool
is_online target item = same item.instance_id target && same item.ping_status (codes "Online")

-- `_handle`
abbrev pub handle :
    TunnelSession → ManagedSsmSession → TunnelOwner → Option SessionEndReason → TunnelHandle
handle tunnel managed owner reason = record {
  session_id = managed.session_id;
  owner = owner;
  state = managed.state;
  operation_id = some managed.operation_id;
  process_id = some managed.process_id;
  local_port = some tunnel.local_port;
  exit_code = managed.exit_code;
  end_reason = reason;
}

abbrev pub is_running : OperationState → Bool
is_running OperationState.running = true
is_running _ = false

-- an hour in microseconds
abbrev pub hour : ℕ
hour = 3600 * 1000000

-- How a caught call ended: `try … except ApplicationError`.
pub data Attempt (A : Type 0) : Type 0 where
  returned : A → Attempt A
  refused : ApplicationError → Attempt A

module _ {S A : Type 0} where
  unfoldable pub caught : Result A → Exec S (Attempt A)
  caught (ok a) s = (ok (returned a), s)
  caught (err (app e)) s = (ok (refused e), s)
  caught (err Failure.cancelled) s = (err Failure.cancelled, s)
  caught (err Failure.untyped) s = (err Failure.untyped, s)

  unfoldable pub attempt : Exec S A → Exec S (Attempt A)
  unfolding caught
  attempt m s = let (r, s') = m s in caught r s'

module _ {W : Type 0} where
  unfoldable pub within : {A : Type 0} → Exec (Env W) A → Exec (Tunnels W) A
  within m s = let (r, e) = m s.env in (r, record s { env = e })

  unfoldable pub put_managed : ℕ → ManagedTunnel → Exec (Tunnels W) (Unit {0})
  put_managed id entry s = (ok tt, record s { managed = insert id entry s.managed })

  unfoldable pub pop_managed : ℕ → Exec (Tunnels W) (Unit {0})
  pop_managed id s = (ok tt, record s { managed = erase id s.managed })

  -- `@logged_operation("rds", action, completion=False)`
  unfoldable pub logged_rds : {A : Type 0} → String → Exec (Tunnels W) A → Exec (Tunnels W) A
  unfolding within
  logged_rds action m s =
      let started =
        (within
          (record_event (
            event "rds" action (codes "-") ExecutionResult.success ExecutionLevel.info
              ExecutionPhase.started ("rds." <> action <> ".started")))
          s).1 in
      let (r, s') = m started in within (finish "rds" action false (codes "-") r) s'

module _ {W : Type 0} (t : TunnelPorts W) where
  -- `context.raise_if_cancelled()`
  unfoldable pub raise_if_cancelled : OperationContext → Exec (Env W) (Unit {0})
  raise_if_cancelled context e =
      (if t.is_cancelled context.cancellation e.world then err Failure.cancelled else ok tt, e)
