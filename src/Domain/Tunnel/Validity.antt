-- ===== src/Domain/Tunnel/Validity.antt =====
-- What the constructor of a tunnel accepts, and the target that a tunnel resolves to.
use aws_ssm_kit.Base.{ℕ, ◌≤◌, ◌≡◌, ◌↔◌, ◌⊎◌, true, false, Option, none, some, ◌∷◌, arith, any, ◌==◌}
use aws_ssm_kit.Errors.{ok}
use aws_ssm_kit.Text.{Text, Runtime, is_empty, trim, strip}
use aws_ssm_kit.Domain.Tunnel.{
  TargetMode, TunnelSession, tunnel_session, tunnel_session_duration_hours, valid_host,
  is_instance_id, resolve_target,
}

-- A fixed tunnel names its instance, and a selected one names none.
abbrev pub Targeted : TargetMode → Option Text → Type 0
Targeted TargetMode.fixed target = is_instance_id target ≡ true
Targeted TargetMode.select target = target ≡ none

-- The invariant of a tunnel.
pub record IsValid (u : Runtime) (t : TunnelSession) : Type 0 where
  pub named : is_empty (trim u t.name) ≡ false
  pub hosted : valid_host u (trim u t.host) ≡ true
  pub remote_low : 1 ≤ t.remote_port
  pub remote_high : t.remote_port ≤ 65535
  pub local_low : 1 ≤ t.local_port
  pub local_high : t.local_port ≤ 65535
  pub owned : 1 ≤ t.profile_id
  pub hours_allowed : any (λ h. h == t.session_hours) tunnel_session_duration_hours ≡ true
  pub targeted : Targeted t.target_mode t.target_instance_id

-- The constructor accepts exactly the valid tunnels, and stores the fields as they are given.
pub tunnel_session_iff :
    (u : Runtime) (t q : TunnelSession) → (tunnel_session u t ≡ ok q) ↔ ((q ≡ t) × IsValid u t)
unfolding tunnel_session
tunnel_session_iff u t q = (λ h. ground arith, λ h. ground arith)

-- Stored white space before the host is invisible to the constructor: it checks the stripped host
-- and keeps the other, although the host with the white space before it is
-- itself not a valid host.
pub tunnel_session_host_padding :
    (u : Runtime) (t : TunnelSession) (c : ℕ)
    → u.is_space c ≡ true
    → tunnel_session u t ≡ ok t
    → let padded = record t { host = c ∷ t.host } in
      (tunnel_session u padded ≡ ok padded) × (valid_host u padded.host ≡ false)
unfolding tunnel_session valid_host strip
tunnel_session_host_padding u t c space h = (ground arith, ground arith)

-- A target is an instance id: the configured one of a fixed tunnel, whatever is selected, and the
-- selected one of the others. A valid fixed tunnel always resolves.
pub resolve_target_lem :
    (u : Runtime) (t : TunnelSession) (selected : Option Text) (id : Text)
    → IsValid u t
    → (resolve_target t selected ≡ ok id) ↔ (
        (is_instance_id (some id) ≡ true)
        × ((t.target_mode ≡ TargetMode.fixed) × (t.target_instance_id ≡ some id)
            ⊎ (t.target_mode ≡ TargetMode.select) × (selected ≡ some id)))
unfolding resolve_target is_instance_id
resolve_target_lem u t selected id v = (λ h. ground arith, λ h. ground arith)
