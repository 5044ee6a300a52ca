-- ===== src/Domain/Tunnel.antt =====
-- domain/tunnel_session.py: saved forwarding configurations.
-- Ports, ids and hours are natural numbers: the code only tests them against positive bounds, so
-- a negative value is refused where zero is.
pub mod Validity
use aws_ssm_kit.Base.{
  ℕ, Bool, true, false, not, ◌&&◌, ◌||◌, Option, none, some, List, [], ◌∷◌, ltb, leb, ◌==◌, length,
  all, any, if◌then◌else◌, String,
}
use aws_ssm_kit.Errors.{
  Result, ok, ◌then_do◌, fail_with, configuration_error, raised, configuration,
}
use aws_ssm_kit.Text.{Text, Runtime, is_empty, trim, split, ends_with, drop_last}
use aws_ssm_kit.Text.Regex.{fullmatch}
use aws_ssm_kit.Domain.Patterns.{host_label_pattern, instance_id_pattern}

abbrev pub tunnel_session_duration_hours : List ℕ
tunnel_session_duration_hours = 1 ∷ 8 ∷ 12 ∷ 24 ∷ []

abbrev pub default_tunnel_session_duration_hours : ℕ
default_tunnel_session_duration_hours = 12

pub data TargetMode : Type 0 where
  fixed select : TargetMode

pub record TunnelSession : Type 0 where
  pub id : Option ℕ
  pub profile_id : ℕ
  pub name : Text
  pub host : Text
  pub remote_port : ℕ
  pub local_port : ℕ
  pub target_mode : TargetMode
  pub target_instance_id : Option Text
  pub created_at : Option ℕ
  pub updated_at : Option ℕ
  pub last_used_at : Option ℕ
  pub session_hours : ℕ

unfoldable pub validate_session_duration_hours : ℕ → Result (Unit {0})
validate_session_duration_hours value =
    if any (λ h. h == value) tunnel_session_duration_hours
    then ok tt
    else fail_with
        (raised configuration "rds.session.duration.invalid" "세션 유지 시간은 1, 8, 12, 24시간 중 선택하세요.")

abbrev pub is_port : ℕ → Bool
is_port port = leb 1 port && leb port 65535

unfoldable pub validate_local_port : ℕ → Result (Unit {0})
validate_local_port port =
    if is_port port then ok tt else fail_with (configuration_error "rds.session.local_port.invalid")

unfoldable pub valid_host : Runtime → Text → Bool
valid_host u value =
    if is_empty value || ltb 253 (length value) || any u.is_space value
    then false
    else if u.is_ip_address value
    then true
    else let normalized = if ends_with b'.' value then drop_last value else value in
      not (is_empty normalized) && all (fullmatch host_label_pattern) (split b'.' normalized)

-- `not id or not _INSTANCE_ID.fullmatch(id)`, negated
unfoldable pub is_instance_id : Option Text → Bool
is_instance_id none = false
is_instance_id (some id) = fullmatch instance_id_pattern id

-- the last check of `__post_init__`
unfoldable pub check_target : TargetMode → Option Text → Result (Unit {0})
check_target TargetMode.fixed target =
    if is_instance_id target
    then ok tt
    else fail_with (configuration_error "rds.session.target_instance_id.invalid")
check_target TargetMode.select none = ok tt
check_target TargetMode.select (some _) =
    fail_with (configuration_error "rds.session.select_target_must_be_empty")

-- `TunnelSession(…)` with `__post_init__`, which stores the arguments as they are.
unfoldable pub tunnel_session : Runtime → TunnelSession → Result TunnelSession
unfolding validate_session_duration_hours validate_local_port check_target
tunnel_session u t = validate_session_duration_hours t.session_hours then_do λ _.
    if is_empty (trim u t.name)
    then fail_with (configuration_error "rds.session.name.required")
    else if not (valid_host u (trim u t.host))
    then fail_with (configuration_error "rds.session.host.invalid")
    else if not (is_port t.remote_port)
    then fail_with (configuration_error "rds.session.remote_port.invalid")
    else validate_local_port t.local_port then_do λ _.
        if leb t.profile_id 0
        then fail_with (configuration_error "rds.session.profile_id.invalid")
        else check_target t.target_mode t.target_instance_id then_do λ _. ok t

unfoldable pub require_tunnel_id : TunnelSession → Result ℕ
require_tunnel_id t = elim t.id [
  | none ↦ fail_with (configuration_error "rds.session.id.required")
  | some id ↦ ok id
]

abbrev pub candidate : TargetMode → Option Text → Option Text → Option Text
candidate TargetMode.fixed configured selected = configured
candidate TargetMode.select configured selected = selected

abbrev pub target_error : TargetMode → String
target_error TargetMode.fixed = "rds.session.target_instance_id.invalid"
target_error TargetMode.select = "rds.tunnel.target_required"

-- the check of `resolve_target`
unfoldable pub check_candidate : TargetMode → Option Text → Result Text
check_candidate mode none = fail_with (configuration_error (target_error mode))
check_candidate mode (some id) =
    if fullmatch instance_id_pattern id
    then ok id
    else fail_with (configuration_error (target_error mode))

unfoldable pub resolve_target : TunnelSession → Option Text → Result Text
unfolding check_candidate
resolve_target t selected =
    check_candidate t.target_mode (candidate t.target_mode t.target_instance_id selected)
