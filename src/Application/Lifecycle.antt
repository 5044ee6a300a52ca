-- ===== src/Application/Lifecycle.antt =====
-- application/connection_lifecycle.py, for a service that has drives: the connections of a profile,
-- and the deletion of a profile. The sessions of EC2 and the tunnels are the parameter `Owners`: what
-- `Ec2Service` and the tunnel coordinator offer to this service.
pub mod Deletion
use aws_ssm_kit.Base.{
  ℕ, ◌+◌, ◌<◌, Bool, true, false, not, ◌&&◌, ◌||◌, Option, none, some, List, [], ◌∷◌, ltb,
  if◌then◌else◌,
}
use aws_ssm_kit.Errors.{
  ApplicationError, Result, raised, configuration, Exec, pure, lift, raise, raise_if, ◌>>=◌, ◌>>◌,
}
use aws_ssm_kit.Domain.Profile.{require_id}
use aws_ssm_kit.Domain.S3Drive.{DriveState, DriveStatus}
use aws_ssm_kit.Store.Profiles as Store
use aws_ssm_kit.Application.Env.{Ports, query, write}
use aws_ssm_kit.Application.Operations.{OperationState}
use aws_ssm_kit.Application.Profiles.{Selector, resolve}
use aws_ssm_kit.Application.Tunnels.Managed.{Attempt, returned, refused, attempt, is_running}
use aws_ssm_kit.Application.Drives.{DrivePorts, Drives, within, mounts, list, profile_deletion}

-- one session or tunnel, as its service reports it
pub record Connection : Type 0 where
  pub state : OperationState
  pub error : Option ApplicationError

pub record Owners (W : Type 0) : Type 0 where
  pub external_sessions : ℕ → Exec W (List Connection)
  pub stop_external_for_profile : ℕ → Exec W (Unit {0})
  pub active_tunnels : ℕ → Exec W (List Connection)
  pub stop_tunnels : ℕ → Exec W (Unit {0})

pub record ProfileConnections : Type 0 where
  pub profile_id : ℕ
  pub ec2_count : ℕ
  pub rds_count : ℕ
  pub s3_drive_count : ℕ

-- `has_active`
abbrev pub has_active : ProfileConnections → Bool
has_active c = ltb 0 c.ec2_count || ltb 0 c.rds_count || ltb 0 c.s3_drive_count

abbrev pub running : List Connection → ℕ
running [] = 0
running (c ∷ cs) = (if is_running c.state then 1 else 0) + running cs

abbrev pub is_disconnected : DriveState → Bool
is_disconnected DriveState.disconnected = true
is_disconnected _ = false

abbrev pub in_use : List DriveStatus → ℕ
in_use [] = 0
in_use (s ∷ rest) = (if is_disconnected s.state then 0 else 1) + in_use rest

-- the error of the first connection that has one
abbrev pub reported : List Connection → Option ApplicationError
reported [] = none
reported (c ∷ cs) = elim c.error [ none ↦ reported cs | some e ↦ some e ]

abbrev pub or_else : Option ApplicationError → Option ApplicationError → Option ApplicationError
or_else none other = other
or_else (some e) other = some e

abbrev pub failure_of : {A : Type 0} → Attempt A → Option ApplicationError
failure_of (returned a) = none
failure_of (refused e) = some e

abbrev pub found : Attempt (List Connection) → List Connection
found (returned cs) = cs
found (refused e) = []

module _ {S : Type 0} where
  -- `if error is not None: raise error`
  abbrev pub raise_some : Option ApplicationError → Exec S (Unit {0})
  raise_some none = pure tt
  raise_some (some e) = raise e

module _ {W : Type 0} (p : Ports W) (d : DrivePorts W) (o : Owners W) where
  -- `active`
  unfoldable pub active : ℕ → Exec (Drives W) ProfileConnections
  unfolding mounts attempt list
  active profile_id = do
    ec2 ← attempt (mounts (o.external_sessions profile_id))
    rds ← attempt (mounts (o.active_tunnels profile_id))
    raise_some (or_else (failure_of ec2) (failure_of rds))
    raise_some (or_else (reported (found ec2)) (reported (found rds)))
    drives ← list p d (some profile_id)
    pure (record {
      profile_id = profile_id;
      ec2_count = running (found ec2);
      rds_count = running (found rds);
      s3_drive_count = in_use drives;
    })

  -- the stops of `delete`: both are tried, and the first error is raised
  unfoldable pub stop_connections : ℕ → Exec (Drives W) (Unit {0})
  unfolding mounts attempt
  stop_connections profile_id = do
    ec2 ← attempt (mounts (o.stop_external_for_profile profile_id))
    rds ← attempt (mounts (o.stop_tunnels profile_id))
    raise_some (or_else (failure_of ec2) (failure_of rds))

  -- `delete` past the check
  unfoldable pub delete_checked : ℕ → ProfileConnections → Exec (Drives W) (Unit {0})
  unfolding stop_connections profile_deletion within write
  delete_checked profile_id connections = do
    if has_active connections then stop_connections profile_id else pure tt
    profile_deletion p d profile_id (within (write (Store.delete profile_id)))

  -- `delete`
  unfoldable pub delete : Selector → Bool → Exec (Drives W) (Unit {0})
  unfolding active delete_checked within query
  delete selector stop_active = do
    profile ← within (query (resolve p.runtime selector))
    profile_id ← lift (require_id profile)
    connections ← active profile_id
    raise_if (has_active connections && not stop_active) (
        raised configuration "profile.connections.active"
          "Active EC2, RDS or S3 drives must be stopped before profile deletion")
    delete_checked profile_id connections
