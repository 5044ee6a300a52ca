-- ===== src/Application/Drives/Attempts.antt =====
-- Which drives a stop asks to disconnect.
use aws_ssm_kit.Base.{◌≡◌, refl, Option, none, some, List, [], ◌∷◌}
use aws_ssm_kit.Errors.{ApplicationError, Result, ok, err, app, Failure, pure, raise, ◌>>=◌}
use aws_ssm_kit.Domain.S3Drive.{S3Drive}
use aws_ssm_kit.Application.Env.{Ports, call}
use aws_ssm_kit.Application.Tunnels.Managed.{Attempt, returned, refused, attempt, caught}
use aws_ssm_kit.Application.Tunnels.Managed.Stop.{keep_first}
use aws_ssm_kit.Application.Drives.{DrivePorts, Drives, within, mounts, stop_each}

-- the drives that have been asked to disconnect, the last one first
abbrev pub Asked : {W : Type 0} → (W → List S3Drive) → DrivePorts W → Type 0
Asked {W} asked d = (drive : S3Drive) (w : W) → asked (d.disconnect drive w).1 ≡ drive ∷ asked w

-- A disconnect returns or raises a typed error.
abbrev pub IsTyped : Result (Unit {0}) → Type 0
IsTyped (ok u) = Unit
IsTyped (err (app e)) = Unit
IsTyped (err Failure.cancelled) = ⊥
IsTyped (err Failure.untyped) = ⊥

-- the list `drives` in reverse before `rest`
abbrev pub onto : List S3Drive → List S3Drive → List S3Drive
onto [] rest = rest
onto (drive ∷ drives) rest = onto drives (drive ∷ rest)

module _ {W : Type 0} (p : Ports W) (d : DrivePorts W) (asked : W → List S3Drive)
    (logs : Asked asked d)
    (typed : (drive : S3Drive) (w : W) → IsTyped (d.disconnect drive w).0) where
  attempt_asks :
      (drive : S3Drive) (s : Drives W)
      → (o : Attempt (Unit {0})) × (t : Drives W) × (attempt (mounts (d.disconnect drive)) s
          ≡ (ok o, t))
        × (asked t.env.world ≡ drive ∷ asked s.env.world)
  unfolding attempt caught mounts within call
  attempt_asks drive s = go (d.disconnect drive s.env.world).0 refl (typed drive s.env.world)
    where
      after : Drives W
      after = (mounts (d.disconnect drive) s).1

      go :
          (r : Result (Unit {0}))
          → (d.disconnect drive s.env.world).0 ≡ r
          → IsTyped r
          → (o : Attempt (Unit {0})) × (t : Drives W) × (attempt (mounts (d.disconnect drive)) s
              ≡ (ok o, t))
            × (asked t.env.world ≡ drive ∷ asked s.env.world)
      go (ok u) e h = (returned u, after, rw e refl, logs drive s.env.world)
      go (err (app x)) e h = (refused x, after, rw e refl, logs drive s.env.world)
      go (err Failure.cancelled) e h = absurd h
      go (err Failure.untyped) e h = absurd h

  -- A stop asks each drive once to disconnect, in the order of the list, whatever the drives before
  -- it answer, where a disconnect returns or raises a typed error. The log `asked` is a view of the
  -- world in which each call is noted.
  pub stop_each_asks :
      (drives : List S3Drive) (first : Option ApplicationError) (s : Drives W)
      → asked (stop_each p d drives first s).1.env.world ≡ onto drives (asked s.env.world)
  unfolding stop_each ◌>>=◌ pure raise
  stop_each_asks [] none s = refl
  stop_each_asks [] (some e) s = refl
  stop_each_asks (drive ∷ drives) first s =
      let (o, t, tried, noted) = attempt_asks drive s in
      rw (tried, ← noted)
        (stop_each_asks drives (elim o [ returned _ ↦ first | refused e ↦ keep_first first e ]) t)
