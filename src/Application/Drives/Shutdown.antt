-- ===== src/Application/Drives/Shutdown.antt =====
-- What a stop of the drives leaves.
use aws_ssm_kit.Base.{
  ℕ, ◌≡◌, refl, Bool, true, false, Option, none, some, List, [], ◌∷◌, All, arith,
}
use aws_ssm_kit.Errors.{
  ApplicationError, Result, ok, err, app, Failure, Exec, pure, raise, rescue, rescued, ◌>>=◌, ◌>>◌,
}
use aws_ssm_kit.Errors.Runs.{Runs, Runs-bind}
use aws_ssm_kit.Domain.S3Drive.{S3Drive}
use aws_ssm_kit.Store.Drives as Store
use aws_ssm_kit.Application.Env.{Ports, query}
use aws_ssm_kit.Application.Tunnels.Managed.{Attempt, returned, refused, attempt, caught}
use aws_ssm_kit.Application.Tunnels.Managed.Stop.{keep_first}
use aws_ssm_kit.Application.Drives.{
  DrivePorts, Drives, within, mounts, stop_each, stop, saved_drives, shutdown, set_closing,
}

-- A disconnect that returns leaves its drive disconnected, and none connects a drive.
pub record MountLaws {W : Type 0} (mounted : W → S3Drive → Bool) (d : DrivePorts W) : Type 0 where
  pub disconnect_ok :
      (drive : S3Drive) (w : W)
      → (d.disconnect drive w).0 ≡ ok tt
      → mounted (d.disconnect drive w).1 drive ≡ false
  pub disconnect_keeps :
      (drive other : S3Drive) (w : W)
      → mounted w other ≡ false
      → mounted (d.disconnect drive w).1 other ≡ false

module _ {W : Type 0} (mounted : W → S3Drive → Bool) where
  -- None of the drives is mounted.
  abbrev pub Clear : List S3Drive → W → Type 0
  Clear drives w = All (λ drive. mounted w drive ≡ false) drives

module _ {W : Type 0} (p : Ports W) (d : DrivePorts W) (mounted : W → S3Drive → Bool)
    (laws : MountLaws mounted d) where
  Clear-disconnect :
      (drive : S3Drive) (drives : List S3Drive) (w : W)
      → Clear mounted drives w
      → Clear mounted drives (d.disconnect drive w).1
  Clear-disconnect drive [] w h = tt
  Clear-disconnect drive (other ∷ drives) w h =
      (laws.disconnect_keeps drive other w h.0, Clear-disconnect drive drives w h.1)

  -- the gate and the disconnected drives
  abbrev pub Gated : Bool → List S3Drive → Drives W → Type 0
  Gated b drives s = (s.closing ≡ b) × Clear mounted drives s.env.world

  -- what an attempt to disconnect leaves
  abbrev Tried : Bool → List S3Drive → S3Drive → Result (Attempt (Unit {0})) → Drives W → Type 0
  Tried b drives drive (ok (returned _)) s = Gated b (drive ∷ drives) s
  Tried b drives drive (ok (refused e)) s = Gated b drives s
  Tried b drives drive (err x) s = s.closing ≡ b

  attempt-Runs :
      (b : Bool) (drives : List S3Drive) (drive : S3Drive)
      → Runs (Gated b drives) (attempt (mounts (d.disconnect drive))) (Tried b drives drive)
  unfolding attempt mounts
  attempt-Runs b drives drive = record {
    from = λ s h. go s h (d.disconnect drive s.env.world).0 refl;
  }
    where
      go :
          (s : Drives W)
          → Gated b drives s
          → (r : Result (Unit {0})) → (d.disconnect drive s.env.world).0 ≡ r
          → Tried b drives drive
              (caught r (mounts (d.disconnect drive) s).1).0
              (caught r (mounts (d.disconnect drive) s).1).1
      go s h (ok u) e = (
        h.0,
        (laws.disconnect_ok drive s.env.world e, Clear-disconnect drive drives s.env.world h.1),
      )
      go s h (err (app x)) e = (h.0, Clear-disconnect drive drives s.env.world h.1)
      go s h (err Failure.cancelled) e = h.0
      go s h (err Failure.untyped) e = h.0

  -- what the loop leaves: it returns only where no error was met
  abbrev pub Stopped :
      Bool
      → Option ApplicationError
      → List S3Drive
      → List S3Drive
      → Result (Unit {0})
      → Drives W
      → Type 0
  Stopped b first drives before (ok u) s =
      (first ≡ none)
      × (s.closing ≡ b)
      × Clear mounted drives s.env.world
      × Clear mounted before s.env.world
  Stopped b first drives before (err x) s = s.closing ≡ b

  -- the error that the loop carries on
  abbrev next_first : Option ApplicationError → Attempt (Unit {0}) → Option ApplicationError
  next_first first outcome = elim outcome [ returned _ ↦ first | refused e ↦ keep_first first e ]

  pub stop_each-Runs :
      (b : Bool) (drives : List S3Drive) (first : Option ApplicationError) (before : List S3Drive)
      → Runs (Gated b before) (stop_each p d drives first) (Stopped b first drives before)
  unfolding stop_each pure raise
  stop_each-Runs b [] none before = record { from = λ s h. (refl, h.0, tt, h.1) }
  stop_each-Runs b [] (some e) before = record { from = λ s h. h.0 }
  stop_each-Runs b (drive ∷ drives) first before =
      Runs-bind (attempt (mounts (d.disconnect drive))) _ (attempt-Runs b before drive)
        (λ outcome. later outcome (stop_each-Runs b drives (next_first first outcome))) (λ x s h. h)
    where
      later :
          (outcome : Attempt (Unit {0}))
          → ((before : List S3Drive)
              → Runs
                  (Gated b before)
                  (stop_each p d drives (next_first first outcome))
                  (Stopped b (next_first first outcome) drives before))
          → Runs
              (Tried b before drive (ok outcome))
              (stop_each p d drives (next_first first outcome))
              (Stopped b first (drive ∷ drives) before)
      later (returned u) rest = record {
        from = λ s h. moved _ _ ((rest (drive ∷ before)).from s h);
      }
        where
          moved :
              (r : Result (Unit {0})) (s : Drives W)
              → Stopped b first drives (drive ∷ before) r s
              → Stopped b first (drive ∷ drives) before r s
          moved (ok u) s q = (q.0, q.1, (q.3.0, q.2), q.3.1)
          moved (err x) s q = q
      later (refused e) rest = record { from = λ s h. failed _ _ ((rest before).from s h) }
        where
          failed :
              (r : Result (Unit {0})) (s : Drives W)
              → Stopped b (keep_first first e) drives before r s
              → Stopped b first (drive ∷ drives) before r s
          failed (ok u) s q = absurd (ground arith)
          failed (err x) s q = q

  pub stop-drives :
      (wanted : Option ℕ) (s : Drives W) (drives : List S3Drive)
      → Store.list_drives p.runtime wanted s.env.db ≡ ok drives
      → stop p d wanted s ≡ stop_each p d drives none s
  unfolding stop saved_drives within query ◌>>=◌
  stop-drives wanted s drives h = rw h refl

  -- the state in which `shutdown` begins to stop
  abbrev closed : Drives W → Drives W
  closed s = record s { closing = true }

  shutdown_cases :
      (s : Drives W) (drives : List S3Drive)
      → Store.list_drives p.runtime none s.env.db ≡ ok drives
      → ((shutdown p d s).0 ≡ ok tt
          → Clear mounted drives (shutdown p d s).1.env.world × ((shutdown p d s).1.closing ≡ true))
        × ((e : ApplicationError)
            → (shutdown p d s).0 ≡ err (app e)
            → (shutdown p d s).1.closing ≡ false)
  unfolding shutdown set_closing rescue ◌>>=◌ raise
  shutdown_cases s drives listed =
      rw (stop-drives none (closed s) drives listed)
        (go _ _ ((stop_each-Runs true drives none []).from (closed s) (refl, tt)))
    where
      handler : ApplicationError → Exec (Drives W) (Unit {0})
      handler e = set_closing false >> raise e

      go :
          (r : Result (Unit {0})) (t : Drives W)
          → Stopped true none drives [] r t
          → ((rescued (λ _. true) handler r t).0 ≡ ok tt
              → Clear mounted drives (rescued (λ _. true) handler r t).1.env.world
                × ((rescued (λ _. true) handler r t).1.closing ≡ true))
            × ((e : ApplicationError)
                → (rescued (λ _. true) handler r t).0 ≡ err (app e)
                → (rescued (λ _. true) handler r t).1.closing ≡ false)
      go (ok u) t q = (λ h. (q.2, q.1), λ e h. absurd (ground arith))
      go (err (app x)) t q = (λ h. absurd (ground arith), λ e h. refl)
      go (err Failure.cancelled) t q = (λ h. absurd (ground arith), λ e h. absurd (ground arith))
      go (err Failure.untyped) t q = (λ h. absurd (ground arith), λ e h. absurd (ground arith))

  -- A shutdown that raises a typed error opens the gate again.
  shutdown_reopens :
      (s : Drives W) (drives : List S3Drive) (e : ApplicationError)
      → Store.list_drives p.runtime none s.env.db ≡ ok drives
      → (shutdown p d s).0 ≡ err (app e)
      → (shutdown p d s).1.closing ≡ false
  shutdown_reopens s drives e listed = (shutdown_cases s drives listed).1 e
