-- ===== src/Application/Lifecycle/Deletion.antt =====
-- Deleting a profile, beside its drives.
use aws_ssm_kit.Base.{
  ℕ, ◌≡◌, refl, Bool, false, not, ◌&&◌, Option, none, some, List, [], ◌∷◌, arith, if◌then◌else◌,
}
use aws_ssm_kit.Base.Dict.{lookup, erase, lookup-erase}
use aws_ssm_kit.Errors.{
  ApplicationError, Result, ok, err, app, Failure, Exec, pure, lift, raise_if, raised,
  configuration, ◌>>=◌, ◌>>◌,
}
use aws_ssm_kit.Errors.Keeps.{Keeps, Keeps-bind, Keeps-if, keeps_rules}
use aws_ssm_kit.Errors.Runs.{Runs, Runs-bind, Runs-Keeps}
use aws_ssm_kit.Domain.Profile.{AwsProfile, require_id}
use aws_ssm_kit.Domain.S3Drive.{S3Drive}
use aws_ssm_kit.Store.{Db}
use aws_ssm_kit.Store.Drives as Store
use aws_ssm_kit.Store.Profiles as Profiles
use aws_ssm_kit.Store.Profiles.Sound.{lookup-promote}
use aws_ssm_kit.Application.Env.{Ports, call, query, write}
use aws_ssm_kit.Application.Profiles.{Selector, resolve}
use aws_ssm_kit.Application.Tunnels.Managed.{attempt, caught}
use aws_ssm_kit.Application.Drives.{
  DrivePorts, Drives, within, mounts, list, statuses, saved_drives, stop, stop_each, assert_all,
  profile_deletion,
}
use aws_ssm_kit.Application.Drives.Shutdown.{MountLaws, Clear, Stopped, stop-drives, stop_each-Runs}
use aws_ssm_kit.Application.Lifecycle.{
  ProfileConnections, Owners, has_active, raise_some, active, stop_connections, delete_checked,
  delete,
}

module _ {W : Type 0} (db : Db) where
  -- the database is as it was
  abbrev pub Same : Drives W → Type 0
  Same s = s.env.db ≡ db

  mounts-Keeps : {A : Type 0} (m : Exec W A) → Keeps Same (mounts m)
  unfolding mounts within call
  mounts-Keeps m = record { at = λ s h. h }

  read-Keeps : {A : Type 0} (f : Db → Result A) → Keeps Same (within (query f))
  unfolding within query
  read-Keeps f = record { at = λ s h. h }

  caught-Same : {A : Type 0} (r : Result A) (s : Drives W) → Same s → Same (caught r s).1
  unfolding caught
  caught-Same (ok a) s h = h
  caught-Same (err (app e)) s h = h
  caught-Same (err Failure.cancelled) s h = h
  caught-Same (err Failure.untyped) s h = h

  attempt-Keeps : {A : Type 0} (m : Exec (Drives W) A) → Keeps Same m → Keeps Same (attempt m)
  unfolding attempt
  attempt-Keeps m k = record { at = λ s h. caught-Same (m s).0 (m s).1 (k.at s h) }

  raise_some-Keeps : (o : Option ApplicationError) → Keeps Same (raise_some o)
  raise_some-Keeps none = search keeps_rules
  raise_some-Keeps (some e) = search keeps_rules

ruleset same_rules = (keeps_rules, mounts-Keeps, read-Keeps, attempt-Keeps, raise_some-Keeps)

module _ {W : Type 0} (p : Ports W) (d : DrivePorts W) (o : Owners W) (db : Db) where
  statuses-Keeps : (drives : List S3Drive) → Keeps (Same db) (statuses p d drives)
  unfolding statuses
  statuses-Keeps [] = search same_rules
  statuses-Keeps (drive ∷ drives) =
      Keeps-bind (mounts (d.status drive)) _ (search same_rules) (λ status.
        Keeps-bind (statuses p d drives) _ (statuses-Keeps drives) (λ rest. search same_rules))

  list-Keeps : (profile_id : Option ℕ) → Keeps (Same db) (list p d profile_id)
  unfolding list saved_drives
  list-Keeps profile_id = search (same_rules, statuses-Keeps) depth 8

  active-Keeps : (profile_id : ℕ) → Keeps (Same db) (active p d o profile_id)
  unfolding active
  active-Keeps profile_id = search (same_rules, list-Keeps) depth 14

  stop_connections-Keeps : (profile_id : ℕ) → Keeps (Same db) (stop_connections p d o profile_id)
  unfolding stop_connections
  stop_connections-Keeps profile_id = search same_rules depth 10

  stop_each-Keeps :
      (drives : List S3Drive) (first : Option ApplicationError)
      → Keeps (Same db) (stop_each p d drives first)
  unfolding stop_each
  stop_each-Keeps [] none = search same_rules
  stop_each-Keeps [] (some e) = search same_rules
  stop_each-Keeps (drive ∷ drives) first =
      Keeps-bind (attempt (mounts (d.disconnect drive))) _ (search same_rules)
        (λ outcome. stop_each-Keeps drives _)

  assert_all-Keeps : (drives : List S3Drive) → Keeps (Same db) (assert_all p d drives)
  unfolding assert_all
  assert_all-Keeps [] = search same_rules
  assert_all-Keeps (drive ∷ drives) =
      Keeps-bind (mounts (d.assert_editable drive)) _ (search same_rules)
        (λ _. assert_all-Keeps drives)

-- The mounts keep what is disconnected when they are asked whether a drive may be edited.
abbrev pub EditLaw : {W : Type 0} → (W → S3Drive → Bool) → DrivePorts W → Type 0
EditLaw {W} mounted d =
    (drive other : S3Drive) (w : W)
    → mounted w other ≡ false
    → mounted (d.assert_editable drive w).1 other ≡ false

module _ {W : Type 0} (mounted : W → S3Drive → Bool) (profile_id : ℕ) (drives : List S3Drive)
    (db : Db) where
  -- what a deletion leaves
  abbrev pub Deleted : Result (Unit {0}) → Drives W → Type 0
  Deleted (ok u) s = (lookup profile_id s.env.db.profiles ≡ none) × Clear mounted drives s.env.world
  Deleted (err x) s = Same db s

module _ {W : Type 0} (p : Ports W) (d : DrivePorts W) (o : Owners W) (mounted : W → S3Drive → Bool)
    (laws : MountLaws mounted d) (edits : EditLaw mounted d) (profile_id : ℕ)
    (drives : List S3Drive) (db : Db)
    (listed : Store.list_drives p.runtime (some profile_id) db ≡ ok drives) where
  -- the database is as it was, and the drives are disconnected
  abbrev Halted : Drives W → Type 0
  Halted s = Same db s × Clear mounted drives s.env.world

  -- a step that ends halted, or fails on the same database
  abbrev Halts : {A : Type 0} → Result A → Drives W → Type 0
  Halts (ok a) s = Halted s
  Halts (err x) s = Same db s

  stop-Runs : Runs (Same db) (stop p d (some profile_id)) Halts
  stop-Runs = record { from = λ s h. go s h }
    where
      halts :
          (b : Bool) (r : Result (Unit {0})) (t : Drives W)
          → Same db t
          → Stopped p d mounted laws b none drives [] r t
          → Halts r t
      halts b (ok u) t same q = (same, q.2)
      halts b (err x) t same q = same

      go :
          (s : Drives W)
          → Same db s
          → Halts (stop p d (some profile_id) s).0 (stop p d (some profile_id) s).1
      go s h = rw (stop-drives p d mounted laws (some profile_id) s drives (rw h listed)) (
          halts s.closing _ _ ((stop_each-Keeps p d o db drives none).at s h)
            ((stop_each-Runs p d mounted laws s.closing drives none []).from s (refl, tt)))

  Clear-edit :
      (drive : S3Drive) (rest : List S3Drive) (w : W)
      → Clear mounted rest w
      → Clear mounted rest (d.assert_editable drive w).1
  Clear-edit drive [] w h = tt
  Clear-edit drive (other ∷ rest) w h = (edits drive other w h.0, Clear-edit drive rest w h.1)

  edit-Keeps : (drive : S3Drive) → Keeps Halted (mounts (d.assert_editable drive))
  unfolding mounts within call
  edit-Keeps drive = record { at = λ s h. (h.0, Clear-edit drive drives s.env.world h.1) }

  asserted-Keeps : (rest : List S3Drive) → Keeps Halted (assert_all p d rest)
  unfolding assert_all
  asserted-Keeps [] = search keeps_rules
  asserted-Keeps (drive ∷ rest) =
      Keeps-bind (mounts (d.assert_editable drive)) _ (edit-Keeps drive) (λ _. asserted-Keeps rest)

  saved-Keeps : Keeps Halted (saved_drives p d (some profile_id))
  unfolding saved_drives within query
  saved-Keeps = record { at = λ s h. h }

  -- the write of the store: it deletes the row, or leaves the database
  write-Runs :
      Runs Halted
        (within (write (Profiles.delete profile_id)))
        (Deleted mounted profile_id drives db)
  unfolding within write Profiles.delete Profiles.cascade
  write-Runs = record { from = λ s h. go s h (lookup profile_id s.env.db.profiles) refl }
    where
      go :
          (s : Drives W)
          → Halted s
          → (row : Option AwsProfile) → lookup profile_id s.env.db.profiles ≡ row
          → (Deleted mounted profile_id drives db)
              (within (write (Profiles.delete profile_id)) s).0
              (within (write (Profiles.delete profile_id)) s).1
      go s h none e = rw (e, Profiles.delete) h.0
      go s h (some row) e =
          let rest = erase profile_id s.env.db.profiles in
          let gone : lookup profile_id rest ≡ none =
            ground (arith, lookup-erase profile_id profile_id s.env.db.profiles) in
          rw (e, Profiles.delete) (ground (arith, lookup-promote profile_id rest gone), h.1)

  done_or_same : {A : Type 0} (r : Result A) (s : Drives W) → Halted s → Halts r s
  done_or_same (ok a) s h = h
  done_or_same (err x) s h = h.0

  deletion-Runs :
      Runs
        (Same db)
        (profile_deletion p d profile_id (within (write (Profiles.delete profile_id))))
        (Deleted mounted profile_id drives db)
  unfolding profile_deletion
  deletion-Runs =
      Runs-bind (stop p d (some profile_id)) _ stop-Runs
        (λ _.
          Runs-bind (saved_drives p d (some profile_id)) _ (Runs-Keeps _ saved-Keeps)
            (λ found.
              Runs-bind (assert_all p d found) _ (Runs-Keeps _ (asserted-Keeps found))
                (λ _. write-Runs) (λ x s h. h.0))
            (λ x s h. h.0))
        (λ x s h. h)

  checked-Runs :
      (connections : ProfileConnections)
      → Runs
          (Same db)
          (delete_checked p d o profile_id connections)
          (Deleted mounted profile_id drives db)
  unfolding delete_checked
  checked-Runs connections =
      Runs-bind (if has_active connections then stop_connections p d o profile_id else pure tt) _
        (Runs-Keeps _ (
          Keeps-if (has_active connections) (stop_connections p d o profile_id) (pure tt)
            (stop_connections-Keeps p d o db profile_id) (search keeps_rules)))
        (λ _. deletion-Runs) (λ x s h. h)

  found-Runs :
      (stop_active : Bool)
      → Runs
          (Same db)
          (active p d o profile_id >>= λ connections.
            raise_if (has_active connections && not stop_active) (
              raised configuration "profile.connections.active"
                "Active EC2, RDS or S3 drives must be stopped before profile deletion")
            >> delete_checked p d o profile_id connections)
          (Deleted mounted profile_id drives db)
  found-Runs stop_active =
      Runs-bind (active p d o profile_id) _ (Runs-Keeps _ (active-Keeps p d o db profile_id))
        (λ connections.
          Runs-bind (raise_if _ _) _ (Runs-Keeps _ (search same_rules))
            (λ _. checked-Runs connections) (λ x s h. h))
        (λ x s h. h)

module _ {W : Type 0} (p : Ports W) (d : DrivePorts W) (o : Owners W) (mounted : W → S3Drive → Bool)
    (laws : MountLaws mounted d) (edits : EditLaw mounted d) where
  -- Deleting a profile is all or nothing: where it returns, the profile's row is gone and none of its
  -- drives is mounted; where it raises, the database is as it was. It holds whatever the EC2 sessions
  -- and the tunnels answer, with and without leave to stop what is active. The profile is the selected
  -- one, and the rows of its drives are readable. Of the mounts it takes the laws `MountLaws`, that a
  -- drive is no longer mounted where its disconnection returned and that none mounts another, and
  -- `EditLaw`, that the check of a drive for editing mounts none.
  pub delete_all_or_nothing :
      (selector : Selector) (profile : AwsProfile) (profile_id : ℕ) (drives : List S3Drive)
      (stop_active : Bool) (s : Drives W)
      → resolve p.runtime selector s.env.db ≡ ok profile
      → require_id profile ≡ ok profile_id
      → Store.list_drives p.runtime (some profile_id) s.env.db ≡ ok drives
      → Deleted mounted profile_id drives s.env.db
          (delete p d o selector stop_active s).0
          (delete p d o selector stop_active s).1
  unfolding delete within query lift ◌>>=◌
  delete_all_or_nothing selector profile profile_id drives stop_active s selected known listed =
      rw (selected, known)
        ((found-Runs p d o mounted laws edits profile_id drives s.env.db listed stop_active).from s
          refl)
