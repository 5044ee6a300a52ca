-- ===== src/Application/Drives.antt =====
-- application/s3_drive_service.py: `S3DriveService`. The lock makes a call one step; the mounts of
-- application/s3_drive_ports.py are the parameter `DrivePorts`.
pub mod Shutdown
pub mod Attempts
use aws_ssm_kit.Base.{
  ℕ, String, Bool, true, false, not, Option, none, some, List, [], ◌∷◌, ◌==◌, any, keep,
  if◌then◌else◌,
}
use aws_ssm_kit.Errors.{
  ApplicationError, Result, ok, err, Failure, raised, configuration, Exec, pure, lift, raise,
  raise_if, rescue, ◌>>=◌, ◌>>◌,
}
use aws_ssm_kit.Text.{Text, same}
use aws_ssm_kit.Domain.Profile.{PlainCredentials}
use aws_ssm_kit.Domain.S3Drive.{S3Drive, s3_drive, DriveState, DriveStatus, windows_path}
use aws_ssm_kit.Store.Profiles.{before}
use aws_ssm_kit.Store.Drives as Store
use aws_ssm_kit.Application.Env.{Ports, Env, call, query, write}
use aws_ssm_kit.Application.Operations.{OperationContext}
use aws_ssm_kit.Application.Profiles.{by_id, resolve}
use aws_ssm_kit.Application.Sessions.{require_credentials}
use aws_ssm_kit.Application.Tunnels.Managed.{Attempt, returned, refused, attempt}
use aws_ssm_kit.Application.Tunnels.Managed.Stop.{keep_first}

pub record DrivePorts (W : Type 0) : Type 0 where
  pub is_cancelled : ℕ → W → Bool
  pub available_letters : Exec W (List Text)
  pub status : S3Drive → Exec W DriveStatus
  pub connect : S3Drive → PlainCredentials → Text → OperationContext → Exec W (Unit {0})
  pub disconnect : S3Drive → Exec W (Unit {0})
  pub assert_editable : S3Drive → Exec W (Unit {0})

-- the service: `_closing` beside what its collaborators keep
pub record Drives (W : Type 0) : Type 0 where
  pub env : Env W
  pub closing : Bool

abbrev pub drive_error : String → String → ApplicationError
drive_error code cause = raised configuration code cause

-- `sorted(available)[0]`
unfoldable pub first_letter : List Text → Option Text
first_letter [] = none
first_letter (letter ∷ letters) = elim (first_letter letters) [
  | none ↦ some letter
  | some other ↦ some (if before other letter then other else letter)
]

-- `available - reserved`
abbrev pub unreserved : List S3Drive → List Text → List Text
unreserved drives letters = keep (λ l. not (any (λ d. same d.letter l) drives)) letters

module _ {W : Type 0} where
  unfoldable pub within : {A : Type 0} → Exec (Env W) A → Exec (Drives W) A
  within m s = let (r, e) = m s.env in (r, record s { env = e })

  -- a call of the mounts
  unfoldable pub mounts : {A : Type 0} → Exec W A → Exec (Drives W) A
  unfolding within call
  mounts m = within (call m)

  unfoldable pub set_closing : Bool → Exec (Drives W) (Unit {0})
  set_closing b s = (ok tt, record s { closing = b })

  unfoldable pub is_closing : Exec (Drives W) Bool
  is_closing s = (ok s.closing, s)

  -- the end of `_stop`
  abbrev pub stopped : Option ApplicationError → Exec (Drives W) (Unit {0})
  stopped none = pure tt
  stopped (some e) = raise e

module _ {W : Type 0} (p : Ports W) (d : DrivePorts W) where
  unfoldable pub statuses : List S3Drive → Exec (Drives W) (List DriveStatus)
  unfolding mounts
  statuses [] = pure []
  statuses (drive ∷ drives) = do
    status ← mounts (d.status drive)
    rest ← statuses drives
    pure (status ∷ rest)

  unfoldable pub saved_drives : Option ℕ → Exec (Drives W) (List S3Drive)
  unfolding within query
  saved_drives profile_id = within (query (Store.list_drives p.runtime profile_id))

  -- `list`
  unfoldable pub list : Option ℕ → Exec (Drives W) (List DriveStatus)
  unfolding saved_drives statuses
  list profile_id = do drives ← saved_drives profile_id; statuses drives

  unfoldable pub found_drive : Option S3Drive → Exec (Drives W) S3Drive
  found_drive none = raise (drive_error "drive.not_found" "The saved drive no longer exists")
  found_drive (some drive) = pure drive

  -- `get`
  unfoldable pub get : ℕ → Exec (Drives W) S3Drive
  unfolding within query found_drive
  get drive_id = do row ← within (query (Store.get_drive p.runtime drive_id)); found_drive row

  -- the checks of `save` on a drive that has an id
  unfoldable pub check_previous : S3Drive → Option ℕ → Exec (Drives W) (Unit {0})
  unfolding get mounts
  check_previous drive none = pure tt
  check_previous drive (some id) = do
    previous ← get id
    raise_if (not (previous.profile_id == drive.profile_id))
        (drive_error "drive.owner.invalid" "Drive ownership cannot change")
    mounts (d.assert_editable previous)

  -- `save`
  unfoldable pub save : S3Drive → Exec (Drives W) S3Drive
  unfolding within query write check_previous mounts
  save drive = do
    within (query (resolve p.runtime (by_id drive.profile_id)))
    check_previous drive drive.id
    letters ← mounts d.available_letters
    raise_if (not (any (same drive.letter) letters))
        (drive_error "drive.letter.busy" "The selected drive letter is in use")
    within (write (Store.save_drive p.runtime drive))

  -- `connect` past the gate
  unfoldable pub connect_open : ℕ → OperationContext → Exec (Drives W) DriveStatus
  unfolding within query get mounts
  connect_open drive_id context = do
    drive ← get drive_id
    profile ← within (query (resolve p.runtime (by_id drive.profile_id)))
    credentials ← within (require_credentials p drive.profile_id)
    within (λ e.
        (if d.is_cancelled context.cancellation e.world then err Failure.cancelled else ok tt, e))
    mounts (d.connect drive credentials profile.region context)
    mounts (d.status drive)

  -- `connect`
  unfoldable pub connect : ℕ → OperationContext → Exec (Drives W) DriveStatus
  unfolding is_closing connect_open
  connect drive_id context = do
    closing ← is_closing
    raise_if closing (drive_error "drive.closing" "Application shutdown is in progress")
    connect_open drive_id context

  unfoldable pub chosen_letter : Option Text → Exec (Drives W) Text
  chosen_letter none = raise (drive_error "drive.letter.busy" "No unused drive letter for clone")
  chosen_letter (some letter) = pure letter

  -- `clone`: `replace` runs the constructor
  unfoldable pub clone : ℕ → Text → Exec (Drives W) S3Drive
  unfolding get saved_drives mounts chosen_letter save
  clone drive_id name = do
    source ← get drive_id
    others ← saved_drives none
    letters ← mounts d.available_letters
    letter ← chosen_letter (first_letter (unreserved others letters))
    copy ← lift (s3_drive p.runtime (record source { id = none; name = name; letter = letter }))
    save copy

  -- `rename`
  unfoldable pub rename : ℕ → Text → Exec (Drives W) S3Drive
  unfolding get save
  rename drive_id name = do
    source ← get drive_id
    renamed ← lift (s3_drive p.runtime (record source { name = name }))
    save renamed

  abbrev pub is_connected : DriveState → Bool
  is_connected DriveState.connected = true
  is_connected _ = false

  -- `connected_path`
  unfoldable pub connected_path : ℕ → Exec (Drives W) Text
  unfolding get mounts
  connected_path drive_id = do
    drive ← get drive_id
    status ← mounts (d.status drive)
    raise_if (not (is_connected status.state))
        (drive_error "drive.not_connected" "Connect the mount before opening it")
    pure (windows_path drive)

  -- `disconnect`
  unfoldable pub disconnect : ℕ → Exec (Drives W) (Unit {0})
  unfolding get mounts
  disconnect drive_id = do drive ← get drive_id; mounts (d.disconnect drive)

  -- `delete`
  unfoldable pub delete : ℕ → Exec (Drives W) (Unit {0})
  unfolding get mounts within write
  delete drive_id = do
    drive ← get drive_id
    mounts (d.disconnect drive)
    mounts (d.assert_editable drive)
    within (write (Store.delete_drive drive_id))

  -- the loop of `_stop`, with the first error so far
  unfoldable pub stop_each : List S3Drive → Option ApplicationError → Exec (Drives W) (Unit {0})
  unfolding mounts attempt
  stop_each [] first = stopped first
  stop_each (drive ∷ drives) first = do
    outcome ← attempt (mounts (d.disconnect drive))
    stop_each drives (elim outcome [ returned _ ↦ first | refused e ↦ keep_first first e ])

  -- `_stop`
  unfoldable pub stop : Option ℕ → Exec (Drives W) (Unit {0})
  unfolding saved_drives stop_each
  stop profile_id = do drives ← saved_drives profile_id; stop_each drives none

  unfoldable pub assert_all : List S3Drive → Exec (Drives W) (Unit {0})
  unfolding mounts
  assert_all [] = pure tt
  assert_all (drive ∷ drives) = do mounts (d.assert_editable drive); assert_all drives

  -- `profile_deletion`, around the body of the `with`
  unfoldable pub profile_deletion : {A : Type 0} → ℕ → Exec (Drives W) A → Exec (Drives W) A
  unfolding stop saved_drives assert_all
  profile_deletion profile_id body = do
    stop (some profile_id)
    drives ← saved_drives (some profile_id)
    assert_all drives
    body

  -- `shutdown`
  unfoldable pub shutdown : Exec (Drives W) (Unit {0})
  unfolding set_closing stop
  shutdown = do
    set_closing true
    rescue (stop none) (λ _. true) (λ e. do set_closing false; raise e)
