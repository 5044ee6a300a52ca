-- ===== src/Tests/Drives.antt =====
-- The theorems on drives and on the deletion of a profile at two mounts.
use aws_ssm_kit.Base.{
  ℕ, ◌≡◌, refl, Bool, true, false, Option, none, some, List, [], ◌∷◌, Bool-cases, inl, inr, arith,
  if◌then◌else◌, ◌==◌,
}
use aws_ssm_kit.Errors.{ok, err, app, raised, configuration}
use aws_ssm_kit.Text.{Text, codes, same}
use aws_ssm_kit.Domain.S3Drive.{S3Drive, DriveState}
use aws_ssm_kit.Store.{Db}
use aws_ssm_kit.Store.Drives as Store
use aws_ssm_kit.Domain.Profile.{require_id}
use aws_ssm_kit.Application.Operations.{OperationContext, OperationState}
use aws_ssm_kit.Application.Profiles.{by_id, resolve}
use aws_ssm_kit.Application.Drives.{DrivePorts, Drives, connect, stop_each}
use aws_ssm_kit.Application.Lifecycle.{Owners, delete}
use aws_ssm_kit.Application.Lifecycle.Deletion.{Deleted, delete_all_or_nothing}
use aws_ssm_kit.Application.Drives.Shutdown.{MountLaws}
use aws_ssm_kit.Application.Drives.Attempts.{stop_each_asks}
use aws_ssm_kit.Tests.Samples.{ascii, profile, drive, db, quiet_ports}

-- the mounted drives, and the drives that were asked to disconnect
pub record Mounts : Type 0 where
  pub on : S3Drive → Bool
  pub asked : List S3Drive

abbrev mount_ports : DrivePorts Mounts
mount_ports = record {
  is_cancelled = λ token w. false;
  available_letters = λ w. (ok (codes "X" ∷ codes "Y" ∷ []), w);
  status = λ d w. (
    ok (record {
      drive = d;
      state = if w.on d then DriveState.connected else DriveState.disconnected;
      message_code = "";
    }),
    w,
  );
  connect = λ d c region context w.
      (ok tt, record w { on = λ other. if same other.letter d.letter then true else w.on other });
  disconnect = λ d w. (
    ok tt,
    record {
      on = λ other. if same other.letter d.letter then false else w.on other;
      asked = d ∷ w.asked;
    },
  );
  assert_editable = λ d w. (ok tt, w);
}

same_refl : (s : Text) → same s s ≡ true
unfolding same
same_refl [] = refl
same_refl (a ∷ s) = ground (arith, same_refl s)

mount_laws : MountLaws (λ w. w.on) mount_ports
mount_laws = record {
  disconnect_ok = λ d w h. rw (same_refl d.letter) refl;
  disconnect_keeps = λ d other w h. elim (Bool-cases (same other.letter d.letter)) [
    | inl e ↦ rw e refl
    | inr e ↦ rw e h
  ];
}

-- a row as `save_drive` stores it
abbrev row : S3Drive
row = record {
  id = some 1;
  profile_id = 1;
  name = codes "logs";
  bucket = codes "my-bucket";
  prefix = codes "2026";
  letter = codes "S";
  local_prefix = codes "team";
}

abbrev mounted : Drives Mounts
mounted = record {
  env = record {
    db = record db { drives = (1, row) ∷ []; last_drive = 1 };
    world = record { on = λ d. true; asked = [] };
    log = [];
  };
  closing = false;
}

abbrev request : OperationContext
request = record { operation_id = 4; cancellation = 0 }

-- a mount that never lets go of its drive
abbrev stuck_ports : DrivePorts Mounts
stuck_ports = record mount_ports {
  disconnect = λ d w.
      (err (app (raised configuration "drive.busy" "in use")), record w { asked = d ∷ w.asked });
}

stop_each_asks_example :
    (stop_each quiet_ports stuck_ports (row ∷ drive ∷ []) none mounted).1.env.world.asked
    ≡ drive ∷ row ∷ []
stop_each_asks_example =
    stop_each_asks quiet_ports stuck_ports (λ w. w.asked) (λ d w. refl) (λ d w. tt)
      (row ∷ drive ∷ []) none mounted

abbrev owners : Owners Mounts
owners = record {
  external_sessions =
      λ id w. (ok (record { state = OperationState.running; error = none } ∷ []), w);
  stop_external_for_profile = λ id w. (ok tt, w);
  active_tunnels = λ id w. (ok [], w);
  stop_tunnels = λ id w. (ok tt, w);
}

profile_listed : Store.list_drives ascii (some 1) mounted.env.db ≡ ok (row ∷ [])
unfolding Store.list_drives aws_ssm_kit.Domain.S3Drive.s3_drive
    aws_ssm_kit.Domain.S3Location.s3_location aws_ssm_kit.Text.strip
    aws_ssm_kit.Domain.S3Location.is_bucket aws_ssm_kit.Text.Regex.fullmatch
    aws_ssm_kit.Text.has_part aws_ssm_kit.Text.has_char aws_ssm_kit.Domain.S3Drive.is_letter
    aws_ssm_kit.Domain.S3Drive.letter_form aws_ssm_kit.Text.map_text
    aws_ssm_kit.Domain.S3Drive.local_form aws_ssm_kit.Text.replace_char aws_ssm_kit.Text.split
    aws_ssm_kit.Domain.S3Drive.bad_part same aws_ssm_kit.Text.ends_with
    aws_ssm_kit.Store.Locations.read_all aws_ssm_kit.Store.Named.ordered
    aws_ssm_kit.Store.Named.place aws_ssm_kit.Store.Profiles.before aws_ssm_kit.Text.Regex.deriv
    aws_ssm_kit.Text.Regex.nullable aws_ssm_kit.Text.first_part aws_ssm_kit.Text.lstrip
    aws_ssm_kit.Text.rstrip aws_ssm_kit.Text.starts_with
profile_listed = refl

selected : resolve ascii (by_id 1) mounted.env.db ≡ ok profile
unfolding resolve aws_ssm_kit.Store.Profiles.get aws_ssm_kit.Store.Profiles.read_row
    aws_ssm_kit.Base.Dict.lookup aws_ssm_kit.Domain.Profile.aws_profile aws_ssm_kit.Text.strip
    aws_ssm_kit.Text.Regex.fullmatch aws_ssm_kit.Text.has_char aws_ssm_kit.Text.starts_with
selected = refl

known : require_id profile ≡ ok 1
unfolding require_id
known = refl

delete_all_or_nothing_example :
    let after = delete quiet_ports mount_ports owners (by_id 1) true mounted in
    Deleted (λ w. w.on) 1 (row ∷ []) mounted.env.db after.0 after.1
delete_all_or_nothing_example =
    delete_all_or_nothing quiet_ports mount_ports owners (λ w. w.on) mount_laws (λ d other w h. h)
      (by_id 1) profile 1 (row ∷ []) true mounted selected known profile_listed
