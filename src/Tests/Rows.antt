-- ===== src/Tests/Rows.antt =====
-- The theorem on the tables of a profile at sample rows.
use aws_ssm_kit.Base.{ℕ, refl, List, [], ◌∷◌, none, some, arith}
use aws_ssm_kit.Base.Dict.{lookup}
use aws_ssm_kit.Store.{Db, fresh}
use aws_ssm_kit.Store.Drives.Refines.{
  Request, save, delete, Runs, serve_all, view, profiles_of, serve_all_refines,
}
use aws_ssm_kit.Store.Named.{Named}
use aws_ssm_kit.Store.Named.Sound.{IsKept}
use aws_ssm_kit.Store.Named.Tables.{IsNamed}
use aws_ssm_kit.Store.Named.Writes.{
  Write, create_tunnel, create_location, save_drive, upsert_secret, delete_profile, write_rows,
  write_rows-IsNamed,
}
use aws_ssm_kit.Tests.Samples.{ascii, profile, tunnel, location, drive, secret}

empty-IsKept : {R : Type 0} (n : Named R) → IsKept n [] 0
unfolding lookup
empty-IsKept n = record {
  keys_once = tt;
  keys_given = λ k h. refl;
  keyed = λ k row h. absurd (ground arith);
  names_once = tt;
}

abbrev one_profile : Db
one_profile = record fresh { profiles = (1, profile) ∷ []; last_profile = 1 }

one_profile-IsNamed : IsNamed one_profile
one_profile-IsNamed = record {
  tunnels_kept = empty-IsKept _;
  locations_kept = empty-IsKept _;
  drives_kept = empty-IsKept _;
  secrets_kept = empty-IsKept _;
}

-- the second location has the name of the first
abbrev writes : List (ℕ × Write)
writes =
    (1, create_tunnel tunnel)
    ∷ (2, create_location location)
    ∷ (3, create_location location)
    ∷ (4, save_drive (record drive { id = none }))
    ∷ (5, upsert_secret secret)
    ∷ (6, upsert_secret secret)
    ∷ (7, delete_profile 1)
    ∷ []

write_rows-IsNamed_example : IsNamed (write_rows ascii writes one_profile)
write_rows-IsNamed_example = write_rows-IsNamed ascii writes one_profile one_profile-IsNamed

-- a drive, a drive with its name, and the deletion of the first
abbrev drive_requests : List Request
drive_requests =
    save (record drive { id = none })
    ∷ save (record drive { id = some 4 })
    ∷ save (record drive { id = none })
    ∷ delete 1
    ∷ []

serve_all_refines_example :
    Runs ascii
      (profiles_of one_profile)
      drive_requests
      (view one_profile)
      (serve_all ascii drive_requests one_profile).0
      (view (serve_all ascii drive_requests one_profile).1)
serve_all_refines_example = serve_all_refines ascii drive_requests one_profile one_profile-IsNamed
