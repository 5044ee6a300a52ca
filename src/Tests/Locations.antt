-- ===== src/Tests/Locations.antt =====
-- The theorem on saved locations: a request of one profile, and the location of another.
use aws_ssm_kit.Base.{ℕ, ◌≡◌, ◌≢◌, refl, sym, ◌∙◌, Option, none, some, [], ◌∷◌, arith}
use aws_ssm_kit.Base.Dict.{lookup}
use aws_ssm_kit.Errors.{Result, ok}
use aws_ssm_kit.Text.{codes}
use aws_ssm_kit.Domain.Profile.{require_id}
use aws_ssm_kit.Domain.S3Location.{S3Location}
use aws_ssm_kit.Store.{Db}
use aws_ssm_kit.Application.Env.{Env}
use aws_ssm_kit.Application.Profiles.{by_id, resolve}
use aws_ssm_kit.Application.S3.Locations.{owner_id, location_id}
use aws_ssm_kit.Application.S3.Locations.Owned.{
  delete_location, IsWellFormed, serve, serve_other_profiles,
}
use aws_ssm_kit.Tests.Samples.{ascii, location, db, quiet_ports}

abbrev foreign : S3Location
foreign = record location { id = some 5; profile_id = 2; name = codes "theirs" }

abbrev shared : Env ℕ
shared = record {
  db = record db { locations = (5, foreign) ∷ []; last_location = 5 };
  world = 0;
  log = [];
}

shared-IsWellFormed : IsWellFormed shared.db
unfolding lookup aws_ssm_kit.Store.Named.Unique.has_named
shared-IsWellFormed = record {
  keys_once = (refl, tt);
  keys_given = λ k h. ground arith;
  keyed = λ k row h. ground arith;
  names_once = (refl, tt);
}

owner_of_request : owner_id ascii (by_id 1) shared.db ≡ ok 1
unfolding owner_id resolve require_id aws_ssm_kit.Store.Profiles.get
    aws_ssm_kit.Store.Profiles.read_row aws_ssm_kit.Base.Dict.lookup
    aws_ssm_kit.Domain.Profile.aws_profile aws_ssm_kit.Text.strip aws_ssm_kit.Text.Regex.fullmatch
    aws_ssm_kit.Text.has_char aws_ssm_kit.Text.starts_with
owner_of_request = refl

serve_other_profiles_example :
    lookup 5 (serve quiet_ports (delete_location (location_id 5) (by_id 1)) shared).db.locations
    ≡ some foreign
unfolding lookup
serve_other_profiles_example =
    serve_other_profiles quiet_ports (delete_location (location_id 5) (by_id 1)) 5 foreign shared
      shared-IsWellFormed here other
  where
    here : lookup 5 shared.db.locations ≡ some foreign
    here = refl

    clash : ¬ ◌≡◌ {A = Result ℕ} (ok 1) (ok 2)
    clash q = absurd (ground arith)

    other : owner_id ascii (by_id 1) shared.db ≢ ok 2
    other q = clash (sym owner_of_request ∙ q)
