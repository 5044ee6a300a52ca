-- ===== src/Store.antt =====
-- infrastructure/sqlite_profile_store.py: the tables behind the store ports. A table is its rows by
-- primary key, in the order of insertion, with the last key that was given out (AUTOINCREMENT). A
-- transaction that raises is rolled back: it leaves the tables as they were.
pub mod Profiles
pub mod Sessions
pub mod Tunnels
pub mod Named
pub mod Locations
pub mod Drives
pub mod Secrets
pub mod Settings
use aws_ssm_kit.Base.{ℕ, Option, none, some, List, []}
use aws_ssm_kit.Base.Dict.{Dict}
use aws_ssm_kit.Domain.Profile.{AwsProfile, SessionCredentials}
use aws_ssm_kit.Domain.Tunnel.{TunnelSession}
use aws_ssm_kit.Domain.S3Location.{S3Location}
use aws_ssm_kit.Domain.S3Drive.{S3Drive}
use aws_ssm_kit.Domain.SavedSecret.{SavedSecret}
use aws_ssm_kit.Text.{Text}

-- a row of `ec2_favorites`, without its date
pub record Favorite : Type 0 where
  pub profile_id : ℕ
  pub region : Text
  pub instance_id : Text

pub record Db : Type 0 where
  pub profiles : Dict AwsProfile
  pub last_profile : ℕ
  pub sessions : Dict SessionCredentials
  pub tunnels : Dict TunnelSession
  pub last_tunnel : ℕ
  pub locations : Dict S3Location
  pub last_location : ℕ
  pub drives : Dict S3Drive
  pub last_drive : ℕ
  pub secrets : Dict SavedSecret
  pub last_secret : ℕ
  -- the keys and values of `app_settings`
  pub settings : List (Text × Text)
  pub favorites : List Favorite

-- a database on which the migrations have just run
abbrev pub fresh : Db
fresh = record {
  profiles = [];
  last_profile = 0;
  sessions = [];
  tunnels = [];
  last_tunnel = 0;
  locations = [];
  last_location = 0;
  drives = [];
  last_drive = 0;
  secrets = [];
  last_secret = 0;
  settings = [];
  favorites = [];
}
