-- ===== src/Store/Sessions.antt =====
-- The table `session_credentials`, one row for each profile that has a cached session.
use aws_ssm_kit.Base.{ℕ, Option}
use aws_ssm_kit.Base.Dict.{lookup, insert, erase}
use aws_ssm_kit.Domain.Profile.{SessionCredentials}
use aws_ssm_kit.Store.{Db}

-- Rows are typed here, so that the branch on malformed timestamps does not arise.
unfoldable pub get_session : ℕ → Db → Option SessionCredentials
get_session profile_id db = lookup profile_id db.sessions

unfoldable pub put_session : SessionCredentials → Db → Db
put_session session db = record db { sessions = insert session.profile_id session db.sessions }

unfoldable pub delete_session : ℕ → Db → Db
delete_session profile_id db = record db { sessions = erase profile_id db.sessions }
