-- ===== src/Store/Profiles/Writes.antt =====
-- Sequences of writes of the profile table.
use aws_ssm_kit.Base.{ℕ, List, [], ◌∷◌}
use aws_ssm_kit.Text.{Runtime}
use aws_ssm_kit.Store.{Db}
use aws_ssm_kit.Store.Profiles.Defaults.{IsSound}
use aws_ssm_kit.Store.Profiles.Sound.{Statement, execute, execute-IsSound}
use aws_ssm_kit.Store.Profiles.Retired.{
  IsRetired, same-IsRetired, IsRetired-trans, execute-IsRetired,
}

pub execute_all : Runtime → List (ℕ × Statement) → Db → Db
execute_all u [] db = db
execute_all u ((now, statement) ∷ rest) db = execute_all u rest (execute u now statement db)

-- After any sequence of profile writes, failing ones included, on a sound database: no key is
-- listed twice, none exceeds the last one that was given out, and exactly one profile is the default
-- unless there is none. The last key does not decrease, and a key that was given out and had no row
-- before the writes has none after them.
pub execute_all-IsSound :
    (u : Runtime) (statements : List (ℕ × Statement)) (db : Db)
    → IsSound db
    → IsSound (execute_all u statements db) × IsRetired db (execute_all u statements db)
unfolding execute_all
execute_all-IsSound u [] db v = (v, same-IsRetired db)
execute_all-IsSound u ((now, statement) ∷ rest) db v =
    let next = execute u now statement db in
    let (sound, retired) = execute_all-IsSound u rest next (execute-IsSound u now statement db v) in
    (sound, IsRetired-trans db next _ (execute-IsRetired u now statement db v) retired)
