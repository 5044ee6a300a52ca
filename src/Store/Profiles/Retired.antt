-- ===== src/Store/Profiles/Retired.antt =====
-- The keys of the profile table that were given out.
use aws_ssm_kit.Base.{ℕ, ◌+◌, ◌≤◌, ◌≡◌, refl, Option, none, some, arith}
use aws_ssm_kit.Base.Dict.{
  lookup, erase, alter_all, lookup-alter, lookup-alter_all, lookup-erase, lookup-append_row,
}
use aws_ssm_kit.Errors.{Result, ok, err, lift, ◌>>=◌}
use aws_ssm_kit.Text.{Runtime}
use aws_ssm_kit.Domain.Profile.{AwsProfile, require_id}
use aws_ssm_kit.Store.{Db}
use aws_ssm_kit.Store.Profiles.{
  create, update, update_at, updated_row, delete, set_default, reread, cleared, chosen, cascade,
  new_row, is_nil,
}
use aws_ssm_kit.Store.Profiles.Defaults.{IsSound}
use aws_ssm_kit.Store.Profiles.Sound.{
  lookup-promote, Statement, create_profile, update_profile, delete_profile, choose_profile,
  execute,
}

-- The last key that was given out does not decrease, and a key that was given out and has no row any
-- more does not get one.
pub record IsRetired (db after : Db) : Type 0 where
  pub last_kept : db.last_profile ≤ after.last_profile
  pub retired :
      (k : ℕ) → k ≤ db.last_profile → lookup k db.profiles ≡ none → lookup k after.profiles ≡ none

pub same-IsRetired : (db : Db) → IsRetired db db
same-IsRetired db = record { last_kept = omega arith; retired = λ k h e. e }

pub IsRetired-trans : (a b c : Db) → IsRetired a b → IsRetired b c → IsRetired a c
IsRetired-trans a b c h g = record {
  last_kept = omega (arith, h.last_kept, g.last_kept);
  retired = λ k le e. g.retired k (omega (arith, h.last_kept, le)) (h.retired k le e);
}

create-IsRetired :
    (u : Runtime) (now : ℕ) (p : AwsProfile) (db : Db)
    → IsSound db
    → IsRetired db (create u now p db).1
unfolding create reread
create-IsRetired u now p db v =
    let k = db.last_profile + 1 in
    let unused : lookup k db.profiles ≡ none = v.keys_given k (omega arith) in
    record {
      last_kept = ground arith;
      retired = λ j le e.
          ground (
            arith,
            lookup-append_row j k (new_row k now (is_nil db.profiles) p) db.profiles unused,
          );
    }

update_at-IsRetired :
    (u : Runtime) (now : ℕ) (p : AwsProfile) (k : ℕ) (db : Db)
    → IsRetired db (update_at u now p k db).1
unfolding update_at reread
update_at-IsRetired u now p k db = record {
  last_kept = ground arith;
  retired = λ j le e. ground (arith, lookup-alter j k (updated_row now p) db.profiles);
}

delete-IsRetired : (k : ℕ) (db : Db) → IsRetired db (delete k db).1
unfolding delete cascade
delete-IsRetired k db = go (lookup k db.profiles) refl
  where
    go : (o : Option AwsProfile) → lookup k db.profiles ≡ o → IsRetired db (delete k db).1
    go none e = rw (e, delete) (same-IsRetired db)
    go (some row) e =
        rw (e, delete)
          (record {
            last_kept = omega arith;
            retired = λ j le h.
                ground
                  (arith, lookup-erase j k db.profiles, lookup-promote j (erase k db.profiles));
          })

set_default-IsRetired :
    (u : Runtime) (now k : ℕ) (db : Db) → IsRetired db (set_default u now k db).1
unfolding set_default reread
set_default-IsRetired u now k db = record {
  last_kept = ground arith;
  retired = λ j le e. ground (
    arith,
    lookup-alter_all j cleared db.profiles,
    lookup-alter j k (chosen now) (alter_all cleared db.profiles),
  );
}

pub execute-IsRetired :
    (u : Runtime) (now : ℕ) (statement : Statement) (db : Db)
    → IsSound db
    → IsRetired db (execute u now statement db)
unfolding execute update ◌>>=◌
execute-IsRetired u now (create_profile p) db v = create-IsRetired u now p db v
execute-IsRetired u now (update_profile p) db v = go (require_id p)
  where
    go : (r : Result ℕ) → IsRetired db ((lift r >>= update_at u now p) db).1
    go (ok k) = update_at-IsRetired u now p k db
    go (err e) = same-IsRetired db
execute-IsRetired u now (delete_profile k) db v = delete-IsRetired k db
execute-IsRetired u now (choose_profile k) db v = set_default-IsRetired u now k db
