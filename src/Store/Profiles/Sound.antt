-- ===== src/Store/Profiles/Sound.antt =====
-- The invariant of the profile table.
use aws_ssm_kit.Base.{
  ℕ, ◌+◌, ◌≡◌, refl, sym, ◌∙◌, ◌&&◌, true, false, Option, none, some, [], ◌∷◌, arith, is_some,
  if◌then◌else◌,
}
use aws_ssm_kit.Base.Dict.{
  Dict, lookup, erase, alter, alter_all, append_row, NodupKeys, lookup-alter, lookup-alter_all,
  lookup-erase, lookup-append_row, alter-NodupKeys, alter_all-NodupKeys, append_row-NodupKeys,
  erase-NodupKeys,
}
use aws_ssm_kit.Errors.{Result, ok, err, lift, ◌>>=◌}
use aws_ssm_kit.Text.{Text, Runtime}
use aws_ssm_kit.Domain.Profile.{AwsProfile, require_id}
use aws_ssm_kit.Store.{Db}
use aws_ssm_kit.Store.Profiles.{
  find_default, first_by_name, promote, promote_at, made_default, updated_row, new_row, create,
  update, update_at, delete, set_default, reread, cleared, chosen, is_nil, cascade,
}
use aws_ssm_kit.Store.Profiles.Defaults.{
  mark, defaults, expected, IsSound, defaults-append_row, expected-append_row, expected-alter,
  defaults-alter_updated, defaults-alter_marked, defaults-alter_all-cleared, defaults-erase,
  find_default-none, first_by_name-some, first_by_name-none, expected_of_defaults,
}

-- An inserted row that is marked exactly when the table was empty.
append_row-IsSound :
    (row : AwsProfile) (db : Db)
    → IsSound db
    → defaults db.profiles + mark row ≡ 1
    → IsSound (record db {
      profiles = append_row (db.last_profile + 1) row db.profiles;
      last_profile = db.last_profile + 1;
    })
append_row-IsSound row db v one =
    let k = db.last_profile + 1 in
    let unused : lookup k db.profiles ≡ none = v.keys_given k (omega arith) in
    record {
      keys_once = append_row-NodupKeys k row db.profiles unused v.keys_once;
      keys_given =
          λ j h. ground (arith, lookup-append_row j k row db.profiles unused, v.keys_given j);
      one_default =
          omega
            (arith, defaults-append_row k row db.profiles, expected-append_row k row db.profiles);
    }

new_row-mark :
    (rows : Dict AwsProfile) (row : AwsProfile)
    → defaults rows ≡ expected rows
    → row.is_default && is_some (find_default rows) ≡ false
    → (is_nil rows ≡ true → row.is_default ≡ true)
    → defaults rows + mark row ≡ 1
new_row-mark [] row h e n = ground (arith, n refl)
new_row-mark (r ∷ rows) row h e n = ground (arith, find_default-none (r ∷ rows))

-- `create` keeps the keys and the single default.
pub create-IsSound :
    (u : Runtime) (now : ℕ) (p : AwsProfile) (db : Db) → IsSound db → IsSound (create u now p db).1
unfolding create reread
create-IsSound u now p db v =
    let row = new_row (db.last_profile + 1) now (is_nil db.profiles) p in
    ground (arith, append_row-IsSound row db v, new_row-mark db.profiles row v.one_default)

alter-IsSound :
    (k : ℕ) (f : AwsProfile → AwsProfile) (db : Db)
    → IsSound db
    → defaults (alter k f db.profiles) ≡ expected db.profiles
    → IsSound (record db { profiles = alter k f db.profiles })
alter-IsSound k f db v one = record {
  keys_once = alter-NodupKeys k f db.profiles v.keys_once;
  keys_given = λ j h. ground (arith, lookup-alter j k f db.profiles, v.keys_given j h);
  one_default = one ∙ sym (expected-alter k f db.profiles);
}

pub update_at-IsSound :
    (u : Runtime) (now k : ℕ) (p : AwsProfile) (db : Db)
    → IsSound db
    → IsSound (update_at u now p k db).1
unfolding update_at reread
update_at-IsSound u now k p db v = ground (
  arith,
  alter-IsSound k (updated_row now p) db v
      (defaults-alter_updated now k p db.profiles ∙ v.one_default),
)

abbrev OneDefault : Dict AwsProfile → Type 0
OneDefault rows = NodupKeys rows × (defaults rows ≡ expected rows)

expected_of_lookup :
    (k : ℕ) (row : AwsProfile) (rows : Dict AwsProfile)
    → lookup k rows ≡ some row
    → expected rows ≡ 1
unfolding lookup
expected_of_lookup k row [] h = cc
expected_of_lookup k row (e ∷ rows) h = refl

-- Marking one row of a table that has no default.
marked-OneDefault :
    (k : ℕ) (f : AwsProfile → AwsProfile) (row : AwsProfile) (rows : Dict AwsProfile)
    → NodupKeys rows
    → defaults rows ≡ 0
    → lookup k rows ≡ some row
    → (f row).is_default ≡ true
    → OneDefault (alter k f rows)
marked-OneDefault k f row rows n z found m = (
  alter-NodupKeys k f rows n,
  defaults-alter_marked k f rows row m n found z
      ∙ sym (expected-alter k f rows ∙ expected_of_lookup k row rows found),
)

promote_at-OneDefault :
    (o : Option (ℕ × Text)) (rows : Dict AwsProfile)
    → first_by_name rows ≡ o
    → NodupKeys rows
    → defaults rows ≡ 0
    → OneDefault (promote_at o rows)
unfolding promote_at
promote_at-OneDefault none rows e n z = (n, rw (first_by_name-none rows e))
promote_at-OneDefault (some (k, name)) rows e n z =
    let (row, found) = first_by_name-some rows k name e in
    marked-OneDefault k made_default row rows n z found refl

-- What is left after a row is erased: one default, or none when the row was it.
erase-OneDefault :
    (k : ℕ) (row : AwsProfile) (rows : Dict AwsProfile)
    → OneDefault rows
    → lookup k rows ≡ some row
    → OneDefault (if row.is_default then promote (erase k rows) else erase k rows)
unfolding promote
erase-OneDefault k row rows (n, one) found =
    let n' = erase-NodupKeys k rows n in
    ground (
      arith,
      expected_of_lookup k row rows found,
      defaults-erase k rows row n found,
      promote_at-OneDefault (first_by_name (erase k rows)) (erase k rows) refl n',
      expected_of_defaults (erase k rows),
    )

pub lookup-promote :
    (j : ℕ) (rows : Dict AwsProfile) → lookup j rows ≡ none → lookup j (promote rows) ≡ none
unfolding promote
lookup-promote j rows h = lookup-promote_at (first_by_name rows) j rows h
  where
    lookup-promote_at :
        (o : Option (ℕ × Text)) (j : ℕ) (rows : Dict AwsProfile)
        → lookup j rows ≡ none
        → lookup j (promote_at o rows) ≡ none
    lookup-promote_at none j rows h = h
    lookup-promote_at (some (k, name)) j rows h = ground (arith, lookup-alter j k made_default rows)

deleted-IsSound :
    (k : ℕ) (row : AwsProfile) (db rest : Db)
    → IsSound db
    → lookup k db.profiles ≡ some row
    → rest.last_profile ≡ db.last_profile
    → IsSound (record rest {
      profiles = if row.is_default then promote (erase k db.profiles) else erase k db.profiles;
    })
deleted-IsSound k row db rest v found same_last =
    let left = erase-OneDefault k row db.profiles (v.keys_once, v.one_default) found in
    record {
      keys_once = left.0;
      keys_given = λ j h. ground (
        arith,
        v.keys_given j,
        lookup-erase j k db.profiles,
        lookup-promote j (erase k db.profiles),
      );
      one_default = left.1;
    }

pub delete-IsSound : (k : ℕ) (db : Db) → IsSound db → IsSound (delete k db).1
unfolding delete cascade
delete-IsSound k db v = go (lookup k db.profiles) refl
  where
    go : (o : Option AwsProfile) → lookup k db.profiles ≡ o → IsSound (delete k db).1
    go none e = rw (e, delete) v
    go (some row) e = rw (e, delete) (deleted-IsSound k row db (cascade k db) v e refl)

pub set_default-IsSound :
    (u : Runtime) (now k : ℕ) (db : Db) → IsSound db → IsSound (set_default u now k db).1
unfolding set_default reread
set_default-IsSound u now k db v = go (lookup k db.profiles) refl
  where
    go : (o : Option AwsProfile) → lookup k db.profiles ≡ o → IsSound (set_default u now k db).1
    go none e = rw (e, set_default) v
    go (some row) e =
        let rows = alter_all cleared db.profiles in
        let found : lookup k rows ≡ some (cleared row) =
          ground (arith, lookup-alter_all k cleared db.profiles) in
        let left =
          marked-OneDefault k (chosen now) (cleared row) rows
            (alter_all-NodupKeys cleared db.profiles v.keys_once)
            (defaults-alter_all-cleared db.profiles) found refl in
        rw (e, set_default)
          (record {
            keys_once = left.0;
            keys_given = λ j h. ground (
              arith,
              v.keys_given j,
              lookup-alter_all j cleared db.profiles,
              lookup-alter j k (chosen now) rows,
            );
            one_default = left.1;
          })

-- The four writing calls, each with the time of its timestamps.
pub data Statement : Type 0 where
  create_profile update_profile : AwsProfile → Statement
  delete_profile choose_profile : ℕ → Statement

unfoldable pub execute : Runtime → ℕ → Statement → Db → Db
execute u now (create_profile p) db = (create u now p db).1
execute u now (update_profile p) db = (update u now p db).1
execute u now (delete_profile k) db = (delete k db).1
execute u now (choose_profile k) db = (set_default u now k db).1

pub execute-IsSound :
    (u : Runtime) (now : ℕ) (statement : Statement) (db : Db)
    → IsSound db
    → IsSound (execute u now statement db)
unfolding execute update ◌>>=◌
execute-IsSound u now (create_profile p) db v = create-IsSound u now p db v
execute-IsSound u now (update_profile p) db v = go (require_id p)
  where
    go : (r : Result ℕ) → IsSound ((lift r >>= update_at u now p) db).1
    go (ok k) = update_at-IsSound u now k p db v
    go (err e) = v
execute-IsSound u now (delete_profile k) db v = delete-IsSound k db v
execute-IsSound u now (choose_profile k) db v = set_default-IsSound u now k db v
