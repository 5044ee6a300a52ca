-- ===== src/Store/Settings.antt =====
-- The tables `app_settings` and `ec2_favorites`.
use aws_ssm_kit.Base.{
  ℕ, Bool, not, ◌&&◌, Option, none, some, List, [], ◌∷◌, ◌==◌, is_some, keep, map, if◌then◌else◌,
}
use aws_ssm_kit.Base.Dict.{lookup}
use aws_ssm_kit.Errors.{ok, err, app, Exec, configuration_error}
use aws_ssm_kit.Text.{Text, same}
use aws_ssm_kit.Store.{Db, Favorite}

unfoldable pub setting : Text → List (Text × Text) → Option Text
setting key [] = none
setting key ((k, value) ∷ rows) = if same k key then some value else setting key rows

-- `ON CONFLICT(key) DO UPDATE`
unfoldable pub put_row : Text → Text → List (Text × Text) → List (Text × Text)
put_row key value [] = (key, value) ∷ []
put_row key value ((k, old) ∷ rows) =
    if same k key then (k, value) ∷ rows else (k, old) ∷ put_row key value rows

unfoldable pub delete_row : Text → List (Text × Text) → List (Text × Text)
delete_row key rows = keep (λ (k, _). not (same k key)) rows

unfoldable pub get_setting : Text → Db → Option Text
get_setting key db = setting key db.settings

unfoldable pub put_setting : Text → Text → Db → Db
put_setting key value db = record db { settings = put_row key value db.settings }

unfoldable pub delete_setting : Text → Db → Db
delete_setting key db = record db { settings = delete_row key db.settings }

unfoldable pub replaced : List (Text × Option Text) → List (Text × Text) → List (Text × Text)
unfolding put_row delete_row
replaced [] rows = rows
replaced ((key, none) ∷ values) rows = replaced values (delete_row key rows)
replaced ((key, some value) ∷ values) rows = replaced values (put_row key value rows)

-- `replace_settings`, in one transaction
unfoldable pub replace_settings : List (Text × Option Text) → Db → Db
unfolding replaced
replace_settings values db = record db { settings = replaced values db.settings }

abbrev pub is_favorite : ℕ → Text → Text → Favorite → Bool
is_favorite profile_id region id f =
    f.profile_id == profile_id && same f.region region && same f.instance_id id

unfoldable pub has_favorite : ℕ → Text → Text → List Favorite → Bool
has_favorite profile_id region id [] = Bool.false
has_favorite profile_id region id (f ∷ rest) =
    if is_favorite profile_id region id f then Bool.true else has_favorite profile_id region id rest

-- the set of `list_ec2_favorites`, as the list of its rows
unfoldable pub list_ec2_favorites : ℕ → Text → Db → List Text
list_ec2_favorites profile_id region db =
    map (λ f. f.instance_id)
      (keep (λ f. f.profile_id == profile_id && same f.region region) db.favorites)

unfoldable pub set_ec2_favorite : ℕ → Text → Text → Bool → Exec Db (Unit {0})
unfolding has_favorite
set_ec2_favorite profile_id region id favorite db =
    if not favorite
    then (
      ok tt,
      record db { favorites = keep (λ f. not (is_favorite profile_id region id f)) db.favorites },
    )
    else if has_favorite profile_id region id db.favorites
    then (ok tt, db)
    else if not (is_some (lookup profile_id db.profiles))
    then (err (app (configuration_error "ec2.favorite.persistence.invalid")), db)
    else (
      ok tt,
      record db {
        favorites =
            record { profile_id = profile_id; region = region; instance_id = id } ∷ db.favorites;
      },
    )
