-- ===== src/Store/Named.antt =====
-- Tables whose rows belong to a profile and have a name: `UNIQUE (profile_id, name)`, and the reads
-- of infrastructure/sqlite_profile_store.py by profile and by name.
pub mod Unique
pub mod Sound
pub mod Tables
pub mod Writes
use aws_ssm_kit.Base.{
  ℕ, Bool, true, false, not, ◌&&◌, ◌||◌, Option, none, some, List, [], ◌∷◌, ◌==◌, if◌then◌else◌,
}
use aws_ssm_kit.Base.Dict.{Dict}
use aws_ssm_kit.Text.{Text, same}
use aws_ssm_kit.Store.Profiles.{before}

-- the primary key, and the two columns
pub record Named (R : Type 0) : Type 0 where
  pub key : R → Option ℕ
  pub owner : R → ℕ
  pub label : R → Text

module _ {R : Type 0} (n : Named R) where
  abbrev pub is_named : ℕ → Text → R → Bool
  is_named owner label row = n.owner row == owner && same (n.label row) label

  -- `WHERE profile_id = ? AND name = ?`
  unfoldable pub find_named : ℕ → Text → Dict R → Option R
  find_named owner label [] = none
  find_named owner label ((_, row) ∷ rows) =
      if is_named owner label row then some row else find_named owner label rows

  -- the `UNIQUE` pair, for a row with the key `k`
  unfoldable pub taken : ℕ → ℕ → Text → Dict R → Bool
  taken k owner label [] = false
  taken k owner label ((j, row) ∷ rows) =
      not (j == k) && is_named owner label row || taken k owner label rows

  -- one more row in a list that is in order
  unfoldable pub place : R → List R → List R
  place row [] = row ∷ []
  place row (r ∷ rows) =
      let later = place row rows in
      if before (n.label r) (n.label row) then r ∷ later else row ∷ r ∷ rows

  -- `WHERE … ORDER BY name`
  unfoldable pub ordered : (R → Bool) → Dict R → List R
  unfolding place
  ordered test [] = []
  ordered test ((_, row) ∷ rows) =
      let rest = ordered test rows in if test row then place row rest else rest
