-- ===== src/Store/Profiles/Defaults.antt =====
-- The default profile: how many rows are marked, under each statement.
use aws_ssm_kit.Base.{
  ℕ, ◌+◌, ◌<◌, ◌≡◌, refl, true, none, some, [], ◌∷◌, ◌==◌, arith, Option-cases, inl, inr,
  Bool-cases, String, if◌then◌else◌,
}
use aws_ssm_kit.Base.Dict.{Dict, lookup, erase, alter, alter_all, append_row, NodupKeys}
use aws_ssm_kit.Text.{Text, Runtime}
use aws_ssm_kit.Domain.Profile.{AwsProfile}
use aws_ssm_kit.Store.{Db}
use aws_ssm_kit.Store.Profiles.{find_default, first_by_name, updated_row, reread, cleared}

abbrev pub mark : AwsProfile → ℕ
mark row = if row.is_default then 1 else 0

-- The number of rows that are marked as default.
abbrev pub defaults : Dict AwsProfile → ℕ
defaults [] = 0
defaults ((_, row) ∷ rows) = mark row + defaults rows

-- One row is the default, unless there is no row.
abbrev pub expected : Dict AwsProfile → ℕ
expected [] = 0
expected (_ ∷ _) = 1

pub expected_of_defaults : (rows : Dict AwsProfile) → defaults rows ≡ 1 → expected rows ≡ 1
expected_of_defaults [] h = h
expected_of_defaults (e ∷ rows) h = refl

pub record IsSound (db : Db) : Type 0 where
  pub keys_once : NodupKeys db.profiles
  pub keys_given : (k : ℕ) → db.last_profile < k → lookup k db.profiles ≡ none
  pub one_default : defaults db.profiles ≡ expected db.profiles

pub defaults-append_row :
    (k : ℕ) (row : AwsProfile) (rows : Dict AwsProfile)
    → defaults (append_row k row rows) ≡ defaults rows + mark row
unfolding append_row
defaults-append_row k row [] = omega arith
defaults-append_row k row (e ∷ rows) = ground (arith, defaults-append_row k row rows)

pub expected-append_row :
    (k : ℕ) (row : AwsProfile) (rows : Dict AwsProfile) → expected (append_row k row rows) ≡ 1
unfolding append_row
expected-append_row k row [] = refl
expected-append_row k row (e ∷ rows) = refl

pub expected-alter :
    (k : ℕ) (f : AwsProfile → AwsProfile) (rows : Dict AwsProfile)
    → expected (alter k f rows) ≡ expected rows
unfolding alter
expected-alter k f [] = refl
expected-alter k f (e ∷ rows) = refl

pub expected-alter_all :
    (f : AwsProfile → AwsProfile) (rows : Dict AwsProfile)
    → expected (alter_all f rows) ≡ expected rows
unfolding alter_all
expected-alter_all f [] = refl
expected-alter_all f (e ∷ rows) = refl

pub defaults-alter_updated :
    (now k : ℕ) (p : AwsProfile) (rows : Dict AwsProfile)
    → defaults (alter k (updated_row now p) rows) ≡ defaults rows
unfolding alter
defaults-alter_updated now k p [] = refl
defaults-alter_updated now k p (e ∷ rows) = ground (arith, defaults-alter_updated now k p rows)

pub defaults-alter_absent :
    (k : ℕ) (f : AwsProfile → AwsProfile) (rows : Dict AwsProfile)
    → lookup k rows ≡ none
    → defaults (alter k f rows) ≡ defaults rows
unfolding alter lookup
defaults-alter_absent k f [] h = refl
defaults-alter_absent k f (e ∷ rows) h = ground (arith, defaults-alter_absent k f rows)

-- Marking a row that was not marked adds one.
pub defaults-alter_marked :
    (k : ℕ) (f : AwsProfile → AwsProfile) (rows : Dict AwsProfile) (row : AwsProfile)
    → (f row).is_default ≡ true
    → NodupKeys rows
    → lookup k rows ≡ some row
    → defaults rows ≡ 0
    → defaults (alter k f rows) ≡ 1
unfolding alter lookup
defaults-alter_marked k f [] row m n h z = cc
defaults-alter_marked k f (e ∷ rows) row m n h z =
    ground (arith, defaults-alter_marked k f rows row m n.1, defaults-alter_absent k f rows)

pub defaults-alter_all-cleared : (rows : Dict AwsProfile) → defaults (alter_all cleared rows) ≡ 0
unfolding alter_all
defaults-alter_all-cleared [] = refl
defaults-alter_all-cleared (e ∷ rows) = ground (arith, defaults-alter_all-cleared rows)

pub defaults-erase_absent :
    (k : ℕ) (rows : Dict AwsProfile)
    → lookup k rows ≡ none
    → defaults (erase k rows) ≡ defaults rows
unfolding erase lookup
defaults-erase_absent k [] h = refl
defaults-erase_absent k (e ∷ rows) h = ground (arith, defaults-erase_absent k rows)

pub defaults-erase :
    (k : ℕ) (rows : Dict AwsProfile) (row : AwsProfile)
    → NodupKeys rows
    → lookup k rows ≡ some row
    → defaults (erase k rows) + mark row ≡ defaults rows
unfolding erase lookup
defaults-erase k [] row n h = cc
defaults-erase k (e ∷ rows) row n h =
    ground (arith, defaults-erase k rows row n.1, defaults-erase_absent k rows)

pub find_default-none : (rows : Dict AwsProfile) → find_default rows ≡ none → defaults rows ≡ 0
unfolding find_default
find_default-none [] h = refl
find_default-none (e ∷ rows) h = ground (arith, find_default-none rows)

pub first_by_name-none : (rows : Dict AwsProfile) → first_by_name rows ≡ none → rows ≡ []
unfolding first_by_name
first_by_name-none [] h = refl
first_by_name-none (e ∷ rows) h = ground arith

-- The first row by name is a row.
pub first_by_name-some :
    (rows : Dict AwsProfile) (k : ℕ) (name : Text)
    → first_by_name rows ≡ some (k, name)
    → (row : AwsProfile) × (lookup k rows ≡ some row)
unfolding first_by_name lookup
first_by_name-some [] k name h = cc
first_by_name-some ((j, first) ∷ rows) k name h = elim (Option-cases (first_by_name rows)) [
  | inl e ↦ (first, ground arith)
  | inr ((i, n), e) ↦
      let (row, found) = first_by_name-some rows i n e in
      elim (Bool-cases (j == k)) [
        | inl same_key ↦ (first, ground arith)
        | inr other ↦ (row, ground arith)
      ]
]

reread-db : (u : Runtime) (code : String) (k : ℕ) (db : Db) → (reread u code k db).1 ≡ db
unfolding reread
reread-db u code k db = refl
