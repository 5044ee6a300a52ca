-- ===== src/Tests/Store.antt =====
-- The theorems on the stored rows at sample values.
use aws_ssm_kit.Base.{ℕ, refl, [], ◌∷◌, List, none, false}
use aws_ssm_kit.Base.Dict.{lookup-nil}
use aws_ssm_kit.Text.{codes}
use aws_ssm_kit.Store.{fresh}
use aws_ssm_kit.Store.Profiles.Defaults.{IsSound}
use aws_ssm_kit.Store.Profiles.Sound.{Statement, create_profile, delete_profile, choose_profile}
use aws_ssm_kit.Store.Profiles.Retired.{IsRetired}
use aws_ssm_kit.Store.Profiles.Writes.{execute_all, execute_all-IsSound}
use aws_ssm_kit.Tests.Samples.{ascii, profile}

fresh-IsSound : IsSound fresh
fresh-IsSound = record { keys_once = tt; keys_given = λ k h. lookup-nil k; one_default = refl }

-- two profiles, the second one chosen, then deleted
abbrev statements : List (ℕ × Statement)
statements =
    (10, create_profile (record profile { id = none }))
    ∷ (11, create_profile (record profile { id = none; name = codes "prod"; is_default = false }))
    ∷ (12, choose_profile 2)
    ∷ (13, delete_profile 2)
    ∷ []

execute_all-IsSound_example :
    IsSound (execute_all ascii statements fresh)
    × IsRetired fresh (execute_all ascii statements fresh)
execute_all-IsSound_example = execute_all-IsSound ascii statements fresh fresh-IsSound
