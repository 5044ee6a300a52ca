-- ===== src/Tests/Application.antt =====
-- The theorems on the services and the coordinators at sample values.
use aws_ssm_kit.Base.{ℕ, ◌≡◌, refl, [], ◌∷◌, List, some, none, true, arith, ◌⊎◌, inl}
use aws_ssm_kit.Base.Dict.{lookup, lookup-nil}
use aws_ssm_kit.Errors.{ok}
use aws_ssm_kit.Text.{codes, strip, has_char, starts_with}
use aws_ssm_kit.Text.Regex.{fullmatch}
use aws_ssm_kit.Base.{◌==◌, ◌||◌}
use aws_ssm_kit.Text.{Runtime, int_value}
use aws_ssm_kit.Application.Profiles.{is_digits}
use aws_ssm_kit.Application.Profiles.Selection.{Unreadable}
use aws_ssm_kit.Store.Profiles.{find_default, get_default, read_row}
use aws_ssm_kit.Application.Profiles.{Selector, resolve, find}
use aws_ssm_kit.Domain.Profile.{aws_profile}
use aws_ssm_kit.Application.Operations.{failed_with}
use aws_ssm_kit.Application.Sessions.{credentials}
use aws_ssm_kit.Application.Sessions.Guard.{Guarded, credentials-Guarded}
use aws_ssm_kit.Application.Refresh.{Coordinator}
use aws_ssm_kit.Application.Refresh as Refresh
use aws_ssm_kit.Application.Refresh.Bound as RefreshBound
use aws_ssm_kit.Application.Refresh.Bound.{serve-IsBounded}
use aws_ssm_kit.Application.Refresh.Resume.{IsUntried, IsLive, resume_once, resume_tries}
use aws_ssm_kit.Application.Authenticated.{not_resumable}
use aws_ssm_kit.Application.Authenticated as Authenticated
use aws_ssm_kit.Application.Authenticated.Bound as ActionsBound
use aws_ssm_kit.Application.Authenticated.Bound.{serve_actions-IsBounded}
use aws_ssm_kit.Application.Authenticated.Resume.{resume_action_once, resume_without_code}
use aws_ssm_kit.Tests.Samples.{
  ascii, profile, ports, env, coordinator, feature, other_feature, authenticated,
}

default_resolves : resolve ascii Selector.default_profile env.db ≡ ok profile
unfolding resolve find aws_profile get_default read_row find_default strip fullmatch has_char
    starts_with
default_resolves = refl

credentials-Guarded_example :
    Guarded ports profile 1 env
      (credentials ports Selector.default_profile env).0
      (credentials ports Selector.default_profile env).1
credentials-Guarded_example =
    credentials-Guarded ports Selector.default_profile profile 1 env default_resolves refl

coordinator-IsBounded : RefreshBound.IsBounded coordinator
coordinator-IsBounded = record {
  room = omega arith;
  once = (lookup-nil 7, tt);
  unmarked = (refl, tt);
}

abbrev calls : List RefreshBound.Call
calls =
    RefreshBound.Call.starting Selector.default_profile true
    ∷ RefreshBound.Call.resuming 7 (some (codes "123456"))
    ∷ RefreshBound.Call.cancelling 7
    ∷ []

serve-IsBounded_example : RefreshBound.IsBounded (RefreshBound.serve ports calls coordinator)
serve-IsBounded_example = serve-IsBounded ports calls coordinator coordinator-IsBounded

resume_once_example :
    let after = (Refresh.resume ports 7 (some (codes "123456")) coordinator).1 in
    (lookup 7 after.pending ≡ none)
    × (Refresh.resume ports 7 none after
        ≡ (ok (Refresh.failure 7 "mfa.operation.not_resumable"), after))
resume_once_example =
    resume_once ports 7 (some (codes "123456")) none coordinator coordinator-IsBounded

-- the same table, when the entry has expired
abbrev late : Coordinator ℕ
late = record coordinator { env = record env { world = 300000000 } }

resume_tries_example :
    IsUntried ports late (Refresh.resume ports 7 (some (codes "123456")) late)
    ⊎ IsLive ports 7 (some (codes "123456")) late
resume_tries_example = resume_tries ports 7 (some (codes "123456")) late

authenticated-IsBounded : ActionsBound.IsBounded authenticated
authenticated-IsBounded = record {
  room = omega arith;
  once = (lookup-nil 7, tt);
  refreshes = coordinator-IsBounded;
}

abbrev action_calls : List (ActionsBound.Call ℕ)
action_calls =
    ActionsBound.Call.starting Selector.default_profile 3
      (record { operation_id = 9; cancellation = 0 })
    ∷ ActionsBound.Call.resuming 7 (some (codes "123456"))
    ∷ ActionsBound.Call.cancelling 7
    ∷ []

serve_actions-IsBounded_example :
    ActionsBound.IsBounded (ActionsBound.serve ports feature action_calls authenticated)
serve_actions-IsBounded_example =
    serve_actions-IsBounded ports feature action_calls authenticated authenticated-IsBounded

resume_action_once_example :
    let after = (Authenticated.resume ports feature 7 (some (codes "123456")) authenticated).1 in
    (lookup 7 after.actions ≡ none)
    × ((Authenticated.resume ports feature 7 none after).0 ≡ ok (failed_with 7 not_resumable))
resume_action_once_example =
    resume_action_once ports feature 7 (some (codes "123456")) none authenticated

resume_without_code_example :
    Authenticated.resume ports feature 7 none authenticated
    ≡ Authenticated.resume ports other_feature 7 none authenticated
resume_without_code_example = resume_without_code ports feature other_feature 7 authenticated

-- a runtime whose digits include the superscript two, which is no decimal
abbrev superscripts : Runtime
superscripts = record ascii { is_digit = λ c. c == 178 || ascii.is_digit c }

superscripts-Unreadable : Unreadable superscripts (Selector.by_text (178 ∷ []))
unfolding is_digits int_value aws_ssm_kit.Text.decimal_value
superscripts-Unreadable = (refl, inl refl)
