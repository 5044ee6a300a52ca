-- ===== src/Application/Authenticated.antt =====
-- application/authenticated_operation.py: actions that wait for a refresh. The closures that the code
-- keeps are values of a type of actions, run by `perform`; both are given by the features.
pub mod Bound
pub mod Resume
use aws_ssm_kit.Base.{
  ℕ, Bool, true, false, not, ◌&&◌, Option, none, some, List, [], ◌∷◌, leb, ◌==◌, length, str_eq,
  if◌then◌else◌,
}
use aws_ssm_kit.Base.Dict.{Dict, lookup, insert, erase}
use aws_ssm_kit.Errors.{
  ErrorType, ApplicationError, Result, ok, err, app, raised, Exec, pure, modify, ◌>>=◌, ◌>>◌,
}
use aws_ssm_kit.Text.{Text}
use aws_ssm_kit.Application.Env.{Ports, Env, ask}
use aws_ssm_kit.Application.Profiles.{Selector}
use aws_ssm_kit.Application.Sessions.{AuthenticationStatus}
use aws_ssm_kit.Application.Operations.{
  OperationState, OperationContext, OperationResult, MfaChallenge, rebound, ended, failed_with,
  challenged, execute_operation, authentication_capacity_error,
  max_pending_authentication_operations,
}
use aws_ssm_kit.Application.Refresh
use aws_ssm_kit.Application.Refresh.{Coordinator, within, start_refresh}

pub record PendingAction (Action : Type 0) : Type 0 where
  pub expires_at : ℕ
  pub action : Action
  pub context : OperationContext

pub record Authenticated (W Action : Type 0) : Type 0 where
  pub coordinator : Coordinator W
  pub actions : Dict (PendingAction Action)

-- What a feature gives: its actions, and how a cancellation token is read.
pub record Feature (W Action T : Type 0) : Type 0 where
  pub perform : Action → OperationContext → Exec (Env W) T
  pub is_cancelled : ℕ → W → Bool

abbrev pub not_resumable : ApplicationError
not_resumable =
    raised ErrorType.credential_validation "auth.operation.not_resumable"
      "Authenticated operation was already resumed or expired"

abbrev pub challenge_expired : ApplicationError
challenge_expired = raised ErrorType.mfa_validation "mfa.challenge.expired" "MFA challenge expired"

-- the test on the first attempt: `CredentialValidationError` with the code that asks for MFA
abbrev pub asks_for_mfa : ApplicationError → Bool
asks_for_mfa e = elim e.kind [
  | ErrorType.credential_validation ↦ str_eq e.message_code "auth.mfa_required"
  | _ ↦ false
]

abbrev pub is_failed : OperationState → Bool
is_failed OperationState.failed = true
is_failed _ = false

abbrev pub is_succeeded : OperationState → Bool
is_succeeded OperationState.succeeded = true
is_succeeded _ = false

module _ {T : Type 0} where
  unfoldable pub wants_refresh : OperationResult T → Bool
  wants_refresh r = is_failed r.state && elim r.error [ none ↦ false | some e ↦ asks_for_mfa e ]

-- `key == exclude`
abbrev is_excluded : ℕ → Option ℕ → Bool
is_excluded key none = false
is_excluded key (some excluded) = key == excluded

module _ {A : Type 0} where
  -- the keys that `_sweep_expired` collects
  unfoldable pub expired_keys : ℕ → Option ℕ → Dict (PendingAction A) → List ℕ
  expired_keys now exclude [] = []
  expired_keys now exclude ((key, pending) ∷ rest) =
      let others = expired_keys now exclude rest in
      if not (is_excluded key exclude) && leb pending.expires_at now then key ∷ others else others

module _ {W Action : Type 0} where
  -- a call of the coordinator of the refreshes
  unfoldable pub below : {A : Type 0} → Exec (Coordinator W) A → Exec (Authenticated W Action) A
  below m s = let (r, c) = m s.coordinator in (r, record s { coordinator = c })

  unfoldable pub pop_action : ℕ → Exec (Authenticated W Action) (Unit {0})
  pop_action id s = (ok tt, record s { actions = erase id s.actions })

  -- `cancel`
  unfoldable pub cancel : ℕ → Exec (Authenticated W Action) (Unit {0})
  unfolding below pop_action
  cancel id = do pop_action id; below (Refresh.cancel id)

  unfoldable pub cancel_all : List ℕ → Exec (Authenticated W Action) (Unit {0})
  unfolding cancel
  cancel_all [] = pure tt
  cancel_all (id ∷ ids) = do cancel id; cancel_all ids

  -- the last step of `start_long`: the bound, or a place in the table
  unfoldable pub admit_action :
      {T : Type 0}
      → MfaChallenge
      → Action
      → OperationContext
      → Exec (Authenticated W Action) (OperationResult T)
  unfolding below
  admit_action challenge action context s =
      let id = context.operation_id in
      if leb max_pending_authentication_operations (length s.actions)
      then (do below (Refresh.cancel id); pure (failed_with id authentication_capacity_error)) s
      else (
        ok (challenged id challenge),
        record s {
          actions =
              insert id
                (record { expires_at = challenge.expires_at; action = action; context = context })
                s.actions;
        },
      )

module _ {W Action T : Type 0} (p : Ports W) (feature : Feature W Action T) where
  -- `_sweep_expired(exclude=…)`
  unfoldable pub sweep_expired : Option ℕ → Exec (Authenticated W Action) (Unit {0})
  unfolding below within ask cancel_all expired_keys
  sweep_expired exclude = do
    now ← below (within (ask p.now))
    λ s. cancel_all (expired_keys now exclude s.actions) s

  -- `_invoke`
  unfoldable pub invoke :
      Action → OperationContext → Exec (Authenticated W Action) (OperationResult T)
  unfolding below within execute_operation
  invoke action context = below (
      within (
        execute_operation (λ token e. feature.is_cancelled token e.world) (feature.perform action)
          context))

  -- `start_long` from the answer of the refresh on, by its state and its challenge
  unfoldable pub after_state :
      Action
      → OperationContext
      → OperationState
      → Option MfaChallenge
      → OperationResult AuthenticationStatus
      → Exec (Authenticated W Action) (OperationResult T)
  unfolding invoke admit_action
  after_state action context OperationState.succeeded _ refresh = invoke action context
  after_state action context OperationState.mfa_required (some challenge) refresh =
      admit_action challenge action context
  after_state action context _ _ refresh =
      pure (record (ended refresh.operation_id refresh.state) { error = refresh.error })

  unfoldable pub after_refresh :
      Action
      → OperationContext
      → OperationResult AuthenticationStatus
      → Exec (Authenticated W Action) (OperationResult T)
  unfolding after_state
  after_refresh action initial refresh =
      after_state action (rebound initial refresh.operation_id) refresh.state refresh.challenge
        refresh

  -- `start_long`, with the context that the caller owns
  unfoldable pub start_long :
      Selector → Action → OperationContext → Exec (Authenticated W Action) (OperationResult T)
  unfolding sweep_expired invoke after_refresh wants_refresh
  start_long selector action initial = do
    sweep_expired none
    attempted ← invoke action initial
    if not (wants_refresh attempted) then pure attempted else do
      refresh ← below (start_refresh p selector true)
      after_refresh action initial refresh

  unfoldable pub after_resume :
      ℕ
      → PendingAction Action
      → OperationResult AuthenticationStatus
      → Exec (Authenticated W Action) (OperationResult T)
  unfolding invoke
  after_resume id pending refreshed =
      if not (is_succeeded refreshed.state)
      then pure (record (ended id refreshed.state) {
        error = refreshed.error;
        challenge = refreshed.challenge;
      })
      else invoke pending.action pending.context

  unfoldable pub resume_popped :
      ℕ
      → Option (PendingAction Action)
      → Option Text
      → Exec (Authenticated W Action) (OperationResult T)
  unfolding after_resume below within ask
  resume_popped id none code = pure (failed_with id not_resumable)
  resume_popped id (some pending) code = do
    now ← below (within (ask p.now))
    if leb pending.expires_at now
        then (do below (Refresh.cancel id); pure (failed_with id challenge_expired))
        else do refreshed ← below (Refresh.resume p id code); after_resume id pending refreshed

  -- `resume`
  unfoldable pub resume : ℕ → Option Text → Exec (Authenticated W Action) (OperationResult T)
  unfolding sweep_expired resume_popped pop_action
  resume id code = do
    sweep_expired (some id)
    λ s. (do pop_action id; resume_popped id (lookup id s.actions) code) s
