-- ===== src/Application/Authenticated/Bound.antt =====
-- The bounds of the tables of waiting actions and of pending refreshes.
use aws_ssm_kit.Base.{
  ℕ, ◌≤◌, ◌<◌, leb, Bool-cases, inl, inr, Option, none, some, length, arith, List, [], ◌∷◌,
}
use aws_ssm_kit.Base.Dict.{
  NodupKeys, lookup, insert, length-insert, length-erase, insert-NodupKeys, erase-NodupKeys,
}
use aws_ssm_kit.Errors.{Exec, pure, ◌>>◌}
use aws_ssm_kit.Errors.Keeps.{Keeps, keeps_rules, Keeps-bind, Keeps-pure}
use aws_ssm_kit.Text.{Text}
use aws_ssm_kit.Application.Env.{Ports}
use aws_ssm_kit.Application.Profiles.{Selector}
use aws_ssm_kit.Application.Sessions.{AuthenticationStatus}
use aws_ssm_kit.Application.Operations.{
  OperationContext, OperationResult, OperationState, MfaChallenge, failed_with,
  authentication_capacity_error, max_pending_authentication_operations,
}
use aws_ssm_kit.Application.Refresh
use aws_ssm_kit.Application.Refresh.{Coordinator, within}
use aws_ssm_kit.Application.Refresh.Bound
use aws_ssm_kit.Application.Refresh.Bound.{
  within-IsBounded, cancel-IsBounded, start_refresh-IsBounded, resume-IsBounded,
}
use aws_ssm_kit.Application.Authenticated.{
  Authenticated, PendingAction, Feature, below, pop_action, cancel, cancel_all, admit_action,
  sweep_expired, expired_keys, invoke, after_state, after_refresh, start_long, after_resume,
  resume_popped, resume,
}

-- The invariant of both coordinators.
pub record IsBounded {W Action : Type 0} (s : Authenticated W Action) : Type 0 where
  pub room : length s.actions ≤ max_pending_authentication_operations
  pub once : NodupKeys s.actions
  pub refreshes : Bound.IsBounded s.coordinator

module _ {W Action : Type 0} where
  abbrev Safe : Authenticated W Action → Type 0
  Safe s = IsBounded s

  below-IsBounded :
      {A : Type 0} (m : Exec (Coordinator W) A) → Keeps Bound.IsBounded m → Keeps Safe (below m)
  unfolding below
  below-IsBounded m k = record {
    at = λ s h. record { room = h.room; once = h.once; refreshes = k.at s.coordinator h.refreshes };
  }

  pop_action-IsBounded : (id : ℕ) → Keeps Safe (pop_action id)
  unfolding pop_action
  pop_action-IsBounded id = record {
    at = λ s h. record {
      room = omega (arith, length-erase id s.actions, h.room);
      once = erase-NodupKeys id s.actions h.once;
      refreshes = h.refreshes;
    };
  }

  put_action-IsBounded :
      (id : ℕ) (pending : PendingAction Action) (s : Authenticated W Action)
      → IsBounded s
      → length s.actions < max_pending_authentication_operations
      → IsBounded (record s { actions = insert id pending s.actions })
  put_action-IsBounded id pending s h room = record {
    room = omega (arith, length-insert id pending s.actions);
    once = insert-NodupKeys id pending s.actions h.once;
    refreshes = h.refreshes;
  }

  refused-IsBounded :
      {T : Type 0} (id : ℕ) (r : OperationResult T)
      → Keeps Safe (do below (Refresh.cancel id); pure r)
  refused-IsBounded id r = search (keeps_rules, below-IsBounded, cancel-IsBounded) depth 8

  admit_action-IsBounded :
      {T : Type 0} (challenge : MfaChallenge) (action : Action) (context : OperationContext)
      → Keeps Safe (admit_action {T = T} challenge action context)
  unfolding admit_action
  admit_action-IsBounded {T} challenge action context = record {
    at = λ s h. elim (Bool-cases (leb max_pending_authentication_operations (length s.actions))) [
      | inl full ↦ rw full (
          (refused-IsBounded {T = T} context.operation_id
              (failed_with context.operation_id authentication_capacity_error)).at
            s h)
      | inr free ↦ rw free (
          put_action-IsBounded context.operation_id
            (record { expires_at = challenge.expires_at; action = action; context = context }) s h
            (ground arith))
    ];
  }

  cancel-Safe : (id : ℕ) → Keeps Safe (cancel id)
  unfolding cancel
  cancel-Safe id =
      search (keeps_rules, below-IsBounded, pop_action-IsBounded, cancel-IsBounded) depth 8

  cancel_all-Safe : (ids : List ℕ) → Keeps Safe (cancel_all ids)
  unfolding cancel_all
  cancel_all-Safe [] = Keeps-pure tt
  cancel_all-Safe (id ∷ ids) =
      Keeps-bind (cancel id) (λ _. cancel_all ids) (cancel-Safe id) (λ _. cancel_all-Safe ids)

ruleset safe_rules = (
  keeps_rules, below-IsBounded, within-IsBounded, pop_action-IsBounded, cancel-IsBounded,
  admit_action-IsBounded, start_refresh-IsBounded, resume-IsBounded,
)

module _ {W Action T : Type 0} (p : Ports W) (feature : Feature W Action T) where
  sweep_expired-Safe :
      (exclude : Option ℕ)
      → Keeps (Safe {W = W} {Action = Action}) (sweep_expired p feature exclude)
  unfolding sweep_expired
  sweep_expired-Safe exclude =
      Keeps-bind _ _ (below-IsBounded _ (within-IsBounded _)) (λ now. record {
        at = λ s h. (cancel_all-Safe (expired_keys now exclude s.actions)).at s h;
      })

  invoke-Safe :
      (action : Action) (context : OperationContext) → Keeps Safe (invoke p feature action context)
  unfolding invoke
  invoke-Safe action context = search safe_rules

  after_state-Safe :
      (action : Action) (context : OperationContext) (state : OperationState)
      (challenge : Option MfaChallenge) (refresh : OperationResult AuthenticationStatus)
      → Keeps Safe (after_state p feature action context state challenge refresh)
  unfolding after_state
  after_state-Safe action context OperationState.succeeded _ refresh = invoke-Safe action context
  after_state-Safe action context OperationState.mfa_required (some challenge) refresh =
      admit_action-IsBounded challenge action context
  after_state-Safe action context _ _ refresh = Keeps-pure _

  after_refresh-Safe :
      (action : Action) (initial : OperationContext)
      (refresh : OperationResult AuthenticationStatus)
      → Keeps Safe (after_refresh p feature action initial refresh)
  unfolding after_refresh
  after_refresh-Safe action initial refresh = after_state-Safe action _ _ _ refresh

  start_long-Safe :
      (selector : Selector) (action : Action) (initial : OperationContext)
      → Keeps Safe (start_long p feature selector action initial)
  unfolding start_long
  start_long-Safe selector action initial =
      search (safe_rules, sweep_expired-Safe, invoke-Safe, after_refresh-Safe) depth 12

  after_resume-Safe :
      (id : ℕ) (pending : PendingAction Action) (refreshed : OperationResult AuthenticationStatus)
      → Keeps Safe (after_resume p feature id pending refreshed)
  unfolding after_resume
  after_resume-Safe id pending refreshed = search (safe_rules, invoke-Safe) depth 8

  resume_popped-Safe :
      (id : ℕ) (o : Option (PendingAction Action)) (code : Option Text)
      → Keeps Safe (resume_popped p feature id o code)
  unfolding resume_popped
  resume_popped-Safe id none code = search safe_rules
  resume_popped-Safe id (some pending) code = search (safe_rules, after_resume-Safe) depth 12

  resume-Safe : (id : ℕ) (code : Option Text) → Keeps Safe (resume p feature id code)
  unfolding resume
  resume-Safe id code = Keeps-bind _ _ (sweep_expired-Safe (some id)) (λ _. record {
    at = λ s h.
        (Keeps-bind (pop_action id) (λ _. resume_popped p feature id (lookup id s.actions) code)
            (pop_action-IsBounded id) (λ _. resume_popped-Safe id (lookup id s.actions) code)).at
          s h;
  })

-- The calls that reach the tables.
pub data Call (Action : Type 0) : Type 0 where
  starting : Selector → Action → OperationContext → Call Action
  resuming : ℕ → Option Text → Call Action
  cancelling : ℕ → Call Action

module _ {W Action T : Type 0} (p : Ports W) (feature : Feature W Action T) where
  pub serve : List (Call Action) → Authenticated W Action → Authenticated W Action
  serve [] s = s
  serve (starting selector action context ∷ calls) s =
      serve calls (start_long p feature selector action context s).1
  serve (resuming id code ∷ calls) s = serve calls (resume p feature id code s).1
  serve (cancelling id ∷ calls) s = serve calls (cancel id s).1

  -- After any sequence of calls at most 128 actions and at most 128 refreshes wait, each under one
  -- key, whatever the actions do and however the calls end.
  pub serve_actions-IsBounded :
      (calls : List (Call Action)) (s : Authenticated W Action)
      → IsBounded s
      → IsBounded (serve calls s)
  unfolding serve
  serve_actions-IsBounded [] s h = h
  serve_actions-IsBounded (starting selector action context ∷ calls) s h =
      serve_actions-IsBounded calls _ ((start_long-Safe p feature selector action context).at s h)
  serve_actions-IsBounded (resuming id code ∷ calls) s h =
      serve_actions-IsBounded calls _ ((resume-Safe p feature id code).at s h)
  serve_actions-IsBounded (cancelling id ∷ calls) s h =
      serve_actions-IsBounded calls _ ((cancel-Safe id).at s h)
