-- ===== src/Application/Authenticated/Resume.antt =====
-- Resumes of a waiting action: a second one, and one without a code.
use aws_ssm_kit.Base.{
  ℕ, ◌≡◌, refl, ap, fun_ext, Bool-cases, inl, inr, false, Option, none, some, List, [], ◌∷◌, leb,
  arith,
}
use aws_ssm_kit.Base.Dict.{lookup, lookup-erase}
use aws_ssm_kit.Errors.{Result, ok, err, Failure, Exec, pure, ◌>>=◌, ◌>>◌}
use aws_ssm_kit.Errors.Keeps.{Keeps, keeps_rules, Keeps-bind, Keeps-pure}
use aws_ssm_kit.Errors.Ends.{Ends-bind}
use aws_ssm_kit.Text.{Text}
use aws_ssm_kit.Application.Env.{Ports}
use aws_ssm_kit.Application.Operations.{OperationResult, failed_with}
use aws_ssm_kit.Application.Sessions.{AuthenticationStatus}
use aws_ssm_kit.Application.Refresh
use aws_ssm_kit.Application.Refresh.{Coordinator, PendingRefresh, within, resume_found}
use aws_ssm_kit.Application.Authenticated.{
  Authenticated, PendingAction, Feature, below, pop_action, cancel, cancel_all, sweep_expired,
  expired_keys, invoke, after_resume, resume_popped, resume, not_resumable, is_succeeded,
}

module _ {W : Type 0} where
  -- A cancellation never raises.
  refresh_cancel-ok : (id : ℕ) (c : Coordinator W) → (Refresh.cancel id c).0 ≡ ok tt
  unfolding Refresh.cancel ◌>>=◌
  refresh_cancel-ok id c = ground arith

module _ {W Action : Type 0} where
  abbrev IsGone : ℕ → Authenticated W Action → Type 0
  IsGone id s = lookup id s.actions ≡ none

  below-IsGone : {A : Type 0} (id : ℕ) (m : Exec (Coordinator W) A) → Keeps (IsGone id) (below m)
  unfolding below
  below-IsGone id m = record { at = λ s h. h }

  pop_action-IsGone : (id other : ℕ) → Keeps (IsGone id) (pop_action other)
  unfolding pop_action
  pop_action-IsGone id other = record {
    at = λ s h. ground (arith, lookup-erase id other s.actions);
  }

  cancel_all-IsGone : (id : ℕ) (ids : List ℕ) → Keeps (IsGone id) (cancel_all ids)
  unfolding cancel_all cancel
  cancel_all-IsGone id [] = Keeps-pure tt
  cancel_all-IsGone id (other ∷ ids) =
      Keeps-bind (cancel other) (λ _. cancel_all ids)
        (Keeps-bind _ _ (pop_action-IsGone id other) (λ _. below-IsGone id (Refresh.cancel other)))
        (λ _. cancel_all-IsGone id ids)

  cancel_all-ok : (ids : List ℕ) (s : Authenticated W Action) → (cancel_all ids s).0 ≡ ok tt
  unfolding cancel_all ◌>>=◌
  cancel_all-ok [] s = refl
  cancel_all-ok (id ∷ ids) s =
      ground (arith, refresh_cancel-ok id s.coordinator, cancel_all-ok ids (cancel id s).1)

module _ {W Action T : Type 0} (p : Ports W) (feature : Feature W Action T) where
  resume_popped-IsGone :
      (id : ℕ) (o : Option (PendingAction Action)) (code : Option Text)
      → Keeps (IsGone id) (resume_popped p feature id o code)
  unfolding resume_popped invoke
  resume_popped-IsGone id none code = search keeps_rules
  resume_popped-IsGone id (some pending) code = search (keeps_rules, below-IsGone) depth 12

  sweep_expired-IsGone :
      (id : ℕ) (exclude : Option ℕ)
      → Keeps (IsGone {W = W} {Action = Action} id) (sweep_expired p feature exclude)
  unfolding sweep_expired
  sweep_expired-IsGone id exclude = Keeps-bind _ _ (below-IsGone id _) (λ now. record {
    at = λ s h. (cancel_all-IsGone id (expired_keys now exclude s.actions)).at s h;
  })

  sweep_expired-ok :
      (exclude : Option ℕ) (s : Authenticated W Action)
      → (sweep_expired p feature exclude s).0 ≡ ok tt
  unfolding sweep_expired ◌>>=◌
  sweep_expired-ok exclude s = cancel_all-ok _ _

  resume-gone :
      (id : ℕ) (code : Option Text) (s : Authenticated W Action)
      → IsGone id s
      → (resume p feature id code s).0 ≡ ok (failed_with id not_resumable)
  unfolding resume ◌>>=◌ pop_action resume_popped
  resume-gone id code s h =
      ground (arith, sweep_expired-ok (some id) s, (sweep_expired-IsGone id (some id)).at s h)

  popped-IsGone :
      (id : ℕ) (o : Option (PendingAction Action)) (code : Option Text) (t : Authenticated W Action)
      → IsGone id ((do pop_action id; resume_popped p feature id o code) t).1
  unfolding pop_action ◌>>=◌
  popped-IsGone id o code t =
      (resume_popped-IsGone id o code).at _ (ground (arith, lookup-erase id id t.actions))

  taken :
      (id : ℕ) (code : Option Text) (s : Authenticated W Action)
      → IsGone id (resume p feature id code s).1
  unfolding resume
  taken id code s =
      (Ends-bind {Q = λ _ t. IsGone id t} (sweep_expired p feature (some id)) _ s
        (λ a t h. record { holds = popped-IsGone id (lookup id t.actions) code t })
        (λ x t h. absurd (raises x t h))).holds
    where
      raises :
          (x : Failure) (t : Authenticated W Action)
          → sweep_expired p feature (some id) s ≡ (err x, t)
          → ⊥
      raises x t h = ground (arith, sweep_expired-ok (some id) s)

  -- However a resume ends, also by a raise, the action is no longer waiting, and a second resume
  -- fails.
  pub resume_action_once :
      (id : ℕ) (first second : Option Text) (s : Authenticated W Action)
      → (lookup id (resume p feature id first s).1.actions ≡ none)
        × ((resume p feature id second (resume p feature id first s).1).0
            ≡ ok (failed_with id not_resumable))
  resume_action_once id first second s =
      (taken id first s, resume-gone id second (resume p feature id first s).1 (taken id first s))

module _ {W : Type 0} (p : Ports W) where
  -- Without a code no refresh succeeds.
  refresh_without_code :
      (id : ℕ) (o : Option PendingRefresh) (c t : Coordinator W)
      (r : OperationResult AuthenticationStatus)
      → resume_found p id o none c ≡ (ok r, t)
      → is_succeeded r.state ≡ false
  unfolding resume_found Refresh.resume_popped pure within ◌>>=◌
  refresh_without_code id none c t r h = ground arith
  refresh_without_code id (some pending) c t r h = ground arith

  resume_without_success :
      (id : ℕ) (c t : Coordinator W) (r : OperationResult AuthenticationStatus)
      → Refresh.resume p id none c ≡ (ok r, t)
      → is_succeeded r.state ≡ false
  unfolding Refresh.resume
  resume_without_success id c t r h = refresh_without_code id (lookup id c.pending) c t r h

module _ {W Action T : Type 0} (p : Ports W) (f g : Feature W Action T) where
  later_without_code :
      (id : ℕ) (pending : PendingAction Action) (s : Authenticated W Action)
      → (below (Refresh.resume p id none) >>= λ r. after_resume p f id pending r) s
        ≡ (below (Refresh.resume p id none) >>= λ r. after_resume p g id pending r) s
  unfolding below after_resume ◌>>=◌
  later_without_code id pending s =
      go (Refresh.resume p id none s.coordinator).0 (Refresh.resume p id none s.coordinator).1 refl
    where
      go :
          (r : Result (OperationResult AuthenticationStatus)) (c : Coordinator W)
          → Refresh.resume p id none s.coordinator ≡ (r, c)
          → (below (Refresh.resume p id none) >>= λ r. after_resume p f id pending r) s
            ≡ (below (Refresh.resume p id none) >>= λ r. after_resume p g id pending r) s
      go (ok r) c e = rw e (rw (resume_without_success p id s.coordinator c r e))
      go (err x) c e = rw e

  popped_without_code :
      (id : ℕ) (o : Option (PendingAction Action)) (s : Authenticated W Action)
      → resume_popped p f id o none s ≡ resume_popped p g id o none s
  unfolding resume_popped ◌>>=◌
  popped_without_code id none s = refl
  popped_without_code id (some pending) s =
      elim (Bool-cases (leb pending.expires_at (p.now s.coordinator.env.world).0)) [
        | inl late ↦ rw late
        | inr live ↦ rw live (later_without_code id pending _)
      ]

  -- A resume without a code never runs the waiting action: its result and what it leaves do not
  -- depend on what the actions do.
  pub resume_without_code :
      (id : ℕ) (s : Authenticated W Action) → resume p f id none s ≡ resume p g id none s
  unfolding resume sweep_expired pop_action ◌>>=◌
  resume_without_code id s =
      let popped : Feature W Action T → Exec (Authenticated W Action) (OperationResult T) =
        λ h t. (do pop_action id; resume_popped p h id (lookup id t.actions) none) t in
      let same : popped f ≡ popped g =
        fun_ext λ t. popped_without_code id (lookup id t.actions) _ in
      ap (λ k. (sweep_expired p f (some id) >>= λ _. k) s) same
