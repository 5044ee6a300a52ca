-- ===== src/Application/Refresh/Resume.antt =====
-- Resumes of a pending refresh: a second one, and what it takes to try a refresh.
use aws_ssm_kit.Base.{
  ℕ, ◌<◌, ◌≡◌, refl, false, Option, none, some, arith, ◌⊎◌, inl, inr, Bool-cases, leb,
}
use aws_ssm_kit.Base.Dict.{lookup, lookup-erase, AllValues, AllValues-lookup}
use aws_ssm_kit.Errors.{Result, ok, Exec, pure, ◌>>=◌}
use aws_ssm_kit.Errors.Keeps.{Keeps, keeps_rules, Keeps-rescue}
use aws_ssm_kit.Text.{Text}
use aws_ssm_kit.Application.Env.{Ports, Env, ask, record_event}
use aws_ssm_kit.Application.Operations.{OperationResult}
use aws_ssm_kit.Application.Sessions.{AuthenticationStatus}
use aws_ssm_kit.Application.Refresh.Bound.{IsBounded, IsUnmarked}
use aws_ssm_kit.Application.Refresh.{
  Coordinator, PendingRefresh, within, pop_pending, resume_popped, resume_found, resume, failure,
}

module _ {W : Type 0} where
  -- The operation is not pending, or has been taken by a resume already.
  abbrev IsGone : ℕ → Coordinator W → Type 0
  IsGone id c = lookup id c.pending ≡ none

  within-IsGone : {A : Type 0} (id : ℕ) (m : Exec (Env W) A) → Keeps (IsGone id) (within m)
  unfolding within
  within-IsGone id m = record { at = λ c h. h }

module _ {W : Type 0} (p : Ports W) where
  resume_popped-IsGone :
      (id : ℕ) (pending : PendingRefresh) (code : Option Text)
      → Keeps (IsGone id) (resume_popped p id pending code)
  unfolding resume_popped
  resume_popped-IsGone id pending none = search (keeps_rules, within-IsGone) depth 12
  resume_popped-IsGone id pending (some code) =
      search (keeps_rules, Keeps-rescue, within-IsGone) depth 12

  resume_found-IsGone :
      (id : ℕ) (o : Option PendingRefresh) (code : Option Text) (c : Coordinator W)
      → AllValues IsUnmarked c.pending
      → lookup id c.pending ≡ o
      → IsGone id (resume_found p id o code c).1
  unfolding resume_found pop_pending pure ◌>>=◌
  resume_found-IsGone id none code c h e = e
  resume_found-IsGone id (some pending) code c h e =
      let unmarked : pending.resumed ≡ false =
        AllValues-lookup IsUnmarked id pending c.pending h e in
      rw unmarked
        ((resume_popped-IsGone id pending code).at _ (ground (arith, lookup-erase id id c.pending)))

  resume-gone :
      (id : ℕ) (code : Option Text) (c : Coordinator W)
      → IsGone id c
      → resume p id code c ≡ (ok (failure id "mfa.operation.not_resumable"), c)
  unfolding resume pure
  resume-gone id code c gone = rw gone

  -- However a resume ends, also by a raise, the operation is no longer pending, and a second resume
  -- is refused and changes nothing.
  pub resume_once :
      (id : ℕ) (first second : Option Text) (c : Coordinator W)
      → IsBounded c
      → (lookup id (resume p id first c).1.pending ≡ none)
        × (resume p id second (resume p id first c).1
            ≡ (ok (failure id "mfa.operation.not_resumable"), (resume p id first c).1))
  unfolding resume
  resume_once id first second c h =
      let gone = resume_found-IsGone id (lookup id c.pending) first c h.unmarked refl in
      (gone, resume-gone id second (resume p id first c).1 gone)

  -- What a resume leaves that tries no refresh: the store is as before, the world has at most told
  -- the time, and the result has no value.
  abbrev pub IsUntried :
      Coordinator W → Result (OperationResult AuthenticationStatus) × Coordinator W → Type 0
  IsUntried c after =
      (after.1.env.db ≡ c.env.db)
      × ((after.1.env.world ≡ c.env.world) ⊎ (after.1.env.world ≡ (p.now c.env.world).1))
      × ((r : OperationResult AuthenticationStatus) × (after.0 ≡ ok r) × (r.value ≡ none))

  -- What it takes to try one: a pending operation, a code, and a time before the expiry.
  abbrev pub IsLive : ℕ → Option Text → Coordinator W → Type 0
  IsLive id code c =
      (pending : PendingRefresh) × (text : Text) × (lookup id c.pending ≡ some pending)
      × (code ≡ some text)
      × ((p.now c.env.world).0 < pending.expires_at)

  found_outcome :
      (id : ℕ) (o : Option PendingRefresh) (code : Option Text) (c : Coordinator W)
      → lookup id c.pending ≡ o
      → IsUntried c (resume_found p id o code c) ⊎ IsLive id code c
  unfolding resume_found resume_popped pure ask within pop_pending record_event ◌>>=◌
  found_outcome id none code c e = inl (refl, inl refl, (_, refl, refl))
  found_outcome id (some pending) code c e = elim (Bool-cases pending.resumed) [
    | inl taken ↦ rw taken (inl (refl, inl refl, (_, refl, refl)))
    | inr free ↦ rw free (given code e)
  ]
    where
      given :
          (code : Option Text)
          → lookup id c.pending ≡ some pending
          → IsUntried c ((pop_pending id >>= λ _. resume_popped p id pending code) c)
            ⊎ IsLive id code c
      given none e = inl (refl, inl refl, (_, refl, refl))
      given (some text) e = elim (Bool-cases (leb pending.expires_at (p.now c.env.world).0)) [
        | inl late ↦ rw late (inl (refl, inr refl, (_, refl, refl)))
        | inr early ↦ inr (pending, text, e, refl, ground arith)
      ]

  -- Unless the operation is pending, a code is given and the clock reads a time before the expiry, a
  -- resume leaves the store as it was and the world as it was or as the reading of the clock left it,
  -- and returns a result without a value.
  pub resume_tries :
      (id : ℕ) (code : Option Text) (c : Coordinator W)
      → IsUntried c (resume p id code c) ⊎ IsLive id code c
  unfolding resume
  resume_tries id code c = found_outcome id (lookup id c.pending) code c refl
