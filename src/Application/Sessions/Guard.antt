-- ===== src/Application/Sessions/Guard.antt =====
-- What the session guard hands out, and what it leaves in the store.
use aws_ssm_kit.Base.{
  ℕ, ◌≡◌, ◌≢◌, refl, true, false, Option, none, some, arith, ◌∙◌, inl, inr, Bool-cases,
}
use aws_ssm_kit.Base.Dict.{lookup, lookup-erase}
use aws_ssm_kit.Errors.{Result, ok, err, app, Failure, pure, lift, rescue, ◌>>=◌, ◌>>◌}
use aws_ssm_kit.Errors.Ends.{Ends, Ends-bind, Ends-rescue, Ends-at}
use aws_ssm_kit.Text.{same}
use aws_ssm_kit.Domain.Profile.{
  AwsProfile, require_id, PlainCredentials, SessionCredentials, needs_refresh,
}
use aws_ssm_kit.Store.Sessions
use aws_ssm_kit.Application.Env.{AwsIdentity, Ports, Env, call, ask, query, write}
use aws_ssm_kit.Application.Profiles.{Selector, resolve}
use aws_ssm_kit.Application.Sessions.{
  open_session, use_session, or_none, credentials, assert_identity, delete_session, is_disposable,
}

module _ {W : Type 0} (p : Ports W) where
  -- AWS was asked for the identity of the credentials, and named the profile's own.
  abbrev pub Identified : AwsProfile → PlainCredentials → Type 0
  Identified profile c =
      (w : W) × (identity : AwsIdentity) × ((p.get_identity c profile.region w).0 ≡ ok identity)
      × (same profile.account_id identity.account_id ≡ true)
      × (same profile.user_id identity.user_id ≡ true)

  -- What a call that opened a session has done, by how it ended.
  abbrev Opened : AwsProfile → Env W → Result (Option PlainCredentials) → Env W → Type 0
  Opened profile e (ok none) e' = ⊥
  Opened profile e (ok (some c)) e' = (e'.db ≡ e.db) × Identified profile c
  Opened profile e (err _) e' = e'.db ≡ e.db

  assert_identity-Identified :
      (profile : AwsProfile) (c : PlainCredentials) (e t : Env W)
      → assert_identity p profile c e ≡ (ok tt, t)
      → Identified profile c
  unfolding assert_identity call ◌>>=◌
  assert_identity-Identified profile c e t h = go (p.get_identity c profile.region e.world).0 refl
    where
      go :
          (r : Result AwsIdentity)
          → (p.get_identity c profile.region e.world).0 ≡ r
          → Identified profile c
      go (ok identity) q = (e.world, identity, q, ground arith, ground arith)
      go (err x) q = absurd (ground arith)

  assert_identity-db :
      (profile : AwsProfile) (c : PlainCredentials) (e : Env W)
      → (assert_identity p profile c e).1.db ≡ e.db
  unfolding assert_identity call ◌>>=◌
  assert_identity-db profile c e = ground arith

  open_session-Opened :
      (profile : AwsProfile) (session : SessionCredentials) (e : Env W)
      → Ends (Opened profile e) (open_session p profile session) e
  unfolding open_session call pure lift
  open_session-Opened profile session e =
      Ends-bind _ _ _
        (λ access t h.
          Ends-bind _ _ _
            (λ secret t' h'.
              Ends-bind _ _ _
                (λ token t'' h''.
                  Ends-bind _ _ _
                    (λ c t3 h3.
                      Ends-bind _ _ _
                        (λ checked t4 h4. record {
                          holds = (
                            ground (arith, assert_identity-db profile c t3),
                            assert_identity-Identified profile c t3 t4 h4,
                          );
                        })
                        (λ x t4 h4. ground (arith, assert_identity-db profile c t3)))
                    (λ x t3 h3. ground arith))
                (λ x t'' h''. ground arith))
            (λ x t' h'. ground arith))
        (λ x t h. ground arith)

  -- How a call of the guard for the profile with the key `id` ended. Credentials are handed out only
  -- for a cached session that needs no refresh and that AWS identified, and nothing is written.
  -- Where there are none, no session of the profile is left, and the others are as they were. An
  -- error leaves the store alone.
  abbrev pub Guarded : AwsProfile → ℕ → Env W → Result (Option PlainCredentials) → Env W → Type 0
  Guarded profile id e (ok (some c)) e' =
      (e'.db ≡ e.db)
      × Identified profile c
      × ((session : SessionCredentials) × (lookup id e.db.sessions ≡ some session)
          × (needs_refresh session (p.now e.world).0 ≡ false))
  Guarded profile id e (ok none) e' =
      (lookup id e'.db.sessions ≡ none)
      × ((other : ℕ) → other ≢ id → lookup other e'.db.sessions ≡ lookup other e.db.sessions)
  Guarded profile id e (err _) e' = e'.db ≡ e.db

  dropped-Guarded :
      (profile : AwsProfile) (id : ℕ) (e t : Env W)
      → t.db ≡ e.db
      → Ends (Guarded profile id e) (do delete_session p id; pure none) t
  unfolding delete_session write Sessions.delete_session ◌>>=◌
  dropped-Guarded profile id e t same_db = record {
    holds = (
      ground (arith, lookup-erase id id t.db.sessions),
      λ other ne. ground (arith, lookup-erase other id t.db.sessions),
    );
  }

  rescued-Guarded :
      (profile : AwsProfile) (id : ℕ) (session : SessionCredentials) (e t : Env W)
      → t.db ≡ e.db
      → lookup id e.db.sessions ≡ some session
      → needs_refresh session (p.now e.world).0 ≡ false
      → Ends
          (Guarded profile id e)
          (rescue
            (open_session p profile session)
            is_disposable
            (λ _. do delete_session p id; pure none))
          t
  rescued-Guarded profile id session e t same_db found usable =
      Ends-rescue (open_session p profile session) is_disposable _ t returned
        (λ x t' h. dropped-Guarded profile id e t' (failed (app x) t' h)) failed
    where
      failed :
          (x : Failure) (t' : Env W) → open_session p profile session t ≡ (err x, t') → t'.db ≡ e.db
      failed x t' h = Ends-at _ t (open_session-Opened profile session t) h ∙ same_db

      returned :
          (o : Option PlainCredentials) (t' : Env W)
          → open_session p profile session t ≡ (ok o, t')
          → Guarded profile id e (ok o) t'
      returned none t' h = absurd (Ends-at _ t (open_session-Opened profile session t) h)
      returned (some c) t' h =
          let (kept, known) = Ends-at _ t (open_session-Opened profile session t) h in
          (kept ∙ same_db, known, (session, found, usable))

  use_session-Guarded :
      (profile : AwsProfile) (id : ℕ) (session : SessionCredentials) (e : Env W)
      → lookup id e.db.sessions ≡ some session
      → Ends (Guarded profile id e) (use_session p profile id session) e
  unfolding use_session ask
  use_session-Guarded profile id session e found =
      Ends-bind _ _ e
        (λ now t h. elim (Bool-cases (needs_refresh session now)) [
          | inl stale ↦ rw stale (dropped-Guarded profile id e t (ground arith))
          | inr usable ↦
              rw usable (rescued-Guarded profile id session e t (ground arith) found (ground arith))
        ])
        (λ x t h. ground arith)

  or_none-Guarded :
      (profile : AwsProfile) (id : ℕ) (o : Option SessionCredentials) (e : Env W)
      → lookup id e.db.sessions ≡ o
      → Ends (Guarded profile id e) (or_none p profile id o) e
  unfolding or_none pure
  or_none-Guarded profile id none e found = record { holds = (found, λ other ne. refl) }
  or_none-Guarded profile id (some session) e found = use_session-Guarded profile id session e found

  -- `SessionGuard.credentials` on a profile that resolves and is saved. Credentials are returned only
  -- for a cached session that needs no refresh, after AWS named the profile's own account and user
  -- for them, and the store is as before. Where none are returned, no session of the profile is left
  -- and the others are as before. Where an error is raised, the store is as before.
  pub credentials-Guarded :
      (selector : Selector) (profile : AwsProfile) (id : ℕ) (e : Env W)
      → resolve p.runtime selector e.db ≡ ok profile
      → profile.id ≡ some id
      → Guarded profile id e (credentials p selector e).0 (credentials p selector e).1
  unfolding credentials require_id query lift Sessions.get_session ◌>>=◌ use_session open_session
  credentials-Guarded selector profile id e resolved saved =
      rw (resolved, saved) ((or_none-Guarded profile id (lookup id e.db.sessions) e refl).holds)
