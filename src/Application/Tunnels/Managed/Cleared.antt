-- ===== src/Application/Tunnels/Managed/Cleared.antt =====
-- What a stop leaves in the table of managed tunnels.
use aws_ssm_kit.Base.{
  ℕ, ◌≡◌, refl, ◌∙◌, Bool, false, Option, none, some, List, [], ◌∷◌, ◌++◌, ◌==◌, if◌then◌else◌,
  arith, is_some,
}
use aws_ssm_kit.Base.Dict.{Dict, lookup, erase, lookup-erase, NodupKeys}
use aws_ssm_kit.Errors.{ApplicationError, Result, ok, err, app, Failure, Exec, pure, raise, ◌>>=◌}
use aws_ssm_kit.Errors.Ends.{Ends, Ends-bind}
use aws_ssm_kit.Application.Env.{Ports}
use aws_ssm_kit.Application.Tunnels.Managed.{
  TunnelHandle, SessionEndReason, ManagedTunnel, TunnelPorts, Tunnels, Attempt, returned, refused,
  attempt, caught, within, logged_rds,
}
use aws_ssm_kit.Application.Tunnels.Managed.Stop.{
  is_owned, owned, stop_and_pop, stop_entry, stop_found, stop, check_context, keep_first, stop_each,
  stop_all,
}

module _ {S A : Type 0} where
  caught-state : (r : Result A) (s : S) → (caught r s).1 ≡ s
  unfolding caught
  caught-state (ok a) s = refl
  caught-state (err (app e)) s = refl
  caught-state (err Failure.cancelled) s = refl
  caught-state (err Failure.untyped) s = refl

  pub attempt-state : (m : Exec S A) (s : S) → (attempt m s).1 ≡ (m s).1
  unfolding attempt
  attempt-state m s = caught-state (m s).0 (m s).1

  caught-untyped :
      (r : Result A) (s t : S) (e : ApplicationError) → caught r s ≡ (err (app e), t) → ⊥
  unfolding caught
  caught-untyped (ok a) s t e h = ground arith
  caught-untyped (err (app x)) s t e h = ground arith
  caught-untyped (err Failure.cancelled) s t e h = ground arith
  caught-untyped (err Failure.untyped) s t e h = ground arith

  -- An attempt raises no application error.
  attempt-untyped :
      (m : Exec S A) (s t : S) (e : ApplicationError) → attempt m s ≡ (err (app e), t) → ⊥
  unfolding attempt
  attempt-untyped m s t e h = caught-untyped (m s).0 (m s).1 t e h

abbrev pub is_listed : ℕ → Dict ManagedTunnel → Bool
is_listed k d = is_some (lookup k d)

module _ {W : Type 0} where
  -- A call that returned, or raised an application error, has removed the listed tunnels and no other.
  abbrev pub Cleared :
      {A : Type 0} → ℕ → Dict ManagedTunnel → Tunnels W → Result A → Tunnels W → Type 0
  Cleared k d s (err Failure.cancelled) after = Unit
  Cleared k d s (err Failure.untyped) after = Unit
  Cleared k d s (err (app e)) after =
      lookup k after.managed ≡ (if is_listed k d then none else lookup k s.managed)
  Cleared k d s (ok a) after =
      lookup k after.managed ≡ (if is_listed k d then none else lookup k s.managed)

  -- one more tunnel is stopped before the rest
  Cleared-step :
      (k id : ℕ) (entry : ManagedTunnel) (rest : Dict ManagedTunnel) (s u : Tunnels W)
      → lookup k u.managed ≡ (if id == k then none else lookup k s.managed)
      → (r : Result (List TunnelHandle)) (after : Tunnels W) → Cleared k rest u r after
      → Cleared k ((id, entry) ∷ rest) s r after
  unfolding lookup
  Cleared-step k id entry rest s u e (err Failure.cancelled) after h = h
  Cleared-step k id entry rest s u e (err Failure.untyped) after h = h
  Cleared-step k id entry rest s u e (err (app x)) after h = ground arith
  Cleared-step k id entry rest s u e (ok a) after h = ground arith

module _ {W : Type 0} (p : Ports W) (t : TunnelPorts W) where
  stop_entry-managed :
      (id : ℕ) (entry : ManagedTunnel) (reason : Option SessionEndReason) (s : Tunnels W)
      → (stop_entry p t id entry none reason s).1.managed ≡ erase id s.managed
  unfolding stop_entry check_context stop_and_pop within ◌>>=◌
  stop_entry-managed id entry reason s = ground arith

  stop_found-lookup :
      (k id : ℕ) (o : Option ManagedTunnel) (reason : Option SessionEndReason) (s : Tunnels W)
      → lookup id s.managed ≡ o
      → lookup k (stop_found p t id o none reason s).1.managed ≡ lookup k (erase id s.managed)
  unfolding stop_found raise
  stop_found-lookup k id none reason s e = ground (arith, lookup-erase k id s.managed)
  stop_found-lookup k id (some entry) reason s e = rw (stop_entry-managed id entry reason s)

  -- However a stop with a fresh context ends, the tunnel is no longer managed and the others are.
  pub stop-lookup :
      (k id : ℕ) (reason : Option SessionEndReason) (s : Tunnels W)
      → lookup k (stop p t id none reason s).1.managed
        ≡ (if id == k then none else lookup k s.managed)
  unfolding stop logged_rds within
  stop-lookup k id reason s =
      stop_found-lookup k id (lookup id s.managed) reason _ refl ∙ lookup-erase k id s.managed

  stop_first-Cleared :
      (k id : ℕ) (entry : ManagedTunnel) (rest : Dict ManagedTunnel) (handles : List TunnelHandle)
      (first : Option ApplicationError) (s : Tunnels W)
      → ((others : List TunnelHandle) (error : Option ApplicationError) (u : Tunnels W)
          → Ends (Cleared k rest u) (stop_each p t rest others error) u)
      → Ends (Cleared k ((id, entry) ∷ rest) s) (stop_each p t ((id, entry) ∷ rest) handles first) s
  unfolding stop_each
  stop_first-Cleared k id entry rest handles first s rest_cleared =
      Ends-bind (attempt (stop p t id none none)) _ s later raised
    where
      state :
          (o : Result (Attempt TunnelHandle)) (u : Tunnels W)
          → attempt (stop p t id none none) s ≡ (o, u)
          → lookup k u.managed ≡ (if id == k then none else lookup k s.managed)
      state o u h = ground (arith, attempt-state (stop p t id none none) s, stop-lookup k id none s)

      later :
          (o : Attempt TunnelHandle) (u : Tunnels W)
          → attempt (stop p t id none none) s ≡ (ok o, u)
          → Ends
              (Cleared k ((id, entry) ∷ rest) s)
              ((elim o [
                | returned h ↦ stop_each p t rest (handles ++ h ∷ []) first
                | refused e ↦ stop_each p t rest handles (keep_first first e)
              ]))
              u
      later (returned x) u h = record {
        holds =
            Cleared-step k id entry rest s u (state _ u h) _ _
              (rest_cleared (handles ++ x ∷ []) first u).holds;
      }
      later (refused x) u h = record {
        holds =
            Cleared-step k id entry rest s u (state _ u h) _ _
              (rest_cleared handles (keep_first first x) u).holds;
      }

      raised :
          (x : Failure) (u : Tunnels W)
          → attempt (stop p t id none none) s ≡ (err x, u)
          → Cleared {A = List TunnelHandle} k ((id, entry) ∷ rest) s (err x) u
      raised (app x) u h = absurd (attempt-untyped (stop p t id none none) s u x h)
      raised Failure.cancelled u h = tt
      raised Failure.untyped u h = tt

  stop_each-Cleared :
      (k : ℕ) (d : Dict ManagedTunnel) (handles : List TunnelHandle)
      (first : Option ApplicationError) (s : Tunnels W)
      → Ends (Cleared k d s) (stop_each p t d handles first) s
  unfolding stop_each lookup pure raise
  stop_each-Cleared k [] handles none s = record { holds = refl }
  stop_each-Cleared k [] handles (some e) s = record { holds = refl }
  stop_each-Cleared k ((id, entry) ∷ rest) handles first s =
      stop_first-Cleared k id entry rest handles first s
        (λ others error u. stop_each-Cleared k rest others error u)

-- what a stop of the tunnels of a profile leaves of one entry of the table
abbrev pub left : Option ℕ → Option ManagedTunnel → Option ManagedTunnel
left profile_id none = none
left profile_id (some entry) = if is_owned profile_id entry then none else some entry

pub not_listed :
    (profile_id : Option ℕ) (k : ℕ) (d : Dict ManagedTunnel)
    → lookup k d ≡ none
    → is_listed k (owned profile_id d) ≡ false
unfolding owned lookup
not_listed profile_id k [] h = refl
not_listed profile_id k ((id, entry) ∷ rest) h = ground (arith, not_listed profile_id k rest)

owned-lookup :
    (profile_id : Option ℕ) (k : ℕ) (d : Dict ManagedTunnel)
    → NodupKeys d
    → (if is_listed k (owned profile_id d) then none else lookup k d) ≡ left profile_id (lookup k d)
unfolding owned lookup
owned-lookup profile_id k [] once = refl
owned-lookup profile_id k ((id, entry) ∷ rest) (fresh_id, once) =
    ground (arith, owned-lookup profile_id k rest once, unlisted)
  where
    unlisted : id ≡ k → is_listed k (owned profile_id rest) ≡ false
    unlisted e = not_listed profile_id k rest (ground arith)

module _ {W : Type 0} where
  -- the table after `stop_all`, unless the runner raised something other than an application error
  abbrev pub OthersLeft : Option ℕ → Tunnels W → Result (List TunnelHandle) → Tunnels W → Type 0
  OthersLeft profile_id s (err Failure.cancelled) after = Unit
  OthersLeft profile_id s (err Failure.untyped) after = Unit
  OthersLeft profile_id s (err (app e)) after =
      (k : ℕ) → lookup k after.managed ≡ left profile_id (lookup k s.managed)
  OthersLeft profile_id s (ok handles) after =
      (k : ℕ) → lookup k after.managed ≡ left profile_id (lookup k s.managed)

  Cleared-OthersLeft :
      (profile_id : Option ℕ) (s : Tunnels W)
      → NodupKeys s.managed
      → (r : Result (List TunnelHandle)) (after : Tunnels W)
      → ((k : ℕ) → Cleared k (owned profile_id s.managed) s r after)
      → OthersLeft profile_id s r after
  Cleared-OthersLeft profile_id s once (err Failure.cancelled) after h = tt
  Cleared-OthersLeft profile_id s once (err Failure.untyped) after h = tt
  Cleared-OthersLeft profile_id s once (err (app e)) after h =
      λ k. h k ∙ owned-lookup profile_id k s.managed once
  Cleared-OthersLeft profile_id s once (ok handles) after h =
      λ k. h k ∙ owned-lookup profile_id k s.managed once

module _ {W : Type 0} (p : Ports W) (t : TunnelPorts W) where
  -- `stop_all` takes every managed tunnel of the profile, or of all profiles, out of the table and
  -- leaves the others as they were, also when it raises the first application error of its stops.
  -- Nothing is said where the runner raised a cancellation or an untyped error.
  pub stop_all-OthersLeft :
      (profile_id : Option ℕ) (s : Tunnels W)
      → NodupKeys s.managed
      → OthersLeft profile_id s (stop_all p t profile_id s).0 (stop_all p t profile_id s).1
  unfolding stop_all
  stop_all-OthersLeft profile_id s once =
      Cleared-OthersLeft profile_id s once _ _
        (λ k. (stop_each-Cleared p t k (owned profile_id s.managed) [] none s).holds)
