-- ===== src/Application/Tunnels/Managed/Runner.antt =====
-- The tunnel service over the runners of application/ssm_session.py, as bootstrap.py wires them.
use aws_ssm_kit.Base.{
  ℕ, String, ◌≡◌, Bool, true, false, Option, none, some, List, [], ◌∷◌, ◌++◌, arith,
}
use aws_ssm_kit.Base.Dict.{Dict, NodupKeys, lookup}
use aws_ssm_kit.Errors.{ApplicationError, Result, ok, err, app, Failure, Exec, pure, raise}
use aws_ssm_kit.Text.{Text}
use aws_ssm_kit.Domain.Profile.{PlainCredentials}
use aws_ssm_kit.Application.Env.{Ports, Env, call, record_event}
use aws_ssm_kit.Application.Logging.{finish}
use aws_ssm_kit.Application.Ssm.{SsmPorts}
use aws_ssm_kit.Application.Ssm.Foreground as Foreground
use aws_ssm_kit.Application.Ssm.Managed as Sessions
use aws_ssm_kit.Application.Ssm.Managed.{OwnedSession, outside, disown, capture_end_error}
use aws_ssm_kit.Application.Tunnels.Managed.{
  TunnelHandle, SessionEndReason, ManagedTunnel, ManagedInstance, TunnelPorts, Tunnels, Attempt,
  returned, refused, attempt, caught, within, logged_rds,
}
use aws_ssm_kit.Application.Tunnels.Managed.Stop.{
  owned, stop_and_pop, stop_entry, stop_found, stop, check_context, keep_first, stop_each, stop_all,
}
use aws_ssm_kit.Application.Tunnels.Managed.Cleared.{left, OthersLeft, stop_all-OthersLeft}
use aws_ssm_kit.Errors.Typed.{Typed, Typed-bind, Typed-pure}
use aws_ssm_kit.Application.Ssm.Managed.Typed as RunnerTyped

-- The probe of local ports, and the list of online instances of the gateway.
pub record LocalPorts (W : Type 0) : Type 0 where
  pub is_available : ℕ → Exec W Bool
  pub list_online : PlainCredentials → Text → Exec W (List ManagedInstance)

module _ {W : Type 0} (p : SsmPorts W) (l : LocalPorts W) where
  -- the foreground runner and the managed one, over one gateway and one plugin
  abbrev pub runner_ports : TunnelPorts (Sessions.Runner W)
  runner_ports = record {
    is_cancelled = λ token s. p.is_cancelled token s.world;
    is_available = λ port. outside (l.is_available port);
    list_online = λ credentials region. outside (l.list_online credentials region);
    run = λ credentials region target parameters context seconds.
        outside
          (Foreground.run p credentials region target (some parameters) context (some seconds));
    start = λ credentials region target parameters context.
        Sessions.start p credentials region target (some parameters) false context;
    status = λ id. Sessions.status p id;
    stop = λ id. Sessions.stop p id;
  }

module _ {W : Type 0} (p : SsmPorts W) (l : LocalPorts W) (q : Ports (Sessions.Runner W)) where
  stop_and_pop-Typed :
      (id : ℕ) (s : Tunnels (Sessions.Runner W)) → Typed (stop_and_pop q (runner_ports p l) id s).0
  unfolding stop_and_pop within call
  stop_and_pop-Typed id s = RunnerTyped.stop-Typed p id s.env.world

  raise_error-Typed :
      (error : Option ApplicationError) (s : Tunnels (Sessions.Runner W))
      → Typed
          ((elim error as (λ _. Exec (Tunnels (Sessions.Runner W)) (Unit {0})) [
            | none ↦ pure tt
            | some e ↦ raise e
          ])
            s).0
  unfolding pure raise
  raise_error-Typed none s = tt
  raise_error-Typed (some e) s = tt

  stop_found-Typed :
      (id : ℕ) (o : Option ManagedTunnel) (reason : Option SessionEndReason)
      (s : Tunnels (Sessions.Runner W))
      → Typed (stop_found q (runner_ports p l) id o none reason s).0
  unfolding stop_found stop_entry check_context raise within record_event
  stop_found-Typed id none reason s = tt
  stop_found-Typed id (some entry) reason s =
      Typed-bind (check_context q (runner_ports p l) none) _ (Typed-pure tt)
        (λ _.
          Typed-bind (stop_and_pop q (runner_ports p l) id) _ (stop_and_pop-Typed id) (λ managed.
            Typed-bind _ _ (raise_error-Typed managed.error)
              (λ _. Typed-bind _ _ (λ s. tt) (λ _. Typed-pure _))))
        s

module _ {W A : Type 0} where
  finish-Typed :
      (feature action : String) (completion : Bool) (target : Text) (r : Result A) (e : Env W)
      → Typed r
      → Typed (finish feature action completion target r e).0
  unfolding finish
  finish-Typed feature action true target (ok a) e h = tt
  finish-Typed feature action false target (ok a) e h = tt
  finish-Typed feature action completion target (err (app x)) e h = ground arith
  finish-Typed feature action completion target (err Failure.cancelled) e h = absurd h
  finish-Typed feature action completion target (err Failure.untyped) e h = absurd h

module _ {S A : Type 0} where
  caught-Typed : (r : Result A) (s : S) → Typed r → Typed (caught r s).0
  unfolding caught
  caught-Typed (ok a) s h = tt
  caught-Typed (err (app e)) s h = tt
  caught-Typed (err Failure.cancelled) s h = h
  caught-Typed (err Failure.untyped) s h = h

module _ {W : Type 0} (p : SsmPorts W) (l : LocalPorts W) (q : Ports (Sessions.Runner W)) where
  stop-Typed :
      (id : ℕ) (s : Tunnels (Sessions.Runner W))
      → Typed (stop q (runner_ports p l) id none none s).0
  unfolding stop logged_rds within
  stop-Typed id s =
      finish-Typed "rds" "stop" false _ _ _ (stop_found-Typed p l q id (lookup id s.managed) none _)

  attempt_stop-Typed :
      (id : ℕ) (s : Tunnels (Sessions.Runner W))
      → Typed (attempt (stop q (runner_ports p l) id none none) s).0
  unfolding attempt
  attempt_stop-Typed id s = caught-Typed _ _ (stop-Typed id s)

  stop_rest-Typed :
      (rest : Dict ManagedTunnel)
      → ((handles : List TunnelHandle) (first : Option ApplicationError)
            (s : Tunnels (Sessions.Runner W))
          → Typed (stop_each q (runner_ports p l) rest handles first s).0)
      → (handles : List TunnelHandle) (first : Option ApplicationError)
        (outcome : Attempt TunnelHandle) (s : Tunnels (Sessions.Runner W))
      → Typed
          ((elim outcome as (λ _. Exec (Tunnels (Sessions.Runner W)) (List TunnelHandle)) [
            | returned h ↦ stop_each q (runner_ports p l) rest (handles ++ h ∷ []) first
            | refused e ↦ stop_each q (runner_ports p l) rest handles (keep_first first e)
          ])
            s).0
  stop_rest-Typed rest later handles first (returned h) s = later (handles ++ h ∷ []) first s
  stop_rest-Typed rest later handles first (refused e) s = later handles (keep_first first e) s

  stop_each-Typed :
      (d : Dict ManagedTunnel) (handles : List TunnelHandle) (first : Option ApplicationError)
      (s : Tunnels (Sessions.Runner W))
      → Typed (stop_each q (runner_ports p l) d handles first s).0
  unfolding stop_each pure raise
  stop_each-Typed [] handles none s = tt
  stop_each-Typed [] handles (some e) s = tt
  stop_each-Typed ((id, entry) ∷ rest) handles first s =
      Typed-bind (attempt (stop q (runner_ports p l) id none none)) _ (attempt_stop-Typed id)
        (stop_rest-Typed rest (stop_each-Typed rest) handles first) s

  stop_all-Typed :
      (profile_id : Option ℕ) (s : Tunnels (Sessions.Runner W))
      → Typed (stop_all q (runner_ports p l) profile_id s).0
  unfolding stop_all
  stop_all-Typed profile_id s = stop_each-Typed (owned profile_id s.managed) [] none s

  others_left :
      (profile_id : Option ℕ) (s : Tunnels (Sessions.Runner W)) (r : Result (List TunnelHandle))
      (after : Tunnels (Sessions.Runner W))
      → Typed r
      → OthersLeft profile_id s r after
      → (k : ℕ) → lookup k after.managed ≡ left profile_id (lookup k s.managed)
  others_left profile_id s (ok handles) after h left = left
  others_left profile_id s (err (app e)) after h left = left
  others_left profile_id s (err Failure.cancelled) after h left = absurd h
  others_left profile_id s (err Failure.untyped) after h left = absurd h

  -- Over the managed runner, `stop_all` always returns or raises an application error, whatever the
  -- gateway, the plugin and the processes do, and it always takes every managed tunnel of the profile
  -- out of the table and leaves the others as they were.
  pub stop_all_total :
      (profile_id : Option ℕ) (s : Tunnels (Sessions.Runner W))
      → NodupKeys s.managed
      → Typed (stop_all q (runner_ports p l) profile_id s).0
        × ((k : ℕ)
            → lookup k (stop_all q (runner_ports p l) profile_id s).1.managed
              ≡ left profile_id (lookup k s.managed))
  stop_all_total profile_id s once =
      let typed = stop_all-Typed profile_id s in
      (
        typed,
        others_left profile_id s _ _ typed
            (stop_all-OthersLeft q (runner_ports p l) profile_id s once),
      )
