-- ===== src/Application/Tunnels/Managed/Checks.antt =====
-- What is checked before a tunnel starts.
use aws_ssm_kit.Base.{ℕ, ◌≡◌, refl, sym, ap, ◌∙◌, Bool, true, false, not, List, any, arith}
use aws_ssm_kit.Errors.{ApplicationError, Result, ok, pure, lift, raise_if, bind-eq-ok}
use aws_ssm_kit.Domain.Profile.{AwsProfile, require_id, PlainCredentials}
use aws_ssm_kit.Domain.Tunnel.{TunnelSession, resolve_target}
use aws_ssm_kit.Text.{Text}
use aws_ssm_kit.Store.{Db}
use aws_ssm_kit.Application.Env.{Ports, Env, call, query}
use aws_ssm_kit.Application.Profiles.{Selector, resolve}
use aws_ssm_kit.Application.Tunnels.{show}
use aws_ssm_kit.Application.Tunnels.Managed.{
  StartTunnelRequest, ManagedInstance, TunnelPorts, Prepared, is_online, local_port_in_use,
}
use aws_ssm_kit.Application.Tunnels.Managed.Start.{
  prepare, prepare_free, local_port_available, require_online_target,
}

module _ {S : Type 0} where
  -- a check that let the call go on
  passed_test :
      (b : Bool) (x : ApplicationError) (s s' : S) → raise_if (not b) x s ≡ (ok tt, s') → b ≡ true
  unfolding raise_if
  passed_test true x s s' h = refl
  passed_test false x s s' h = absurd (ground arith)

  lifted_value : {A : Type 0} (r : Result A) (a : A) (s s' : S) → lift r s ≡ (ok a, s') → r ≡ ok a
  unfolding lift
  lifted_value r a s s' h = ap (λ x. x.0) h

  returned_value : {A : Type 0} (a b : A) (s s' : S) → pure a s ≡ (ok b, s') → b ≡ a
  unfolding pure
  returned_value a b s s' h = ground arith

module _ {W : Type 0} where
  queried :
      {A : Type 0} (f : Db → Result A) (a : A) (e e' : Env W)
      → query f e ≡ (ok a, e')
      → (f e.db ≡ ok a) × (e' ≡ e)
  unfolding query
  queried f a e e' h = (ap (λ x. x.0) h, sym (ap (λ x. x.1) h))

module _ {W : Type 0} (p : Ports W) (t : TunnelPorts W) where
  -- AWS listed the target as online for the credentials.
  abbrev pub Online : PlainCredentials → Text → Text → Type 0
  Online credentials region target =
      (w : W) × (items : List ManagedInstance) × ((t.list_online credentials region w).0 ≡ ok items)
      × (any (is_online target) items ≡ true)

  require_online_target-Online :
      (credentials : PlainCredentials) (region target : Text) (e e' : Env W)
      → require_online_target p t credentials region target e ≡ (ok tt, e')
      → Online credentials region target
  unfolding require_online_target call
  require_online_target-Online credentials region target e e' h =
      let (items, e1, listed, checked) = bind-eq-ok _ _ e h in
      (e.world, items, ground arith, passed_test _ _ e1 e' checked)

  prepare_free-Online :
      (request : StartTunnelRequest) (profile : AwsProfile) (id : ℕ) (tunnel : TunnelSession)
      (free : Bool) (e e' : Env W) (prepared : Prepared)
      → prepare_free p t request profile id tunnel free e ≡ (ok prepared, e')
      → (free ≡ true)
        × (prepared.profile ≡ profile)
        × (prepared.tunnel ≡ tunnel)
        × (resolve_target tunnel request.selected_instance_id ≡ ok prepared.target)
        × (prepared.parameters ≡ record {
          host = tunnel.host;
          port_number = tunnel.remote_port;
          local_port_number = tunnel.local_port;
        })
        × Online prepared.credentials profile.region prepared.target
  unfolding prepare_free
  prepare_free-Online request profile id tunnel free e e' prepared h =
      let (_, e1, h1, k1) = bind-eq-ok _ _ e h in
      let (target, e2, h2, k2) = bind-eq-ok _ _ e1 k1 in
      let (credentials, e3, h3, k3) = bind-eq-ok _ _ e2 k2 in
      let (_, e4, h4, k4) = bind-eq-ok _ _ e3 k3 in
      let online = require_online_target-Online credentials profile.region target e3 e4 h4 in
      let same = returned_value _ prepared e4 e' k4 in
      (
        passed_test free local_port_in_use e e1 h1,
        ap (λ r. r.profile) same,
        ap (λ r. r.tunnel) same,
        lifted_value (resolve_target tunnel request.selected_instance_id) target e1 e2 h2
            ∙ ap (λ r. ok r.target) (sym same),
        ap (λ r. r.parameters) same,
        rw same online,
      )

  probed :
      (port : ℕ) (free : Bool) (e e' : Env W)
      → local_port_available p t port e ≡ (ok free, e')
      → (w : W) × ((t.is_available port w).0 ≡ ok free)
  unfolding local_port_available call
  probed port free e e' h =
      let (_, e1, checked, k) = bind-eq-ok _ _ e h in (e1.world, ap (λ x. x.0) k)

  -- When the checks of a start succeed, the profile and the tunnel are the ones that the request
  -- names, the local port was free, the target is the one that the tunnel resolves to, AWS listed it
  -- as online for the credentials, and the parameters are the host and the ports of the tunnel.
  pub prepare-Online :
      (request : StartTunnelRequest) (e e' : Env W) (prepared : Prepared)
      → prepare p t request e ≡ (ok prepared, e')
      → (resolve p.runtime request.profile e.db ≡ ok prepared.profile)
        × ((id : ℕ) × (require_id prepared.profile ≡ ok id)
            × (show p.runtime request.tunnel (Selector.by_id id) e.db ≡ ok prepared.tunnel))
        × ((w : W) × ((t.is_available prepared.tunnel.local_port w).0 ≡ ok true))
        × (resolve_target prepared.tunnel request.selected_instance_id ≡ ok prepared.target)
        × (prepared.parameters ≡ record {
          host = prepared.tunnel.host;
          port_number = prepared.tunnel.remote_port;
          local_port_number = prepared.tunnel.local_port;
        })
        × Online prepared.credentials prepared.profile.region prepared.target
  unfolding prepare lift
  prepare-Online request e e' prepared h =
      let (profile, e1, h1, k1) = bind-eq-ok _ _ e h in
      let (id, e2, h2, k2) = bind-eq-ok _ _ e1 k1 in
      let (tunnel, e3, h3, k3) = bind-eq-ok _ _ e2 k2 in
      let (free, e4, h4, k4) = bind-eq-ok _ _ e3 k3 in
      let (f, same_profile, same_tunnel, target, parameters, online) =
        prepare_free-Online request profile id tunnel free e4 e' prepared k4 in
      let (resolved, same1) = queried (resolve p.runtime request.profile) profile e e1 h1 in
      let same2 : e2 ≡ e1 = sym (ap (λ x. x.1) h2) in
      let (found, same3) =
        queried (show p.runtime request.tunnel (Selector.by_id id)) tunnel e2 e3 h3 in
      let (w, available) = probed tunnel.local_port free e3 e4 h4 in
      rw (same_profile, same_tunnel)
        (
          resolved,
          (
            id,
            lifted_value (require_id profile) id e1 e2 h2,
            ap (λ x. show p.runtime request.tunnel (Selector.by_id id) x.db) (sym (same2 ∙ same1))
                ∙ found,
          ),
          (w, available ∙ ap (λ b. ok b) f),
          target,
          parameters,
          online,
        )
