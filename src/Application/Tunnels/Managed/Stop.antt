-- ===== src/Application/Tunnels/Managed/Stop.antt =====
-- application/rds_tunnel_service.py: how managed tunnels are polled and stopped.
use aws_ssm_kit.Base.{
  ℕ, Bool, true, false, Option, none, some, List, [], ◌∷◌, ◌++◌, leb, ◌==◌, if◌then◌else◌,
}
use aws_ssm_kit.Base.Dict.{Dict, lookup, erase}
use aws_ssm_kit.Errors.{ApplicationError, configuration_error, Exec, pure, raise, ◌>>=◌, ◌>>◌}
use aws_ssm_kit.Application.Env.{Ports, call, ask, record_event}
use aws_ssm_kit.Application.Logging.{success}
use aws_ssm_kit.Application.Operations.{OperationContext, OperationState}
use aws_ssm_kit.Application.Tunnels.Managed.{
  TunnelOwner, SessionEndReason, max_duration, TunnelHandle, TunnelConnectionResult, ManagedTunnel,
  ManagedSsmSession, TunnelPorts, Tunnels, handle, is_running, Attempt, returned, refused, attempt,
  within, pop_managed, logged_rds, raise_if_cancelled,
}

-- what a poll of one tunnel found
pub data Poll : Type 0 where
  stopped : TunnelHandle → Poll
  polled : ManagedSsmSession → Poll

-- `profile_id is None or entry.tunnel.profile_id == profile_id`
abbrev pub is_owned : Option ℕ → ManagedTunnel → Bool
is_owned none entry = true
is_owned (some profile_id) entry = entry.tunnel.profile_id == profile_id

unfoldable pub owned : Option ℕ → Dict ManagedTunnel → Dict ManagedTunnel
owned profile_id [] = []
owned profile_id ((id, entry) ∷ rest) =
    let others = owned profile_id rest in
    if is_owned profile_id entry then (id, entry) ∷ others else others

-- the session of a poll that raised
abbrev pub failed_session : ℕ → ManagedTunnel → ApplicationError → ManagedSsmSession
failed_session id entry error = record {
  operation_id = id;
  process_id = entry.process_id;
  session_id = entry.session_id;
  state = OperationState.failed;
  exit_code = none;
  error = some error;
  warning = none;
}

abbrev pub polled_result : ManagedTunnel → ManagedSsmSession → TunnelConnectionResult
polled_result entry managed = record {
  tunnel = entry.tunnel;
  target_instance_id = entry.target_instance_id;
  handle = handle entry.tunnel managed TunnelOwner.gui none;
  plugin_exit_code = managed.exit_code;
  error = managed.error;
}

abbrev pub stopped_result : ManagedTunnel → TunnelHandle → TunnelConnectionResult
stopped_result entry h = record {
  tunnel = entry.tunnel;
  target_instance_id = entry.target_instance_id;
  handle = h;
  plugin_exit_code = h.exit_code;
  error = none;
}

abbrev pub keep_first : Option ApplicationError → ApplicationError → Option ApplicationError
keep_first none e = some e
keep_first (some first) e = some first

module _ {W : Type 0} (p : Ports W) (t : TunnelPorts W) where
  -- a fresh context is never cancelled
  unfoldable pub check_context : Option OperationContext → Exec (Tunnels W) (Unit {0})
  unfolding within raise_if_cancelled
  check_context none = pure tt
  check_context (some context) = within (raise_if_cancelled t context)

  -- `try: managed = self._managed_runner.stop(…) finally: self._managed.pop(…)`
  unfoldable pub stop_and_pop : ℕ → Exec (Tunnels W) ManagedSsmSession
  unfolding within call
  stop_and_pop id s =
      let (r, s') = within (call (t.stop id)) s in (r, record s' { managed = erase id s'.managed })

  unfoldable pub stop_entry :
      ℕ
      → ManagedTunnel
      → Option OperationContext
      → Option SessionEndReason
      → Exec (Tunnels W) TunnelHandle
  unfolding check_context stop_and_pop within record_event
  stop_entry id entry context reason = do
    check_context context
    managed ← stop_and_pop id
    elim managed.error [ none ↦ pure tt | some e ↦ raise e ]
    within
        (record_event (success "rds" "stop" entry.tunnel.name (some entry.tunnel.profile_id) false))
    pure (handle entry.tunnel managed TunnelOwner.gui reason)

  unfoldable pub stop_found :
      ℕ
      → Option ManagedTunnel
      → Option OperationContext
      → Option SessionEndReason
      → Exec (Tunnels W) TunnelHandle
  unfolding stop_entry
  stop_found id none context reason = raise (configuration_error "rds.tunnel.operation.not_found")
  stop_found id (some entry) context reason = stop_entry id entry context reason

  -- `stop`
  unfoldable pub stop :
      ℕ → Option OperationContext → Option SessionEndReason → Exec (Tunnels W) TunnelHandle
  unfolding logged_rds stop_found
  stop id context reason =
      logged_rds "stop" (λ s. stop_found id (lookup id s.managed) context reason s)

  -- the `try` block of `active_tunnels`
  unfoldable pub poll : ℕ → ManagedTunnel → Exec (Tunnels W) Poll
  unfolding within call ask stop
  poll id entry = do
    now ← within (ask p.now)
    if leb entry.expires_at now
        then (do h ← stop id none (some max_duration); pure (stopped h))
        else (do managed ← within (call (t.status id)); pure (polled managed))

  unfoldable pub settle_polled :
      ℕ → ManagedTunnel → ManagedSsmSession → Exec (Tunnels W) TunnelConnectionResult
  unfolding pop_managed
  settle_polled id entry managed = do
    if is_running managed.state then pure tt else pop_managed id
    pure (polled_result entry managed)

  unfoldable pub settle : ℕ → ManagedTunnel → Attempt Poll → Exec (Tunnels W) TunnelConnectionResult
  unfolding settle_polled
  settle id entry (returned (stopped h)) = pure (stopped_result entry h)
  settle id entry (returned (polled managed)) = settle_polled id entry managed
  settle id entry (refused error) = settle_polled id entry (failed_session id entry error)

  unfoldable pub report : ℕ → ManagedTunnel → Exec (Tunnels W) TunnelConnectionResult
  unfolding attempt poll settle
  report id entry = do found ← attempt (poll id entry); settle id entry found

  unfoldable pub report_all : Dict ManagedTunnel → Exec (Tunnels W) (List TunnelConnectionResult)
  unfolding report
  report_all [] = pure []
  report_all ((id, entry) ∷ rest) = do
    result ← report id entry
    results ← report_all rest
    pure (result ∷ results)

  -- `active_tunnels`
  unfoldable pub active_tunnels : Option ℕ → Exec (Tunnels W) (List TunnelConnectionResult)
  unfolding report_all owned
  active_tunnels profile_id s = report_all (owned profile_id s.managed) s

  abbrev pub ending :
      List TunnelHandle → Option ApplicationError → Exec (Tunnels W) (List TunnelHandle)
  ending handles none = pure handles
  ending handles (some e) = raise e

  -- the loop of `stop_all`, with the handles and the first error so far
  unfoldable pub stop_each :
      Dict ManagedTunnel
      → List TunnelHandle
      → Option ApplicationError
      → Exec (Tunnels W) (List TunnelHandle)
  unfolding attempt stop
  stop_each [] handles first = ending handles first
  stop_each ((id, _) ∷ rest) handles first = do
    outcome ← attempt (stop id none none)
    elim outcome [
      | returned h ↦ stop_each rest (handles ++ h ∷ []) first
      | refused e ↦ stop_each rest handles (keep_first first e)
    ]

  -- `stop_all`
  unfoldable pub stop_all : Option ℕ → Exec (Tunnels W) (List TunnelHandle)
  unfolding stop_each owned
  stop_all profile_id s = stop_each (owned profile_id s.managed) [] none s
