-- ===== src/Application/Ssm/Managed/Reach.antt =====
-- Calls of the managed runner, one after another, and its balance.
use aws_ssm_kit.Base.{ℕ, ◌+◌, ◌≡◌, refl, Bool, Option, none, some, arith}
use aws_ssm_kit.Base.Dict.{Dict, lookup, insert-NodupKeys, total-insert_new}
use aws_ssm_kit.Errors.{
  Result, ok, err, Attempt, attempt_all, returned, failed, fail, Exec, pure, raise, ◌>>=◌, ◌>>◌,
}
use aws_ssm_kit.Errors.Keeps.{Keeps, Keeps-bind, Keeps-pure}
use aws_ssm_kit.Errors.Runs.{
  Runs, Returns, Ending, Runs-bind, Runs-then, Runs-attempt_all, Keeps-attempt_all, Keeps-fail,
  Runs-Keeps, Runs-before,
}
use aws_ssm_kit.Text.{Text}
use aws_ssm_kit.Domain.Profile.{PlainCredentials}
use aws_ssm_kit.Application.Operations.{OperationContext, OperationState}
use aws_ssm_kit.Application.Ssm.{
  ManagedSsmSession, StartedSsmSession, Parameters, PluginInvocation, SsmPorts, check_cancelled,
  ensure_plugin_ready, stop_process,
}
use aws_ssm_kit.Application.Ssm.Counted.{
  Counters, Count, Counted, count_rules, ensure_plugin_ready-Keeps, count_ok, report-Keeps,
  check_cancelled-Keeps,
}
use aws_ssm_kit.Application.Ssm.Managed.{
  OwnedSession, Runner, outside, own, stop, snapshot, status_polled, status_found, status,
  launch_session, raise_start_failure, announce, start_launched, start,
}
use aws_ssm_kit.Application.Ssm.Managed.Balance.{
  Over, IsBalanced, Balance, Closing, returned_Balance, end_rest-Runs, stopped_outside-Runs,
  stop-Keeps, poll_outside-Runs, Balance-Closing, outside-Keeps, outside-Runs,
}

module _ {W : Type 0} (p : SsmPorts W) (c : Counters W) (counted : Counted p c) where
  -- the session of a key is in the table
  abbrev Present : ℕ → OwnedSession → ℕ → ℕ → Dict OwnedSession → Type 0
  Present id session a b d = Balance c a b d × (lookup id d ≡ some session)

  Present-Closing :
      (id : ℕ) (session : OwnedSession) (s : Runner W)
      → Over c (Present id session) s
      → Over c (Closing c id session) s
  Present-Closing id session s (h, found) =
      Balance-Closing c id session (c.started s.world) (c.ended s.world) s.owned found h

  status_polled-Runs :
      (id : ℕ) (session : OwnedSession) (polled : Attempt (Option ℕ))
      → Runs
          (Over c (Present id session))
          (status_polled p id session polled)
          (Returns (Over c (Balance c)))
  unfolding status_polled pure
  status_polled-Runs id session (returned none) = record { from = λ s h. h.0 }
  status_polled-Runs id session (returned (some code)) =
      Runs-before (Over c (Present id session)) _ (Present-Closing id session)
        (end_rest-Runs p c counted id session _)
  status_polled-Runs id session (failed x) =
      Runs-before (Over c (Present id session)) _ (Present-Closing id session) (
        Runs-then (outside (stop_process p session.process)) _
          (stopped_outside-Runs p c counted (Closing c id session) session.process)
          (λ a. end_rest-Runs p c counted id session _))

  status_found-Balance :
      (id : ℕ) (o : Option OwnedSession) (s : Runner W)
      → lookup id s.owned ≡ o
      → Over c (Balance c) s
      → Over c (Balance c) (status_found p id o s).1
  unfolding status_found raise
  status_found-Balance id none s e h = h
  status_found-Balance id (some session) s e h = returned_Balance p c counted _ _ (
      (Runs-then (outside (attempt_all (p.poll session.process))) _
          (poll_outside-Runs p c counted (Present id session) session.process)
          (status_polled-Runs id session)).from
        s (h, e))

  status-Keeps : (id : ℕ) → Keeps (Over c (Balance c)) (status p id)
  unfolding status
  status-Keeps id = record { at = λ s h. status_found-Balance id (lookup id s.owned) s refl h }

  announce-Keeps :
      (context : OperationContext) (session : OwnedSession)
      → Keeps (Over c (Balance c)) (announce p context session)
  unfolding announce
  announce-Keeps context session =
      Keeps-bind (outside (attempt_all (p.report context "session.running"))) _
        (outside-Keeps c (Balance c) (attempt_all (p.report context "session.running")) (λ d.
          Keeps-attempt_all _
            (report-Keeps p c counted (λ a b. Balance c a b d) context "session.running")))
        told
    where
      told :
          (a : Attempt (Unit {0}))
          → Keeps (Over c (Balance c)) (elim a as (λ _. Exec (Runner W) ManagedSsmSession) [
            | returned _ ↦
                pure (snapshot p context.operation_id session OperationState.running none none none)
            | failed primary ↦ (do stop p context.operation_id; fail primary)
          ])
      told (returned u) = Keeps-pure _
      told (failed x) =
          Keeps-bind (stop p context.operation_id) _ (stop-Keeps p c counted context.operation_id)
            (λ m. Keeps-fail x)

  -- a session has been started, and is not in the table
  abbrev Loose : ℕ → Text → ℕ → ℕ → Dict OwnedSession → Type 0
  Loose id session_id a b d = Balance c a (b + c.weight session_id) d × (lookup id d ≡ none)

  abbrev Absent : ℕ → ℕ → ℕ → Dict OwnedSession → Type 0
  Absent id a b d = Balance c a b d × (lookup id d ≡ none)

  start_launched-Balance :
      (credentials : PlainCredentials) (region session_id : Text) (external : Bool)
      (context : OperationContext) (launched : Attempt ℕ)
      → Runs
          (Over c (Loose context.operation_id session_id))
          (start_launched p credentials region session_id external context launched)
          (Ending (Over c (Balance c)))
  unfolding start_launched raise_start_failure own outside fail ◌>>=◌ attempt_all
  start_launched-Balance credentials region session_id external context (failed x) = record {
    from = λ s h.
        let (same, more) = counted.ends credentials region session_id s.world in
        rw (same, more) h.0;
  }
  start_launched-Balance credentials region session_id external context (returned process) =
      record {
        from = λ s h.
            let session : OwnedSession = record {
              credentials = credentials;
              region = region;
              session_id = session_id;
              process = process;
              external_terminal = external;
            } in
            (announce-Keeps context session).at _ (
              insert-NodupKeys context.operation_id session s.owned h.0.0,
              omega (
                arith,
                total-insert_new (λ o. c.weight o.session_id) context.operation_id session s.owned
                    h.1,
                h.0.1,
              ),
            );
      }

  -- a step of `start` before the session is opened
  before-Runs :
      {A B : Type 0} (id : ℕ) (m : Exec W A) (f : A → Exec (Runner W) B)
      → ((P : ℕ → ℕ → Type 0) → Keeps (Count c P) m)
      → ((a : A) → Runs (Over c (Absent id)) (f a) (Ending (Over c (Balance c))))
      → Runs (Over c (Absent id)) (outside m >>= f) (Ending (Over c (Balance c)))
  before-Runs id m f quiet later =
      Runs-bind {Q = Ending (Over c (Absent id))} (outside m) f
        (Runs-Keeps _ (outside-Keeps c (Absent id) m (λ d. quiet (λ a b. Absent id a b d)))) later
        (λ x s h. h.0)

  abbrev Opened : ℕ → Result StartedSsmSession → Runner W → Type 0
  Opened id (ok o) s = Over c (Loose id o.session_id) s
  Opened id (err x) s = Over c (Absent id) s

  count_opened :
      (id : ℕ) (r : Result StartedSsmSession) (a b n : ℕ) (s : Runner W)
      → c.started s.world ≡ count_ok (λ o. c.weight o.session_id) r n
      → c.ended s.world ≡ b
      → Absent id n b s.owned
      → Opened id r s
  count_opened id (ok x) a b n s e e' ((once, balance), none_found) =
      ((once, omega (arith, e, e', balance)), none_found)
  count_opened id (err x) a b n s e e' h = rw (e, e') h

  start_session-Runs :
      (id : ℕ) (credentials : PlainCredentials) (region target : Text)
      (parameters : Option Parameters)
      → Runs
          (Over c (Absent id))
          (outside (p.start_session credentials region target parameters))
          (Opened id)
  unfolding outside
  start_session-Runs id credentials region target parameters = record {
    from = λ s h.
        let (more, same) = counted.starts credentials region target parameters s.world in
        count_opened id _ (c.started s.world) (c.ended s.world) (c.started s.world) _ more same h;
  }

  launch_outside-Runs :
      (id : ℕ) (session_id : Text) (context : OperationContext) (invocation : PluginInvocation)
      (external : Bool)
      → Runs
          (Over c (Loose id session_id))
          (outside (attempt_all (launch_session p context invocation external)))
          (Returns (Over c (Loose id session_id)))
  unfolding launch_session
  launch_outside-Runs id session_id context invocation external =
      outside-Runs c (Loose id session_id) (Loose id session_id)
        (attempt_all (launch_session p context invocation external))
        (λ d.
          Runs-attempt_all (launch_session p context invocation external)
            (Count c (λ a b. Loose id session_id a b d))
            (Runs-Keeps _ (search count_rules depth 10)))

  start-Runs :
      (credentials : PlainCredentials) (region target : Text) (parameters : Option Parameters)
      (external : Bool) (context : OperationContext)
      → Runs
          (Over c (Absent context.operation_id))
          (start p credentials region target parameters external context)
          (Ending (Over c (Balance c)))
  unfolding start
  start-Runs credentials region target parameters external context =
      let id = context.operation_id in
      before-Runs id (check_cancelled p context) _
        (λ P. check_cancelled-Keeps p c counted P context)
        (λ _.
          before-Runs id (p.report context "session.plugin.check") _
            (λ P. report-Keeps p c counted P context "session.plugin.check")
            (λ _.
              before-Runs id (ensure_plugin_ready p) _ (ensure_plugin_ready-Keeps p c counted) (λ _.
                before-Runs id (check_cancelled p context) _
                  (λ P. check_cancelled-Keeps p c counted P context)
                  (λ _.
                    before-Runs id (p.report context "session.aws.start") _
                      (λ P. report-Keeps p c counted P context "session.aws.start")
                      (λ _.
                        Runs-bind (outside (p.start_session credentials region target parameters)) _
                          (start_session-Runs id credentials region target parameters)
                          (λ started.
                            Runs-then (outside (attempt_all (launch_session p context _ external)))
                              _ (launch_outside-Runs id started.session_id context _ external)
                              (start_launched-Balance credentials region started.session_id external
                                context))
                          (λ x s h. h.0))))))

-- The calls that a runner serves one after another. A start has an operation id that is not owned.
pub data Reaches {W : Type 0} (p : SsmPorts W) : Runner W → Runner W → Type 0 where
  here : {s : Runner W} → Reaches p s s
  starting :
      {s t : Runner W} (credentials : PlainCredentials) (region target : Text)
      (parameters : Option Parameters) (external : Bool) (context : OperationContext)
      → lookup context.operation_id s.owned ≡ none
      → Reaches p (start p credentials region target parameters external context s).1 t
      → Reaches p s t
  polling : {s t : Runner W} (id : ℕ) → Reaches p (status p id s).1 t → Reaches p s t
  stopping : {s t : Runner W} (id : ℕ) → Reaches p (stop p id s).1 t → Reaches p s t

module _ {W : Type 0} (p : SsmPorts W) (c : Counters W) (counted : Counted p c) where
  kept_counts : (s t : Runner W) → Reaches p s t → Over c (Balance c) s → Over c (Balance c) t
  kept_counts s t here h = h
  kept_counts s t (starting credentials region target parameters external context new rest) h =
      kept_counts _ t rest (
        (start-Runs p c counted credentials region target parameters external context).from s
          (h, new))
  kept_counts s t (polling id rest) h = kept_counts _ t rest ((status-Keeps p c counted id).at s h)
  kept_counts s t (stopping id rest) h = kept_counts _ t rest ((stop-Keeps p c counted id).at s h)

  -- After any sequence of starts under new operation ids, polls and stops, whatever fails in between,
  -- the AWS sessions that were started weigh as much as the requests to end one and the sessions that
  -- the runner owns together, under any weight of the session ids, where they did so before. So for
  -- each id the sessions started with it are as many as the requests to end it and the sessions with
  -- it that are owned.
  pub Reaches-IsBalanced : (s t : Runner W) → Reaches p s t → IsBalanced c s → IsBalanced c t
  Reaches-IsBalanced s t steps h =
      let (once, balance) = kept_counts s t steps (h.once, h.balance) in
      record { once = once; balance = balance }
