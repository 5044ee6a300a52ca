-- ===== src/Application/Ssm/Foreground/Balance.antt =====
-- How many sessions a foreground run starts, and how many requests to end one it makes.
use aws_ssm_kit.Base.{ℕ, ◌+◌, ◌≡◌, refl, Option, none, some, arith}
use aws_ssm_kit.Errors.{
  ApplicationError, Result, ok, err, Failure, Attempt, attempt_all, returned, failed, fail, Exec,
  pure, raise, ◌>>=◌,
}
use aws_ssm_kit.Errors.Keeps.{Keeps, Keeps-pure, Keeps-raise}
use aws_ssm_kit.Errors.Runs.{
  Runs, Returns, Ending, Runs-bind, Runs-then, Runs-attempt_all, Keeps-fail, Runs-Keeps, Keeps-Runs,
}
use aws_ssm_kit.Text.{Text}
use aws_ssm_kit.Domain.Profile.{PlainCredentials}
use aws_ssm_kit.Application.Operations.{OperationContext}
use aws_ssm_kit.Application.Ssm.{
  SessionEndReason, StartedSsmSession, max_duration, Parameters, PluginInvocation, Waited, exited,
  timed_out, SsmPorts, stop_process,
}
use aws_ssm_kit.Application.Ssm.Counted.{
  Counters, Count, Counted, count_ok, count_rules, ensure_plugin_ready-Keeps, stop_process-Runs,
}
use aws_ssm_kit.Application.Ssm.Foreground.{
  bounded_failure, after_wait, run_bounded, run_plugin, run_session, raise_after_end, finish_run,
  run,
}

module _ {W : Type 0} (p : SsmPorts W) (c : Counters W) (counted : Counted p c)
    (P : ℕ → ℕ → Type 0) where
  time_limit-Keeps :
      (error : Option ApplicationError)
      → Keeps (Count c P) (elim error as (λ _. Exec W (ℕ × Option SessionEndReason)) [
        | none ↦ pure (0, some max_duration)
        | some e ↦ raise e
      ])
  time_limit-Keeps none = Keeps-pure _
  time_limit-Keeps (some e) = Keeps-raise e

  cleanup-Keeps :
      (primary : Failure) (error : Option ApplicationError)
      → Keeps (Count c P) (elim error as (λ _. Exec W (ℕ × Option SessionEndReason)) [
        | none ↦ fail primary
        | some e ↦ raise (bounded_failure primary e)
      ])
  cleanup-Keeps primary none = Keeps-fail primary
  cleanup-Keeps primary (some e) = Keeps-raise _

  after_wait-Keeps :
      (process : ℕ) (waited : Attempt Waited) → Keeps (Count c P) (after_wait p process waited)
  unfolding after_wait
  after_wait-Keeps process (returned (exited code)) = Keeps-pure _
  after_wait-Keeps process (returned timed_out) = Keeps-Runs _ (
      Runs-then (stop_process p process) _ (stop_process-Runs p c counted P process)
        (λ a. Runs-Keeps _ (time_limit-Keeps a.1)))
  after_wait-Keeps process (failed primary) = Keeps-Runs _ (
      Runs-then (stop_process p process) _ (stop_process-Runs p c counted P process)
        (λ a. Runs-Keeps _ (cleanup-Keeps primary a.1)))

  run_plugin-Keeps :
      (invocation : PluginInvocation) (seconds : Option ℕ)
      → Keeps (Count c P) (run_plugin p invocation seconds)
  unfolding run_plugin run_bounded
  run_plugin-Keeps invocation none = search count_rules depth 6
  run_plugin-Keeps invocation (some seconds) = search (count_rules, after_wait-Keeps) depth 8

  run_session-Keeps :
      (context : OperationContext) (invocation : PluginInvocation) (seconds : Option ℕ)
      → Keeps (Count c P) (run_session p context invocation seconds)
  unfolding run_session
  run_session-Keeps context invocation seconds = search (count_rules, run_plugin-Keeps) depth 10

  -- The end of the session counts once, also where the request fails.
  end_session-Runs :
      (credentials : PlainCredentials) (region id : Text)
      → Runs
          (Count c (λ a b. P a (b + c.weight id)))
          (attempt_all (p.end_session credentials region id))
          (Returns (Count c P))
  end_session-Runs credentials region id =
      Runs-attempt_all (p.end_session credentials region id) (Count c P) (record {
        from = λ w h. let (same, more) = counted.ends credentials region id w in rw (same, more) h;
      })

  finish_run-Runs :
      (credentials : PlainCredentials) (region id : Text) (context : OperationContext)
      (outcome : Attempt (ℕ × Option SessionEndReason))
      → Runs
          (Count c (λ a b. P a (b + c.weight id)))
          (finish_run p credentials region id context outcome)
          (Ending (Count c P))
  unfolding finish_run raise_after_end
  finish_run-Runs credentials region id context (failed primary) =
      Runs-then (attempt_all (p.end_session credentials region id)) _
        (end_session-Runs credentials region id) (λ a. Runs-Keeps _ (Keeps-fail _))
  finish_run-Runs credentials region id context (returned (code, reason)) =
      Runs-then (attempt_all (p.end_session credentials region id)) _
        (end_session-Runs credentials region id) (λ a. Runs-Keeps _ (search count_rules depth 8))

module _ {W : Type 0} (p : SsmPorts W) (c : Counters W) (counted : Counted p c) (m n : ℕ) where
  -- as many sessions as requests to end one, counted from `m` and `n`
  abbrev Even : ℕ → ℕ → Type 0
  Even a b = a + n ≡ m + b

  abbrev Opened : Result StartedSsmSession → W → Type 0
  Opened (ok o) w = Count c (λ a b. Even a (b + c.weight o.session_id)) w
  Opened (err x) w = Count c Even w

  opened :
      (r : Result StartedSsmSession) (w w' : W)
      → c.started w' ≡ count_ok (λ o. c.weight o.session_id) r (c.started w)
      → c.ended w' ≡ c.ended w
      → Count c Even w
      → Opened r w'
  opened (ok a) w w' e e' h = omega (arith, e, e', h)
  opened (err x) w w' e e' h = omega (arith, e, e', h)

  start_session-Runs :
      (credentials : PlainCredentials) (region target : Text) (parameters : Option Parameters)
      → Runs (Count c Even) (p.start_session credentials region target parameters) Opened
  start_session-Runs credentials region target parameters = record {
    from = λ w h.
        let (more, same) = counted.starts credentials region target parameters w in
        opened _ w _ more same h;
  }

  session-Keeps :
      (credentials : PlainCredentials) (region target : Text) (parameters : Option Parameters)
      (context : OperationContext) (seconds : Option ℕ)
      → Keeps (Count c Even) (
          p.start_session credentials region target parameters >>= λ started.
          attempt_all (
            run_session p context
              (record {
                session = started;
                region = region;
                target = target;
                parameters = parameters;
              })
              seconds)
          >>= λ outcome. finish_run p credentials region started.session_id context outcome)
  session-Keeps credentials region target parameters context seconds =
      let Loose : StartedSsmSession → ℕ → ℕ → Type 0 =
        λ o a b. Even a (b + c.weight o.session_id) in
      Keeps-Runs _ (
        Runs-bind (p.start_session credentials region target parameters) _
          (start_session-Runs credentials region target parameters)
          (λ started.
            Runs-then (attempt_all (run_session p context _ seconds)) _
              (Runs-attempt_all (run_session p context _ seconds) (Count c (Loose started))
                (Runs-Keeps _ (run_session-Keeps p c counted (Loose started) context _ seconds)))
              (finish_run-Runs p c counted Even credentials region started.session_id context))
          (λ x s h. h))

  run-Even :
      (credentials : PlainCredentials) (region target : Text) (parameters : Option Parameters)
      (context : OperationContext) (seconds : Option ℕ)
      → Keeps (Count c Even) (run p credentials region target parameters context seconds)
  unfolding run
  run-Even credentials region target parameters context seconds =
      search (count_rules, ensure_plugin_ready-Keeps, session-Keeps) depth 12

module _ {W : Type 0} (p : SsmPorts W) (c : Counters W) (counted : Counted p c) where
  -- A foreground run requests the end of as many AWS sessions as it starts, whether it returns, is
  -- cancelled or raises, and also where the plugin, the observer or the request itself fails; and so
  -- under any weight of the session ids, for each id as many sessions as requests to end it.
  pub run_balance :
      (credentials : PlainCredentials) (region target : Text) (parameters : Option Parameters)
      (context : OperationContext) (seconds : Option ℕ) (w : W)
      → let after = (run p credentials region target parameters context seconds w).1 in
        c.started after + c.ended w ≡ c.started w + c.ended after
  run_balance credentials region target parameters context seconds w =
      (run-Even p c counted (c.started w) (c.ended w) credentials region target parameters context
          seconds).at
        w refl
