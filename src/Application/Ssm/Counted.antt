-- ===== src/Application/Ssm/Counted.antt =====
-- Counting the sessions that a gateway starts and ends.
use aws_ssm_kit.Base.{ℕ, String, ◌+◌, ◌≡◌, Bool, Option, none, some}
use aws_ssm_kit.Errors.{
  ApplicationError, Result, ok, err, Failure, fail, Exec, pure, Attempt, attempt_all, returned,
  failed, ◌>>◌,
}
use aws_ssm_kit.Errors.Keeps.{Keeps, keeps_rules, Keeps-bind, Keeps-pure}
use aws_ssm_kit.Errors.Runs.{
  Runs, Returns, Ending, Runs-then, Runs-attempt_all, Runs-Keeps, Runs-pure, Keeps-attempt_all,
  Keeps-fail,
}
use aws_ssm_kit.Text.{Text}
use aws_ssm_kit.Domain.Profile.{PlainCredentials}
use aws_ssm_kit.Application.Operations.{OperationContext}
use aws_ssm_kit.Application.Ssm.{
  Parameters, PluginInvocation, Waited, exited, timed_out, SsmPorts, check_cancelled,
  ensure_plugin_ready, stop_process, terminate_or_kill, recover_process, wait_or_fail,
}

abbrev pub count_ok : {A : Type 0} → (A → ℕ) → Result A → ℕ → ℕ
count_ok f (ok a) n = n + f a
count_ok f (err x) n = n

-- The counters of a world, for a weight of each session id: `started` adds up the weights of the
-- sessions that AWS has opened, `ended` those of the ids of the requests to end one, also where they
-- failed. With the weight 1 they count all sessions, with the weight 1 for one id and 0 for the others
-- the sessions with that id. Only these two calls of the ports change them.
pub record Counters (W : Type 0) : Type 0 where
  pub weight : Text → ℕ
  pub started : W → ℕ
  pub ended : W → ℕ

module _ {W A : Type 0} where
  abbrev pub Quiet : Counters W → Exec W A → Type 0
  Quiet c m = (w : W) → (c.started (m w).1 ≡ c.started w) × (c.ended (m w).1 ≡ c.ended w)

pub record Counted {W : Type 0} (p : SsmPorts W) (c : Counters W) : Type 0 where
  pub starts :
      (k : PlainCredentials) (region target : Text) (d : Option Parameters) (w : W)
      → (c.started (p.start_session k region target d w).1
          ≡ count_ok
              (λ o. c.weight o.session_id)
              (p.start_session k region target d w).0
              (c.started w))
        × (c.ended (p.start_session k region target d w).1 ≡ c.ended w)
  pub ends :
      (k : PlainCredentials) (region id : Text) (w : W)
      → (c.started (p.end_session k region id w).1 ≡ c.started w)
        × (c.ended (p.end_session k region id w).1 ≡ c.ended w + c.weight id)
  pub report_quiet : (o : OperationContext) (code : String) → Quiet c (p.report o code)
  pub diagnose_quiet : Quiet c p.diagnose
  pub run_quiet : (i : PluginInvocation) → Quiet c (p.run i)
  pub launch_quiet : (i : PluginInvocation) (b : Bool) → Quiet c (p.launch i b)
  pub poll_quiet : (process : ℕ) → Quiet c (p.poll process)
  pub wait_quiet : (process seconds : ℕ) → Quiet c (p.wait process seconds)
  pub terminate_quiet : (process : ℕ) → Quiet c (p.terminate process)
  pub kill_quiet : (process : ℕ) → Quiet c (p.kill process)

module _ {W : Type 0} (c : Counters W) (P : ℕ → ℕ → Type 0) where
  -- a property of the two counters
  abbrev pub Count : W → Type 0
  Count w = P (c.started w) (c.ended w)

  pub Quiet-Keeps : {A : Type 0} (m : Exec W A) → Quiet c m → Keeps Count m
  Quiet-Keeps m q = record { at = λ w h. rw ((q w).0, (q w).1) h }

module _ {W : Type 0} (p : SsmPorts W) (c : Counters W) (counted : Counted p c)
    (P : ℕ → ℕ → Type 0) where
  pub report-Keeps : (o : OperationContext) (code : String) → Keeps (Count c P) (p.report o code)
  report-Keeps o code = Quiet-Keeps c P (p.report o code) (counted.report_quiet o code)

  pub diagnose-Keeps : Keeps (Count c P) p.diagnose
  diagnose-Keeps = Quiet-Keeps c P p.diagnose counted.diagnose_quiet

  pub run-Keeps : (i : PluginInvocation) → Keeps (Count c P) (p.run i)
  run-Keeps i = Quiet-Keeps c P (p.run i) (counted.run_quiet i)

  pub launch-Keeps : (i : PluginInvocation) (b : Bool) → Keeps (Count c P) (p.launch i b)
  launch-Keeps i b = Quiet-Keeps c P (p.launch i b) (counted.launch_quiet i b)

  pub poll-Keeps : (process : ℕ) → Keeps (Count c P) (p.poll process)
  poll-Keeps process = Quiet-Keeps c P (p.poll process) (counted.poll_quiet process)

  pub wait-Keeps : (process seconds : ℕ) → Keeps (Count c P) (p.wait process seconds)
  wait-Keeps process seconds =
      Quiet-Keeps c P (p.wait process seconds) (counted.wait_quiet process seconds)

  pub terminate-Keeps : (process : ℕ) → Keeps (Count c P) (p.terminate process)
  terminate-Keeps process = Quiet-Keeps c P (p.terminate process) (counted.terminate_quiet process)

  pub kill-Keeps : (process : ℕ) → Keeps (Count c P) (p.kill process)
  kill-Keeps process = Quiet-Keeps c P (p.kill process) (counted.kill_quiet process)

  pub check_cancelled-Keeps : (o : OperationContext) → Keeps (Count c P) (check_cancelled p o)
  unfolding check_cancelled
  check_cancelled-Keeps o = record { at = λ w h. h }

pub ruleset count_rules = (
  keeps_rules, Keeps-attempt_all, Keeps-fail, report-Keeps, diagnose-Keeps, run-Keeps, launch-Keeps,
  poll-Keeps, wait-Keeps, terminate-Keeps, kill-Keeps, check_cancelled-Keeps,
)

module _ {W : Type 0} (p : SsmPorts W) (c : Counters W) (counted : Counted p c)
    (P : ℕ → ℕ → Type 0) where
  pub ensure_plugin_ready-Keeps : Keeps (Count c P) (ensure_plugin_ready p)
  unfolding ensure_plugin_ready
  ensure_plugin_ready-Keeps = search count_rules depth 10

  after_wait_or_fail-Keeps :
      (w : Waited)
      → Keeps
          (Count c P)
          (elim w as (λ _. Exec W ℕ) [ exited code ↦ pure code | timed_out ↦ fail Failure.untyped ])
  after_wait_or_fail-Keeps (exited code) = search count_rules
  after_wait_or_fail-Keeps timed_out = search count_rules

  wait_or_fail-Keeps : (process : ℕ) → Keeps (Count c P) (wait_or_fail p process)
  unfolding wait_or_fail
  wait_or_fail-Keeps process = search (count_rules, after_wait_or_fail-Keeps) depth 6

  after_terminate-Keeps :
      (process : ℕ) (w : Waited)
      → Keeps (Count c P) (elim w as (λ _. Exec W ℕ) [
        | exited code ↦ pure code
        | timed_out ↦ (do p.kill process; wait_or_fail p process)
      ])
  after_terminate-Keeps process (exited code) = search count_rules
  after_terminate-Keeps process timed_out = search (count_rules, wait_or_fail-Keeps) depth 6

  terminate_or_kill-Keeps : (process : ℕ) → Keeps (Count c P) (terminate_or_kill p process)
  unfolding terminate_or_kill
  terminate_or_kill-Keeps process = search (count_rules, after_terminate-Keeps) depth 8

  -- Stopping a process returns, and neither starts nor ends a session.
  pub stop_process-Runs :
      (process : ℕ) → Runs (Count c P) (stop_process p process) (Returns (Count c P))
  unfolding stop_process recover_process
  stop_process-Runs process =
      Runs-then (attempt_all (terminate_or_kill p process)) _
        (Runs-attempt_all (terminate_or_kill p process) (Count c P)
          (Runs-Keeps _ (terminate_or_kill-Keeps process)))
        stopped
    where
      stopped :
          (a : Attempt ℕ)
          → Runs
              (Count c P)
              (elim a as (λ _. Exec W (Option ℕ × Option ApplicationError)) [
                | returned code ↦ pure (some code, none)
                | failed _ ↦ recover_process p process
              ])
              (Returns (Count c P))
      stopped (returned code) = Runs-pure _
      stopped (failed x) =
          Runs-then (attempt_all (p.kill process)) _
            (Runs-attempt_all (p.kill process) (Count c P)
              (Runs-Keeps _ (kill-Keeps p c counted P process)))
            (λ _.
              Runs-then (attempt_all (wait_or_fail p process)) _
                (Runs-attempt_all (wait_or_fail p process) (Count c P)
                  (Runs-Keeps _ (wait_or_fail-Keeps process)))
                (λ code. Runs-pure _))
