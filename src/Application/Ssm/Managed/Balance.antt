-- ===== src/Application/Ssm/Managed/Balance.antt =====
-- The sessions that a runner owns beside the counts of the sessions it has started and ended.
use aws_ssm_kit.Base.{ℕ, ◌+◌, ◌≡◌, refl, Option, none, some, arith}
use aws_ssm_kit.Base.Dict.{
  Dict, NodupKeys, lookup, erase, erase-NodupKeys, total, total-erase_found,
}
use aws_ssm_kit.Errors.{
  ApplicationError, Result, ok, err, Attempt, attempt_all, returned, failed, Exec, pure, raise,
  ◌>>=◌,
}
use aws_ssm_kit.Errors.Keeps.{Keeps}
use aws_ssm_kit.Errors.Runs.{Runs, Returns, Runs-then, Runs-attempt_all, Runs-pure, Runs-Keeps}
use aws_ssm_kit.Application.Ssm.{SsmPorts, stop_process}
use aws_ssm_kit.Application.Ssm.Counted.{Counters, Count, Counted, stop_process-Runs, poll-Keeps}
use aws_ssm_kit.Application.Ssm.Managed.{
  OwnedSession, Runner, outside, disown, capture_end_error, stop_polled, stop_owned, stop_found,
  stop,
}

module _ {W : Type 0} (c : Counters W) (P : ℕ → ℕ → Dict OwnedSession → Type 0) where
  -- a property of the counters and of the table
  abbrev pub Over : Runner W → Type 0
  Over s = P (c.started s.world) (c.ended s.world) s.owned

  pub outside-Keeps :
      {A : Type 0} (m : Exec W A)
      → ((d : Dict OwnedSession) → Keeps (Count c (λ a b. P a b d)) m)
      → Keeps Over (outside m)
  unfolding outside
  outside-Keeps m k = record { at = λ s h. (k s.owned).at s.world h }

module _ {W : Type 0} (c : Counters W) (P Q : ℕ → ℕ → Dict OwnedSession → Type 0) where
  outside_returned :
      {A : Type 0} (d : Dict OwnedSession) (r : Result A) (s : Runner W)
      → s.owned ≡ d
      → Returns (Count c (λ a b. Q a b d)) r s.world
      → Returns (Over c Q) r s
  outside_returned d (ok a) s e h = rw e h
  outside_returned d (err x) s e h = h

  pub outside-Runs :
      {A : Type 0} (m : Exec W A)
      → ((d : Dict OwnedSession)
          → Runs (Count c (λ a b. P a b d)) m (Returns (Count c (λ a b. Q a b d))))
      → Runs (Over c P) (outside m) (Returns (Over c Q))
  unfolding outside
  outside-Runs m r = record {
    from = λ s h. outside_returned s.owned _ _ refl ((r s.owned).from s.world h);
  }

module _ {W : Type 0} (p : SsmPorts W) (c : Counters W) (counted : Counted p c)
    (P : ℕ → ℕ → Dict OwnedSession → Type 0) where
  -- the end of a session counts once, also where the request fails
  pub capture_end_error-Runs :
      (session : OwnedSession)
      → Runs
          (Over c (λ a b d. P a (b + c.weight session.session_id) d))
          (outside (capture_end_error p session))
          (Returns (Over c P))
  unfolding capture_end_error
  capture_end_error-Runs session =
      outside-Runs c (λ a b d. P a (b + c.weight session.session_id) d) P
        (capture_end_error p session)
        (λ d.
          Runs-then
            (attempt_all (p.end_session session.credentials session.region session.session_id)) _
            (Runs-attempt_all (p.end_session session.credentials session.region session.session_id)
              (Count c (λ a b. P a b d))
              (record {
                from = λ w h.
                    let (same, more) =
                      counted.ends session.credentials session.region session.session_id w in
                    rw (same, more) h;
              }))
            (λ o. Runs-pure _))

  pub disown-Runs :
      (id : ℕ) → Runs (Over c (λ a b d. P a b (erase id d))) (disown id) (Returns (Over c P))
  unfolding disown
  disown-Runs id = record { from = λ s h. h }

  pub stopped_outside-Runs :
      (process : ℕ) → Runs (Over c P) (outside (stop_process p process)) (Returns (Over c P))
  stopped_outside-Runs process =
      outside-Runs c P P (stop_process p process)
        (λ d. stop_process-Runs p c counted (λ a b. P a b d) process)

-- the weights of the sessions in a table
abbrev pub owned_weight : {W : Type 0} → Counters W → Dict OwnedSession → ℕ
owned_weight c d = total (λ session. c.weight session.session_id) d

-- The table lists no operation twice, and as many sessions as were started and not ended.
pub record IsBalanced {W : Type 0} (c : Counters W) (s : Runner W) : Type 0 where
  pub once : NodupKeys s.owned
  pub balance : c.started s.world ≡ c.ended s.world + owned_weight c s.owned

abbrev pub Balance : {W : Type 0} → Counters W → ℕ → ℕ → Dict OwnedSession → Type 0
Balance c a b d = NodupKeys d × (a ≡ b + owned_weight c d)

-- what is left when the session of a key is closed
abbrev pub Closing :
    {W : Type 0} → Counters W → ℕ → OwnedSession → ℕ → ℕ → Dict OwnedSession → Type 0
Closing c id session a b d = Balance c a (b + c.weight session.session_id) (erase id d)

pub Balance-Closing :
    {W : Type 0} (c : Counters W) (id : ℕ) (session : OwnedSession) (a b : ℕ)
    (d : Dict OwnedSession)
    → lookup id d ≡ some session
    → Balance c a b d
    → Closing c id session a b d
Balance-Closing c id session a b d found (once, balance) = (
  erase-NodupKeys id d once,
  omega (arith, total-erase_found (λ s. c.weight s.session_id) id session d once found, balance),
)

module _ {W : Type 0} (p : SsmPorts W) (c : Counters W) (counted : Counted p c) where
  pub returned_Balance :
      {A : Type 0} (r : Result A) (s : Runner W)
      → Returns (Over c (Balance c)) r s
      → Over c (Balance c) s
  returned_Balance (ok a) s h = h
  returned_Balance (err x) s h = absurd h

  -- the steps that close every way to end a session
  pub end_rest-Runs :
      {A : Type 0} (id : ℕ) (session : OwnedSession) (result : Option ApplicationError → A)
      → Runs
          (Over c (Closing c id session))
          (outside (capture_end_error p session) >>= λ e. disown id >>= λ _. pure (result e))
          (Returns (Over c (Balance c)))
  end_rest-Runs id session result =
      Runs-then (outside (capture_end_error p session)) _
        (capture_end_error-Runs p c counted (λ a b d. Balance c a b (erase id d)) session)
        (λ e. Runs-then (disown id) _ (disown-Runs p c counted (Balance c) id) (λ _. Runs-pure _))

  stop_polled-Runs :
      (id : ℕ) (session : OwnedSession) (polled : Attempt (Option ℕ))
      → Runs
          (Over c (Closing c id session))
          (stop_polled p id session polled)
          (Returns (Over c (Balance c)))
  unfolding stop_polled
  stop_polled-Runs id session (returned (some code)) = end_rest-Runs id session _
  stop_polled-Runs id session (returned none) =
      Runs-then (outside (stop_process p session.process)) _
        (stopped_outside-Runs p c counted (Closing c id session) session.process)
        (λ a. end_rest-Runs id session _)
  stop_polled-Runs id session (failed x) =
      Runs-then (outside (stop_process p session.process)) _
        (stopped_outside-Runs p c counted (Closing c id session) session.process)
        (λ a. end_rest-Runs id session _)

  pub poll_outside-Runs :
      (P : ℕ → ℕ → Dict OwnedSession → Type 0) (process : ℕ)
      → Runs (Over c P) (outside (attempt_all (p.poll process))) (Returns (Over c P))
  poll_outside-Runs P process = outside-Runs c P P (attempt_all (p.poll process)) (λ d.
      Runs-attempt_all (p.poll process) (Count c (λ a b. P a b d))
        (Runs-Keeps _ (poll-Keeps p c counted (λ a b. P a b d) process)))

  pub stop_owned-Runs :
      (id : ℕ) (session : OwnedSession)
      → Runs
          (Over c (Closing c id session))
          (stop_owned p id session)
          (Returns (Over c (Balance c)))
  unfolding stop_owned
  stop_owned-Runs id session =
      Runs-then (outside (attempt_all (p.poll session.process))) _
        (poll_outside-Runs (Closing c id session) session.process) (stop_polled-Runs id session)

  pub stop_found-Balance :
      (id : ℕ) (o : Option OwnedSession) (s : Runner W)
      → lookup id s.owned ≡ o
      → Over c (Balance c) s
      → Over c (Balance c) (stop_found p id o s).1
  unfolding stop_found raise
  stop_found-Balance id none s e h = h
  stop_found-Balance id (some session) s e h = returned_Balance _ _ (
      (stop_owned-Runs id session).from s
        (Balance-Closing c id session (c.started s.world) (c.ended s.world) s.owned e h))

  pub stop-Keeps : (id : ℕ) → Keeps (Over c (Balance c)) (stop p id)
  unfolding stop
  stop-Keeps id = record { at = λ s h. stop_found-Balance id (lookup id s.owned) s refl h }
