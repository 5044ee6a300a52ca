-- ===== src/Application/Tunnels/Managed/Reports.antt =====
-- What a poll of the managed tunnels reports, and what it leaves in the table.
use aws_ssm_kit.Base.{
  ℕ, ◌≡◌, ◌≢◌, refl, ◌∙◌, ap, true, false, Option, none, some, List, [], ◌∷◌, leb, map, is_some,
  arith, Bool-cases, inl, inr,
}
use aws_ssm_kit.Base.Dict.{Dict, lookup, lookup-erase, NodupKeys}
use aws_ssm_kit.Errors.{Result, ok, err, app, Failure, pure, ◌>>=◌}
use aws_ssm_kit.Errors.Ends.{Ends, Ends-bind, Ends-at}
use aws_ssm_kit.Domain.Tunnel.{TunnelSession}
use aws_ssm_kit.Application.Env.{Ports, call, ask}
use aws_ssm_kit.Application.Tunnels.Managed.{
  SessionEndReason, max_duration, ManagedTunnel, ManagedSsmSession, TunnelConnectionResult,
  TunnelPorts, Tunnels, Attempt, returned, refused, attempt, caught, within, pop_managed,
  is_running,
}
use aws_ssm_kit.Application.Tunnels.Managed.Stop.{
  Poll, stopped, polled, owned, stop, poll, settle, settle_polled, report, report_all,
  active_tunnels, failed_session,
}
use aws_ssm_kit.Application.Tunnels.Managed.Cleared.{stop-lookup, is_listed, not_listed}

module _ {W : Type 0} where
  -- every other entry is as it was
  abbrev Others : ℕ → Tunnels W → Tunnels W → Type 0
  Others id s after = (k : ℕ) → k ≢ id → lookup k after.managed ≡ lookup k s.managed

  abbrev Polled : ℕ → Tunnels W → Result Poll → Tunnels W → Type 0
  Polled id s (ok (stopped h)) after = (lookup id after.managed ≡ none) × Others id s after
  Polled id s (ok (polled managed)) after = Others id s after
  Polled id s (err x) after = Others id s after

  -- A result is about the tunnel of the entry, which stays in the table only when it is running.
  abbrev Reported :
      ℕ → ManagedTunnel → Tunnels W → Result TunnelConnectionResult → Tunnels W → Type 0
  Reported id entry s (ok r) after =
      (r.tunnel ≡ entry.tunnel)
      × (is_some (lookup id after.managed) ≡ true → is_running r.handle.state ≡ true)
      × Others id s after
  Reported id entry s (err x) after = Others id s after

module _ {W : Type 0} (p : Ports W) (t : TunnelPorts W) where
  stop-Others :
      (id : ℕ) (reason : Option SessionEndReason) (s : Tunnels W)
      → Others id s (stop p t id none reason s).1
  stop-Others id reason s k ne = ground (arith, stop-lookup p t k id reason s)

  expired-Polled :
      (id : ℕ) (s u : Tunnels W)
      → u.managed ≡ s.managed
      → Ends (Polled id s) (do h ← stop p t id none (some max_duration); pure (stopped h)) u
  unfolding pure
  expired-Polled id s u same =
      Ends-bind (stop p t id none (some max_duration)) _ u
        (λ h v e. record {
          holds = (
            ground (arith, stop-lookup p t id id (some max_duration) u),
            λ k ne. ground (arith, stop-lookup p t k id (some max_duration) u),
          );
        })
        (λ x v e k ne. ground (arith, stop-lookup p t k id (some max_duration) u))

  live-Polled :
      (id : ℕ) (s u : Tunnels W)
      → u.managed ≡ s.managed
      → Ends (Polled id s) (do managed ← within (call (t.status id)); pure (polled managed)) u
  unfolding pure within
  live-Polled id s u same =
      Ends-bind (within (call (t.status id))) _ u (λ m v e. record { holds = λ k ne. ground arith })
        (λ x v e k ne. ground arith)

  poll-Polled :
      (id : ℕ) (entry : ManagedTunnel) (s : Tunnels W) → Ends (Polled id s) (poll p t id entry) s
  unfolding poll within ask
  poll-Polled id entry s =
      Ends-bind (within (ask p.now)) _ s
        (λ now u e. elim (Bool-cases (leb entry.expires_at now)) [
          | inl late ↦ rw late (expired-Polled id s u (ground arith))
          | inr live ↦ rw live (live-Polled id s u (ground arith))
        ])
        (λ x u e k ne. ground arith)

  settle_polled-Reported :
      (id : ℕ) (entry : ManagedTunnel) (managed : ManagedSsmSession) (s u : Tunnels W)
      → Others id s u
      → Ends (Reported id entry s) (settle_polled p t id entry managed) u
  unfolding settle_polled pop_managed pure ◌>>=◌
  settle_polled-Reported id entry managed s u others =
      elim (Bool-cases (is_running managed.state)) [
        | inl running ↦ record { holds = rw running (refl, λ e. running, others) }
        | inr ended ↦ record {
          holds = rw ended (
            refl,
            λ e. ground (arith, lookup-erase id id u.managed),
            λ k ne. ground (arith, lookup-erase k id u.managed, others k ne),
          );
        }
      ]

  -- what an attempt of a poll leaves, by how the poll ended
  abbrev Tried : ℕ → Tunnels W → Result (Attempt Poll) → Tunnels W → Type 0
  Tried id s (ok (returned found)) after = Polled id s (ok found) after
  Tried id s (ok (refused e)) after = Others id s after
  Tried id s (err x) after = Others id s after

  caught-Tried :
      (id : ℕ) (s : Tunnels W) (r : Result Poll) (u : Tunnels W)
      → Polled id s r u
      → Tried id s (caught r u).0 (caught r u).1
  unfolding caught
  caught-Tried id s (ok found) u h = h
  caught-Tried id s (err (app e)) u h = h
  caught-Tried id s (err Failure.cancelled) u h = h
  caught-Tried id s (err Failure.untyped) u h = h

  attempt-Tried :
      (id : ℕ) (entry : ManagedTunnel) (s : Tunnels W)
      → Ends (Tried id s) (attempt (poll p t id entry)) s
  unfolding attempt
  attempt-Tried id entry s = record {
    holds =
        caught-Tried id s (poll p t id entry s).0 (poll p t id entry s).1
          (poll-Polled id entry s).holds;
  }

  settle-Reported :
      (id : ℕ) (entry : ManagedTunnel) (o : Attempt Poll) (s u : Tunnels W)
      → Tried id s (ok o) u
      → Ends (Reported id entry s) (settle p t id entry o) u
  unfolding settle pure
  settle-Reported id entry (returned (stopped h)) s u (gone, others) = record {
    holds = (refl, λ e. ground arith, others);
  }
  settle-Reported id entry (returned (polled managed)) s u others =
      settle_polled-Reported id entry managed s u others
  settle-Reported id entry (refused e) s u others =
      settle_polled-Reported id entry (failed_session id entry e) s u others

  report-Reported :
      (id : ℕ) (entry : ManagedTunnel) (s : Tunnels W)
      → Ends (Reported id entry s) (report p t id entry) s
  unfolding report
  report-Reported id entry s =
      Ends-bind (attempt (poll p t id entry)) _ s
        (λ o u h. settle-Reported id entry o s u (Ends-at _ s (attempt-Tried id entry s) h))
        (λ x u h. Ends-at _ s (attempt-Tried id entry s) h)

abbrev pub tunnel_of : ℕ × ManagedTunnel → TunnelSession
tunnel_of (id, entry) = entry.tunnel

unlisted_of :
    (k id : ℕ) (entry : ManagedTunnel) (d : Dict ManagedTunnel)
    → is_listed k ((id, entry) ∷ d) ≡ false
    → (k ≢ id) × (is_listed k d ≡ false)
unfolding lookup
unlisted_of k id entry d h = (λ e. ground arith, ground arith)

module _ {W : Type 0} where
  -- each result next to its entry: an entry that is still in the table was reported as running
  abbrev pub RunningLeft : Dict ManagedTunnel → List TunnelConnectionResult → Tunnels W → Type 0
  RunningLeft ((id, entry) ∷ d) (r ∷ results) after =
      (is_some (lookup id after.managed) ≡ true → is_running r.handle.state ≡ true)
      × RunningLeft d results after
  RunningLeft d results after = Unit

  -- How a poll of the entries in `d` ended.
  abbrev pub AllReported :
      Dict ManagedTunnel → Tunnels W → Result (List TunnelConnectionResult) → Tunnels W → Type 0
  AllReported d s (err x) after =
      (k : ℕ) → is_listed k d ≡ false → lookup k after.managed ≡ lookup k s.managed
  AllReported d s (ok results) after =
      (map (λ r. r.tunnel) results ≡ map tunnel_of d)
      × RunningLeft d results after
      × ((k : ℕ) → is_listed k d ≡ false → lookup k after.managed ≡ lookup k s.managed)

  then_unlisted :
      (id : ℕ) (entry : ManagedTunnel) (d : Dict ManagedTunnel) (s u after : Tunnels W)
      → Others id s u
      → ((k : ℕ) → is_listed k d ≡ false → lookup k after.managed ≡ lookup k u.managed)
      → (k : ℕ) → is_listed k ((id, entry) ∷ d) ≡ false
      → lookup k after.managed ≡ lookup k s.managed
  then_unlisted id entry d s u after first rest k h =
      let (ne, unlisted) = unlisted_of k id entry d h in rest k unlisted ∙ first k ne

module _ {W : Type 0} (p : Ports W) (t : TunnelPorts W) where
  report_all-AllReported :
      (d : Dict ManagedTunnel) (s : Tunnels W)
      → NodupKeys d
      → Ends (AllReported d s) (report_all p t d) s
  unfolding report_all pure
  report_all-AllReported [] s once = record { holds = (refl, tt, λ k h. refl) }
  report_all-AllReported ((id, entry) ∷ d) s (unlisted, once) =
      Ends-bind (report p t id entry) _ s
        (λ r u h.
          let (same, left, others) = Ends-at _ s (report-Reported p t id entry s) h in
          Ends-bind (report_all p t d) _ u
            (λ rs v h'.
              let (sames, lefts, rest) = Ends-at _ u (report_all-AllReported d u once) h' in
              record {
                holds = (
                  ap (λ x. x ∷ map (λ r'. r'.tunnel) rs) same ∙ ap (λ xs. entry.tunnel ∷ xs) sames,
                  (λ e. left (ground (arith, rest id (ground arith))), lefts),
                  then_unlisted id entry d s u v others rest,
                );
              })
            (λ x v h'.
              then_unlisted id entry d s u v others
                (Ends-at _ u (report_all-AllReported d u once) h')))
        (λ x u h.
          then_unlisted id entry d s u u (Ends-at _ s (report-Reported p t id entry s) h)
            (λ k e. refl))

owned-NodupKeys :
    (profile_id : Option ℕ) (d : Dict ManagedTunnel) → NodupKeys d → NodupKeys (owned profile_id d)
unfolding owned
owned-NodupKeys profile_id [] once = tt
owned-NodupKeys profile_id ((id, entry) ∷ d) (unlisted, once) =
    ground (arith, owned-NodupKeys profile_id d once, not_listed profile_id id d unlisted)

module _ {W : Type 0} (p : Ports W) (t : TunnelPorts W) where
  -- When `active_tunnels` returns, its results are about the managed tunnels of the profile, each
  -- once and in their order, and one that is still in the table was reported as running. The tunnels
  -- of other profiles are as they were, also when it raises.
  pub active_tunnels-AllReported :
      (profile_id : Option ℕ) (s : Tunnels W)
      → NodupKeys s.managed
      → AllReported
          (owned profile_id s.managed)
          s
          (active_tunnels p t profile_id s).0
          (active_tunnels p t profile_id s).1
  unfolding active_tunnels
  active_tunnels-AllReported profile_id s once =
      (report_all-AllReported p t (owned profile_id s.managed) s
        (owned-NodupKeys profile_id s.managed once)).holds
