-- ===== src/Application/Refresh/Bound.antt =====
-- The invariant of the table of pending refreshes.
use aws_ssm_kit.Base.{
  ℕ, ◌≤◌, ◌≡◌, refl, Bool, false, Option, none, some, length, arith, List, [], ◌∷◌,
}
use aws_ssm_kit.Base.Dict.{
  NodupKeys, lookup, length-insert, length-erase, length-drop_where, insert-NodupKeys, AllValues,
  AllValues-insert, AllValues-erase, AllValues-drop_where, erase-NodupKeys, drop_where-NodupKeys,
}
use aws_ssm_kit.Errors.{Exec}
use aws_ssm_kit.Errors.Keeps.{Keeps, keeps_rules, Keeps-bind, Keeps-rescue}
use aws_ssm_kit.Text.{Text}
use aws_ssm_kit.Application.Env.{Ports, Env, record_event}
use aws_ssm_kit.Application.Profiles.{Selector, ProfileSummary}
use aws_ssm_kit.Application.Sessions.{AuthenticationStatus}
use aws_ssm_kit.Application.Operations.{max_pending_authentication_operations}
use aws_ssm_kit.Application.Refresh.{
  Coordinator, PendingRefresh, within, sweep, pop_pending, admit, answer, start_refresh,
  resume_popped, resume_found, resume, cancel, is_expired, cancelled_record,
}

abbrev pub IsUnmarked : PendingRefresh → Type 0
IsUnmarked pending = pending.resumed ≡ false

-- The invariant of the coordinator.
pub record IsBounded {W : Type 0} (c : Coordinator W) : Type 0 where
  pub room : length c.pending ≤ max_pending_authentication_operations
  pub once : NodupKeys c.pending
  -- a marked entry never stays in the table
  pub unmarked : AllValues IsUnmarked c.pending

module _ {W : Type 0} where
  pub within-IsBounded : {A : Type 0} (m : Exec (Env W) A) → Keeps (IsBounded {W = W}) (within m)
  unfolding within
  within-IsBounded m = record {
    at = λ c h. record { room = h.room; once = h.once; unmarked = h.unmarked };
  }

  sweep-IsBounded : (now : ℕ) → Keeps (IsBounded {W = W}) (sweep now)
  unfolding sweep
  sweep-IsBounded now = record {
    at = λ c h. record {
      room = omega (arith, length-drop_where (is_expired now) c.pending, h.room);
      once = drop_where-NodupKeys (is_expired now) c.pending h.once;
      unmarked = AllValues-drop_where IsUnmarked (is_expired now) c.pending h.unmarked;
    };
  }

  pop_pending-IsBounded : (id : ℕ) → Keeps (IsBounded {W = W}) (pop_pending id)
  unfolding pop_pending
  pop_pending-IsBounded id = record {
    at = λ c h. record {
      room = omega (arith, length-erase id c.pending, h.room);
      once = erase-NodupKeys id c.pending h.once;
      unmarked = AllValues-erase IsUnmarked id c.pending h.unmarked;
    };
  }

  admit-IsBounded :
      (id : ℕ) (profile : ProfileSummary) (expires_at : ℕ)
      → Keeps (IsBounded {W = W}) (admit id profile expires_at)
  unfolding admit
  admit-IsBounded id profile expires_at = record {
    at = λ c h.
        let pending : PendingRefresh = record {
          profile_id = profile.id;
          expires_at = expires_at;
          resumed = false;
        } in
        ground (
          arith,
          length-insert id pending c.pending,
          insert-NodupKeys id pending c.pending h.once,
          AllValues-insert IsUnmarked id pending c.pending refl h.unmarked,
        );
  }

ruleset bounded_rules = (
  keeps_rules, Keeps-rescue, within-IsBounded, sweep-IsBounded, pop_pending-IsBounded,
  admit-IsBounded,
)

module _ {W : Type 0} (p : Ports W) where
  answer-IsBounded : (id : ℕ) (found : AuthenticationStatus) → Keeps IsBounded (answer p id found)
  unfolding answer
  answer-IsBounded id found = search bounded_rules depth 12

  pub start_refresh-IsBounded :
      (selector : Selector) (discard : Bool) → Keeps IsBounded (start_refresh p selector discard)
  unfolding start_refresh
  start_refresh-IsBounded selector discard = search (bounded_rules, answer-IsBounded) depth 12

  resume_popped-IsBounded :
      (id : ℕ) (pending : PendingRefresh) (code : Option Text)
      → Keeps IsBounded (resume_popped p id pending code)
  unfolding resume_popped
  resume_popped-IsBounded id pending none = search bounded_rules depth 12
  resume_popped-IsBounded id pending (some code) = search bounded_rules depth 12

  resume_found-IsBounded :
      (id : ℕ) (o : Option PendingRefresh) (code : Option Text)
      → Keeps IsBounded (resume_found p id o code)
  unfolding resume_found
  resume_found-IsBounded id none code = search bounded_rules depth 12
  resume_found-IsBounded id (some pending) code =
      search (bounded_rules, resume_popped-IsBounded) depth 12

  pub resume-IsBounded : (id : ℕ) (code : Option Text) → Keeps IsBounded (resume p id code)
  unfolding resume
  resume-IsBounded id code = record {
    at = λ c h. (resume_found-IsBounded id (lookup id c.pending) code).at c h;
  }

module _ {W : Type 0} where
  pub cancel-IsBounded : (id : ℕ) → Keeps (IsBounded {W = W}) (cancel id)
  unfolding cancel
  cancel-IsBounded id = record { at = λ c h. go c h (lookup id c.pending) refl }
    where
      popped : Keeps (IsBounded {W = W}) (pop_pending id)
      popped = pop_pending-IsBounded id

      go :
          (c : Coordinator W)
          → IsBounded c
          → (o : Option PendingRefresh) → lookup id c.pending ≡ o
          → IsBounded (cancel id c).1
      go c h none e = rw (e, cancel) (popped.at c h)
      go c h (some pending) e =
          rw (e, cancel)
            ((Keeps-bind _ _ popped (λ _. within-IsBounded (record_event cancelled_record))).at c h)

-- The calls that reach the table of pending refreshes.
pub data Call : Type 0 where
  starting : Selector → Bool → Call
  resuming : ℕ → Option Text → Call
  cancelling : ℕ → Call

module _ {W : Type 0} (p : Ports W) where
  -- A call that raises leaves what it has written, and the next one goes on from there.
  pub serve : List Call → Coordinator W → Coordinator W
  serve [] c = c
  serve (starting selector discard ∷ calls) c = serve calls (start_refresh p selector discard c).1
  serve (resuming id code ∷ calls) c = serve calls (resume p id code c).1
  serve (cancelling id ∷ calls) c = serve calls (cancel id c).1

  -- After any sequence of calls at most 128 refreshes are pending, each operation is listed once,
  -- and no entry is marked as resumed.
  pub serve-IsBounded :
      (calls : List Call) (c : Coordinator W) → IsBounded c → IsBounded (serve calls c)
  unfolding serve
  serve-IsBounded [] c h = h
  serve-IsBounded (starting selector discard ∷ calls) c h =
      serve-IsBounded calls _ ((start_refresh-IsBounded p selector discard).at c h)
  serve-IsBounded (resuming id code ∷ calls) c h =
      serve-IsBounded calls _ ((resume-IsBounded p id code).at c h)
  serve-IsBounded (cancelling id ∷ calls) c h =
      serve-IsBounded calls _ ((cancel-IsBounded id).at c h)
