-- ===== src/Domain/Profile/Refresh.antt =====
-- When a temporary session has to be refreshed.
use aws_ssm_kit.Base.{ℕ, ◌+◌, ◌-◌, ◌*◌, ◌/◌, ◌≤◌, ◌<◌, ◌≡◌, true, false, arith}
use aws_ssm_kit.Domain.Profile.{SessionCredentials, max_session_refresh_window, needs_refresh}

-- A session that needs a refresh needs one at every later time. One that needs none has not
-- expired. One that ends after it was verified, and is more than thirty minutes away from its
-- end, needs none. A session that ends five hours or more after it was verified needs a refresh in
-- all of its last thirty minutes, and one that ends at most five hours after it was verified needs
-- one in the last tenth of that time, rounded down. Any that is further from its end than that tenth
-- and one unit of time, and that ends after it was verified, needs none.
pub needs_refresh_bounds :
    (s : SessionCredentials) (now later : ℕ)
    → now ≤ later
    → (needs_refresh s now ≡ true → needs_refresh s later ≡ true)
      × (needs_refresh s now ≡ false → now < s.expires_at_utc)
      × (s.verified_at_utc < s.expires_at_utc
          → now + max_session_refresh_window < s.expires_at_utc
          → needs_refresh s now ≡ false)
      × (s.verified_at_utc + 10 * max_session_refresh_window ≤ s.expires_at_utc
          → s.expires_at_utc ≤ now + max_session_refresh_window
          → needs_refresh s now ≡ true)
      × (s.expires_at_utc ≤ s.verified_at_utc + 10 * max_session_refresh_window
          → s.expires_at_utc ≤ now + (s.expires_at_utc - s.verified_at_utc) / 10
          → needs_refresh s now ≡ true)
      × (s.verified_at_utc < s.expires_at_utc
          → now + (s.expires_at_utc - s.verified_at_utc) / 10 + 1 < s.expires_at_utc
          → needs_refresh s now ≡ false)
unfolding needs_refresh
needs_refresh_bounds s now later h = (
  λ a. ground arith,
  λ a. ground arith,
  λ a b. ground arith,
  λ a b. ground arith,
  λ a b. ground arith,
  λ a b. ground arith,
)
