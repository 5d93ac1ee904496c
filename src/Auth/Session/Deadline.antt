-- ===== src/Auth/Session/Deadline.antt =====
-- When a session ends.
use atrium_core.Base.{◌+◌, ◌<◌, ◌≡◌, min, arith}
use atrium_core.Auth.Session.{SessionData, OidcAuth, last_activity, session_deadline}

-- Without an idle timeout the deadline is the absolute expiry; with one it is the earlier of that and
-- the last activity plus the timeout.
pub session_deadline-min :
    (a : OidcAuth) (d : SessionData)
    → (a.session_idle_ttl ≡ 0 → session_deadline a d ≡ d.expires_at)
      × (0 < a.session_idle_ttl
          → session_deadline a d ≡ min (last_activity d + a.session_idle_ttl) d.expires_at)
unfolding session_deadline
session_deadline-min a d = (λ h. ground arith, λ h. ground arith)
