-- ===== src/Auth/Middleware/Touch.antt =====
-- What an admitted request does to the session: only its last activity moves, and no further than
-- the refresh interval allows.
use atrium_core.Base.{◌+◌, ◌≤◌, ◌<◌, ◌≡◌, none, arith, ◌≢◌}
use atrium_core.Crypto.{Crypto}
use atrium_core.Http.{Out, set_header}
use atrium_core.Strings.{itoa}
use atrium_core.Auth.Session.{
  SessionData, OidcAuth, Codec, last_activity, session_deadline, session_cookie,
  session_refresh_interval, seconds_until,
}
use atrium_core.Auth.Middleware.{Instants, touch_session, refresh_session, session_expires_header}

module _ (crypto : Crypto) (codec : Codec) (a : OidcAuth) (t : Instants) (d : SessionData)
    (w : Out) where
  abbrev touched : SessionData
  touched = (touch_session crypto codec a t d w).0

  -- Identity, issue, absolute expiry and ID token stay as they were.
  pub touch_session-same :
      (touched.email ≡ d.email)
      × (touched.issued_at ≡ d.issued_at)
      × (touched.expires_at ≡ d.expires_at)
      × (touched.id_token ≡ d.id_token)
  unfolding touch_session refresh_session
  touch_session-same = ground arith

  -- The deadline moves forward only, and never past the absolute expiry.
  pub touch_session-deadline :
      last_activity d ≤ t.seen
      → (session_deadline a d ≤ session_deadline a touched)
        × (session_deadline a touched ≤ d.expires_at)
  unfolding touch_session refresh_session session_deadline
  touch_session-deadline h = ground arith

  -- Where the cookie can be made, the activity that the session records after a request lies less
  -- than the refresh interval before the request.
  pub touch_session-recent :
      0 < a.session_idle_ttl
      → t.since ≤ t.seen
      → 0 < t.seen
      → session_cookie crypto codec a (record d { last_seen = t.seen }) t.cookie ≢ none
      → t.since < last_activity touched + session_refresh_interval
  unfolding touch_session refresh_session last_activity
  touch_session-recent h k p m = ground arith

  -- With an idle timeout below the refresh interval, a request within the timeout changes neither
  -- the session nor its cookie: activity does not extend such a session.
  pub touch_session-short_idle :
      a.session_idle_ttl < session_refresh_interval
      → t.since ≤ last_activity d + a.session_idle_ttl
      → (touched ≡ d)
        × ((touch_session crypto codec a t d w).1
            ≡ set_header session_expires_header
                (itoa (seconds_until t.header (session_deadline a d)))
                w)
  unfolding touch_session
  touch_session-short_idle h k = ground arith
