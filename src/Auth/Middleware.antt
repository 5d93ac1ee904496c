-- ===== src/Auth/Middleware.antt =====
-- internal/auth/middleware.go: admission of requests, the sliding idle timeout, and logout.
pub mod Touch
pub mod Logout
use atrium_core.Base.{
  ◌+◌, Bool, true, false, not, ◌&&◌, Option, none, some, List, [], ◌∷◌, ◌++◌, Text, txt,
}
use atrium_core.Base.{if◌then◌else◌, is_empty, ltb, leb}
use atrium_core.Base.Result.{Result, ok, err}
use atrium_core.Strings.{has_prefix, contains, itoa}
use atrium_core.Url.{query_escape}
use atrium_core.Crypto.{Crypto}
use atrium_core.Slog.{level_error, level_info}
use atrium_core.Http.{
  Request, Out, Run, Cookie, set_cookie, set_header, write_header, write, redirect, emit,
  header_get, json, obj, field, str, end,
}
use atrium_core.Audit.{log, event_logout, string_attr, email_key}
use atrium_core.Auth.Next.{safe_next_path}
use atrium_core.Auth.Session.{
  SessionData, SessionError, OidcAuth, Codec, Time, Duration, last_activity, session_deadline,
  session_refresh_interval, seconds_until, session_cookie, clear_session_cookie,
  validate_session_cookie,
}

abbrev pub login_path : Text
login_path = txt "/auth/login"

abbrev pub logged_out_path : Text
logged_out_path = txt "/auth/logged-out"

abbrev pub session_expires_header : Text
session_expires_header = txt "Atrium-Session-Expires-In"

-- A handler: the session that the request's context carries, if any, and the request.
abbrev pub Handler : Type 0
Handler = Option SessionData → Request → Run

-- The instants at which one request reads the clock, in their order.
pub record Instants : Type 0 where
  pub expiry : Time
  pub idle : Time
  pub since : Time
  pub seen : Time
  pub cookie : Time
  pub header : Time

-- wantsJSON
unfoldable pub wants_json : Request → Bool
unfolding has_prefix contains
wants_json r =
    if has_prefix r.path (txt "/api/")
    then true
    else contains (header_get r (txt "Accept")) (txt "application/json")
      && not (contains (header_get r (txt "Accept")) (txt "text/html"))

-- Where denyUnauthenticated sends a browser.
unfoldable pub login_url : Request → Text
login_url r =
    let next = safe_next_path r.request_uri in
    if is_empty next then login_path else login_path ++ (txt "?next=" ++ query_escape next)

-- denyUnauthenticated
unfoldable pub deny_unauthenticated : Request → Run
deny_unauthenticated r w =
    if wants_json r
    then write (json (obj (field (txt "error") (str (txt "unauthenticated")) end))) (
        write_header 401
          (set_header (txt "Content-Type") (txt "application/json; charset=utf-8") w))
    else redirect (login_url r) 302 w

module _ (crypto : Crypto) (codec : Codec) (a : OidcAuth) where
  -- The refresh of the cookie in touchSession.
  unfoldable pub refresh_session : Instants → SessionData → Out → SessionData × Out
  refresh_session t d w =
      let refreshed = record d { last_seen = t.seen } in
      elim (session_cookie crypto codec a refreshed t.cookie) [
        | none ↦ (d, emit a.logger level_error (txt "refresh session cookie") [] w)
        | some c ↦ (refreshed, set_cookie c w)
      ]

  -- touchSession
  unfoldable pub touch_session : Instants → SessionData → Out → SessionData × Out
  touch_session t d w =
      let (d', w') =
        if ltb 0 a.session_idle_ttl && leb (last_activity d + session_refresh_interval) t.since
        then refresh_session t d w
        else (d, w) in
      (
        d',
        set_header session_expires_header (itoa (seconds_until t.header (session_deadline a d')))
            w',
      )

  -- What RequireAuth does with the outcome of the validation.
  unfoldable pub admit : Handler → Instants → Request → Result SessionError SessionData → Run
  admit next t r (err e) w = deny_unauthenticated r (set_cookie (clear_session_cookie a) w)
  admit next t r (ok d) w = let (d', w') = touch_session t d w in next (some d') r w'

  -- RequireAuth
  unfoldable pub require_auth : Handler → Instants → Request → Run
  require_auth next t r w =
      let (v, w') = validate_session_cookie crypto codec a r t.expiry t.idle w in
      admit next t r v w'

  -- The target of RP-initiated logout, with the parameters in the order of url.Values.Encode.
  abbrev pub end_session_url : Text → Text
  end_session_url id_token =
      a.end_session_endpoint
      ++ (txt "?client_id="
          ++ (query_escape a.client_id
              ++ (txt "&id_token_hint="
                  ++ (query_escape id_token
                      ++ (txt "&post_logout_redirect_uri="
                          ++ query_escape a.post_logout_redirect)))))

  -- What LogoutHandler does with the outcome of the validation.
  unfoldable pub end_session : Request → Result SessionError SessionData → Run
  end_session r (err e) w = redirect logged_out_path 302 (set_cookie (clear_session_cookie a) w)
  end_session r (ok d) w =
      let w' =
        log a.logger r level_info event_logout (string_attr email_key d.email ∷ [])
          (set_cookie (clear_session_cookie a) w) in
      if not (is_empty a.end_session_endpoint) && not (is_empty d.id_token)
      then redirect (end_session_url d.id_token) 302 w'
      else redirect logged_out_path 302 w'

  -- LogoutHandler
  unfoldable pub logout_handler : Instants → Request → Run
  logout_handler t r w =
      let (v, w') = validate_session_cookie crypto codec a r t.expiry t.idle w in end_session r v w'
