-- ===== src/Api/Gates.antt =====
-- What the two gates do to the status of a response.
use atrium_core.Base.{◌≡◌, refl, true, none, some, txt, arith, Option-cases, inl, inr}
use atrium_core.Base.Result.{Result, ok, err}
use atrium_core.Strings.{has_prefix}
use atrium_core.Crypto.{Crypto}
use atrium_core.Http.{
  Request, Out, Cookie, Json, cookie, set_cookie, set_header, write_header, write, json, emit,
}
use atrium_core.Audit.{log}
use atrium_core.Auth.Session.{
  SessionData, SessionError, Codec, OidcAuth, Time, validate_session_cookie, check_idle,
  clear_session_cookie, session_cookie_name,
}
use atrium_core.Auth.Middleware.{
  Handler, Instants, require_auth, admit, deny_unauthenticated, wants_json, touch_session,
  refresh_session,
}

pub json_answer-status :
    (code : Prim.Native.Nat.ℕ) (v : Json) (w : Out)
    → w.status ≡ none
    → (write (json v) (
        write_header code
          (set_header (txt "Content-Type") (txt "application/json; charset=utf-8") w))).status
      ≡ some code
unfolding write write_header set_header
json_answer-status code v w h = ground arith

pub deny_unauthenticated-status :
    (r : Request) (w : Out)
    → has_prefix r.path (txt "/api/") ≡ true
    → w.status ≡ none
    → (deny_unauthenticated r w).status ≡ some 401
unfolding deny_unauthenticated wants_json
deny_unauthenticated-status r w p h = rw p (json_answer-status 401 _ w h)

pub set_cookie-status : (c : Cookie) (w : Out) → (set_cookie c w).status ≡ w.status
unfolding set_cookie
set_cookie-status c w = ground arith

check_idle-status :
    (a : OidcAuth) (r : Request) (now : Time) (v : Result SessionError SessionData) (w : Out)
    → (check_idle a r now v w).1.status ≡ w.status
unfolding check_idle log emit
check_idle-status a r now (err e) w = refl
check_idle-status a r now (ok d) w = ground arith

module _ (crypto : Crypto) (codec : Codec) (a : OidcAuth) where
  pub validate-status :
      (r : Request) (now now' : Time) (w : Out)
      → (validate_session_cookie crypto codec a r now now' w).1.status ≡ w.status
  unfolding validate_session_cookie
  validate-status r now now' w = elim (Option-cases (cookie r session_cookie_name)) [
    | inl e ↦ rw (e, validate_session_cookie)
    | inr (token, e) ↦ rw (e, validate_session_cookie) (check_idle-status a r now' _ w)
  ]

  pub touch_session-status :
      (t : Instants) (d : SessionData) (w : Out)
      → (touch_session crypto codec a t d w).1.status ≡ w.status
  unfolding touch_session refresh_session set_header set_cookie emit
  touch_session-status t d w = ground arith

  -- RequireAuth on a request without a valid session.
  pub require_auth_denied :
      (next : Handler) (t : Instants) (r : Request) (w : Out) (e : SessionError)
      → (validate_session_cookie crypto codec a r t.expiry t.idle w).0 ≡ err e
      → require_auth crypto codec a next t r w
        ≡ deny_unauthenticated r (
            set_cookie
              (clear_session_cookie a)
              (validate_session_cookie crypto codec a r t.expiry t.idle w).1)
  unfolding require_auth admit
  require_auth_denied next t r w e h = rw h

  -- RequireAuth on a request with a valid session.
  pub require_auth_admitted :
      (next : Handler) (t : Instants) (r : Request) (w : Out) (d : SessionData)
      → (validate_session_cookie crypto codec a r t.expiry t.idle w).0 ≡ ok d
      → let touched =
          touch_session crypto codec a t d
            (validate_session_cookie crypto codec a r t.expiry t.idle w).1 in
        require_auth crypto codec a next t r w ≡ next (some touched.0) r touched.1
  unfolding require_auth admit
  require_auth_admitted next t r w d h = rw h
