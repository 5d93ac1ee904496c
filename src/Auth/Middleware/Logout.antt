-- ===== src/Auth/Middleware/Logout.antt =====
-- What a logout leaves behind.
use atrium_core.Base.{
  ◌≡◌, refl, not, ◌&&◌, none, List, [], ◌∷◌, ◌++◌, Text, is_empty, if◌then◌else◌, Option-cases,
  Bool-cases, inl, inr, ltb, ◌+◌,
}
use atrium_core.Base.Result.{Result, ok, err}
use atrium_core.Crypto.{Crypto}
use atrium_core.Http.{redirect, Request, Out, Cookie, cookie}
use atrium_core.Auth.Session.{
  SessionData, SessionError, OidcAuth, Codec, Time, validate_session_cookie, check_idle,
  clear_session_cookie, session_cookie_name, last_activity,
}
use atrium_core.Auth.Middleware.{
  Instants, logout_handler, end_session, end_session_url, logged_out_path,
}
use atrium_core.Auth.Flow.Callback.{
  IsOpen, IsRedirect, set_cookie-IsOpen, redirect-IsRedirect, log-IsOpen,
}

check_idle-IsOpen :
    (a : OidcAuth) (r : Request) (now : Time) (v : Result SessionError SessionData)
    (l : List Cookie) (w : Out)
    → IsOpen l w
    → IsOpen l (check_idle a r now v w).1
unfolding check_idle
check_idle-IsOpen a r now (err e) l w o = o
check_idle-IsOpen a r now (ok d) l w o =
    elim (Bool-cases (ltb 0 a.session_idle_ttl && ltb (last_activity d + a.session_idle_ttl) now)) [
      | inl e ↦ rw e (log-IsOpen _ r _ _ _ l w o)
      | inr e ↦ rw e o
    ]

-- Where a logout leads, by the outcome of the validation.
abbrev pub logout_target : Crypto → Codec → OidcAuth → Result SessionError SessionData → Text
logout_target crypto codec a (err e) = logged_out_path
logout_target crypto codec a (ok d) =
    if not (is_empty a.end_session_endpoint) && not (is_empty d.id_token)
    then end_session_url crypto codec a d.id_token
    else logged_out_path

module _ (crypto : Crypto) (codec : Codec) (a : OidcAuth) where
  validate-IsOpen :
      (r : Request) (now now' : Time) (l : List Cookie) (w : Out)
      → IsOpen l w
      → IsOpen l (validate_session_cookie crypto codec a r now now' w).1
  unfolding validate_session_cookie
  validate-IsOpen r now now' l w o = elim (Option-cases (cookie r session_cookie_name)) [
    | inl e ↦ rw (e, validate_session_cookie) o
    | inr (token, e) ↦ rw (e, validate_session_cookie) (check_idle-IsOpen a r now' _ l w o)
  ]

  end_session-IsRedirect :
      (r : Request) (v : Result SessionError SessionData) (l : List Cookie) (w : Out)
      → IsOpen l w
      → IsRedirect 302
          (logout_target crypto codec a v)
          (l ++ clear_session_cookie a ∷ [])
          (end_session crypto codec a r v w)
  unfolding end_session clear_session_cookie redirect
  end_session-IsRedirect r (err e) l w o =
      redirect-IsRedirect logged_out_path 302 _ _ (set_cookie-IsOpen (clear_session_cookie a) l w o)
  end_session-IsRedirect r (ok d) l w o =
      elim (Bool-cases (not (is_empty a.end_session_endpoint) && not (is_empty d.id_token))) [
        | inl e ↦ rw e (
            redirect-IsRedirect _ 302 _ _
              (log-IsOpen a.logger r _ _ _ _ _ (set_cookie-IsOpen (clear_session_cookie a) l w o)))
        | inr e ↦ rw e (
            redirect-IsRedirect logged_out_path 302 _ _
              (log-IsOpen a.logger r _ _ _ _ _ (set_cookie-IsOpen (clear_session_cookie a) l w o)))
      ]

  -- A logout, with a valid session or without, is answered with a redirect (302) that removes the
  -- session cookie. It leads to the provider's end of session where the session is valid and holds an
  -- ID token and the provider has such an endpoint, and to the page after a logout otherwise.
  pub logout_handler-IsRedirect :
      (t : Instants) (r : Request) (w : Out)
      → w.status ≡ none
      → IsRedirect 302
          (logout_target crypto codec a
            (validate_session_cookie crypto codec a r t.expiry t.idle w).0)
          (w.cookies ++ clear_session_cookie a ∷ [])
          (logout_handler crypto codec a t r w)
  unfolding logout_handler
  logout_handler-IsRedirect t r w h =
      end_session-IsRedirect r _ w.cookies _
        (validate-IsOpen r t.expiry t.idle w.cookies w (record { unwritten = h; holds = refl }))
