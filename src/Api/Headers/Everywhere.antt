-- ===== src/Api/Headers/Everywhere.antt =====
-- The security headers reach the answer to a request without a session.
use atrium_core.Base.{
  ◌≡◌, refl, ◌∙◌, Bool, true, false, Option, none, List, [], Text, txt, ◌==◌, get, lookup,
  Option-cases, inl, inr, if◌then◌else◌, arith,
}
use atrium_core.Base.Result.{Result, ok, err}
use atrium_core.Strings.{has_prefix}
use atrium_core.Crypto.{Crypto}
use atrium_core.Http.{
  Request, Out, Cookie, fresh, put, set_header, set_cookie, write, write_header, cookie, emit,
}
use atrium_core.Audit.{log}
use atrium_core.Auth.Session.{
  SessionData, SessionError, Codec, OidcAuth, Time, validate_session_cookie, check_idle,
  session_cookie_name, clear_session_cookie,
}
use atrium_core.Auth.Middleware.{Handler, Instants, deny_unauthenticated, wants_json}
use atrium_core.Tos.{Manager, TosCodec}
use atrium_core.Api.{PublicHandlers}
use atrium_core.Api.Boundary.{dispatch_denied}
use atrium_core.Api.Gates.{set_cookie-status, validate-status}
use atrium_core.Api.Headers.{security_headers, content_security_policy, handler, hsts_value}

check_idle-header :
    (a : OidcAuth) (r : Request) (now : Time) (v : Result SessionError SessionData) (w : Out)
    → (check_idle a r now v w).1.header ≡ w.header
unfolding check_idle log emit
check_idle-header a r now (err e) w = refl
check_idle-header a r now (ok d) w = ground arith

check_idle-blind :
    (a : OidcAuth) (r : Request) (now : Time) (v : Result SessionError SessionData) (w w' : Out)
    → (check_idle a r now v w).0 ≡ (check_idle a r now v w').0
unfolding check_idle
check_idle-blind a r now (err e) w w' = refl
check_idle-blind a r now (ok d) w w' = ground arith

set_cookie-header : (c : Cookie) (w : Out) → (set_cookie c w).header ≡ w.header
unfolding set_cookie
set_cookie-header c w = ground arith

deny_unauthenticated-header :
    (r : Request) (w : Out)
    → has_prefix r.path (txt "/api/") ≡ true
    → w.status ≡ none
    → (deny_unauthenticated r w).header
      ≡ put (txt "Content-Type") (txt "application/json; charset=utf-8") w.header
unfolding deny_unauthenticated wants_json set_header write_header write
deny_unauthenticated-header r w p h = rw p (ground arith)

-- The response that securityHeaders hands on.
abbrev secured : Request → Text → Bool → Out
secured r csp tls = security_headers (λ r w. w) csp tls r fresh

secured-status : (r : Request) (csp : Text) (tls : Bool) → (secured r csp tls).status ≡ none
unfolding security_headers set_header
secured-status r csp true = refl
secured-status r csp false = refl

-- What securityHeaders promises of the headers of a response.
unfoldable pub IsSecured : Text → Bool → List (Text × Text) → Type 0
IsSecured csp tls h =
    (get (txt "Content-Security-Policy") h ≡ csp)
    × (get (txt "X-Content-Type-Options") h ≡ txt "nosniff")
    × (get (txt "X-Frame-Options") h ≡ txt "DENY")
    × (get (txt "Referrer-Policy") h ≡ txt "no-referrer")
    × (get (txt "Cache-Control") h ≡ txt "no-store")
    × (get (txt "Strict-Transport-Security") h ≡ (if tls then hsts_value else []))

secured-IsSecured :
    (r : Request) (csp : Text) (tls : Bool)
    → IsSecured csp tls (
        put (txt "Content-Type") (txt "application/json; charset=utf-8") (secured r csp tls).header)
unfolding security_headers set_header put get lookup ◌==◌ txt IsSecured
secured-IsSecured r csp true = (refl, refl, refl, refl, refl, refl)
secured-IsSecured r csp false = (refl, refl, refl, refl, refl, refl)

module _ (crypto : Crypto) (codec : Codec) (tos_codec : TosCodec) (a : OidcAuth)
    (tos : Option Manager) where
  validate-header :
      (r : Request) (now now' : Time) (w : Out)
      → (validate_session_cookie crypto codec a r now now' w).1.header ≡ w.header
  unfolding validate_session_cookie
  validate-header r now now' w = elim (Option-cases (cookie r session_cookie_name)) [
    | inl e ↦ rw (e, validate_session_cookie)
    | inr (token, e) ↦ rw (e, validate_session_cookie) (check_idle-header a r now' _ w)
  ]

  validate-blind :
      (r : Request) (now now' : Time) (w w' : Out)
      → (validate_session_cookie crypto codec a r now now' w).0
        ≡ (validate_session_cookie crypto codec a r now now' w').0
  unfolding validate_session_cookie
  validate-blind r now now' w w' = elim (Option-cases (cookie r session_cookie_name)) [
    | inl e ↦ rw (e, validate_session_cookie)
    | inr (token, e) ↦ rw (e, validate_session_cookie) (check_idle-blind a r now' _ w w')
  ]

  -- The answer to a request below /api/ without a valid session carries every security header: the
  -- content security policy, nosniff, DENY, no-referrer and no-store, and Strict-Transport-Security
  -- where the transport is secure and only there.
  pub handler-IsSecured :
      (hashes : List Text) (tls : Bool) (h : PublicHandlers) (api : Handler) (t : Instants)
      (accepted : Time) (r : Request) (e : SessionError)
      → has_prefix r.path (txt "/api/") ≡ true
      → (validate_session_cookie crypto codec a r t.expiry t.idle fresh).0 ≡ err e
      → IsSecured
          (content_security_policy hashes)
          tls
          (handler crypto codec tos_codec a tos hashes tls h api t accepted r fresh).header
  unfolding handler security_headers
  handler-IsSecured hashes tls h api t accepted r e p invalid =
      rw
        (dispatch_denied crypto codec tos_codec a tos h api t accepted r w e p
          (validate-blind r t.expiry t.idle w fresh ∙ invalid))
        (rw
          (deny_unauthenticated-header r w' p (
            set_cookie-status _ _
            ∙ validate-status crypto codec a r t.expiry t.idle w
            ∙ secured-status r csp tls))
          (rw (set_cookie-header (clear_session_cookie a) v ∙ validate-header r t.expiry t.idle w)
            (secured-IsSecured r csp tls)))
    where
      csp : Text
      csp = content_security_policy hashes

      w : Out
      w = secured r csp tls

      v : Out
      v = (validate_session_cookie crypto codec a r t.expiry t.idle w).1

      w' : Out
      w' = set_cookie (clear_session_cookie a) v
