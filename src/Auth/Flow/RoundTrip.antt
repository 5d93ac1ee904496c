-- ===== src/Auth/Flow/RoundTrip.antt =====
-- A whole sign-in: the login handler, the browser that carries its cookies, and the callback.
use mathlib.Core.Path.{subst}
use atrium_core.Base.{
  ◌≡◌, refl, sym, get, ap, ◌∙◌, some, List, [], ◌∷◌, ◌++◌, Text, txt, ◌==◌, ==_refl, lookup, All,
  is_empty, if◌then◌else◌,
}
use atrium_core.Base.Result.{ok}
use atrium_core.Strings.{has_prefix}
use atrium_core.Crypto.{Crypto}
use atrium_core.Url.Bytes.{IsByte}
use atrium_core.Http.{
  Request, Cookie, fresh, cookie, set_cookie, query_get, redirect, sanitized, set_header,
  write_header,
}
use atrium_core.Auth.Next.{safe_next_path, next_of_cookie, or_root}
use atrium_core.Path.Laws.{IsLocal}
use atrium_core.SignedCookie.Written.{IsCookieByte, sanitized_same}
use atrium_core.Auth.Next.Carried.{sanitized-IsLocal}
use atrium_core.Auth.Next.Twice.{safe_next_path_twice}
use atrium_core.Auth.Session.{Codec, OidcAuth, Time, create_session_cookie}
use atrium_core.Auth.Flow.{
  Idp, IdTokenClaims, cookie_state, cookie_nonce, cookie_pkce, cookie_next_path, set_flow_cookie,
  present, guard, login_handler, check_claims, redeem, sign_in, callback_handler,
}
use atrium_core.Auth.Flow.Callback.{IsRedirect, flow_cleared, callback_handler-signed_in}

-- What a browser sends back of the cookies that it was set.
abbrev pub carried : List Cookie → List (Text × Text)
carried [] = []
carried (c ∷ l) = (c.name, c.value) ∷ carried l

-- Where a sign-in that was asked to return to `raw` ends.
abbrev pub returned : Text → Text
returned raw =
    let next = safe_next_path raw in
    or_root (if has_prefix next (b'/' ∷ b'/' ∷ []) then [] else next)

abbrev next_cookie : Text → List (Text × Text)
next_cookie next = if is_empty next then [] else (cookie_next_path, sanitized next) ∷ []

-- The cookies of a flow, as the browser sends them.
abbrev flow_cookies : (state value verifier next : Text) → List (Text × Text)
flow_cookies state value verifier next =
    (cookie_state, sanitized state)
    ∷ (cookie_nonce, sanitized value)
    ∷ (cookie_pkce, sanitized verifier)
    ∷ next_cookie next

-- The tokens of a flow hold only bytes that a cookie keeps, as those of base64url do.
pub record AreTokens (state value verifier : Text) : Type 0 where
  pub state_kept : All IsCookieByte state
  pub nonce_kept : All IsCookieByte value
  pub verifier_kept : All IsCookieByte verifier

safe_nil : safe_next_path [] ≡ []
unfolding safe_next_path
safe_nil = refl

module _ (a : OidcAuth) (idp : Idp) where
  login_cookies :
      (state value verifier : Text) (r : Request)
      → carried (login_handler a idp (some state) (some value) verifier r fresh).cookies
        ≡ flow_cookies state value verifier (safe_next_path (query_get r (txt "next")))
  unfolding login_handler set_flow_cookie set_cookie redirect set_header write_header
  login_cookies state value verifier r = by_next (safe_next_path (query_get r (txt "next"))) refl
    where
      by_next :
          (next : Text)
          → safe_next_path (query_get r (txt "next")) ≡ next
          → carried (login_handler a idp (some state) (some value) verifier r fresh).cookies
            ≡ flow_cookies state value verifier (safe_next_path (query_get r (txt "next")))
      by_next [] e = rw e refl
      by_next (c ∷ next) e = rw e refl

  module _ (state value verifier next : Text) (r : Request) where
    state_carried :
        r.cookies ≡ flow_cookies state value verifier next
        → cookie r cookie_state ≡ some (sanitized state)
    unfolding cookie lookup ◌==◌ txt
    state_carried e = rw e refl

    nonce_carried :
        r.cookies ≡ flow_cookies state value verifier next
        → cookie r cookie_nonce ≡ some (sanitized value)
    unfolding cookie lookup ◌==◌ txt
    nonce_carried e = rw e refl

    verifier_carried :
        r.cookies ≡ flow_cookies state value verifier next
        → cookie r cookie_pkce ≡ some (sanitized verifier)
    unfolding cookie lookup ◌==◌ txt
    verifier_carried e = rw e refl

  next_carried :
      (state value verifier next : Text) (r : Request)
      → r.cookies ≡ flow_cookies state value verifier next
      → next_of_cookie (cookie r cookie_next_path) ≡ or_root (safe_next_path (sanitized next))
  unfolding cookie lookup ◌==◌ txt next_of_cookie
  next_carried state value verifier [] r e = rw (e, safe_nil) refl
  next_carried state value verifier (c ∷ next) r e = rw e refl

  sign_in_carried :
      (state value verifier next raw : Text) (c : IdTokenClaims) (r : Request) (now : Time)
      → AreTokens state value verifier
      → r.cookies ≡ flow_cookies state value verifier next
      → query_get r (txt "state") ≡ state
      → query_get r (txt "error") ≡ []
      → idp.exchange (query_get r (txt "code")) verifier ≡ some (some raw)
      → idp.verify raw ≡ some (record { nonce = value; claims = some c })
      → sign_in a idp r now ≡ check_claims a idp now c raw
  unfolding sign_in redeem present guard
  sign_in_carried state value verifier next raw c r now k e s x t v =
      rw
        (
          state_carried state value verifier next r e,
          sanitized_same state k.state_kept,
          s,
          ==_refl state,
          x,
          verifier_carried state value verifier next r e,
          sanitized_same verifier k.verifier_kept,
          t,
          v,
          nonce_carried state value verifier next r e,
          sanitized_same value k.nonce_kept,
          ==_refl value,
        )
        refl

  module _ (crypto : Crypto) (codec : Codec) (state value verifier raw : Text) (c : IdTokenClaims)
      (session : Cookie) (start r : Request) (checked now now' : Time) where
    -- The end of a sign-in, at the path that comes back in the cookie.
    signed_in :
        AreTokens state value verifier
        → r.cookies
          ≡ carried (login_handler a idp (some state) (some value) verifier start fresh).cookies
        → query_get r (txt "state") ≡ state
        → query_get r (txt "error") ≡ []
        → idp.exchange (query_get r (txt "code")) verifier ≡ some (some raw)
        → idp.verify raw ≡ some (record { nonce = value; claims = some c })
        → check_claims a idp checked c raw ≡ ok (record { claims = c; raw_id_token = raw })
        → create_session_cookie crypto codec a c.email raw now now' ≡ some session
        → IsRedirect 302
            (or_root (safe_next_path (sanitized (safe_next_path (query_get start (txt "next"))))))
            (flow_cleared a ++ session ∷ [])
            (callback_handler a crypto codec idp r checked now now' fresh)
    signed_in tokens cookies s x t v k made =
        let next = safe_next_path (query_get start (txt "next")) in
        let e : r.cookies ≡ flow_cookies state value verifier next =
          cookies ∙ login_cookies state value verifier start in
        subst
          (λ target.
            IsRedirect 302 target (flow_cleared a ++ session ∷ [])
              (callback_handler a crypto codec idp r checked now now' fresh))
          (next_carried state value verifier next r e)
          (callback_handler-signed_in crypto codec a idp r checked now now' fresh
            (record { claims = c; raw_id_token = raw }) session refl refl
            (sign_in_carried state value verifier next raw c r checked tokens e s x t v ∙ k) made)

    -- A sign-in comes to its end. The browser brings the cookies that the login handler set to the
    -- callback, as http.SetCookie wrote them, with the same state, a code and no error; the tokens of the
    -- flow hold only bytes that a cookie keeps; the identity provider gives an ID token for the code under
    -- the PKCE verifier of the flow, which verifies, with the nonce of the flow and claims that pass the
    -- checks; and the session cookie can be made. Then the callback sets it, removes the cookies of the flow,
    -- and redirects to the path that the login was asked for, made safe, or to the root, where a cookie keeps
    -- every byte of that path.
    pub login-callback :
        AreTokens state value verifier
        → All IsByte (query_get start (txt "next"))
        → All IsCookieByte (safe_next_path (query_get start (txt "next")))
        → r.cookies
          ≡ carried (login_handler a idp (some state) (some value) verifier start fresh).cookies
        → query_get r (txt "state") ≡ state
        → query_get r (txt "error") ≡ []
        → idp.exchange (query_get r (txt "code")) verifier ≡ some (some raw)
        → idp.verify raw ≡ some (record { nonce = value; claims = some c })
        → check_claims a idp checked c raw ≡ ok (record { claims = c; raw_id_token = raw })
        → create_session_cookie crypto codec a c.email raw now now' ≡ some session
        → IsRedirect 302
            (returned (query_get start (txt "next")))
            (flow_cleared a ++ session ∷ [])
            (callback_handler a crypto codec idp r checked now now' fresh)
    login-callback tokens bytes kept cookies s x t v k made =
        subst
          (λ target.
            IsRedirect 302 target (flow_cleared a ++ session ∷ [])
              (callback_handler a crypto codec idp r checked now now' fresh))
          (ap (λ n. or_root (safe_next_path n)) (sanitized_same _ kept)
            ∙ ap or_root (safe_next_path_twice _ bytes))
          (signed_in tokens cookies s x t v k made)

    -- Whatever bytes the login was asked to return to, the Location at the end of such a sign-in begins with
    -- one slash that neither a slash nor a backslash follows.
    pub login-callback-IsLocal :
        AreTokens state value verifier
        → All IsByte (query_get start (txt "next"))
        → r.cookies
          ≡ carried (login_handler a idp (some state) (some value) verifier start fresh).cookies
        → query_get r (txt "state") ≡ state
        → query_get r (txt "error") ≡ []
        → idp.exchange (query_get r (txt "code")) verifier ≡ some (some raw)
        → idp.verify raw ≡ some (record { nonce = value; claims = some c })
        → check_claims a idp checked c raw ≡ ok (record { claims = c; raw_id_token = raw })
        → create_session_cookie crypto codec a c.email raw now now' ≡ some session
        → IsLocal (
            get
              (txt "Location")
              (callback_handler a crypto codec idp r checked now now' fresh).header)
    login-callback-IsLocal tokens bytes cookies s x t v k made =
        subst IsLocal (sym (signed_in tokens cookies s x t v k made).leads)
          (sanitized-IsLocal (query_get start (txt "next")) bytes)
