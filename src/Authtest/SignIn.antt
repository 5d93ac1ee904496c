-- ===== src/Authtest/SignIn.antt =====
-- A sign-in of the unit tests comes to its end, and what its ID tokens say.
use atrium_core.Base.{
  ℕ, ◌≡◌, refl, ap, ◌∙◌, some, List, [], ◌∷◌, ◌++◌, Text, txt, ◌==◌, get, lookup, Option-cases, inl,
  inr, arith,
}
use atrium_core.Base.Result.{ok}
use atrium_core.Crypto.{Crypto}
use atrium_core.Http.{
  Cookie, sanitized, str, fresh, query_get, set_cookie, redirect, set_header, write_header,
}
use atrium_core.Auth.Next.{safe_next_path}
use atrium_core.Auth.Middleware.{login_path}
use atrium_core.Auth.Session
use atrium_core.Auth.Session.Issue.{started}
use atrium_core.Auth.Session.{
  Codec, SessionData, sign_and_encode, OidcAuth, Time, create_session_cookie, session_cookie_name,
}
use atrium_core.Auth.Flow.{
  Idp, IdTokenClaims, cookie_state, cookie_nonce, set_flow_cookie, login_handler, callback_handler,
  check_claims,
}
use atrium_core.SignedCookie.Written.{sanitized_same}
use atrium_core.Auth.Flow.Callback.{IsRedirect, flow_cleared}
use atrium_core.Auth.Flow.RoundTrip.{AreTokens, carried, returned, login-callback}
use atrium_core.Authtest.{
  Provider, Claims, merged, base_claims, claims_for, added, last_value, find_cookie, logged_in,
  callback_request, test_request, session_cookie,
}

-- The nonce of a token is the one that is set.
pub merged-claims_for :
    (p : Provider) (email value : Text) (now now' : ℕ)
    → merged (claims_for email value) (base_claims p now now') (txt "nonce") ≡ some (str value)
unfolding claims_for ◌==◌ txt
merged-claims_for p email value now now' = refl

added-carried : (l : List Cookie) → added l ≡ carried l
unfolding added
added-carried [] = refl
added-carried (c ∷ l) = ap (λ t. (c.name, c.value) ∷ t) (added-carried l)

find_session :
    (a : OidcAuth) (session : Cookie)
    → session.name ≡ session_cookie_name
    → find_cookie session_cookie_name (flow_cleared a ++ session ∷ []) ≡ some session
unfolding find_cookie ◌==◌ txt
find_session a session e = rw e refl

named :
    (crypto : Crypto) (codec : Codec) (a : OidcAuth) (d : SessionData) (now : Time)
    (session : Cookie)
    → Session.session_cookie crypto codec a d now ≡ some session
    → session.name ≡ session_cookie_name
unfolding Session.session_cookie sign_and_encode
named crypto codec a d now session h = elim (Option-cases (codec.marshal d)) [
  | inl e ↦ absurd (cc (rw (e, Session.session_cookie) at h))
  | inr (payload, e) ↦ ground arith
]

session_cookie_name_of :
    (crypto : Crypto) (codec : Codec) (a : OidcAuth) (email raw : Text) (now now' : Time)
    (session : Cookie)
    → create_session_cookie crypto codec a email raw now now' ≡ some session
    → session.name ≡ session_cookie_name
unfolding create_session_cookie
session_cookie_name_of crypto codec a email raw now now' session h =
    named crypto codec a (started a email raw now) now' session h

module _ (crypto : Crypto) (codec : Codec) (a : OidcAuth) (idp : Claims → Idp) where
  -- The cookies of a login do not depend on the identity provider.
  flow_set :
      (old new : Claims) (state value verifier : Text)
      → (logged_in crypto codec a idp old (some state) (some value) verifier).cookies
        ≡ (logged_in crypto codec a idp new (some state) (some value) verifier).cookies
  unfolding login_handler set_flow_cookie set_cookie redirect set_header write_header safe_next_path
      query_get get lookup
  flow_set old new state value verifier = refl

  state_found :
      (old : Claims) (state value verifier : Text)
      → last_value cookie_state []
          (logged_in crypto codec a idp old (some state) (some value) verifier).cookies
        ≡ sanitized state
  unfolding login_handler set_flow_cookie set_cookie redirect set_header write_header safe_next_path
      query_get get lookup last_value ◌==◌ txt
  state_found old state value verifier = refl

  nonce_found :
      (old : Claims) (state value verifier : Text)
      → last_value cookie_nonce []
          (logged_in crypto codec a idp old (some state) (some value) verifier).cookies
        ≡ sanitized value
  unfolding login_handler set_flow_cookie set_cookie redirect set_header write_header safe_next_path
      query_get get lookup last_value ◌==◌ txt
  nonce_found old state value verifier = refl

  -- A test that asks for the session of an email gets the cookie that CallbackHandler makes, where the
  -- provider answers the code "abc" by a token with the claims that the test has set and the gateway accepts
  -- them; the tokens of the flow hold only bytes that a cookie keeps.
  pub session_cookie_made :
      (old : Claims) (state value verifier email raw : Text) (c : IdTokenClaims) (session : Cookie)
      (checked now now' : Time)
      → AreTokens state value verifier
      → (idp (claims_for email value)).exchange (txt "abc") verifier ≡ some (some raw)
      → (idp (claims_for email value)).verify raw ≡ some (record { nonce = value; claims = some c })
      → check_claims a (idp (claims_for email value)) checked c raw
        ≡ ok (record { claims = c; raw_id_token = raw })
      → create_session_cookie crypto codec a c.email raw now now' ≡ some session
      → session_cookie crypto codec a idp old
          (some state)
          (some value)
          verifier
          email
          checked
          now
          now'
        ≡ some session
  unfolding session_cookie query_get get lookup ◌==◌ txt safe_next_path
  session_cookie_made old state value verifier email raw c session checked now now' tokens x v k
        made =
      let flow = (logged_in crypto codec a idp old (some state) (some value) verifier).cookies in
      let back = callback_request crypto codec a idp flow state in
      let done : IsRedirect 302 (returned []) (flow_cleared a ++ session ∷ []) (
          callback_handler a crypto codec (idp (claims_for email value)) back checked now now'
            fresh) =
        login-callback a (idp (claims_for email value)) crypto codec state value verifier raw c
          session (test_request login_path [] [] []) back checked now now' tokens tt tt
          (added-carried flow
            ∙ ap carried (flow_set old (claims_for email value) state value verifier))
          refl refl x v k made in
      rw
        (
          nonce_found old state value verifier,
          sanitized_same value tokens.nonce_kept,
          state_found old state value verifier,
          sanitized_same state tokens.state_kept,
          done.holds,
        )
        (find_session a session
          (session_cookie_name_of crypto codec a c.email raw now now' session made))
