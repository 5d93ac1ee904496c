-- ===== src/Auth/Flow.antt =====
-- internal/auth/oidc.go: the authorization-code flow. The OAuth2 client, the verifier of ID tokens and
-- the source of random tokens are parameters. The text of an error is left out of the technical records.
pub mod AuthTime
pub mod SignIn
pub mod Callback
pub mod RoundTrip
use atrium_core.Base.{
  ℕ, suc, ◌+◌, ◌-◌, ◌*◌, ◌/◌, Bool, true, false, not, ◌&&◌, ◌||◌, Option, none, some, List, [], ◌∷◌,
  Text, txt, ◌==◌,
}
use atrium_core.Base.{if◌then◌else◌, eqb, ltb, leb, is_empty, ℤ, pos, negsuc, sub_ℕ, lebℤ, ltbℤ}
use atrium_core.Base.Result.{Result, ok, err, ◌>>=◌}
use atrium_core.Crypto.{Crypto}
use atrium_core.Slog.{level_warn, level_error}
use atrium_core.Http.{
  Request, Out, Run, Cookie, lax, cookie, set_cookie, query_get, error, redirect, emit,
}
use atrium_core.Audit.{log, level_audit, event_login, event_login_failed, string_attr, email_key}
use atrium_core.Auth.Next.{safe_next_path, next_of_cookie}
use atrium_core.Auth.Session.{Codec, OidcAuth, Time, Duration, second, create_session_cookie}

abbrev pub cookie_state : Text
cookie_state = txt "oauth_state"

abbrev pub cookie_nonce : Text
cookie_nonce = txt "oauth_nonce"

abbrev pub cookie_pkce : Text
cookie_pkce = txt "oauth_pkce"

abbrev pub cookie_next_path : Text
cookie_next_path = txt "oauth_next"

abbrev pub error_path : Text
error_path = txt "/auth/error"

abbrev pub flow_cookie_path : Text
flow_cookie_path = txt "/auth"

-- Five minutes, in seconds.
abbrev pub flow_ttl : ℕ
flow_ttl = 5 * 60

-- idTokenClaims, less the nonce that only the decoding of the token reads.
pub record IdTokenClaims : Type 0 where
  pub email : Text
  pub email_verified : Bool
  pub acr : Text
  pub auth_time : ℤ

-- A verified ID token: its nonce, and its claims unless they fail to decode.
pub record IdToken : Type 0 where
  pub nonce : Text
  pub claims : Option IdTokenClaims

-- The OAuth2 client and the verifier: the URL of the authorization endpoint for a state, a nonce, a
-- PKCE verifier and an optional max_age; the exchange of a code under a verifier, with the ID token of
-- the answer if it has one; and the verification of a raw ID token. `none` stands for their errors.
pub record Idp : Type 0 where
  pub auth_code_url : (state nonce verifier : Text) → Option ℕ → Text
  pub exchange : (code verifier : Text) → Option (Option Text)
  pub verify : Text → Option IdToken

abbrev pub auth_time_leeway : Duration
auth_time_leeway = 30 * second

-- The seconds from the zero time of package time to the Unix epoch.
abbrev pub unix_epoch : ℕ
unix_epoch = 62135596800

-- The largest time.Duration.
abbrev pub max_duration : ℕ
max_duration = 9223372036854775807

-- time.Since stops at the bounds of a time.Duration.
abbrev pub saturate : ℤ → ℤ
saturate (pos n) = if leb n max_duration then pos n else pos max_duration
saturate (negsuc n) = if leb n max_duration then negsuc n else negsuc max_duration

-- A sum of two durations wraps around.
abbrev pub wrap : ℕ → ℤ
wrap n = if leb n max_duration then pos n else sub_ℕ n (2 * suc max_duration)

-- The nanoseconds from a Unix time to the instant `now`.
abbrev pub since_unix : Time → ℤ → ℤ
since_unix now (pos n) = saturate (sub_ℕ now ((unix_epoch + n) * second))
since_unix now (negsuc n) = saturate (sub_ℕ (now + suc n * second) (unix_epoch * second))

-- An auth_time that the token leaves out is decoded as 0.
abbrev pub is_missing : ℤ → Bool
is_missing (pos n) = eqb n 0
is_missing (negsuc n) = false

-- authTimeFresh, at the instant `now`, for the Unix times that time.Unix represents.
unfoldable pub auth_time_fresh : Time → ℤ → Duration → Bool
auth_time_fresh now at within =
    if is_missing at then false else lebℤ (since_unix now at) (wrap (within + auth_time_leeway))

-- The reasons for which CallbackHandler refuses a sign-in, with what it records of them.
pub data Refusal : Type 0 where
  state_mismatch pkce_missing exchange_failed id_token_missing verification_failed nonce_mismatch
        undecodable_claims :
      Refusal
  provider_error : (code description : Text) → Refusal
  email_not_verified : Text → Refusal
  email_missing : Refusal
  mfa_missing : (email acr : Text) → Refusal
  auth_too_old : Text → Refusal

-- A value that has to be there, and a test that has to hold.
unfoldable pub present : {A : Type 0} → Option A → Refusal → Result Refusal A
present none e = err e
present (some v) e = ok v

-- The set of acr values is a list.
abbrev pub member : Text → List Text → Bool
member t [] = false
member t (u ∷ l) = t == u || member t l

abbrev pub no_values : List Text → Bool
no_values [] = true
no_values (t ∷ l) = false

-- What a successful sign-in rests on: the claims, and the raw ID token.
pub record SignedIn : Type 0 where
  pub claims : IdTokenClaims
  pub raw_id_token : Text

unfoldable pub guard : {A : Type 0} → Bool → Refusal → Result Refusal A → Result Refusal A
guard true e k = k
guard false e k = err e

module _ (a : OidcAuth) where
  -- setFlowCookie
  unfoldable pub set_flow_cookie : Text → Text → Run
  set_flow_cookie name value = set_cookie (record {
    name = name;
    value = value;
    path = flow_cookie_path;
    max_age = pos flow_ttl;
    http_only = true;
    secure = a.secure_cookies;
    same_site = lax;
  })

  -- The cookie by which clearFlowCookies removes one of the flow's cookies.
  abbrev pub cleared : Text → Cookie
  cleared name = record {
    name = name;
    value = [];
    path = flow_cookie_path;
    max_age = negsuc 0;
    http_only = true;
    secure = a.secure_cookies;
    same_site = lax;
  }

  -- clearFlowCookies
  unfoldable pub clear_flow_cookies : Run
  clear_flow_cookies w =
      let w₁ = set_cookie (cleared cookie_state) w in
      let w₂ = set_cookie (cleared cookie_nonce) w₁ in
      let w₃ = set_cookie (cleared cookie_pkce) w₂ in set_cookie (cleared cookie_next_path) w₃

  -- serverError
  unfoldable pub server_error : Text → Run
  server_error message w =
      error (txt "internal server error") 500 (emit a.logger level_error message [] w)

  -- authError
  unfoldable pub auth_error : Run
  auth_error = redirect error_path 303

  -- The max_age that LoginHandler asks for, in whole seconds.
  abbrev pub max_age_of : Option ℕ
  max_age_of = if ltb 0 a.session_idle_ttl then some (a.session_idle_ttl / second) else none

  module _ (idp : Idp) where
    -- LoginHandler, with the random tokens for state and nonce, `none` for a failure of the source.
    unfoldable pub login_handler : Option Text → Option Text → Text → Request → Run
    login_handler none n verifier r w = server_error (txt "generate state") w
    login_handler (some state) none verifier r w = server_error (txt "generate nonce") w
    login_handler (some state) (some value) verifier r w =
        let next = safe_next_path (query_get r (txt "next")) in
        let w₁ = set_flow_cookie cookie_state state w in
        let w₂ = set_flow_cookie cookie_nonce value w₁ in
        let w₃ = set_flow_cookie cookie_pkce verifier w₂ in
        let w₄ = if is_empty next then w₃ else set_flow_cookie cookie_next_path next w₃ in
        redirect (idp.auth_code_url state value verifier max_age_of) 302 w₄

    -- The checks of the claims.
    unfoldable pub check_claims : Time → IdTokenClaims → Text → Result Refusal SignedIn
    check_claims now c raw =
        guard (not a.require_email_verified || c.email_verified) (email_not_verified c.email) (
          guard (not (is_empty c.email)) email_missing (
            guard (no_values a.mfa_acr || member c.acr a.mfa_acr) (mfa_missing c.email c.acr) (
              guard
                (not (ltb 0 a.session_idle_ttl)
                  || auth_time_fresh now c.auth_time a.session_idle_ttl)
                (auth_too_old c.email) (ok (record { claims = c; raw_id_token = raw })))))

    -- From the exchange of the code to the claims.
    unfoldable pub redeem : Request → Time → Text → Result Refusal SignedIn
    redeem r now verifier = do
      token ← present (idp.exchange (query_get r (txt "code")) verifier) exchange_failed
      raw ← present token id_token_missing
      id ← present (idp.verify raw) verification_failed
      nonce ← present (cookie r cookie_nonce) nonce_mismatch
      guard (nonce == id.nonce) nonce_mismatch
          (present id.claims undecodable_claims >>= λ c. check_claims now c raw)

    -- The checks of CallbackHandler, in their order, at the instant `now` of the last one.
    unfoldable pub sign_in : Request → Time → Result Refusal SignedIn
    sign_in r now = do
      state ← present (cookie r cookie_state) state_mismatch
      guard (state == query_get r (txt "state")) state_mismatch (
          guard (is_empty (query_get r (txt "error")))
            (provider_error (query_get r (txt "error")) (query_get r (txt "error_description")))
            (present (cookie r cookie_pkce) pkce_missing >>= redeem r now))

  -- The record of a refusal.
  unfoldable pub record_refusal : Request → Refusal → Run
  record_refusal r state_mismatch =
      emit a.logger level_warn (txt "oauth state missing or mismatched") []
  record_refusal r (provider_error code description) =
      emit a.logger level_warn (txt "oidc provider returned error")
        (string_attr (txt "error") code ∷ string_attr (txt "description") description ∷ [])
  record_refusal r pkce_missing = emit a.logger level_warn (txt "pkce verifier cookie missing") []
  record_refusal r exchange_failed = emit a.logger level_warn (txt "code exchange failed") []
  record_refusal r id_token_missing =
      emit a.logger level_warn (txt "token response missing id_token") []
  record_refusal r verification_failed =
      emit a.logger level_warn (txt "id_token verification failed") []
  record_refusal r nonce_mismatch =
      emit a.logger level_warn (txt "oidc nonce missing or mismatched") []
  record_refusal r undecodable_claims =
      emit a.logger level_warn (txt "id_token claims decode failed") []
  record_refusal r (email_not_verified email) =
      log a.logger r level_audit event_login_failed
        (string_attr email_key email ∷ string_attr (txt "reason") (txt "email_not_verified") ∷ [])
  record_refusal r email_missing =
      log a.logger r level_audit event_login_failed
        (string_attr (txt "reason") (txt "email_missing") ∷ [])
  record_refusal r (mfa_missing email acr) = log a.logger r level_audit event_login_failed (
      string_attr email_key email
      ∷ string_attr (txt "reason") (txt "mfa_missing")
      ∷ string_attr (txt "acr") acr
      ∷ [])
  record_refusal r (auth_too_old email) =
      log a.logger r level_audit event_login_failed
        (string_attr email_key email ∷ string_attr (txt "reason") (txt "auth_too_old") ∷ [])

  -- The end of CallbackHandler, with the cookie of the new session, `none` for the error of its making.
  unfoldable pub start_session : Request → SignedIn → Option Cookie → Run
  start_session r s none w = server_error (txt "create session") w
  start_session r s (some c) w = redirect (next_of_cookie (cookie r cookie_next_path)) 302 (
      log a.logger r level_audit event_login
        (string_attr email_key s.claims.email ∷ string_attr (txt "acr") s.claims.acr ∷ [])
        (set_cookie c w))

  module _ (crypto : Crypto) (codec : Codec) where
    -- What CallbackHandler does with the outcome of its checks; the session starts at `now`.
    unfoldable pub finish_callback : Request → Time → Time → Result Refusal SignedIn → Run
    finish_callback r now now' (err e) w = auth_error (record_refusal r e w)
    finish_callback r now now' (ok s) w =
        start_session r s
          (create_session_cookie crypto codec a s.claims.email s.raw_id_token now now') w

    -- CallbackHandler; its three instants are those of the authTimeFresh check and of createSessionCookie.
    unfoldable pub callback_handler : Idp → Request → Time → Time → Time → Run
    callback_handler idp r checked now now' w =
        finish_callback r now now' (sign_in idp r checked) (clear_flow_cookies w)
