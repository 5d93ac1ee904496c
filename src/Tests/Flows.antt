-- ===== src/Tests/Flows.antt =====
-- The authorization-code flow at concrete inputs.
use atrium_core.Base.{
  ℕ, ◌+◌, ◌*◌, ◌≡◌, ◌↔◌, refl, true, false, none, some, [], ◌∷◌, ◌++◌, Text, txt, ◌==◌, lookup, get,
  pos, arith, All, if◌then◌else◌,
}
use atrium_core.Base.Result.{ok, err}
use atrium_core.Http.{sanitized, Request, fresh, cookie, query_get, Cookie}
use atrium_core.Auth.Session.{
  second, cookie_of, create_session_cookie, session_cookie, sign_and_encode,
}
use atrium_core.Auth.Session.Issue.{started}
use atrium_core.Auth.Flow.{
  Idp, IdTokenClaims, SignedIn, state_mismatch, cookie_state, cookie_nonce, cookie_pkce,
  cookie_next_path, sign_in, redeem, check_claims, present, guard, auth_time_fresh,
  callback_handler, unix_epoch, max_duration, error_path,
}
use atrium_core.Auth.Flow.AuthTime.{auth_time_fresh-overflow}
use atrium_core.Auth.Flow.SignIn.{sign_in_iff, IsSignIn}
use atrium_core.Auth.Flow.Callback.{IsRedirect, flow_cleared, callback_handler-refused}
use atrium_core.Url.Bytes.{IsByte}
use atrium_core.Auth.Flow.{login_handler}
use atrium_core.Auth.Flow.RoundTrip.{
  AreTokens, carried, returned, login-callback, login-callback-IsLocal,
}
use atrium_core.SignedCookie.Written.{IsCookieByte}
use atrium_core.Path.Laws.{IsLocal}
use atrium_core.Auth.Next.{safe_next_path}
use atrium_core.Url.{
  parse_rooted, parse_parts, set_path, unescape, escaped_path, escape, escape_byte,
}
use atrium_core.Strings.{cut_or}
use atrium_core.Tests.{crypto, gateway, codec, anonymous, session_token}

-- A provider that knows one code.
abbrev claims : IdTokenClaims
claims = record { email = txt "a@b"; email_verified = true; acr = txt "2"; auth_time = pos 900 }

abbrev idp : Idp
idp = record {
  auth_code_url = λ state n verifier max_age. txt "https://idp/auth";
  exchange = λ code verifier. if code == txt "c" then some (some (txt "jwt")) else none;
  verify = λ raw. some (record { nonce = txt "n"; claims = some claims });
}

abbrev back : Text → Request
back state = record (anonymous (txt "/auth/callback")) {
  query = (txt "state", state) ∷ (txt "code", txt "c") ∷ [];
  cookies =
      (cookie_state, txt "s")
      ∷ (cookie_nonce, txt "n")
      ∷ (cookie_pkce, txt "v")
      ∷ (cookie_next_path, txt "/a")
      ∷ [];
}

abbrev checked : ℕ
checked = (unix_epoch + 1000) * second

abbrev person : SignedIn
person = record { claims = claims; raw_id_token = txt "jwt" }

sign_in_iff_example :
    (sign_in gateway idp (back (txt "s")) checked ≡ ok person)
    ↔ IsSignIn gateway idp (back (txt "s")) checked person
sign_in_iff_example = sign_in_iff gateway idp (back (txt "s")) checked person

signed : sign_in gateway idp (back (txt "s")) checked ≡ ok person
unfolding sign_in redeem check_claims present guard auth_time_fresh cookie query_get get lookup ◌==◌
    txt
signed = refl

forged : sign_in gateway idp (back (txt "x")) checked ≡ err state_mismatch
unfolding sign_in present guard cookie query_get get lookup ◌==◌ txt
forged = refl

callback_handler-refused_example :
    IsRedirect 303 error_path
      (flow_cleared gateway)
      (callback_handler gateway crypto codec idp (back (txt "x")) checked checked checked fresh)
callback_handler-refused_example =
    callback_handler-refused crypto codec gateway idp (back (txt "x")) checked checked checked fresh
      state_mismatch refl refl forged

abbrev issued : Cookie
issued = cookie_of gateway checked (started gateway (txt "a@b") (txt "jwt") checked) session_token

issued_cookie :
    create_session_cookie crypto codec gateway (txt "a@b") (txt "jwt") checked checked ≡ some issued
unfolding create_session_cookie sign_and_encode session_cookie
issued_cookie = refl

auth_time_fresh-overflow_example : auth_time_fresh checked (pos 1000) max_duration ≡ false
auth_time_fresh-overflow_example =
    auth_time_fresh-overflow checked 1000 max_duration (omega arith) (omega arith) (omega arith)

-- The request by which the sign-in began, and the callback with the cookies that it was set.
abbrev begun : Request
begun = record (anonymous (txt "/auth/login")) { query = (txt "next", txt "/a") ∷ [] }

abbrev returning : Request
returning = record (anonymous (txt "/auth/callback")) {
  query = (txt "state", txt "s") ∷ (txt "code", txt "c") ∷ [];
  cookies =
      carried
        (login_handler gateway idp (some (txt "s")) (some (txt "n")) (txt "v") begun fresh).cookies;
}

next_bytes : All IsByte (query_get begun (txt "next"))
unfolding query_get get lookup ◌==◌ txt
next_bytes = omega arith

same_state : query_get returning (txt "state") ≡ txt "s"
unfolding query_get get lookup ◌==◌ txt
same_state = refl

no_error : query_get returning (txt "error") ≡ []
unfolding query_get get lookup ◌==◌ txt
no_error = refl

exchanged : idp.exchange (query_get returning (txt "code")) (txt "v") ≡ some (some (txt "jwt"))
unfolding query_get get lookup ◌==◌ txt
exchanged = refl

claims_pass : check_claims gateway idp checked claims (txt "jwt") ≡ ok person
unfolding check_claims guard auth_time_fresh ◌==◌ txt
claims_pass = refl

tokens : AreTokens (txt "s") (txt "n") (txt "v")
unfolding txt
tokens = record { state_kept = (refl, tt); nonce_kept = (refl, tt); verifier_kept = (refl, tt) }

next_kept : All IsCookieByte (safe_next_path (query_get begun (txt "next")))
unfolding query_get get lookup ◌==◌ txt safe_next_path parse_rooted parse_parts set_path unescape
    escaped_path escape escape_byte cut_or
next_kept = (refl, (refl, tt))

login-callback_example :
    IsRedirect 302
      (returned (query_get begun (txt "next")))
      (flow_cleared gateway ++ issued ∷ [])
      (callback_handler gateway crypto codec idp returning checked checked checked fresh)
login-callback_example =
    login-callback gateway idp crypto codec (txt "s") (txt "n") (txt "v") (txt "jwt") claims issued
      begun returning checked checked checked tokens next_bytes next_kept refl same_state no_error
      exchanged refl claims_pass issued_cookie

-- A cookie does not keep a semicolon.
semicolon : sanitized (txt "/a;b") ≡ txt "/ab"
unfolding txt
semicolon = refl

-- A sign-in that was asked to return to a path with an escaped slash and a byte that a cookie drops.
abbrev tempted : Request
tempted = record (anonymous (txt "/auth/login")) { query = (txt "next", txt "/;/%2Fh|") ∷ [] }

abbrev tempted_back : Request
tempted_back = record returning {
  cookies =
      carried
        (login_handler gateway idp (some (txt "s")) (some (txt "n")) (txt "v") tempted
          fresh).cookies;
}

tempted_bytes : All IsByte (query_get tempted (txt "next"))
unfolding query_get get lookup ◌==◌ txt
tempted_bytes = omega arith

tempted_state : query_get tempted_back (txt "state") ≡ txt "s"
unfolding query_get get lookup ◌==◌ txt
tempted_state = refl

tempted_error : query_get tempted_back (txt "error") ≡ []
unfolding query_get get lookup ◌==◌ txt
tempted_error = refl

tempted_code :
    idp.exchange (query_get tempted_back (txt "code")) (txt "v") ≡ some (some (txt "jwt"))
unfolding query_get get lookup ◌==◌ txt
tempted_code = refl

login-callback-IsLocal_example : IsLocal (
    get
      (txt "Location")
      (callback_handler gateway crypto codec idp tempted_back checked checked checked fresh).header)
login-callback-IsLocal_example =
    login-callback-IsLocal gateway idp crypto codec (txt "s") (txt "n") (txt "v") (txt "jwt") claims
      issued tempted tempted_back checked checked checked tokens tempted_bytes refl tempted_state
      tempted_error tempted_code refl claims_pass issued_cookie
