-- ===== src/Tests/Sessions.antt =====
-- Sessions and consent at concrete inputs.
use atrium_core.Base.{
  ◌+◌, ◌*◌, ◌≤◌, ◌≡◌, ◌↔◌, ◌≢◌, refl, true, ◌&&◌, none, some, Text, txt, ◌==◌, lookup, All, arith,
}
use atrium_core.Base.Result.{ok}
use atrium_core.Strings.{cut, itoa}
use atrium_core.Base64.{encode, decode, decode_quanta, skip_newlines, digit, value}
use atrium_core.SignedCookie.{seal, open_token, check_signature}
use atrium_core.Http.{fresh, set_header, cookie, Cookie}
use atrium_core.Url.Bytes.{IsByte}
use atrium_core.Auth.Session.{
  second, OidcAuth, SessionData, session_cookie_name, last_activity, seconds_until,
  session_deadline, create_session_cookie, sign_and_encode, session_cookie, cookie_of,
  validate_session_cookie, decode_and_verify, check_idle,
}
use atrium_core.Auth.Session.Validate.{
  validate_session_cookie_iff, validate-le-session_deadline, IsAdmitted,
}
use atrium_core.Auth.Session.Issue.{validate-create, started, IsFaithful}
use atrium_core.Auth.Middleware.{Instants, touch_session, session_expires_header}
use atrium_core.Auth.Middleware.Touch.{touch_session-deadline, touch_session-short_idle}
use atrium_core.Tos.{Manager, check_acceptance, acceptance, acceptance_cookie_name, hash_email}
use atrium_core.Tos.Acceptance
use atrium_core.Tos.Acceptance.{HasConsent, check_acceptance_iff, check_acceptance-acceptance}
use atrium_core.Auth.Middleware.{logout_handler}
use atrium_core.Auth.Middleware.Logout.{logout_handler-IsRedirect, logout_target}
use atrium_core.Auth.Flow.Callback.{IsRedirect}
use atrium_core.Auth.Session.{clear_session_cookie}
use atrium_core.Base.{◌++◌, ◌∷◌, []}
use atrium_core.Tests.{
  crypto, crypto-IsByteValued, gateway, session, codec, instants, signed_in, consented, manager,
  tos_codec, session_token,
}

payload_bytes : All IsByte (txt "{}")
unfolding txt
payload_bytes = omega arith

validate_session_cookie_iff_example :
    ((validate_session_cookie crypto codec gateway
        (signed_in (txt "/api/me"))
        (1100 * second)
        (1101 * second)
        fresh).0
      ≡ ok session)
    ↔ IsAdmitted crypto codec gateway
        (signed_in (txt "/api/me"))
        (1100 * second)
        (1101 * second)
        session
validate_session_cookie_iff_example =
    validate_session_cookie_iff crypto codec gateway (signed_in (txt "/api/me")) (1100 * second)
      (1101 * second) fresh session

pub valid :
    (validate_session_cookie crypto codec gateway
      (signed_in (txt "/api/me"))
      instants.expiry
      instants.idle
      fresh).0
    ≡ ok session
unfolding validate_session_cookie cookie lookup ◌==◌ txt decode_and_verify open_token
    check_signature cut seal encode decode decode_quanta skip_newlines digit value check_idle
    last_activity
valid = refl

pub consented_valid :
    (validate_session_cookie crypto codec gateway
      (consented (txt "/api/me"))
      instants.expiry
      instants.idle
      fresh).0
    ≡ ok session
unfolding validate_session_cookie cookie lookup ◌==◌ txt decode_and_verify open_token
    check_signature cut seal encode decode decode_quanta skip_newlines digit value check_idle
    last_activity
consented_valid = refl

validate-le-session_deadline_example : instants.expiry ≤ session_deadline gateway session
validate-le-session_deadline_example =
    validate-le-session_deadline crypto codec gateway (signed_in (txt "/api/me")) instants.expiry
      instants.idle fresh session (omega arith) valid

issued : Cookie
issued =
    cookie_of gateway (1000 * second) (started gateway (txt "a@b") (txt "jwt") (1000 * second))
      session_token

issued_cookie :
    create_session_cookie crypto codec gateway
      (txt "a@b")
      (txt "jwt")
      (1000 * second)
      (1000 * second)
    ≡ some issued
unfolding create_session_cookie sign_and_encode session_cookie issued
issued_cookie = refl

presented : cookie (signed_in (txt "/")) session_cookie_name ≡ some issued.value
unfolding cookie lookup ◌==◌ txt issued
presented = refl

written_bytes : (payload : Text) → some (txt "{}") ≡ some payload → All IsByte payload
written_bytes payload e = let same : txt "{}" ≡ payload = cc in rw (← same) payload_bytes

faithful : IsFaithful codec (started gateway (txt "a@b") (txt "jwt") (1000 * second))
faithful = record { reads = λ payload e. refl; bytes = λ payload e. written_bytes payload e }

validate-create_example :
    (validate_session_cookie crypto codec gateway
      (signed_in (txt "/"))
      (1100 * second)
      (1101 * second)
      fresh).0
    ≡ ok (started gateway (txt "a@b") (txt "jwt") (1000 * second))
validate-create_example =
    validate-create crypto codec gateway (txt "a@b") (txt "jwt") (1000 * second) (1000 * second)
      (1100 * second) (1101 * second) issued (signed_in (txt "/")) fresh crypto-IsByteValued
      faithful issued_cookie presented (omega arith) (λ p. omega arith)

abbrev renewed : SessionData
renewed = (touch_session crypto codec gateway instants session fresh).0

active : last_activity session ≤ instants.seen
unfolding last_activity
active = omega arith

touch_session-deadline_example :
    (session_deadline gateway session ≤ session_deadline gateway renewed)
    × (session_deadline gateway renewed ≤ session.expires_at)
touch_session-deadline_example =
    touch_session-deadline crypto codec gateway instants session fresh active

made :
    session_cookie crypto codec gateway
      (record session { last_seen = instants.seen })
      instants.cookie
    ≢ none
unfolding session_cookie sign_and_encode
made = λ e. cc

-- The gateway with an idle timeout of 45 seconds.
abbrev hasty : OidcAuth
hasty = record gateway { session_idle_ttl = 45 * second }

abbrev soon : Instants
soon = record instants { since = 1044 * second }

in_time : soon.since ≤ last_activity session + hasty.session_idle_ttl
unfolding last_activity
in_time = omega arith

touch_session-short_idle_example :
    ((touch_session crypto codec hasty soon session fresh).0 ≡ session)
    × ((touch_session crypto codec hasty soon session fresh).1
        ≡ set_header session_expires_header
            (itoa (seconds_until soon.header (session_deadline hasty session)))
            fresh)
touch_session-short_idle_example =
    touch_session-short_idle crypto codec hasty soon session fresh (omega arith) in_time

check_acceptance_iff_example :
    (check_acceptance crypto tos_codec manager (consented (txt "/")) (txt "a@b") ≡ true)
    ↔ HasConsent crypto tos_codec manager (consented (txt "/")) (txt "a@b")
check_acceptance_iff_example =
    check_acceptance_iff crypto tos_codec manager (consented (txt "/")) (txt "a@b")

consent_sent :
    cookie (consented (txt "/")) acceptance_cookie_name ≡ some (seal crypto (txt "tos") (txt "{}"))
unfolding cookie lookup ◌==◌ txt
consent_sent = refl

consent-IsFaithful :
    Acceptance.IsFaithful crypto tos_codec
      (acceptance crypto tos_codec manager (txt "a@b") (1000 * second))
      (txt "{}")
consent-IsFaithful = record { written = refl; read = refl; bytes = payload_bytes }

-- The document has changed since.
abbrev revised : Manager
revised = record manager { content_hash = txt "h2" }

check_acceptance-acceptance_example :
    check_acceptance crypto tos_codec revised (consented (txt "/")) (txt "a@b")
    ≡ (hash_email crypto (txt "a@b") == hash_email crypto (txt "a@b") && txt "h1" == txt "h2")
check_acceptance-acceptance_example =
    check_acceptance-acceptance crypto tos_codec manager revised (consented (txt "/")) (txt "a@b")
      (txt "a@b") (1000 * second) (txt "{}") crypto-IsByteValued consent-IsFaithful refl
      consent_sent

logout_handler-IsRedirect_example :
    IsRedirect 302
      (logout_target crypto codec gateway
        (validate_session_cookie crypto codec gateway
          (signed_in (txt "/auth/logout"))
          instants.expiry
          instants.idle
          fresh).0)
      ([] ++ clear_session_cookie gateway ∷ [])
      (logout_handler crypto codec gateway instants (signed_in (txt "/auth/logout")) fresh)
logout_handler-IsRedirect_example =
    logout_handler-IsRedirect crypto codec gateway instants (signed_in (txt "/auth/logout")) fresh
      refl
