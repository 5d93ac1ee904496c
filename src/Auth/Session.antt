-- ===== src/Auth/Session.antt =====
-- internal/auth/session.go. An instant is a number of nanoseconds since the zero time of package
-- time, a duration a number of nanoseconds; each call of time.Now is an argument of its own.
pub mod Deadline
pub mod Validate
pub mod Issue
use atrium_core.Base.{
  ℕ, ◌+◌, ◌-◌, ◌*◌, ◌/◌, min, Bool, true, false, ◌&&◌, Option, none, some, List, [], ◌∷◌, Text, txt,
}
use atrium_core.Base.{if◌then◌else◌, eqb, ltb, leb, ℤ, pos, negsuc, sub_ℕ}
use atrium_core.Base.Result.{Result, ok, err}
use atrium_core.Crypto.{Crypto}
use atrium_core.SignedCookie.{seal, open_token}
use atrium_core.Slog.{Logger, level_info}
use atrium_core.Http.{Request, Cookie, lax, Out, Run, cookie}
use atrium_core.Audit.{log, event_session_idle, string_attr, email_key}

abbrev pub Time : Type 0
Time = ℕ

abbrev pub Duration : Type 0
Duration = ℕ

abbrev pub second : Duration
second = 1000000000

abbrev pub session_cookie_name : Text
session_cookie_name = txt "atrium_session"

abbrev pub session_refresh_interval : Duration
session_refresh_interval = 60 * second

pub data SessionError : Type 0 where
  no_session invalid_session session_expired session_idle : SessionError

pub record SessionData : Type 0 where
  pub email : Text
  pub issued_at : Time
  pub expires_at : Time
  pub last_seen : Time
  pub id_token : Text

-- encoding/json on a session; `none` for its error.
pub record Codec : Type 0 where
  pub marshal : SessionData → Option Text
  pub unmarshal : Text → Option SessionData

-- The fields of OIDCAuth that the handlers read, and the client ID of its OAuth2 configuration.
pub record OidcAuth : Type 0 where
  pub logger : Logger
  pub session_key : Text
  pub session_absolute_ttl : Duration
  pub session_idle_ttl : Duration
  pub secure_cookies : Bool
  pub require_email_verified : Bool
  pub mfa_acr : List Text
  pub end_session_endpoint : Text
  pub post_logout_redirect : Text
  pub client_id : Text

-- lastActivity
unfoldable pub last_activity : SessionData → Time
last_activity d = if eqb d.last_seen 0 then d.issued_at else d.last_seen

-- The largest number of seconds that a time.Duration holds.
abbrev pub max_seconds : ℕ
max_seconds = 9223372036

-- A number of nanoseconds, rounded to seconds, half a second upwards.
abbrev pub round_seconds : Duration → ℕ
round_seconds d = min ((d + 500000000) / second) max_seconds

-- secondsUntil, at the instant `now`.
unfoldable pub seconds_until : Time → Time → ℤ
seconds_until now t =
    if leb now t then pos (round_seconds (t - now)) else sub_ℕ 0 (round_seconds (now - t))

module _ (a : OidcAuth) where
  -- sessionDeadline
  unfoldable pub session_deadline : SessionData → Time
  unfolding last_activity
  session_deadline d =
      if eqb a.session_idle_ttl 0
      then d.expires_at
      else let idle = last_activity d + a.session_idle_ttl in
        if ltb idle d.expires_at then idle else d.expires_at

  -- clearSessionCookie
  unfoldable pub clear_session_cookie : Cookie
  clear_session_cookie = record {
    name = session_cookie_name;
    value = [];
    path = b'/' ∷ [];
    max_age = negsuc 0;
    http_only = true;
    secure = a.secure_cookies;
    same_site = lax;
  }

  -- The cookie that carries a token, with its lifetime at the instant `now`.
  abbrev pub cookie_of : Time → SessionData → Text → Cookie
  cookie_of now d token = record {
    name = session_cookie_name;
    value = token;
    path = b'/' ∷ [];
    max_age = seconds_until now (session_deadline d);
    http_only = true;
    secure = a.secure_cookies;
    same_site = lax;
  }

  -- The idle check of validateSessionCookie.
  unfoldable pub check_idle :
      Request → Time → Result SessionError SessionData → Out → Result SessionError SessionData × Out
  unfolding last_activity
  check_idle r now (err e) w = (err e, w)
  check_idle r now (ok d) w =
      if ltb 0 a.session_idle_ttl && ltb (last_activity d + a.session_idle_ttl) now
      then (
        err session_idle,
        log a.logger r level_info event_session_idle (string_attr email_key d.email ∷ []) w,
      )
      else (ok d, w)

module _ (crypto : Crypto) (codec : Codec) where
  -- signAndEncode
  unfoldable pub sign_and_encode : SessionData → Text → Option Text
  sign_and_encode d key = elim (codec.marshal d) [
    | none ↦ none
    | some payload ↦ some (seal crypto key payload)
  ]

  -- decodeAndVerify, at the instant `now`.
  unfoldable pub decode_and_verify : Text → Text → Time → Result SessionError SessionData
  decode_and_verify token key now = elim (open_token crypto key token) [
    | none ↦ err invalid_session
    | some payload ↦ elim (codec.unmarshal payload) [
      | none ↦ err invalid_session
      | some d ↦ if ltb d.expires_at now then err session_expired else ok d
    ]
  ]

  module _ (a : OidcAuth) where
    -- sessionCookie, at the instant `now`.
    unfoldable pub session_cookie : SessionData → Time → Option Cookie
    unfolding sign_and_encode
    session_cookie d now = elim (sign_and_encode d a.session_key) [
      | none ↦ none
      | some token ↦ some (cookie_of a now d token)
    ]

    -- createSessionCookie; the cookie's lifetime is taken at the later instant `now'`.
    unfoldable pub create_session_cookie : Text → Text → Time → Time → Option Cookie
    unfolding session_cookie
    create_session_cookie email id_token now now' =
        session_cookie
          (record {
            email = email;
            issued_at = now;
            expires_at = now + a.session_absolute_ttl;
            last_seen = now;
            id_token = id_token;
          })
          now'

    -- validateSessionCookie; the expiry is checked at `now`, the idle timeout at `now'`.
    unfoldable pub validate_session_cookie :
        Request → Time → Time → Out → Result SessionError SessionData × Out
    unfolding check_idle
    validate_session_cookie r now now' w = elim (cookie r session_cookie_name) [
      | none ↦ (err no_session, w)
      | some value ↦ check_idle a r now' (decode_and_verify value a.session_key now) w
    ]
