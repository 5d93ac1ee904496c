-- ===== src/Tos.antt =====
-- internal/tos: the optional consent gate. The disabled feature, a nil manager in the code, is `none`.
pub mod Acceptance
use atrium_core.Base.{
  ℕ, ◌*◌, Bool, true, false, ◌&&◌, Option, none, some, [], ◌∷◌, Text, txt, ◌==◌, take,
}
use atrium_core.Base.{if◌then◌else◌, is_empty, ℤ, pos}
use atrium_core.Crypto.{Crypto}
use atrium_core.SignedCookie.{seal, open_token}
use atrium_core.Slog.{Logger, level_error}
use atrium_core.Http.{
  Request, Out, Run, Cookie, lax, cookie, set_cookie, set_header, write_header, write, error, emit,
  Json, json, obj, field, str, end,
}
use atrium_core.Audit.{canonical, log, level_audit, event_accept_tos, string_attr, email_key}
use atrium_core.Auth.Session.{SessionData, Time}
use atrium_core.Auth.Middleware.{Handler}

abbrev pub acceptance_cookie_name : Text
acceptance_cookie_name = txt "tos_accepted"

-- 365 days, in seconds.
abbrev pub acceptance_ttl : ℕ
acceptance_ttl = 365 * 24 * 3600

pub record Manager : Type 0 where
  pub content : Text
  pub content_hash : Text
  pub version : Text
  pub signing_key : Text
  pub secure_cookies : Bool
  pub logger : Logger

-- tosCookieData
pub record TosCookieData : Type 0 where
  pub email_hash : Text
  pub tos_hash : Text
  pub accepted_at : Time

-- encoding/json on the cookie's payload; `none` for its error.
pub record TosCodec : Type 0 where
  pub marshal : TosCookieData → Option Text
  pub unmarshal : Text → Option TosCookieData

-- Enabled
unfoldable pub enabled : Option Manager → Bool
enabled none = false
enabled (some m) = true

-- writeJSON
unfoldable pub write_json : ℕ → Json → Run
write_json status v w = write (json v) (
    write_header status (set_header (txt "Content-Type") (txt "application/json; charset=utf-8") w))

-- The answer of a handler that finds no session in its context, or that fails.
abbrev pub internal_error : Run
internal_error = error (txt "internal server error") 500

module _ (crypto : Crypto) where
  -- NewManager, with what os.ReadFile returns for the path, `none` for its error.
  unfoldable pub new_manager : Option Text → Text → Text → Bool → Logger → Option Manager
  new_manager none explicit_version signing_key secure_cookies logger = none
  new_manager (some content) explicit_version signing_key secure_cookies logger =
      let hash = crypto.sha256_hex content in
      some (record {
        content = content;
        content_hash = hash;
        version = if is_empty explicit_version then take 12 hash else explicit_version;
        signing_key = signing_key;
        secure_cookies = secure_cookies;
        logger = logger;
      })

  -- hashEmail
  unfoldable pub hash_email : Text → Text
  hash_email email = crypto.sha256_hex (canonical crypto email)

  module _ (codec : TosCodec) where
    -- signCookie
    unfoldable pub sign_cookie : Manager → TosCookieData → Option Text
    sign_cookie m d = elim (codec.marshal d) [
      | none ↦ none
      | some payload ↦ some (seal crypto m.signing_key payload)
    ]

    -- verifyCookie
    unfoldable pub verify_cookie : Manager → Text → Option TosCookieData
    verify_cookie m token = elim (open_token crypto m.signing_key token) [
      | none ↦ none
      | some payload ↦ codec.unmarshal payload
    ]

    -- The comparison of the hashes in CheckAcceptance.
    abbrev pub matches : Manager → Text → Option TosCookieData → Bool
    matches m email none = false
    matches m email (some d) = d.email_hash == hash_email email && d.tos_hash == m.content_hash

    -- CheckAcceptance
    unfoldable pub check_acceptance : Manager → Request → Text → Bool
    check_acceptance m r email = elim (cookie r acceptance_cookie_name) [
      | none ↦ false
      | some value ↦ matches m email (verify_cookie m value)
    ]

    -- The payload and the cookie of setAcceptanceCookie.
    abbrev pub acceptance : Manager → Text → Time → TosCookieData
    acceptance m email now = record {
      email_hash = hash_email email;
      tos_hash = m.content_hash;
      accepted_at = now;
    }

    abbrev pub acceptance_cookie : Manager → Text → Cookie
    acceptance_cookie m token = record {
      name = acceptance_cookie_name;
      value = token;
      path = b'/' ∷ [];
      max_age = pos acceptance_ttl;
      http_only = true;
      secure = m.secure_cookies;
      same_site = lax;
    }

    -- setAcceptanceCookie; `none` for its error.
    unfoldable pub set_acceptance_cookie : Manager → Text → Time → Out → Option Out
    unfolding sign_cookie
    set_acceptance_cookie m email now w = elim (sign_cookie m (acceptance m email now)) [
      | none ↦ none
      | some token ↦ some (set_cookie (acceptance_cookie m token) w)
    ]

    -- The handler that RequireTOS returns when the feature is enabled.
    unfoldable pub gate : Manager → Handler → Handler
    gate m next none r w = internal_error w
    gate m next (some d) r w =
        if check_acceptance m r d.email
        then next (some d) r w
        else write_json 403 (obj (field (txt "error") (str (txt "tos_required")) end)) w

    -- RequireTOS
    unfoldable pub require_tos : Option Manager → Handler → Handler
    require_tos none next = next
    require_tos (some m) next = gate m next

    -- ContentHandler
    unfoldable pub content_handler : Manager → Handler
    content_handler m d r =
        write_json 200
          (obj (field (txt "content") (str m.content) (field (txt "version") (str m.version) end)))

    -- AcceptHandler, at the instant `now`.
    unfoldable pub accept_handler : Manager → Time → Handler
    accept_handler m now none r w = internal_error w
    accept_handler m now (some d) r w =
        let w' =
          log m.logger r level_audit event_accept_tos
            (string_attr email_key d.email ∷ string_attr (txt "tos_version") m.version ∷ []) w in
        elim (set_acceptance_cookie m d.email now w') [
          | none ↦ internal_error (emit m.logger level_error (txt "set tos cookie") [] w')
          | some w'' ↦ write_header 204 w''
        ]
