-- ===== src/Tests.antt =====
-- Concrete data for the tests: a gateway, a session, requests and stand-ins for the parameters.
mod Tokens
mod Sessions
mod Flows
mod Transfers
mod Gates
mod Harness
mod Settings
mod Stub
mod Start
use atrium_core.Base.{
  ℕ, ◌+◌, ◌*◌, ◌%◌, Bool, true, false, Option, none, some, List, [], ◌∷◌, ◌++◌, Text, txt, ℤ, pos,
  negsuc, leb, ltb, ◌&&◌, if◌then◌else◌, map, arith,
}
use atrium_core.Crypto.{Crypto, IsByteValued}
use atrium_core.Slog.{Logger, level_info}
use atrium_core.Http.{Request, eof, fresh, Out}
use atrium_core.Audit.{new_logger}
use atrium_core.SignedCookie.{seal}
use atrium_core.Auth.Session.{SessionData, Codec, OidcAuth, second, session_cookie_name}
use atrium_core.Auth.Middleware.{Instants}
use atrium_core.Tos.{Manager, TosCodec, TosCookieData, acceptance_cookie_name, hash_email}

abbrev checksum : Text → ℕ
checksum [] = 7
checksum (c ∷ s) = (checksum s * 31 + c) % 251

abbrev lower : ℕ → ℕ
lower c = if leb 65 c && leb c 90 then c + 32 else c

abbrev pub crypto : Crypto
crypto = record {
  hmac_sha256 = λ key message. checksum (key ++ message) % 256 ∷ [];
  sha256_hex = λ t. checksum t % 256 ∷ [];
  to_lower = map lower;
  nfkc = λ t. t;
}

pub crypto-IsByteValued : IsByteValued crypto
crypto-IsByteValued = record { hmac_bytes = λ key message. (omega arith, tt) }

abbrev pub logger : Logger
logger = new_logger crypto level_info (txt "salt") true

abbrev pub gateway : OidcAuth
gateway = record {
  logger = logger;
  session_key = txt "key";
  session_absolute_ttl = 12 * 3600 * second;
  session_idle_ttl = 1800 * second;
  secure_cookies = true;
  require_email_verified = true;
  mfa_acr = txt "2" ∷ [];
  end_session_endpoint = txt "https://idp/logout";
  post_logout_redirect = txt "https://gw/auth/logged-out";
  client_id = txt "atrium";
}

abbrev pub session : SessionData
session = record {
  email = txt "a@b";
  issued_at = 1000 * second;
  expires_at = 1000 * second + 12 * 3600 * second;
  last_seen = 1000 * second;
  id_token = txt "jwt";
}

abbrev pub codec : Codec
codec = record { marshal = λ d. some (txt "{}"); unmarshal = λ t. some session }

abbrev pub instants : Instants
instants = record {
  expiry = 1100 * second;
  idle = 1101 * second;
  since = 1102 * second;
  seen = 1103 * second;
  cookie = 1104 * second;
  header = 1105 * second;
}

abbrev pub anonymous : Text → Request
anonymous path = record {
  method = txt "GET";
  path = path;
  request_uri = path;
  query = [];
  header = [];
  cookies = [];
  path_values = (txt "shareID", txt "s1") ∷ (txt "fileID", txt "f1") ∷ [];
  remote_addr = txt "10.0.0.1:80";
  content_length = negsuc 0;
  body = eof;
}

abbrev pub session_token : Text
session_token = seal crypto (txt "key") (txt "{}")

abbrev pub signed_in : Text → Request
signed_in path = record (anonymous path) { cookies = (session_cookie_name, session_token) ∷ [] }

abbrev pub manager : Manager
manager = record {
  content = txt "terms";
  content_hash = txt "h1";
  version = txt "v1";
  signing_key = txt "tos";
  secure_cookies = true;
  logger = logger;
}

abbrev pub consent : TosCookieData
consent = record {
  email_hash = hash_email crypto (txt "a@b");
  tos_hash = txt "h1";
  accepted_at = 1000 * second;
}

abbrev pub tos_codec : TosCodec
tos_codec = record { marshal = λ d. some (txt "{}"); unmarshal = λ t. some consent }

-- A request with a session and with consent.
abbrev pub consented : Text → Request
consented path = record (anonymous path) {
  cookies =
      (session_cookie_name, session_token)
      ∷ (acceptance_cookie_name, seal crypto (txt "tos") (txt "{}"))
      ∷ [];
}
