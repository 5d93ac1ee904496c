-- ===== src/Audit.antt =====
-- internal/audit: the event catalog, the pseudonym of an email, and the request-scoped log records.
pub mod Privacy
pub mod Floor
use atrium_core.Base.{
  Bool, true, false, ◌&&◌, Option, none, some, List, [], ◌∷◌, ◌++◌, Text, txt, ◌==◌,
}
use atrium_core.Base.{if◌then◌else◌, is_empty, ℤ, pos, negsuc, lebℤ, take, not}
use atrium_core.Strings.{split_host}
use atrium_core.Crypto.{Crypto}
use atrium_core.Slog.{Level, Value, string, int64, level, Attr, Logger, value_string}
use atrium_core.Http.{Request, Run, emit, header_get}

abbrev pub level_audit : Level
level_audit = pos 12

-- Audit event names.
abbrev pub event_login : Text
event_login = txt "login"

abbrev pub event_login_failed : Text
event_login_failed = txt "login-failed"

abbrev pub event_accept_tos : Text
event_accept_tos = txt "accept-tos"

abbrev pub event_download_start : Text
event_download_start = txt "download-start"

abbrev pub event_upload_start : Text
event_upload_start = txt "upload-start"

abbrev pub event_access_denied : Text
event_access_denied = txt "access-denied"

abbrev pub event_share_expired : Text
event_share_expired = txt "share-expired"

-- Operational event names.
abbrev pub event_logout : Text
event_logout = txt "logout"

abbrev pub event_session_idle : Text
event_session_idle = txt "session-idle"

abbrev pub event_list_shares : Text
event_list_shares = txt "list-shares"

abbrev pub event_list_folder : Text
event_list_folder = txt "list-folder"

abbrev pub event_download_complete : Text
event_download_complete = txt "download-complete"

abbrev pub event_upload_complete : Text
event_upload_complete = txt "upload-complete"

abbrev pub email_key : Text
email_key = txt "email"

abbrev pub string_attr : Text → Text → Attr
string_attr k v = record { key = k; value = string v }

abbrev pub int_attr : Text → ℤ → Attr
int_attr k n = record { key = k; value = int64 n }

module _ (crypto : Crypto) where
  -- Canonical
  unfoldable pub canonical : Text → Text
  canonical email = crypto.to_lower (crypto.nfkc email)

  -- hashEmail
  unfoldable pub hash_email : Text → Text → Text
  unfolding canonical
  hash_email salt email =
      if is_empty email then [] else take 16 (crypto.sha256_hex (salt ++ canonical email))

  level_name : Value → Value
  level_name (level l) =
      if lebℤ l level_audit && lebℤ level_audit l then string (txt "AUDIT") else level l
  level_name v = v

  -- replaceAttr
  unfoldable pub replace_attr : Text → Bool → List Text → Attr → Attr
  unfolding level_name
  replace_attr salt pseudonymize groups a =
      if a.key == txt "level"
      then record a { value = level_name a.value }
      else if pseudonymize && (no_groups groups && a.key == email_key)
      then record a { value = string (hash_email salt (value_string a.value)) }
      else a
    where
      no_groups : List Text → Bool
      no_groups [] = true
      no_groups (g ∷ gs) = false

  -- New
  unfoldable pub new_logger : Level → Text → Bool → Logger
  new_logger floor salt pseudonymize = record {
    level = floor;
    replace_attr = replace_attr salt pseudonymize;
  }

-- The host of a remote address, or the address itself where it has no port.
unfoldable pub source_ip : Text → Text
unfolding split_host
source_ip remote_addr = elim (split_host remote_addr) [ none ↦ remote_addr | some host ↦ host ]

optional_attr : Text → Text → List Attr
optional_attr k v = if is_empty v then [] else string_attr k v ∷ []

-- requestAttrs
unfoldable pub request_attrs : Request → List Attr
unfolding optional_attr
request_attrs r =
    string_attr (txt "ip") (source_ip r.remote_addr)
    ∷ (optional_attr (txt "xff") (header_get r (txt "X-Forwarded-For"))
        ++ optional_attr (txt "user_agent") (header_get r (txt "User-Agent")))

-- Log
unfoldable pub log : Logger → Request → Level → Text → List Attr → Run
log logger r at event extra = emit logger at event (request_attrs r ++ extra)
