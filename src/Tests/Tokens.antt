-- ===== src/Tests/Tokens.antt =====
-- Signed cookies, audit records and redirect targets at concrete inputs.
use atrium_core.Base.{
  ◌≡◌, ◌↔◌, refl, true, false, some, [], ◌∷◌, ◌++◌, txt, ◌==◌, pos, lebℤ, All, arith,
}
use atrium_core.Path.{redirect_target, is_hostless, has_no_host, no_host}
use atrium_core.Strings.{has_prefix, cut_or, cut_last, join, split}
use atrium_core.Slog.{level_info, unmarshal_level}
use atrium_core.Http.{fresh}
use atrium_core.Url.Bytes.{IsByte}
use atrium_core.SignedCookie.{open_token}
use atrium_core.SignedCookie.Laws.{open_token_iff, IsSigned}
use atrium_core.Audit.{
  log, new_logger, level_audit, event_login, string_attr, email_key, hash_email,
}
use atrium_core.Audit.Privacy.{log-email}
use atrium_core.Audit.Floor.{log-audit_dropped_iff}
use atrium_core.Auth.Next.{safe_next_path}
use atrium_core.Auth.Next.Slashes.{
  safe_next_path-hidden_slash, hidden_slash, two_slashes, IsUnreserved,
}
use atrium_core.Url.{is_unreserved, parse_rooted, parse_parts, unescape}
use atrium_core.Tests.{crypto, anonymous}

payload_bytes : All IsByte (txt "{}")
unfolding txt
payload_bytes = omega arith

open_token_iff_example :
    (open_token crypto (txt "key") (txt "e30.AQ") ≡ some (txt "{}"))
    ↔ IsSigned crypto (txt "key") (txt "e30.AQ") (txt "{}")
open_token_iff_example = open_token_iff crypto (txt "key") (txt "e30.AQ") (txt "{}")

same_hash : hash_email crypto (txt "salt") (txt "A@b") ≡ hash_email crypto (txt "salt") (txt "a@B")
unfolding hash_email txt
same_hash = refl

log-email_example :
    log
      (new_logger crypto level_info (txt "salt") true)
      (anonymous (txt "/"))
      level_audit
      event_login
      ([] ++ string_attr email_key (txt "A@b") ∷ [])
      fresh
    ≡ log
        (new_logger crypto level_info (txt "salt") true)
        (anonymous (txt "/"))
        level_audit
        event_login
        ([] ++ string_attr email_key (txt "a@B") ∷ [])
        fresh
log-email_example =
    log-email crypto level_info level_audit (txt "salt") event_login (anonymous (txt "/"))
      (txt "A@b") (txt "a@B") [] [] fresh same_hash

-- LOG_LEVEL=Error+5 is a floor above the audit level.
parsed : unmarshal_level (txt "Error+5") ≡ some (pos 13)
unfolding unmarshal_level txt ◌==◌
parsed = refl

log-audit_dropped_iff_example :
    (log
        (new_logger crypto (pos 13) (txt "salt") true)
        (anonymous (txt "/"))
        level_audit
        event_login
        []
        fresh
      ≡ fresh)
    ↔ (lebℤ (pos 13) level_audit ≡ false)
log-audit_dropped_iff_example =
    log-audit_dropped_iff crypto (pos 13) (txt "salt") true (anonymous (txt "/")) event_login []
      fresh

query_bytes : All IsByte (txt "/a?b=c")
unfolding txt
query_bytes = omega arith

-- What http.Redirect makes of texts with two slashes: a host stays as it is, and so does a text that is not
-- parsed; without a host the path is cleaned.
other_site : redirect_target (txt "//evil.com/%7C") ≡ txt "//evil.com/%7C"
unfolding redirect_target is_hostless has_no_host no_host parse_parts unescape has_prefix cut_last
    cut_or txt
other_site = refl

unparsed_host : redirect_target (txt "//h%7C") ≡ txt "//h%7C"
unfolding redirect_target is_hostless has_no_host no_host parse_parts unescape has_prefix cut_last
    cut_or txt
unparsed_host = refl

cleaned : redirect_target (txt "/a/../b?c") ≡ txt "/b?c"
unfolding redirect_target is_hostless parse_rooted parse_parts unescape has_prefix cut_or join split
    ◌==◌ txt
cleaned = refl

name-IsUnreserved : All IsUnreserved (txt "evil")
unfolding txt is_unreserved
name-IsUnreserved = (refl, (refl, (refl, (refl, tt))))

safe_next_path-hidden_slash_example :
    safe_next_path (hidden_slash (txt "evil")) ≡ two_slashes (txt "evil")
safe_next_path-hidden_slash_example = safe_next_path-hidden_slash (txt "evil") name-IsUnreserved
