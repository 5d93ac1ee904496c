-- ===== src/Auth/Next.antt =====
-- The path to return to after a sign-in: `safeNextPath` of internal/auth/oidc.go, and its use of the
-- cookie in the callback.
pub mod Safety
pub mod Twice
pub mod Carried
pub mod Slashes
use atrium_core.Base.{Bool, true, false, not, ◌||◌, Option, none, some, [], ◌∷◌, ◌++◌, Text, txt}
use atrium_core.Base.{if◌then◌else◌, is_empty}
use atrium_core.Strings.{has_prefix}
use atrium_core.Url.{Url, parse_rooted, escaped_path}

abbrev pub optional_raw_query : Url → Text
optional_raw_query u = if is_empty u.raw_query then [] else b'?' ∷ u.raw_query

-- The checks on what url.Parse returns.
abbrev pub relative_only : Option Url → Text
relative_only none = []
relative_only (some u) =
    if not (is_empty u.scheme) || not (is_empty u.host)
    then []
    else escaped_path u ++ optional_raw_query u

unfoldable pub safe_next_path : Text → Text
unfolding has_prefix
safe_next_path raw =
    if is_empty raw || (not (has_prefix raw (b'/' ∷ [])) || has_prefix raw (b'/' ∷ b'/' ∷ []))
    then []
    else relative_only (parse_rooted raw)

abbrev pub or_root : Text → Text
or_root [] = b'/' ∷ []
or_root (c ∷ s) = c ∷ s

-- Where the callback redirects to, from the value of the cookie that kept the path.
unfoldable pub next_of_cookie : Option Text → Text
next_of_cookie none = b'/' ∷ []
next_of_cookie (some value) = or_root (safe_next_path value)
