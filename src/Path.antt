-- ===== src/Path.antt =====
-- path.Clean, and the clean-up that http.Redirect applies to a relative target.
pub mod Laws
pub mod Relative
use atrium_core.Base.{ℕ, ◌+◌, ◌/◌, ◌%◌, Bool, true, false, Option, none, some, List, [], ◌∷◌, ◌++◌}
use atrium_core.Base.{Text, txt, ◌==◌, eqb, ltb, if◌then◌else◌, is_empty, ◌&&◌, ◌||◌, not}
use mathlib.Core.List.{reverse}
use atrium_core.Strings.{cut, cut_or, cut_last, has_prefix, drop, split, join}
use atrium_core.Url.{is_unreserved, is_reserved, unescape, parse_parts, parse_rooted}

-- ".." over the elements before it, the last at the head. At the root it is dropped; in a relative
-- path it is kept.
unfoldable pub pop : Bool → List Text → List Text
pop true [] = []
pop false [] = txt ".." ∷ []
pop true (top ∷ below) = below
pop false (top ∷ below) = if top == txt ".." then txt ".." ∷ top ∷ below else below

unfoldable pub step : Bool → List Text → Text → List Text
step rooted stack part =
    if is_empty part || part == txt "."
    then stack
    else if part == txt ".."
    then pop rooted stack
    else part ∷ stack

unfoldable pub clean_from : Bool → List Text → List Text → List Text
clean_from rooted stack [] = reverse stack
clean_from rooted stack (part ∷ parts) = clean_from rooted (step rooted stack part) parts

abbrev pub or_dot : Text → Text
or_dot [] = b'.' ∷ []
or_dot (c ∷ s) = c ∷ s

-- path.Clean
unfoldable pub clean : Text → Text
unfolding clean_from step pop
clean [] = b'.' ∷ []
clean (c ∷ s) =
    if eqb c b'/'
    then b'/' ∷ join (b'/' ∷ []) (clean_from true [] (split b'/' s))
    else or_dot (join (b'/' ∷ []) (clean_from false [] (split b'/' (c ∷ s))))

-- strings.HasSuffix(s, "/")
ends_with_slash : Text → Bool
ends_with_slash [] = false
ends_with_slash (c ∷ []) = eqb c b'/'
ends_with_slash (c ∷ d ∷ s) = ends_with_slash (d ∷ s)

abbrev pub lower_hex : ℕ → ℕ
lower_hex d = if ltb d 10 then b'0' + d else b'W' + d

-- net/http's hexEscapeNonASCII
escape_non_ascii : Text → Text
escape_non_ascii [] = []
escape_non_ascii (c ∷ s) =
    if ltb c 128
    then c ∷ escape_non_ascii s
    else b'%' ∷ lower_hex (c / 16) ∷ lower_hex (c % 16) ∷ escape_non_ascii s

clean_keeping_slash : Text → Text
clean_keeping_slash s =
    let cleaned = clean s in
    if ends_with_slash s && not (ends_with_slash cleaned) then cleaned ++ b'/' ∷ [] else cleaned

clean_cut : Text → Option (Text × Text) → Text
clean_cut url none = clean_keeping_slash url
clean_cut url (some (before, query)) = clean_keeping_slash before ++ b'?' ∷ query

clean_target : Text → Text
unfolding clean_cut
clean_target url = clean_cut url (cut b'?' url)

abbrev is_some : {A : Type 0} → Option A → Bool
is_some none = false
is_some (some a) = true

-- validUserinfo
unfoldable pub valid_userinfo : Text → Bool
valid_userinfo [] = true
valid_userinfo (c ∷ s) =
    (is_unreserved c
      || (is_reserved c && not (eqb c b'/' || eqb c b'?'))
      || ((eqb c b'!' || eqb c 39) || (eqb c b'(' || eqb c b')') || (eqb c b'*' || eqb c b'%')))
    && valid_userinfo s

-- Whether an authority is parsed and has no host: nothing, or a user alone.
unfoldable pub no_host : Text → Bool
no_host authority = elim (cut_last b'@' authority) [
  | none ↦ is_empty authority
  | some (user, host) ↦ is_empty host && (valid_userinfo user && is_some (unescape user))
]

-- Whether url.Parse accepts a text that begins with two slashes, and finds no host behind them.
unfoldable pub has_no_host : Text → Bool
has_no_host url =
    let (reference, fragment) = cut_or b'#' url in
    let (p, query) = cut_or b'?' reference in
    let rest = drop (b'/' ∷ b'/' ∷ []) p in
    let (authority, later) = cut_or b'/' rest in
    no_host authority && is_some (parse_parts reference fragment (drop authority rest) query)

-- Whether url.Parse accepts a rooted text and finds no host in it. Two slashes that a third does not
-- follow begin an authority.
unfoldable pub is_hostless : Text → Bool
is_hostless url =
    if has_prefix url (b'/' ∷ b'/' ∷ []) && not (has_prefix url (b'/' ∷ b'/' ∷ b'/' ∷ []))
    then has_no_host url
    else is_some (parse_rooted url)

-- The Location that http.Redirect writes for `url`: a rooted text is cleaned up to its query where it is
-- parsed and has no host, and stays as it is otherwise. The gateway passes rooted texts and absolute URLs
-- only, and the latter stay as they are.
rooted_target : Text → Text
rooted_target url = if is_hostless url then clean_target url else url

unfoldable pub redirect_target : Text → Text
unfolding rooted_target clean_target clean_keeping_slash ends_with_slash escape_non_ascii clean
redirect_target [] = []
redirect_target (c ∷ s) =
    if eqb c b'/' then escape_non_ascii (rooted_target (c ∷ s)) else escape_non_ascii (c ∷ s)
