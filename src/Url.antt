-- ===== src/Url.antt =====
-- What the gateway uses of net/url: escaping in three modes, and the parse of a reference with
-- one leading slash, which has no scheme and no host.
pub mod Bytes
pub mod Escape
pub mod Reparse
pub mod Parse
use atrium_core.Base.{ℕ, ◌+◌, ◌-◌, ◌*◌, ◌/◌, ◌%◌, Bool, true, false, not, ◌&&◌, ◌||◌}
use atrium_core.Base.{Option, none, some, List, [], ◌∷◌, Text, txt, ◌==◌, eqb, ltb, leb}
use atrium_core.Base.{if◌then◌else◌, is_empty}
use atrium_core.Strings.{cut_or}

pub data Mode : Type 0 where
  path path_segment query_component : Mode

abbrev pub between : ℕ → ℕ → ℕ → Bool
between lo hi c = leb lo c && leb c hi

unfoldable pub is_hex : ℕ → Bool
is_hex c = between b'0' b'9' c || (between b'A' b'F' c || between b'a' b'f' c)

unfoldable pub unhex : ℕ → ℕ
unhex c = if between b'0' b'9' c then c - 48 else if between b'A' b'F' c then c - 55 else c - 87

unfoldable pub upper_hex : ℕ → ℕ
upper_hex d = if ltb d 10 then d + 48 else d + 55

-- Letters, digits and "-_.~".
unfoldable pub is_unreserved : ℕ → Bool
is_unreserved c =
    (between b'0' b'9' c || (between b'A' b'Z' c || between b'a' b'z' c))
    || ((eqb c b'-' || eqb c b'_') || (eqb c b'.' || eqb c b'~'))

-- "$&+,/:;=?@"
unfoldable pub is_reserved : ℕ → Bool
is_reserved c =
    ((eqb c b'$' || eqb c b'&') || (eqb c b'+' || eqb c b','))
    || ((eqb c b'/' || eqb c b':') || (eqb c b';' || eqb c b'=') || (eqb c b'?' || eqb c b'@'))

unfoldable pub should_escape : Mode → ℕ → Bool
unfolding is_unreserved is_reserved
should_escape path c = not (is_unreserved c) && (not (is_reserved c) || eqb c b'?')
should_escape path_segment c =
    not (is_unreserved c)
    && (not (is_reserved c) || (eqb c b'/' || eqb c b';') || (eqb c b',' || eqb c b'?'))
should_escape query_component c = not (is_unreserved c)

-- One byte of the escaped text: "+" for a space in a query, "%XX" for what needs it.
unfoldable pub escape_byte : Mode → ℕ → Text → Text
unfolding should_escape upper_hex
escape_byte mode c rest =
    if should_escape mode c
    then elim mode [
      | query_component ↦
          if eqb c b' ' then b'+' ∷ rest else b'%' ∷ upper_hex (c / 16) ∷ upper_hex (c % 16) ∷ rest
      | _ ↦ b'%' ∷ upper_hex (c / 16) ∷ upper_hex (c % 16) ∷ rest
    ]
    else c ∷ rest

unfoldable pub escape : Mode → Text → Text
escape mode [] = []
escape mode (c ∷ s) = escape_byte mode c (escape mode s)

-- url.PathEscape and url.QueryEscape
abbrev pub path_escape : Text → Text
path_escape = escape path_segment

abbrev pub query_escape : Text → Text
query_escape = escape query_component

abbrev pub prepend : ℕ → Option Text → Option Text
prepend c none = none
prepend c (some s) = some (c ∷ s)

-- unescape, in the modes that leave "+" alone.
unfoldable pub unescape : Text → Option Text
unfolding is_hex unhex
unescape [] = some []
unescape (c ∷ []) = if eqb c b'%' then none else some (c ∷ [])
unescape (c ∷ d ∷ []) =
    let later = prepend c (unescape (d ∷ [])) in if eqb c b'%' then none else later
unescape (c ∷ d ∷ e ∷ s) =
    let escaped = prepend (unhex d * 16 + unhex e) (unescape s) in
    let later = prepend c (unescape (d ∷ e ∷ s)) in
    if eqb c b'%' then if is_hex d && is_hex e then escaped else none else later

-- url.QueryUnescape
abbrev pub plus_to_space : Text → Text
plus_to_space [] = []
plus_to_space (c ∷ s) = (if eqb c b'+' then b' ' else c) ∷ plus_to_space s

unfoldable pub query_unescape : Text → Option Text
query_unescape s = unescape (plus_to_space s)

-- validEncoded, for a path.
unfoldable pub valid_byte : ℕ → Bool
unfolding should_escape
valid_byte c =
    ((eqb c b'!' || eqb c b'$') || (eqb c b'&' || eqb c 39))
    || ((eqb c b'(' || eqb c b')') || (eqb c b'*' || eqb c b'+'))
    || ((eqb c b',' || eqb c b';') || (eqb c b'=' || eqb c b':'))
    || ((eqb c b'@' || eqb c b'[') || (eqb c b']' || eqb c b'%'))
    || not (should_escape path c)

unfoldable pub valid_encoded : Text → Bool
valid_encoded [] = true
valid_encoded (c ∷ s) = valid_byte c && valid_encoded s

pub record Url : Type 0 where
  pub scheme : Text
  pub host : Text
  pub path : Text
  pub raw_path : Text
  pub raw_query : Text

-- The raw path is kept only where the default encoding of the decoded path differs from it.
abbrev pub url_of : Text → Text → Text → Url
url_of p query u = record {
  scheme = [];
  host = [];
  path = u;
  raw_path = if escape path u == p then [] else p;
  raw_query = query;
}

-- (*URL).setPath, with the query that the parse has found.
unfoldable pub set_path : Text → Text → Option Url
set_path p query = elim (unescape p) [ none ↦ none | some u ↦ some (url_of p query u) ]

-- (*URL).EscapedPath
unfoldable pub escaped_path : Url → Text
unfolding valid_encoded
escaped_path u =
    if not (is_empty u.raw_path) && valid_encoded u.raw_path
    then u.raw_path
    else if u.path == b'*' ∷ []
    then txt "%2A"
    else escape path u.path

unfoldable pub has_control : Text → Bool
has_control [] = false
has_control (c ∷ s) = ltb c 32 || eqb c 127 || has_control s

-- The parse, from the reference without its fragment, the fragment, the path and the query.
unfoldable pub parse_parts : Text → Text → Text → Text → Option Url
unfolding set_path has_control
parse_parts reference fragment p query =
    if has_control reference
    then none
    else elim (unescape fragment) [ none ↦ none | some _ ↦ set_path p query ]

-- url.Parse of a text that begins with one slash and not with two.
unfoldable pub parse_rooted : Text → Option Url
parse_rooted raw =
    let (reference, fragment) = cut_or b'#' raw in
    let (p, query) = cut_or b'?' reference in parse_parts reference fragment p query
