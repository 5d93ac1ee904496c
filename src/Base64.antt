-- ===== src/Base64.antt =====
-- Go's encoding/base64, URL alphabet without padding (RawURLEncoding). As in Go, the decoder skips
-- carriage returns and line feeds, and does not require the unused low bits to be zero.
pub mod RoundTrip
use atrium_core.Base.{ℕ, ◌+◌, ◌-◌, ◌*◌, ◌/◌, ◌%◌, ◌||◌, Option, none, some, List, [], ◌∷◌, Text}
use atrium_core.Base.{if◌then◌else◌, eqb, ltb, leb}
use atrium_core.Url.{between}

unfoldable pub digit : ℕ → ℕ
digit d =
    if ltb d 26
    then d + 65
    else if ltb d 52
    then d + 71
    else if ltb d 62
    then d - 4
    else if eqb d 62
    then 45
    else 95

unfoldable pub value : ℕ → Option ℕ
value c =
    if between b'A' b'Z' c
    then some (c - 65)
    else if between b'a' b'z' c
    then some (c - 71)
    else if between b'0' b'9' c
    then some (c + 4)
    else if eqb c b'-'
    then some 62
    else if eqb c b'_'
    then some 63
    else none

-- EncodeToString
unfoldable pub encode : Text → Text
encode [] = []
encode (a ∷ []) = digit (a / 4) ∷ digit (a % 4 * 16) ∷ []
encode (a ∷ b ∷ []) = digit (a / 4) ∷ digit (a % 4 * 16 + b / 16) ∷ digit (b % 16 * 4) ∷ []
encode (a ∷ b ∷ c ∷ s) =
    digit (a / 4)
    ∷ digit (a % 4 * 16 + b / 16)
    ∷ digit (b % 16 * 4 + c / 64)
    ∷ digit (c % 64)
    ∷ encode s

unfoldable pub skip_newlines : Text → Text
skip_newlines [] = []
skip_newlines (c ∷ s) =
    let rest = skip_newlines s in if eqb c 13 || eqb c 10 then rest else c ∷ rest

abbrev pub two : Option ℕ → Option ℕ → Option Text
two (some w) (some x) = some ((w * 4 + x / 16) ∷ [])
two _ _ = none

abbrev pub three : Option ℕ → Option ℕ → Option ℕ → Option Text
three (some w) (some x) (some y) = some ((w * 4 + x / 16) ∷ (x % 16 * 16 + y / 4) ∷ [])
three _ _ _ = none

abbrev pub four : Option ℕ → Option ℕ → Option ℕ → Option ℕ → Option Text → Option Text
four (some w) (some x) (some y) (some z) (some s) =
    some ((w * 4 + x / 16) ∷ (x % 16 * 16 + y / 4) ∷ (y % 4 * 64 + z) ∷ s)
four _ _ _ _ _ = none

unfoldable pub decode_quanta : Text → Option Text
decode_quanta [] = some []
decode_quanta (a ∷ []) = none
decode_quanta (a ∷ b ∷ []) = two (value a) (value b)
decode_quanta (a ∷ b ∷ c ∷ []) = three (value a) (value b) (value c)
decode_quanta (a ∷ b ∷ c ∷ d ∷ s) = four (value a) (value b) (value c) (value d) (decode_quanta s)

-- DecodeString
unfoldable pub decode : Text → Option Text
unfolding decode_quanta skip_newlines
decode s = decode_quanta (skip_newlines s)

-- StdEncoding: "+" and "/" for the last two digits, and padding.
abbrev pub std_digit : ℕ → ℕ
std_digit d = if eqb d 62 then b'+' else if eqb d 63 then b'/' else digit d

-- StdEncoding.EncodeToString
unfoldable pub encode_std : Text → Text
encode_std [] = []
encode_std (a ∷ []) = std_digit (a / 4) ∷ std_digit (a % 4 * 16) ∷ b'=' ∷ b'=' ∷ []
encode_std (a ∷ b ∷ []) =
    std_digit (a / 4) ∷ std_digit (a % 4 * 16 + b / 16) ∷ std_digit (b % 16 * 4) ∷ b'=' ∷ []
encode_std (a ∷ b ∷ c ∷ s) =
    std_digit (a / 4)
    ∷ std_digit (a % 4 * 16 + b / 16)
    ∷ std_digit (b % 16 * 4 + c / 64)
    ∷ std_digit (c % 64)
    ∷ encode_std s
