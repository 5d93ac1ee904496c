-- ===== src/Config/Vars.antt =====
-- The parsers of single variables in internal/config/config.go.
use atrium_core.Base.{
  ℕ, ◌+◌, ◌*◌, ◌-◌, Bool, true, false, ◌&&◌, ◌||◌, Option, none, some, List, [], ◌∷◌, Text, txt,
  ◌==◌, length,
}
use atrium_core.Base.{if◌then◌else◌, eqb, leb, is_empty, ℤ, pos, sub_ℕ, ltbℤ, lebℤ}
use atrium_core.Base.Result.{Result, ok, err, ◌>>=◌}
use atrium_core.Strings.{split, trim_space}
use atrium_core.Slog.{Level, level_info, unmarshal_level}

-- Why a configuration is refused.
pub data ConfigError : Type 0 where
  missing : Text → ConfigError
  invalid : Text → ConfigError
  idle_exceeds_absolute : ConfigError

-- os.Getenv: the empty text for a variable that is not set.
abbrev pub Env : Type 0
Env = Text → Text

-- time.ParseDuration; the scheme of an absolute URL by url.Parse; and the decoders of StdEncoding,
-- URLEncoding, RawStdEncoding and RawURLEncoding, in this order. `none` stands for their errors.
pub record Parsers : Type 0 where
  pub parse_duration : Text → Option ℤ
  pub absolute_scheme : Text → Option Text
  pub decoders : List (Text → Option Text)

unfoldable pub guard :
    {A : Type 0} → Bool → ConfigError → Result ConfigError A → Result ConfigError A
guard true e k = k
guard false e k = err e

-- A parsed value, or the error that names its variable.
unfoldable pub read : {A : Type 0} → Option A → Text → Result ConfigError A
read none name = err (invalid name)
read (some v) name = ok v

-- strconv.ParseBool
abbrev pub parse_bool : Text → Option Bool
parse_bool raw =
    if raw == txt "1"
      || (raw == txt "t"
          || (raw == txt "T" || (raw == txt "TRUE" || (raw == txt "true" || raw == txt "True"))))
    then some true
    else if raw == txt "0"
        || (raw == txt "f"
            || (raw == txt "F"
                || (raw == txt "FALSE" || (raw == txt "false" || raw == txt "False"))))
    then some false
    else none

-- parseBoolDefault
unfoldable pub parse_bool_default : Env → Text → Bool → Result ConfigError Bool
parse_bool_default env name default =
    if is_empty (env name) then ok default else read (parse_bool (env name)) name

abbrev pub is_digit : ℕ → Bool
is_digit c = leb 48 c && leb c 57

-- The value of decimal digits behind those of value `n`.
unfoldable pub digits : ℕ → Text → Option ℕ
digits n [] = some n
digits n (c ∷ s) = let rest = digits (n * 10 + (c - 48)) s in if is_digit c then rest else none

abbrev pub decimal : Text → Option ℕ
decimal [] = none
decimal (c ∷ s) = digits 0 (c ∷ s)

-- The largest int64.
abbrev pub max_int64 : ℕ
max_int64 = 9223372036854775807

abbrev pub in_range : Option ℕ → Option ℤ
in_range none = none
in_range (some n) = if leb n max_int64 then some (pos n) else none

abbrev pub negated : Option ℕ → Option ℤ
negated none = none
negated (some n) = if leb n (max_int64 + 1) then some (sub_ℕ 0 n) else none

-- strconv.ParseInt(raw, 10, 64)
abbrev pub parse_int : Text → Option ℤ
parse_int [] = none
parse_int (c ∷ s) =
    if eqb c 43
    then in_range (decimal s)
    else if eqb c 45
    then negated (decimal s)
    else in_range (decimal (c ∷ s))

-- parseMaxUploadSize
unfoldable pub parse_max_upload_size : Text → Result ConfigError ℤ
parse_max_upload_size raw =
    if is_empty raw
    then ok (pos (100 * 1048576))
    else read (parse_int raw) (txt "MAX_UPLOAD_SIZE") >>= λ n.
        guard (ltbℤ (pos 0) n) (invalid (txt "MAX_UPLOAD_SIZE")) (ok n)

-- parseProviderTimeout and parseSessionAbsoluteTTL, by the variable and its default.
unfoldable pub parse_positive : Parsers → Text → ℕ → Text → Result ConfigError ℤ
parse_positive parsers name default raw =
    if is_empty raw
    then ok (pos default)
    else read (parsers.parse_duration raw) name >>= λ d.
        guard (ltbℤ (pos 0) d) (invalid name) (ok d)

-- parseSessionIdleTTL
unfoldable pub parse_session_idle_ttl : Parsers → Text → Result ConfigError ℤ
parse_session_idle_ttl parsers raw =
    if is_empty raw
    then ok (pos 0)
    else read (parsers.parse_duration raw) (txt "SESSION_IDLE_TTL") >>= λ d.
        guard (lebℤ (pos 0) d) (invalid (txt "SESSION_IDLE_TTL")) (ok d)

-- The first decoder that accepts the text.
unfoldable pub decode_first : List (Text → Option Text) → Text → Option Text
decode_first [] raw = none
decode_first (decode ∷ decoders) raw = elim (decode raw) [
  | none ↦ decode_first decoders raw
  | some key ↦ some key
]

-- decodeSessionKey
unfoldable pub decode_session_key : Parsers → Text → Result ConfigError Text
decode_session_key parsers raw =
    if is_empty raw
    then err (missing (txt "SESSION_KEY"))
    else read (decode_first parsers.decoders raw) (txt "SESSION_KEY") >>= λ key.
        guard (leb 32 (length key)) (invalid (txt "SESSION_KEY")) (ok key)

-- parseLogLevel
unfoldable pub parse_log_level : Text → Result ConfigError Level
parse_log_level raw =
    if is_empty raw then ok level_info else read (unmarshal_level raw) (txt "LOG_LEVEL")

-- The elements of a list, less white space around them and less the empty ones.
unfoldable pub trimmed : List Text → List Text
trimmed [] = []
trimmed (part ∷ parts) =
    let rest = trimmed parts in if is_empty (trim_space part) then rest else trim_space part ∷ rest

-- parseCSV
unfoldable pub parse_csv : Text → List Text
parse_csv raw = trimmed (split b',' raw)

-- A hexadecimal digit.
abbrev pub is_hex_digit : ℕ → Bool
is_hex_digit c = is_digit c || (leb 97 c && leb c 102 || leb 65 c && leb c 70)

unfoldable pub all_hex : Text → Bool
all_hex [] = true
all_hex (c ∷ s) = is_hex_digit c && all_hex s

-- isHexColor, on the bytes of the text.
unfoldable pub is_hex_color : Text → Bool
is_hex_color [] = false
is_hex_color (c ∷ s) =
    eqb c b'#'
    && ((eqb (length s) 3 || (eqb (length s) 4 || (eqb (length s) 6 || eqb (length s) 8)))
        && all_hex s)
