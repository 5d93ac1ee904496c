-- ===== src/Slog.antt =====
-- What the gateway uses of log/slog: levels, attributes, and the JSON handler with its floor and
-- its ReplaceAttr hook. A line is what the handler writes.
use atrium_core.Base.{Bool, true, false, ℕ, ◌-◌, ◌+◌, ◌*◌, suc, zero, ◌&&◌}
use atrium_core.Base.{Option, none, some, List, [], ◌∷◌, map, Text, txt, ◌==◌, eqb, leb}
use atrium_core.Base.{if◌then◌else◌, ℤ, pos, negsuc, ◌+ℤ◌, lebℤ}
use atrium_core.Strings.{itoa}

-- slog.Level
abbrev pub Level : Type 0
Level = ℤ

abbrev pub level_debug : Level
level_debug = negsuc 3

abbrev pub level_info : Level
level_info = pos 0

abbrev pub level_warn : Level
level_warn = pos 4

abbrev pub level_error : Level
level_error = pos 8

pub data Value : Type 0 where
  string : Text → Value
  int64 : ℤ → Value
  level : Level → Value
  boolean : Bool → Value

pub record Attr : Type 0 where
  pub key : Text
  pub value : Value

-- Value.String, with a level, which no attribute that is hashed holds, shown as its number.
unfoldable pub value_string : Value → Text
value_string (string s) = s
value_string (int64 n) = itoa n
value_string (level l) = itoa l
value_string (boolean true) = txt "true"
value_string (boolean false) = txt "false"

pub record Line : Type 0 where
  pub severity : Value
  pub message : Text
  pub attrs : List Attr

-- slog.HandlerOptions of a JSON handler; the hook takes the open groups and an attribute.
pub record Logger : Type 0 where
  pub level : Level
  pub replace_attr : List Text → Attr → Attr

-- Logger.LogAttrs: nothing below the floor; above it the hook sees the level and every attribute.
unfoldable pub log_attrs : Logger → Level → Text → List Attr → List Line
log_attrs logger at message attrs =
    if lebℤ logger.level at
    then record {
      severity = (logger.replace_attr [] (record { key = txt "level"; value = level at })).value;
      message = message;
      attrs = map (logger.replace_attr []) attrs;
    }
      ∷ []
    else []

-- The level name before the first sign, and the offset behind it.
upper : ℕ → ℕ
upper c = if leb b'a' c && leb c b'z' then c - 32 else c

digit : ℕ → Option ℕ
digit c = if leb b'0' c && leb c b'9' then some (c - 48) else none

-- strconv.Atoi of the digits behind a sign, without the range check of int.
atoi_from : ℕ → Text → Option ℕ
atoi_from acc [] = some acc
atoi_from acc (c ∷ s) = elim (digit c) [ none ↦ none | some d ↦ atoi_from (acc * 10 + d) s ]

atoi : Text → Option ℕ
atoi [] = none
atoi (c ∷ s) = atoi_from 0 (c ∷ s)

abbrev negate : ℕ → ℤ
negate zero = pos 0
negate (suc n) = negsuc n

abbrev prepend : ℕ → Text × Option ℤ → Text × Option ℤ
prepend c (name, offset) = (upper c ∷ name, offset)

split_offset : Text → Text × Option ℤ
split_offset [] = ([], some (pos 0))
split_offset (c ∷ s) =
    let later = prepend c (split_offset s) in
    if eqb c b'+'
    then ([], (elim (atoi s) [ none ↦ none | some n ↦ some (pos n) ]))
    else if eqb c b'-'
    then ([], (elim (atoi s) [ none ↦ none | some n ↦ some (negate n) ]))
    else later

named_level : Text → Option Level
named_level name =
    if name == txt "DEBUG"
    then some level_debug
    else if name == txt "INFO"
    then some level_info
    else if name == txt "WARN"
    then some level_warn
    else if name == txt "ERROR"
    then some level_error
    else none

add_offset : Option Level → Option ℤ → Option Level
add_offset none offset = none
add_offset (some l) none = none
add_offset (some l) (some d) = some (l +ℤ d)

-- Level.UnmarshalText: a level name in any case, with an optional offset such as "error+5".
unfoldable pub unmarshal_level : Text → Option Level
unfolding split_offset named_level add_offset atoi atoi_from digit upper
unmarshal_level raw = let (name, offset) = split_offset raw in add_offset (named_level name) offset
