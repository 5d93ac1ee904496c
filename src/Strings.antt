-- ===== src/Strings.antt =====
-- What the gateway uses of Go's strings, strconv and net packages, over bytes.
pub mod Laws
use atrium_core.Base.{ℕ, zero, suc, ◌+◌, ◌/◌, ◌%◌, Bool, true, false, ◌&&◌, ◌||◌, not}
use atrium_core.Base.{Option, none, some, List, [], ◌∷◌, ◌++◌, Text, txt, ◌==◌, eqb, ltb}
use atrium_core.Base.{if◌then◌else◌, ℤ, pos, negsuc}

-- strings.HasPrefix(s, prefix)
unfoldable pub has_prefix : Text → Text → Bool
has_prefix s [] = true
has_prefix [] (p ∷ ps) = false
has_prefix (c ∷ s) (p ∷ ps) = eqb c p && has_prefix s ps

-- strings.Contains(s, sub)
unfoldable pub contains : Text → Text → Bool
unfolding has_prefix
contains [] sub = has_prefix [] sub
contains (c ∷ s) sub = has_prefix (c ∷ s) sub || contains s sub

-- strings.IndexByte(s, b) >= 0
unfoldable pub contains_byte : ℕ → Text → Bool
contains_byte b [] = false
contains_byte b (c ∷ s) = eqb c b || contains_byte b s

abbrev pub cons_fst : ℕ → Option (Text × Text) → Option (Text × Text)
cons_fst c none = none
cons_fst c (some (before, after)) = some (c ∷ before, after)

-- strings.Cut(s, sep) for a separator of one byte; `none` where it is absent.
unfoldable pub cut : ℕ → Text → Option (Text × Text)
cut b [] = none
cut b (c ∷ s) = let later = cons_fst c (cut b s) in if eqb c b then some ([], s) else later

-- The two results of strings.Cut, the text itself and nothing where the separator is absent.
abbrev pub cut_results : Text → Option (Text × Text) → Text × Text
cut_results s none = (s, [])
cut_results s (some (before, after)) = (before, after)

unfoldable pub cut_or : ℕ → Text → Text × Text
unfolding cut
cut_or b s = cut_results s (cut b s)

-- What stands behind a prefix of a text, dropped by its length.
abbrev pub drop : Text → Text → Text
drop [] s = s
drop (p ∷ ps) [] = []
drop (p ∷ ps) (c ∷ s) = drop ps s

-- The slices of a text before and behind the first occurrence of another, as strings.Index finds it;
-- `none` where it is absent.
unfoldable pub cut_text : Text → Text → Option (Text × Text)
unfolding has_prefix
cut_text sub [] = if has_prefix [] sub then some ([], []) else none
cut_text sub (c ∷ s) =
    let later = cons_fst c (cut_text sub s) in
    if has_prefix (c ∷ s) sub then some ([], drop sub (c ∷ s)) else later

-- strings.TrimPrefix(s, prefix)
abbrev pub trim_prefix : Text → Text → Text
trim_prefix s prefix = if has_prefix s prefix then drop prefix s else s

-- The cut at the last occurrence of a byte.
unfoldable pub cut_last : ℕ → Text → Option (Text × Text)
cut_last b [] = none
cut_last b (c ∷ s) = elim (cut_last b s) [
  | some (before, after) ↦ some (c ∷ before, after)
  | none ↦ if eqb c b then some ([], s) else none
]

-- The parts of a text, from those of the text behind its first byte.
unfoldable pub split_byte : ℕ → ℕ → List Text → List Text
split_byte b c [] = [] ∷ []
split_byte b c (part ∷ parts) = if eqb c b then [] ∷ part ∷ parts else (c ∷ part) ∷ parts

-- strings.Split(s, sep) for a separator of one byte: never empty.
unfoldable pub split : ℕ → Text → List Text
unfolding split_byte
split b [] = [] ∷ []
split b (c ∷ s) = split_byte b c (split b s)

-- strings.Join(parts, sep)
unfoldable pub join : Text → List Text → Text
join sep [] = []
join sep (part ∷ []) = part
join sep (part ∷ next ∷ parts) = part ++ (sep ++ join sep (next ∷ parts))

-- The ASCII white space that strings.TrimSpace removes.
abbrev is_space : ℕ → Bool
is_space c = ltb 8 c && ltb c 14 || eqb c 32

trim_left : Text → Text
trim_left [] = []
trim_left (c ∷ s) = let rest = trim_left s in if is_space c then rest else c ∷ s

trim_right : Text → Text
trim_right [] = []
trim_right (c ∷ s) = elim (trim_right s) [
  | [] ↦ if is_space c then [] else c ∷ []
  | d ∷ t ↦ c ∷ d ∷ t
]

-- strings.TrimSpace(s)
unfoldable pub trim_space : Text → Text
unfolding trim_left trim_right
trim_space s = trim_right (trim_left s)

-- The decimal digits of a number; any fuel above the number is enough.
digits_from : ℕ → ℕ → Text
digits_from zero n = []
digits_from (suc fuel) n =
    let higher = digits_from fuel (n / 10) in
    if ltb n 10 then (48 + n) ∷ [] else higher ++ ((48 + n % 10) ∷ [])

-- strconv.Itoa and strconv.FormatInt in base ten.
unfoldable pub itoa : ℤ → Text
unfolding digits_from
itoa (pos n) = digits_from (suc n) n
itoa (negsuc n) = b'-' ∷ digits_from (suc (suc n)) (suc n)

bracketed_host : Option (Text × Text) → Option Text
bracketed_host none = none
bracketed_host (some (host, [])) = none
bracketed_host (some (host, c ∷ port)) =
    if not (eqb c b':')
      || (contains_byte b':' port || contains_byte b']' port)
      || (contains_byte b'[' host || contains_byte b'[' port)
    then none
    else some host

plain_host : Option (Text × Text) → Option Text
plain_host none = none
plain_host (some (host, port)) =
    if contains_byte b':' host
      || (contains_byte b'[' host || contains_byte b'[' port)
      || (contains_byte b']' host || contains_byte b']' port)
    then none
    else some host

-- The host that net.SplitHostPort returns, `none` where it fails.
unfoldable pub split_host : Text → Option Text
unfolding bracketed_host plain_host
split_host [] = none
split_host (c ∷ s) =
    if eqb c b'[' then bracketed_host (cut b']' s) else plain_host (cut_last b':' (c ∷ s))
