-- ===== src/Url/Escape.antt =====
-- Escaping and unescaping: the round trip, and the bytes of an escaped path.
use atrium_core.Base.{
  ℕ, ◌+◌, ◌*◌, ◌/◌, ◌%◌, ◌<◌, ◌≡◌, ◌≢◌, refl, true, false, arith, Text, All, [], ◌∷◌,
}
use atrium_core.Base.{Option, some, none, Bool, if◌then◌else◌, ◌&&◌, Bool-cases, inl, inr, eqb}
use atrium_core.Url.{
  is_hex, upper_hex, should_escape, Mode, path, path_segment, query_component, escape, escape_byte,
  unescape, prepend, valid_encoded, valid_byte,
}
use atrium_core.Url.Bytes.{
  IsByte, is_hex-upper_hex, unhex-upper_hex, unhex_pair-IsByte, IsPathByte, valid_byte-IsPathByte,
}

pub unescape-cons : (c : ℕ) (s : Text) → c ≢ b'%' → unescape (c ∷ s) ≡ prepend c (unescape s)
unfolding unescape
unescape-cons c [] h = ground arith
unescape-cons c (d ∷ []) h = ground arith
unescape-cons c (d ∷ e ∷ s) h = ground arith

abbrev percent : ℕ → Text → Text
percent c rest = b'%' ∷ upper_hex (c / 16) ∷ upper_hex (c % 16) ∷ rest

unescape-percent :
    (c : ℕ) (rest : Text) → IsByte c → unescape (percent c rest) ≡ prepend c (unescape rest)
unfolding unescape
unescape-percent c rest h =
    let hi : c / 16 < 16 = omega arith in
    let lo : c % 16 < 16 = omega arith in
    let sum : c / 16 * 16 + c % 16 ≡ c = omega arith in
    rw (
      is_hex-upper_hex (c / 16) hi,
      is_hex-upper_hex (c % 16) lo,
      unhex-upper_hex (c / 16) hi,
      unhex-upper_hex (c % 16) lo,
      sum,
    )

-- The two modes that keep "+".
abbrev pub KeepsPlus : Mode → Type 0
KeepsPlus mode = mode ≢ query_component

percent_is_escaped : (mode : Mode) → should_escape mode b'%' ≡ true
unfolding should_escape
percent_is_escaped path = refl
percent_is_escaped path_segment = refl
percent_is_escaped query_component = refl

unescape-escape_byte :
    (mode : Mode) (c : ℕ) (rest : Text)
    → KeepsPlus mode
    → IsByte c
    → unescape (escape_byte mode c rest) ≡ prepend c (unescape rest)
unfolding escape_byte
unescape-escape_byte mode c rest k h = elim (Bool-cases (should_escape mode c)) [
  | inl e ↦ rw e (ground (arith, unescape-percent c rest h))
  | inr e ↦ rw e (unescape-cons c rest (λ p. cc (percent_is_escaped mode, p, e)))
]

-- Unescaping undoes escaping.
pub unescape-escape :
    (mode : Mode) (s : Text) → KeepsPlus mode → All IsByte s → unescape (escape mode s) ≡ some s
unfolding escape unescape
unescape-escape mode [] k h = refl
unescape-escape mode (c ∷ s) k (b, h) =
    rw (unescape-escape_byte mode c (escape mode s) k b, unescape-escape mode s k h)

-- What unescaping gives, where it succeeds, is made of bytes.
abbrev pub AreBytes : Option Text → Type 0
AreBytes none = Unit
AreBytes (some u) = All IsByte u

prepend-AreBytes : (c : ℕ) (o : Option Text) → IsByte c → AreBytes o → AreBytes (prepend c o)
prepend-AreBytes c none h k = tt
prepend-AreBytes c (some v) h k = (h, k)

guarded-AreBytes :
    (b : Bool) (o : Option Text) → (b ≡ true → AreBytes o) → AreBytes (if b then o else none)
guarded-AreBytes true o h = h refl
guarded-AreBytes false o h = tt

pub unescape-AreBytes : (s : Text) → All IsByte s → AreBytes (unescape s)
unfolding unescape
unescape-AreBytes [] h = tt
unescape-AreBytes (c ∷ []) h = elim (Bool-cases (eqb c b'%')) [ inl e ↦ rw e tt | inr e ↦ rw e h ]
unescape-AreBytes (c ∷ d ∷ []) (b, h) = elim (Bool-cases (eqb c b'%')) [
  | inl e ↦ rw e tt
  | inr e ↦ rw e (prepend-AreBytes c _ b (unescape-AreBytes (d ∷ []) h))
]
unescape-AreBytes (c ∷ d ∷ e ∷ s) (b, h) =
    let rest = unescape-AreBytes s h.1.1 in
    let later = unescape-AreBytes (d ∷ e ∷ s) h in
    elim (Bool-cases (eqb c b'%')) [
      | inl p ↦ rw p (
          guarded-AreBytes (is_hex d && is_hex e) _
            λ k. prepend-AreBytes _ _ (unhex_pair-IsByte d e (ground arith) (ground arith)) rest)
      | inr p ↦ rw p (prepend-AreBytes c _ b later)
    ]

upper_hex-IsPathByte : (d : ℕ) → d < 16 → IsPathByte (upper_hex d)
unfolding upper_hex
upper_hex-IsPathByte d h = ground arith

kept-IsPathByte : (c : ℕ) → should_escape path c ≡ false → IsPathByte c
unfolding valid_byte
kept-IsPathByte c e = valid_byte-IsPathByte c (rw e (ground arith))

escape_byte-IsPathByte :
    (c : ℕ) (rest : Text)
    → IsByte c
    → All IsPathByte rest
    → All IsPathByte (escape_byte path c rest)
unfolding escape_byte
escape_byte-IsPathByte c rest b h = elim (Bool-cases (should_escape path c)) [
  | inl e ↦ rw e (
    omega arith,
    (upper_hex-IsPathByte (c / 16) (omega arith), (upper_hex-IsPathByte (c % 16) (omega arith), h)),
  )
  | inr e ↦ rw e (kept-IsPathByte c e, h)
]

-- An escaped path holds only printable bytes that are safe in a path.
pub escape-IsPathByte : (s : Text) → All IsByte s → All IsPathByte (escape path s)
unfolding escape
escape-IsPathByte [] h = tt
escape-IsPathByte (c ∷ s) (b, h) =
    escape_byte-IsPathByte c (escape path s) b (escape-IsPathByte s h)

pub valid_encoded-IsPathByte : (s : Text) → valid_encoded s ≡ true → All IsPathByte s
unfolding valid_encoded
valid_encoded-IsPathByte [] h = tt
valid_encoded-IsPathByte (c ∷ s) h =
    (valid_byte-IsPathByte c (ground arith), valid_encoded-IsPathByte s (ground arith))
