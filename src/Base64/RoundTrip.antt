-- ===== src/Base64/RoundTrip.antt =====
-- Decoding undoes encoding, and an encoded text holds neither a dot nor a line break.
use atrium_core.Base.{ℕ, ◌+◌, ◌*◌, ◌/◌, ◌%◌, ◌<◌, ◌≡◌, ◌≢◌, refl, some, [], ◌∷◌, Text, All, arith}
use atrium_core.Url.Bytes.{IsByte}
use atrium_core.Base64.{digit, value, encode, decode, decode_quanta, skip_newlines}

value-digit : (d : ℕ) → d < 64 → value (digit d) ≡ some d
unfolding value digit
value-digit d h = ground arith

-- A digit is no dot and no line break.
abbrev pub IsDigit : ℕ → Type 0
IsDigit c = (c ≢ b'.') × (c ≢ 13) × (c ≢ 10)

digit-IsDigit : (d : ℕ) → d < 64 → IsDigit (digit d)
unfolding digit
digit-IsDigit d h = ground arith

pub encode-IsDigit : (s : Text) → All IsByte s → All IsDigit (encode s)
unfolding encode
encode-IsDigit [] h = tt
encode-IsDigit (a ∷ []) h = (digit-IsDigit _ (omega arith), (digit-IsDigit _ (omega arith), tt))
encode-IsDigit (a ∷ b ∷ []) h = (
  digit-IsDigit _ (omega arith),
  (digit-IsDigit _ (omega arith), (digit-IsDigit _ (omega arith), tt)),
)
encode-IsDigit (a ∷ b ∷ c ∷ s) h = (
  digit-IsDigit _ (omega arith),
  (
    digit-IsDigit _ (omega arith),
    (digit-IsDigit _ (omega arith), (digit-IsDigit _ (omega arith), encode-IsDigit s h.1.1.1)),
  ),
)

skip_newlines-IsDigit : (s : Text) → All IsDigit s → skip_newlines s ≡ s
unfolding skip_newlines
skip_newlines-IsDigit [] h = refl
skip_newlines-IsDigit (c ∷ s) (p, h) = ground (arith, skip_newlines-IsDigit s h)

decode_quanta-encode : (s : Text) → All IsByte s → decode_quanta (encode s) ≡ some s
unfolding encode decode_quanta
decode_quanta-encode [] h = refl
decode_quanta-encode (a ∷ []) h =
    rw (value-digit (a / 4) (omega arith), value-digit (a % 4 * 16) (omega arith)) (ground arith)
decode_quanta-encode (a ∷ b ∷ []) h =
    rw
      (
        value-digit (a / 4) (omega arith),
        value-digit (a % 4 * 16 + b / 16) (omega arith),
        value-digit (b % 16 * 4) (omega arith),
      )
      (ground arith)
decode_quanta-encode (a ∷ b ∷ c ∷ s) h =
    rw
      (
        value-digit (a / 4) (omega arith),
        value-digit (a % 4 * 16 + b / 16) (omega arith),
        value-digit (b % 16 * 4 + c / 64) (omega arith),
        value-digit (c % 64) (omega arith),
        decode_quanta-encode s h.1.1.1,
      )
      (ground arith)

pub decode-encode : (s : Text) → All IsByte s → decode (encode s) ≡ some s
unfolding decode
decode-encode s h =
    rw (skip_newlines-IsDigit (encode s) (encode-IsDigit s h)) (decode_quanta-encode s h)
