-- ===== src/Provider/Paths.antt =====
-- The paths of the backend calls: an identifier stays within its segment, except for "." and "..".
use atrium_core.Base.{
  ℕ, ◌/◌, ◌%◌, ◌<◌, ◌≡◌, ◌≢◌, ap, ◌∙◌, false, some, List, [], ◌∷◌, ◌++◌, Text, txt, All, arith,
  Bool-cases, inl, inr,
}
use atrium_core.Strings.{split}
use atrium_core.Strings.Laws.{split-append}
use atrium_core.Url.{
  path_segment, path_escape, escape, escape_byte, should_escape, upper_hex, unescape,
}
use atrium_core.Url.Bytes.{IsByte}
use atrium_core.Url.Escape.{unescape-escape}
use atrium_core.Provider.Operations.{share_path}

-- A byte that may stand in a path segment: no "/", "?" or "#".
abbrev pub IsSegmentByte : ℕ → Type 0
IsSegmentByte c = (c ≢ b'/') × (c ≢ b'?') × (c ≢ b'#')

upper_hex-IsSegmentByte : (d : ℕ) → d < 16 → IsSegmentByte (upper_hex d)
unfolding upper_hex
upper_hex-IsSegmentByte d h = ground arith

kept-IsSegmentByte : (c : ℕ) → should_escape path_segment c ≡ false → IsSegmentByte c
unfolding should_escape
kept-IsSegmentByte c e = ground arith

escape_byte-IsSegmentByte :
    (c : ℕ) (rest : Text)
    → IsByte c
    → All IsSegmentByte rest
    → All IsSegmentByte (escape_byte path_segment c rest)
unfolding escape_byte
escape_byte-IsSegmentByte c rest b h = elim (Bool-cases (should_escape path_segment c)) [
  | inl e ↦ rw e (
    omega arith,
    (
      upper_hex-IsSegmentByte (c / 16) (omega arith),
      (upper_hex-IsSegmentByte (c % 16) (omega arith), h),
    ),
  )
  | inr e ↦ rw e (kept-IsSegmentByte c e, h)
]

path_escape-IsSegmentByte : (s : Text) → All IsByte s → All IsSegmentByte (path_escape s)
unfolding escape
path_escape-IsSegmentByte [] h = tt
path_escape-IsSegmentByte (c ∷ s) (b, h) =
    escape_byte-IsSegmentByte c (path_escape s) b (path_escape-IsSegmentByte s h)

no_slash : (s : Text) → All IsSegmentByte s → All (λ c. c ≢ b'/') s
no_slash [] h = tt
no_slash (c ∷ s) (p, h) = (p.0, no_slash s h)

abbrev prefix : List Text → List Text
prefix parts = [] ∷ txt "api" ∷ txt "v1" ∷ txt "shares" ∷ parts

split-prefix : (s : Text) → split b'/' (txt "/api/v1/shares/" ++ s) ≡ prefix (split b'/' s)
unfolding txt
split-prefix s =
    split-append b'/' [] (txt "api/v1/shares/" ++ s) tt
    ∙ ap (λ t. [] ∷ t) (split-append b'/' (txt "api") (txt "v1/shares/" ++ s) (omega arith))
    ∙ ap (λ t. [] ∷ txt "api" ∷ t) (split-append b'/' (txt "v1") (txt "shares/" ++ s) (omega arith))
    ∙ ap (λ t. [] ∷ txt "api" ∷ txt "v1" ∷ t) (split-append b'/' (txt "shares") s (omega arith))

-- For every share ID and every rest of the path: the elements of the backend path are those of
-- "/api/v1/shares", then one element that decodes to the ID and holds no "/", "?" or "#", then those
-- of the rest.
pub share_path-split :
    (share_id rest : Text)
    → All IsByte share_id
    → (split b'/' (share_path share_id (b'/' ∷ rest))
        ≡ [] ∷ txt "api" ∷ txt "v1" ∷ txt "shares" ∷ path_escape share_id ∷ split b'/' rest)
      × (unescape (path_escape share_id) ≡ some share_id)
      × All IsSegmentByte (path_escape share_id)
share_path-split share_id rest h =
    let safe = path_escape-IsSegmentByte share_id h in
    (
      split-prefix (path_escape share_id ++ b'/' ∷ rest)
          ∙ ap (λ t. prefix t) (split-append b'/' (path_escape share_id) rest (no_slash _ safe)),
      unescape-escape path_segment share_id (λ e. cc) h,
      safe,
    )
