-- ===== src/Auth/Next/Slashes.antt =====
-- `safeNextPath` can return a protocol-relative URL: an escaped slash behind the first one is decoded
-- again where the path holds a byte that has to be escaped.
use atrium_core.Base.{
  ℕ, ◌≡◌, refl, ◌≢◌, false, true, some, [], ◌∷◌, ◌++◌, inl, inr, ◌∙◌, Text, arith, All, ap,
}
use mathlib.Core.List.{append-nil}
use atrium_core.Base.{◌<◌}
use atrium_core.Strings.Laws.{contains_byte-All, cut_or_absent}
use atrium_core.Url.{
  path, url_of, parse_rooted, parse_parts, escaped_path, unescape, is_unreserved, escape,
  escape_byte, valid_encoded, valid_byte, has_control, should_escape,
}
use atrium_core.Url.Reparse.{set_path-eq, escaped_path-cases}
use atrium_core.Url.Escape.{unescape-cons}
use atrium_core.Url.Parse.{parse_rooted-eq}
use atrium_core.Auth.Next.{safe_next_path, relative_only}

abbrev pub IsUnreserved : ℕ → Type 0
IsUnreserved c = is_unreserved c ≡ true

abbrev bar : Text
bar = b'|' ∷ []

unreserved-ne :
    (c : ℕ) → IsUnreserved c → (c ≢ b'%') × (c ≢ b'#') × (c ≢ b'?') × (should_escape path c ≡ false)
unfolding is_unreserved should_escape
unreserved-ne c h = ground arith

unescape-unreserved : (s : Text) → All IsUnreserved s → unescape (s ++ bar) ≡ some (s ++ bar)
unfolding unescape
unescape-unreserved [] h = refl
unescape-unreserved (c ∷ s) (p, h) =
    unescape-cons c (s ++ bar) (unreserved-ne c p).0 ∙ rw (unescape-unreserved s h)

escape-kept :
    (c : ℕ) (s : Text) → should_escape path c ≡ false → escape path (c ∷ s) ≡ c ∷ escape path s
unfolding escape escape_byte
escape-kept c s e = rw e

slash_is_kept : should_escape path b'/' ≡ false
unfolding should_escape
slash_is_kept = refl

escaped_bar : escape path bar ≡ b'%' ∷ b'7' ∷ b'C' ∷ []
unfolding escape escape_byte
escaped_bar = refl

escape-unreserved :
    (s : Text) → All IsUnreserved s → escape path (s ++ bar) ≡ s ++ b'%' ∷ b'7' ∷ b'C' ∷ []
escape-unreserved [] h = escaped_bar
escape-unreserved (c ∷ s) (p, h) =
    escape-kept c (s ++ bar) (unreserved-ne c p).3 ∙ ap (λ t. c ∷ t) (escape-unreserved s h)

bar_is_invalid : valid_byte b'|' ≡ false
unfolding valid_byte
bar_is_invalid = refl

valid_encoded-bar : (s : Text) → valid_encoded (s ++ bar) ≡ false
unfolding valid_encoded
valid_encoded-bar [] = rw bar_is_invalid
valid_encoded-bar (c ∷ s) = ground (arith, valid_encoded-bar s)

-- The path that hides a second slash in front of `s`.
abbrev pub hidden_slash : Text → Text
hidden_slash s = b'/' ∷ b'%' ∷ b'2' ∷ b'F' ∷ (s ++ bar)

unescape-hidden_slash :
    (s : Text) → All IsUnreserved s → unescape (hidden_slash s) ≡ some (b'/' ∷ b'/' ∷ (s ++ bar))
unfolding unescape
unescape-hidden_slash s h =
    unescape-cons b'/' (b'%' ∷ b'2' ∷ b'F' ∷ (s ++ bar)) (omega arith)
    ∙ rw (unescape-unreserved s h)

abbrev pub two_slashes : Text → Text
two_slashes s = b'/' ∷ b'/' ∷ (s ++ b'%' ∷ b'7' ∷ b'C' ∷ [])

escape-two_slashes :
    (s : Text) → All IsUnreserved s → escape path (b'/' ∷ b'/' ∷ (s ++ bar)) ≡ two_slashes s
escape-two_slashes s h =
    escape-kept b'/' (b'/' ∷ (s ++ bar)) slash_is_kept
    ∙ ap (λ t. b'/' ∷ t) (escape-kept b'/' (s ++ bar) slash_is_kept)
    ∙ ap (λ t. b'/' ∷ b'/' ∷ t) (escape-unreserved s h)

escaped_path-hidden_slash :
    (s : Text)
    → All IsUnreserved s
    → escaped_path (url_of (hidden_slash s) [] (b'/' ∷ b'/' ∷ (s ++ bar))) ≡ two_slashes s
escaped_path-hidden_slash s h =
    elim (escaped_path-cases (hidden_slash s) [] (b'/' ∷ b'/' ∷ (s ++ bar))) [
      | inl (_, valid) ↦ cc (valid, valid_encoded-bar (b'/' ∷ b'%' ∷ b'2' ∷ b'F' ∷ s))
      | inr fresh ↦ fresh ∙ escape-two_slashes s h
    ]

-- A byte of the path that the cuts and the control check pass over.
abbrev IsPassed : ℕ → Type 0
IsPassed c = (c ≢ b'#') × (c ≢ b'?') × (31 < c) × (c ≢ 127)

unreserved-IsPassed : (s : Text) → All IsUnreserved s → All IsPassed (s ++ bar)
unfolding is_unreserved
unreserved-IsPassed [] h = omega arith
unreserved-IsPassed (c ∷ s) (p, h) = (ground arith, unreserved-IsPassed s h)

has_control-passed : (s : Text) → All IsPassed s → has_control s ≡ false
unfolding has_control
has_control-passed [] h = refl
has_control-passed (c ∷ s) (p, h) = ground (arith, has_control-passed s h)

no_hash_passed : (s : Text) → All IsPassed s → All (λ c. c ≢ b'#') s
no_hash_passed [] h = tt
no_hash_passed (c ∷ s) (p, h) = (p.0, no_hash_passed s h)

no_question_passed : (s : Text) → All IsPassed s → All (λ c. c ≢ b'?') s
no_question_passed [] h = tt
no_question_passed (c ∷ s) (p, h) = (p.1, no_question_passed s h)

parse_rooted-hidden_slash :
    (s : Text)
    → All IsUnreserved s
    → parse_rooted (hidden_slash s) ≡ some (url_of (hidden_slash s) [] (b'/' ∷ b'/' ∷ (s ++ bar)))
unfolding parse_parts unescape
parse_rooted-hidden_slash s h =
    let passed : All IsPassed (hidden_slash s) =
      (omega arith, (omega arith, (omega arith, (omega arith, unreserved-IsPassed s h)))) in
    parse_rooted-eq (hidden_slash s) (hidden_slash s) [] (hidden_slash s) []
      (cut_or_absent b'#' (hidden_slash s)
        (contains_byte-All b'#' (hidden_slash s) (no_hash_passed (hidden_slash s) passed)))
      (cut_or_absent b'?' (hidden_slash s)
        (contains_byte-All b'?' (hidden_slash s) (no_question_passed (hidden_slash s) passed)))
    ∙ rw (has_control-passed (hidden_slash s) passed, parse_parts)
        (set_path-eq (hidden_slash s) [] _ (unescape-hidden_slash s h))

accepted :
    (s : Text) → safe_next_path (hidden_slash s) ≡ relative_only (parse_rooted (hidden_slash s))
unfolding safe_next_path
accepted s = refl

-- For every host name of unreserved bytes, `safeNextPath` turns "/%2F", the name and "|" into a
-- URL that is relative to the protocol: "//", the name and "%7C".
pub safe_next_path-hidden_slash :
    (s : Text) → All IsUnreserved s → safe_next_path (hidden_slash s) ≡ two_slashes s
safe_next_path-hidden_slash s h =
    accepted s
    ∙ ap relative_only (parse_rooted-hidden_slash s h)
    ∙ ap (λ t. t ++ []) (escaped_path-hidden_slash s h)
    ∙ append-nil (two_slashes s)
