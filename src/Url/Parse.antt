-- ===== src/Url/Parse.antt =====
-- What the parse of a rooted reference returns.
use atrium_core.Base.{
  ℕ, ◌≡◌, refl, ◌≢◌, ◌≤◌, false, none, some, [], ◌∷◌, Bool-cases, Option-cases, inl, inr, ◌⊎◌, ◌∙◌,
}
use atrium_core.Base.{Text, arith, All}
use atrium_core.Strings.{cut_or}
use atrium_core.Strings.Laws.{cut_or-All, cut_or-ne, cut_or-cons}
use atrium_core.Url.{url_of, parse_rooted, parse_parts, set_path, has_control, unescape}
use atrium_core.Url.Bytes.{IsByte}
use atrium_core.Url.Reparse.{set_path-eq}

-- A byte of a query: no control character and no "#".
abbrev pub IsQueryByte : ℕ → Type 0
IsQueryByte c = (32 ≤ c) × (c ≢ 127) × (c ≢ b'#')

has_control-All : (s : Text) → has_control s ≡ false → All (λ c. c ≢ b'#') s → All IsQueryByte s
unfolding has_control
has_control-All [] h k = tt
has_control-All (c ∷ s) h (p, k) =
    ((ground arith, ground arith, p), has_control-All s (ground arith) k)

pub has_control-eq-false : (s : Text) → All IsQueryByte s → has_control s ≡ false
unfolding has_control
has_control-eq-false [] h = refl
has_control-eq-false (c ∷ s) (p, h) = ground (arith, has_control-eq-false s h)

pub record Parsed (raw : Text) : Type 0 where
  pub p : Text
  pub query : Text
  pub u : Text
  pub result : parse_rooted raw ≡ some (url_of (b'/' ∷ p) query u)
  pub decoded : unescape (b'/' ∷ p) ≡ some u
  pub query_clean : All IsQueryByte query
  pub p_bytes : All IsByte p

-- The parse, from what the two cuts return.
pub parse_rooted-eq :
    (raw before fragment p query : Text)
    → cut_or b'#' raw ≡ (before, fragment)
    → cut_or b'?' before ≡ (p, query)
    → parse_rooted raw ≡ parse_parts before fragment p query
unfolding parse_rooted
parse_rooted-eq raw before fragment p query e f = rw (e, f)

pub parse_rooted-Parsed :
    (s : Text) → All IsByte s → (parse_rooted (b'/' ∷ s) ≡ none) ⊎ Parsed (b'/' ∷ s)
unfolding parse_parts
parse_rooted-Parsed s bytes =
    let (before, fragment) = cut_or b'#' s in
    let (p, query) = cut_or b'?' before in
    let clean_before : All IsByte before = (cut_or-All IsByte b'#' s bytes).0 in
    let parse =
      parse_rooted-eq (b'/' ∷ s) (b'/' ∷ before) fragment (b'/' ∷ p) query
        (cut_or-cons b'#' b'/' s (omega arith)) (cut_or-cons b'?' b'/' before (omega arith)) in
    elim (Bool-cases (has_control (b'/' ∷ before))) [
      | inl e ↦ inl (parse ∙ rw (e, parse_parts))
      | inr e ↦ elim (Option-cases (unescape fragment)) [
        | inl f ↦ inl (parse ∙ rw (e, f, parse_parts))
        | inr (_, f) ↦ elim (Option-cases (unescape (b'/' ∷ p))) [
          | inl g ↦ inl (parse ∙ rw (e, f, parse_parts) (rw (g, set_path)))
          | inr (u, g) ↦ inr (record {
            p = p;
            query = query;
            u = u;
            result = parse ∙ rw (e, f, parse_parts) (set_path-eq (b'/' ∷ p) query u g);
            decoded = g;
            query_clean =
                (cut_or-All IsQueryByte b'?' before
                  (has_control-All (b'/' ∷ before) e (omega arith, cut_or-ne b'#' s)).1).1;
            p_bytes = (cut_or-All IsByte b'?' before clean_before).0;
          })
        ]
      ]
    ]
