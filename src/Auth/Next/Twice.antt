-- ===== src/Auth/Next/Twice.antt =====
-- `safeNextPath` applied to its own result, as the callback does with the cookie that the login set.
use mathlib.Core.List.{append-nil}
use atrium_core.Base.{
  ◌≡◌, refl, ◌≢◌, false, true, some, [], ◌∷◌, ◌++◌, Bool-cases, inl, inr, ◌∙◌, if◌then◌else◌,
}
use atrium_core.Base.{Text, arith, All, All-append, ap}
use atrium_core.Strings.{has_prefix, cut_or}
use atrium_core.Strings.Laws.{contains_byte-All, cut_or-append, cut_or_absent}
use atrium_core.Url.{url_of, parse_rooted, parse_parts, unescape}
use atrium_core.Url.Bytes.{IsByte, IsPathByte}
use atrium_core.Url.Reparse.{escaped_path-IsPathByte, escaped_path_twice, set_path-eq}
use atrium_core.Url.Parse.{IsQueryByte, parse_rooted-eq, has_control-eq-false}
use atrium_core.Auth.Next.{safe_next_path, relative_only}
use atrium_core.Auth.Next.Safety.{
  query_part, Accepted, no_question, safe_next_path-cases, escaped_path-rooted,
}

pub query_part-IsQueryByte : (q : Text) → All IsQueryByte q → All IsQueryByte (query_part q)
query_part-IsQueryByte [] h = tt
query_part-IsQueryByte (c ∷ q) h = (omega arith, h)

pub path-IsQueryByte : (t : Text) → All IsPathByte t → All IsQueryByte t
path-IsQueryByte [] h = tt
path-IsQueryByte (c ∷ t) (p, h) = ((omega arith, omega arith, p.2), path-IsQueryByte t h)

pub query-ne-hash : (t : Text) → All IsQueryByte t → All (λ c. c ≢ b'#') t
query-ne-hash [] h = tt
query-ne-hash (c ∷ t) (p, h) = (p.2, query-ne-hash t h)

cut_query : (t q : Text) → All IsPathByte t → cut_or b'?' (t ++ query_part q) ≡ (t, q)
cut_query t [] h = rw append-nil (cut_or_absent b'?' t (contains_byte-All b'?' t (no_question t h)))
cut_query t (c ∷ q) h = cut_or-append b'?' t (c ∷ q) (contains_byte-All b'?' t (no_question t h))

-- A path of safe bytes with a query is parsed into these two.
parse_rooted-shown :
    (t q u : Text)
    → All IsPathByte t
    → All IsQueryByte q
    → unescape t ≡ some u
    → parse_rooted (t ++ query_part q) ≡ some (url_of t q u)
unfolding parse_parts unescape
parse_rooted-shown t q u h k e =
    let whole =
      All-append IsQueryByte t (query_part q) (path-IsQueryByte t h) (query_part-IsQueryByte q k) in
    parse_rooted-eq (t ++ query_part q) (t ++ query_part q) [] t q
      (cut_or_absent b'#' (t ++ query_part q) (contains_byte-All b'#' _ (query-ne-hash _ whole)))
      (cut_query t q h)
    ∙ rw (has_control-eq-false (t ++ query_part q) whole, parse_parts) (set_path-eq t q u e)

pub not_protocol_relative :
    (s : Text)
    → has_prefix (b'/' ∷ s) (b'/' ∷ b'/' ∷ []) ≡ false
    → safe_next_path (b'/' ∷ s) ≡ relative_only (parse_rooted (b'/' ∷ s))
unfolding safe_next_path
not_protocol_relative s h = ground arith

pub protocol_relative : (r : Text) → has_prefix r (b'/' ∷ b'/' ∷ []) ≡ true → safe_next_path r ≡ []
unfolding safe_next_path
protocol_relative [] h = refl
protocol_relative (c ∷ s) h = ground arith

pub empty_twice : safe_next_path [] ≡ []
unfolding safe_next_path
empty_twice = refl

Accepted-twice :
    (raw : Text)
    → Accepted raw
    → has_prefix (safe_next_path raw) (b'/' ∷ b'/' ∷ []) ≡ false
    → safe_next_path (safe_next_path raw) ≡ safe_next_path raw
Accepted-twice raw a h =
    let (t, e) = escaped_path-rooted a.p a.query a.u a.decoded in
    let safe = rw e at (escaped_path-IsPathByte (b'/' ∷ a.p) a.query a.u a.u_bytes) in
    let (again, same) =
      rw e at (escaped_path_twice (b'/' ∷ a.p) a.query a.query a.u a.decoded a.u_bytes) in
    let r : safe_next_path raw ≡ (b'/' ∷ t) ++ query_part a.query =
      a.shown ∙ ap (λ s. s ++ query_part a.query) e in
    rw r (
      not_protocol_relative (t ++ query_part a.query) (rw r at h)
      ∙ (ap relative_only (parse_rooted-shown (b'/' ∷ t) a.query a.u safe a.query_clean again)
          ∙ ap (λ s. s ++ query_part a.query) same))

-- A result passed through `safeNextPath` again comes back unchanged, unless it begins with two
-- slashes: then nothing comes back.
pub safe_next_path_twice :
    (raw : Text)
    → All IsByte raw
    → safe_next_path (safe_next_path raw)
      ≡ (if has_prefix (safe_next_path raw) (b'/' ∷ b'/' ∷ []) then [] else safe_next_path raw)
safe_next_path_twice raw h =
    elim (Bool-cases (has_prefix (safe_next_path raw) (b'/' ∷ b'/' ∷ []))) [
      | inl e ↦ rw e (protocol_relative (safe_next_path raw) e)
      | inr e ↦ rw e (elim (safe_next_path-cases raw h) [
        | inl nothing ↦ rw nothing empty_twice
        | inr a ↦ Accepted-twice raw a e
      ])
    ]
