-- ===== src/Auth/Next/Safety.antt =====
-- What `safeNextPath` accepts and returns, and where the callback's redirect leads.
use atrium_core.Base.{
  ℕ, ◌≡◌, refl, ◌≢◌, false, none, some, [], ◌∷◌, ◌++◌, Option, Bool-cases, inl, inr, ◌⊎◌, ◌∙◌,
  if◌then◌else◌,
}
use atrium_core.Base.{Text, arith, All, is_empty, eqb, ap, sym}
use mathlib.Core.List.{append-nil}
use atrium_core.Strings.{cut, has_prefix}
use atrium_core.Strings.Laws.{contains_byte-All, cut-append, cut-eq-none}
use atrium_core.Url.{
  path, url_of, parse_rooted, escaped_path, unescape, prepend, escape, escape_byte,
}
use atrium_core.Url.Bytes.{IsByte, IsPathByte}
use atrium_core.Url.Escape.{unescape-cons, unescape-AreBytes}
use atrium_core.Url.Reparse.{escaped_path-IsPathByte, escaped_path-cases}
use atrium_core.Url.Parse.{IsQueryByte, parse_rooted-Parsed}
use atrium_core.Path.{redirect_target}
use atrium_core.Path.Laws.{IsLocal, NoBackslash, path_part, redirect_target-IsLocal}
use atrium_core.Auth.Next.{safe_next_path, relative_only, next_of_cookie, or_root}

abbrev pub query_part : Text → Text
query_part query = if is_empty query then [] else b'?' ∷ query

-- What is known of a result that is not empty: a rooted path of safe bytes, and a query.
pub record Accepted (raw : Text) : Type 0 where
  pub p : Text
  pub u : Text
  pub query : Text
  pub shown : safe_next_path raw ≡ escaped_path (url_of (b'/' ∷ p) query u) ++ query_part query
  pub decoded : unescape (b'/' ∷ p) ≡ some u
  pub u_bytes : All IsByte u
  pub query_clean : All IsQueryByte query

decoded-AreBytes : (s u : Text) → All IsByte s → unescape s ≡ some u → All IsByte u
decoded-AreBytes s u h e = rw e at (unescape-AreBytes s h)

rooted-Accepted :
    (s : Text)
    → All IsByte s
    → safe_next_path (b'/' ∷ s) ≡ relative_only (parse_rooted (b'/' ∷ s))
    → (safe_next_path (b'/' ∷ s) ≡ []) ⊎ Accepted (b'/' ∷ s)
rooted-Accepted s h same = elim (parse_rooted-Parsed s h) [
  | inl e ↦ inl (same ∙ rw e)
  | inr parsed ↦ inr (record {
    p = parsed.p;
    u = parsed.u;
    query = parsed.query;
    shown = same ∙ rw parsed.result;
    decoded = parsed.decoded;
    u_bytes =
        decoded-AreBytes (b'/' ∷ parsed.p) parsed.u (omega arith, parsed.p_bytes) parsed.decoded;
    query_clean = parsed.query_clean;
  })
]

pub safe_next_path-cases : (raw : Text) → All IsByte raw → (safe_next_path raw ≡ []) ⊎ Accepted raw
unfolding safe_next_path
safe_next_path-cases [] h = inl refl
safe_next_path-cases (c ∷ s) (b, h) = elim (Bool-cases (eqb c b'/')) [
  | inr e ↦ inl (ground arith)
  | inl e ↦ elim (Bool-cases (has_prefix s (b'/' ∷ []))) [
    | inl f ↦ inl (ground arith)
    | inr f ↦ let slash : c ≡ b'/' = ground arith in rw slash (rooted-Accepted s h (ground arith))
  ]
]

-- The escaped path of a rooted raw path is rooted.
prepend-eq-some :
    (c : ℕ) (o : Option Text) (u : Text) → prepend c o ≡ some u → (v : Text) × (u ≡ c ∷ v)
prepend-eq-some c none u e = absurd (cc)
prepend-eq-some c (some v) u e = (v, ground arith)

pub escaped_path-rooted :
    (p query u : Text)
    → unescape (b'/' ∷ p) ≡ some u
    → (t : Text) × (escaped_path (url_of (b'/' ∷ p) query u) ≡ b'/' ∷ t)
unfolding escape escape_byte
escaped_path-rooted p query u e =
    let (v, rooted) =
      prepend-eq-some b'/' (unescape p) u (sym (unescape-cons b'/' p (omega arith)) ∙ e) in
    elim (escaped_path-cases (b'/' ∷ p) query u) [
      | inl (kept, _) ↦ (p, kept)
      | inr fresh ↦ (escape path v, fresh ∙ ap (escape path) rooted)
    ]

-- A result: a rooted path of safe bytes, then a query of safe bytes.
pub record IsSafeNext (r : Text) : Type 0 where
  pub rest : Text
  pub query : Text
  pub same : r ≡ (b'/' ∷ rest) ++ query_part query
  pub rest_safe : All IsPathByte rest
  pub query_safe : All IsQueryByte query

Accepted-IsSafeNext : (raw : Text) → Accepted raw → IsSafeNext (safe_next_path raw)
Accepted-IsSafeNext raw a =
    let (t, e) = escaped_path-rooted a.p a.query a.u a.decoded in
    let safe = escaped_path-IsPathByte (b'/' ∷ a.p) a.query a.u a.u_bytes in
    record {
      rest = t;
      query = a.query;
      same = a.shown ∙ ap (λ s. s ++ query_part a.query) e;
      rest_safe = (rw e at safe).1;
      query_safe = a.query_clean;
    }

-- Whatever bytes `safeNextPath` is given, it returns nothing, or a path that begins with a slash and
-- holds only printable bytes without quote, backslash, angle bracket or "#", followed by a query
-- without control characters and "#".
pub safe_next_path-IsSafeNext :
    (raw : Text) → All IsByte raw → (safe_next_path raw ≡ []) ⊎ IsSafeNext (safe_next_path raw)
safe_next_path-IsSafeNext raw h = elim (safe_next_path-cases raw h) [
  | inl e ↦ inl e
  | inr a ↦ inr (Accepted-IsSafeNext raw a)
]

pub no_question : (t : Text) → All IsPathByte t → All (λ c. c ≢ b'?') t
no_question [] h = tt
no_question (c ∷ t) (p, h) = (p.3, no_question t h)

pub no_hash : (t : Text) → All IsPathByte t → All (λ c. c ≢ b'#') t
no_hash [] h = tt
no_hash (c ∷ t) (p, h) = (p.2, no_hash t h)

no_backslash : (t : Text) → All IsPathByte t → All NoBackslash t
no_backslash [] h = tt
no_backslash (c ∷ t) (p, h) = (p.4, no_backslash t h)

path_part-query : (t query : Text) → All IsPathByte t → path_part (t ++ query_part query) ≡ t
path_part-query t [] h =
    rw append-nil (rw (cut-eq-none b'?' t (contains_byte-All b'?' t (no_question t h)), path_part))
path_part-query t (c ∷ q) h =
    rw (cut-append b'?' t (c ∷ q) (contains_byte-All b'?' t (no_question t h)), path_part)

pub IsSafeNext-IsLocal :
    (r : Text)
    → IsSafeNext r
    → has_prefix r (b'/' ∷ b'/' ∷ []) ≡ false
    → IsLocal (redirect_target r)
unfolding has_prefix
IsSafeNext-IsLocal r n h =
    let one_slash : has_prefix (n.rest ++ query_part n.query) (b'/' ∷ []) ≡ false =
      rw n.same at h in
    rw n.same (
      redirect_target-IsLocal (n.rest ++ query_part n.query) one_slash
        (rw (path_part-query n.rest n.query n.rest_safe) (no_backslash n.rest n.rest_safe)))

pub root-IsLocal : IsLocal (redirect_target (b'/' ∷ []))
unfolding cut has_prefix
root-IsLocal = redirect_target-IsLocal [] refl tt

or_root-IsLocal :
    (r : Text)
    → (r ≡ []) ⊎ IsSafeNext r
    → has_prefix (or_root r) (b'/' ∷ b'/' ∷ []) ≡ false
    → IsLocal (redirect_target (or_root r))
or_root-IsLocal [] h k = root-IsLocal
or_root-IsLocal (c ∷ r) (inl e) k = absurd (cc)
or_root-IsLocal (c ∷ r) (inr n) k = IsSafeNext-IsLocal (c ∷ r) n k

abbrev AreCookieBytes : Option Text → Type 0
AreCookieBytes none = Unit
AreCookieBytes (some value) = All IsByte value

-- Whatever bytes the cookie holds, or if there is none: where the path that the callback takes from it does
-- not begin with two slashes, the Location of its redirect begins with one slash, followed by neither a
-- slash nor a backslash.
pub next_of_cookie-IsLocal :
    (c : Option Text)
    → AreCookieBytes c
    → has_prefix (next_of_cookie c) (b'/' ∷ b'/' ∷ []) ≡ false
    → IsLocal (redirect_target (next_of_cookie c))
unfolding next_of_cookie
next_of_cookie-IsLocal none h k = root-IsLocal
next_of_cookie-IsLocal (some value) h k =
    or_root-IsLocal (safe_next_path value) (safe_next_path-IsSafeNext value h) k
