-- ===== src/Auth/Next/Carried.antt =====
-- The path to return to, carried by a cookie that drops some of its bytes.
use mathlib.Core.List.{append-nil}
use atrium_core.Base.{
  ℕ, ◌≡◌, refl, ap, ◌∙◌, true, false, [], ◌∷◌, ◌++◌, Text, All, All-append, Bool-cases,
  Option-cases, inl, inr, ◌⊎◌, arith, is_empty,
}
use atrium_core.Strings.{has_prefix, cut_or}
use atrium_core.Strings.Laws.{contains_byte-All, cut_or-append, cut_or_absent}
use atrium_core.Http.{is_cookie_byte, sanitized}
use atrium_core.SignedCookie.Written.{sanitized-append}
use atrium_core.Url.{url_of, parse_parts, set_path, unescape, escaped_path, valid_encoded}
use atrium_core.Url.Bytes.{IsByte, IsPathByte}
use atrium_core.Url.Escape.{valid_encoded-IsPathByte}
use atrium_core.Url.Reparse.{
  escaped_path-cases, set_path-eq, escaped_path_valid, valid_encoded-escape,
}
use atrium_core.Url.Parse.{IsQueryByte, parse_rooted-eq, has_control-eq-false}
use atrium_core.Path.{redirect_target}
use atrium_core.Path.Laws.{IsLocal}
use atrium_core.Auth.Next.{safe_next_path, relative_only, or_root}
use atrium_core.Auth.Next.Safety.{
  query_part, Accepted, no_question, safe_next_path-cases, escaped_path-rooted, IsSafeNext-IsLocal,
  root-IsLocal,
}
use atrium_core.Auth.Next.Twice.{
  empty_twice, not_protocol_relative, protocol_relative, path-IsQueryByte, query_part-IsQueryByte,
  query-ne-hash,
}

sanitized-All : (P : ℕ → Type 0) (s : Text) → All P s → All P (sanitized s)
sanitized-All P [] h = tt
sanitized-All P (c ∷ s) (p, h) = elim (Bool-cases (is_cookie_byte c)) [
  | inl e ↦ rw e (p, sanitized-All P s h)
  | inr e ↦ rw e (sanitized-All P s h)
]

sanitized-valid_encoded : (s : Text) → valid_encoded s ≡ true → valid_encoded (sanitized s) ≡ true
unfolding valid_encoded
sanitized-valid_encoded [] h = refl
sanitized-valid_encoded (c ∷ s) h =
    let rest = sanitized-valid_encoded s (ground arith) in
    elim (Bool-cases (is_cookie_byte c)) [ inl e ↦ rw e (ground arith) | inr e ↦ rw e rest ]

sanitized_query-cut :
    (x q : Text)
    → All IsPathByte x
    → All IsQueryByte q
    → (q' : Text) × (cut_or b'?' (x ++ sanitized (query_part q)) ≡ (x, q')) × All IsQueryByte q'
sanitized_query-cut x [] h k =
    ([], rw append-nil (cut_or_absent b'?' x (contains_byte-All b'?' x (no_question x h))), tt)
sanitized_query-cut x (c ∷ q) h k = (
  sanitized (c ∷ q),
  cut_or-append b'?' x (sanitized (c ∷ q)) (contains_byte-All b'?' x (no_question x h)),
  sanitized-All IsQueryByte (c ∷ q) k,
)

relative_only-kept :
    (x q : Text)
    → is_empty x ≡ false
    → valid_encoded x ≡ true
    → (relative_only (set_path x q) ≡ []) ⊎ (relative_only (set_path x q) ≡ x ++ query_part q)
unfolding set_path
relative_only-kept x q n valid = elim (Option-cases (unescape x)) [
  | inl e ↦ inl (rw (e, set_path) refl)
  | inr (u, e) ↦ inr (
      ap relative_only (set_path-eq x q u e)
      ∙ ap (λ s. s ++ query_part q) (escaped_path_valid x q u n valid))
]

behind_slash :
    (y tail q : Text)
    → has_prefix (y ++ tail) (b'/' ∷ []) ≡ false
    → has_prefix (y ++ query_part q) (b'/' ∷ []) ≡ false
unfolding has_prefix
behind_slash [] tail [] h = refl
behind_slash [] tail (c ∷ q) h = refl
behind_slash (c ∷ y) tail q h = h

module _ (y tail q : Text) where
  -- A text whose path is validly escaped comes back from safeNextPath with that path, or not at all.
  safe_next_path-kept :
      has_prefix ((b'/' ∷ y) ++ tail) (b'/' ∷ b'/' ∷ []) ≡ false
      → valid_encoded (b'/' ∷ y) ≡ true
      → All IsQueryByte ((b'/' ∷ y) ++ tail)
      → cut_or b'?' ((b'/' ∷ y) ++ tail) ≡ (b'/' ∷ y, q)
      → (safe_next_path ((b'/' ∷ y) ++ tail) ≡ [])
        ⊎ (safe_next_path ((b'/' ∷ y) ++ tail) ≡ (b'/' ∷ y) ++ query_part q)
  unfolding parse_parts unescape
  safe_next_path-kept h valid clean parts =
      let v = (b'/' ∷ y) ++ tail in
      let parsed : safe_next_path v ≡ relative_only (set_path (b'/' ∷ y) q) =
        not_protocol_relative (y ++ tail) h
        ∙ ap relative_only (
            parse_rooted-eq v v [] (b'/' ∷ y) q
              (cut_or_absent b'#' v (contains_byte-All b'#' v (query-ne-hash v clean))) parts
            ∙ rw (has_control-eq-false v clean, parse_parts) refl) in
      elim (relative_only-kept (b'/' ∷ y) q refl valid) [
        | inl e ↦ inl (parsed ∙ e)
        | inr e ↦ inr (parsed ∙ e)
      ]

  one_slash :
      has_prefix ((b'/' ∷ y) ++ tail) (b'/' ∷ b'/' ∷ []) ≡ false
      → has_prefix ((b'/' ∷ y) ++ query_part q) (b'/' ∷ b'/' ∷ []) ≡ false
  unfolding has_prefix
  one_slash h = behind_slash y tail q h

  kept-IsLocal :
      All IsPathByte y
      → valid_encoded (b'/' ∷ y) ≡ true
      → All IsQueryByte tail
      → All IsQueryByte q
      → cut_or b'?' ((b'/' ∷ y) ++ tail) ≡ (b'/' ∷ y, q)
      → IsLocal (redirect_target (or_root (safe_next_path ((b'/' ∷ y) ++ tail))))
  kept-IsLocal path_clean valid tail_clean query_clean parts =
      let v = (b'/' ∷ y) ++ tail in
      elim (Bool-cases (has_prefix v (b'/' ∷ b'/' ∷ []))) [
        | inl two ↦ rw (protocol_relative v two) root-IsLocal
        | inr h ↦
            let clean : All IsQueryByte v = (
              omega arith,
              All-append IsQueryByte y tail (path-IsQueryByte y path_clean) tail_clean,
            ) in
            elim (safe_next_path-kept h valid clean parts) [
              | inl e ↦ rw e root-IsLocal
              | inr e ↦ rw e (
                  IsSafeNext-IsLocal _
                    (record {
                      rest = y;
                      query = q;
                      same = refl;
                      rest_safe = path_clean;
                      query_safe = query_clean;
                    })
                    (one_slash h))
            ]
      ]

Accepted-valid_encoded :
    (raw : Text) (a : Accepted raw)
    → valid_encoded (escaped_path (url_of (b'/' ∷ a.p) a.query a.u)) ≡ true
Accepted-valid_encoded raw a = elim (escaped_path-cases (b'/' ∷ a.p) a.query a.u) [
  | inl (kept, valid) ↦ rw kept valid
  | inr fresh ↦ rw fresh (valid_encoded-escape a.u a.u_bytes)
]

Accepted-IsLocal :
    (raw : Text)
    → Accepted raw
    → IsLocal (redirect_target (or_root (safe_next_path (sanitized (safe_next_path raw)))))
Accepted-IsLocal raw a =
    let (t, e) = escaped_path-rooted a.p a.query a.u a.decoded in
    let valid : valid_encoded (b'/' ∷ t) ≡ true = rw e at (Accepted-valid_encoded raw a) in
    let shown : safe_next_path raw ≡ (b'/' ∷ t) ++ query_part a.query =
      a.shown ∙ ap (λ s. s ++ query_part a.query) e in
    let written : sanitized (safe_next_path raw)
        ≡ (b'/' ∷ sanitized t) ++ sanitized (query_part a.query) =
      ap sanitized shown ∙ sanitized-append (b'/' ∷ t) (query_part a.query) in
    let valid' = sanitized-valid_encoded (b'/' ∷ t) valid in
    let path_clean = valid_encoded-IsPathByte (b'/' ∷ sanitized t) valid' in
    let (q, parts, query_clean) =
      sanitized_query-cut (b'/' ∷ sanitized t) a.query path_clean a.query_clean in
    rw written (
      kept-IsLocal (sanitized t) (sanitized (query_part a.query)) q path_clean.1 valid'
        (sanitized-All IsQueryByte _ (query_part-IsQueryByte a.query a.query_clean)) query_clean
        parts)

-- Whatever bytes a login is asked to return to: the path that it keeps, carried by a cookie and made safe once
-- more, leads to a Location that begins with one slash, followed by neither a slash nor a backslash.
pub sanitized-IsLocal :
    (raw : Text)
    → All IsByte raw
    → IsLocal (redirect_target (or_root (safe_next_path (sanitized (safe_next_path raw)))))
sanitized-IsLocal raw h = elim (safe_next_path-cases raw h) [
  | inl e ↦ rw (e, empty_twice) root-IsLocal
  | inr a ↦ Accepted-IsLocal raw a
]
