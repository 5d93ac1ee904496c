-- ===== src/E2e/Contract/Paths.antt =====
-- The path that the client writes for a share is the route of that share.
use atrium_core.Base.{
  ◌≡◌, ◌≢◌, refl, ap, sym, ◌∙◌, true, false, some, List, [], ◌∷◌, ◌++◌, Text, txt, ◌==◌, ==_iff,
  All, All-append, eqb_refl, Bool-cases, inl, inr, arith,
}
use atrium_core.Strings.{cut_or, split}
use atrium_core.Strings.Laws.{cut_or_absent, contains_byte-All, split-eq_single}
use atrium_core.Url.{unescape, path_escape}
use atrium_core.Url.Bytes.{IsByte}
use atrium_core.Provider.Operations.{share_path}
use atrium_core.Provider.Paths.{IsSegmentByte, share_path-split}
use atrium_core.E2e.Contract.{behind, is_clean, elements, unescaped, target}

-- An ID that a path can carry as an element of its own.
pub record IsCarried (id : Text) : Type 0 where
  pub bytes : All IsByte id
  pub filled : id ≢ []
  pub no_dot : id ≢ txt "."
  pub no_dots : id ≢ txt ".."

behind-append : (p s : Text) → behind p (p ++ s) ≡ some s
behind-append [] s = refl
behind-append (c ∷ p) s = rw (eqb_refl c, behind) (behind-append p s)

unescape_dot : unescape (txt ".") ≡ some (txt ".")
unfolding unescape txt
unescape_dot = refl

unescape_dots : unescape (txt "..") ≡ some (txt "..")
unfolding unescape txt
unescape_dots = refl

unescape_nil : unescape [] ≡ some []
unfolding unescape
unescape_nil = refl

-- An element that unescapes to something else than a text is not that text, where the text stays as it is.
other_than :
    (id element kept : Text)
    → unescape element ≡ some id
    → unescape kept ≡ some kept
    → id ≢ kept
    → (element == kept) ≡ false
other_than id element kept e k n = elim (Bool-cases (element == kept)) [
  | inl d ↦
      let same : element ≡ kept = (==_iff element kept).0 d in
      absurd (n (cc (sym e ∙ ap unescape same ∙ k)))
  | inr d ↦ d
]

-- An element that unescapes to a carried ID is clean.
is_clean_carried :
    (id element : Text) → IsCarried id → unescape element ≡ some id → is_clean element ≡ true
is_clean_carried id [] c e = let same : id ≡ [] = cc (e, unescape_nil) in absurd (c.filled same)
is_clean_carried id (b ∷ element) c e =
    rw
      (
        other_than id (b ∷ element) (txt ".") e unescape_dot c.no_dot,
        other_than id (b ∷ element) (txt "..") e unescape_dots c.no_dots,
      )
      refl

no_query : (s : Text) → All IsSegmentByte s → All (λ c. c ≢ b'?') s
no_query [] h = tt
no_query (c ∷ s) (p, h) = (p.1, no_query s h)

split-content : split b'/' (txt "content") ≡ txt "content" ∷ []
unfolding txt
split-content = split-eq_single b'/' (txt "content") (omega arith)

cut_or-share_path :
    (id : Text)
    → All IsByte id
    → cut_or b'?' (share_path id (txt "/content")) ≡ (share_path id (txt "/content"), [])
unfolding txt
cut_or-share_path id h =
    let (_, _, safe) = share_path-split id (txt "content") h in
    cut_or_absent b'?' (share_path id (txt "/content")) (
      contains_byte-All b'?' _ (
        All-append (λ c. c ≢ b'?') (txt "/api/v1/shares/") _ (omega arith)
          (All-append (λ c. c ≢ b'?') (path_escape id) (txt "/content") (no_query _ safe)
            (omega arith))))

elements_literal :
    (rest out : List Text)
    → elements rest ≡ some out
    → elements (txt "api" ∷ txt "v1" ∷ txt "shares" ∷ rest)
      ≡ some (txt "api" ∷ txt "v1" ∷ txt "shares" ∷ out)
unfolding elements unescape txt ◌==◌
elements_literal rest out h = rw h refl

elements_last : elements (txt "content" ∷ []) ≡ some (txt "content" ∷ [])
unfolding elements unescape txt ◌==◌
elements_last = refl

elements-cons :
    (e d : Text) (rest out : List Text)
    → is_clean e ≡ true
    → unescape e ≡ some d
    → elements rest ≡ some out
    → elements (e ∷ rest) ≡ some (d ∷ out)
unfolding elements
elements-cons e d rest out c u r = rw (c, r, unescaped, u) refl

elements_content :
    (id element : Text)
    → IsCarried id
    → unescape element ≡ some id
    → elements (txt "api" ∷ txt "v1" ∷ txt "shares" ∷ element ∷ txt "content" ∷ [])
      ≡ some (txt "api" ∷ txt "v1" ∷ txt "shares" ∷ id ∷ txt "content" ∷ [])
elements_content id element c e =
    elements_literal _ _
      (elements-cons element id _ _ (is_clean_carried id element c e) e elements_last)

slash_content : (id : Text) → share_path id (txt "/content") ≡ share_path id (b'/' ∷ txt "content")
unfolding txt
slash_content id = refl

-- The target of the content path.
pub target-share_path :
    (base_url id : Text)
    → IsCarried id
    → target base_url (base_url ++ share_path id (txt "/content"))
      ≡ (some (txt "api" ∷ txt "v1" ∷ txt "shares" ∷ id ∷ txt "content" ∷ []), [])
unfolding target
target-share_path base_url id c =
    let (s, u, safe) = share_path-split id (txt "content") c.bytes in
    rw
      (
        behind-append base_url (share_path id (txt "/content")),
        cut_or-share_path id c.bytes,
        slash_content id,
        s,
        split-content,
        elements_content id (path_escape id) c u,
      )
      refl
