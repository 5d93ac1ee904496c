-- ===== src/Provider/Dots.antt =====
-- Escaping a segment leaves ".." as it is, so an identifier ".." moves a backend call to another path
-- wherever the backend cleans the path of a request.
use atrium_core.Base.{◌≡◌, refl, ap, sym, ◌∙◌, List, [], ◌∷◌, ◌++◌, Text, txt, ◌==◌, true, arith}
use atrium_core.Strings.{split, join}
use atrium_core.Path.{clean, clean_from, step, pop}
use atrium_core.Url.{path_escape, escape, escape_byte}
use atrium_core.Provider.Operations.{share_path}
use atrium_core.Strings.Laws.{split-append}

dots_unescaped : path_escape (txt "..") ≡ txt ".."
unfolding escape escape_byte txt
dots_unescaped = refl

split-shares_dots :
    (rest : Text)
    → split b'/' (txt "api/v1/shares/" ++ (txt ".." ++ b'/' ∷ rest))
      ≡ txt "api" ∷ txt "v1" ∷ txt "shares" ∷ txt ".." ∷ split b'/' rest
unfolding txt
split-shares_dots rest =
    split-append b'/' (txt "api") (txt "v1/shares/" ++ (txt ".." ++ b'/' ∷ rest)) (omega arith)
    ∙ ap (λ t. txt "api" ∷ t)
        (split-append b'/' (txt "v1") (txt "shares/" ++ (txt ".." ++ b'/' ∷ rest)) (omega arith))
    ∙ ap (λ t. txt "api" ∷ txt "v1" ∷ t)
        (split-append b'/' (txt "shares") (txt ".." ++ b'/' ∷ rest) (omega arith))
    ∙ ap (λ t. txt "api" ∷ txt "v1" ∷ txt "shares" ∷ t)
        (split-append b'/' (txt "..") rest (omega arith))

split-rest :
    (rest : Text) → split b'/' (txt "api/v1/" ++ rest) ≡ txt "api" ∷ txt "v1" ∷ split b'/' rest
unfolding txt
split-rest rest =
    split-append b'/' (txt "api") (txt "v1/" ++ rest) (omega arith)
    ∙ ap (λ t. txt "api" ∷ t) (split-append b'/' (txt "v1") rest (omega arith))

clean_from_dots :
    (parts : List Text)
    → clean_from true [] (txt "api" ∷ txt "v1" ∷ txt "shares" ∷ txt ".." ∷ parts)
      ≡ clean_from true [] (txt "api" ∷ txt "v1" ∷ parts)
unfolding clean_from step pop txt ◌==◌
clean_from_dots parts = refl

-- A rooted path, cleaned.
clean_rooted :
    (s : Text) → clean (b'/' ∷ s) ≡ b'/' ∷ join (b'/' ∷ []) (clean_from true [] (split b'/' s))
unfolding clean
clean_rooted s = refl

-- For every rest of the path: the backend path of the share ".." is, cleaned, that of the rest below
-- "/api/v1" and not below "/api/v1/shares".
pub clean-share_path_dots :
    (rest : Text) → clean (share_path (txt "..") (b'/' ∷ rest)) ≡ clean (txt "/api/v1/" ++ rest)
unfolding txt
clean-share_path_dots rest =
    ap (λ t. clean (txt "/api/v1/shares/" ++ (t ++ b'/' ∷ rest))) dots_unescaped
    ∙ clean_rooted (txt "api/v1/shares/" ++ (txt ".." ++ b'/' ∷ rest))
    ∙ ap (λ t. b'/' ∷ join (b'/' ∷ []) (clean_from true [] t)) (split-shares_dots rest)
    ∙ ap (λ t. b'/' ∷ join (b'/' ∷ []) t)
        (clean_from_dots (split b'/' rest) ∙ ap (clean_from true []) (sym (split-rest rest)))
    ∙ sym (clean_rooted (txt "api/v1/" ++ rest))
