-- ===== src/Api/Headers.antt =====
-- internal/api/security.go: the security headers around the whole surface, and the content security policy.
pub mod Everywhere
use atrium_core.Base.{
  Bool, true, false, ◌≡◌, Option, none, some, List, [], ◌∷◌, ◌++◌, Text, txt, if◌then◌else◌,
  is_empty,
}
use atrium_core.Strings.{join}
use atrium_core.Http.{Request, Run, Out, set_header}
use atrium_core.Crypto.{Crypto}
use atrium_core.Auth.Session.{Codec, OidcAuth, Time}
use atrium_core.Auth.Middleware.{Handler, Instants}
use atrium_core.Tos.{Manager, TosCodec}
use atrium_core.Api.{PublicHandlers, dispatch}

abbrev pub hsts_value : Text
hsts_value = txt "max-age=31536000; includeSubDomains"

-- securityHeaders
unfoldable pub security_headers : (Request → Run) → Text → Bool → Request → Run
security_headers next csp tls r w =
    let w₁ = set_header (txt "Content-Security-Policy") csp w in
    let w₂ = set_header (txt "X-Content-Type-Options") (txt "nosniff") w₁ in
    let w₃ = set_header (txt "X-Frame-Options") (txt "DENY") w₂ in
    let w₄ = set_header (txt "Referrer-Policy") (txt "no-referrer") w₃ in
    let w₅ = set_header (txt "Cache-Control") (txt "no-store") w₄ in
    next r (if tls then set_header (txt "Strict-Transport-Security") hsts_value w₅ else w₅)

-- The sources of scripts: those of the origin, and the hashes of the shell's inline scripts.
abbrev pub script_src : List Text → Text
script_src [] = txt "script-src 'self'"
script_src (hash ∷ hashes) = txt "script-src 'self'" ++ (txt " " ++ join (txt " ") (hash ∷ hashes))

-- contentSecurityPolicy
unfoldable pub content_security_policy : List Text → Text
content_security_policy hashes = join (txt "; ") (
    txt "default-src 'self'"
    ∷ script_src hashes
    ∷ txt "style-src 'self' 'unsafe-inline'"
    ∷ txt "object-src 'none'"
    ∷ txt "base-uri 'none'"
    ∷ txt "frame-ancestors 'none'"
    ∷ [])

module _ (crypto : Crypto) (codec : Codec) (tos_codec : TosCodec) (a : OidcAuth)
    (tos : Option Manager) where
  -- Handler: the security headers around the outer mux.
  unfoldable pub handler :
      List Text → Bool → PublicHandlers → Handler → Instants → Time → Request → Run
  handler hashes tls h api t accepted =
      security_headers (λ r. dispatch crypto codec tos_codec a tos h api t accepted r)
        (content_security_policy hashes) tls
