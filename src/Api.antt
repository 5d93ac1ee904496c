-- ===== src/Api.antt =====
-- internal/api: the gateway's routes, the session and consent gates over /api/, and the handlers that
-- answer with JSON. Requests come with the cleaned path that http.ServeMux matches.
pub mod Views
pub mod Headers
pub mod Gates
pub mod Boundary
pub mod Mux
pub mod Own
use atrium_core.Base.{
  ℕ, Bool, true, false, ◌&&◌, ◌||◌, Option, none, some, List, [], ◌∷◌, ◌++◌, Text, txt, ◌==◌,
  if◌then◌else◌, is_empty,
}
use atrium_core.Strings.{has_prefix, cut}
use atrium_core.Crypto.{Crypto}
use atrium_core.Http.{Request, Run, error, redirect}
use atrium_core.Auth.Session.{Codec, OidcAuth, Time}
use atrium_core.Auth.Middleware.{Handler, Instants, require_auth, logout_handler, login_path}
use atrium_core.Tos.{Manager, TosCodec, require_tos, content_handler, accept_handler}

abbrev pub callback_path : Text
callback_path = txt "/auth/callback"

abbrev pub logout_path : Text
logout_path = txt "/auth/logout"

abbrev pub content_path : Text
content_path = txt "/api/tos"

abbrev pub accept_path : Text
accept_path = txt "/api/tos/accept"

-- The routes of the outer mux.
pub data Route : Type 0 where
  spa branding healthz readyz login callback logout gated tos_content tos_accept : Route
  add_slash : Route

-- A pattern with the method GET also matches HEAD.
abbrev is_get : Request → Bool
is_get r = r.method == txt "GET" || r.method == txt "HEAD"

abbrev is_post : Request → Bool
is_post r = r.method == txt "POST"

-- The routes below /api/; the consent endpoints exist only where the gate does.
unfoldable pub consent_route : Option Manager → Request → Route
consent_route none r = gated
consent_route (some m) r =
    if is_get r && r.path == content_path
    then tos_content
    else if is_post r && r.path == accept_path
    then tos_accept
    else gated

-- The most specific pattern that matches. A path that lacks only the slash at the end of a pattern is sent
-- there, since no pattern has exactly that path.
unfoldable pub route : Option Manager → Request → Route
route tos r =
    if has_prefix r.path (txt "/api/")
    then consent_route tos r
    else if has_prefix r.path (txt "/branding/")
    then branding
    else if r.path == txt "/api" || r.path == txt "/branding"
    then add_slash
    else if is_get r && r.path == txt "/healthz"
    then healthz
    else if is_get r && r.path == txt "/readyz"
    then readyz
    else if is_get r && r.path == login_path
    then login
    else if is_get r && r.path == callback_path
    then callback
    else if is_post r && r.path == logout_path
    then logout
    else spa

-- Where http.ServeMux redirects to for a path that lacks its last slash: the raw query is kept.
unfoldable pub with_slash : Request → Text
with_slash r = elim (cut b'?' r.request_uri) [
  | none ↦ r.path ++ b'/' ∷ []
  | some (before, query) ↦
      if is_empty query then r.path ++ b'/' ∷ [] else r.path ++ b'/' ∷ b'?' ∷ query
]

-- The handlers of the outer mux that are not gated.
pub record PublicHandlers : Type 0 where
  pub spa : Request → Run
  pub branding : Request → Run
  pub healthz : Request → Run
  pub readyz : Request → Run
  pub login : Request → Run
  pub callback : Request → Run

module _ (crypto : Crypto) (codec : Codec) (tos_codec : TosCodec) (a : OidcAuth)
    (tos : Option Manager) where
  -- The handler of /api/: RequireAuth, then RequireTOS, around the mux of the API.
  unfoldable pub gated_handler : Handler → Instants → Request → Run
  gated_handler api t r = require_auth crypto codec a (require_tos crypto tos_codec tos api) t r

  -- A consent endpoint: RequireAuth around its handler.
  unfoldable pub consent_handler : (Manager → Handler) → Instants → Request → Run
  consent_handler h t r = elim tos [
    | none ↦ error (txt "404 page not found") 404
    | some m ↦ require_auth crypto codec a (h m) t r
  ]

  -- The outer mux of Handler, inside the security headers; `accepted` is the instant of an acceptance.
  unfoldable pub dispatch : PublicHandlers → Handler → Instants → Time → Request → Run
  dispatch h api t accepted r = elim (route tos r) [
    | spa ↦ h.spa r
    | add_slash ↦ redirect (with_slash r) 307
    | branding ↦ h.branding r
    | healthz ↦ h.healthz r
    | readyz ↦ h.readyz r
    | login ↦ h.login r
    | callback ↦ h.callback r
    | logout ↦ logout_handler crypto codec a t r
    | gated ↦ gated_handler api t r
    | tos_content ↦ consent_handler (λ m. content_handler crypto tos_codec m) t r
    | tos_accept ↦ consent_handler (λ m. accept_handler crypto tos_codec m accepted) t r
  ]
