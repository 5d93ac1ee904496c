-- ===== src/Api/Mux.antt =====
-- The mux below the gates of /api/ (Handler in internal/api/api.go). Requests come with the elements of
-- their clean path, each unescaped, as http.ServeMux matches them.
use atrium_core.Base.{◌&&◌, ◌||◌, List, [], ◌∷◌, Text, txt, ◌==◌, if◌then◌else◌}
use atrium_core.Slog.{Logger}
use atrium_core.Http.{Request, error, set_header}
use atrium_core.Auth.Middleware.{Handler}
use atrium_core.Proxy.{Proxy, Link, handle_download, handle_folder_file_download, handle_upload}
use atrium_core.Api.Views.{ProviderService, handle_me, handle_list_shares, handle_list_folder}

pub data ApiRoute : Type 0 where
  me shares missing : ApiRoute
  content folder upload : Text → ApiRoute
  folder_file : Text → Text → ApiRoute
  wrong_method : Text → ApiRoute

abbrev get_only : Text → ApiRoute → ApiRoute
get_only method route =
    if method == txt "GET" || method == txt "HEAD" then route else wrong_method (txt "GET, HEAD")

abbrev post_only : Text → ApiRoute → ApiRoute
post_only method route = if method == txt "POST" then route else wrong_method (txt "POST")

-- The routes of one share.
abbrev share_route : Text → Text → List Text → ApiRoute
share_route method id (action ∷ []) =
    if action == txt "content"
    then get_only method (content id)
    else if action == txt "folder"
    then get_only method (folder id)
    else if action == txt "upload"
    then post_only method (upload id)
    else missing
share_route method id (action ∷ file_id ∷ last ∷ []) =
    if action == txt "folder" && last == txt "content"
    then get_only method (folder_file id file_id)
    else missing
share_route method id _ = missing

abbrev below_api : Text → List Text → ApiRoute
below_api method (first ∷ []) =
    if first == txt "me"
    then get_only method me
    else if first == txt "shares"
    then get_only method shares
    else missing
below_api method (first ∷ id ∷ rest) =
    if first == txt "shares" then share_route method id rest else missing
below_api method [] = missing

unfoldable pub api_route : Text → List Text → ApiRoute
api_route method (first ∷ rest) = if first == txt "api" then below_api method rest else missing
api_route method [] = missing

abbrev pub with_share : Text → Request → Request
with_share id r = record r { path_values = (txt "shareID", id) ∷ [] }

abbrev pub with_file : Text → Text → Request → Request
with_file id file_id r = record r {
  path_values = (txt "shareID", id) ∷ (txt "fileID", file_id) ∷ [];
}

module _ (p : Proxy) (s : ProviderService) (logger : Logger) (link : Link) where
  unfoldable pub serve_route : ApiRoute → Handler
  serve_route me d r w = handle_me d r w
  serve_route shares d r w = handle_list_shares s logger d r w
  serve_route (content id) d r w = handle_download p link d (with_share id r) w
  serve_route (folder id) d r w = handle_list_folder s logger d (with_share id r) w
  serve_route (folder_file id file_id) d r w =
      handle_folder_file_download p link d (with_file id file_id r) w
  serve_route (upload id) d r w = handle_upload p d (with_share id r) w
  serve_route missing d r w = error (txt "404 page not found") 404 w
  serve_route (wrong_method allow) d r w =
      error (txt "Method Not Allowed") 405 (set_header (txt "Allow") allow w)

  -- apiMux
  unfoldable pub api_mux : List Text → Handler
  api_mux segments d r = serve_route (api_route r.method segments) d r
