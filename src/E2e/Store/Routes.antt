-- ===== src/E2e/Store/Routes.antt =====
-- The mux of the stub provider (startStubProvider in cmd/atrium-e2e/stubprovider.go), and its runs.
-- Requests come with the elements of a clean path, each unescaped, as http.ServeMux matches them.
use atrium_core.Base.{Bool, ◌&&◌, ◌||◌, List, [], ◌∷◌, Text, txt, ◌==◌, if◌then◌else◌}
use atrium_core.Http.{Request, Out, fresh, write_header, error, set_header}
use atrium_core.E2e.Store.{
  Store, StubCodec, handle_health, handle_shares, handle_content, handle_folder, handle_folder_file,
  handle_upload,
}
use atrium_core.E2e.Store.Seed.{seed}

pub data StubRoute : Type 0 where
  health shares reseed missing : StubRoute
  content folder upload : Text → StubRoute
  folder_file : Text → Text → StubRoute
  wrong_method : Text → StubRoute

abbrev pub reads : Text → Bool
reads method = method == txt "GET" || method == txt "HEAD"

abbrev get_only : Text → StubRoute → StubRoute
get_only method route = if reads method then route else wrong_method (txt "GET, HEAD")

abbrev post_only : Text → StubRoute → StubRoute
post_only method route = if method == txt "POST" then route else wrong_method (txt "POST")

-- The routes below a share.
abbrev share_route : Text → Text → List Text → StubRoute
share_route method id (action ∷ []) =
    if action == txt "content"
    then get_only method (content id)
    else if action == txt "folder"
    then get_only method (folder id)
    else if action == txt "upload"
    then post_only method (upload id)
    else missing
share_route method id (action ∷ file_id ∷ last ∷ []) =
    if action == txt "folder" && last == txt "content"
    then get_only method (folder_file id file_id)
    else missing
share_route method id _ = missing

-- The routes below /api/v1.
abbrev api_route : Text → List Text → StubRoute
api_route method (first ∷ []) =
    if first == txt "health"
    then get_only method health
    else if first == txt "shares"
    then get_only method shares
    else missing
api_route method (first ∷ id ∷ rest) =
    if first == txt "shares" then share_route method id rest else missing
api_route method [] = missing

unfoldable pub stub_route : Text → List Text → StubRoute
stub_route method (first ∷ []) = if first == txt "_seed" then post_only method reseed else missing
stub_route method (first ∷ second ∷ rest) =
    if first == txt "api" && second == txt "v1" then api_route method rest else missing
stub_route method [] = missing

abbrev pub with_id : Text → Request → Request
with_id id r = record r { path_values = (txt "id", id) ∷ [] }

abbrev pub with_ids : Text → Text → Request → Request
with_ids id file_id r = record r { path_values = (txt "id", id) ∷ (txt "fileID", file_id) ∷ [] }

module _ (codec : StubCodec) where
  -- What the mux does with a route; `now` and `soon` are the times of a reset.
  unfoldable pub serve : Text → Text → StubRoute → Store → Request → Out → Store × Out
  serve now soon health s r w = handle_health codec s r w
  serve now soon shares s r w = handle_shares codec s r w
  serve now soon (content id) s r w = handle_content codec s (with_id id r) w
  serve now soon (folder id) s r w = handle_folder codec s (with_id id r) w
  serve now soon (folder_file id file_id) s r w =
      handle_folder_file codec s (with_ids id file_id r) w
  serve now soon (upload id) s r w = handle_upload codec s (with_id id r) w
  serve now soon reseed s r w = (seed now soon, write_header 204 w)
  serve now soon missing s r w = (s, error (txt "404 page not found") 404 w)
  serve now soon (wrong_method allow) s r w =
      (s, error (txt "Method Not Allowed") 405 (set_header (txt "Allow") allow w))

  -- One request, by whoever sends it.
  pub data Step : Store → Store → Type 0 where
    request :
        {s : Store} (now soon : Text) (segments : List Text) (r : Request)
        → Step s (serve now soon (stub_route r.method segments) s r fresh).0

  -- The stores that a run of the stand-in reaches.
  pub data Reach : Store → Type 0 where
    start : (now soon : Text) → Reach (seed now soon)
    next : {s t : Store} → Reach s → Step s t → Reach t
