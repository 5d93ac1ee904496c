-- ===== src/Provider/Operations.antt =====
-- The operations of the REST client (internal/provider/client.go) and its constructors.
use atrium_core.Base.{
  ℕ, true, Option, none, some, List, [], ◌∷◌, ◌++◌, Text, txt, get, if◌then◌else◌, is_empty,
}
use atrium_core.Base.Result.{Result, ok, err, ◌>>=◌}
use atrium_core.Url.{path_escape, query_escape}
use atrium_core.Http.{Stream, eof}
use atrium_core.Provider.{
  ProviderError, forbidden, trust_not_configured, undecodable, Content, Share, FolderListing,
  ClientMeta, Backend, Client, Reply, request, do_request,
}

-- The path of a share, and a path with the optional query.
abbrev pub share_path : Text → Text → Text
share_path share_id rest = txt "/api/v1/shares/" ++ (path_escape share_id ++ rest)

abbrev pub with_path : Text → Text → Text
with_path p path = if is_empty path then p else p ++ (txt "?path=" ++ query_escape path)

abbrev pub content_of : Reply → Content
content_of reply = record {
  body = reply.body;
  content_type = get (txt "Content-Type") reply.header;
  content_disposition = get (txt "Content-Disposition") reply.header;
  content_length = reply.content_length;
}

abbrev pub decoded : {A : Type 0} → Option A → Result ProviderError A
decoded none = err undecodable
decoded (some a) = ok a

module _ (backend : Backend) (c : Client) (meta : ClientMeta) (now : ℕ) where
  -- Download
  unfoldable pub download : Text → Text → Result ProviderError Content
  download share_id email = do
    reply ←
        request backend c meta now true (txt "GET") (share_path share_id (txt "/content")) share_id
          email (txt "download") eof []
    ok (content_of reply)

  -- DownloadFolderFile
  unfoldable pub download_folder_file : Text → Text → Text → Result ProviderError Content
  download_folder_file share_id file_id email = do
    reply ←
        request backend c meta now true (txt "GET")
          (share_path share_id (txt "/folder/" ++ (path_escape file_id ++ txt "/content"))) share_id
          email (txt "download-file") eof []
    ok (content_of reply)

  -- Upload
  unfoldable pub upload :
      Text → Text → Text → Text → Text → Stream → Result ProviderError (Unit {0})
  upload share_id email filename content_type path body = do
    reply ←
        request backend c meta now true (txt "POST")
          (with_path (share_path share_id (txt "/upload")) path) share_id email (txt "upload") body
          ((txt "Content-Type", content_type) ∷ (txt "X-Atrium-Filename", filename) ∷ [])
    ok tt

  -- ListFolder
  unfoldable pub list_folder : Text → Text → Text → Result ProviderError FolderListing
  list_folder share_id email path = do
    reply ←
        do_request backend c meta now (txt "GET")
          (with_path (share_path share_id (txt "/folder")) path) share_id email (txt "list-folder")
    decoded (backend.decode_listing reply.body)

  -- ListShares
  unfoldable pub list_shares : Text → Result ProviderError (List Share)
  list_shares email = do
    reply ←
        do_request backend c meta now (txt "GET") (txt "/api/v1/shares") [] email
          (txt "list-shares")
    decoded (backend.decode_shares reply.body)

  abbrev pub trusted : Result ProviderError Reply → Result ProviderError (Unit {0})
  trusted (ok reply) = ok tt
  trusted (err forbidden) = err trust_not_configured
  trusted (err e) = err e

  -- HealthCheck
  unfoldable pub health_check : Result ProviderError (Unit {0})
  health_check =
      trusted
        (do_request backend c meta now (txt "GET") (txt "/api/v1/health") [] [] (txt "healthcheck"))

abbrev pub nextcloud_audience : Text
nextcloud_audience = txt "atrium-plugin-nextcloud"

-- newClient, with the parsed base URL (`none` where it does not parse or is not absolute) and the
-- public half of the loaded key (`none` where the key is not usable).
unfoldable pub new_client : Option Text → Option Text → Text → Option Client
new_client none public audience = none
new_client (some base_url) none audience = none
new_client (some base_url) (some public) audience =
    some (record { base_url = base_url; audience = audience; public_key_pem = public })

-- NewNextcloud
unfoldable pub new_nextcloud : Option Text → Option Text → Option Client
unfolding new_client
new_nextcloud base_url public = new_client base_url public nextcloud_audience
