-- ===== src/Api/Own.antt =====
-- A recipient's answer depends on the provider by what it says to calls for that recipient only.
use atrium_core.Base.{ℕ, ◌≡◌, refl, Option, none, some, List, Text}
use atrium_core.Base.Result.{Result, ok, err}
use atrium_core.Slog.{Logger, Attr}
use atrium_core.Http.{Request, Stream, Out}
use atrium_core.Provider.{
  ClientMeta, Content, ProviderError, share_not_found, forbidden, share_gone, unexpected_status,
  body_too_large,
}
use atrium_core.Auth.Session.{SessionData}
use atrium_core.Proxy.{
  Proxy, Streamer, Link, Uploaded, too_large_error, write_provider_error, stream_content,
  content_headers, finish_download, finish_upload, handle_download, handle_folder_file_download,
  handle_upload, transfer,
}
use atrium_core.Api.Views.{ProviderService, handle_list_shares, handle_list_folder}
use atrium_core.Api.Mux.{
  ApiRoute, me, shares, missing, content, folder, upload, folder_file, wrong_method, serve_route,
  api_route, api_mux,
}

-- Two providers that answer the calls for an address alike.
pub record AgreeFor (email : Text) (p q : Streamer) (s t : ProviderService) : Type 0 where
  pub same_download :
      (meta : ClientMeta) (id : Text) → p.download meta id email ≡ q.download meta id email
  pub same_file :
      (meta : ClientMeta) (id file_id : Text)
      → p.download_folder_file meta id file_id email ≡ q.download_folder_file meta id file_id email
  pub same_upload :
      (meta : ClientMeta) (id filename content_type path : Text) (body : Stream)
      → p.upload meta id email filename content_type path body
        ≡ q.upload meta id email filename content_type path body
  pub same_shares : (meta : ClientMeta) → s.list_shares meta email ≡ t.list_shares meta email
  pub same_folder :
      (meta : ClientMeta) (id path : Text)
      → s.list_folder meta id email path ≡ t.list_folder meta id email path

module _ (limit : ℕ) (logger : Logger) (link : Link) where
  abbrev pub proxy_of : Streamer → Proxy
  proxy_of p = record { provider = p; max_upload_size = limit; logger = logger }

  -- What the handlers do with an outcome depends on the limit and the logger of the proxy only.
  pub too_large_error_same :
      (p q : Streamer) (w : Out) → too_large_error (proxy_of p) w ≡ too_large_error (proxy_of q) w
  unfolding too_large_error
  too_large_error_same p q w = refl

  write_provider_error_same :
      (p q : Streamer) (r : Request) (op id email : Text) (e : ProviderError) (w : Out)
      → write_provider_error (proxy_of p) r op id email e w
        ≡ write_provider_error (proxy_of q) r op id email e w
  unfolding write_provider_error
  write_provider_error_same p q r op id email share_not_found w = refl
  write_provider_error_same p q r op id email forbidden w = refl
  write_provider_error_same p q r op id email share_gone w = refl
  write_provider_error_same p q r op id email (unexpected_status status) w = refl
  write_provider_error_same p q r op id email _ w = refl

  finish_download_same :
      (p q : Streamer) (r : Request) (id email : Text) (extra : List Attr)
      (o : Result ProviderError Content) (w : Out)
      → finish_download (proxy_of p) link r id email extra o w
        ≡ finish_download (proxy_of q) link r id email extra o w
  unfolding finish_download stream_content content_headers
  finish_download_same p q r id email extra (ok c) w = refl
  finish_download_same p q r id email extra (err e) w =
      write_provider_error_same p q r _ id email e w

  pub finish_upload_same :
      (p q : Streamer) (r : Request) (id email filename : Text) (u : Uploaded) (w : Out)
      → finish_upload (proxy_of p) r id email filename u w
        ≡ finish_upload (proxy_of q) r id email filename u w
  unfolding finish_upload
  finish_upload_same p q r id email filename u w = go u.failure refl
    where
      go :
          (f : Option ProviderError)
          → u.failure ≡ f
          → finish_upload (proxy_of p) r id email filename u w
            ≡ finish_upload (proxy_of q) r id email filename u w
      go none e = rw (e, finish_upload) refl
      go (some body_too_large) e = rw (e, finish_upload) (too_large_error_same p q w)
      go (some e') e = rw (e, finish_upload) (write_provider_error_same p q r _ id email e' w)

  upload_agrees :
      (p q : Streamer) (s t : ProviderService) (d : SessionData) (r : Request) (w : Out)
      → AgreeFor d.email p q s t
      → handle_upload (proxy_of p) (some d) r w ≡ handle_upload (proxy_of q) (some d) r w
  unfolding handle_upload transfer
  upload_agrees p q s t d r w a =
      rw (a.same_upload, too_large_error_same p q w) (rw (finish_upload_same p q) refl)

  serve_route_agrees :
      (p q : Streamer) (s t : ProviderService) (d : SessionData) (route : ApiRoute) (r : Request)
      (w : Out)
      → AgreeFor d.email p q s t
      → serve_route (proxy_of p) s logger link route (some d) r w
        ≡ serve_route (proxy_of q) t logger link route (some d) r w
  unfolding serve_route handle_download handle_folder_file_download handle_list_shares
      handle_list_folder
  serve_route_agrees p q s t d me r w a = refl
  serve_route_agrees p q s t d shares r w a = rw (a.same_shares) refl
  serve_route_agrees p q s t d (content id) r w a =
      rw (a.same_download) (finish_download_same p q _ _ _ _ _ w)
  serve_route_agrees p q s t d (folder id) r w a = rw (a.same_folder) refl
  serve_route_agrees p q s t d (folder_file id file_id) r w a =
      rw (a.same_file) (finish_download_same p q _ _ _ _ _ w)
  serve_route_agrees p q s t d (upload id) r w a = upload_agrees p q s t d _ w a
  serve_route_agrees p q s t d missing r w a = refl
  serve_route_agrees p q s t d (wrong_method allow) r w a = refl

  -- For every route, method and request of a session: two providers that answer alike whatever the
  -- gateway asks under the address of the session give the same response, whatever they hold for others.
  pub api_mux_agrees :
      (p q : Streamer) (s t : ProviderService) (d : SessionData) (segments : List Text)
      (r : Request) (w : Out)
      → AgreeFor d.email p q s t
      → api_mux (proxy_of p) s logger link segments (some d) r w
        ≡ api_mux (proxy_of q) t logger link segments (some d) r w
  unfolding api_mux
  api_mux_agrees p q s t d segments r w a =
      serve_route_agrees p q s t d (api_route r.method segments) r w a
