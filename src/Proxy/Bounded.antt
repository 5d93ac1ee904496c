-- ===== src/Proxy/Bounded.antt =====
-- The provider is never handed more of an upload than the limit.
use atrium_core.Base.{ℕ, ◌≤◌, ◌≡◌, refl, some, Text, txt}
use atrium_core.Slog.{Logger}
use atrium_core.Http.{Request, Stream, Out, header_get, query_get}
use atrium_core.Provider.{ClientMeta, meta_from_request}
use atrium_core.Auth.Session.{SessionData}
use atrium_core.Proxy.{Streamer, Link, max_bytes, transfer, handle_upload}
use atrium_core.Proxy.Limit.{size, max_bytes_lem}
use atrium_core.Api.Own.{proxy_of, too_large_error_same, finish_upload_same}

-- Two providers that answer uploads alike whose body has at most `n` bytes.
pub record AgreeUpTo (n : ℕ) (p q : Streamer) : Type 0 where
  pub same_upload :
      (meta : ClientMeta) (id email filename content_type path : Text) (body : Stream)
      → size body ≤ n
      → p.upload meta id email filename content_type path body
        ≡ q.upload meta id email filename content_type path body

module _ (limit : ℕ) (logger : Logger) (link : Link) where
  transfer_bounded :
      (p q : Streamer) (r : Request) (id email filename : Text) (w : Out)
      → AgreeUpTo limit p q
      → transfer (proxy_of limit logger link p) r id email filename w
        ≡ transfer (proxy_of limit logger link q) r id email filename w
  unfolding transfer
  transfer_bounded p q r id email filename w a =
      rw
        (a.same_upload (meta_from_request r) id email filename (header_get r (txt "Content-Type"))
          (query_get r (txt "path")) (max_bytes limit r.body) (max_bytes_lem limit r.body).0)
        (finish_upload_same limit logger link p q r id email filename _ _)

  -- However long a body is, and whatever length it declares: an upload is answered alike by two providers
  -- that answer alike for bodies of at most the limit. So the provider never gets more than the limit.
  pub handle_upload_bounded :
      (p q : Streamer) (session : SessionData) (r : Request) (w : Out)
      → AgreeUpTo limit p q
      → handle_upload (proxy_of limit logger link p) (some session) r w
        ≡ handle_upload (proxy_of limit logger link q) (some session) r w
  unfolding handle_upload
  handle_upload_bounded p q session r w a =
      rw
        (too_large_error_same limit logger link p q w, transfer_bounded p q r _ session.email _ w a)
        refl
