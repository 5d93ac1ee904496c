-- ===== src/Tests/Transfers.antt =====
-- Backend calls and transfers at concrete inputs.
use atrium_core.Base.{
  ℕ, ◌≡◌, ◌↔◌, ◌≤◌, ◌<◌, refl, false, none, some, [], ◌∷◌, ◌++◌, txt, ◌==◌, lookup, get, pos, arith,
  All, is_empty, if◌then◌else◌, leb,
}
use atrium_core.Base.Result.{ok, err}
use atrium_core.Path.{clean}
use atrium_core.Url.Bytes.{IsByte}
use atrium_core.Http.{Request, Stream, eof, chunk, fresh, header_get, path_value}
use atrium_core.Provider.{
  Reply, forbidden, share_not_found, share_gone, unexpected_status, unreachable, body_too_large,
  check_status,
}
use atrium_core.Provider.Operations.{share_path}
use atrium_core.Provider.Statuses.{check_status_iff, IsUnexpected}
use atrium_core.Provider.Dots.{clean-share_path_dots}
use atrium_core.Proxy.{Proxy, Streamer, handle_download, handle_folder_file_download, handle_upload}
use atrium_core.Proxy.Limit.{size}
use atrium_core.Proxy.Streamed.{IsAnswered, handle_download-IsStreamed}
use atrium_core.Proxy.Bounded.{AgreeUpTo, handle_upload_bounded}
use atrium_core.Api.Own.{proxy_of}
use atrium_core.Audit.{string_attr}
use atrium_core.Proxy.Handlers.{handle_download-status, handle_upload_accepted, HasDownloadStatus}
use atrium_core.Tests.{session, signed_in, logger}

abbrev reply : Reply
reply = record { status = 404; header = []; content_length = pos 0; body = eof }

check_status_iff_example :
    ((check_status reply ≡ ok reply) ↔ ((200 ≤ reply.status) × (reply.status < 300)))
    × ((check_status reply ≡ err forbidden) ↔ (reply.status ≡ 403))
    × ((check_status reply ≡ err share_not_found) ↔ (reply.status ≡ 404))
    × ((check_status reply ≡ err share_gone) ↔ (reply.status ≡ 410))
    × ((check_status reply ≡ err (unexpected_status reply.status)) ↔ IsUnexpected reply.status)
check_status_iff_example = check_status_iff reply

id_bytes : All IsByte (txt "../x")
unfolding txt
id_bytes = omega arith

clean-share_path_dots_example :
    clean (share_path (txt "..") (b'/' ∷ txt "content")) ≡ clean (txt "/api/v1/" ++ txt "content")
clean-share_path_dots_example = clean-share_path_dots (txt "content")

abbrev body : Stream
body = chunk (txt "abc") (chunk (txt "de") eof)

abbrev storage : Streamer
storage = record {
  download = λ meta share_id email. err share_gone;
  download_folder_file = λ meta share_id file_id email. ok (record {
    body = body;
    content_type = txt "text/plain";
    content_disposition = [];
    content_length = pos 5;
  });
  upload = λ meta share_id email filename content_type path s. record {
    failure = some body_too_large;
    read = size s;
  };
}

abbrev offline : Streamer
offline = record storage {
  upload = λ meta share_id email filename content_type path s. record {
    failure = some unreachable;
    read = 0;
  };
}

abbrev proxy : Proxy
proxy = record { provider = storage; max_upload_size = 4; logger = logger }

handle_download-status_example :
    HasDownloadStatus
      (err share_gone)
      (handle_download proxy none (some session) (signed_in (txt "/")) fresh).status
    × HasDownloadStatus
        (ok (record {
          body = body;
          content_type = txt "text/plain";
          content_disposition = [];
          content_length = pos 5;
        }))
        (handle_folder_file_download proxy none (some session) (signed_in (txt "/")) fresh).status
handle_download-status_example =
    handle_download-status proxy none session (signed_in (txt "/")) fresh refl

abbrev upload_of : ℕ → Request
upload_of n = record (signed_in (txt "/")) {
  header = (txt "X-Atrium-Filename", txt "f.txt") ∷ [];
  content_length = pos n;
  body = body;
}

named : is_empty (header_get (upload_of 3) (txt "X-Atrium-Filename")) ≡ false
unfolding header_get get lookup ◌==◌ txt
named = refl

handle_upload_accepted_example :
    (handle_upload proxy (some session) (upload_of 3) fresh).status ≡ some 413
handle_upload_accepted_example =
    handle_upload_accepted proxy session (upload_of 3) fresh refl refl named

-- A provider that fails for the bodies over the limit only.
abbrev careless : Streamer
careless = record storage {
  upload = λ meta share_id email filename content_type path s.
      if leb (size s) 4
      then record { failure = some body_too_large; read = size s }
      else record { failure = some unreachable; read = 0 };
}

storage-AgreeUpTo : AgreeUpTo 4 storage careless
storage-AgreeUpTo = record {
  same_upload = λ meta id email filename content_type path s h. ground arith;
}

handle_upload_bounded_example :
    handle_upload (proxy_of 4 logger none storage) (some session) (upload_of 3) fresh
    ≡ handle_upload (proxy_of 4 logger none careless) (some session) (upload_of 3) fresh
handle_upload_bounded_example =
    handle_upload_bounded 4 logger none storage careless session (upload_of 3) fresh
      storage-AgreeUpTo

handle_download-IsStreamed_example :
    IsAnswered proxy
      (some 4)
      (signed_in (txt "/"))
      (path_value (signed_in (txt "/")) (txt "shareID"))
      session.email
      []
      (err share_gone)
      fresh
      (handle_download proxy (some 4) (some session) (signed_in (txt "/")) fresh)
    × IsAnswered proxy
        (some 4)
        (signed_in (txt "/"))
        (path_value (signed_in (txt "/")) (txt "shareID"))
        session.email
        (string_attr (txt "file_id") (path_value (signed_in (txt "/")) (txt "fileID")) ∷ [])
        (ok (record {
          body = body;
          content_type = txt "text/plain";
          content_disposition = [];
          content_length = pos 5;
        }))
        fresh
        (handle_folder_file_download proxy (some 4) (some session) (signed_in (txt "/")) fresh)
handle_download-IsStreamed_example =
    handle_download-IsStreamed proxy (some 4) (signed_in (txt "/")) session fresh
