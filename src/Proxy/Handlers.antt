-- ===== src/Proxy/Handlers.antt =====
-- The statuses that recipients see, on every branch of the three handlers.
use atrium_core.Base.{
  ℕ, ◌+◌, ◌≡◌, ◌⊎◌, refl, ◌∙◌, Bool, true, false, Option, none, some, List, [], ◌++◌, Text, txt,
  length, arith, ltbℤ, pos, Bool-cases, inl, inr, is_empty, if◌then◌else◌,
}
use atrium_core.Base.Result.{Result, ok, err}
use atrium_core.Slog.{Logger, Level, Attr}
use atrium_core.Http.{
  Request, Stream, eof, broken, too_large, chunk, Out, raw, write, write_header, set_header,
  del_header, error, emit, header_get, query_get, path_value,
}
use atrium_core.Audit.{log, level_audit, event_download_start}
use atrium_core.Strings
use atrium_core.Provider.{
  ProviderError, forbidden, share_not_found, share_gone, unexpected_status, body_too_large, Content,
  meta_from_request,
}
use atrium_core.Auth.Session.{SessionData}
use atrium_core.Proxy.{
  Proxy, Streamer, share_attrs, Link, Sent, sent, cut_off, send, copy, max_bytes, set_header_from,
  too_large_error, write_provider_error, content_headers, stream_content, finish_download,
  handle_download, handle_folder_file_download, finish_upload, transfer, handle_upload,
}

-- The status for each error of the provider.
abbrev pub error_status : ProviderError → ℕ
error_status share_not_found = 404
error_status forbidden = 403
error_status share_gone = 410
error_status (unexpected_status s) = 500
error_status _ = 503

set_header-status : (k v : Text) (w : Out) → (set_header k v w).status ≡ w.status
unfolding set_header
set_header-status k v w = ground arith

del_header-status : (k : Text) (w : Out) → (del_header k w).status ≡ w.status
unfolding del_header
del_header-status k w = ground arith

write_header-status :
    (code : ℕ) (w : Out) → w.status ≡ none → (write_header code w).status ≡ some code
unfolding write_header
write_header-status code w h = ground arith

-- A status that has been written stays.
abbrev IsOk : Option ℕ → Type 0
IsOk s = (s ≡ none) ⊎ (s ≡ some 200)

write-IsOk : (t : Text) (w : Out) → IsOk w.status → IsOk (write (raw t) w).status
unfolding write write_header
write-IsOk t w h = ground arith

pub error-status :
    (message : Text) (code : ℕ) (w : Out)
    → w.status ≡ none
    → (error message code w).status ≡ some code
unfolding error write write_header set_header del_header
error-status message code w h = ground arith

log-status :
    (l : Logger) (r : Request) (at : Level) (event : Text) (extra : List Attr) (w : Out)
    → (log l r at event extra w).status ≡ w.status
unfolding log emit
log-status l r at event extra w = refl

emit-status :
    (l : Logger) (at : Level) (event : Text) (extra : List Attr) (w : Out)
    → (emit l at event extra w).status ≡ w.status
unfolding emit
emit-status l at event extra w = refl

write_provider_error-status :
    (p : Proxy) (r : Request) (op share_id email : Text) (e : ProviderError) (w : Out)
    → w.status ≡ none
    → (write_provider_error p r op share_id email e w).status ≡ some (error_status e)
unfolding write_provider_error
write_provider_error-status p r op share_id email share_not_found w h =
    error-status _ 404 _ (log-status p.logger r _ _ _ w ∙ h)
write_provider_error-status p r op share_id email forbidden w h =
    error-status _ 403 _ (log-status p.logger r _ _ _ w ∙ h)
write_provider_error-status p r op share_id email share_gone w h =
    error-status _ 410 _ (log-status p.logger r _ _ _ w ∙ h)
write_provider_error-status p r op share_id email (unexpected_status s) w h =
    error-status _ 500 _ (emit-status p.logger _ _ _ w ∙ h)
write_provider_error-status p r op share_id email _ w h =
    error-status _ 503 _ (emit-status p.logger _ _ _ w ∙ h)

copy-IsOk :
    (link : Link) (s : Stream) (n : ℕ) (w : Out) → IsOk w.status → IsOk (copy link s n w).1.status
unfolding copy
copy-IsOk link eof n w h = h
copy-IsOk link broken n w h = h
copy-IsOk link too_large n w h = h
copy-IsOk link (chunk c s) n w h =
    sent_chunk (λ link' t. copy-IsOk link' s (n + length t) (write (raw t) w) (write-IsOk t w h))
      (send link c)
  where
    sent_chunk :
        ((link' : Link) (t : Text) → IsOk (copy link' s (n + length t) (write (raw t) w)).1.status)
        → (x : Sent)
        → IsOk
            (elim x as (λ _. (ℕ × Bool) × Out) [
              | sent link' taken ↦ copy link' s (n + length taken) (write (raw taken) w)
              | cut_off taken ↦ ((n + length taken, false), write (raw taken) w)
            ]).1.status
    sent_chunk ih (sent link' taken) = ih link' taken
    sent_chunk ih (cut_off taken) = write-IsOk taken w h

set_header_from-status : (k v : Text) (w : Out) → (set_header_from k v w).status ≡ w.status
unfolding set_header_from set_header
set_header_from-status k v w = ground arith

content_headers-status :
    (p : Proxy) (c : Content) (w : Out) → (content_headers p c w).status ≡ w.status
unfolding content_headers
content_headers-status p c w = ground (
  arith,
  set_header_from-status (txt "Content-Type") c.content_type w,
  set_header_from-status (txt "Content-Disposition") c.content_disposition
      (set_header_from (txt "Content-Type") c.content_type w),
  set_header-status (txt "Content-Length") (Strings.itoa c.content_length) (
      set_header_from (txt "Content-Disposition") c.content_disposition
        (set_header_from (txt "Content-Type") c.content_type w)),
)

-- The status after a download whose provider call had the given outcome.
abbrev pub HasDownloadStatus : Result ProviderError Content → Option ℕ → Type 0
HasDownloadStatus (err e) s = s ≡ some (error_status e)
HasDownloadStatus (ok content) s = (s ≡ none) ⊎ (s ≡ some 200)

stream_content-IsOk :
    (p : Proxy) (link : Link) (r : Request) (share_id email : Text) (content : Content)
    (extra : List Attr) (w : Out)
    → w.status ≡ none
    → IsOk (stream_content p link r share_id email content extra w).status
unfolding stream_content log emit
stream_content-IsOk p link r share_id email content extra w h =
    let w₁ =
      log p.logger r level_audit event_download_start (share_attrs share_id email ++ extra) w in
    let copied = copy link content.body 0 (content_headers p content w₁) in
    let fine : IsOk copied.1.status =
      copy-IsOk link content.body 0 _ (inl (content_headers-status p content w₁ ∙ h)) in
    elim (Bool-cases copied.0.1) [ inl e ↦ rw e fine | inr e ↦ rw e fine ]

finish_download-status :
    (p : Proxy) (link : Link) (r : Request) (share_id email : Text) (extra : List Attr)
    (d : Result ProviderError Content) (w : Out)
    → w.status ≡ none
    → HasDownloadStatus d (finish_download p link r share_id email extra d w).status
unfolding finish_download
finish_download-status p link r share_id email extra (err e) w h =
    write_provider_error-status p r (txt "download") share_id email e w h
finish_download-status p link r share_id email extra (ok content) w h =
    stream_content-IsOk p link r share_id email content extra w h

-- A download in a session answers 404, 403 and 410 where the provider reports a missing share, a denial
-- or an expiry, 500 for an unexpected status and 503 for any other failure; where the provider delivers, the
-- status is 200, or not written yet because no byte was. So for whole shares and for files of a folder.
pub handle_download-status :
    (p : Proxy) (link : Link) (session : SessionData) (r : Request) (w : Out)
    → w.status ≡ none
    → let meta = meta_from_request r in
      let share_id = path_value r (txt "shareID") in
      HasDownloadStatus
        (p.provider.download meta share_id session.email)
        (handle_download p link (some session) r w).status
      × HasDownloadStatus
          (p.provider.download_folder_file meta share_id
            (path_value r (txt "fileID"))
            session.email)
          (handle_folder_file_download p link (some session) r w).status
unfolding handle_download handle_folder_file_download
handle_download-status p link session r w h = (
  finish_download-status p link r _ session.email [] _ w h,
  finish_download-status p link r _ session.email _ _ w h,
)

-- An upload that declares more than the limit, or names no file, is answered without a call of the
-- provider: whatever provider takes its place, the answer is the same, with status 413 or 400.
pub handle_upload_refused :
    (p : Proxy) (q : Streamer) (session : SessionData) (r : Request) (w : Out)
    → w.status ≡ none
    → (ltbℤ (pos p.max_upload_size) r.content_length ≡ true)
      ⊎ (header_get r (txt "X-Atrium-Filename") ≡ [])
    → (handle_upload p (some session) r w
        ≡ handle_upload (record p { provider = q }) (some session) r w)
      × ((handle_upload p (some session) r w).status
          ≡ some (if ltbℤ (pos p.max_upload_size) r.content_length then 413 else 400))
unfolding handle_upload too_large_error
handle_upload_refused p q session r w h (inl large) = rw large (refl, error-status _ 413 w h)
handle_upload_refused p q session r w h (inr nameless) =
    elim (Bool-cases (ltbℤ (pos p.max_upload_size) r.content_length)) [
      | inl large ↦ rw large (refl, error-status _ 413 w h)
      | inr fits ↦ rw (fits, nameless) (refl, error-status _ 400 w h)
    ]

-- The status of an upload, by what the provider returned.
abbrev pub upload_status : Option ProviderError → ℕ
upload_status none = 201
upload_status (some body_too_large) = 413
upload_status (some e) = error_status e

finish_upload-status :
    (p : Proxy) (r : Request) (share_id email filename : Text) (failure : Option ProviderError)
    (n : ℕ) (w : Out)
    → w.status ≡ none
    → (finish_upload p r share_id email filename (record { failure = failure; read = n }) w).status
      ≡ some (upload_status failure)
unfolding finish_upload too_large_error
finish_upload-status p r share_id email filename none n w h =
    write_header-status 201 _ (log-status p.logger r _ _ _ w ∙ h)
finish_upload-status p r share_id email filename (some body_too_large) n w h =
    error-status _ 413 w h
finish_upload-status p r share_id email filename (some forbidden) n w h =
    write_provider_error-status p r _ share_id email forbidden w h
finish_upload-status p r share_id email filename (some e) n w h =
    write_provider_error-status p r (txt "upload") share_id email e w h

transfer-status :
    (p : Proxy) (r : Request) (share_id email filename : Text) (w : Out)
    → w.status ≡ none
    → (transfer p r share_id email filename w).status
      ≡ some (
          upload_status
            (p.provider.upload
              (meta_from_request r)
              share_id
              email
              filename
              (header_get r (txt "Content-Type"))
              (query_get r (txt "path"))
              (max_bytes p.max_upload_size r.body)).failure)
unfolding transfer
transfer-status p r share_id email filename w h =
    finish_upload-status p r share_id email filename _ _ _ (log-status p.logger r _ _ _ w ∙ h)

-- Any other upload hands the provider the body behind the size limit, and answers by what the provider
-- returns: 201 if it succeeds, 413 if the limit stopped it, and otherwise as for downloads.
pub handle_upload_accepted :
    (p : Proxy) (session : SessionData) (r : Request) (w : Out)
    → w.status ≡ none
    → ltbℤ (pos p.max_upload_size) r.content_length ≡ false
    → is_empty (header_get r (txt "X-Atrium-Filename")) ≡ false
    → (handle_upload p (some session) r w).status
      ≡ some (
          upload_status
            (p.provider.upload
              (meta_from_request r)
              (path_value r (txt "shareID"))
              session.email
              (header_get r (txt "X-Atrium-Filename"))
              (header_get r (txt "Content-Type"))
              (query_get r (txt "path"))
              (max_bytes p.max_upload_size r.body)).failure)
unfolding handle_upload
handle_upload_accepted p session r w h fits named =
    rw (fits, named)
      (transfer-status p r (path_value r (txt "shareID")) session.email
        (header_get r (txt "X-Atrium-Filename")) w h)
