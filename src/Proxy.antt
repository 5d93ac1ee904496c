-- ===== src/Proxy.antt =====
-- internal/proxy/proxy.go: downloads and uploads streamed between recipients and the storage provider.
-- The text of an error is left out of the technical records.
pub mod Limit
pub mod Handlers
pub mod Copied
pub mod Streamed
pub mod Bounded
use atrium_core.Base.{
  ℕ, zero, ◌+◌, ◌-◌, ◌*◌, Bool, true, false, Option, none, some, List, [], ◌∷◌, ◌++◌, Text, txt,
  take, length,
}
use atrium_core.Base.{if◌then◌else◌, is_empty, leb, ltbℤ, lebℤ, ℤ, pos}
use atrium_core.Base.Result.{Result, ok, err}
use atrium_core.Strings.{itoa}
use atrium_core.Slog.{Attr, Logger, level_info, level_warn, level_error}
use atrium_core.Http.{
  Request, Stream, eof, broken, too_large, chunk, Out, Run, raw, set_header, write_header, write,
  error, emit, path_value, header_get, query_get,
}
use atrium_core.Audit.{
  log, level_audit, event_download_start, event_download_complete, event_upload_start,
  event_upload_complete, event_access_denied, event_share_expired, string_attr, int_attr, email_key,
}
use atrium_core.Provider.{
  ProviderError, forbidden, share_not_found, share_gone, unexpected_status, body_too_large, Content,
  ClientMeta, meta_from_request,
}
use atrium_core.Auth.Session.{SessionData}
use atrium_core.Auth.Middleware.{Handler}
use atrium_core.Tos.{internal_error}

-- What an upload returns: the error, if any, and how many bytes of the body were read.
pub record Uploaded : Type 0 where
  pub failure : Option ProviderError
  pub read : ℕ

-- The operations of the storage provider, by the metadata of the request that asks for them.
pub record Streamer : Type 0 where
  pub download : ClientMeta → (share_id email : Text) → Result ProviderError Content
  pub download_folder_file :
      ClientMeta → (share_id file_id email : Text) → Result ProviderError Content
  pub upload : ClientMeta → (share_id email filename content_type path : Text) → Stream → Uploaded

pub record Proxy : Type 0 where
  pub provider : Streamer
  pub max_upload_size : ℕ
  pub logger : Logger

-- http.MaxBytesReader over a body.
unfoldable pub max_bytes : ℕ → Stream → Stream
max_bytes n eof = eof
max_bytes n broken = broken
max_bytes n too_large = too_large
max_bytes n (chunk c s) =
    let rest = chunk c (max_bytes (n - length c) s) in
    if leb (length c) n then rest else chunk (take n c) too_large

-- How many bytes the recipient's connection still takes; `none` where it does not break.
abbrev pub Link : Type 0
Link = Option ℕ

-- A chunk written to the connection: all of it, with what the connection takes after that, or the
-- part up to which the connection held.
pub data Sent : Type 0 where
  sent : Link → Text → Sent
  cut_off : Text → Sent

unfoldable pub send : Link → Text → Sent
send none c = sent none c
send (some k) c = if leb (length c) k then sent (some (k - length c)) c else cut_off (take k c)

-- io.Copy(w, body): the bytes copied, whether it ended well, and the response.
unfoldable pub copy : Link → Stream → ℕ → Out → (ℕ × Bool) × Out
copy link eof n w = ((n, true), w)
copy link broken n w = ((n, false), w)
copy link too_large n w = ((n, false), w)
copy link (chunk c s) n w = elim (send link c) [
  | cut_off taken ↦ ((n + length taken, false), write (raw taken) w)
  | sent link' taken ↦ copy link' s (n + length taken) (write (raw taken) w)
]

-- shareAttrs
abbrev pub share_attrs : Text → Text → List Attr
share_attrs share_id email =
    string_attr (txt "share_id") share_id ∷ string_attr email_key email ∷ []

-- A header that is set only where the provider sent a value.
unfoldable pub set_header_from : Text → Text → Run
set_header_from k v w = if is_empty v then w else set_header k v w

module _ (p : Proxy) where
  -- tooLarge
  unfoldable pub too_large_error : Run
  too_large_error =
      error (txt "File too large. Maximum: " ++ (itoa (pos p.max_upload_size) ++ txt " bytes")) 413

  -- writeProviderError, where `op` names the operation.
  unfoldable pub write_provider_error : Request → Text → Text → Text → ProviderError → Run
  write_provider_error r op share_id email share_not_found w = error (txt "Share not found") 404 (
      log p.logger r level_audit event_access_denied
        (share_attrs share_id email ++ string_attr (txt "reason") (txt "share_not_found") ∷ []) w)
  write_provider_error r op share_id email forbidden w = error (txt "Access denied") 403 (
      log p.logger r level_audit event_access_denied
        (share_attrs share_id email ++ string_attr (txt "reason") (txt "forbidden") ∷ []) w)
  write_provider_error r op share_id email share_gone w =
      error (txt "Share expired or download limit reached") 410
        (log p.logger r level_audit event_share_expired (share_attrs share_id email) w)
  write_provider_error r op share_id email (unexpected_status status) w =
      error (txt "An error occurred") 500 (
        emit p.logger level_error (txt "provider " ++ (op ++ txt " failed"))
          (string_attr (txt "share_id") share_id ∷ []) w)
  write_provider_error r op share_id email e w = error (txt "Service temporarily unavailable") 503 (
      emit p.logger level_error (txt "provider " ++ (op ++ txt " unreachable"))
        (string_attr (txt "share_id") share_id ∷ []) w)

  -- The headers that streamContent takes over from the provider.
  unfoldable pub content_headers : Content → Run
  content_headers content w =
      let w₁ = set_header_from (txt "Content-Type") content.content_type w in
      let w₂ = set_header_from (txt "Content-Disposition") content.content_disposition w₁ in
      if lebℤ (pos 0) content.content_length
      then set_header (txt "Content-Length") (itoa content.content_length) w₂
      else w₂

  -- streamContent
  unfoldable pub stream_content : Link → Request → Text → Text → Content → List Attr → Run
  stream_content link r share_id email content extra w =
      let w₁ =
        log p.logger r level_audit event_download_start (share_attrs share_id email ++ extra) w in
      let ((n, done), w₂) = copy link content.body 0 (content_headers content w₁) in
      if done
      then log p.logger r level_info event_download_complete
          (share_attrs share_id email ++ (extra ++ int_attr (txt "file_size") (pos n) ∷ [])) w₂
      else emit p.logger level_warn (txt "download stream interrupted")
          (string_attr (txt "share_id") share_id ∷ []) w₂

  -- The end of both download handlers.
  unfoldable pub finish_download :
      Link → Request → Text → Text → List Attr → Result ProviderError Content → Run
  finish_download link r share_id email extra (err e) w =
      write_provider_error r (txt "download") share_id email e w
  finish_download link r share_id email extra (ok content) w =
      stream_content link r share_id email content extra w

  -- HandleDownload
  unfoldable pub handle_download : Link → Handler
  handle_download link none r w = internal_error w
  handle_download link (some session) r w =
      let share_id = path_value r (txt "shareID") in
      finish_download link r share_id session.email []
        (p.provider.download (meta_from_request r) share_id session.email) w

  -- HandleFolderFileDownload
  unfoldable pub handle_folder_file_download : Link → Handler
  handle_folder_file_download link none r w = internal_error w
  handle_folder_file_download link (some session) r w =
      let share_id = path_value r (txt "shareID") in
      let file_id = path_value r (txt "fileID") in
      finish_download link r share_id session.email (string_attr (txt "file_id") file_id ∷ [])
        (p.provider.download_folder_file (meta_from_request r) share_id file_id session.email) w

  -- The end of HandleUpload, by what the provider returned.
  unfoldable pub finish_upload : Request → Text → Text → Text → Uploaded → Run
  finish_upload r share_id email filename u w = elim u.failure [
    | none ↦ write_header 201 (
        log p.logger r level_info event_upload_complete
          (share_attrs share_id email
            ++ string_attr (txt "file_name") filename
              ∷ int_attr (txt "file_size") (pos u.read)
              ∷ [])
          w)
    | some body_too_large ↦ too_large_error w
    | some e ↦ write_provider_error r (txt "upload") share_id email e w
  ]

  -- The attributes of the start event of an upload: the declared size only where there is one.
  abbrev pub upload_attrs : Request → Text → Text → Text → List Attr
  upload_attrs r share_id email filename =
      share_attrs share_id email
      ++ (string_attr (txt "file_name") filename
          ∷ (if lebℤ (pos 0) r.content_length
              then int_attr (txt "file_size") r.content_length ∷ []
              else []))

  -- The call of the provider, behind the checks of HandleUpload.
  unfoldable pub transfer : Request → Text → Text → Text → Run
  transfer r share_id email filename w =
      finish_upload r share_id email filename
        (p.provider.upload (meta_from_request r) share_id email filename
          (header_get r (txt "Content-Type")) (query_get r (txt "path"))
          (max_bytes p.max_upload_size r.body))
        (log p.logger r level_audit event_upload_start (upload_attrs r share_id email filename) w)

  -- HandleUpload
  unfoldable pub handle_upload : Handler
  handle_upload none r w = internal_error w
  handle_upload (some session) r w =
      let share_id = path_value r (txt "shareID") in
      let filename = header_get r (txt "X-Atrium-Filename") in
      if ltbℤ (pos p.max_upload_size) r.content_length
      then too_large_error w
      else if is_empty filename
      then error (txt "missing X-Atrium-Filename header") 400 w
      else transfer r share_id session.email filename w
