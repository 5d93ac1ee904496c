-- ===== src/Api/Views.antt =====
-- internal/api/api.go: the probes, the recipient's identity, and the projections of shares and folders
-- that the frontend sees. Times are kept in the text that the provider sent.
pub mod Privacy
use atrium_core.Base.{
  ℕ, Bool, true, false, Option, none, some, List, [], ◌∷◌, ◌++◌, Text, txt, if◌then◌else◌, is_empty,
  ℤ,
}
use atrium_core.Base.Result.{Result, ok, err}
use atrium_core.Slog.{Logger, level_info}
use atrium_core.Http.{
  Request, Out, Run, Json, Items, Fields, null, bool, num, str, arr, obj, nil, cons, end, field,
  raw, json, set_header, write_header, write, error, path_value, query_get,
}
use atrium_core.Audit.{log, event_list_shares, event_list_folder, string_attr, email_key}
use atrium_core.Provider.{
  ProviderError, forbidden, share_not_found, share_gone, unexpected_status, Share, FolderEntry,
  FolderListing, ClientMeta, meta_from_request,
}
use atrium_core.Auth.Session.{SessionData}
use atrium_core.Auth.Middleware.{Handler}
use atrium_core.Tos.{write_json, internal_error}

-- ProviderService
pub record ProviderService : Type 0 where
  pub health_check : Result ProviderError (Unit {0})
  pub list_shares : ClientMeta → (email : Text) → Result ProviderError (List Share)
  pub list_folder : ClientMeta → (share_id email path : Text) → Result ProviderError FolderListing

-- handleHealthz
unfoldable pub handle_healthz : Request → Run
handle_healthz r w =
    write (raw (txt "ok\n"))
      (write_header 200 (set_header (txt "Content-Type") (txt "text/plain; charset=utf-8") w))

-- What handleReadyz answers to the outcome of the probe.
unfoldable pub readiness : Result ProviderError (Unit {0}) → Run
readiness (ok u) = write_json 200 (obj (field (txt "provider") (bool true) end))
readiness (err e) = write_json 503 (obj (field (txt "provider") (bool false) end))

-- handleReadyz
unfoldable pub handle_readyz : ProviderService → Request → Run
handle_readyz s r = readiness s.health_check

-- The end of a handler that encodes a value without a call of WriteHeader.
unfoldable pub answer : Json → Run
answer v w =
    write (json v) (set_header (txt "Content-Type") (txt "application/json; charset=utf-8") w)

-- handleMe
unfoldable pub handle_me : Handler
handle_me none r = internal_error
handle_me (some d) r = answer (obj (field (txt "email") (str d.email) end))

-- A pointer in a projection: null where there is none.
abbrev pub number_or_null : Option ℤ → Json
number_or_null none = null
number_or_null (some n) = num n

abbrev pub time_or_null : Option Text → Json
time_or_null none = null
time_or_null (some t) = str t

-- shareView, as handleListShares fills it from a share.
unfoldable pub share_view : Share → Json
share_view s = obj (
    field (txt "id") (str s.id) (
      field (txt "name") (str (if is_empty s.display_name then s.file_name else s.display_name)) (
        field (txt "size") (number_or_null s.size) (
          field (txt "isFolder") (bool s.is_folder) (
            field (txt "mode") (num s.mode) (
              field (txt "downloadCount") (num s.download_count) (
                field (txt "maxDownloads") (number_or_null s.max_downloads) (
                  field (txt "expiresAt") (time_or_null s.expires_at)
                    (field (txt "createdAt") (time_or_null s.created_at) end)))))))))

unfoldable pub share_views : List Share → Items
share_views [] = nil
share_views (s ∷ l) = cons (share_view s) (share_views l)

-- The answer of handleListShares to the outcome of the provider's call.
unfoldable pub finish_list_shares :
    Logger → Request → Text → Result ProviderError (List Share) → Run
finish_list_shares logger r email (err (unexpected_status s)) w =
    error (txt "An error occurred") 502 w
finish_list_shares logger r email (err e) w = error (txt "Service temporarily unavailable") 503 w
finish_list_shares logger r email (ok l) w =
    answer (arr (share_views l))
      (log logger r level_info event_list_shares (string_attr email_key email ∷ []) w)

-- handleListShares
unfoldable pub handle_list_shares : ProviderService → Logger → Handler
handle_list_shares s logger none r = internal_error
handle_list_shares s logger (some d) r =
    finish_list_shares logger r d.email (s.list_shares (meta_from_request r) d.email)

-- toEntryView
unfoldable pub to_entry_view : FolderEntry → Json
to_entry_view e = obj (
    field (txt "id") (str e.id) (
      field (txt "name") (str e.name) (
        field (txt "size") (number_or_null e.size) (
          field (txt "mimeType") (str e.mime_type) (
            field (txt "isFolder") (bool e.is_folder) (
              field (txt "isOwn") (bool e.is_own)
                (field (txt "uploadedAt") (time_or_null e.uploaded_at) end)))))))

unfoldable pub entry_views : List FolderEntry → Items
entry_views [] = nil
entry_views (e ∷ l) = cons (to_entry_view e) (entry_views l)

-- folderListingView: the entry is left out where there is none.
unfoldable pub listing_view : FolderListing → Json
listing_view l = obj (
    field (txt "isFile") (bool l.is_file) (
      field (txt "entries") (arr (entry_views l.entries))
        (elim l.entry [ none ↦ end | some e ↦ field (txt "entry") (to_entry_view e) end ])))

-- writeShareError
unfoldable pub write_share_error : ProviderError → Run
write_share_error share_not_found = error (txt "Share not found") 404
write_share_error forbidden = error (txt "Access denied") 403
write_share_error share_gone = error (txt "Share expired or download limit reached") 410
write_share_error (unexpected_status s) = error (txt "An error occurred") 502
write_share_error e = error (txt "Service temporarily unavailable") 503

-- The answer of handleListFolder to the outcome of the provider's call.
unfoldable pub finish_list_folder :
    Logger → Request → Text → Text → Text → Result ProviderError FolderListing → Run
finish_list_folder logger r share_id email path (err e) w = write_share_error e w
finish_list_folder logger r share_id email path (ok l) w = answer (listing_view l) (
    log logger r level_info event_list_folder
      (string_attr (txt "share_id") share_id
        ∷ string_attr (txt "path") path
        ∷ string_attr email_key email
        ∷ [])
      w)

-- handleListFolder
unfoldable pub handle_list_folder : ProviderService → Logger → Handler
handle_list_folder s logger none r = internal_error
handle_list_folder s logger (some d) r =
    let share_id = path_value r (txt "shareID") in
    let path = query_get r (txt "path") in
    finish_list_folder logger r share_id d.email path
      (s.list_folder (meta_from_request r) share_id d.email path)
