-- ===== src/Api/Views/Privacy.antt =====
-- What a recipient learns from the list of shares, and the statuses of the two listings.
use atrium_core.Base.{ℕ, ◌≡◌, refl, ap, sym, ◌∙◌, none, some, List, [], ◌∷◌, Text, txt, arith}
use atrium_core.Base.Result.{Result, ok, err}
use atrium_core.Slog.{Logger}
use atrium_core.Http.{Request, Out, cons, write, write_header, set_header, path_value, query_get}
use atrium_core.Audit.{log}
use atrium_core.Http.{emit}
use atrium_core.Provider.{
  ProviderError, forbidden, share_not_found, share_gone, trust_not_configured, unexpected_status,
  body_too_large, unreachable, undecodable, unsigned, Share, meta_from_request, FolderListing,
}
use atrium_core.Auth.Session.{SessionData}
use atrium_core.Proxy.Handlers.{error-status}
use atrium_core.Api.Views.{
  ProviderService, share_view, share_views, finish_list_shares, handle_list_shares,
  write_share_error, finish_list_folder, handle_list_folder, answer,
}

-- The shares, with the recipient's address blanked.
abbrev pub redact : List Share → List Share
redact [] = []
redact (s ∷ l) = record s { recipient_email = [] } ∷ redact l

share_views-redact : (l : List Share) → share_views (redact l) ≡ share_views l
unfolding share_views share_view
share_views-redact [] = refl
share_views-redact (s ∷ l) = ap (cons (share_view s)) (share_views-redact l)

-- The list of shares asks the provider for the session's own recipient only, and its answer does not
-- depend on the addresses in the shares: two providers that list the same shares for that recipient,
-- up to those addresses, lead to the same response.
pub handle_list_shares-private :
    (s s' : ProviderService) (logger : Logger) (d : SessionData) (r : Request) (w : Out)
    (l l' : List Share)
    → s.list_shares (meta_from_request r) d.email ≡ ok l
    → s'.list_shares (meta_from_request r) d.email ≡ ok l'
    → redact l ≡ redact l'
    → handle_list_shares s logger (some d) r w ≡ handle_list_shares s' logger (some d) r w
unfolding handle_list_shares finish_list_shares
handle_list_shares-private s s' logger d r w l l' e e' h = rw e (rw e' (rw views refl))
  where
    views : share_views l ≡ share_views l'
    views = sym (share_views-redact l) ∙ ap share_views h ∙ share_views-redact l'

-- The status of a listing that failed.
abbrev pub listing_status : ProviderError → ℕ
listing_status share_not_found = 404
listing_status forbidden = 403
listing_status share_gone = 410
listing_status (unexpected_status s) = 502
listing_status _ = 503

write_share_error-status :
    (e : ProviderError) (w : Out)
    → w.status ≡ none
    → (write_share_error e w).status ≡ some (listing_status e)
unfolding write_share_error
write_share_error-status share_not_found w h = error-status _ 404 w h
write_share_error-status forbidden w h = error-status _ 403 w h
write_share_error-status share_gone w h = error-status _ 410 w h
write_share_error-status (unexpected_status s) w h = error-status _ 502 w h
write_share_error-status trust_not_configured w h = error-status _ 503 w h
write_share_error-status body_too_large w h = error-status _ 503 w h
write_share_error-status unreachable w h = error-status _ 503 w h
write_share_error-status undecodable w h = error-status _ 503 w h
write_share_error-status unsigned w h = error-status _ 503 w h

-- The status after the provider's answer.
abbrev pub browse_status : Result ProviderError FolderListing → ℕ
browse_status (ok l) = 200
browse_status (err e) = listing_status e

finish_list_folder-status :
    (logger : Logger) (r : Request) (share_id email path : Text)
    (v : Result ProviderError FolderListing) (w : Out)
    → w.status ≡ none
    → (finish_list_folder logger r share_id email path v w).status ≡ some (browse_status v)
unfolding finish_list_folder answer write write_header set_header log emit
finish_list_folder-status logger r share_id email path (err e) w h = write_share_error-status e w h
finish_list_folder-status logger r share_id email path (ok l) w h = ground arith

-- Browsing a folder with a session answers with 200 where the provider lists the folder; otherwise
-- with 404, 403 and 410 for its share errors, 502 for an unexpected status, and 503 for the rest.
pub handle_list_folder-status :
    (s : ProviderService) (logger : Logger) (d : SessionData) (r : Request) (w : Out)
    → w.status ≡ none
    → (handle_list_folder s logger (some d) r w).status
      ≡ some (
          browse_status (
            s.list_folder
              (meta_from_request r)
              (path_value r (txt "shareID"))
              d.email
              (query_get r (txt "path"))))
unfolding handle_list_folder
handle_list_folder-status s logger d r w h = finish_list_folder-status logger r _ d.email _ _ w h
