-- ===== src/E2e/Contract/Downloads.antt =====
-- A download through the client and the stub gives what a provider promises.
use atrium_core.Base.{
  ℕ, ◌≡◌, refl, true, Option, some, List, [], ◌∷◌, ◌++◌, Text, txt, ◌==◌, get, lookup, Bool-cases,
  Option-cases, inl, inr,
}
use atrium_core.Base.Result.{Result, ok, err, ◌>>=◌}
use atrium_core.Strings.{split, has_prefix}
use atrium_core.Http.{
  Stream, Request, Out, fresh, eof, path_value, header_get, error, write, write_header, set_header,
  del_header, put,
}
use atrium_core.Provider.{
  ClientMeta, Client, Claims, Share, FolderListing, Call, Reply, request, token_claims,
  check_status, map_error_status, share_not_found, share_gone, ProviderError, Content,
}
use atrium_core.Provider.Operations.{download, share_path, content_of}
use atrium_core.E2e.Reply.{serve_file, trim_bearer}
use atrium_core.E2e.Store.{
  Store, ShareState, StubCodec, claims_of_parts, claims_from_request, handle_content, is_spent,
}
use atrium_core.E2e.Store.Binding.{authorized_hidden, authorized_own}
use atrium_core.E2e.Store.Routes.{content, stub_route, serve, with_id}
use atrium_core.E2e.Contract.{
  Wire, deliver, deliver_to, stub_backend, promised_download, file_of, reply_of, inbound,
}
use atrium_core.E2e.Contract.Paths.{IsCarried, target-share_path}

stub_route_content :
    (id : Text)
    → stub_route (txt "GET") (txt "api" ∷ txt "v1" ∷ txt "shares" ∷ id ∷ txt "content" ∷ [])
      ≡ content id
unfolding stub_route txt ◌==◌
stub_route_content id = refl

trim_bearer_token : (token : Text) → trim_bearer (txt "Bearer " ++ token) ≡ token
unfolding has_prefix txt
trim_bearer_token token = refl

module _ (codec : StubCodec) (wire : Wire) (base_url : Text) (s : Store) where
  -- The call that a download makes.
  abbrev content_call : Text → Text → Call
  content_call id token = record {
    streaming = true;
    method = txt "GET";
    url = base_url ++ share_path id (txt "/content");
    header = (txt "Authorization", txt "Bearer " ++ token) ∷ [];
    body = eof;
  }

  -- The reply to the response of handle_content.
  abbrev content_reply : Text → Text → Reply
  content_reply id token =
      reply_of codec wire
        (handle_content codec s (with_id id (inbound codec wire (content_call id token) []))
          fresh).1

  deliver_content :
      (id token : Text)
      → IsCarried id
      → (deliver codec wire base_url s (content_call id token)).1 ≡ ok (content_reply id token)
  unfolding deliver deliver_to serve
  deliver_content id token c = rw (target-share_path base_url id c, stub_route_content id) refl

  bearer_of_call :
      (id token : Text)
      → header_get
          (with_id id (inbound codec wire (content_call id token) []))
          (txt "Authorization")
        ≡ txt "Bearer " ++ token
  unfolding header_get get lookup ◌==◌ txt
  bearer_of_call id token = refl

  id_of_call :
      (id token : Text)
      → path_value (with_id id (inbound codec wire (content_call id token) [])) (txt "id") ≡ id
  unfolding path_value get lookup ◌==◌ txt
  id_of_call id token = refl

  claims_of_call :
      (id token email : Text)
      → (claims_of_parts codec (split b'.' token)).email ≡ email
      → (claims_from_request codec
          (with_id id (inbound codec wire (content_call id token) []))).email
        ≡ email
  unfolding claims_from_request
  claims_of_call id token email e = rw (bearer_of_call id token, trim_bearer_token token) e

  -- What the client makes of a response.
  abbrev received : Out → Result ProviderError Content
  received w = check_status (reply_of codec wire w) >>= (λ reply. ok (content_of reply))

  received_not_found : received (error (txt "not found") 404 fresh) ≡ err share_not_found
  unfolding check_status map_error_status error write write_header set_header del_header
  received_not_found = refl

  received_gone : received (error (txt "gone") 410 fresh) ≡ err share_gone
  unfolding check_status map_error_status error write write_header set_header del_header
  received_gone = refl

  received_file :
      (st : ShareState)
      → received (serve_file st.share.file_name st.content fresh) ≡ ok (file_of codec wire st)
  unfolding check_status serve_file write write_header set_header put get lookup ◌==◌ txt
  received_file st = refl

  -- The response of handle_content to a request for `id` by `email`.
  received_content :
      (id email : Text) (r : Request)
      → path_value r (txt "id") ≡ id
      → (claims_from_request codec r).email ≡ email
      → received (handle_content codec s r fresh).1 ≡ promised_download codec wire s id email
  unfolding promised_download handle_content
  received_content id email r p e = elim (Option-cases (lookup id s)) [
    | inl n ↦
        rw (n, promised_download, authorized_hidden codec s r id p (inl n), handle_content)
          received_not_found
    | inr (st, f) ↦ elim (Bool-cases (st.recipient == email)) [
      | inr m ↦
          rw
            (
              f,
              promised_download,
              m,
              authorized_hidden codec s r id p (inr (st, (f, rw e m))),
              handle_content,
            )
            received_not_found
      | inl m ↦ elim (Bool-cases (is_spent st.share)) [
        | inl spent ↦
            rw
              (
                f,
                promised_download,
                m,
                authorized_own codec s r id st p f (rw e m),
                handle_content,
                spent,
              )
              received_gone
        | inr left ↦
            rw
              (
                f,
                promised_download,
                m,
                authorized_own codec s r id st p f (rw e m),
                handle_content,
                left,
              )
              (received_file st)
      ]
    ]
  ]

module _ (codec : StubCodec) (wire : Wire) (c : Client) (meta : ClientMeta) (now : ℕ) where
  -- A download through the REST client, whose base URL is the stub's, is what the provider promises for
  -- the store: the file of the recipient's share, "share not found" for a share that is missing or of
  -- another recipient, and "share gone" for one whose limit is reached. This holds for an ID that a path
  -- carries as an element of its own, and for a token whose claims the stub decodes to the address.
  pub download-promised_download :
      (s : Store) (sign : Claims → Option Text) (shares : Stream → Option (List Share))
      (listing : Stream → Option FolderListing) (id email token : Text)
      → IsCarried id
      → sign (token_claims c id email (txt "download") meta now) ≡ some token
      → (claims_of_parts codec (split b'.' token)).email ≡ email
      → download (stub_backend codec wire c.base_url s sign shares listing) c meta now id email
        ≡ promised_download codec wire s id email
  unfolding download request
  download-promised_download s sign shares listing id email token carried signed own =
      rw (signed, deliver_content codec wire c.base_url s id token carried)
        (received_content codec wire c.base_url s id email _
          (id_of_call codec wire c.base_url s id token)
          (claims_of_call codec wire c.base_url s id token email own))
