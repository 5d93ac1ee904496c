-- ===== src/E2e/Contract/Delivery.antt =====
-- From the store to the recipient: the download handler of the gateway (internal/proxy/proxy.go) over the
-- REST client and the stub.
use atrium_core.Base.{
  ℕ, ◌≡◌, refl, true, false, Option, none, some, List, [], ◌∷◌, Text, txt, ◌==◌, get, lookup,
  Bool-cases, inl, inr, lebℤ, pos,
}
use atrium_core.Base.Result.{ok}
use atrium_core.Strings.{split}
use atrium_core.Http.{
  Request, Stream, fresh, raw, write, write_header, set_header, emit, path_value,
}
use atrium_core.Audit.{log}
use atrium_core.Auth.Session.{SessionData}
use atrium_core.Provider.{Client, Claims, Share, FolderListing, meta_from_request, token_claims}
use atrium_core.Provider.Operations.{download}
use atrium_core.Proxy.{
  Proxy, handle_download, finish_download, stream_content, content_headers, set_header_from, copy,
  send,
}
use atrium_core.Api.Mux.{with_share}
use atrium_core.E2e.Store.{Store, ShareState, StubCodec, claims_of_parts, is_spent}
use atrium_core.E2e.Contract.{Wire, stub_backend, promised_download, file_of}
use atrium_core.E2e.Contract.Paths.{IsCarried}
use atrium_core.E2e.Contract.Downloads.{download-promised_download}

module _ (codec : StubCodec) (wire : Wire) (c : Client) (now : ℕ) where
  -- A proxy whose downloads go to the stub.
  abbrev pub stub_proxy :
      Store
      → (Claims → Option Text)
      → (Stream → Option (List Share))
      → (Stream → Option FolderListing)
      → Proxy
      → Proxy
  stub_proxy s sign shares listing p = record p {
    provider = record p.provider {
      download = λ meta id email.
          download (stub_backend codec wire c.base_url s sign shares listing) c meta now id email;
    };
  }

  share_named : (id : Text) (r : Request) → path_value (with_share id r) (txt "shareID") ≡ id
  unfolding path_value get lookup ◌==◌ txt
  share_named id r = refl

  promised_own :
      (s : Store) (id email : Text) (st : ShareState)
      → lookup id s ≡ some st
      → (st.recipient == email) ≡ true
      → is_spent st.share ≡ false
      → promised_download codec wire s id email ≡ ok (file_of codec wire st)
  unfolding promised_download
  promised_own s id email st f m l = rw (f, promised_download, m, l) refl

  -- A file that is streamed to an unbroken connection.
  streamed :
      (p : Proxy) (r : Request) (id email : Text) (st : ShareState)
      → let w = finish_download p none r id email [] (ok (file_of codec wire st)) fresh in
        (w.status ≡ some 200) × (w.body ≡ raw st.content ∷ [])
  unfolding finish_download stream_content content_headers set_header_from set_header copy send
      write write_header log emit txt
  streamed p r id email st =
      elim (Bool-cases (lebℤ (pos 0) (file_of codec wire st).content_length)) [
        | inl e ↦ rw e (refl, refl)
        | inr e ↦ rw e (refl, refl)
      ]

  -- A recipient with a session downloads a share of theirs that is not spent, over a connection that does
  -- not break: the answer is 200, and its body is the content of the share in the store. This holds for an ID
  -- that a path carries, and for a token that the stub decodes to the address of the session.
  pub handle_download-content :
      (s : Store) (sign : Claims → Option Text) (shares : Stream → Option (List Share))
      (listing : Stream → Option FolderListing) (p : Proxy) (d : SessionData) (r : Request)
      (id token : Text) (st : ShareState)
      → IsCarried id
      → sign (token_claims c id d.email (txt "download") (meta_from_request (with_share id r)) now)
        ≡ some token
      → (claims_of_parts codec (split b'.' token)).email ≡ d.email
      → lookup id s ≡ some st
      → (st.recipient == d.email) ≡ true
      → is_spent st.share ≡ false
      → let w =
          handle_download
            (stub_proxy s sign shares listing p)
            none
            (some d)
            (with_share id r)
            fresh in
        (w.status ≡ some 200) × (w.body ≡ raw st.content ∷ [])
  unfolding handle_download
  handle_download-content s sign shares listing p d r id token st carried signed own f m l =
      rw
        (
          share_named id r,
          download-promised_download codec wire c (meta_from_request (with_share id r)) now s sign
              shares listing id d.email token carried signed own,
          promised_own s id d.email st f m l,
        )
        (streamed (stub_proxy s sign shares listing p) (with_share id r) id d.email st)
