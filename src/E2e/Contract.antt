-- ===== src/E2e/Contract.antt =====
-- The REST client (internal/provider/client.go) wired to the stub provider (startStubProvider and its
-- handlers in cmd/atrium-e2e/stubprovider.go), over HTTP: the URL of a call becomes a route of the stub,
-- and what the handler writes becomes the reply. The wire is a parameter, as far as the client and the
-- stub do not fix it: the fields of a request that the stub does not read, the declared length of a
-- reply, the bytes of a JSON piece, and what a URL that is not a clean path below the base is answered.
pub mod Paths
pub mod Downloads
pub mod Delivery
use atrium_core.Base.{
  ℕ, Bool, true, false, ◌||◌, Option, none, some, List, [], ◌∷◌, ◌++◌, Text, txt, ◌==◌, lookup,
  if◌then◌else◌, is_empty, eqb, ℤ,
}
use atrium_core.Base.Result.{Result, ok, err}
use atrium_core.Strings.{split, cut_or, cut_results, cut}
use atrium_core.Url.{unescape, query_unescape}
use atrium_core.Http.{Request, Stream, eof, chunk, Json, Piece, raw, json, Out, fresh}
use atrium_core.Provider.{
  ProviderError, share_not_found, share_gone, Content, Share, Claims, Call, Reply, Backend,
  FolderListing,
}
use atrium_core.E2e.Reply.{serve_file, quoted}
use atrium_core.E2e.Store.{Store, ShareState, StubCodec, is_spent}
use atrium_core.E2e.Store.Routes.{stub_route, serve}

pub record Wire : Type 0 where
  pub now : Text
  pub soon : Text
  pub inbound : Call → Request
  pub declared : Out → ℤ
  pub print : Json → Text
  pub elsewhere : Call → Result ProviderError Reply

-- What a text has behind a prefix.
abbrev pub behind : Text → Text → Option Text
behind [] s = some s
behind (p ∷ ps) [] = none
behind (p ∷ ps) (c ∷ s) = elim (eqb p c) [ true ↦ behind ps s | false ↦ none ]

-- Whether an element stays where it is when its path is cleaned.
abbrev pub is_clean : Text → Bool
is_clean element =
    if is_empty element || element == txt "." || element == txt ".." then false else true

abbrev pub unescaped : Text → Option (List Text) → Option (List Text)
unescaped element none = none
unescaped element (some rest) = elim (unescape element) [ none ↦ none | some e ↦ some (e ∷ rest) ]

-- The elements of a clean path, each unescaped.
unfoldable pub elements : List Text → Option (List Text)
elements [] = some []
elements (element ∷ rest) = if is_clean element then unescaped element (elements rest) else none

abbrev pub rooted : List Text → Option (List Text)
rooted ([] ∷ rest) = elements rest
rooted _ = none

-- The elements of the path and the query of what stands behind the base URL.
abbrev pub target_parts : Option Text → Option (List Text) × Text
target_parts none = (none, [])
target_parts (some rest) = (rooted (split b'/' (cut_or b'?' rest).0), (cut_or b'?' rest).1)

unfoldable pub target : Text → Text → Option (List Text) × Text
target base_url url = target_parts (behind base_url url)

-- url.ParseQuery of one pair.
abbrev pub pair_of : Text × Text → List (Text × Text)
pair_of (k, v) = elim (query_unescape k) [
  | none ↦ []
  | some key ↦ elim (query_unescape v) [ none ↦ [] | some value ↦ (key, value) ∷ [] ]
]

-- url.ParseQuery
unfoldable pub query_pairs : List Text → List (Text × Text)
query_pairs [] = []
query_pairs (part ∷ parts) =
    (if is_empty part then [] else pair_of (cut_or b'=' part)) ++ query_pairs parts

module _ (codec : StubCodec) (wire : Wire) where
  -- The request as the stub reads it.
  abbrev pub inbound : Call → Text → Request
  inbound call query = record (wire.inbound call) {
    method = call.method;
    query = query_pairs (split b'&' query);
    header = call.header;
    body = call.body;
  }

  abbrev pub bytes_of : Piece → Text
  bytes_of (raw t) = t
  bytes_of (json j) = wire.print j

  -- The body of a reply, a chunk for every write.
  abbrev pub stream_of : List Piece → Stream
  stream_of [] = eof
  stream_of (p ∷ ps) = chunk (bytes_of p) (stream_of ps)

  -- The reply that the client gets of a response.
  abbrev pub reply_of : Out → Reply
  reply_of w = record {
    status = elim w.status [ none ↦ 200 | some status ↦ status ];
    header = w.header;
    content_length = wire.declared w;
    body = stream_of w.body;
  }

  abbrev pub answered : Store × Out → Store × Result ProviderError Reply
  answered (s, w) = (s, ok (reply_of w))

  unfoldable pub deliver_to :
      Option (List Text) × Text → Store → Call → Store × Result ProviderError Reply
  deliver_to (none, query) s call = (s, wire.elsewhere call)
  deliver_to (some segments, query) s call = answered (
      serve codec wire.now wire.soon (stub_route call.method segments) s (inbound call query) fresh)

  -- One call of the client whose base URL is the stub's.
  unfoldable pub deliver : Text → Store → Call → Store × Result ProviderError Reply
  deliver base_url s call = deliver_to (target base_url call.url) s call

  -- The backend that a client sees while the store is `s`.
  abbrev pub stub_backend :
      Text
      → Store
      → (Claims → Option Text)
      → (Stream → Option (List Share))
      → (Stream → Option FolderListing)
      → Backend
  stub_backend base_url s sign shares listing = record {
    do_call = λ call. (deliver base_url s call).1;
    sign = sign;
    decode_shares = shares;
    decode_listing = listing;
  }

  -- What a provider promises a download: the file of a share that is there, the recipient's, and not
  -- spent.
  abbrev pub file_of : ShareState → Content
  file_of st =
      let w = serve_file st.share.file_name st.content fresh in
      record {
        body = chunk st.content eof;
        content_type = txt "application/octet-stream";
        content_disposition =
            txt "attachment; filename=\"" ++ (quoted st.share.file_name ++ txt "\"");
        content_length = wire.declared w;
      }

  unfoldable pub promised_download : Store → Text → Text → Result ProviderError Content
  promised_download s id email = elim (lookup id s) [
    | none ↦ err share_not_found
    | some st ↦
        if st.recipient == email
        then if is_spent st.share then err share_gone else ok (file_of st)
        else err share_not_found
  ]
