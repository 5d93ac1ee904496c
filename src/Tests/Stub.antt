-- ===== src/Tests/Stub.antt =====
-- The stub provider and the client at concrete inputs.
use atrium_core.Base.{
  ◌≡◌, refl, true, false, none, some, List, [], ◌∷◌, ◌++◌, Text, txt, ◌==◌, lookup, get, pos,
  negsuc, arith, inr,
}
use atrium_core.Strings.{split, has_prefix}
use atrium_core.Base64.{decode, decode_quanta, skip_newlines, value}
use atrium_core.Http.{Request, eof, chunk, fresh, raw, error, query_get, header_get, path_value}
use atrium_core.Provider.{Client, ClientMeta}
use atrium_core.Provider.Operations.{download}
use atrium_core.Proxy.{Proxy, handle_download}
use atrium_core.Base.Result.{err}
use atrium_core.Provider.{unreachable}
use atrium_core.Api.Mux.{with_share}
use atrium_core.E2e.Tree.{Node, node, nil, filter_by_mode, resolve, walk}
use atrium_core.E2e.Reply.{read_all}
use atrium_core.E2e.Store.{
  ShareState, Store, StubCodec, claims_of_parts, claims_from_request, authorized, is_read_only,
  handle_folder, handle_upload, write_answer, listing,
}
use atrium_core.E2e.Store.Seed.{
  seed, recipient_email, other_email, file_share, folder_share, tree, tree_entry,
}
use atrium_core.E2e.Store.Routes.{start, next, request, serve, stub_route, content}
use atrium_core.E2e.Store.Limits.{IsSound, Reach-IsSound}
use atrium_core.E2e.Store.Binding.{serve-IsHidden}
use atrium_core.E2e.Store.Uploads.{handle_upload-folder, shown_upload}
use atrium_core.E2e.Contract.{Wire, stub_backend, promised_download}
use atrium_core.E2e.Contract.Paths.{IsCarried}
use atrium_core.E2e.Contract.Downloads.{download-promised_download}
use atrium_core.E2e.Contract.Delivery.{stub_proxy, handle_download-content}
use atrium_core.Tests.{anonymous, logger, session}

-- A codec whose claims name the recipient of the fixture.
abbrev stub_codec : StubCodec
stub_codec = record {
  claims = λ payload. record { email = recipient_email; action = [] };
  encode = λ answer. txt "{}";
}

abbrev token : Text
token = txt "h.e30.s"

abbrev store : Store
store = seed (txt "now") (txt "soon")

-- A request of the recipient.
abbrev asking : Text → Text → Request
asking method path = record (anonymous path) {
  method = method;
  header =
      (txt "Authorization", txt "Bearer h.e30.s") ∷ (txt "X-Atrium-Filename", txt "a.txt") ∷ [];
  path_values = (txt "id", txt "folder-dropzone") ∷ [];
  body = chunk (txt "x") eof;
}

abbrev downloading : List Text
downloading = txt "api" ∷ txt "v1" ∷ txt "shares" ∷ txt "file-limited" ∷ txt "content" ∷ []

Reach-IsSound_example :
    IsSound
      (serve stub_codec
        (txt "now")
        (txt "soon")
        (stub_route (txt "GET") downloading)
        store
        (asking (txt "GET") (txt "/"))
        fresh).0
Reach-IsSound_example = Reach-IsSound stub_codec (
    next (start (txt "now") (txt "soon"))
      (request (txt "now") (txt "soon") downloading (asking (txt "GET") (txt "/"))))

abbrev foreign : ShareState
foreign = record {
  recipient = other_email;
  share = file_share (txt "file-other") other_email (txt "Fremd.pdf") 7 none none (txt "now");
  content = txt "geheim\n";
  root = none;
}

claimed : (claims_from_request stub_codec (asking (txt "GET") (txt "/"))).email ≡ recipient_email
unfolding claims_from_request header_get get lookup ◌==◌ txt has_prefix split decode decode_quanta
    skip_newlines value
claimed = refl

foreign_found : lookup (txt "file-other") store ≡ some foreign
unfolding lookup ◌==◌ txt seed
foreign_found = refl

foreign_other : (other_email == recipient_email) ≡ false
unfolding ◌==◌ txt
foreign_other = refl

foreign_differs :
    (foreign.recipient == (claims_from_request stub_codec (asking (txt "GET") (txt "/"))).email)
    ≡ false
foreign_differs = rw claimed foreign_other

serve-IsHidden_example :
    serve stub_codec
      (txt "now")
      (txt "soon")
      (content (txt "file-other"))
      store
      (asking (txt "GET") (txt "/"))
      fresh
    ≡ (store, error (txt "not found") 404 fresh)
serve-IsHidden_example =
    serve-IsHidden stub_codec store (txt "now") (txt "soon") (content (txt "file-other"))
      (asking (txt "GET") (txt "/")) fresh (txt "file-other") refl
      (inr (foreign, (foreign_found, foreign_differs)))

abbrev drop_box : ShareState
drop_box = record {
  recipient = recipient_email;
  share = folder_share (txt "folder-dropzone") (txt "Briefkasten") 3 (txt "now");
  content = [];
  root = tree nil;
}

abbrev empty_root : Node
empty_root = node (tree_entry [] [] none false) [] nil

admitted : authorized stub_codec store (asking (txt "POST") (txt "/")) ≡ some drop_box
unfolding authorized claims_from_request header_get path_value get lookup ◌==◌ txt has_prefix split
    decode decode_quanta skip_newlines value seed
admitted = refl

writable : is_read_only (pos 3) ≡ false
writable = refl

root_found :
    resolve (some empty_root) (query_get (asking (txt "POST") (txt "/")) (txt "path"))
    ≡ some (empty_root, false)
unfolding resolve walk split query_get get lookup
root_found = refl

body_read : read_all (chunk (txt "x") eof) ≡ some (txt "x")
unfolding read_all txt
body_read = refl

handle_upload-folder_example :
    handle_folder stub_codec
      (handle_upload stub_codec store (asking (txt "POST") (txt "/")) fresh).0
      (asking (txt "POST") (txt "/"))
      fresh
    ≡ (
      (handle_upload stub_codec store (asking (txt "POST") (txt "/")) fresh).0,
      write_answer stub_codec
          (listing (record {
            is_file = false;
            entries =
                filter_by_mode (pos 3) nil
                ++ shown_upload drop_box (asking (txt "POST") (txt "/")) (txt "x") empty_root;
            entry = none;
          }))
          fresh,
    )
handle_upload-folder_example =
    handle_upload-folder stub_codec store (asking (txt "POST") (txt "/")) drop_box empty_root
      empty_root (txt "x") fresh fresh admitted writable body_read refl root_found

-- A wire without anything of its own.
abbrev wire : Wire
wire = record {
  now = txt "now";
  soon = txt "soon";
  inbound = λ call. anonymous (txt "/");
  declared = λ w. negsuc 0;
  print = λ j. [];
  elsewhere = λ call. err unreachable;
}

abbrev client : Client
client = record { base_url = txt "http://stub"; audience = txt "aud"; public_key_pem = txt "pem" }

basic-IsCarried : IsCarried (txt "file-basic")
unfolding txt
basic-IsCarried = record {
  bytes = omega arith;
  filled = λ e. cc (e);
  no_dot = λ e. cc (e);
  no_dots = λ e. cc (e);
}

token_claimed : (claims_of_parts stub_codec (split b'.' token)).email ≡ recipient_email
unfolding split txt decode decode_quanta skip_newlines value
token_claimed = refl

abbrev meta : ClientMeta
meta = record { ip = []; xff = [] }

download-promised_download_example :
    download
      (stub_backend stub_codec wire
        (txt "http://stub")
        store
        (λ claims. some token)
        (λ s. none)
        (λ s. none))
      client
      meta
      1000
      (txt "file-basic")
      recipient_email
    ≡ promised_download stub_codec wire store (txt "file-basic") recipient_email
download-promised_download_example =
    download-promised_download stub_codec wire client meta 1000 store (λ claims. some token)
      (λ s. none) (λ s. none) (txt "file-basic") recipient_email token basic-IsCarried refl
      token_claimed

abbrev basic : ShareState
basic = record {
  recipient = recipient_email;
  share =
      file_share (txt "file-basic") recipient_email (txt "Quartalsbericht.pdf") 23 none
        (some (txt "soon")) (txt "now");
  content = txt "Quartalsbericht Inhalt\n";
  root = none;
}

basic_found : lookup (txt "file-basic") store ≡ some basic
unfolding lookup ◌==◌ txt seed
basic_found = refl

basic_own : (recipient_email == recipient_email) ≡ true
unfolding ◌==◌ txt
basic_own = refl

abbrev proxy : Proxy
proxy = record {
  provider = record {
    download = λ m id email. err unreachable;
    download_folder_file = λ m id file_id email. err unreachable;
    upload = λ m id email filename content_type path body. record {
      failure = some unreachable;
      read = 0;
    };
  };
  max_upload_size = 10;
  logger = logger;
}

handle_download-content_example :
    ((handle_download
        (stub_proxy stub_codec wire client 1000 store
          (λ claims. some token)
          (λ s. none)
          (λ s. none)
          proxy)
        none
        (some (record session { email = recipient_email }))
        (with_share (txt "file-basic") (anonymous (txt "/api/shares/file-basic/content")))
        fresh).status
      ≡ some 200)
    × ((handle_download
          (stub_proxy stub_codec wire client 1000 store
            (λ claims. some token)
            (λ s. none)
            (λ s. none)
            proxy)
          none
          (some (record session { email = recipient_email }))
          (with_share (txt "file-basic") (anonymous (txt "/api/shares/file-basic/content")))
          fresh).body
        ≡ raw (txt "Quartalsbericht Inhalt\n") ∷ [])
handle_download-content_example =
    handle_download-content stub_codec wire client 1000 store (λ claims. some token) (λ s. none)
      (λ s. none) proxy (record session { email = recipient_email })
      (anonymous (txt "/api/shares/file-basic/content")) (txt "file-basic") token basic
      basic-IsCarried refl token_claimed basic_found basic_own refl
