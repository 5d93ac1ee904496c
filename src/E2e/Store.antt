-- ===== src/E2e/Store.antt =====
-- The store of the stub provider and its handlers (cmd/atrium-e2e/fixtures.go and stubprovider.go). Its
-- map is a list in the order of the fixture; a handler takes the store and the response so far to both
-- afterwards. The decoder of a token's JSON payload is a parameter, which returns what it could fill in.
pub mod Seed
pub mod Routes
pub mod Limits
pub mod Binding
pub mod Uploads
use atrium_core.Base.{
  ℕ, ◌+◌, ◌-◌, ◌/◌, ◌%◌, leb, ltb, Bool, true, false, ◌&&◌, ◌||◌, Option, none, some, List, [], ◌∷◌,
  ◌++◌, Text, txt, ◌==◌, length, lookup, if◌then◌else◌, is_empty, eqb, ℤ, pos, ◌+ℤ◌, lebℤ,
}
use atrium_core.Strings.{split, itoa, has_prefix}
use atrium_core.Path.{lower_hex}
use atrium_core.Base64.{decode}
use atrium_core.Url.{query_unescape}
use atrium_core.Http.{
  Request, Stream, eof, broken, too_large, chunk, Out, Run, raw, json, write, write_header,
  set_header, error, path_value, header_get, query_get,
}
use atrium_core.Provider.{Share, FolderEntry, FolderListing}
use atrium_core.E2e.Reply.{trim_bearer, serve_file, read_all}
use atrium_core.E2e.Tree.{
  Node, Nodes, node, nil, cons, entry, children, content_of_node, count, resolve, find_by_id,
  with_child, update, filter_by_mode,
}

pub record ShareState : Type 0 where
  pub recipient : Text
  pub share : Share
  pub content : Text
  pub root : Option Node

abbrev pub Store : Type 0
Store = List (Text × ShareState)

-- tokenClaims
pub record StubClaims : Type 0 where
  pub email : Text
  pub action : Text

-- What the stub writes as JSON: a list of shares or a folder listing.
pub data Answer : Type 0 where
  shares : List Share → Answer
  listing : FolderListing → Answer

-- The encoder of answers and the decoder of claims, both of encoding/json.
pub record StubCodec : Type 0 where
  pub claims : Text → StubClaims
  pub encode : Answer → Text

abbrev pub no_claims : StubClaims
no_claims = record { email = []; action = [] }

-- The share under an ID, replaced.
unfoldable pub put_share : Text → ShareState → Store → Store
put_share id st [] = []
put_share id st ((k, v) ∷ s) = elim (k == id) [
  | true ↦ (k, st) ∷ s
  | false ↦ (k, v) ∷ put_share id st s
]

-- listFor, over the fixture's order.
unfoldable pub list_for : Text → Store → List Share
list_for email [] = []
list_for email ((k, v) ∷ s) = elim (v.recipient == email) [
  | true ↦ v.share ∷ list_for email s
  | false ↦ list_for email s
]

-- Whether a share's limit is reached, and the share with one download more.
abbrev pub is_spent : Share → Bool
is_spent s = elim s.max_downloads [ none ↦ false | some m ↦ lebℤ m s.download_count ]

abbrev pub counted : ShareState → ShareState
counted st = record st {
  share = record st.share { download_count = st.share.download_count +ℤ pos 1 };
}

-- The name of an upload: unescaped where that succeeds.
abbrev pub upload_name : Text → Text
upload_name name = elim (query_unescape name) [ none ↦ name | some decoded ↦ decoded ]

-- The node that an upload appends to a folder.
abbrev pub uploaded : Text → Text → Node → Node
uploaded name body folder =
    node
      (record {
        id = txt "up-" ++ itoa (pos (count (children folder) + 1));
        name = name;
        size = some (pos (length body));
        mime_type = [];
        is_folder = false;
        is_own = true;
        uploaded_at = none;
      })
      body nil

-- The mode of a folder that takes no uploads.
abbrev pub is_read_only : ℤ → Bool
is_read_only (pos n) = eqb n 0
is_read_only mode = false

module _ (codec : StubCodec) where
  -- claimsFromRequest, on the parts of the token.
  abbrev pub claims_of_parts : List Text → StubClaims
  claims_of_parts (header ∷ payload ∷ signature ∷ []) = elim (decode payload) [
    | none ↦ no_claims
    | some bytes ↦ codec.claims bytes
  ]
  claims_of_parts _ = no_claims

  unfoldable pub claims_from_request : Request → StubClaims
  claims_from_request r =
      claims_of_parts (split b'.' (trim_bearer (header_get r (txt "Authorization"))))

  -- writeJSON
  unfoldable pub write_answer : Answer → Run
  write_answer a w =
      write (raw (codec.encode a)) (set_header (txt "Content-Type") (txt "application/json") w)

  -- authorize, without its answer.
  unfoldable pub authorized : Store → Request → Option ShareState
  authorized s r = elim (lookup (path_value r (txt "id")) s) [
    | none ↦ none
    | some st ↦ if st.recipient == (claims_from_request r).email then some st else none
  ]

  -- The answer of authorize to a share that is not there, or not the caller's.
  abbrev pub not_found : Store → Out → Store × Out
  not_found s w = (s, error (txt "not found") 404 w)

  unfoldable pub handle_health : Store → Request → Out → Store × Out
  handle_health s r w = (s, write_header 200 w)

  unfoldable pub handle_shares : Store → Request → Out → Store × Out
  handle_shares s r w = (s, write_answer (shares (list_for (claims_from_request r).email s)) w)

  -- handleContent, for a share that is the caller's.
  abbrev pub content_of_share : ShareState → Store → Request → Out → Store × Out
  content_of_share st s r w = if is_spent st.share then (s, error (txt "gone") 410 w) else (
    put_share (path_value r (txt "id")) (counted st) s,
    serve_file st.share.file_name st.content w,
  )

  unfoldable pub handle_content : Store → Request → Out → Store × Out
  handle_content s r w = elim (authorized s r) [
    | none ↦ not_found s w
    | some st ↦ content_of_share st s r w
  ]

  -- handleFolder, for what resolve finds.
  abbrev pub show_folder : ShareState → Option (Node × Bool) → Store → Out → Store × Out
  show_folder st none s w = not_found s w
  show_folder st (some (target, true)) s w = (
    s,
    write_answer (listing (record { is_file = true; entries = []; entry = some (entry target) })) w,
  )
  show_folder st (some (target, false)) s w = (
    s,
    write_answer
        (listing (record {
          is_file = false;
          entries = filter_by_mode st.share.mode (children target);
          entry = none;
        }))
        w,
  )

  unfoldable pub handle_folder : Store → Request → Out → Store × Out
  handle_folder s r w = elim (authorized s r) [
    | none ↦ not_found s w
    | some st ↦ show_folder st (resolve st.root (query_get r (txt "path"))) s w
  ]

  -- handleFolderFile, for what findByID finds.
  abbrev pub send_node : Option Node → Store → Out → Store × Out
  send_node none s w = not_found s w
  send_node (some n) s w = (s, serve_file (entry n).name (content_of_node n) w)

  unfoldable pub handle_folder_file : Store → Request → Out → Store × Out
  handle_folder_file s r w = elim (authorized s r) [
    | none ↦ not_found s w
    | some st ↦ send_node (find_by_id st.root (path_value r (txt "fileID"))) s w
  ]

  -- The tree with an upload at a path.
  abbrev pub with_upload : Text → Text → Text → Node → Node
  with_upload path name body root =
      update (split b'/' path) (λ folder. with_child (uploaded name body folder) folder) root

  -- The end of handleUpload: the folder that resolve finds, and the body.
  abbrev pub store_upload :
      ShareState → Option (Node × Bool) → Text → Store → Request → Out → Store × Out
  store_upload st (some (folder, false)) body s r w = (
    put_share (path_value r (txt "id"))
        (record st {
          root = elim st.root [
            | none ↦ none
            | some root ↦ some (
                with_upload (query_get r (txt "path"))
                  (upload_name (header_get r (txt "X-Atrium-Filename"))) body root)
          ];
        })
        s,
    write_header 201 w,
  )
  store_upload st _ body s r w = not_found s w

  -- handleUpload, for a share that is the caller's: whether it is read-only, and what is read.
  abbrev pub receive : ShareState → Bool → Option Text → Store → Request → Out → Store × Out
  receive st true body s r w = (s, error (txt "forbidden") 403 w)
  receive st false none s r w = (s, error (txt "read body") 400 w)
  receive st false (some body) s r w =
      store_upload st (resolve st.root (query_get r (txt "path"))) body s r w

  unfoldable pub handle_upload : Store → Request → Out → Store × Out
  handle_upload s r w = elim (authorized s r) [
    | none ↦ not_found s w
    | some st ↦ receive st (is_read_only st.share.mode) (read_all r.body) s r w
  ]
