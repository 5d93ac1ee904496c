-- ===== src/Provider.antt =====
-- internal/provider: the contract of a storage backend, the metadata of a request, and the REST client
-- that signs every call. The HTTP transport and the JWT signer are parameters.
pub mod Operations
pub mod Paths
pub mod Dots
pub mod Statuses
pub mod Keys
use atrium_core.Base.{
  ℕ, ◌+◌, ◌/◌, Bool, true, false, not, ◌&&◌, Option, none, some, List, [], ◌∷◌, ◌++◌, Text, txt,
  ◌==◌, get,
}
use atrium_core.Base.{if◌then◌else◌, is_empty, eqb, ltb, leb, ℤ, pos}
use atrium_core.Base.Result.{Result, ok, err, ◌>>=◌}
use atrium_core.Url.{path_escape, query_escape}
use atrium_core.Http.{Request, Stream, eof, header_get}
use atrium_core.Audit.{source_ip}

-- The sentinel errors, and the other ways in which a call fails.
pub data ProviderError : Type 0 where
  forbidden share_not_found share_gone trust_not_configured : ProviderError
  unexpected_status : ℕ → ProviderError
  body_too_large unreachable undecodable unsigned : ProviderError

pub record Content : Type 0 where
  pub body : Stream
  pub content_type : Text
  pub content_disposition : Text
  pub content_length : ℤ

pub record Share : Type 0 where
  pub id : Text
  pub recipient_email : Text
  pub display_name : Text
  pub file_name : Text
  pub size : Option ℤ
  pub is_folder : Bool
  pub mode : ℤ
  pub max_downloads : Option ℤ
  pub download_count : ℤ
  pub expires_at : Option Text
  pub created_at : Option Text

pub record FolderEntry : Type 0 where
  pub id : Text
  pub name : Text
  pub size : Option ℤ
  pub mime_type : Text
  pub is_folder : Bool
  pub is_own : Bool
  pub uploaded_at : Option Text

pub record FolderListing : Type 0 where
  pub is_file : Bool
  pub entries : List FolderEntry
  pub entry : Option FolderEntry

-- ClientMeta
pub record ClientMeta : Type 0 where
  pub ip : Text
  pub xff : Text

-- MetaFromRequest
unfoldable pub meta_from_request : Request → ClientMeta
meta_from_request r = record {
  ip = source_ip r.remote_addr;
  xff = header_get r (txt "X-Forwarded-For");
}

abbrev pub token_issuer : Text
token_issuer = txt "atrium-core"

-- In seconds.
abbrev pub token_ttl : ℕ
token_ttl = 30

pub data Claim : Type 0 where
  text : Text → Claim
  unix : ℕ → Claim

abbrev pub Claims : Type 0
Claims = List (Text × Claim)

-- A request to the backend.
pub record Call : Type 0 where
  pub streaming : Bool
  pub method : Text
  pub url : Text
  pub header : List (Text × Text)
  pub body : Stream

pub record Reply : Type 0 where
  pub status : ℕ
  pub header : List (Text × Text)
  pub content_length : ℤ
  pub body : Stream

-- What the client takes from elsewhere: http.Client.Do, which fails or answers; the JWT signer, `none`
-- for its error; and the decoders of the two JSON answers, `none` for their error.
pub record Backend : Type 0 where
  pub do_call : Call → Result ProviderError Reply
  pub sign : Claims → Option Text
  pub decode_shares : Stream → Option (List Share)
  pub decode_listing : Stream → Option FolderListing

pub record Client : Type 0 where
  pub base_url : Text
  pub audience : Text
  pub public_key_pem : Text

optional_claim : Text → Text → Claims
optional_claim k v = if is_empty v then [] else (k, text v) ∷ []

-- The claims of createToken, at the Unix time `now`.
unfoldable pub token_claims : Client → Text → Text → Text → ClientMeta → ℕ → Claims
unfolding optional_claim
token_claims c share_id email action meta now =
    (txt "iss", text token_issuer)
    ∷ (txt "aud", text c.audience)
    ∷ (txt "iat", unix now)
    ∷ (txt "exp", unix (now + token_ttl))
    ∷ (txt "action", text action)
    ∷ (optional_claim (txt "share_id") share_id
        ++ (optional_claim (txt "email") email
            ++ (optional_claim (txt "ip") meta.ip ++ optional_claim (txt "xff") meta.xff)))

-- mapErrorStatus
unfoldable pub map_error_status : ℕ → ProviderError
map_error_status status =
    if eqb status 403
    then forbidden
    else if eqb status 404
    then share_not_found
    else if eqb status 410
    then share_gone
    else unexpected_status status

non_empty : List (Text × Text) → List (Text × Text)
non_empty [] = []
non_empty ((k, v) ∷ h) = let rest = non_empty h in if is_empty v then rest else (k, v) ∷ rest

-- Whether a status is a success, and the error it is mapped to otherwise.
unfoldable pub check_status : Reply → Result ProviderError Reply
check_status reply =
    if leb 200 reply.status && ltb reply.status 300
    then ok reply
    else err (map_error_status reply.status)

module _ (backend : Backend) (c : Client) (meta : ClientMeta) (now : ℕ) where
  -- request
  unfoldable pub request :
      Bool
      → Text
      → Text
      → Text
      → Text
      → Text
      → Stream
      → List (Text × Text)
      → Result ProviderError Reply
  unfolding non_empty
  request streaming method path share_id email action body headers =
      elim (backend.sign (token_claims c share_id email action meta now)) [
        | none ↦ err unsigned
        | some token ↦
            backend.do_call (record {
              streaming = streaming;
              method = method;
              url = c.base_url ++ path;
              header = (txt "Authorization", txt "Bearer " ++ token) ∷ non_empty headers;
              body = body;
            })
            >>= check_status
      ]

  -- do
  unfoldable pub do_request : Text → Text → Text → Text → Text → Result ProviderError Reply
  do_request method path share_id email action =
      request false method path share_id email action eof []
