-- ===== src/Http.antt =====
-- What the gateway uses of net/http: requests, cookies, and the response writer together with the
-- log lines that the same run emits. Headers and cookies set after the status line are dropped.
use atrium_core.Base.{
  ℕ, Bool, not, leb, ltb, eqb, ◌&&◌, ◌||◌, Option, none, some, List, [], ◌∷◌, ◌++◌,
}
use atrium_core.Base.{Text, txt, ◌==◌, lookup, get, if◌then◌else◌, ℤ}
use atrium_core.Slog.{Line, Logger, Level, Attr, log_attrs}
use atrium_core.Path.{redirect_target}

pub data SameSite : Type 0 where
  lax : SameSite

pub record Cookie : Type 0 where
  pub name : Text
  pub value : Text
  pub path : Text
  pub max_age : ℤ
  pub http_only : Bool
  pub secure : Bool
  pub same_site : SameSite

-- A body that is read in chunks and ends well, with a failure of the connection, or with the error
-- of a MaxBytesReader.
pub data Stream : Type 0 where
  eof : Stream
  broken : Stream
  too_large : Stream
  chunk : Text → Stream → Stream

-- An inbound request: header names in canonical form, query and path values already decoded,
-- content_length -1 where none was declared.
pub record Request : Type 0 where
  pub method : Text
  pub path : Text
  pub request_uri : Text
  pub query : List (Text × Text)
  pub header : List (Text × Text)
  pub cookies : List (Text × Text)
  pub path_values : List (Text × Text)
  pub remote_addr : Text
  pub content_length : ℤ
  pub body : Stream

mutual
  pub data Json : Type 0 where
    null : Json
    bool : Bool → Json
    num : ℤ → Json
    str : Text → Json
    arr : Items → Json
    obj : Fields → Json

  pub data Items : Type 0 where
    nil : Items
    cons : Json → Items → Items

  pub data Fields : Type 0 where
    end : Fields
    field : Text → Json → Fields → Fields

-- A part of the body: bytes, or a value that encoding/json writes.
pub data Piece : Type 0 where
  raw : Text → Piece
  json : Json → Piece

pub record Out : Type 0 where
  pub status : Option ℕ
  pub header : List (Text × Text)
  pub cookies : List Cookie
  pub body : List Piece
  pub log : List Line

abbrev pub fresh : Out
fresh = record { status = none; header = []; cookies = []; body = []; log = [] }

-- A handler's run: what has been written before, and what has been written after.
abbrev pub Run : Type 0
Run = Out → Out

unfoldable pub put : Text → Text → List (Text × Text) → List (Text × Text)
put k v [] = (k, v) ∷ []
put k v ((j, w) ∷ h) = if j == k then (k, v) ∷ h else (j, w) ∷ put k v h

unfoldable pub remove : Text → List (Text × Text) → List (Text × Text)
remove k [] = []
remove k ((j, w) ∷ h) = let rest = remove k h in if j == k then rest else (j, w) ∷ rest

-- w.Header().Set(k, v)
unfoldable pub set_header : Text → Text → Run
set_header k v w = elim w.status [ none ↦ record w { header = put k v w.header } | some _ ↦ w ]

unfoldable pub del_header : Text → Run
del_header k w = elim w.status [ none ↦ record w { header = remove k w.header } | some _ ↦ w ]

-- The bytes of a cookie's value that http.SetCookie writes; it drops the others.
abbrev pub is_cookie_byte : ℕ → Bool
is_cookie_byte c = (leb 32 c && ltb c 127) && not (eqb c b'"' || (eqb c b';' || eqb c b'\\'))

abbrev pub sanitized : Text → Text
sanitized [] = []
sanitized (c ∷ s) = let rest = sanitized s in if is_cookie_byte c then c ∷ rest else rest

-- The cookie as it is written, less the quotes around a value with a space or a comma, which are taken off
-- again where it is read.
abbrev pub written : Cookie → Cookie
written c = record c { value = sanitized c.value }

-- http.SetCookie(w, c)
unfoldable pub set_cookie : Cookie → Run
set_cookie c w = elim w.status [
  | none ↦ record w { cookies = w.cookies ++ written c ∷ [] }
  | some _ ↦ w
]

-- w.WriteHeader(code): only the first call counts.
unfoldable pub write_header : ℕ → Run
write_header code w = elim w.status [ none ↦ record w { status = some code } | some _ ↦ w ]

-- w.Write: commits status 200 where none was written.
unfoldable pub write : Piece → Run
unfolding write_header
write p w = let w' = write_header 200 w in record w' { body = w'.body ++ p ∷ [] }

-- http.Error(w, message, code)
unfoldable pub error : Text → ℕ → Run
unfolding del_header set_header write_header write
error message code w =
    let w₁ = del_header (txt "Content-Length") w in
    let w₂ = set_header (txt "Content-Type") (txt "text/plain; charset=utf-8") w₁ in
    let w₃ = set_header (txt "X-Content-Type-Options") (txt "nosniff") w₂ in
    write (raw (message ++ txt "\n")) (write_header code w₃)

-- http.Redirect(w, r, url, code), without the short HTML body that it writes for GET.
unfoldable pub redirect : Text → ℕ → Run
unfolding set_header write_header
redirect url code w = write_header code (set_header (txt "Location") (redirect_target url) w)

unfoldable pub emit : Logger → Level → Text → List Attr → Run
emit logger at message attrs w = record w { log = w.log ++ log_attrs logger at message attrs }

-- r.Cookie(name)
unfoldable pub cookie : Request → Text → Option Text
cookie r name = lookup name r.cookies

-- r.URL.Query().Get(k)
unfoldable pub query_get : Request → Text → Text
query_get r k = get k r.query

-- r.Header.Get(k)
unfoldable pub header_get : Request → Text → Text
header_get r k = get k r.header

-- r.PathValue(k)
unfoldable pub path_value : Request → Text → Text
path_value r k = get k r.path_values
