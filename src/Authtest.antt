-- ===== src/Authtest.antt =====
-- internal/authtest/authtest.go: the mock identity provider of the unit tests, the client that is wired
-- to it, and a whole sign-in. The signer of tokens and the set of its keys are parameters.
pub mod SignIn
use atrium_core.Base.{
  ℕ, ◌+◌, ◌*◌, Bool, true, false, Option, none, some, List, [], ◌∷◌, ◌++◌, Text, txt, ◌==◌,
  if◌then◌else◌, pos, ◌||◌,
}
use atrium_core.Base.Result.{Result, ok, err}
use atrium_core.Slog.{Line, Logger, level_info}
use atrium_core.Crypto.{Crypto}
use atrium_core.Url.{query_escape}
use atrium_core.Http.{
  Request, Cookie, Out, Run, Json, eof, num, str, bool, arr, obj, nil, cons, end, field, json,
  fresh, write, write_header, set_header, error,
}
use atrium_core.Audit.{new_logger}
use atrium_core.Auth.Session.{Codec, OidcAuth, Time, second, session_cookie_name}
use atrium_core.Auth.Middleware.{login_path}
use atrium_core.Auth.Flow.{Idp, cookie_state, cookie_nonce, login_handler, callback_handler}
use atrium_core.Api.{callback_path}
use atrium_core.Config.{Config}
use atrium_core.Startup.{StartError, Outside, Logged, new_oidc_auth}

abbrev pub client_id : Text
client_id = txt "atrium-core-test"

-- A map of claims: the value of a name, `none` where it is not set.
abbrev pub Claims : Type 0
Claims = Text → Option Json

-- Provider, less the claims for the next token, which are its state.
pub record Provider : Type 0 where
  pub issuer : Text
  pub jwks : Json
  pub sign : Claims → Result Text Text

-- SetIDTokenClaims, on the claims for the next token.
abbrev pub set_id_token_claims : Claims → Claims → Claims
set_id_token_claims claims old = claims

-- for k, v := range extra { claims[k] = v }
abbrev pub merged : Claims → Claims → Claims
merged extra base k = overlay (extra k) (base k)
  where
    overlay : Option Json → Option Json → Option Json
    overlay (some v) old = some v
    overlay none old = old

-- writeJSON
unfoldable pub write_json : Json → Run
write_json v w = write (json v) (set_header (txt "Content-Type") (txt "application/json") w)

abbrev one : Text → Json
one s = arr (cons (str s) nil)

-- What http.ServeMux answers to a method that no pattern of the path has.
abbrev wrong_method : Text → Run
wrong_method allow w = error (txt "Method Not Allowed") 405 (set_header (txt "Allow") allow w)

abbrev get_only : Request → Run → Run
get_only r run =
    if r.method == txt "GET" || r.method == txt "HEAD" then run else wrong_method (txt "GET, HEAD")

module _ (p : Provider) where
  -- handleDiscovery, with the keys in the order in which encoding/json writes a map.
  unfoldable pub handle_discovery : Run
  handle_discovery = write_json (
      obj (
        field (txt "authorization_endpoint") (str (p.issuer ++ txt "/auth")) (
          field (txt "end_session_endpoint") (str (p.issuer ++ txt "/logout")) (
            field (txt "id_token_signing_alg_values_supported") (one (txt "RS256")) (
              field (txt "issuer") (str p.issuer) (
                field (txt "jwks_uri") (str (p.issuer ++ txt "/jwks")) (
                  field (txt "response_types_supported") (one (txt "code")) (
                    field (txt "subject_types_supported") (one (txt "public"))
                      (field (txt "token_endpoint") (str (p.issuer ++ txt "/token")) end)))))))))

  -- handleJWKS
  unfoldable pub handle_jwks : Run
  handle_jwks = write_json p.jwks

  -- The claims of every token, from two readings of the Unix time.
  unfoldable pub base_claims : ℕ → ℕ → Claims
  base_claims now now' k =
      if k == txt "iss"
      then some (str p.issuer)
      else if k == txt "aud"
      then some (str client_id)
      else if k == txt "sub"
      then some (str (txt "test-subject"))
      else if k == txt "exp"
      then some (num (pos (now + 3600)))
      else if k == txt "iat"
      then some (num (pos now'))
      else none

  abbrev pub token_answer : Result Text Text → Run
  token_answer (err message) = error message 500
  token_answer (ok id_token) = write_json (
      obj (
        field (txt "access_token") (str (txt "test-access-token")) (
          field (txt "expires_in") (num (pos 3600)) (
            field (txt "id_token") (str id_token)
              (field (txt "token_type") (str (txt "Bearer")) end)))))

  -- handleToken, for the claims that are set.
  unfoldable pub handle_token : ℕ → ℕ → Claims → Run
  handle_token now now' extra = token_answer (p.sign (merged extra (base_claims now now')))

  -- The mux of NewProvider, for a clean path.
  unfoldable pub serve : ℕ → ℕ → Claims → Request → Run
  serve now now' extra r =
      if r.path == txt "/.well-known/openid-configuration"
      then get_only r handle_discovery
      else if r.path == txt "/jwks"
      then get_only r handle_jwks
      else if r.path == txt "/token"
      then (if r.method == txt "POST"
          then handle_token now now' extra
          else wrong_method (txt "POST"))
      else if r.path == txt "/auth"
      then get_only r (write_header 200)
      else error (txt "404 page not found") 404

  -- The configuration of Auth.
  unfoldable pub base_config : Config
  base_config = record {
    addr = [];
    oidc = record {
      issuer = p.issuer;
      client_id = client_id;
      client_secret = txt "test-secret";
      redirect_uri = txt "http://localhost:8080/auth/callback";
      require_email_verified = true;
      mfa_acr_values = [];
    };
    session_key = txt "0123456789abcdef0123456789abcdef";
    session_absolute_ttl = pos (3600 * second);
    session_idle_ttl = pos 0;
    secure_cookies = false;
    tos = record { enabled = false; path = []; version = [] };
    provider = record {
      kind = [];
      base_url = [];
      private_key_pem = [];
      max_upload_size = pos 0;
      stream_timeout = pos 0;
    };
    audit = record { pseudonymize = false; salt = [] };
    log_level = level_info;
    branding_dir = [];
    brand = record { name = []; sub = []; accent_color = []; default_theme = [] };
  }

  -- for _, o := range opts { o(&cfg) }
  unfoldable pub tweaked : List (Config → Config) → Config → Config
  tweaked [] cfg = cfg
  tweaked (o ∷ opts) cfg = tweaked opts (o cfg)

  -- Auth, whose lines are dropped.
  unfoldable pub auth : Crypto → Outside → List (Config → Config) → Result StartError OidcAuth
  auth crypto out opts =
      (new_oidc_auth crypto out (new_logger crypto level_info [] false)
        (tweaked opts base_config)).1

-- httptest.NewRequest for a path with a query, and the cookies that are added.
abbrev pub test_request : Text → Text → List (Text × Text) → List (Text × Text) → Request
test_request path raw_query query cookies = record {
  method = txt "GET";
  path = path;
  request_uri = path ++ raw_query;
  query = query;
  header = [];
  cookies = cookies;
  path_values = [];
  remote_addr = txt "192.0.2.1:1234";
  content_length = pos 0;
  body = eof;
}

-- The cookies, as AddCookie adds them.
unfoldable pub added : List Cookie → List (Text × Text)
added [] = []
added (c ∷ l) = (c.name, c.value) ∷ added l

-- The value of the last cookie of a name, empty where there is none.
unfoldable pub last_value : Text → Text → List Cookie → Text
last_value name found [] = found
last_value name found (c ∷ l) = last_value name (if c.name == name then c.value else found) l

-- The first cookie of a name.
unfoldable pub find_cookie : Text → List Cookie → Option Cookie
find_cookie name [] = none
find_cookie name (c ∷ l) = let rest = find_cookie name l in if c.name == name then some c else rest

-- The claims that SessionCookie sets.
unfoldable pub claims_for : Text → Text → Claims
claims_for email value k =
    if k == txt "email"
    then some (str email)
    else if k == txt "email_verified"
    then some (bool true)
    else if k == txt "nonce"
    then some (str value)
    else none

-- SessionCookie, for the provider that answers by the claims that are set; `none` where the test fails.
-- The random tokens and the PKCE verifier of the login, and the three instants of the callback, are
-- arguments.
module _ (crypto : Crypto) (codec : Codec) (a : OidcAuth) (idp : Claims → Idp) where
  abbrev pub logged_in : Claims → Option Text → Option Text → Text → Out
  logged_in claims state value verifier =
      login_handler a (idp claims) state value verifier (test_request login_path [] [] []) fresh

  abbrev pub callback_request : List Cookie → Text → Request
  callback_request flow state =
      test_request callback_path (txt "?code=abc&state=" ++ query_escape state)
        ((txt "code", txt "abc") ∷ (txt "state", state) ∷ []) (added flow)

  unfoldable pub session_cookie :
      Claims → Option Text → Option Text → Text → Text → Time → Time → Time → Option Cookie
  session_cookie old state value verifier email checked now now' =
      let flow = (logged_in old state value verifier).cookies in
      let claims = set_id_token_claims (claims_for email (last_value cookie_nonce [] flow)) old in
      let back = callback_request flow (last_value cookie_state [] flow) in
      find_cookie session_cookie_name
        (callback_handler a crypto codec (idp claims) back checked now now' fresh).cookies
