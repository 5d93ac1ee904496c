-- ===== src/E2e/Idp.antt =====
-- cmd/atrium-e2e/mockoidc.go: the mock identity provider, with the codes that it has handed out. The
-- signer of tokens, the set of its keys and url.Parse are parameters, and so is r.ParseForm, whose values
-- come as a list, `none` for its error. Each call of randomHex and of time.Now is an argument.
pub mod Once
use atrium_core.Base.{
  ℕ, ◌+◌, Bool, true, false, not, Option, none, some, List, [], ◌∷◌, ◌++◌, Text, txt, ◌==◌, lookup,
  get, is_empty, ◌||◌, ◌&&◌, if◌then◌else◌, eqb, pos,
}
use atrium_core.Base.Result.{Result, ok, err}
use atrium_core.Url.{query_escape}
use atrium_core.Http.{
  Request, Out, Run, Json, Items, Fields, num, str, bool, arr, obj, nil, cons, end, field, raw,
  json, write, set_header, error, redirect, query_get,
}

-- codeData
pub record CodeData : Type 0 where
  pub email : Text
  pub verified : Bool
  pub nonce_value : Text

abbrev pub Codes : Type 0
Codes = List (Text × CodeData)

-- mockOIDC, less its codes, and what it takes from elsewhere.
pub record MockOidc : Type 0 where
  pub issuer : Text
  pub client_id : Text
  pub jwks : Json
  pub sign : Json → Result Text Text
  pub parse_form : Request → Option (List (Text × Text))
  pub has_query : Text → Bool

-- p.codes[code] = data, and delete(p.codes, code).
unfoldable pub delete_code : Text → Codes → Codes
delete_code code [] = []
delete_code code ((k, d) ∷ s) =
    let rest = delete_code code s in if k == code then rest else (k, d) ∷ rest

abbrev pub put_code : Text → CodeData → Codes → Codes
put_code code data_of s = (code, data_of) ∷ delete_code code s

-- html.EscapeString, on one byte.
abbrev pub escape_html_byte : ℕ → Text → Text
escape_html_byte c rest =
    if eqb c b'&'
    then txt "&amp;" ++ rest
    else if eqb c 39
    then txt "&#39;" ++ rest
    else if eqb c b'<'
    then txt "&lt;" ++ rest
    else if eqb c b'>'
    then txt "&gt;" ++ rest
    else if eqb c 34
    then txt "&#34;" ++ rest
    else c ∷ rest

unfoldable pub escape_html : Text → Text
escape_html [] = []
escape_html (c ∷ s) = escape_html_byte c (escape_html s)

-- writeJSON
unfoldable pub write_json : Json → Run
write_json v w = write (json v) (set_header (txt "Content-Type") (txt "application/json") w)

abbrev pub one : Text → Json
one s = arr (cons (str s) nil)

-- What http.ServeMux answers to a method that no pattern of the path has.
abbrev wrong_method : Text → Run
wrong_method allow w = error (txt "Method Not Allowed") 405 (set_header (txt "Allow") allow w)

abbrev reads : Request → Bool
reads r = r.method == txt "GET" || r.method == txt "HEAD"

abbrev get_only : Request → (Request → Run) → Run
get_only r handle = if reads r then handle r else wrong_method (txt "GET, HEAD")

module _ (p : MockOidc) where
  -- handleDiscovery, with the keys in the order in which encoding/json writes a map.
  unfoldable pub handle_discovery : Request → Run
  handle_discovery r = write_json (
      obj (
        field (txt "authorization_endpoint") (str (p.issuer ++ txt "/auth")) (
          field (txt "end_session_endpoint") (str (p.issuer ++ txt "/logout")) (
            field (txt "id_token_signing_alg_values_supported") (one (txt "RS256")) (
              field (txt "issuer") (str p.issuer) (
                field (txt "jwks_uri") (str (p.issuer ++ txt "/jwks")) (
                  field (txt "response_types_supported") (one (txt "code")) (
                    field (txt "scopes_supported")
                      (arr (cons (str (txt "openid")) (cons (str (txt "email")) nil)))
                      (field (txt "subject_types_supported") (one (txt "public"))
                        (field (txt "token_endpoint") (str (p.issuer ++ txt "/token")) end))))))))))

  -- handleJWKS
  unfoldable pub handle_jwks : Request → Run
  handle_jwks r = write_json p.jwks

  -- A hidden field of the login form.
  abbrev pub hidden : Text → Request → Text
  hidden name r =
      txt "  <input type=\"hidden\" name=\""
      ++ (name ++ (txt "\" value=\"" ++ (escape_html (query_get r name) ++ txt "\">\n")))

  -- handleAuthForm
  unfoldable pub handle_auth_form : Request → Run
  handle_auth_form r w =
      write
        (raw (
          txt
            "<!doctype html><html lang=\"de\"><head><meta charset=\"utf-8\"><title>Mock Login</title></head>\n<body>\n<h1>Mock Identity Provider</h1>\n<form method=\"POST\" action=\"/auth\">\n  <label>E-Mail <input name=\"email\" aria-label=\"E-Mail\" autofocus></label>\n  <label><input type=\"checkbox\" name=\"verified\" checked> Verifiziert</label>\n"
          ++ (hidden (txt "state") r
              ++ (hidden (txt "nonce") r
                  ++ (hidden (txt "redirect_uri") r
                      ++ txt
                          "  <button type=\"submit\">Anmelden</button>\n</form>\n</body></html>")))))
        (set_header (txt "Content-Type") (txt "text/html; charset=utf-8") w)

  -- What the form says of the identity.
  abbrev pub identity : List (Text × Text) → CodeData
  identity form = record {
    email = get (txt "email") form;
    verified = not (is_empty (get (txt "verified") form));
    nonce_value = get (txt "nonce") form;
  }

  -- Where the submit leads back to.
  unfoldable pub callback_url : Text → List (Text × Text) → Text
  callback_url code form =
      let target = get (txt "redirect_uri") form in
      target
      ++ ((if p.has_query target then txt "&" else txt "?")
          ++ (txt "code="
              ++ (query_escape code ++ (txt "&state=" ++ query_escape (get (txt "state") form)))))

  -- handleAuthSubmit, for the form that is parsed.
  abbrev pub submit : Option (List (Text × Text)) → Text → Codes → Out → Codes × Out
  submit none code s w = (s, error (txt "bad form") 400 w)
  submit (some form) code s w =
      (put_code code (identity form) s, redirect (callback_url code form) 302 w)

  unfoldable pub handle_auth_submit : Text → Codes → Request → Out → Codes × Out
  handle_auth_submit code s r w = submit (p.parse_form r) code s w

  -- The claims of the ID token for an identity, at the Unix time `now`.
  unfoldable pub id_claims : ℕ → CodeData → Json
  id_claims now d = obj (
      field (txt "aud") (str p.client_id) (
        field (txt "email") (str d.email) (
          field (txt "email_verified") (bool d.verified) (
            field (txt "exp") (num (pos (now + 3600))) (
              field (txt "iat") (num (pos now)) (
                field (txt "iss") (str p.issuer) (
                  field (txt "nonce") (str d.nonce_value)
                    (field (txt "sub") (str (txt "e2e|" ++ d.email)) end))))))))

  -- The answer of handleToken, for the signed token or the error of the signer.
  abbrev pub token_answer : Result Text Text → Run
  token_answer (err message) = error message 500
  token_answer (ok id_token) = write_json (
      obj (
        field (txt "access_token") (str (txt "e2e-access-token")) (
          field (txt "expires_in") (num (pos 3600)) (
            field (txt "id_token") (str id_token)
              (field (txt "token_type") (str (txt "Bearer")) end)))))

  abbrev pub grant : Option CodeData → ℕ → Run
  grant none now = error (txt "invalid_grant") 400
  grant (some d) now = token_answer (p.sign (id_claims now d))

  -- handleToken, for the form that is parsed.
  abbrev pub exchange : Option (List (Text × Text)) → ℕ → Codes → Out → Codes × Out
  exchange none now s w = (s, error (txt "bad form") 400 w)
  exchange (some form) now s w =
      let code = get (txt "code") form in (delete_code code s, grant (lookup code s) now w)

  unfoldable pub handle_token : ℕ → Codes → Request → Out → Codes × Out
  handle_token now s r w = exchange (p.parse_form r) now s w

  -- handleLogout
  unfoldable pub handle_logout : Request → Run
  handle_logout r =
      let target = query_get r (txt "post_logout_redirect_uri") in
      redirect (if is_empty target then txt "/" else target) 302

  -- The mux of startMockOIDC, for a clean path, with the code that randomHex draws and the Unix time.
  unfoldable pub serve : Text → ℕ → Codes → Request → Out → Codes × Out
  serve code now s r w =
      if r.path == txt "/.well-known/openid-configuration"
      then (s, get_only r handle_discovery w)
      else if r.path == txt "/jwks"
      then (s, get_only r handle_jwks w)
      else if r.path == txt "/auth" && r.method == txt "POST"
      then handle_auth_submit code s r w
      else if r.path == txt "/auth"
      then (s, (if reads r then handle_auth_form r else wrong_method (txt "GET, HEAD, POST")) w)
      else if r.path == txt "/token"
      then (if r.method == txt "POST"
          then handle_token now s r w
          else (s, wrong_method (txt "POST") w))
      else if r.path == txt "/logout"
      then (s, get_only r handle_logout w)
      else (s, error (txt "404 page not found") 404 w)
