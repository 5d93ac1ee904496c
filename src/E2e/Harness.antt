-- ===== src/E2e/Harness.antt =====
-- cmd/atrium-e2e/main.go: the gateway with the stand-ins around it, and a route that resets their store.
-- Like the functions of start-up, run returns the lines that it logs beside its result.
pub mod Served
use atrium_core.Base.{
  ℕ, Bool, true, false, Option, none, some, List, [], ◌∷◌, ◌++◌, ◌*◌, Text, txt, ◌==◌, ◌&&◌,
  if◌then◌else◌, is_empty, not, ℤ, pos, ltbℤ,
}
use atrium_core.Base.Result.{Result, ok, err}
use atrium_core.Slog.{Line, Logger, Attr, boolean, level_info, level_error, log_attrs}
use atrium_core.Crypto.{Crypto}
use atrium_core.Http.{Request, Out, write_header}
use atrium_core.Audit.{string_attr, new_logger}
use atrium_core.Auth.Session.{OidcAuth, second}
use atrium_core.Api.{callback_path}
use atrium_core.Tos.{Manager, new_manager}
use atrium_core.Provider.{Client}
use atrium_core.Provider.Keys.{usable_key}
use atrium_core.Provider.Operations.{new_nextcloud}
use atrium_core.Webui.{ShellConfig}
use atrium_core.Config.{Config, TosConfig}
use atrium_core.Config.Vars.{Env, parse_int}
use atrium_core.Startup.{
  StartError, identity_provider_down, stub_provider_down, no_signing_key, unusable_provider,
  unreadable_terms, listen_failed, Outside, nat_of, Logged, after, and_then, or_fail, new_oidc_auth,
}
use atrium_core.Gateway.{Gateway}
use atrium_core.E2e.Store.{Store}
use atrium_core.E2e.Store.Seed.{seed}

abbrev pub client_id : Text
client_id = txt "atrium-core-e2e"

-- getenv
unfoldable pub getenv : Env → Text → Text → Text
getenv env key fallback = if is_empty (env key) then fallback else env key

-- The terms of use of run.
unfoldable pub terms : Env → TosConfig
terms env =
    if is_empty (env (txt "TOS_PATH"))
    then record { enabled = false; path = []; version = [] }
    else record { enabled = true; path = env (txt "TOS_PATH"); version = env (txt "TOS_VERSION") }

-- The cap of uploads, for what ParseInt returns: 100 MiB unless a positive number is set.
unfoldable pub upload_cap : Option ℤ → ℤ
upload_cap none = pos (100 * 1048576)
upload_cap (some n) = if ltbℤ (pos 0) n then n else pos (100 * 1048576)

-- The configuration of run, for the URLs of the stand-ins and the signing key.
unfoldable pub config_of : Env → Text → Text → Text → Config
config_of env issuer url key = record {
  addr = getenv env (txt "ATRIUM_ADDR") (txt "127.0.0.1:8080");
  oidc = record {
    issuer = issuer;
    client_id = client_id;
    client_secret = txt "e2e-secret";
    redirect_uri = getenv env (txt "E2E_BASE_URL") (txt "http://127.0.0.1:8080") ++ callback_path;
    require_email_verified = true;
    mfa_acr_values = [];
  };
  session_key = txt "e2e-session-key-0123456789abcdef";
  session_absolute_ttl = pos (12 * 3600 * second);
  session_idle_ttl = pos 0;
  secure_cookies = false;
  tos = terms env;
  provider = record {
    kind = [];
    base_url = url;
    private_key_pem = key;
    max_upload_size = upload_cap (parse_int (env (txt "MAX_UPLOAD_SIZE")));
    stream_timeout = pos (1800 * second);
  };
  audit = record { pseudonymize = false; salt = [] };
  log_level = level_info;
  branding_dir = [];
  brand = record { name = []; sub = []; accent_color = []; default_theme = [] };
}

-- What the harness takes from elsewhere beside what the gateway does: the issuer of startMockOIDC and the
-- URL of startStubProvider, for which a port is opened and keys are made, and the text of a fresh key in
-- PEM. `none` stands for an error.
pub record Standins : Type 0 where
  pub mock_oidc : Option Text
  pub stub_provider : Option Text
  pub signing_key : Option Text

module _ (crypto : Crypto) (out : Outside) (logger : Logger) where
  -- The consent gate of run.
  unfoldable pub gate_of : Config → Logged (Option Manager)
  gate_of cfg =
      if cfg.tos.enabled
      then and_then
          (or_fail unreadable_terms (
            new_manager crypto (out.read_file cfg.tos.path) cfg.tos.version cfg.session_key
              cfg.secure_cookies logger))
          (λ m. ([], ok (some m)))
      else ([], ok none)

  -- The handler of run: its arguments for api.Handler.
  abbrev pub served_by : Config → OidcAuth → Client → Option Manager → Gateway
  served_by cfg auth client tos = record {
    addr = cfg.addr;
    auth = auth;
    client = client;
    max_upload_size = nat_of cfg.provider.max_upload_size;
    tos = tos;
    branding_dir = [];
    shell = record {
      brand = record { name = []; sub = []; default_theme = []; accent_color = [] };
      max_upload_size = cfg.provider.max_upload_size;
      session_idle_ttl = pos 0;
    };
    secure_transport = false;
  }

  -- run, for a configuration.
  unfoldable pub prepare : Config → Logged Gateway
  prepare cfg = and_then (new_oidc_auth crypto out logger cfg) (λ auth.
      and_then
        (or_fail unusable_provider (
          new_nextcloud (out.parse_base cfg.provider.base_url)
            (usable_key out.keys cfg.provider.private_key_pem)))
        (λ client. and_then (gate_of cfg) (λ tos. ([], ok (served_by cfg auth client tos)))))

  -- run, up to the server.
  unfoldable pub assemble : Env → Standins → Logged (Config × Gateway)
  assemble env s = and_then (or_fail identity_provider_down s.mock_oidc) (λ issuer.
      and_then (or_fail stub_provider_down s.stub_provider) (λ url.
        and_then (or_fail no_signing_key s.signing_key) (λ key.
          let cfg = config_of env issuer url key in
          and_then (prepare cfg) (λ g. ([], ok (cfg, g))))))

  -- The line "e2e harness listening".
  abbrev pub listening : Config → List Line
  listening cfg = log_attrs logger level_info (txt "e2e harness listening") (
      string_attr (txt "addr") cfg.addr
      ∷ string_attr (txt "issuer") cfg.oidc.issuer
      ∷ string_attr (txt "provider") cfg.provider.base_url
      ∷ record { key = txt "tos"; value = boolean cfg.tos.enabled }
      ∷ [])

  -- run. ListenAndServe returns only with an error.
  unfoldable pub run : Env → Standins → Logged (Unit {0})
  run env s = and_then (assemble env s) (λ served. (listening served.0, err listen_failed))

-- The lines and the exit status of main.
unfoldable pub main : Crypto → Outside → Env → Standins → List Line × ℕ
main crypto out env s =
    let logger = new_logger crypto level_info [] false in exit_of (run crypto out logger env s)
  where
    exit_of : Logged (Unit {0}) → List Line × ℕ
    exit_of (lines, ok u) = (lines, 0)
    exit_of (lines, err e) = (
      lines
          ++ log_attrs (new_logger crypto level_info [] false) level_error
              (txt "e2e harness terminated") [],
      1,
    )

-- The mux of run, before the handler of the gateway, whose calls may change the store.
unfoldable pub root :
    (Store → Request → Out → Store × Out) → Text → Text → Store → Request → Out → Store × Out
root handler now soon s r w =
    if r.method == txt "POST" && r.path == txt "/_e2e/seed"
    then (seed now soon, write_header 204 w)
    else handler s r w
