-- ===== src/Gateway.antt =====
-- cmd/atrium/main.go: main, run, newProvider and checkProviderTrust. Like NewOIDCAuth, a function returns
-- the lines that it logs beside its result.
pub mod Started
pub mod Serve
pub mod Shell
use atrium_core.Base.{
  ℕ, ◌/◌, Bool, true, false, Option, none, some, List, [], ◌∷◌, ◌++◌, Text, txt, ◌==◌,
  if◌then◌else◌, is_empty, ℤ, pos, negsuc,
}
use atrium_core.Base.Result.{Result, ok, err}
use atrium_core.Slog.{Line, Logger, Level, level_info, level_warn, level_error, log_attrs}
use atrium_core.Crypto.{Crypto}
use atrium_core.Audit.{string_attr, new_logger}
use atrium_core.Auth.Session.{OidcAuth, second}
use atrium_core.Auth.Middleware.{logged_out_path}
use atrium_core.Tos.{Manager, new_manager}
use atrium_core.Provider.{ProviderError, Client}
use atrium_core.Provider.Keys.{KeyParsers, usable_key}
use atrium_core.Provider.Operations.{new_nextcloud}
use atrium_core.Webui.{ShellConfig, Brand}
use atrium_core.Config.{Config, ProviderConfig, TosConfig}
use atrium_core.Config.Vars.{ConfigError}
use atrium_core.Startup.{
  StartError, unknown_provider_type, unusable_provider, unreadable_terms, listen_failed,
  shutdown_failed, Outside, nat_of, Logged, after, and_then, or_fail, line, new_oidc_auth,
}

-- How serving ends: the listener fails, or a signal arrives and Shutdown returns.
pub data Ending : Type 0 where
  listen_error : Ending
  signalled : Bool → Ending

-- What run serves.
pub record Gateway : Type 0 where
  pub addr : Text
  pub auth : OidcAuth
  pub client : Client
  pub max_upload_size : ℕ
  pub tos : Option Manager
  pub branding_dir : Text
  pub shell : ShellConfig
  pub secure_transport : Bool

module _ (crypto : Crypto) (out : Outside) (logger : Logger) where
  -- newProvider
  unfoldable pub new_provider : ProviderConfig → Logged Client
  new_provider cfg =
      if cfg.kind == txt "nextcloud"
      then or_fail unusable_provider
          (new_nextcloud (out.parse_base cfg.base_url) (usable_key out.keys cfg.private_key_pem))
      else ([], err unknown_provider_type)

  -- checkProviderTrust
  abbrev pub trust_lines : Result ProviderError (Unit {0}) → List Line
  trust_lines (err e) =
      line crypto out logger level_warn
        (txt "provider trust not established; core running degraded")
  trust_lines (ok u) = line crypto out logger level_info (txt "provider trust established")

  unfoldable pub check_provider_trust : Client → List Line
  check_provider_trust client = trust_lines (out.health_check client)

  -- The consent gate of run.
  abbrev pub tos_started : Option Manager → Logged (Option Manager)
  tos_started none = ([], err unreadable_terms)
  tos_started (some m) = (
    log_attrs logger level_info (txt "tos consent gate enabled")
        (string_attr (txt "version") m.version ∷ []),
    ok (some m),
  )

  unfoldable pub new_tos : Config → Logged (Option Manager)
  new_tos cfg =
      if cfg.tos.enabled
      then tos_started (
          new_manager crypto (out.read_file cfg.tos.path) cfg.tos.version cfg.session_key
            cfg.secure_cookies logger)
      else ([], ok none)

  -- webui.ShellConfig; the idle window in whole seconds.
  abbrev pub shell_of : Config → ShellConfig
  shell_of cfg = record {
    brand = record {
      name = cfg.brand.name;
      sub = cfg.brand.sub;
      default_theme = cfg.brand.default_theme;
      accent_color = cfg.brand.accent_color;
    };
    max_upload_size = cfg.provider.max_upload_size;
    session_idle_ttl = pos (nat_of cfg.session_idle_ttl / second);
  }

  abbrev pub gateway_of : Config → OidcAuth → Client → Option Manager → Gateway
  gateway_of cfg auth client tos = record {
    addr = cfg.addr;
    auth = auth;
    client = client;
    max_upload_size = nat_of cfg.provider.max_upload_size;
    tos = tos;
    branding_dir = cfg.branding_dir;
    shell = shell_of cfg;
    secure_transport = cfg.secure_cookies;
  }

  -- What run logs of the client that it has made.
  abbrev pub provider_lines : Config → Client → List Line
  provider_lines cfg client =
      log_attrs logger level_info (txt "provider client configured") (
        string_attr (txt "type") cfg.provider.kind
        ∷ string_attr (txt "base_url") cfg.provider.base_url
        ∷ string_attr (txt "public_key") client.public_key_pem
        ∷ [])
      ++ check_provider_trust client

  -- run, up to the server.
  unfoldable pub configure : Config → Logged Gateway
  configure cfg = and_then (new_oidc_auth crypto out logger cfg) (λ auth.
      and_then (new_provider cfg.provider) (λ client.
        after (provider_lines cfg client)
          (and_then (new_tos cfg) (λ tos. ([], ok (gateway_of cfg auth client tos))))))

  -- The end of run. The line "listening" comes from a goroutine of its own, here before the rest.
  abbrev pub ended : Ending → Logged (Unit {0})
  ended listen_error = ([], err listen_failed)
  ended (signalled done) = (
    line crypto out logger level_info (txt "shutdown signal received"),
    if done then ok tt else err shutdown_failed,
  )

  -- run
  unfoldable pub run : Config → Ending → Logged (Unit {0})
  run cfg ending = and_then (configure cfg) (λ g.
      after (log_attrs logger level_info (txt "listening") (string_attr (txt "addr") g.addr ∷ []))
        (ended ending))

-- The lines and the exit status of main.
abbrev pub exit_of : Logger → List Line × Result StartError (Unit {0}) → List Line × ℕ
exit_of logger (lines, ok u) = (lines, 0)
exit_of logger (lines, err e) =
    (lines ++ log_attrs logger level_error (txt "server terminated") [], 1)

-- The logger for an error of Load: slog's JSON handler without options.
abbrev pub plain_logger : Logger
plain_logger = record { level = level_info; replace_attr = λ groups a. a }

-- main, for what Load returns.
unfoldable pub main : Crypto → Outside → Result ConfigError Config → Ending → List Line × ℕ
main crypto out (err e) ending =
    (log_attrs plain_logger level_error (txt "server terminated") [], 1)
main crypto out (ok cfg) ending =
    let logger = new_logger crypto cfg.log_level cfg.audit.salt cfg.audit.pseudonymize in
    exit_of logger (run crypto out logger cfg ending)
