-- ===== src/Config.antt =====
-- internal/config/config.go: the configuration from the environment. time.ParseDuration, url.Parse and
-- the four base64 decoders are parameters; what an error says is reduced to the variable it names.
pub mod Vars
pub mod Valid
pub mod Colors
use atrium_core.Base.{
  ℕ, ◌+◌, ◌*◌, ◌-◌, Bool, true, false, not, ◌&&◌, ◌||◌, Option, none, some, List, [], ◌∷◌, Text,
  txt, ◌==◌, length,
}
use atrium_core.Base.{if◌then◌else◌, eqb, leb, is_empty, ℤ, pos, ltbℤ, lebℤ}
use atrium_core.Base.Result.{Result, ok, err, ◌>>=◌}
use atrium_core.Slog.{Level}
use atrium_core.Auth.Session.{second}
use atrium_core.Config.Vars.{
  ConfigError, missing, invalid, idle_exceeds_absolute, Env, Parsers, guard, read,
  parse_bool_default, parse_csv, parse_log_level, parse_max_upload_size, parse_positive,
  parse_session_idle_ttl, decode_session_key, is_hex_color,
}

-- OIDCConfig
pub record OidcConfig : Type 0 where
  pub issuer : Text
  pub client_id : Text
  pub client_secret : Text
  pub redirect_uri : Text
  pub require_email_verified : Bool
  pub mfa_acr_values : List Text

-- TOSConfig
pub record TosConfig : Type 0 where
  pub enabled : Bool
  pub path : Text
  pub version : Text

pub record ProviderConfig : Type 0 where
  pub kind : Text
  pub base_url : Text
  pub private_key_pem : Text
  pub max_upload_size : ℤ
  pub stream_timeout : ℤ

pub record AuditConfig : Type 0 where
  pub pseudonymize : Bool
  pub salt : Text

pub record BrandConfig : Type 0 where
  pub name : Text
  pub sub : Text
  pub accent_color : Text
  pub default_theme : Text

pub record Config : Type 0 where
  pub addr : Text
  pub oidc : OidcConfig
  pub session_key : Text
  pub session_absolute_ttl : ℤ
  pub session_idle_ttl : ℤ
  pub secure_cookies : Bool
  pub tos : TosConfig
  pub provider : ProviderConfig
  pub audit : AuditConfig
  pub log_level : Level
  pub branding_dir : Text
  pub brand : BrandConfig

-- The variables that have to be set, in the order in which they are checked.
abbrev pub required_names : List Text
required_names =
    txt "OIDC_ISSUER"
    ∷ txt "OIDC_CLIENT_ID"
    ∷ txt "OIDC_CLIENT_SECRET"
    ∷ txt "OIDC_REDIRECT_URI"
    ∷ txt "PROVIDER_TYPE"
    ∷ txt "PROVIDER_BASE_URL"
    ∷ txt "PROVIDER_JWT_PRIVATE_KEY"
    ∷ []

-- Whether a text is empty or the name of a theme, and whether it is empty or a colour.
abbrev pub is_theme : Text → Bool
is_theme t = is_empty t || (t == txt "light" || t == txt "dark")

abbrev pub is_accent : Text → Bool
is_accent t = is_empty t || is_hex_color t

module _ (env : Env) where
  unfoldable pub check_required : List Text → Result ConfigError (Unit {0})
  check_required [] = ok tt
  check_required (name ∷ names) =
      let rest = check_required names in if is_empty (env name) then err (missing name) else rest

  -- loadTOS, for the parsed value of TOS_ENABLED.
  unfoldable pub tos_of : Bool → Result ConfigError TosConfig
  tos_of false = ok (record { enabled = false; path = []; version = [] })
  tos_of true =
      if is_empty (env (txt "TOS_PATH"))
      then err (missing (txt "TOS_PATH"))
      else ok (record {
        enabled = true;
        path = env (txt "TOS_PATH");
        version = env (txt "TOS_VERSION");
      })

  -- loadTOS
  unfoldable pub load_tos : Result ConfigError TosConfig
  load_tos = parse_bool_default env (txt "TOS_ENABLED") false >>= tos_of

  -- loadBrand
  unfoldable pub load_brand : Result ConfigError BrandConfig
  load_brand =
      guard (is_theme (env (txt "BRAND_DEFAULT_THEME"))) (invalid (txt "BRAND_DEFAULT_THEME")) (
        guard (is_accent (env (txt "BRAND_ACCENT_COLOR"))) (invalid (txt "BRAND_ACCENT_COLOR")) (
          ok (record {
            name = env (txt "BRAND_NAME");
            sub = env (txt "BRAND_SUB");
            accent_color = env (txt "BRAND_ACCENT_COLOR");
            default_theme = env (txt "BRAND_DEFAULT_THEME");
          })))

  module _ (parsers : Parsers) where
    -- The part of Load behind the checks of the session.
    unfoldable pub load_rest : OidcConfig → Bool → Text → ℤ → ℤ → Result ConfigError Config
    load_rest oidc secure key absolute idle = do
      tos ← load_tos
      max ← parse_max_upload_size (env (txt "MAX_UPLOAD_SIZE"))
      timeout ←
          parse_positive parsers (txt "PROVIDER_TIMEOUT") (1800 * second)
            (env (txt "PROVIDER_TIMEOUT"))
      pseudonymize ← parse_bool_default env (txt "AUDIT_PSEUDONYMIZE") true
      level ← parse_log_level (env (txt "LOG_LEVEL"))
      brand ← load_brand
      ok (record {
        addr = if is_empty (env (txt "ATRIUM_ADDR")) then txt ":8080" else env (txt "ATRIUM_ADDR");
        oidc = oidc;
        session_key = key;
        session_absolute_ttl = absolute;
        session_idle_ttl = idle;
        secure_cookies = secure;
        tos = tos;
        provider = record {
          kind = env (txt "PROVIDER_TYPE");
          base_url = env (txt "PROVIDER_BASE_URL");
          private_key_pem = env (txt "PROVIDER_JWT_PRIVATE_KEY");
          max_upload_size = max;
          stream_timeout = timeout;
        };
        audit = record { pseudonymize = pseudonymize; salt = env (txt "AUDIT_SALT") };
        log_level = level;
        branding_dir = env (txt "BRANDING_DIR");
        brand = brand;
      })

    -- The part of Load from the session key to the comparison of the two timeouts, and what follows.
    unfoldable pub load_session : OidcConfig → Bool → Result ConfigError Config
    load_session oidc secure = do
      key ← decode_session_key parsers (env (txt "SESSION_KEY"))
      absolute ←
          parse_positive parsers (txt "SESSION_ABSOLUTE_TTL") (12 * 3600 * second)
            (env (txt "SESSION_ABSOLUTE_TTL"))
      idle ← parse_session_idle_ttl parsers (env (txt "SESSION_IDLE_TTL"))
      guard (lebℤ idle absolute) idle_exceeds_absolute (load_rest oidc secure key absolute idle)

    -- Load
    unfoldable pub load : Result ConfigError Config
    load = do
      set ← check_required required_names
      scheme ←
          read (parsers.absolute_scheme (env (txt "OIDC_REDIRECT_URI"))) (txt "OIDC_REDIRECT_URI")
      verified ← parse_bool_default env (txt "OIDC_REQUIRE_EMAIL_VERIFIED") true
      load_session
          (record {
            issuer = env (txt "OIDC_ISSUER");
            client_id = env (txt "OIDC_CLIENT_ID");
            client_secret = env (txt "OIDC_CLIENT_SECRET");
            redirect_uri = env (txt "OIDC_REDIRECT_URI");
            require_email_verified = verified;
            mfa_acr_values = parse_csv (env (txt "OIDC_MFA_ACR_VALUES"));
          })
          (scheme == txt "https")
