-- ===== src/Tests/Settings.antt =====
-- A configuration and a colour at concrete inputs.
use atrium_core.Base.{
  ◌*◌, ◌≡◌, refl, true, false, none, some, List, [], ◌∷◌, Text, txt, ◌==◌, get, lookup, pos,
}
use atrium_core.Base.Result.{ok}
use atrium_core.Slog.{level_info}
use atrium_core.Strings.{split, trim_space}
use atrium_core.Auth.Session.{second}
use atrium_core.Config.Vars.{
  Env, Parsers, guard, read, parse_bool_default, parse_log_level, parse_max_upload_size,
  parse_positive, parse_session_idle_ttl, decode_first, decode_session_key, digits, parse_csv,
  trimmed,
}
use atrium_core.Config.{
  Config, load, load_session, load_rest, load_tos, tos_of, load_brand, check_required,
}
use atrium_core.Config.Valid.{load-IsValid, IsValid}

abbrev variables : List (Text × Text)
variables =
    (txt "OIDC_ISSUER", txt "https://idp")
    ∷ (txt "OIDC_CLIENT_ID", txt "atrium")
    ∷ (txt "OIDC_CLIENT_SECRET", txt "secret")
    ∷ (txt "OIDC_REDIRECT_URI", txt "https://gw/auth/callback")
    ∷ (txt "PROVIDER_TYPE", txt "nextcloud")
    ∷ (txt "PROVIDER_BASE_URL", txt "https://cloud")
    ∷ (txt "PROVIDER_JWT_PRIVATE_KEY", txt "pem")
    ∷ (txt "SESSION_KEY", txt "0123456789abcdef0123456789abcdef")
    ∷ (txt "SESSION_IDLE_TTL", txt "30m")
    ∷ (txt "MAX_UPLOAD_SIZE", txt "4096")
    ∷ []

abbrev pub env : Env
env name = get name variables

abbrev pub parsers : Parsers
parsers = record {
  parse_duration = λ t. some (pos (1800 * second));
  absolute_scheme = λ t. some (txt "https");
  decoders = (λ t. none) ∷ (λ t. some t) ∷ [];
}

abbrev pub config : Config
config = record {
  addr = txt ":8080";
  oidc = record {
    issuer = txt "https://idp";
    client_id = txt "atrium";
    client_secret = txt "secret";
    redirect_uri = txt "https://gw/auth/callback";
    require_email_verified = true;
    mfa_acr_values = [];
  };
  session_key = txt "0123456789abcdef0123456789abcdef";
  session_absolute_ttl = pos (12 * 3600 * second);
  session_idle_ttl = pos (1800 * second);
  secure_cookies = true;
  tos = record { enabled = false; path = []; version = [] };
  provider = record {
    kind = txt "nextcloud";
    base_url = txt "https://cloud";
    private_key_pem = txt "pem";
    max_upload_size = pos 4096;
    stream_timeout = pos (1800 * second);
  };
  audit = record { pseudonymize = true; salt = [] };
  log_level = level_info;
  branding_dir = [];
  brand = record { name = []; sub = []; accent_color = []; default_theme = [] };
}

pub loaded : load env parsers ≡ ok config
unfolding load load_session load_rest load_tos tos_of load_brand check_required guard read
    parse_bool_default parse_log_level parse_max_upload_size parse_positive parse_session_idle_ttl
    decode_first decode_session_key digits parse_csv trimmed split trim_space get lookup ◌==◌ txt
loaded = refl

load-IsValid_example : IsValid env parsers config
load-IsValid_example = load-IsValid env parsers config loaded
