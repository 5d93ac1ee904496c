-- ===== src/Startup.antt =====
-- NewOIDCAuth and postLogoutRedirectURI of internal/auth/oidc.go, and what start-up takes from elsewhere:
-- OIDC discovery, url.Parse, the file system, the parsers of signing keys and the provider's probe, as
-- parameters. A function returns the lines that it logs beside its result; the text of an error is left
-- out of them. Durations are those of a configuration that Load returned, none of them negative.
use atrium_core.Base.{
  ℕ, Bool, true, false, Option, none, some, List, [], ◌∷◌, ◌++◌, Text, txt, if◌then◌else◌, is_empty,
  ℤ, pos, negsuc,
}
use atrium_core.Base.Result.{Result, ok, err}
use atrium_core.Slog.{Line, Logger, Level, level_warn, log_attrs}
use atrium_core.Crypto.{Crypto}
use atrium_core.Auth.Session.{OidcAuth}
use atrium_core.Auth.Middleware.{logged_out_path}
use atrium_core.Provider.{ProviderError, Client}
use atrium_core.Provider.Keys.{KeyParsers}
use atrium_core.Config.{Config}

pub data StartError : Type 0 where
  discovery_failed metadata_undecodable no_redirect_origin : StartError
  unknown_provider_type unusable_provider unreadable_terms : StartError
  listen_failed shutdown_failed : StartError
  identity_provider_down stub_provider_down no_signing_key : StartError

-- oidc.NewProvider by issuer, and the end_session_endpoint of its metadata (empty where there is none);
-- url.Parse of an absolute URL, with its scheme and host, and URL.String of a scheme, a host and a path;
-- the base URL of a provider, where it is usable; the parsers of signing keys; os.ReadFile; and
-- HealthCheck. `none` stands for an error.
pub record Outside : Type 0 where
  pub discover : Text → Option (Option Text)
  pub parse_absolute : Text → Option (Text × Text)
  pub print_url : Text → Text → Text → Text
  pub parse_base : Text → Option Text
  pub keys : KeyParsers
  pub read_file : Text → Option Text
  pub health_check : Client → Result ProviderError (Unit {0})

abbrev pub nat_of : ℤ → ℕ
nat_of (pos n) = n
nat_of (negsuc n) = 0

abbrev pub Logged : Type 0 → Type 0
Logged A = List Line × Result StartError A

-- A result, behind what has been logged before.
abbrev pub after : {A : Type 0} → List Line → Logged A → Logged A
after lines (more, result) = (lines ++ more, result)

abbrev pub none_logged : {A : Type 0} → Result StartError A → Logged A
none_logged result = ([], result)

-- The next step, where the one before succeeds.
abbrev pub and_then : {A B : Type 0} → Logged A → (A → Logged B) → Logged B
and_then (lines, err e) f = (lines, err e)
and_then (lines, ok a) f = after lines (f a)

-- The value, or the error where there is none.
abbrev pub or_fail : {A : Type 0} → StartError → Option A → Logged A
or_fail e none = ([], err e)
or_fail e (some a) = ([], ok a)

module _ (crypto : Crypto) (out : Outside) (logger : Logger) where
  abbrev pub line : Level → Text → List Line
  line at message = log_attrs logger at message []

  abbrev pub warn_if : Bool → Text → List Line
  warn_if b message = if b then line level_warn message else []

  abbrev pub is_nil : List Text → Bool
  is_nil [] = true
  is_nil (v ∷ l) = false

  -- The warnings of NewOIDCAuth.
  unfoldable pub auth_warnings : Config → Text → List Line
  auth_warnings cfg end_session =
      warn_if (is_nil cfg.oidc.mfa_acr_values) (
        txt
          "OIDC_MFA_ACR_VALUES is empty: MFA is not enforced at the gateway; the identity provider is trusted for authentication strength")
      ++ (warn_if (if cfg.oidc.require_email_verified then false else true) (
            txt
              "OIDC_REQUIRE_EMAIL_VERIFIED is false: logins with an unverified email are accepted")
          ++ warn_if (is_empty end_session) (
              txt
                "the identity provider advertises no end_session_endpoint: logout clears the gateway session only, and the provider's SSO session stays active"))

  -- postLogoutRedirectURI
  unfoldable pub post_logout_redirect_uri : Text → Option Text
  post_logout_redirect_uri redirect_uri = elim (out.parse_absolute redirect_uri) [
    | none ↦ none
    | some (scheme, host) ↦ some (out.print_url scheme host logged_out_path)
  ]

  abbrev pub auth_of : Config → Text → Text → OidcAuth
  auth_of cfg end_session post_logout = record {
    logger = logger;
    session_key = cfg.session_key;
    session_absolute_ttl = nat_of cfg.session_absolute_ttl;
    session_idle_ttl = nat_of cfg.session_idle_ttl;
    secure_cookies = cfg.secure_cookies;
    require_email_verified = cfg.oidc.require_email_verified;
    mfa_acr = cfg.oidc.mfa_acr_values;
    end_session_endpoint = end_session;
    post_logout_redirect = post_logout;
    client_id = cfg.oidc.client_id;
  }

  -- NewOIDCAuth
  unfoldable pub new_oidc_auth : Config → Logged OidcAuth
  new_oidc_auth cfg =
      and_then (or_fail discovery_failed (out.discover cfg.oidc.issuer)) (λ metadata.
        and_then (or_fail metadata_undecodable metadata) (λ end_session.
          and_then (or_fail no_redirect_origin (post_logout_redirect_uri cfg.oidc.redirect_uri))
            (λ post_logout.
              (auth_warnings cfg end_session, ok (auth_of cfg end_session post_logout)))))
