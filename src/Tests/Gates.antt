-- ===== src/Tests/Gates.antt =====
-- The gates and the listings at concrete inputs.
use atrium_core.Base.{
  ◌*◌, ◌≡◌, refl, true, false, none, some, [], ◌∷◌, Text, txt, ◌==◌, lookup, pos,
}
use atrium_core.Base.Result.{ok, err}
use atrium_core.Strings.{has_prefix, cut}
use atrium_core.Base64.{encode, decode, decode_quanta, skip_newlines, digit, value}
use atrium_core.SignedCookie.{seal, open_token, check_signature}
use atrium_core.Http.{Out, fresh, cookie, error}
use atrium_core.Provider.{Share, share_gone, unreachable}
use atrium_core.Auth.Session.{second, SessionData, no_session, validate_session_cookie}
use atrium_core.Auth.Middleware.{Handler}
use atrium_core.Tos.{check_acceptance, verify_cookie, hash_email}
use atrium_core.Audit.{canonical}
use atrium_core.Api.{PublicHandlers, gated, add_slash, with_slash, route, consent_route, dispatch}
use atrium_core.Api.Boundary.{dispatch_unauthenticated, dispatch_unconsented, dispatch_admitted}
use atrium_core.Api.Headers.{handler, content_security_policy}
use atrium_core.Api.Headers.Everywhere.{handler-IsSecured, IsSecured}
use atrium_core.Api.Views.{ProviderService, handle_me}
use atrium_core.Base.{if◌then◌else◌}
use atrium_core.Proxy.{Streamer}
use atrium_core.Api.Mux.{api_mux}
use atrium_core.Api.Own.{AgreeFor, api_mux_agrees}
use atrium_core.Tests.{
  crypto, gateway, session, codec, instants, anonymous, signed_in, consented, manager, tos_codec,
  logger,
}
use atrium_core.Tests.Sessions.{valid, consented_valid}

abbrev outside : PublicHandlers
outside = record {
  spa = λ r. error (txt "spa") 404;
  branding = λ r. error (txt "branding") 404;
  healthz = λ r. error (txt "healthz") 404;
  readyz = λ r. error (txt "readyz") 404;
  login = λ r. error (txt "login") 404;
  callback = λ r. error (txt "callback") 404;
}

abbrev teapot : Handler
teapot d r = error (txt "teapot") 418

below_api : has_prefix (txt "/api/me") (txt "/api/") ≡ true
unfolding has_prefix txt
below_api = refl

no_cookie :
    (validate_session_cookie crypto codec gateway
      (anonymous (txt "/api/me"))
      instants.expiry
      instants.idle
      fresh).0
    ≡ err no_session
unfolding validate_session_cookie cookie lookup
no_cookie = refl

dispatch_unauthenticated_example :
    ((dispatch crypto codec tos_codec gateway
        (some manager)
        outside
        handle_me
        instants
        (1106 * second)
        (anonymous (txt "/api/me"))
        fresh).status
      ≡ some 401)
    × (dispatch crypto codec tos_codec gateway
          (some manager)
          outside
          handle_me
          instants
          (1106 * second)
          (anonymous (txt "/api/me"))
          fresh
        ≡ dispatch crypto codec tos_codec gateway
            (some manager)
            outside
            teapot
            instants
            (1106 * second)
            (anonymous (txt "/api/me"))
            fresh)
dispatch_unauthenticated_example =
    dispatch_unauthenticated crypto codec tos_codec gateway (some manager) outside handle_me teapot
      instants (1106 * second) (anonymous (txt "/api/me")) fresh no_session below_api refl no_cookie

slashless : route none (anonymous (txt "/api")) ≡ add_slash
unfolding route has_prefix ◌==◌ txt
slashless = refl

-- The raw query of a request is kept by the redirect to the path with a slash.
with_query :
    with_slash (record (anonymous (txt "/branding")) { request_uri = txt "/branding?v=1" })
    ≡ txt "/branding/?v=1"
unfolding with_slash cut txt
with_query = refl

routed : route (some manager) (signed_in (txt "/api/me")) ≡ gated
unfolding route consent_route has_prefix ◌==◌ txt
routed = refl

no_consent :
    check_acceptance crypto tos_codec manager (signed_in (txt "/api/me")) session.email ≡ false
unfolding check_acceptance cookie lookup ◌==◌ txt
no_consent = refl

dispatch_unconsented_example :
    ((dispatch crypto codec tos_codec gateway
        (some manager)
        outside
        handle_me
        instants
        (1106 * second)
        (signed_in (txt "/api/me"))
        fresh).status
      ≡ some 403)
    × (dispatch crypto codec tos_codec gateway
          (some manager)
          outside
          handle_me
          instants
          (1106 * second)
          (signed_in (txt "/api/me"))
          fresh
        ≡ dispatch crypto codec tos_codec gateway
            (some manager)
            outside
            teapot
            instants
            (1106 * second)
            (signed_in (txt "/api/me"))
            fresh)
dispatch_unconsented_example =
    dispatch_unconsented crypto codec tos_codec gateway (some manager) outside handle_me teapot
      instants (1106 * second) (signed_in (txt "/api/me")) fresh session manager routed refl valid
      refl no_consent

routed_consented : route (some manager) (consented (txt "/api/me")) ≡ gated
unfolding route consent_route has_prefix ◌==◌ txt
routed_consented = refl

has_consent :
    check_acceptance crypto tos_codec manager (consented (txt "/api/me")) session.email ≡ true
unfolding check_acceptance cookie lookup ◌==◌ txt verify_cookie open_token check_signature cut seal
    encode decode decode_quanta skip_newlines digit value hash_email canonical
has_consent = refl

dispatch_admitted_example :
    (touched : SessionData) × ((touched.email ≡ session.email)
      × ((w' : Out) × (dispatch crypto codec tos_codec gateway
              (some manager)
              outside
              handle_me
              instants
              (1106 * second)
              (consented (txt "/api/me"))
              fresh
            ≡ handle_me (some touched) (consented (txt "/api/me")) w')))
dispatch_admitted_example =
    dispatch_admitted crypto codec tos_codec gateway (some manager) outside handle_me instants
      (1106 * second) (consented (txt "/api/me")) fresh session routed_consented consented_valid
      (λ m e. let same : manager ≡ m = cc in rw (← same) has_consent)

handler-IsSecured_example :
    IsSecured
      (content_security_policy (txt "'sha256-x'" ∷ []))
      true
      (handler crypto codec tos_codec gateway
        (some manager)
        (txt "'sha256-x'" ∷ [])
        true
        outside
        handle_me
        instants
        (1106 * second)
        (anonymous (txt "/api/me"))
        fresh).header
handler-IsSecured_example =
    handler-IsSecured crypto codec tos_codec gateway (some manager) (txt "'sha256-x'" ∷ []) true
      outside handle_me instants (1106 * second) (anonymous (txt "/api/me")) no_session below_api
      no_cookie

abbrev share : Text → Share
share email = record {
  id = txt "s1";
  recipient_email = email;
  display_name = [];
  file_name = txt "report";
  size = none;
  is_folder = false;
  mode = pos 0;
  max_downloads = none;
  download_count = pos 0;
  expires_at = none;
  created_at = none;
}

abbrev listing : Text → ProviderService
listing email = record {
  health_check = err unreachable;
  list_shares = λ meta recipient. ok (share email ∷ []);
  list_folder = λ meta share_id recipient path. err share_gone;
}

-- Two providers that hold different shares of somebody else.
abbrev silent : Streamer
silent = record {
  download = λ meta id email. err unreachable;
  download_folder_file = λ meta id file_id email. err unreachable;
  upload = λ meta id email filename content_type path body. record {
    failure = some unreachable;
    read = 0;
  };
}

abbrev listing_for : Text → ProviderService
listing_for other = record {
  health_check = err unreachable;
  list_shares = λ meta email. if email == txt "a@b" then ok [] else ok (share other ∷ []);
  list_folder = λ meta id email path. err unreachable;
}

agreeing : AgreeFor (txt "a@b") silent silent (listing_for (txt "c@d")) (listing_for (txt "e@f"))
unfolding ◌==◌ txt
agreeing = record {
  same_download = λ meta id. refl;
  same_file = λ meta id file_id. refl;
  same_upload = λ meta id filename content_type path body. refl;
  same_shares = λ meta. refl;
  same_folder = λ meta id path. refl;
}

api_mux_agrees_example :
    api_mux
      (record { provider = silent; max_upload_size = 10; logger = logger })
      (listing_for (txt "c@d"))
      logger
      none
      (txt "api" ∷ txt "shares" ∷ [])
      (some session)
      (signed_in (txt "/api/shares"))
      fresh
    ≡ api_mux
        (record { provider = silent; max_upload_size = 10; logger = logger })
        (listing_for (txt "e@f"))
        logger
        none
        (txt "api" ∷ txt "shares" ∷ [])
        (some session)
        (signed_in (txt "/api/shares"))
        fresh
api_mux_agrees_example =
    api_mux_agrees 10 logger none silent silent (listing_for (txt "c@d")) (listing_for (txt "e@f"))
      session (txt "api" ∷ txt "shares" ∷ []) (signed_in (txt "/api/shares")) fresh agreeing
