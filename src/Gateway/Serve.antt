-- ===== src/Gateway/Serve.antt =====
-- Handler of internal/api/api.go with every handler that it registers, for a gateway that run has
-- configured. What comes from elsewhere is gathered in two records: what stays for the life of the gateway,
-- and what one request brings (its clock readings, random tokens, raw path and connection).
use atrium_core.Base.{Option, List, Text}
use atrium_core.Crypto.{Crypto}
use atrium_core.Http.{Request, Run}
use atrium_core.Auth.Session.{Codec, Time}
use atrium_core.Auth.Middleware.{Instants}
use atrium_core.Auth.Flow.{Idp, login_handler, callback_handler}
use atrium_core.Tos.{TosCodec}
use atrium_core.Proxy.{Proxy, Streamer, Link}
use atrium_core.Webui
use atrium_core.Webui.{Dist, ShellCodec}
use atrium_core.Branding
use atrium_core.Branding.{Files}
use atrium_core.Api.{PublicHandlers}
use atrium_core.Api.Views.{ProviderService, handle_healthz, handle_readyz}
use atrium_core.Api.Mux.{api_mux}
use atrium_core.Api.Headers
use atrium_core.Gateway.{Gateway}

pub record Surroundings : Type 0 where
  pub crypto : Crypto
  pub codec : Codec
  pub tos_codec : TosCodec
  pub shell_codec : ShellCodec
  pub idp : Idp
  pub dist : Option Dist
  pub files : Files
  pub service : ProviderService
  pub streamer : Streamer

pub record Occasion : Type 0 where
  pub segments : List Text
  pub raw_path : Text
  pub instants : Instants
  pub accepted : Time
  pub state : Option Text
  pub nonce_token : Option Text
  pub verifier : Text
  pub checked : Time
  pub issued : Time
  pub sent : Time
  pub link : Link

module _ (e : Surroundings) (g : Gateway) where
  abbrev pub proxy_of : Proxy
  proxy_of = record {
    provider = e.streamer;
    max_upload_size = g.max_upload_size;
    logger = g.auth.logger;
  }

  -- The handlers of the outer mux that are not gated.
  abbrev pub outer_handlers : Occasion → PublicHandlers
  outer_handlers o = record {
    spa = (Webui.handler e.shell_codec e.dist g.shell).0;
    branding = Branding.handler e.files g.branding_dir o.raw_path;
    healthz = handle_healthz;
    readyz = handle_readyz e.service;
    login = login_handler g.auth e.idp o.state o.nonce_token o.verifier;
    callback = λ r. callback_handler g.auth e.crypto e.codec e.idp r o.checked o.issued o.sent;
  }

  -- Handler
  unfoldable pub root_handler : Occasion → Request → Run
  root_handler o r =
      Headers.handler e.crypto e.codec e.tos_codec g.auth g.tos
        (Webui.handler e.shell_codec e.dist g.shell).1 g.secure_transport (outer_handlers o)
        (api_mux proxy_of e.service g.auth.logger o.link o.segments) o.instants o.accepted r
