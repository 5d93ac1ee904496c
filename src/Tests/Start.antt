-- ===== src/Tests/Start.antt =====
-- Start-up, the shell and the branding assets at concrete inputs.
use atrium_core.Base.{
  ◌≡◌, ◌↔◌, refl, true, false, none, some, List, [], ◌∷◌, ◌++◌, Text, txt, ◌==◌, pos, arith, All,
}
use atrium_core.Base.Result.{ok, err}
use atrium_core.Strings.{cut_text, has_prefix, split, join}
use atrium_core.Path.{clean, clean_from, step, pop}
use atrium_core.Provider.{unreachable}
use atrium_core.Provider.Keys.{
  EcKey, KeyParsers, IsLoaded, ecdsa, load_private_key, load_private_key_iff, parse_ec_private_key,
  usable_key, public_key_pem,
}
use atrium_core.Webui.{ShellConfig, ShellCodec, Dist, inline_script_hashes, hash_token}
use atrium_core.Webui.Scan.{IsScan, inline_script_hashes-IsScan}
use atrium_core.Webui.Splice.{NoAngle}
use atrium_core.Branding.{requested}
use atrium_core.Branding.Valid.{IsValidPath, requested-IsValidPath}
use atrium_core.Startup.{Outside}
use atrium_core.Gateway.{Gateway, configure}
use atrium_core.Gateway.Started.{IsStarted, configure-IsStarted, configure-starts}
use atrium_core.Base.{not, ◌&&◌, is_empty}
use atrium_core.Strings.{trim_prefix}
use atrium_core.Http.{fresh}
use atrium_core.Api.{route, spa}
use atrium_core.Api.Headers.{content_security_policy}
use atrium_core.Webui.{shell_status}
use atrium_core.Webui.Scripts.{shell}
use atrium_core.Gateway.{gateway_of}
use atrium_core.Gateway.Serve.{Surroundings, Occasion, root_handler}
use atrium_core.Gateway.Shell.{IsPage, root_handler-config_script}
use atrium_core.Tests.{crypto, logger, codec, tos_codec, gateway, instants, anonymous}
use atrium_core.Tests.Settings.{config, env, parsers, loaded}

abbrev shell_codec : ShellCodec
shell_codec = record { marshal = λ cfg. some (txt "{\"maxUploadSize\":1}"); sha256 = λ t. t }

abbrev page : Text
page = txt "<html><head><script>x()</script><script src=\"/a.js\"></script></head></html>"

inline_script_hashes-IsScan_example :
    IsScan shell_codec page (inline_script_hashes shell_codec page)
inline_script_hashes-IsScan_example = inline_script_hashes-IsScan shell_codec page

abbrev shell_config : ShellConfig
shell_config = record {
  brand = record { name = []; sub = []; default_theme = []; accent_color = txt "#abc" };
  max_upload_size = pos 1;
  session_idle_ttl = pos 0;
}

abbrev dist : Dist
dist = record { has = λ name. true; read = λ name. page; file_server = λ r w. w }

head_found :
    cut_text (txt "<head>") page
    ≡ some (txt "<html>", txt "<script>x()</script><script src=\"/a.js\"></script></head></html>")
unfolding cut_text has_prefix txt
head_found = refl

no_script : cut_text (txt "<script") (txt "<html>") ≡ none
unfolding cut_text has_prefix txt
no_script = refl

no_head_end : cut_text (txt "</head>") (txt "<html>") ≡ none
unfolding cut_text has_prefix txt
no_head_end = refl

not_empty : (txt "{\"maxUploadSize\":1}" == txt "{}") ≡ false
unfolding ◌==◌ txt
not_empty = refl

plain : All NoAngle (txt "{\"maxUploadSize\":1}")
unfolding txt
plain = omega arith

asked : requested (txt "a/../logo.svg") ≡ some (txt "logo.svg")
unfolding requested clean clean_from step pop split join has_prefix ◌==◌ txt
asked = refl

requested-IsValidPath_example : IsValidPath (txt "logo.svg")
requested-IsValidPath_example = requested-IsValidPath (txt "a/../logo.svg") (txt "logo.svg") asked

abbrev key : EcKey
key = record { is_p256 = true; public_der = some (txt "der") }

abbrev key_parsers : KeyParsers
key_parsers = record {
  pem_block = λ pem. some (txt "block");
  parse_sec1 = λ der. none;
  parse_pkcs8 = λ der. some (ecdsa key);
  pem_public = λ der. txt "public";
}

load_private_key_iff_example :
    (load_private_key key_parsers (txt "pem") ≡ some key) ↔ IsLoaded key_parsers (txt "pem") key
load_private_key_iff_example = load_private_key_iff key_parsers (txt "pem") key

abbrev outside : Outside
outside = record {
  discover = λ issuer. some (some (txt "https://idp/logout"));
  parse_absolute = λ url. some (txt "https", txt "gw");
  print_url = λ scheme host path. scheme ++ (txt "://" ++ (host ++ path));
  parse_base = λ url. some url;
  keys = key_parsers;
  read_file = λ path. none;
  health_check = λ client. err unreachable;
}

is_nextcloud : (txt "nextcloud" == txt "nextcloud") ≡ true
unfolding ◌==◌ txt
is_nextcloud = refl

key_usable : usable_key key_parsers (txt "pem") ≡ some (txt "public")
unfolding usable_key load_private_key parse_ec_private_key public_key_pem
key_usable = refl

starts : (g : Gateway) × ((configure crypto outside logger config).1 ≡ ok g)
starts =
    configure-starts crypto outside logger config (txt "https://idp/logout") (txt "https")
      (txt "gw") (txt "https://cloud") (txt "public") refl refl is_nextcloud refl key_usable
      (λ e. absurd (cc (e)))

configure-starts_example : (g : Gateway) × ((configure crypto outside logger config).1 ≡ ok g)
configure-starts_example =
    configure-starts crypto outside logger config (txt "https://idp/logout") (txt "https")
      (txt "gw") (txt "https://cloud") (txt "public") refl refl is_nextcloud refl key_usable
      (λ e. absurd (cc (e)))

configure-IsStarted_example : IsStarted env parsers config starts.0
configure-IsStarted_example =
    configure-IsStarted crypto outside logger env parsers config starts.0 loaded starts.1

abbrev surroundings : Surroundings
surroundings = record {
  crypto = crypto;
  codec = codec;
  tos_codec = tos_codec;
  shell_codec = shell_codec;
  idp = record {
    auth_code_url = λ state value verifier max_age. txt "https://idp/auth";
    exchange = λ code verifier. none;
    verify = λ raw. none;
  };
  dist = some dist;
  files = record {
    open_root = λ dir. none;
    open_default = λ name. none;
    zero_time = [];
    serve_content = λ r name mod_time f w. w;
  };
  service = record {
    health_check = err unreachable;
    list_shares = λ meta email. err unreachable;
    list_folder = λ meta id email path. err unreachable;
  };
  streamer = record {
    download = λ meta id email. err unreachable;
    download_folder_file = λ meta id file_id email. err unreachable;
    upload = λ meta id email filename content_type path body. record {
      failure = some unreachable;
      read = 0;
    };
  };
}

abbrev served : Gateway
served =
    gateway_of crypto outside logger config gateway
      (record {
        base_url = txt "https://cloud";
        audience = txt "aud";
        public_key_pem = txt "public";
      })
      none

abbrev occasion : Occasion
occasion = record {
  segments = [];
  raw_path = [];
  instants = instants;
  accepted = 0;
  state = none;
  nonce_token = none;
  verifier = [];
  checked = 0;
  issued = 0;
  sent = 0;
  link = none;
}

root_routed : route none (anonymous (txt "/")) ≡ spa
unfolding route has_prefix ◌==◌ txt
root_routed = refl

no_file :
    (not (is_empty (trim_prefix (clean (txt "/")) (txt "/")))
      && dist.has (trim_prefix (clean (txt "/")) (txt "/")))
    ≡ false
unfolding clean clean_from step split join has_prefix ◌==◌ txt
no_file = refl

root_handler-config_script_example :
    (hashes : List Text) × ((t : Text) × IsPage
        (content_security_policy (
          hash_token shell_codec (txt "window.__ATRIUM__=" ++ txt "{\"maxUploadSize\":1}")
          ∷ hashes))
        (shell_status (txt "/"))
        (shell (txt "<html>") (txt "{\"maxUploadSize\":1}") t)
        (root_handler surroundings served occasion (anonymous (txt "/")) fresh))
root_handler-config_script_example =
    root_handler-config_script surroundings served dist occasion (anonymous (txt "/"))
      (txt "<html>") (txt "<script>x()</script><script src=\"/a.js\"></script></head></html>")
      (txt "{\"maxUploadSize\":1}") refl refl root_routed no_file head_found no_script no_head_end
      refl not_empty plain
