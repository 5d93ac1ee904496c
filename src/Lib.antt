-- ===== src/Lib.antt =====
-- A verification library for the atrium-core gateway: a Go HTTP server that lets external recipients,
-- signed in through OpenID Connect, download from and upload to a storage provider.
--
-- The parts. The outer mux (internal/api) puts security headers around every route and two gates over
-- /api/: RequireAuth (internal/auth), which admits a request by its signed session cookie
-- (internal/signedcookie) and slides the idle timeout, and RequireTOS (internal/tos), which asks for the
-- acceptance cookie. Behind the gates the listings (internal/api) and the stream proxy (internal/proxy)
-- call the storage backend through a REST client (internal/provider). All write records through
-- internal/audit. The sign-in itself is the authorization-code flow of internal/auth. Beside the API the
-- gateway serves the frontend's shell (internal/webui) and white-label assets (internal/branding).
-- cmd/atrium reads the configuration (internal/config) and puts the parts together; cmd/atrium-e2e holds a
-- stub provider and a mock identity provider, against which the whole is tested end to end.
--
-- Where each part is modelled:
--   Base, Strings          numbers, byte texts and lists; the functions of package strings in use
--   Http, Path, Url,       what the gateway uses of net/http, path, net/url, encoding/base64 and
--   Base64, Slog             log/slog, written out from their documented behaviour
--   Crypto                 HMAC, SHA-256, case folding and NFKC, as parameters
--   SignedCookie           internal/signedcookie/signedcookie.go: Seal is seal, Open is open_token
--   Audit                  internal/audit: Log is log, replaceAttr is replace_attr, New is new_logger
--   Auth.Session           internal/auth/session.go, function by function
--   Auth.Middleware        internal/auth/middleware.go: RequireAuth is require_auth, touchSession is
--                            touch_session, LogoutHandler is logout_handler
--   Auth.Next              internal/auth/oidc.go: safeNextPath and its use in the callback
--   Auth.Flow              internal/auth/oidc.go: LoginHandler is login_handler; CallbackHandler is
--                            callback_handler, whose early returns are the constructors of Refusal
--   Tos                    internal/tos: a nil manager is `none`; RequireTOS is require_tos
--   Provider               internal/provider: request, mapErrorStatus and the operations of the client;
--                            Provider.Keys is keys.go
--   Proxy                  internal/proxy/proxy.go: the three handlers and what they call
--   Api, Api.Views,        internal/api/api.go and internal/api/security.go: Handler is handler, whose
--   Api.Headers, Api.Mux     outer mux is route and dispatch, and whose inner one is api_mux
--   Config, Config.Vars    internal/config/config.go: Load is load, in three parts; the parsers of variables
--   Webui                  internal/webui/webui.go, function by function
--   Branding               internal/branding/branding.go: the guard of Handler is requested
--   Startup                NewOIDCAuth of internal/auth/oidc.go, and what start-up takes from elsewhere
--   Gateway                cmd/atrium/main.go: main is main, run is run, and its part up to the server is
--                            configure; Gateway.Serve joins every handler of the gateway in root_handler
--   E2e.Tree, E2e.Store,
--   E2e.Reply              cmd/atrium-e2e/fixtures.go and stubprovider.go: the store, its handlers, and in
--                            E2e.Store.Routes the mux with the runs of the stub as a step relation
--   E2e.Idp                cmd/atrium-e2e/mockoidc.go
--   E2e.Contract           the REST client and the stub provider joined over HTTP: deliver turns the URL of
--                            a call into a route of the stub and its response into a reply
--   E2e.Harness            cmd/atrium-e2e/main.go: run is run, its part up to the server is assemble, and its
--                            mux is root
--   Authtest               internal/authtest/authtest.go: the mock provider, Auth, and SessionCookie
--   Tests                  concrete inputs
--
-- State and effects. A handler takes the response written so far to the response written afterwards
-- (Http.Out: status, headers, cookies, body, log lines); headers and cookies set after the status are
-- dropped, as net/http does, and so are the bytes of a cookie's value that http.SetCookie does not write. A
-- redirect cleans its target as http.Redirect does: only where it is parsed and has no host. The outer mux
-- sends /api and /branding to the paths with a slash. A Go string is a list of bytes. An instant counts
-- nanoseconds since the zero time of package time, and each call of time.Now is an argument of its own;
-- durations keep the saturation and wrap-around of int64 where a statement depends on it (authTimeFresh,
-- secondsUntil). Integers of Go are ℕ where they cannot be negative and ℤ elsewhere. Loops are structural
-- recursion on a list, a tree or a body, which needs no fuel. Two run on fuel: the decimal digits of a
-- number (itoa), for which the number's successor is enough, since each step divides by ten; and the loop
-- over the scripts of a page (hashes_from), for which one more than the length of the page is enough, since
-- each round drops a script.
--
-- Parameters, not models: the hash functions; encoding/json on the two cookie payloads, on the shell's
-- configuration, on the answers of the backend and on those of the stub; discovery, the OAuth2 client and the
-- verifier of ID tokens; the HTTP transport and the token signer; the parsers of encoding/pem and
-- crypto/x509; time.ParseDuration, url.Parse and the base64 decoders of the configuration; the provider
-- behind the proxy; the embedded and the mounted files; the source of random tokens; the connection to the
-- recipient, as the number of bytes it still takes; the signers of the mock identity providers.
--
-- Not modelled: the ports and keys that the stand-ins open and make; the frontend in web; concurrency,
-- since the handlers of the gateway share no mutable state and those of the stand-ins hold one lock;
-- contexts, time-outs and their cancellation; the HTML body of a redirect; the texts of errors in technical
-- log lines; http.ServeMux on paths that are not clean, and on the outer mux its answer to a method that no
-- pattern of a path has.
pub mod Base
pub mod Strings
pub mod Slog
pub mod Url
pub mod Base64
pub mod Crypto
pub mod SignedCookie
pub mod Path
pub mod Http
pub mod Audit
pub mod Auth
pub mod Tos
pub mod Provider
pub mod Proxy
pub mod Api
pub mod Config
pub mod Webui
pub mod Branding
pub mod Startup
pub mod Gateway
pub mod E2e
pub mod Authtest
mod Tests
