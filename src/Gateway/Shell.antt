-- ===== src/Gateway/Shell.antt =====
-- The shell that a gateway serves runs the script that carries its configuration.
use mathlib.Core.Path.{subst}
use atrium_core.Base.{
  ℕ, ◌≡◌, refl, Bool, true, false, not, ◌&&◌, none, some, List, [], ◌∷◌, ◌++◌, Text, txt, ◌==◌, get,
  lookup, is_empty, All,
}
use atrium_core.Strings.{cut_text, trim_prefix}
use atrium_core.Path.{clean}
use atrium_core.Http.{Request, Run, Out, fresh, raw, write, write_header, set_header, put}
use atrium_core.Api.{dispatch, route, spa}
use atrium_core.Api.Headers
use atrium_core.Api.Headers.{security_headers, content_security_policy}
use atrium_core.Webui
use atrium_core.Webui.{
  ShellConfig, ShellCodec, Dist, hash_token, serve_app, serve_shell, shell_status, inject_config,
}
use atrium_core.Webui.Splice.{NoAngle}
use atrium_core.Webui.Scripts.{shell, inject_config-shell, handler-config_hash}
use atrium_core.Gateway.{Gateway}
use atrium_core.Gateway.Serve.{Surroundings, Occasion, root_handler}

-- A page with its status, as the browser gets it.
pub record IsPage (csp : Text) (status : ℕ) (index : Text) (w : Out) : Type 0 where
  pub policy : get (txt "Content-Security-Policy") w.header ≡ csp
  pub answered : w.status ≡ some status
  pub page : w.body ≡ raw index ∷ []

secured :
    (next : Request → Run) (csp index : Text) (status : ℕ) (tls : Bool) (r : Request)
    → ((w : Out) → next r w ≡ serve_shell index status w)
    → IsPage csp status index (security_headers next csp tls r fresh)
unfolding security_headers serve_shell set_header put write write_header get lookup ◌==◌ txt
secured next csp index status true r h =
    rw h (record { policy = refl; answered = refl; page = refl })
secured next csp index status false r h =
    rw h (record { policy = refl; answered = refl; page = refl })

-- What the handler of the frontend does with a path that is no file.
app_page :
    (codec : ShellCodec) (cfg : ShellConfig) (dist : Dist) (r : Request) (w : Out)
    → dist.has (txt "index.html") ≡ true
    → (not (is_empty (trim_prefix (clean r.path) (txt "/")))
        && dist.has (trim_prefix (clean r.path) (txt "/")))
      ≡ false
    → (Webui.handler codec (some dist) cfg).0 r w
      ≡ serve_shell (inject_config codec (dist.read (txt "index.html")) cfg) (shell_status r.path) w
unfolding Webui.handler serve_app
app_page codec cfg dist r w there no_file = rw (there, serve_app, no_file) refl

module _ (e : Surroundings) (g : Gateway) (dist : Dist) where
  -- The answer of the gateway to a path of the frontend that is no file.
  shell_answer :
      (o : Occasion) (r : Request)
      → e.dist ≡ some dist
      → dist.has (txt "index.html") ≡ true
      → route g.tos r ≡ spa
      → (not (is_empty (trim_prefix (clean r.path) (txt "/")))
          && dist.has (trim_prefix (clean r.path) (txt "/")))
        ≡ false
      → IsPage
          (content_security_policy (Webui.handler e.shell_codec (some dist) g.shell).1)
          (shell_status r.path)
          (inject_config e.shell_codec (dist.read (txt "index.html")) g.shell)
          (root_handler e g o r fresh)
  unfolding root_handler Headers.handler dispatch
  shell_answer o r d there routed no_file = rw d (
      secured _ _ _ (shell_status r.path) g.secure_transport r
        (λ w. rw (routed, dispatch) (app_page e.shell_codec g.shell dist r w there no_file)))

  -- A gateway that has a configuration for its frontend, over an index.html with a "<head>" tag and no script
  -- and no "</head>" before it, and an encoder that leaves no "<" in the configuration: the answer to a path of
  -- the frontend that is no file has the status of that path, and its page holds, as its first script, the one
  -- with the configuration, which the policy in its header lets run by its hash.
  pub root_handler-config_script :
      (o : Occasion) (r : Request) (before after json : Text)
      → e.dist ≡ some dist
      → dist.has (txt "index.html") ≡ true
      → route g.tos r ≡ spa
      → (not (is_empty (trim_prefix (clean r.path) (txt "/")))
          && dist.has (trim_prefix (clean r.path) (txt "/")))
        ≡ false
      → cut_text (txt "<head>") (dist.read (txt "index.html")) ≡ some (before, after)
      → cut_text (txt "<script") before ≡ none
      → cut_text (txt "</head>") before ≡ none
      → e.shell_codec.marshal g.shell ≡ some json
      → (json == txt "{}") ≡ false
      → All NoAngle json
      → (hashes : List Text) × ((t : Text) × IsPage
            (content_security_policy
              (hash_token e.shell_codec (txt "window.__ATRIUM__=" ++ json) ∷ hashes))
            (shell_status r.path)
            (shell before json t)
            (root_handler e g o r fresh))
  root_handler-config_script o r before after json d there routed no_file head no_script no_end m
        set h =
      let (hashes, listed) =
        handler-config_hash e.shell_codec dist before after json g.shell there head no_script no_end
          m set h in
      let (t, injected) =
        inject_config-shell e.shell_codec (dist.read (txt "index.html")) before after json g.shell
          head no_end m set h in
      (
        hashes,
        (
          t,
          subst
              (λ l.
                IsPage (content_security_policy l) (shell_status r.path) (shell before json t)
                  (root_handler e g o r fresh))
              listed
              (subst
                (λ page.
                  IsPage
                    (content_security_policy (Webui.handler e.shell_codec (some dist) g.shell).1)
                    (shell_status r.path) page (root_handler e g o r fresh))
                injected (shell_answer o r d there routed no_file)),
        ),
      )
