-- ===== src/Gateway/Started.antt =====
-- What holds of every gateway that starts, and when one does.
use mathlib.Core.Path.{subst}
use atrium_core.Base.{
  ◌≡◌, ◌≤◌, ◌<◌, refl, sym, ap, ◌∙◌, Bool, true, false, Option, none, some, [], Text, txt, ◌==◌,
  length, if◌then◌else◌, leb→le, lebℤ, ℤ, pos, arith,
}
use atrium_core.Base.Result.{Result, ok, err}
use atrium_core.Slog.{Logger}
use atrium_core.Crypto.{Crypto}
use atrium_core.Auth.Session.{OidcAuth}
use atrium_core.Auth.Middleware.{logged_out_path}
use atrium_core.Tos.{Manager, enabled, new_manager}
use atrium_core.Provider.{Client}
use atrium_core.Provider.Keys.{usable_key}
use atrium_core.Provider.Operations.{new_nextcloud, new_client, nextcloud_audience}
use atrium_core.Config.{Config, load, is_accent}
use atrium_core.Config.Vars.{Env, Parsers}
use atrium_core.Config.Valid.{IsPositive, load-IsValid}
use atrium_core.Startup.{
  StartError, discovery_failed, metadata_undecodable, no_redirect_origin, Outside, Logged, nat_of,
  and_then, or_fail, post_logout_redirect_uri, auth_of, new_oidc_auth,
}
use atrium_core.Gateway.{Gateway, new_provider, tos_started, new_tos, gateway_of, configure}

-- A step that ended well, and the step before it.
pub and_then_sound :
    {A B : Type 0} (l : Logged A) (f : A → Logged B) (b : B)
    → (and_then l f).1 ≡ ok b
    → (a : A) × ((l.1 ≡ ok a) × ((f a).1 ≡ ok b))
and_then_sound (lines, err e) f b h = absurd (cc (h))
and_then_sound (lines, ok a) f b h = (a, (refl, h))

or_fail_sound :
    {A : Type 0} (e : StartError) (o : Option A) (a : A) → (or_fail e o).1 ≡ ok a → o ≡ some a
or_fail_sound e none a h = absurd (cc (h))
or_fail_sound e (some x) a h = cc (h)

abbrev the_ok : {A : Type 0} → A → Result StartError A
the_ok a = ok a

pub ok_injective : {A : Type 0} (a b : A) → (the_ok a) ≡ the_ok b → a ≡ b
ok_injective a b e = cc (e)

-- The result of a step, where the one before it ends well.
and_then_ok :
    {A B : Type 0} (l : Logged A) (f : A → Logged B) (a : A)
    → l.1 ≡ ok a
    → (and_then l f).1 ≡ (f a).1
and_then_ok (lines, err e) f a h = absurd (cc (h))
and_then_ok (lines, ok x) f a h = ap (λ y. (f y).1) (ok_injective x a h)

or_fail_ok :
    {A : Type 0} (e : StartError) (o : Option A) (a : A) → o ≡ some a → (or_fail e o).1 ≡ ok a
or_fail_ok e o a h = rw h refl

-- The promises of a gateway that has started from the environment.
pub record IsStarted (env : Env) (parsers : Parsers) (cfg : Config) (g : Gateway) : Type 0 where
  pub key_length : 32 ≤ length g.auth.session_key
  pub absolute_positive : 0 < g.auth.session_absolute_ttl
  pub idle_within : g.auth.session_idle_ttl ≤ g.auth.session_absolute_ttl
  pub scheme : Text
  pub redirect : parsers.absolute_scheme (env (txt "OIDC_REDIRECT_URI")) ≡ some scheme
  pub secure_session : g.auth.secure_cookies ≡ (scheme == txt "https")
  pub secure_surface : g.secure_transport ≡ (scheme == txt "https")
  pub gate : enabled g.tos ≡ cfg.tos.enabled
  pub limit_positive : 0 < g.max_upload_size
  pub limit_mirrored : g.shell.max_upload_size ≡ pos g.max_upload_size
  pub accent : is_accent g.shell.brand.accent_color ≡ true

pos-nat_of : (n : ℤ) → lebℤ (pos 0) n ≡ true → pos (nat_of n) ≡ n
pos-nat_of n h = ground arith

nat_of-positive : (n : ℤ) → IsPositive n → 0 < nat_of n
nat_of-positive n h = ground arith

IsPositive-le : (n : ℤ) → IsPositive n → lebℤ (pos 0) n ≡ true
IsPositive-le n h = ground arith

nat_of_mono : (m n : ℤ) → lebℤ m n ≡ true → nat_of m ≤ nat_of n
nat_of_mono m n h = ground arith

module _ (crypto : Crypto) (out : Outside) (logger : Logger) where
  tos_of_sound :
      (b : Bool) (o : Option Manager) (tos : Option Manager)
      → (if b then tos_started crypto out logger o else ([], ok none)).1 ≡ ok tos
      → enabled tos ≡ b
  unfolding enabled
  tos_of_sound true none tos h = absurd (cc (h))
  tos_of_sound true (some m) none h = absurd (cc (h))
  tos_of_sound true (some m) (some k) h = refl
  tos_of_sound false o none h = refl
  tos_of_sound false o (some k) h = absurd (cc (h))

  tos_sound :
      (cfg : Config) (tos : Option Manager)
      → (new_tos crypto out logger cfg).1 ≡ ok tos
      → enabled tos ≡ cfg.tos.enabled
  unfolding new_tos
  tos_sound cfg tos h = tos_of_sound cfg.tos.enabled _ tos h

  auth_sound :
      (cfg : Config) (auth : OidcAuth)
      → (new_oidc_auth crypto out logger cfg).1 ≡ ok auth
      → (end_session : Text) × ((post_logout : Text) × (auth_of crypto out logger cfg end_session
              post_logout
            ≡ auth))
  unfolding new_oidc_auth
  auth_sound cfg auth h =
      let (metadata, (_, h₁)) =
        and_then_sound (or_fail discovery_failed (out.discover cfg.oidc.issuer)) _ auth h in
      let (end_session, (_, h₂)) =
        and_then_sound (or_fail metadata_undecodable metadata) _ auth h₁ in
      let (post_logout, (_, h₃)) =
        and_then_sound
          (or_fail no_redirect_origin
            (post_logout_redirect_uri crypto out logger cfg.oidc.redirect_uri))
          _ auth h₂ in
      (end_session, (post_logout, cc (h₃)))

  configure_sound :
      (cfg : Config) (g : Gateway)
      → (configure crypto out logger cfg).1 ≡ ok g
      → (end_session : Text) × ((post_logout : Text) × ((client : Client) × ((tos : Option Manager)
              × ((enabled tos ≡ cfg.tos.enabled)
                  × (gateway_of crypto out logger cfg
                        (auth_of crypto out logger cfg end_session post_logout)
                        client
                        tos
                      ≡ g)))))
  unfolding configure
  configure_sound cfg g h =
      let (auth, (ha, h₁)) = and_then_sound (new_oidc_auth crypto out logger cfg) _ g h in
      let (client, (_, h₂)) = and_then_sound (new_provider crypto out logger cfg.provider) _ g h₁ in
      let (tos, (ht, h₃)) = and_then_sound (new_tos crypto out logger cfg) _ g h₂ in
      let (end_session, (post_logout, ea)) = auth_sound cfg auth ha in
      (
        end_session,
        (
          post_logout,
          (
            client,
            (
              tos,
              (
                tos_sound cfg tos ht,
                ap (λ a. gateway_of crypto out logger cfg a client tos) ea ∙ ok_injective _ _ h₃,
              ),
            ),
          ),
        ),
      )

  -- A gateway that starts with a configuration that Load returned: its key has 32 bytes or more, its
  -- sessions end, cookies are secure and HSTS is sent exactly if the redirect URI is https, the consent gate
  -- is on exactly if the configuration enables it, and the upload limit that the frontend is told is the one
  -- that the gateway enforces.
  pub configure-IsStarted :
      (env : Env) (parsers : Parsers) (cfg : Config) (g : Gateway)
      → load env parsers ≡ ok cfg
      → (configure crypto out logger cfg).1 ≡ ok g
      → IsStarted env parsers cfg g
  configure-IsStarted env parsers cfg g loaded h =
      let v = load-IsValid env parsers cfg loaded in
      let (end_session, (post_logout, (client, (tos, (gate, e))))) = configure_sound cfg g h in
      subst (IsStarted env parsers cfg) e (record {
        key_length = leb→le 32 (length cfg.session_key) v.key_length;
        absolute_positive = nat_of-positive cfg.session_absolute_ttl v.absolute_positive;
        idle_within = nat_of_mono cfg.session_idle_ttl cfg.session_absolute_ttl v.idle_within;
        scheme = v.scheme;
        redirect = v.absolute_redirect;
        secure_session = v.secure;
        secure_surface = v.secure;
        gate = gate;
        limit_positive = nat_of-positive cfg.provider.max_upload_size v.size_positive;
        limit_mirrored =
            sym (pos-nat_of cfg.provider.max_upload_size (IsPositive-le _ v.size_positive));
        accent = v.accent;
      })

  tos_of_starts :
      (b : Bool) (o : Option Manager)
      → (b ≡ true → (m : Manager) × (o ≡ some m))
      → (tos : Option Manager) × ((if b then tos_started crypto out logger o else ([], ok none)).1
          ≡ ok tos)
  tos_of_starts false o h = (none, refl)
  tos_of_starts true none h = absurd (cc ((h refl).1))
  tos_of_starts true (some m) h = (some m, refl)

  manager_read :
      (o : Option Text) (content version key : Text) (secure : Bool)
      → o ≡ some content
      → (m : Manager) × (new_manager crypto o version key secure logger ≡ some m)
  unfolding new_manager
  manager_read none content version key secure h = absurd (cc (h))
  manager_read (some t) content version key secure h = (_, refl)

  new_tos_starts :
      (cfg : Config)
      → (cfg.tos.enabled ≡ true → (content : Text) × (out.read_file cfg.tos.path ≡ some content))
      → (tos : Option Manager) × ((new_tos crypto out logger cfg).1 ≡ ok tos)
  unfolding new_tos
  new_tos_starts cfg h = tos_of_starts cfg.tos.enabled _ (λ e.
      manager_read (out.read_file cfg.tos.path) (h e).0 cfg.tos.version cfg.session_key
        cfg.secure_cookies (h e).1)

  auth_starts :
      (cfg : Config) (end_session scheme host : Text)
      → out.discover cfg.oidc.issuer ≡ some (some end_session)
      → out.parse_absolute cfg.oidc.redirect_uri ≡ some (scheme, host)
      → (new_oidc_auth crypto out logger cfg).1
        ≡ ok (auth_of crypto out logger cfg end_session (out.print_url scheme host logged_out_path))
  unfolding new_oidc_auth post_logout_redirect_uri
  auth_starts cfg end_session scheme host found redirect =
      rw (found, redirect, post_logout_redirect_uri) refl

  provider_starts :
      (cfg : Config) (base_url public : Text)
      → (cfg.provider.kind == txt "nextcloud") ≡ true
      → out.parse_base cfg.provider.base_url ≡ some base_url
      → usable_key out.keys cfg.provider.private_key_pem ≡ some public
      → (new_provider crypto out logger cfg.provider).1
        ≡ ok
            (record { base_url = base_url; audience = nextcloud_audience; public_key_pem = public })
  unfolding new_provider new_nextcloud new_client
  provider_starts cfg base_url public kind base key = rw (kind, base, key) refl

  -- The gateway starts when the identity provider is found, the redirect URI is absolute, the provider is a
  -- Nextcloud with a usable base URL and key, and the terms can be read if the gate is enabled: whatever the
  -- provider answers to the probe of its trust.
  pub configure-starts :
      (cfg : Config) (end_session scheme host base_url public : Text)
      → out.discover cfg.oidc.issuer ≡ some (some end_session)
      → out.parse_absolute cfg.oidc.redirect_uri ≡ some (scheme, host)
      → (cfg.provider.kind == txt "nextcloud") ≡ true
      → out.parse_base cfg.provider.base_url ≡ some base_url
      → usable_key out.keys cfg.provider.private_key_pem ≡ some public
      → (cfg.tos.enabled ≡ true → (content : Text) × (out.read_file cfg.tos.path ≡ some content))
      → (g : Gateway) × ((configure crypto out logger cfg).1 ≡ ok g)
  unfolding configure
  configure-starts cfg end_session scheme host base_url public found redirect kind base key terms =
      let (tos, t) = new_tos_starts cfg terms in
      (
        _,
        and_then_ok (new_oidc_auth crypto out logger cfg) _ _
              (auth_starts cfg end_session scheme host found redirect)
            ∙ and_then_ok (new_provider crypto out logger cfg.provider) _ _
                (provider_starts cfg base_url public kind base key)
            ∙ and_then_ok (new_tos crypto out logger cfg) _ tos t,
      )
