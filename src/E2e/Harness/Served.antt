-- ===== src/E2e/Harness/Served.antt =====
-- What the end-to-end harness serves, and that its store is one that the stub provider reaches.
use atrium_core.Base.{
  ◌≡◌, refl, ap, ◌∙◌, sym, Bool, true, false, not, Option, none, some, [], Text, txt, ℤ, pos, ltbℤ,
  is_empty, if◌then◌else◌, Bool-cases, inl, inr, ◌==◌, ◌&&◌,
}
use atrium_core.Base.Result.{ok}
use atrium_core.Slog.{Logger}
use atrium_core.Crypto.{Crypto}
use atrium_core.Http.{Request, Out}
use atrium_core.Tos.{Manager, enabled}
use atrium_core.Config.{Config}
use atrium_core.Config.Vars.{Env, parse_int}
use atrium_core.Startup.{
  identity_provider_down, stub_provider_down, no_signing_key, unusable_provider, unreadable_terms,
  Outside, and_then, or_fail, new_oidc_auth,
}
use atrium_core.Provider.Keys.{usable_key}
use atrium_core.Provider.Operations.{new_nextcloud}
use atrium_core.Gateway.{Gateway}
use atrium_core.Gateway.Started.{and_then_sound, ok_injective}
use atrium_core.E2e.Store.{Store, StubCodec}
use atrium_core.E2e.Store.Routes.{Reach, start}
use atrium_core.E2e.Harness.{
  Standins, terms, upload_cap, config_of, gate_of, served_by, prepare, assemble, root,
}

upload_cap-positive : (n : Option ℤ) → ltbℤ (pos 0) (upload_cap n) ≡ true
unfolding upload_cap
upload_cap-positive none = refl
upload_cap-positive (some n) = elim (Bool-cases (ltbℤ (pos 0) n)) [
  | inl e ↦ rw (e, e) refl
  | inr e ↦ rw e refl
]

terms-enabled : (env : Env) → (terms env).enabled ≡ not (is_empty (env (txt "TOS_PATH")))
unfolding terms
terms-enabled env = elim (Bool-cases (is_empty (env (txt "TOS_PATH")))) [
  | inl e ↦ rw e refl
  | inr e ↦ rw e refl
]

made_sound :
    (b : Bool) (o : Option Manager) (tos : Option Manager)
    → (if b
        then and_then (or_fail unreadable_terms o) (λ m. ([], ok (some m)))
        else ([], ok none)).1
      ≡ ok tos
    → enabled tos ≡ b
unfolding enabled
made_sound true none tos h = absurd (cc (h))
made_sound true (some m) none h = absurd (cc (h))
made_sound true (some m) (some k) h = refl
made_sound false o none h = refl
made_sound false o (some k) h = absurd (cc (h))

module _ (crypto : Crypto) (out : Outside) (logger : Logger) where
  gate_of_sound :
      (cfg : Config) (tos : Option Manager)
      → (gate_of crypto out logger cfg).1 ≡ ok tos
      → enabled tos ≡ cfg.tos.enabled
  unfolding gate_of
  gate_of_sound cfg tos h = made_sound cfg.tos.enabled _ tos h

  prepare_sound :
      (cfg : Config) (g : Gateway)
      → (prepare crypto out logger cfg).1 ≡ ok g
      → (enabled g.tos ≡ cfg.tos.enabled) × (g.shell.max_upload_size ≡ cfg.provider.max_upload_size)
  unfolding prepare
  prepare_sound cfg g h =
      let (auth, (_, h₁)) = and_then_sound (new_oidc_auth crypto out logger cfg) _ g h in
      let (client, (_, h₂)) =
        and_then_sound
          (or_fail unusable_provider (
            new_nextcloud (out.parse_base cfg.provider.base_url)
              (usable_key out.keys cfg.provider.private_key_pem)))
          _ g h₁ in
      let (tos, (ht, h₃)) = and_then_sound (gate_of crypto out logger cfg) _ g h₂ in
      let e = ok_injective (served_by crypto out logger cfg auth client tos) g h₃ in
      (
        sym (ap (λ k. enabled k.tos) e) ∙ gate_of_sound cfg tos ht,
        sym (ap (λ k. k.shell.max_upload_size) e),
      )

  assembled :
      (env : Env) (issuer url key : Text) (g : Gateway)
      → (prepare crypto out logger (config_of env issuer url key)).1 ≡ ok g
      → (enabled g.tos ≡ not (is_empty (env (txt "TOS_PATH"))))
        × (ltbℤ (pos 0) g.shell.max_upload_size ≡ true)
  unfolding config_of
  assembled env issuer url key g h =
      let (gate, cap) = prepare_sound (config_of env issuer url key) g h in
      (
        gate ∙ terms-enabled env,
        ap (λ n. ltbℤ (pos 0) n) cap
            ∙ upload_cap-positive (parse_int (env (txt "MAX_UPLOAD_SIZE"))),
      )

  -- What the harness serves has the consent gate on exactly if TOS_PATH is set, and tells the frontend of an
  -- upload limit that is positive, whatever MAX_UPLOAD_SIZE says.
  pub assemble_sound :
      (env : Env) (s : Standins) (served : Config × Gateway)
      → (assemble crypto out logger env s).1 ≡ ok served
      → (enabled served.1.tos ≡ not (is_empty (env (txt "TOS_PATH"))))
        × (ltbℤ (pos 0) served.1.shell.max_upload_size ≡ true)
  unfolding assemble
  assemble_sound env s served h =
      let (issuer, (_, h₁)) =
        and_then_sound (or_fail identity_provider_down s.mock_oidc) _ served h in
      let (url, (_, h₂)) =
        and_then_sound (or_fail stub_provider_down s.stub_provider) _ served h₁ in
      let (key, (_, h₃)) = and_then_sound (or_fail no_signing_key s.signing_key) _ served h₂ in
      let (g, (hg, h₄)) =
        and_then_sound (prepare crypto out logger (config_of env issuer url key)) _ served h₃ in
      let e = ok_injective (config_of env issuer url key, g) served h₄ in
      let (gate, cap) = assembled env issuer url key g hg in
      (
        sym (ap (λ p. enabled p.1.tos) e) ∙ gate,
        sym (ap (λ p. ltbℤ (pos 0) p.1.shell.max_upload_size) e) ∙ cap,
      )

module _ (codec : StubCodec) where
  -- The harness keeps its store among those that the stub provider reaches, where the gateway does.
  pub root-Reach :
      (handler : Store → Request → Out → Store × Out) (now soon : Text) (s : Store) (r : Request)
      (w : Out)
      → Reach codec (handler s r w).0
      → Reach codec (root handler now soon s r w).0
  unfolding root
  root-Reach handler now soon s r w h =
      elim (Bool-cases (r.method == txt "POST" && r.path == txt "/_e2e/seed")) [
        | inl e ↦ rw e (start now soon)
        | inr e ↦ rw e h
      ]
