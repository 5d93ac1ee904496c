-- ===== src/Config/Valid.antt =====
-- What Load guarantees of a configuration that it returns.
use atrium_core.Base.{
  ℕ, ◌*◌, ◌<◌, ◌≡◌, inl, inr, refl, sym, ap, ◌∙◌, Bool, true, false, Option, none, some, List, [],
  ◌∷◌, Text, txt, ◌==◌, length, All, is_empty, ℤ, pos, ltbℤ, lebℤ, leb, arith, Bool-cases,
}
use atrium_core.Base.Result.{Result, ok, err, ◌>>=◌}
use atrium_core.Auth.Session.{second}
use atrium_core.Config.Vars.{
  ConfigError, Env, Parsers, guard, read, parse_bool_default, parse_log_level,
  parse_max_upload_size, parse_positive, parse_session_idle_ttl, decode_first, decode_session_key,
  parse_int,
}
use atrium_core.Config.{
  Config, OidcConfig, TosConfig, BrandConfig, load, load_session, load_rest, tos_of, load_tos,
  load_brand, check_required, required_names, is_theme, is_accent,
}

bind_sound :
    {E A B : Type 0} (m : Result E A) (k : A → Result E B) (b : B)
    → (m >>= k) ≡ ok b
    → (v : A) × ((m ≡ ok v) × (k v ≡ ok b))
bind_sound (ok v) k b h = (v, (refl, h))
bind_sound (err e) k b h = absurd (cc)

guard_sound :
    {A : Type 0} (t : Bool) (e : ConfigError) (k : Result ConfigError A) (b : A)
    → guard t e k ≡ ok b
    → (t ≡ true) × (k ≡ ok b)
unfolding guard
guard_sound true e k b h = (refl, h)
guard_sound false e k b h = absurd (cc)

abbrev the_ok : {A : Type 0} (E : Type 0) → A → Result E A
the_ok E a = ok a

ok-injective : {E A : Type 0} (a b : A) → (the_ok E a) ≡ the_ok E b → a ≡ b
ok-injective a b h = cc

read-eq-ok : {A : Type 0} (o : Option A) (name : Text) (v : A) → read o name ≡ ok v → o ≡ some v
unfolding read
read-eq-ok none name v h = absurd (cc)
read-eq-ok (some x) name v h = ap some (ok-injective x v h)

-- A value that is greater than zero.
abbrev pub IsPositive : ℤ → Type 0
IsPositive n = ltbℤ (pos 0) n ≡ true

checked_sound :
    {A : Type 0} (m : Result ConfigError A) (t : A → Bool) (e : ConfigError) (v : A)
    → (m >>= λ x. guard (t x) e (ok x)) ≡ ok v
    → t v ≡ true
checked_sound m t e v h =
    let (x, (_, k)) = bind_sound m _ v h in
    let (passed, same) = guard_sound (t x) e (ok x) v k in
    ap t (sym (ok-injective x v same)) ∙ passed

parse_positive-IsPositive :
    (parsers : Parsers) (name raw : Text) (default : ℕ) (v : ℤ)
    → 0 < default
    → parse_positive parsers name default raw ≡ ok v
    → IsPositive v
unfolding parse_positive
parse_positive-IsPositive parsers name [] default v d h =
    rw (← ok-injective (pos default) v h) (ground arith)
parse_positive-IsPositive parsers name (c ∷ raw) default v d h =
    checked_sound (read (parsers.parse_duration (c ∷ raw)) name) (ltbℤ (pos 0)) _ v h

parse_max_upload_size-IsPositive :
    (raw : Text) (v : ℤ) → parse_max_upload_size raw ≡ ok v → IsPositive v
unfolding parse_max_upload_size
parse_max_upload_size-IsPositive [] v h =
    rw (← ok-injective (pos (100 * 1048576)) v h) (ground arith)
parse_max_upload_size-IsPositive (c ∷ raw) v h =
    checked_sound (read (parse_int (c ∷ raw)) (txt "MAX_UPLOAD_SIZE")) (ltbℤ (pos 0)) _ v h

parse_session_idle_ttl_sound :
    (parsers : Parsers) (raw : Text) (v : ℤ)
    → parse_session_idle_ttl parsers raw ≡ ok v
    → lebℤ (pos 0) v ≡ true
unfolding parse_session_idle_ttl
parse_session_idle_ttl_sound parsers [] v h = rw (← ok-injective (pos 0) v h) (ground arith)
parse_session_idle_ttl_sound parsers (c ∷ raw) v h =
    checked_sound (read (parsers.parse_duration (c ∷ raw)) (txt "SESSION_IDLE_TTL")) (lebℤ (pos 0))
      _ v h

decode_session_key-length :
    (parsers : Parsers) (raw key : Text)
    → decode_session_key parsers raw ≡ ok key
    → leb 32 (length key) ≡ true
unfolding decode_session_key
decode_session_key-length parsers [] key h = absurd (cc)
decode_session_key-length parsers (c ∷ raw) key h =
    checked_sound (read (decode_first parsers.decoders (c ∷ raw)) (txt "SESSION_KEY"))
      (λ k. leb 32 (length k)) _ key h

tos_of-path :
    (env : Env) (b : Bool) (t : TosConfig)
    → tos_of env b ≡ ok t
    → t.enabled ≡ true
    → is_empty t.path ≡ false
unfolding tos_of
tos_of-path env false t h e =
    absurd (cc (ap (λ (t : TosConfig). t.enabled) (ok-injective _ t h), e))
tos_of-path env true t h e = elim (Bool-cases (is_empty (env (txt "TOS_PATH")))) [
  | inl p ↦ absurd (cc (rw p at h))
  | inr p ↦ rw (← ok-injective _ t (rw p at h)) p
]

load_tos-path :
    (env : Env) (t : TosConfig) → load_tos env ≡ ok t → t.enabled ≡ true → is_empty t.path ≡ false
unfolding load_tos
load_tos-path env t h =
    let (b, (_, k)) =
      bind_sound (parse_bool_default env (txt "TOS_ENABLED") false) (tos_of env) t h in
    tos_of-path env b t k

load_brand_sound :
    (env : Env) (b : BrandConfig)
    → load_brand env ≡ ok b
    → (is_theme b.default_theme ≡ true) × (is_accent b.accent_color ≡ true)
unfolding load_brand
load_brand_sound env b h =
    let (theme, k) = guard_sound _ _ _ b h in
    let (accent, same) = guard_sound _ _ _ b k in
    (
      ap (λ (b : BrandConfig). is_theme b.default_theme) (sym (ok-injective _ b same)) ∙ theme,
      ap (λ (b : BrandConfig). is_accent b.accent_color) (sym (ok-injective _ b same)) ∙ accent,
    )

check_required_sound :
    (env : Env) (names : List Text) (u : Unit {0})
    → check_required env names ≡ ok u
    → All (λ name. is_empty (env name) ≡ false) names
unfolding check_required
check_required_sound env [] u h = tt
check_required_sound env (name ∷ names) u h = elim (Bool-cases (is_empty (env name))) [
  | inl e ↦ absurd (cc (rw e at h))
  | inr e ↦ (e, check_required_sound env names u (rw e at h))
]

-- The promises of a configuration.
pub record IsValid (env : Env) (parsers : Parsers) (c : Config) : Type 0 where
  pub required : All (λ name. is_empty (env name) ≡ false) required_names
  pub scheme : Text
  pub absolute_redirect : parsers.absolute_scheme (env (txt "OIDC_REDIRECT_URI")) ≡ some scheme
  pub secure : c.secure_cookies ≡ (scheme == txt "https")
  pub key_length : leb 32 (length c.session_key) ≡ true
  pub absolute_positive : IsPositive c.session_absolute_ttl
  pub idle_not_negative : lebℤ (pos 0) c.session_idle_ttl ≡ true
  pub idle_within : lebℤ c.session_idle_ttl c.session_absolute_ttl ≡ true
  pub size_positive : IsPositive c.provider.max_upload_size
  pub timeout_positive : IsPositive c.provider.stream_timeout
  pub consent_path : c.tos.enabled ≡ true → is_empty c.tos.path ≡ false
  pub theme : is_theme c.brand.default_theme ≡ true
  pub accent : is_accent c.brand.accent_color ≡ true

module _ (env : Env) (parsers : Parsers) where
  -- What the last part of Load adds to what it is given.
  record Completed (secure : Bool) (key : Text) (absolute idle : ℤ) (c : Config) : Type 0 where
    same_secure : c.secure_cookies ≡ secure
    same_key : c.session_key ≡ key
    same_absolute : c.session_absolute_ttl ≡ absolute
    same_idle : c.session_idle_ttl ≡ idle
    size_positive : IsPositive c.provider.max_upload_size
    timeout_positive : IsPositive c.provider.stream_timeout
    consent_path : c.tos.enabled ≡ true → is_empty c.tos.path ≡ false
    theme : is_theme c.brand.default_theme ≡ true
    accent : is_accent c.brand.accent_color ≡ true

  load_rest_sound :
      (oidc : OidcConfig) (secure : Bool) (key : Text) (absolute idle : ℤ) (c : Config)
      → load_rest env parsers oidc secure key absolute idle ≡ ok c
      → Completed secure key absolute idle c
  unfolding load_rest
  load_rest_sound oidc secure key absolute idle c h =
      let (tos, (t, h₁)) = bind_sound (load_tos env) _ c h in
      let (max, (m, h₂)) =
        bind_sound (parse_max_upload_size (env (txt "MAX_UPLOAD_SIZE"))) _ c h₁ in
      let (timeout, (o, h₃)) =
        bind_sound
          (parse_positive parsers (txt "PROVIDER_TIMEOUT") (1800 * second)
            (env (txt "PROVIDER_TIMEOUT")))
          _ c h₂ in
      let (pseudonymize, (_, h₄)) =
        bind_sound (parse_bool_default env (txt "AUDIT_PSEUDONYMIZE") true) _ c h₃ in
      let (level, (_, h₅)) = bind_sound (parse_log_level (env (txt "LOG_LEVEL"))) _ c h₄ in
      let (brand, (b, h₆)) = bind_sound (load_brand env) _ c h₅ in
      let (theme, accent) = load_brand_sound env brand b in
      rw (← ok-injective _ c h₆) (record {
        same_secure = refl;
        same_key = refl;
        same_absolute = refl;
        same_idle = refl;
        size_positive = parse_max_upload_size-IsPositive (env (txt "MAX_UPLOAD_SIZE")) max m;
        timeout_positive =
            parse_positive-IsPositive parsers (txt "PROVIDER_TIMEOUT")
              (env (txt "PROVIDER_TIMEOUT")) (1800 * second) timeout (omega arith) o;
        consent_path = load_tos-path env tos t;
        theme = theme;
        accent = accent;
      })

  -- What the part from the session key on establishes.
  record SessionChecked (secure : Bool) (c : Config) : Type 0 where
    key : Text
    absolute : ℤ
    idle : ℤ
    long_key : leb 32 (length key) ≡ true
    positive : IsPositive absolute
    not_negative : lebℤ (pos 0) idle ≡ true
    within : lebℤ idle absolute ≡ true
    completed : Completed secure key absolute idle c

  load_session_sound :
      (oidc : OidcConfig) (secure : Bool) (c : Config)
      → load_session env parsers oidc secure ≡ ok c
      → SessionChecked secure c
  unfolding load_session
  load_session_sound oidc secure c h =
      let (key, (k, h₁)) =
        bind_sound (decode_session_key parsers (env (txt "SESSION_KEY"))) _ c h in
      let (absolute, (t, h₂)) =
        bind_sound
          (parse_positive parsers (txt "SESSION_ABSOLUTE_TTL") (12 * 3600 * second)
            (env (txt "SESSION_ABSOLUTE_TTL")))
          _ c h₁ in
      let (idle, (i, h₃)) =
        bind_sound (parse_session_idle_ttl parsers (env (txt "SESSION_IDLE_TTL"))) _ c h₂ in
      let (within, h₄) = guard_sound (lebℤ idle absolute) _ _ c h₃ in
      record {
        key = key;
        absolute = absolute;
        idle = idle;
        long_key = decode_session_key-length parsers (env (txt "SESSION_KEY")) key k;
        positive =
            parse_positive-IsPositive parsers (txt "SESSION_ABSOLUTE_TTL")
              (env (txt "SESSION_ABSOLUTE_TTL")) (12 * 3600 * second) absolute (omega arith) t;
        not_negative = parse_session_idle_ttl_sound parsers (env (txt "SESSION_IDLE_TTL")) idle i;
        within = within;
        completed = load_rest_sound oidc secure key absolute idle c h₄;
      }

  -- Every configuration that Load returns is valid: all required variables are set, the redirect URI is
  -- absolute and its scheme decides over secure cookies, the session key has at least 32 bytes, the
  -- absolute lifetime is positive, the idle timeout is neither negative nor longer than that, the size
  -- limit and the transfer timeout are positive, an enabled consent gate has a path, and the theme and
  -- the accent colour are empty or well formed.
  pub load-IsValid : (c : Config) → load env parsers ≡ ok c → IsValid env parsers c
  unfolding load
  load-IsValid c h =
      let (set, (required, h₁)) = bind_sound (check_required env required_names) _ c h in
      let (scheme, (redirect, h₂)) =
        bind_sound
          (read (parsers.absolute_scheme (env (txt "OIDC_REDIRECT_URI"))) (txt "OIDC_REDIRECT_URI"))
          _ c h₁ in
      let (verified, (_, h₃)) =
        bind_sound (parse_bool_default env (txt "OIDC_REQUIRE_EMAIL_VERIFIED") true) _ c h₂ in
      let s = load_session_sound _ (scheme == txt "https") c h₃ in
      let d = s.completed in
      record {
        required = check_required_sound env required_names set required;
        scheme = scheme;
        absolute_redirect =
            read-eq-ok (parsers.absolute_scheme (env (txt "OIDC_REDIRECT_URI")))
              (txt "OIDC_REDIRECT_URI") scheme redirect;
        secure = d.same_secure;
        key_length = ap (λ k. leb 32 (length k)) d.same_key ∙ s.long_key;
        absolute_positive = ap (ltbℤ (pos 0)) d.same_absolute ∙ s.positive;
        idle_not_negative = ap (lebℤ (pos 0)) d.same_idle ∙ s.not_negative;
        idle_within = rw (d.same_idle, d.same_absolute) s.within;
        size_positive = d.size_positive;
        timeout_positive = d.timeout_positive;
        consent_path = d.consent_path;
        theme = d.theme;
        accent = d.accent;
      }
