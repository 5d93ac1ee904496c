-- ===== src/Api/Boundary.antt =====
-- The boundary of the gateway: no session, no answer of the API; no consent, no answer of the API.
use atrium_core.Base.{
  ◌≡◌, refl, ◌∙◌, true, false, Option, none, some, txt, Bool-cases, Option-cases, inl, inr, ◌⊎◌,
  ◌==◌, ◌&&◌,
}
use atrium_core.Base.Result.{ok, err}
use atrium_core.Strings.{has_prefix}
use atrium_core.Crypto.{Crypto}
use atrium_core.Http.{Request, Out, set_cookie, obj, field, str, end}
use atrium_core.Auth.Session.{
  SessionData, SessionError, Codec, OidcAuth, Time, validate_session_cookie, clear_session_cookie,
}
use atrium_core.Auth.Middleware.{
  Handler, Instants, require_auth, touch_session, deny_unauthenticated,
}
use atrium_core.Auth.Middleware.Touch.{touch_session-same}
use atrium_core.Tos.{Manager, TosCodec, require_tos, gate, check_acceptance, write_json}
use atrium_core.Api.{
  gated, tos_content, tos_accept, PublicHandlers, route, consent_route, dispatch, gated_handler,
  consent_handler, is_get, is_post, content_path, accept_path,
}
use atrium_core.Api.Gates.{
  deny_unauthenticated-status, set_cookie-status, json_answer-status, validate-status,
  touch_session-status, require_auth_denied, require_auth_admitted,
}

unrouted : (r : Request) → consent_route none r ≡ gated
unfolding consent_route
unrouted r = refl

consent_route-cases :
    (m : Manager) (r : Request)
    → (consent_route (some m) r ≡ gated)
      ⊎ ((consent_route (some m) r ≡ tos_content) ⊎ (consent_route (some m) r ≡ tos_accept))
unfolding consent_route
consent_route-cases m r = elim (Bool-cases (is_get r && r.path == content_path)) [
  | inl c ↦ inr (inl (rw c))
  | inr c ↦ rw c (elim (Bool-cases (is_post r && r.path == accept_path)) [
    | inl d ↦ inr (inr (rw d))
    | inr d ↦ inl (rw d)
  ])
]

-- Below /api/ there are three routes.
api_routes :
    (tos : Option Manager) (r : Request)
    → has_prefix r.path (txt "/api/") ≡ true
    → (route tos r ≡ gated)
      ⊎ (((route tos r ≡ tos_content) ⊎ (route tos r ≡ tos_accept))
          × ((m : Manager) × (tos ≡ some m)))
unfolding route
api_routes none r p = inl (rw p (unrouted r))
api_routes (some m) r p = elim (consent_route-cases m r) [
  | inl c ↦ inl (rw p c)
  | inr (inl c) ↦ inr (inl (rw p c), (m, refl))
  | inr (inr c) ↦ inr (inr (rw p c), (m, refl))
]

module _ (crypto : Crypto) (codec : Codec) (tos_codec : TosCodec) (a : OidcAuth)
    (tos : Option Manager) where
  consent_handler-on :
      (h : Manager → Handler) (t : Instants) (r : Request) (m : Manager)
      → tos ≡ some m
      → consent_handler crypto codec tos_codec a tos h t r ≡ require_auth crypto codec a (h m) t r
  unfolding consent_handler
  consent_handler-on h t r m on = rw on

  -- The answer to a request below /api/ without a valid session, on each of its three routes.
  pub dispatch_denied :
      (h : PublicHandlers) (api : Handler) (t : Instants) (accepted : Time) (r : Request) (w : Out)
      (e : SessionError)
      → has_prefix r.path (txt "/api/") ≡ true
      → (validate_session_cookie crypto codec a r t.expiry t.idle w).0 ≡ err e
      → dispatch crypto codec tos_codec a tos h api t accepted r w
        ≡ deny_unauthenticated r (
            set_cookie
              (clear_session_cookie a)
              (validate_session_cookie crypto codec a r t.expiry t.idle w).1)
  unfolding dispatch gated_handler
  dispatch_denied h api t accepted r w e p invalid = elim (api_routes tos r p) [
    | inl g ↦ rw (g, dispatch) (denied _)
    | inr (inl c, (m, on)) ↦ rw (c, dispatch) (rw (consent_handler-on _ t r m on) (denied _))
    | inr (inr c, (m, on)) ↦ rw (c, dispatch) (rw (consent_handler-on _ t r m on) (denied _))
  ]
    where
      denied :
          (next : Handler)
          → require_auth crypto codec a next t r w
            ≡ deny_unauthenticated r (
                set_cookie
                  (clear_session_cookie a)
                  (validate_session_cookie crypto codec a r t.expiry t.idle w).1)
      denied next = require_auth_denied crypto codec a next t r w e invalid

  -- A request below /api/ without a valid session is answered with 401, and the response is the same
  -- whatever handler of the API stands behind the gates: it does not run.
  pub dispatch_unauthenticated :
      (h : PublicHandlers) (api api' : Handler) (t : Instants) (accepted : Time) (r : Request)
      (w : Out) (e : SessionError)
      → has_prefix r.path (txt "/api/") ≡ true
      → w.status ≡ none
      → (validate_session_cookie crypto codec a r t.expiry t.idle w).0 ≡ err e
      → let o = dispatch crypto codec tos_codec a tos h api t accepted r w in
        (o.status ≡ some 401) × (o ≡ dispatch crypto codec tos_codec a tos h api' t accepted r w)
  dispatch_unauthenticated h api api' t accepted r w e p fresh invalid =
      rw (dispatch_denied h api t accepted r w e p invalid)
        (rw (dispatch_denied h api' t accepted r w e p invalid) (status, refl))
    where
      status :
          (deny_unauthenticated r (
            set_cookie
              (clear_session_cookie a)
              (validate_session_cookie crypto codec a r t.expiry t.idle w).1)).status
          ≡ some 401
      status =
          deny_unauthenticated-status r _ p
            (set_cookie-status _ _ ∙ validate-status crypto codec a r t.expiry t.idle w ∙ fresh)

  -- A request below /api/ with a valid session, but without consent where the gate is on, is answered
  -- with 403 on every route other than the two consent endpoints, and the response is the same
  -- whatever handler of the API stands behind the gates: it does not run.
  pub dispatch_unconsented :
      (h : PublicHandlers) (api api' : Handler) (t : Instants) (accepted : Time) (r : Request)
      (w : Out) (d : SessionData) (m : Manager)
      → route tos r ≡ gated
      → w.status ≡ none
      → (validate_session_cookie crypto codec a r t.expiry t.idle w).0 ≡ ok d
      → tos ≡ some m
      → check_acceptance crypto tos_codec m r d.email ≡ false
      → let o = dispatch crypto codec tos_codec a tos h api t accepted r w in
        (o.status ≡ some 403) × (o ≡ dispatch crypto codec tos_codec a tos h api' t accepted r w)
  unfolding dispatch gated_handler require_tos gate write_json
  dispatch_unconsented h api api' t accepted r w d m g fresh valid on refused =
      rw (g, dispatch)
        (rw on (rw (answer api) (rw (answer api') (json_answer-status 403 _ _ status, refl))))
    where
      v : Out
      v = (validate_session_cookie crypto codec a r t.expiry t.idle w).1

      touched : SessionData × Out
      touched = touch_session crypto codec a t d v

      status : touched.1.status ≡ none
      status =
          touch_session-status crypto codec a t d v
          ∙ validate-status crypto codec a r t.expiry t.idle w
          ∙ fresh

      answer :
          (next : Handler)
          → require_auth crypto codec a (gate crypto tos_codec m next) t r w
            ≡ write_json 403 (obj (field (txt "error") (str (txt "tos_required")) end)) touched.1
      answer next =
          require_auth_admitted crypto codec a (gate crypto tos_codec m next) t r w d valid
          ∙ rw (touch_session-same crypto codec a t d v).0 (rw refused refl)

  -- A request with a valid session, and with consent where the gate is on, reaches the handler of the
  -- API with a session of the same recipient, on every route below /api/ but the consent endpoints.
  pub dispatch_admitted :
      (h : PublicHandlers) (api : Handler) (t : Instants) (accepted : Time) (r : Request) (w : Out)
      (d : SessionData)
      → route tos r ≡ gated
      → (validate_session_cookie crypto codec a r t.expiry t.idle w).0 ≡ ok d
      → ((m : Manager) → tos ≡ some m → check_acceptance crypto tos_codec m r d.email ≡ true)
      → (touched : SessionData) × ((touched.email ≡ d.email)
          × ((w' : Out) × (dispatch crypto codec tos_codec a tos h api t accepted r w
                ≡ api (some touched) r w')))
  unfolding dispatch gated_handler require_tos gate
  dispatch_admitted h api t accepted r w d g valid consent = (
    touched.0,
    (
      (touch_session-same crypto codec a t d v).0,
      (touched.1, rw (g, dispatch) (reached ∙ through)),
    ),
  )
    where
      v : Out
      v = (validate_session_cookie crypto codec a r t.expiry t.idle w).1

      touched : SessionData × Out
      touched = touch_session crypto codec a t d v

      reached :
          require_auth crypto codec a (require_tos crypto tos_codec tos api) t r w
          ≡ require_tos crypto tos_codec tos api (some touched.0) r touched.1
      reached =
          require_auth_admitted crypto codec a (require_tos crypto tos_codec tos api) t r w d valid

      through :
          require_tos crypto tos_codec tos api (some touched.0) r touched.1
          ≡ api (some touched.0) r touched.1
      through = elim (Option-cases tos) [
        | inl e ↦ rw e refl
        | inr (m, e) ↦ rw e (rw (touch_session-same crypto codec a t d v).0 (rw (consent m e) refl))
      ]
