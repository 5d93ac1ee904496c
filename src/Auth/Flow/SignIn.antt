-- ===== src/Auth/Flow/SignIn.antt =====
-- Which callbacks start a session, and what a refused one leaves behind.
use atrium_core.Base.{
  ◌≡◌, ◌↔◌, refl, sym, ◌∙◌, ap, Bool, true, false, Option, none, some, [], ◌∷◌, Text, txt, ◌==◌,
  ==_iff, is_empty, arith, ltb, ==_refl,
}
use atrium_core.Base.Result.{Result, ok, ◌>>=◌}
use atrium_core.Http.{Request, cookie, query_get}
use atrium_core.Auth.Session.{OidcAuth, Time}
use atrium_core.Auth.Flow.{
  Idp, IdToken, IdTokenClaims, Refusal, SignedIn, present, guard, member, no_values,
  auth_time_fresh, check_claims, redeem, sign_in, undecodable_claims, nonce_mismatch, cookie_state,
  cookie_nonce, cookie_pkce,
}

present_sound :
    {A B : Type 0} (o : Option A) (e : Refusal) (k : A → Result Refusal B) (b : B)
    → (present o e >>= k) ≡ ok b
    → (v : A) × ((o ≡ some v) × (k v ≡ ok b))
unfolding present
present_sound none e k b h = absurd (cc)
present_sound (some v) e k b h = (v, (refl, h))

present_complete :
    {A B : Type 0} (o : Option A) (e : Refusal) (k : A → Result Refusal B) (v : A)
    → o ≡ some v
    → (present o e >>= k) ≡ k v
unfolding present
present_complete o e k v h = rw h

guard_sound :
    {A : Type 0} (t : Bool) (e : Refusal) (k : Result Refusal A) (b : A)
    → guard t e k ≡ ok b
    → (t ≡ true) × (k ≡ ok b)
unfolding guard
guard_sound true e k b h = (refl, h)
guard_sound false e k b h = absurd (cc)

guard_complete :
    {A : Type 0} (t : Bool) (e : Refusal) (k : Result Refusal A) → t ≡ true → guard t e k ≡ k
unfolding guard
guard_complete t e k h = rw h

module _ (a : OidcAuth) (idp : Idp) (r : Request) (now : Time) where
  -- The callback answers a request of this browser, and the provider attests the recipient.
  pub record IsSignIn (s : SignedIn) : Type 0 where
    pub state : Text
    pub verifier : Text
    pub token : IdToken
    pub state_kept : cookie r cookie_state ≡ some state
    pub state_same : state ≡ query_get r (txt "state")
    pub no_error : query_get r (txt "error") ≡ []
    pub verifier_kept : cookie r cookie_pkce ≡ some verifier
    pub exchanged : idp.exchange (query_get r (txt "code")) verifier ≡ some (some s.raw_id_token)
    pub verified : idp.verify s.raw_id_token ≡ some token
    pub nonce_kept : cookie r cookie_nonce ≡ some token.nonce
    pub decoded : token.claims ≡ some s.claims
    pub email_checked : a.require_email_verified ≡ true → s.claims.email_verified ≡ true
    pub has_email : is_empty s.claims.email ≡ false
    pub strong : no_values a.mfa_acr ≡ false → member s.claims.acr a.mfa_acr ≡ true
    pub recent :
        ltb 0 a.session_idle_ttl ≡ true
        → auth_time_fresh now s.claims.auth_time a.session_idle_ttl ≡ true

  -- What the checks of the claims establish.
  record Checked (c : IdTokenClaims) : Type 0 where
    email_checked : a.require_email_verified ≡ true → c.email_verified ≡ true
    has_email : is_empty c.email ≡ false
    strong : no_values a.mfa_acr ≡ false → member c.acr a.mfa_acr ≡ true
    recent :
        ltb 0 a.session_idle_ttl ≡ true → auth_time_fresh now c.auth_time a.session_idle_ttl ≡ true

  check_claims_sound :
      (c : IdTokenClaims) (raw : Text) (s : SignedIn)
      → check_claims a idp now c raw ≡ ok s
      → (record { claims = c; raw_id_token = raw } ≡ s) × Checked c
  unfolding check_claims
  check_claims_sound c raw s h =
      let (p, h₁) = guard_sound _ _ _ s h in
      let (q, h₂) = guard_sound _ _ _ s h₁ in
      let (u, h₃) = guard_sound _ _ _ s h₂ in
      let (v, h₄) = guard_sound _ _ _ s h₃ in
      (
        ground arith,
        record {
          email_checked = ground arith;
          has_email = ground arith;
          strong = ground arith;
          recent = ground arith;
        },
      )

  check_claims_complete :
      (s : SignedIn) → Checked s.claims → check_claims a idp now s.claims s.raw_id_token ≡ ok s
  unfolding check_claims
  check_claims_complete s c =
      guard_complete _ _ _ (ground (arith, c.email_checked))
      ∙ guard_complete _ _ _ (ground (arith, c.has_email))
      ∙ guard_complete _ _ _ (ground (arith, c.strong))
      ∙ guard_complete _ _ _ (ground (arith, c.recent))

  -- What the exchange of the code and the verification of the token establish.
  record Redeemed (verifier : Text) (s : SignedIn) : Type 0 where
    token : IdToken
    exchanged : idp.exchange (query_get r (txt "code")) verifier ≡ some (some s.raw_id_token)
    verified : idp.verify s.raw_id_token ≡ some token
    nonce_kept : cookie r cookie_nonce ≡ some token.nonce
    decoded : token.claims ≡ some s.claims
    checked : Checked s.claims

  decoded_sound :
      (raw : Text) (token : IdToken) (s : SignedIn)
      (h : (present token.claims undecodable_claims >>= λ c. check_claims a idp now c raw) ≡ ok s)
      → (raw ≡ s.raw_id_token) × (token.claims ≡ some s.claims) × Checked s.claims
  decoded_sound raw token s h =
      let (c, (decoded, k)) = present_sound token.claims _ _ s h in
      let (same, checked) = check_claims_sound c raw s k in
      (
        ap (λ (x : SignedIn). x.raw_id_token) same,
        decoded ∙ ap (λ (x : SignedIn). some x.claims) same,
        rw (ap (λ (x : SignedIn). x.claims) same) at checked,
      )

  nonce_sound :
      (raw : Text) (token : IdToken) (s : SignedIn)
      → (present (cookie r cookie_nonce) nonce_mismatch >>= λ nonce.
          guard
            (nonce == token.nonce)
            nonce_mismatch
            (present token.claims undecodable_claims >>= λ c. check_claims a idp now c raw))
        ≡ ok s
      → (cookie r cookie_nonce ≡ some token.nonce)
        × ((present token.claims undecodable_claims >>= λ c. check_claims a idp now c raw) ≡ ok s)
  nonce_sound raw token s h =
      let (nonce, (kept, k)) = present_sound (cookie r cookie_nonce) _ _ s h in
      let (same, k') = guard_sound _ _ _ s k in
      (kept ∙ ap some ((==_iff nonce token.nonce).0 same), k')

  redeem_sound :
      (verifier : Text) (s : SignedIn) → redeem a idp r now verifier ≡ ok s → Redeemed verifier s
  unfolding redeem
  redeem_sound verifier s h =
      let (answer, (exchanged, h₁)) =
        present_sound (idp.exchange (query_get r (txt "code")) verifier) _ _ s h in
      let (raw, (has_raw, h₂)) = present_sound answer _ _ s h₁ in
      let (token, (verified, h₃)) = present_sound (idp.verify raw) _ _ s h₂ in
      let (nonce_kept, h₄) = nonce_sound raw token s h₃ in
      let (same, decoded, checked) = decoded_sound raw token s h₄ in
      record {
        token = token;
        exchanged = exchanged ∙ ap some (has_raw ∙ ap some same);
        verified = ap idp.verify (sym same) ∙ verified;
        nonce_kept = nonce_kept;
        decoded = decoded;
        checked = checked;
      }

  redeem_complete :
      (verifier : Text) (s : SignedIn) → Redeemed verifier s → redeem a idp r now verifier ≡ ok s
  unfolding redeem
  redeem_complete verifier s d =
      present_complete _ _ _ (some s.raw_id_token) d.exchanged
      ∙ present_complete (some s.raw_id_token) _ _ s.raw_id_token refl
      ∙ present_complete _ _ _ d.token d.verified
      ∙ present_complete _ _ _ d.token.nonce d.nonce_kept
      ∙ guard_complete _ _ _ (==_refl d.token.nonce)
      ∙ present_complete _ _ _ s.claims d.decoded
      ∙ check_claims_complete s d.checked

  is_empty-eq : (t : Text) → is_empty t ≡ true → t ≡ []
  is_empty-eq [] h = refl
  is_empty-eq (c ∷ t) h = absurd (cc)

  signs_in : (s : SignedIn) → sign_in a idp r now ≡ ok s → IsSignIn s
  unfolding sign_in
  signs_in s h =
      let (state, (state_kept, h₁)) = present_sound (cookie r cookie_state) _ _ s h in
      let (state_same, h₂) = guard_sound _ _ _ s h₁ in
      let (no_error, h₃) = guard_sound _ _ _ s h₂ in
      let (verifier, (verifier_kept, h₄)) = present_sound (cookie r cookie_pkce) _ _ s h₃ in
      let d = redeem_sound verifier s h₄ in
      record {
        state = state;
        verifier = verifier;
        token = d.token;
        state_kept = state_kept;
        state_same = (==_iff state (query_get r (txt "state"))).0 state_same;
        no_error = is_empty-eq (query_get r (txt "error")) no_error;
        verifier_kept = verifier_kept;
        exchanged = d.exchanged;
        verified = d.verified;
        nonce_kept = d.nonce_kept;
        decoded = d.decoded;
        email_checked = d.checked.email_checked;
        has_email = d.checked.has_email;
        strong = d.checked.strong;
        recent = d.checked.recent;
      }

  is_signed_in : (s : SignedIn) → IsSignIn s → sign_in a idp r now ≡ ok s
  unfolding sign_in
  is_signed_in s i =
      present_complete _ _ _ i.state i.state_kept
      ∙ guard_complete _ _ _ ((==_iff i.state (query_get r (txt "state"))).1 i.state_same)
      ∙ guard_complete _ _ _ (ap is_empty i.no_error)
      ∙ present_complete _ _ _ i.verifier i.verifier_kept
      ∙ redeem_complete i.verifier s (record {
        token = i.token;
        exchanged = i.exchanged;
        verified = i.verified;
        nonce_kept = i.nonce_kept;
        decoded = i.decoded;
        checked = record {
          email_checked = i.email_checked;
          has_email = i.has_email;
          strong = i.strong;
          recent = i.recent;
        };
      })

  -- The callback accepts a sign-in exactly if its state and its nonce are those of this browser's
  -- cookies, the provider reports no error, exchanges the code under the kept verifier and attests the
  -- ID token, the claims hold an address, verified where that is required, an accepted acr where any
  -- is configured, and a recent authentication where there is an idle timeout.
  pub sign_in_iff : (s : SignedIn) → (sign_in a idp r now ≡ ok s) ↔ IsSignIn s
  sign_in_iff s = (signs_in s, is_signed_in s)
