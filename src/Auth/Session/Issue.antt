-- ===== src/Auth/Session/Issue.antt =====
-- A session that is issued is accepted again, until one of its two timeouts.
use atrium_core.Base.{◌+◌, ◌≤◌, ◌<◌, ◌≡◌, ◌∙◌, some, Text, arith, All, ap, Option-cases, inl, inr}
use atrium_core.Base.Result.{ok}
use atrium_core.Crypto.{Crypto, IsByteValued}
use atrium_core.Url.Bytes.{IsByte}
use atrium_core.SignedCookie.{seal}
use atrium_core.SignedCookie.Laws.{open_token-seal}
use atrium_core.SignedCookie.Written.{sanitized-seal}
use atrium_core.Http.{Request, Out, Cookie, cookie, sanitized, written}
use atrium_core.Auth.Session.{
  SessionData, OidcAuth, Codec, Time, session_cookie_name, last_activity, sign_and_encode,
  session_cookie, create_session_cookie, validate_session_cookie,
}
use atrium_core.Auth.Session.Validate.{validate_session_cookie_iff}

-- Where encoding/json writes the session, it writes bytes, and gives the session back from them.
pub record IsFaithful (codec : Codec) (d : SessionData) : Type 0 where
  pub reads : (payload : Text) → codec.marshal d ≡ some payload → codec.unmarshal payload ≡ some d
  pub bytes : (payload : Text) → codec.marshal d ≡ some payload → All IsByte payload

-- The session that a sign-in at the instant `now` starts.
abbrev pub started : OidcAuth → Text → Text → Time → SessionData
started a email id_token now = record {
  email = email;
  issued_at = now;
  expires_at = now + a.session_absolute_ttl;
  last_seen = now;
  id_token = id_token;
}

module _ (crypto : Crypto) (codec : Codec) (a : OidcAuth) where
  session_cookie-value :
      (d : SessionData) (now : Time) (c : Cookie)
      → session_cookie crypto codec a d now ≡ some c
      → (payload : Text) × ((codec.marshal d ≡ some payload)
          × (c.value ≡ seal crypto a.session_key payload))
  unfolding session_cookie sign_and_encode
  session_cookie-value d now c h = elim (Option-cases (codec.marshal d)) [
    | inl e ↦ absurd (cc (rw (e, session_cookie) at h))
    | inr (payload, e) ↦ (payload, (e, ground arith))
  ]

  -- The cookie of a new session is written as it is.
  pub create_session_cookie-written :
      (email id_token : Text) (now now' : Time) (c : Cookie)
      → create_session_cookie crypto codec a email id_token now now' ≡ some c
      → written c ≡ c
  unfolding create_session_cookie
  create_session_cookie-written email id_token now now' c h =
      let (payload, (_, value)) = session_cookie-value (started a email id_token now) now' c h in
      let kept : sanitized c.value ≡ c.value =
        rw value (sanitized-seal crypto a.session_key payload) in
      ap (λ v. record c { value = v }) kept

  last_activity-started :
      (email id_token : Text) (now : Time) → last_activity (started a email id_token now) ≡ now
  unfolding last_activity
  last_activity-started email id_token now = ground arith

  -- A browser that presents the cookie of a new session is admitted with that session: the address and
  -- the ID token of the sign-in, as long as neither the absolute lifetime nor the idle timeout, where
  -- there is one, has passed since.
  pub validate-create :
      (email id_token : Text) (now now' later later' : Time) (c : Cookie) (r : Request) (w : Out)
      → IsByteValued crypto
      → IsFaithful codec (started a email id_token now)
      → create_session_cookie crypto codec a email id_token now now' ≡ some c
      → cookie r session_cookie_name ≡ some c.value
      → later ≤ now + a.session_absolute_ttl
      → (0 < a.session_idle_ttl → later' ≤ now + a.session_idle_ttl)
      → (validate_session_cookie crypto codec a r later later' w).0
        ≡ ok (started a email id_token now)
  unfolding create_session_cookie
  validate-create email id_token now now' later later' c r w valued faithful made sent unexpired
        in_use =
      let d = started a email id_token now in
      let (payload, (written, value)) = session_cookie-value d now' c made in
      (validate_session_cookie_iff crypto codec a r later later' w d).1 (record {
        token = seal crypto a.session_key payload;
        payload = payload;
        present = sent ∙ ap some value;
        opened =
            open_token-seal crypto a.session_key payload valued (faithful.bytes payload written);
        decoded = faithful.reads payload written;
        unexpired = unexpired;
        in_use = λ p. rw (last_activity-started email id_token now) (in_use p);
      })
