-- ===== src/Auth/Session/Validate.antt =====
-- Exactly which requests carry a valid session, and when it ends.
use atrium_core.Base.{
  ◌+◌, ◌≤◌, ◌<◌, ◌≡◌, ◌↔◌, some, Text, arith, Option-cases, inl, inr, if◌then◌else◌, ltb,
}
use atrium_core.Base.Result.{Result, ok, err}
use atrium_core.Crypto.{Crypto}
use atrium_core.SignedCookie.{open_token}
use atrium_core.Http.{Request, Out, cookie}
use atrium_core.Auth.Session.{
  SessionData, OidcAuth, Codec, Time, SessionError, session_expired, session_cookie_name,
  last_activity, session_deadline, decode_and_verify, check_idle, validate_session_cookie,
}

module _ (a : OidcAuth) (r : Request) (now' : Time) where
  check_idle_sound :
      (v : Result SessionError SessionData) (w : Out) (d : SessionData)
      → (check_idle a r now' v w).0 ≡ ok d
      → (v ≡ ok d) × (0 < a.session_idle_ttl → now' ≤ last_activity d + a.session_idle_ttl)
  unfolding check_idle
  check_idle_sound (err e) w d h = absurd (cc)
  check_idle_sound (ok d') w d h = ground arith

  check_idle_complete :
      (w : Out) (d : SessionData)
      → (0 < a.session_idle_ttl → now' ≤ last_activity d + a.session_idle_ttl)
      → (check_idle a r now' (ok d) w).0 ≡ ok d
  unfolding check_idle
  check_idle_complete w d h = ground arith

module _ (crypto : Crypto) (codec : Codec) where
  -- A token that is signed under the key, carries the session, and has not expired at `now`.
  record Carries (token key : Text) (now : Time) (d : SessionData) : Type 0 where
    payload : Text
    opened : open_token crypto key token ≡ some payload
    decoded : codec.unmarshal payload ≡ some d
    unexpired : now ≤ d.expires_at

  decode_and_verify_sound :
      (token key : Text) (now : Time) (d : SessionData)
      → decode_and_verify crypto codec token key now ≡ ok d
      → Carries token key now d
  unfolding decode_and_verify
  decode_and_verify_sound token key now d h = elim (Option-cases (open_token crypto key token)) [
    | inl e ↦ absurd (cc (rw (e, decode_and_verify) at h))
    | inr (payload, e) ↦ elim (Option-cases (codec.unmarshal payload)) [
      | inl f ↦ absurd (cc (rw (e, decode_and_verify, f) at h))
      | inr (d', f) ↦ decoded payload d' e f (rw (e, decode_and_verify, f) at h)
    ]
  ]
    where
      decoded :
          (payload : Text) (d' : SessionData)
          → open_token crypto key token ≡ some payload
          → codec.unmarshal payload ≡ some d'
          → (if ltb d'.expires_at now then err session_expired else ok d') ≡ ok d
          → Carries token key now d
      decoded payload d' e f g =
          let same : d' ≡ d = ground arith in
          record {
            payload = payload;
            opened = e;
            decoded = rw (← same) f;
            unexpired = ground arith;
          }

  decode_and_verify_complete :
      (token key : Text) (now : Time) (d : SessionData)
      → Carries token key now d
      → decode_and_verify crypto codec token key now ≡ ok d
  unfolding decode_and_verify
  decode_and_verify_complete token key now d c =
      rw (c.opened, decode_and_verify, c.decoded) (ground (arith, c.unexpired))

  module _ (a : OidcAuth) (r : Request) (now now' : Time) where
    -- The request has a session cookie whose token carries the session, and the session was in use
    -- within the idle timeout, if there is one.
    pub record IsAdmitted (d : SessionData) : Type 0 where
      pub token : Text
      pub payload : Text
      pub present : cookie r session_cookie_name ≡ some token
      pub opened : open_token crypto a.session_key token ≡ some payload
      pub decoded : codec.unmarshal payload ≡ some d
      pub unexpired : now ≤ d.expires_at
      pub in_use : 0 < a.session_idle_ttl → now' ≤ last_activity d + a.session_idle_ttl

    admitted :
        (w : Out) (d : SessionData)
        → (validate_session_cookie crypto codec a r now now' w).0 ≡ ok d
        → IsAdmitted d
    unfolding validate_session_cookie
    admitted w d h = elim (Option-cases (cookie r session_cookie_name)) [
      | inl e ↦ absurd (cc (rw (e, validate_session_cookie) at h))
      | inr (token, e) ↦
          let (v, in_use) =
            check_idle_sound a r now' _ w d (rw (e, validate_session_cookie) at h) in
          let c = decode_and_verify_sound token a.session_key now d v in
          record {
            token = token;
            payload = c.payload;
            present = e;
            opened = c.opened;
            decoded = c.decoded;
            unexpired = c.unexpired;
            in_use = in_use;
          }
    ]

    admits :
        (w : Out) (d : SessionData)
        → IsAdmitted d
        → (validate_session_cookie crypto codec a r now now' w).0 ≡ ok d
    unfolding validate_session_cookie
    admits w d i =
        rw
          (
            i.present,
            validate_session_cookie,
            decode_and_verify_complete i.token a.session_key now d (record {
              payload = i.payload;
              opened = i.opened;
              decoded = i.decoded;
              unexpired = i.unexpired;
            }),
          )
          (check_idle_complete a r now' w d i.in_use)

    -- A session is valid exactly for the requests that `IsAdmitted` describes.
    pub validate_session_cookie_iff :
        (w : Out) (d : SessionData)
        → ((validate_session_cookie crypto codec a r now now' w).0 ≡ ok d) ↔ IsAdmitted d
    validate_session_cookie_iff w d = (admitted w d, admits w d)

    -- No request is admitted after the session's deadline, if the clock does not run backwards.
    pub validate-le-session_deadline :
        (w : Out) (d : SessionData)
        → now ≤ now'
        → (validate_session_cookie crypto codec a r now now' w).0 ≡ ok d
        → now ≤ session_deadline a d
    unfolding session_deadline
    validate-le-session_deadline w d clock h =
        let i = admitted w d h in ground (arith, i.unexpired, i.in_use)
